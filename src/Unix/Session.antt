-- ===== src/Unix/Session.antt =====
-- A whole session over the local transport, from the client's bytes and descriptors to the program
-- that the daemon runs, and back to the client's exit status.
use capsudo_rs.Base.{
  ℕ, ◌≡◌, ◌≢◌, refl, sym, ap, ◌∙◌, append-nil, subst, false, List, [], ◌∷◌, ◌++◌, Option, some,
  length, All, arith,
}
use capsudo_rs.Base.Result.{Result, ok}
use capsudo_rs.Base.Int.{ℤ, IsI32, i32_bits}
use capsudo_rs.Base.Bytes.{length-to_le}
use capsudo_rs.Base.Utf8.{IsStr}
use capsudo_rs.Proto.Defs.{SessionType}
use capsudo_rs.Proto.Message
use capsudo_rs.Transport.Defs.{TransportError}
use capsudo_rs.Transport.Bytes.{Reader}
use capsudo_rs.Core.Defs.{DaemonConfig, ClientRequest, Stdio, exited}
use capsudo_rs.Core.Channel.{Event, Channel}
use capsudo_rs.Core.Client.{await_outcome, send_configuration}
use capsudo_rs.Core.Handshake.{config_messages, send_configuration-Prefix}
use capsudo_rs.Core.Delivery.{deliver, delegated, IsDims}
use capsudo_rs.Core.Outcome.{events}
use capsudo_rs.Core.Command.{Command, ExitStatus, build_command, exit_code}
use capsudo_rs.Core.System.{System}
use capsudo_rs.Core.Session.{launch, serve_connection}
use capsudo_rs.Core.Served.{with_context, serve_connection-config_messages}
use capsudo_rs.Unix.Recv.{Arrival}
use capsudo_rs.Unix.Send.{Socket}
use capsudo_rs.Unix.Stream.{Outbox, Inbox}
use capsudo_rs.Unix.Queued.{Takes, Posting, posted, tagged, send_messages, send_messages-queued}
use capsudo_rs.Unix.Ordered.{IsTaken, recv_each, recv_each-tagged}

-- One end's messages, as the calls of `recv` at the other end return them.
recv_each-send_messages :
    {W : Type 0} (socket : Socket W) (outbox : Outbox socket) (reader : Reader (List Arrival))
    (inbox : Inbox reader) (ps : List Posting) (w w' : W) (as' : List Arrival)
    → All (λ p. All Takes p.1) ps
    → All IsTaken (posted ps)
    → outbox.queued w ≡ []
    → send_messages socket ps w ≡ some (ok tt, w')
    → inbox.coming as' ≡ outbox.queued w'
    → (rest : List Arrival) × (recv_each reader (length (posted ps)) as'
        ≡ some (deliver (posted ps), rest))
      × (inbox.coming rest ≡ [])
recv_each-send_messages socket outbox reader inbox ps w w' as' takes taken fresh sent arrives =
    recv_each-tagged reader inbox (posted ps) [] as' taken (
      arrives
      ∙ send_messages-queued socket outbox ps w w' takes sent
      ∙ ap (λ l. l ++ tagged (posted ps)) fresh
      ∙ sym (append-nil (tagged (posted ps))))

exit-IsTaken : (code : ℤ) → IsTaken (Message.exit code, [])
unfolding Message.exit
exit-IsTaken code = (omega (arith, length-to_le 4 (i32_bits code)), omega arith)

-- A whole session over the local transport. What `send_configuration` sends goes through the socket
-- in whatever parts it takes; the daemon's calls of `recv` return those messages whole, in order and
-- with the descriptors, and no byte is left over. With them the daemon runs the program that its
-- policy makes of the request, sends its exit status and nothing else, and the client that receives
-- it ends with that status. The sockets keep what `Outbox` and `Inbox` promise, and nothing else was
-- queued; each message is one that `recv` can take; the session is off a terminal, its strings are
-- UTF-8 and its dimensions `u16`s; nothing that is sent fails, and the program can be spawned and
-- ends.
pub session_over_unix :
    {W V : Type 0} (socket : Socket W) (outbox : Outbox socket) (reader : Reader (List Arrival))
    (inbox : Inbox reader) (socket' : Socket V) (outbox' : Outbox socket')
    (reader' : Reader (List Arrival)) (inbox' : Inbox reader') (sys : System) (n : ℕ)
    (context : Option (List ℕ)) (c : DaemonConfig) (q : ClientRequest) (stdio : Stdio)
    (secret : Option (List ℕ)) (ch ch' : Channel) (ps ps' : List Posting) (w w' : W) (v v' : V)
    (as' bs : List Arrival) (command : Command) (child : ℕ) (status : ExitStatus)
    (es es' : List Event) (ss : List (Result TransportError (Unit {0})))
    → ch.sent ≡ []
    → send_configuration q stdio secret ch ≡ some (ok tt, ch')
    → posted ps ≡ ch'.sent
    → All IsTaken ch'.sent
    → All (λ p. All Takes p.1) ps
    → outbox.queued w ≡ []
    → send_messages socket ps w ≡ some (ok tt, w')
    → inbox.coming as' ≡ outbox.queued w'
    → All IsStr q.env
    → All IsStr q.args
    → IsDims q.winsize
    → q.session_type ≢ SessionType.interactive
    → build_command (delegated c q stdio).argv (delegated c q stdio).envp ≡ some command
    → sys.spawn (launch (with_context (delegated c q stdio) context) command) ≡ ok child
    → sys.wait child false ≡ ok status
    → IsI32 (exit_code status)
    → posted ps' ≡ (Message.exit (exit_code status), []) ∷ []
    → All (λ p. All Takes p.1) ps'
    → outbox'.queued v ≡ []
    → send_messages socket' ps' v ≡ some (ok tt, v')
    → inbox'.coming bs ≡ outbox'.queued v'
    → (received : List Event) × (answered : List Event) × (rest : List Arrival) × (rest' : List
        Arrival)
      × (recv_each reader (length ch'.sent) as' ≡ some (received, rest))
      × (inbox.coming rest ≡ [])
      × (serve_connection sys n context c
            (record { recvs = received ++ es; sends = ok tt ∷ ss; sent = [] })
          ≡ some (
            ok tt,
            record { recvs = es; sends = ss; sent = (Message.exit (exit_code status), []) ∷ [] },
          ))
      × (recv_each reader' 1 bs ≡ some (answered, rest'))
      × (await_outcome (answered ++ es') ≡ some (ok (exited (exit_code status)), es'))
session_over_unix socket outbox reader inbox socket' outbox' reader' inbox' sys n context c q stdio
      secret ch ch' ps ps' w w' v v' as' bs command child status es es' ss fresh configured post
      taken takes empty sent arrives env_ok args_ok dims_ok direct built spawned waited range post'
      takes' empty' sent' arrives' =
    let (front, back, split, wrote, _, whole) =
      send_configuration-Prefix q stdio secret ch ch' (ok tt) configured in
    let all_sent : ch'.sent ≡ config_messages q stdio secret =
      wrote
      ∙ ap (λ l. l ++ front) fresh
      ∙ sym (split ∙ ap (λ l. front ++ l) (whole refl) ∙ append-nil front) in
    let (rest, came, none_left) =
      recv_each-send_messages socket outbox reader inbox ps w w' as' takes
        (subst (All IsTaken) (sym post) taken) empty sent arrives in
    let (rest', came', _) =
      recv_each-send_messages socket' outbox' reader' inbox' ps' v v' bs takes'
        (subst (All IsTaken) (sym post') (exit-IsTaken (exit_code status), tt)) empty' sent'
        arrives' in
    let (served, told) =
      serve_connection-config_messages sys n context c q stdio secret command child status es es' ss
        [] env_ok args_ok dims_ok direct built spawned waited range in
    (
      deliver ch'.sent,
      events (Message.exit (exit_code status) ∷ []),
      rest,
      rest',
      ap (λ l. recv_each reader (length l) as') (sym post)
          ∙ came
          ∙ ap (λ l. some (deliver l, rest)) post,
      none_left,
      ap
            (λ l.
              serve_connection sys n context c
                (record { recvs = deliver l ++ es; sends = ok tt ∷ ss; sent = [] }))
            all_sent
          ∙ served,
      ap (λ l. recv_each reader' (length l) bs) (sym post')
          ∙ came'
          ∙ ap (λ l. some (deliver l, rest')) post',
      told,
    )
