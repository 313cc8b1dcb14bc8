-- ===== src/Capsudo/Reconnect.antt =====
-- The client and the front-end together: a first connection without a secret, and a second with one.
use capsudo_rs.Base.{
  ℕ, ◌≡◌, ◌≢◌, refl, sym, ap, append-nil, ◌∙◌, Bool, true, List, [], ◌∷◌, ◌++◌, Option, none, some,
  inr,
}
use capsudo_rs.Base.Result.{Result, ok}
use capsudo_rs.Base.Int.{ℤ, IsI32}
use capsudo_rs.Base.Utf8.{IsStr}
use capsudo_rs.Proto.Defs.{Message, FieldType, SessionType}
use capsudo_rs.Proto.Message
use capsudo_rs.Transport.Defs.{FdSpec, TransportError, PeerCred}
use capsudo_rs.Core.Defs.{CoreError, ClientRequest, Stdio, SessionOutcome, exited, unauthorized}
use capsudo_rs.Core.Channel.{Event, Channel, receiving}
use capsudo_rs.Core.Client.{stdio_specs, send_configuration, await_outcome, run_session}
use capsudo_rs.Core.Handshake.{
  Sent, config_messages, plain, winsize_messages, send_configuration-Prefix,
}
use capsudo_rs.Core.Delivery.{deliver, handles}
use capsudo_rs.Core.Outcome.{events, await_outcome-exit, first_error}
use capsudo_rs.Pwauth.Shadow.{check_password}
use capsudo_rs.Pwauth.Gate.{closed, chained, auth_prompt}
use capsudo_rs.Pwauth.Admission.{handle_client-demand, demand-unauthorized}
use capsudo_rs.Unix.Connect.{peer_cred}
use capsudo_rs.Pwauth.Front.{Host, handle}
use capsudo_rs.Pwauth.Pipeline.{messages, handle-secret}
use capsudo_rs.Capsudo.Retry.{exit_byte, connect_loop, connect_loop-authenticates}

-- A configuration without a secret begins with another message.
first_message :
    (env args : List (List ℕ)) (t : SessionType) (tail : List Sent)
    → (m : Message) × (fds : List FdSpec) × (ms : List Sent) × (plain Message.env env
          ++ (plain Message.arg args ++ ((Message.session_type t, []) ∷ tail))
        ≡ (m, fds) ∷ ms)
      × (m.field_type ≢ FieldType.secret)
unfolding Message.env Message.arg Message.session_type
first_message (e ∷ env) args t tail = (Message.env e, [], _, refl, (λ h. cc))
first_message [] (a ∷ args) t tail = (Message.arg a, [], _, refl, (λ h. cc))
first_message [] [] t tail = (Message.session_type t, [], tail, refl, (λ h. cc))

-- A session on a channel that gives its outcome, whether or not the configuration could be sent.
run_session-outcome :
    (q : ClientRequest) (stdio : Stdio) (secret : Option (List ℕ)) (ch ch1 : Channel)
    (r : Result CoreError (Unit {0})) (o : SessionOutcome) (rest : List Event)
    → send_configuration q stdio secret ch ≡ some (r, ch1)
    → await_outcome ch.recvs ≡ some (ok o, rest)
    → run_session q stdio secret ch ≡ some (ok o, record ch1 { recvs = rest })
unfolding run_session
run_session-outcome q stdio secret ch ch1 r o rest sent told =
    let (_, _, _, _, kept, _) = send_configuration-Prefix q stdio secret ch ch1 r sent in
    rw (sent, run_session) (rw (ap await_outcome kept ∙ told, receiving) refl)

module _ (host : Host) (q : ClientRequest) (stdio : Stdio) where
  -- The front-end on a connection that begins without a secret.
  handle-demand :
      (cmd : List (List ℕ)) (cred : PeerCred) (user : List ℕ) (taken : Bool) (es : List Event)
      (rest : List (Result TransportError (Unit {0})))
      → host.user_of cred.uid ≡ some user
      → IsStr (auth_prompt host.name user)
      → (left : List Event) × (handle host cmd
            (record { channel = messages q stdio none es rest; creds = ok cred; taken = taken })
          ≡ some (
            closed,
            record {
              recvs = left;
              sends = rest;
              sent = (Message.unauthorized (auth_prompt host.name user), []) ∷ [];
            },
          ))
  unfolding peer_cred
  handle-demand cmd cred user taken es rest known str =
      let (m, fds, ms, split, other) = first_message q.env q.args q.session_type (
        winsize_messages q.winsize
        ++ ((Message.fds 3, stdio_specs stdio) ∷ (Message.end, []) ∷ [])) in
      let (demanded, _) =
        handle_client-demand host.user_of host.name host.crypt host.shadow cred user taken cmd
          (record { message = m; fds = handles fds }) (deliver ms ++ es) [] rest known (inr other)
          str in
      (
        deliver ms ++ es,
        ap
              (λ l. handle host cmd (record {
                channel = record { recvs = deliver l ++ es; sends = ok tt ∷ rest; sent = [] };
                creds = ok cred;
                taken = taken;
              }))
              split
            ∙ demanded,
      )

module _ {S : Type 0} (prompt_secret : List ℕ → S → Option (Option (List ℕ) × S)) where
  -- A user who must authenticate, from both ends. A client without a secret connects: the
  -- front-end answers its first message with a demand of the user's password and closes. The client
  -- sends on this connection a front of its configuration, however far it gets, and on a second one
  -- the whole of it behind the secret that was typed at that demand; the front-end passes that on to
  -- its capsudod with all that follows the secret, if `crypt` accepts it. Once the daemon has
  -- reported the exit status of a program that ran without an error, the client ends with that
  -- status, to eight bits, after the two connections. The command is not empty, the password
  -- database has the client's user, the prompt is UTF-8, the socket can be handed over, the client's
  -- sending on the first connection comes to an end, in an error or not, and on the second all of it
  -- can be sent.
  pub connect_loop-demand :
      (host : Host) (q : ClientRequest) (stdio : Stdio) (program : List ℕ) (args : List (List ℕ))
      (cred : PeerCred) (user s : List ℕ) (taken : Bool) (es es' : List Event)
      (rest rest' : List (Result TransportError (Unit {0}))) (ch next ch' next' : Channel)
      (r : Result CoreError (Unit {0})) (x y : List Event) (code : ℤ) (cs : List (Option Channel))
      (t t' : S)
      → host.user_of cred.uid ≡ some user
      → check_password host.crypt host.shadow user s ≡ true
      → let prompt = auth_prompt host.name user in
        IsStr prompt
        → prompt_secret prompt t ≡ some (some s, t')
        → ch.sent ≡ []
        → next.sent ≡ []
        → ch.recvs ≡ events (Message.unauthorized prompt ∷ []) ++ x
        → next.recvs ≡ events (Message.exit code ∷ []) ++ y
        → send_configuration q stdio none ch ≡ some (r, ch')
        → send_configuration q stdio (some s) next ≡ some (ok tt, next')
        → IsI32 code
        → ((left : List Event) × (handle host
                (program ∷ args)
                (record { channel = messages q stdio none es rest; creds = ok cred; taken = taken })
              ≡ some (
                closed,
                record {
                  recvs = left;
                  sends = rest;
                  sent = (Message.unauthorized prompt, []) ∷ [];
                },
              )))
          × (handle host (program ∷ args) (record {
            channel = messages q stdio (some s) es' rest';
            creds = ok cred;
            taken = true;
          })
              ≡ some (chained program args, messages q stdio none es' rest'))
          × (connect_loop prompt_secret q stdio none (some ch ∷ some next ∷ cs) t
              ≡ some (
                exit_byte code,
                some (record ch' { recvs = x }) ∷ some (record next' { recvs = y }) ∷ [],
                t',
              ))
          × ((back : List Sent) × (config_messages q stdio none ≡ ch'.sent ++ back))
          × (next'.sent ≡ config_messages q stdio (some s))
  connect_loop-demand host q stdio program args cred user s taken es es' rest rest' ch next ch'
        next' r x y code cs t t' known verified str typed fresh fresh' asked reported sent sent'
        range =
      let prompt = auth_prompt host.name user in
      let (front, back, split, wrote, _, _) =
        send_configuration-Prefix q stdio none ch ch' r sent in
      let (front', back', split', wrote', _, whole) =
        send_configuration-Prefix q stdio (some s) next next' (ok tt) sent' in
      let demanded = ap await_outcome asked ∙ demand-unauthorized prompt x str in
      let ended = ap await_outcome reported ∙ await_outcome-exit [] code y tt range in
      (
        handle-demand host q stdio (program ∷ args) cred user taken es rest known str,
        handle-secret host (program ∷ args) program args cred user s q stdio es' rest' refl known
            verified,
        connect_loop-authenticates prompt_secret q stdio ch (record ch' { recvs = x }) next
            (record next' { recvs = y }) prompt s code cs t t'
            (run_session-outcome q stdio none ch ch' r (unauthorized prompt) x sent demanded) typed
            (run_session-outcome q stdio (some s) next next' (ok tt) (exited code) y sent'
              (unfold first_error in ended)),
        (back, split ∙ ap (λ l. l ++ back) (sym (wrote ∙ ap (λ l. l ++ front) fresh))),
        wrote'
            ∙ ap (λ l. l ++ front') fresh'
            ∙ sym (split' ∙ ap (λ l. front' ++ l) (whole refl) ∙ append-nil front'),
      )
