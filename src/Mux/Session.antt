-- ===== src/Mux/Session.antt =====
-- A whole session over the multiplexer: the client's configuration as its writer sends it, the daemon's
-- reader, and the session that the daemon serves with the local ends of the delegated descriptors.
use capsudo_rs.Base.{
  ℕ, ◌≤◌, ◌<◌, ◌≡◌, ◌≢◌, refl, sym, ap, ◌∙◌, false, List, [], ◌∷◌, ◌++◌, map, append_assoc, Option,
  none, some, arith, length, All, All-append,
}
use capsudo_rs.Base.Result.{Result, ok}
use capsudo_rs.Base.Bytes.{IsU32}
use capsudo_rs.Base.Int.{IsI32}
use capsudo_rs.Base.Utf8.{IsStr}
use capsudo_rs.Proto.Defs.{Message, SessionType}
use capsudo_rs.Proto.Message
use capsudo_rs.Proto.Message.{Dims}
use capsudo_rs.Transport.Defs.{FdDir, TransportError, unexpected_eof}
use capsudo_rs.Transport.Bytes.{Reader, Writer}
use capsudo_rs.Core.Defs.{DaemonConfig, ClientRequest, Stdio, exited}
use capsudo_rs.Core.Channel.{Event}
use capsudo_rs.Core.Client.{await_outcome, stdio_specs}
use capsudo_rs.Core.Handshake.{Sent, plain, secret_messages, winsize_messages, config_messages}
use capsudo_rs.Core.Delivery.{deliver, delegated, IsDims}
use capsudo_rs.Core.Outcome.{events}
use capsudo_rs.Core.Command.{Command, ExitStatus, build_command, exit_code}
use capsudo_rs.Core.System.{System}
use capsudo_rs.Core.Session.{launch, serve_connection}
use capsudo_rs.Core.Served.{with_context, serve_connection-config_messages}
use capsudo_rs.Mux.Defs.{max_window, CtrlItem}
use capsudo_rs.Mux.Flow.{Flow}
use capsudo_rs.Mux.Writer.{waiting, writer_task}
use capsudo_rs.Mux.Reader.{Reading, start_reading, left, reader_loop, received}
use capsudo_rs.Mux.Sent.{Item, IsItem, messages}
use capsudo_rs.Mux.Passing.{given_out, made}
use capsudo_rs.Mux.Delegation.{delegating, reader_loop-delegating}

-- What the daemon's calls of `recv` return, once the channel has ended.
abbrev pub handed_up : List CtrlItem → List Event
handed_up [] = ok none ∷ []
handed_up (item ∷ items) = ok (some (received item)) ∷ handed_up items

-- The messages of a configuration up to the one that carries the descriptors.
abbrev front : ClientRequest → Option (List ℕ) → List Sent
front q secret =
    secret_messages secret
    ++ (plain Message.env q.env
        ++ (plain Message.arg q.args
            ++ ((Message.session_type q.session_type, []) ∷ winsize_messages q.winsize)))

abbrev bare : List Sent → List Message
bare [] = []
bare ((m, specs) ∷ sent) = m ∷ bare sent

abbrev pub texts : ClientRequest → Option (List ℕ) → List Message
texts q secret = bare (front q secret)

abbrev IsPlain : List Sent → Type 0
IsPlain = All (λ s. s.1 ≡ [])

plain-IsPlain : (make : List ℕ → Message) (ss : List (List ℕ)) → IsPlain (plain make ss)
plain-IsPlain make [] = tt
plain-IsPlain make (s ∷ ss) = (refl, plain-IsPlain make ss)

secret_messages-IsPlain : (secret : Option (List ℕ)) → IsPlain (secret_messages secret)
secret_messages-IsPlain none = tt
secret_messages-IsPlain (some s) = (refl, tt)

winsize_messages-IsPlain : (w : Option Dims) → IsPlain (winsize_messages w)
winsize_messages-IsPlain none = tt
winsize_messages-IsPlain (some dims) = (refl, tt)

front-IsPlain : (q : ClientRequest) (secret : Option (List ℕ)) → IsPlain (front q secret)
front-IsPlain q secret =
    let last : List Sent = (Message.session_type q.session_type, []) ∷ winsize_messages q.winsize in
    All-append (λ s. s.1 ≡ []) (secret_messages secret)
      (plain Message.env q.env ++ (plain Message.arg q.args ++ last))
      (secret_messages-IsPlain secret)
      (All-append (λ s. s.1 ≡ []) (plain Message.env q.env) (plain Message.arg q.args ++ last)
        (plain-IsPlain Message.env q.env)
        (All-append (λ s. s.1 ≡ []) (plain Message.arg q.args) last
          (plain-IsPlain Message.arg q.args) (refl, winsize_messages-IsPlain q.winsize)))

config_messages-front :
    (q : ClientRequest) (stdio : Stdio) (secret : Option (List ℕ))
    → config_messages q stdio secret
      ≡ front q secret ++ ((Message.fds 3, stdio_specs stdio) ∷ (Message.end, []) ∷ [])
config_messages-front q stdio secret = simp append_assoc

deliver-bare :
    (xs ys : List Sent) → IsPlain xs → deliver (xs ++ ys) ≡ events (bare xs) ++ deliver ys
deliver-bare [] ys h = refl
deliver-bare ((m, specs) ∷ xs) ys (none_sent, h) = rw (none_sent, deliver-bare xs ys h) refl

handed_up-control :
    (ms : List Message) (items : List CtrlItem)
    → handed_up (map CtrlItem.control ms ++ items) ≡ events ms ++ handed_up items
unfolding received
handed_up-control [] items = refl
handed_up-control (m ∷ ms) items =
    ap (◌∷◌ (ok (some (record { message = m; fds = [] })))) (handed_up-control ms items)

-- The two socket pairs of the delegated descriptors, by the ends that are handed out.
abbrev pub pairs_of : Stdio → ℕ × ℕ × ℕ → List (ℕ × ℕ)
pairs_of (i, o, e) (i', o', e') = (i, i') ∷ (o, o') ∷ (e, e') ∷ []

-- A configuration with its descriptors, as the daemon's session is handed it.
handed_up-config :
    (q : ClientRequest) (secret : Option (List ℕ)) (ends ours : ℕ × ℕ × ℕ) (ms ns : List Message)
    → ms ≡ texts q secret
    → ns ≡ Message.end ∷ []
    → handed_up (
        map CtrlItem.control ms
        ++ (CtrlItem.fds (given_out (pairs_of ends ours)) ∷ map CtrlItem.control ns))
      ≡ deliver (config_messages q ends secret) ++ (ok none ∷ [])
unfolding received
handed_up-config q secret ends ours ms ns h k =
    let tail : List Sent = (Message.fds 3, stdio_specs ends) ∷ (Message.end, []) ∷ [] in
    handed_up-control ms (CtrlItem.fds (given_out (pairs_of ends ours)) ∷ map CtrlItem.control ns)
    ∙ ap
        (λ l.
          events ms
          ++ handed_up (CtrlItem.fds (given_out (pairs_of ends ours)) ∷ map CtrlItem.control l))
        k
    ∙ ap (λ l. events l ++ (deliver tail ++ (ok none ∷ []))) h
    ∙ sym (append_assoc (events (texts q secret)) (deliver tail) (ok none ∷ []))
    ∙ ap (λ l. l ++ (ok none ∷ []))
        (sym (deliver-bare (front q secret) tail (front-IsPlain q secret)))
    ∙ ap (λ l. deliver l ++ (ok none ∷ [])) (sym (config_messages-front q ends secret))

-- A whole session between two ends that share no descriptors: the client's writer sends its
-- configuration, with owed credit, grants and closed streams of its own in between, and three
-- delegated streams in the place of its descriptors; the daemon's reader hands its session the whole
-- configuration with the local ends of its own sockets, and the session runs, with these as its
-- descriptors, the program that the daemon's policy makes of the request, and sends its exit status
-- and nothing else; the client ends with that status. No write fails, the channel gives the reader
-- what was written and then ends, the window is between 1 and the largest that is accepted, ids are
-- `u32`s and the messages within the maximum; the session is off a terminal, its strings are UTF-8
-- and its dimensions `u16`s, the program can be spawned and ends, and the status can be sent.
pub session_over_mux :
    {W R : Type 0} (writer : Writer W) (reader : Reader R) (sys : System) (p : Flow) (window : ℕ)
    (ends ours : ℕ × ℕ × ℕ) (others : List (Option (ℕ × ℕ))) (before after : List Item)
    (specs : List (ℕ × FdDir)) (w w' : W) (r : R) (fuel n : ℕ) (c : DaemonConfig)
    (q : ClientRequest) (secret : Option (List ℕ)) (command : Command) (child : ℕ)
    (status : ExitStatus) (es' : List Event) (rest : List (Result TransportError (Unit {0})))
    → All IsItem before
    → All IsItem after
    → All (λ spec. IsU32 spec.0) specs
    → 3 ≡ length specs
    → messages before ≡ texts q secret
    → messages after ≡ Message.end ∷ []
    → 1 ≤ p.window
    → p.window ≤ max_window
    → writer.written w ≡ []
    → writer_task writer p (delegating before specs after) w ≡ (waiting, w')
    → reader.content r ≡ writer.written w'
    → reader.ending r ≡ unexpected_eof
    → length (reader.content r) < fuel
    → All IsStr q.env
    → All IsStr q.args
    → IsDims q.winsize
    → q.session_type ≢ SessionType.interactive
    → build_command (delegated c q ends).argv (delegated c q ends).envp ≡ some command
    → sys.spawn (launch (with_context (delegated c q ends) none) command) ≡ ok child
    → sys.wait child false ≡ ok status
    → IsI32 (exit_code status)
    → (s : Reading) × (reader_loop reader fuel r
          (start_reading window (made (pairs_of ends ours) others))
        ≡ left s)
      × (serve_connection sys n none c
            (record { recvs = handed_up s.ctrl; sends = ok tt ∷ rest; sent = [] })
          ≡ some (
            ok tt,
            record {
              recvs = ok none ∷ [];
              sends = rest;
              sent = (Message.exit (exit_code status), []) ∷ [];
            },
          ))
      × (await_outcome (events (Message.exit (exit_code status) ∷ []) ++ es')
          ≡ some (ok (exited (exit_code status)), es'))
session_over_mux writer reader sys p window ends ours others before after specs w w' r fuel n c q
      secret command child status es' rest items more ids three first last nonzero narrow fresh
      wrote content ending enough env_ok args_ok dims_ok direct built spawned waited range =
    let (s, ran, ctrl) =
      reader_loop-delegating writer reader p window (pairs_of ends ours) others before after specs w
        w' r fuel items more ids (omega (arith, three)) three nonzero narrow fresh wrote content
        ending enough in
    let (served, told) =
      serve_connection-config_messages sys n none c q ends secret command child status
        (ok none ∷ []) es' rest [] env_ok args_ok dims_ok direct built spawned waited range in
    (
      s,
      ran,
      ap
            (λ l.
              serve_connection sys n none c (record { recvs = l; sends = ok tt ∷ rest; sent = [] }))
            (ap handed_up ctrl
              ∙ handed_up-config q secret ends ours (messages before) (messages after) first last)
          ∙ served,
      told,
    )
