-- ===== src/Capsudod/Serve.antt =====
-- main.rs of capsudod: `main`. What it prints is left out. An accepted connection is the channel of its
-- client; the tasks that serve connections share nothing, and each has a channel of its own.
use capsudo_rs.Base.{ℕ, List, [], ◌∷◌, Option, none, some}
use capsudo_rs.Base.Result.{Result, ok, err}
use capsudo_rs.Transport.Defs.{IoError, TransportError}
use capsudo_rs.Unix.Connect.{UnixTransport, from_fd}
use capsudo_rs.Unix.Listen.{Answer, Call, bind}
use capsudo_rs.Core.Defs.{CoreError, DaemonConfig}
use capsudo_rs.Core.Channel.{Channel}
use capsudo_rs.Core.System.{System}
use capsudo_rs.Core.Session.{serve_connection}
use capsudo_rs.Capsudod.Options.{Options, parse_options, policy}

-- A client's connection: its channel, its security context, and how many messages arrive before a
-- program on a terminal exits of its own.
pub record Connection : Type 0 where
  pub channel : Channel
  pub context : Option (List ℕ)
  pub messages : ℕ

-- A session: `none` while it has not returned.
abbrev pub Session : Type 0
Session = Option (Result CoreError (Unit {0}) × Channel)

-- How the process stands: it has exited with a code, waits for its only session, or accepts
-- connections forever and has started these sessions, after these calls for its socket.
pub data Run : Type 0 where
  exits : (code : ℕ) → Run
  waits : Run
  served : (code : ℕ) → Channel → Run
  listening : List Call → List Session → Run

-- What the host gives the process beside its arguments: the inherited stdin with the two calls that
-- take it over, the answers for the socket, and the results of `accept`.
pub record Host : Type 0 where
  pub stdin : Connection
  pub set_nonblocking : ℕ → Result IoError (Unit {0})
  pub from_std : ℕ → Result IoError ℕ
  pub answer : Answer
  pub accepts : List (Result TransportError Connection)

-- The exit code that a session on stdin gives, with what is left of the connection.
abbrev pub exit_of : Session → Run
exit_of none = waits
exit_of (some (ok u, ch)) = served 0 ch
exit_of (some (err e, ch)) = served 1 ch

module _ (sys : System) where
  abbrev pub serve : DaemonConfig → Connection → Session
  serve config conn = serve_connection sys conn.messages conn.context config conn.channel

  -- The loop over `accept`.
  unfoldable pub accept_loop : DaemonConfig → List (Result TransportError Connection) → List Session
  accept_loop config [] = []
  accept_loop config (err e ∷ accepts) = accept_loop config accepts
  accept_loop config (ok conn ∷ accepts) = serve config conn ∷ accept_loop config accepts

  abbrev pub on_stdin : DaemonConfig → Connection → Result TransportError UnixTransport → Run
  on_stdin config conn (err e) = exits 1
  on_stdin config conn (ok transport) = exit_of (serve config conn)

  unfoldable pub one_shot : DaemonConfig → Host → Run
  one_shot config host = on_stdin config host.stdin (from_fd host.set_nonblocking host.from_std 0)

  abbrev pub on_bound :
      DaemonConfig
      → List (Result TransportError Connection)
      → Result TransportError (Unit {0}) × List Call
      → Run
  on_bound config accepts (err e, calls) = exits 1
  on_bound config accepts (ok u, calls) = listening calls (accept_loop config accepts)

  abbrev pub on_socket : Option (List ℕ) → Options → Host → Run
  on_socket none o host = one_shot (policy o) host
  on_socket (some socket) o host =
      on_bound (policy o) host.accepts (bind host.answer socket o.uid o.gid o.mode)

  abbrev pub on_options : Option Options → Host → Run
  on_options none host = exits 2
  on_options (some o) host = on_socket o.socket o host

  module _ (users : List ℕ → Option (ℕ × ℕ)) (groups : List ℕ → Option ℕ) where
    unfoldable pub main : List (List ℕ) → Host → Run
    main args host = on_options (parse_options users groups args) host
