-- ===== src/Pwauth/Front.antt =====
-- main.rs of capsudod-pwauth: `main`. What it prints is left out, and so is the signal that is ignored
-- so that children need no wait. The tasks that handle clients share nothing.
use capsudo_rs.Base.{ℕ, Bool, List, [], ◌∷◌, Option, none, some}
use capsudo_rs.Base.Result.{Result, ok, err}
use capsudo_rs.Transport.Defs.{IoError, TransportError, PeerCred}
use capsudo_rs.Unix.Connect.{peer_cred}
use capsudo_rs.Unix.Listen.{Answer, Call, bind}
use capsudo_rs.Core.Channel.{Channel}
use capsudo_rs.Pwauth.Options.{Options, parse_options}
use capsudo_rs.Pwauth.Gate.{Handled, handle_client}

-- A connection: its channel, what `getsockopt` says of its peer, and whether its socket can be taken
-- back from the runtime.
pub record Connection : Type 0 where
  pub channel : Channel
  pub creds : Result IoError PeerCred
  pub taken : Bool

-- A client: `none` while it is being handled.
abbrev pub Client : Type 0
Client = Option (Handled × Channel)

-- How the process stands: it has exited with a code, or accepts connections forever and has begun to
-- handle these clients, after these calls for its socket.
pub data Run : Type 0 where
  exits : (code : ℕ) → Run
  listening : List Call → List Client → Run

-- What the system answers: the databases behind the owner specs, the user of a uid, the host's name,
-- `crypt`, the shadow file, and the calls for the socket.
pub record Host : Type 0 where
  pub users : List ℕ → Option (ℕ × ℕ)
  pub groups : List ℕ → Option ℕ
  pub user_of : ℕ → Option (List ℕ)
  pub name : Option (List ℕ)
  pub crypt : List ℕ → List ℕ → Option (List ℕ)
  pub shadow : Option (List ℕ)
  pub answer : Answer

module _ (host : Host) where
  abbrev pub handle : List (List ℕ) → Connection → Client
  handle cmd conn =
      handle_client host.user_of host.name host.crypt host.shadow (peer_cred conn.creds) conn.taken
        cmd conn.channel

  -- The loop over `accept_unix`.
  unfoldable pub accept_loop : List (List ℕ) → List (Result TransportError Connection) → List Client
  accept_loop cmd [] = []
  accept_loop cmd (err e ∷ accepts) = accept_loop cmd accepts
  accept_loop cmd (ok conn ∷ accepts) = handle cmd conn ∷ accept_loop cmd accepts

  abbrev pub on_bound :
      List (List ℕ)
      → List (Result TransportError Connection)
      → Result TransportError (Unit {0}) × List Call
      → Run
  on_bound cmd accepts (err e, calls) = exits 1
  on_bound cmd accepts (ok u, calls) = listening calls (accept_loop cmd accepts)

  abbrev pub on_socket : Option (List ℕ) → Options → List (Result TransportError Connection) → Run
  on_socket none o accepts = exits 2
  on_socket (some socket) o accepts =
      on_bound o.capsudod_cmd accepts (bind host.answer socket o.uid o.gid o.mode)

  abbrev pub on_options : Option Options → List (Result TransportError Connection) → Run
  on_options none accepts = exits 2
  on_options (some o) accepts = on_socket o.socket o accepts

  unfoldable pub main : List (List ℕ) → List (Result TransportError Connection) → Run
  main args accepts = on_options (parse_options host.users host.groups args) accepts
