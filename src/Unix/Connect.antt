-- ===== src/Unix/Connect.antt =====
-- The constructors of `UnixTransport`, `UnixListener::accept`, and what the transport says of its
-- peer, over the results of their system calls. A socket is known by its descriptor.
use capsudo_rs.Base.{ℕ, Option}
use capsudo_rs.Base.Result.{Result, ok, ◌>>=◌, map_err, to_option}
use capsudo_rs.Transport.Defs.{IoError, TransportError, PeerCred}

pub record UnixTransport : Type 0 where
  pub stream : ℕ

abbrev pub new : ℕ → UnixTransport
new stream = record { stream = stream }

abbrev io : {A : Type 0} → Result IoError A → Result TransportError A
io r = map_err TransportError.io r

-- `UnixStream::connect` and its socket.
unfoldable pub connect : Result IoError ℕ → Result TransportError UnixTransport
connect connected = do stream ← io connected; ok (new stream)

-- `set_nonblocking` on the descriptor, and then `from_std`.
unfoldable pub from_fd :
    (set_nonblocking : ℕ → Result IoError (Unit {0}))
    → (from_std : ℕ → Result IoError ℕ) → ℕ
    → Result TransportError UnixTransport
from_fd set_nonblocking from_std fd =
    io (set_nonblocking fd) >>= λ _. io (from_std fd) >>= λ stream. ok (new stream)

abbrev pub into_inner : UnixTransport → ℕ
into_inner t = t.stream

unfoldable pub accept_unix : Result IoError ℕ → Result TransportError UnixTransport
accept_unix accepted = do stream ← io accepted; ok (new stream)

-- What `getsockopt` says of the peer.
unfoldable pub peer_cred : Result IoError PeerCred → Option PeerCred
peer_cred creds = to_option creds

-- A `UnixControlSender` on a duplicate of the socket.
unfoldable pub control_sender : Result IoError ℕ → Option ℕ
control_sender dup = to_option dup
