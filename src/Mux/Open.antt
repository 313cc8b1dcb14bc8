-- ===== src/Mux/Open.antt =====
-- `MuxTransport::new` and `with_window`, and crates/capsudo-transport/src/fakeidm.rs, which puts the
-- multiplexer over TCP. The two halves of a transport are its sending half and the state of its reader;
-- `sockets` and `dups` are the results of the calls that will make sockets and duplicates.
use capsudo_rs.Base.{none, ℕ, ◌≡◌, ◌≢◌, refl, ap, ◌∙◌, sym, true, List, [], Option, arith, min}
use capsudo_rs.Base.Result.{Result, ok, err, ◌>>=◌, map_err}
use capsudo_rs.Transport.Defs.{IoError, TransportError, PeerCred}
use capsudo_rs.Mux.Defs.{Side, dialer, listener, stream_window, max_window}
use capsudo_rs.Mux.Flow
use capsudo_rs.Mux.Ids.{first_id, alloc_id, after_allocs, nth_id, nth_id-ne}
use capsudo_rs.Mux.Outgoing.{Sender}
use capsudo_rs.Mux.Reader.{Reading, start_reading}

abbrev pub Sockets : Type 0
Sockets = List (Option (ℕ × ℕ))

abbrev pub Dups : Type 0
Dups = List (Result IoError (Unit {0}))

pub record MuxTransport : Type 0 where
  pub sender : Sender
  pub reading : Reading

abbrev start_sending : ℕ → ℕ → Dups → Sender
start_sending window next_id dups = record {
  queue = [];
  open_ended = true;
  next_id = next_id;
  streams = [];
  sinks = [];
  next_sink = 0;
  flow = Flow.new window;
  pumps = [];
  dups = dups;
}

unfoldable pub with_window : Side → (window : ℕ) → Sockets → Dups → MuxTransport
with_window side window sockets dups = record {
  sender = start_sending (min window max_window) (first_id side) dups;
  reading = start_reading (min window max_window) sockets;
}

unfoldable pub new : Side → Sockets → Dups → MuxTransport
unfolding with_window
new side sockets dups = with_window side stream_window sockets dups

-- `MuxTransport` leaves these two to the trait's own definitions.
abbrev pub peer_cred : MuxTransport → Option PeerCred
peer_cred t = none

abbrev pub peer_secontext : MuxTransport → Option (List ℕ)
peer_secontext t = none

-- A TCP stream on which `set_nodelay` is called.
abbrev pub over_tcp :
    Side
    → (stream : Result IoError (Unit {0})) → (set_nodelay : Result IoError (Unit {0})) → Sockets
    → Dups
    → Result TransportError MuxTransport
over_tcp side stream set_nodelay sockets dups = map_err TransportError.io stream >>= λ _.
    map_err TransportError.io set_nodelay >>= λ _. ok (new side sockets dups)

unfoldable pub connect :
    (connected set_nodelay : Result IoError (Unit {0}))
    → Sockets
    → Dups
    → Result TransportError MuxTransport
connect connected set_nodelay sockets dups = over_tcp dialer connected set_nodelay sockets dups

unfoldable pub accept :
    (accepted set_nodelay : Result IoError (Unit {0}))
    → Sockets
    → Dups
    → Result TransportError MuxTransport
accept accepted set_nodelay sockets dups = over_tcp listener accepted set_nodelay sockets dups

-- A listener is known by the descriptor of its socket. `bound` and `named` are the results of
-- binding and of `local_addr`, whose address is text.
pub record FakeIdmListener : Type 0 where
  pub inner : ℕ

unfoldable pub bind : (bound : Result IoError ℕ) → Result TransportError FakeIdmListener
bind bound = do inner ← map_err TransportError.io bound; ok (record { inner = inner })

unfoldable pub local_addr :
    (named : ℕ → Result IoError (List ℕ)) → FakeIdmListener → Result TransportError (List ℕ)
local_addr named l = map_err TransportError.io (named l.inner)

over_tcp-ok :
    (side : Side) (stream set_nodelay : Result IoError (Unit {0})) (sockets : Sockets) (dups : Dups)
    (t : MuxTransport)
    → over_tcp side stream set_nodelay sockets dups ≡ ok t
    → t ≡ new side sockets dups
over_tcp-ok side (err e) nodelay sockets dups t h = absurd (ground arith)
over_tcp-ok side (ok u) (err e) sockets dups t h = absurd (ground arith)
over_tcp-ok side (ok u) (ok v) sockets dups t h = cc

-- The two ends of one connection draw their ids from halves that never meet.
pub connect-accept_ids :
    (connected nodelay accepted nodelay' : Result IoError (Unit {0})) (sockets sockets' : Sockets)
    (dups dups' : Dups) (d l : MuxTransport) (m n : ℕ)
    → connect connected nodelay sockets dups ≡ ok d
    → accept accepted nodelay' sockets' dups' ≡ ok l
    → (alloc_id (after_allocs m d.sender.next_id)).0
      ≢ (alloc_id (after_allocs n l.sender.next_id)).0
unfolding connect accept
connect-accept_ids connected nodelay accepted nodelay' sockets sockets' dups dups' d l m n h k
      same =
    let id_of = λ (i : ℕ) (t : MuxTransport). (alloc_id (after_allocs i t.sender.next_id)).0 in
    let first : id_of m d ≡ nth_id dialer m =
      ap (id_of m) (over_tcp-ok dialer connected nodelay sockets dups d h)
      ∙ unfold new nth_id in refl in
    let second : id_of n l ≡ nth_id listener n =
      ap (id_of n) (over_tcp-ok listener accepted nodelay' sockets' dups' l k)
      ∙ unfold new nth_id in refl in
    nth_id-ne m n (sym first ∙ same ∙ second)
