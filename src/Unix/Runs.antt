-- ===== src/Unix/Runs.antt =====
-- The local transport on concrete arrivals, and its theorems at concrete inputs.
use capsudo_rs.Base.{
  ℕ, ◌≤◌, ◌<◌, ◌≡◌, refl, List, [], ◌∷◌, ◌++◌, none, some, arith, length, take, drop, leb,
  append-nil, if◌then◌else◌,
}
use capsudo_rs.Base.Result.{Result, ok, err}
use capsudo_rs.Base.Bytes.{to_le}
use capsudo_rs.Proto.Defs.{Message}
use capsudo_rs.Proto.Header
use capsudo_rs.Proto.Message
use capsudo_rs.Transport.Defs.{IoError, interrupted, not_found, os, TransportError, FdDir, FdSpec}
use capsudo_rs.Transport.Writes.{Attempt, wrote, write_all}
use capsudo_rs.Unix.Send.{Try, send, send_loop, send-ok, send_control, HasPassed, raw}
use capsudo_rs.Unix.Stream.{tag}
use capsudo_rs.Unix.Memory.{Memory, memory}
use capsudo_rs.Unix.Listen.{
  remove_file, bind_at, chown, set_permissions, Answer, bind, peer_secontext, peer_secontext-nul,
}
use capsudo_rs.Transport.Bytes.{Reader}
use capsudo_rs.Unix.Recv.{Arrival, got, blocked, recv_header, recv}
use capsudo_rs.Unix.Received.{arrived, recv-encode}

-- `read_exact` on arrivals, which leaves what it did not want as one more arrival.
abbrev read_arrivals : ℕ → List Arrival → Result IoError (List ℕ) × List Arrival
read_arrivals n as' =
    if leb n (length (arrived as'))
    then (ok (take n (arrived as')), got (drop n (arrived as')) [] ∷ [])
    else (err IoError.unexpected_eof, [])

one_arrival : (bs : List ℕ) → arrived (got bs [] ∷ []) ≡ bs
one_arrival bs = append-nil bs

read_arrivals_full :
    (n : ℕ) (as' : List Arrival)
    → n ≤ length (arrived as')
    → (rest : List Arrival) × (read_arrivals n as' ≡ (ok (take n (arrived as')), rest))
      × (arrived rest ≡ drop n (arrived as'))
      × (◌≡◌ {A = IoError} IoError.unexpected_eof IoError.unexpected_eof)
read_arrivals_full n as' h =
    (got (drop n (arrived as')) [] ∷ [], ground arith, one_arrival (drop n (arrived as')), refl)

read_arrivals_short :
    (n : ℕ) (as' : List Arrival)
    → length (arrived as') < n
    → (rest : List Arrival) × (read_arrivals n as' ≡ (err IoError.unexpected_eof, rest))
read_arrivals_short n as' h = ([], ground arith)

abbrev arrival_reader : Reader (List Arrival)
arrival_reader = record {
  read_exact = read_arrivals;
  content = arrived;
  ending = λ _. IoError.unexpected_eof;
  read_exact_full = read_arrivals_full;
  read_exact_short = read_arrivals_short;
}

-- A header in two pieces with a wait between them, the descriptors with the first.
abbrev three_fds : Message
three_fds = Message.fds 3

abbrev header_bytes : List ℕ
header_bytes = Header.encode (Message.header three_fds)

abbrev pieces : List Arrival
pieces = got (take 3 header_bytes) (7 ∷ 8 ∷ 9 ∷ []) ∷ blocked ∷ got (drop 3 header_bytes) [] ∷ []

recv-encode_example :
    (rest : List Arrival) × (recv arrival_reader
        (pieces ++ (got (three_fds.payload ++ (1 ∷ [])) [] ∷ []))
      ≡ some (ok (some (record { message = three_fds; fds = 7 ∷ 8 ∷ 9 ∷ [] })), rest))
    × (arrived rest ≡ 1 ∷ [])
unfolding Message.fds Message.header Header.encode to_le
recv-encode_example =
    recv-encode arrival_reader three_fds pieces (got (three_fds.payload ++ (1 ∷ [])) [] ∷ [])
      (1 ∷ []) (omega arith) (omega arith, (omega arith, (omega arith, refl))) refl refl

-- The end of the stream between two messages, and inside a header.
clean_end : recv arrival_reader (got [] [] ∷ []) ≡ some (ok none, [])
unfolding recv recv_header
clean_end = refl

end_in_header :
    recv arrival_reader (got (1 ∷ []) [] ∷ got [] [] ∷ [])
    ≡ some (err TransportError.unexpected_eof, [])
unfolding recv recv_header
end_in_header = refl

abbrev stdin : FdSpec
stdin = record { fd = 7; dir = FdDir.read }

abbrev after_send : Memory
after_send = (tag (Message.encode three_fds) (7 ∷ []), 7 ∷ [])

-- The first `sendmsg` would block and the second takes three bytes only.
sent :
    send memory three_fds (stdin ∷ []) (Try.blocked ∷ Try.took 3 ∷ []) ([], [])
    ≡ some (ok tt, after_send)
unfolding send send_loop Message.encode Message.fds Header.encode to_le
sent = refl

send-ok_example : HasPassed memory (Message.encode three_fds) (raw (stdin ∷ [])) ([], []) after_send
send-ok_example =
    send-ok memory three_fds (stdin ∷ []) (Try.blocked ∷ Try.took 3 ∷ []) ([], []) after_send sent

-- A control message through an interrupted write, and into a socket that takes nothing.
control :
    send_control Message.end (Attempt.failed interrupted ∷ wrote 5 ∷ wrote 3 ∷ [])
    ≡ some (ok tt, Message.encode Message.end)
unfolding send_control write_all Message.encode Message.end Header.encode to_le
control = refl

-- A gate for the group 10 at a path where nothing was.
abbrev willing : Answer
willing (remove_file path) = err not_found
willing c = ok tt

bound : bind willing (b'/' ∷ []) none (some 10) 0o660 ≡ (
  ok tt,
  remove_file (b'/' ∷ [])
      ∷ bind_at (b'/' ∷ [])
      ∷ chown (b'/' ∷ []) none (some 10)
      ∷ set_permissions (b'/' ∷ []) 0o660
      ∷ [],
)
unfolding bind
bound = refl

-- A gate whose owner cannot be set is no listener, and its mode is not touched.
abbrev unwilling : Answer
unwilling (chown path uid gid) = err (os 1)
unwilling c = ok tt

not_bound : bind unwilling (b'/' ∷ []) (some 0) none 0o660 ≡ (
  err (TransportError.io (os 1)),
  remove_file (b'/' ∷ []) ∷ bind_at (b'/' ∷ []) ∷ chown (b'/' ∷ []) (some 0) none ∷ [],
)
unfolding bind
not_bound = refl

peer_secontext-nul_example : peer_secontext (some (b's' ∷ b'u' ∷ 0 ∷ [])) ≡ some (b's' ∷ b'u' ∷ [])
peer_secontext-nul_example = peer_secontext-nul b's' (b'u' ∷ [])
