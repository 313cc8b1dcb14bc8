-- ===== src/Unix/Send.antt =====
-- `UnixTransport::send` and `UnixControlSender::send_control`.
use capsudo_rs.Base.{
  ℕ, ◌≡◌, sym, ap, ◌∙◌, List, [], ◌∷◌, ◌++◌, append_assoc, append-nil, Option, none, some, arith,
  subst, take, drop, take-append-drop,
}
use capsudo_rs.Base.Result.{Result, ok, err, map_err}
use capsudo_rs.Proto.Defs.{Message}
use capsudo_rs.Proto.Message
use capsudo_rs.Transport.Defs.{IoError, TransportError, FdSpec}
use capsudo_rs.Transport.Bytes.{Writer}
use capsudo_rs.Transport.Writes.{Attempt, Written, write_all}

-- A connected socket. `accept` is what a successful `sendmsg` does: it takes over bytes, and the
-- descriptors that ride with them. `passed` are the descriptors that have left.
pub record Socket (W : Type 0) : Type 0 where
  pub writer : Writer W
  pub accept : List ℕ → List ℕ → W → W
  pub passed : W → List ℕ
  pub accept_written :
      (bs fds : List ℕ) (w : W) → writer.written (accept bs fds w) ≡ writer.written w ++ bs
  pub accept_passed : (bs fds : List ℕ) (w : W) → passed (accept bs fds w) ≡ passed w ++ fds
  pub write_all_passed :
      (bs : List ℕ) (w w' : W) (r : Result IoError (Unit {0}))
      → writer.write_all bs w ≡ (r, w')
      → passed w' ≡ passed w

-- One attempt of the loop: `sendmsg` took so many bytes, or would block, or `writable` or `sendmsg`
-- failed.
pub data Try : Type 0 where
  took : ℕ → Try
  blocked : Try
  failed : IoError → Try

abbrev pub raw : List FdSpec → List ℕ
raw [] = []
raw (s ∷ specs) = s.fd ∷ raw specs

abbrev pub Sending : Type 0 → Type 0
Sending W = Option (Result TransportError (Unit {0}) × W)

abbrev pub io : {W : Type 0} → Result IoError (Unit {0}) × W → Sending W
io (r, w) = some (map_err TransportError.io r, w)

pub io-ok :
    {W : Type 0} (out : Result IoError (Unit {0}) × W) (w' : W)
    → io out ≡ some (ok tt, w')
    → out ≡ (ok tt, w')
io-ok (ok tt, w) w' e = cc
io-ok (err x, w) w' e = absurd (ground arith)

module _ {W : Type 0} (socket : Socket W) where
  open socket use {writer, accept, passed, accept_written, accept_passed, write_all_passed}

  -- `if offset < buf.len()`, with what is left of the buffer.
  abbrev pub send_rest : List ℕ → W → Sending W
  send_rest [] w = some (ok tt, w)
  send_rest (b ∷ bs) w = io (writer.write_all (b ∷ bs) w)

  -- The loop, and what follows it.
  unfoldable pub send_loop : List ℕ → List ℕ → List Try → W → Sending W
  send_loop buf fds [] w = none
  send_loop buf fds (took n ∷ ts) w = send_rest (drop n buf) (accept (take n buf) fds w)
  send_loop buf fds (blocked ∷ ts) w = send_loop buf fds ts w
  send_loop buf fds (failed e ∷ ts) w = some (err (TransportError.io e), w)

  unfoldable pub send : Message → List FdSpec → List Try → W → Sending W
  send m [] ts w = send_rest (Message.encode m) w
  send m (s ∷ specs) ts w = send_loop (Message.encode m) (raw (s ∷ specs)) ts w

  -- A socket to which bytes and descriptors were passed, and no more.
  abbrev pub HasPassed : List ℕ → List ℕ → W → W → Type 0
  HasPassed bs fds w w' =
      (writer.written w' ≡ writer.written w ++ bs) × (passed w' ≡ passed w ++ fds)

  send_rest-ok : (bs : List ℕ) (w w' : W) → send_rest bs w ≡ some (ok tt, w') → HasPassed bs [] w w'
  send_rest-ok [] w w' e =
      let same : w ≡ w' = cc in
      subst (HasPassed [] [] w) same
        (sym (append-nil (writer.written w)), sym (append-nil (passed w)))
  send_rest-ok (b ∷ bs) w w' e =
      let sent = io-ok (writer.write_all (b ∷ bs) w) w' e in
      (
        writer.write_all_ok (b ∷ bs) w w' sent,
        write_all_passed (b ∷ bs) w w' (ok tt) sent ∙ sym (append-nil (passed w)),
      )

  send_loop-ok :
      (buf fds : List ℕ) (ts : List Try) (w w' : W)
      → send_loop buf fds ts w ≡ some (ok tt, w')
      → HasPassed buf fds w w'
  unfolding send_loop
  send_loop-ok buf fds [] w w' e = absurd (ground arith)
  send_loop-ok buf fds (took n ∷ ts) w w' e =
      let (out, fds') = send_rest-ok (drop n buf) (accept (take n buf) fds w) w' e in
      (
        out
            ∙ ap (λ x. x ++ drop n buf) (accept_written (take n buf) fds w)
            ∙ append_assoc (writer.written w) (take n buf) (drop n buf)
            ∙ ap (λ x. writer.written w ++ x) (take-append-drop n buf),
        fds' ∙ append-nil (passed (accept (take n buf) fds w)) ∙ accept_passed (take n buf) fds w,
      )
  send_loop-ok buf fds (blocked ∷ ts) w w' e = send_loop-ok buf fds ts w w' e
  send_loop-ok buf fds (failed x ∷ ts) w w' e = absurd (ground arith)

  -- However the socket splits and delays it, a message that was sent is on the stream whole and once,
  -- and the descriptors have left exactly once, in order.
  pub send-ok :
      (m : Message) (specs : List FdSpec) (ts : List Try) (w w' : W)
      → send m specs ts w ≡ some (ok tt, w')
      → HasPassed (Message.encode m) (raw specs) w w'
  unfolding send
  send-ok m [] ts w w' e = send_rest-ok (Message.encode m) w w' e
  send-ok m (s ∷ specs) ts w w' e = send_loop-ok (Message.encode m) (raw (s ∷ specs)) ts w w' e

-- `send_control`: the loop of `write` that runs on a duplicate of the socket, with what it has
-- written.
abbrev control_result : Written → Option (Result TransportError (Unit {0}) × List ℕ)
control_result none = none
control_result (some (r, out)) = some (map_err TransportError.io r, out)

unfoldable pub send_control :
    Message → List Attempt → Option (Result TransportError (Unit {0}) × List ℕ)
unfolding write_all
send_control m as' = control_result (write_all (Message.encode m) as')
