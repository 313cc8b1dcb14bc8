-- ===== src/Mux/Channel.antt =====
-- `write_frame` and `read_frame` over a byte channel that keeps the promises of its interface.
use capsudo_rs.Base.{
  ℕ, ◌≤◌, ◌<◌, ◌%◌, ◌^◌, ◌≡◌, refl, sym, ap, ◌∙◌, List, [], ◌∷◌, ◌++◌, append-nil, append_assoc,
  none, some, arith, ltb, if◌then◌else◌, ge→ltb, lt→ltb, length, length-append, take, drop,
  take-length-append, drop-length-append,
}
use capsudo_rs.Base.Result.{Result, ok, err}
use capsudo_rs.Base.Bytes.{to_le, from_le, length-to_le, from_le-to_le, IsU32}
use capsudo_rs.Transport.Defs.{IoError, invalid_data, unexpected_eof}
use capsudo_rs.Transport.Bytes.{Reader, Writer}
use capsudo_rs.Mux.Defs.{mux_header, max_frame_payload}
use capsudo_rs.Mux.Frames.{
  frame_header, write_frame, read_frame, and_then, write_payload, finish, read_payload,
}

pub length-frame_header :
    (kind id : ℕ) (payload : List ℕ) → length (frame_header kind id payload) ≡ mux_header
unfolding frame_header
length-frame_header kind id payload = omega (
  arith,
  length-append (to_le 4 id) (to_le 4 (length payload % 2 ^ 32)),
  length-to_le 4 id,
  length-to_le 4 (length payload % 2 ^ 32),
)

-- What the three fields of a frame header say.
header_kind :
    (kind id : ℕ) (payload : List ℕ) → from_le (take 1 (frame_header kind id payload)) ≡ kind
unfolding frame_header from_le
header_kind kind id payload = omega arith

header_id :
    (kind id : ℕ) (payload : List ℕ)
    → IsU32 id
    → from_le (take 4 (drop 1 (frame_header kind id payload))) ≡ id
unfolding frame_header
header_id kind id payload h =
    rw (take-length-append 4 (to_le 4 id) (to_le 4 (length payload % 2 ^ 32)) (length-to_le 4 id))
      (from_le-to_le 4 id (omega arith))

header_len :
    (kind id : ℕ) (payload : List ℕ)
    → IsU32 (length payload)
    → from_le (take 4 (drop 5 (frame_header kind id payload))) ≡ length payload
unfolding frame_header to_le
header_len kind id payload h = from_le-to_le 4 (length payload % 2 ^ 32) (omega arith) ∙ omega arith

module _ {W : Type 0} (writer : Writer W) where
  open writer use {write_all, flush, written, write_all_ok, flush_ok}

  pub and_then_ok :
      (p : Result IoError (Unit {0}) × W) (f : W → Result IoError (Unit {0}) × W) (w' : W)
      → and_then writer p f ≡ (ok tt, w')
      → (w1 : W) × (p ≡ (ok tt, w1)) × (f w1 ≡ (ok tt, w'))
  and_then_ok (ok u, w1) f w' e = (w1, refl, e)
  and_then_ok (err x, w1) f w' e = cc

  written-write_payload :
      (payload : List ℕ) (w w' : W)
      → write_payload writer payload w ≡ (ok tt, w')
      → written w' ≡ written w ++ payload
  written-write_payload [] w w' e =
      ap written (sym (ap (λ (p : Result IoError (Unit {0}) × W). p.1) e))
      ∙ sym (append-nil (written w))
  written-write_payload (b ∷ bs) w w' e = write_all_ok (b ∷ bs) w w' e

  -- A frame that was written without an error is its header and its payload, behind all before it.
  pub written-write_frame :
      (kind id : ℕ) (payload : List ℕ) (w w' : W)
      → write_frame writer kind id payload w ≡ (ok tt, w')
      → written w' ≡ written w ++ (frame_header kind id payload ++ payload)
  unfolding write_frame
  written-write_frame kind id payload w w' e =
      let header = frame_header kind id payload in
      let (w1, e1, f1) =
        and_then_ok (write_all header w)
          (λ w1. and_then writer (write_payload writer payload w1) flush) w' e in
      let (w2, e2, f2) = and_then_ok (write_payload writer payload w1) flush w' f1 in
      flush_ok w2 w' f2
      ∙ written-write_payload payload w1 w2 e2
      ∙ ap (λ bs. bs ++ payload) (write_all_ok header w w1 e1)
      ∙ append_assoc (written w) header payload

module _ {R : Type 0} (reader : Reader R) where
  open reader use {read_exact, content, ending, read_exact_full, read_exact_short}

  read_payload_fields :
      (header : List ℕ) (r : R) (kind id len : ℕ)
      → from_le (take 1 header) ≡ kind
      → from_le (take 4 (drop 1 header)) ≡ id
      → from_le (take 4 (drop 5 header)) ≡ len
      → len ≤ max_frame_payload
      → read_payload reader header r ≡ (
          if ltb 0 len
          then finish reader kind id (read_exact len r)
          else finish reader kind id (ok [], r))
  read_payload_fields header r kind id len ek ei el small =
      rw (ek, ei, el, ge→ltb max_frame_payload len small) refl

  -- The payload alone.
  finish-payload :
      (kind id : ℕ) (payload rest : List ℕ) (r : R)
      → content r ≡ payload ++ rest
      → (r' : R) × ((if ltb 0 (length payload)
            then finish reader kind id (read_exact (length payload) r)
            else finish reader kind id (ok [], r))
          ≡ (ok (some (record { kind = kind; id = id; payload = payload })), r'))
        × (content r' ≡ rest)
        × (ending r' ≡ ending r)
  finish-payload kind id [] rest r e = (r, refl, e, refl)
  finish-payload kind id (b ∷ bs) rest r e =
      let payload : List ℕ = b ∷ bs in
      let (r', read, left, end) =
        read_exact_full (length payload) r
          (omega (arith, ap length e, length-append payload rest)) in
      let front : take (length payload) (content r) ≡ payload =
        ap (take (length payload)) e ∙ take-length-append (length payload) payload rest refl in
      (
        r',
        rw (lt→ltb 0 (length payload) (omega arith), read, front) refl,
        left ∙ ap (drop (length payload)) e ∙ drop-length-append (length payload) payload rest refl,
        end,
      )

  -- A frame of at most the largest size at the front of the channel is read whole, and nothing
  -- behind it is touched.
  pub read_frame-frame :
      (kind id : ℕ) (payload rest : List ℕ) (r : R)
      → IsU32 id
      → length payload ≤ max_frame_payload
      → content r ≡ frame_header kind id payload ++ (payload ++ rest)
      → (r' : R) × (read_frame reader r
          ≡ (ok (some (record { kind = kind; id = id; payload = payload })), r'))
        × (content r' ≡ rest)
        × (ending r' ≡ ending r)
  unfolding read_frame
  read_frame-frame kind id payload rest r hid small e =
      let header = frame_header kind id payload in
      let (r1, read, left, end1) = read_exact_full mux_header r (
        omega (
          arith,
          ap length e,
          length-append header (payload ++ rest),
          length-frame_header kind id payload,
        )) in
      let front : take mux_header (content r) ≡ header =
        ap (take mux_header) e
        ∙ take-length-append mux_header header (payload ++ rest)
            (length-frame_header kind id payload) in
      let behind : content r1 ≡ payload ++ rest =
        left
        ∙ ap (drop mux_header) e
        ∙ drop-length-append mux_header header (payload ++ rest)
            (length-frame_header kind id payload) in
      let (r2, done, left2, end2) = finish-payload kind id payload rest r1 behind in
      (
        r2,
        rw (read, front)
            (read_payload_fields header r1 kind id (length payload) (header_kind kind id payload)
                (header_id kind id payload hid) (header_len kind id payload (omega arith)) small
              ∙ done),
        left2,
        end2 ∙ end1,
      )

  -- The end of the channel between two frames is a clean end.
  pub read_frame-end :
      (r : R)
      → length (content r) < mux_header
      → ending r ≡ unexpected_eof
      → (read_frame reader r).0 ≡ ok none
  unfolding read_frame
  read_frame-end r short e = let (r', h) = read_exact_short mux_header r short in rw (h, e)

  -- A header that announces more than the largest frame is refused before the payload is read.
  pub read_frame_too_large :
      (kind id : ℕ) (payload rest : List ℕ) (r : R)
      → IsU32 (length payload)
      → max_frame_payload < length payload
      → content r ≡ frame_header kind id payload ++ rest
      → (read_frame reader r).0 ≡ err invalid_data
  unfolding read_frame
  read_frame_too_large kind id payload rest r fits large e =
      let header = frame_header kind id payload in
      let (r1, read, left, end1) = read_exact_full mux_header r (
        omega
          (arith, ap length e, length-append header rest, length-frame_header kind id payload)) in
      let front : take mux_header (content r) ≡ header =
        ap (take mux_header) e
        ∙ take-length-append mux_header header rest (length-frame_header kind id payload) in
      rw
        (
          read,
          front,
          header_len kind id payload fits,
          lt→ltb max_frame_payload (length payload) large,
        )
        refl
