-- ===== src/Mux/Frames.antt =====
-- Framing on the byte channel: `decode_u32`, `decode_message`, `write_frame`, `read_frame`.
use capsudo_rs.Base.{
  ℕ, ◌+◌, ◌%◌, ◌^◌, List, [], ◌∷◌, ◌++◌, Option, none, some, ltb, ◌==◌, if◌then◌else◌, length, take,
  drop,
}
use capsudo_rs.Base.Result.{Result, ok, err}
use capsudo_rs.Base.Bytes.{to_le, from_le}
use capsudo_rs.Proto.Defs.{Message, Header, ProtoError}
use capsudo_rs.Proto.Header
use capsudo_rs.Proto.Message
use capsudo_rs.Transport.Defs.{IoError, invalid_data, unexpected_eof}
use capsudo_rs.Transport.Bytes.{Reader, Writer}
use capsudo_rs.Mux.Defs.{mux_header, max_frame_payload}

unfoldable pub decode_u32 : List ℕ → Option ℕ
decode_u32 buf = if length buf == 4 then some (from_le buf) else none

-- The rest of `decode_message`, once the header is read.
abbrev with_header : List ℕ → Result ProtoError Header → Option Message
with_header buf (err e) = none
with_header buf (ok header) =
    if length buf == Header.size + header.len
    then some (Message.new header.field_type (drop Header.size buf))
    else none

unfoldable pub decode_message : List ℕ → Option Message
decode_message buf =
    if ltb (length buf) Header.size
    then none
    else with_header buf (Header.decode (take Header.size buf))

-- One frame: kind, stream id, payload length, payload.
unfoldable pub frame_header : ℕ → ℕ → List ℕ → List ℕ
frame_header kind id payload = kind ∷ (to_le 4 id ++ to_le 4 (length payload % 2 ^ 32))

module _ {W : Type 0} (writer : Writer W) where
  open writer use {write_all, flush}

  -- `?` on a step that changes the writer.
  abbrev pub and_then :
      Result IoError (Unit {0}) × W
      → (W → Result IoError (Unit {0}) × W)
      → Result IoError (Unit {0}) × W
  and_then (ok u, w) f = f w
  and_then (err e, w) f = (err e, w)

  abbrev pub write_payload : List ℕ → W → Result IoError (Unit {0}) × W
  write_payload [] w = (ok tt, w)
  write_payload (b ∷ bs) w = write_all (b ∷ bs) w

  unfoldable pub write_frame : ℕ → ℕ → List ℕ → W → Result IoError (Unit {0}) × W
  write_frame kind id payload w =
      and_then (write_all (frame_header kind id payload) w)
        (λ w1. and_then (write_payload payload w1) flush)

-- A frame as it was read.
pub record Frame : Type 0 where
  pub kind : ℕ
  pub id : ℕ
  pub payload : List ℕ

module _ {R : Type 0} (reader : Reader R) where
  open reader use {read_exact}

  abbrev pub finish : ℕ → ℕ → Result IoError (List ℕ) × R → Result IoError (Option Frame) × R
  finish kind id (err e, r) = (err e, r)
  finish kind id (ok payload, r) =
      (ok (some (record { kind = kind; id = id; payload = payload })), r)

  -- The payload, after a header that was read whole.
  abbrev pub read_payload : List ℕ → R → Result IoError (Option Frame) × R
  read_payload header r =
      let kind = from_le (take 1 header) in
      let id = from_le (take 4 (drop 1 header)) in
      let len = from_le (take 4 (drop 5 header)) in
      if ltb max_frame_payload len
      then (err invalid_data, r)
      else if ltb 0 len
      then finish kind id (read_exact len r)
      else finish kind id (ok [], r)

  abbrev pub after_header : Result IoError (List ℕ) × R → Result IoError (Option Frame) × R
  after_header (err unexpected_eof, r) = (ok none, r)
  after_header (err e, r) = (err e, r)
  after_header (ok header, r) = read_payload header r

  unfoldable pub read_frame : R → Result IoError (Option Frame) × R
  read_frame r = after_header (read_exact mux_header r)
