-- ===== src/Mux/Wire.antt =====
-- The framing laws: what is written is read back, and what is read back was well formed.
use capsudo_rs.Base.{
  ℕ, ◌+◌, ◌≤◌, ◌%◌, ◌^◌, ◌≡◌, ap, ap₂, ◌∙◌, List, ◌++◌, some, arith, length, length-take,
  length-drop, take, drop, take-length-append, drop-length-append, take-append-drop, All-take, inl,
  inr,
}
use capsudo_rs.Base.Result.{ok, Result-cases}
use capsudo_rs.Base.Bytes.{IsByte, IsBytes}
use capsudo_rs.Proto.Defs.{max_payload, Message, Header}
use capsudo_rs.Proto.Header
use capsudo_rs.Proto.Message
use capsudo_rs.Mux.Frames.{decode_message}

decode_message_of :
    (buf : List ℕ) (h : Header)
    → Header.decode (take Header.size buf) ≡ ok h
    → length buf ≡ Header.size + h.len
    → decode_message buf ≡ some (Message.new h.field_type (drop Header.size buf))
unfolding decode_message
decode_message_of buf h e len = ground arith

-- A message of any size that the protocol allows survives the control frame.
pub decode_message-encode :
    (m : Message) → length m.payload ≤ max_payload → decode_message (Message.encode m) ≡ some m
unfolding Message.encode Message.header
decode_message-encode m small =
    let h = Message.header m in
    let small_len : length m.payload % 2 ^ 32 ≡ length m.payload = omega arith in
    let decoded : Header.decode (take Header.size (Message.encode m)) ≡ ok h =
      rw (take-length-append Header.size (Header.encode h) m.payload (Header.length-encode h))
        (Header.decode-encode h (omega arith) ∙ ground arith) in
    decode_message_of (Message.encode m) h decoded (omega (arith, Message.length-encode m))
    ∙ ap (λ p. some (Message.new m.field_type p))
        (drop-length-append Header.size (Header.encode h) m.payload (Header.length-encode h))

decode_message_fields :
    (buf : List ℕ) (m : Message)
    → decode_message buf ≡ some m
    → (h : Header) × (Header.decode (take Header.size buf) ≡ ok h)
      × (length buf ≡ Header.size + h.len)
      × (m ≡ Message.new h.field_type (drop Header.size buf))
unfolding decode_message
decode_message_fields buf m e = elim (Result-cases (Header.decode (take Header.size buf))) [
  | inl (h, eh) ↦ (h, ground arith, ground arith, ground arith)
  | inr (x, eh) ↦ absurd (ground arith)
]

-- A payload that is accepted as a message is that message's encoding, and is within the maximum.
pub encode-decode_message :
    (buf : List ℕ) (m : Message)
    → IsBytes buf
    → decode_message buf ≡ some m
    → (Message.encode m ≡ buf) × (length m.payload ≤ max_payload)
unfolding Message.encode Message.header
encode-decode_message buf m bytes e =
    let (h, decoded, len, same) = decode_message_fields buf m e in
    let (front, small) =
      Header.encode-decode (take Header.size buf) h (All-take IsByte Header.size buf bytes)
        (omega (arith, length-take Header.size buf)) decoded in
    let payload : m.payload ≡ drop Header.size buf = ap (λ (n : Message). n.payload) same in
    let fits : length m.payload ≡ h.len =
      omega (arith, ap length payload, length-drop Header.size buf) in
    let header : Message.header m ≡ h = ground arith in
    (
      ap₂ (λ x p. Header.encode x ++ p) header payload
          ∙ ap (λ x. x ++ drop Header.size buf) front
          ∙ take-append-drop Header.size buf,
      omega arith,
    )
