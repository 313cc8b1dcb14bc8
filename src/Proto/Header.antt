-- ===== src/Proto/Header.antt =====
-- `Header::encode` and `Header::decode`. The eight bytes of a `[u8; 8]` are a list of that length.
use capsudo_rs.Base.{
  ℕ, ◌≤◌, ◌≡◌, refl, List, ◌++◌, arith, ltb, if◌then◌else◌, length, length-append, length-take,
  length-drop, take, drop, take-append-drop, take-length-append, take-length, drop-length-append,
  All-take, All-drop, All-append, append-nil, [],
}
use capsudo_rs.Base.Result.{Result, ok, err, ◌>>=◌}
use capsudo_rs.Base.Bytes.{
  to_le, from_le, length-to_le, from_le-to_le, to_le-from_le_width, to_le-IsBytes, IsByte, IsBytes,
  IsU32,
}
use capsudo_rs.Proto.Defs.{max_payload, Header, ProtoError, payload_too_large}
use capsudo_rs.Proto.Tags.{
  as_u32, try_from_u32, try_from_u32-as_u32, as_u32-try_from_u32, as_u32-lt,
}

-- `Header::SIZE`
abbrev pub size : ℕ
size = 8

unfoldable pub encode : Header → List ℕ
encode h = to_le 4 (as_u32 h.field_type) ++ to_le 4 h.len

unfoldable pub decode : List ℕ → Result ProtoError Header
decode buf = do
  field_type ← try_from_u32 (from_le (take 4 buf))
  let len = from_le (take 4 (drop 4 buf))
  if ltb max_payload len
      then err (payload_too_large len)
      else ok (record { field_type = field_type; len = len })

pub length-encode : (h : Header) → length (encode h) ≡ size
unfolding encode
length-encode h = omega (
  arith,
  length-append (to_le 4 (as_u32 h.field_type)) (to_le 4 h.len),
  length-to_le 4 (as_u32 h.field_type),
  length-to_le 4 h.len,
)

pub encode-IsBytes : (h : Header) → IsBytes (encode h)
unfolding encode
encode-IsBytes h = All-append IsByte _ _ (to_le-IsBytes 4 _) (to_le-IsBytes 4 _)

-- The two halves of an encoded header, with anything behind it.
tag_bytes : (h : Header) → from_le (take 4 (encode h)) ≡ as_u32 h.field_type
unfolding encode
tag_bytes h =
    rw (take-length-append 4 (to_le 4 (as_u32 h.field_type)) (to_le 4 h.len) (length-to_le 4 _))
      (from_le-to_le 4 _ (omega (arith, as_u32-lt h.field_type)))

len_bytes : (h : Header) → IsU32 h.len → from_le (take 4 (drop 4 (encode h))) ≡ h.len
unfolding encode
len_bytes h small =
    rw
      (
        drop-length-append 4 (to_le 4 (as_u32 h.field_type)) (to_le 4 h.len) (length-to_le 4 _),
        ← append-nil (to_le 4 h.len),
        take-length-append 4 (to_le 4 h.len) [] (length-to_le 4 _),
      )
      (from_le-to_le 4 _ small)

-- A header is read back if its length is within the maximum, and refused with that length if not.
pub decode-encode :
    (h : Header)
    → IsU32 h.len
    → decode (encode h) ≡ (if ltb max_payload h.len then err (payload_too_large h.len) else ok h)
unfolding decode
decode-encode h small = rw (tag_bytes h, len_bytes h small, try_from_u32-as_u32 h.field_type) refl

decode_fields :
    (buf : List ℕ) (h : Header)
    → decode buf ≡ ok h
    → (as_u32 h.field_type ≡ from_le (take 4 buf))
      × (h.len ≡ from_le (take 4 (drop 4 buf)))
      × (h.len ≤ max_payload)
unfolding decode
decode_fields buf h e = ground (arith, as_u32-try_from_u32 (from_le (take 4 buf)) h.field_type)

-- What an accepted header says: its encoding is the input, and its length is within the maximum.
pub encode-decode :
    (buf : List ℕ) (h : Header)
    → IsBytes buf
    → length buf ≡ size
    → decode buf ≡ ok h
    → (encode h ≡ buf) × (h.len ≤ max_payload)
unfolding encode
encode-decode buf h bytes len e =
    let (tag, len_eq, small) = decode_fields buf h e in
    let front : to_le 4 (from_le (take 4 buf)) ≡ take 4 buf =
      to_le-from_le_width 4 (take 4 buf) (All-take IsByte 4 buf bytes)
        (omega (arith, length-take 4 buf)) in
    let back : to_le 4 (from_le (drop 4 buf)) ≡ drop 4 buf =
      to_le-from_le_width 4 (drop 4 buf) (All-drop IsByte 4 buf bytes)
        (omega (arith, length-drop 4 buf)) in
    let whole : take 4 (drop 4 buf) ≡ drop 4 buf =
      take-length 4 (drop 4 buf) (omega (arith, length-drop 4 buf)) in
    (rw (tag, len_eq, whole, front, back) (take-append-drop 4 buf), small)
