-- ===== src/Proto/Runs.antt =====
-- Runs of the protocol on concrete messages, and its theorems at concrete inputs.
use capsudo_rs.Base.{ℕ, ◌≡◌, refl, List, [], ◌∷◌}
use capsudo_rs.Base.Result.{ok}
use capsudo_rs.Base.Bytes.{to_le, from_le}
use capsudo_rs.Proto.Defs.{FieldType, Header}
use capsudo_rs.Proto.Tags.{as_u32, try_from_u32}
use capsudo_rs.Proto.Header
use capsudo_rs.Proto.Message

abbrev arg_header : Header
arg_header = record { field_type = FieldType.arg; len = 0x010203 }

abbrev arg_bytes : List ℕ
arg_bytes = 1 ∷ 0 ∷ 0 ∷ 0 ∷ 3 ∷ 2 ∷ 1 ∷ 0 ∷ []

encode_arg : Header.encode arg_header ≡ arg_bytes
unfolding Header.encode to_le as_u32
encode_arg = refl

decode_arg : Header.decode arg_bytes ≡ ok arg_header
unfolding Header.decode from_le try_from_u32
decode_arg = refl

encode_ls :
    Message.encode (Message.arg (b'l' ∷ b's' ∷ []))
    ≡ 1 ∷ 0 ∷ 0 ∷ 0 ∷ 2 ∷ 0 ∷ 0 ∷ 0 ∷ b'l' ∷ b's' ∷ []
unfolding Message.encode Message.header Message.arg Header.encode to_le as_u32
encode_ls = refl
