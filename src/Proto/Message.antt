-- ===== src/Proto/Message.antt =====
-- `Message`: its header, its encoding, and the typed constructors.
use capsudo_rs.Base.{ℕ, ◌%◌, ◌^◌, ◌+◌, ◌≡◌, List, [], ◌++◌, arith, length, length-append}
use capsudo_rs.Base.Bytes.{to_le}
use capsudo_rs.Base.Int.{ℤ, i32_bits}
use capsudo_rs.Proto.Defs.{FieldType, SessionType, Header, Message}
use capsudo_rs.Proto.Tags.{as_u8}
use capsudo_rs.Proto.Header

-- `[rows, cols, xpixels, ypixels]`, each a `u16`.
abbrev pub Dims : Type 0
Dims = ℕ × ℕ × ℕ × ℕ

-- `self.payload.len() as u32` keeps the low 32 bits.
unfoldable pub header : Message → Header
header m = record { field_type = m.field_type; len = length m.payload % 2 ^ 32 }

unfoldable pub encode : Message → List ℕ
encode m = Header.encode (header m) ++ m.payload

abbrev pub new : FieldType → List ℕ → Message
new t p = record { field_type = t; payload = p }

unfoldable pub arg : List ℕ → Message
arg s = new FieldType.arg s

unfoldable pub env : List ℕ → Message
env s = new FieldType.env s

unfoldable pub exit : ℤ → Message
exit code = new FieldType.exit (to_le 4 (i32_bits code))

unfoldable pub fds : ℕ → Message
fds count = new FieldType.fd (to_le 4 count)

unfoldable pub session_type : SessionType → Message
session_type ty = new FieldType.session_type (to_le 4 (as_u8 ty))

unfoldable pub error : List ℕ → Message
error s = new FieldType.error s

unfoldable pub secret : List ℕ → Message
secret s = new FieldType.secret s

unfoldable pub unauthorized : List ℕ → Message
unauthorized prompt = new FieldType.unauthorized prompt

unfoldable pub winsize : Dims → Message
winsize (rows, cols, xpixels, ypixels) =
    new FieldType.winsize (to_le 2 rows ++ (to_le 2 cols ++ (to_le 2 xpixels ++ to_le 2 ypixels)))

unfoldable pub end : Message
end = new FieldType.end []

pub length-encode : (m : Message) → length (encode m) ≡ Header.size + length m.payload
unfolding encode
length-encode m =
    omega
      (arith, length-append (Header.encode (header m)) m.payload, Header.length-encode (header m))
