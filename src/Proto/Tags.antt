-- ===== src/Proto/Tags.antt =====
-- The wire values of the two enumerations (`as_u32`, `as_u8`, and the two `TryFrom` impls).
use capsudo_rs.Base.{ℕ, ◌<◌, ◌≡◌, refl, arith, ◌==◌, if◌then◌else◌}
use capsudo_rs.Base.Result.{Result, ok, err}
use capsudo_rs.Proto.Defs.{
  FieldType, SessionType, ProtoError, unknown_field_type, invalid_session_type,
}

unfoldable pub as_u32 : FieldType → ℕ
as_u32 FieldType.arg = 1
as_u32 FieldType.env = 2
as_u32 FieldType.exit = 3
as_u32 FieldType.fd = 4
as_u32 FieldType.session_type = 5
as_u32 FieldType.error = 6
as_u32 FieldType.secret = 7
as_u32 FieldType.unauthorized = 8
as_u32 FieldType.winsize = 9
as_u32 FieldType.end = 255

unfoldable pub try_from_u32 : ℕ → Result ProtoError FieldType
try_from_u32 value =
    if value == 1
    then ok FieldType.arg
    else if value == 2
    then ok FieldType.env
    else if value == 3
    then ok FieldType.exit
    else if value == 4
    then ok FieldType.fd
    else if value == 5
    then ok FieldType.session_type
    else if value == 6
    then ok FieldType.error
    else if value == 7
    then ok FieldType.secret
    else if value == 8
    then ok FieldType.unauthorized
    else if value == 9
    then ok FieldType.winsize
    else if value == 255
    then ok FieldType.end
    else err (unknown_field_type value)

unfoldable pub as_u8 : SessionType → ℕ
as_u8 SessionType.auto = 1
as_u8 SessionType.interactive = 2
as_u8 SessionType.non_interactive = 3

unfoldable pub try_from_u8 : ℕ → Result ProtoError SessionType
try_from_u8 value =
    if value == 1
    then ok SessionType.auto
    else if value == 2
    then ok SessionType.interactive
    else if value == 3
    then ok SessionType.non_interactive
    else err (invalid_session_type value)

-- Every type tag is read back from its wire value.
pub try_from_u32-as_u32 : (t : FieldType) → try_from_u32 (as_u32 t) ≡ ok t
unfolding as_u32 try_from_u32
try_from_u32-as_u32 FieldType.arg = refl
try_from_u32-as_u32 t = refl

-- A wire value that is accepted is that of the tag it is read as.
pub as_u32-try_from_u32 : (value : ℕ) (t : FieldType) → try_from_u32 value ≡ ok t → as_u32 t ≡ value
unfolding as_u32 try_from_u32
as_u32-try_from_u32 value t h = ground arith

pub as_u32-lt : (t : FieldType) → as_u32 t < 256
unfolding as_u32
as_u32-lt FieldType.arg = omega arith
as_u32-lt t = omega arith

pub try_from_u8-as_u8 : (t : SessionType) → try_from_u8 (as_u8 t) ≡ ok t
unfolding as_u8 try_from_u8
try_from_u8-as_u8 SessionType.auto = refl
try_from_u8-as_u8 t = refl

pub as_u8-try_from_u8 : (value : ℕ) (t : SessionType) → try_from_u8 value ≡ ok t → as_u8 t ≡ value
unfolding as_u8 try_from_u8
as_u8-try_from_u8 value t h = ground arith

pub as_u8-lt : (t : SessionType) → as_u8 t < 256
unfolding as_u8
as_u8-lt SessionType.auto = omega arith
as_u8-lt t = omega arith
