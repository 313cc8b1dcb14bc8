-- ===== src/Proto/Accessors.antt =====
-- The typed accessors of `Message`, and what each reads back from its constructor.
use Prim.Native.String.{String}
use capsudo_rs.Base.{
  ℕ, ◌≡◌, List, arith, ltb, ◌==◌, if◌then◌else◌, eq→==, lt→ltb, length, take, drop,
}
use capsudo_rs.Base.Result.{Result, ok, err, ◌>>=◌}
use capsudo_rs.Base.Bytes.{to_le, from_le, length-to_le, from_le-to_le, IsU32, IsU16}
use capsudo_rs.Base.Int.{ℤ, i32_bits, bits_i32, IsI32, i32_bits-lt, bits_i32-i32_bits}
use capsudo_rs.Base.Utf8.{is_utf8, IsStr}
use capsudo_rs.Proto.Defs.{SessionType, Message, ProtoError, invalid_payload}
use capsudo_rs.Proto.Tags.{as_u8, try_from_u8, try_from_u8-as_u8, as_u8-lt}
use capsudo_rs.Proto.Message
use capsudo_rs.Proto.Message.{Dims}

-- `fixed_payload::<N>`
unfoldable pub fixed_payload : ℕ → String → Message → Result ProtoError (List ℕ)
fixed_payload n reason m =
    if length m.payload == n then ok m.payload else err (invalid_payload m.field_type reason)

unfoldable pub as_str : Message → Result ProtoError (List ℕ)
as_str m =
    if is_utf8 m.payload
    then ok m.payload
    else err (invalid_payload m.field_type "expected UTF-8 text")

unfoldable pub as_i32 : Message → Result ProtoError ℤ
as_i32 m = do bytes ← fixed_payload 4 "expected 4-byte integer" m; ok (bits_i32 (from_le bytes))

unfoldable pub as_u32 : Message → Result ProtoError ℕ
as_u32 m = do bytes ← fixed_payload 4 "expected 4-byte integer" m; ok (from_le bytes)

unfoldable pub as_winsize : Message → Result ProtoError Dims
as_winsize m = do
  bytes ← fixed_payload 8 "expected 8-byte window size" m
  ok (
    from_le (take 2 bytes),
    from_le (take 2 (drop 2 bytes)),
    from_le (take 2 (drop 4 bytes)),
    from_le (take 2 (drop 6 bytes)),
  )

unfoldable pub as_session_type : Message → Result ProtoError SessionType
as_session_type m = do
  value ← as_u32 m
  if ltb value 256
      then try_from_u8 value
      else err (invalid_payload m.field_type "session type out of range")

fixed_payload-some :
    (n : ℕ) (reason : String) (m : Message)
    → length m.payload ≡ n
    → fixed_payload n reason m ≡ ok m.payload
unfolding fixed_payload
fixed_payload-some n reason m e = rw (eq→== (length m.payload) n e)

-- Text comes back as it went in, from every constructor that takes a string.
pub as_str-arg : (s : List ℕ) → IsStr s → as_str (Message.arg s) ≡ ok s
unfolding as_str Message.arg
as_str-arg s h = rw h

pub as_str-env : (s : List ℕ) → IsStr s → as_str (Message.env s) ≡ ok s
unfolding as_str Message.env
as_str-env s h = rw h

pub as_str-error : (s : List ℕ) → IsStr s → as_str (Message.error s) ≡ ok s
unfolding as_str Message.error
as_str-error s h = rw h

pub as_str-unauthorized : (s : List ℕ) → IsStr s → as_str (Message.unauthorized s) ≡ ok s
unfolding as_str Message.unauthorized
as_str-unauthorized s h = rw h

-- An exit code over the whole range of `i32` is read back from its four bytes.
pub as_i32-exit : (code : ℤ) → IsI32 code → as_i32 (Message.exit code) ≡ ok code
unfolding as_i32 Message.exit
as_i32-exit code h = rw (
  fixed_payload-some 4 "expected 4-byte integer" (Message.exit code) (length-to_le 4 _),
  from_le-to_le 4 (i32_bits code) (omega (arith, i32_bits-lt code h)),
  bits_i32-i32_bits code h,
)

pub as_u32-fds : (count : ℕ) → IsU32 count → as_u32 (Message.fds count) ≡ ok count
unfolding as_u32 Message.fds
as_u32-fds count h = rw (
  fixed_payload-some 4 "expected 4-byte integer" (Message.fds count) (length-to_le 4 _),
  from_le-to_le 4 count (omega arith),
)

-- A session type is read back.
pub as_session_type-session_type :
    (ty : SessionType) → as_session_type (Message.session_type ty) ≡ ok ty
unfolding as_session_type as_u32 Message.session_type
as_session_type-session_type ty = rw (
  fixed_payload-some 4 "expected 4-byte integer" (Message.session_type ty) (length-to_le 4 _),
  from_le-to_le 4 (as_u8 ty) (omega (arith, as_u8-lt ty)),
  lt→ltb (as_u8 ty) 256 (as_u8-lt ty),
  try_from_u8-as_u8 ty,
)

-- Four window dimensions are read back.
pub as_winsize-winsize :
    (rows cols xpixels ypixels : ℕ)
    → IsU16 rows
    → IsU16 cols
    → IsU16 xpixels
    → IsU16 ypixels
    → as_winsize (Message.winsize (rows, cols, xpixels, ypixels))
      ≡ ok (rows, cols, xpixels, ypixels)
unfolding as_winsize Message.winsize fixed_payload to_le from_le
as_winsize-winsize r c x y hr hc hx hy = ground arith
