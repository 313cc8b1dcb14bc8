-- ===== src/Proto/Defs.antt =====
-- The data of the protocol: type tags, session types, headers, messages and errors.
use Prim.Native.String.{String}
use capsudo_rs.Base.{ℕ, ◌*◌, List}

-- `MAX_PAYLOAD`
abbrev pub max_payload : ℕ
max_payload = 16 * 1024 * 1024

pub data FieldType : Type 0 where
  arg env exit fd session_type error secret unauthorized winsize end : FieldType

pub data SessionType : Type 0 where
  auto interactive non_interactive : SessionType

pub record Header : Type 0 where
  pub field_type : FieldType
  pub len : ℕ  -- u32

pub record Message : Type 0 where
  pub field_type : FieldType
  pub payload : List ℕ

pub data ProtoError : Type 0 where
  unknown_field_type : ℕ → ProtoError
  invalid_session_type : ℕ → ProtoError
  payload_too_large : ℕ → ProtoError
  invalid_payload : (field_type : FieldType) (reason : String) → ProtoError

-- `#[derive(PartialEq, Eq)]`
pub FieldType-discrete : Discrete FieldType
FieldType-discrete = hlevel

pub SessionType-discrete : Discrete SessionType
SessionType-discrete = hlevel
