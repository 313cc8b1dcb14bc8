-- ===== src/Transport/Defs.antt =====
-- Errors, directions, and what travels through a transport.
use Prim.Native.String.{String}
use capsudo_rs.Base.{ℕ, ◌≡◌, refl, Bool, true, false, List}
use capsudo_rs.Proto.Defs.{Message, ProtoError}
use capsudo_rs.Base.Int.{ℤ}

-- The kinds of `std::io::Error` that the code tells apart or makes itself.
pub data IoError : Type 0 where
  unexpected_eof invalid_data would_block interrupted write_zero not_found : IoError
  os : ℕ → IoError

pub data TransportError : Type 0 where
  io : IoError → TransportError
  proto : ProtoError → TransportError
  unexpected_eof : TransportError
  other : String → TransportError

pub data FdDir : Type 0 where
  read write read_write : FdDir

unfoldable pub reads : FdDir → Bool
reads FdDir.read = true
reads FdDir.write = false
reads FdDir.read_write = true

unfoldable pub writes : FdDir → Bool
writes FdDir.read = false
writes FdDir.write = true
writes FdDir.read_write = true

unfoldable pub invert : FdDir → FdDir
invert FdDir.read = FdDir.write
invert FdDir.write = FdDir.read
invert FdDir.read_write = FdDir.read_write

pub record FdSpec : Type 0 where
  pub fd : ℕ
  pub dir : FdDir

pub record Received : Type 0 where
  pub message : Message
  pub fds : List ℕ

pub record PeerCred : Type 0 where
  pub pid : ℤ
  pub uid : ℕ
  pub gid : ℕ

-- What one end of a stream reads the other writes, and turning a direction twice is no turn.
pub invert_lem :
    (d : FdDir)
    → (reads (invert d) ≡ writes d) × (writes (invert d) ≡ reads d) × (invert (invert d) ≡ d)
unfolding reads writes invert
invert_lem FdDir.read = (refl, refl, refl)
invert_lem d = (refl, refl, refl)
