-- ===== src/Transport/FdSpec.antt =====
-- The constructors of `FdSpec`, in traits.rs.
use capsudo_rs.Base.{ℕ}
use capsudo_rs.Transport.Defs.{FdDir, FdSpec}

abbrev pub read : ℕ → FdSpec
read fd = record { fd = fd; dir = FdDir.read }

abbrev pub write : ℕ → FdSpec
write fd = record { fd = fd; dir = FdDir.write }

abbrev pub read_write : ℕ → FdSpec
read_write fd = record { fd = fd; dir = FdDir.read_write }
