-- ===== src/Transport/Bytes.antt =====
-- The byte channel below a transport: `read_exact`, `write_all` and `flush` of the runtime, with
-- what their documentation promises.
use capsudo_rs.Base.{ℕ, ◌≤◌, ◌<◌, ◌≡◌, List, ◌++◌, length, take, drop}
use capsudo_rs.Base.Result.{Result, ok, err}
use capsudo_rs.Transport.Defs.{IoError}

-- `content` is what the channel still delivers, and `ending` the error of a read that wants more
-- than that: `unexpected_eof` at the end of the stream.
pub record Reader (R : Type 0) : Type 0 where
  pub read_exact : ℕ → R → Result IoError (List ℕ) × R
  pub content : R → List ℕ
  pub ending : R → IoError
  pub read_exact_full :
      (n : ℕ) (r : R)
      → n ≤ length (content r)
      → (r' : R) × (read_exact n r ≡ (ok (take n (content r)), r'))
        × (content r' ≡ drop n (content r))
        × (ending r' ≡ ending r)
  pub read_exact_short :
      (n : ℕ) (r : R) → length (content r) < n → (r' : R) × (read_exact n r ≡ (err (ending r), r'))

-- `written` is what has reached the channel.
pub record Writer (W : Type 0) : Type 0 where
  pub write_all : List ℕ → W → Result IoError (Unit {0}) × W
  pub flush : W → Result IoError (Unit {0}) × W
  pub written : W → List ℕ
  pub write_all_ok :
      (bs : List ℕ) (w w' : W) → write_all bs w ≡ (ok tt, w') → written w' ≡ written w ++ bs
  pub flush_ok : (w w' : W) → flush w ≡ (ok tt, w') → written w' ≡ written w
