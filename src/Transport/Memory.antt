-- ===== src/Transport/Memory.antt =====
-- A byte channel in memory, which keeps the promises of the two interfaces: what is written stays
-- in order, and the end of the list is the end of the stream.
use capsudo_rs.Base.{
  ℕ, ◌≤◌, ◌<◌, ◌≡◌, refl, List, [], ◌++◌, leb, if◌then◌else◌, length, take, drop, arith,
}
use capsudo_rs.Base.Result.{Result, ok, err}
use capsudo_rs.Transport.Defs.{IoError, unexpected_eof}
use capsudo_rs.Transport.Bytes.{Reader, Writer}

abbrev pub read_memory : ℕ → List ℕ → Result IoError (List ℕ) × List ℕ
read_memory n r = if leb n (length r) then (ok (take n r), drop n r) else (err unexpected_eof, [])

pub read_memory_full :
    (n : ℕ) (r : List ℕ)
    → n ≤ length r
    → (r' : List ℕ) × (read_memory n r ≡ (ok (take n r), r'))
      × (r' ≡ drop n r)
      × (◌≡◌ {A = IoError} unexpected_eof unexpected_eof)
read_memory_full n r h = (drop n r, ground arith, refl, refl)

pub read_memory_short :
    (n : ℕ) (r : List ℕ)
    → length r < n
    → (r' : List ℕ) × (read_memory n r ≡ (err unexpected_eof, r'))
read_memory_short n r h = ([], ground arith)

abbrev pub memory_reader : Reader (List ℕ)
memory_reader = record {
  read_exact = read_memory;
  content = λ r. r;
  ending = λ _. unexpected_eof;
  read_exact_full = read_memory_full;
  read_exact_short = read_memory_short;
}

pub write_memory_ok :
    (bs w w' : List ℕ)
    → ◌≡◌ {A = Result IoError (Unit {0}) × List ℕ} (ok tt, w ++ bs) (ok tt, w')
    → w' ≡ w ++ bs
write_memory_ok bs w w' e = ground arith

pub flush_memory_ok :
    (w w' : List ℕ) → ◌≡◌ {A = Result IoError (Unit {0}) × List ℕ} (ok tt, w) (ok tt, w') → w' ≡ w
flush_memory_ok w w' e = ground arith

abbrev pub memory_writer : Writer (List ℕ)
memory_writer = record {
  write_all = λ bs w. (ok tt, w ++ bs);
  flush = λ w. (ok tt, w);
  written = λ w. w;
  write_all_ok = write_memory_ok;
  flush_ok = flush_memory_ok;
}
