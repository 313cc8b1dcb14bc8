-- ===== src/Mux/Fds.antt =====
-- `encode_fds` and `decode_fds`: the payload of a frame that delegates descriptors.
use capsudo_rs.Base.{
  ℕ, ◌*◌, ◌≤◌, ◌≡◌, refl, ap, List, [], ◌∷◌, ◌++◌, Option, none, some, arith, ◌==◌, if◌then◌else◌,
  length, length-append, All,
}
use capsudo_rs.Base.Bytes.{to_le, from_le, length-to_le, from_le-to_le, IsU32}
use capsudo_rs.Transport.Defs.{FdDir}

unfoldable pub dir_code : FdDir → ℕ
dir_code FdDir.read = 0
dir_code FdDir.write = 1
dir_code FdDir.read_write = 2

unfoldable pub encode_fds : List (ℕ × FdDir) → List ℕ
encode_fds [] = []
encode_fds ((id, dir) ∷ specs) = to_le 4 id ++ (dir_code dir ∷ encode_fds specs)

unfoldable pub decode_dir : ℕ → Option FdDir
decode_dir code =
    if code == 0
    then some FdDir.read
    else if code == 1
    then some FdDir.write
    else if code == 2
    then some FdDir.read_write
    else none

-- The closure of `filter_map`, on one chunk of five bytes.
abbrev decode_chunk : List (ℕ × FdDir) → ℕ → ℕ → List (ℕ × FdDir)
decode_chunk rest id code = elim (decode_dir code) [ none ↦ rest | some dir ↦ (id, dir) ∷ rest ]

-- `chunks_exact(5)` leaves out a shorter rest.
unfoldable pub decode_fds : List ℕ → List (ℕ × FdDir)
decode_fds (b0 ∷ b1 ∷ b2 ∷ b3 ∷ b4 ∷ buf) =
    decode_chunk (decode_fds buf) (from_le (b0 ∷ b1 ∷ b2 ∷ b3 ∷ [])) b4
decode_fds buf = []

pub decode_dir-dir_code : (d : FdDir) → decode_dir (dir_code d) ≡ some d
unfolding decode_dir dir_code
decode_dir-dir_code FdDir.read = refl
decode_dir-dir_code d = refl

decode_fds-chunk :
    (id code : ℕ) (buf : List ℕ)
    → IsU32 id
    → decode_fds (to_le 4 id ++ (code ∷ buf)) ≡ decode_chunk (decode_fds buf) id code
unfolding decode_fds to_le
decode_fds-chunk id code buf h =
    ap (λ n. decode_chunk (decode_fds buf) n code) (from_le-to_le 4 id (omega arith))

decode_chunk-dir_code :
    (rest : List (ℕ × FdDir)) (id : ℕ) (d : FdDir)
    → decode_chunk rest id (dir_code d) ≡ (id, d) ∷ rest
decode_chunk-dir_code rest id d = rw (decode_chunk, decode_dir-dir_code d)

-- Every list of streams is read back from its payload.
pub decode_fds-encode_fds :
    (specs : List (ℕ × FdDir)) → All (λ s. IsU32 s.0) specs → decode_fds (encode_fds specs) ≡ specs
unfolding encode_fds
decode_fds-encode_fds [] h = unfold decode_fds in refl
decode_fds-encode_fds ((id, dir) ∷ specs) h = rw (
  decode_fds-chunk id (dir_code dir) (encode_fds specs) h.0,
  decode_fds-encode_fds specs h.1,
  decode_chunk-dir_code specs id dir,
)

-- A payload takes five bytes for each stream, so the count that the reader takes from its length
-- is the number of streams.
pub length-encode_fds : (specs : List (ℕ × FdDir)) → length (encode_fds specs) ≡ 5 * length specs
unfolding encode_fds
length-encode_fds [] = omega arith
length-encode_fds ((id, dir) ∷ specs) = omega (
  arith,
  length-append (to_le 4 id) (dir_code dir ∷ encode_fds specs),
  length-to_le 4 id,
  length-encode_fds specs,
)

-- Of any payload at most one stream is read for each five bytes, malformed or not.
pub length-decode_fds-le : (buf : List ℕ) → 5 * length (decode_fds buf) ≤ length buf
unfolding decode_fds
length-decode_fds-le (b0 ∷ b1 ∷ b2 ∷ b3 ∷ b4 ∷ buf) = ground (arith, length-decode_fds-le buf)
length-decode_fds-le buf = omega arith
