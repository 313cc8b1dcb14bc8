-- ===== src/Unix/Memory.antt =====
-- Two connected sockets in memory, whose stream is read a byte at a time: an implementation of what
-- Unix/Stream.antt asks of sockets.
use capsudo_rs.Base.{
  ℕ, zero, suc, ◌+◌, ◌≤◌, ◌<◌, ◌≡◌, refl, sym, ap, ◌∙◌, List, [], ◌∷◌, ◌++◌, arith, length, take,
  drop, take-append-drop, leb, Bool-cases, inl, inr, if◌then◌else◌,
}
use capsudo_rs.Base.Result.{Result, ok, err}
use capsudo_rs.Proto.Header
use capsudo_rs.Transport.Defs.{IoError}
use capsudo_rs.Transport.Bytes.{Reader}
use capsudo_rs.Unix.Recv.{Arrival, got, blocked, failed}
use capsudo_rs.Unix.Received.{arrived, fds_of, Fills}
use capsudo_rs.Unix.Send.{Socket}
use capsudo_rs.Unix.Stream.{
  Tagged, bytes, riding, bare, tag, Outbox, Inbox, bytes-append, bytes-bare, bytes-tag,
}

-- What is queued, and the descriptors that have left.
abbrev pub Memory : Type 0
Memory = List Tagged × List ℕ

abbrev pub Wrote : Type 0
Wrote = Result IoError (Unit {0}) × Memory

abbrev pub append : List ℕ → Memory → Wrote
append bs w = (ok tt, (w.0 ++ bare bs, w.1))

pub append-queued :
    (bs : List ℕ) (w w' : Memory) → append bs w ≡ (ok tt, w') → w'.0 ≡ w.0 ++ bare bs
append-queued bs w w' e = ap (λ x. x.1.0) (sym e)

pub append-written :
    (bs : List ℕ) (w w' : Memory) → append bs w ≡ (ok tt, w') → bytes w'.0 ≡ bytes w.0 ++ bs
append-written bs w w' e =
    ap bytes (append-queued bs w w' e)
    ∙ bytes-append w.0 (bare bs)
    ∙ ap (λ l. bytes w.0 ++ l) (bytes-bare bs)

pub append-passed :
    (bs : List ℕ) (w w' : Memory) (r : Result IoError (Unit {0}))
    → append bs w ≡ (r, w')
    → w'.1 ≡ w.1
append-passed bs w w' r e = ap (λ x. x.1.1) (sym e)

pub flush-written :
    (w w' : Memory) → ◌≡◌ {A = Wrote} (ok tt, w) (ok tt, w') → bytes w'.0 ≡ bytes w.0
flush-written w w' e = ap (λ x. bytes x.1.0) (sym e)

pub accept-written : (bs fds : List ℕ) (w : Memory) → bytes (w.0 ++ tag bs fds) ≡ bytes w.0 ++ bs
accept-written bs fds w =
    bytes-append w.0 (tag bs fds) ∙ ap (λ l. bytes w.0 ++ l) (bytes-tag bs fds)

abbrev pub memory : Socket Memory
memory = record {
  writer = record {
    write_all = append;
    flush = λ w. (ok tt, w);
    written = λ w. bytes w.0;
    write_all_ok = append-written;
    flush_ok = flush-written;
  };
  accept = λ bs fds w. (w.0 ++ tag bs fds, w.1 ++ fds);
  passed = λ w. w.1;
  accept_written = accept-written;
  accept_passed = λ bs fds w. refl;
  write_all_passed = append-passed;
}

abbrev pub outbox : Outbox memory
outbox = record {
  queued = λ w. w.0;
  accept_queued = λ bs fds w. refl;
  write_all_queued = append-queued;
}

-- The bytes that arrive, each by itself.
abbrev pub coming : List Arrival → List Tagged
coming [] = []
coming (got [] fds ∷ as') = []
coming (got (b ∷ []) fds ∷ as') = (b, fds) ∷ coming as'
coming (got (b ∷ c ∷ bs) fds ∷ as') = []
coming (blocked ∷ as') = []
coming (failed e ∷ as') = []

abbrev pub one_by_one : List Tagged → List Arrival
one_by_one [] = []
one_by_one ((b, fds) ∷ ts) = got (b ∷ []) fds ∷ one_by_one ts

coming-drop :
    (n : ℕ) (as' : List Arrival)
    → n ≤ length (coming as')
    → coming (drop n as') ≡ drop n (coming as')
coming-drop zero as' h = refl
coming-drop (suc n) [] h = refl
coming-drop (suc n) (got [] fds ∷ as') h = absurd (omega arith)
coming-drop (suc n) (got (b ∷ []) fds ∷ as') h = coming-drop n as' (omega arith)
coming-drop (suc n) (got (b ∷ c ∷ bs) fds ∷ as') h = absurd (omega arith)
coming-drop (suc n) (blocked ∷ as') h = absurd (omega arith)
coming-drop (suc n) (failed e ∷ as') h = absurd (omega arith)

bytes-drop : (n : ℕ) (ts : List Tagged) → bytes (drop n ts) ≡ drop n (bytes ts)
bytes-drop zero ts = refl
bytes-drop (suc n) [] = refl
bytes-drop (suc n) ((b, fds) ∷ ts) = bytes-drop n ts

length-bytes : (ts : List Tagged) → length (bytes ts) ≡ length ts
length-bytes [] = refl
length-bytes ((b, fds) ∷ ts) = omega (arith, length-bytes ts)

-- The arrivals that fill the rest of a header.
take-Fills :
    (n k : ℕ) (as' : List Arrival)
    → k ≤ length (coming as')
    → n + k ≡ Header.size
    → Fills n (take k as')
      × (arrived (take k as') ≡ bytes (take k (coming as')))
      × (fds_of (take k as') ≡ riding (take k (coming as')))
take-Fills n zero as' h e = (omega arith, refl, refl)
take-Fills n (suc k) [] h e = absurd (omega arith)
take-Fills n (suc k) (got [] fds ∷ as') h e = absurd (omega arith)
take-Fills n (suc k) (got (b ∷ []) fds ∷ as') h e =
    let (fills, filled, carried) = take-Fills (n + 1) k as' (omega arith) (omega arith) in
    ((omega arith, fills), ap (◌∷◌ b) filled, ap (λ l. fds ++ l) carried)
take-Fills n (suc k) (got (b ∷ c ∷ bs) fds ∷ as') h e = absurd (omega arith)
take-Fills n (suc k) (blocked ∷ as') h e = absurd (omega arith)
take-Fills n (suc k) (failed x ∷ as') h e = absurd (omega arith)

abbrev pub read_bytes : ℕ → List Arrival → Result IoError (List ℕ) × List Arrival
read_bytes n as' =
    if leb n (length (coming as'))
    then (ok (take n (bytes (coming as'))), drop n as')
    else (err IoError.unexpected_eof, [])

pub read_bytes_full :
    (n : ℕ) (as' : List Arrival)
    → n ≤ length (bytes (coming as'))
    → (rest : List Arrival) × (read_bytes n as' ≡ (ok (take n (bytes (coming as'))), rest))
      × (bytes (coming rest) ≡ drop n (bytes (coming as')))
      × (◌≡◌ {A = IoError} IoError.unexpected_eof IoError.unexpected_eof)
read_bytes_full n as' h =
    let enough : n ≤ length (coming as') = omega (arith, length-bytes (coming as')) in
    (
      drop n as',
      ground arith,
      ap bytes (coming-drop n as' enough) ∙ bytes-drop n (coming as'),
      refl,
    )

pub read_bytes_short :
    (n : ℕ) (as' : List Arrival)
    → length (bytes (coming as')) < n
    → (rest : List Arrival) × (read_bytes n as' ≡ (err IoError.unexpected_eof, rest))
read_bytes_short n as' h =
    let few : length (coming as') < n = omega (arith, length-bytes (coming as')) in
    ([], ground arith)

pub read_bytes-coming :
    (n : ℕ) (as' rest : List Arrival) (bs : List ℕ)
    → read_bytes n as' ≡ (ok bs, rest)
    → coming rest ≡ drop n (coming as')
read_bytes-coming n as' rest bs e = elim (Bool-cases (leb n (length (coming as')))) [
  | inl enough ↦
      let read : Result IoError (List ℕ) × List Arrival =
        (ok (take n (bytes (coming as'))), drop n as') in
      let same : read ≡ (ok bs, rest) =
        ap (λ t. if t then read else (err IoError.unexpected_eof, [])) (sym enough) ∙ e in
      ap (λ x. coming x.1) (sym same) ∙ coming-drop n as' (ground arith)
  | inr few ↦ absurd (ground arith)
]

abbrev pub reader : Reader (List Arrival)
reader = record {
  read_exact = read_bytes;
  content = λ as'. bytes (coming as');
  ending = λ _. IoError.unexpected_eof;
  read_exact_full = read_bytes_full;
  read_exact_short = read_bytes_short;
}

pub inbox_recvmsg :
    (as' : List Arrival)
    → Header.size ≤ length (coming as')
    → (pieces : List Arrival) × (rest : List Arrival) × (as' ≡ pieces ++ rest)
      × Fills 0 pieces
      × (arrived pieces ≡ bytes (take Header.size (coming as')))
      × (fds_of pieces ≡ riding (take Header.size (coming as')))
      × (coming rest ≡ drop Header.size (coming as'))
inbox_recvmsg as' h =
    let (fills, filled, carried) = take-Fills 0 Header.size as' h refl in
    (
      take Header.size as',
      drop Header.size as',
      sym (take-append-drop Header.size as'),
      fills,
      filled,
      carried,
      coming-drop Header.size as' h,
    )

abbrev pub inbox : Inbox reader
inbox = record {
  coming = coming;
  content_coming = λ as'. refl;
  recvmsg = λ as' h _. inbox_recvmsg as' h;
  read_exact_coming = read_bytes-coming;
}
