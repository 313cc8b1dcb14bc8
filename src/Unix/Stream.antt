-- ===== src/Unix/Stream.antt =====
-- The stream of a connected pair of sockets, as the system documents it: bytes arrive in order, and
-- descriptors that were passed arrive with the first byte of the write that they rode on.
use capsudo_rs.Base.{
  ℕ, zero, suc, ◌≤◌, ◌<◌, ◌≡◌, refl, sym, ap, ◌∙◌, List, [], ◌∷◌, ◌++◌, length, take, drop, arith,
  append-nil, take-append-drop,
}
use capsudo_rs.Base.Result.{ok}
use capsudo_rs.Proto.Header
use capsudo_rs.Transport.Bytes.{Reader}
use capsudo_rs.Unix.Recv.{Arrival, max_scm_fds}
use capsudo_rs.Unix.Received.{arrived, fds_of, Fills}
use capsudo_rs.Unix.Send.{Socket}

-- A byte with the descriptors that ride on it.
abbrev pub Tagged : Type 0
Tagged = ℕ × List ℕ

abbrev pub bytes : List Tagged → List ℕ
bytes [] = []
bytes ((b, fds) ∷ ts) = b ∷ bytes ts

abbrev pub riding : List Tagged → List ℕ
riding [] = []
riding ((b, fds) ∷ ts) = fds ++ riding ts

abbrev pub bare : List ℕ → List Tagged
bare [] = []
bare (b ∷ bs) = (b, []) ∷ bare bs

-- One write with its descriptors.
abbrev pub tag : List ℕ → List ℕ → List Tagged
tag [] fds = []
tag (b ∷ bs) fds = (b, fds) ∷ bare bs

-- The sending end: what has been queued for the peer.
pub record Outbox {W : Type 0} (socket : Socket W) : Type 0 where
  pub queued : W → List Tagged
  pub accept_queued :
      (bs fds : List ℕ) (w : W) → queued (socket.accept bs fds w) ≡ queued w ++ tag bs fds
  pub write_all_queued :
      (bs : List ℕ) (w w' : W)
      → socket.writer.write_all bs w ≡ (ok tt, w')
      → queued w' ≡ queued w ++ bare bs

-- The receiving end: `coming` is all that will arrive. A `recvmsg` never returns more than the room
-- that is left for the header, and the descriptors of what it returns if there is room for them; a
-- `read_exact` drops those that it meets.
pub record Inbox (reader : Reader (List Arrival)) : Type 0 where
  pub coming : List Arrival → List Tagged
  pub content_coming : (as' : List Arrival) → reader.content as' ≡ bytes (coming as')
  pub recvmsg :
      (as' : List Arrival)
      → Header.size ≤ length (coming as')
      → length (riding (take Header.size (coming as'))) ≤ max_scm_fds
      → (pieces : List Arrival) × (rest : List Arrival) × (as' ≡ pieces ++ rest)
        × Fills 0 pieces
        × (arrived pieces ≡ bytes (take Header.size (coming as')))
        × (fds_of pieces ≡ riding (take Header.size (coming as')))
        × (coming rest ≡ drop Header.size (coming as'))
  pub read_exact_coming :
      (n : ℕ) (as' rest : List Arrival) (bs : List ℕ)
      → reader.read_exact n as' ≡ (ok bs, rest)
      → coming rest ≡ drop n (coming as')

pub bytes-bare : (bs : List ℕ) → bytes (bare bs) ≡ bs
bytes-bare [] = refl
bytes-bare (b ∷ bs) = ap (◌∷◌ b) (bytes-bare bs)

pub riding-bare : (bs : List ℕ) → riding (bare bs) ≡ []
riding-bare [] = refl
riding-bare (b ∷ bs) = riding-bare bs

pub bytes-append : (xs ys : List Tagged) → bytes (xs ++ ys) ≡ bytes xs ++ bytes ys
bytes-append [] ys = refl
bytes-append ((b, fds) ∷ xs) ys = ap (◌∷◌ b) (bytes-append xs ys)

pub length-bare : (bs : List ℕ) → length (bare bs) ≡ length bs
length-bare [] = refl
length-bare (b ∷ bs) = omega (arith, length-bare bs)

pub length-tag : (bs fds : List ℕ) → length (tag bs fds) ≡ length bs
length-tag [] fds = refl
length-tag (b ∷ bs) fds = omega (arith, length-bare bs)

pub bytes-tag : (bs fds : List ℕ) → bytes (tag bs fds) ≡ bs
bytes-tag [] fds = refl
bytes-tag (b ∷ bs) fds = ap (◌∷◌ b) (bytes-bare bs)

pub riding-tag : (bs fds : List ℕ) → 0 < length bs → riding (tag bs fds) ≡ fds
riding-tag [] fds h = absurd (omega arith)
riding-tag (b ∷ bs) fds h = ap (λ l. fds ++ l) (riding-bare bs) ∙ append-nil fds

pub bare-append : (xs ys : List ℕ) → bare (xs ++ ys) ≡ bare xs ++ bare ys
bare-append [] ys = refl
bare-append (x ∷ xs) ys = ap (◌∷◌ (x, [])) (bare-append xs ys)

-- The descriptors ride on the first part of a write that is split.
pub tag-append : (xs ys fds : List ℕ) → 0 < length xs → tag (xs ++ ys) fds ≡ tag xs fds ++ bare ys
tag-append [] ys fds h = absurd (omega arith)
tag-append (x ∷ xs) ys fds h = ap (◌∷◌ (x, fds)) (bare-append xs ys)

pub tag-take-drop :
    (n : ℕ) (bs fds : List ℕ) → 0 < n → tag (take n bs) fds ++ bare (drop n bs) ≡ tag bs fds
tag-take-drop zero bs fds h = absurd (omega arith)
tag-take-drop (suc n) [] fds h = refl
tag-take-drop (suc n) (b ∷ bs) fds h =
    ap (◌∷◌ (b, fds)) (sym (bare-append (take n bs) (drop n bs)) ∙ ap bare (take-append-drop n bs))
