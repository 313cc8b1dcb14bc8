-- ===== src/Pwauth/Shadow.antt =====
-- shadow.rs: the password check. `crypt` of the system's library is a parameter, which gives the
-- computed hash, or `none` for a null pointer; so is what `/etc/shadow` holds, if it can be read.
use capsudo_rs.Base.{
  ℕ, ◌≡◌, ◌≢◌, refl, ap, Bool, true, false, not, ◌&&◌, ◌||◌, List, [], ◌∷◌, ◌++◌, Option, none,
  some, ◌==◌, if◌then◌else◌, arith, All, ne→==, Option-cases, inl, inr,
}
use capsudo_rs.Core.Command.{str_eq, str_eq_iff, split_once}

-- `str::lines`: a line ends in LF, or CR LF, and the last may have no end.
abbrev onto_first : ℕ → List (List ℕ) → List (List ℕ)
onto_first b [] = (b ∷ []) ∷ []
onto_first b (l ∷ ls) = (b ∷ l) ∷ ls

abbrev starts_with : ℕ → List ℕ → Bool
starts_with b [] = false
starts_with b (c ∷ cs) = b == c

unfoldable pub lines : List ℕ → List (List ℕ)
lines [] = []
lines (b ∷ bs) =
    let rest = lines bs in
    if b == 10 then [] ∷ rest else if b == 13 && starts_with 10 bs then rest else onto_first b rest

-- The first two fields of `splitn(3, ':')`.
abbrev pub front_or : List ℕ → Option (List ℕ × List ℕ) → List ℕ
front_or line none = line
front_or line (some (front, back)) = front

abbrev pub second_of : Option (List ℕ × List ℕ) → Option (List ℕ)
second_of none = none
second_of (some (front, back)) = some (front_or back (split_once b':' back))

unfoldable pub find_user : List ℕ → List (List ℕ) → Option (List ℕ)
find_user user [] = none
find_user user (line ∷ rest) =
    let later = find_user user rest in
    if str_eq (front_or line (split_once b':' line)) user
    then second_of (split_once b':' line)
    else later

unfoldable pub stored_hash : Option (List ℕ) → List ℕ → Option (List ℕ)
unfolding find_user
stored_hash none user = none
stored_hash (some contents) user = find_user user (lines contents)

-- Neither empty, nor locked (`!`), nor disabled (`*`).
abbrev pub is_usable : List ℕ → Bool
is_usable [] = false
is_usable (b ∷ bs) = not (b == b'!' || b == b'*')

-- A byte that `CString::new` refuses.
abbrev pub has_nul : List ℕ → Bool
has_nul [] = false
has_nul (b ∷ bs) = b == 0 || has_nul bs

abbrev pub matches : Option (List ℕ) → List ℕ → Bool
matches none hash = false
matches (some computed) hash = str_eq computed hash

unfoldable pub check_password :
    (crypt : List ℕ → List ℕ → Option (List ℕ)) (shadow : Option (List ℕ)) → List ℕ → List ℕ → Bool
check_password crypt shadow user password = elim (stored_hash shadow user) [
  | none ↦ false
  | some hash ↦
      is_usable hash && not (has_nul password || has_nul hash) && matches (crypt password hash) hash
]

matches_iff : (o : Option (List ℕ)) (hash : List ℕ) → matches o hash ≡ true → o ≡ some hash
matches_iff none hash e = ground arith
matches_iff (some computed) hash e = ap some ((str_eq_iff computed hash).0 e)

-- Only an account with a usable hash is let in, by a password that `crypt` turns into that hash.
pub check_password-true :
    (crypt : List ℕ → List ℕ → Option (List ℕ)) (shadow : Option (List ℕ)) (user password : List ℕ)
    → check_password crypt shadow user password ≡ true
    → (hash : List ℕ) × (stored_hash shadow user ≡ some hash)
      × (is_usable hash ≡ true)
      × (crypt password hash ≡ some hash)
unfolding check_password
check_password-true crypt shadow user password e = elim (Option-cases (stored_hash shadow user)) [
  | inl none_there ↦ absurd (ground arith)
  | inr (hash, there) ↦
      (hash, there, ground arith, matches_iff (crypt password hash) hash (ground arith))
]

-- One line of the file, and a file of such lines.
abbrev pub Entry : Type 0
Entry = List ℕ × List ℕ × List ℕ

abbrev entry_line : Entry → List ℕ
entry_line (name, hash, rest) = name ++ (b':' ∷ (hash ++ (b':' ∷ rest)))

abbrev pub render : List Entry → List ℕ
render [] = []
render (e ∷ es) = entry_line e ++ (10 ∷ render es)

unfoldable pub first_hash : List ℕ → List Entry → Option (List ℕ)
first_hash user [] = none
first_hash user ((name, hash, rest) ∷ es) =
    let later = first_hash user es in if str_eq name user then some hash else later

abbrev InLine : ℕ → Type 0
InLine b = (b ≢ 10) × (b ≢ 13)

abbrev InField : ℕ → Type 0
InField b = InLine b × (b ≢ b':')

-- A name and a hash hold no colon, and nothing in an entry ends the line.
abbrev pub IsEntry : Entry → Type 0
IsEntry (name, hash, rest) = All InField name × All InField hash × All InLine rest

lines-line : (l bs : List ℕ) → All InLine l → lines (l ++ (10 ∷ bs)) ≡ l ∷ lines bs
unfolding lines
lines-line [] bs h = refl
lines-line (b ∷ l) bs h = rw (lines-line l bs h.1, ne→== b 10 h.0.0, ne→== b 13 h.0.1) refl

split_once-field :
    (l bs : List ℕ) → All InField l → split_once b':' (l ++ (b':' ∷ bs)) ≡ some (l, bs)
unfolding split_once
split_once-field [] bs h = refl
split_once-field (b ∷ l) bs h = rw (split_once-field l bs h.1, ne→== b b':' h.0.1) refl

InField-InLine : (l : List ℕ) → All InField l → All InLine l
InField-InLine [] h = h
InField-InLine (b ∷ l) h = (h.0.0, InField-InLine l h.1)

InLine-append : (l k : List ℕ) → All InLine l → All InLine k → All InLine (l ++ k)
InLine-append [] k h j = j
InLine-append (b ∷ l) k h j = (h.0, InLine-append l k h.1 j)

entry_line-InLine : (e : Entry) → IsEntry e → All InLine (entry_line e)
entry_line-InLine (name, hash, rest) (h, k, j) =
    let colon : InLine b':' = ((λ e. omega arith), (λ e. omega arith)) in
    InLine-append name _ (InField-InLine name h)
      (colon, InLine-append hash _ (InField-InLine hash k) (colon, j))

lines-render :
    (e : Entry) (es : List Entry)
    → IsEntry e
    → lines (render (e ∷ es)) ≡ entry_line e ∷ lines (render es)
lines-render e es h = lines-line (entry_line e) (render es) (entry_line-InLine e h)

find_user-line :
    (user name hash rest : List ℕ) (ls : List (List ℕ))
    → IsEntry (name, hash, rest)
    → find_user user (entry_line (name, hash, rest) ∷ ls)
      ≡ (if str_eq name user then some hash else find_user user ls)
unfolding find_user
find_user-line user name hash rest ls (h, k, j) =
    rw (split_once-field name (hash ++ (b':' ∷ rest)) h, split_once-field hash rest k) refl

find_user-render :
    (user : List ℕ) (es : List Entry)
    → All IsEntry es
    → find_user user (lines (render es)) ≡ first_hash user es
unfolding first_hash
find_user-render user [] h = unfold lines find_user in refl
find_user-render user ((name, hash, rest) ∷ es) h =
    rw
      (
        lines-render (name, hash, rest) es h.0,
        find_user-line user name hash rest (lines (render es)) h.0,
        find_user-render user es h.1,
      )
      refl

-- In a file of well-formed entries the hash that counts is that of the first entry with exactly
-- the user's name: no part of another name, hash or later field is taken for it.
pub stored_hash-render :
    (user : List ℕ) (es : List Entry)
    → All IsEntry es
    → stored_hash (some (render es)) user ≡ first_hash user es
unfolding stored_hash
stored_hash-render user es h = find_user-render user es h
