-- ===== src/Transport/OwnerSpec.antt =====
-- ownerspec.rs: `user[:group]` and octal modes, the access-control knobs of both daemons.
-- The user and group databases of the system are parameters: `users` gives a name's uid and primary
-- gid, `groups` a group's gid, and `none` stands for an unknown name and for a failed lookup.
use capsudo_rs.Base.{
  ℕ, ◌≤◌, ◌<◌, ◌≡◌, ◌≢◌, refl, List, [], ◌∷◌, ◌++◌, Option, none, some, arith, leb, ne→==, ◌==◌,
  if◌then◌else◌, All, Option-cases, inl, inr, ◌⊎◌,
}
use capsudo_rs.Transport.Radix.{from_str_radix, value, print_digits, from_str_radix-digits}

-- `spec.split_once(':')`, with the whole spec as the user where there is no colon.
abbrev onto : ℕ → List ℕ × Option (List ℕ) → List ℕ × Option (List ℕ)
onto b (user, group) = (b ∷ user, group)

unfoldable pub split_spec : List ℕ → List ℕ × Option (List ℕ)
split_spec [] = ([], none)
split_spec (b ∷ bs) = if b == b':' then ([], some bs) else onto b (split_spec bs)

abbrev pub parse_u32 : List ℕ → Option ℕ
parse_u32 = from_str_radix 10

-- uid and gid, each if there is one.
abbrev pub Owner : Type 0
Owner = Option ℕ × Option ℕ

module _ (users : List ℕ → Option (ℕ × ℕ)) (groups : List ℕ → Option ℕ) where
  abbrev named_user : Option (ℕ × ℕ) → Option Owner
  named_user none = none
  named_user (some (uid, gid)) = some (some uid, some gid)

  abbrev user_or_name : List ℕ → Option ℕ → Option Owner
  user_or_name user none = named_user (users user)
  user_or_name user (some n) = some (some n, none)

  unfoldable pub resolve_user : List ℕ → Option Owner
  resolve_user [] = some (none, none)
  resolve_user (b ∷ bs) = user_or_name (b ∷ bs) (parse_u32 (b ∷ bs))

  abbrev named_group : Option ℕ → Option ℕ → Option Owner
  named_group uid none = none
  named_group uid (some gid) = some (uid, some gid)

  abbrev group_or_name : Option ℕ → List ℕ → Option ℕ → Option Owner
  group_or_name uid group none = named_group uid (groups group)
  group_or_name uid group (some n) = some (uid, some n)

  unfoldable pub resolve_group : Owner → Option (List ℕ) → Option Owner
  resolve_group owner none = some owner
  resolve_group owner (some []) = some owner
  resolve_group owner (some (b ∷ bs)) = group_or_name owner.0 (b ∷ bs) (parse_u32 (b ∷ bs))

  abbrev or_refused : Owner → Option Owner
  or_refused (none, none) = none
  or_refused (none, some g) = some (none, some g)
  or_refused (some u, g) = some (some u, g)

  abbrev with_group : Option Owner → Option (List ℕ) → Option Owner
  with_group none group = none
  with_group (some owner) group = elim (resolve_group owner group) [
    | none ↦ none
    | some o ↦ or_refused o
  ]

  unfoldable pub parse_owner_spec : List ℕ → Option Owner
  unfolding resolve_user resolve_group
  parse_owner_spec spec = with_group (resolve_user (split_spec spec).0) (split_spec spec).1

-- Octal, up to 0o7777.
unfoldable pub parse_mode : List ℕ → Option ℕ
parse_mode spec = elim (from_str_radix 8 spec) [
  | none ↦ none
  | some n ↦ if leb n 0o7777 then some n else none
]

-- A mode that is accepted fits the permission bits, so nothing above them is ever set.
pub parse_mode-le : (spec : List ℕ) (mode : ℕ) → parse_mode spec ≡ some mode → mode ≤ 0o7777
unfolding parse_mode
parse_mode-le spec mode e = ground arith

-- Octal digits, at least one, are accepted as the number that they stand for exactly if it is a
-- mode. More digits than the largest mode has, and leading zeros, are judged by their value alone.
pub parse_mode-digits :
    (d : ℕ) (ds : List ℕ)
    → All (λ x. x < 8) (d ∷ ds)
    → parse_mode (print_digits (d ∷ ds))
      ≡ (if leb (value 8 0 (d ∷ ds)) 0o7777 then some (value 8 0 (d ∷ ds)) else none)
unfolding parse_mode
parse_mode-digits d ds all =
    rw ((from_str_radix-digits 8 d ds (omega arith) (omega arith) all).0, parse_mode) (ground arith)

split_spec-append :
    (user group : List ℕ)
    → All (λ b. b ≢ b':') user
    → split_spec (user ++ (b':' ∷ group)) ≡ (user, some group)
unfolding split_spec
split_spec-append [] group h = refl
split_spec-append (b ∷ bs) group h = rw (ne→== b b':' h.0, split_spec-append bs group h.1) refl

module _ (users : List ℕ → Option (ℕ × ℕ)) (groups : List ℕ → Option ℕ) where
  -- A spec that is accepted names an owner or a group: the socket's ownership is then changed.
  pub parse_owner_spec-some :
      (spec : List ℕ) (owner : Owner)
      → parse_owner_spec users groups spec ≡ some owner
      → (owner.0 ≢ none) ⊎ (owner.1 ≢ none)
  unfolding parse_owner_spec
  parse_owner_spec-some spec owner e =
      with_group-some (resolve_user users groups (split_spec spec).0) (split_spec spec).1 owner e
    where
      or_refused-some :
          (o owner : Owner)
          → or_refused users groups o ≡ some owner
          → (owner.0 ≢ none) ⊎ (owner.1 ≢ none)
      or_refused-some (none, none) owner e = absurd (cc)
      or_refused-some (none, some g) owner e = inr (λ h. ground arith)
      or_refused-some (some u, g) owner e = inl (λ h. ground arith)

      with_group-some :
          (o : Option Owner) (group : Option (List ℕ)) (owner : Owner)
          → with_group users groups o group ≡ some owner
          → (owner.0 ≢ none) ⊎ (owner.1 ≢ none)
      with_group-some none group owner e = absurd (cc)
      with_group-some (some o) group owner e =
          elim (Option-cases (resolve_group users groups o group)) [
            | inl bad ↦ absurd (ground arith)
            | inr (p, good) ↦ or_refused-some p owner (rw (good, with_group) at e)
          ]

  with_group-explicit :
      (b n : ℕ) (bs : List ℕ) (o : Option Owner)
      → parse_u32 (b ∷ bs) ≡ some n
      → with_group users groups o (some (b ∷ bs))
        ≡ elim o [ none ↦ none | some p ↦ some (p.0, some n) ]
  unfolding resolve_group
  with_group-explicit b n bs none e = refl
  with_group-explicit b n bs (some (none, g)) e = rw (e, with_group, resolve_group)
  with_group-explicit b n bs (some (some u, g)) e = rw (e, with_group, resolve_group)

  -- A group that is given by number wins over the primary group that a user's name brings along;
  -- the user stays as it was resolved, and a user part that cannot be resolved refuses the spec.
  -- The user part holds no colon.
  pub parse_owner_spec-explicit_group :
      (user : List ℕ) (b n : ℕ) (bs : List ℕ)
      → All (λ x. x ≢ b':') user
      → parse_u32 (b ∷ bs) ≡ some n
      → parse_owner_spec users groups (user ++ (b':' ∷ b ∷ bs))
        ≡ elim (resolve_user users groups user) [ none ↦ none | some o ↦ some (o.0, some n) ]
  unfolding parse_owner_spec
  parse_owner_spec-explicit_group user b n bs h e =
      rw (split_spec-append user (b ∷ bs) h)
        (with_group-explicit b n bs (resolve_user users groups user) e)
