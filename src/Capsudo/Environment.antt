-- ===== src/Capsudo/Environment.antt =====
-- Which value of a variable the program gets.
use capsudo_rs.Base.{
  ℕ, Bool, false, ◌≡◌, ◌≢◌, refl, sym, ap, ◌∙◌, List, [], ◌∷◌, ◌++◌, Option, none, some,
  if◌then◌else◌, All, arith, ◌⊎◌, inl, inr, Bool-cases,
}
use capsudo_rs.Core.Command.{
  Command, build_command, build_command-env, get_env, str_eq, str_eq_iff, split_once, last_value,
  entry_value,
}
use capsudo_rs.Proto.Message.{Dims}
use capsudo_rs.Core.Defs.{DaemonConfig, Stdio}
use capsudo_rs.Core.Daemon.{or_shell}
use capsudo_rs.Core.Attenuation.{kept}
use capsudo_rs.Core.Delivery.{delegated}
use capsudo_rs.Capsudo.Options.{
  Options, request, forwarded, add_var, append_default_env, default_env,
}

-- Names without an equals sign.
abbrev pub NoEquals : List ℕ → Type 0
NoEquals name = All (λ b. b ≢ b'=') name

split_once-entry :
    (name value : List ℕ)
    → NoEquals name
    → split_once b'=' (name ++ (b'=' ∷ value)) ≡ some (name, value)
unfolding split_once
split_once-entry [] value h = refl
split_once-entry (b ∷ name) value h = ground (arith, split_once-entry name value h.1)

-- A name stands in a list.
abbrev pub IsAmong : List ℕ → List (List ℕ) → Type 0
IsAmong name [] = ⊥
IsAmong name (n ∷ names) = (n ≡ name) ⊎ IsAmong name names

-- What one name does to the value of another.
abbrev added : List ℕ → List ℕ → Option (List ℕ) → Option (List ℕ) → Option (List ℕ)
added name n none old = old
added name n (some v) old = entry_value name (some (n, v)) old

last_value-add_var :
    (name n : List ℕ) (x : Option (List ℕ)) (rest : List (List ℕ)) (old : Option (List ℕ))
    → NoEquals n
    → last_value name (add_var n x rest) old ≡ last_value name rest (added name n x old)
unfolding last_value
last_value-add_var name n none rest old h = refl
last_value-add_var name n (some v) rest old h =
    ap (λ e. last_value name rest (entry_value name e old)) (split_once-entry n v h)

entry_value-same :
    (name v : List ℕ) (old : Option (List ℕ)) → entry_value name (some (name, v)) old ≡ some v
entry_value-same name v old = rw ((str_eq_iff name name).1 refl) refl

module _ (vars : List ℕ → Option (List ℕ)) (name value : List ℕ)
    (set : vars name ≡ some value) where
  added-kept :
      (n : List ℕ) (x : Option (List ℕ)) → vars n ≡ x → added name n x (some value) ≡ some value
  added-kept n none e = refl
  added-kept n (some v) e = elim (Bool-cases (str_eq n name)) [
    | inl same ↦
        let equal : n ≡ name = (str_eq_iff n name).0 same in
        ap (λ b. if b then some v else some value) same ∙ (sym e ∙ ap vars equal ∙ set)
    | inr other ↦ ap (λ b. if b then some v else some value) other
  ]

  forwarded-kept :
      (names : List (List ℕ))
      → All NoEquals names
      → last_value name (forwarded vars names) (some value) ≡ some value
  unfolding forwarded
  forwarded-kept [] h = unfold last_value in refl
  forwarded-kept (n ∷ names) h =
      last_value-add_var name n (vars n) (forwarded vars names) (some value) h.0
      ∙ ap (last_value name (forwarded vars names)) (added-kept n (vars n) refl)
      ∙ forwarded-kept names h.1

  forwarded-set :
      (names : List (List ℕ)) (old : Option (List ℕ))
      → All NoEquals names
      → IsAmong name names
      → last_value name (forwarded vars names) old ≡ some value
  unfolding forwarded
  forwarded-set [] old h k = absurd k
  forwarded-set (n ∷ names) old h (inl same) =
      last_value-add_var name n (vars n) (forwarded vars names) old h.0
      ∙ ap (λ x. last_value name (forwarded vars names) (added name n x old)) (ap vars same ∙ set)
      ∙ ap (last_value name (forwarded vars names))
          (ap (λ m. entry_value name (some (m, value)) old) same ∙ entry_value-same name value old)
      ∙ forwarded-kept names h.1
  forwarded-set (n ∷ names) old h (inr k) =
      last_value-add_var name n (vars n) (forwarded vars names) old h.0
      ∙ forwarded-set names _ h.1 k

last_value-append :
    (name : List ℕ) (xs ys : List (List ℕ)) (old : Option (List ℕ))
    → last_value name (xs ++ ys) old ≡ last_value name ys (last_value name xs old)
unfolding last_value
last_value-append name [] ys old = refl
last_value-append name (x ∷ xs) ys old = last_value-append name xs ys _

default_env-NoEquals : All NoEquals default_env
default_env-NoEquals = ground arith

append_default_env-last :
    (vars : List ℕ → Option (List ℕ)) (name value : List ℕ) (fixed entries : List (List ℕ))
    → IsAmong name default_env
    → vars name ≡ some value
    → last_value name (fixed ++ append_default_env vars entries) none ≡ some value
unfolding append_default_env
append_default_env-last vars name value fixed entries k set =
    last_value-append name fixed (entries ++ forwarded vars default_env) none
    ∙ last_value-append name entries (forwarded vars default_env) (last_value name fixed none)
    ∙ forwarded-set vars name value set default_env _ default_env-NoEquals k

-- A command whose environment is `envp`.
build_or_shell :
    (args envp : List (List ℕ)) (name value : List ℕ)
    → last_value name envp none ≡ some value
    → (built : Command) × (build_command (or_shell args) envp ≡ some built)
      × (get_env name built.env ≡ some value)
build_or_shell [] envp name value e =
    let (c, built, _, _, found) = build_command-env name _ [] envp in (c, built, found ∙ e)
build_or_shell (program ∷ args) envp name value e =
    let (c, built, _, _, found) = build_command-env name program args envp in (c, built, found ∙ e)

-- Under a policy that takes the client's environment (no `-E`), a variable that capsudo forwards by
-- default reaches the program with the value it has in the client's own environment, whatever
-- entries for it were given with `-e`, and whatever entries the policy puts before the client's: of
-- two entries for one key the last one counts, and the forwarded ones come last.
pub build_command-append_default_env :
    (vars : List ℕ → Option (List ℕ)) (name value : List ℕ) (stdin_tty stdout_tty : Bool)
    (size : Option Dims) (o : Options) (c : DaemonConfig) (stdio : Stdio)
    → IsAmong name default_env
    → vars name ≡ some value
    → c.no_client_env ≡ false
    → (built : Command) × (build_command
          (delegated c (request vars stdin_tty stdout_tty size o) stdio).argv
          (delegated c (request vars stdin_tty stdout_tty size o) stdio).envp
        ≡ some built)
      × (get_env name built.env ≡ some value)
unfolding request
build_command-append_default_env vars name value stdin_tty stdout_tty size o c stdio k set taken =
    build_or_shell _ _ name value (
      ap (λ b. last_value name (c.fixed_env ++ kept b (append_default_env vars o.env)) none) taken
      ∙ append_default_env-last vars name value c.fixed_env o.env k set)
