-- ===== src/Core/Command.antt =====
-- The program that a session runs (`build_command`), and how its end is reported (exit.rs).
-- A command's environment is a list of keys with their values, in the order of their first entry.
use capsudo_rs.Base.{
  ℕ, ◌≡◌, refl, Bool, true, false, ◌&&◌, List, [], ◌∷◌, Option, none, some, ◌==◌, if◌then◌else◌,
  arith, ◌↔◌, ◌∙◌,
}
use capsudo_rs.Base.Result.{Result}
use capsudo_rs.Base.Int.{ℤ, pos, ◌+ℤ◌}
use capsudo_rs.Proto.Message
use capsudo_rs.Core.Defs.{CoreError}
use capsudo_rs.Core.Channel.{M, send}

-- Equality of strings.
unfoldable pub str_eq : List ℕ → List ℕ → Bool
str_eq [] [] = true
str_eq [] (b ∷ bs) = false
str_eq (a ∷ as') [] = false
str_eq (a ∷ as') (b ∷ bs) = a == b && str_eq as' bs

pub record Command : Type 0 where
  pub program : List ℕ
  pub args : List (List ℕ)
  pub env : List (List ℕ × List ℕ)

-- `Command::env`: a key that is there already takes the new value.
unfoldable pub set_env : List ℕ → List ℕ → List (List ℕ × List ℕ) → List (List ℕ × List ℕ)
set_env k v [] = (k, v) ∷ []
set_env k v ((j, w) ∷ m) = if str_eq j k then (j, v) ∷ m else (j, w) ∷ set_env k v m

unfoldable pub get_env : List ℕ → List (List ℕ × List ℕ) → Option (List ℕ)
get_env k [] = none
get_env k ((j, w) ∷ m) = if str_eq j k then some w else get_env k m

abbrev before_rest : ℕ → Option (List ℕ × List ℕ) → Option (List ℕ × List ℕ)
before_rest b none = none
before_rest b (some (front, back)) = some (b ∷ front, back)

-- `str::split_once` at a byte.
unfoldable pub split_once : ℕ → List ℕ → Option (List ℕ × List ℕ)
split_once sep [] = none
split_once sep (b ∷ bs) = if b == sep then some ([], bs) else before_rest b (split_once sep bs)

abbrev pub with_entry : Option (List ℕ × List ℕ) → List (List ℕ × List ℕ) → List (List ℕ × List ℕ)
with_entry none env = env
with_entry (some (k, v)) env = set_env k v env

-- The loop over `envp`.
unfoldable pub add_entries : List (List ℕ) → List (List ℕ × List ℕ) → List (List ℕ × List ℕ)
add_entries [] env = env
add_entries (entry ∷ entries) env = add_entries entries (with_entry (split_once b'=' entry) env)

-- `none` is the panic of `argv[0]` on an empty list.
unfoldable pub build_command : List (List ℕ) → List (List ℕ) → Option Command
unfolding add_entries
build_command [] envp = none
build_command (program ∷ args) envp =
    some (record { program = program; args = args; env = add_entries envp [] })

-- `std::process::ExitStatus`: at most one of the two is there.
pub record ExitStatus : Type 0 where
  pub code : Option ℤ
  pub signal : Option ℤ

abbrev by_signal : Option ℤ → ℤ
by_signal none = pos 1
by_signal (some signal) = pos 128 +ℤ signal

abbrev by_code : Option ℤ → Option ℤ → ℤ
by_code (some code) signal = code
by_code none signal = by_signal signal

unfoldable pub exit_code : ExitStatus → ℤ
exit_code status = by_code status.code status.signal

unfoldable pub send_error : List ℕ → M (Result CoreError (Unit {0}))
send_error message = send (Message.error message) []

unfoldable pub send_exit : ℤ → M (Result CoreError (Unit {0}))
send_exit code = send (Message.exit code) []

-- `let _ = m.await; k`
abbrev pub ignoring :
    M (Result CoreError (Unit {0}))
    → M (Result CoreError (Unit {0}))
    → M (Result CoreError (Unit {0}))
ignoring m k ch = elim (m ch) [ none ↦ none | some (r, ch') ↦ k ch' ]

-- `text` is the formatted line, `unable to run {program}: {err}`.
unfoldable pub send_spawn_failure : List ℕ → M (Result CoreError (Unit {0}))
unfolding send_error send_exit
send_spawn_failure text = ignoring (send_error text) (send_exit (pos 127))

pub str_eq_iff : (s t : List ℕ) → (str_eq s t ≡ true) ↔ (s ≡ t)
unfolding str_eq
str_eq_iff [] [] = ground arith
str_eq_iff [] (b ∷ bs) = ground arith
str_eq_iff (a ∷ as') [] = ground arith
str_eq_iff (a ∷ as') (b ∷ bs) = ground (arith, str_eq_iff as' bs)

pub get_env-set_env :
    (k j v : List ℕ) (m : List (List ℕ × List ℕ))
    → get_env j (set_env k v m) ≡ (if str_eq k j then some v else get_env j m)
unfolding get_env set_env
get_env-set_env k j v [] = refl
get_env-set_env k j v ((i, w) ∷ m) =
    ground (arith, str_eq_iff i k, str_eq_iff i j, str_eq_iff k j, get_env-set_env k j v m)

-- The value that a list of entries gives a key, over one that it had: that of its last entry.
abbrev pub entry_value : List ℕ → Option (List ℕ × List ℕ) → Option (List ℕ) → Option (List ℕ)
entry_value key none old = old
entry_value key (some (k, v)) old = if str_eq k key then some v else old

unfoldable pub last_value : List ℕ → List (List ℕ) → Option (List ℕ) → Option (List ℕ)
last_value key [] old = old
last_value key (entry ∷ entries) old =
    last_value key entries (entry_value key (split_once b'=' entry) old)

get_env-with_entry :
    (key : List ℕ) (e : Option (List ℕ × List ℕ)) (env : List (List ℕ × List ℕ))
    → get_env key (with_entry e env) ≡ entry_value key e (get_env key env)
get_env-with_entry key none env = refl
get_env-with_entry key (some (k, v)) env = get_env-set_env k key v env

get_env-add_entries :
    (key : List ℕ) (entries : List (List ℕ)) (env : List (List ℕ × List ℕ))
    → get_env key (add_entries entries env) ≡ last_value key entries (get_env key env)
unfolding add_entries last_value
get_env-add_entries key [] env = refl
get_env-add_entries key (entry ∷ entries) env =
    rw (← get_env-with_entry key (split_once b'=' entry) env)
      (get_env-add_entries key entries (with_entry (split_once b'=' entry) env))

-- A program's environment is exactly what the entries say, the last one for each key, and nothing
-- of the daemon's own; entries with no `=` are passed over.
pub build_command-env :
    (key program : List ℕ) (args envp : List (List ℕ))
    → (c : Command) × (build_command (program ∷ args) envp ≡ some c)
      × (c.program ≡ program)
      × (c.args ≡ args)
      × (get_env key c.env ≡ last_value key envp none)
unfolding build_command
build_command-env key program args envp = (
  record { program = program; args = args; env = add_entries envp [] },
  refl,
  refl,
  refl,
  (get_env-add_entries key envp [] ∙ unfold get_env in refl),
)
