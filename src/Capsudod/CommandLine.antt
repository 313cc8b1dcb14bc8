-- ===== src/Capsudod/CommandLine.antt =====
-- What the command line of capsudod means.
use capsudo_rs.Base.{
  ℕ, ◌≡◌, refl, sym, ap, ◌∙◌, Bool, true, false, List, [], ◌∷◌, ◌++◌, append-nil, append_assoc,
  ◌||◌, Option, none, some, All,
}
use capsudo_rs.Core.Command.{str_eq}
use capsudo_rs.Transport.OwnerSpec.{parse_owner_spec, parse_mode}
use capsudo_rs.Capsudod.Options.{
  Options, Valued, flag, token, defaults, take_value, parse_loop, parse_options, policy, fix_argv,
  fix_env, dashes, valued,
}

-- An option as it is meant, and its arguments.
pub data Setting : Type 0 where
  pin_argv pin_env : Setting
  with_value : Valued → List ℕ → Setting

abbrev pub letter : Valued → ℕ
letter Valued.socket = b'S'
letter Valued.env = b'e'
letter Valued.owner = b'o'
letter Valued.mode = b'm'

abbrev pub arguments : List Setting → List (List ℕ)
arguments [] = []
arguments (pin_argv ∷ ss) = flag b'f' ∷ arguments ss
arguments (pin_env ∷ ss) = flag b'E' ∷ arguments ss
arguments (with_value k v ∷ ss) = flag (letter k) ∷ v ∷ arguments ss

-- What each of the settings asks for, by itself.
abbrev pub env_settings : List Setting → List (List ℕ)
env_settings [] = []
env_settings (with_value Valued.env v ∷ ss) = v ∷ env_settings ss
env_settings (s ∷ ss) = env_settings ss

abbrev pub has_pin_argv : List Setting → Bool
has_pin_argv [] = false
has_pin_argv (pin_argv ∷ ss) = true
has_pin_argv (s ∷ ss) = has_pin_argv ss

abbrev pub has_pin_env : List Setting → Bool
has_pin_env [] = false
has_pin_env (pin_env ∷ ss) = true
has_pin_env (s ∷ ss) = has_pin_env ss

abbrev pub last_socket : Option (List ℕ) → List Setting → Option (List ℕ)
last_socket s [] = s
last_socket s (with_value Valued.socket v ∷ ss) = last_socket (some v) ss
last_socket s (other ∷ ss) = last_socket s ss

token-letter : (k : Valued) → token (flag (letter k)) ≡ valued k
unfolding token str_eq
token-letter Valued.socket = refl
token-letter Valued.env = refl
token-letter Valued.owner = refl
token-letter Valued.mode = refl

-- The tokens of the other options.
token-fix_argv : token (flag b'f') ≡ fix_argv
unfolding token str_eq
token-fix_argv = refl

token-fix_env : token (flag b'E') ≡ fix_env
unfolding token str_eq
token-fix_env = refl

token-dashes : token (flag b'-') ≡ dashes
unfolding token str_eq
token-dashes = refl

or_true : (b : Bool) → (b || true) ≡ true
or_true true = refl
or_true false = refl

or_false : (b : Bool) → (b || false) ≡ b
or_false true = refl
or_false false = refl

module _ (users : List ℕ → Option (ℕ × ℕ)) (groups : List ℕ → Option ℕ) where
  -- An owner and a mode are given by specs that are accepted.
  abbrev pub IsValid : Setting → Type 0
  IsValid (with_value Valued.owner v) =
      (x : Option ℕ × Option ℕ) × (parse_owner_spec users groups v ≡ some x)
  IsValid (with_value Valued.mode v) = (n : ℕ) × (parse_mode v ≡ some n)
  IsValid s = Unit {0}

  parse_loop-take_value :
      (o o' : Options) (k : Valued) (v : List ℕ) (ts : List (List ℕ))
      → take_value users groups k v o ≡ some o'
      → parse_loop users groups o (some k) (v ∷ ts) ≡ parse_loop users groups o' none ts
  unfolding parse_loop
  parse_loop-take_value o o' k v ts e = rw (e, parse_loop) refl

  parse_loop-letter :
      (o : Options) (k : Valued) (v : List ℕ) (ts : List (List ℕ))
      → parse_loop users groups o none (flag (letter k) ∷ v ∷ ts)
        ≡ parse_loop users groups o (some k) (v ∷ ts)
  unfolding parse_loop
  parse_loop-letter o k v ts = rw (token-letter k, parse_loop) refl

  parse_loop-value :
      (o o' : Options) (k : Valued) (v : List ℕ) (ts : List (List ℕ))
      → take_value users groups k v o ≡ some o'
      → parse_loop users groups o none (flag (letter k) ∷ v ∷ ts)
        ≡ parse_loop users groups o' none ts
  parse_loop-value o o' k v ts e = parse_loop-letter o k v ts ∙ parse_loop-take_value o o' k v ts e

  -- An owner and a mode are given by specs that are accepted; the last of each kind holds.
  abbrev or_owner : Option ℕ × Option ℕ → Option (Option ℕ × Option ℕ) → Option ℕ × Option ℕ
  or_owner ids none = ids
  or_owner ids (some ids') = ids'

  abbrev or_mode : ℕ → Option ℕ → ℕ
  or_mode bits none = bits
  or_mode bits (some bits') = bits'

  abbrev pub last_owner : Option ℕ × Option ℕ → List Setting → Option ℕ × Option ℕ
  last_owner ids [] = ids
  last_owner ids (with_value Valued.owner v ∷ ss) =
      last_owner (or_owner ids (parse_owner_spec users groups v)) ss
  last_owner ids (s ∷ ss) = last_owner ids ss

  abbrev pub last_mode : ℕ → List Setting → ℕ
  last_mode bits [] = bits
  last_mode bits (with_value Valued.mode v ∷ ss) = last_mode (or_mode bits (parse_mode v)) ss
  last_mode bits (s ∷ ss) = last_mode bits ss

  -- The options after all settings and the program, from some before them.
  abbrev pub configured : Options → List Setting → List (List ℕ) → Options
  configured o ss program = record {
    socket = last_socket o.socket ss;
    env = o.env ++ env_settings ss;
    uid = (last_owner (o.uid, o.gid) ss).0;
    gid = (last_owner (o.uid, o.gid) ss).1;
    mode = last_mode o.mode ss;
    no_client_argv = o.no_client_argv || has_pin_argv ss;
    no_client_env = o.no_client_env || has_pin_env ss;
    program = o.program ++ program;
  }

  parse_loop-arguments :
      (o : Options) (ss : List Setting) (program : List (List ℕ))
      → All IsValid ss
      → parse_loop users groups o none (arguments ss ++ (flag b'-' ∷ program))
        ≡ some (configured o ss program)
  unfolding parse_loop take_value
  parse_loop-arguments o [] program h =
      rw
        (
          token-dashes,
          parse_loop,
          append-nil o.env,
          or_false o.no_client_argv,
          or_false o.no_client_env,
        )
        refl
  parse_loop-arguments o (pin_argv ∷ ss) program h =
      rw (token-fix_argv, parse_loop, or_true o.no_client_argv)
        (parse_loop-arguments (record o { no_client_argv = true }) ss program h.1)
  parse_loop-arguments o (pin_env ∷ ss) program h =
      rw (token-fix_env, parse_loop, or_true o.no_client_env)
        (parse_loop-arguments (record o { no_client_env = true }) ss program h.1)
  parse_loop-arguments o (with_value Valued.socket x ∷ ss) program h =
      parse_loop-value o _ Valued.socket x _ refl
      ∙ parse_loop-arguments (record o { socket = some x }) ss program h.1
  parse_loop-arguments o (with_value Valued.env x ∷ ss) program h =
      rw (← append_assoc o.env (x ∷ []) (env_settings ss)) (
        parse_loop-value o _ Valued.env x _ refl
        ∙ parse_loop-arguments (record o { env = o.env ++ (x ∷ []) }) ss program h.1)
  parse_loop-arguments o (with_value Valued.owner x ∷ ss) program ((ids, spec), h) =
      parse_loop-value o _ Valued.owner x _ (rw spec refl)
      ∙ parse_loop-arguments (record o { uid = ids.0; gid = ids.1 }) ss program h
      ∙ ap
          (λ r.
            let (u, g) = or_owner (o.uid, o.gid) r in
            some (configured (record o { uid = u; gid = g }) ss program))
          (sym spec)
  parse_loop-arguments o (with_value Valued.mode x ∷ ss) program ((bits, spec), h) =
      parse_loop-value o _ Valued.mode x _ (rw spec refl)
      ∙ parse_loop-arguments (record o { mode = bits }) ss program h
      ∙ ap (λ r. some (configured (record o { mode = or_mode o.mode r }) ss program)) (sym spec)

  -- The whole of the options that a command line gives.
  pub parse_options-arguments :
      (ss : List Setting) (program : List (List ℕ))
      → All IsValid ss
      → parse_options users groups (arguments ss ++ (flag b'-' ∷ program))
        ≡ some (configured defaults ss program)
  unfolding parse_options
  parse_options-arguments ss program h = parse_loop-arguments defaults ss program h

  -- The policy is what the command line says: options in any order and number before `--`, of which
  -- the specs are accepted, pin the client's arguments if `-f` is among them and its environment if
  -- `-E` is, every `-e` adds its entry in order, and all that follows `--` is the program with its
  -- arguments, also what looks like an option.
  pub parse_options-policy :
      (ss : List Setting) (program : List (List ℕ))
      → All IsValid ss
      → (o : Options) × (parse_options users groups (arguments ss ++ (flag b'-' ∷ program))
          ≡ some o)
        × (policy o ≡ record {
          fixed_args = program;
          fixed_env = env_settings ss;
          no_client_argv = has_pin_argv ss;
          no_client_env = has_pin_env ss;
        })
  unfolding defaults policy
  parse_options-policy ss program h =
      (configured defaults ss program, parse_options-arguments ss program h, refl)
