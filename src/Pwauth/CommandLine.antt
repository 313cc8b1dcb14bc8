-- ===== src/Pwauth/CommandLine.antt =====
-- What the command line of capsudod-pwauth means.
use capsudo_rs.Base.{ℕ, ◌≡◌, refl, sym, ap, ◌∙◌, List, [], ◌∷◌, ◌++◌, Option, none, some, All}
use capsudo_rs.Core.Command.{str_eq}
use capsudo_rs.Transport.OwnerSpec.{parse_owner_spec, parse_mode}
use capsudo_rs.Pwauth.Options.{
  Options, Valued, flag, token, defaults, take_value, parse_loop, parse_options, valued, dashes,
  or_capsudod, with_default,
}

-- An option as it is meant, with its value.
pub data Setting : Type 0 where
  given : Valued → List ℕ → Setting

abbrev pub letter : Valued → ℕ
letter Valued.socket = b'S'
letter Valued.owner = b'o'
letter Valued.mode = b'm'

abbrev pub arguments : List Setting → List (List ℕ)
arguments [] = []
arguments (given k v ∷ ss) = flag (letter k) ∷ v ∷ arguments ss

-- The last option of each kind holds.
abbrev pub last_socket : Option (List ℕ) → List Setting → Option (List ℕ)
last_socket s [] = s
last_socket s (given Valued.socket v ∷ ss) = last_socket (some v) ss
last_socket s (other ∷ ss) = last_socket s ss

token-letter : (k : Valued) → token (flag (letter k)) ≡ valued k
unfolding token str_eq
token-letter Valued.socket = refl
token-letter Valued.owner = refl
token-letter Valued.mode = refl

token-dashes : token (flag b'-') ≡ dashes
unfolding token str_eq
token-dashes = refl

module _ (users : List ℕ → Option (ℕ × ℕ)) (groups : List ℕ → Option ℕ) where
  -- An owner and a mode are given by specs that are accepted.
  abbrev pub IsValid : Setting → Type 0
  IsValid (given Valued.socket v) = Unit {0}
  IsValid (given Valued.owner v) =
      (x : Option ℕ × Option ℕ) × (parse_owner_spec users groups v ≡ some x)
  IsValid (given Valued.mode v) = (n : ℕ) × (parse_mode v ≡ some n)

  abbrev or_owner : Option ℕ × Option ℕ → Option (Option ℕ × Option ℕ) → Option ℕ × Option ℕ
  or_owner ids none = ids
  or_owner ids (some ids') = ids'

  abbrev or_mode : ℕ → Option ℕ → ℕ
  or_mode bits none = bits
  or_mode bits (some bits') = bits'

  abbrev pub last_owner : Option ℕ × Option ℕ → List Setting → Option ℕ × Option ℕ
  last_owner ids [] = ids
  last_owner ids (given Valued.owner v ∷ ss) =
      last_owner (or_owner ids (parse_owner_spec users groups v)) ss
  last_owner ids (s ∷ ss) = last_owner ids ss

  abbrev pub last_mode : ℕ → List Setting → ℕ
  last_mode bits [] = bits
  last_mode bits (given Valued.mode v ∷ ss) = last_mode (or_mode bits (parse_mode v)) ss
  last_mode bits (s ∷ ss) = last_mode bits ss

  -- The options after all settings and the command, from some before them.
  abbrev configured : Options → List Setting → List (List ℕ) → Options
  configured o ss cmd = record {
    socket = last_socket o.socket ss;
    uid = (last_owner (o.uid, o.gid) ss).0;
    gid = (last_owner (o.uid, o.gid) ss).1;
    mode = last_mode o.mode ss;
    capsudod_cmd = o.capsudod_cmd ++ cmd;
  }

  parse_loop-letter :
      (o : Options) (k : Valued) (v : List ℕ) (ts : List (List ℕ))
      → parse_loop users groups o none (flag (letter k) ∷ v ∷ ts)
        ≡ parse_loop users groups o (some k) (v ∷ ts)
  unfolding parse_loop
  parse_loop-letter o k v ts = rw (token-letter k, parse_loop) refl

  parse_loop-take_value :
      (o o' : Options) (k : Valued) (v : List ℕ) (ts : List (List ℕ))
      → take_value users groups k v o ≡ some o'
      → parse_loop users groups o (some k) (v ∷ ts) ≡ parse_loop users groups o' none ts
  unfolding parse_loop
  parse_loop-take_value o o' k v ts e = rw (e, parse_loop) refl

  parse_loop-value :
      (o o' : Options) (k : Valued) (v : List ℕ) (ts : List (List ℕ))
      → take_value users groups k v o ≡ some o'
      → parse_loop users groups o none (flag (letter k) ∷ v ∷ ts)
        ≡ parse_loop users groups o' none ts
  parse_loop-value o o' k v ts e = parse_loop-letter o k v ts ∙ parse_loop-take_value o o' k v ts e

  parse_loop-arguments :
      (o : Options) (ss : List Setting) (cmd : List (List ℕ))
      → All IsValid ss
      → parse_loop users groups o none (arguments ss ++ (flag b'-' ∷ cmd))
        ≡ some (configured o ss cmd)
  unfolding parse_loop take_value
  parse_loop-arguments o [] cmd h = rw (token-dashes, parse_loop) refl
  parse_loop-arguments o (given Valued.socket v ∷ ss) cmd (_, h) =
      parse_loop-value o _ Valued.socket v _ refl
      ∙ parse_loop-arguments (record o { socket = some v }) ss cmd h
  parse_loop-arguments o (given Valued.owner v ∷ ss) cmd ((ids, spec), h) =
      parse_loop-value o _ Valued.owner v _ (rw spec refl)
      ∙ parse_loop-arguments (record o { uid = ids.0; gid = ids.1 }) ss cmd h
      ∙ ap
          (λ r.
            let (u, g) = or_owner (o.uid, o.gid) r in
            some (configured (record o { uid = u; gid = g }) ss cmd))
          (sym spec)
  parse_loop-arguments o (given Valued.mode v ∷ ss) cmd ((bits, spec), h) =
      parse_loop-value o _ Valued.mode v _ (rw spec refl)
      ∙ parse_loop-arguments (record o { mode = bits }) ss cmd h
      ∙ ap (λ r. some (configured (record o { mode = or_mode o.mode r }) ss cmd)) (sym spec)

  -- The command line means what it says: of the options before `--`, in any order and number, the
  -- last `-S`, the last `-o` and the last `-m` hold, the mode being 0770 if there is none; all that
  -- follows `--` is the command that clients are passed on to, plain `capsudod` if nothing follows.
  -- The specs are accepted.
  pub parse_options-command :
      (ss : List Setting) (cmd : List (List ℕ))
      → All IsValid ss
      → parse_options users groups (arguments ss ++ (flag b'-' ∷ cmd))
        ≡ some (record {
          socket = last_socket none ss;
          uid = (last_owner (none, none) ss).0;
          gid = (last_owner (none, none) ss).1;
          mode = last_mode 0o770 ss;
          capsudod_cmd = or_capsudod cmd;
        })
  unfolding parse_options defaults
  parse_options-command ss cmd h = ap with_default (parse_loop-arguments defaults ss cmd h)
