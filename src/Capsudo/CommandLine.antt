-- ===== src/Capsudo/CommandLine.antt =====
-- What the command line of capsudo means, and which value of a variable the program gets.
use capsudo_rs.Base.{
  ℕ, ◌≡◌, refl, sym, ap, ◌∙◌, Bool, true, false, List, [], ◌∷◌, ◌++◌, append-nil, append_assoc,
  Option, none, some,
}
use capsudo_rs.Proto.Defs.{SessionType}
use capsudo_rs.Core.Command.{str_eq}
use capsudo_rs.Capsudo.Options.{
  Options, Valued, Token, token, interactive, non_interactive, shell, valued, flag, defaults,
  take_value, parse_loop, parse_options, default_socket,
}

-- An option as it is meant, and its arguments.
pub data Setting : Type 0 where
  force_interactive force_non_interactive run_shell : Setting
  with_value : Valued → List ℕ → Setting

abbrev pub letter : Valued → ℕ
letter Valued.socket = b'S'
letter Valued.env = b'e'

abbrev pub arguments : List Setting → List (List ℕ)
arguments [] = []
arguments (force_interactive ∷ ss) = flag b'i' ∷ arguments ss
arguments (force_non_interactive ∷ ss) = flag b'n' ∷ arguments ss
arguments (run_shell ∷ ss) = flag b's' ∷ arguments ss
arguments (with_value k v ∷ ss) = flag (letter k) ∷ v ∷ arguments ss

-- What the settings ask for: the last of those that exclude each other, and all entries.
abbrev pub env_settings : List Setting → List (List ℕ)
env_settings [] = []
env_settings (with_value Valued.env v ∷ ss) = v ∷ env_settings ss
env_settings (s ∷ ss) = env_settings ss

abbrev pub session_setting : Option SessionType → List Setting → Option SessionType
session_setting t [] = t
session_setting t (force_interactive ∷ ss) = session_setting (some SessionType.interactive) ss
session_setting t (force_non_interactive ∷ ss) =
    session_setting (some SessionType.non_interactive) ss
session_setting t (s ∷ ss) = session_setting t ss

abbrev pub socket_setting : List ℕ → List Setting → List ℕ
socket_setting path [] = path
socket_setting path (with_value Valued.socket v ∷ ss) = socket_setting v ss
socket_setting path (s ∷ ss) = socket_setting path ss

abbrev pub shell_setting : Bool → List Setting → Bool
shell_setting b [] = b
shell_setting b (run_shell ∷ ss) = shell_setting true ss
shell_setting b (s ∷ ss) = shell_setting b ss

token-interactive : token (flag b'i') ≡ interactive
unfolding token str_eq
token-interactive = refl

token-non_interactive : token (flag b'n') ≡ non_interactive
unfolding token str_eq
token-non_interactive = refl

token-shell : token (flag b's') ≡ shell
unfolding token str_eq
token-shell = refl

token-letter : (k : Valued) → token (flag (letter k)) ≡ valued k
unfolding token str_eq
token-letter Valued.socket = refl
token-letter Valued.env = refl

-- The options after some settings and the words that follow them.
abbrev pub meant : Options → List Setting → List (List ℕ) → Options
meant o ss program = record {
  socket = socket_setting o.socket ss;
  session = session_setting o.session ss;
  shell = shell_setting o.shell ss;
  env = o.env ++ env_settings ss;
  args = o.args ++ program;
}

parse_loop-word :
    (o : Options) (t : List ℕ) (ts : List (List ℕ))
    → token t ≡ Token.word
    → parse_loop o none (t ∷ ts) ≡ some (record o { args = o.args ++ (t ∷ ts) })
unfolding parse_loop
parse_loop-word o t ts e = rw (e, parse_loop) refl

parse_loop-letter :
    (o : Options) (k : Valued) (v : List ℕ) (ts : List (List ℕ))
    → parse_loop o none (flag (letter k) ∷ v ∷ ts) ≡ parse_loop (take_value k v o) none ts
unfolding parse_loop
parse_loop-letter o k v ts = rw (token-letter k, parse_loop) refl

parse_loop-arguments :
    (o : Options) (ss : List Setting) (t : List ℕ) (ts : List (List ℕ))
    → token t ≡ Token.word
    → parse_loop o none (arguments ss ++ (t ∷ ts)) ≡ some (meant o ss (t ∷ ts))
unfolding parse_loop
parse_loop-arguments o [] t ts e =
    parse_loop-word o t ts e
    ∙ ap (λ x. some (record o { args = o.args ++ (t ∷ ts); env = x })) (sym (append-nil o.env))
parse_loop-arguments o (force_interactive ∷ ss) t ts e =
    rw (token-interactive, parse_loop)
      (parse_loop-arguments (record o { session = some SessionType.interactive }) ss t ts e)
parse_loop-arguments o (force_non_interactive ∷ ss) t ts e =
    rw (token-non_interactive, parse_loop)
      (parse_loop-arguments (record o { session = some SessionType.non_interactive }) ss t ts e)
parse_loop-arguments o (run_shell ∷ ss) t ts e =
    rw (token-shell, parse_loop) (parse_loop-arguments (record o { shell = true }) ss t ts e)
parse_loop-arguments o (with_value Valued.socket v ∷ ss) t ts e =
    parse_loop-letter o Valued.socket v _
    ∙ (parse_loop-arguments (record o { socket = v }) ss t ts e)
parse_loop-arguments o (with_value Valued.env v ∷ ss) t ts e =
    parse_loop-letter o Valued.env v _
    ∙ (parse_loop-arguments (record o { env = o.env ++ (v ∷ []) }) ss t ts e)
    ∙ ap (λ x. some (record (meant o ss (t ∷ ts)) { env = x }))
        (append_assoc o.env (v ∷ []) (env_settings ss))

-- The command line means what it says: with options in any order and number before the first word
-- that is none, that word and all that follow it, whatever they look like, are the program with its
-- arguments; every `-e` adds its entry in order, the last `-i` or `-n` and the last `-S` hold, and
-- what is not given has its default.
pub parse_options-arguments :
    (ss : List Setting) (t : List ℕ) (ts : List (List ℕ))
    → token t ≡ Token.word
    → parse_options (arguments ss ++ (t ∷ ts))
      ≡ some (record {
        socket = socket_setting default_socket ss;
        session = session_setting none ss;
        shell = shell_setting false ss;
        env = env_settings ss;
        args = t ∷ ts;
      })
unfolding parse_options defaults
parse_options-arguments ss t ts e = parse_loop-arguments defaults ss t ts e
