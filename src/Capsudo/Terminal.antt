-- ===== src/Capsudo/Terminal.antt =====
-- main.rs of capsudo: what the client does to its terminal, `RawMode` and `prompt_secret`. The terminal
-- is its settings; the one on stdin is taken to be the controlling terminal, `/dev/tty`.
use capsudo_rs.Base.{ℕ, Bool, true, false, List, Option, none, some}
use capsudo_rs.Base.Result.{Result, ok, err}
use capsudo_rs.Transport.Defs.{IoError}
use capsudo_rs.Capsudo.Options.{secret_of}

-- The settings that the code, or the account of it, tells apart, and all others.
pub record Termios : Type 0 where
  pub echo : Bool
  pub icanon : Bool
  pub isig : Bool
  pub icrnl : Bool
  pub others : ℕ

-- A call that fails changes nothing.
abbrev pub tcsetattr : Result IoError (Unit {0}) → Termios → Termios → Termios
tcsetattr (ok u) new old = new
tcsetattr (err e) new old = old

pub record RawMode : Type 0 where
  pub original : Termios

-- The results of the calls of `RawMode`.
pub record RawCalls : Type 0 where
  pub get : Result IoError (Unit {0})
  pub set : Result IoError (Unit {0})
  pub restore : Result IoError (Unit {0})

abbrev pub raw_set : Result IoError (Unit {0}) → (raw original : Termios) → Option RawMode × Termios
raw_set (err e) raw original = (none, original)
raw_set (ok u) raw original = (some (record { original = original }), raw)

abbrev pub raw_get :
    Result IoError (Unit {0})
    → Result IoError (Unit {0})
    → (raw original : Termios) → Option RawMode × Termios
raw_get (err e) set raw original = (none, original)
raw_get (ok u) set raw original = raw_set set raw original

-- `cfmakeraw` is the system library's.
unfoldable pub enable :
    (cfmakeraw : Termios → Termios) → RawCalls → Termios → Option RawMode × Termios
enable cfmakeraw calls t = raw_get calls.get calls.set (cfmakeraw t) t

-- The guard, if there is one, is dropped.
unfoldable pub drop : Option RawMode → RawCalls → Termios → Termios
drop none calls t = t
drop (some guard) calls t = tcsetattr calls.restore guard.original t

-- The results of the calls of `prompt_secret`. What is read depends on the terminal's settings: a
-- line, or the end of the input or an error, or `none` while it has not returned.
pub record PromptCalls : Type 0 where
  pub open_tty : Result IoError (Unit {0})
  pub get : Result IoError (Unit {0})
  pub set_quiet : Result IoError (Unit {0})
  pub read_line : Termios → Option (Option (List ℕ))
  pub restore : Result IoError (Unit {0})

abbrev pub quiet : Termios → Termios
quiet t = record t { echo = false; icanon = true }

-- The settings while the line is read.
abbrev pub while_read : PromptCalls → Termios → Termios
while_read calls t = tcsetattr calls.set_quiet (quiet t) t

abbrev pub with_line : Option (Option (List ℕ)) → Termios → Option (Option (List ℕ) × Termios)
with_line none t = none
with_line (some line) t = some (secret_of line, t)

abbrev pub after_open :
    Result IoError (Unit {0})
    → Result IoError (Unit {0})
    → PromptCalls
    → Termios
    → Option (Option (List ℕ) × Termios)
after_open (err e) get calls t = some (none, t)
after_open (ok u) (err e) calls t = some (none, t)
after_open (ok u) (ok v) calls t =
    with_line (calls.read_line (while_read calls t))
      (tcsetattr calls.restore t (while_read calls t))

unfoldable pub prompt_secret :
    PromptCalls → (prompt : List ℕ) → Termios → Option (Option (List ℕ) × Termios)
prompt_secret calls prompt t = after_open calls.open_tty calls.get calls t
