-- ===== src/Pwauth/Gate.antt =====
-- main.rs of capsudod-pwauth: `handle_client`. The system's answers are parameters: the user of a
-- uid (`none` for an unknown one and for a failed lookup), the host's name, `crypt`, and the shadow
-- file; so is whether the socket can be taken back from the runtime (`into_std`).
use capsudo_rs.Base.{
  ℕ, Bool, true, false, not, ◌||◌, List, [], ◌∷◌, ◌++◌, Option, none, some, if◌then◌else◌,
}
use capsudo_rs.Base.Result.{Result, ok, err}
use capsudo_rs.Base.Int.{pos}
use capsudo_rs.Proto.Defs.{FieldType}
use capsudo_rs.Proto.Message
use capsudo_rs.Transport.Defs.{PeerCred}
use capsudo_rs.Core.Defs.{CoreError}
use capsudo_rs.Core.Channel.{Event, Channel, M, return, send}
use capsudo_rs.Core.Command.{ignoring}
use capsudo_rs.Pwauth.Shadow.{check_password}

-- How a client is left: its connection closed, or its socket made the stdin of a command, which is
-- then spawned. `panicked` is the panic of `capsudod_cmd[0]`.
pub data Handled : Type 0 where
  closed panicked : Handled
  chained : (program : List ℕ) (args : List (List ℕ)) → Handled

-- `let _ = m.await; return a;`
abbrev pub after : M (Result CoreError (Unit {0})) → Handled → M Handled
after m a ch = elim (m ch) [ none ↦ none | some (r, ch') ↦ some (a, ch') ]

unfoldable pub fail : List ℕ → M Handled
fail message =
    after (ignoring (send (Message.error message) []) (send (Message.exit (pos 1)) [])) closed

-- One call of `recv`.
abbrev pub answered : Channel → List Event → Option (Event × Channel)
answered ch [] = none
answered ch (e ∷ es) = some (e, record ch { recvs = es })

abbrev pub recv : M Event
recv ch = answered ch ch.recvs

-- `"unable to determine peer credentials"`
abbrev pub no_credentials : List ℕ
no_credentials =
    b'u' ∷ b'n' ∷ b'a' ∷ b'b' ∷ b'l' ∷ b'e' ∷ b' ' ∷ b't' ∷ b'o' ∷ b' ' ∷ b'd' ∷ b'e' ∷ b't' ∷ b'e'
    ∷ b'r' ∷ b'm' ∷ b'i' ∷ b'n' ∷ b'e' ∷ b' ' ∷ b'p' ∷ b'e' ∷ b'e' ∷ b'r' ∷ b' ' ∷ b'c' ∷ b'r'
    ∷ b'e' ∷ b'd' ∷ b'e' ∷ b'n' ∷ b't' ∷ b'i' ∷ b'a' ∷ b'l' ∷ b's' ∷ []

-- `"unknown peer user"`
abbrev pub unknown_user : List ℕ
unknown_user =
    b'u' ∷ b'n' ∷ b'k' ∷ b'n' ∷ b'o' ∷ b'w' ∷ b'n' ∷ b' ' ∷ b'p' ∷ b'e' ∷ b'e' ∷ b'r' ∷ b' ' ∷ b'u'
    ∷ b's' ∷ b'e' ∷ b'r' ∷ []

-- `"secret invalid"`
abbrev pub secret_invalid : List ℕ
secret_invalid =
    b's' ∷ b'e' ∷ b'c' ∷ b'r' ∷ b'e' ∷ b't' ∷ b' ' ∷ b'i' ∷ b'n' ∷ b'v' ∷ b'a' ∷ b'l' ∷ b'i' ∷ b'd'
    ∷ []

-- `"[capsudo] "`
abbrev prompt_start : List ℕ
prompt_start = b'[' ∷ b'c' ∷ b'a' ∷ b'p' ∷ b's' ∷ b'u' ∷ b'd' ∷ b'o' ∷ b']' ∷ b' ' ∷ []

-- `"'s password: "`
abbrev prompt_end : List ℕ
prompt_end =
    39 ∷ b's' ∷ b' ' ∷ b'p' ∷ b'a' ∷ b's' ∷ b's' ∷ b'w' ∷ b'o' ∷ b'r' ∷ b'd' ∷ b':' ∷ b' ' ∷ []

-- `"localhost"`
abbrev localhost : List ℕ
localhost = b'l' ∷ b'o' ∷ b'c' ∷ b'a' ∷ b'l' ∷ b'h' ∷ b'o' ∷ b's' ∷ b't' ∷ []

abbrev host_name : Option (List ℕ) → List ℕ
host_name none = localhost
host_name (some name) = name

unfoldable pub auth_prompt : Option (List ℕ) → List ℕ → List ℕ
auth_prompt host user = prompt_start ++ (user ++ (b'@' ∷ (host_name host ++ prompt_end)))

abbrev pub is_secret : FieldType → Bool
is_secret FieldType.secret = true
is_secret other = false

abbrev pub is_nil : List ℕ → Bool
is_nil [] = true
is_nil (b ∷ bs) = false

-- The command's program and arguments, once the socket has been taken back.
abbrev pub chain_to : Bool → List (List ℕ) → Handled
chain_to false cmd = closed
chain_to true [] = panicked
chain_to true (program ∷ args) = chained program args

module _ (users : ℕ → Option (List ℕ)) (host : Option (List ℕ))
    (crypt : List ℕ → List ℕ → Option (List ℕ)) (shadow : Option (List ℕ)) where
  unfoldable pub on_first : List ℕ → Bool → List (List ℕ) → Event → M Handled
  on_first user taken cmd (err e) = return closed
  on_first user taken cmd (ok none) = return closed
  on_first user taken cmd (ok (some r)) =
      if not (is_nil r.fds) || not (is_secret r.message.field_type)
      then after (send (Message.unauthorized (auth_prompt host user)) []) closed
      else if check_password crypt shadow user r.message.payload
      then return (chain_to taken cmd)
      else fail secret_invalid

  abbrev pub on_event :
      List ℕ → Bool → List (List ℕ) → Option (Event × Channel) → Option (Handled × Channel)
  on_event user taken cmd none = none
  on_event user taken cmd (some (e, ch)) = on_first user taken cmd e ch

  abbrev pub on_user : Option (List ℕ) → Bool → List (List ℕ) → M Handled
  on_user none taken cmd ch = fail unknown_user ch
  on_user (some user) taken cmd ch = on_event user taken cmd (recv ch)

  unfoldable pub handle_client : Option PeerCred → Bool → List (List ℕ) → M Handled
  handle_client none taken cmd = fail no_credentials
  handle_client (some cred) taken cmd = on_user (users cred.uid) taken cmd
