-- ===== src/Core/Channel.antt =====
-- A transport as a session sees it: the results of its calls of `recv` and `send`, in order, and
-- what has been sent. A call that has no result yet has not returned, and neither has its caller.
use capsudo_rs.Base.{◌≡◌, refl, fun_ext, List, [], ◌∷◌, ◌++◌, Option, none, some}
use capsudo_rs.Base.Result.{Result, ok, err}
use capsudo_rs.Proto.Defs.{Message}
use capsudo_rs.Transport.Defs.{TransportError, FdSpec, Received}
use capsudo_rs.Core.Defs.{CoreError}

-- What a call of `recv` returns.
abbrev pub Event : Type 0
Event = Result TransportError (Option Received)

pub record Channel : Type 0 where
  pub recvs : List Event
  pub sends : List (Result TransportError (Unit {0}))
  pub sent : List (Message × List FdSpec)

-- `none` while a call on the way has not returned.
abbrev pub M {ℓ} : Type ℓ → Type ℓ
M A = Channel → Option (A × Channel)

abbrev pub return {ℓ} : {A : Type ℓ} → A → M A
return a ch = some (a, ch)

-- `?` after a call: an error ends the function.
abbrev pub continue_with {ℓ κ} :
    {A : Type ℓ} {B : Type κ}
    → Option (Result CoreError A × Channel)
    → (A → M (Result CoreError B))
    → Option (Result CoreError B × Channel)
continue_with none f = none
continue_with (some (err e, ch)) f = some (err e, ch)
continue_with (some (ok a, ch)) f = f a ch

infixl 5 ◌>>=◌ ◌>>◌
abbrev pub ◌>>=◌ {ℓ κ} :
    {A : Type ℓ} {B : Type κ}
    → M (Result CoreError A)
    → (A → M (Result CoreError B))
    → M (Result CoreError B)
◌>>=◌ m f ch = continue_with (m ch) f

abbrev pub ◌>>◌ {κ} :
    {B : Type κ} → M (Result CoreError (Unit {0})) → M (Result CoreError B) → M (Result CoreError B)
m >> k = m >>= λ _. k

abbrev answer :
    Message
    → List FdSpec
    → Channel
    → List (Result TransportError (Unit {0}))
    → Option (Result CoreError (Unit {0}) × Channel)
answer m fds ch [] = none
answer m fds ch (ok u ∷ rest) =
    some (ok tt, record ch { sends = rest; sent = ch.sent ++ ((m, fds) ∷ []) })
answer m fds ch (err e ∷ rest) = some (err (CoreError.transport e), record ch { sends = rest })

-- `transport.send(m, fds)`, with its error as the session's own.
unfoldable pub send : Message → List FdSpec → M (Result CoreError (Unit {0}))
send m fds ch = answer m fds ch ch.sends

-- A loop over `recv` alone, run on the channel.
abbrev pub receiving {ℓ} : {A : Type ℓ} → (List Event → Option (A × List Event)) → M A
receiving loop ch = elim (loop ch.recvs) [
  | none ↦ none
  | some (a, rest) ↦ some (a, record ch { recvs = rest })
]

continue_with_assoc :
    (x : Option (Result CoreError (Unit {0}) × Channel)) (j k : M (Result CoreError (Unit {0})))
    → continue_with (continue_with x (λ _. j)) (λ _. k)
      ≡ continue_with x (λ _ ch. continue_with (j ch) (λ _. k))
continue_with_assoc none j k = refl
continue_with_assoc (some (err e, ch)) j k = refl
continue_with_assoc (some (ok u, ch)) j k = refl

pub >>_assoc : (m j k : M (Result CoreError (Unit {0}))) → (m >> j >> k) ≡ (m >> (j >> k))
>>_assoc m j k = fun_ext λ ch. continue_with_assoc (m ch) j k

-- The three ways a call of `send` can go.
pub data Sends (m : Message) (fds : List FdSpec) (ch : Channel)
    : Option (Result CoreError (Unit {0}) × Channel) → Type 0 where
  waits : Sends m fds ch none
  succeeds :
      (rest : List (Result TransportError (Unit {0})))
      → Sends m fds ch (some (ok tt, record ch { sends = rest; sent = ch.sent ++ ((m, fds) ∷ []) }))
  fails :
      (x : TransportError) (rest : List (Result TransportError (Unit {0})))
      → Sends m fds ch (some (err (CoreError.transport x), record ch { sends = rest }))

answer-Sends :
    (m : Message) (fds : List FdSpec) (ch : Channel) (ss : List (Result TransportError (Unit {0})))
    → Sends m fds ch (answer m fds ch ss)
answer-Sends m fds ch [] = waits
answer-Sends m fds ch (ok u ∷ rest) = succeeds rest
answer-Sends m fds ch (err x ∷ rest) = fails x rest

pub send-Sends : (m : Message) (fds : List FdSpec) (ch : Channel) → Sends m fds ch (send m fds ch)
unfolding send
send-Sends m fds ch = answer-Sends m fds ch ch.sends
