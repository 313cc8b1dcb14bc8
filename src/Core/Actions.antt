-- ===== src/Core/Actions.antt =====
-- Parts of a session that send nothing, and parts that end in an exit status.
use capsudo_rs.Base.{
  ℕ, ◌≡◌, refl, sym, ap, ◌∙◌, ◌≢◌, List, [], ◌∷◌, ◌++◌, append_assoc, Option, none, some, arith,
}
use capsudo_rs.Base.Result.{Result, ok, err}
use capsudo_rs.Base.Int.{ℤ, pos}
use capsudo_rs.Proto.Defs.{Message}
use capsudo_rs.Proto.Message
use capsudo_rs.Transport.Defs.{IoError, FdSpec}
use capsudo_rs.Core.Defs.{CoreError}
use capsudo_rs.Core.Channel.{
  Event, Channel, M, return, ◌>>=◌, continue_with, receiving, Sends, send-Sends,
}
use capsudo_rs.Core.Handshake.{Sent}
use capsudo_rs.Core.Command.{Command, send_error, send_exit, send_spawn_failure, ignoring}
use capsudo_rs.Core.Pty.{try_io, winsize_loop, watching, with_command}

abbrev pub Action : Type 0
Action = M (Result CoreError (Unit {0}))

-- The last message between two states is an exit status.
abbrev pub EndsInExit : Channel → Channel → Type 0
EndsInExit ch ch' =
    (code : ℤ) × (front : List Sent) × (ch'.sent
      ≡ ch.sent ++ (front ++ ((Message.exit code, []) ∷ [])))

abbrev pub Exits : Action → Type 0
Exits m = (ch ch' : Channel) → m ch ≡ some (ok tt, ch') → EndsInExit ch ch'

-- A part that sends nothing when it succeeds.
abbrev pub IsQuiet : {A : Type 0} → M (Result CoreError A) → Type 0
IsQuiet {A} m = (ch ch' : Channel) (a : A) → m ch ≡ some (ok a, ch') → ch'.sent ≡ ch.sent

continue_with-ok :
    {A B : Type 0} (x : Option (Result CoreError A × Channel)) (k : A → M (Result CoreError B))
    (b : B) (ch' : Channel)
    → continue_with x k ≡ some (ok b, ch')
    → (a : A) × (ch1 : Channel) × (x ≡ some (ok a, ch1)) × (k a ch1 ≡ some (ok b, ch'))
continue_with-ok none k b ch' e = absurd (ground arith)
continue_with-ok (some (err x, ch1)) k b ch' e = absurd (ground arith)
continue_with-ok (some (ok a, ch1)) k b ch' e = (a, ch1, refl, e)

pub >>=-Exits :
    {A : Type 0} (m : M (Result CoreError A)) (k : A → Action)
    → IsQuiet m
    → ((a : A) → Exits (k a))
    → Exits (m >>= k)
>>=-Exits m k quiet exits ch ch' e =
    let (a, ch1, e1, e2) = continue_with-ok (m ch) k tt ch' e in
    let (code, front, sent) = exits a ch1 ch' e2 in
    (
      code,
      front,
      sent ∙ ap (λ x. x ++ (front ++ ((Message.exit code, []) ∷ []))) (quiet ch ch1 a e1),
    )

pub >>=-IsQuiet :
    {A B : Type 0} (m : M (Result CoreError A)) (k : A → M (Result CoreError B))
    → IsQuiet m
    → ((a : A) → IsQuiet (k a))
    → IsQuiet (m >>= k)
>>=-IsQuiet m k quiet quiet_after ch ch' b e =
    let (a, ch1, e1, e2) = continue_with-ok (m ch) k b ch' e in
    quiet_after a ch1 ch' b e2 ∙ quiet ch ch1 a e1

pub try_io-IsQuiet : {A : Type 0} (r : Result IoError A) → IsQuiet (try_io r)
try_io-IsQuiet (ok a) ch ch' b e = let same : ch ≡ ch' = cc in ap (λ c. c.sent) (sym same)
try_io-IsQuiet (err x) ch ch' b e = absurd (ground arith)

pub watching-IsQuiet : (n : ℕ) → IsQuiet (watching n)
watching-IsQuiet n ch ch' b e =
    let same : record ch { recvs = (winsize_loop n ch.recvs).rest } ≡ ch' = cc in
    ap (λ c. c.sent) (sym same)

sent-ok :
    (m : Message) (fds : List FdSpec) (ch ch' : Channel)
    (x : Option (Result CoreError (Unit {0}) × Channel))
    → Sends m fds ch x
    → x ≡ some (ok tt, ch')
    → ch'.sent ≡ ch.sent ++ ((m, fds) ∷ [])
sent-ok m fds ch ch' _ Sends.waits e = absurd (ground arith)
sent-ok m fds ch ch' _ (Sends.succeeds rest) e =
    let same : record ch { sends = rest; sent = ch.sent ++ ((m, fds) ∷ []) } ≡ ch' = cc in
    ap (λ c. c.sent) (sym same)
sent-ok m fds ch ch' _ (Sends.fails x rest) e = absurd (ground arith)

pub send_exit-Exits : (code : ℤ) → Exits (send_exit code)
unfolding send_exit
send_exit-Exits code ch ch' e =
    (code, [], sent-ok (Message.exit code) [] ch ch' _ (send-Sends (Message.exit code) [] ch) e)

ignoring-Exits :
    (m : Message) (fds : List FdSpec) (k : Action) (ch ch' : Channel)
    (x : Option (Result CoreError (Unit {0}) × Channel))
    → Sends m fds ch x
    → Exits k
    → ignoring (λ _. x) k ch ≡ some (ok tt, ch')
    → EndsInExit ch ch'
ignoring-Exits m fds k ch ch' _ Sends.waits exits e = absurd (ground arith)
ignoring-Exits m fds k ch ch' _ (Sends.succeeds rest) exits e =
    let (code, front, sent) = exits _ ch' e in
    (
      code,
      (m, fds) ∷ front,
      sent ∙ append_assoc ch.sent ((m, fds) ∷ []) (front ++ ((Message.exit code, []) ∷ [])),
    )
ignoring-Exits m fds k ch ch' _ (Sends.fails x rest) exits e = exits _ ch' e

pub send_spawn_failure-Exits : (text : List ℕ) → Exits (send_spawn_failure text)
unfolding send_spawn_failure send_error
send_spawn_failure-Exits text ch ch' e =
    ignoring-Exits (Message.error text) [] (send_exit (pos 127)) ch ch' _
      (send-Sends (Message.error text) [] ch) (send_exit-Exits (pos 127)) e

pub with_command-Exits :
    (command : Option Command) (k : Command → Action)
    → ((c : Command) → Exits (k c))
    → Exits (with_command command k)
with_command-Exits none k exits ch ch' e = absurd (ground arith)
with_command-Exits (some c) k exits ch ch' e = exits c ch ch' e

-- An action that never succeeds.
abbrev Fails : Action → Type 0
Fails m = (ch ch' : Channel) → m ch ≢ some (ok tt, ch')

pub return-Fails : (x : CoreError) → Fails (return (err x))
return-Fails x ch ch' e = ground arith

ignoring_result-Fails :
    (x : Option (Result CoreError (Unit {0}) × Channel)) (k : Action) (ch : Channel)
    → Fails k
    → (ch' : Channel) → ignoring (λ _. x) k ch ≢ some (ok tt, ch')
ignoring_result-Fails none k ch fails ch' e = ground arith
ignoring_result-Fails (some (r, ch1)) k ch fails ch' e = fails ch1 ch' e

pub ignoring-Fails : (m k : Action) → Fails k → Fails (ignoring m k)
ignoring-Fails m k fails ch ch' e = ignoring_result-Fails (m ch) k ch fails ch' e

received-IsQuiet :
    {A : Type 0} (x : Option (Result CoreError A × List Event)) (ch ch1 : Channel) (a : A)
    → receiving (λ _. x) ch ≡ some (ok a, ch1)
    → ch1.sent ≡ ch.sent
received-IsQuiet none ch ch1 a e = absurd (ground arith)
received-IsQuiet (some (r, rest)) ch ch1 a e =
    let same : record ch { recvs = rest } ≡ ch1 = cc in ap (λ c. c.sent) (sym same)

pub receiving-IsQuiet :
    {A : Type 0} (loop : List Event → Option (Result CoreError A × List Event))
    → IsQuiet (receiving loop)
receiving-IsQuiet loop ch ch1 a e = received-IsQuiet (loop ch.recvs) ch ch1 a e
