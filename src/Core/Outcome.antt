-- ===== src/Core/Outcome.antt =====
-- What the client reports for what the daemon sends.
use capsudo_rs.Base.{
  ℕ, ◌≡◌, ◌≢◌, refl, sym, ap, ◌∙◌, List, [], ◌∷◌, ◌++◌, Option, none, some, All, arith,
}
use capsudo_rs.Base.Result.{ok, err, unwrap_or}
use capsudo_rs.Base.Int.{ℤ, pos, IsI32}
use capsudo_rs.Base.Utf8.{IsStr}
use capsudo_rs.Proto.Defs.{FieldType, Message}
use capsudo_rs.Proto.Message
use capsudo_rs.Proto.Accessors.{as_str, as_i32-exit, as_str-error}
use capsudo_rs.Core.Defs.{SessionOutcome, exited, failed, refused, daemon_closed}
use capsudo_rs.Core.Channel.{Event}
use capsudo_rs.Core.Client.{
  malformed_error, take_report, more, finished, await_loop, await_outcome, status,
}

-- Messages that do not end a session.
abbrev pub IsOngoing : Message → Type 0
IsOngoing m = (m.field_type ≢ FieldType.exit) × (m.field_type ≢ FieldType.unauthorized)

abbrev pub events : List Message → List Event
events [] = []
events (m ∷ ms) = ok (some (record { message = m; fds = [] })) ∷ events ms

-- The text of the first `Error` among the messages.
abbrev if_error : FieldType → Message → Option (List ℕ) → Option (List ℕ)
if_error FieldType.error m rest = some (unwrap_or (as_str m) malformed_error)
if_error other m rest = rest

unfoldable pub first_error : List Message → Option (List ℕ)
first_error [] = none
first_error (m ∷ ms) = if_error m.field_type m (first_error ms)

abbrev pub or_else : Option (List ℕ) → Option (List ℕ) → Option (List ℕ)
or_else (some a) b = some a
or_else none b = b

or_else-none : (a : Option (List ℕ)) → or_else a none ≡ a
or_else-none (some a) = refl
or_else-none none = refl

take_report-more :
    (m : Message) (failure rest : Option (List ℕ)) (t : FieldType)
    → t ≢ FieldType.exit
    → t ≢ FieldType.unauthorized
    → (f : Option (List ℕ)) × (take_report m failure t ≡ more f)
      × (or_else f rest ≡ or_else failure (if_error t m rest))
unfolding take_report
take_report-more m failure rest FieldType.exit h k = absurd (h refl)
take_report-more m failure rest FieldType.unauthorized h k = absurd (k refl)
take_report-more m failure rest FieldType.error h k = (_, refl, ground arith)
take_report-more m failure rest t h k = (failure, refl, refl)

await_loop-more :
    (m : Message) (failure f : Option (List ℕ)) (es : List Event)
    → take_report m failure m.field_type ≡ more f
    → await_loop failure (ok (some (record { message = m; fds = [] })) ∷ es) ≡ await_loop f es
unfolding await_loop
await_loop-more m failure f es e = rw (e, await_loop)

-- The loop after messages that do not end it: it has kept the first error, and only that.
await_loop-events :
    (failure : Option (List ℕ)) (ms : List Message) (es : List Event)
    → All IsOngoing ms
    → await_loop failure (events ms ++ es) ≡ await_loop (or_else failure (first_error ms)) es
unfolding first_error
await_loop-events failure [] es h = ap (λ f. await_loop f es) (sym (or_else-none failure))
await_loop-events failure (m ∷ ms) es h =
    let (f, step, kept) = take_report-more m failure (first_error ms) m.field_type h.0.0 h.0.1 in
    await_loop-more m failure f (events ms ++ es) step
    ∙ await_loop-events f ms es h.1
    ∙ ap (λ g. await_loop g es) kept

abbrev pub ended : Option (List ℕ) → ℤ → SessionOutcome
ended none code = exited code
ended (some message) code = failed code message

take_report-exit :
    (failure : Option (List ℕ)) (code : ℤ)
    → IsI32 code
    → take_report (Message.exit code) failure FieldType.exit ≡ finished (ok (ended failure code))
unfolding take_report
take_report-exit none code h = rw (as_i32-exit code h)
take_report-exit (some message) code h = rw (as_i32-exit code h)

await_loop-exit :
    (failure : Option (List ℕ)) (code : ℤ) (es : List Event)
    → IsI32 code
    → await_loop failure (events (Message.exit code ∷ []) ++ es)
      ≡ some (ok (ended failure code), es)
unfolding await_loop
await_loop-exit failure code es h =
    let step : take_report (Message.exit code) failure (Message.exit code).field_type
        ≡ finished (ok (ended failure code)) =
      unfold Message.exit in take_report-exit failure code h in
    rw (step, await_loop)

-- Whatever other messages the daemon sends before it, unless they demand a password, an exit
-- status in the range of `i32` ends the session with that status: as the program's own if no error
-- was reported, and otherwise as a failure with the first error's text.
pub await_outcome-exit :
    (ms : List Message) (code : ℤ) (es : List Event)
    → All IsOngoing ms
    → IsI32 code
    → await_outcome (events ms ++ (events (Message.exit code ∷ []) ++ es))
      ≡ some (ok (ended (first_error ms) code), es)
unfolding await_outcome
await_outcome-exit ms code es h range =
    await_loop-events none ms _ h ∙ await_loop-exit (first_error ms) code es range

-- A connection that ends before an exit status or a demand for a password is an error, whatever
-- other messages came before.
pub await_outcome-closed :
    (ms : List Message) (es : List Event)
    → All IsOngoing ms
    → await_outcome (events ms ++ (ok none ∷ es)) ≡ some (err daemon_closed, es)
unfolding await_outcome
await_outcome-closed ms es h = await_loop-events none ms _ h ∙ unfold await_loop in refl

pub first_error-error :
    (text : List ℕ) → IsStr text → first_error (Message.error text ∷ []) ≡ some text
unfolding first_error
first_error-error text h = let read = as_str-error text h in unfold Message.error in rw read

-- What the daemon sends when it cannot run the program reaches the client as its own words, which
-- are UTF-8: the session fails with the code 127 and the daemon's message, and `run_client`
-- refuses with it.
pub await_outcome-spawn_failure :
    (text : List ℕ) (es : List Event)
    → IsStr text
    → (await_outcome (events (Message.error text ∷ Message.exit (pos 127) ∷ []) ++ es)
        ≡ some (ok (failed (pos 127) text), es))
      × (status (failed (pos 127) text) ≡ err (refused text))
await_outcome-spawn_failure text es h = (
  await_outcome-exit (Message.error text ∷ []) (pos 127) es
        (((unfold Message.error in (λ e. cc)), (unfold Message.error in (λ e. cc))), tt)
        (omega arith)
      ∙ ap (λ f. some (ok (ended f (pos 127)), es)) (first_error-error text h),
  refl,
)
