-- ===== src/Core/Resized.antt =====
-- A terminal that is resized during a session: from the client's signal to the daemon's pty.
use native.Mathlib.Nat.{zero-add, suc-add}
use capsudo_rs.Base.{
  ℕ, zero, suc, ◌+◌, ◌≡◌, ◌≢◌, refl, sym, ap, ap₂, ◌∙◌, List, [], ◌∷◌, ◌++◌, append-nil, Option,
  none, some, All, length, take,
}
use capsudo_rs.Base.Result.{Result, ok, err}
use capsudo_rs.Proto.Defs.{Message, FieldType}
use capsudo_rs.Proto.Message
use capsudo_rs.Proto.Message.{Dims}
use capsudo_rs.Proto.Accessors.{as_winsize, as_winsize-winsize}
use capsudo_rs.Transport.Defs.{IoError, Received}
use capsudo_rs.Core.Defs.{CoreError, ClientRequest, Stdio}
use capsudo_rs.Core.Channel.{Event, Channel}
use capsudo_rs.Core.Client.{send_configuration}
use capsudo_rs.Core.Handshake.{config_messages, send_configuration-Prefix}
use capsudo_rs.Core.Outcome.{events}
use capsudo_rs.Core.Delivery.{IsDims}
use capsudo_rs.Core.Pty.{winsize_loop, sizes, if_winsize}
use capsudo_rs.Core.Resize.{
  Wake, signalled, ended, Answers, read_winsize, forward_loop, winch_forwarder, winch_sender,
  spawned, resizes,
}

-- The sizes that can be read, up to the end of the signals, and how many sends succeed before the
-- first that does not.
abbrev pub sizes_read : List Wake → List Dims
sizes_read [] = []
sizes_read (ended ∷ wakes) = []
sizes_read (signalled (err e) ∷ wakes) = sizes_read wakes
sizes_read (signalled (ok dims) ∷ wakes) = dims ∷ sizes_read wakes

abbrev pub successes : Answers → ℕ
successes [] = 0
successes (err e ∷ answers) = 0
successes (ok u ∷ answers) = suc (successes answers)

abbrev pub winsizes : List Dims → List Message
winsizes [] = []
winsizes (dims ∷ rest) = Message.winsize dims ∷ winsizes rest

abbrev pub AreDims : List Dims → Type 0
AreDims = All (λ d. IsDims (some d))

forward_loop-sizes :
    (wakes : List Wake) (answers : Answers)
    → forward_loop wakes answers ≡ winsizes (take (successes answers) (sizes_read wakes))
unfolding forward_loop read_winsize
forward_loop-sizes [] [] = refl
forward_loop-sizes [] (err e ∷ answers) = refl
forward_loop-sizes [] (ok u ∷ answers) = refl
forward_loop-sizes (ended ∷ wakes) [] = refl
forward_loop-sizes (ended ∷ wakes) (err e ∷ answers) = refl
forward_loop-sizes (ended ∷ wakes) (ok u ∷ answers) = refl
forward_loop-sizes (signalled (err e) ∷ wakes) answers = forward_loop-sizes wakes answers
forward_loop-sizes (signalled (ok dims) ∷ wakes) [] = refl
forward_loop-sizes (signalled (ok dims) ∷ wakes) (err e ∷ answers) = refl
forward_loop-sizes (signalled (ok dims) ∷ wakes) (ok u ∷ answers) =
    ap (◌∷◌ (Message.winsize dims)) (forward_loop-sizes wakes answers)

take-AreDims : (n : ℕ) (ds : List Dims) → AreDims ds → AreDims (take n ds)
take-AreDims zero ds h = tt
take-AreDims (suc n) [] h = tt
take-AreDims (suc n) (d ∷ ds) h = (h.0, take-AreDims n ds h.1)

if_winsize-ok :
    (r : Received) (dims : Dims)
    → as_winsize r.message ≡ ok dims
    → if_winsize FieldType.winsize r ≡ dims ∷ []
if_winsize-ok r dims e = rw (e, if_winsize) refl

sizes-winsize :
    (dims : Dims)
    → IsDims (some dims)
    → sizes (record { message = Message.winsize dims; fds = [] }) ≡ dims ∷ []
sizes-winsize (rows, cols, xpixels, ypixels) (r, c, x, y) =
    let e : as_winsize (Message.winsize (rows, cols, xpixels, ypixels))
        ≡ ok (rows, cols, xpixels, ypixels) =
      as_winsize-winsize rows cols xpixels ypixels r c x y in
    unfold Message.winsize in
    if_winsize-ok (record { message = Message.winsize (rows, cols, xpixels, ypixels); fds = [] })
      (rows, cols, xpixels, ypixels) e

-- The daemon's loop on the sizes of a terminal.
winsize_loop-winsizes :
    (ds : List Dims) (n : ℕ) (es : List Event)
    → AreDims ds
    → (winsize_loop (length ds + n) (events (winsizes ds) ++ es)).resized
      ≡ ds ++ (winsize_loop n es).resized
unfolding winsize_loop
winsize_loop-winsizes [] n es h = rw zero-add refl
winsize_loop-winsizes (d ∷ ds) n es h =
    rw suc-add (ap₂ ◌++◌ (sizes-winsize d h.0) (winsize_loop-winsizes ds n es h.1))

spawned-sent :
    (size : Option Dims) (sender : Option ℕ) (handler : Result IoError (Unit {0}))
    (wakes : List Wake) (answers : Answers)
    → spawned (winch_sender (ok tt) size sender) (winch_forwarder handler wakes answers) ≢ []
    → spawned (winch_sender (ok tt) size sender) (winch_forwarder handler wakes answers)
      ≡ forward_loop wakes answers
unfolding winch_forwarder
spawned-sent none sender handler wakes answers h = absurd (h refl)
spawned-sent (some dims) none handler wakes answers h = absurd (h refl)
spawned-sent (some dims) (some fd) (err e) wakes answers h = absurd (h refl)
spawned-sent (some dims) (some fd) (ok u) wakes answers h = refl

-- The task's choice, as far as anything is sent.
resizes-sent :
    (q : ClientRequest) (r : Result CoreError (Unit {0})) (sender : Option ℕ)
    (handler : Result IoError (Unit {0})) (wakes : List Wake) (answers : Answers)
    → resizes q r sender handler wakes answers ≢ []
    → (r ≡ ok tt) × (resizes q r sender handler wakes answers ≡ forward_loop wakes answers)
unfolding resizes winch_forwarder
resizes-sent q (err e) sender handler wakes answers h = absurd (h refl)
resizes-sent q (ok tt) sender handler wakes answers h =
    (refl, spawned-sent q.winsize sender handler wakes answers h)

-- A terminal that is resized: no resize is sent before the whole configuration, and the sizes that
-- the daemon sets on its pty are those of the client's terminal, in order and unchanged, one for each
-- signal after which the size could be read, up to the first that could not be sent; what else
-- arrives follows them. At least one resize is sent, the sizes are `u16`s, and the child does not
-- exit before they have arrived.
pub winsize_loop-resizes :
    (q : ClientRequest) (stdio : Stdio) (secret : Option (List ℕ)) (ch ch' : Channel)
    (r : Result CoreError (Unit {0})) (sender : Option ℕ) (handler : Result IoError (Unit {0}))
    (wakes : List Wake) (answers : Answers) (n : ℕ) (es : List Event)
    → send_configuration q stdio secret ch ≡ some (r, ch')
    → resizes q r sender handler wakes answers ≢ []
    → AreDims (sizes_read wakes)
    → let set = take (successes answers) (sizes_read wakes) in
      let messages = resizes q r sender handler wakes answers in
      (ch'.sent ≡ ch.sent ++ config_messages q stdio secret)
      × ((winsize_loop (length set + n) (events messages ++ es)).resized
          ≡ set ++ (winsize_loop n es).resized)
winsize_loop-resizes q stdio secret ch ch' r sender handler wakes answers n es configured some_sent
      u16s =
    let set = take (successes answers) (sizes_read wakes) in
    let (front, back, split, sent, _, whole) =
      send_configuration-Prefix q stdio secret ch ch' r configured in
    let (fine, all) = resizes-sent q r sender handler wakes answers some_sent in
    (
      sent
          ∙ ap (λ x. ch.sent ++ x)
              (sym (split ∙ ap (λ b. front ++ b) (whole fine) ∙ append-nil front)),
      ap (λ (ms : List Message). (winsize_loop (length set + n) (events ms ++ es)).resized)
            (all ∙ forward_loop-sizes wakes answers)
          ∙ winsize_loop-winsizes set n es
              (take-AreDims (successes answers) (sizes_read wakes) u16s),
    )
