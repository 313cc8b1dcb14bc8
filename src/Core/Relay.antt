-- ===== src/Core/Relay.antt =====
-- `relay` of pty.rs, which copies bytes between the pseudo-terminal and the client's descriptors. Its
-- rounds are in order; a relay that has none left is still running.
use capsudo_rs.Base.{
  ℕ, ◌≤◌, ◌≡◌, refl, sym, append-nil, ap, ◌∙◌, Bool, true, false, ◌&&◌, List, [], ◌∷◌, ◌++◌,
  append_assoc, Option, none, some, All, length, if◌then◌else◌,
}
use capsudo_rs.Base.Result.{ok, err}
use capsudo_rs.Transport.Defs.{IoError, interrupted}
use capsudo_rs.Transport.Writes.{Attempt, Written, write_all}
use capsudo_rs.Transport.Whole.{IsTaking, taken_bytes, write_all-whole}

-- What `read` gives: no byte at the end or on an error, otherwise bytes, with the attempts to write
-- them on.
pub data Input : Type 0 where
  finished : Input
  bytes : ℕ → List ℕ → List Attempt → Input

-- A `poll` that failed, or one that returned: whether the cancel descriptor has events, whether the
-- source has any of the three that matter, and what a `read` then gives.
pub data Round : Type 0 where
  poll_failed : IoError → Round
  polled : (cancelled readable : Bool) → Input → Round

abbrev carried : Written → Option (List ℕ) → Option (List ℕ)
carried none rest = none
carried (some (err e, out)) rest = some out
carried (some (ok u, out)) none = none
carried (some (ok u, out)) (some more) = some (out ++ more)

abbrev copied : Input → Option (List ℕ) → Option (List ℕ)
copied finished rest = some []
copied (bytes b bs writes) rest = carried (write_all (b ∷ bs) writes) rest

-- The bytes that a relay has written when it ends; `cancel` is whether it has a cancel descriptor.
unfoldable pub relay : (cancel : Bool) → List Round → Option (List ℕ)
relay cancel [] = none
relay cancel (poll_failed interrupted ∷ rs) = relay cancel rs
relay cancel (poll_failed e ∷ rs) = some []
relay cancel (polled cancelled readable input ∷ rs) =
    let rest = relay cancel rs in
    if cancel && cancelled then some [] else if readable then copied input rest else rest

-- A round in which the relay goes on: the poll is interrupted, or the source has nothing, or has
-- bytes that the destination takes, in however many pieces.
abbrev pub IsFlowing : Round → Type 0
IsFlowing (poll_failed e) = e ≡ interrupted
IsFlowing (polled cancelled false input) = Unit
IsFlowing (polled cancelled true finished) = ⊥
IsFlowing (polled cancelled true (bytes b bs writes)) =
    All IsTaking writes × (length (b ∷ bs) ≤ taken_bytes writes)

-- A round that does not cancel the relay.
abbrev pub IsOpen : Bool → Round → Type 0
IsOpen cancel (poll_failed e) = Unit
IsOpen cancel (polled cancelled readable input) = (cancel && cancelled) ≡ false

abbrev pub read_bytes : List Round → List ℕ
read_bytes [] = []
read_bytes (polled cancelled true (bytes b bs writes) ∷ rs) = (b ∷ bs) ++ read_bytes rs
read_bytes (r ∷ rs) = read_bytes rs

abbrev pub prefixed : List ℕ → Option (List ℕ) → Option (List ℕ)
prefixed bs none = none
prefixed bs (some more) = some (bs ++ more)

prefixed_assoc :
    (as' bs : List ℕ) (r : Option (List ℕ))
    → carried (some (ok tt, as')) (prefixed bs r) ≡ prefixed (as' ++ bs) r
prefixed_assoc as' bs none = refl
prefixed_assoc as' bs (some more) = ap some (sym (append_assoc as' bs more))

prefixed-[] : (r : Option (List ℕ)) → r ≡ prefixed [] r
prefixed-[] none = refl
prefixed-[] (some more) = refl

pub relay-flowing :
    (cancel : Bool) (rs rest : List Round)
    → All IsFlowing rs
    → All (IsOpen cancel) rs
    → relay cancel (rs ++ rest) ≡ prefixed (read_bytes rs) (relay cancel rest)
unfolding relay
relay-flowing cancel [] rest h open_all = prefixed-[] (relay cancel rest)
relay-flowing cancel (poll_failed e ∷ rs) rest h open_all =
    ap (λ x. relay cancel (poll_failed x ∷ (rs ++ rest))) h.0
    ∙ relay-flowing cancel rs rest h.1 open_all.1
relay-flowing cancel (polled cancelled false input ∷ rs) rest h open_all =
    ap (λ t. if t then some [] else relay cancel (rs ++ rest)) open_all.0
    ∙ relay-flowing cancel rs rest h.1 open_all.1
relay-flowing cancel (polled cancelled true finished ∷ rs) rest h open_all = absurd h.0
relay-flowing cancel (polled cancelled true (bytes b bs writes) ∷ rs) rest h open_all =
    ap (λ t. if t then some [] else carried (write_all (b ∷ bs) writes) (relay cancel (rs ++ rest)))
      open_all.0
    ∙ ap (λ w. carried w (relay cancel (rs ++ rest))) (write_all-whole (b ∷ bs) writes h.0.0 h.0.1)
    ∙ ap (carried (some (ok tt, b ∷ bs))) (relay-flowing cancel rs rest h.1 open_all.1)
    ∙ prefixed_assoc (b ∷ bs) (read_bytes rs) (relay cancel rest)

-- A relay that has no cancel descriptor is not cancelled.
pub uncancelled : (rs : List Round) → All (IsOpen false) rs
uncancelled [] = tt
uncancelled (poll_failed e ∷ rs) = (tt, uncancelled rs)
uncancelled (polled cancelled readable input ∷ rs) = (refl, uncancelled rs)

-- The thread from the terminal to the client, which cannot be cancelled, ends when the terminal does
-- and has by then written every byte the terminal gave, in order: the program's final output is
-- not truncated. The client's descriptor takes what it is given, in any pieces.
pub relay-whole :
    (rs more : List Round) (cancelled : Bool)
    → All IsFlowing rs
    → relay false (rs ++ (polled cancelled true finished ∷ more)) ≡ some (read_bytes rs)
relay-whole rs more cancelled h =
    relay-flowing false rs (polled cancelled true finished ∷ more) h (uncancelled rs)
    ∙ unfold relay in ap some (append-nil (read_bytes rs))

-- The thread from the client to the terminal ends when it is cancelled, with what it had read until
-- then written.
pub relay-cancelled :
    (rs more : List Round) (readable : Bool) (input : Input)
    → All IsFlowing rs
    → All (IsOpen true) rs
    → relay true (rs ++ (polled true readable input ∷ more)) ≡ some (read_bytes rs)
relay-cancelled rs more readable input h open_all =
    relay-flowing true rs (polled true readable input ∷ more) h open_all
    ∙ unfold relay in ap some (append-nil (read_bytes rs))
