-- ===== src/Mux/FlowRuns.antt =====
-- The flow-control state on concrete inputs, and its theorems at them.
use capsudo_rs.Base.{
  ℕ, ◌<◌, ◌⊎◌, ◌+◌, ◌-◌, ◌^◌, min, ◌≤◌, ◌≡◌, refl, false, List, [], ◌∷◌, none, some, arith, length,
}
use capsudo_rs.Base.Assoc.{get, insert, modify}
use capsudo_rs.Base.Bytes.{to_le, from_le}
use capsudo_rs.Base.Int.{pos, ◌+ℤ◌}
use capsudo_rs.Mux.Defs.{max_owed_streams}
use capsudo_rs.Mux.Frames.{decode_u32}
use capsudo_rs.Mux.Flow.{new, hello, field, take_hello, open_stream, owe}
use capsudo_rs.Mux.FlowLaws.{owe-bound}

abbrev small_hello : List ℕ
small_hello = 1 ∷ 0 ∷ 0 ∷ 0 ∷ 0 ∷ 0 ∷ 0 ∷ 0 ∷ []

-- A window of nothing is refused.
refuse_zero : (take_hello (new 100) small_hello).0 ≡ false
unfolding take_hello new field decode_u32 from_le
refuse_zero = refl

-- A stream that is opened before the `Hello` is widened by it.
late_hello :
    get 0 (take_hello (open_stream (new 100) 4 none).1 (hello (new 9))).1.cells
    ≡ some (record { available = pos 9; socket = none; taken = 0; sent = 0; done = false })
unfolding take_hello new field decode_u32 from_le hello open_stream to_le get insert modify ◌+ℤ◌
late_hello = refl

owe-bound_example :
    let after = owe (new 100) 4 25 in
    (length after.owed ≤ max_owed_streams)
    × (((n : ℕ) × (get 4 (new 100).owed ≡ some n)
          × (get 4 after.owed ≡ some (min (n + 25) (2 ^ 32 - 1))))
        ⊎ ((get 4 (new 100).owed ≡ none)
            × (length (new 100).owed < max_owed_streams)
            × (get 4 after.owed ≡ some (min 25 (2 ^ 32 - 1))))
        ⊎ ((get 4 (new 100).owed ≡ none)
            × (max_owed_streams ≤ length (new 100).owed)
            × (after ≡ new 100)))
unfolding new
owe-bound_example = owe-bound (new 100) 4 25 (omega arith)
