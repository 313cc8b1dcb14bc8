-- ===== src/Mux/Ids.antt =====
-- Stream ids: `alloc_id`, and the side's first id in `with_window`.
use capsudo_rs.Base.{ℕ, zero, suc, ◌+◌, ◌*◌, ◌%◌, ◌^◌, ◌<◌, ◌≡◌, ◌≢◌, arith}
use capsudo_rs.Mux.Defs.{Side, dialer, listener}

unfoldable pub first_id : Side → ℕ
first_id dialer = 0
first_id listener = 1

-- The id, and the next one with `wrapping_add(2)`.
unfoldable pub alloc_id : ℕ → ℕ × ℕ
alloc_id next_id = (next_id, (next_id + 2) % 2 ^ 32)

-- `next_id` after a number of allocations.
unfoldable pub after_allocs : ℕ → ℕ → ℕ
after_allocs zero next_id = next_id
after_allocs (suc n) next_id = after_allocs n (alloc_id next_id).1

-- The id that the allocation with this number hands out.
unfoldable pub nth_id : Side → ℕ → ℕ
unfolding first_id after_allocs alloc_id
nth_id side n = (alloc_id (after_allocs n (first_id side))).0

after_allocs_lem :
    (n next_id : ℕ) → next_id < 2 ^ 32 → after_allocs n next_id ≡ (next_id + 2 * n) % 2 ^ 32
unfolding after_allocs alloc_id
after_allocs_lem zero next_id h = omega arith
after_allocs_lem (suc n) next_id h =
    omega (arith, after_allocs_lem n ((next_id + 2) % 2 ^ 32) (omega arith))

-- The two ends of a connection never hand out the same id, however many streams they open and also
-- once their counters wrap round.
pub nth_id-ne : (m n : ℕ) → nth_id dialer m ≢ nth_id listener n
unfolding nth_id
nth_id-ne m n e =
    absurd (omega (arith, after_allocs_lem m 0 (omega arith), after_allocs_lem n 1 (omega arith)))

-- One end repeats no id within 2^31 allocations in a row.
pub nth_id-ne_later :
    (side : Side) (m n : ℕ) → m < n → n < m + 2 ^ 31 → nth_id side m ≢ nth_id side n
unfolding nth_id
nth_id-ne_later dialer m n h k e =
    absurd (omega (arith, after_allocs_lem m 0 (omega arith), after_allocs_lem n 0 (omega arith)))
nth_id-ne_later listener m n h k e =
    absurd (omega (arith, after_allocs_lem m 1 (omega arith), after_allocs_lem n 1 (omega arith)))
