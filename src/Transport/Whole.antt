-- ===== src/Transport/Whole.antt =====
-- The loops that write every byte write all of it, and in order.
use capsudo_rs.Base.{
  ℕ, zero, suc, ◌+◌, ◌≤◌, ◌<◌, ◌≡◌, refl, sym, ap, ◌∙◌, List, [], ◌∷◌, some, All, arith, length,
  take, drop, take-append-drop, length-drop,
}
use capsudo_rs.Base.Result.{ok}
use capsudo_rs.Transport.Defs.{interrupted}
use capsudo_rs.Transport.Writes.{
  Attempt, wrote, blocked, after, write_all, wait_writable, once_waited, write_all_blocking,
}

-- The attempts on a descriptor that someone drains: each takes a byte at least, is interrupted, or
-- would block until a wait finds the descriptor writable.
abbrev pub IsDraining : Attempt → Type 0
IsDraining (wrote n) = 0 < n
IsDraining (blocked polls) = wait_writable polls ≡ some (ok tt)
IsDraining (Attempt.failed e) = e ≡ interrupted

abbrev pub taken_bytes : List Attempt → ℕ
taken_bytes [] = 0
taken_bytes (wrote n ∷ as') = n + taken_bytes as'
taken_bytes (a ∷ as') = taken_bytes as'

-- The attempts a descriptor without `O_NONBLOCK` makes of them.
abbrev pub no_waits : List Attempt → List Attempt
no_waits [] = []
no_waits (blocked polls ∷ as') = no_waits as'
no_waits (wrote n ∷ as') = wrote n ∷ no_waits as'
no_waits (Attempt.failed e ∷ as') = Attempt.failed e ∷ no_waits as'

-- Every write takes a byte and every wait finds the descriptor writable; writes may fail.
abbrev pub IsPatient : Attempt → Type 0
IsPatient (wrote n) = 0 < n
IsPatient (blocked polls) = wait_writable polls ≡ some (ok tt)
IsPatient (Attempt.failed e) = Unit

write_all-[] : (as' : List Attempt) → write_all [] as' ≡ some (ok tt, [])
unfolding write_all
write_all-[] [] = refl
write_all-[] (a ∷ as') = refl

write_all_blocking-[] : (as' : List Attempt) → write_all_blocking [] as' ≡ some (ok tt, [])
unfolding write_all_blocking
write_all_blocking-[] [] = refl
write_all_blocking-[] (a ∷ as') = refl

-- On a descriptor that is in non-blocking mode, whose waits end well and whose writes take a byte or
-- fail, the loop of the pumps does what the plain loop does on a blocking descriptor: the same
-- result, and the same bytes written.
pub write_all_blocking-no_waits :
    (bs : List ℕ) (as' : List Attempt)
    → All IsPatient as'
    → write_all_blocking bs as' ≡ write_all bs (no_waits as')
unfolding write_all write_all_blocking
write_all_blocking-no_waits [] as' h = write_all_blocking-[] as' ∙ sym (write_all-[] (no_waits as'))
write_all_blocking-no_waits (b ∷ bs) [] h = refl
write_all_blocking-no_waits (b ∷ bs) (wrote zero ∷ as') h = absurd (omega (arith, h.0))
write_all_blocking-no_waits (b ∷ bs) (wrote (suc n) ∷ as') h =
    ap (after (b ∷ take n bs)) (write_all_blocking-no_waits (drop n bs) as' h.1)
write_all_blocking-no_waits (b ∷ bs) (blocked polls ∷ as') h =
    ap (λ w. once_waited w (write_all_blocking (b ∷ bs) as')) h.0
    ∙ write_all_blocking-no_waits (b ∷ bs) as' h.1
write_all_blocking-no_waits (b ∷ bs) (Attempt.failed interrupted ∷ as') h =
    write_all_blocking-no_waits (b ∷ bs) as' h.1
write_all_blocking-no_waits (b ∷ bs) (Attempt.failed e ∷ as') h = refl

-- As long as someone drains the descriptor, the loop of the pumps ends and has written every byte,
-- in order: a write that is short, is interrupted or would block loses nothing.
pub write_all_blocking-whole :
    (bs : List ℕ) (as' : List Attempt)
    → All IsDraining as'
    → length bs ≤ taken_bytes as'
    → write_all_blocking bs as' ≡ some (ok tt, bs)
unfolding write_all_blocking
write_all_blocking-whole [] as' h room = write_all_blocking-[] as'
write_all_blocking-whole (b ∷ bs) [] h room = absurd (omega (arith, room))
write_all_blocking-whole (b ∷ bs) (wrote zero ∷ as') h room = absurd (omega (arith, h.0))
write_all_blocking-whole (b ∷ bs) (wrote (suc n) ∷ as') h room =
    ap (after (b ∷ take n bs))
      (write_all_blocking-whole (drop n bs) as' h.1 (omega (arith, room, length-drop n bs)))
    ∙ ap (λ x. some (ok tt, b ∷ x)) (take-append-drop n bs)
write_all_blocking-whole (b ∷ bs) (blocked polls ∷ as') h room =
    ap (λ w. once_waited w (write_all_blocking (b ∷ bs) as')) h.0
    ∙ write_all_blocking-whole (b ∷ bs) as' h.1 room
write_all_blocking-whole (b ∷ bs) (Attempt.failed e ∷ as') h room =
    ap (λ x. write_all_blocking (b ∷ bs) (Attempt.failed x ∷ as')) h.0
    ∙ write_all_blocking-whole (b ∷ bs) as' h.1 room

-- The attempts on a blocking descriptor that someone drains.
abbrev pub IsTaking : Attempt → Type 0
IsTaking (wrote n) = 0 < n
IsTaking (blocked polls) = ⊥
IsTaking (Attempt.failed e) = e ≡ interrupted

pub write_all-whole :
    (bs : List ℕ) (as' : List Attempt)
    → All IsTaking as'
    → length bs ≤ taken_bytes as'
    → write_all bs as' ≡ some (ok tt, bs)
unfolding write_all
write_all-whole [] as' h room = write_all-[] as'
write_all-whole (b ∷ bs) [] h room = absurd (omega (arith, room))
write_all-whole (b ∷ bs) (wrote zero ∷ as') h room = absurd (omega (arith, h.0))
write_all-whole (b ∷ bs) (wrote (suc n) ∷ as') h room =
    ap (after (b ∷ take n bs))
      (write_all-whole (drop n bs) as' h.1 (omega (arith, room, length-drop n bs)))
    ∙ ap (λ x. some (ok tt, b ∷ x)) (take-append-drop n bs)
write_all-whole (b ∷ bs) (blocked polls ∷ as') h room = absurd h.0
write_all-whole (b ∷ bs) (Attempt.failed e ∷ as') h room =
    ap (λ x. write_all (b ∷ bs) (Attempt.failed x ∷ as')) h.0
    ∙ write_all-whole (b ∷ bs) as' h.1 room
