-- ===== src/Transport/WriteRuns.antt =====
-- The writing loops on concrete attempts, and their theorems at concrete inputs.
use capsudo_rs.Base.{ℕ, ◌≡◌, refl, true, false, List, [], ◌∷◌, some, arith, All}
use capsudo_rs.Base.Result.{ok, err}
use capsudo_rs.Transport.Defs.{interrupted, would_block}
use capsudo_rs.Transport.Writes.{
  Poll, ready, unknown, Attempt, wrote, blocked, write_all, wait_writable, write_all_blocking, eio,
  epipe,
}
use capsudo_rs.Transport.Whole.{IsPatient, write_all_blocking-no_waits}

-- Two bytes, an interruption, a wait that is woken without cause first, and the rest.
abbrev wait : List Poll
wait = Poll.failed interrupted ∷ unknown ∷ ready false false ∷ ready false true ∷ []

abbrev patient : List Attempt
patient = wrote 2 ∷ Attempt.failed interrupted ∷ blocked wait ∷ wrote 3 ∷ []

waited : wait_writable wait ≡ some (ok tt)
unfolding wait_writable
waited = refl

patient-IsPatient : All IsPatient patient
patient-IsPatient = (omega arith, (tt, (waited, (omega arith, tt))))

abbrev text : List ℕ
text = b'h' ∷ b'e' ∷ b'l' ∷ b'l' ∷ b'o' ∷ []

write_all_blocking-no_waits_example :
    write_all_blocking text patient
    ≡ write_all text (wrote 2 ∷ Attempt.failed interrupted ∷ wrote 3 ∷ [])
write_all_blocking-no_waits_example = write_all_blocking-no_waits text patient patient-IsPatient

-- The plain loop takes a write that would block for an error, and the loop of the pumps a hangup.
plain_gives_up :
    write_all text (wrote 2 ∷ blocked wait ∷ wrote 3 ∷ [])
    ≡ some (err would_block, b'h' ∷ b'e' ∷ [])
unfolding write_all
plain_gives_up = refl

hung_up : write_all_blocking text (blocked (ready true true ∷ []) ∷ []) ≡ some (err epipe, [])
unfolding write_all_blocking wait_writable
hung_up = refl

full : write_all_blocking text (wrote 0 ∷ []) ≡ some (err eio, [])
unfolding write_all_blocking
full = refl
