-- ===== src/Transport/Writes.antt =====
-- The loops that write every byte to a descriptor: `write_all` of crates/capsudo-core/src/pty.rs, and
-- `write_all_blocking` with `wait_writable` of crates/capsudo-transport/src/mux.rs. The system calls
-- are attempts, in order, with what each returned; a loop that has none left has not returned. The
-- result has the bytes that were written.
use capsudo_rs.Base.{
  ℕ, zero, suc, Bool, true, false, List, [], ◌∷◌, ◌++◌, Option, none, some, take, drop,
}
use capsudo_rs.Base.Result.{Result, ok, err}
use capsudo_rs.Transport.Defs.{IoError, interrupted, would_block, write_zero, os}

-- The `revents` of a poll for `POLLOUT`: whether they have an error or a hangup, and `POLLOUT`.
-- `unknown` are bits that `revents` makes nothing of.
pub data Poll : Type 0 where
  ready : (hung_up writable : Bool) → Poll
  unknown : Poll
  failed : IoError → Poll

-- One call of `write`, which never takes more than it is offered; with one that would block come the
-- polls of the wait that follows it.
pub data Attempt : Type 0 where
  wrote : ℕ → Attempt
  blocked : List Poll → Attempt
  failed : IoError → Attempt

abbrev pub Written : Type 0
Written = Option (Result IoError (Unit {0}) × List ℕ)

abbrev pub after : List ℕ → Written → Written
after bs none = none
after bs (some (r, out)) = some (r, bs ++ out)

-- `EIO` and `EPIPE`
abbrev pub eio : IoError
eio = os 5

abbrev pub epipe : IoError
epipe = os 32

-- pty.rs: an interrupted write is made again, and any other error ends the loop.
unfoldable pub write_all : List ℕ → List Attempt → Written
write_all [] as' = some (ok tt, [])
write_all (b ∷ bs) [] = none
write_all (b ∷ bs) (wrote zero ∷ as') = some (err write_zero, [])
write_all (b ∷ bs) (wrote (suc n) ∷ as') = after (b ∷ take n bs) (write_all (drop n bs) as')
write_all (b ∷ bs) (blocked polls ∷ as') = some (err would_block, [])
write_all (b ∷ bs) (failed interrupted ∷ as') = write_all (b ∷ bs) as'
write_all (b ∷ bs) (failed e ∷ as') = some (err e, [])

-- `none` while the wait goes on.
unfoldable pub wait_writable : List Poll → Option (Result IoError (Unit {0}))
wait_writable [] = none
wait_writable (failed interrupted ∷ ps) = wait_writable ps
wait_writable (failed e ∷ ps) = some (err e)
wait_writable (unknown ∷ ps) = wait_writable ps
wait_writable (ready true w ∷ ps) = some (err epipe)
wait_writable (ready false true ∷ ps) = some (ok tt)
wait_writable (ready false false ∷ ps) = wait_writable ps

abbrev pub once_waited : Option (Result IoError (Unit {0})) → Written → Written
once_waited none rest = none
once_waited (some (err e)) rest = some (err e, [])
once_waited (some (ok u)) rest = rest

unfoldable pub write_all_blocking : List ℕ → List Attempt → Written
write_all_blocking [] as' = some (ok tt, [])
write_all_blocking (b ∷ bs) [] = none
write_all_blocking (b ∷ bs) (wrote zero ∷ as') = some (err eio, [])
write_all_blocking (b ∷ bs) (wrote (suc n) ∷ as') =
    after (b ∷ take n bs) (write_all_blocking (drop n bs) as')
write_all_blocking (b ∷ bs) (blocked polls ∷ as') =
    once_waited (wait_writable polls) (write_all_blocking (b ∷ bs) as')
write_all_blocking (b ∷ bs) (failed interrupted ∷ as') = write_all_blocking (b ∷ bs) as'
write_all_blocking (b ∷ bs) (failed e ∷ as') = some (err e, [])
