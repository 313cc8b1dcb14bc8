-- ===== src/Mux/Sockets.antt =====
-- The helpers of mux.rs on one descriptor: `closed_by_holder`, `hung_up`, `set_nonblocking` and
-- `unread`, over the results of their system calls.
use capsudo_rs.Base.{ℕ, zero, suc, Bool, false, List, [], ◌∷◌, Option, none, some}
use capsudo_rs.Base.Result.{Result, ok, err, ◌>>=◌, map_err}
use capsudo_rs.Transport.Defs.{IoError, TransportError}

-- One turn of the loop: `readable` fails, the read would block, or it returns.
pub data HolderTurn : Type 0 where
  gone blocked : HolderTurn
  returned : Result IoError ℕ → HolderTurn

-- What is left of the turns when it resolves; `none` while it waits.
unfoldable pub closed_by_holder : List HolderTurn → Option (List HolderTurn)
closed_by_holder [] = none
closed_by_holder (gone ∷ turns) = some turns
closed_by_holder (blocked ∷ turns) = closed_by_holder turns
closed_by_holder (returned (err e) ∷ turns) = some turns
closed_by_holder (returned (ok zero) ∷ turns) = some turns
closed_by_holder (returned (ok (suc n)) ∷ turns) = closed_by_holder turns

-- What `poll` reports: whether `POLLHUP` is among the events, if these are ones that are known.
unfoldable pub hung_up : Result IoError (Option Bool) → Bool
hung_up (err e) = false
hung_up (ok none) = false
hung_up (ok (some pollhup)) = pollhup

-- The flags of a descriptor with `O_NONBLOCK` added; `set` is what the second `fcntl` returns.
unfoldable pub set_nonblocking :
    {Flags : Type 0}
    → (with_nonblock : Flags → Flags) → (get : Result IoError Flags)
    → (set : Flags → Result IoError (Unit {0})) → Result TransportError (Unit {0})
set_nonblocking with_nonblock get set =
    map_err TransportError.io get >>= λ flags. map_err TransportError.io (set (with_nonblock flags))

-- A negative result of `ioctl` stands for nothing.
unfoldable pub unread : Option ℕ → ℕ
unread none = 0
unread (some n) = n
