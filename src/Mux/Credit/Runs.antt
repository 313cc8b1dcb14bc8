-- ===== src/Mux/Credit/Runs.antt =====
-- One stream with a small window, and the theorems on it.
use capsudo_rs.Base.{ℕ, ◌≤◌, ◌≡◌, refl, true, false, List, [], ◌∷◌, ◌++◌, none, some, arith, ◌⊎◌}
use capsudo_rs.Base.Int.{pos, ◌-ℤ◌}
use capsudo_rs.Mux.Stream.{debit, ready, has_room, open_sink}
use capsudo_rs.Mux.Credit.Defs.{Link, send, Reach, here, next, start, cost, limit}
use capsudo_rs.Mux.Credit.Invariant.{Reach-Inv}
use capsudo_rs.Mux.Credit.Account.{Inv}
use capsudo_rs.Mux.Credit.Safety.{
  reader_never_waits, sender_is_served, window_returns, work, OthersMove, none_yet,
}

abbrev word : List ℕ
word = 1 ∷ 2 ∷ 3 ∷ []

-- After the sender's first frame.
abbrev one_sent : Link
one_sent = record (start 10 0) {
  sender = debit 3 (start 10 0).sender;
  wire = (start 10 0).wire ++ (word ∷ []);
}

one_sent-Reach : Reach 10 0 one_sent
unfolding start ready
one_sent-Reach = next here (send word refl (omega arith) (omega arith))

-- The window of 10 bytes is overdrawn by two, and the sender waits.
one_sent_waits : ready false true one_sent.sender ≡ none
unfolding start ready debit ◌-ℤ◌
one_sent_waits = refl

Reach-Inv_example : Inv one_sent
Reach-Inv_example = Reach-Inv (omega arith) (omega arith) one_sent-Reach

reader_never_waits_example : has_room (cost word) (limit one_sent) one_sent.sink ≡ true
unfolding start
reader_never_waits_example =
    reader_never_waits word [] (omega arith) (omega arith) one_sent-Reach refl

sender_is_served_example :
    (0 ≤ work one_sent) × ((ready false true one_sent.sender ≡ some true) ⊎ OthersMove one_sent)
unfolding start
sender_is_served_example =
    sender_is_served (omega arith) (omega arith) one_sent-Reach none_yet (omega arith)

window_returns_example : (start 10 0).sender.available ≡ pos 10
unfolding start open_sink
window_returns_example =
    window_returns {id = 0} (omega arith) (omega arith) here refl refl refl refl refl
