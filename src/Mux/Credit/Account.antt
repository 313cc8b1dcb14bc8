-- ===== src/Mux/Credit/Account.antt =====
-- The account of one stream's credit: at every moment the window is what the sender may still send
-- and what is on its way, queued, consumed and not granted, owed, granted and not received, or lost.
use capsudo_rs.Base.{
  ℕ, ◌+◌, ◌≤◌, ◌<◌, ◌%◌, ◌^◌, ◌≡◌, Bool, true, false, List, [], ◌∷◌, ◌++◌, some, length, arith,
  if◌then◌else◌,
}
use capsudo_rs.Base.Int.{pos, pos_part, neg_part, -ℤ_parts, saturating_add_parts, parts_apart}
use capsudo_rs.Mux.Defs.{
  mux_header, pump_buf, max_window, min_stream_frame, StreamMsg, bytes, close,
}
use capsudo_rs.Mux.Stream.{Progress, debit, add_credit, ready, Sink, consumed}
use capsudo_rs.Mux.Credit.Defs.{Link, cost, costs, queue_cost, sum, with_grant}

-- What the receiving pump holds of the window.
abbrev pub held : Sink → ℕ
held s = if s.closed then 0 else s.queued + s.ungranted

-- The queue holds data alone: the sender has not closed the stream.
abbrev pub OnlyBytes : List StreamMsg → Type 0
OnlyBytes [] = Unit {0}
OnlyBytes (bytes p ∷ q) = OnlyBytes q
OnlyBytes (close ∷ q) = ⊥

pub record Inv (l : Link) : Type 0 where
  pub some_window : 1 ≤ l.window
  pub window_fits : l.window ≤ max_window
  pub conserved :
      pos_part l.sender.available + costs l.wire + held l.sink + l.owed + sum l.grants + l.lost
      ≡ l.window + neg_part l.sender.available + l.doubled
  pub overshoot : neg_part l.sender.available < min_stream_frame
  pub counted : l.sink.closed ≡ false → l.sink.queued ≡ queue_cost l.sink.queue
  pub settled : l.sink.closed ≡ false → l.sink.queue ≡ [] → l.sink.ungranted ≡ 0
  pub only_bytes : OnlyBytes l.sink.queue
  pub doubled_once : l.sink.closed ≡ false → l.doubled ≡ 0
  pub doubled_small : l.doubled < 2 ^ 33

pub OnlyBytes-append :
    (q : List StreamMsg) (p : List ℕ) → OnlyBytes q → OnlyBytes (q ++ (bytes p ∷ []))
OnlyBytes-append [] p h = tt
OnlyBytes-append (bytes x ∷ q) p h = OnlyBytes-append q p h
OnlyBytes-append (close ∷ q) p h = absurd h

pub costs-append : (ps qs : List (List ℕ)) → costs (ps ++ qs) ≡ costs ps + costs qs
costs-append [] qs = omega arith
costs-append (p ∷ ps) qs = omega (arith, costs-append ps qs)

pub sum-append : (ms ns : List ℕ) → sum (ms ++ ns) ≡ sum ms + sum ns
sum-append [] ns = omega arith
sum-append (m ∷ ms) ns = omega (arith, sum-append ms ns)

pub queue_cost-append : (q r : List StreamMsg) → queue_cost (q ++ r) ≡ queue_cost q + queue_cost r
queue_cost-append [] r = omega arith
queue_cost-append (bytes p ∷ q) r = omega (arith, queue_cost-append q r)
queue_cost-append (close ∷ q) r = queue_cost-append q r

pub debit_parts :
    (n : ℕ) (p : Progress)
    → pos_part (debit n p).available + (neg_part p.available + (mux_header + n))
      ≡ neg_part (debit n p).available + pos_part p.available
unfolding debit
debit_parts n p = omega (arith, -ℤ_parts p.available (pos (mux_header + n)))

-- A sender that may send is in credit, so one frame takes it below zero by less than a frame.
pub debit-overshoot :
    (n : ℕ) (p : Progress)
    → ready false true p ≡ some true
    → n ≤ pump_buf
    → neg_part (debit n p).available < min_stream_frame
unfolding ready
debit-overshoot n p e small =
    ground (arith, debit_parts n p, parts_apart (debit n p).available, parts_apart p.available)

pub add_credit_parts :
    (n : ℕ) (p : Progress)
    → pos_part p.available + n < 2 ^ 63
    → pos_part (add_credit n p).available + neg_part p.available
      ≡ neg_part (add_credit n p).available + (pos_part p.available + n)
unfolding add_credit
add_credit_parts n p h = saturating_add_parts p.available n h

-- What `consumed` does to the queue's count, to the credit it holds and to the grants.
pub consumed_lem :
    (window : ℕ) (p : List ℕ) (idle : Bool) (s : Sink) (gs : List ℕ)
    → cost p ≤ s.queued
    → s.queued + s.ungranted < 2 ^ 32
    → let s' = (consumed window true (length p) idle s).1 in
      let gs' = with_grant gs (consumed window true (length p) idle s).0 in
      (s'.queued + cost p ≡ s.queued)
      × (s'.queued + s'.ungranted + sum gs' ≡ s.queued + s.ungranted + sum gs)
      × (s'.queue ≡ s.queue)
      × (s'.closed ≡ s.closed)
      × (idle ≡ true → s'.ungranted ≡ 0)
unfolding consumed
consumed_lem window p idle s gs small fits =
    ground (arith, sum-append gs ((s.ungranted + cost p) % 2 ^ 32 ∷ []))

pub held_live : (s : Sink) → s.closed ≡ false → held s ≡ s.queued + s.ungranted
held_live s e = rw e
