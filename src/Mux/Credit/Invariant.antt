-- ===== src/Mux/Credit/Invariant.antt =====
-- Every step of a stream keeps the account of its credit.
use capsudo_rs.Base.{
  ℕ, ◌+◌, ◌-◌, ◌≤◌, ◌^◌, ◌≡◌, refl, sym, ap, subst, ◌∙◌, true, false, List, [], ◌∷◌, ◌++◌, some,
  length, arith, min,
}
use capsudo_rs.Base.Int.{parts_apart}
use capsudo_rs.Mux.Defs.{pump_buf, max_window, StreamMsg, bytes}
use capsudo_rs.Mux.Stream.{debit, add_credit, ready, open_sink, consumed, abandon}
use capsudo_rs.Mux.Credit.Defs.{
  Link, cost, costs, queue_cost, sum, is_empty, with_grant, arrive, taken, Step, send, deliver,
  consume, give_up, owing, discard, forget, race, race_forgotten, repay, credit, start, Reach, here,
  next, meanwhile,
}
use capsudo_rs.Mux.Credit.Account.{
  OnlyBytes, Inv, OnlyBytes-append, sum-append, costs-append, queue_cost-append, debit_parts,
  debit-overshoot, add_credit_parts, consumed_lem, held, held_live,
}

start-Inv : (window id : ℕ) → 1 ≤ window → window ≤ max_window → Inv (start window id)
unfolding start open_sink
start-Inv window id nonzero few = record {
  some_window = nonzero;
  window_fits = few;
  conserved = omega arith;
  overshoot = omega arith;
  counted = λ e. refl;
  settled = λ e q. refl;
  only_bytes = tt;
  doubled_once = λ e. refl;
  doubled_small = omega arith;
}

send-Inv :
    {l : Link} (p : List ℕ)
    → ready false true l.sender ≡ some true
    → length p ≤ pump_buf
    → Inv l
    → Inv (record l { sender = debit (length p) l.sender; wire = l.wire ++ (p ∷ []) })
send-Inv {l} p e small v = record {
  some_window = v.some_window;
  window_fits = v.window_fits;
  conserved =
      omega (arith, v.conserved, debit_parts (length p) l.sender, costs-append l.wire (p ∷ []));
  overshoot = debit-overshoot (length p) l.sender e small;
  counted = v.counted;
  settled = v.settled;
  only_bytes = v.only_bytes;
  doubled_once = v.doubled_once;
  doubled_small = v.doubled_small;
}

deliver-Inv :
    {l : Link} (p : List ℕ) (rest : List (List ℕ))
    → l.wire ≡ p ∷ rest
    → l.sink.closed ≡ false
    → Inv l
    → Inv (record l { wire = rest; sink = arrive p l.sink })
deliver-Inv {l} p rest e live v = record {
  some_window = v.some_window;
  window_fits = v.window_fits;
  conserved = ground (arith, v.conserved, ap costs e);
  overshoot = v.overshoot;
  counted = λ _. omega (arith, v.counted live, queue_cost-append l.sink.queue (bytes p ∷ []));
  settled =
      λ _ q. absurd (omega (arith, ap queue_cost q, queue_cost-append l.sink.queue (bytes p ∷ [])));
  only_bytes = OnlyBytes-append l.sink.queue p v.only_bytes;
  doubled_once = v.doubled_once;
  doubled_small = v.doubled_small;
}

consume-Inv :
    {l : Link} (p : List ℕ) (rest : List StreamMsg)
    → l.sink.queue ≡ bytes p ∷ rest
    → l.sink.closed ≡ false
    → Inv l
    → Inv (record l {
      sink = (consumed l.window true (length p) (is_empty rest) (taken rest l.sink)).1;
      grants =
          with_grant l.grants
            (consumed l.window true (length p) (is_empty rest) (taken rest l.sink)).0;
    })
consume-Inv {l} p rest e live v =
    let at_front : l.sink.queued ≡ cost p + queue_cost rest = v.counted live ∙ ap queue_cost e in
    let held_before = held_live l.sink live in
    let (freed, kept, queue, closed, idle) =
      consumed_lem l.window p (is_empty rest) (taken rest l.sink) l.grants (omega arith)
        (omega (arith, v.conserved, v.overshoot, v.window_fits, v.doubled_once live)) in
    let out = consumed l.window true (length p) (is_empty rest) (taken rest l.sink) in
    let held_after : held out.1 ≡ out.1.queued + out.1.ungranted =
      held_live out.1 (closed ∙ live) in
    let same : out.1.queued + out.1.ungranted + sum (with_grant l.grants out.0)
        ≡ l.sink.queued + l.sink.ungranted + sum l.grants =
      kept in
    record {
      some_window = v.some_window;
      window_fits = v.window_fits;
      conserved = omega (arith, v.conserved, held_before, held_after, same);
      overshoot = v.overshoot;
      counted = λ _. omega (arith, freed, ap queue_cost queue);
      settled = λ _ q. idle (ap is_empty (sym queue ∙ q));
      only_bytes = subst OnlyBytes (sym queue) (subst OnlyBytes e v.only_bytes);
      doubled_once = λ _. v.doubled_once live;
      doubled_small = v.doubled_small;
    }

give_up-Inv :
    {l : Link}
    → l.sink.closed ≡ false
    → Inv l
    → Inv (record l {
      sink = (abandon true l.sink).1;
      grants = with_grant l.grants (abandon true l.sink).0;
    })
unfolding abandon
give_up-Inv {l} live v = record {
  some_window = v.some_window;
  window_fits = v.window_fits;
  conserved = ground (
    arith,
    v.conserved,
    v.doubled_once live,
    sum-append l.grants (min (l.sink.ungranted + l.sink.queued) (2 ^ 32 - 1) ∷ []),
  );
  overshoot = v.overshoot;
  counted = λ e. cc;
  settled = λ e q. cc;
  only_bytes = tt;
  doubled_once = λ e. cc;
  doubled_small = v.doubled_small;
}

-- What is lost to the end of `u32` and what is owed are together the whole debt.
owing-Inv :
    {l : Link} (p : List ℕ) (rest : List (List ℕ))
    → l.wire ≡ p ∷ rest
    → Inv l
    → Inv (owing (cost p) (record l { wire = rest }))
owing-Inv {l} p rest e v = record {
  some_window = v.some_window;
  window_fits = v.window_fits;
  conserved = ground (arith, v.conserved, ap costs e);
  overshoot = v.overshoot;
  counted = v.counted;
  settled = v.settled;
  only_bytes = v.only_bytes;
  doubled_once = v.doubled_once;
  doubled_small = v.doubled_small;
}

forget-Inv :
    {l : Link} (p : List ℕ) (rest : List (List ℕ))
    → l.wire ≡ p ∷ rest
    → Inv l
    → Inv (record l { wire = rest; lost = l.lost + cost p })
forget-Inv {l} p rest e v = record {
  some_window = v.some_window;
  window_fits = v.window_fits;
  conserved = omega (arith, v.conserved, ap costs e);
  overshoot = v.overshoot;
  counted = v.counted;
  settled = v.settled;
  only_bytes = v.only_bytes;
  doubled_once = v.doubled_once;
  doubled_small = v.doubled_small;
}

-- A pump that fails behind a frame that is counted already.
race_forgotten-Inv :
    {l : Link} (p : List ℕ) (rest : List (List ℕ))
    → l.wire ≡ p ∷ rest
    → l.sink.closed ≡ false
    → Inv l
    → Inv (record l {
      wire = rest;
      sink = (abandon true (arrive p l.sink)).1;
      grants = with_grant l.grants (abandon true (arrive p l.sink)).0;
    })
race_forgotten-Inv p rest e live v = give_up-Inv live (deliver-Inv p rest e live v)

race-Inv :
    {l : Link} (p : List ℕ) (rest : List (List ℕ))
    → l.wire ≡ p ∷ rest
    → l.sink.closed ≡ false
    → Inv l
    → Inv (
        owing (cost p) (record l {
          wire = rest;
          sink = (abandon true (arrive p l.sink)).1;
          grants = with_grant l.grants (abandon true (arrive p l.sink)).0;
          doubled = l.doubled + cost p;
        }))
unfolding abandon
race-Inv {l} p rest e live v =
    let w = race_forgotten-Inv p rest e live v in
    record {
      some_window = v.some_window;
      window_fits = v.window_fits;
      conserved = ground (arith, w.conserved);
      overshoot = v.overshoot;
      counted = λ c. cc;
      settled = λ c q. cc;
      only_bytes = tt;
      doubled_once = λ c. cc;
      doubled_small =
          omega (arith, v.doubled_once live, v.conserved, ap costs e, v.overshoot, v.window_fits);
    }

pub meanwhile-Inv : {l : Link} (n : ℕ) → Inv l → Inv (record l { others = n })
meanwhile-Inv n v = record {
  some_window = v.some_window;
  window_fits = v.window_fits;
  conserved = v.conserved;
  overshoot = v.overshoot;
  counted = v.counted;
  settled = v.settled;
  only_bytes = v.only_bytes;
  doubled_once = v.doubled_once;
  doubled_small = v.doubled_small;
}

repay-Inv : {l : Link} → Inv l → Inv (record l { owed = 0; grants = l.grants ++ (l.owed ∷ []) })
repay-Inv {l} v = record {
  some_window = v.some_window;
  window_fits = v.window_fits;
  conserved = omega (arith, v.conserved, sum-append l.grants (l.owed ∷ []));
  overshoot = v.overshoot;
  counted = v.counted;
  settled = v.settled;
  only_bytes = v.only_bytes;
  doubled_once = v.doubled_once;
  doubled_small = v.doubled_small;
}

credit-Inv :
    {l : Link} (n : ℕ) (rest : List ℕ)
    → l.grants ≡ n ∷ rest
    → Inv l
    → Inv (record l { sender = add_credit n l.sender; grants = rest })
credit-Inv {l} n rest e v =
    let parts =
      add_credit_parts n l.sender
        (omega (arith, v.conserved, ap sum e, v.overshoot, v.window_fits, v.doubled_small)) in
    record {
      some_window = v.some_window;
      window_fits = v.window_fits;
      conserved = omega (arith, v.conserved, ap sum e, parts);
      overshoot = omega (arith, v.overshoot, parts, parts_apart (add_credit n l.sender).available);
      counted = v.counted;
      settled = v.settled;
      only_bytes = v.only_bytes;
      doubled_once = v.doubled_once;
      doubled_small = v.doubled_small;
    }

-- Every step keeps the invariant.
pub Step-Inv : {l m : Link} → Step l m → Inv l → Inv m
Step-Inv (send p e enough small) v = send-Inv p e small v
Step-Inv (deliver p rest e live room) v = deliver-Inv p rest e live v
Step-Inv (consume p rest e live) v = consume-Inv p rest e live v
Step-Inv (give_up live) v = give_up-Inv live v
Step-Inv (discard p rest e gone room) v = owing-Inv p rest e v
Step-Inv (forget p rest e gone paid full) v = forget-Inv p rest e v
Step-Inv (race p rest e live fits room) v = race-Inv p rest e live v
Step-Inv (race_forgotten p rest e live fits paid full) v = race_forgotten-Inv p rest e live v
Step-Inv (repay owing) v = repay-Inv v
Step-Inv (credit n rest e) v = credit-Inv n rest e v

-- Every unit of credit is accounted for, however the pumps, the reader and the writers take turns:
-- in any reachable state what the sender has left, what is on the channel, queued, consumed and not
-- granted, owed, granted and not received, and what `owe` has dropped are together the window,
-- beyond what the sender's last frame overdrew and what was given back twice by a pump that failed
-- between a frame's being counted and queued. While the pump lives nothing was given back twice and
-- the queue's count is the cost of what it holds. The stream is opened after both ends' `Hello`, and
-- the window is between 1 and the largest that is accepted.
pub Reach-Inv :
    {window id : ℕ} {l : Link} → 1 ≤ window → window ≤ max_window → Reach window id l → Inv l
Reach-Inv {window} {id} nonzero few here = start-Inv window id nonzero few
Reach-Inv nonzero few (next r st) = Step-Inv st (Reach-Inv nonzero few r)
Reach-Inv nonzero few (meanwhile n r) = meanwhile-Inv n (Reach-Inv nonzero few r)
