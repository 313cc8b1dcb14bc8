-- ===== src/Mux/Credit/Safety.antt =====
-- What the invariant gives: the reader never waits for a stream's pump, a waiting sender is always
-- served, and a stream that has gone quiet has its whole window again.
use capsudo_rs.Base.{
  ℕ, suc, ◌+◌, ◌*◌, ◌≤◌, ◌<◌, ◌≡◌, ◌≢◌, refl, ap, Bool, true, false, List, [], ◌∷◌, some, length,
  length-append, arith, ltb, if◌then◌else◌, Bool-cases, ◌⊎◌, inl, inr, subst, min, ◌-◌, ◌%◌, ◌^◌,
}
use capsudo_rs.Base.Int.{pos, pos_part, neg_part}
use capsudo_rs.Mux.Defs.{max_window, max_owed_streams, StreamMsg, bytes, close}
use capsudo_rs.Mux.Stream.{Progress, ready, Sink, has_room, consumed, abandon}
use capsudo_rs.Mux.Credit.Defs.{
  Link, cost, costs, sum, queue_cost, with_grant, limit, Step, send, deliver, consume, give_up,
  discard, forget, race, race_forgotten, IsRecorded, repay, credit, Reach, is_empty, taken,
}
use capsudo_rs.Mux.Credit.Account.{Inv, OnlyBytes}
use capsudo_rs.Mux.Credit.Invariant.{meanwhile-Inv, Step-Inv, Reach-Inv}

-- For a stream that is opened after both ends' `Hello`, and whose sender keeps to its window: in
-- any reachable state, whatever frame of it is next on the channel, its queue has room for it, or
-- its pump is gone, so the stream's pump does not hold up the reader, which serves every stream and
-- the control messages. The window is between 1 and the largest that is accepted.
pub reader_never_waits :
    {window id : ℕ} {l : Link} (p : List ℕ) (rest : List (List ℕ))
    → 1 ≤ window
    → window ≤ max_window
    → Reach window id l
    → l.wire ≡ p ∷ rest
    → has_room (cost p) (limit l) l.sink ≡ true
unfolding has_room
reader_never_waits {l = l} p rest nonzero few r e =
    let v = Reach-Inv nonzero few r in
    elim (Bool-cases l.sink.closed) [
      | inl gone ↦ ground arith
      | inr live ↦ ground (arith, ap costs e, v.conserved, v.overshoot, v.doubled_once live)
    ]

waits_without_credit : (p : Progress) → ready false true p ≢ some true → pos_part p.available ≡ 0
unfolding ready
waits_without_credit p h = ground arith

-- A step that is not the sender's own.
abbrev pub IsQuiet : {l m : Link} → Step l m → Type 0
IsQuiet (send p e n s) = ⊥
IsQuiet st = Unit {0}

-- The moves that bring a waiting sender nearer to credit: all but its own and a pump's failure.
abbrev pub IsServing : {l m : Link} → Step l m → Type 0
IsServing (send p e n s) = ⊥
IsServing (give_up e) = ⊥
IsServing (race p rest e live fits room) = ⊥
IsServing (race_forgotten p rest e live fits paid full) = ⊥
IsServing st = Unit {0}

abbrev pub OthersMove : Link → Type 0
OthersMove l = (m : Link) × (st : Step l m) × IsServing st

-- `owe` records the debt or drops it.
IsRecorded-dec : (l : Link) → IsRecorded l ⊎ ((l.owed ≡ 0) × (max_owed_streams ≤ l.others))
IsRecorded-dec l = elim (Bool-cases (ltb 0 l.owed)) [
  | inl owing ↦ inl (inl (ground arith))
  | inr paid ↦ elim (Bool-cases (ltb l.others max_owed_streams)) [
    | inl few ↦ inl (inr (ground arith))
    | inr full ↦ inr (ground arith, ground arith)
  ]
]

wire-OthersMove :
    (l : Link) (p : List ℕ) (rest : List (List ℕ)) → Inv l → l.wire ≡ p ∷ rest → OthersMove l
unfolding has_room
wire-OthersMove l p rest v e = elim (Bool-cases l.sink.closed) [
  | inl gone ↦ elim (IsRecorded-dec l) [
    | inl room ↦ (_, discard p rest e gone room, tt)
    | inr (paid, full) ↦ (_, forget p rest e gone paid full, tt)
  ]
  | inr live ↦
      let fits : has_room (cost p) (limit l) l.sink ≡ true =
        ground (arith, ap costs e, v.conserved, v.overshoot, v.doubled_once live) in
      (_, deliver p rest e live fits, tt)
]

queue-OthersMove :
    (l : Link) (q : List StreamMsg)
    → l.sink.queue ≡ q
    → OnlyBytes q
    → q ≢ []
    → l.sink.closed ≡ false
    → OthersMove l
queue-OthersMove l [] e only h live = absurd (h refl)
queue-OthersMove l (bytes p ∷ q) e only h live = (_, consume p q e live, tt)
queue-OthersMove l (close ∷ q) e only h live = absurd only

owed-OthersMove : (l : Link) → 0 < l.owed → OthersMove l
owed-OthersMove l h = (_, repay h, tt)

waiting-OthersMove :
    (l : Link) (ws : List (List ℕ)) (gs : List ℕ) (q : List StreamMsg)
    → l.wire ≡ ws
    → l.grants ≡ gs
    → l.sink.queue ≡ q
    → Inv l
    → l.lost < l.window
    → pos_part l.sender.available ≡ 0
    → OthersMove l
waiting-OthersMove l (p ∷ ws) gs q ew eg eq v kept poor = wire-OthersMove l p ws v ew
waiting-OthersMove l [] (n ∷ gs) q ew eg eq v kept poor = (_, credit n gs eg, tt)
waiting-OthersMove l [] [] (m ∷ q) ew eg eq v kept poor = elim (Bool-cases l.sink.closed) [
  | inl gone ↦ owed-OthersMove l (ground (arith, ap costs ew, ap sum eg, v.conserved, kept))
  | inr live ↦ queue-OthersMove l (m ∷ q) eq (subst OnlyBytes eq v.only_bytes) (λ h. cc) live
]
waiting-OthersMove l [] [] [] ew eg eq v kept poor = elim (Bool-cases l.sink.closed) [
  | inl gone ↦ owed-OthersMove l (ground (arith, ap costs ew, ap sum eg, v.conserved, kept))
  | inr live ↦ owed-OthersMove l (
      ground (
        arith,
        ap costs ew,
        ap sum eg,
        v.conserved,
        kept,
        v.settled live eq,
        v.counted live,
        ap queue_cost eq,
      ))
]

-- How many moves the other parties have left.
abbrev pub work : Link → ℕ
work l =
    4 * length l.wire
    + 3 * length l.sink.queue
    + (if ltb 0 l.owed then 2 else 0)
    + length l.grants
    + (if l.sink.closed then 0 else 2)

consumed-work :
    (window : ℕ) (p : List ℕ) (idle : Bool) (s : Sink) (gs : List ℕ)
    → let out = consumed window true (length p) idle s in
      (length (with_grant gs out.0) ≤ length gs + 1)
      × (out.1.queue ≡ s.queue)
      × (out.1.closed ≡ s.closed)
unfolding consumed
consumed-work window p idle s gs =
    ground (arith, length-append gs ((s.ungranted + cost p) % 2 ^ 32 ∷ []))

-- What a pump that fails behind the frame `p` gives back.
abbrev back_with : List ℕ → Sink → ℕ
back_with p s = min (s.ungranted + (s.queued + cost p)) (2 ^ 32 - 1)

-- Each of their moves uses one up.
Step-work : {l m : Link} (st : Step l m) → IsQuiet st → work m < work l
unfolding abandon
Step-work (send p e n s) h = absurd h
Step-work {l} (deliver p rest e live room) h =
    ground (arith, ap length e, length-append l.sink.queue (bytes p ∷ []))
Step-work {l} (consume p rest e live) h =
    let (few, queue, closed) =
      consumed-work l.window p (is_empty rest) (taken rest l.sink) l.grants in
    let shorter : length l.sink.queue ≡ suc (length rest) = ap length e in
    rw (queue, closed) (omega (arith, few, shorter))
Step-work {l} (give_up live) h =
    ground
      (arith, length-append l.grants (min (l.sink.ungranted + l.sink.queued) (2 ^ 32 - 1) ∷ []))
Step-work (discard p rest e gone room) h = ground (arith, ap length e)
Step-work (forget p rest e gone paid full) h = ground (arith, ap length e)
Step-work {l} (race p rest e live fits room) h =
    ground (arith, ap length e, length-append l.grants (back_with p l.sink ∷ []))
Step-work {l} (race_forgotten p rest e live fits paid full) h =
    ground (arith, ap length e, length-append l.grants (back_with p l.sink ∷ []))
Step-work {l} (repay owing) h = ground (arith, length-append l.grants (l.owed ∷ []))
Step-work (credit n rest e) h = ground (arith, ap length e)

-- `n` moves, none of them the sender's.
pub data QuietRun (l : Link) : ℕ → Link → Type 0 where
  none_yet : QuietRun l 0 l
  and_then :
      {n : ℕ} {m k : Link} → QuietRun l n m → (st : Step m k) → IsQuiet st → QuietRun l (suc n) k
  -- The other streams become owed, or are repaid.
  meantime :
      {n : ℕ} {m : Link} (others : ℕ) → QuietRun l n m → QuietRun l n (record m { others = others })

QuietRun-work : {l m : Link} {n : ℕ} → QuietRun l n m → n + work m ≤ work l
QuietRun-work none_yet = omega arith
QuietRun-work (and_then r st h) = omega (arith, QuietRun-work r, Step-work st h)
QuietRun-work (meantime others r) = QuietRun-work r

QuietRun-Inv : {l m : Link} {n : ℕ} → QuietRun l n m → Inv l → Inv m
QuietRun-Inv none_yet v = v
QuietRun-Inv (and_then r st h) v = Step-Inv st (QuietRun-Inv r v)
QuietRun-Inv (meantime others r) v = meanwhile-Inv others (QuietRun-Inv r v)

ready-dec : (p : Progress) → (ready false true p ≡ some true) ⊎ (ready false true p ≢ some true)
unfolding ready
ready-dec p = elim (Bool-cases (ltb 0 (pos_part p.available))) [
  | inl rich ↦ inl (ground arith)
  | inr poor ↦ inr (λ e. ground arith)
]

-- A sender does not wait forever for the others: from any reachable state of a stream that is opened
-- after both ends' `Hello`, while the sender queues nothing, they can make at most `work l` moves,
-- and in every state on the way the sender has credit, or one of them can move other than by a
-- pump's failure, unless `owe` has dropped as much of the stream's credit as its window, which it
-- does only while 64 other streams are owed or at the end of `u32`. The window is between 1 and the
-- largest that is accepted.
pub sender_is_served :
    {window id n : ℕ} {l m : Link}
    → 1 ≤ window
    → window ≤ max_window
    → Reach window id l
    → QuietRun l n m
    → m.lost < m.window
    → (n ≤ work l) × ((ready false true m.sender ≡ some true) ⊎ OthersMove m)
sender_is_served {m = m} nonzero few r run kept =
    let v = QuietRun-Inv run (Reach-Inv nonzero few r) in
    let bound = QuietRun-work run in
    elim (ready-dec m.sender) [
      | inl go ↦ (omega arith, inl go)
      | inr wait ↦ (
        omega arith,
        inr (
            waiting-OthersMove m m.wire m.grants m.sink.queue refl refl refl v kept
              (waits_without_credit m.sender wait)),
      )
    ]

-- No credit leaks but by `owe`: in any reachable state of a stream that is opened after both ends'
-- `Hello`, in which nothing is on the channel, queued, owed or granted and not received, and `owe`
-- has dropped nothing of it, the sender has its whole window, and what was given back twice by a
-- pump that failed between a frame's being counted and queued. The window is between 1 and the
-- largest that is accepted.
pub window_returns :
    {window id : ℕ} {l : Link}
    → 1 ≤ window
    → window ≤ max_window
    → Reach window id l
    → l.wire ≡ []
    → l.sink.queue ≡ []
    → l.owed ≡ 0
    → l.grants ≡ []
    → l.lost ≡ 0
    → l.sender.available ≡ pos (l.window + l.doubled)
window_returns {l = l} nonzero few r ew eq eo eg el =
    let v = Reach-Inv nonzero few r in
    let total : pos_part l.sender.available ≡ l.window + l.doubled + neg_part l.sender.available =
      elim (Bool-cases l.sink.closed) [
        | inl gone ↦ ground (arith, ap costs ew, ap sum eg, v.conserved)
        | inr live ↦ ground (
          arith,
          ap costs ew,
          ap sum eg,
          v.conserved,
          v.settled live eq,
          v.counted live,
          ap queue_cost eq,
        )
      ] in
    ground (arith, total, v.some_window)
