-- ===== src/Mux/Stream.antt =====
-- One stream at each of its ends: `Progress` with the pump's hold on it (`Outbound`), and the queue
-- of the receiving pump with the credit it has not granted (`QueueDepth`, `StreamSink`).
-- A `Notify` only wakes a waiter, which looks at its condition again: a wait is its condition.
use capsudo_rs.Base.{
  ℕ, ◌+◌, ◌-◌, ◌/◌, ◌%◌, ◌^◌, Bool, true, false, not, ◌&&◌, ◌||◌, List, [], Option, none, some, ltb,
  leb, ◌==◌, if◌then◌else◌, min,
}
use capsudo_rs.Base.Int.{ℤ, pos, pos_part, ◌-ℤ◌, saturating_add_i64}
use capsudo_rs.Mux.Defs.{mux_header, OutFrame, StreamMsg}

pub record Progress : Type 0 where
  pub available : ℤ  -- i64
  pub socket : Option ℕ
  pub taken : ℕ
  pub sent : ℕ
  pub done : Bool

-- `Outbound::debit`
unfoldable pub debit : ℕ → Progress → Progress
debit payload p = record p { available = p.available -ℤ pos (mux_header + payload) }

-- The body of `Flow::grant`, on the stream's own record.
unfoldable pub add_credit : ℕ → Progress → Progress
add_credit bytes p = record p { available = saturating_add_i64 p.available bytes }

-- `*available > 0`
unfoldable pub has_credit : Progress → Bool
has_credit p = ltb 0 (pos_part p.available)

-- `Outbound::ready`: `none` while it waits.
unfoldable pub ready : (closed peer_windowed : Bool) → Progress → Option Bool
unfolding has_credit
ready closed peer_windowed p =
    if closed then some false else if not peer_windowed || has_credit p then some true else none

-- `Outbound::read` that took `n` bytes, and `Outbound::queued`.
unfoldable pub read : ℕ → Progress → Progress
read n p = record p { taken = p.taken + n }

unfoldable pub queued : ℕ → Progress → Progress
queued payload p = record p { sent = p.sent + payload }

-- A stream's queue as its pump and the reader share it.
pub record Sink : Type 0 where
  pub id : ℕ
  pub queue : List StreamMsg
  pub queued : ℕ
  pub closed : Bool
  pub ungranted : ℕ

unfoldable pub open_sink : ℕ → Sink
open_sink id = record { id = id; queue = []; queued = 0; closed = false; ungranted = 0 }

-- The condition of `wait_for_room`.
unfoldable pub has_room : (cost limit : ℕ) → Sink → Bool
has_room cost limit s = s.queued == 0 || leb (s.queued + cost) limit || s.closed

-- The grant that `consumed` returns, with the pump's record behind it.
abbrev pub settle : (window : ℕ) → Bool → Sink → Option OutFrame × Sink
settle window idle s =
    if ltb s.ungranted (window / 4) && not idle
    then (none, s)
    else (some (OutFrame.window s.id (s.ungranted % 2 ^ 32)), record s { ungranted = 0 })

-- `StreamSink::consumed`
unfoldable pub consumed :
    (window : ℕ) (peer_windowed : Bool) (payload : ℕ) (idle : Bool) → Sink → Option OutFrame × Sink
consumed window peer_windowed payload idle s =
    let cost = mux_header + payload in
    let freed : Sink = record s { queued = s.queued - cost } in
    if peer_windowed
    then settle window idle (record freed { ungranted = freed.ungranted + cost })
    else (none, freed)

-- `StreamSink::abandon` with the `Drop` of the sink: the queue is gone, and what it held is granted.
unfoldable pub abandon : Bool → Sink → Option OutFrame × Sink
abandon peer_windowed s =
    let held = s.ungranted + s.queued in
    let grant = OutFrame.window s.id (min held (2 ^ 32 - 1)) in
    (if peer_windowed then some grant else none, record s { queue = []; closed = true })
