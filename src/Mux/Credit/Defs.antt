-- ===== src/Mux/Credit/Defs.antt =====
-- The states of one stream, and the steps of the pumps, the reader and the writers.
use capsudo_rs.Base.{
  ℕ, ◌+◌, ◌-◌, ◌≤◌, ◌⊎◌, ◌<◌, ◌≡◌, Bool, true, false, List, [], ◌∷◌, ◌++◌, Option, none, some,
  length,
}
use capsudo_rs.Base.Int.{pos}
use capsudo_rs.Mux.Flow.{saturating_add_u32}
use capsudo_rs.Mux.Defs.{max_owed_streams, mux_header, pump_buf, OutFrame, StreamMsg, bytes, close}
use capsudo_rs.Mux.Stream.{
  Progress, debit, add_credit, ready, Sink, open_sink, has_room, consumed, abandon,
}

pub record Link : Type 0 where
  pub window : ℕ
  pub sender : Progress
  pub wire : List (List ℕ)  -- payloads of `StreamData` frames that the reader has not reached
  pub sink : Sink
  pub owed : ℕ
  pub grants : List ℕ  -- `Window` frames that the sender has not reached
  pub others : ℕ  -- how many other streams of the receiving end are owed credit
  pub lost : ℕ  -- credit that `owe` has dropped
  pub doubled : ℕ  -- credit that is given back twice

abbrev pub cost : List ℕ → ℕ
cost payload = mux_header + length payload

abbrev pub costs : List (List ℕ) → ℕ
costs [] = 0
costs (p ∷ ps) = cost p + costs ps

abbrev pub queue_cost : List StreamMsg → ℕ
queue_cost [] = 0
queue_cost (bytes p ∷ q) = cost p + queue_cost q
queue_cost (close ∷ q) = queue_cost q

abbrev pub sum : List ℕ → ℕ
sum [] = 0
sum (n ∷ ns) = n + sum ns

abbrev pub is_empty : List StreamMsg → Bool
is_empty [] = true
is_empty (m ∷ q) = false

-- The bytes of the grant that a pump sends, if it sends one.
abbrev pub with_grant : List ℕ → Option OutFrame → List ℕ
with_grant gs (some (OutFrame.window id n)) = gs ++ (n ∷ [])
with_grant gs other = gs

-- The reader's `KIND_STREAM_DATA` case on a stream with a pump.
abbrev pub arrive : List ℕ → Sink → Sink
arrive p s = record s { queue = s.queue ++ (bytes p ∷ []); queued = s.queued + cost p }

abbrev pub taken : List StreamMsg → Sink → Sink
taken rest s = record s { queue = rest }

-- The limit that `queue_limit` computes.
abbrev pub limit : Link → ℕ
limit l = l.window + mux_header + pump_buf

-- `owe`, which adds up to the end of `u32` only.
abbrev pub owing : ℕ → Link → Link
owing n l = record l {
  owed = saturating_add_u32 l.owed n;
  lost = l.lost + ((l.owed + n) - saturating_add_u32 l.owed n);
}

-- `owe` records the debt: the stream is owed some already, or there is a place for one more.
abbrev pub IsRecorded : Link → Type 0
IsRecorded l = (0 < l.owed) ⊎ (l.others < max_owed_streams)

pub data Step (l : Link) : Link → Type 0 where
  -- The sending pump is ready, reads at most one buffer, and queues a frame.
  send :
      (p : List ℕ)
      → ready false true l.sender ≡ some true
      → 1 ≤ length p
      → length p ≤ pump_buf
      → Step l (record l { sender = debit (length p) l.sender; wire = l.wire ++ (p ∷ []) })
  -- The reader finds a pump and room in its queue.
  deliver :
      (p : List ℕ) (rest : List (List ℕ))
      → l.wire ≡ p ∷ rest
      → l.sink.closed ≡ false
      → has_room (cost p) (limit l) l.sink ≡ true
      → Step l (record l { wire = rest; sink = arrive p l.sink })
  -- The receiving pump has written a frame out.
  consume :
      (p : List ℕ) (rest : List StreamMsg)
      → l.sink.queue ≡ bytes p ∷ rest
      → l.sink.closed ≡ false
      → Step l (record l {
        sink = (consumed l.window true (length p) (is_empty rest) (taken rest l.sink)).1;
        grants =
            with_grant l.grants
              (consumed l.window true (length p) (is_empty rest) (taken rest l.sink)).0;
      })
  -- The receiving pump fails, and gives its credit back.
  give_up :
      l.sink.closed ≡ false
      → Step l (record l {
        sink = (abandon true l.sink).1;
        grants = with_grant l.grants (abandon true l.sink).0;
      })
  -- The reader finds no pump, and owes the frame.
  discard :
      (p : List ℕ) (rest : List (List ℕ))
      → l.wire ≡ p ∷ rest
      → l.sink.closed ≡ true
      → IsRecorded l
      → Step l (owing (cost p) (record l { wire = rest }))
  -- The reader finds no pump, while too many other streams are owed.
  forget :
      (p : List ℕ) (rest : List (List ℕ))
      → l.wire ≡ p ∷ rest
      → l.sink.closed ≡ true
      → l.owed ≡ 0
      → max_owed_streams ≤ l.others
      → Step l (record l { wire = rest; lost = l.lost + cost p })
  -- The reader counts a frame into the queue, the pump fails and gives it back with the rest, and
  -- the reader, whose message finds no pump any more, owes it again.
  race :
      (p : List ℕ) (rest : List (List ℕ))
      → l.wire ≡ p ∷ rest
      → l.sink.closed ≡ false
      → has_room (cost p) (limit l) l.sink ≡ true
      → IsRecorded l
      → Step l (
          owing (cost p) (record l {
            wire = rest;
            sink = (abandon true (arrive p l.sink)).1;
            grants = with_grant l.grants (abandon true (arrive p l.sink)).0;
            doubled = l.doubled + cost p;
          }))
  -- The same, while too many other streams are owed.
  race_forgotten :
      (p : List ℕ) (rest : List (List ℕ))
      → l.wire ≡ p ∷ rest
      → l.sink.closed ≡ false
      → has_room (cost p) (limit l) l.sink ≡ true
      → l.owed ≡ 0
      → max_owed_streams ≤ l.others
      → Step l (record l {
        wire = rest;
        sink = (abandon true (arrive p l.sink)).1;
        grants = with_grant l.grants (abandon true (arrive p l.sink)).0;
      })
  -- The writer grants what is owed.
  repay : 0 < l.owed → Step l (record l { owed = 0; grants = l.grants ++ (l.owed ∷ []) })
  -- The sender's reader takes a grant.
  credit :
      (n : ℕ) (rest : List ℕ)
      → l.grants ≡ n ∷ rest
      → Step l (record l { sender = add_credit n l.sender; grants = rest })

-- A stream as both ends open it, after each has the other's `Hello`.
unfoldable pub start : (window id : ℕ) → Link
start window id = record {
  window = window;
  sender = record { available = pos window; socket = none; taken = 0; sent = 0; done = false };
  wire = [];
  sink = open_sink id;
  owed = 0;
  grants = [];
  others = 0;
  lost = 0;
  doubled = 0;
}

pub data Reach (window id : ℕ) : Link → Type 0 where
  here : Reach window id (start window id)
  next : {l m : Link} → Reach window id l → Step l m → Reach window id m
  -- The other streams become owed, or are repaid.
  meanwhile : {l : Link} (n : ℕ) → Reach window id l → Reach window id (record l { others = n })
