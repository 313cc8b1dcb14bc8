-- ===== src/Mux/Flow.antt =====
-- `Flow`: what each end said about windowing, and how far each stream that this end sends on has
-- got. A stream's `Progress` is shared by the map and by its pump, so it stands in a cell of its
-- own: `progress` leads from a stream id to a cell, and a pump keeps its cell.
use capsudo_rs.Base.{
  ℕ, suc, ◌+◌, ◌-◌, ◌%◌, ◌^◌, Bool, true, false, not, ◌&&◌, ◌||◌, List, [], ◌∷◌, ◌++◌, Option, none,
  some, ltb, leb, ◌==◌, if◌then◌else◌, length, take, drop, min,
}
use capsudo_rs.Base.Assoc.{get, insert, remove, modify}
use capsudo_rs.Base.Bytes.{to_le}
use capsudo_rs.Base.Int.{pos, ◌+ℤ◌}
use capsudo_rs.Mux.Defs.{
  mux_header, pump_buf, window_version, stream_window, min_stream_frame, max_owed_streams,
}
use capsudo_rs.Mux.Frames.{decode_u32}
use capsudo_rs.Mux.Stream.{Progress, add_credit}

pub record Flow : Type 0 where
  pub window : ℕ
  pub peer_windowed : Bool
  pub peer_window : ℕ
  pub closed : Bool
  pub progress : List (ℕ × ℕ)
  pub cells : List (ℕ × Progress)
  pub next_cell : ℕ
  pub owed : List (ℕ × ℕ)
  pub owed_ready : Bool

unfoldable pub new : ℕ → Flow
new window = record {
  window = window;
  peer_windowed = false;
  peer_window = 0;
  closed = false;
  progress = [];
  cells = [];
  next_cell = 0;
  owed = [];
  owed_ready = false;
}

unfoldable pub queue_limit : Flow → ℕ
queue_limit f = f.window + mux_header + pump_buf

unfoldable pub hello : Flow → List ℕ
unfolding queue_limit
hello f = to_le 4 window_version ++ (to_le 4 f.window ++ to_le 4 (queue_limit f % 2 ^ 32))

-- The closure `field` of `take_hello`: four bytes at `at`, if the payload has them.
unfoldable pub field : ℕ → List ℕ → Option ℕ
field at payload =
    if leb (at + 4) (length payload) then decode_u32 (take 4 (drop at payload)) else none

abbrev pub or_default : Option ℕ → ℕ → ℕ
or_default none d = d
or_default (some n) d = n

-- `is_none_or(|version| version < WINDOW_VERSION)`
abbrev pub too_old : Option ℕ → Bool
too_old none = true
too_old (some version) = ltb version window_version

abbrev pub add_window : ℕ → Progress → Progress
add_window window p = record p { available = p.available +ℤ pos window }

-- The loop over `progress.values()`.
unfoldable pub widen : ℕ → List (ℕ × ℕ) → List (ℕ × Progress) → List (ℕ × Progress)
widen window [] cells = cells
widen window ((id, cell) ∷ streams) cells =
    widen window streams (modify cell (add_window window) cells)

unfoldable pub take_hello : Flow → List ℕ → Bool × Flow
unfolding widen
take_hello f payload =
    if f.peer_windowed
    then (true, f)
    else if too_old (field 0 payload)
    then (true, f)
    else (let window = or_default (field 4 payload) stream_window in
        let max_stream_frame = or_default (field 8 payload) min_stream_frame in
        if window == 0 || ltb max_stream_frame min_stream_frame then (false, f) else (
          true,
          record f {
            peer_window = window;
            cells = widen window f.progress f.cells;
            peer_windowed = true;
          },
        ))

-- A pump's hold on its stream: the stream id and its cell.
pub record Outbound : Type 0 where
  pub id : ℕ
  pub cell : ℕ

unfoldable pub open_stream : Flow → ℕ → Option ℕ → Outbound × Flow
open_stream f id socket =
    let window = if f.peer_windowed then f.peer_window else 0 in
    let progress : Progress = record {
      available = pos window;
      socket = socket;
      taken = 0;
      sent = 0;
      done = false;
    } in
    (
      record { id = id; cell = f.next_cell },
      record f {
        progress = insert id f.next_cell f.progress;
        cells = (f.next_cell, progress) ∷ f.cells;
        next_cell = suc f.next_cell;
      },
    )

unfoldable pub grant : Flow → ℕ → ℕ → Flow
grant f id bytes = elim (get id f.progress) [
  | none ↦ f
  | some cell ↦ record f { cells = modify cell (add_credit bytes) f.cells }
]

-- `u32::saturating_add`
abbrev pub saturating_add_u32 : ℕ → ℕ → ℕ
saturating_add_u32 a b = min (a + b) (2 ^ 32 - 1)

abbrev contains_key : ℕ → List (ℕ × ℕ) → Bool
contains_key id m = elim (get id m) [ none ↦ false | some n ↦ true ]

unfoldable pub owe : Flow → ℕ → ℕ → Flow
owe f id bytes =
    if leb max_owed_streams (length f.owed) && not (contains_key id f.owed) then f else record f {
      owed = insert id (saturating_add_u32 (or_default (get id f.owed) 0) bytes) f.owed;
      owed_ready = true;
    }

unfoldable pub close : Flow → Flow
close f = record f { closed = true }

abbrev mark_done : Progress → Progress
mark_done p = record p { done = true }

-- `Drop for Outbound`: the map's entry goes only if it is still this stream's.
unfoldable pub drop_outbound : Flow → Outbound → Flow
drop_outbound f o = record f {
  progress = elim (get o.id f.progress) [
    | none ↦ f.progress
    | some cell ↦ if cell == o.cell then remove o.id f.progress else f.progress
  ];
  cells = modify o.cell mark_done f.cells;
}
