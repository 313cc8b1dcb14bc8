-- ===== src/Mux/Barrier.antt =====
-- `Flow::barrier`. While it waits, the pumps and the reader go on with the flow-control state: the
-- barrier sees it as it is when it begins, and then as each later view of it shows. It looks again
-- only in a view in which the stream that it waits for is notified.
use capsudo_rs.Base.{
  ℕ, ◌+◌, ◌≤◌, ◌≡◌, ◌==◌, refl, Bool, true, false, ◌||◌, ◌&&◌, List, [], ◌∷◌, Option, none, some,
  leb, if◌then◌else◌, All, arith, Bool-cases, Option-cases, ◌⊎◌, inl, inr, subst, ap, ◌∙◌,
}
use capsudo_rs.Base.Assoc.{get}
use capsudo_rs.Mux.Stream.{Progress}
use capsudo_rs.Mux.Flow.{Flow}
pub mod Ends
pub mod Reached

-- The flow-control state with the backlogs of the sockets at one moment, and the streams whose
-- `progressed` is notified then: `queued` and the end of a pump notify their own stream, `close`
-- those that are in the map.
pub record View : Type 0 where
  pub flow : Flow
  pub unread : ℕ → ℕ
  pub notified : List ℕ

-- The cell of a stream that reads a socket of the multiplexer's own.
abbrev pub add_stream : ℕ → Option Progress → List ℕ → List ℕ
add_stream cell none cs = cs
add_stream cell (some p) cs = elim p.socket [ none ↦ cs | some socket ↦ cell ∷ cs ]

abbrev pub collect : List (ℕ × ℕ) → List (ℕ × Progress) → List ℕ
collect [] cells = []
collect ((id, cell) ∷ streams) cells = add_stream cell (get cell cells) (collect streams cells)

unfoldable pub streams : Flow → List ℕ
streams f = collect f.progress f.cells

-- What a stream must have queued: what is taken from its socket and what is unread in it.
abbrev pub backlog : Option ℕ → (ℕ → ℕ) → ℕ
backlog none unread = 0
backlog (some socket) unread = unread socket

abbrev pub goal : Option Progress → (ℕ → ℕ) → ℕ
goal none unread = 0
goal (some p) unread = p.taken + backlog p.socket unread

unfoldable pub target : ℕ → View → ℕ
target cell v = goal (get cell v.flow.cells) v.unread

-- The condition of the inner loop.
abbrev is_far : ℕ → Option Progress → Bool
is_far n none = false
is_far n (some p) = p.done || leb n p.sent

unfoldable pub reached : ℕ × ℕ → Flow → Bool
reached (cell, n) f = f.closed || is_far n (get cell f.cells)

abbrev pub is_in : ℕ → List ℕ → Bool
is_in c [] = false
is_in c (d ∷ ds) = c == d || is_in c ds

-- A waiting barrier: the view in which it is woken and goes on, with those that follow; `none` while
-- it waits.
unfoldable pub wake : ℕ × ℕ → List View → Option (View × List View)
wake t [] = none
wake t (g ∷ views) =
    let rest = wake t views in
    if is_in t.0 g.notified && reached t g.flow then some (g, views) else rest

-- The inner loop.
unfoldable pub wait_for : ℕ × ℕ → View → List View → Option (View × List View)
wait_for t v views = if reached t v.flow then some (v, views) else wake t views

abbrev pub then_wait :
    Option (View × List View)
    → (View → List View → Option (View × List View))
    → Option (View × List View)
then_wait none next = none
then_wait (some (g, later)) next = next g later

-- The outer loop, which computes each target when the stream's turn has come.
unfoldable pub wait_for_all : List ℕ → View → List View → Option (View × List View)
wait_for_all [] v views = some (v, views)
wait_for_all (c ∷ cs) v views = then_wait (wait_for (c, target c v) v views) (wait_for_all cs)

unfoldable pub barrier : View → List View → Option (View × List View)
unfolding streams wait_for_all
barrier v views = wait_for_all (streams v.flow) v views

-- What was reached stays reached: streams only queue more, and neither a stream that is done nor a
-- transport that is closed comes back. What is taken from a socket and unread in it together only
-- grows.
abbrev pub IsLater : View → View → Type 0
IsLater v w =
    ((t : ℕ × ℕ) → reached t v.flow ≡ true → reached t w.flow ≡ true)
    × ((c : ℕ) → target c v ≤ target c w)

abbrev pub IsHistory : View → List View → Type 0
IsHistory v [] = Unit
IsHistory v (g ∷ views) = IsLater v g × IsHistory g views
