-- ===== src/Mux/Barrier/Ends.antt =====
-- When `Flow::barrier` ends although a stream never sends its backlog.
use capsudo_rs.Base.{
  ℕ, ◌≡◌, refl, true, ◌&&◌, arith, List, [], ◌∷◌, some, All, Bool-cases, ◌⊎◌, inl, inr, ap, ◌∙◌,
}
use capsudo_rs.Base.Assoc.{get}
use capsudo_rs.Mux.Stream.{Progress}
use capsudo_rs.Mux.Flow.{Flow}
use capsudo_rs.Mux.Barrier.{
  View, streams, target, reached, is_in, wake, wait_for, then_wait, wait_for_all, barrier,
  IsHistory, IsLater,
}

-- The pump of the stream has stopped, or the transport is closed.
abbrev pub IsOver : ℕ → Flow → Type 0
IsOver c f = (f.closed ≡ true) ⊎ ((p : Progress) × (get c f.cells ≡ some p) × (p.done ≡ true))

-- A view in which the stream is over and notified.
abbrev pub IsOverLater : ℕ → List View → Type 0
IsOverLater c [] = ⊥
IsOverLater c (g ∷ views) = (IsOver c g.flow × (is_in c g.notified ≡ true)) ⊎ IsOverLater c views

abbrev pub Ends : ℕ → View → List View → Type 0
Ends c v views = IsOver c v.flow ⊎ IsOverLater c views

-- No target holds a barrier any more.
abbrev IsFree : ℕ → Flow → Type 0
IsFree c f = (n : ℕ) → reached (c, n) f ≡ true

abbrev Frees : ℕ → View → List View → Type 0
Frees c v views = IsFree c v.flow ⊎ IsOverLater c views

IsOver-IsFree : (c : ℕ) (f : Flow) → IsOver c f → IsFree c f
unfolding reached
IsOver-IsFree c f (inl closed) n = rw closed refl
IsOver-IsFree c f (inr (p, there, done)) n = ground (arith, there, done)

Ends-Frees :
    (cs : List ℕ) (v : View) (views : List View)
    → All (λ c. Ends c v views) cs
    → All (λ c. Frees c v views) cs
Ends-Frees [] v views all = tt
Ends-Frees (c ∷ cs) v views (inl over, all) =
    (inl (IsOver-IsFree c v.flow over), Ends-Frees cs v views all)
Ends-Frees (c ∷ cs) v views (inr later, all) = (inr later, Ends-Frees cs v views all)

-- One view later.
Frees-later :
    (cs : List ℕ) (v g : View) (views : List View)
    → IsLater v g
    → All (λ c. Frees c v (g ∷ views)) cs
    → All (λ c. Frees c g views) cs
Frees-later [] v g views l all = tt
Frees-later (c ∷ cs) v g views l (inl free, all) =
    (inl (λ n. l.0 (c, n) (free n)), Frees-later cs v g views l all)
Frees-later (c ∷ cs) v g views l (inr (inl (over, woken)), all) =
    (inl (IsOver-IsFree c g.flow over), Frees-later cs v g views l all)
Frees-later (c ∷ cs) v g views l (inr (inr later), all) =
    (inr later, Frees-later cs v g views l all)

wake-Frees :
    (c n : ℕ) (cs : List ℕ) (v : View) (views : List View)
    → IsHistory v views
    → IsOverLater c views
    → All (λ d. Frees d v views) cs
    → (g : View) × (later : List View) × (wake (c, n) views ≡ some (g, later))
      × IsHistory g later
      × All (λ d. Frees d g later) cs
unfolding wake
wake-Frees c n cs v [] h k all = absurd k
wake-Frees c n cs v (g ∷ views) (l, h) (inl (over, woken)) all =
    (g, views, rw (woken, IsOver-IsFree c g.flow over n) refl, h, Frees-later cs v g views l all)
wake-Frees c n cs v (g ∷ views) (l, h) (inr k) all =
    elim (Bool-cases (is_in c g.notified && reached (c, n) g.flow)) [
      | inl now ↦ (g, views, rw now refl, h, Frees-later cs v g views l all)
      | inr far ↦
          let (u, us, e, history, rest) =
            wake-Frees c n cs g views h k (Frees-later cs v g views l all) in
          (u, us, rw far e, history, rest)
    ]

wait_for-Frees :
    (c n : ℕ) (cs : List ℕ) (v : View) (views : List View)
    → IsHistory v views
    → Frees c v views
    → All (λ d. Frees d v views) cs
    → (g : View) × (later : List View) × (wait_for (c, n) v views ≡ some (g, later))
      × IsHistory g later
      × All (λ d. Frees d g later) cs
unfolding wait_for
wait_for-Frees c n cs v views h (inl free) all = (v, views, rw (free n) refl, h, all)
wait_for-Frees c n cs v views h (inr k) all = elim (Bool-cases (reached (c, n) v.flow)) [
  | inl now ↦ (v, views, rw now refl, h, all)
  | inr far ↦
      let (u, us, e, history, rest) = wake-Frees c n cs v views h k all in
      (u, us, rw far e, history, rest)
]

wait_for_all-Frees :
    (cs : List ℕ) (v : View) (views : List View)
    → IsHistory v views
    → All (λ c. Frees c v views) cs
    → (g : View) × (later : List View) × (wait_for_all cs v views ≡ some (g, later))
unfolding wait_for_all
wait_for_all-Frees [] v views h all = (v, views, refl)
wait_for_all-Frees (c ∷ cs) v views h (k, all) =
    let (g, later, waited, history, rest) = wait_for-Frees c (target c v) cs v views h k all in
    let (u, us, e) = wait_for_all-Frees cs g later history rest in
    (u, us, ap (λ x. then_wait x (wait_for_all cs)) waited ∙ e)

-- A barrier ends if each stream that it may wait for is over when it begins, or is over in a later
-- view in which it is notified: its pump has stopped, or the transport is closed, in whatever order
-- that happens to the streams and whatever they have left to send. The state changes only forward
-- while the barrier waits.
pub barrier-Ends :
    (v : View) (views : List View)
    → IsHistory v views
    → All (λ c. Ends c v views) (streams v.flow)
    → (g : View) × (later : List View) × (barrier v views ≡ some (g, later))
unfolding barrier
barrier-Ends v views h all =
    wait_for_all-Frees (streams v.flow) v views h (Ends-Frees (streams v.flow) v views all)
