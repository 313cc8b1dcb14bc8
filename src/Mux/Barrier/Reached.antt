-- ===== src/Mux/Barrier/Reached.antt =====
-- What has been queued when `Flow::barrier` ends.
use capsudo_rs.Base.{
  ℕ, ◌+◌, ◌≤◌, ◌≡◌, ◌==◌, refl, Bool, true, false, ◌&&◌, List, [], ◌∷◌, Option, none, some,
  if◌then◌else◌, All, arith, Bool-cases, Option-cases, ◌⊎◌, inl, inr, subst, ap, ◌∙◌,
}
use capsudo_rs.Base.Assoc.{get}
use capsudo_rs.Mux.Stream.{Progress}
use capsudo_rs.Mux.Flow.{Flow}
use capsudo_rs.Mux.Barrier.{
  View, add_stream, collect, streams, target, reached, is_in, wake, wait_for, then_wait,
  wait_for_all, barrier, IsLater, IsHistory,
}

IsLater-refl : (v : View) → IsLater v v
IsLater-refl v = ((λ t r. r), (λ c. omega arith))

IsLater-trans : (u v w : View) → IsLater u v → IsLater v w → IsLater u w
IsLater-trans u v w (r, n) (r', n') = ((λ t h. r' t (r t h)), (λ c. omega (arith, n c, n' c)))

some_inj : {A : Type 0} (x y : A) → some x ≡ some y → x ≡ y
some_inj x y e = cc

if_cases :
    (b : Bool) (x y : View × List View) (rest : Option (View × List View))
    → (if b then some x else rest) ≡ some y
    → ((b ≡ true) × (x ≡ y)) ⊎ (rest ≡ some y)
if_cases true x y rest e = inl (refl, some_inj x y e)
if_cases false x y rest e = inr e

then_wait-some :
    (x : Option (View × List View)) (next : View → List View → Option (View × List View))
    (y : View × List View)
    → then_wait x next ≡ some y
    → (g : View) × (later : List View) × (x ≡ some (g, later)) × (next g later ≡ some y)
then_wait-some none next y e = absurd (ground arith)
then_wait-some (some (g, later)) next y e = (g, later, refl, e)

abbrev Waited : ℕ × ℕ → View → View × List View → Type 0
Waited t v x = (reached t x.0.flow ≡ true) × IsLater v x.0 × IsHistory x.0 x.1

both : (a b : Bool) → (a && b) ≡ true → b ≡ true
both a b e = ground arith

wake-reached :
    (t : ℕ × ℕ) (v : View) (views : List View) (y : View × List View)
    → IsHistory v views
    → wake t views ≡ some y
    → Waited t v y
unfolding wake
wake-reached t v [] y h e = absurd (ground arith)
wake-reached t v (g ∷ views) y (l, h) e =
    elim (if_cases (is_in t.0 g.notified && reached t g.flow) (g, views) y (wake t views) e) [
      | inl (now, same) ↦ subst (Waited t v) same (both _ _ now, l, h)
      | inr waits ↦
          let (now, later, history) = wake-reached t g views y h waits in
          (now, IsLater-trans v g y.0 l later, history)
    ]

wait_for-reached :
    (t : ℕ × ℕ) (v : View) (views : List View) (y : View × List View)
    → IsHistory v views
    → wait_for t v views ≡ some y
    → Waited t v y
unfolding wait_for
wait_for-reached t v views y h e =
    elim (if_cases (reached t v.flow) (v, views) y (wake t views) e) [
      | inl (now, same) ↦ subst (Waited t v) same (now, IsLater-refl v, h)
      | inr waits ↦ wake-reached t v views y h waits
    ]

-- What has queued more has queued less.
reached_less : (c m n : ℕ) (f : Flow) → m ≤ n → reached (c, n) f ≡ true → reached (c, m) f ≡ true
unfolding reached
reached_less c m n f h r = ground arith

All-later :
    (v w : View) (g : Flow) (cs : List ℕ)
    → IsLater v w
    → All (λ c. reached (c, target c w) g ≡ true) cs
    → All (λ c. reached (c, target c v) g ≡ true) cs
All-later v w g [] h all = tt
All-later v w g (c ∷ cs) h (r, all) =
    (reached_less c (target c v) (target c w) g (h.1 c) r, All-later v w g cs h all)

wait_for_all-reached :
    (cs : List ℕ) (v : View) (views : List View) (y : View × List View)
    → IsHistory v views
    → wait_for_all cs v views ≡ some y
    → All (λ c. reached (c, target c v) y.0.flow ≡ true) cs × IsLater v y.0
unfolding wait_for_all
wait_for_all-reached [] v views y h e =
    (tt, subst (λ x. IsLater v x.0) (some_inj (v, views) y e) (IsLater-refl v))
wait_for_all-reached (c ∷ cs) v views y h e =
    let t : ℕ × ℕ = (c, target c v) in
    let (g, later, waited, rest) = then_wait-some (wait_for t v views) (wait_for_all cs) y e in
    let (now, from_v, history) = wait_for-reached t v views (g, later) h waited in
    let (all, from_g) = wait_for_all-reached cs g later y history rest in
    ((from_g.0 t now, All-later v g y.0.flow cs from_v all), IsLater-trans v g y.0 from_v from_g)

-- A stream that is in the map and reads a socket of the multiplexer's own is collected.
All-rest :
    (P : ℕ → Type 0) (c : ℕ) (o : Option Progress) (cs : List ℕ)
    → All P (add_stream c o cs)
    → All P cs
All-rest P c none cs all = all
All-rest P c (some p) cs all = elim (Option-cases p.socket) [
  | inl no_socket ↦ subst (λ x. All P (elim x [ none ↦ cs | some s ↦ c ∷ cs ])) no_socket all
  | inr (socket, own) ↦ (subst (λ x. All P (elim x [ none ↦ cs | some s ↦ c ∷ cs ])) own all).1
]

collect-front :
    (id cell : ℕ) (m : List (ℕ × ℕ)) (cells : List (ℕ × Progress)) (p : Progress) (socket : ℕ)
    → get cell cells ≡ some p
    → p.socket ≡ some socket
    → collect ((id, cell) ∷ m) cells ≡ cell ∷ collect m cells
collect-front id cell m cells p socket e e' = rw (e, e') refl

All-collect :
    (P : ℕ → Type 0) (id cell socket : ℕ) (p : Progress) (m : List (ℕ × ℕ))
    (cells : List (ℕ × Progress))
    → All P (collect m cells)
    → get id m ≡ some cell
    → get cell cells ≡ some p
    → p.socket ≡ some socket
    → P cell
unfolding get
All-collect P id cell socket p [] cells all e e' e'' = absurd (ground arith)
All-collect P id cell socket p ((j, d) ∷ m) cells all e e' e'' = elim (Bool-cases (j == id)) [
  | inl same ↦
      let here : d ≡ cell = ground arith in
      let front : collect ((j, d) ∷ m) cells ≡ cell ∷ collect m cells =
        collect-front j d m cells p socket (ap (λ x. get x cells) here ∙ e') e''
        ∙ ap (λ x. x ∷ collect m cells) here in
      (subst (All P) front all).0
  | inr other ↦
      All-collect P id cell socket p m cells (All-rest P d (get d cells) (collect m cells) all)
        (ground arith) e' e''
]

sent_all :
    (c n : ℕ) (f : Flow) (q : Progress)
    → reached (c, n) f ≡ true
    → get c f.cells ≡ some q
    → (f.closed ≡ true) ⊎ ((q.done ≡ true) ⊎ (n ≤ q.sent))
unfolding reached
sent_all c n f q r e = elim (Bool-cases f.closed) [
  | inl closed ↦ inl closed
  | inr live ↦ elim (Bool-cases q.done) [
    | inl done ↦ inr (inl done)
    | inr going ↦ inr (inr (ground arith))
  ]
]

target-socket :
    (c : ℕ) (v : View) (p : Progress) (socket : ℕ)
    → get c v.flow.cells ≡ some p
    → p.socket ≡ some socket
    → target c v ≡ p.taken + v.unread socket
unfolding target
target-socket c v p socket e e' = rw (e, e') refl

-- When a barrier ends, every stream that was in the map and read a socket of the multiplexer's own
-- when it began has queued all that had been taken from that socket and all that was unread in it
-- then, unless the stream has ended or the transport has closed. The state changes only forward
-- while the barrier waits.
pub barrier-reached :
    (v : View) (views : List View) (g : View) (later : List View) (id cell socket : ℕ)
    (p q : Progress)
    → IsHistory v views
    → barrier v views ≡ some (g, later)
    → get id v.flow.progress ≡ some cell
    → get cell v.flow.cells ≡ some p
    → p.socket ≡ some socket
    → get cell g.flow.cells ≡ some q
    → (g.flow.closed ≡ true) ⊎ ((q.done ≡ true) ⊎ (p.taken + v.unread socket ≤ q.sent))
unfolding barrier streams
barrier-reached v views g later id cell socket p q h e there kept own now =
    let all = (wait_for_all-reached (streams v.flow) v views (g, later) h e).0 in
    let far =
      All-collect (λ c. reached (c, target c v) g.flow ≡ true) id cell socket p v.flow.progress
        v.flow.cells all there kept own in
    sent_all cell (p.taken + v.unread socket) g.flow q
      (subst (λ n. reached (cell, n) g.flow ≡ true) (target-socket cell v p socket kept own) far)
      now
