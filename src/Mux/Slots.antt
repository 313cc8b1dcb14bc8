-- ===== src/Mux/Slots.antt =====
-- The places of streams in the count of live streams, while a frame makes new ones.
use capsudo_rs.Base.{
  ℕ, suc, ◌+◌, ◌≤◌, ◌<◌, ◌≡◌, refl, sym, ap, ◌∙◌, List, [], ◌∷◌, Option, none, some, arith, ◌==◌,
  subst, ==→eq, length, Bool-cases, inl, inr,
}
use capsudo_rs.Base.Assoc.{get, remove, modify}
use capsudo_rs.Transport.Defs.{FdDir, reads, writes, invert}
use capsudo_rs.Mux.Reader.{
  Reading, take_slot, drop_slot, start_pumps, with_socket, materialize_stream, add_end,
  materialize_all,
}

-- The slots, the newest first; each is shared by a pump at least.
abbrev pub Shared : ℕ → List (ℕ × ℕ) → Type 0
Shared next [] = Unit
Shared next ((slot, pumps) ∷ slots) = (slot < next) × (1 ≤ pumps) × Shared slot slots

-- `live` counts the slots.
pub record IsCounted (s : Reading) : Type 0 where
  pub counted : s.live ≡ length s.slots
  pub shared : Shared s.next_slot s.slots

abbrev pub SameSlots : Reading → Reading → Type 0
SameSlots s s' = (s'.live ≡ s.live) × (s'.slots ≡ s.slots) × (s'.next_slot ≡ s.next_slot)

pub SameSlots-IsCounted : (s s' : Reading) → SameSlots s s' → IsCounted s → IsCounted s'
SameSlots-IsCounted s s' (l, k, n) v = record {
  counted = l ∙ v.counted ∙ ap length (sym k);
  shared = subst (λ x. Shared x s'.slots) (sym n) (subst (Shared s.next_slot) (sym k) v.shared);
}

Shared-le : (m n : ℕ) (slots : List (ℕ × ℕ)) → m ≤ n → Shared m slots → Shared n slots
Shared-le m n [] h v = tt
Shared-le m n ((slot, pumps) ∷ slots) h v = (omega arith, v.1, v.2)

remove_absent : (k n : ℕ) (slots : List (ℕ × ℕ)) → n ≤ k → Shared n slots → remove k slots ≡ slots
unfolding remove
remove_absent k n [] h v = refl
remove_absent k n ((slot, pumps) ∷ slots) h v =
    ground (arith, remove_absent k slot slots (omega arith) v.2)

-- A slot that is there is dropped, and no other.
pub remove-Shared :
    (k n pumps : ℕ) (slots : List (ℕ × ℕ))
    → Shared n slots
    → get k slots ≡ some pumps
    → (length (remove k slots) + 1 ≡ length slots) × Shared n (remove k slots)
unfolding remove get
remove-Shared k n pumps [] v e = absurd (ground arith)
remove-Shared k n pumps ((slot, p) ∷ slots) v e = elim (Bool-cases (slot == k)) [
  | inl same ↦
      let at_k : slot ≡ k = ==→eq slot k same in
      rw (same, remove_absent k slot slots (omega arith) v.2)
        (omega arith, Shared-le slot n slots (omega arith) v.2)
  | inr other ↦
      let (len, kept) = remove-Shared k slot pumps slots v.2 (ground arith) in
      rw other (omega (arith, len), (v.0, v.1, kept))
]

pub modify-Shared :
    (k n : ℕ) (f : ℕ → ℕ) (slots : List (ℕ × ℕ))
    → ((p : ℕ) → get k slots ≡ some p → 1 ≤ f p)
    → Shared n slots
    → (length (modify k f slots) ≡ length slots) × Shared n (modify k f slots)
unfolding modify get
modify-Shared k n f [] h v = (refl, tt)
modify-Shared k n f ((slot, p) ∷ slots) h v = elim (Bool-cases (slot == k)) [
  | inl same ↦ rw same (refl, (v.0, h p (rw same refl), v.2))
  | inr other ↦
      let (len, kept) = modify-Shared k slot f slots (λ q e. h q (rw other e)) v.2 in
      rw other (ap suc len, (v.0, v.1, kept))
]

start_pumps-slots :
    (slot id : ℕ) (dir : FdDir) (ours : ℕ) (s : Reading) (m : List (ℕ × ℕ))
    → s.slots ≡ (slot, 0) ∷ m
    → (pumps : ℕ) × (1 ≤ pumps)
      × ((start_pumps slot id dir ours s).slots ≡ (slot, pumps) ∷ m)
      × ((start_pumps slot id dir ours s).live ≡ s.live)
      × ((start_pumps slot id dir ours s).next_slot ≡ s.next_slot)
unfolding start_pumps modify reads writes
start_pumps-slots slot id FdDir.read ours s m e = (1, omega arith, ground arith, refl, refl)
start_pumps-slots slot id FdDir.write ours s m e = (1, omega arith, ground arith, refl, refl)
start_pumps-slots slot id FdDir.read_write ours s m e = (2, omega arith, ground arith, refl, refl)

drop_slot-IsCounted :
    (slot : ℕ) (s s' : Reading)
    → IsCounted s
    → s'.live ≡ s.live + 1
    → s'.slots ≡ (slot, 0) ∷ s.slots
    → s'.next_slot ≡ s.next_slot + 1
    → slot ≡ s.next_slot
    → IsCounted (drop_slot slot s') × ((drop_slot slot s').live ≡ s.live)
unfolding drop_slot remove
drop_slot-IsCounted slot s s' v l k n e =
    let gone : remove slot s'.slots ≡ s.slots =
      rw (k, remove_absent slot s.next_slot s.slots (omega arith) v.shared) (ground arith) in
    (
      record {
        counted = omega (arith, ap length gone, v.counted);
        shared =
            rw (gone, n) (Shared-le s.next_slot (s.next_slot + 1) s.slots (omega arith) v.shared);
      },
      omega arith,
    )

with_socket-IsCounted :
    (sockets : List (Option (ℕ × ℕ))) (slot id : ℕ) (dir : FdDir) (s s' : Reading)
    → IsCounted s
    → s'.live ≡ s.live + 1
    → s'.slots ≡ (slot, 0) ∷ s.slots
    → s'.next_slot ≡ s.next_slot + 1
    → slot ≡ s.next_slot
    → IsCounted (with_socket sockets slot id dir s').1
      × ((with_socket sockets slot id dir s').1.live ≤ s.live + 1)
with_socket-IsCounted [] slot id dir s s' v l k n e =
    let (kept, same) = drop_slot-IsCounted slot s s' v l k n e in (kept, omega arith)
with_socket-IsCounted (none ∷ rest) slot id dir s s' v l k n e =
    let (kept, same) = drop_slot-IsCounted slot s (record s' { sockets = rest }) v l k n e in
    (kept, omega arith)
with_socket-IsCounted (some (theirs, ours) ∷ rest) slot id dir s s' v l k n e =
    let (pumps, some_pump, slots, live, next) =
      start_pumps-slots slot id dir ours (record s' { sockets = rest }) s.slots k in
    (
      record {
        counted = omega (arith, ap length slots, v.counted);
        shared =
            subst
              (λ x. Shared x (start_pumps slot id dir ours (record s' { sockets = rest })).slots)
              (sym (next ∙ n))
              (subst (Shared (s.next_slot + 1)) (sym slots) (
                omega arith,
                some_pump,
                Shared-le s.next_slot slot s.slots (omega arith) v.shared,
              ));
      },
      omega arith,
    )

materialize_stream-IsCounted :
    (id : ℕ) (dir : FdDir) (s : Reading)
    → IsCounted s
    → IsCounted (materialize_stream id dir s).1
      × ((materialize_stream id dir s).1.live ≤ s.live + 1)
unfolding materialize_stream
materialize_stream-IsCounted id dir s v =
    with_socket-IsCounted s.sockets s.next_slot id dir s (take_slot s).1 v refl refl refl refl

-- The pair of a result and a state, taken apart.
add_end-IsCounted :
    (p : Option ℕ × Reading) (rest : Reading → Option (List ℕ) × Reading) (n : ℕ)
    → IsCounted p.1
    → ((t : Reading) → IsCounted t → IsCounted (rest t).1 × ((rest t).1.live ≤ t.live + n))
    → IsCounted (add_end p rest).1 × ((add_end p rest).1.live ≤ p.1.live + n)
add_end-IsCounted (none, s) rest n v h = (v, omega arith)
add_end-IsCounted (some fd, s) rest n v h = h s v

-- Each stream of a frame takes at most one place.
pub materialize_all-IsCounted :
    (specs : List (ℕ × FdDir)) (s : Reading)
    → IsCounted s
    → IsCounted (materialize_all specs s).1
      × ((materialize_all specs s).1.live ≤ s.live + length specs)
unfolding materialize_all
materialize_all-IsCounted [] s v = (v, omega arith)
materialize_all-IsCounted ((id, dir) ∷ specs) s v =
    let (kept, one) = materialize_stream-IsCounted id (invert dir) s v in
    let (all_kept, few) =
      add_end-IsCounted (materialize_stream id (invert dir) s) (materialize_all specs)
        (length specs) kept (λ t w. materialize_all-IsCounted specs t w) in
    (all_kept, omega arith)
