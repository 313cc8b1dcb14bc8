-- ===== src/Mux/FlowLaws.antt =====
-- The handshake, grants and owed credit.
use capsudo_rs.Base.{
  ℕ, ◌+◌, ◌-◌, ◌≤◌, ◌<◌, ◌%◌, ◌^◌, ◌≡◌, refl, ap, ◌∙◌, true, false, List, [], ◌++◌, append_assoc,
  some, none, ltb, leb, ◌==◌, if◌then◌else◌, ltb→lt, eq→==, length, length-append,
  take-length-append, drop-length-append, min, arith, Bool-cases, Option-cases, inl, inr, ◌⊎◌, ◌↔◌,
}
use mathlib.Core.Option
use capsudo_rs.Base.Assoc.{get, get-modify, get-insert, length-insert, length-insert_old}
use capsudo_rs.Base.Bytes.{to_le, length-to_le, from_le-to_le}
use capsudo_rs.Mux.Defs.{max_window, window_version, min_stream_frame, max_owed_streams}
use capsudo_rs.Mux.Frames.{decode_u32}
use capsudo_rs.Mux.Stream.{add_credit}
use capsudo_rs.Mux.Flow.{
  Flow, new, queue_limit, hello, field, take_hello, widen, grant, owe, or_default, too_old,
  saturating_add_u32,
}

decode_u32-to_le : (n : ℕ) → n < 2 ^ 32 → decode_u32 (to_le 4 n) ≡ some n
unfolding decode_u32
decode_u32-to_le n h =
    rw (eq→== (length (to_le 4 n)) 4 (length-to_le 4 n), from_le-to_le 4 n (omega arith)) refl

-- A field that is there is read, whatever stands before and behind it.
field-at :
    (at n : ℕ) (front back : List ℕ)
    → n < 2 ^ 32
    → length front ≡ at
    → field at (front ++ (to_le 4 n ++ back)) ≡ some n
unfolding field
field-at at n front back h e =
    let whole = front ++ (to_le 4 n ++ back) in
    let fits : leb (at + 4) (length whole) ≡ true = ground (
      arith,
      length-append front (to_le 4 n ++ back),
      length-append (to_le 4 n) back,
      length-to_le 4 n,
    ) in
    rw
      (
        fits,
        drop-length-append at front (to_le 4 n ++ back) e,
        take-length-append 4 (to_le 4 n) back (length-to_le 4 n),
      )
      (decode_u32-to_le n h)

-- The three fields of a `Hello`, also of one that a later version has added to.
hello_version : (p : Flow) (extra : List ℕ) → field 0 (hello p ++ extra) ≡ some window_version
unfolding hello
hello_version p extra = rw append_assoc (field-at 0 window_version [] _ (omega arith) refl)

hello_window :
    (p : Flow) (extra : List ℕ) → p.window ≤ max_window → field 4 (hello p ++ extra) ≡ some p.window
unfolding hello
hello_window p extra h =
    rw (append_assoc (to_le 4 window_version), append_assoc (to_le 4 p.window))
      (field-at 4 p.window (to_le 4 window_version) (to_le 4 (queue_limit p % 2 ^ 32) ++ extra)
        (omega arith) (length-to_le 4 window_version))

hello_frame :
    (p : Flow) (extra : List ℕ)
    → p.window ≤ max_window
    → field 8 (hello p ++ extra) ≡ some (queue_limit p)
unfolding hello
hello_frame p extra h =
    let front = to_le 4 window_version ++ to_le 4 p.window in
    let last = to_le 4 (queue_limit p % 2 ^ 32) in
    let small : queue_limit p % 2 ^ 32 ≡ queue_limit p = unfold queue_limit in omega arith in
    let shape : (to_le 4 window_version ++ (to_le 4 p.window ++ last)) ++ extra
        ≡ front ++ (last ++ extra) =
      simp append_assoc in
    rw shape (
      field-at 8 (queue_limit p % 2 ^ 32) front extra (omega arith) (
        omega (
          arith,
          length-append (to_le 4 window_version) (to_le 4 p.window),
          length-to_le 4 window_version,
          length-to_le 4 p.window,
        ))
      ∙ ap some small)

-- What a first `Hello` does when it is accepted.
abbrev pub greeted : Flow → ℕ → Flow
greeted f window = record f {
  peer_window = window;
  cells = widen window f.progress f.cells;
  peer_windowed = true;
}

-- The `Hello` that any end sends is accepted by any other that has had none, also with fields of a
-- later version behind it: the peer's window is taken as it is, and every open stream is widened by
-- it. No later `Hello` then changes anything.
pub take_hello-hello :
    (f p : Flow) (extra again : List ℕ)
    → f.peer_windowed ≡ false
    → 1 ≤ p.window
    → p.window ≤ max_window
    → (take_hello f (hello p ++ extra) ≡ (true, greeted f p.window))
      × (take_hello (greeted f p.window) again ≡ (true, greeted f p.window))
unfolding take_hello
take_hello-hello f p extra again first nonzero few =
    let limit : min_stream_frame ≤ queue_limit p = unfold queue_limit in omega arith in
    (
      rw (hello_version p extra, hello_window p extra few, hello_frame p extra few, first)
          (ground arith),
      refl,
    )

-- A `Hello` ends the session exactly when it is the first, is of a version that is known, and
-- grants a window of nothing or takes no frame of the size that every sender may use.
pub take_hello_refuses :
    (f : Flow) (payload : List ℕ)
    → ((take_hello f payload).0 ≡ false) ↔ (
        (f.peer_windowed ≡ false)
        × (too_old (field 0 payload) ≡ false)
        × ((field 4 payload ≡ some 0)
            ⊎ ((n : ℕ) × (field 8 payload ≡ some n) × (n < min_stream_frame))))
unfolding take_hello
take_hello_refuses f payload = (
  λ h. elim (Option-cases (field 8 payload)) [
    | inl absent ↦ (ground arith, ground arith, inl (ground arith))
    | inr (n, given) ↦ elim (Bool-cases (ltb n min_stream_frame)) [
      | inl small ↦ (ground arith, ground arith, inr (n, given, ltb→lt n _ small))
      | inr enough ↦ (ground arith, ground arith, inl (ground arith))
    ]
  ],
  λ h. ground arith,
)

-- What each stream is owed afterwards, while there is a place for this one: its own debt has grown
-- by the bytes, up to the end of `u32`, and no other has changed.
pub get-owe :
    (f : Flow) (id other bytes : ℕ)
    → ((n : ℕ) × (get id f.owed ≡ some n)) ⊎ (length f.owed < max_owed_streams)
    → get other (owe f id bytes).owed ≡ (
        if id == other
        then some (min (or_default (get id f.owed) 0 + bytes) (2 ^ 32 - 1))
        else get other f.owed)
unfolding owe
get-owe f id other bytes h =
    ground
      (arith, get-insert id other (saturating_add_u32 (or_default (get id f.owed) 0) bytes) f.owed)

length-owe :
    (f : Flow) (id bytes : ℕ)
    → length f.owed ≤ max_owed_streams
    → length (owe f id bytes).owed ≤ max_owed_streams
unfolding owe
length-owe f id bytes h = elim (Option-cases (get id f.owed)) [
  | inl new ↦ ground (arith, length-insert id (saturating_add_u32 0 bytes) f.owed)
  | inr (n, old) ↦ ground (arith, length-insert_old id (saturating_add_u32 n bytes) n f.owed old)
]

owe-full :
    (f : Flow) (id bytes : ℕ)
    → get id f.owed ≡ none
    → max_owed_streams ≤ length f.owed
    → owe f id bytes ≡ f
unfolding owe
owe-full f id bytes e h = ground arith

-- What the stream itself is owed afterwards.
get-owe_old :
    (f : Flow) (id bytes n : ℕ)
    → get id f.owed ≡ some n
    → get id (owe f id bytes).owed ≡ some (min (n + bytes) (2 ^ 32 - 1))
get-owe_old f id bytes n e = ground (arith, get-owe f id id bytes (inl (n, e)))

get-owe_first :
    (f : Flow) (id bytes : ℕ)
    → get id f.owed ≡ none
    → length f.owed < max_owed_streams
    → get id (owe f id bytes).owed ≡ some (min bytes (2 ^ 32 - 1))
get-owe_first f id bytes e few = ground (arith, get-owe f id id bytes (inr few))

-- However many streams the peer names, at most 64 of them are owed credit at once. A stream that is
-- owed some already is never turned away: its debt grows by the bytes, up to the end of `u32`. One
-- that is owed nothing yet becomes owed the bytes while fewer than 64 are owed, and otherwise
-- nothing changes.
pub owe-bound :
    (f : Flow) (id bytes : ℕ)
    → length f.owed ≤ max_owed_streams
    → (length (owe f id bytes).owed ≤ max_owed_streams)
      × (((n : ℕ) × (get id f.owed ≡ some n)
            × (get id (owe f id bytes).owed ≡ some (min (n + bytes) (2 ^ 32 - 1))))
          ⊎ ((get id f.owed ≡ none)
              × (length f.owed < max_owed_streams)
              × (get id (owe f id bytes).owed ≡ some (min bytes (2 ^ 32 - 1))))
          ⊎ ((get id f.owed ≡ none) × (max_owed_streams ≤ length f.owed) × (owe f id bytes ≡ f)))
owe-bound f id bytes h = (
  length-owe f id bytes h,
  elim (Option-cases (get id f.owed)) [
    | inl unowed ↦ elim (Bool-cases (ltb (length f.owed) max_owed_streams)) [
      | inl few ↦ inr (inl (unowed, ground arith, get-owe_first f id bytes unowed (ground arith)))
      | inr full ↦ inr (inr (unowed, ground arith, owe-full f id bytes unowed (ground arith)))
    ]
    | inr (n, old) ↦ inl (n, old, get-owe_old f id bytes n old)
  ],
)

-- A grant reaches the stream that it names and no other, and is added to what that stream has left.
pub cells-grant :
    (f : Flow) (id bytes cell c : ℕ)
    → get id f.progress ≡ some cell
    → get c (grant f id bytes).cells
      ≡ (if cell == c then Option.map (add_credit bytes) (get c f.cells) else get c f.cells)
unfolding grant
cells-grant f id bytes cell c e = rw (e, grant) (get-modify cell c (add_credit bytes) f.cells)
