-- ===== src/Mux/Delivery.antt =====
-- From the queue of one end to the session of the other: `writer_task`, the byte channel, and
-- `reader_task`.
use capsudo_rs.Base.{
  ℕ, ◌≤◌, ◌<◌, ◌≡◌, refl, sym, ap, ◌∙◌, true, false, List, [], ◌∷◌, ◌++◌, map, append-nil,
  append_assoc, Option, none, some, arith, ◌%◌, ◌^◌, length, length-append, All, All-append,
}
use capsudo_rs.Base.Bytes.{to_le, length-to_le, IsU32}
use capsudo_rs.Proto.Defs.{Message, max_payload}
use capsudo_rs.Proto.Message
use capsudo_rs.Transport.Defs.{unexpected_eof}
use capsudo_rs.Transport.Bytes.{Reader, Writer}
use capsudo_rs.Mux.Defs.{
  kind_control, kind_stream_close, kind_hello, kind_window, max_window, window_version, CtrlItem,
}
use capsudo_rs.Mux.Frames.{Frame, decode_u32}
use capsudo_rs.Mux.Wire.{decode_message-encode}
use capsudo_rs.Mux.Flow
use capsudo_rs.Mux.Flow.{Flow, hello, take_hello, queue_limit}
use capsudo_rs.Mux.FlowLaws.{greeted, take_hello-hello}
use capsudo_rs.Mux.Writer.{waiting, writer_task}
use capsudo_rs.Mux.Reader.{
  Reading, start_reading, on_frame, goes, window_arm, close_arm, left, leave, reader_loop,
  hello_arm,
}
use capsudo_rs.Mux.Sent.{
  Item, message, grants, grant_of, closes, turn, IsItem, messages, frame_of, grant_frames,
  item_frames, frames, wire, written-task,
}
use capsudo_rs.Mux.Reads.{Fits, Goes, Goes-append, length-wire, reader_loop-Goes}

-- What a frame of an item does to a reader whose session is there: it goes on, with what it hands up.
abbrev pub Hands : List CtrlItem → Reading → Reading → Type 0
Hands items s t =
    (t.ctrl ≡ s.ctrl ++ items)
    × (t.ctrl_open ≡ s.ctrl_open)
    × (t.flow.peer_windowed ≡ s.flow.peer_windowed)
    × (t.flow.peer_window ≡ s.flow.peer_window)
    × (t.live ≡ s.live)
    × (t.sockets ≡ s.sockets)

window_arm-Hands : (id : ℕ) (o : Option ℕ) (s : Reading) → Hands [] s (window_arm id o s)
unfolding Flow.grant
window_arm-Hands id none s = (sym (append-nil s.ctrl), refl, refl, refl, refl, refl)
window_arm-Hands id (some n) s =
    (sym (append-nil s.ctrl), refl, ground arith, ground arith, refl, refl)

close_arm-Hands : (id : ℕ) (s : Reading) → Hands [] s (close_arm id s)
unfolding close_arm
close_arm-Hands id s = (
  ground (arith, append-nil s.ctrl),
  ground arith,
  ground arith,
  ground arith,
  ground arith,
  ground arith,
)

grant_frame-Hands :
    (id n : ℕ) (s : Reading)
    → (t : Reading) × (on_frame (frame_of kind_window id (to_le 4 n)) s ≡ goes t) × Hands [] s t
unfolding on_frame
grant_frame-Hands id n s =
    (window_arm id (decode_u32 (to_le 4 n)) s, refl, window_arm-Hands id (decode_u32 (to_le 4 n)) s)

close_frame-Hands :
    (id : ℕ) (s : Reading)
    → (t : Reading) × (on_frame (frame_of kind_stream_close id []) s ≡ goes t) × Hands [] s t
unfolding on_frame
close_frame-Hands id s = (close_arm id s, refl, close_arm-Hands id s)

control_frame-Hands :
    (m : Message) (s : Reading)
    → length m.payload ≤ max_payload
    → s.ctrl_open ≡ true
    → (t : Reading) × (on_frame (frame_of kind_control 0 (Message.encode m)) s ≡ goes t)
      × Hands (CtrlItem.control m ∷ []) s t
unfolding on_frame
control_frame-Hands m s small there = (
  record s { ctrl = s.ctrl ++ (CtrlItem.control m ∷ []) },
  rw (decode_message-encode m small, there) refl,
  (refl, refl, refl, refl, refl, refl),
)

grants-Hands :
    (debts : List (ℕ × ℕ)) (s : Reading)
    → (t : Reading) × Goes (grant_frames debts) s t × Hands [] s t
grants-Hands [] s = (s, refl, (sym (append-nil s.ctrl), refl, refl, refl, refl, refl))
grants-Hands ((id, n) ∷ debts) s =
    let (s1, went, (c, o, p, q, l, k)) = grant_frame-Hands id n s in
    let (t, more, (c', o', p', q', l', k')) = grants-Hands debts s1 in
    (t, (s1, went, more), (c' ∙ append-nil s1.ctrl ∙ c, o' ∙ o, p' ∙ p, q' ∙ q, l' ∙ l, k' ∙ k))

abbrev pub handed : Item → List CtrlItem
handed (message m) = CtrlItem.control m ∷ []
handed item = []

item-Hands :
    (item : Item) (s : Reading)
    → IsItem item
    → s.ctrl_open ≡ true
    → (t : Reading) × Goes (item_frames item) s t × Hands (handed item) s t
item-Hands (message m) s h there =
    let (t, went, hands) = control_frame-Hands m s h there in (t, (t, went, refl), hands)
item-Hands (grants debts) s h there = grants-Hands debts s
item-Hands (grant_of id n) s h there =
    let (t, went, hands) = grant_frame-Hands id n s in (t, (t, went, refl), hands)
item-Hands (closes id n) s h there =
    let (t, went, hands) = close_frame-Hands id s in (t, (t, went, refl), hands)

messages-handed :
    (item : Item) (items : List Item)
    → map CtrlItem.control (messages (item ∷ items))
      ≡ handed item ++ map CtrlItem.control (messages items)
messages-handed (message m) items = refl
messages-handed item items = refl

pub items-Hands :
    (items : List Item) (s : Reading)
    → All IsItem items
    → s.ctrl_open ≡ true
    → (t : Reading) × Goes (frames items) s t × Hands (map CtrlItem.control (messages items)) s t
items-Hands [] s h there = (s, refl, (sym (append-nil s.ctrl), refl, refl, refl, refl, refl))
items-Hands (item ∷ items) s (h, hs) there =
    let (s1, went, (c, o, p, q, l, k)) = item-Hands item s h there in
    let (t, more, (c', o', p', q', l', k')) = items-Hands items s1 hs (o ∙ there) in
    (
      t,
      Goes-append (item_frames item) (frames items) s s1 t went more,
      (
        c'
            ∙ ap (λ x. x ++ map CtrlItem.control (messages items)) c
            ∙ append_assoc s.ctrl (handed item) (map CtrlItem.control (messages items))
            ∙ ap (λ x. s.ctrl ++ x) (sym (messages-handed item items)),
        o' ∙ o,
        p' ∙ p,
        q' ∙ q,
        l' ∙ l,
        k' ∙ k,
      ),
    )

grants-Fits : (debts : List (ℕ × ℕ)) → All (λ d. IsU32 d.0) debts → All Fits (grant_frames debts)
grants-Fits [] h = tt
grants-Fits ((id, n) ∷ debts) (h, hs) = ((h, omega (arith, length-to_le 4 n)), grants-Fits debts hs)

item-Fits : (item : Item) → IsItem item → All Fits (item_frames item)
item-Fits (message m) h = ((omega arith, omega (arith, Message.length-encode m)), tt)
item-Fits (grants debts) h = grants-Fits debts h
item-Fits (grant_of id n) h = ((h, omega (arith, length-to_le 4 n)), tt)
item-Fits (closes id n) h = ((h, omega arith), tt)

pub frames-Fits : (items : List Item) → All IsItem items → All Fits (frames items)
frames-Fits [] h = tt
frames-Fits (item ∷ items) (h, hs) =
    All-append Fits (item_frames item) (frames items) (item-Fits item h) (frames-Fits items hs)

pub length-hello : (p : Flow) → length (hello p) ≡ 12
unfolding hello
length-hello p = omega (
  arith,
  length-append (to_le 4 window_version) (to_le 4 p.window ++ to_le 4 (queue_limit p % 2 ^ 32)),
  length-append (to_le 4 p.window) (to_le 4 (queue_limit p % 2 ^ 32)),
  length-to_le 4 window_version,
  length-to_le 4 p.window,
  length-to_le 4 (queue_limit p % 2 ^ 32),
)

pub hello_frame-goes :
    (p : Flow) (s : Reading)
    → s.flow.peer_windowed ≡ false
    → 1 ≤ p.window
    → p.window ≤ max_window
    → on_frame (frame_of kind_hello 0 (hello p)) s
      ≡ goes (record s { flow = greeted s.flow p.window })
unfolding on_frame
hello_frame-goes p s first nonzero few =
    let (taken, later) = take_hello-hello s.flow p [] [] first nonzero few in
    ap (λ x. hello_arm x s) (ap (take_hello s.flow) (sym (append-nil (hello p))) ∙ taken)

-- One end's writer and the other end's reader deliver what is sent: whatever owed credit, grants and
-- closed streams go out between them, the messages that one end queues are handed to the other
-- end's session, each whole and in order, and nothing else is; and the reader has learnt the
-- sender's window. The messages are within the maximum, ids are `u32`s, the window is between 1 and
-- the largest that is accepted, no write has failed, and the channel gives the reader what was
-- written and then ends.
pub reader_loop-writer_task :
    {W R : Type 0} (writer : Writer W) (reader : Reader R) (p : Flow) (window : ℕ)
    (sockets : List (Option (ℕ × ℕ))) (items : List Item) (w w' : W) (r : R) (n : ℕ)
    → All IsItem items
    → 1 ≤ p.window
    → p.window ≤ max_window
    → writer.written w ≡ []
    → writer_task writer p (map turn items) w ≡ (waiting, w')
    → reader.content r ≡ writer.written w'
    → reader.ending r ≡ unexpected_eof
    → length (reader.content r) < n
    → (s : Reading) × (reader_loop reader n r (start_reading window sockets) ≡ left s)
      × (s.ctrl ≡ map CtrlItem.control (messages items))
      × (s.flow.peer_windowed ≡ true)
      × (s.flow.peer_window ≡ p.window)
reader_loop-writer_task writer reader p window sockets items w w' r n h nonzero few fresh wrote c e
      fuel =
    let start = start_reading window sockets in
    let fs : List Frame = frame_of kind_hello 0 (hello p) ∷ frames items in
    let bytes : reader.content r ≡ wire fs =
      c ∙ written-task writer p items w w' wrote ∙ ap (λ x. x ++ wire fs) fresh in
    let s1 : Reading = record start { flow = greeted start.flow p.window } in
    let (t, went, (ctrl, o, windowed, its, _, _)) =
      items-Hands items s1 h (unfold start_reading in refl) in
    let ran =
      reader_loop-Goes reader fs start t r n
        ((omega arith, omega (arith, length-hello p)), frames-Fits items h) bytes e
        (omega (arith, length-wire fs, ap length bytes))
        (s1, hello_frame-goes p start (unfold start_reading Flow.new in refl) nonzero few, went) in
    (
      leave t,
      ran,
      unfold leave in ctrl ∙ (unfold start_reading in refl),
      unfold leave Flow.close in windowed,
      unfold leave Flow.close in its,
    )
