-- ===== src/Mux/Sent.antt =====
-- What `writer_task` writes for the messages, the owed credit and the grants of one end.
use capsudo_rs.Base.{
  ℕ, ◌≤◌, ◌≡◌, refl, sym, ap, ◌∙◌, List, [], ◌∷◌, ◌++◌, map, append-nil, append_assoc, length, All,
}
use capsudo_rs.Base.Result.{Result, ok, err}
use capsudo_rs.Base.Bytes.{to_le, IsU32}
use capsudo_rs.Proto.Defs.{Message, max_payload}
use capsudo_rs.Proto.Message
use capsudo_rs.Transport.Defs.{IoError}
use capsudo_rs.Transport.Bytes.{Writer}
use capsudo_rs.Mux.Defs.{kind_control, kind_stream_close, kind_hello, kind_window, OutFrame}
use capsudo_rs.Mux.Frames.{Frame, frame_header, write_frame}
use capsudo_rs.Mux.Channel.{written-write_frame, and_then_ok}
use capsudo_rs.Mux.Flow.{Flow, hello}
use capsudo_rs.Mux.Writer.{
  WriterTurn, owed, frame, WriterEnd, waiting, write_owed, write_out, unless_broken, writer_loop,
  writer_task,
}

-- What an end sends beside delegated streams and their data.
pub data Item : Type 0 where
  message : Message → Item
  grants : List (ℕ × ℕ) → Item
  grant_of closes : ℕ → ℕ → Item

abbrev pub turn : Item → WriterTurn
turn (message m) = frame (OutFrame.control (Message.encode m))
turn (grants debts) = owed debts
turn (grant_of id n) = frame (OutFrame.window id n)
turn (closes id n) = frame (OutFrame.stream_close id)

abbrev pub IsItem : Item → Type 0
IsItem (message m) = length m.payload ≤ max_payload
IsItem (grants debts) = All (λ d. IsU32 d.0) debts
IsItem (grant_of id n) = IsU32 id
IsItem (closes id n) = IsU32 id

abbrev pub messages : List Item → List Message
messages [] = []
messages (message m ∷ items) = m ∷ messages items
messages (item ∷ items) = messages items

-- The frames of an item, and the bytes of frames.
abbrev pub frame_of : ℕ → ℕ → List ℕ → Frame
frame_of kind id payload = record { kind = kind; id = id; payload = payload }

abbrev pub grant_frames : List (ℕ × ℕ) → List Frame
grant_frames [] = []
grant_frames ((id, n) ∷ debts) = frame_of kind_window id (to_le 4 n) ∷ grant_frames debts

abbrev pub item_frames : Item → List Frame
item_frames (message m) = frame_of kind_control 0 (Message.encode m) ∷ []
item_frames (grants debts) = grant_frames debts
item_frames (grant_of id n) = frame_of kind_window id (to_le 4 n) ∷ []
item_frames (closes id n) = frame_of kind_stream_close id [] ∷ []

abbrev pub frames : List Item → List Frame
frames [] = []
frames (item ∷ items) = item_frames item ++ frames items

abbrev pub frame_bytes : Frame → List ℕ
frame_bytes f = frame_header f.kind f.id f.payload ++ f.payload

abbrev pub wire : List Frame → List ℕ
wire [] = []
wire (f ∷ fs) = frame_bytes f ++ wire fs

pub wire-append : (fs gs : List Frame) → wire (fs ++ gs) ≡ wire fs ++ wire gs
wire-append [] gs = refl
wire-append (f ∷ fs) gs =
    ap (λ x. frame_bytes f ++ x) (wire-append fs gs)
    ∙ sym (append_assoc (frame_bytes f) (wire fs) (wire gs))

module _ {W : Type 0} (writer : Writer W) where
  open writer use {written}

  written-write_owed :
      (debts : List (ℕ × ℕ)) (w w' : W)
      → write_owed writer debts w ≡ (ok tt, w')
      → written w' ≡ written w ++ wire (grant_frames debts)
  unfolding write_owed
  written-write_owed [] w w' e =
      ap written (sym (ap (λ (p : Result IoError (Unit {0}) × W). p.1) e))
      ∙ sym (append-nil (written w))
  written-write_owed ((id, n) ∷ debts) w w' e =
      let (w1, first, rest) =
        and_then_ok writer (write_frame writer kind_window id (to_le 4 n) w)
          (write_owed writer debts) w' e in
      written-write_owed debts w1 w' rest
      ∙ ap (λ x. x ++ wire (grant_frames debts))
          (written-write_frame writer kind_window id (to_le 4 n) w w1 first)
      ∙ append_assoc (written w) (frame_bytes (frame_of kind_window id (to_le 4 n)))
          (wire (grant_frames debts))

  pub unless_broken-waiting :
      (p : Result IoError (Unit {0}) × W) (f : W → WriterEnd × W) (w' : W)
      → unless_broken writer p f ≡ (waiting, w')
      → (w1 : W) × (p ≡ (ok tt, w1)) × (f w1 ≡ (waiting, w'))
  unless_broken-waiting (ok u, w1) f w' e = (w1, refl, e)
  unless_broken-waiting (err x, w1) f w' e = cc

  -- One frame alone.
  pub written-one :
      (kind id : ℕ) (payload : List ℕ) (w w' : W)
      → write_frame writer kind id payload w ≡ (ok tt, w')
      → written w' ≡ written w ++ wire (frame_of kind id payload ∷ [])
  written-one kind id payload w w' e =
      written-write_frame writer kind id payload w w' e
      ∙ ap (λ x. written w ++ x) (sym (append-nil (frame_bytes (frame_of kind id payload))))

  -- One turn of the loop.
  pub written-turn :
      (item : Item) (turns : List WriterTurn) (w w' : W)
      → writer_loop writer (turn item ∷ turns) w ≡ (waiting, w')
      → (w1 : W) × (written w1 ≡ written w ++ wire (item_frames item))
        × (writer_loop writer turns w1 ≡ (waiting, w'))
  unfolding writer_loop write_out
  written-turn (message m) turns w w' e =
      let buf = Message.encode m in
      let (w1, first, rest) =
        unless_broken-waiting (write_frame writer kind_control 0 buf w) (writer_loop writer turns)
          w' e in
      (w1, written-one kind_control 0 buf w w1 first, rest)
  written-turn (grants debts) turns w w' e =
      let (w1, first, rest) =
        unless_broken-waiting (write_owed writer debts w) (writer_loop writer turns) w' e in
      (w1, written-write_owed debts w w1 first, rest)
  written-turn (grant_of id n) turns w w' e =
      let (w1, first, rest) =
        unless_broken-waiting (write_frame writer kind_window id (to_le 4 n) w)
          (writer_loop writer turns) w' e in
      (w1, written-one kind_window id (to_le 4 n) w w1 first, rest)
  written-turn (closes id n) turns w w' e =
      let (w1, first, rest) =
        unless_broken-waiting (write_frame writer kind_stream_close id [] w)
          (writer_loop writer turns) w' e in
      (w1, written-one kind_stream_close id [] w w1 first, rest)

  pub written-loop :
      (items : List Item) (w w' : W)
      → writer_loop writer (map turn items) w ≡ (waiting, w')
      → written w' ≡ written w ++ wire (frames items)
  unfolding writer_loop
  written-loop [] w w' e =
      ap written (sym (ap (λ (p : WriterEnd × W). p.1) e)) ∙ sym (append-nil (written w))
  written-loop (item ∷ items) w w' e =
      let (w1, first, rest) = written-turn item (map turn items) w w' e in
      written-loop items w1 w' rest
      ∙ ap (λ x. x ++ wire (frames items)) first
      ∙ append_assoc (written w) (wire (item_frames item)) (wire (frames items))
      ∙ ap (λ x. written w ++ x) (sym (wire-append (item_frames item) (frames items)))

  pub written-task :
      (p : Flow) (items : List Item) (w w' : W)
      → writer_task writer p (map turn items) w ≡ (waiting, w')
      → written w' ≡ written w ++ wire (frame_of kind_hello 0 (hello p) ∷ frames items)
  unfolding writer_task
  written-task p items w w' e =
      let (w1, first, rest) =
        unless_broken-waiting (write_frame writer kind_hello 0 (hello p) w)
          (writer_loop writer (map turn items)) w' e in
      written-loop items w1 w' rest
      ∙ ap (λ x. x ++ wire (frames items))
          (written-write_frame writer kind_hello 0 (hello p) w w1 first)
      ∙ append_assoc (written w) (frame_bytes (frame_of kind_hello 0 (hello p)))
          (wire (frames items))
