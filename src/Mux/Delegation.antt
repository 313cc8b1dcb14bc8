-- ===== src/Mux/Delegation.antt =====
-- One end's messages with a frame of delegated descriptors among them, at the other end's session.
use capsudo_rs.Base.{
  ℕ, ◌≤◌, ◌<◌, ◌≡◌, refl, sym, ap, ◌∙◌, List, [], ◌∷◌, ◌++◌, map, append-nil, append_assoc, Option,
  arith, length, All, All-append,
}
use capsudo_rs.Base.Bytes.{IsU32}
use capsudo_rs.Transport.Defs.{FdDir, unexpected_eof}
use capsudo_rs.Transport.Bytes.{Reader, Writer}
use capsudo_rs.Mux.Defs.{kind_fds, kind_hello, max_live_streams, max_window, CtrlItem, OutFrame}
use capsudo_rs.Mux.Frames.{Frame, write_frame}
use capsudo_rs.Mux.Fds.{encode_fds, length-encode_fds}
use capsudo_rs.Mux.Flow
use capsudo_rs.Mux.Flow.{Flow, hello}
use capsudo_rs.Mux.FlowLaws.{greeted}
use capsudo_rs.Mux.Writer.{WriterTurn, frame, waiting, write_out, writer_loop, writer_task}
use capsudo_rs.Mux.Reader.{Reading, start_reading, left, leave, reader_loop}
use capsudo_rs.Mux.Sent.{
  Item, turn, IsItem, messages, frame_of, item_frames, frames, wire, wire-append, written-turn,
  written-loop, written-one, unless_broken-waiting,
}
use capsudo_rs.Mux.Reads.{Fits, Goes-append, length-wire, reader_loop-Goes}
use capsudo_rs.Mux.Delivery.{items-Hands, frames-Fits, length-hello, hello_frame-goes}
use capsudo_rs.Mux.Passing.{given_out, made, on_frame-delegates}

-- The turns of a writer that sends descriptors between other items.
abbrev pub delegating : List Item → List (ℕ × FdDir) → List Item → List WriterTurn
delegating before specs after =
    map turn before ++ (frame (OutFrame.fds (encode_fds specs)) ∷ map turn after)

abbrev delegating_frames : List Item → List (ℕ × FdDir) → List Item → List Frame
delegating_frames before specs after =
    frames before ++ (frame_of kind_fds 0 (encode_fds specs) ∷ frames after)

wire_parts :
    (a b c d : List Frame) → wire (a ++ (b ++ (c ++ d))) ≡ ((wire a ++ wire b) ++ wire c) ++ wire d
wire_parts a b c d = simp (wire-append, append_assoc)

module _ {W : Type 0} (writer : Writer W) where
  open writer use {written}

  written-items :
      (items : List Item) (turns : List WriterTurn) (w w' : W)
      → writer_loop writer (map turn items ++ turns) w ≡ (waiting, w')
      → (w1 : W) × (written w1 ≡ written w ++ wire (frames items))
        × (writer_loop writer turns w1 ≡ (waiting, w'))
  written-items [] turns w w' e = (w, sym (append-nil (written w)), e)
  written-items (item ∷ items) turns w w' e =
      let (w1, first, rest) = written-turn writer item (map turn items ++ turns) w w' e in
      let (w2, more, last) = written-items items turns w1 w' rest in
      (
        w2,
        more
            ∙ ap (λ x. x ++ wire (frames items)) first
            ∙ append_assoc (written w) (wire (item_frames item)) (wire (frames items))
            ∙ ap (λ x. written w ++ x) (sym (wire-append (item_frames item) (frames items))),
        last,
      )

  written-fds :
      (payload : List ℕ) (turns : List WriterTurn) (w w' : W)
      → writer_loop writer (frame (OutFrame.fds payload) ∷ turns) w ≡ (waiting, w')
      → (w1 : W) × (written w1 ≡ written w ++ wire (frame_of kind_fds 0 payload ∷ []))
        × (writer_loop writer turns w1 ≡ (waiting, w'))
  unfolding writer_loop write_out
  written-fds payload turns w w' e =
      let (w1, first, rest) =
        unless_broken-waiting writer (write_frame writer kind_fds 0 payload w)
          (writer_loop writer turns) w' e in
      (w1, written-one writer kind_fds 0 payload w w1 first, rest)

  written-hello :
      (p : Flow) (turns : List WriterTurn) (w w' : W)
      → writer_task writer p turns w ≡ (waiting, w')
      → (w1 : W) × (written w1 ≡ written w ++ wire (frame_of kind_hello 0 (hello p) ∷ []))
        × (writer_loop writer turns w1 ≡ (waiting, w'))
  unfolding writer_task
  written-hello p turns w w' e =
      let (w1, first, rest) =
        unless_broken-waiting writer (write_frame writer kind_hello 0 (hello p) w)
          (writer_loop writer turns) w' e in
      (w1, written-one writer kind_hello 0 (hello p) w w1 first, rest)

  -- All that is written.
  written-delegating :
      (p : Flow) (before after : List Item) (specs : List (ℕ × FdDir)) (w w' : W)
      → writer_task writer p (delegating before specs after) w ≡ (waiting, w')
      → written w ≡ []
      → written w' ≡ wire (frame_of kind_hello 0 (hello p) ∷ delegating_frames before specs after)
  written-delegating p before after specs w w' e fresh =
      let h : List Frame = frame_of kind_hello 0 (hello p) ∷ [] in
      let d : List Frame = frame_of kind_fds 0 (encode_fds specs) ∷ [] in
      let (w1, greeting, r1) = written-hello p (delegating before specs after) w w' e in
      let (w2, first, r2) =
        written-items before (frame (OutFrame.fds (encode_fds specs)) ∷ map turn after) w1 w' r1 in
      let (w3, fds, r3) = written-fds (encode_fds specs) (map turn after) w2 w' r2 in
      written-loop writer after w3 w' r3
      ∙ ap (λ x. x ++ wire (frames after))
          (fds
            ∙ ap (λ x. x ++ wire d)
                (first
                  ∙ ap (λ x. x ++ wire (frames before)) (greeting ∙ ap (λ x. x ++ wire h) fresh)))
      ∙ sym (wire_parts h (frames before) d (frames after))

delegates-Fits :
    (specs : List (ℕ × FdDir))
    → length specs ≤ max_live_streams
    → Fits (frame_of kind_fds 0 (encode_fds specs))
delegates-Fits specs few = (omega arith, omega (arith, length-encode_fds specs))

-- What one end sends, with descriptors delegated between its messages, is handed to the other end's
-- session: every message, and in its place one local end for each descriptor.
pub reader_loop-delegating :
    {W R : Type 0} (writer : Writer W) (reader : Reader R) (p : Flow) (window : ℕ)
    (pairs : List (ℕ × ℕ)) (others : List (Option (ℕ × ℕ))) (before after : List Item)
    (specs : List (ℕ × FdDir)) (w w' : W) (r : R) (n : ℕ)
    → All IsItem before
    → All IsItem after
    → All (λ spec. IsU32 spec.0) specs
    → length specs ≤ max_live_streams
    → length pairs ≡ length specs
    → 1 ≤ p.window
    → p.window ≤ max_window
    → writer.written w ≡ []
    → writer_task writer p (delegating before specs after) w ≡ (waiting, w')
    → reader.content r ≡ writer.written w'
    → reader.ending r ≡ unexpected_eof
    → length (reader.content r) < n
    → (s : Reading) × (reader_loop reader n r (start_reading window (made pairs others)) ≡ left s)
      × (s.ctrl
          ≡ map CtrlItem.control (messages before)
            ++ (CtrlItem.fds (given_out pairs) ∷ map CtrlItem.control (messages after)))
reader_loop-delegating writer reader p window pairs others before after specs w w' r n items more
      ids few len nonzero narrow fresh wrote c e fuel =
    let start = start_reading window (made pairs others) in
    let fs : List Frame = frame_of kind_hello 0 (hello p) ∷ delegating_frames before specs after in
    let bytes : reader.content r ≡ wire fs =
      c ∙ written-delegating writer p before after specs w w' wrote fresh in
    let s1 : Reading = record start { flow = greeted start.flow p.window } in
    let (s2, went, (ctrl, o, _, _, live, sockets)) =
      items-Hands before s1 items (unfold start_reading in refl) in
    let no_ctrl : start.ctrl ≡ [] = unfold start_reading in refl in
    let none_live : start.live ≡ 0 = unfold start_reading in refl in
    let (s3, delegated, ctrl', o', _, _) =
      on_frame-delegates specs 0 s2 pairs others ids (omega (arith, live ∙ none_live, few))
        (o ∙ (unfold start_reading in refl)) (sockets ∙ (unfold start_reading in refl)) len in
    let (s4, last, (ctrl'', _, _, _, _, _)) = items-Hands after s3 more o' in
    let fits : All Fits fs = (
      (omega arith, omega (arith, length-hello p)),
      All-append Fits (frames before) (frame_of kind_fds 0 (encode_fds specs) ∷ frames after)
          (frames-Fits before items) (delegates-Fits specs few, frames-Fits after more),
    ) in
    let ran =
      reader_loop-Goes reader fs start s4 r n fits bytes e
        (omega (arith, length-wire fs, ap length bytes))
        (
          s1,
          hello_frame-goes p start (unfold start_reading Flow.new in refl) nonzero narrow,
          Goes-append (frames before) (frame_of kind_fds 0 (encode_fds specs) ∷ frames after) s1 s2
              s4 went (s3, delegated, last),
        ) in
    (
      leave s4,
      ran,
      unfold leave in
          (ctrl''
            ∙ ap (λ x. x ++ map CtrlItem.control (messages after))
                (ctrl'
                  ∙ ap (λ x. x ++ (CtrlItem.fds (given_out pairs) ∷ []))
                      (ctrl ∙ ap (λ x. x ++ map CtrlItem.control (messages before)) no_ctrl))
            ∙ append_assoc (map CtrlItem.control (messages before))
                (CtrlItem.fds (given_out pairs) ∷ []) (map CtrlItem.control (messages after))),
    )
