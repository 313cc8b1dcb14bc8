-- ===== src/Mux/Started.antt =====
-- In what order `MuxTransport::send` tells the peer of its streams and starts their pumps.
use capsudo_rs.Base.{
  ℕ, ◌≡◌, refl, sym, ap, ◌∙◌, Bool, true, false, List, [], ◌∷◌, ◌++◌, append_assoc, append-nil, All,
  All-append, if◌then◌else◌, subst,
}
use capsudo_rs.Base.Result.{Result, ok, err}
use capsudo_rs.Proto.Defs.{Message}
use capsudo_rs.Transport.Defs.{IoError, FdDir, FdSpec, reads, writes}
use capsudo_rs.Mux.Defs.{OutFrame}
use capsudo_rs.Mux.Fds.{encode_fds}
use capsudo_rs.Mux.Ids.{alloc_id}
use capsudo_rs.Mux.Outgoing.{
  Pump, writing, reading, Sender, Sent, queue_frame, then_send, with_dup, start_writing,
  start_reading, start_sender_pumps, plan, advertised, start_all, send_now,
}

abbrev pub queued_before : Pump → List OutFrame
queued_before (writing id fd frames) = frames
queued_before (reading id fd frames) = frames

-- From one state to another no frame is queued, and the pumps that were started between them were
-- started behind this queue.
abbrev pub Starts : Sender → Sender → Type 0
Starts s t =
    (t.queue ≡ s.queue)
    × (new : List Pump) × (t.pumps ≡ s.pumps ++ new)
    × All (λ p. queued_before p ≡ s.queue) new

Starts-refl : (s : Sender) → Starts s s
Starts-refl s = (refl, [], sym (append-nil s.pumps), tt)

Starts-trans : (s t u : Sender) → Starts s t → Starts t u → Starts s u
Starts-trans s t u (q, new, e, h) (q', new', e', h') =
    let behind_s : All (λ p. queued_before p ≡ s.queue) new' =
      subst (λ x. All (λ p. queued_before p ≡ x) new') q h' in
    (
      q' ∙ q,
      new ++ new',
      e' ∙ ap (λ x. x ++ new') e ∙ append_assoc s.pumps new new',
      All-append (λ p. queued_before p ≡ s.queue) new new' h behind_s,
    )

then_send-Starts :
    (s : Sender) (x : Sent) (k : Sender → Sent)
    → Starts s x.1
    → ((t : Sender) → Starts t (k t).1)
    → Starts s (then_send x k).1
then_send-Starts s (ok u, t) k h next = Starts-trans s t (k t).1 h (next t)
then_send-Starts s (err e, t) k h next = h

with_dup-Starts :
    (s : Sender) (ds : List (Result IoError (Unit {0}))) (k : Sender → Sent) (failed t : Sender)
    → ((rest : List (Result IoError (Unit {0}))) → Starts s (record failed { dups = rest }))
    → Starts s failed
    → ((rest : List (Result IoError (Unit {0}))) → Starts s (k (record t { dups = rest })).1)
    → Starts s (with_dup ds k failed t).1
with_dup-Starts s [] k failed t h h' next = h'
with_dup-Starts s (err e ∷ rest) k failed t h h' next = h rest
with_dup-Starts s (ok u ∷ rest) k failed t h h' next = next rest

start_writing-Starts : (id fd : ℕ) (s : Sender) → Starts s (start_writing id fd s).1
start_writing-Starts id fd s =
    with_dup-Starts s s.dups _ _ _ (λ rest. (refl, [], sym (append-nil s.pumps), tt))
      (refl, [], sym (append-nil s.pumps), tt)
      (λ rest. (refl, writing id fd s.queue ∷ [], refl, (refl, tt)))

start_reading-Starts : (id fd : ℕ) (s : Sender) → Starts s (start_reading id fd s).1
start_reading-Starts id fd s =
    with_dup-Starts s s.dups _ s s (λ rest. (refl, [], sym (append-nil s.pumps), tt))
      (Starts-refl s)
      (λ rest.
        with_dup-Starts s rest _ _ _ (λ rest'. (refl, [], sym (append-nil s.pumps), tt))
          (refl, [], sym (append-nil s.pumps), tt)
          (λ rest'. (refl, reading id fd s.queue ∷ [], refl, (refl, tt))))

if-Starts :
    (b : Bool) (s : Sender) (x : Sent) → Starts s x.1 → Starts s (if b then x else (ok tt, s)).1
if-Starts true s x h = h
if-Starts false s x h = Starts-refl s

start_sender_pumps-Starts :
    (id : ℕ) (spec : FdSpec) (s : Sender) → Starts s (start_sender_pumps id spec s).1
unfolding start_sender_pumps
start_sender_pumps-Starts id spec s =
    then_send-Starts s _ _ (if-Starts (writes spec.dir) s _ (start_writing-Starts id spec.fd s))
      (λ t. if-Starts (reads spec.dir) t _ (start_reading-Starts id spec.fd t))

start_all-Starts : (planned : List (ℕ × FdSpec)) (s : Sender) → Starts s (start_all planned s).1
unfolding start_all
start_all-Starts [] s = Starts-refl s
start_all-Starts ((id, spec) ∷ planned) s =
    then_send-Starts s (start_sender_pumps id spec s) (start_all planned)
      (start_sender_pumps-Starts id spec s) (start_all-Starts planned)

-- The directions of descriptors.
abbrev pub dirs : List FdSpec → List FdDir
dirs [] = []
dirs (spec ∷ specs) = spec.dir ∷ dirs specs

abbrev pub advertised_dirs : List (ℕ × FdDir) → List FdDir
advertised_dirs [] = []
advertised_dirs ((id, dir) ∷ rest) = dir ∷ advertised_dirs rest

dirs-plan :
    (next : ℕ) (specs : List FdSpec) → advertised_dirs (advertised (plan next specs).0) ≡ dirs specs
unfolding plan
dirs-plan next [] = refl
dirs-plan next (spec ∷ specs) = ap (◌∷◌ spec.dir) (dirs-plan (alloc_id next).1 specs)

queue_frame-open :
    (f : OutFrame) (s : Sender)
    → s.open_ended ≡ true
    → queue_frame f s ≡ (ok tt, record s { queue = s.queue ++ (f ∷ []) })
queue_frame-open f s e = rw e refl

-- Descriptors are sent as one frame, which advertises a stream for each of them with its direction,
-- in order; and every pump is started behind that frame, also when starting one of them fails: no
-- stream's data can overtake the frame that announces it. The writer still takes frames.
pub send_now-order :
    (m : Message) (spec : FdSpec) (specs : List FdSpec) (s : Sender)
    → s.open_ended ≡ true
    → (streams : List (ℕ × FdDir)) × (new : List Pump) × (advertised_dirs streams
        ≡ dirs (spec ∷ specs))
      × ((send_now m (spec ∷ specs) s).1.queue
          ≡ s.queue ++ (OutFrame.fds (encode_fds streams) ∷ []))
      × ((send_now m (spec ∷ specs) s).1.pumps ≡ s.pumps ++ new)
      × All (λ p. queued_before p ≡ s.queue ++ (OutFrame.fds (encode_fds streams) ∷ [])) new
send_now-order m spec specs s e =
    let planned = plan s.next_id (spec ∷ specs) in
    let streams = advertised planned.0 in
    let t : Sender = record s {
      next_id = planned.1;
      queue = s.queue ++ (OutFrame.fds (encode_fds streams) ∷ []);
    } in
    let run : send_now m (spec ∷ specs) s ≡ start_all planned.0 t =
      ap (λ x. then_send x (start_all planned.0))
        (queue_frame-open _ (record s { next_id = planned.1 }) e) in
    let (q, new, grown, behind) = start_all-Starts planned.0 t in
    (
      streams,
      new,
      dirs-plan s.next_id (spec ∷ specs),
      ap (λ x. x.1.queue) run ∙ q,
      ap (λ x. x.1.pumps) run ∙ grown,
      behind,
    )
