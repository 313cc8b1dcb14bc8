-- ===== src/Mux/SendRuns.antt =====
-- Sending on concrete states, and its theorems at concrete inputs.
use capsudo_rs.Base.Assoc.{get}
use capsudo_rs.Base.{
  ℕ, ◌≤◌, arith, ◌≡◌, refl, true, false, List, [], ◌∷◌, ◌++◌, some, All, ◌⊎◌, inl, inr,
}
use capsudo_rs.Base.Result.{ok, err}
use capsudo_rs.Base.Int.{pos}
use capsudo_rs.Proto.Message
use capsudo_rs.Transport.Defs.{os, TransportError, FdDir, FdSpec, reads, writes}
use capsudo_rs.Mux.Defs.{OutFrame}
use capsudo_rs.Mux.Stream.{Progress}
use capsudo_rs.Mux.Flow
use capsudo_rs.Mux.Flow.{Flow}
use capsudo_rs.Mux.Fds.{encode_fds}
use capsudo_rs.Mux.Ids.{alloc_id}
use capsudo_rs.Mux.Barrier.{
  View, streams, target, reached, wake, wait_for, wait_for_all, barrier, IsLater,
}
use capsudo_rs.Mux.Barrier.Reached.{barrier-reached}
use capsudo_rs.Mux.Barrier.Ends.{barrier-Ends}
use capsudo_rs.Mux.Outgoing.{Pump, Sender, plan, start_sender_pumps, start_all, send_now}
use capsudo_rs.Mux.Started.{queued_before, advertised_dirs, send_now-order}

abbrev idle : Sender
idle = record {
  queue = [];
  open_ended = true;
  next_id = 0;
  streams = [];
  sinks = [];
  next_sink = 0;
  flow = Flow.new 1000;
  pumps = [];
  dups = ok tt ∷ err (os 24) ∷ [];
}

abbrev stdout : FdSpec
stdout = record { fd = 1; dir = FdDir.write }

abbrev stdin : FdSpec
stdin = record { fd = 0; dir = FdDir.read }

send_now-order_example :
    (streams : List (ℕ × FdDir)) × (new : List Pump) × (advertised_dirs streams
      ≡ FdDir.write ∷ FdDir.read ∷ [])
    × ((send_now Message.end (stdout ∷ stdin ∷ []) idle).1.queue
        ≡ [] ++ (OutFrame.fds (encode_fds streams) ∷ []))
    × ((send_now Message.end (stdout ∷ stdin ∷ []) idle).1.pumps ≡ [] ++ new)
    × All (λ p. queued_before p ≡ [] ++ (OutFrame.fds (encode_fds streams) ∷ [])) new
send_now-order_example = send_now-order Message.end stdout (stdin ∷ []) idle refl

-- The second duplicate cannot be made: the send fails, with the first pump started.
partly : (send_now Message.end (stdout ∷ stdin ∷ []) idle).0 ≡ err (TransportError.io (os 24))
unfolding plan alloc_id start_all start_sender_pumps reads writes
partly = refl

-- One stream reads the socket 8, of which four bytes are unread, and has sent two of its six.
abbrev backlog : ℕ → Progress
backlog sent = record { available = pos 0; socket = some 8; taken = 2; sent = sent; done = false }

abbrev flow_at : ℕ → Flow
flow_at sent = record {
  window = 1000;
  peer_windowed = false;
  peer_window = 0;
  closed = false;
  progress = (5, 0) ∷ [];
  cells = (0, backlog sent) ∷ [];
  next_cell = 1;
  owed = [];
  owed_ready = false;
}

abbrev four_unread : ℕ → ℕ
four_unread socket = 4

-- A view in which the stream is notified, or another one.
abbrev view_at : ℕ → (notified : List ℕ) → View
view_at sent notified = record { flow = flow_at sent; unread = four_unread; notified = notified }

-- The barrier does not look at the view of another stream's progress.
waited :
    barrier (view_at 2 []) (view_at 4 (0 ∷ []) ∷ view_at 6 (3 ∷ []) ∷ view_at 9 (0 ∷ []) ∷ [])
    ≡ some (view_at 9 (0 ∷ []), [])
unfolding barrier streams target wait_for_all wait_for wake reached get
waited = refl

view_at-IsLater : (m n : ℕ) (ms ns : List ℕ) → m ≤ n → IsLater (view_at m ms) (view_at n ns)
unfolding reached target get
view_at-IsLater m n ms ns h = ((λ t r. ground arith), (λ c. ground arith))

barrier-reached_example : (false ≡ true) ⊎ ((false ≡ true) ⊎ (6 ≤ 9))
unfolding get
barrier-reached_example =
    barrier-reached (view_at 2 [])
      (view_at 4 (0 ∷ []) ∷ view_at 6 (3 ∷ []) ∷ view_at 9 (0 ∷ []) ∷ []) (view_at 9 (0 ∷ [])) [] 5
      0 8 (backlog 2) (backlog 9)
      (
        view_at-IsLater 2 4 [] (0 ∷ []) (omega arith),
        (
          view_at-IsLater 4 6 (0 ∷ []) (3 ∷ []) (omega arith),
          (view_at-IsLater 6 9 (3 ∷ []) (0 ∷ []) (omega arith), tt),
        ),
      )
      waited refl refl refl refl

-- The stream never sends its backlog, and the transport goes.
abbrev gone : View
gone = record { flow = Flow.close (flow_at 2); unread = four_unread; notified = 0 ∷ [] }

gone-IsLater : IsLater (view_at 2 []) gone
unfolding Flow.close reached target get
gone-IsLater = ((λ t r. refl), (λ c. ground arith))

barrier-Ends_example :
    (g : View) × (later : List View) × (barrier (view_at 2 []) (gone ∷ []) ≡ some (g, later))
unfolding Flow.close streams get
barrier-Ends_example =
    barrier-Ends (view_at 2 []) (gone ∷ []) (gone-IsLater, tt) (inr (inl (inl refl, refl)), tt)
