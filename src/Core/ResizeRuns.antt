-- ===== src/Core/ResizeRuns.antt =====
-- A terminal that is resized twice during a session, the second time in vain.
use capsudo_rs.Base.{◌≡◌, refl, List, [], ◌∷◌, ◌++◌, none, some, arith}
use capsudo_rs.Base.Result.{ok, err}
use capsudo_rs.Proto.Defs.{SessionType}
use capsudo_rs.Proto.Message
use capsudo_rs.Proto.Message.{Dims}
use capsudo_rs.Transport.Defs.{interrupted, TransportError}
use capsudo_rs.Core.Defs.{ClientRequest}
use capsudo_rs.Core.Channel.{Channel, send}
use capsudo_rs.Core.Client.{send_configuration}
use capsudo_rs.Core.Handshake.{config_messages}
use capsudo_rs.Core.Outcome.{events}
use capsudo_rs.Core.Pty.{winsize_loop}
use capsudo_rs.Core.Resize.{
  Wake, signalled, Answers, resizes, winch_forwarder, forward_loop, read_winsize,
}
use capsudo_rs.Core.Resized.{winsize_loop-resizes}

abbrev request : ClientRequest
request = record {
  args = [];
  env = [];
  session_type = SessionType.interactive;
  winsize = some (24, 80, 0, 0);
}

abbrev start : Channel
start = record { recvs = []; sends = ok tt ∷ ok tt ∷ ok tt ∷ ok tt ∷ []; sent = [] }

abbrev configured : Channel
configured = record { recvs = []; sends = []; sent = config_messages request (0, 1, 2) none }

run : send_configuration request (0, 1, 2) none start ≡ some (ok tt, configured)
unfolding send_configuration send
run = refl

abbrev wakes : List Wake
wakes =
    signalled (ok (30, 90, 0, 0))
    ∷ signalled (err interrupted)
    ∷ signalled (ok (40, 100, 0, 0))
    ∷ []

abbrev answers : Answers
answers = ok tt ∷ err (TransportError.io interrupted) ∷ []

once : resizes request (ok tt) (some 7) (ok tt) wakes answers ≡ Message.winsize (30, 90, 0, 0) ∷ []
unfolding resizes winch_forwarder forward_loop read_winsize
once = refl

-- No handler, a transport that cannot be split, and a session off a terminal.
no_handler : resizes request (ok tt) (some 7) (err interrupted) wakes answers ≡ []
unfolding resizes winch_forwarder
no_handler = refl

no_sender : resizes request (ok tt) none (ok tt) wakes answers ≡ []
unfolding resizes
no_sender = refl

off_terminal :
    resizes (record request { winsize = none }) (ok tt) (some 7) (ok tt) wakes answers ≡ []
unfolding resizes
off_terminal = refl

winsize_loop-resizes_example :
    let messages = resizes request (ok tt) (some 7) (ok tt) wakes answers in
    (configured.sent ≡ config_messages request (0, 1, 2) none)
    × ((winsize_loop 1 (events messages ++ [])).resized ≡ (30, 90, 0, 0) ∷ [])
unfolding winsize_loop
winsize_loop-resizes_example =
    winsize_loop-resizes request (0, 1, 2) none start configured (ok tt) (some 7) (ok tt) wakes
      answers 0 [] run (λ e. unfold resizes winch_forwarder forward_loop read_winsize in cc)
      (omega arith)
