-- ===== src/Core/SessionRuns.antt =====
-- Whole sessions on concrete requests, and the theorems about them at concrete inputs.
use capsudo_rs.Base.{
  ℕ, ◌≡◌, refl, true, false, List, [], ◌∷◌, ◌++◌, none, some, arith, if◌then◌else◌,
}
use capsudo_rs.Base.Result.{ok, err}
use capsudo_rs.Base.Utf8.{is_utf8}
use capsudo_rs.Base.Int.{pos, ◌+ℤ◌}
use capsudo_rs.Proto.Defs.{FieldType, SessionType}
use capsudo_rs.Proto.Message
use capsudo_rs.Base.Bytes.{from_le}
use capsudo_rs.Proto.Accessors.{as_session_type, as_u32, fixed_payload}
use capsudo_rs.Proto.Tags.{try_from_u8}
use capsudo_rs.Transport.Defs.{interrupted}
use capsudo_rs.Transport.Writes.{Attempt, wrote, write_all}
use capsudo_rs.Core.Defs.{client_closed, DaemonConfig, ClientRequest, failed}
use capsudo_rs.Core.Channel.{Channel, send}
use capsudo_rs.Core.Daemon.{take_field, receive_loop, initial, finish, receive_configuration}
use capsudo_rs.Core.Client.{await_outcome}
use capsudo_rs.Core.Outcome.{events}
use capsudo_rs.Core.Command.{Command, ExitStatus, build_command, exit_code, send_exit}
use capsudo_rs.Core.System.{System}
use capsudo_rs.Core.Pty.{winsize_loop, run_interactive, attend, start_bridge, stop}
use capsudo_rs.Core.Session.{run_and_report, serve_connection}
use capsudo_rs.Core.HangUp.{attend-hang_up}
use capsudo_rs.Core.Reports.{serve_connection-Exits}
use capsudo_rs.Core.Actions.{EndsInExit}
use capsudo_rs.Core.Served.{serve_connection-refusal}
use capsudo_rs.Core.Relay.{finished, bytes, Round, poll_failed, polled, relay, relay-whole}

abbrev id_text : List ℕ
id_text = b'i' ∷ b'd' ∷ []

id_text-IsStr : is_utf8 id_text ≡ true
unfolding is_utf8
id_text-IsStr = refl

-- Every program can be spawned, as the child 5, and exits with 3 unless it is killed.
abbrev unix : System
unix = record {
  openpty = λ _. ok (10, 11);
  try_clone = λ _. ok tt;
  pipe = ok tt;
  spawn = λ _. ok 5;
  wait = λ child killed. ok (elim killed [
    | true ↦ record { code = none; signal = some (pos 9) }
    | false ↦ record { code = some (pos 3); signal = none }
  ]);
  cancel = ok 1;
  typed = λ woken.
      polled false true (bytes 7 [] (wrote 1 ∷ []))
      ∷ (if woken then polled true false finished ∷ [] else []);
  shown = polled false true finished ∷ [];
  to_string = λ _. id_text;
  unable_to_run = λ program e. program;
}

abbrev open_policy : DaemonConfig
open_policy = record {
  fixed_args = [];
  fixed_env = [];
  no_client_argv = false;
  no_client_env = true;
}

abbrev request : SessionType → ClientRequest
request t = record { args = id_text ∷ []; env = []; session_type = t; winsize = none }

abbrev id_command : Command
id_command = record { program = id_text; args = []; env = [] }

abbrev three : ExitStatus
three = record { code = some (pos 3); signal = none }

built : build_command (id_text ∷ []) [] ≡ some id_command
unfolding build_command
built = refl

-- The client goes away in the middle of its configuration.
cut_off : receive_configuration open_policy (ok none ∷ []) ≡ some (err client_closed, [])
unfolding receive_configuration receive_loop
cut_off = refl

serve_connection-refusal_example :
    (serve_connection unix 0 none open_policy
        (record { recvs = ok none ∷ []; sends = ok tt ∷ ok tt ∷ []; sent = [] })
      ≡ some (
        err client_closed,
        record {
          recvs = [];
          sends = [];
          sent = (Message.error id_text, []) ∷ (Message.exit (pos 1), []) ∷ [];
        },
      ))
    × (await_outcome (events (Message.error id_text ∷ Message.exit (pos 1) ∷ []) ++ [])
        ≡ some (ok (failed (pos 1) id_text), []))
serve_connection-refusal_example =
    serve_connection-refusal unix 0 none open_policy client_closed (ok none ∷ []) [] [] [] []
      cut_off id_text-IsStr

-- A session on a terminal whose client hangs up after one resize: the program is killed.
abbrev terminal_end : Channel
terminal_end = record { recvs = []; sends = []; sent = (Message.exit (pos 137), []) ∷ [] }

abbrev terminal_start : Channel
terminal_start = record {
  recvs =
      ok (
        some (record {
          message = record { field_type = FieldType.session_type; payload = 2 ∷ 0 ∷ 0 ∷ 0 ∷ [] };
          fds = [];
        }))
      ∷ ok (
          some (record {
            message = record { field_type = FieldType.fd; payload = [] };
            fds = 0 ∷ 1 ∷ 2 ∷ [];
          }))
      ∷ ok (
          some (record { message = record { field_type = FieldType.end; payload = [] }; fds = [] }))
      ∷ ok (some (record { message = Message.winsize (30, 90, 0, 0); fds = [] }))
      ∷ ok none
      ∷ [];
  sends = ok tt ∷ [];
  sent = [];
}

hang_up : serve_connection unix 9 none open_policy terminal_start ≡ some (ok tt, terminal_end)
unfolding serve_connection run_and_report run_interactive attend start_bridge stop relay write_all
    winsize_loop receive_configuration receive_loop take_field initial finish as_session_type as_u32
    fixed_payload from_le try_from_u8 build_command exit_code ◌+ℤ◌ send_exit send
hang_up = refl

serve_connection-Exits_example : EndsInExit terminal_start terminal_end
serve_connection-Exits_example =
    serve_connection-Exits unix 9 none open_policy terminal_start terminal_end hang_up

-- Two bytes that the client takes one at a time, and one more after an interruption.
abbrev rounds : List Round
rounds =
    polled false true (bytes 1 (2 ∷ []) (wrote 1 ∷ Attempt.failed interrupted ∷ wrote 1 ∷ []))
    ∷ poll_failed interrupted
    ∷ polled true false finished
    ∷ polled false true (bytes 3 [] (wrote 1 ∷ []))
    ∷ []

relay-whole_example :
    relay false (rounds ++ (polled false true finished ∷ [])) ≡ some (1 ∷ 2 ∷ 3 ∷ [])
relay-whole_example = relay-whole rounds [] false (
  ((omega arith, (refl, (omega arith, tt))), omega arith),
  (refl, (tt, (((omega arith, tt), omega arith), tt))),
)

-- A relay that is cancelled, and one whose destination fails.
cancelled : relay true (polled true true (bytes 1 [] (wrote 1 ∷ [])) ∷ []) ≡ some []
unfolding relay
cancelled = refl

-- The client sends a resize and something that is none, and goes.
abbrev killed : ExitStatus
killed = record { code = none; signal = some (pos 9) }

attend-hang_up_example :
    attend unix 9 5 (record {
      recvs = events (Message.winsize (30, 90, 0, 0) ∷ Message.end ∷ []) ++ (ok none ∷ []);
      sends = ok tt ∷ [];
      sent = [];
    })
    ≡ some (
      ok tt,
      record { recvs = []; sends = []; sent = [] ++ ((Message.exit (exit_code killed), []) ∷ []) },
    )
unfolding relay
attend-hang_up_example =
    attend-hang_up unix 9 5 1 (Message.winsize (30, 90, 0, 0) ∷ Message.end ∷ []) [] killed
      (polled false true (bytes 7 [] (wrote 1 ∷ [])) ∷ []) [] false finished [] [] (omega arith)
      refl refl refl refl refl (((omega arith, tt), omega arith), tt) (refl, tt) refl
