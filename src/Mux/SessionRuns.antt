-- ===== src/Mux/SessionRuns.antt =====
-- A session over the multiplexer in memory, and the theorem on it at a concrete input.
use capsudo_rs.Base.{
  ℕ, ◌+◌, ◌≡◌, refl, true, false, List, [], ◌∷◌, ◌++◌, none, some, arith, length, All,
}
use capsudo_rs.Base.Result.{ok}
use capsudo_rs.Base.Bytes.{to_le}
use capsudo_rs.Base.Int.{pos}
use capsudo_rs.Base.Utf8.{is_utf8}
use capsudo_rs.Proto.Defs.{SessionType}
use capsudo_rs.Proto.Message
use capsudo_rs.Proto.Header
use capsudo_rs.Proto.Tags.{as_u8}
use capsudo_rs.Transport.Defs.{FdDir}
use capsudo_rs.Transport.Memory.{memory_reader, memory_writer}
use capsudo_rs.Core.Defs.{DaemonConfig, ClientRequest, exited}
use capsudo_rs.Core.Client.{await_outcome}
use capsudo_rs.Core.Outcome.{events}
use capsudo_rs.Core.Command.{Command, ExitStatus, build_command, exit_code}
use capsudo_rs.Core.Relay.{polled, finished}
use capsudo_rs.Core.System.{System}
use capsudo_rs.Core.Session.{serve_connection}
use capsudo_rs.Mux.Frames.{write_frame}
use capsudo_rs.Mux.Fds.{encode_fds}
use capsudo_rs.Mux.Flow
use capsudo_rs.Mux.Flow.{Flow, hello, queue_limit}
use capsudo_rs.Mux.Writer.{waiting, write_owed, write_out, writer_loop, writer_task}
use capsudo_rs.Mux.Reader.{Reading, start_reading, left, reader_loop}
use capsudo_rs.Mux.Sent.{Item, message, grants, IsItem}
use capsudo_rs.Mux.Passing.{made}
use capsudo_rs.Mux.Delegation.{delegating}
use capsudo_rs.Mux.Session.{handed_up, pairs_of, session_over_mux}

abbrev id_text : List ℕ
id_text = b'i' ∷ b'd' ∷ []

abbrev unix : System
unix = record {
  openpty = λ _. ok (10, 11);
  try_clone = λ _. ok tt;
  pipe = ok tt;
  spawn = λ _. ok 5;
  wait = λ _ _. ok (record { code = some (pos 3); signal = none });
  cancel = ok 1;
  typed = λ _. polled true false finished ∷ [];
  shown = polled false true finished ∷ [];
  to_string = λ _. id_text;
  unable_to_run = λ program e. program;
}

abbrev policy : DaemonConfig
policy = record {
  fixed_args = id_text ∷ [];
  fixed_env = [];
  no_client_argv = false;
  no_client_env = true;
}

abbrev request : ClientRequest
request = record {
  args = id_text ∷ [];
  env = [];
  session_type = SessionType.non_interactive;
  winsize = none;
}

abbrev id_command : Command
id_command = record { program = id_text; args = id_text ∷ []; env = [] }

abbrev three : ExitStatus
three = record { code = some (pos 3); signal = none }

abbrev before : List Item
before =
    message (Message.arg id_text)
    ∷ grants ((5, 100) ∷ [])
    ∷ message (Message.session_type SessionType.non_interactive)
    ∷ []

abbrev after : List Item
after = message Message.end ∷ []

abbrev specs : List (ℕ × FdDir)
specs = (0, FdDir.read) ∷ (2, FdDir.write) ∷ (4, FdDir.write) ∷ []

abbrev sender : Flow
sender = Flow.new 1000

abbrev sent : List ℕ
sent = (writer_task memory_writer sender (delegating before specs after) []).1

id_text-IsStr : is_utf8 id_text ≡ true
unfolding is_utf8
id_text-IsStr = refl

before-IsItem : All IsItem before
unfolding Message.arg Message.session_type to_le as_u8
before-IsItem = omega arith

after-IsItem : All IsItem after
unfolding Message.end
after-IsItem = omega arith

wrote : writer_task memory_writer sender (delegating before specs after) [] ≡ (waiting, sent)
unfolding writer_task writer_loop write_owed write_out write_frame hello to_le encode_fds
    Message.encode Header.encode
wrote = refl

built : build_command (id_text ∷ id_text ∷ []) [] ≡ some id_command
unfolding build_command
built = refl

session_over_mux_example :
    (s : Reading) × (reader_loop memory_reader
        (length sent + 1)
        sent
        (start_reading 4096 (made (pairs_of (30, 40, 50) (31, 41, 51)) []))
      ≡ left s)
    × (serve_connection unix 0 none policy
          (record { recvs = handed_up s.ctrl; sends = ok tt ∷ []; sent = [] })
        ≡ some (
          ok tt,
          record { recvs = ok none ∷ []; sends = []; sent = (Message.exit (pos 3), []) ∷ [] },
        ))
    × (await_outcome (events (Message.exit (pos 3) ∷ []) ++ []) ≡ some (ok (exited (pos 3)), []))
unfolding exit_code
session_over_mux_example =
    session_over_mux memory_writer memory_reader unix sender 4096 (30, 40, 50) (31, 41, 51) []
      before after specs [] sent sent (length sent + 1) 0 policy request none id_command 5 three []
      [] before-IsItem after-IsItem (omega arith) refl refl refl (unfold Flow.new in omega arith)
      (unfold Flow.new in omega arith) refl wrote refl refl (omega arith) tt (id_text-IsStr, tt) tt
      (λ e. cc) built refl refl (omega arith)
