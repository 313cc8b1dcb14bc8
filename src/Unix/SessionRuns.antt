-- ===== src/Unix/SessionRuns.antt =====
-- A session over sockets in memory, and its theorem at that input.
use capsudo_rs.Base.{ℕ, ◌≡◌, refl, true, List, [], ◌∷◌, ◌++◌, none, some, arith, false}
use capsudo_rs.Base.Result.{ok}
use capsudo_rs.Base.Int.{pos}
use capsudo_rs.Base.Bytes.{to_le}
use capsudo_rs.Base.Utf8.{is_utf8}
use capsudo_rs.Proto.Defs.{Message, SessionType}
use capsudo_rs.Proto.Header
use capsudo_rs.Proto.Message
use capsudo_rs.Transport.Defs.{FdSpec}
use capsudo_rs.Core.Defs.{DaemonConfig, ClientRequest, Stdio, exited}
use capsudo_rs.Core.Channel.{Event, Channel, send}
use capsudo_rs.Core.Client.{await_outcome, send_configuration, send_each}
use capsudo_rs.Core.Handshake.{config_messages}
use capsudo_rs.Core.Command.{build_command, exit_code}
use capsudo_rs.Core.Relay.{polled, finished}
use capsudo_rs.Core.System.{System}
use capsudo_rs.Core.Session.{serve_connection}
use capsudo_rs.Unix.Recv.{Arrival}
use capsudo_rs.Unix.Send.{Socket, Try, took, send_loop}
use capsudo_rs.Unix.Send
use capsudo_rs.Unix.Queued
use capsudo_rs.Unix.Queued.{Posting, posted, tagged}
use capsudo_rs.Unix.Ordered.{recv_each}
use capsudo_rs.Unix.Session.{session_over_unix}
use capsudo_rs.Unix.Memory.{Memory, memory, outbox, coming, one_by_one, reader, inbox}

abbrev id_text : List ℕ
id_text = b'i' ∷ b'd' ∷ []

abbrev unix : System
unix = record {
  openpty = λ _. ok (10, 11);
  try_clone = λ _. ok tt;
  pipe = ok tt;
  spawn = λ _. ok 5;
  wait = λ _ _. ok (record { code = some (pos 3); signal = none });
  cancel = ok 1;
  typed = λ _. polled true false finished ∷ [];
  shown = polled false true finished ∷ [];
  to_string = λ _. id_text;
  unable_to_run = λ program e. program;
}

abbrev config : DaemonConfig
config = record {
  fixed_args = id_text ∷ [];
  fixed_env = [];
  no_client_argv = false;
  no_client_env = true;
}

abbrev request : ClientRequest
request = record {
  args = id_text ∷ [];
  env = [];
  session_type = SessionType.non_interactive;
  winsize = none;
}

abbrev stdio : Stdio
stdio = (7, 8, 9)

abbrev client : Channel
client = record { recvs = []; sends = ok tt ∷ ok tt ∷ ok tt ∷ ok tt ∷ []; sent = [] }

configured :
    send_configuration request stdio none client
    ≡ some (ok tt, record client { sends = []; sent = config_messages request stdio none })
unfolding send_configuration send_each send
configured = refl

-- The first `sendmsg` with the descriptors would block, and the second takes three bytes only.
abbrev with_tries : List (Message × List FdSpec) → List Posting
with_tries [] = []
with_tries (s ∷ sent) = (s, Try.blocked ∷ took 3 ∷ []) ∷ with_tries sent

abbrev sent : List Posting
sent = with_tries (config_messages request stdio none)

abbrev answer : List Posting
answer = ((Message.exit (pos 3), []), []) ∷ []

abbrev queued : Memory
queued = (tagged (posted sent), 7 ∷ 8 ∷ 9 ∷ [])

abbrev answered : Memory
answered = (tagged (posted answer), [])

config_sent : Queued.send_messages memory sent ([], []) ≡ some (ok tt, queued)
unfolding Queued.send_messages Send.send send_loop Message.encode Message.fds Message.arg
    Message.end Message.session_type Header.encode to_le
config_sent = refl

answer_sent : Queued.send_messages memory answer ([], []) ≡ some (ok tt, answered)
unfolding Queued.send_messages Send.send Message.encode Message.exit Header.encode to_le
answer_sent = refl

session_over_unix_example :
    (received : List Event) × (back : List Event) × (rest : List Arrival) × (rest' : List Arrival)
    × (recv_each reader 4 (one_by_one queued.0) ≡ some (received, rest))
    × (coming rest ≡ [])
    × (serve_connection unix 0 none config
          (record { recvs = received ++ []; sends = ok tt ∷ []; sent = [] })
        ≡ some (ok tt, record { recvs = []; sends = []; sent = (Message.exit (pos 3), []) ∷ [] }))
    × (recv_each reader 1 (one_by_one answered.0) ≡ some (back, rest'))
    × (await_outcome (back ++ []) ≡ some (ok (exited (pos 3)), []))
unfolding build_command exit_code is_utf8 Message.encode Message.fds Message.arg Message.end
    Message.session_type Message.exit Header.encode to_le
session_over_unix_example =
    session_over_unix memory outbox reader inbox memory outbox reader inbox unix 0 none config
      request stdio none client
      (record client { sends = []; sent = config_messages request stdio none }) sent answer ([], [])
      queued ([], []) answered (one_by_one queued.0) (one_by_one answered.0)
      (record { program = id_text; args = id_text ∷ []; env = [] }) 5
      (record { code = some (pos 3); signal = none }) [] [] [] refl configured refl (omega arith)
      (omega arith) refl config_sent refl tt (refl, tt) tt (λ e. cc) refl refl refl (omega arith)
      refl (tt, tt) refl answer_sent refl
