-- ===== src/Core/Runs.antt =====
-- A session on concrete messages, and the theorems of this part at concrete inputs.
use capsudo_rs.Base.{ℕ, ◌≡◌, refl, true, false, List, [], ◌∷◌, ◌++◌, none, some, arith}
use capsudo_rs.Base.Result.{ok, err}
use capsudo_rs.Base.Utf8.{is_utf8}
use capsudo_rs.Proto.Defs.{FieldType, SessionType, Message}
use capsudo_rs.Proto.Message
use capsudo_rs.Transport.Defs.{TransportError}
use capsudo_rs.Core.Defs.{CoreError, DaemonConfig, SessionRequest, ClientRequest}
use capsudo_rs.Core.Channel.{Event, Channel, send}
use capsudo_rs.Core.Daemon.{
  take_field, receive_loop, initial, finish, receive_configuration, or_shell,
}
use capsudo_rs.Core.Client.{send_configuration}
use capsudo_rs.Core.Command.{Command, build_command}
use capsudo_rs.Core.Attenuation.{
  receive_configuration-policy, attenuated_command, kept, client_list, is_arg, is_env,
}
use capsudo_rs.Core.Handshake.{config_messages, plain}
use capsudo_rs.Core.Delivery.{deliver, delegated, receive_configuration-config_messages}

abbrev id_text : List ℕ
id_text = b'i' ∷ b'd' ∷ []

abbrev reboot : List ℕ
reboot = b'r' ∷ b'b' ∷ []

-- The daemon pins `rb`, and takes nothing from its clients.
abbrev pinned : DaemonConfig
pinned = record {
  fixed_args = reboot ∷ [];
  fixed_env = [];
  no_client_argv = true;
  no_client_env = true;
}

abbrev stdio_end : List Event
stdio_end =
    ok (
      some (record {
        message = record { field_type = FieldType.fd; payload = [] };
        fds = 7 ∷ 8 ∷ 9 ∷ [];
      }))
    ∷ ok (some (record { message = record { field_type = FieldType.end; payload = [] }; fds = [] }))
    ∷ []

abbrev ask_id : List Event
ask_id =
    ok (
      some
        (record { message = record { field_type = FieldType.arg; payload = id_text }; fds = [] }))
    ∷ stdio_end

abbrev pinned_request : SessionRequest
pinned_request = record {
  argv = reboot ∷ [];
  envp = [];
  session_type = SessionType.non_interactive;
  stdio = (7, 8, 9);
  winsize = (24, 80, 0, 0);
  secontext = none;
}

run_id : receive_configuration pinned ask_id ≡ some (ok pinned_request, [])
unfolding receive_configuration receive_loop take_field initial finish
run_id = refl

run_nothing : receive_configuration pinned stdio_end ≡ some (ok pinned_request, [])
unfolding receive_configuration receive_loop take_field initial finish
run_nothing = refl

receive_configuration-policy_example :
    (pinned_request.argv ≡ or_shell ((reboot ∷ []) ++ kept true (client_list is_arg ask_id)))
    × (pinned_request.envp ≡ [] ++ kept true (client_list is_env ask_id))
receive_configuration-policy_example =
    receive_configuration-policy pinned ask_id [] pinned_request run_id

attenuated_command_example :
    (command : Command) × (build_command (reboot ∷ []) [] ≡ some command)
    × (build_command (reboot ∷ []) [] ≡ some command)
attenuated_command_example =
    attenuated_command pinned ask_id stdio_end [] [] pinned_request pinned_request refl refl run_id
      run_nothing

abbrev run_as : DaemonConfig
run_as = record pinned { no_client_argv = false; no_client_env = false }

abbrev request : ClientRequest
request = record {
  args = id_text ∷ [];
  env = (b'A' ∷ b'=' ∷ b'1' ∷ []) ∷ [];
  session_type = SessionType.interactive;
  winsize = some (24, 80, 0, 0);
}

id_text-IsStr : is_utf8 id_text ≡ true
unfolding is_utf8
id_text-IsStr = refl

env_text-IsStr : is_utf8 (b'A' ∷ b'=' ∷ b'1' ∷ []) ≡ true
unfolding is_utf8
env_text-IsStr = refl

receive_configuration-config_messages_example :
    receive_configuration run_as (deliver (config_messages request (0, 1, 2) none) ++ [])
    ≡ some (ok (delegated run_as request (0, 1, 2)), [])
receive_configuration-config_messages_example =
    receive_configuration-config_messages run_as request (0, 1, 2) none [] (env_text-IsStr, tt)
      (id_text-IsStr, tt) (omega arith)

-- A channel that breaks after two messages.
abbrev broken : Channel
broken = record {
  recvs = [];
  sends = ok tt ∷ ok tt ∷ err TransportError.unexpected_eof ∷ [];
  sent = [];
}

abbrev broken_after : Channel
broken_after = record {
  recvs = [];
  sends = [];
  sent = plain Message.env request.env ++ plain Message.arg request.args;
}

send_broken :
    send_configuration request (0, 1, 2) none broken
    ≡ some (err (CoreError.transport TransportError.unexpected_eof), broken_after)
unfolding send_configuration send
send_broken = refl

abbrev complaint : Message
complaint = record { field_type = FieldType.error; payload = id_text }
