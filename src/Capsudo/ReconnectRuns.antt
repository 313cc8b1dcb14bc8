-- ===== src/Capsudo/ReconnectRuns.antt =====
-- A user who must authenticate, on a concrete front-end, and the theorem on both ends at that input.
use capsudo_rs.Base.{
  ℕ, ◌≡◌, refl, true, List, [], ◌∷◌, ◌++◌, none, some, arith, ◌==◌, if◌then◌else◌,
}
use capsudo_rs.Base.Result.{ok}
use capsudo_rs.Base.Int.{pos, i32_bits}
use capsudo_rs.Base.Utf8.{IsStr, is_utf8}
use capsudo_rs.Proto.Message
use capsudo_rs.Transport.Defs.{PeerCred}
use capsudo_rs.Core.Channel.{Event, Channel, send}
use capsudo_rs.Core.Client.{send_configuration, send_each}
use capsudo_rs.Core.Handshake.{Sent, config_messages}
use capsudo_rs.Core.Command.{split_once, str_eq}
use capsudo_rs.Core.Outcome.{events}
use capsudo_rs.Pwauth.Shadow.{check_password, stored_hash, find_user, lines}
use capsudo_rs.Pwauth.Gate.{closed, chained, auth_prompt}
use capsudo_rs.Pwauth.Front.{Host, handle}
use capsudo_rs.Pwauth.Pipeline.{messages}
use capsudo_rs.Capsudo.Retry.{connect_loop}
use capsudo_rs.Capsudo.Runs.{request, stdio, secret, typed, serving}
use capsudo_rs.Capsudo.Reconnect.{connect_loop-demand}

abbrev kim : List ℕ
kim = b'k' ∷ b'i' ∷ b'm' ∷ []

-- The line `kim:pw:`, under a `crypt` whose hash is the key.
abbrev host : Host
host = record {
  users = λ _. none;
  groups = λ _. none;
  user_of = λ uid. if uid == 1000 then some kim else none;
  name = none;
  crypt = λ key salt. some key;
  shadow = some (kim ++ (b':' ∷ b'p' ∷ b'w' ∷ b':' ∷ []));
  answer = λ _. ok tt;
}

abbrev cred : PeerCred
cred = record { pid = pos 7; uid = 1000; gid = 1000 }

abbrev prompt : List ℕ
prompt = auth_prompt none kim

-- The client's side of the two connections.
abbrev refusing : Channel
refusing = record {
  recvs = events (Message.unauthorized prompt ∷ []);
  sends = ok tt ∷ ok tt ∷ ok tt ∷ [];
  sent = [];
}

first_sent :
    send_configuration request stdio none refusing
    ≡ some (ok tt, record refusing { sends = []; sent = config_messages request stdio none })
unfolding send_configuration send_each send
first_sent = refl

then_sent :
    send_configuration request stdio (some secret) serving
    ≡ some
        (ok tt, record serving { sends = []; sent = config_messages request stdio (some secret) })
unfolding send_configuration send_each send
then_sent = refl

verified : check_password host.crypt host.shadow kim secret ≡ true
unfolding check_password stored_hash find_user lines split_once str_eq
verified = refl

prompt-IsStr : IsStr prompt
unfolding is_utf8 auth_prompt
prompt-IsStr = refl

connect_loop-demand_example :
    ((left : List Event) × (handle host
          (secret ∷ [])
          (record { channel = messages request stdio none [] []; creds = ok cred; taken = true })
        ≡ some (
          closed,
          record { recvs = left; sends = []; sent = (Message.unauthorized prompt, []) ∷ [] },
        )))
    × (handle host (secret ∷ []) (record {
      channel = messages request stdio (some secret) [] [];
      creds = ok cred;
      taken = true;
    })
        ≡ some (chained secret [], messages request stdio none [] []))
    × (connect_loop typed request stdio none (some refusing ∷ some serving ∷ []) tt
        ≡ some (
          3,
          some (record { recvs = []; sends = []; sent = config_messages request stdio none })
              ∷ some (record {
                recvs = [];
                sends = [];
                sent = config_messages request stdio (some secret);
              })
              ∷ [],
          tt,
        ))
    × ((back : List Sent) × (config_messages request stdio none
          ≡ config_messages request stdio none ++ back))
    × (config_messages request stdio (some secret) ≡ config_messages request stdio (some secret))
unfolding i32_bits
connect_loop-demand_example =
    connect_loop-demand typed host request stdio secret [] cred kim secret true [] [] [] [] refusing
      serving (record refusing { sends = []; sent = config_messages request stdio none })
      (record serving { sends = []; sent = config_messages request stdio (some secret) }) (ok tt) []
      [] (pos 3) [] tt tt refl verified prompt-IsStr refl refl refl refl refl first_sent then_sent
      (omega arith)
