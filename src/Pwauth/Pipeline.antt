-- ===== src/Pwauth/Pipeline.antt =====
-- The attenuation pipeline, `capsudod-pwauth ... -- capsudod ... -- program`: the front-end asks who the
-- client is, and the daemon that it chains to serves the rest of the same connection.
use capsudo_rs.Base.{ℕ, ◌≡◌, refl, true, List, [], ◌∷◌, ◌++◌, Option, none, some}
use capsudo_rs.Base.Result.{Result, ok}
use capsudo_rs.Proto.Message
use capsudo_rs.Transport.Defs.{TransportError, PeerCred}
use capsudo_rs.Unix.Connect.{peer_cred}
use capsudo_rs.Core.Defs.{ClientRequest, Stdio}
use capsudo_rs.Core.Channel.{Event, Channel}
use capsudo_rs.Core.Handshake.{config_messages}
use capsudo_rs.Core.Delivery.{deliver}
use capsudo_rs.Core.Command.{Command}
use capsudo_rs.Core.System.{System}
use capsudo_rs.Capsudod.CommandLine
use capsudo_rs.Capsudod.Serve
use capsudo_rs.Pwauth.Shadow.{check_password}
use capsudo_rs.Pwauth.Gate.{chained, handle_client, on_first}
use capsudo_rs.Pwauth.Front.{Host, handle}

-- A client's connection with what it sends, and room for the daemon's answer.
abbrev pub messages :
    ClientRequest
    → Stdio
    → Option (List ℕ)
    → List Event
    → List (Result TransportError (Unit {0}))
    → Channel
messages q stdio secret es rest = record {
  recvs = deliver (config_messages q stdio secret) ++ es;
  sends = ok tt ∷ rest;
  sent = [];
}

module _ (host : Host) where
  -- A client that begins with its secret is passed on with all that follows.
  pub handle-secret :
      (cmd : List (List ℕ)) (program : List ℕ) (args : List (List ℕ)) (cred : PeerCred)
      (user s : List ℕ) (q : ClientRequest) (stdio : Stdio) (es : List Event)
      (rest : List (Result TransportError (Unit {0})))
      → cmd ≡ program ∷ args
      → host.user_of cred.uid ≡ some user
      → check_password host.crypt host.shadow user s ≡ true
      → handle host cmd
          (record { channel = messages q stdio (some s) es rest; creds = ok cred; taken = true })
        ≡ some (chained program args, messages q stdio none es rest)
  unfolding handle_client on_first peer_cred Message.secret
  handle-secret cmd program args cred user s q stdio es rest given known verified =
      rw (known, verified, given) refl
