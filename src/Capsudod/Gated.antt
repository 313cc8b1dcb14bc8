-- ===== src/Capsudod/Gated.antt =====
-- What `main` of capsudod does of a whole command line.
use capsudo_rs.Base.{ℕ, ◌≡◌, refl, ap, ◌∙◌, List, [], ◌∷◌, ◌++◌, Option, none, All}
use capsudo_rs.Base.Result.{Result, ok, err}
use capsudo_rs.Transport.Defs.{TransportError}
use capsudo_rs.Core.Defs.{DaemonConfig}
use capsudo_rs.Core.System.{System}
use capsudo_rs.Capsudod.Options.{Options, flag, defaults, policy}
use capsudo_rs.Capsudod.CommandLine.{
  Setting, arguments, IsValid, configured, last_socket, env_settings, has_pin_argv, has_pin_env,
  parse_options-arguments,
}
use capsudo_rs.Capsudod.Serve.{Connection, Host, on_socket, on_options, one_shot, main}

-- The policy that settings and a program are meant to give.
abbrev pub pinned : List Setting → List (List ℕ) → DaemonConfig
pinned ss program = record {
  fixed_args = program;
  fixed_env = env_settings ss;
  no_client_argv = has_pin_argv ss;
  no_client_env = has_pin_env ss;
}

policy-configured :
    (users : List ℕ → Option (ℕ × ℕ)) (groups : List ℕ → Option ℕ) (ss : List Setting)
    (program : List (List ℕ))
    → policy (configured users groups defaults ss program) ≡ pinned ss program
unfolding policy defaults
policy-configured users groups ss program = refl

-- The connections that were made.
abbrev pub accepted : List (Result TransportError Connection) → List Connection
accepted [] = []
accepted (err e ∷ accepts) = accepted accepts
accepted (ok conn ∷ accepts) = conn ∷ accepted accepts

abbrev pub each {ℓ} : {A : Type 0} {B : Type ℓ} → (A → B) → List A → List B
each f [] = []
each f (x ∷ xs) = f x ∷ each f xs

module _ (sys : System) where
  module _ (users : List ℕ → Option (ℕ × ℕ)) (groups : List ℕ → Option ℕ) where
    -- `main` on a command line whose options are understood.
    main-arguments :
        (ss : List Setting) (program : List (List ℕ)) (host : Host)
        → All (IsValid users groups) ss
        → main sys users groups (arguments ss ++ (flag b'-' ∷ program)) host
          ≡ on_socket sys (last_socket none ss) (configured users groups defaults ss program) host
    unfolding main defaults
    main-arguments ss program host valid =
        ap (λ o. on_options sys o host) (parse_options-arguments users groups ss program valid)

    -- Without a socket it serves stdin.
    pub main-one_shot :
        (ss : List Setting) (program : List (List ℕ)) (host : Host)
        → All (IsValid users groups) ss
        → last_socket none ss ≡ none
        → main sys users groups (arguments ss ++ (flag b'-' ∷ program)) host
          ≡ one_shot sys (pinned ss program) host
    main-one_shot ss program host valid no_socket =
        main-arguments ss program host valid
        ∙ ap (λ s. on_socket sys s (configured users groups defaults ss program) host) no_socket
        ∙ ap (λ c. one_shot sys c host) (policy-configured users groups ss program)
