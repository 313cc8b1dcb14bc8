-- ===== src/Core/Attenuation.antt =====
-- The daemon's policy over whatever a client sends.
use capsudo_rs.Base.{
  ℕ, ◌≡◌, refl, ap, ap₂, ◌∙◌, Bool, true, false, List, [], ◌∷◌, ◌++◌, append-nil, append_assoc,
  Option, none, some, if◌then◌else◌, arith, inl, inr, ◌⊎◌,
}
use capsudo_rs.Base.Result.{Result, ok, err}
use capsudo_rs.Proto.Defs.{FieldType}
use capsudo_rs.Proto.Accessors.{as_str}
use capsudo_rs.Transport.Defs.{Received}
use capsudo_rs.Core.Defs.{CoreError, DaemonConfig, SessionRequest}
use capsudo_rs.Core.Channel.{Event}
use capsudo_rs.Core.Daemon.{
  Draft, Turn, more, finished, take_field, receive_loop, initial, or_shell, finish,
  receive_configuration, finishing,
}
use capsudo_rs.Core.Command.{Command, build_command}

-- The payloads of the messages of one kind that come before `End`.
abbrev pub is_arg : FieldType → List ℕ → List (List ℕ)
is_arg FieldType.arg p = p ∷ []
is_arg other p = []

abbrev pub is_env : FieldType → List ℕ → List (List ℕ)
is_env FieldType.env p = p ∷ []
is_env other p = []

abbrev pub until_end : FieldType → List (List ℕ) → List (List ℕ)
until_end FieldType.end rest = []
until_end other rest = rest

unfoldable pub client_list : (FieldType → List ℕ → List (List ℕ)) → List Event → List (List ℕ)
client_list pick [] = []
client_list pick (err e ∷ es) = []
client_list pick (ok none ∷ es) = []
client_list pick (ok (some r) ∷ es) =
    until_end r.message.field_type
      (pick r.message.field_type r.message.payload ++ client_list pick es)

-- What the policy lets through of it.
abbrev pub kept : Bool → List (List ℕ) → List (List ℕ)
kept ignored list = if ignored then [] else list

pub kept-append : (b : Bool) (xs ys : List (List ℕ)) → kept b (xs ++ ys) ≡ kept b xs ++ kept b ys
kept-append true xs ys = refl
kept-append false xs ys = refl

-- What one message adds to the draft.
take_field-adds :
    (c : DaemonConfig) (r : Received) (d d' : Draft) (t : FieldType)
    → take_field c r d t ≡ ok (more d')
    → (d'.argv ≡ d.argv ++ kept c.no_client_argv (is_arg t r.message.payload))
      × (d'.envp ≡ d.envp ++ kept c.no_client_env (is_env t r.message.payload))
      × ((rest : List (List ℕ)) → until_end t rest ≡ rest)
unfolding take_field as_str
take_field-adds c r d d' FieldType.arg e =
    (ground (arith, append-nil d.argv), ground (arith, append-nil d.envp), λ rest. refl)
take_field-adds c r d d' FieldType.env e =
    (ground (arith, append-nil d.argv), ground (arith, append-nil d.envp), λ rest. refl)
take_field-adds c r d d' FieldType.end e = absurd (cc)
take_field-adds c r d d' t e =
    (ground (arith, append-nil d.argv), ground (arith, append-nil d.envp), λ rest. refl)

take_field-finished :
    (c : DaemonConfig) (r : Received) (d : Draft) (t : FieldType)
    → take_field c r d t ≡ ok finished
    → t ≡ FieldType.end
unfolding take_field
take_field-finished c r d FieldType.end e = refl
take_field-finished c r d t e = absurd (ground arith)

-- Where the loop stands after one message.
receive_loop-cases :
    (c : DaemonConfig) (d d' : Draft) (r : Received) (es rest : List Event)
    (x : Result CoreError Turn)
    → take_field c r d r.message.field_type ≡ x
    → receive_loop c d (ok (some r) ∷ es) ≡ some (ok d', rest)
    → ((x ≡ ok finished) × (d' ≡ d) × (rest ≡ es))
      ⊎ ((m : Draft) × (x ≡ ok (more m)) × (receive_loop c m es ≡ some (ok d', rest)))
unfolding receive_loop
receive_loop-cases c d d' r es rest (err y) q e = absurd (cc (rw (q, receive_loop) at e))
receive_loop-cases c d d' r es rest (ok finished) q e =
    let stopped : ◌≡◌ {A = Option (Result CoreError Draft × List Event)} (some (ok d, es))
        (some (ok d', rest)) =
      rw (q, receive_loop) at e in
    inl (refl, cc stopped, cc stopped)
receive_loop-cases c d d' r es rest (ok (more m)) q e = inr (m, refl, rw (q, receive_loop) at e)

receive_loop-lists :
    (c : DaemonConfig) (d d' : Draft) (es rest : List Event)
    → receive_loop c d es ≡ some (ok d', rest)
    → (d'.argv ≡ d.argv ++ kept c.no_client_argv (client_list is_arg es))
      × (d'.envp ≡ d.envp ++ kept c.no_client_env (client_list is_env es))
unfolding client_list
receive_loop-lists c d d' [] rest e = absurd (unfold receive_loop in cc)
receive_loop-lists c d d' (err x ∷ es) rest e = absurd (unfold receive_loop in cc)
receive_loop-lists c d d' (ok none ∷ es) rest e = absurd (unfold receive_loop in cc)
receive_loop-lists c d d' (ok (some r) ∷ es) rest e =
    elim (receive_loop-cases c d d' r es rest _ refl e) [
      | inl (stop, same, _) ↦
          let last = take_field-finished c r d r.message.field_type stop in
          rw (same, last) (ground (arith, append-nil d.argv), ground (arith, append-nil d.envp))
      | inr (m, go, more_e) ↦
          let (argv, envp, going) = take_field-adds c r d m r.message.field_type go in
          let (argv', envp') = receive_loop-lists c m d' es rest more_e in
          let p = r.message.payload in
          let t = r.message.field_type in
          (
            rw
                (
                  going (is_arg t p ++ client_list is_arg es),
                  argv',
                  argv,
                  kept-append c.no_client_argv (is_arg t p) (client_list is_arg es),
                )
                (append_assoc d.argv _ _),
            rw
                (
                  going (is_env t p ++ client_list is_env es),
                  envp',
                  envp,
                  kept-append c.no_client_env (is_env t p) (client_list is_env es),
                )
                (append_assoc d.envp _ _),
          )
    ]

finishing-ok :
    (x : Option (Result CoreError Draft × List Event)) (q : SessionRequest) (rest : List Event)
    → finishing x ≡ some (ok q, rest)
    → (d : Draft) × (x ≡ some (ok d, rest)) × (finish d ≡ ok q)
finishing-ok none q rest e = absurd (cc)
finishing-ok (some (err y, es)) q rest e = absurd (cc)
finishing-ok (some (ok d, es)) q rest e = (d, cc, cc)

finish-lists :
    (d : Draft) (q : SessionRequest)
    → finish d ≡ ok q
    → (q.argv ≡ or_shell d.argv) × (q.envp ≡ d.envp)
unfolding finish
finish-lists d q e = ground arith

-- What a daemon runs is decided by its policy: the program's arguments are the daemon's own, and
-- behind them the client's, unless those are ignored; with none at all a shell is run. The
-- environment entries are the daemon's own, and behind them the client's, unless those are ignored.
pub receive_configuration-policy :
    (c : DaemonConfig) (es rest : List Event) (q : SessionRequest)
    → receive_configuration c es ≡ some (ok q, rest)
    → (q.argv ≡ or_shell (c.fixed_args ++ kept c.no_client_argv (client_list is_arg es)))
      × (q.envp ≡ c.fixed_env ++ kept c.no_client_env (client_list is_env es))
unfolding receive_configuration initial
receive_configuration-policy c es rest q e =
    let (d, looped, done) = finishing-ok (receive_loop c (initial c) es) q rest e in
    let (argv, envp) = receive_loop-lists c (initial c) d es rest looped in
    let (argv', envp') = finish-lists d q done in (argv' ∙ ap or_shell argv, envp' ∙ envp)

build_command-or_shell :
    (argv envp : List (List ℕ))
    → (command : Command) × (build_command (or_shell argv) envp ≡ some command)
unfolding build_command
build_command-or_shell [] envp = (_, refl)
build_command-or_shell (program ∷ args) envp = (_, refl)

-- With both attenuations no client has a say: whatever two clients send, the same command is run
-- for both, if their configurations are accepted, and there is always a program to run.
pub attenuated_command :
    (c : DaemonConfig) (es es' rest rest' : List Event) (q q' : SessionRequest)
    → c.no_client_argv ≡ true
    → c.no_client_env ≡ true
    → receive_configuration c es ≡ some (ok q, rest)
    → receive_configuration c es' ≡ some (ok q', rest')
    → (command : Command) × (build_command q.argv q.envp ≡ some command)
      × (build_command q'.argv q'.envp ≡ some command)
attenuated_command c es es' rest rest' q q' f n e e' =
    let (argv, envp) = receive_configuration-policy c es rest q e in
    let (argv', envp') = receive_configuration-policy c es' rest' q' e' in
    let (command, built) = build_command-or_shell (c.fixed_args ++ []) (c.fixed_env ++ []) in
    (
      command,
      ap₂ build_command (argv ∙ rw f) (envp ∙ rw n) ∙ built,
      ap₂ build_command (argv' ∙ rw f) (envp' ∙ rw n) ∙ built,
    )
