-- ===== src/Core/Reports.antt =====
-- What a daemon's session has told the client when it ends well.
use capsudo_rs.Base.{
  ℕ, ◌≡◌, refl, sym, ap, ◌∙◌, Bool, true, false, List, [], ◌∷◌, ◌++◌, Option, none, some, arith,
}
use capsudo_rs.Base.Result.{Result, ok, err}
use capsudo_rs.Base.Int.{pos}
use capsudo_rs.Proto.Defs.{SessionType}
use capsudo_rs.Proto.Message
use capsudo_rs.Transport.Defs.{IoError}
use capsudo_rs.Core.Defs.{CoreError, DaemonConfig, SessionRequest}
use capsudo_rs.Core.Channel.{Channel, return, ◌>>=◌, ◌>>◌}
use capsudo_rs.Core.Daemon.{receive_configuration}
use capsudo_rs.Core.Command.{build_command, exit_code, send_error, send_exit, ignoring}
use capsudo_rs.Core.Relay.{relay}
use capsudo_rs.Core.System.{System, master_in, master_out, slave_in, slave_out}
use capsudo_rs.Core.Pty.{
  try_io, watching, start_bridge, joined, is_ok, stop, attend, when_spawned, run_interactive, head,
}
use capsudo_rs.Core.Session.{
  report, by_type, run_direct, run_and_report, served, serve_connection, launch,
}
use capsudo_rs.Core.Actions.{
  Action, EndsInExit, Exits, IsQuiet, try_io-IsQuiet, watching-IsQuiet, send_exit-Exits,
  send_spawn_failure-Exits, with_command-Exits, return-Fails, ignoring-Fails, receiving-IsQuiet,
  >>=-Exits, >>=-IsQuiet,
}

joined-IsQuiet : (input output : Option (List ℕ)) → IsQuiet (joined input output)
joined-IsQuiet (some input) (some output) ch ch' b e =
    let same : ch ≡ ch' = cc in ap (λ c. c.sent) (sym same)
joined-IsQuiet (some input) none ch ch' b e = absurd (ground arith)
joined-IsQuiet none output ch ch' b e = absurd (ground arith)

module _ (sys : System) where
  when_spawned-Exits :
      (k : ℕ → Action) (program : List ℕ) (r : Result IoError ℕ)
      → ((child : ℕ) → Exits (k child))
      → Exits (when_spawned sys k program r)
  when_spawned-Exits k program (ok child) exits = exits child
  when_spawned-Exits k program (err e) exits =
      send_spawn_failure-Exits (sys.unable_to_run program e)

  start_bridge-IsQuiet : IsQuiet (start_bridge sys)
  unfolding start_bridge
  start_bridge-IsQuiet =
      >>=-IsQuiet (try_io sys.pipe) (λ _. try_io (sys.try_clone master_in))
        (try_io-IsQuiet sys.pipe) (λ _. try_io-IsQuiet (sys.try_clone master_in))

  abbrev waited : ℕ → Bool → Action
  waited child killed = try_io (sys.wait child killed) >>= λ status. send_exit (exit_code status)

  waited-Exits : (child : ℕ) (killed : Bool) → Exits (waited child killed)
  waited-Exits child killed =
      >>=-Exits (try_io (sys.wait child killed)) (λ status. send_exit (exit_code status))
        (try_io-IsQuiet (sys.wait child killed)) (λ status. send_exit-Exits (exit_code status))

  stop-IsQuiet : IsQuiet (stop sys)
  unfolding stop
  stop-IsQuiet ch ch' b e =
      joined-IsQuiet (relay true (sys.typed (is_ok sys.cancel))) (relay false sys.shown) ch ch' b e

  abbrev torn_down : ℕ → Bool → Action
  torn_down child killed =
      try_io (sys.wait child killed) >>= λ status. stop sys >> send_exit (exit_code status)

  torn_down-Exits : (child : ℕ) (killed : Bool) → Exits (torn_down child killed)
  torn_down-Exits child killed =
      >>=-Exits (try_io (sys.wait child killed))
        (λ status. stop sys >> send_exit (exit_code status))
        (try_io-IsQuiet (sys.wait child killed))
        (λ status.
          >>=-Exits (stop sys) (λ _. send_exit (exit_code status)) stop-IsQuiet
            (λ _. send_exit-Exits (exit_code status)))

  attend-Exits : (n child : ℕ) → Exits (attend sys n child)
  unfolding attend
  attend-Exits n child =
      >>=-Exits (try_io (sys.try_clone master_out) >> start_bridge sys >> watching n)
        (torn_down child)
        (>>=-IsQuiet (try_io (sys.try_clone master_out) >> start_bridge sys) (λ _. watching n)
          (>>=-IsQuiet (try_io (sys.try_clone master_out)) (λ _. start_bridge sys)
            (try_io-IsQuiet (sys.try_clone master_out)) (λ _. start_bridge-IsQuiet))
          (λ _. watching-IsQuiet n))
        (torn_down-Exits child)

  run_interactive-Exits : (n : ℕ) (q : SessionRequest) → Exits (run_interactive sys n q)
  unfolding run_interactive
  run_interactive-Exits n q =
      >>=-Exits (try_io (sys.openpty q.winsize)) _ (try_io-IsQuiet (sys.openpty q.winsize)) λ pty.
        with_command-Exits (build_command q.argv q.envp) _ λ c.
          >>=-Exits (try_io (sys.try_clone slave_in) >> try_io (sys.try_clone slave_out)) _
            (>>=-IsQuiet (try_io (sys.try_clone slave_in)) (λ _. try_io (sys.try_clone slave_out))
              (try_io-IsQuiet (sys.try_clone slave_in))
              (λ _. try_io-IsQuiet (sys.try_clone slave_out)))
            (λ _. when_spawned-Exits (attend sys n) (head q.argv) _ (attend-Exits n))

  run_direct-Exits : (q : SessionRequest) → Exits (run_direct sys q)
  unfolding run_direct report
  run_direct-Exits q = with_command-Exits (build_command q.argv q.envp) _ λ c.
      when_spawned-Exits (report sys) (head q.argv) (sys.spawn (launch q c))
        (λ child. waited-Exits child false)

  by_type-Exits : (t : SessionType) (n : ℕ) (q : SessionRequest) → Exits (by_type sys t n q)
  by_type-Exits SessionType.interactive n q = run_interactive-Exits n q
  by_type-Exits t n q = run_direct-Exits q

  run_and_report-Exits : (n : ℕ) (q : SessionRequest) → Exits (run_and_report sys n q)
  unfolding run_and_report
  run_and_report-Exits n q = by_type-Exits q.session_type n q

  served-Exits :
      (n : ℕ) (context : Option (List ℕ)) (x : Option (Result CoreError SessionRequest × Channel))
      (ch' : Channel)
      → served sys n context x ≡ some (ok tt, ch')
      → (q : SessionRequest) × (ch1 : Channel) × (x ≡ some (ok q, ch1)) × EndsInExit ch1 ch'
  served-Exits n context none ch' e = absurd (ground arith)
  served-Exits n context (some (ok q, ch1)) ch' e =
      (q, ch1, refl, run_and_report-Exits n (record q { secontext = context }) ch1 ch' e)
  served-Exits n context (some (err x, ch1)) ch' e = absurd (
      ignoring-Fails (send_error (sys.to_string x)) (ignoring (send_exit (pos 1)) (return (err x)))
        (ignoring-Fails (send_exit (pos 1)) (return (err x)) (return-Fails x)) ch1 ch' e)

  -- A session that the daemon ends without an error has told the client an exit status, as its last
  -- message: whether the program ran on a terminal or not, exited, was killed when the client hung
  -- up, or could not be spawned.
  pub serve_connection-Exits :
      (n : ℕ) (context : Option (List ℕ)) (c : DaemonConfig) (ch ch' : Channel)
      → serve_connection sys n context c ch ≡ some (ok tt, ch')
      → EndsInExit ch ch'
  unfolding serve_connection
  serve_connection-Exits n context c ch ch' e =
      let (q, ch1, read, (code, front, sent)) = served-Exits n context _ ch' e in
      (
        code,
        front,
        sent
            ∙ ap (λ x. x ++ (front ++ ((Message.exit code, []) ∷ [])))
                (receiving-IsQuiet (receive_configuration c) ch ch1 q read),
      )
