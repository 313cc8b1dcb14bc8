-- ===== src/Core/Served.antt =====
-- Whole sessions: what the client sends, what the daemon does for it, and what the client makes of the
-- daemon's report.
use capsudo_rs.Base.{
  ℕ, ◌≡◌, ◌≢◌, false, refl, ap, ◌∙◌, List, [], ◌∷◌, ◌++◌, append_assoc, Option, some, All, arith,
}
use capsudo_rs.Base.Result.{Result, ok, err}
use capsudo_rs.Base.Int.{ℤ, pos, IsI32}
use capsudo_rs.Base.Utf8.{IsStr}
use capsudo_rs.Proto.Defs.{SessionType}
use capsudo_rs.Proto.Message
use capsudo_rs.Transport.Defs.{TransportError}
use capsudo_rs.Core.Defs.{
  CoreError, DaemonConfig, ClientRequest, Stdio, SessionRequest, exited, failed,
}
use capsudo_rs.Core.Channel.{Event, Channel, send, receiving}
use capsudo_rs.Core.Handshake.{Sent, config_messages}
use capsudo_rs.Core.Daemon.{receive_configuration}
use capsudo_rs.Core.Delivery.{deliver, delegated, IsDims, receive_configuration-config_messages}
use capsudo_rs.Core.Outcome.{events, await_outcome-exit, first_error, first_error-error, ended}
use capsudo_rs.Core.Client.{await_outcome}
use capsudo_rs.Core.Command.{Command, ExitStatus, build_command, exit_code, send_error, send_exit}
use capsudo_rs.Core.System.{System}
use capsudo_rs.Core.Session.{
  report, by_type, run_direct, run_and_report, served, serve_connection, launch,
}

send_ok :
    (code : ℤ) (recvs : List Event) (rest : List (Result TransportError (Unit {0})))
    (sent : List Sent)
    → send_exit code (record { recvs = recvs; sends = ok tt ∷ rest; sent = sent })
      ≡ some (
        ok tt,
        record { recvs = recvs; sends = rest; sent = sent ++ ((Message.exit code, []) ∷ []) },
      )
unfolding send_exit send
send_ok code recvs rest sent = refl

abbrev pub with_context : SessionRequest → Option (List ℕ) → SessionRequest
with_context q context = record q { secontext = context }

by_type-direct :
    (sys : System) (t : SessionType) (n : ℕ) (q : SessionRequest)
    → t ≢ SessionType.interactive
    → by_type sys t n q ≡ run_direct sys q
by_type-direct sys SessionType.interactive n q h = absurd (h refl)
by_type-direct sys t n q h = refl

module _ (sys : System) where
  -- A program that is spawned and waited for.
  run_direct-exit :
      (q : SessionRequest) (command : Command) (child : ℕ) (status : ExitStatus) (ch : Channel)
      → build_command q.argv q.envp ≡ some command
      → sys.spawn (launch q command) ≡ ok child
      → sys.wait child false ≡ ok status
      → run_direct sys q ch ≡ send_exit (exit_code status) ch
  unfolding run_direct report
  run_direct-exit q command child status ch built spawned waited = rw (built, spawned, waited) refl

  -- A session off a terminal, from end to end: for the messages that the client sends, the program
  -- that the daemon's policy makes of the request is spawned with the delegated descriptors, in the
  -- client's security context; the daemon sends its exit status once and nothing else, and the
  -- client reports that status as the program's own. The request's strings are UTF-8 and its
  -- dimensions `u16`s, the program can be spawned and ends, and the message can be sent.
  pub serve_connection-config_messages :
      (n : ℕ) (context : Option (List ℕ)) (c : DaemonConfig) (q : ClientRequest) (stdio : Stdio)
      (secret : Option (List ℕ)) (command : Command) (child : ℕ) (status : ExitStatus)
      (es es' : List Event) (rest : List (Result TransportError (Unit {0}))) (sent : List Sent)
      → All IsStr q.env
      → All IsStr q.args
      → IsDims q.winsize
      → q.session_type ≢ SessionType.interactive
      → build_command (delegated c q stdio).argv (delegated c q stdio).envp ≡ some command
      → sys.spawn (launch (with_context (delegated c q stdio) context) command) ≡ ok child
      → sys.wait child false ≡ ok status
      → IsI32 (exit_code status)
      → (serve_connection sys n context c (record {
        recvs = deliver (config_messages q stdio secret) ++ es;
        sends = ok tt ∷ rest;
        sent = sent;
      })
          ≡ some (
            ok tt,
            record {
              recvs = es;
              sends = rest;
              sent = sent ++ ((Message.exit (exit_code status), []) ∷ []);
            },
          ))
        × (await_outcome (events (Message.exit (exit_code status) ∷ []) ++ es')
            ≡ some (ok (exited (exit_code status)), es'))
  unfolding serve_connection run_and_report first_error
  serve_connection-config_messages n context c q stdio secret command child status es es' rest sent
        env_ok args_ok dims_ok direct built spawned waited range =
      let r = with_context (delegated c q stdio) context in
      let ch : Channel = record { recvs = es; sends = ok tt ∷ rest; sent = sent } in
      (
        ap (λ x. served sys n context (receiving (λ _. x) ch))
              (receive_configuration-config_messages c q stdio secret es env_ok args_ok dims_ok)
            ∙ ap (λ m. m ch) (by_type-direct sys q.session_type n r direct)
            ∙ run_direct-exit r command child status ch built spawned waited
            ∙ send_ok (exit_code status) es rest sent,
        await_outcome-exit [] (exit_code status) es' tt range,
      )

  -- A configuration that the daemon refuses, as malformed, incomplete or cut off, is answered and
  -- nothing else is sent: the client gets the reason and the status 1, and fails with them. The
  -- reason is UTF-8 and the messages can be sent.
  pub serve_connection-refusal :
      (n : ℕ) (context : Option (List ℕ)) (c : DaemonConfig) (e : CoreError)
      (recvs es es' : List Event) (rest : List (Result TransportError (Unit {0})))
      (sent : List Sent)
      → receive_configuration c recvs ≡ some (err e, es)
      → IsStr (sys.to_string e)
      → (serve_connection sys n context c
            (record { recvs = recvs; sends = ok tt ∷ ok tt ∷ rest; sent = sent })
          ≡ some (
            err e,
            record {
              recvs = es;
              sends = rest;
              sent =
                  sent ++ ((Message.error (sys.to_string e), []) ∷ (Message.exit (pos 1), []) ∷ []);
            },
          ))
        × (await_outcome
              (events (Message.error (sys.to_string e) ∷ Message.exit (pos 1) ∷ []) ++ es')
            ≡ some (ok (failed (pos 1) (sys.to_string e)), es'))
  unfolding serve_connection
  serve_connection-refusal n context c e recvs es es' rest sent refused text =
      let ch : Channel = record { recvs = recvs; sends = ok tt ∷ ok tt ∷ rest; sent = sent } in
      (
        ap (λ x. served sys n context (receiving (λ _. x) ch)) refused
            ∙ unfold send_error send_exit send in
              ap (λ x. some (err e, record { recvs = es; sends = rest; sent = x }))
                (append_assoc sent ((Message.error (sys.to_string e), []) ∷ [])
                  ((Message.exit (pos 1), []) ∷ [])),
        await_outcome-exit (Message.error (sys.to_string e) ∷ []) (pos 1) es'
              (((unfold Message.error in (λ x. cc)), (unfold Message.error in (λ x. cc))), tt)
              (omega arith)
            ∙ ap (λ f. some (ok (ended f (pos 1)), es')) (first_error-error (sys.to_string e) text),
      )
