-- ===== src/Capsudo/RawPrompt.antt =====
-- The prompt for a secret in an interactive session, whose terminal `main` has put into raw mode before
-- it connects.
use capsudo_rs.Base.{ℕ, ◌≡◌, refl, ap, ◌∙◌, true, false, List, ◌∷◌, Option, none, some}
use capsudo_rs.Base.Result.{ok}
use capsudo_rs.Proto.Defs.{SessionType}
use capsudo_rs.Core.Defs.{ClientRequest, unauthorized}
use capsudo_rs.Core.Channel.{Channel}
use capsudo_rs.Core.Client.{run_session}
use capsudo_rs.Capsudo.Options.{Options, parse_options}
use capsudo_rs.Capsudo.Retry.{asked, after_session, connect_loop, prompt_waits}
use capsudo_rs.Capsudo.Terminal.{Termios, RawCalls, PromptCalls, enable, prompt_secret, quiet}
use capsudo_rs.Capsudo.Program.{
  Host, raw_guard, client_request, leave, run_guarded, run, on_options, main,
}

-- A prompt on a terminal that does not give a line.
prompt_secret-waits :
    (calls : PromptCalls) (prompt : List ℕ) (t : Termios)
    → calls.open_tty ≡ ok tt
    → calls.get ≡ ok tt
    → calls.set_quiet ≡ ok tt
    → calls.read_line (quiet t) ≡ none
    → prompt_secret calls prompt t ≡ none
unfolding prompt_secret
prompt_secret-waits calls prompt t opened got set waits = rw (opened, got, set, waits) refl

enable-raw :
    (cfmakeraw : Termios → Termios) (calls : RawCalls) (t : Termios)
    → calls.get ≡ ok tt
    → calls.set ≡ ok tt
    → enable cfmakeraw calls t ≡ (some (record { original = t }), cfmakeraw t)
unfolding enable
enable-raw cfmakeraw calls t got set = rw (got, set) refl

-- A session that demands a secret, while the prompt for it waits.
connect_loop-waits :
    (calls : PromptCalls) (q : ClientRequest) (ch ch' : Channel) (prompt : List ℕ)
    (cs : List (Option Channel)) (t : Termios)
    → run_session q (0, 1, 2) none ch ≡ some (ok (unauthorized prompt), ch')
    → prompt_secret calls prompt t ≡ none
    → connect_loop (prompt_secret calls) q (0, 1, 2) none (some ch ∷ cs) t ≡ none
connect_loop-waits calls q ch ch' prompt cs t ran waits =
    prompt_waits (prompt_secret calls) q (0, 1, 2) none ch ch' (ok (unauthorized prompt)) cs t ran
      (unfold after_session in ap asked waits)

-- In an interactive session the secret cannot be entered with the Enter key. The terminal is in raw
-- mode when the daemon demands a secret, and the prompt turns line input on again, but not the
-- translation of the carriage return that Enter sends: the line never ends, and the client, which has
-- connected and run a session, does not return. `cfmakeraw` turns that translation off, and a terminal
-- in line mode without it gives no line for what the user types; the calls on the terminal succeed.
pub main-enter_waits :
    (host : Host) (args : List (List ℕ)) (o : Options) (t : Termios) (ch ch' : Channel)
    (prompt : List ℕ) (cs : List (Option Channel))
    → parse_options args ≡ some o
    → (client_request host o).session_type ≡ SessionType.interactive
    → host.raw.get ≡ ok tt
    → host.raw.set ≡ ok tt
    → (host.cfmakeraw t).icrnl ≡ false
    → host.prompting.open_tty ≡ ok tt
    → host.prompting.get ≡ ok tt
    → host.prompting.set_quiet ≡ ok tt
    → ((s : Termios) → s.icanon ≡ true → s.icrnl ≡ false → host.prompting.read_line s ≡ none)
    → host.connections ≡ some ch ∷ cs
    → run_session (client_request host o) (0, 1, 2) none ch ≡ some (ok (unauthorized prompt), ch')
    → main host args t ≡ none
unfolding main run
main-enter_waits host args o t ch ch' prompt cs parsed interactive got set raw opened got' set'
      discipline connected ran =
    let q = client_request host o in
    let r = host.cfmakeraw t in
    let waits : prompt_secret host.prompting prompt r ≡ none =
      prompt_secret-waits host.prompting prompt r opened got' set'
        (discipline (quiet r) refl raw) in
    ap (on_options host t) parsed
    ∙ ap (λ ty. run_guarded host q (raw_guard ty host t)) interactive
    ∙ ap (run_guarded host q) (enable-raw host.cfmakeraw host.raw t got set)
    ∙ ap
        (λ c.
          leave host (some (record { original = t }))
            (connect_loop (prompt_secret host.prompting) q (0, 1, 2) none c r))
        connected
    ∙ ap (leave host (some (record { original = t })))
        (connect_loop-waits host.prompting q ch ch' prompt cs r ran waits)
