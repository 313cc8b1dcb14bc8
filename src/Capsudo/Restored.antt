-- ===== src/Capsudo/Restored.antt =====
-- What becomes of the terminal of capsudo, from the start of `main` to its end.
use capsudo_rs.Base.{
  ℕ, ◌≡◌, refl, sym, ap, ◌∙◌, List, [], ◌∷◌, Option, none, some, Option-cases, inl, inr, arith,
}
use capsudo_rs.Base.Result.{Result, ok, err}
use capsudo_rs.Proto.Defs.{SessionType}
use capsudo_rs.Transport.Defs.{IoError}
use capsudo_rs.Core.Defs.{
  CoreError, ClientRequest, Stdio, SessionOutcome, exited, failed, unauthorized,
}
use capsudo_rs.Core.Channel.{Channel}
use capsudo_rs.Core.Client.{run_session}
use capsudo_rs.Capsudo.Options.{parse_options}
use capsudo_rs.Capsudo.Retry.{Next, exits, again, asked, proceed, after_session, connect_loop}
use capsudo_rs.Capsudo.Terminal.{
  Termios, RawMode, RawCalls, PromptCalls, raw_get, tcsetattr, with_line, enable, drop, after_open,
  prompt_secret, while_read,
}
use capsudo_rs.Capsudo.Program.{
  Host, raw_guard, client_request, leave, run_guarded, run, on_options, main,
}

module _ {S : Type 0} (prompt_secret : List ℕ → S → Option (Option (List ℕ) × S)) where
  -- A prompt that leaves the terminal as it was.
  abbrev Keeps : Type 0
  Keeps =
      (prompt : List ℕ) (t t' : S) (o : Option (List ℕ))
      → prompt_secret prompt t ≡ some (o, t')
      → t' ≡ t

  asked-keeps :
      (o : Option (Option (List ℕ) × S)) (t t' : S) (n : Next)
      → ((x : Option (List ℕ)) (t'' : S) → o ≡ some (x, t'') → t'' ≡ t)
      → asked o ≡ some (n, t')
      → t' ≡ t
  asked-keeps none t t' n h e = absurd (ground arith)
  asked-keeps (some (none, t'')) t t' n h e = sym (cc) ∙ h none t'' refl
  asked-keeps (some (some s, t'')) t t' n h e = sym (cc) ∙ h (some s) t'' refl

  after_session-keeps :
      (secret : Option (List ℕ)) (r : Result CoreError SessionOutcome) (t t' : S) (n : Next)
      → Keeps
      → after_session prompt_secret secret r t ≡ some (n, t')
      → t' ≡ t
  unfolding after_session
  after_session-keeps secret (ok (exited code)) t t' n h e = cc
  after_session-keeps secret (ok (failed code message)) t t' n h e = cc
  after_session-keeps none (ok (unauthorized prompt)) t t' n h e =
      asked-keeps (prompt_secret prompt t) t t' n (λ o t'' p. h prompt t t'' o p) e
  after_session-keeps (some s) (ok (unauthorized prompt)) t t' n h e = cc
  after_session-keeps secret (err x) t t' n h e = cc

  module _ (q : ClientRequest) (stdio : Stdio) where
    proceed-keeps :
        (c : Option Channel) (o : Option (Next × S)) (cs n : List (Option Channel)) (t t' : S)
        (code : ℕ)
        → ((x : Next) (t'' : S) → o ≡ some (x, t'') → t'' ≡ t)
        → ((s : List ℕ) (t1 : S) (n' : List (Option Channel))
            → connect_loop prompt_secret q stdio (some s) cs t1 ≡ some (code, n', t')
            → t' ≡ t1)
        → proceed c o (λ s t1. connect_loop prompt_secret q stdio (some s) cs t1)
          ≡ some (code, n, t')
        → t' ≡ t
    proceed-keeps c none cs n t t' code h rest e = absurd (ground arith)
    proceed-keeps c (some (exits d, t'')) cs n t t' code h rest e = sym (cc) ∙ h (exits d) t'' refl
    proceed-keeps c (some (again s, t'')) cs n t t' code h rest e =
        elim (Option-cases (connect_loop prompt_secret q stdio (some s) cs t'')) [
          | inl waits ↦ absurd (ground arith)
          | inr ((d, m, t1), ran) ↦ rest s t'' m (ground arith) ∙ h (again s) t'' refl
        ]

    connect_loop-keeps :
        (secret : Option (List ℕ)) (cs n : List (Option Channel)) (t t' : S) (code : ℕ)
        → Keeps
        → connect_loop prompt_secret q stdio secret cs t ≡ some (code, n, t')
        → t' ≡ t
    unfolding connect_loop
    connect_loop-keeps secret [] n t t' code h e = absurd (ground arith)
    connect_loop-keeps secret (none ∷ cs) n t t' code h e = cc
    connect_loop-keeps secret (some ch ∷ cs) n t t' code h e =
        elim (Option-cases (run_session q stdio secret ch)) [
          | inl waits ↦ absurd (ground arith)
          | inr ((r, ch'), ran) ↦
              proceed-keeps (some ch') (after_session prompt_secret secret r t) cs n t t' code
                (λ x t'' p. after_session-keeps secret r t t'' x h p)
                (λ s t1 n' p. connect_loop-keeps (some s) cs n' t1 t' code h p)
                (rw (ran, connect_loop) at e)
        ]

-- The prompt puts back what it found, if it can.
with_line-keeps :
    (line : Option (Option (List ℕ))) (t t1 t' : Termios) (o : Option (List ℕ))
    → t1 ≡ t
    → with_line line t1 ≡ some (o, t')
    → t' ≡ t
with_line-keeps none t t1 t' o h e = absurd (ground arith)
with_line-keeps (some line) t t1 t' o h e = cc

after_open-keeps :
    (a b : Result IoError (Unit {0})) (calls : PromptCalls) (t t' : Termios) (o : Option (List ℕ))
    → calls.restore ≡ ok tt
    → after_open a b calls t ≡ some (o, t')
    → t' ≡ t
after_open-keeps (err x) b calls t t' o h e = cc
after_open-keeps (ok u) (err x) calls t t' o h e = cc
after_open-keeps (ok u) (ok v) calls t t' o h e =
    with_line-keeps (calls.read_line (while_read calls t)) t
      (tcsetattr calls.restore t (while_read calls t)) t' o
      (ap (λ r. tcsetattr r t (while_read calls t)) h) e

prompt_secret-keeps :
    (calls : PromptCalls) (prompt : List ℕ) (t t' : Termios) (o : Option (List ℕ))
    → calls.restore ≡ ok tt
    → prompt_secret calls prompt t ≡ some (o, t')
    → t' ≡ t
unfolding prompt_secret
prompt_secret-keeps calls prompt t t' o h e =
    after_open-keeps calls.open_tty calls.get calls t t' o h e

raw_get-drop :
    (get set : Result IoError (Unit {0})) (raw t : Termios) (calls : RawCalls)
    → calls.restore ≡ ok tt
    → drop (raw_get get set raw t).0 calls (raw_get get set raw t).1 ≡ t
unfolding drop
raw_get-drop (err e) set raw t calls h = refl
raw_get-drop (ok u) (err e) raw t calls h = refl
raw_get-drop (ok u) (ok v) raw t calls h = ap (λ r. tcsetattr r t raw) h

-- The terminal of two equal results.
same_terminal :
    (c code : ℕ) (t t' : Termios)
    → ◌≡◌ {A = Option (ℕ × Termios)} (some (c, t)) (some (code, t'))
    → t' ≡ t
same_terminal c code t t' e = cc

raw_guard-drop :
    (host : Host) (ty : SessionType) (t : Termios)
    → host.raw.restore ≡ ok tt
    → drop (raw_guard ty host t).0 host.raw (raw_guard ty host t).1 ≡ t
unfolding drop enable
raw_guard-drop host SessionType.interactive t h =
    raw_get-drop host.raw.get host.raw.set (host.cfmakeraw t) t host.raw h
raw_guard-drop host other t h = refl

run_guarded-restores :
    (host : Host) (q : ClientRequest) (g : Option RawMode) (t0 t t' : Termios) (code : ℕ)
    → host.prompting.restore ≡ ok tt
    → drop g host.raw t ≡ t0
    → run_guarded host q (g, t) ≡ some (code, t')
    → t' ≡ t0
run_guarded-restores host q g t0 t t' code h k e =
    elim (Option-cases
      (connect_loop (prompt_secret host.prompting) q (0, 1, 2) none host.connections t)) [
        | inl waits ↦ absurd (ground arith)
        | inr ((c, n, t1), ran) ↦
            same_terminal c code (drop g host.raw t1) t' (ap (leave host g) (sym ran) ∙ e)
            ∙ ap (drop g host.raw) (
                connect_loop-keeps (prompt_secret host.prompting) q (0, 1, 2) none host.connections
                  n t t1 c
                  (λ prompt t2 t3 o p. prompt_secret-keeps host.prompting prompt t2 t3 o h p) ran)
            ∙ k
      ]

-- Whenever `main` returns, whatever the client was told, the terminal has the settings that it had
-- before: also when a session was run on it in raw mode, and when a secret was read with the echo
-- off. The calls that put the settings back succeed. A signal that ends the process is no return.
pub main-restores :
    (host : Host) (args : List (List ℕ)) (t t' : Termios) (code : ℕ)
    → host.raw.restore ≡ ok tt
    → host.prompting.restore ≡ ok tt
    → main host args t ≡ some (code, t')
    → t' ≡ t
unfolding main run
main-restores host args t t' code h k e = elim (Option-cases (parse_options args)) [
  | inl refused ↦ same_terminal 2 code t t' (ap (on_options host t) (sym refused) ∙ e)
  | inr (o, parsed) ↦
      run_guarded-restores host (client_request host o) _ t _ t' code k
        (raw_guard-drop host (client_request host o).session_type t h)
        (ap (on_options host t) (sym parsed) ∙ e)
]
