-- ===== src/Capsudo/Retry.antt =====
-- main.rs of capsudo: the loop of `main` that connects and runs a session. What it prints is left
-- out. The prompt on the terminal is a parameter; each connection is the channel that it gives, or
-- `none` if it cannot be made.
use mathlib.Core.Option
use capsudo_rs.Base.{
  ℕ, ◌≡◌, ◌%◌, ◌∙◌, refl, sym, ap, ◌⊎◌, List, [], ◌∷◌, Option, none, some, Option-cases, inl, inr,
}
use capsudo_rs.Base.Result.{Result, ok, err}
use capsudo_rs.Base.Int.{ℤ, i32_bits}
use capsudo_rs.Core.Defs.{
  CoreError, ClientRequest, Stdio, SessionOutcome, exited, failed, unauthorized,
}
use capsudo_rs.Core.Channel.{Channel}
use capsudo_rs.Core.Client.{run_session}

-- `(code & 0xff) as u8`
abbrev pub exit_byte : ℤ → ℕ
exit_byte code = i32_bits code % 256

-- What the end of a session means: the program's exit code, or a demand of a secret.
pub data Next : Type 0 where
  exits : ℕ → Next
  again : (secret : List ℕ) → Next

abbrev pub asked : {S : Type 0} → Option (Option (List ℕ) × S) → Option (Next × S)
asked none = none
asked (some (none, t)) = some (exits 1, t)
asked (some (some s, t)) = some (again s, t)

-- The exit code, the connections that were tried, in order and as the sessions left them, and the
-- terminal.
abbrev pub Ended : Type 0 → Type 0
Ended S = ℕ × List (Option Channel) × S

abbrev pub tried : {S : Type 0} → Option Channel → Ended S → Ended S
tried c (code, cs, t) = (code, c ∷ cs, t)

abbrev pub proceed :
    {S : Type 0}
    → Option Channel
    → Option (Next × S)
    → (List ℕ → S → Option (Ended S))
    → Option (Ended S)
proceed c none connect = none
proceed c (some (exits code, t)) connect = some (code, c ∷ [], t)
proceed c (some (again s, t)) connect = Option.map (tried c) (connect s t)

-- The prompt may change the terminal, `S`, and has not returned while it is `none`.
module _ {S : Type 0} (prompt_secret : List ℕ → S → Option (Option (List ℕ) × S)) where
  -- The `match` on the session's result.
  unfoldable pub after_session :
      Option (List ℕ) → Result CoreError SessionOutcome → S → Option (Next × S)
  after_session secret (ok (exited code)) t = some (exits (exit_byte code), t)
  after_session secret (ok (failed code message)) t = some (exits (exit_byte code), t)
  after_session none (ok (unauthorized prompt)) t = asked (prompt_secret prompt t)
  after_session (some s) (ok (unauthorized prompt)) t = some (exits 1, t)
  after_session secret (err e) t = some (exits 1, t)

  module _ (q : ClientRequest) (stdio : Stdio) where
    -- `none` while a call has not returned.
    unfoldable pub connect_loop : Option (List ℕ) → List (Option Channel) → S → Option (Ended S)
    connect_loop secret [] t = none
    connect_loop secret (none ∷ cs) t = some (1, none ∷ [], t)
    connect_loop secret (some ch ∷ cs) t = elim (run_session q stdio secret ch) [
      | none ↦ none
      | some (r, ch') ↦
          proceed (some ch') (after_session secret r t) (λ s t'. connect_loop (some s) cs t')
    ]

pub Next-cases :
    {S : Type 0} (o : Option (Next × S))
    → (o ≡ none)
      ⊎ ((code : ℕ) × (t : S) × (o ≡ some (exits code, t)))
      ⊎ ((s : List ℕ) × (t : S) × (o ≡ some (again s, t)))
Next-cases none = inl refl
Next-cases (some (exits code, t)) = inr (inl (code, t, refl))
Next-cases (some (again s, t)) = inr (inr (s, t, refl))

module _ {S : Type 0} (prompt_secret : List ℕ → S → Option (Option (List ℕ) × S)) where
  after_session-exits :
      (s : List ℕ) (r : Result CoreError SessionOutcome) (t : S)
      → (code : ℕ) × (after_session prompt_secret (some s) r t ≡ some (exits code, t))
  unfolding after_session
  after_session-exits s (ok (exited code)) t = (exit_byte code, refl)
  after_session-exits s (ok (failed code message)) t = (exit_byte code, refl)
  after_session-exits s (ok (unauthorized prompt)) t = (1, refl)
  after_session-exits s (err e) t = (1, refl)

  module _ (q : ClientRequest) (stdio : Stdio) where
    pub session_waits :
        (secret : Option (List ℕ)) (ch : Channel) (cs : List (Option Channel)) (t : S)
        → run_session q stdio secret ch ≡ none
        → connect_loop prompt_secret q stdio secret (some ch ∷ cs) t ≡ none
    unfolding connect_loop
    session_waits secret ch cs t e = rw (e, connect_loop) refl

    pub prompt_waits :
        (secret : Option (List ℕ)) (ch ch' : Channel) (r : Result CoreError SessionOutcome)
        (cs : List (Option Channel)) (t : S)
        → run_session q stdio secret ch ≡ some (r, ch')
        → after_session prompt_secret secret r t ≡ none
        → connect_loop prompt_secret q stdio secret (some ch ∷ cs) t ≡ none
    unfolding connect_loop
    prompt_waits secret ch ch' r cs t e f = rw (e, f, connect_loop) refl

    pub session_again :
        (secret : Option (List ℕ)) (ch ch' : Channel) (r : Result CoreError SessionOutcome)
        (s : List ℕ) (cs : List (Option Channel)) (t t' : S)
        → run_session q stdio secret ch ≡ some (r, ch')
        → after_session prompt_secret secret r t ≡ some (again s, t')
        → connect_loop prompt_secret q stdio secret (some ch ∷ cs) t
          ≡ Option.map (tried (some ch')) (connect_loop prompt_secret q stdio (some s) cs t')
    unfolding connect_loop
    session_again secret ch ch' r s cs t t' e f = rw (e, f, connect_loop) refl

    pub session_ends :
        (secret : Option (List ℕ)) (ch ch' : Channel) (r : Result CoreError SessionOutcome)
        (code : ℕ) (cs : List (Option Channel)) (t t' : S)
        → run_session q stdio secret ch ≡ some (r, ch')
        → after_session prompt_secret secret r t ≡ some (exits code, t')
        → connect_loop prompt_secret q stdio secret (some ch ∷ cs) t
          ≡ some (code, some ch' ∷ [], t')
    unfolding connect_loop
    session_ends secret ch ch' r code cs t t' e f = rw (e, f, connect_loop) refl

    -- With a secret there is one connection only.
    with_secret_once :
        (s : List ℕ) (c : Option Channel) (cs ds : List (Option Channel)) (t : S)
        → connect_loop prompt_secret q stdio (some s) (c ∷ cs) t
          ≡ connect_loop prompt_secret q stdio (some s) (c ∷ ds) t
    with_secret_once s none cs ds t = unfold connect_loop in refl
    with_secret_once s (some ch) cs ds t = elim (Option-cases (run_session q stdio (some s) ch)) [
      | inl waits ↦
          session_waits (some s) ch cs t waits ∙ sym (session_waits (some s) ch ds t waits)
      | inr ((r, ch'), ran) ↦
          let (code, ends) = after_session-exits s r t in
          session_ends (some s) ch ch' r code cs t t ran ends
          ∙ sym (session_ends (some s) ch ch' r code ds t t ran ends)
    ]

    -- The client connects at most twice: whatever further connections would do, they are not tried.
    pub connect_loop-twice :
        (c c' : Option Channel) (cs ds : List (Option Channel)) (t : S)
        → connect_loop prompt_secret q stdio none (c ∷ c' ∷ cs) t
          ≡ connect_loop prompt_secret q stdio none (c ∷ c' ∷ ds) t
    connect_loop-twice none c' cs ds t = unfold connect_loop in refl
    connect_loop-twice (some ch) c' cs ds t = elim (Option-cases (run_session q stdio none ch)) [
      | inl waits ↦
          session_waits none ch (c' ∷ cs) t waits ∙ sym (session_waits none ch (c' ∷ ds) t waits)
      | inr ((r, ch'), ran) ↦ elim (Next-cases (after_session prompt_secret none r t)) [
        | inl waits ↦
            prompt_waits none ch ch' r (c' ∷ cs) t ran waits
            ∙ sym (prompt_waits none ch ch' r (c' ∷ ds) t ran waits)
        | inr (inl (code, t', ends)) ↦
            session_ends none ch ch' r code (c' ∷ cs) t t' ran ends
            ∙ sym (session_ends none ch ch' r code (c' ∷ ds) t t' ran ends)
        | inr (inr (s, t', demanded)) ↦
            session_again none ch ch' r s (c' ∷ cs) t t' ran demanded
            ∙ ap (Option.map (tried (some ch'))) (with_secret_once s c' cs ds t')
            ∙ sym (session_again none ch ch' r s (c' ∷ ds) t t' ran demanded)
      ]
    ]

    -- When the daemon's front-end demands a secret and the user types one, the session is run again
    -- with that secret over a second connection, and the program's own status is the client's, to
    -- eight bits.
    pub connect_loop-authenticates :
        (ch ch' next next' : Channel) (prompt s : List ℕ) (code : ℤ) (cs : List (Option Channel))
        (t t' : S)
        → run_session q stdio none ch ≡ some (ok (unauthorized prompt), ch')
        → prompt_secret prompt t ≡ some (some s, t')
        → run_session q stdio (some s) next ≡ some (ok (exited code), next')
        → connect_loop prompt_secret q stdio none (some ch ∷ some next ∷ cs) t
          ≡ some (exit_byte code, some ch' ∷ some next' ∷ [], t')
    connect_loop-authenticates ch ch' next next' prompt s code cs t t' e f g =
        session_again none ch ch' (ok (unauthorized prompt)) s (some next ∷ cs) t t' e
          (unfold after_session in ap asked f)
        ∙ ap (Option.map (tried (some ch'))) (
            session_ends (some s) next next' (ok (exited code)) (exit_byte code) cs t' t' g
              (unfold after_session in refl))
