-- ===== src/Pwauth/Admission.antt =====
-- Who is passed on by `handle_client`, and what all others are told.
use capsudo_rs.Base.{
  ℕ, ◌≡◌, ◌≢◌, ◌⊎◌, refl, sym, ap, ap₂, ◌∙◌, Bool, true, false, not, ◌||◌, List, [], ◌∷◌, ◌++◌,
  Option, none, some, if◌then◌else◌, arith, Option-cases, inl, inr,
}
use capsudo_rs.Base.Result.{Result, ok, err}
use capsudo_rs.Base.Int.{pos}
use capsudo_rs.Proto.Defs.{FieldType}
use capsudo_rs.Proto.Message
use capsudo_rs.Transport.Defs.{Received, PeerCred, TransportError}
use capsudo_rs.Core.Defs.{CoreError, unauthorized}
use capsudo_rs.Core.Channel.{Event, Channel, M, return, send}
use capsudo_rs.Core.Command.{ignoring}
use capsudo_rs.Core.Client.{await_outcome, await_loop, take_report}
use capsudo_rs.Core.Outcome.{events}
use capsudo_rs.Proto.Accessors.{as_str-unauthorized}
use capsudo_rs.Base.Utf8.{IsStr}
use capsudo_rs.Pwauth.Shadow.{stored_hash, is_usable, check_password, check_password-true}
use capsudo_rs.Pwauth.Gate.{
  Handled, closed, chained, after, fail, answered, auth_prompt, is_secret, is_nil, chain_to,
  on_first, on_event, on_user, handle_client, secret_invalid, unknown_user, no_credentials,
}

after-chained :
    (m : M (Result CoreError (Unit {0}))) (a b : Handled) (ch ch' : Channel)
    → after m a ch ≡ some (b, ch')
    → b ≡ a
after-chained m a b ch ch' e = elim (Option-cases (m ch)) [
  | inl waits ↦ absurd (ground arith)
  | inr ((r, ch1), sent) ↦ ground arith
]

fail-closed :
    (message : List ℕ) (b : Handled) (ch ch' : Channel)
    → fail message ch ≡ some (b, ch')
    → b ≡ closed
unfolding fail
fail-closed message b ch ch' e =
    after-chained (ignoring (send (Message.error message) []) (send (Message.exit (pos 1)) []))
      closed b ch ch' e

is_nil-true : (l : List ℕ) → is_nil l ≡ true → l ≡ []
is_nil-true [] h = refl
is_nil-true (b ∷ bs) h = ground arith

is_secret-true : (t : FieldType) → is_secret t ≡ true → t ≡ FieldType.secret
is_secret-true FieldType.secret h = refl
is_secret-true other h = ground arith

chain_to-chained :
    (taken : Bool) (cmd : List (List ℕ)) (program : List ℕ) (args : List (List ℕ))
    → chain_to taken cmd ≡ chained program args
    → cmd ≡ program ∷ args
chain_to-chained false cmd program args e = ground arith
chain_to-chained true [] program args e = ground arith
chain_to-chained true (p ∷ as') program args e = cc

absurd_chained : {program : List ℕ} {args : List (List ℕ)} → chained program args ≢ closed
absurd_chained e = cc

branches :
    (refused verified : Bool) (m n : M Handled) (h c : Handled) (ch ch' : Channel)
    → (if refused then m else if verified then return h else n) ch ≡ some (c, ch')
    → (m ch ≢ some (c, ch'))
    → (n ch ≢ some (c, ch'))
    → (refused ≡ false) × (verified ≡ true) × (h ≡ c) × (ch' ≡ ch)
branches true verified m n h c ch ch' e never never' = absurd (never e)
branches false false m n h c ch ch' e never never' = absurd (never' e)
branches false true m n h c ch ch' e never never' = (refl, refl, cc, cc)

refused_lem :
    (fds : List ℕ) (t : FieldType)
    → (fds ≢ []) ⊎ (t ≢ FieldType.secret)
    → (not (is_nil fds) || not (is_secret t)) ≡ true
refused_lem (b ∷ bs) t h = refl
refused_lem [] FieldType.secret (inl h) = absurd (h refl)
refused_lem [] FieldType.secret (inr h) = absurd (h refl)
refused_lem [] other h = refl

pub demand-unauthorized :
    (prompt : List ℕ) (es : List Event)
    → IsStr prompt
    → await_outcome (events (Message.unauthorized prompt ∷ []) ++ es)
      ≡ some (ok (unauthorized prompt), es)
unfolding await_outcome await_loop take_report Message.unauthorized
demand-unauthorized prompt es h = rw (as_str-unauthorized prompt h) refl

module _ (users : ℕ → Option (List ℕ)) (host : Option (List ℕ))
    (crypt : List ℕ → List ℕ → Option (List ℕ)) (shadow : Option (List ℕ)) where
  -- What has to hold of a client that is passed on.
  abbrev pub IsLetIn : PeerCred → Received → Type 0
  IsLetIn cred r =
      (user : List ℕ) × (hash : List ℕ) × (users cred.uid ≡ some user)
      × (r.message.field_type ≡ FieldType.secret)
      × (r.fds ≡ [])
      × (stored_hash shadow user ≡ some hash)
      × (is_usable hash ≡ true)
      × (crypt r.message.payload hash ≡ some hash)

  on_first-chained :
      (cred : PeerCred) (user : List ℕ) (taken : Bool) (cmd : List (List ℕ)) (ev : Event)
      (ch ch' : Channel) (program : List ℕ) (args : List (List ℕ))
      → users cred.uid ≡ some user
      → on_first users host crypt shadow user taken cmd ev ch ≡ some (chained program args, ch')
      → (r : Received) × (ev ≡ ok (some r)) × IsLetIn cred r × (cmd ≡ program ∷ args) × (ch' ≡ ch)
  unfolding on_first
  on_first-chained cred user taken cmd (err x) ch ch' program args u e = absurd (ground arith)
  on_first-chained cred user taken cmd (ok none) ch ch' program args u e = absurd (ground arith)
  on_first-chained cred user taken cmd (ok (some r)) ch ch' program args u e =
      let (fine, verified, h, same) =
        branches (not (is_nil r.fds) || not (is_secret r.message.field_type))
          (check_password crypt shadow user r.message.payload)
          (after (send (Message.unauthorized (auth_prompt host user)) []) closed)
          (fail secret_invalid) (chain_to taken cmd) (chained program args) ch ch' e
          (λ x. absurd_chained (
            after-chained (send (Message.unauthorized (auth_prompt host user)) []) closed _ ch ch'
              x))
          (λ x. absurd_chained (fail-closed secret_invalid _ ch ch' x)) in
      let (hash, there, usable, computed) =
        check_password-true crypt shadow user r.message.payload verified in
      (
        r,
        refl,
        (
          user,
          hash,
          u,
          is_secret-true r.message.field_type (ground arith),
          is_nil-true r.fds (ground arith),
          there,
          usable,
          computed,
        ),
        chain_to-chained taken cmd program args h,
        same,
      )

  on_user-chained :
      (cred : PeerCred) (o : Option (List ℕ)) (taken : Bool) (cmd : List (List ℕ)) (es : List Event)
      (ch ch' : Channel) (program : List ℕ) (args : List (List ℕ))
      → users cred.uid ≡ o
      → ch.recvs ≡ es
      → on_user users host crypt shadow o taken cmd ch ≡ some (chained program args, ch')
      → (r : Received) × IsLetIn cred r
        × (cmd ≡ program ∷ args)
        × (ch.recvs ≡ ok (some r) ∷ ch'.recvs)
        × (ch'.sent ≡ ch.sent)
  on_user-chained cred none taken cmd es ch ch' program args u l e =
      absurd (absurd_chained (fail-closed unknown_user _ ch ch' e))
  on_user-chained cred (some user) taken cmd [] ch ch' program args u l e = absurd (ground arith)
  on_user-chained cred (some user) taken cmd (ev ∷ es) ch ch' program args u l e =
      let first : on_first users host crypt shadow user taken cmd ev (record ch { recvs = es })
          ≡ some (chained program args, ch') =
        ap (λ x. on_event users host crypt shadow user taken cmd (answered ch x)) (sym l) ∙ e in
      let (r, got, let_in, command, same) =
        on_first-chained cred user taken cmd ev (record ch { recvs = es }) ch' program args u
          first in
      (
        r,
        let_in,
        command,
        l ∙ ap₂ ◌∷◌ got (sym (ap (λ (c : Channel). c.recvs) same)),
        ap (λ (c : Channel). c.sent) same,
      )

  -- A client is passed on only after it has proved who it is: the command is spawned only for a
  -- peer whose user is known, whose first message was a secret without descriptors, and whose
  -- secret `crypt` turns into the usable hash that is stored for that user. It is the configured
  -- command, nothing has been sent to the client, and all that follows the secret is left to it.
  pub handle_client-chained :
      (peer : Option PeerCred) (taken : Bool) (cmd : List (List ℕ)) (ch ch' : Channel)
      (program : List ℕ) (args : List (List ℕ))
      → handle_client users host crypt shadow peer taken cmd ch ≡ some (chained program args, ch')
      → (cred : PeerCred) × (r : Received) × (peer ≡ some cred)
        × IsLetIn cred r
        × (cmd ≡ program ∷ args)
        × (ch.recvs ≡ ok (some r) ∷ ch'.recvs)
        × (ch'.sent ≡ ch.sent)
  unfolding handle_client
  handle_client-chained none taken cmd ch ch' program args e =
      absurd (absurd_chained (fail-closed no_credentials _ ch ch' e))
  handle_client-chained (some cred) taken cmd ch ch' program args e =
      let (r, let_in, command, left, sent) =
        on_user-chained cred (users cred.uid) taken cmd ch.recvs ch ch' program args refl refl e in
      (cred, r, refl, let_in, command, left, sent)

  -- A client that does not begin with its secret, or sends descriptors with it, is asked for one:
  -- it is sent the prompt of its user, and nothing else, and the client's session ends with that
  -- demand, on which it can connect again with the secret. The prompt is UTF-8, and the call of
  -- `send` succeeds.
  pub handle_client-demand :
      (cred : PeerCred) (user : List ℕ) (taken : Bool) (cmd : List (List ℕ)) (r : Received)
      (es after_it : List Event) (ss : List (Result TransportError (Unit {0})))
      → users cred.uid ≡ some user
      → (r.fds ≢ []) ⊎ (r.message.field_type ≢ FieldType.secret)
      → IsStr (auth_prompt host user)
      → let demand = Message.unauthorized (auth_prompt host user) in
        (handle_client users host crypt shadow
            (some cred)
            taken
            cmd
            (record { recvs = ok (some r) ∷ es; sends = ok tt ∷ ss; sent = [] })
          ≡ some (closed, record { recvs = es; sends = ss; sent = (demand, []) ∷ [] }))
        × (await_outcome (events (demand ∷ []) ++ after_it)
            ≡ some (ok (unauthorized (auth_prompt host user)), after_it))
  unfolding handle_client on_first send
  handle_client-demand cred user taken cmd r es after_it ss u wrong str = (
    rw (u, refused_lem r.fds r.message.field_type wrong) refl,
    demand-unauthorized (auth_prompt host user) after_it str,
  )
