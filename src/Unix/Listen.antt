-- ===== src/Unix/Listen.antt =====
-- `UnixListener::bind`, the only gate before the socket, and `peer_secontext`. The calls on the file
-- system are values, made in order; `answer` is what each returns.
use capsudo_rs.Base.{
  ℕ, ◌≡◌, refl, Bool, true, false, List, [], ◌∷◌, ◌++◌, Option, none, some, ◌==◌, ap, ap₂, ◌∙◌, sym,
  ◌||◌, All, All-append, if◌then◌else◌, arith,
}
use capsudo_rs.Base.Result.{Result, ok, err}
use capsudo_rs.Transport.Defs.{IoError, not_found, TransportError}

pub data Call : Type 0 where
  remove_file bind_at : (path : List ℕ) → Call
  chown : (path : List ℕ) (uid gid : Option ℕ) → Call
  set_permissions : (path : List ℕ) → ℕ → Call

abbrev pub Answer : Type 0
Answer = Call → Result IoError (Unit {0})

abbrev pub Bound : Type 0
Bound = Result TransportError (Unit {0}) × List Call

-- One call with `?`, and the calls that follow it.
abbrev pub then_call : Call → Result IoError (Unit {0}) → Bound → Bound
then_call c (err e) rest = (err (TransportError.io e), c ∷ [])
then_call c (ok u) (r, calls) = (r, c ∷ calls)

-- A file that is not there need not be removed.
abbrev pub unless_missing : Result IoError (Unit {0}) → Result IoError (Unit {0})
unless_missing (err not_found) = ok tt
unless_missing r = r

abbrev pub is_some : Option ℕ → Bool
is_some (some n) = true
is_some none = false

abbrev pub set_owner : Answer → List ℕ → Option ℕ → Option ℕ → Bound → Bound
set_owner answer path uid gid rest =
    if is_some uid || is_some gid
    then then_call (chown path uid gid) (answer (chown path uid gid)) rest
    else rest

-- What `bind` returns, and the calls it has made.
unfoldable pub bind : Answer → (path : List ℕ) → (uid gid : Option ℕ) → (mode : ℕ) → Bound
bind answer path uid gid mode =
    then_call (remove_file path) (unless_missing (answer (remove_file path))) (
      then_call (bind_at path) (answer (bind_at path)) (
        set_owner answer path uid gid
          (then_call (set_permissions path mode) (answer (set_permissions path mode)) (ok tt, []))))

-- The calls that make the gate: the owner is left alone only when neither a user nor a group is
-- given.
abbrev pub owner_calls : (path : List ℕ) (uid gid : Option ℕ) → List Call
owner_calls path none none = []
owner_calls path uid gid = chown path uid gid ∷ []

abbrev pub gate_calls : (path : List ℕ) (uid gid : Option ℕ) → ℕ → List Call
gate_calls path uid gid mode =
    remove_file path ∷ bind_at path ∷ (owner_calls path uid gid ++ (set_permissions path mode ∷ []))

-- A call that was answered as `bind` goes on for.
abbrev pub IsAnswered : Answer → Call → Type 0
IsAnswered answer (remove_file path) = unless_missing (answer (remove_file path)) ≡ ok tt
IsAnswered answer c = answer c ≡ ok tt

then_call-ok :
    (c : Call) (r : Result IoError (Unit {0})) (rest : Bound) (calls : List Call)
    → then_call c r rest ≡ (ok tt, calls)
    → (calls' : List Call) × (r ≡ ok tt) × (rest ≡ (ok tt, calls')) × (calls ≡ c ∷ calls')
then_call-ok c (ok tt) (r, calls') calls e =
    (calls', refl, ap₂ (λ x y. (x, y)) (ap (λ x. x.0) e) refl, sym (ap (λ x. x.1) e))
then_call-ok c (err x) rest calls e = absurd (ground arith)

set_mode-ok :
    (answer : Answer) (path : List ℕ) (mode : ℕ) (calls : List Call)
    → then_call (set_permissions path mode) (answer (set_permissions path mode)) (ok tt, [])
      ≡ (ok tt, calls)
    → (calls ≡ set_permissions path mode ∷ [])
      × All (IsAnswered answer) (set_permissions path mode ∷ [])
set_mode-ok answer path mode calls e =
    let (calls', r, rest, cs) = then_call-ok _ (answer (set_permissions path mode)) _ calls e in
    (cs ∙ ap (λ x. set_permissions path mode ∷ x) (sym (ap (λ x. x.1) rest)), (r, tt))

set_owner-ok :
    (answer : Answer) (path : List ℕ) (uid gid : Option ℕ) (rest : Bound) (calls : List Call)
    → set_owner answer path uid gid rest ≡ (ok tt, calls)
    → (calls' : List Call) × (rest ≡ (ok tt, calls'))
      × (calls ≡ owner_calls path uid gid ++ calls')
      × All (IsAnswered answer) (owner_calls path uid gid)
set_owner-ok answer path none none rest calls e = (calls, e, refl, tt)
set_owner-ok answer path none (some g) rest calls e =
    let (calls', r, h, cs) = then_call-ok _ (answer (chown path none (some g))) rest calls e in
    (calls', h, cs, (r, tt))
set_owner-ok answer path (some u) gid rest calls e =
    let (calls', r, h, cs) = then_call-ok _ (answer (chown path (some u) gid)) rest calls e in
    (calls', h, cs, (r, tt))

-- A listener is returned only after a stale socket at the path is gone or was never there, the new one
-- is bound there, its owner is set when a user or a group is given, and last its mode is set, each of them
-- successfully.
pub bind-ok :
    (answer : Answer) (path : List ℕ) (uid gid : Option ℕ) (mode : ℕ) (calls : List Call)
    → bind answer path uid gid mode ≡ (ok tt, calls)
    → (calls ≡ gate_calls path uid gid mode)
      × All (IsAnswered answer) (gate_calls path uid gid mode)
unfolding bind
bind-ok answer path uid gid mode calls e =
    let (calls1, removed, e1, c1) =
      then_call-ok _ (unless_missing (answer (remove_file path))) _ calls e in
    let (calls2, bound, e2, c2) = then_call-ok _ (answer (bind_at path)) _ calls1 e1 in
    let (calls3, e3, c3, owned) = set_owner-ok answer path uid gid _ calls2 e2 in
    let (c4, moded) = set_mode-ok answer path mode calls3 e3 in
    (
      c1
          ∙ ap (λ x. remove_file path ∷ x)
              (c2 ∙ ap (λ x. bind_at path ∷ x) (c3 ∙ ap (λ x. owner_calls path uid gid ++ x) c4)),
      (
        removed,
        (
          bound,
          All-append (IsAnswered answer) (owner_calls path uid gid) (set_permissions path mode ∷ [])
              owned moded,
        ),
      ),
    )

-- `peer_secontext`: what `getsockopt` put into the buffer, if it succeeded.
abbrev pub without_nul : List ℕ → List ℕ
without_nul [] = []
without_nul (b ∷ []) = if b == 0 then [] else b ∷ []
without_nul (b ∷ c ∷ bs) = b ∷ without_nul (c ∷ bs)

abbrev unless_empty : List ℕ → Option (List ℕ)
unless_empty [] = none
unless_empty (b ∷ bs) = some (b ∷ bs)

unfoldable pub peer_secontext : Option (List ℕ) → Option (List ℕ)
peer_secontext none = none
peer_secontext (some buf) = unless_empty (without_nul buf)

without_nul-nul : (bs : List ℕ) → without_nul (bs ++ (0 ∷ [])) ≡ bs
without_nul-nul [] = refl
without_nul-nul (b ∷ []) = refl
without_nul-nul (b ∷ c ∷ bs) = ap (◌∷◌ b) (without_nul-nul (c ∷ bs))

-- A context with the terminator that the kernel adds is the context itself.
pub peer_secontext-nul :
    (b : ℕ) (bs : List ℕ) → peer_secontext (some ((b ∷ bs) ++ (0 ∷ []))) ≡ some (b ∷ bs)
unfolding peer_secontext
peer_secontext-nul b bs = ap unless_empty (without_nul-nul (b ∷ bs))
