-- ===== src/Core/Delivery.antt =====
-- The daemon on the messages of a whole handshake, delivered in order.
use capsudo_rs.Base.{
  ℕ, ◌≡◌, refl, sym, ap, ◌∙◌, List, [], ◌∷◌, ◌++◌, append-nil, append_assoc, Option, none, some,
  All, arith,
}
use capsudo_rs.Base.Result.{ok}
use capsudo_rs.Base.Bytes.{IsU16}
use capsudo_rs.Base.Utf8.{IsStr}
use capsudo_rs.Proto.Defs.{FieldType, SessionType}
use capsudo_rs.Proto.Message
use capsudo_rs.Proto.Message.{Dims}
use capsudo_rs.Proto.Accessors.{
  as_str-arg, as_str-env, as_session_type-session_type, as_winsize-winsize,
}
use capsudo_rs.Transport.Defs.{FdSpec, Received}
use capsudo_rs.Core.Defs.{DaemonConfig, Stdio, SessionRequest, ClientRequest}
use capsudo_rs.Core.Channel.{Event}
use capsudo_rs.Core.Client.{stdio_specs}
use capsudo_rs.Core.Daemon.{
  Draft, more, take_field, receive_loop, initial, or_shell, finish, finishing, default_winsize,
  receive_configuration,
}
use capsudo_rs.Core.Attenuation.{kept, kept-append}
use capsudo_rs.Core.Handshake.{Sent, plain, secret_messages, winsize_messages, config_messages}

-- A message as it arrives, with one descriptor for each that was delegated.
abbrev pub handles : List FdSpec → List ℕ
handles [] = []
handles (s ∷ ss) = s.fd ∷ handles ss

abbrev pub deliver : List Sent → List Event
deliver [] = []
deliver ((m, specs) ∷ ms) = ok (some (record { message = m; fds = handles specs })) ∷ deliver ms

deliver-append : (xs ys : List Sent) → deliver (xs ++ ys) ≡ deliver xs ++ deliver ys
deliver-append [] ys = refl
deliver-append ((m, specs) ∷ xs) ys =
    ap (◌∷◌ (ok (some (record { message = m; fds = handles specs })))) (deliver-append xs ys)

deliver_split :
    (xs ys : List Sent) (es : List Event)
    → deliver (xs ++ ys) ++ es ≡ deliver xs ++ (deliver ys ++ es)
deliver_split xs ys es =
    ap (λ l. l ++ es) (deliver-append xs ys) ∙ append_assoc (deliver xs) (deliver ys) es

-- The loop after a message that it goes on from.
receive_loop-more :
    (c : DaemonConfig) (d d' : Draft) (r : Received) (es : List Event)
    → take_field c r d r.message.field_type ≡ ok (more d')
    → receive_loop c d (ok (some r) ∷ es) ≡ receive_loop c d' es
unfolding receive_loop
receive_loop-more c d d' r es e = rw (e, receive_loop)

abbrev add_env : DaemonConfig → List (List ℕ) → Draft → Draft
add_env c ss d = record d { envp = d.envp ++ kept c.no_client_env ss }

abbrev add_args : DaemonConfig → List (List ℕ) → Draft → Draft
add_args c ss d = record d { argv = d.argv ++ kept c.no_client_argv ss }

take_field-env :
    (c : DaemonConfig) (d : Draft) (s : List ℕ)
    → IsStr s
    → take_field c (record { message = Message.env s; fds = [] }) d FieldType.env
      ≡ ok (more (add_env c (s ∷ []) d))
unfolding take_field
take_field-env c d s h = ground (arith, as_str-env s h, append-nil d.envp)

take_field-arg :
    (c : DaemonConfig) (d : Draft) (s : List ℕ)
    → IsStr s
    → take_field c (record { message = Message.arg s; fds = [] }) d FieldType.arg
      ≡ ok (more (add_args c (s ∷ []) d))
unfolding take_field
take_field-arg c d s h = ground (arith, as_str-arg s h, append-nil d.argv)

receive_env :
    (c : DaemonConfig) (d : Draft) (ss : List (List ℕ)) (es : List Event)
    → All IsStr ss
    → receive_loop c d (deliver (plain Message.env ss) ++ es) ≡ receive_loop c (add_env c ss d) es
unfolding Message.env
receive_env c d [] es h =
    ap (λ l. receive_loop c (record d { envp = l }) es) (ground (arith, append-nil d.envp))
receive_env c d (s ∷ ss) es h =
    receive_loop-more c d (add_env c (s ∷ []) d) _ _ (take_field-env c d s h.0)
    ∙ receive_env c (add_env c (s ∷ []) d) ss es h.1
    ∙ ap (λ l. receive_loop c (record d { envp = l }) es)
        (append_assoc d.envp _ _ ∙ ap (◌++◌ d.envp) (sym (kept-append c.no_client_env (s ∷ []) ss)))

receive_args :
    (c : DaemonConfig) (d : Draft) (ss : List (List ℕ)) (es : List Event)
    → All IsStr ss
    → receive_loop c d (deliver (plain Message.arg ss) ++ es) ≡ receive_loop c (add_args c ss d) es
unfolding Message.arg
receive_args c d [] es h =
    ap (λ l. receive_loop c (record d { argv = l }) es) (ground (arith, append-nil d.argv))
receive_args c d (s ∷ ss) es h =
    receive_loop-more c d (add_args c (s ∷ []) d) _ _ (take_field-arg c d s h.0)
    ∙ receive_args c (add_args c (s ∷ []) d) ss es h.1
    ∙ ap (λ l. receive_loop c (record d { argv = l }) es)
        (append_assoc d.argv _ _
          ∙ ap (◌++◌ d.argv) (sym (kept-append c.no_client_argv (s ∷ []) ss)))

receive_secret :
    (c : DaemonConfig) (d : Draft) (secret : Option (List ℕ)) (es : List Event)
    → receive_loop c d (deliver (secret_messages secret) ++ es) ≡ receive_loop c d es
unfolding Message.secret
receive_secret c d none es = refl
receive_secret c d (some s) es = receive_loop-more c d d _ es (unfold take_field in refl)

abbrev pub dims_or_default : Option Dims → Dims → Dims
dims_or_default none d = d
dims_or_default (some dims) d = dims

abbrev pub IsDims : Option Dims → Type 0
IsDims none = Unit {0}
IsDims (some (rows, cols, xpixels, ypixels)) =
    IsU16 rows × IsU16 cols × IsU16 xpixels × IsU16 ypixels

receive_winsize :
    (c : DaemonConfig) (d : Draft) (w : Option Dims) (es : List Event)
    → IsDims w
    → receive_loop c d (deliver (winsize_messages w) ++ es)
      ≡ receive_loop c (record d { winsize = dims_or_default w d.winsize }) es
receive_winsize c d none es h = refl
receive_winsize c d (some (rows, cols, xpixels, ypixels)) es h = receive_loop-more c d _ _ es (
    unfold take_field Message.winsize in
    rw (as_winsize-winsize rows cols xpixels ypixels h.0 h.1 h.2 h.3) refl)

receive_session_type :
    (c : DaemonConfig) (d : Draft) (t : SessionType) (es : List Event)
    → receive_loop c d (deliver ((Message.session_type t, []) ∷ []) ++ es)
      ≡ receive_loop c (record d { session_type = t }) es
receive_session_type c d t es =
    receive_loop-more c d _ _ es
      (unfold take_field Message.session_type in rw (as_session_type-session_type t) refl)

receive_stdio_end :
    (c : DaemonConfig) (d : Draft) (stdio : Stdio) (es : List Event)
    → receive_loop c d (deliver ((Message.fds 3, stdio_specs stdio) ∷ (Message.end, []) ∷ []) ++ es)
      ≡ some (ok (record d { stdio = some stdio }), es)
unfolding receive_loop take_field Message.fds Message.end
receive_stdio_end c d stdio es = refl

stage :
    (c : DaemonConfig) (d d' : Draft) (xs ys : List Sent) (es : List Event)
    → ((zs : List Event) → receive_loop c d (deliver xs ++ zs) ≡ receive_loop c d' zs)
    → receive_loop c d (deliver (xs ++ ys) ++ es) ≡ receive_loop c d' (deliver ys ++ es)
stage c d d' xs ys es f = ap (receive_loop c d) (deliver_split xs ys es) ∙ f (deliver ys ++ es)

-- What the client asks for, under the daemon's policy.
abbrev pub delegated : DaemonConfig → ClientRequest → Stdio → SessionRequest
delegated c q stdio = record {
  argv = or_shell (c.fixed_args ++ kept c.no_client_argv q.args);
  envp = c.fixed_env ++ kept c.no_client_env q.env;
  session_type = q.session_type;
  stdio = stdio;
  winsize = dims_or_default q.winsize default_winsize;
  secontext = none;
}

-- The handshake works: from the messages that the client sends for a request the daemon makes
-- exactly that request under its policy, with the delegated descriptors, and takes nothing that
-- follows. The client's strings are UTF-8 and its window dimensions are `u16`s.
pub receive_configuration-config_messages :
    (c : DaemonConfig) (q : ClientRequest) (stdio : Stdio) (secret : Option (List ℕ))
    (es : List Event)
    → All IsStr q.env
    → All IsStr q.args
    → IsDims q.winsize
    → receive_configuration c (deliver (config_messages q stdio secret) ++ es)
      ≡ some (ok (delegated c q stdio), es)
unfolding receive_configuration finish initial
receive_configuration-config_messages c q stdio secret es he ha hw =
    let d0 = initial c in
    let d1 = add_env c q.env d0 in
    let d2 = add_args c q.args d1 in
    let d3 : Draft = record d2 { session_type = q.session_type } in
    let d4 : Draft = record d3 { winsize = dims_or_default q.winsize d3.winsize } in
    ap finishing (
      stage c d0 d0 (secret_messages secret) _ es (receive_secret c d0 secret)
      ∙ stage c d0 d1 (plain Message.env q.env) _ es (λ zs. receive_env c d0 q.env zs he)
      ∙ stage c d1 d2 (plain Message.arg q.args) _ es (λ zs. receive_args c d1 q.args zs ha)
      ∙ stage c d2 d3 ((Message.session_type q.session_type, []) ∷ []) _ es
          (receive_session_type c d2 q.session_type)
      ∙ stage c d3 d4 (winsize_messages q.winsize) _ es (λ zs. receive_winsize c d3 q.winsize zs hw)
      ∙ receive_stdio_end c d4 stdio es)
