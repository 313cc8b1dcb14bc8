-- ===== src/Core/Handshake.antt =====
-- The configuration handshake from end to end: what the client sends, and what the daemon makes of
-- it when the transport delivers the messages in order.
use capsudo_rs.Base.{
  ℕ, ◌≡◌, refl, sym, ap, ap₂, ◌∙◌, fun_ext, List, [], ◌∷◌, ◌++◌, append-nil, append_assoc, Option,
  none, some, arith,
}
use capsudo_rs.Base.Result.{Result, ok}
use capsudo_rs.Proto.Defs.{Message}
use capsudo_rs.Proto.Message
use capsudo_rs.Proto.Message.{Dims}
use capsudo_rs.Transport.Defs.{FdSpec}
use capsudo_rs.Core.Defs.{CoreError, Stdio, ClientRequest}
use capsudo_rs.Core.Channel.{
  Channel, M, return, ◌>>◌, >>_assoc, send, continue_with, Sends, waits, succeeds, fails,
  send-Sends,
}
use capsudo_rs.Core.Client.{send_each, send_secret, send_winsize, stdio_specs, send_configuration}

abbrev pub Sent : Type 0
Sent = Message × List FdSpec

abbrev pub plain : (List ℕ → Message) → List (List ℕ) → List Sent
plain make [] = []
plain make (s ∷ ss) = (make s, []) ∷ plain make ss

abbrev pub secret_messages : Option (List ℕ) → List Sent
secret_messages none = []
secret_messages (some s) = (Message.secret s, []) ∷ []

abbrev pub winsize_messages : Option Dims → List Sent
winsize_messages none = []
winsize_messages (some dims) = (Message.winsize dims, []) ∷ []

-- The messages of one handshake, in order.
abbrev pub config_messages : ClientRequest → Stdio → Option (List ℕ) → List Sent
config_messages q stdio secret =
    secret_messages secret
    ++ (plain Message.env q.env
        ++ (plain Message.arg q.args
            ++ ((Message.session_type q.session_type, [])
                ∷ (winsize_messages q.winsize
                    ++ ((Message.fds 3, stdio_specs stdio) ∷ (Message.end, []) ∷ [])))))

-- Sending a list of messages, each with `?`.
unfoldable pub send_all : List Sent → M (Result CoreError (Unit {0}))
send_all [] = return (ok tt)
send_all ((m, fds) ∷ ms) = send m fds >> send_all ms

send_all-append : (xs ys : List Sent) → send_all (xs ++ ys) ≡ (send_all xs >> send_all ys)
unfolding send_all
send_all-append [] ys = refl
send_all-append ((m, fds) ∷ xs) ys =
    ap (λ k. send m fds >> k) (send_all-append xs ys)
    ∙ sym (>>_assoc (send m fds) (send_all xs) (send_all ys))

send_once : (m : Message) (fds : List FdSpec) → send_all ((m, fds) ∷ []) ≡ send m fds
unfolding send_all send
send_once m fds = fun_ext λ ch. ground arith

send_each-plain :
    (make : List ℕ → Message) (ss : List (List ℕ)) → send_each make ss ≡ send_all (plain make ss)
unfolding send_each send_all
send_each-plain make [] = refl
send_each-plain make (s ∷ ss) = rw (send_each-plain make ss) refl

send_secret-messages :
    (secret : Option (List ℕ)) → send_secret secret ≡ send_all (secret_messages secret)
unfolding send_all
send_secret-messages none = refl
send_secret-messages (some s) = sym (send_once (Message.secret s) [])

send_winsize-messages : (w : Option Dims) → send_winsize w ≡ send_all (winsize_messages w)
unfolding send_all
send_winsize-messages none = refl
send_winsize-messages (some dims) = sym (send_once (Message.winsize dims) [])

-- A part of the handshake, and one message, in front of the rest.
part :
    {p k : M (Result CoreError (Unit {0}))} (xs ys : List Sent)
    → p ≡ send_all xs
    → k ≡ send_all ys
    → (p >> k) ≡ send_all (xs ++ ys)
part xs ys e f = ap₂ (λ a b. a >> b) e f ∙ sym (send_all-append xs ys)

one :
    {k : M (Result CoreError (Unit {0}))} (m : Message) (fds : List FdSpec) (ys : List Sent)
    → k ≡ send_all ys
    → (send m fds >> k) ≡ send_all ((m, fds) ∷ ys)
unfolding send_all
one m fds ys f = ap (λ k. send m fds >> k) f

-- The client sends exactly the messages of the handshake, in order, one after the other, and stops
-- at the first that cannot be sent.
pub send_configuration-send_all :
    (q : ClientRequest) (stdio : Stdio) (secret : Option (List ℕ))
    → send_configuration q stdio secret ≡ send_all (config_messages q stdio secret)
unfolding send_configuration
send_configuration-send_all q stdio secret = part _ _ (send_secret-messages secret) (
    part _ _ (send_each-plain Message.env q.env) (
      part _ _ (send_each-plain Message.arg q.args) (
        one _ _ _ (
          part _ _ (send_winsize-messages q.winsize)
            (one _ _ _ (sym (send_once Message.end [])))))))

abbrev pub Prefix : List Sent → Channel → Result CoreError (Unit {0}) → Channel → Type 0
Prefix ms ch r ch' =
    (front back : List Sent) × (ms ≡ front ++ back)
    × (ch'.sent ≡ ch.sent ++ front)
    × (ch'.recvs ≡ ch.recvs)
    × (r ≡ ok tt → back ≡ [])

after_send-Prefix :
    {x : Option (Result CoreError (Unit {0}) × Channel)} (m : Message) (fds : List FdSpec)
    (ms : List Sent) (ch ch' : Channel) (r : Result CoreError (Unit {0}))
    → ((ch1 : Channel) → send_all ms ch1 ≡ some (r, ch') → Prefix ms ch1 r ch')
    → Sends m fds ch x
    → continue_with x (λ _. send_all ms) ≡ some (r, ch')
    → Prefix ((m, fds) ∷ ms) ch r ch'
after_send-Prefix m fds ms ch ch' r rest waits e = absurd (cc)
after_send-Prefix m fds ms ch ch' r rest (succeeds left) e =
    let (front, back, split, sent, recvs, whole) = rest _ e in
    (
      (m, fds) ∷ front,
      back,
      ap (◌∷◌ (m, fds)) split,
      sent ∙ append_assoc ch.sent ((m, fds) ∷ []) front,
      recvs,
      whole,
    )
after_send-Prefix m fds ms ch ch' r rest (fails y left) e =
    ([], (m, fds) ∷ ms, refl, ground (arith, append-nil ch.sent), ground arith, λ h. absurd (cc))

-- What a client that got as far as `r` has sent: a front of the messages, which is the whole of it
-- if no call failed. It has received nothing meanwhile.
send_all-Prefix :
    (ms : List Sent) (ch ch' : Channel) (r : Result CoreError (Unit {0}))
    → send_all ms ch ≡ some (r, ch')
    → Prefix ms ch r ch'
unfolding send_all
send_all-Prefix [] ch ch' r e =
    ([], [], refl, ground (arith, append-nil ch.sent), ground arith, λ _. refl)
send_all-Prefix ((m, fds) ∷ ms) ch ch' r e =
    after_send-Prefix m fds ms ch ch' r (λ ch1 e1. send_all-Prefix ms ch1 ch' r e1)
      (send-Sends m fds ch) e

-- However its calls of `send` go, what the client has sent when `send_configuration` returns is a
-- front of the handshake, and the whole of it if it returns no error; it has received nothing.
pub send_configuration-Prefix :
    (q : ClientRequest) (stdio : Stdio) (secret : Option (List ℕ)) (ch ch' : Channel)
    (r : Result CoreError (Unit {0}))
    → send_configuration q stdio secret ch ≡ some (r, ch')
    → Prefix (config_messages q stdio secret) ch r ch'
send_configuration-Prefix q stdio secret ch ch' r e =
    send_all-Prefix (config_messages q stdio secret) ch ch' r
      (ap (λ f. f ch) (sym (send_configuration-send_all q stdio secret)) ∙ e)
