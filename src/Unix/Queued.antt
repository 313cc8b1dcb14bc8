-- ===== src/Unix/Queued.antt =====
-- What `UnixTransport::send` queues for the peer.
use capsudo_rs.Base.{
  ℕ, ◌<◌, ◌≡◌, refl, sym, ap, ◌∙◌, List, [], ◌∷◌, ◌++◌, append_assoc, append-nil, none, some, arith,
  take, drop, All,
}
use capsudo_rs.Base.Result.{ok, err}
use capsudo_rs.Proto.Defs.{Message}
use capsudo_rs.Proto.Message
use capsudo_rs.Transport.Defs.{FdSpec}
use capsudo_rs.Core.Handshake.{Sent}
use capsudo_rs.Unix.Send.{
  Socket, Try, took, blocked, failed, raw, Sending, io-ok, send_rest, send_loop, send,
}
use capsudo_rs.Unix.Stream.{Tagged, tag, bare, Outbox, tag-take-drop}

-- A successful `sendmsg` of a message, which is never empty, takes one byte at least.
abbrev pub Takes : Try → Type 0
Takes (took n) = 0 < n
Takes other = Unit

-- Messages as they are queued.
abbrev pub tagged : List Sent → List Tagged
tagged [] = []
tagged ((m, specs) ∷ ms) = tag (Message.encode m) (raw specs) ++ tagged ms

-- A message with the attempts that its `sendmsg` meets.
abbrev pub Posting : Type 0
Posting = Sent × List Try

abbrev pub posted : List Posting → List Sent
posted [] = []
posted ((s, ts) ∷ ps) = s ∷ posted ps

module _ {W : Type 0} (socket : Socket W) where
  -- Calls of `send` in turn, each with `?`.
  unfoldable pub send_messages : List Posting → W → Sending W
  send_messages [] w = some (ok tt, w)
  send_messages (((m, specs), ts) ∷ ps) w = elim (send socket m specs ts w) [
    | none ↦ none
    | some (err e, w') ↦ some (err e, w')
    | some (ok u, w') ↦ send_messages ps w'
  ]

  module _ (outbox : Outbox socket) where
    open outbox use {queued, accept_queued, write_all_queued}

    send_rest-queued :
        (bs : List ℕ) (w w' : W)
        → send_rest socket bs w ≡ some (ok tt, w')
        → queued w' ≡ queued w ++ bare bs
    send_rest-queued [] w w' e =
        let same : w ≡ w' = cc in ap queued (sym same) ∙ sym (append-nil (queued w))
    send_rest-queued (b ∷ bs) w w' e =
        write_all_queued (b ∷ bs) w w' (io-ok (socket.writer.write_all (b ∷ bs) w) w' e)

    send_loop-queued :
        (buf fds : List ℕ) (ts : List Try) (w w' : W)
        → All Takes ts
        → send_loop socket buf fds ts w ≡ some (ok tt, w')
        → queued w' ≡ queued w ++ tag buf fds
    unfolding send_loop
    send_loop-queued buf fds [] w w' h e = absurd (ground arith)
    send_loop-queued buf fds (took n ∷ ts) w w' h e =
        send_rest-queued (drop n buf) (socket.accept (take n buf) fds w) w' e
        ∙ ap (λ l. l ++ bare (drop n buf)) (accept_queued (take n buf) fds w)
        ∙ append_assoc (queued w) (tag (take n buf) fds) (bare (drop n buf))
        ∙ ap (λ l. queued w ++ l) (tag-take-drop n buf fds h.0)
    send_loop-queued buf fds (blocked ∷ ts) w w' h e = send_loop-queued buf fds ts w w' h.1 e
    send_loop-queued buf fds (failed x ∷ ts) w w' h e = absurd (ground arith)

    -- Without descriptors no byte carries any.
    bare-tag : (bs : List ℕ) → bare bs ≡ tag bs []
    bare-tag [] = refl
    bare-tag (b ∷ bs) = refl

    pub send-queued :
        (m : Message) (specs : List FdSpec) (ts : List Try) (w w' : W)
        → All Takes ts
        → send socket m specs ts w ≡ some (ok tt, w')
        → queued w' ≡ queued w ++ tag (Message.encode m) (raw specs)
    unfolding send
    send-queued m [] ts w w' h e =
        send_rest-queued (Message.encode m) w w' e
        ∙ ap (λ l. queued w ++ l) (bare-tag (Message.encode m))
    send-queued m (s ∷ specs) ts w w' h e =
        send_loop-queued (Message.encode m) (raw (s ∷ specs)) ts w w' h e

    -- The rest of the calls after one that has returned.
    next_post :
        (out : Sending W) (ps : List Posting) (w' : W)
        → elim out as (λ _. Sending W) [
          | none ↦ none
          | some (err e, w1) ↦ some (err e, w1)
          | some (ok u, w1) ↦ send_messages ps w1
        ]
          ≡ some (ok tt, w')
        → (w1 : W) × (out ≡ some (ok tt, w1)) × (send_messages ps w1 ≡ some (ok tt, w'))
    next_post none ps w' e = absurd (ground arith)
    next_post (some (err x, w1)) ps w' e = absurd (ground arith)
    next_post (some (ok u, w1)) ps w' e = (w1, refl, e)

    -- What was sent is queued, in order, and nothing else.
    pub send_messages-queued :
        (ps : List Posting) (w w' : W)
        → All (λ p. All Takes p.1) ps
        → send_messages ps w ≡ some (ok tt, w')
        → queued w' ≡ queued w ++ tagged (posted ps)
    unfolding send_messages
    send_messages-queued [] w w' h e =
        let same : w ≡ w' = cc in ap queued (sym same) ∙ sym (append-nil (queued w))
    send_messages-queued (((m, specs), ts) ∷ ps) w w' h e =
        let (w1, sent, later) = next_post (send socket m specs ts w) ps w' e in
        send_messages-queued ps w1 w' h.1 later
        ∙ ap (λ l. l ++ tagged (posted ps)) (send-queued m specs ts w w1 h.0 sent)
        ∙ append_assoc (queued w) (tag (Message.encode m) (raw specs)) (tagged (posted ps))
