-- ===== src/Unix/Ordered.antt =====
-- Messages over one stream: what `UnixTransport::recv` returns for what the peer has queued.
use mathlib.Core.Option
use capsudo_rs.Base.{
  ℕ, zero, suc, ◌≤◌, ◌≡◌, refl, ap, ◌∙◌, inl, inr, List, [], ◌∷◌, ◌++◌, append_assoc, Option, none,
  some, arith, length, take, drop, All, length-append, take-length-append, drop-length-append,
}
use capsudo_rs.Base.Result.{ok}
use capsudo_rs.Proto.Defs.{Message, max_payload}
use capsudo_rs.Proto.Header
use capsudo_rs.Proto.Message
use capsudo_rs.Transport.Defs.{FdSpec}
use capsudo_rs.Transport.Bytes.{Reader}
use capsudo_rs.Core.Channel.{Event}
use capsudo_rs.Core.Handshake.{Sent}
use capsudo_rs.Core.Delivery.{deliver, handles}
use capsudo_rs.Unix.Recv.{Arrival, max_scm_fds, recv}
use capsudo_rs.Unix.Received.{Left, recv-encode-Left}
use capsudo_rs.Unix.Send.{raw}
use capsudo_rs.Unix.Stream.{
  Tagged, bytes, riding, bare, tag, Inbox, bytes-bare, bytes-append, bytes-tag, riding-tag,
  length-tag, length-bare, tag-append,
}
use capsudo_rs.Unix.Queued.{tagged}

-- A message that `recv` can take.
abbrev pub IsTaken : Sent → Type 0
IsTaken (m, specs) = (length m.payload ≤ max_payload) × (length (raw specs) ≤ max_scm_fds)

raw-handles : (specs : List FdSpec) → raw specs ≡ handles specs
raw-handles [] = refl
raw-handles (s ∷ specs) = ap (◌∷◌ s.fd) (raw-handles specs)

-- A queued message is its header, with the descriptors, and its payload.
tag-encode :
    (m : Message) (fds : List ℕ)
    → tag (Message.encode m) fds ≡ tag (Header.encode (Message.header m)) fds ++ bare m.payload
unfolding Message.encode
tag-encode m fds =
    tag-append (Header.encode (Message.header m)) m.payload fds
      (omega (arith, Header.length-encode (Message.header m)))

module _ (reader : Reader (List Arrival)) where
  -- What so many calls of `recv` return.
  unfoldable pub recv_each : ℕ → List Arrival → Option (List Event × List Arrival)
  recv_each zero as' = some ([], as')
  recv_each (suc n) as' = elim (recv reader as') [
    | none ↦ none
    | some (e, rest) ↦ Option.map (λ r. (e ∷ r.0, r.1)) (recv_each n rest)
  ]

module _ (reader : Reader (List Arrival)) (inbox : Inbox reader) where
  open reader use {content}
  open inbox use {coming, content_coming, recvmsg, read_exact_coming}

  behind :
      (payload : List ℕ) (more : List Tagged) (rest rest' : List Arrival)
      → coming rest ≡ bare payload ++ more
      → Left reader (length payload) rest rest'
      → coming rest' ≡ more
  behind [] more rest rest' c (inl (none_left, same)) = ap coming same ∙ c
  behind (b ∷ bs) more rest rest' c (inl (none_left, same)) = absurd (omega arith)
  behind payload more rest rest' c (inr (bs, read)) =
      read_exact_coming (length payload) rest rest' bs read
      ∙ ap (drop (length payload)) c
      ∙ drop-length-append (length payload) (bare payload) more (length-bare payload)

  -- The next message on the stream is received, and what is behind it is left.
  recv-tag :
      (m : Message) (fds : List ℕ) (more : List Tagged) (as' : List Arrival)
      → length m.payload ≤ max_payload
      → length fds ≤ max_scm_fds
      → coming as' ≡ tag (Message.encode m) fds ++ more
      → (rest : List Arrival) × (recv reader as'
          ≡ some (ok (some (record { message = m; fds = fds })), rest))
        × (coming rest ≡ more)
  recv-tag m fds more as' small few c =
      let header : List ℕ = Header.encode (Message.header m) in
      let whole : length header ≡ Header.size = Header.length-encode (Message.header m) in
      let behind_header : List Tagged = bare m.payload ++ more in
      let split : coming as' ≡ tag header fds ++ behind_header =
        c
        ∙ ap (λ l. l ++ more) (tag-encode m fds)
        ∙ append_assoc (tag header fds) (bare m.payload) more in
      let front : take Header.size (coming as') ≡ tag header fds =
        ap (take Header.size) split
        ∙ take-length-append Header.size (tag header fds) behind_header
            (length-tag header fds ∙ whole) in
      let carried : riding (take Header.size (coming as')) ≡ fds =
        ap riding front ∙ riding-tag header fds (omega (arith, whole)) in
      let (pieces, rest, parts, fills, filled, with_fds, left) =
        recvmsg as'
          (omega (
            arith,
            ap length split,
            length-append (tag header fds) behind_header,
            length-tag header fds,
            whole,
          ))
          (omega (arith, ap length carried)) in
      let after_header : coming rest ≡ behind_header =
        left
        ∙ ap (drop Header.size) split
        ∙ drop-length-append Header.size (tag header fds) behind_header
            (length-tag header fds ∙ whole) in
      let (rest', received, _, payload_left) =
        recv-encode-Left reader m pieces rest (bytes more) small fills
          (filled ∙ ap bytes front ∙ bytes-tag header fds)
          (content_coming rest
            ∙ ap bytes after_header
            ∙ bytes-append (bare m.payload) more
            ∙ ap (λ l. l ++ bytes more) (bytes-bare m.payload)) in
      (
        rest',
        ap (recv reader) parts
            ∙ received
            ∙ ap (λ l. some (ok (some (record { message = m; fds = l })), rest'))
                (with_fds ∙ carried),
        behind m.payload more rest rest' after_header payload_left,
      )

  -- Messages are received whole, once, in order and each with its own descriptors.
  pub recv_each-tagged :
      (ms : List Sent) (more : List Tagged) (as' : List Arrival)
      → All IsTaken ms
      → coming as' ≡ tagged ms ++ more
      → (rest : List Arrival) × (recv_each reader (length ms) as' ≡ some (deliver ms, rest))
        × (coming rest ≡ more)
  unfolding recv_each
  recv_each-tagged [] more as' h c = (as', refl, c)
  recv_each-tagged ((m, specs) ∷ ms) more as' h c =
      let (rest, received, left) =
        recv-tag m (raw specs) (tagged ms ++ more) as' h.0.0 h.0.1
          (c ∙ append_assoc (tag (Message.encode m) (raw specs)) (tagged ms) more) in
      let (rest', others, end) = recv_each-tagged ms more rest h.1 left in
      (
        rest',
        rw (received, recv_each) (rw others refl)
            ∙ ap (λ l. some (ok (some (record { message = m; fds = l })) ∷ deliver ms, rest'))
                (raw-handles specs),
        end,
      )
