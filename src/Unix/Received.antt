-- ===== src/Unix/Received.antt =====
-- What `recv` makes of the pieces in which a message arrives.
use capsudo_rs.Base.{
  ℕ, ◌+◌, ◌≤◌, ◌<◌, ◌≡◌, refl, sym, ap, ◌∙◌, subst, true, false, List, [], ◌∷◌, ◌++◌, append_assoc,
  append-nil, Option, some, arith, ge→ltb, lt→ltb, length, length-append, take, drop,
  take-length-append, drop-length-append, ap₂, ◌⊎◌, inl, inr,
}
use capsudo_rs.Base.Result.{ok}
use capsudo_rs.Proto.Defs.{Header, Message, max_payload}
use capsudo_rs.Proto.Header
use capsudo_rs.Proto.Message
use capsudo_rs.Transport.Bytes.{Reader}
use capsudo_rs.Unix.Recv.{
  Arrival, got, blocked, failed, Recvd, with_fds, at_end, recv_header, after_header, recv, got,
  blocked, failed,
}

-- The bytes and the descriptors of arrivals.
abbrev pub arrived : List Arrival → List ℕ
arrived [] = []
arrived (got bytes fds ∷ as') = bytes ++ arrived as'
arrived (a ∷ as') = arrived as'

abbrev pub fds_of : List Arrival → List ℕ
fds_of [] = []
fds_of (got bytes fds ∷ as') = fds ++ fds_of as'
fds_of (a ∷ as') = fds_of as'

-- The attempts that fill a header of which so many bytes are there: the loop makes another while
-- one is missing, and none of them meets the end or an error.
abbrev pub Fills : ℕ → List Arrival → Type 0
Fills n [] = n ≡ Header.size
Fills n (got [] fds ∷ as') = ⊥
Fills n (got (b ∷ bs) fds ∷ as') = (n < Header.size) × Fills (n + length (b ∷ bs)) as'
Fills n (blocked ∷ as') = (n < Header.size) × Fills n as'
Fills n (failed e ∷ as') = ⊥

recv_header-full :
    (filled owned : List ℕ) (as' : List Arrival)
    → length filled ≡ Header.size
    → recv_header filled owned as' ≡ some (with_fds (Header.decode filled) owned, as')
unfolding recv_header
recv_header-full filled owned [] e =
    rw (ge→ltb (length filled) Header.size (omega arith), recv_header) refl
recv_header-full filled owned (a ∷ as') e =
    rw (ge→ltb (length filled) Header.size (omega arith), recv_header) refl

recv_header-got :
    (filled owned : List ℕ) (b : ℕ) (bs fds : List ℕ) (rest : List Arrival)
    → length filled < Header.size
    → recv_header filled owned (got (b ∷ bs) fds ∷ rest)
      ≡ recv_header (filled ++ (b ∷ bs)) (owned ++ fds) rest
unfolding recv_header
recv_header-got filled owned b bs fds rest h =
    ap
      (λ t. elim t as (λ _. Option (Recvd × List Arrival)) [
        | true ↦ recv_header (filled ++ (b ∷ bs)) (owned ++ fds) rest
        | false ↦ some (with_fds (Header.decode filled) owned, got (b ∷ bs) fds ∷ rest)
      ])
      (lt→ltb (length filled) Header.size h)

recv_header-blocked :
    (filled owned : List ℕ) (rest : List Arrival)
    → length filled < Header.size
    → recv_header filled owned (blocked ∷ rest) ≡ recv_header filled owned rest
unfolding recv_header
recv_header-blocked filled owned rest h =
    ap
      (λ t. elim t as (λ _. Option (Recvd × List Arrival)) [
        | true ↦ recv_header filled owned rest
        | false ↦ some (with_fds (Header.decode filled) owned, blocked ∷ rest)
      ])
      (lt→ltb (length filled) Header.size h)

-- The header, in whatever pieces its bytes arrive.
recv_header-Fills :
    (filled owned : List ℕ) (as' rest : List Arrival)
    → Fills (length filled) as'
    → recv_header filled owned (as' ++ rest)
      ≡ some (with_fds (Header.decode (filled ++ arrived as')) (owned ++ fds_of as'), rest)
recv_header-Fills filled owned [] rest h =
    recv_header-full filled owned rest h
    ∙ ap₂ (λ x y. some (with_fds (Header.decode x) y, rest)) (sym (append-nil filled))
        (sym (append-nil owned))
recv_header-Fills filled owned (got [] fds ∷ as') rest h = absurd h
recv_header-Fills filled owned (got (b ∷ bs) fds ∷ as') rest (room, h) =
    let longer : length filled + length (b ∷ bs) ≡ length (filled ++ (b ∷ bs)) =
      sym (length-append filled (b ∷ bs)) in
    recv_header-got filled owned b bs fds (as' ++ rest) room
    ∙ recv_header-Fills (filled ++ (b ∷ bs)) (owned ++ fds) as' rest
        (subst (λ n. Fills n as') longer h)
    ∙ ap₂ (λ x y. some (with_fds (Header.decode x) y, rest))
        (append_assoc filled (b ∷ bs) (arrived as')) (append_assoc owned fds (fds_of as'))
recv_header-Fills filled owned (blocked ∷ as') rest (room, h) =
    recv_header-blocked filled owned (as' ++ rest) room ∙ recv_header-Fills filled owned as' rest h
recv_header-Fills filled owned (failed e ∷ as') rest h = absurd h

-- The end of the stream.
recv_header-end :
    (filled owned fds : List ℕ) (rest : List Arrival)
    → length filled < Header.size
    → recv_header filled owned (got [] fds ∷ rest) ≡ some (at_end filled owned, rest)
unfolding recv_header
recv_header-end filled owned fds rest h =
    rw (lt→ltb (length filled) Header.size h, recv_header) refl

header_len :
    (m : Message) → length m.payload ≤ max_payload → (Message.header m).len ≡ length m.payload
unfolding Message.header
header_len m small = omega arith

header_type : (m : Message) → (Message.header m).field_type ≡ m.field_type
unfolding Message.header
header_type m = refl

decode-header :
    (m : Message)
    → length m.payload ≤ max_payload
    → Header.decode (Header.encode (Message.header m)) ≡ ok (Message.header m)
decode-header m small =
    Header.decode-encode (Message.header m) (omega (arith, header_len m small))
    ∙ rw (ge→ltb max_payload (Message.header m).len (omega (arith, header_len m small))) refl

module _ (reader : Reader (List Arrival)) where
  open reader use {read_exact, content, ending, read_exact_full, read_exact_short}

  -- What is left behind a payload of so many bytes.
  abbrev pub Left : ℕ → List Arrival → List Arrival → Type 0
  Left n rest rest' =
      ((n ≡ 0) × (rest' ≡ rest)) ⊎ ((bs : List ℕ) × (read_exact n rest ≡ (ok bs, rest')))

  -- The payload behind a header that was read.
  recv-payload :
      (h : Header) (fds payload more : List ℕ) (rest : List Arrival)
      → h.len ≡ length payload
      → content rest ≡ payload ++ more
      → (rest' : List Arrival) × (after_header reader (some (ok (some (h, fds)), rest))
          ≡ some
              (ok (some (record { message = Message.new h.field_type payload; fds = fds })), rest'))
        × (content rest' ≡ more)
        × Left h.len rest rest'
  recv-payload h fds [] more rest len c =
      (rest, rw (ge→ltb 0 h.len (omega arith)) refl, c, inl (len, refl))
  recv-payload h fds (b ∷ bs) more rest len c =
      let payload : List ℕ = b ∷ bs in
      let (rest', read, left, end) =
        read_exact_full h.len rest (omega (arith, ap length c, length-append payload more)) in
      let front : take h.len (content rest) ≡ payload =
        ap (take h.len) c ∙ take-length-append h.len payload more (sym len) in
      (
        rest',
        rw (lt→ltb 0 h.len (omega arith), read, front) refl,
        left ∙ ap (drop h.len) c ∙ drop-length-append h.len payload more (sym len),
        inr (take h.len (content rest), read),
      )

  -- A message in pieces, with what is left behind it.
  pub recv-encode-Left :
      (m : Message) (as' rest : List Arrival) (more : List ℕ)
      → length m.payload ≤ max_payload
      → Fills 0 as'
      → arrived as' ≡ Header.encode (Message.header m)
      → content rest ≡ m.payload ++ more
      → (rest' : List Arrival) × (recv reader (as' ++ rest)
          ≡ some (ok (some (record { message = m; fds = fds_of as' })), rest'))
        × (content rest' ≡ more)
        × Left (length m.payload) rest rest'
  unfolding recv
  recv-encode-Left m as' rest more small h e c =
      let read : recv_header [] [] (as' ++ rest)
          ≡ some (ok (some (Message.header m, fds_of as')), rest) =
        recv_header-Fills [] [] as' rest h
        ∙ ap (λ x. some (with_fds (Header.decode x) (fds_of as'), rest)) e
        ∙ ap (λ x. some (with_fds x (fds_of as'), rest)) (decode-header m small) in
      let (rest', done, left, behind) =
        recv-payload (Message.header m) (fds_of as') m.payload more rest (header_len m small) c in
      let as_sent =
        ap
          (λ t.
            some
              (ok (some (record { message = Message.new t m.payload; fds = fds_of as' })), rest'))
          (header_type m) in
      (
        rest',
        ap (after_header reader) read ∙ done ∙ as_sent,
        left,
        subst (λ n. Left n rest rest') (header_len m small) behind,
      )

  -- A message is received whole, with all the descriptors that came with its header, in whatever
  -- pieces the header arrives and however often the socket had nothing yet; what follows on the
  -- stream is left. The payload is within the maximum.
  pub recv-encode :
      (m : Message) (as' rest : List Arrival) (more : List ℕ)
      → length m.payload ≤ max_payload
      → Fills 0 as'
      → arrived as' ≡ Header.encode (Message.header m)
      → content rest ≡ m.payload ++ more
      → (rest' : List Arrival) × (recv reader (as' ++ rest)
          ≡ some (ok (some (record { message = m; fds = fds_of as' })), rest'))
        × (content rest' ≡ more)
  recv-encode m as' rest more small h e c =
      let (rest', done, left, _) = recv-encode-Left m as' rest more small h e c in
      (rest', done, left)
