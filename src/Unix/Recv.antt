-- ===== src/Unix/Recv.antt =====
-- `UnixTransport::recv_header` and `recv`.
use capsudo_rs.Base.{
  ℕ, Bool, true, false, ◌&&◌, List, [], ◌∷◌, ◌++◌, Option, none, some, ltb, if◌then◌else◌, length,
}
use capsudo_rs.Base.Result.{Result, ok, err}
use capsudo_rs.Proto.Defs.{Header, ProtoError}
use capsudo_rs.Proto.Header
use capsudo_rs.Proto.Message
use capsudo_rs.Transport.Defs.{IoError, TransportError, Received}
use capsudo_rs.Transport.Bytes.{Reader}

-- One attempt to read in the loop of `recv_header`: bytes with the descriptors that came along, at
-- the end of the stream none; nothing yet; or an error of `readable` or `recvmsg`.
pub data Arrival : Type 0 where
  got : (bytes fds : List ℕ) → Arrival
  blocked : Arrival
  failed : IoError → Arrival

-- `MAX_SCM_FDS`: the room for descriptors in one `recvmsg`.
abbrev pub max_scm_fds : ℕ
max_scm_fds = 3

abbrev pub Recvd : Type 0
Recvd = Result TransportError (Option (Header × List ℕ))

-- `Header::decode(&hdr)?` with the descriptors.
abbrev pub with_fds : Result ProtoError Header → List ℕ → Recvd
with_fds (err e) owned = err (TransportError.proto e)
with_fds (ok h) owned = ok (some (h, owned))

abbrev is_nil : List ℕ → Bool
is_nil [] = true
is_nil (b ∷ bs) = false

abbrev pub at_end : List ℕ → List ℕ → Recvd
at_end filled owned =
    if is_nil filled && is_nil owned then ok none else err TransportError.unexpected_eof

-- The loop, with the bytes of `hdr` that are filled.
unfoldable pub recv_header : (filled owned : List ℕ) → List Arrival → Option (Recvd × List Arrival)
recv_header filled owned [] = elim (ltb (length filled) Header.size) [
  | true ↦ none
  | false ↦ some (with_fds (Header.decode filled) owned, [])
]
recv_header filled owned (a ∷ as') = elim (ltb (length filled) Header.size) [
  | false ↦ some (with_fds (Header.decode filled) owned, a ∷ as')
  | true ↦ elim a [
    | got bytes fds ↦ elim bytes [
      | [] ↦ some (at_end filled owned, as')
      | b ∷ bs ↦ recv_header (filled ++ (b ∷ bs)) (owned ++ fds) as'
    ]
    | blocked ↦ recv_header filled owned as'
    | failed e ↦ some (err (TransportError.io e), as')
  ]
]

abbrev pub payload_error : IoError → TransportError
payload_error IoError.unexpected_eof = TransportError.unexpected_eof
payload_error e = TransportError.io e

module _ (reader : Reader (List Arrival)) where
  open reader use {read_exact}

  abbrev with_payload :
      Header
      → List ℕ
      → Result IoError (List ℕ) × List Arrival
      → Option (Result TransportError (Option Received) × List Arrival)
  with_payload h fds (err e, rest) = some (err (payload_error e), rest)
  with_payload h fds (ok payload, rest) =
      some (ok (some (record { message = Message.new h.field_type payload; fds = fds })), rest)

  -- `read_exact` of the runtime reads on where the header ended.
  abbrev pub after_header :
      Option (Recvd × List Arrival)
      → Option (Result TransportError (Option Received) × List Arrival)
  after_header none = none
  after_header (some (err e, rest)) = some (err e, rest)
  after_header (some (ok none, rest)) = some (ok none, rest)
  after_header (some (ok (some (h, fds)), rest)) =
      with_payload h fds (if ltb 0 h.len then read_exact h.len rest else (ok [], rest))

  unfoldable pub recv :
      List Arrival → Option (Result TransportError (Option Received) × List Arrival)
  recv as' = after_header (recv_header [] [] as')
