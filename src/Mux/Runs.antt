-- ===== src/Mux/Runs.antt =====
-- Runs of the multiplexer on concrete frames and streams, and its theorems at concrete inputs.
use capsudo_rs.Base.{ℕ, ◌≡◌, ◌≢◌, refl, List, [], ◌∷◌, none, some}
use capsudo_rs.Base.Result.{ok}
use capsudo_rs.Base.Bytes.{to_le, from_le}
use capsudo_rs.Proto.Defs.{FieldType, Message}
use capsudo_rs.Proto.Tags.{try_from_u32}
use capsudo_rs.Proto.Header
use capsudo_rs.Transport.Memory.{memory_writer}
use capsudo_rs.Mux.Defs.{dialer, listener}
use capsudo_rs.Mux.Ids.{nth_id, nth_id-ne}
use capsudo_rs.Mux.Frames.{decode_message, frame_header, write_frame}

abbrev ls : Message
ls = record { field_type = FieldType.arg; payload = b'l' ∷ b's' ∷ [] }

abbrev ls_bytes : List ℕ
ls_bytes = 1 ∷ 0 ∷ 0 ∷ 0 ∷ 2 ∷ 0 ∷ 0 ∷ 0 ∷ b'l' ∷ b's' ∷ []

decode_ls : decode_message ls_bytes ≡ some ls
unfolding decode_message Header.decode from_le try_from_u32
decode_ls = refl

decode_cut : decode_message (1 ∷ 0 ∷ 0 ∷ 0 ∷ 2 ∷ 0 ∷ 0 ∷ 0 ∷ b'l' ∷ []) ≡ none
unfolding decode_message Header.decode from_le try_from_u32
decode_cut = refl

nth_id-ne_example : nth_id dialer 3 ≢ nth_id listener 5
nth_id-ne_example = nth_id-ne 3 5

abbrev ping : List ℕ
ping = 7 ∷ 8 ∷ []

write_ping :
    write_frame memory_writer 3 4 ping [] ≡ (ok tt, 3 ∷ 4 ∷ 0 ∷ 0 ∷ 0 ∷ 2 ∷ 0 ∷ 0 ∷ 0 ∷ 7 ∷ 8 ∷ [])
unfolding write_frame frame_header to_le
write_ping = refl
