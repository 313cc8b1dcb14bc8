-- ===== src/Mux/Reads.antt =====
-- What the loop of `reader_task` does with the frames of a channel, and how much fuel it takes.
use capsudo_rs.Base.{
  ℕ, zero, suc, ◌≤◌, ◌<◌, ◌≡◌, refl, sym, ap, ◌∙◌, subst, List, [], ◌∷◌, ◌++◌, append_assoc, Option,
  none, some, arith, length, length-append, All,
}
use capsudo_rs.Base.Result.{Result, ok, err}
use capsudo_rs.Base.Bytes.{IsU32}
use capsudo_rs.Transport.Defs.{IoError, unexpected_eof}
use capsudo_rs.Transport.Bytes.{Reader}
use capsudo_rs.Mux.Defs.{max_frame_payload}
use capsudo_rs.Mux.Frames.{Frame, frame_header, read_frame}
use capsudo_rs.Mux.Channel.{read_frame-frame, read_frame-end, length-frame_header}
use capsudo_rs.Mux.Reader.{
  Reading, on_frame, goes, ReaderEnd, left, leave, reader_loop, after_read, after_frame,
}
use capsudo_rs.Mux.Sent.{frame_bytes, wire}

-- A frame that fits its header, and the states that the reader goes through.
abbrev pub Fits : Frame → Type 0
Fits f = IsU32 f.id × (length f.payload ≤ max_frame_payload)

abbrev pub Goes : List Frame → Reading → Reading → Type 0
Goes [] s t = s ≡ t
Goes (f ∷ fs) s t = (s1 : Reading) × (on_frame f s ≡ goes s1) × Goes fs s1 t

pub Goes-append :
    (fs gs : List Frame) (s t u : Reading) → Goes fs s t → Goes gs t u → Goes (fs ++ gs) s u
Goes-append [] gs s t u h k = subst (λ x. Goes gs x u) (sym h) k
Goes-append (f ∷ fs) gs s t u (s1, e, h) k = (s1, e, Goes-append fs gs s1 t u h k)

pub length-wire : (fs : List Frame) → length fs ≤ length (wire fs)
length-wire [] = omega arith
length-wire (f ∷ fs) = omega (
  arith,
  length-wire fs,
  length-append (frame_bytes f) (wire fs),
  length-append (frame_header f.kind f.id f.payload) f.payload,
  length-frame_header f.kind f.id f.payload,
)

after_read-end :
    {R : Type 0} (p : Result IoError (Option Frame) × R) (s : Reading)
    (rest : R → Reading → ReaderEnd)
    → p.0 ≡ ok none
    → after_read p s rest ≡ left (leave s)
after_read-end (err x, r) s rest e = refl
after_read-end (ok none, r) s rest e = refl
after_read-end (ok (some f), r) s rest e = cc

module _ {R : Type 0} (reader : Reader R) where
  open reader use {content, ending}

  pub reader_loop-Goes :
      (fs : List Frame) (s t : Reading) (r : R) (n : ℕ)
      → All Fits fs
      → content r ≡ wire fs
      → ending r ≡ unexpected_eof
      → length fs < n
      → Goes fs s t
      → reader_loop reader n r s ≡ left (leave t)
  unfolding reader_loop
  reader_loop-Goes fs s t r zero fits c e few h = absurd (omega arith)
  reader_loop-Goes [] s t r (suc n) fits c e few h =
      after_read-end (read_frame reader r) s (reader_loop reader n)
        (read_frame-end reader r (omega (arith, ap length c)) e)
      ∙ ap (λ x. left (leave x)) h
  reader_loop-Goes (f ∷ fs) s t r (suc n) (fits, rest) c e few (s1, went, h) =
      let (r', read, behind, end) =
        read_frame-frame reader f.kind f.id f.payload (wire fs) r fits.0 fits.1
          (c ∙ append_assoc (frame_header f.kind f.id f.payload) f.payload (wire fs)) in
      ap (λ p. after_read p s (reader_loop reader n)) read
      ∙ ap (λ x. after_frame x s (reader_loop reader n r')) went
      ∙ reader_loop-Goes fs s1 t r' n rest behind (end ∙ e) (omega arith) h
