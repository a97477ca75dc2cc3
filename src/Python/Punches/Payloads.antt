-- ===== src/Python/Punches/Payloads.antt =====
-- `SiPunch::punches_from_payload` of python/src/punch.rs: there is no limit to the frames.
use yaroc.Prelude.{ℕ, ◌<◌, ◌≡◌, refl, arith, true, ◌==◌, ==_iff, Option}
use yaroc.Prelude.{List, [], ◌∷◌, ◌++◌, map, length, All}
use yaroc.Prelude.Result.{Result, ok, err}
use yaroc.Chrono.{Chrono, DateTime}
use yaroc.Punch.Payload.{joined, chunks_of-joined, last_chunk, IsFrame}
use yaroc.Python.Punches.{
  SiPunch, IoError, wrong_length, from_raw, decode_chunk, decode_chunks, punches_from_payload,
}

module _ (chrono : Chrono) {Time Duration : Type 0} (naive_local : Time → DateTime chrono)
    (in_local_zone : DateTime chrono → Option Time) (minus : Time → Time → Duration)
    (today : chrono.Date) where
  abbrev pub Frame : Type 0
  Frame = List ℕ × SiPunch chrono naive_local in_local_zone minus

  -- The frame is of 20 bytes and is read as the punch.
  pub record Reads (pair : Frame) : Type 0 where
    pub frame : IsFrame pair.0
    pub reads : from_raw chrono naive_local in_local_zone minus pair.0 today ≡ ok pair.1

  abbrev pub frames : List Frame → List (List ℕ)
  frames pairs = map (λ pair. pair.0) pairs

  -- The results for the frames, then that for what is left.
  abbrev pub results :
      List Frame → List ℕ → List (Result IoError (SiPunch chrono naive_local in_local_zone minus))
  results [] [] = []
  results [] (x ∷ xs) = err (wrong_length (length (x ∷ xs))) ∷ []
  results (pair ∷ pairs) rest = ok pair.1 ∷ results pairs rest

  All-frames : (pairs : List Frame) → All Reads pairs → All IsFrame (frames pairs)
  All-frames [] h = tt
  All-frames (pair ∷ pairs) h = (h.0.frame, All-frames pairs h.1)

  decodes :
      (pair : Frame)
      → Reads pair
      → decode_chunk chrono naive_local in_local_zone minus today pair.0 ≡ ok (ok pair.1)
  unfolding decode_chunk
  decodes pair h =
      let full : (length pair.0 == 20) ≡ true = (==_iff _ _).1 h.frame in rw (full, h.reads)

  decodes_short :
      (chunk : List ℕ)
      → length chunk < 20
      → decode_chunk chrono naive_local in_local_zone minus today chunk
        ≡ ok (err (wrong_length (length chunk)))
  unfolding decode_chunk
  decodes_short chunk h = ground arith

  All-decoded :
      (pairs : List Frame) (rest : List ℕ)
      → All Reads pairs
      → length rest < 20
      → decode_chunks chrono naive_local in_local_zone minus today (frames pairs ++ last_chunk rest)
        ≡ ok (results pairs rest)
  unfolding decode_chunks
  All-decoded [] [] h short = refl
  All-decoded [] (x ∷ xs) h short = rw (decodes_short (x ∷ xs) short)
  All-decoded (pair ∷ pairs) rest h short = rw (decodes pair h.0, All-decoded pairs rest h.1 short)

  -- A payload of any number of readable frames, the last of which may be cut short, gives the punch of
  -- each frame in order, and an error with the length of the short one.
  pub punches_from_payload-frames :
      (pairs : List Frame) (rest : List ℕ)
      → All Reads pairs
      → length rest < 20
      → punches_from_payload chrono naive_local in_local_zone minus
          (joined (frames pairs) rest)
          today
        ≡ ok (results pairs rest)
  unfolding punches_from_payload
  punches_from_payload-frames pairs rest h short =
      let payload = joined (frames pairs) rest in
      rw
        (chunks_of-joined (frames pairs) rest (length payload) (All-frames pairs h) (omega arith)
          (omega arith))
        (All-decoded pairs rest h short)
