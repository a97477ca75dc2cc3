-- ===== src/Punch/Payload.antt =====
-- `punches_from_payload` of common/src/punch.rs: a payload is cut into chunks of 20 bytes, and each
-- is read as a punch. The results are collected into a `Vec` for ten, which panics on an eleventh.
use yaroc.Prelude.{ℕ, zero, suc, ◌+◌, ◌*◌, ◌/◌, ◌≤◌, ◌<◌, ◌≡◌, refl, ap, ap₂, ◌∙◌, arith}
use yaroc.Prelude.{
  true, ==_iff, ◌==◌, if◌then◌else◌, List, [], ◌∷◌, ◌++◌, map, length, take, drop, All,
}
use yaroc.Prelude.{length-append, length-drop, take-append, drop-append, take_all, drop_all}
use yaroc.Prelude.Result.{Result, ok, err, panic, ◌>>=◌, >>=-panic}
use yaroc.Error.{Error, buffer_too_small_error}
use yaroc.Chrono.{Chrono}
use mathlib.Core.Logic.{◌≢◌}
use yaroc.Punch.{SiPunch, from_raw, bytes_to_datetime, last_dow}

-- `chunks(20)`, with fuel for the chunks: as much as there are bytes is enough.
pub chunks_of : ℕ → List ℕ → List (List ℕ)
chunks_of zero xs = []
chunks_of (suc fuel) [] = []
chunks_of (suc fuel) (x ∷ xs) = take 20 (x ∷ xs) ∷ chunks_of fuel (drop 20 (x ∷ xs))

module _ (chrono : Chrono) where
  open chrono use {Date}

  pub decode_chunk : Date → List ℕ → Result Error (Result Error (SiPunch chrono))
  decode_chunk today chunk =
      if length chunk == 20
      then (from_raw chrono chunk today >>= λ punch. ok (ok punch))
      else ok (err buffer_too_small_error)

  -- `collect` into a `Vec` that has room for `room` more.
  pub collect_punches :
      ℕ → Date → List (List ℕ) → Result Error (List (Result Error (SiPunch chrono)))
  collect_punches room today [] = ok []
  collect_punches zero today (chunk ∷ chunks) = panic
  collect_punches (suc room) today (chunk ∷ chunks) = do
    item ← decode_chunk today chunk
    items ← collect_punches room today chunks
    ok (item ∷ items)

  pub punches_from_payload : List ℕ → Date → Result Error (List (Result Error (SiPunch chrono)))
  punches_from_payload payload today = collect_punches 10 today (chunks_of (length payload) payload)

-- Frames of 20 bytes, one after another.
abbrev pub joined : List (List ℕ) → List ℕ → List ℕ
joined [] rest = rest
joined (frame ∷ frames) rest = frame ++ joined frames rest

-- What is left at the end is a chunk of its own.
abbrev pub last_chunk : List ℕ → List (List ℕ)
last_chunk [] = []
last_chunk (x ∷ xs) = (x ∷ xs) ∷ []

chunks_of-nil : (fuel : ℕ) → chunks_of fuel [] ≡ []
unfolding chunks_of
chunks_of-nil zero = refl
chunks_of-nil (suc fuel) = refl

chunks_of-rest :
    (fuel : ℕ) (rest : List ℕ)
    → length rest ≤ fuel
    → length rest ≤ 20
    → chunks_of fuel rest ≡ last_chunk rest
unfolding chunks_of
chunks_of-rest fuel [] p q = chunks_of-nil fuel
chunks_of-rest zero (x ∷ xs) p q = absurd (omega arith)
chunks_of-rest (suc fuel) (x ∷ xs) p q =
    ap₂ ◌∷◌ (take_all 20 (x ∷ xs) q) (rw (drop_all 20 (x ∷ xs) q) (chunks_of-nil fuel))

-- A frame is the first chunk of what begins with it.
chunks_of-frame :
    (fuel : ℕ) (frame rest : List ℕ)
    → length frame ≡ 20
    → chunks_of (suc fuel) (frame ++ rest) ≡ frame ∷ chunks_of fuel rest
unfolding chunks_of
chunks_of-frame fuel [] rest h = absurd (omega arith)
chunks_of-frame fuel (x ∷ xs) rest h =
    ap₂ ◌∷◌ (take-append 20 (x ∷ xs) rest h) (ap (chunks_of fuel) (drop-append 20 (x ∷ xs) rest h))

abbrev pub IsFrame : List ℕ → Type 0
IsFrame frame = length frame ≡ 20

pub chunks_of-joined :
    (frames : List (List ℕ)) (rest : List ℕ) (fuel : ℕ)
    → All IsFrame frames
    → length rest ≤ 20
    → length (joined frames rest) ≤ fuel
    → chunks_of fuel (joined frames rest) ≡ frames ++ last_chunk rest
chunks_of-joined [] rest fuel h p q = chunks_of-rest fuel rest q p
chunks_of-joined (frame ∷ frames) rest zero h p q =
    absurd (omega (arith, h.0, length-append frame (joined frames rest)))
chunks_of-joined (frame ∷ frames) rest (suc fuel) h p q =
    chunks_of-frame fuel frame (joined frames rest) h.0
    ∙ ap (λ t. frame ∷ t)
        (chunks_of-joined frames rest fuel h.1 p
          (omega (arith, h.0, length-append frame (joined frames rest))))

module _ (chrono : Chrono) (today : chrono.Date) where
  -- The frame is of 20 bytes and is read as the punch.
  pub record IsReadAs (pair : List ℕ × SiPunch chrono) : Type 0 where
    pub frame : IsFrame pair.0
    pub reads : from_raw chrono pair.0 today ≡ ok pair.1

  abbrev pub frames : List (List ℕ × SiPunch chrono) → List (List ℕ)
  frames pairs = map (λ pair. pair.0) pairs

  -- The results for the frames, then that for what is left.
  abbrev pub results :
      List (List ℕ × SiPunch chrono) → List ℕ → List (Result Error (SiPunch chrono))
  results [] [] = []
  results [] (x ∷ xs) = err buffer_too_small_error ∷ []
  results (pair ∷ pairs) rest = ok pair.1 ∷ results pairs rest

  pub frames-All :
      (pairs : List (List ℕ × SiPunch chrono)) → All IsReadAs pairs → All IsFrame (frames pairs)
  frames-All [] h = tt
  frames-All (pair ∷ pairs) h = (h.0.frame, frames-All pairs h.1)

  decode_chunk-frame :
      (pair : List ℕ × SiPunch chrono)
      → IsReadAs pair
      → decode_chunk chrono today pair.0 ≡ ok (ok pair.1)
  unfolding decode_chunk
  decode_chunk-frame pair h =
      let full : (length pair.0 == 20) ≡ true = (==_iff _ _).1 h.frame in rw (full, h.reads)

  decode_chunk-short :
      (chunk : List ℕ)
      → length chunk < 20
      → decode_chunk chrono today chunk ≡ ok (err buffer_too_small_error)
  unfolding decode_chunk
  decode_chunk-short chunk h = ground arith

  collect_results :
      (pairs : List (List ℕ × SiPunch chrono)) (rest : List ℕ) (room : ℕ)
      → All IsReadAs pairs
      → length rest < 20
      → length pairs + (length rest + 19) / 20 ≤ room
      → collect_punches chrono room today (frames pairs ++ last_chunk rest)
        ≡ ok (results pairs rest)
  unfolding collect_punches
  collect_results [] [] zero h short fits = refl
  collect_results [] [] (suc room) h short fits = refl
  collect_results [] (x ∷ xs) zero h short fits = absurd (omega arith)
  collect_results [] (x ∷ xs) (suc zero) h short fits = rw (decode_chunk-short (x ∷ xs) short)
  collect_results [] (x ∷ xs) (suc (suc room)) h short fits = rw (decode_chunk-short (x ∷ xs) short)
  collect_results (pair ∷ pairs) rest zero h short fits = absurd (omega arith)
  collect_results (pair ∷ pairs) rest (suc room) h short fits =
      rw (decode_chunk-frame pair h.0, collect_results pairs rest room h.1 short (omega arith))

  -- A payload of up to ten readable frames, the last of which may be cut short, gives the punch of
  -- each frame in order, and an error for the short one.
  pub punches_from_payload-joined :
      (pairs : List (List ℕ × SiPunch chrono)) (rest : List ℕ)
      → All IsReadAs pairs
      → length rest < 20
      → length pairs + (length rest + 19) / 20 ≤ 10
      → punches_from_payload chrono (joined (frames pairs) rest) today ≡ ok (results pairs rest)
  unfolding punches_from_payload
  punches_from_payload-joined pairs rest h short fits =
      let payload = joined (frames pairs) rest in
      rw
        (chunks_of-joined (frames pairs) rest (length payload) (frames-All pairs h) (omega arith)
          (omega arith))
        (collect_results pairs rest 10 h short fits)

  -- Reading a punch ends in a punch or a panic.
  decode_chunk-ne-err : (chunk : List ℕ) (e : Error) → decode_chunk chrono today chunk ≢ err e
  unfolding decode_chunk from_raw bytes_to_datetime last_dow
  decode_chunk-ne-err chunk e h = ground arith

  -- An eleventh chunk does not fit.
  collect_overflow :
      (room fuel : ℕ) (payload : List ℕ)
      → room * 20 < length payload
      → length payload ≤ fuel
      → collect_punches chrono room today (chunks_of fuel payload) ≡ panic
  unfolding collect_punches chunks_of
  collect_overflow room fuel [] h p = absurd (omega arith)
  collect_overflow room zero (x ∷ xs) h p = absurd (omega arith)
  collect_overflow zero (suc fuel) (x ∷ xs) h p = refl
  collect_overflow (suc room) (suc fuel) (x ∷ xs) h p =
      let rest = drop 20 (x ∷ xs) in
      let l = length-drop 20 (x ∷ xs) in
      >>=-panic (decode_chunk chrono today (take 20 (x ∷ xs))) _
        (decode_chunk-ne-err (take 20 (x ∷ xs)))
        (λ item. rw (collect_overflow room fuel rest (omega (arith, l)) (omega (arith, l))))

  -- More than 200 bytes panic.
  pub punches_from_payload_panics :
      (payload : List ℕ) → 200 < length payload → punches_from_payload chrono payload today ≡ panic
  unfolding punches_from_payload
  punches_from_payload_panics payload h =
      collect_overflow 10 (length payload) payload h (omega arith)
