-- ===== src/Python/Punches/Tests.antt =====
-- The theorem on python/src/punch.rs at eleven frames and a short one.
use yaroc.Prelude.{ℕ, zero, suc, ◌≡◌, refl, arith, Option, some, List, [], ◌∷◌, All}
use yaroc.Prelude.Result.{ok}
use yaroc.Chrono.{DateTime}
use yaroc.Chrono.Sample.{sample}
use yaroc.Punch.Payload.{joined}
use yaroc.Punch.Tests.{punch_bytes, punch_read, reads}
use yaroc.Python.Punches.{SiPunch, from_raw, punches_from_payload}
use yaroc.Python.Punches.Payloads.{Reads, frames, results, punches_from_payload-frames}

-- The zone of the server is that of the punches.
abbrev same_zone : DateTime sample → DateTime sample
same_zone t = t

abbrev resolved : DateTime sample → Option (DateTime sample)
resolved t = some t

abbrev latest : DateTime sample → DateTime sample → ℕ
latest t u = 0

abbrev shown : SiPunch sample same_zone resolved latest
shown = record { card = 1_715_004; code = 47; time = punch_read.time; mode = 2; raw = punch_bytes }

shown_read : from_raw sample same_zone resolved latest punch_bytes 705 ≡ ok shown
unfolding from_raw
shown_read = rw reads.reads

abbrev copies : ℕ → List (List ℕ × SiPunch sample same_zone resolved latest)
copies zero = []
copies (suc n) = (punch_bytes, shown) ∷ copies n

All-read : (n : ℕ) → All (Reads sample same_zone resolved latest 705) (copies n)
All-read zero = tt
All-read (suc n) = (record { frame = refl; reads = shown_read }, All-read n)

punches_from_payload-frames_example :
    punches_from_payload sample same_zone resolved latest
      (joined (frames sample same_zone resolved latest 705 (copies 11)) (0xff ∷ 2 ∷ []))
      705
    ≡ ok (results sample same_zone resolved latest 705 (copies 11) (0xff ∷ 2 ∷ []))
punches_from_payload-frames_example =
    punches_from_payload-frames sample same_zone resolved latest 705 (copies 11) (0xff ∷ 2 ∷ [])
      (All-read 11) (omega arith)
