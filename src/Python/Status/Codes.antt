-- ===== src/Python/Status/Codes.antt =====
-- The codes of the punches that a node of python/src/status.rs has sent.
use yaroc.Prelude.{ℕ, ◌≡◌, refl, ◌∙◌, Bool, true, false, ◌||◌, Option, some}
use yaroc.Prelude.{List, [], ◌∷◌, ◌==◌, ==_iff, inl, inr, Bool-cases}
use yaroc.Prelude.Int.{ℤ}
use yaroc.Python.Status.{
  Punch, CellularRocStatus, contains, insert, cellular_punch, serialize_cellular,
}

contains-insert :
    (c d : ℕ) (codes : List ℕ) → contains c (insert d codes) ≡ ((d == c) || contains c codes)
unfolding contains insert
contains-insert c d codes = elim (Bool-cases (contains d codes)) [
  | inr new ↦ rw new
  | inl old ↦ elim (Bool-cases (d == c)) [
    | inr other ↦ rw (old, other)
    | inl same ↦
        let e : d ≡ c = (==_iff d c).0 same in
        let there : contains c codes ≡ true = rw (← e) old in rw (old, same, there)
  ]
]

-- No code is there twice.
abbrev pub NoRepeats : List ℕ → Type 0
NoRepeats [] = Unit
NoRepeats (c ∷ codes) = (contains c codes ≡ false) × NoRepeats codes

pub insert-NoRepeats : (d : ℕ) (codes : List ℕ) → NoRepeats codes → NoRepeats (insert d codes)
unfolding insert
insert-NoRepeats d codes h = elim (Bool-cases (contains d codes)) [
  | inr new ↦ rw new (new, h)
  | inl old ↦ rw old h
]

or_swap : (a b c : Bool) → (a || (b || c)) ≡ ((b || a) || c)
or_swap true true c = refl
or_swap true false c = refl
or_swap false true c = refl
or_swap false false c = refl

module _ (Time F32 F64 : Type 0) where
  -- The status after the punches, the first of them first.
  abbrev pub after :
      List (Punch Time F32 F64) → CellularRocStatus Time F32 F64 → CellularRocStatus Time F32 F64
  after [] self = self
  after (punch ∷ punches) self = after punches (cellular_punch Time F32 F64 punch self)

  -- One of the punches has the code.
  abbrev pub has_code : ℕ → List (Punch Time F32 F64) → Bool
  has_code c [] = false
  has_code c (punch ∷ punches) = (punch.code == c) || has_code c punches

  abbrev pub last_time : List (Punch Time F32 F64) → Option Time → Option Time
  last_time [] before = before
  last_time (punch ∷ punches) before = last_time punches (some punch.time)

  codes-after :
      (c : ℕ) (punches : List (Punch Time F32 F64)) (self : CellularRocStatus Time F32 F64)
      → contains c (after punches self).codes ≡ (has_code c punches || contains c self.codes)
  unfolding cellular_punch
  codes-after c [] self = refl
  codes-after c (punch ∷ punches) self =
      codes-after c punches (cellular_punch Time F32 F64 punch self)
      ∙ rw (contains-insert c punch.code self.codes)
          (or_swap (has_code c punches) (punch.code == c) (contains c self.codes))

  NoRepeats-after :
      (punches : List (Punch Time F32 F64)) (self : CellularRocStatus Time F32 F64)
      → NoRepeats self.codes
      → NoRepeats (after punches self).codes
  unfolding cellular_punch
  NoRepeats-after [] self h = h
  NoRepeats-after (punch ∷ punches) self h =
      NoRepeats-after punches (cellular_punch Time F32 F64 punch self)
        (insert-NoRepeats punch.code self.codes h)

  rest-after :
      (punches : List (Punch Time F32 F64)) (self : CellularRocStatus Time F32 F64)
      → ((after punches self).last_punch ≡ last_time punches self.last_punch)
        × ((after punches self).state ≡ self.state)
        × ((after punches self).last_update ≡ self.last_update)
  unfolding cellular_punch
  rest-after [] self = (refl, refl, refl)
  rest-after (punch ∷ punches) self = rest-after punches (cellular_punch Time F32 F64 punch self)

  -- After any punches, what is shown of a node has each code that was there or that a punch has, and
  -- none twice; the time of the last punch; and the cell and the last update from before.
  pub serialize_cellular-after :
      (by_ten : ℤ → F32) (c : ℕ) (punches : List (Punch Time F32 F64))
      (self : CellularRocStatus Time F32 F64)
      → NoRepeats self.codes
      → let info = serialize_cellular Time F32 F64 by_ten (after punches self) in
        let before = serialize_cellular Time F32 F64 by_ten self in
        (contains c info.codes ≡ (has_code c punches || contains c before.codes))
        × NoRepeats info.codes
        × (info.last_punch ≡ last_time punches before.last_punch)
        × (info.cellid ≡ before.cellid)
        × (info.last_update ≡ before.last_update)
  unfolding serialize_cellular
  serialize_cellular-after by_ten c punches self h =
      let rest = rest-after punches self in
      (codes-after c punches self, NoRepeats-after punches self h, rest.0, rw rest.1, rest.2)
