-- ===== src/Python/Raspberry.antt =====
-- `RaspberryModel` of python/src/python.rs: the model of a Raspberry Pi from its name.
use yaroc.Prelude.{◌&&◌, Option, none, some, List, [], ◌∷◌, if◌then◌else◌}
use yaroc.Prelude.Text.{Text, codes, text_eq}

pub data RaspberryModel : Type 0 where
  unknown v1a v1b v1ap v1bp v2a v2b v3a v3b v3ap v3bp v4a v4b v5a v5b v_zero v_zero_w :
      RaspberryModel

-- The `match` on the number and the letter.
pub model_of : Text → Text → RaspberryModel
model_of number letter =
    let is = λ (n : Text) (l : Text). text_eq number n && text_eq letter l in
    if is (codes "1") (codes "A")
    then v1a
    else if is (codes "1") (codes "B")
    then v1b
    else if is (codes "2") (codes "A")
    then v2a
    else if is (codes "2") (codes "B")
    then v2b
    else if is (codes "3") (codes "A")
    then v3a
    else if is (codes "3") (codes "B")
    then v3b
    else if is (codes "4") (codes "A")
    then v4a
    else if is (codes "4") (codes "B")
    then v4b
    else if is (codes "5") (codes "A")
    then v5a
    else if is (codes "5") (codes "B")
    then v5b
    else unknown

pub captured_model : List Text → RaspberryModel
captured_model (number ∷ letter ∷ []) = model_of number letter
captured_model _ = unknown

-- `from_string`; `captures` is the regular expression on a text: what its two groups took, if it matches.
pub from_string : (Text → Option (List Text)) → Text → RaspberryModel
from_string captures model = elim (captures model) [
  | none ↦ v_zero
  | some captures_vec ↦ captured_model captures_vec
]
