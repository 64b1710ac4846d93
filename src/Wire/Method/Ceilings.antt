-- ===== src/Wire/Method/Ceilings.antt =====
-- The evidence class, its ceiling and its floor.
use lastro.Common.{ℕ, ◌*◌, ◌/◌, ◌≤◌, ◌≡◌, ◌↔◌, ◌⊎◌, arith}
use lastro.Wire.Method.{class_of, inference, percent}

-- The ceiling is the confidence of the class in q8, rounded down, for every method id.
pub class_of_ceiling : (id : ℕ) → (class_of id).1 ≡ percent (class_of id).0 * 255 / 100
unfolding class_of
class_of_ceiling id = ground arith

-- A method id that the table does not know falls to the lowest class, and so does 8 (derived);
-- no id from 1 to 7 does.
pub class_of-inference_iff : (id : ℕ) → ((class_of id).0 ≡ inference) ↔ ((id ≡ 0) ⊎ (8 ≤ id))
unfolding class_of
class_of-inference_iff id = ground arith
