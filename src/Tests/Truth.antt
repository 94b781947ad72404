-- ===== src/Tests/Truth.antt =====
-- The planes and masks of internal/truth on two small inputs.
use verifoxx.Common.{◌≡◌, refl, true, ◌&&◌, ◌||◌, [], ◌∷◌, ◌==◌}
use verifoxx.Truth.Planes.{Planes, and_planes, or_planes, not_planes, set_all}
use verifoxx.Truth.Planes.Rows.{
  HasShape, Writes, row_state, and_state, or_state, not_state, exactly, and_planes-Writes,
  or_planes-Writes, not_planes-Writes, set_all-Writes,
}
use verifoxx.Truth.Reason.{has, with_reason, is_reason, stale, has-with_reason}

-- Seventy requests, in two words.
abbrev left : Planes
left = record { positive = 5 ∷ 1 ∷ []; negative = 2 ∷ 0 ∷ [] }

abbrev right : Planes
right = record { positive = 4 ∷ 3 ∷ []; negative = 3 ∷ 0 ∷ [] }

abbrev dst : Planes
dst = record { positive = 0 ∷ 0 ∷ []; negative = 0 ∷ 0 ∷ [] }

left-HasShape : HasShape 70 left
left-HasShape = record { positive = refl; negative = refl }

right-HasShape : HasShape 70 right
right-HasShape = record { positive = refl; negative = refl }

dst-HasShape : HasShape 70 dst
dst-HasShape = record { positive = refl; negative = refl }

and_planes-Writes_example :
    Writes 70
      (and_planes dst left right 70)
      (λ row. and_state (row_state left row) (row_state right row))
and_planes-Writes_example = and_planes-Writes 70 dst-HasShape left-HasShape right-HasShape

or_planes-Writes_example :
    Writes 70
      (or_planes dst left right 70)
      (λ row. or_state (row_state left row) (row_state right row))
or_planes-Writes_example = or_planes-Writes 70 dst-HasShape left-HasShape right-HasShape

not_planes-Writes_example :
    Writes 70 (not_planes dst left 70) (λ row. not_state (row_state left row))
not_planes-Writes_example = not_planes-Writes 70 dst-HasShape left-HasShape

set_all-Writes_example : Writes 70 (set_all dst true 70) (λ _. exactly true)
set_all-Writes_example = set_all-Writes 70 dst true dst-HasShape

has-with_reason_example :
    has (with_reason 1 stale) stale ≡ (has 1 stale || (is_reason stale && stale == stale))
has-with_reason_example = has-with_reason 1 stale stale
