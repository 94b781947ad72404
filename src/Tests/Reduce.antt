-- ===== src/Tests/Reduce.antt =====
-- A group of two operands whose slot is that of the first one, for internal/eval/executor.go.
use verifoxx.Common.{
  ℕ, ◌≤◌, ◌<◌, ◌≡◌, ◌≢◌, refl, true, some, List, [], ◌∷◌, length, replicate, arith,
}
use verifoxx.Truth.Planes.{Planes}
use verifoxx.Truth.Planes.Rows.{HasShape, row_state}
use verifoxx.Eval.Leaf.{ReasonPlanes}
use verifoxx.Eval.Leaf.Rows.{HasReasonShape, reason_at}
use verifoxx.Eval.Reduce.Truth.{
  reduce_truth_group, window, connect_all, operand_states, reduce_truth_group-connect_all,
}
use verifoxx.Eval.Reduce.Reasons.{
  reduce_reason_group, reason_window, any_reason, reduce_reason_group-any_reason,
}

abbrev slots : List ℕ
slots = 1 ∷ 2 ∷ 1 ∷ []

abbrev store : List Planes
store =
    record { positive = 3 ∷ []; negative = 0 ∷ [] }
    ∷ record { positive = 1 ∷ []; negative = 2 ∷ [] }
    ∷ []

shapes : HasShape 2 (window store 1) × HasShape 2 (window store 2)
shapes = (record { positive = refl; negative = refl }, record { positive = refl; negative = refl })

reduce_truth_group-connect_all_example :
    (store' : List Planes) × (reduce_truth_group true 2 slots 1 (1 ∷ 2 ∷ []) store ≡ some store')
    × HasShape 2 (window store' 1)
    × ((row : ℕ)
        → row < 2
        → row_state (window store' 1) row
          ≡ connect_all true (operand_states slots store (1 ∷ 2 ∷ []) row))
    × ((slot : ℕ)
        → 0 < slot
        → slot ≤ length store
        → slot ≢ 1
        → window store' slot ≡ window store slot)
    × (length store' ≡ length store)
reduce_truth_group-connect_all_example =
    reduce_truth_group-connect_all true 2 slots 1 store 1 (2 ∷ []) (omega arith) (omega arith)
      shapes.0 ((omega arith, omega arith), shapes.0, ((omega arith, omega arith), shapes.1, tt))

abbrev reasons : List ReasonPlanes
reasons = record { words = 1 ∷ replicate 8 0 } ∷ record { words = 0 ∷ 2 ∷ replicate 7 0 } ∷ []

reduce_reason_group-any_reason_example :
    (store' : List ReasonPlanes) × (reduce_reason_group slots 1 (1 ∷ 2 ∷ []) reasons ≡ some store')
    × HasReasonShape 2 (reason_window store' 1)
    × ((q row : ℕ)
        → reason_at 2 (reason_window store' 1) q row
          ≡ any_reason 2 slots reasons (1 ∷ 2 ∷ []) q row)
    × ((slot : ℕ)
        → 0 < slot
        → slot ≤ length reasons
        → slot ≢ 1
        → reason_window store' slot ≡ reason_window reasons slot)
    × (length store' ≡ length reasons)
reduce_reason_group-any_reason_example =
    reduce_reason_group-any_reason 2 slots 1 reasons 1 (2 ∷ []) (omega arith) (omega arith) refl
      ((omega arith, omega arith), refl, ((omega arith, omega arith), refl, tt))
