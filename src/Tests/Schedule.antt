-- ===== src/Tests/Schedule.antt =====
-- The small policy with the slots that it is assigned, for internal/eval/executor.go: a fact, some
-- evidence, and a group of both whose slot is that of the fact.
use verifoxx.Common.{
  ℕ, zero, suc, ◌≤◌, ◌<◌, ◌≡◌, ◌≢◌, refl, true, inl, some, List, [], ◌∷◌, arith, length, get_or,
  replicate,
}
use verifoxx.Truth.Planes.Rows.{HasShape}
use verifoxx.Compile.Slots.{take_lowest_free_slot, skip_empty, mark_slot_free, trailing_zeros}
use verifoxx.Compile.Allocate.{SlotMode}
use verifoxx.Compile.Lifetimes.{validate_slot_program, assign_slots, compute_reason_live}
use verifoxx.Compile.Lifetimes.Reasons.{Flagged}
use verifoxx.Eval.Evidence.{eval_validated, require_predicate}
use verifoxx.Eval.Leaf.Rows.{HasReasonShape}
use verifoxx.Eval.Reduce.Truth.{window}
use verifoxx.Eval.Reduce.Reasons.{reason_window}
use verifoxx.Eval.Clause.{Scratch}
use verifoxx.Eval.Schedule.{valid_execution_schedule, execute_schedule, predicate_of}
use verifoxx.Eval.Schedule.Reference.{
  Value, leaf_value, group_value, group_at, value_at, next_value, values_of,
}
use verifoxx.Eval.Schedule.Stored.{IsScratch}
use verifoxx.Eval.Schedule.Explained.Checked.{IsChecked}
use verifoxx.Eval.Schedule.Correct.{
  KeepsSlots, RootsHold, assign_slots-KeepsSlots, execute_schedule-RootsHold,
  assign_slots-execute_schedule,
}
use verifoxx.Eval.Schedule.Roots.{RootExplained, execute_schedule-RootExplained}
use verifoxx.Tests.Policy.{policy, batch}
use verifoxx.Tests.Evidence
use verifoxx.Tests.Evidence.{states, bind_states-states, batch-valid, eval_unchecked-out}
use verifoxx.Tests.Predicate
use verifoxx.Tests.Predicate.{eval_predicate-out}

policy-valid : validate_slot_program policy ≡ true
unfolding validate_slot_program
policy-valid = refl

policy-accepted : valid_execution_schedule policy ≡ true
unfolding valid_execution_schedule
policy-accepted = refl

policy-assigned : assign_slots policy SlotMode.slot_reuse ≡ some policy
unfolding assign_slots take_lowest_free_slot skip_empty mark_slot_free trailing_zeros
policy-assigned = refl

policy-Flagged : (row : ℕ) → row < length policy.opcodes → Flagged (compute_reason_live policy) row
unfolding compute_reason_live
policy-Flagged zero inside = refl
policy-Flagged (suc zero) inside = refl
policy-Flagged (suc (suc zero)) inside = refl
policy-Flagged (suc (suc (suc row))) inside = absurd (omega arith)

-- The windows before, with what an earlier batch left in them.
abbrev before : Scratch
before = record {
  truths =
      record { positive = 3 ∷ []; negative = 1 ∷ [] }
      ∷ record { positive = 0 ∷ []; negative = 2 ∷ [] }
      ∷ [];
  reasons = record { words = 1 ∷ replicate 8 0 } ∷ record { words = replicate 9 2 } ∷ [];
}

before-IsScratch : IsScratch 2 2 2 before
before-IsScratch = record {
  truth_count = refl;
  reason_count = refl;
  truths = truth_shape;
  reasons = reason_shape;
}
  where
    truth_shape : (slot : ℕ) → 0 < slot → slot ≤ 2 → HasShape 2 (window before.truths slot)
    truth_shape zero lo hi = absurd (omega arith)
    truth_shape (suc zero) lo hi = record { positive = refl; negative = refl }
    truth_shape (suc (suc zero)) lo hi = record { positive = refl; negative = refl }
    truth_shape (suc (suc (suc slot))) lo hi = absurd (omega arith)

    reason_shape :
        (slot : ℕ) → 0 < slot → slot ≤ 2 → HasReasonShape 2 (reason_window before.reasons slot)
    reason_shape zero lo hi = absurd (omega arith)
    reason_shape (suc zero) lo hi = refl
    reason_shape (suc (suc zero)) lo hi = refl
    reason_shape (suc (suc (suc slot))) lo hi = absurd (omega arith)

abbrev leaves : List Value
leaves = leaf_value 2 Predicate.out ∷ leaf_value 2 Evidence.out ∷ []

abbrev values : List Value
values =
    leaf_value 2 Predicate.out
    ∷ leaf_value 2 Evidence.out
    ∷ group_value true leaves (1 ∷ 2 ∷ [])
    ∷ []

policy-values : values_of policy batch states ≡ some values
unfolding values_of next_value value_at group_at predicate_of eval_validated require_predicate
policy-values = rw (eval_predicate-out, eval_unchecked-out)

policy-KeepsSlots : KeepsSlots policy policy.truth_slots × KeepsSlots policy policy.reason_slots
policy-KeepsSlots =
    assign_slots-KeepsSlots policy policy SlotMode.slot_reuse policy-valid (inl refl) policy-Flagged
      policy-assigned

execute_schedule-RootsHold_example :
    (after : Scratch) × (execute_schedule policy batch states before ≡ some after)
    × IsScratch 2 2 2 after
    × RootsHold policy 2 after values
execute_schedule-RootsHold_example =
    execute_schedule-RootsHold policy batch states before values policy-accepted policy-KeepsSlots.0
      policy-KeepsSlots.1 before-IsScratch policy-values

assign_slots-execute_schedule_example :
    (after : Scratch) × (execute_schedule policy batch states before ≡ some after)
    × RootsHold policy 2 after values
assign_slots-execute_schedule_example =
    assign_slots-execute_schedule policy policy SlotMode.slot_reuse batch states before values
      policy-valid (inl refl) policy-Flagged policy-assigned policy-accepted before-IsScratch
      policy-values

policy-IsChecked : IsChecked policy batch states
policy-IsChecked = record {
  bound = bind_states-states;
  valid = batch-valid;
  words = λ i. omega arith;
}

execute_schedule-RootExplained_example :
    (after : Scratch) × (execute_schedule policy batch states before ≡ some after)
    × ((root r : ℕ)
        → root < 3
        → get_or policy.root_flags root 0 ≢ 0
        → r < 2
        → RootExplained policy 2 after root r)
execute_schedule-RootExplained_example =
    execute_schedule-RootExplained policy batch states before values policy-IsChecked
      policy-accepted policy-KeepsSlots.0 policy-KeepsSlots.1 before-IsScratch policy-values
