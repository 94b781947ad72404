-- ===== src/Eval/Schedule/Roots.antt =====
-- What the roots of a program hold after the schedule of internal/eval/executor.go.
use verifoxx.Common.{ℕ, ◌<◌, ◌≡◌, ◌≢◌, sym, ap, ◌∙◌, true, false, some, List, length, get_or}
use verifoxx.Truth.Planes.Rows.{row_state}
use verifoxx.Truth.Reason.{IsReason, conflict}
use verifoxx.Program.{Program}
use verifoxx.Eval.Batch.{Batch}
use verifoxx.Eval.Leaf.Rows.{reason_at}
use verifoxx.Eval.Reduce.Truth.{window}
use verifoxx.Eval.Reduce.Reasons.{reason_window}
use verifoxx.Eval.Clause.{Scratch}
use verifoxx.Eval.Schedule.{valid_execution_schedule, execute_schedule}
use verifoxx.Eval.Schedule.Reference.{Value, values_of}
use verifoxx.Eval.Schedule.Stored.{IsScratch}
use verifoxx.Eval.Schedule.Explained.Checked.{IsChecked, values_of-Explained}
use verifoxx.Eval.Schedule.Correct.{KeepsSlots, execute_schedule-RootsHold}

-- The slots of a root give a request that is unknown a reason, and one that is contradictory the
-- reason `conflict`.
pub record RootExplained (p : Program) (rows : ℕ) (s : Scratch) (root r : ℕ) : Type 0 where
  pub unknown :
      (row_state (window s.truths (get_or p.truth_slots root 0)) r).positive ≡ false
      → (row_state (window s.truths (get_or p.truth_slots root 0)) r).negative ≡ false
      → (q : ℕ) × IsReason q
        × (reason_at rows (reason_window s.reasons (get_or p.reason_slots root 0)) q r ≡ true)
  pub conflicting :
      (row_state (window s.truths (get_or p.truth_slots root 0)) r).positive ≡ true
      → (row_state (window s.truths (get_or p.truth_slots root 0)) r).negative ≡ true
      → reason_at rows (reason_window s.reasons (get_or p.reason_slots root 0)) conflict r ≡ true

-- With the states that the program binds, a batch that the batch check accepts and whose Boolean
-- column holds 64-bit words, a program that the check accepts, slots that keep each operand until its
-- consumer and each root until the end, and windows in the shape of the row count: if every
-- instruction has a value, the schedule returns, and at the end each root has a reason for each
-- request that is unknown, and the reason `conflict` for each one that is contradictory.
pub execute_schedule-RootExplained :
    (p : Program) (b : Batch) (states : List ℕ) (s : Scratch) (values : List Value)
    → IsChecked p b states
    → valid_execution_schedule p ≡ true
    → KeepsSlots p p.truth_slots
    → KeepsSlots p p.reason_slots
    → IsScratch b.rows p.truth_slot_count p.reason_slot_count s
    → values_of p b states ≡ some values
    → (after : Scratch) × (execute_schedule p b states s ≡ some after)
      × ((root r : ℕ)
          → root < length p.opcodes
          → get_or p.root_flags root 0 ≢ 0
          → r < b.rows
          → RootExplained p b.rows after root r)
execute_schedule-RootExplained p b states s values is valid truths reasons shapes valued =
    let (after, ran, _, hold) =
      execute_schedule-RootsHold p b states s values valid truths reasons shapes valued in
    (
      after,
      ran,
      λ root r inside is_root r_inside.
          let explained = values_of-Explained p b states is r r_inside values root valued in
          let state = hold.truth root r inside is_root r_inside in
          record {
            unknown = λ pos_false neg_false.
                let (q, reason, has) =
                  explained.unknown (ap (λ t. t.positive) (sym state) ∙ pos_false)
                    (ap (λ t. t.negative) (sym state) ∙ neg_false) in
                (q, reason, hold.reasons root q r inside is_root r_inside ∙ has);
            conflicting = λ pos_true neg_true.
                hold.reasons root conflict r inside is_root r_inside
                ∙ explained.conflicting (ap (λ t. t.positive) (sym state) ∙ pos_true)
                    (ap (λ t. t.negative) (sym state) ∙ neg_true);
          },
    )
