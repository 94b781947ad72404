-- ===== src/Eval/Schedule/Correct.antt =====
-- The schedule of internal/eval/executor.go beside the values of the instructions, and with the slots
-- that internal/compile/liveness.go assigns.
use verifoxx.Common.{
  ℕ, zero, suc, ◌+◌, ◌-◌, ◌≤◌, ◌<◌, ◌≡◌, ◌≢◌, refl, sym, ◌∙◌, ◌⊎◌, true, some, List, [], ◌∷◌, ◌++◌,
  arith, length, get_or, >>=-eq-some, some_inj, subst, for_rows,
}
use verifoxx.Truth.Planes.Rows.{row_state}
use verifoxx.Program.{Program}
use verifoxx.Compile.Allocate.{SlotMode}
use verifoxx.Compile.Lifetimes.{
  validate_slot_program, operands_of, compute_reason_live, assign_slots,
}
use verifoxx.Compile.Lifetimes.Uses.{operand_at, validate_slot_program-IsOrdered}
use verifoxx.Compile.Lifetimes.Reasons.{Flagged}
use verifoxx.Compile.Lifetimes.Correct.{KeepsOperands, assign_slots-KeepsOperands}
use verifoxx.Eval.Batch.{Batch}
use verifoxx.Eval.Leaf.Rows.{reason_at}
use verifoxx.Eval.Reduce.Truth.{window}
use verifoxx.Eval.Reduce.Reasons.{reason_window}
use verifoxx.Eval.Clause.{Scratch}
use verifoxx.Eval.Schedule.{valid_execution_schedule, execute_instruction, execute_schedule}
use verifoxx.Eval.Schedule.Reference.{Value, value_at, next_value, values_of}
use verifoxx.Eval.Schedule.Stored.{IsScratch}
use verifoxx.Eval.Schedule.Kept.{
  Fresh, Kept, IsSchedule, Stores-Kept, value_of_row, valid_execution_schedule-IsSchedule,
}
use verifoxx.Eval.Schedule.Groups.{AreOperands}
use verifoxx.Eval.Schedule.Steps.{execute_instruction-Stores}

-- Slots that keep the result of an operand until its consumer, and that of a root until the end.
pub record KeepsSlots (p : Program) (slots : List ℕ) : Type 0 where
  pub operands :
      (row i : ℕ)
      → row < length p.opcodes
      → i < length (operands_of p row)
      → Fresh slots (operand_at p row i - 1) row
  pub roots :
      (root : ℕ)
      → root < length p.opcodes
      → get_or p.root_flags root 0 ≢ 0
      → Fresh slots root (length p.opcodes)

-- The roots hold their values, for each request and reason.
pub record RootsHold (p : Program) (rows : ℕ) (s : Scratch) (values : List Value) : Type 0 where
  pub truth :
      (root r : ℕ)
      → root < length p.opcodes
      → get_or p.root_flags root 0 ≢ 0
      → r < rows
      → row_state (window s.truths (get_or p.truth_slots root 0)) r
        ≡ (value_of_row values root).truth r
  pub reasons :
      (root q r : ℕ)
      → root < length p.opcodes
      → get_or p.root_flags root 0 ≢ 0
      → r < rows
      → reason_at rows (reason_window s.reasons (get_or p.reason_slots root 0)) q r
        ≡ (value_of_row values root).reasons q r

module _ (p : Program) (b : Batch) (states : List ℕ) (sched : IsSchedule p b.rows)
    (truths : KeepsSlots p p.truth_slots) (reasons : KeepsSlots p p.reason_slots) where
  operands-AreOperands :
      (row : ℕ) (s : Scratch) (values : List Value) (inside : row < length p.opcodes)
      (kept : Kept p b.rows row s values)
      → AreOperands p b states row s values sched inside kept (operands_of p row)
  operands-AreOperands row s values inside kept i below =
      let (lo, hi) = sched.before row i inside below in
      record {
        positive = lo;
        before = hi;
        truth = truths.operands row i inside below;
        reasons = reasons.operands row i inside below;
      }

  -- The rows that are left.
  run-Kept :
      (rounds row : ℕ) (s : Scratch) (values all : List Value)
      → row + rounds ≡ length p.opcodes
      → Kept p b.rows row s values
      → for_rows (next_value p b states) rounds row values ≡ some all
      → (after : Scratch) × (for_rows (execute_instruction p b states) rounds row s ≡ some after)
        × Kept p b.rows (length p.opcodes) after all
  unfolding next_value
  run-Kept zero row s values all ends kept h =
      let e : row ≡ length p.opcodes = omega arith in
      (
        s,
        refl,
        subst (λ vs. Kept p b.rows (length p.opcodes) s vs) (some_inj h)
            (subst (λ k. Kept p b.rows k s values) e kept),
      )
  run-Kept (suc rounds) row s values all ends kept h =
      let inside : row < length p.opcodes = omega arith in
      let (values', valued, rest) = >>=-eq-some (next_value p b states row values) _ h in
      let (v, value, e) = >>=-eq-some (value_at p b states row values) _ valued in
      let (next, ran, stored) =
        execute_instruction-Stores p b states row s values sched inside kept
          (operands-AreOperands row s values inside kept) v value in
      let kept' = Stores-Kept p b.rows row s next values v sched inside kept stored in
      let (after, done, all_kept) =
        run-Kept rounds (suc row) next (values ++ v ∷ []) all (omega arith) kept' (
          subst (λ vs. for_rows (next_value p b states) rounds (suc row) vs ≡ some all)
            (sym (some_inj e)) rest) in
      (after, rw ran done, all_kept)

-- On a program that the check accepts, whose slots keep the result of each operand until its consumer
-- and of each root until the end, with windows in the shape of the row count: if every instruction
-- has a value, the schedule returns, and at the end the slots of each root hold the truth value and
-- the reasons that the instruction has without slots, for each request.
pub execute_schedule-RootsHold :
    (p : Program) (b : Batch) (states : List ℕ) (s : Scratch) (values : List Value)
    → valid_execution_schedule p ≡ true
    → KeepsSlots p p.truth_slots
    → KeepsSlots p p.reason_slots
    → IsScratch b.rows p.truth_slot_count p.reason_slot_count s
    → values_of p b states ≡ some values
    → (after : Scratch) × (execute_schedule p b states s ≡ some after)
      × IsScratch b.rows p.truth_slot_count p.reason_slot_count after
      × RootsHold p b.rows after values
unfolding execute_schedule values_of
execute_schedule-RootsHold p b states s values valid truths reasons is valued =
    let sched = valid_execution_schedule-IsSchedule p b.rows valid in
    let start : Kept p b.rows 0 s [] = record {
      is = is;
      sized = refl;
      truth = λ j r below. absurd (omega arith);
      reasons = λ j q r below. absurd (omega arith);
    } in
    let (after, ran, kept) =
      run-Kept p b states sched truths reasons (length p.opcodes) 0 s [] values (omega arith) start
        valued in
    (
      after,
      ran,
      kept.is,
      record {
        truth =
            λ root r inside is_root. kept.truth root r inside (truths.roots root inside is_root);
        reasons = λ root q r inside is_root.
            kept.reasons root q r inside (reasons.roots root inside is_root);
      },
    )

KeepsOperands-KeepsSlots :
    (p : Program) (Live : ℕ → Type 0) (slots : List ℕ) (count : ℕ)
    → ((row i : ℕ)
        → row < length p.opcodes
        → i < length (operands_of p row)
        → (0 < operand_at p row i) × (operand_at p row i ≤ row))
    → ((row : ℕ) → row < length p.opcodes → Live row)
    → KeepsOperands p Live slots count
    → KeepsSlots p slots
KeepsOperands-KeepsSlots p Live slots count ordered live keeps = record {
  operands = λ row i inside i_inside between after before.
      let (lo, hi) = ordered row i inside i_inside in
      keeps.operands row i between inside i_inside after before
        (live (operand_at p row i - 1) (omega arith)) (live between (omega arith));
  roots = λ root inside is_root between after before.
      keeps.roots root between after before is_root (live root inside) (live between before);
}

-- The slots that are assigned to a validated program, in which each row is a root or passes reasons
-- on to one, keep the results that the schedule reads.
pub assign_slots-KeepsSlots :
    (p q : Program) (mode : SlotMode)
    → validate_slot_program p ≡ true
    → (mode ≡ SlotMode.slot_reuse) ⊎ (mode ≡ SlotMode.slot_retain_all)
    → ((row : ℕ) → row < length p.opcodes → Flagged (compute_reason_live p) row)
    → assign_slots p mode ≡ some q
    → KeepsSlots q q.truth_slots × KeepsSlots q q.reason_slots
assign_slots-KeepsSlots p q mode valid either live assigned =
    let (q', returned, same, truth, reasons, flagged) =
      assign_slots-KeepsOperands p mode valid either in
    let ordered = validate_slot_program-IsOrdered p valid in
    let e : q' ≡ q = some_inj (sym returned ∙ assigned) in
    subst (λ r. KeepsSlots r r.truth_slots × KeepsSlots r r.reason_slots) e
      (subst (λ r. KeepsSlots r r.truth_slots × KeepsSlots r r.reason_slots) (sym same)
        (
          as_assigned q' (
              KeepsOperands-KeepsSlots p (λ row. Unit {0}) q'.truth_slots q'.truth_slot_count
                ordered.before (λ row inside. tt) truth),
          as_assigned q' (
              KeepsOperands-KeepsSlots p (Flagged (compute_reason_live p)) q'.reason_slots
                q'.reason_slot_count ordered.before live reasons),
        ))
  where
    as_assigned :
        (q' : Program) {slots : List ℕ}
        → KeepsSlots p slots
        → KeepsSlots
            (record p {
              truth_slots = q'.truth_slots;
              reason_slots = q'.reason_slots;
              truth_slot_count = q'.truth_slot_count;
              reason_slot_count = q'.reason_slot_count;
            })
            slots
    as_assigned q' keeps = record { operands = keeps.operands; roots = keeps.roots }

-- After slot assignment, in either mode, to a validated program in which each row is a root or passes
-- reasons on to one: when the check accepts the program with its slots, the windows have the shape
-- of the row count and every instruction has a value, the schedule returns, and the slots of each
-- root hold the truth value and the reasons that the instruction has without slots.
pub assign_slots-execute_schedule :
    (p q : Program) (mode : SlotMode) (b : Batch) (states : List ℕ) (s : Scratch)
    (values : List Value)
    → validate_slot_program p ≡ true
    → (mode ≡ SlotMode.slot_reuse) ⊎ (mode ≡ SlotMode.slot_retain_all)
    → ((row : ℕ) → row < length p.opcodes → Flagged (compute_reason_live p) row)
    → assign_slots p mode ≡ some q
    → valid_execution_schedule q ≡ true
    → IsScratch b.rows q.truth_slot_count q.reason_slot_count s
    → values_of q b states ≡ some values
    → (after : Scratch) × (execute_schedule q b states s ≡ some after)
      × RootsHold q b.rows after values
assign_slots-execute_schedule p q mode b states s values valid either live assigned accepted is
      valued =
    let (truths, reasons) = assign_slots-KeepsSlots p q mode valid either live assigned in
    let (after, ran, _, hold) =
      execute_schedule-RootsHold q b states s values accepted truths reasons is valued in
    (after, ran, hold)
