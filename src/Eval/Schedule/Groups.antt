-- ===== src/Eval/Schedule/Groups.antt =====
-- The groups of internal/eval/executor.go, between the windows of their operands.
use verifoxx.Common.{
  ℕ, suc, ◌-◌, ◌≤◌, ◌<◌, ◌≡◌, ◌≢◌, refl, ap, ap₂, ◌∙◌, Bool, ◌||◌, some, List, [], ◌∷◌, arith,
  length, get_elem?, get_or, drop, get_elem?-eq-get_or, length-take_eq, length-drop, inl, inr,
  Bool-cases, ◌==◌,
}
use verifoxx.Program.{Program}
use verifoxx.Result.Resolution.{slice}
use verifoxx.Compile.Lifetimes.{operands_of}
use verifoxx.Eval.Batch.{Batch}
use verifoxx.Eval.Reduce.{operand_slot}
use verifoxx.Eval.Reduce.Truth.{
  window, HaveShape, operand_states, connect_all, reduce_truth_group-connect_all,
}
use verifoxx.Eval.Reduce.Reasons.{
  reason_window, HaveReasonShape, any_reason, reduce_reason_group-any_reason,
}
use verifoxx.Eval.Clause.{Scratch}
use verifoxx.Eval.Schedule.{execute_group}
use verifoxx.Eval.Schedule.Reference.{Value, truths_of, any_of, group_value}
use verifoxx.Eval.Schedule.Stored.{Stores}
use verifoxx.Eval.Schedule.Kept.{Kept, IsSchedule, Fresh}

operand_slot-slot : (slots : List ℕ) (o : ℕ) → 0 < o → operand_slot slots o ≡ get_or slots (o - 1) 0
operand_slot-slot slots o positive = ground arith

module _ (p : Program) (b : Batch) (states : List ℕ) (row : ℕ) (s : Scratch) (values : List Value)
    (sched : IsSchedule p b.rows) (inside : row < length p.opcodes)
    (kept : Kept p b.rows row s values) where
  -- An operand whose windows still hold its value.
  pub record IsOperand (operand : ℕ) : Type 0 where
    pub positive : 0 < operand
    pub before : operand ≤ row
    pub truth : Fresh p.truth_slots (operand - 1) row
    pub reasons : Fresh p.reason_slots (operand - 1) row

  abbrev pub AreOperands : List ℕ → Type 0
  AreOperands operands = (i : ℕ) → i < length operands → IsOperand (get_or operands i 0)

  truth_window :
      (o : ℕ)
      → IsOperand o
      → (0 < operand_slot p.truth_slots o) × (operand_slot p.truth_slots o ≤ length s.truths)
  truth_window o is =
      let (lo, hi) = sched.truth_range (o - 1) (omega (arith, is.positive, is.before)) in
      rw (operand_slot-slot p.truth_slots o is.positive)
        (lo, omega (arith, hi, kept.is.truth_count))

  reasons_window :
      (o : ℕ)
      → IsOperand o
      → (0 < operand_slot p.reason_slots o) × (operand_slot p.reason_slots o ≤ length s.reasons)
  reasons_window o is =
      let (lo, hi) = sched.reason_range (o - 1) (omega (arith, is.positive, is.before)) in
      rw (operand_slot-slot p.reason_slots o is.positive)
        (lo, omega (arith, hi, kept.is.reason_count))

  operands-HaveShape :
      (operands : List ℕ) → AreOperands operands → HaveShape b.rows p.truth_slots s.truths operands
  operands-HaveShape [] are = tt
  operands-HaveShape (o ∷ os) are =
      let (lo, hi) = truth_window o (are 0 (omega arith)) in
      (
        (lo, hi),
        kept.is.truths (operand_slot p.truth_slots o) lo (omega (arith, hi, kept.is.truth_count)),
        operands-HaveShape os (λ i below. are (suc i) (omega arith)),
      )

  operands-states :
      (operands : List ℕ) (r : ℕ)
      → r < b.rows
      → AreOperands operands
      → operand_states p.truth_slots s.truths operands r ≡ truths_of values operands r
  operands-states [] r r_inside are = refl
  operands-states (o ∷ os) r r_inside are =
      let is = are 0 (omega arith) in
      rw (operand_slot-slot p.truth_slots o is.positive) (
        ap₂ (λ x xs. x ∷ xs)
          (kept.truth (o - 1) r (omega (arith, is.positive, is.before)) is.truth r_inside)
          (operands-states os r r_inside (λ i below. are (suc i) (omega arith))))

  operands-HaveReasonShape :
      (operands : List ℕ)
      → AreOperands operands
      → HaveReasonShape b.rows p.reason_slots s.reasons operands
  operands-HaveReasonShape [] are = tt
  operands-HaveReasonShape (o ∷ os) are =
      let (lo, hi) = reasons_window o (are 0 (omega arith)) in
      (
        (lo, hi),
        kept.is.reasons (operand_slot p.reason_slots o) lo
            (omega (arith, hi, kept.is.reason_count)),
        operands-HaveReasonShape os (λ i below. are (suc i) (omega arith)),
      )

  operands-reasons :
      (operands : List ℕ) (q r : ℕ)
      → r < b.rows
      → AreOperands operands
      → any_reason b.rows p.reason_slots s.reasons operands q r ≡ any_of values operands q r
  operands-reasons [] q r r_inside are = refl
  operands-reasons (o ∷ os) q r r_inside are =
      let is = are 0 (omega arith) in
      rw (operand_slot-slot p.reason_slots o is.positive) (
        ap₂ (λ x y. x || y)
          (kept.reasons (o - 1) q r (omega (arith, is.positive, is.before)) is.reasons r_inside)
          (operands-reasons os q r r_inside (λ i below. are (suc i) (omega arith))))

  abbrev truth_slot : ℕ
  truth_slot = get_or p.truth_slots row 0

  abbrev reason_slot : ℕ
  reason_slot = get_or p.reason_slots row 0

  -- The columns of a row of the schedule.
  pub span_of :
      (get_elem? p.operand_starts row ≡ some (get_or p.operand_starts row 0))
      × (get_elem? p.operand_counts row ≡ some (get_or p.operand_counts row 0))
      × (slice p.operands (get_or p.operand_starts row 0) (get_or p.operand_counts row 0)
          ≡ some (operands_of p row))
      × (length (operands_of p row) ≡ get_or p.operand_counts row 0)
  span_of =
      let fits = sched.spans row inside in
      let start = get_or p.operand_starts row 0 in
      (
        get_elem?-eq-get_or p.operand_starts row 0 (omega (arith, sched.starts_sized)),
        get_elem?-eq-get_or p.operand_counts row 0 (omega (arith, sched.counts_sized)),
        ground arith,
        length-take_eq (get_or p.operand_counts row 0) (drop start p.operands)
            (omega (arith, fits, length-drop start p.operands (omega (arith, fits)))),
      )

  -- A group stores the value that it has from those of its operands.
  pub execute_group-Stores :
      (all : Bool) (o : ℕ) (os : List ℕ)
      → operands_of p row ≡ o ∷ os
      → AreOperands (o ∷ os)
      → (next : Scratch) × (execute_group p b states all row truth_slot reason_slot s ≡ some next)
        × Stores b.rows p.truth_slot_count p.reason_slot_count truth_slot reason_slot s next
            (group_value all values (o ∷ os))
  unfolding execute_group
  execute_group-Stores all o os e are =
      let (start, count, sliced, _) = span_of in
      let (t_lo, t_hi) = sched.truth_range row inside in
      let (r_lo, r_hi) = sched.reason_range row inside in
      let (truths, t_ran, t_shape, t_value, t_others, t_size) =
        reduce_truth_group-connect_all all b.rows p.truth_slots truth_slot s.truths o os t_lo
          (omega (arith, t_hi, kept.is.truth_count)) (kept.is.truths truth_slot t_lo t_hi)
          (operands-HaveShape (o ∷ os) are) in
      let (reasons, r_ran, r_shape, r_value, r_others, r_size) =
        reduce_reason_group-any_reason b.rows p.reason_slots reason_slot s.reasons o os r_lo
          (omega (arith, r_hi, kept.is.reason_count)) (kept.is.reasons reason_slot r_lo r_hi)
          (operands-HaveReasonShape (o ∷ os) are) in
      let same_truths : (slot : ℕ)
          → 0 < slot
          → slot ≤ p.truth_slot_count
          → slot ≢ truth_slot
          → window truths slot ≡ window s.truths slot =
        λ slot lo hi. t_others slot lo (omega (arith, hi, kept.is.truth_count)) in
      let same_reasons : (slot : ℕ)
          → 0 < slot
          → slot ≤ p.reason_slot_count
          → slot ≢ reason_slot
          → reason_window reasons slot ≡ reason_window s.reasons slot =
        λ slot lo hi. r_others slot lo (omega (arith, hi, kept.is.reason_count)) in
      (
        record { truths = truths; reasons = reasons },
        rw (start, count, sliced, e, t_ran, r_ran),
        record {
          is = record {
            truth_count = t_size ∙ kept.is.truth_count;
            reason_count = r_size ∙ kept.is.reason_count;
            truths = λ slot lo hi. elim (Bool-cases (slot == truth_slot)) [
              | inl here ↦ let same : slot ≡ truth_slot = ground arith in rw same t_shape
              | inr there ↦ rw (same_truths slot lo hi (ground arith)) (kept.is.truths slot lo hi)
            ];
            reasons = λ slot lo hi. elim (Bool-cases (slot == reason_slot)) [
              | inl here ↦ let same : slot ≡ reason_slot = ground arith in rw same r_shape
              | inr there ↦ rw (same_reasons slot lo hi (ground arith)) (kept.is.reasons slot lo hi)
            ];
          };
          truth = λ r r_inside.
              t_value r r_inside ∙ ap (connect_all all) (operands-states (o ∷ os) r r_inside are);
          reasons = λ q r r_inside. r_value q r ∙ operands-reasons (o ∷ os) q r r_inside are;
          other_truths = same_truths;
          other_reasons = same_reasons;
        },
      )
