-- ===== src/Eval/Schedule/Kept.antt =====
-- The schedule of internal/eval/executor.go between two instructions: which windows still hold the
-- value of their instruction.
use verifoxx.Common.{
  ℕ, suc, ◌+◌, ◌-◌, ◌≤◌, ◌<◌, ◌≡◌, ◌≢◌, ◌∙◌, true, false, not, ◌&&◌, inl, inr, Bool-cases, List, [],
  ◌∷◌, ◌++◌, arith, leb, ◌==◌, length, get_or, get_or-append_left, get_or-append_right,
  length-append, all_rows, all_rows-row, all_of-get_or,
}
use verifoxx.Truth.Planes.Rows.{row_state}
use verifoxx.Program.{Program, Opcode}
use verifoxx.Compile.Lifetimes.{operands_of}
use verifoxx.Compile.Lifetimes.Uses.{operand_at}
use verifoxx.Eval.Leaf.Rows.{reason_at}
use verifoxx.Eval.Reduce.Truth.{window}
use verifoxx.Eval.Reduce.Reasons.{reason_window}
use verifoxx.Eval.Clause.{Scratch}
use verifoxx.Eval.Schedule.{valid_execution_schedule, valid_execution_row, operand_count_fits}
use verifoxx.Eval.Schedule.Reference.{Value, exact}
use verifoxx.Eval.Schedule.Stored.{IsScratch, Stores}

-- No instruction between a row and `row` writes the slot of the first.
abbrev pub Fresh : List ℕ → ℕ → ℕ → Type 0
Fresh slots j row =
    (between : ℕ) → j < between → between < row → get_or slots j 0 ≢ get_or slots between 0

abbrev pub value_of_row : List Value → ℕ → Value
value_of_row values row = get_or values row (exact false)

module _ (p : Program) (rows : ℕ) where
  -- The schedule before `row`.
  pub record Kept (row : ℕ) (s : Scratch) (values : List Value) : Type 0 where
    pub is : IsScratch rows p.truth_slot_count p.reason_slot_count s
    pub sized : length values ≡ row
    pub truth :
        (j r : ℕ)
        → j < row
        → Fresh p.truth_slots j row
        → r < rows
        → row_state (window s.truths (get_or p.truth_slots j 0)) r ≡ (value_of_row values j).truth r
    pub reasons :
        (j q r : ℕ)
        → j < row
        → Fresh p.reason_slots j row
        → r < rows
        → reason_at rows (reason_window s.reasons (get_or p.reason_slots j 0)) q r
          ≡ (value_of_row values j).reasons q r

  pub record IsSchedule : Type 0 where
    pub opcodes_sized : length p.truth_slots ≡ length p.opcodes
    pub reasons_sized : length p.reason_slots ≡ length p.opcodes
    pub values_sized : length p.values ≡ length p.opcodes
    pub starts_sized : length p.operand_starts ≡ length p.opcodes
    pub counts_sized : length p.operand_counts ≡ length p.opcodes
    pub truth_range :
        (row : ℕ)
        → row < length p.opcodes
        → (0 < get_or p.truth_slots row 0) × (get_or p.truth_slots row 0 ≤ p.truth_slot_count)
    pub reason_range :
        (row : ℕ)
        → row < length p.opcodes
        → (0 < get_or p.reason_slots row 0) × (get_or p.reason_slots row 0 ≤ p.reason_slot_count)
    pub spans :
        (row : ℕ)
        → row < length p.opcodes
        → get_or p.operand_starts row 0 + get_or p.operand_counts row 0 ≤ length p.operands
    pub counts :
        (row : ℕ)
        → row < length p.opcodes
        → operand_count_fits (get_or p.opcodes row Opcode.invalid) (get_or p.operand_counts row 0)
          ≡ true
    pub before :
        (row i : ℕ)
        → row < length p.opcodes
        → i < length (operands_of p row)
        → (0 < operand_at p row i) × (operand_at p row i ≤ row)

  valid_execution_row-operand :
      (row i : ℕ)
      → valid_execution_row p row ≡ true
      → i < length (operands_of p row)
      → (0 < operand_at p row i) × (operand_at p row i ≤ row)
  valid_execution_row-operand row i valid inside =
      let one =
        all_of-get_or (λ operand. not (operand == 0) && leb operand row) (operands_of p row) i 0
          (ground arith) inside in
      ground arith

  pub valid_execution_schedule-IsSchedule : valid_execution_schedule p ≡ true → IsSchedule
  unfolding valid_execution_schedule
  valid_execution_schedule-IsSchedule valid =
      let rows_valid : all_rows (length p.opcodes) (valid_execution_row p) ≡ true = ground arith in
      let row_valid : (row : ℕ) → row < length p.opcodes → valid_execution_row p row ≡ true =
        λ row inside.
          all_rows-row (length p.opcodes) (valid_execution_row p) row rows_valid inside in
      record {
        opcodes_sized = ground arith;
        reasons_sized = ground arith;
        values_sized = ground arith;
        starts_sized = ground arith;
        counts_sized = ground arith;
        truth_range = λ row inside. let v = row_valid row inside in ground arith;
        reason_range = λ row inside. let v = row_valid row inside in ground arith;
        spans = λ row inside. let v = row_valid row inside in ground arith;
        counts = λ row inside. let v = row_valid row inside in ground arith;
        before = λ row i inside. valid_execution_row-operand row i (row_valid row inside);
      }

  value_of_row-old :
      (values : List Value) (v : Value) (j : ℕ)
      → j < length values
      → value_of_row (values ++ v ∷ []) j ≡ value_of_row values j
  value_of_row-old values v j inside = get_or-append_left values (v ∷ []) j (exact false) inside

  value_of_row-new :
      (values : List Value) (v : Value) (row : ℕ)
      → length values ≡ row
      → value_of_row (values ++ v ∷ []) row ≡ v
  value_of_row-new values v row e =
      let zero_left : row - length values ≡ 0 = omega arith in
      get_or-append_right values (v ∷ []) row (exact false) (omega arith) ∙ rw zero_left

  Fresh-earlier : (slots : List ℕ) (j row : ℕ) → Fresh slots j (suc row) → Fresh slots j row
  Fresh-earlier slots j row fresh between after before = fresh between after (omega arith)

  -- An instruction stores its value.
  pub Stores-Kept :
      (row : ℕ) (s next : Scratch) (values : List Value) (v : Value)
      → IsSchedule
      → row < length p.opcodes
      → Kept row s values
      → Stores rows p.truth_slot_count p.reason_slot_count
          (get_or p.truth_slots row 0)
          (get_or p.reason_slots row 0)
          s
          next
          v
      → Kept (suc row) next (values ++ v ∷ [])
  Stores-Kept row s next values v sched inside kept stored = record {
    is = stored.is;
    sized = omega (arith, length-append values (v ∷ []), kept.sized);
    truth = λ j r below fresh r_inside. elim (Bool-cases (j == row)) [
      | inl here ↦
          let e : j ≡ row = ground arith in
          rw (e, value_of_row-new values v row kept.sized) (stored.truth r r_inside)
      | inr earlier ↦
          let (lo, hi) = sched.truth_range j (omega arith) in
          rw
            (
              stored.other_truths (get_or p.truth_slots j 0) lo hi
                  (fresh row (ground arith) (omega arith)),
              value_of_row-old values v j (ground (arith, kept.sized)),
            )
            (kept.truth j r (ground arith) (Fresh-earlier p.truth_slots j row fresh) r_inside)
    ];
    reasons = λ j q r below fresh r_inside. elim (Bool-cases (j == row)) [
      | inl here ↦
          let e : j ≡ row = ground arith in
          rw (e, value_of_row-new values v row kept.sized) (stored.reasons q r r_inside)
      | inr earlier ↦
          let (lo, hi) = sched.reason_range j (omega arith) in
          rw
            (
              stored.other_reasons (get_or p.reason_slots j 0) lo hi
                  (fresh row (ground arith) (omega arith)),
              value_of_row-old values v j (ground (arith, kept.sized)),
            )
            (kept.reasons j q r (ground arith) (Fresh-earlier p.reason_slots j row fresh) r_inside)
    ];
  }
