-- ===== src/Eval/Schedule/Explained/Checked.antt =====
-- The values of the instructions of internal/eval/executor.go on a batch that was checked.
use verifoxx.Common.{
  ℕ, zero, suc, ◌+◌, ◌-◌, ◌<◌, ◌≡◌, sym, ap, ◌∙◌, Bool, true, false, Bool-cases, some, List, [],
  ◌∷◌, ◌++◌, arith, length, get_elem?, get_or, ◌>>=◌, >>=-eq-some, some_inj, subst, ltb, inl, inr,
  for_rows, get_elem?-eq-get_or, get_or-append_left, get_or-append_right,
}
use verifoxx.Truth.Planes.{word_count}
use verifoxx.Truth.Planes.Rows.{row_bit}
use verifoxx.Truth.Reason.{missing}
use verifoxx.Program.{Program, Opcode, ValueKind}
use verifoxx.Result.Resolution.{slice}
use verifoxx.Eval.Batch.{Batch}
use verifoxx.Eval.Leaf.{Leaf, cleared}
use verifoxx.Eval.Leaf.Rows.{cleared-HasLeafShape}
use verifoxx.Eval.Evidence.{
  EvidencePredicate, bind_states, valid_evidence_batch, require_predicate, eval_validated,
}
use verifoxx.Eval.Evidence.Validated.{eval_validated-Answers}
use verifoxx.Eval.Predicate.{eval_predicate, program_predicate_value}
use verifoxx.Eval.Predicate.Guards.{AreWords}
use verifoxx.Eval.Predicate.Meaning.{found, eval_predicate-AnswersFact}
use verifoxx.Eval.Schedule.{predicate_of}
use verifoxx.Eval.Schedule.Reference.{
  Value, exact, value_of, leaf_value, group_at, value_at, next_value, values_of,
}
use verifoxx.Eval.Schedule.Kept.{value_of_row}
use verifoxx.Eval.Schedule.Explained.{
  Explained, leaf_state-unknown, leaf_state-conflicting, exact-Explained, negated-Explained,
  group-Explained,
}

module _ (p : Program) (b : Batch) (states : List ℕ) where
  -- The batch and the evidence states are what the executor has checked.
  pub record IsChecked : Type 0 where
    pub bound : bind_states p p.evidence_state_names ≡ some states
    pub valid : valid_evidence_batch b p ≡ true
    pub words : AreWords b.boolean_values

  predicate-Explained :
      (row r : ℕ) (leaf : Leaf)
      → AreWords b.boolean_values
      → r < b.rows
      → eval_predicate (cleared (word_count b.rows)) b p row ≡ some leaf
      → Explained (leaf_value b.rows leaf) r
  predicate-Explained row r leaf words inside h =
      let (kind, vs, c, f, shape, answers) =
        eval_predicate-AnswersFact (cleared (word_count b.rows)) leaf b p row words h in
      let answer = answers r inside in
      let opcode = get_or p.opcodes row Opcode.invalid in
      let present = row_bit c.presence r in
      let value = found opcode kind vs c r in
      record {
        unknown = λ pos_false neg_false.
            let absent = leaf_state-unknown opcode present value (
              sym (ap (λ t. t.positive) answer.state) ∙ pos_false,
              sym (ap (λ t. t.negative) answer.state) ∙ neg_false,
            ) in
            (
              missing,
              (omega arith, omega arith),
              answer.reasons missing (omega arith, omega arith) ∙ rw absent,
            );
        conflicting = λ pos_true neg_true. absurd (
            leaf_state-conflicting opcode present value (
              sym (ap (λ t. t.positive) answer.state) ∙ pos_true,
              sym (ap (λ t. t.negative) answer.state) ∙ neg_true,
            ));
      }

  evidence-Explained :
      (predicate : EvidencePredicate) (r : ℕ) (leaf : Leaf)
      → IsChecked
      → r < b.rows
      → eval_validated (cleared (word_count b.rows)) b p states predicate ≡ some leaf
      → Explained (leaf_value b.rows leaf) r
  unfolding eval_validated
  evidence-Explained predicate r leaf is inside h =
      elim (Bool-cases (require_predicate p states predicate)) [
        | inr refused ↦ absurd (ground (arith, rw refused at h))
        | inl fits ↦
            let (out, ran, answers) =
              eval_validated-Answers p b states predicate (cleared (word_count b.rows)) is.bound
                is.valid fits (cleared-HasLeafShape b.rows) in
            let e : leaf ≡ out = some_inj (sym h ∙ ran) in
            let answer = answers.row r inside in
            rw e (record { unknown = answer.unknown; conflicting = answer.conflicting })
      ]

  -- The values so far, for a request.
  AllExplained : ℕ → List Value → Type 0
  AllExplained r values = (row : ℕ) → Explained (value_of_row values row) r

  module _ (is : IsChecked) (r : ℕ) (inside : r < b.rows) where
    group_at-Explained :
        (all : Bool) (row : ℕ) (values : List Value) (v : Value)
        → AllExplained r values
        → group_at p b states all row values ≡ some v
        → Explained v r
    unfolding group_at AllExplained
    group_at-Explained all row values v before h =
        let (start, _, h₁) = >>=-eq-some (get_elem? p.operand_starts row) _ h in
        let (count, _, h₂) = >>=-eq-some (get_elem? p.operand_counts row) _ h₁ in
        let (operands, _, e) = >>=-eq-some (slice p.operands start count) _ h₂ in
        subst (λ w. Explained w r) (some_inj e)
          (group-Explained values r (λ o. before (o - 1)) all operands)

    compare-Explained :
        (row : ℕ) (v : Value)
        → (eval_predicate (cleared (word_count b.rows)) b p row >>= λ leaf.
            some (leaf_value b.rows leaf))
          ≡ some v
        → Explained v r
    compare-Explained row v h =
        let (leaf, ran, e) =
          >>=-eq-some (eval_predicate (cleared (word_count b.rows)) b p row) _ h in
        subst (λ w. Explained w r) (some_inj e) (predicate-Explained row r leaf is.words inside ran)

    case-Explained :
        (opcode : Opcode) (row : ℕ) (values : List Value) (v : Value)
        → AllExplained r values
        → get_elem? p.opcodes row ≡ some opcode
        → value_at p b states row values ≡ some v
        → Explained v r
    unfolding value_at AllExplained
    case-Explained Opcode.equal row values v before e h = compare-Explained row v (rw e at h)
    case-Explained Opcode.not_equal row values v before e h = compare-Explained row v (rw e at h)
    case-Explained Opcode.within row values v before e h = compare-Explained row v (rw e at h)
    case-Explained Opcode.exists row values v before e h = compare-Explained row v (rw e at h)
    case-Explained Opcode.less row values v before e h = compare-Explained row v (rw e at h)
    case-Explained Opcode.less_equal row values v before e h = compare-Explained row v (rw e at h)
    case-Explained Opcode.greater row values v before e h = compare-Explained row v (rw e at h)
    case-Explained Opcode.greater_equal row values v before e h =
        compare-Explained row v (rw e at h)
    case-Explained Opcode.defined row values v before e h = compare-Explained row v (rw e at h)
    case-Explained Opcode.invalid row values v before e h = absurd (ground (arith, rw e at h))
    case-Explained Opcode.evidence row values v before e h =
        let (predicate, _, h₁) = >>=-eq-some (predicate_of p row) _ (rw e at h) in
        let (leaf, ran, same) =
          >>=-eq-some (eval_validated (cleared (word_count b.rows)) b p states predicate) _ h₁ in
        subst (λ w. Explained w r) (some_inj same)
          (evidence-Explained predicate r leaf is inside ran)
    case-Explained Opcode.boolean row values v before e h =
        let (id, _, h₁) = >>=-eq-some (get_elem? p.values row) _ (rw e at h) in
        let (value, _, same) = >>=-eq-some (program_predicate_value p id ValueKind.boolean) _ h₁ in
        subst (λ w. Explained w r) (some_inj same) (exact-Explained value.boolean r)
    case-Explained Opcode.all row values v before e h =
        group_at-Explained true row values v before (rw e at h)
    case-Explained Opcode.any row values v before e h =
        group_at-Explained false row values v before (rw e at h)
    case-Explained Opcode.negate row values v before e h =
        let (start, _, h₁) = >>=-eq-some (get_elem? p.operand_starts row) _ (rw e at h) in
        let (operand, _, same) = >>=-eq-some (get_elem? p.operands start) _ h₁ in
        subst (λ w. Explained w r) (some_inj same)
          (negated-Explained (value_of values operand) r (before (operand - 1)))

    append-AllExplained :
        (values : List Value) (v : Value)
        → AllExplained r values
        → Explained v r
        → AllExplained r (values ++ v ∷ [])
    unfolding AllExplained
    append-AllExplained values v before new row = elim (Bool-cases (ltb row (length values))) [
      | inl old ↦
          rw (get_or-append_left values (v ∷ []) row (exact false) (ground arith)) (before row)
      | inr later ↦
          rw (get_or-append_right values (v ∷ []) row (exact false) (ground arith))
            (last_or_beyond (row - length values))
    ]
      where
        last_or_beyond : (i : ℕ) → Explained (get_or (v ∷ []) i (exact false)) r
        last_or_beyond zero = new
        last_or_beyond (suc i) = exact-Explained false r

    next_values-AllExplained :
        (rounds row : ℕ) (values all : List Value)
        → row + rounds ≡ length p.opcodes
        → AllExplained r values
        → for_rows (next_value p b states) rounds row values ≡ some all
        → AllExplained r all
    unfolding next_value
    next_values-AllExplained zero row values all ends before h =
        subst (AllExplained r) (some_inj h) before
    next_values-AllExplained (suc rounds) row values all ends before h =
        let (values', valued, rest) = >>=-eq-some (next_value p b states row values) _ h in
        let (v, value, e) = >>=-eq-some (value_at p b states row values) _ valued in
        let new =
          case-Explained (get_or p.opcodes row Opcode.invalid) row values v before
            (get_elem?-eq-get_or p.opcodes row Opcode.invalid (omega arith)) value in
        next_values-AllExplained rounds (suc row) (values ++ v ∷ []) all (omega arith)
          (append-AllExplained values v before new)
          (subst (λ vs. for_rows (next_value p b states) rounds (suc row) vs ≡ some all)
            (sym (some_inj e)) rest)

    -- The values of all instructions.
    pub values_of-Explained :
        (values : List Value) (row : ℕ)
        → values_of p b states ≡ some values
        → Explained (value_of_row values row) r
    unfolding values_of AllExplained
    values_of-Explained values row h =
        next_values-AllExplained (length p.opcodes) 0 [] values (omega arith)
          (λ k. exact-Explained false r) h row
