-- ===== src/Eval/Schedule/Reference.antt =====
-- What the schedule of internal/eval/executor.go computes, without slots: each instruction has a
-- value of its own, and a group or a negation reads those of its operands.
use verifoxx.Common.{
  ℕ, ◌-◌, Bool, true, false, ◌||◌, Option, none, some, List, [], ◌∷◌, ◌++◌, length, get_elem?,
  get_or, ◌>>=◌, for_rows,
}
use verifoxx.Truth.Planes.{word_count}
use verifoxx.Truth.Planes.Rows.{State, exactly, not_state, row_state}
use verifoxx.Result.Resolution.{slice}
use verifoxx.Program.{Program, Opcode, ValueKind}
use verifoxx.Eval.Batch.{Batch}
use verifoxx.Eval.Leaf.{Leaf, cleared}
use verifoxx.Eval.Leaf.Rows.{reason_at}
use verifoxx.Eval.Predicate.{eval_predicate, program_predicate_value}
use verifoxx.Eval.Evidence.{eval_validated}
use verifoxx.Eval.Reduce.Truth.{connect_all}
use verifoxx.Eval.Schedule.{predicate_of}

-- The truth value of each request, and whether it has a reason.
pub record Value : Type 0 where
  pub truth : ℕ → State
  pub reasons : ℕ → ℕ → Bool

abbrev pub exact : Bool → Value
exact value = record { truth = λ r. exactly value; reasons = λ q r. false }

abbrev pub leaf_value : ℕ → Leaf → Value
leaf_value rows leaf = record {
  truth = row_state leaf.truth;
  reasons = reason_at rows leaf.reasons;
}

-- The value of a one-based operand.
abbrev pub value_of : List Value → ℕ → Value
value_of values operand = get_or values (operand - 1) (exact false)

abbrev pub truths_of : List Value → List ℕ → ℕ → List State
truths_of values [] r = []
truths_of values (o ∷ os) r = (value_of values o).truth r ∷ truths_of values os r

abbrev pub any_of : List Value → List ℕ → ℕ → ℕ → Bool
any_of values [] q r = false
any_of values (o ∷ os) q r = (value_of values o).reasons q r || any_of values os q r

abbrev pub group_value : Bool → List Value → List ℕ → Value
group_value all values operands = record {
  truth = λ r. connect_all all (truths_of values operands r);
  reasons = any_of values operands;
}

abbrev pub negated : Value → Value
negated v = record { truth = λ r. not_state (v.truth r); reasons = v.reasons }

module _ (p : Program) (b : Batch) (states : List ℕ) where
  unfoldable pub group_at : Bool → ℕ → List Value → Option Value
  group_at all row values = do
    start ← get_elem? p.operand_starts row
    count ← get_elem? p.operand_counts row
    operands ← slice p.operands start count
    some (group_value all values operands)

  -- The value of an instruction from those before it.
  unfoldable pub value_at : ℕ → List Value → Option Value
  unfolding group_at
  value_at row values = do
    opcode ← get_elem? p.opcodes row
    elim opcode [
      | Opcode.boolean ↦ do
        id ← get_elem? p.values row
        value ← program_predicate_value p id ValueKind.boolean
        some (exact value.boolean)
      | Opcode.evidence ↦ do
        predicate ← predicate_of p row
        leaf ← eval_validated (cleared (word_count b.rows)) b p states predicate
        some (leaf_value b.rows leaf)
      | Opcode.all ↦ group_at true row values
      | Opcode.any ↦ group_at false row values
      | Opcode.negate ↦ do
        start ← get_elem? p.operand_starts row
        operand ← get_elem? p.operands start
        some (negated (value_of values operand))
      | Opcode.invalid ↦ none
      | _ ↦ do
        leaf ← eval_predicate (cleared (word_count b.rows)) b p row
        some (leaf_value b.rows leaf)
    ]

  unfoldable pub next_value : ℕ → List Value → Option (List Value)
  next_value row values = value_at row values >>= λ v. some (values ++ v ∷ [])

  -- The values of all instructions.
  unfoldable pub values_of : Option (List Value)
  unfolding next_value
  values_of = for_rows next_value (length p.opcodes) 0 []
