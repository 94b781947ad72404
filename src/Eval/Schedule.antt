-- ===== src/Eval/Schedule.antt =====
-- internal/eval/executor.go: the schedule, which evaluates the instructions of a program one by one
-- into the windows of their slots, in the scalar mode.
-- `none` is a panic; of the checks, `false` refuses the program. A slot of the scratch memory is one
-- window, as many as the program counts. A `nil` program is left out.
pub mod Reference
pub mod Stored
pub mod Kept
pub mod Leaves
pub mod Groups
pub mod Negation
pub mod Steps
pub mod Correct
pub mod Explained
pub mod Roots
use verifoxx.Common.{
  ℕ, suc, ◌+◌, ◌-◌, Bool, true, false, not, ◌&&◌, ◌||◌, Option, none, some, List, [], ◌∷◌, ◌++◌,
  ltb, leb, ◌==◌, if◌then◌else◌, length, get_elem?, get_or, set, take, drop, replicate, ◌>>=◌,
  all_rows, all_of, for_rows,
}
use verifoxx.Words.{and_not, max_uint32}
use verifoxx.Truth.Planes.{set_all, not_planes}
use verifoxx.Result.Resolution.{slice}
use verifoxx.Program.{Program, Opcode, ValueKind, opcode_valid}
use verifoxx.Compile.Lifetimes.{known_root_flags, operands_of}
use verifoxx.Eval.Batch.{Batch}
use verifoxx.Eval.Leaf.{Leaf, ReasonPlanes}
use verifoxx.Eval.Predicate.{eval_predicate, program_predicate_value}
use verifoxx.Eval.Evidence.{EvidencePredicate, eval_validated}
use verifoxx.Eval.Reduce.{slot_of}
use verifoxx.Eval.Reduce.Truth.{reduce_truth_group}
use verifoxx.Eval.Reduce.Reasons.{reduce_reason_group}
use verifoxx.Eval.Clause.{Scratch}

abbrev pub optional_execution_column : ℕ → ℕ → Bool
optional_execution_column size rows = size == 0 || size == rows

-- How many operands an opcode takes.
abbrev pub operand_count_fits : Opcode → ℕ → Bool
operand_count_fits Opcode.all count = not (ltb count 2)
operand_count_fits Opcode.any count = not (ltb count 2)
operand_count_fits Opcode.negate count = count == 1
operand_count_fits _ count = count == 0

-- The body of the loop of `validExecutionSchedule`.
abbrev pub valid_execution_row : Program → ℕ → Bool
valid_execution_row p row =
    let opcode = get_or p.opcodes row Opcode.invalid in
    let count = get_or p.operand_counts row 0 in
    opcode_valid opcode
    && and_not (get_or p.root_flags row 0) known_root_flags == 0
    && not (get_or p.truth_slots row 0 == 0)
    && leb (get_or p.truth_slots row 0) p.truth_slot_count
    && not (get_or p.reason_slots row 0 == 0)
    && leb (get_or p.reason_slots row 0) p.reason_slot_count
    && not (get_or p.instruction_nodes row 0 == 0)
    && leb (get_or p.source_starts row 0) (get_or p.source_ends row 0)
    && leb (get_or p.operand_starts row 0 + count) (length p.operands)
    && operand_count_fits opcode count
    && all_of (λ operand. not (operand == 0) && leb operand row) (operands_of p row)

-- `validExecutionSchedule`
unfoldable pub valid_execution_schedule : Program → Bool
valid_execution_schedule p =
    let n = length p.opcodes in
    not (n == 0)
    && leb n max_uint32
    && (length p.fields == n && length p.values == n)
    && (length p.list_starts == n && length p.list_counts == n)
    && (length p.operand_starts == n && length p.operand_counts == n)
    && (length p.evidence_kinds == n && length p.evidence_states == n)
    && optional_execution_column (length p.evidence_subjects) n
    && optional_execution_column (length p.evidence_scopes) n
    && optional_execution_column (length p.evidence_timings) n
    && (length p.root_flags == n && length p.truth_slots == n)
    && (length p.reason_slots == n && length p.instruction_nodes == n)
    && (length p.source_starts == n && length p.source_ends == n)
    && not (p.truth_slot_count == 0)
    && not (p.reason_slot_count == 0)
    && all_rows n (valid_execution_row p)

-- `evidenceQualifier`
abbrev pub evidence_qualifier : List ℕ → ℕ → Option ℕ
evidence_qualifier [] row = some 0
evidence_qualifier (qualifier ∷ column) row = get_elem? (qualifier ∷ column) row

-- The evidence predicate of an instruction.
unfoldable pub predicate_of : Program → ℕ → Option EvidencePredicate
predicate_of p row = do
  kind ← get_elem? p.evidence_kinds row
  state ← get_elem? p.evidence_states row
  subject ← evidence_qualifier p.evidence_subjects row
  scope ← evidence_qualifier p.evidence_scopes row
  timing ← evidence_qualifier p.evidence_timings row
  some (record { kind = kind; state = state; subject = subject; scope = scope; timing = timing })

-- `copy(dst, src)`
abbrev pub copy_words : List ℕ → List ℕ → List ℕ
copy_words dst src = take (length dst) src ++ drop (length src) dst

-- The windows of an instruction, and the scratch memory with others in their place.
abbrev pub store_leaf : ℕ → ℕ → Scratch → Leaf → Scratch
store_leaf truth_slot reason_slot s leaf = record {
  truths = set s.truths (truth_slot - 1) leaf.truth;
  reasons = set s.reasons (reason_slot - 1) leaf.reasons;
}

module _ (p : Program) (b : Batch) (states : List ℕ) where
  -- The cases of the `switch`; the windows of the instruction are `dst`.
  unfoldable pub execute_boolean : ℕ → Leaf → Option Leaf
  execute_boolean row dst = do
    id ← get_elem? p.values row
    value ← program_predicate_value p id ValueKind.boolean
    truth ← set_all dst.truth value.boolean b.rows
    some (record {
      truth = truth;
      reasons = record { words = replicate (length dst.reasons.words) 0 };
    })

  unfoldable pub execute_evidence : ℕ → Leaf → Option Leaf
  execute_evidence row dst =
      predicate_of p row >>= λ predicate. eval_validated dst b p states predicate

  unfoldable pub execute_group : Bool → ℕ → ℕ → ℕ → Scratch → Option Scratch
  execute_group all row truth_slot reason_slot s = do
    start ← get_elem? p.operand_starts row
    count ← get_elem? p.operand_counts row
    operands ← slice p.operands start count
    truths ← reduce_truth_group all b.rows p.truth_slots truth_slot operands s.truths
    reasons ← reduce_reason_group p.reason_slots reason_slot operands s.reasons
    some (record { truths = truths; reasons = reasons })

  -- The slot of an operand; operand 0 is out of range.
  abbrev pub slot_of_operand : List ℕ → ℕ → Option ℕ
  slot_of_operand slots operand = if operand == 0 then none else get_elem? slots (operand - 1)

  unfoldable pub execute_negation : ℕ → ℕ → ℕ → Leaf → Scratch → Option Scratch
  execute_negation row truth_slot reason_slot dst s = do
    start ← get_elem? p.operand_starts row
    operand ← get_elem? p.operands start
    truth_operand ← slot_of_operand p.truth_slots operand
    src ← slot_of s.truths truth_operand
    truth ← not_planes dst.truth src b.rows
    reason_operand ← slot_of_operand p.reason_slots operand
    src_reasons ← slot_of s.reasons reason_operand
    some (
        store_leaf truth_slot reason_slot s (record {
          truth = truth;
          reasons =
              if reason_slot == reason_operand
              then dst.reasons
              else record { words = copy_words dst.reasons.words src_reasons.words };
        }))

  -- `executeInstructionMode`
  unfoldable pub execute_instruction : ℕ → Scratch → Option Scratch
  unfolding execute_boolean execute_evidence execute_group execute_negation
  execute_instruction row s = do
    opcode ← get_elem? p.opcodes row
    truth_slot ← get_elem? p.truth_slots row
    dst_truth ← slot_of s.truths truth_slot
    reason_slot ← get_elem? p.reason_slots row
    dst_reasons ← slot_of s.reasons reason_slot
    let dst : Leaf = record { truth = dst_truth; reasons = dst_reasons }
    elim opcode [
      | Opcode.boolean ↦
          execute_boolean row dst >>= λ leaf. some (store_leaf truth_slot reason_slot s leaf)
      | Opcode.evidence ↦
          execute_evidence row dst >>= λ leaf. some (store_leaf truth_slot reason_slot s leaf)
      | Opcode.all ↦ execute_group true row truth_slot reason_slot s
      | Opcode.any ↦ execute_group false row truth_slot reason_slot s
      | Opcode.negate ↦ execute_negation row truth_slot reason_slot dst s
      | Opcode.invalid ↦ none
      | _ ↦ eval_predicate dst b p row >>= λ leaf. some (store_leaf truth_slot reason_slot s leaf)
    ]

  -- `executeSchedule`
  unfoldable pub execute_schedule : Scratch → Option Scratch
  execute_schedule s = for_rows execute_instruction (length p.opcodes) 0 s
