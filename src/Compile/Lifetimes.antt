-- ===== src/Compile/Lifetimes.antt =====
-- internal/compile/liveness.go and validateScheduleColumns of schedule.go: how long the result of an
-- instruction is used, and the slots that follow from it.
-- The two errors are one here. A `nil` program is left out.
pub mod Uses
pub mod Reasons
pub mod Correct
use verifoxx.Common.{
  ℕ, zero, suc, ◌+◌, ◌-◌, bit_or, Bool, true, false, not, ◌&&◌, ◌||◌, Option, none, some, List, [],
  ◌∷◌, ltb, leb, ◌==◌, if◌then◌else◌, length, get_or, set, take, drop, tabulate, replicate, ◌>>=◌,
  require, ◌>>◌, all_rows, all_of,
}
use verifoxx.Words.{and_not, max_uint32}
use verifoxx.Program.{
  Program, Opcode, opcode_valid, root_applicability, root_assertion, root_evidence,
}
use verifoxx.Compile.Allocate.{SlotMode, allocate_slots}

abbrev pub known_root_flags : ℕ
known_root_flags = bit_or (bit_or root_applicability root_assertion) root_evidence

abbrev pub optional_schedule_column : ℕ → ℕ → Bool
optional_schedule_column size rows = size == 0 || size == rows

-- `validateScheduleColumns`
unfoldable pub validate_schedule_columns : Program → Bool
validate_schedule_columns p =
    let n = length p.opcodes in
    (length p.fields == n && length p.values == n)
    && (length p.list_starts == n && length p.list_counts == n)
    && (length p.operand_starts == n && length p.operand_counts == n)
    && (length p.evidence_kinds == n && length p.evidence_states == n)
    && optional_schedule_column (length p.evidence_subjects) n
    && optional_schedule_column (length p.evidence_scopes) n
    && optional_schedule_column (length p.evidence_timings) n
    && (length p.root_flags == n && length p.instruction_nodes == n)
    && (length p.source_starts == n && length p.source_ends == n)
    && all_rows n (λ i.
      opcode_valid (get_or p.opcodes i Opcode.invalid)
      && leb (get_or p.list_starts i 0 + get_or p.list_counts i 0) (length p.list_values)
      && leb (get_or p.operand_starts i 0 + get_or p.operand_counts i 0) (length p.operands))
    && all_of (λ id. not (id == 0) && leb id n) p.node_instruction_ids

-- `p.Operands[start:end]` of a row.
abbrev pub operands_of : Program → ℕ → List ℕ
operands_of p row =
    take (get_or p.operand_counts row 0) (drop (get_or p.operand_starts row 0) p.operands)

-- `validateSlotProgram`; the operands of a row come before it.
unfoldable pub validate_slot_program : Program → Bool
unfolding validate_schedule_columns
validate_slot_program p =
    leb (length p.opcodes) max_uint32
    && validate_schedule_columns p
    && all_rows (length p.opcodes) (λ row.
      and_not (get_or p.root_flags row 0) known_root_flags == 0
      && leb (get_or p.operand_starts row 0 + get_or p.operand_counts row 0) (length p.operands)
      && all_of (λ operand. not (operand == 0) && leb operand row) (operands_of p row))

-- The loop over the operands of a consumer.
unfoldable pub use_operands : ℕ → List ℕ → List ℕ → List ℕ
use_operands consumer [] uses = uses
use_operands consumer (operand ∷ operands) uses =
    use_operands consumer operands (set uses (operand - 1) consumer)

-- The loop over the consumers, from one on.
unfoldable pub use_rows : Program → ℕ → ℕ → List ℕ → List ℕ
unfolding use_operands
use_rows p zero consumer uses = uses
use_rows p (suc rounds) consumer uses =
    use_rows p rounds (suc consumer) (use_operands consumer (operands_of p consumer) uses)

-- The loop over the root flags.
abbrev pub keep_roots : Program → List ℕ → List ℕ
keep_roots p uses =
    tabulate (length p.opcodes)
      (λ row. if get_or p.root_flags row 0 == 0 then get_or uses row 0 else length p.opcodes)

-- `computeLastUses`
unfoldable pub compute_last_uses : Program → Option (List ℕ)
unfolding validate_slot_program use_rows
compute_last_uses p =
    require (validate_slot_program p)
    >> some
        (keep_roots p (use_rows p (length p.opcodes) 0 (tabulate (length p.opcodes) (λ row. row))))

-- The opcodes whose reasons come from their operands.
abbrev pub passes_reasons : Opcode → Bool
passes_reasons Opcode.all = true
passes_reasons Opcode.any = true
passes_reasons Opcode.negate = true
passes_reasons _ = false

abbrev pub opcode_at : Program → ℕ → Opcode
opcode_at p row = get_or p.opcodes row Opcode.invalid

-- The loop over the operands of a row that is live.
unfoldable pub live_operands : List ℕ → List ℕ → List ℕ
live_operands [] live = live
live_operands (operand ∷ operands) live = live_operands operands (set live (operand - 1) 1)

unfoldable pub live_row : Program → ℕ → List ℕ → List ℕ
unfolding live_operands
live_row p row live =
    if get_or live row 0 == 0
    then live
    else if passes_reasons (opcode_at p row)
    then live_operands (operands_of p row) live
    else live

-- The loop from the last row down.
unfoldable pub live_rows : Program → ℕ → List ℕ → List ℕ
unfolding live_row
live_rows p zero live = live
live_rows p (suc row) live = live_rows p row (live_row p row live)

-- `computeReasonLive`
unfoldable pub compute_reason_live : Program → List ℕ
unfolding live_rows
compute_reason_live p =
    live_rows p (length p.opcodes)
      (tabulate (length p.opcodes) (λ row. if get_or p.root_flags row 0 == 0 then 0 else 1))

-- `assignSlots`, with `assignTruthSlots`.
unfoldable pub assign_slots : Program → SlotMode → Option Program
unfolding compute_last_uses compute_reason_live allocate_slots
assign_slots p mode = do
  last_uses ← compute_last_uses p
  truth ← allocate_slots last_uses none (replicate (length last_uses) 0) mode
  reasons ←
      allocate_slots last_uses (some (compute_reason_live p)) (replicate (length last_uses) 0) mode
  some (record p {
    truth_slots = truth.0;
    reason_slots = reasons.0;
    truth_slot_count = truth.1;
    reason_slot_count = reasons.1;
  })
