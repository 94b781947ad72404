-- ===== src/Program.antt =====
-- internal/program: the compiled policy as parallel columns.
-- The content hash and the columns of explanations and bitmap indexes are left out.
pub mod Symbols
pub mod Registry
pub mod Schema
use verifoxx.Common.{ℕ, Bool, true, false, List, ◌&&◌, ◌==◌, bit_and}
use verifoxx.Common.Int.{ℤ}
use verifoxx.Result.Outcome.{OutcomeTable}
use verifoxx.Result.Resolution.{Resolver}

-- internal/program/instruction.go; `invalid` stands for every undefined byte.
pub data Opcode : Type 0 where
  invalid equal not_equal within exists less less_equal greater greater_equal : Opcode
  evidence all any negate boolean defined : Opcode

-- `Opcode.Valid`
abbrev pub opcode_valid : Opcode → Bool
opcode_valid Opcode.invalid = false
opcode_valid _ = true

-- `Opcode.IsGroup`
abbrev pub is_group : Opcode → Bool
is_group Opcode.all = true
is_group Opcode.any = true
is_group _ = false

-- The bits of `RootFlags`.
abbrev pub root_applicability : ℕ
root_applicability = 1

abbrev pub root_assertion : ℕ
root_assertion = 2

abbrev pub root_evidence : ℕ
root_evidence = 4

-- `RootFlags.Has`
abbrev pub has_flag : ℕ → ℕ → Bool
has_flag f flag = bit_and f flag == flag

-- `schema.ValueKind`; `invalid` stands for every undefined byte.
pub data ValueKind : Type 0 where
  invalid symbol integer boolean timestamp presence : ValueKind

abbrev pub kind_valid : ValueKind → Bool
kind_valid ValueKind.invalid = false
kind_valid _ = true

-- Equality of kinds, which are bytes in the source.
abbrev pub same_kind : ValueKind → ValueKind → Bool
same_kind ValueKind.invalid ValueKind.invalid = true
same_kind ValueKind.symbol ValueKind.symbol = true
same_kind ValueKind.integer ValueKind.integer = true
same_kind ValueKind.boolean ValueKind.boolean = true
same_kind ValueKind.timestamp ValueKind.timestamp = true
same_kind ValueKind.presence ValueKind.presence = true
same_kind _ _ = false

-- internal/index/schema.go: each one-based field has a kind and a column among those of its kind.
pub record FieldIndex : Type 0 where
  pub kinds : List ValueKind
  pub columns : List ℕ
  pub counts : ValueKind → ℕ

pub record Program : Type 0 where
  pub opcodes : List Opcode
  pub fields : List ℕ
  pub values : List ℕ
  pub list_starts : List ℕ
  pub list_counts : List ℕ
  pub operand_starts : List ℕ
  pub operand_counts : List ℕ
  pub evidence_kinds : List ℕ
  pub evidence_states : List ℕ
  pub evidence_subjects : List ℕ
  pub evidence_scopes : List ℕ
  pub evidence_timings : List ℕ
  pub root_flags : List ℕ
  pub truth_slots : List ℕ
  pub reason_slots : List ℕ
  pub instruction_nodes : List ℕ
  pub source_starts : List ℕ
  pub source_ends : List ℕ
  pub node_instruction_ids : List ℕ
  pub list_values : List ℕ
  pub operands : List ℕ
  pub symbol_bytes : List ℕ
  pub symbol_starts : List ℕ
  pub symbol_lengths : List ℕ
  pub value_kinds : List ValueKind
  pub value_refs : List ℕ
  pub integer_values : List ℤ
  pub boolean_values : List ℕ
  pub timestamp_values : List ℤ
  pub evidence_kind_names : List ℕ
  pub evidence_state_names : List ℕ
  pub requirement_ids : List ℕ
  pub requirement_roots : List ℕ
  pub requirement_source_nodes : List ℕ
  pub requirement_clause_starts : List ℕ
  pub requirement_clause_counts : List ℕ
  pub requirement_clause_ids : List ℕ
  pub clause_assertion_roots : List ℕ
  pub clause_assertion_nodes : List ℕ
  pub clause_evidence_starts : List ℕ
  pub clause_evidence_counts : List ℕ
  pub clause_evidence_ids : List ℕ
  pub clause_evidence_nodes : List ℕ
  pub clause_on_satisfied : List ℕ
  pub clause_on_false : List ℕ
  pub clause_explanation_ids : List ℕ
  pub clause_remediation_starts : List ℕ
  pub clause_remediation_counts : List ℕ
  pub clause_remediation_ids : List ℕ
  pub outcomes : OutcomeTable
  pub resolver : Resolver
  pub field_index : FieldIndex
  pub program_symbol_count : ℕ
  pub truth_slot_count : ℕ
  pub reason_slot_count : ℕ
