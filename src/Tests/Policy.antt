-- ===== src/Tests/Policy.antt =====
-- A small compiled policy: the fact "x" in the first field, and evidence of the first kind in the
-- state "ok".
use verifoxx.Common.{[], ◌∷◌}
use verifoxx.Common.Int.{pos}
use verifoxx.Program.{Program, FieldIndex, Opcode, ValueKind}
use verifoxx.Eval.Batch.{Batch, EvidenceBatch}
use verifoxx.Tests.Result.{resolver, outcomes}

abbrev pub schema : FieldIndex
schema = record {
  kinds = ValueKind.symbol ∷ [];
  columns = 0 ∷ [];
  counts = λ kind. elim kind [ ValueKind.symbol ↦ 1 | _ ↦ 0 ];
}

-- The symbols "ok", "stale" and "x".
abbrev pub policy : Program
policy = record {
  opcodes = Opcode.equal ∷ Opcode.evidence ∷ Opcode.all ∷ [];
  fields = 1 ∷ 0 ∷ 0 ∷ [];
  values = 1 ∷ 0 ∷ 0 ∷ [];
  list_starts = 0 ∷ 0 ∷ 0 ∷ [];
  list_counts = 0 ∷ 0 ∷ 0 ∷ [];
  operand_starts = 0 ∷ 0 ∷ 0 ∷ [];
  operand_counts = 0 ∷ 0 ∷ 2 ∷ [];
  evidence_kinds = 0 ∷ 1 ∷ 0 ∷ [];
  evidence_states = 0 ∷ 1 ∷ 0 ∷ [];
  evidence_subjects = 0 ∷ 5 ∷ 0 ∷ [];
  evidence_scopes = 0 ∷ 0 ∷ 0 ∷ [];
  evidence_timings = 0 ∷ 0 ∷ 0 ∷ [];
  root_flags = 0 ∷ 4 ∷ 2 ∷ [];
  truth_slots = 1 ∷ 2 ∷ 1 ∷ [];
  reason_slots = 1 ∷ 2 ∷ 1 ∷ [];
  instruction_nodes = 1 ∷ 2 ∷ 3 ∷ [];
  source_starts = 0 ∷ 1 ∷ 2 ∷ [];
  source_ends = 1 ∷ 2 ∷ 3 ∷ [];
  node_instruction_ids = [];
  list_values = [];
  operands = 1 ∷ 2 ∷ [];
  symbol_bytes = b'o' ∷ b'k' ∷ b's' ∷ b't' ∷ b'a' ∷ b'l' ∷ b'e' ∷ b'x' ∷ [];
  symbol_starts = 0 ∷ 2 ∷ 7 ∷ [];
  symbol_lengths = 2 ∷ 5 ∷ 1 ∷ [];
  value_kinds = ValueKind.symbol ∷ [];
  value_refs = 3 ∷ [];
  integer_values = [];
  boolean_values = [];
  timestamp_values = [];
  evidence_kind_names = 3 ∷ [];
  evidence_state_names = 1 ∷ 2 ∷ [];
  requirement_ids = [];
  requirement_roots = [];
  requirement_source_nodes = [];
  requirement_clause_starts = [];
  requirement_clause_counts = [];
  requirement_clause_ids = [];
  clause_assertion_roots = 1 ∷ [];
  clause_assertion_nodes = 6 ∷ [];
  clause_evidence_starts = 0 ∷ [];
  clause_evidence_counts = 1 ∷ [];
  clause_evidence_ids = 2 ∷ [];
  clause_evidence_nodes = 7 ∷ [];
  clause_on_satisfied = [];
  clause_on_false = [];
  clause_explanation_ids = [];
  clause_remediation_starts = [];
  clause_remediation_counts = [];
  clause_remediation_ids = [];
  outcomes = outcomes;
  resolver = resolver;
  field_index = schema;
  program_symbol_count = 3;
  truth_slot_count = 2;
  reason_slot_count = 2;
}

abbrev records : EvidenceBatch
records = record {
  ids = 1 ∷ 2 ∷ [];
  kinds = 1 ∷ 1 ∷ [];
  states = 1 ∷ 2 ∷ [];
  subjects = 5 ∷ 5 ∷ [];
  scopes = 0 ∷ 0 ∷ [];
  reviewers = 0 ∷ 0 ∷ [];
  timings = 0 ∷ 0 ∷ [];
  timestamps = pos 0 ∷ pos 0 ∷ [];
}

-- Two requests: the first has one record in the expected state and one that is stale, the second
-- has the fact and no evidence.
abbrev pub batch : Batch
batch = record {
  symbol_values = 0 ∷ 3 ∷ [];
  integer_values = [];
  timestamp_values = [];
  boolean_values = [];
  presence_masks = 2 ∷ [];
  request_ids = 11 ∷ 12 ∷ [];
  evidence_offsets = 0 ∷ 2 ∷ 2 ∷ [];
  evidence_refs = 0 ∷ 1 ∷ [];
  evidence = records;
  rows = 2;
  row_base = 0;
  row_stride = 0;
}
