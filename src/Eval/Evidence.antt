-- ===== src/Eval/Evidence.antt =====
-- internal/eval/evidence_eval.go: evidence predicates over the evidence records of each request.
-- `none` is a panic. The program pointer that an index remembers is the program itself here, so
-- `bind` has no shortcut for a program that is bound already.
pub mod Classify
pub mod Write
pub mod Total
pub mod Checked
pub mod Validated
use verifoxx.Common.{
  ℕ, zero, suc, ◌+◌, ◌-◌, ◌*◌, ◌/◌, ◌%◌, ◌^◌, bit_or, Bool, true, false, ◌&&◌, ◌||◌, not, Option,
  none, some, List, [], ◌∷◌, map, ltb, leb, ◌==◌, if◌then◌else◌, length, get_elem?, get_or, ◌>>=◌,
}
use verifoxx.Truth.Planes.{Planes, word_count}
use verifoxx.Truth.Reason.{
  reason_count, missing, stale, unclear, unverifiable, wrong_scope, wrong_subject, wrong_timing,
  invalid, conflict, with_reason, has, reason_bit,
}
use verifoxx.Program.{Program}
use verifoxx.Program.Symbols.{symbol, bytes_equal}
use verifoxx.Eval.Batch.{Batch, EvidenceBatch}
use verifoxx.Eval.Leaf.{Leaf, ReasonPlanes, reset_leaf_outputs, set_bit}

-- The names of the states that stand for a reason.
abbrev pub stale_name : List ℕ
stale_name = b's' ∷ b't' ∷ b'a' ∷ b'l' ∷ b'e' ∷ []

abbrev pub unclear_name : List ℕ
unclear_name = b'u' ∷ b'n' ∷ b'c' ∷ b'l' ∷ b'e' ∷ b'a' ∷ b'r' ∷ []

abbrev pub unverifiable_name : List ℕ
unverifiable_name =
    b'u' ∷ b'n' ∷ b'v' ∷ b'e' ∷ b'r' ∷ b'i' ∷ b'f' ∷ b'i' ∷ b'a' ∷ b'b' ∷ b'l' ∷ b'e' ∷ []

abbrev pub invalid_name : List ℕ
invalid_name = b'i' ∷ b'n' ∷ b'v' ∷ b'a' ∷ b'l' ∷ b'i' ∷ b'd' ∷ []

abbrev pub conflict_name : List ℕ
conflict_name = b'c' ∷ b'o' ∷ b'n' ∷ b'f' ∷ b'l' ∷ b'i' ∷ b'c' ∷ b't' ∷ []

abbrev pub conflicting_name : List ℕ
conflicting_name = b'c' ∷ b'o' ∷ b'n' ∷ b'f' ∷ b'l' ∷ b'i' ∷ b'c' ∷ b't' ∷ b'i' ∷ b'n' ∷ b'g' ∷ []

-- The `switch` of `Bind`; 0 is no reason.
unfoldable pub state_reason : List ℕ → ℕ
state_reason name =
    if bytes_equal name stale_name
    then stale
    else if bytes_equal name unclear_name
    then unclear
    else if bytes_equal name unverifiable_name
    then unverifiable
    else if bytes_equal name invalid_name
    then invalid
    else if bytes_equal name conflict_name || bytes_equal name conflicting_name
    then conflict
    else 0

-- `Bind`: the reason of each evidence state, or `none` for the error.
unfoldable pub bind_states : Program → List ℕ → Option (List ℕ)
bind_states p [] = some []
bind_states p (name_id ∷ ids) = do
  name ← symbol p name_id
  rest ← bind_states p ids
  some (state_reason name ∷ rest)

-- `EvidenceStateIndex.reason`
unfoldable pub reason_of : List ℕ → ℕ → Option ℕ
reason_of reasons state = if state == 0 then none else get_elem? reasons (state - 1)

-- Zero subject, scope and timing leave that attribute free.
pub record EvidencePredicate : Type 0 where
  pub kind : ℕ
  pub state : ℕ
  pub subject : ℕ
  pub scope : ℕ
  pub timing : ℕ

pub record Classification : Type 0 where
  pub reasons : ℕ
  pub positive : Bool
  pub negative : Bool

-- `evidenceReasonMasks[reason]` at the identifiers 0 to 9.
abbrev pub evidence_reason_mask : ℕ → ℕ
evidence_reason_mask reason = reason_bit reason

abbrev pub wrong_when : Bool → ℕ → ℕ
wrong_when b reason = if b then 2 ^ (reason - 1) else 0

-- A qualifier is expected and the record has another one.
abbrev pub wrong : ℕ → ℕ → Bool
wrong value expected = not (expected == 0) && not (value == expected)

abbrev pub qualifier_reasons : Bool → Bool → Bool → ℕ
qualifier_reasons subject scope timing =
    bit_or (bit_or (wrong_when subject wrong_subject) (wrong_when scope wrong_scope))
      (wrong_when timing wrong_timing)

-- The result, from the test of the state, the reason of the state and the qualifiers.
abbrev pub classified : Bool → ℕ → ℕ → Classification
classified state_matches state_reason qualifiers =
    let reason = if state_matches then 0 else state_reason in
    record {
      reasons = bit_or (evidence_reason_mask reason) qualifiers;
      positive = (state_matches && qualifiers == 0) || reason == conflict;
      negative = not state_matches && (reason == 0 || reason == conflict);
    }

-- `classifyEvidenceRecord`
unfoldable pub classify :
    (state expected_state state_reason subject expected_subject scope expected_scope timing
      expected_timing : ℕ)
    → Classification
classify state expected_state state_reason subject expected_subject scope expected_scope timing
      expected_timing =
    classified (state == expected_state) state_reason (
      qualifier_reasons (wrong subject expected_subject) (wrong scope expected_scope)
        (wrong timing expected_timing))

-- What the scan of a row's evidence has found so far, and in the end.
pub record RowResult : Type 0 where
  pub found_kind : Bool
  pub positive : Bool
  pub negative : Bool
  pub reasons : ℕ

abbrev pub no_evidence : RowResult
no_evidence = record { found_kind = false; positive = false; negative = false; reasons = 0 }

-- The part of the loop body behind the test of the kind.
unfoldable pub add_record : RowResult → Classification → RowResult
add_record acc c = record {
  found_kind = true;
  positive = acc.positive || c.positive;
  negative = acc.negative || c.negative;
  reasons = bit_or acc.reasons c.reasons;
}

unfoldable pub classify_row : EvidenceBatch → List ℕ → EvidencePredicate → ℕ → Option Classification
classify_row evidence states predicate row = do
  state ← get_elem? evidence.states row
  reason ← reason_of states state
  subject ← get_elem? evidence.subjects row
  scope ← get_elem? evidence.scopes row
  timing ← get_elem? evidence.timings row
  some (
      classify state predicate.state reason subject predicate.subject scope predicate.scope timing
        predicate.timing)

-- The body of the loop over the evidence rows of a request.
unfoldable pub scan_edge :
    EvidenceBatch → List ℕ → EvidencePredicate → ℕ → RowResult → Option RowResult
scan_edge evidence states predicate row acc = do
  kind ← get_elem? evidence.kinds row
  elim (kind == predicate.kind) [
    | false ↦ some acc
    | true ↦ do c ← classify_row evidence states predicate row; some (add_record acc c)
  ]

-- The edges from `edge` on, `left` of them.
unfoldable pub scan_edges :
    Batch → List ℕ → EvidencePredicate → ℕ → ℕ → RowResult → Option RowResult
scan_edges batch states predicate zero edge acc = some acc
scan_edges batch states predicate (suc left) edge acc = do
  row ← get_elem? batch.evidence_refs edge
  acc' ← scan_edge batch.evidence states predicate row acc
  scan_edges batch states predicate left (edge + 1) acc'

-- The two reasons that the scan as a whole adds.
abbrev pub close_reasons : Bool → Bool → Bool → ℕ → ℕ
close_reasons found_kind positive negative reasons =
    let with_missing = if not found_kind then with_reason reasons missing else reasons in
    if positive && negative then with_reason with_missing conflict else with_missing

unfoldable pub close_row : RowResult → RowResult
close_row acc = record acc {
  reasons = close_reasons acc.found_kind acc.positive acc.negative acc.reasons;
}

unfoldable pub eval_row : Batch → List ℕ → EvidencePredicate → ℕ → Option RowResult
eval_row batch states predicate row = do
  start ← get_elem? batch.evidence_offsets row
  end ← get_elem? batch.evidence_offsets (row + 1)
  acc ← scan_edges batch states predicate (end - start) start no_evidence
  some (close_row acc)

-- The loop over the reasons from `reason` on, `left` of them, that sets the bit of a row.
unfoldable pub write_reasons : ℕ → ℕ → ℕ → ℕ → ℕ → List ℕ → List ℕ
write_reasons words row mask zero reason xs = xs
write_reasons words row mask (suc left) reason xs =
    write_reasons words row mask left (reason + 1)
      (if has mask reason then set_bit xs ((reason - 1) * words + row / 64) (row % 64) else xs)

-- The part of the loop body that writes the result of a row.
unfoldable pub write_row : ℕ → ℕ → RowResult → Leaf → Leaf
write_row words row result leaf = record {
  truth = record {
    positive =
        if result.positive
        then set_bit leaf.truth.positive (row / 64) (row % 64)
        else leaf.truth.positive;
    negative =
        if result.negative
        then set_bit leaf.truth.negative (row / 64) (row % 64)
        else leaf.truth.negative;
  };
  reasons = record {
    words = write_reasons words row result.reasons reason_count missing leaf.reasons.words;
  };
}

-- The rows from `row` on, `left` of them.
unfoldable pub eval_rows : Batch → List ℕ → EvidencePredicate → ℕ → ℕ → Leaf → Option Leaf
eval_rows batch states predicate zero row leaf = some leaf
eval_rows batch states predicate (suc left) row leaf = do
  result ← eval_row batch states predicate row
  eval_rows batch states predicate left (row + 1)
      (write_row (word_count batch.rows) row result leaf)

-- `evalEvidenceUnchecked`
unfoldable pub eval_unchecked : Leaf → Batch → List ℕ → EvidencePredicate → Option Leaf
eval_unchecked dst batch states predicate = do
  cleared ← reset_leaf_outputs dst batch.rows
  eval_rows batch states predicate batch.rows 0 cleared

-- `requireEvidencePredicate`
unfoldable pub require_predicate : Program → List ℕ → EvidencePredicate → Bool
require_predicate p states predicate =
    length states == length p.evidence_state_names
    && not (predicate.kind == 0)
    && leb predicate.kind (length p.evidence_kind_names)
    && not (predicate.state == 0)
    && leb predicate.state (length p.evidence_state_names)

-- `evalEvidenceValidated`
unfoldable pub eval_validated : Leaf → Batch → Program → List ℕ → EvidencePredicate → Option Leaf
eval_validated dst batch p states predicate =
    if require_predicate p states predicate then eval_unchecked dst batch states predicate else none

unfoldable pub offsets_valid : ℕ → ℕ → List ℕ → Bool
offsets_valid refs previous [] = true
offsets_valid refs previous (offset ∷ rest) =
    not (ltb offset previous || ltb refs offset) && offsets_valid refs offset rest

unfoldable pub refs_valid : ℕ → List ℕ → Bool
refs_valid rows [] = true
refs_valid rows (ref ∷ refs) = ltb ref rows && refs_valid rows refs

-- The evidence rows from `row` on, `left` of them.
unfoldable pub records_valid : Program → EvidenceBatch → ℕ → ℕ → Bool
records_valid p e zero row = true
records_valid p e (suc left) row =
    not (get_or e.ids row 0 == 0)
    && not (get_or e.kinds row 0 == 0)
    && leb (get_or e.kinds row 0) (length p.evidence_kind_names)
    && not (get_or e.states row 0 == 0)
    && leb (get_or e.states row 0) (length p.evidence_state_names)
    && records_valid p e left (row + 1)

-- The offsets start at 0 and end at the number of references.
abbrev offsets_span : List ℕ → ℕ → Bool
offsets_span [] refs = false
offsets_span (offset ∷ rest) refs =
    offset == 0 && get_or (offset ∷ rest) (length rest) 0 == refs && offsets_valid refs 0 rest

-- `validEvidenceBatch`
unfoldable pub valid_evidence_batch : Batch → Program → Bool
valid_evidence_batch batch p =
    let e = batch.evidence in
    let rows = length e.ids in
    length batch.request_ids == batch.rows
    && length batch.evidence_offsets == batch.rows + 1
    && offsets_span batch.evidence_offsets (length batch.evidence_refs)
    && length e.kinds == rows
    && length e.states == rows
    && length e.subjects == rows
    && length e.scopes == rows
    && length e.reviewers == rows
    && length e.timings == rows
    && length e.timestamps == rows
    && refs_valid rows batch.evidence_refs
    && records_valid p e rows 0

-- `requireEvidenceBatch`; the state index belongs to the program.
abbrev pub require_batch : Batch → Program → List ℕ → Bool
require_batch batch p states =
    length states == length p.evidence_state_names && valid_evidence_batch batch p

-- `evalEvidence`
pub eval_evidence : Leaf → Batch → Program → List ℕ → EvidencePredicate → Option Leaf
eval_evidence dst batch p states predicate =
    if require_predicate p states predicate
    then (if require_batch batch p states then eval_unchecked dst batch states predicate else none)
    else none
