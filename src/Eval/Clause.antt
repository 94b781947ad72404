-- ===== src/Eval/Clause.antt =====
-- internal/eval/executor.go, behind the schedule: what an active clause or an uncertain applicability
-- contributes for a request, read from the slots of its roots, and the choice among contributions.
-- `none` is a panic. The scratch memory is one window per slot.
pub mod Edges
pub mod Drivers
pub mod Choice
use verifoxx.Common.{
  ℕ, zero, suc, ◌+◌, ◌-◌, ◌*◌, ◌/◌, ◌%◌, ◌^◌, bit_and, bit_or, Bool, true, false, ◌&&◌, ◌||◌, not,
  Option, none, some, List, [], ◌∷◌, ◌==◌, if◌then◌else◌, get_elem?, ◌>>=◌, require, ◌>>◌,
}
use verifoxx.Truth.Planes.{Planes, word_count}
use verifoxx.Truth.Reason.{reason_count, missing, with_reason, has}
use verifoxx.Result.Outcome.{OutcomeTable, prefer}
use verifoxx.Result.Outcome
use verifoxx.Result.Resolution.{Resolver, Resolution, resolve, slice}
use verifoxx.Program.{Program}
use verifoxx.Eval.Leaf.{ReasonPlanes, plane}
use verifoxx.Eval.Reduce.{slot_of}

pub record Scratch : Type 0 where
  pub truths : List Planes
  pub reasons : List ReasonPlanes

abbrev pub test_word : List ℕ → ℕ → Option Bool
test_word words row = do
  word ← get_elem? words (row / 64)
  some (not (bit_and word (2 ^ (row % 64)) == 0))

-- The state of a root that a clause collects.
pub record Status : Type 0 where
  pub positive : Bool
  pub negative : Bool
  pub reasons : ℕ

module _ (p : Program) (scratch : Scratch) (row rows : ℕ) where
  -- `instructionTruth`
  unfoldable pub instruction_truth : ℕ → Option (Bool × Bool)
  instruction_truth instruction = do
    slot ← (if instruction == 0 then none else get_elem? p.truth_slots (instruction - 1))
    planes ← slot_of scratch.truths slot
    positive ← test_word planes.positive row
    negative ← test_word planes.negative row
    some (positive, negative)

  -- The loop over the reasons from `reason` on, `left` of them.
  unfoldable pub collect_reasons : ReasonPlanes → ℕ → ℕ → ℕ → Option ℕ
  collect_reasons planes zero reason mask = some mask
  collect_reasons planes (suc left) reason mask = do
    holds ← test_word (plane planes reason (word_count rows)) row
    collect_reasons planes left (reason + 1) (if holds then with_reason mask reason else mask)

  -- `instructionReasons`
  unfoldable pub instruction_reasons : ℕ → Option ℕ
  unfolding collect_reasons
  instruction_reasons instruction = do
    slot ← (if instruction == 0 then none else get_elem? p.reason_slots (instruction - 1))
    planes ← slot_of scratch.reasons slot
    collect_reasons planes reason_count missing 0

  -- The loop over the evidence of a clause.
  unfoldable pub collect_evidence : List ℕ → Status → Option Status
  collect_evidence [] acc = some acc
  collect_evidence (evidence ∷ rest) acc = do
    (positive, negative) ← instruction_truth evidence
    reasons ← instruction_reasons evidence
    collect_evidence rest (record {
      positive = acc.positive && positive;
      negative = acc.negative || negative;
      reasons = bit_or acc.reasons reasons;
    })

  -- The truth value and the reasons of a clause: its assertion and all its evidence.
  unfoldable pub clause_status : ℕ → Option Status
  unfolding collect_evidence
  clause_status clause_row = do
    assertion ← get_elem? p.clause_assertion_roots clause_row
    (positive, negative) ← instruction_truth assertion
    reasons ← instruction_reasons assertion
    start ← get_elem? p.clause_evidence_starts clause_row
    count ← get_elem? p.clause_evidence_counts clause_row
    evidence ← slice p.clause_evidence_ids start count
    collect_evidence evidence
        (record { positive = positive; negative = negative; reasons = reasons })

  -- The loop of `firstNegativeNode`, at the edge `edge`.
  first_negative_edge : List ℕ → ℕ → Option ℕ
  first_negative_edge [] edge = none
  first_negative_edge (evidence ∷ rest) edge = do
    (positive, negative) ← instruction_truth evidence
    elim negative [
      | true ↦ get_elem? p.clause_evidence_nodes edge
      | false ↦ first_negative_edge rest (edge + 1)
    ]

  -- `firstNegativeNode`
  pub first_negative_node : ℕ → Option ℕ
  unfolding first_negative_edge
  first_negative_node clause_row = do
    assertion ← get_elem? p.clause_assertion_roots clause_row
    (positive, negative) ← instruction_truth assertion
    elim negative [
      | true ↦ get_elem? p.clause_assertion_nodes clause_row
      | false ↦ do
        start ← get_elem? p.clause_evidence_starts clause_row
        count ← get_elem? p.clause_evidence_counts clause_row
        evidence ← slice p.clause_evidence_ids start count
        first_negative_edge evidence start
    ]

  -- The loop of `firstReasonNode`, at the edge `edge`.
  first_reason_edge : ℕ → List ℕ → ℕ → Option ℕ
  first_reason_edge reason [] edge = none
  first_reason_edge reason (evidence ∷ rest) edge = do
    reasons ← instruction_reasons evidence
    elim (has reasons reason) [
      | true ↦ get_elem? p.clause_evidence_nodes edge
      | false ↦ first_reason_edge reason rest (edge + 1)
    ]

  -- `firstReasonNode`
  pub first_reason_node : ℕ → ℕ → Option ℕ
  unfolding first_reason_edge
  first_reason_node clause_row reason = do
    assertion ← get_elem? p.clause_assertion_roots clause_row
    reasons ← instruction_reasons assertion
    elim (has reasons reason) [
      | true ↦ get_elem? p.clause_assertion_nodes clause_row
      | false ↦ do
        start ← get_elem? p.clause_evidence_starts clause_row
        count ← get_elem? p.clause_evidence_counts clause_row
        evidence ← slice p.clause_evidence_ids start count
        first_reason_edge reason evidence start
    ]

pub record Candidate : Type 0 where
  pub remediations : List ℕ
  pub outcome : ℕ
  pub explanation : ℕ
  pub requirement : ℕ
  pub clause : ℕ
  pub node : ℕ
  pub reasons : ℕ
  pub driver_reason : ℕ
  pub applicability : Bool

-- `executionResolutionRemediations`
abbrev pub execution_resolution_remediations : Resolution → List ℕ
execution_resolution_remediations resolution =
    if resolution.terminal then [] else resolution.remediations

-- `executionClauseRemediations`
pub execution_clause_remediations : Program → ℕ → ℕ → Option (List ℕ)
execution_clause_remediations p clause_row outcome_id = do
  found ← Outcome.lookup p.outcomes outcome_id
  outcome ← found
  elim outcome.terminal [
    | true ↦ some []
    | false ↦ do
      start ← get_elem? p.clause_remediation_starts clause_row
      count ← get_elem? p.clause_remediation_counts clause_row
      slice p.clause_remediation_ids start count
  ]

-- `resolveApplicability`
pub resolve_applicability : Program → Scratch → Resolver → ℕ → ℕ → ℕ → ℕ → ℕ → ℕ → Option Candidate
resolve_applicability p scratch resolver requirement clause root source_node row rows = do
  reasons ← instruction_reasons p scratch row rows root
  resolved ← resolve resolver clause reasons
  resolution ← resolved
  some (record {
    remediations = execution_resolution_remediations resolution;
    outcome = resolution.outcome;
    explanation = resolution.explanation;
    requirement = requirement;
    clause = clause;
    node = source_node;
    reasons = reasons;
    driver_reason = resolution.reason;
    applicability = true;
  })

abbrev pub clause_explanation_branch_count : ℕ
clause_explanation_branch_count = 7

-- A branch of `resolveActiveClause` that is decided, at the explanation branch 0 or 1.
decided_clause : Program → ℕ → ℕ → ℕ → ℕ → ℕ → ℕ → Option Candidate
decided_clause p requirement clause clause_row branch outcome node = do
  explanation ←
      get_elem? p.clause_explanation_ids (clause_row * clause_explanation_branch_count + branch)
  remediations ← execution_clause_remediations p clause_row outcome
  some (record {
    remediations = remediations;
    outcome = outcome;
    explanation = explanation;
    requirement = requirement;
    clause = clause;
    node = node;
    reasons = 0;
    driver_reason = 0;
    applicability = false;
  })

-- The branch that the resolver decides.
resolved_clause : Program → Scratch → Resolver → ℕ → ℕ → ℕ → ℕ → ℕ → Option Candidate
resolved_clause p scratch resolver requirement clause reasons row rows = do
  resolved ← resolve resolver clause reasons
  resolution ← resolved
  node ← first_reason_node p scratch row rows (clause - 1) resolution.reason
  some (record {
    remediations = execution_resolution_remediations resolution;
    outcome = resolution.outcome;
    explanation = resolution.explanation;
    requirement = requirement;
    clause = clause;
    node = node;
    reasons = reasons;
    driver_reason = resolution.reason;
    applicability = false;
  })

-- `resolveActiveClause`
pub resolve_active_clause : Program → Scratch → Resolver → ℕ → ℕ → ℕ → ℕ → Option Candidate
unfolding decided_clause resolved_clause
resolve_active_clause p scratch resolver requirement clause row rows = do
  require (not (clause == 0))
  status ← clause_status p scratch row rows (clause - 1)
  elim (status.positive && not status.negative) [
    | true ↦ do
      outcome ← get_elem? p.clause_on_satisfied (clause - 1)
      node ← get_elem? p.clause_assertion_nodes (clause - 1)
      decided_clause p requirement clause (clause - 1) 0 outcome node
    | false ↦ elim (not status.positive && status.negative) [
      | true ↦ do
        outcome ← get_elem? p.clause_on_false (clause - 1)
        node ← first_negative_node p scratch row rows (clause - 1)
        decided_clause p requirement clause (clause - 1) 1 outcome node
      | false ↦ resolved_clause p scratch resolver requirement clause status.reasons row rows
    ]
  ]

-- `preferExecutionCandidate`
pub prefer_execution_candidate : Candidate → Candidate → OutcomeTable → Option Candidate
prefer_execution_candidate best candidate outcomes = do
  (winner, known) ← prefer outcomes best.outcome candidate.outcome
  require known
  some (if best.outcome == 0 || not (winner == best.outcome) then candidate else best)
