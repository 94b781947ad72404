-- ===== src/Eval/Clause/Drivers.antt =====
-- internal/eval/executor.go: the two searches for a driver, `firstNegativeNode` and
-- `firstReasonNode`, beside the status that a clause collects.
use verifoxx.Common.{
  length-take, length-drop, ℕ, ◌+◌, ◌≤◌, ◌<◌, ◌≡◌, sym, ap, ◌∙◌, Bool, true, false, some, List, [],
  ◌∷◌, arith, leb, length, get_elem?, get_or, get_elem?-eq-get_or, take, drop, inl, inr, Bool-cases,
  >>=-eq-some, some_inj,
}
use verifoxx.Truth.Reason.{has, has-bit_or}
use verifoxx.Result.Resolution.{slice}
use verifoxx.Program.{Program}
use verifoxx.Eval.Clause.{
  Scratch, Status, instruction_truth, instruction_reasons, collect_evidence, clause_status,
  first_negative_edge, first_negative_node, first_reason_edge, first_reason_node,
}
use verifoxx.Eval.Clause.Edges.{FirstEdge, EdgeDriver, IsDriver, FirstEdge-cons, FirstEdge-head}

module _ (p : Program) (scratch : Scratch) (row rows : ℕ) where
  -- Whether the root is negative.
  abbrev pub IsNegative : Bool → ℕ → Type 0
  IsNegative holds root =
      (positive : Bool) × (instruction_truth p scratch row rows root ≡ some (positive, holds))

  -- Whether the root has the reason.
  abbrev pub HasReason : ℕ → Bool → ℕ → Type 0
  HasReason reason holds root =
      (reasons : ℕ) × (instruction_reasons p scratch row rows root ≡ some reasons)
      × (has reasons reason ≡ holds)

  collect_evidence-negative :
      (ids : List ℕ) (acc out : Status) (edge : ℕ)
      → collect_evidence p scratch row rows ids acc ≡ some out
      → acc.negative ≡ false
      → out.negative ≡ true
      → edge + length ids ≤ length p.clause_evidence_nodes
      → (node : ℕ) × (first_negative_edge p scratch row rows ids edge ≡ some node)
        × FirstEdge p IsNegative ids edge node
  unfolding collect_evidence first_negative_edge
  collect_evidence-negative [] acc out edge h a n fits =
      let e : acc ≡ out = some_inj h in cc (sym a ∙ ap (λ x. x.negative) e ∙ n)
  collect_evidence-negative (id ∷ ids) acc out edge h a n fits =
      let ((positive, negative), et, h₁) =
        >>=-eq-some (instruction_truth p scratch row rows id) _ h in
      let (reasons, er, h₂) = >>=-eq-some (instruction_reasons p scratch row rows id) _ h₁ in
      elim (Bool-cases negative) [
        | inl holds ↦ (
          get_or p.clause_evidence_nodes edge 0,
          ground (arith, et, holds, get_elem?-eq-get_or p.clause_evidence_nodes edge 0),
          FirstEdge-head p IsNegative id ids edge
              (positive, et ∙ ap (λ x. some (positive, x)) holds) (omega arith),
        )
        | inr fails ↦
            let (node, found, first) =
              collect_evidence-negative ids _ out (edge + 1) h₂ (rw (a, fails)) n (omega arith) in
            (
              node,
              ground (arith, et, fails, found),
              FirstEdge-cons p IsNegative id ids edge node
                  (positive, et ∙ ap (λ x. some (positive, x)) fails) first,
            )
      ]

  collect_evidence-reason :
      (reason : ℕ) (ids : List ℕ) (acc out : Status) (edge : ℕ)
      → collect_evidence p scratch row rows ids acc ≡ some out
      → has acc.reasons reason ≡ false
      → has out.reasons reason ≡ true
      → edge + length ids ≤ length p.clause_evidence_nodes
      → (node : ℕ) × (first_reason_edge p scratch row rows reason ids edge ≡ some node)
        × FirstEdge p (HasReason reason) ids edge node
  unfolding collect_evidence first_reason_edge
  collect_evidence-reason reason [] acc out edge h a n fits =
      let e : acc ≡ out = some_inj h in cc (sym a ∙ ap (λ x. has x.reasons reason) e ∙ n)
  collect_evidence-reason reason (id ∷ ids) acc out edge h a n fits =
      let ((positive, negative), et, h₁) =
        >>=-eq-some (instruction_truth p scratch row rows id) _ h in
      let (reasons, er, h₂) = >>=-eq-some (instruction_reasons p scratch row rows id) _ h₁ in
      elim (Bool-cases (has reasons reason)) [
        | inl holds ↦ (
          get_or p.clause_evidence_nodes edge 0,
          ground (arith, er, holds, get_elem?-eq-get_or p.clause_evidence_nodes edge 0),
          FirstEdge-head p (HasReason reason) id ids edge (reasons, er, holds) (omega arith),
        )
        | inr fails ↦
            let (node, found, first) =
              collect_evidence-reason reason ids _ out (edge + 1) h₂
                (has-bit_or acc.reasons reasons reason ∙ rw (a, fails)) n (omega arith) in
            (
              node,
              ground (arith, er, fails, found),
              FirstEdge-cons p (HasReason reason) id ids edge node (reasons, er, fails) first,
            )
      ]

  -- What `clause_status` read on its way.
  record Reads (clause_row : ℕ) (out : Status) : Type 0 where
    assertion : ℕ
    positive : Bool
    negative : Bool
    reasons : ℕ
    start : ℕ
    count : ℕ
    evidence : List ℕ
    root : get_elem? p.clause_assertion_roots clause_row ≡ some assertion
    truth : instruction_truth p scratch row rows assertion ≡ some (positive, negative)
    mask : instruction_reasons p scratch row rows assertion ≡ some reasons
    starts : get_elem? p.clause_evidence_starts clause_row ≡ some start
    counts : get_elem? p.clause_evidence_counts clause_row ≡ some count
    edges : slice p.clause_evidence_ids start count ≡ some evidence
    collected :
        collect_evidence p scratch row rows evidence
          (record { positive = positive; negative = negative; reasons = reasons })
        ≡ some out

  clause_status-Reads :
      (clause_row : ℕ) (out : Status)
      → clause_status p scratch row rows clause_row ≡ some out
      → Reads clause_row out
  unfolding clause_status
  clause_status-Reads clause_row out h =
      let (assertion, e₁, h₁) = >>=-eq-some (get_elem? p.clause_assertion_roots clause_row) _ h in
      let ((positive, negative), e₂, h₂) =
        >>=-eq-some (instruction_truth p scratch row rows assertion) _ h₁ in
      let (reasons, e₃, h₃) = >>=-eq-some (instruction_reasons p scratch row rows assertion) _ h₂ in
      let (start, e₄, h₄) = >>=-eq-some (get_elem? p.clause_evidence_starts clause_row) _ h₃ in
      let (count, e₅, h₅) = >>=-eq-some (get_elem? p.clause_evidence_counts clause_row) _ h₄ in
      let (evidence, e₆, h₆) = >>=-eq-some (slice p.clause_evidence_ids start count) _ h₅ in
      record {
        assertion = assertion;
        positive = positive;
        negative = negative;
        reasons = reasons;
        start = start;
        count = count;
        evidence = evidence;
        root = e₁;
        truth = e₂;
        mask = e₃;
        starts = e₄;
        counts = e₅;
        edges = e₆;
        collected = h₆;
      }

  Reads-EdgeDriver :
      (Test : Bool → ℕ → Type 0) (clause_row node : ℕ) (out : Status) (v : Reads clause_row out)
      → FirstEdge p Test v.evidence v.start node
      → EdgeDriver p Test clause_row node
  Reads-EdgeDriver Test clause_row node out v first = record {
    start = v.start;
    count = v.count;
    evidence = v.evidence;
    starts = v.starts;
    counts = v.counts;
    edges = v.edges;
    first = first;
  }

  length-slice :
      (xs out : List ℕ) (start count : ℕ)
      → slice xs start count ≡ some out
      → start + length out ≤ length xs
  length-slice xs out start count h = elim (Bool-cases (leb (start + count) (length xs))) [
    | inl fits ↦
        let e : take count (drop start xs) ≡ out = some_inj (rw fits at h) in
        rw (← e)
          (omega (arith, length-take count (drop start xs), length-drop start xs (ground arith)))
    | inr short ↦ cc (rw short at h)
  ]

  -- When the status of a clause is collected and something in it is negative, `firstNegativeNode`
  -- finds a driver, if each assertion and each edge has a node: the node of the assertion when its
  -- root is negative, and otherwise that of the first edge of the clause whose root is.
  pub first_negative_node-total :
      (clause_row : ℕ) (out : Status)
      → clause_status p scratch row rows clause_row ≡ some out
      → out.negative ≡ true
      → clause_row < length p.clause_assertion_nodes
      → length p.clause_evidence_ids ≤ length p.clause_evidence_nodes
      → (node : ℕ) × (first_negative_node p scratch row rows clause_row ≡ some node)
        × IsDriver p IsNegative clause_row node
  unfolding first_negative_node
  first_negative_node-total clause_row out h n nodes edges =
      let v = clause_status-Reads clause_row out h in
      elim (Bool-cases v.negative) [
        | inl holds ↦ (
          get_or p.clause_assertion_nodes clause_row 0,
          ground (
            arith,
            v.root,
            v.truth,
            holds,
            get_elem?-eq-get_or p.clause_assertion_nodes clause_row 0,
          ),
          (
            v.assertion,
            v.root,
            inl (
              (v.positive, v.truth ∙ ap (λ x. some (v.positive, x)) holds),
              get_elem?-eq-get_or p.clause_assertion_nodes clause_row 0 nodes,
            ),
          ),
        )
        | inr fails ↦
            let (node, found, first) =
              collect_evidence-negative v.evidence _ out v.start v.collected fails n (
                omega
                  (arith, length-slice p.clause_evidence_ids v.evidence v.start v.count v.edges)) in
            (
              node,
              ground (arith, v.root, v.truth, fails, v.starts, v.counts, v.edges, found),
              (
                v.assertion,
                v.root,
                inr (
                  (v.positive, v.truth ∙ ap (λ x. some (v.positive, x)) fails),
                  Reads-EdgeDriver IsNegative clause_row node out v first,
                ),
              ),
            )
      ]

  -- When the status of a clause is collected and has a reason, `firstReasonNode` finds a driver for
  -- that reason, if each assertion and each edge has a node: the node of the assertion when its root
  -- has the reason, and otherwise that of the first edge of the clause whose root has it.
  pub first_reason_node-total :
      (clause_row reason : ℕ) (out : Status)
      → clause_status p scratch row rows clause_row ≡ some out
      → has out.reasons reason ≡ true
      → clause_row < length p.clause_assertion_nodes
      → length p.clause_evidence_ids ≤ length p.clause_evidence_nodes
      → (node : ℕ) × (first_reason_node p scratch row rows clause_row reason ≡ some node)
        × IsDriver p (HasReason reason) clause_row node
  unfolding first_reason_node
  first_reason_node-total clause_row reason out h n nodes edges =
      let v = clause_status-Reads clause_row out h in
      elim (Bool-cases (has v.reasons reason)) [
        | inl holds ↦ (
          get_or p.clause_assertion_nodes clause_row 0,
          ground (
            arith,
            v.root,
            v.mask,
            holds,
            get_elem?-eq-get_or p.clause_assertion_nodes clause_row 0,
          ),
          (
            v.assertion,
            v.root,
            inl (
              (v.reasons, v.mask, holds),
              get_elem?-eq-get_or p.clause_assertion_nodes clause_row 0 nodes,
            ),
          ),
        )
        | inr fails ↦
            let (node, found, first) =
              collect_evidence-reason reason v.evidence _ out v.start v.collected fails n (
                omega
                  (arith, length-slice p.clause_evidence_ids v.evidence v.start v.count v.edges)) in
            (
              node,
              ground (arith, v.root, v.mask, fails, v.starts, v.counts, v.edges, found),
              (
                v.assertion,
                v.root,
                inr (
                  (v.reasons, v.mask, fails),
                  Reads-EdgeDriver (HasReason reason) clause_row node out v first,
                ),
              ),
            )
      ]
