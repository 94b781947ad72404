-- ===== src/Eval/Clause/Edges.antt =====
-- What a driver is that `firstNegativeNode` and `firstReasonNode` of internal/eval/executor.go look
-- for: the node of the first root of a clause that passes a test.
use verifoxx.Common.{
  ℕ, zero, suc, ◌⊎◌, ◌+◌, ◌<◌, ◌≡◌, Bool, true, false, some, List, ◌∷◌, arith, length, get_elem?,
  get_or, get_elem?-eq-get_or,
}
use verifoxx.Result.Resolution.{slice}
use verifoxx.Program.{Program}

-- The first of some edges whose root passes a test, and the node of that edge; `edge` is the number
-- of the first one.
pub record FirstEdge (p : Program) (Test : Bool → ℕ → Type 0) (ids : List ℕ) (edge node : ℕ)
    : Type 0 where
  pub i : ℕ
  pub inside : i < length ids
  pub passes : Test true (get_or ids i 0)
  pub earlier : (j : ℕ) → j < i → Test false (get_or ids j 0)
  pub at_node : get_elem? p.clause_evidence_nodes (edge + i) ≡ some node

-- The node of the assertion of a clause, if its root passes the test, or else that of the first edge
-- of the clause whose root does.
pub record EdgeDriver (p : Program) (Test : Bool → ℕ → Type 0) (clause_row node : ℕ) : Type 0 where
  pub start : ℕ
  pub count : ℕ
  pub evidence : List ℕ
  pub starts : get_elem? p.clause_evidence_starts clause_row ≡ some start
  pub counts : get_elem? p.clause_evidence_counts clause_row ≡ some count
  pub edges : slice p.clause_evidence_ids start count ≡ some evidence
  pub first : FirstEdge p Test evidence start node

abbrev pub IsDriver : Program → (Bool → ℕ → Type 0) → ℕ → ℕ → Type 0
IsDriver p Test clause_row node =
    (assertion : ℕ) × (get_elem? p.clause_assertion_roots clause_row ≡ some assertion)
    × ((Test true assertion × (get_elem? p.clause_assertion_nodes clause_row ≡ some node))
        ⊎ (Test false assertion × EdgeDriver p Test clause_row node))

-- The edges behind one that does not pass.
pub FirstEdge-cons :
    (p : Program) (Test : Bool → ℕ → Type 0) (id : ℕ) (ids : List ℕ) (edge node : ℕ)
    → Test false id
    → FirstEdge p Test ids (edge + 1) node
    → FirstEdge p Test (id ∷ ids) edge node
FirstEdge-cons p Test id ids edge node fails f =
    let e : edge + 1 + f.i ≡ edge + suc f.i = omega arith in
    record {
      i = suc f.i;
      inside = omega (arith, f.inside);
      passes = f.passes;
      earlier = λ j. silent j;
      at_node = rw e at f.at_node;
    }
  where
    silent : (j : ℕ) → j < suc f.i → Test false (get_or (id ∷ ids) j 0)
    silent zero below = fails
    silent (suc j) below = f.earlier j (omega arith)

pub FirstEdge-head :
    (p : Program) (Test : Bool → ℕ → Type 0) (id : ℕ) (ids : List ℕ) (edge : ℕ)
    → Test true id
    → edge < length p.clause_evidence_nodes
    → FirstEdge p Test (id ∷ ids) edge (get_or p.clause_evidence_nodes edge 0)
FirstEdge-head p Test id ids edge holds inside = record {
  i = 0;
  inside = omega arith;
  passes = holds;
  earlier = λ j below. absurd (omega arith);
  at_node =
      let e : edge + 0 ≡ edge = omega arith in
      rw e (get_elem?-eq-get_or p.clause_evidence_nodes edge 0 inside);
}
