-- ===== src/Eval/Schedule/Steps.antt =====
-- One instruction of the schedule of internal/eval/executor.go, whatever its opcode.
use verifoxx.Common.{
  ℕ, ◌+◌, ◌<◌, ◌≡◌, refl, sym, ap, ◌∙◌, Bool, true, false, Option, some, List, [], ◌∷◌, arith,
  length, get_elem?, get_or, drop, get_elem?-eq-get_or, ◌>>=◌, some_inj, subst, get_or-take,
  get_or-drop,
}
use verifoxx.Truth.Planes.{word_count}
use verifoxx.Program.{Program, Opcode}
use verifoxx.Compile.Lifetimes.{operands_of}
use verifoxx.Compile.Lifetimes.Uses.{operand_at}
use verifoxx.Eval.Batch.{Batch}
use verifoxx.Eval.Leaf.{Leaf, cleared}
use verifoxx.Eval.Leaf.Rows.{HasLeafShape}
use verifoxx.Eval.Predicate.{eval_predicate}
use verifoxx.Eval.Reduce.{slot_of}
use verifoxx.Eval.Reduce.Truth.{window, no_planes}
use verifoxx.Eval.Reduce.Reasons.{reason_window, no_reasons}
use verifoxx.Eval.Clause.{Scratch}
use verifoxx.Eval.Schedule.{
  execute_instruction, execute_boolean, execute_evidence, execute_group, execute_negation,
  store_leaf, operand_count_fits,
}
use verifoxx.Eval.Schedule.Reference.{
  Value, value_at, leaf_value, group_value, group_at, negated, value_of,
}
use verifoxx.Eval.Schedule.Stored.{Stores, slot_of-window, store_leaf-Stores}
use verifoxx.Eval.Schedule.Kept.{Kept, IsSchedule}
use verifoxx.Eval.Schedule.Leaves.{Holds, predicate-Holds, evidence-Holds, boolean-Holds}
use verifoxx.Eval.Schedule.Groups.{IsOperand, AreOperands, span_of, execute_group-Stores}
use verifoxx.Eval.Schedule.Negation.{execute_negation-Stores}

list_cons : (xs : List ℕ) → 0 < length xs → (x : ℕ) × (rest : List ℕ) × (xs ≡ x ∷ rest)
list_cons [] positive = absurd (omega arith)
list_cons (x ∷ rest) positive = (x, rest, refl)

module _ (p : Program) (b : Batch) (states : List ℕ) (row : ℕ) (s : Scratch) (values : List Value)
    (sched : IsSchedule p b.rows) (inside : row < length p.opcodes)
    (kept : Kept p b.rows row s values)
    (are : AreOperands p b states row s values sched inside kept (operands_of p row))
    (v : Value) where
  abbrev truth_slot : ℕ
  truth_slot = get_or p.truth_slots row 0

  abbrev reason_slot : ℕ
  reason_slot = get_or p.reason_slots row 0

  abbrev dst : Leaf
  dst = record { truth = window s.truths truth_slot; reasons = reason_window s.reasons reason_slot }

  dst-HasLeafShape : HasLeafShape b.rows dst
  dst-HasLeafShape =
      let (t_lo, t_hi) = sched.truth_range row inside in
      let (r_lo, r_hi) = sched.reason_range row inside in
      record {
        truth = kept.is.truths truth_slot t_lo t_hi;
        reasons = kept.is.reasons reason_slot r_lo r_hi;
      }

  -- An instruction that returns and stores its value.
  abbrev pub DoneBy : Option Scratch → Type 0
  DoneBy result =
      (next : Scratch) × (result ≡ some next)
      × Stores b.rows p.truth_slot_count p.reason_slot_count truth_slot reason_slot s next v

  leaf-DoneBy :
      (evaluated : Option Leaf) (leaf : Leaf)
      → evaluated ≡ some leaf
      → Holds b.rows leaf v
      → DoneBy (evaluated >>= λ out. some (store_leaf truth_slot reason_slot s out))
  leaf-DoneBy evaluated leaf e holds = (
    store_leaf truth_slot reason_slot s leaf,
    rw e,
    store_leaf-Stores b.rows p.truth_slot_count p.reason_slot_count truth_slot reason_slot s leaf v
        kept.is (sched.truth_range row inside) (sched.reason_range row inside) holds.shape
        holds.truth holds.reasons,
  )

  predicate-DoneBy :
      (eval_predicate (cleared (word_count b.rows)) b p row >>= λ leaf.
      some (leaf_value b.rows leaf))
        ≡ some v
      → DoneBy
          (eval_predicate dst b p row >>= λ out. some (store_leaf truth_slot reason_slot s out))
  predicate-DoneBy h =
      let (out, returns, holds) = predicate-Holds p b states row dst dst-HasLeafShape v h in
      leaf-DoneBy (eval_predicate dst b p row) out returns holds

  -- What the columns of the row hold.
  windows :
      (get_elem? p.truth_slots row ≡ some truth_slot)
      × (slot_of s.truths truth_slot ≡ some (window s.truths truth_slot))
      × (get_elem? p.reason_slots row ≡ some reason_slot)
      × (slot_of s.reasons reason_slot ≡ some (reason_window s.reasons reason_slot))
  windows =
      let (t_lo, t_hi) = sched.truth_range row inside in
      let (r_lo, r_hi) = sched.reason_range row inside in
      (
        get_elem?-eq-get_or p.truth_slots row 0 (omega (arith, sched.opcodes_sized)),
        slot_of-window s.truths truth_slot no_planes t_lo
            (omega (arith, t_hi, kept.is.truth_count)),
        get_elem?-eq-get_or p.reason_slots row 0 (omega (arith, sched.reasons_sized)),
        slot_of-window s.reasons reason_slot no_reasons r_lo
            (omega (arith, r_hi, kept.is.reason_count)),
      )

  group-DoneBy :
      (all : Bool)
      → 1 < get_or p.operand_counts row 0
      → group_at p b states all row values ≡ some v
      → DoneBy (execute_group p b states all row truth_slot reason_slot s)
  unfolding group_at
  group-DoneBy all many h =
      let (start, count, sliced, size) = span_of p b states row s values sched inside kept in
      let (o, os, e) = list_cons (operands_of p row) (omega (arith, size)) in
      let is_v : group_value all values (operands_of p row) ≡ v =
        some_inj (rw (start, count, sliced) at h) in
      let (next, ran, stored) =
        execute_group-Stores p b states row s values sched inside kept all o os e
          (subst (AreOperands p b states row s values sched inside kept) e are) in
      let e_v : group_value all values (o ∷ os) ≡ v = ap (group_value all values) (sym e) ∙ is_v in
      (
        next,
        ran,
        subst (Stores b.rows p.truth_slot_count p.reason_slot_count truth_slot reason_slot s next)
            e_v stored,
      )

  negation-DoneBy :
      get_or p.operand_counts row 0 ≡ 1
      → (get_elem? p.operand_starts row >>= λ start.
          get_elem? p.operands start >>= λ operand. some (negated (value_of values operand)))
        ≡ some v
      → DoneBy (execute_negation p b states row truth_slot reason_slot dst s)
  negation-DoneBy one h =
      let (start, count, sliced, size) = span_of p b states row s values sched inside kept in
      let at = get_or p.operand_starts row 0 in
      let fits = sched.spans row inside in
      let o = get_or p.operands at 0 in
      let found : get_elem? p.operands at ≡ some o =
        get_elem?-eq-get_or p.operands at 0 (omega arith) in
      let first : operand_at p row 0 ≡ o =
        get_or-take (get_or p.operand_counts row 0) (drop at p.operands) 0 0 (omega arith)
        ∙ get_or-drop at p.operands 0 0
        ∙ (let e : at + 0 ≡ at = omega arith in rw e) in
      let is : IsOperand p b states row s values sched inside kept o =
        subst (IsOperand p b states row s values sched inside kept) first
          (are 0 (omega (arith, size))) in
      let is_v : negated (value_of values o) ≡ v = some_inj (rw (start, found) at h) in
      let (next, ran, stored) =
        execute_negation-Stores p b states row s values sched inside kept o is start found in
      (
        next,
        ran,
        subst (Stores b.rows p.truth_slot_count p.reason_slot_count truth_slot reason_slot s next)
            is_v stored,
      )

  -- All cases of the `switch`.
  execute-DoneBy :
      (opcode : Opcode)
      → get_elem? p.opcodes row ≡ some opcode
      → operand_count_fits opcode (get_or p.operand_counts row 0) ≡ true
      → value_at p b states row values ≡ some v
      → DoneBy (execute_instruction p b states row s)
  unfolding execute_instruction value_at
  execute-DoneBy Opcode.invalid e fits h = absurd (ground (arith, rw e at h))
  execute-DoneBy Opcode.equal e fits h =
      rw (e, windows.0, windows.1, windows.2, windows.3) (predicate-DoneBy (rw e at h))
  execute-DoneBy Opcode.not_equal e fits h =
      rw (e, windows.0, windows.1, windows.2, windows.3) (predicate-DoneBy (rw e at h))
  execute-DoneBy Opcode.within e fits h =
      rw (e, windows.0, windows.1, windows.2, windows.3) (predicate-DoneBy (rw e at h))
  execute-DoneBy Opcode.exists e fits h =
      rw (e, windows.0, windows.1, windows.2, windows.3) (predicate-DoneBy (rw e at h))
  execute-DoneBy Opcode.less e fits h =
      rw (e, windows.0, windows.1, windows.2, windows.3) (predicate-DoneBy (rw e at h))
  execute-DoneBy Opcode.less_equal e fits h =
      rw (e, windows.0, windows.1, windows.2, windows.3) (predicate-DoneBy (rw e at h))
  execute-DoneBy Opcode.greater e fits h =
      rw (e, windows.0, windows.1, windows.2, windows.3) (predicate-DoneBy (rw e at h))
  execute-DoneBy Opcode.greater_equal e fits h =
      rw (e, windows.0, windows.1, windows.2, windows.3) (predicate-DoneBy (rw e at h))
  execute-DoneBy Opcode.defined e fits h =
      rw (e, windows.0, windows.1, windows.2, windows.3) (predicate-DoneBy (rw e at h))
  execute-DoneBy Opcode.evidence e fits h =
      let (out, returns, holds) =
        evidence-Holds p b states row dst dst-HasLeafShape v (rw e at h) in
      rw (e, windows.0, windows.1, windows.2, windows.3)
        (leaf-DoneBy (execute_evidence p b states row dst) out returns holds)
  execute-DoneBy Opcode.boolean e fits h =
      let (out, returns, holds) = boolean-Holds p b states row dst dst-HasLeafShape v (rw e at h) in
      rw (e, windows.0, windows.1, windows.2, windows.3)
        (leaf-DoneBy (execute_boolean p b states row dst) out returns holds)
  execute-DoneBy Opcode.all e fits h =
      rw (e, windows.0, windows.1, windows.2, windows.3)
        (group-DoneBy true (ground arith) (rw e at h))
  execute-DoneBy Opcode.any e fits h =
      rw (e, windows.0, windows.1, windows.2, windows.3)
        (group-DoneBy false (ground arith) (rw e at h))
  execute-DoneBy Opcode.negate e fits h =
      rw (e, windows.0, windows.1, windows.2, windows.3)
        (negation-DoneBy (ground arith) (rw e at h))

  -- The instruction of a row stores its value.
  pub execute_instruction-Stores :
      value_at p b states row values ≡ some v → DoneBy (execute_instruction p b states row s)
  execute_instruction-Stores h =
      execute-DoneBy (get_or p.opcodes row Opcode.invalid)
        (get_elem?-eq-get_or p.opcodes row Opcode.invalid inside) (sched.counts row inside) h
