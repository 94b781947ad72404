-- ===== src/Eval/Reduce/Truth.antt =====
-- `reduceTruthGroup` of internal/eval/executor.go, in the scalar mode.
use verifoxx.Common.{
  ℕ, ◌-◌, ◌≤◌, ◌<◌, ◌≡◌, ◌≢◌, refl, sym, ap, ◌∙◌, Bool, true, false, Option, some, List, [], ◌∷◌,
  ltb, if◌then◌else◌, length, get_or, arith, inl, inr, Bool-cases,
}
use verifoxx.Truth.Planes.{Planes, and_planes, or_planes}
use verifoxx.Truth.Planes.Rows.{
  State, HasShape, Writes, row_state, exactly, and_state, or_state, and_planes-Writes,
  or_planes-Writes,
}
use verifoxx.Eval.Reduce.{reduce_group, operand_slot}
use verifoxx.Eval.Reduce.Semantics.{Semantics, fold_values}
use verifoxx.Eval.Reduce.Correct.{Ready, values, reduce_group-Updated}

-- The body of the second loop of `reduceTruthGroup`; `all` is the test of the opcode.
abbrev pub combine_truth : Bool → ℕ → Planes → Planes → Option Planes
combine_truth all rows dst src =
    if all then and_planes dst dst src rows else or_planes dst dst src rows

pub reduce_truth_group : Bool → ℕ → List ℕ → ℕ → List ℕ → List Planes → Option (List Planes)
reduce_truth_group all rows slots dst operands store =
    reduce_group (combine_truth all rows) slots dst operands store

-- The connective of a group on the value of a row, and its neutral value.
abbrev pub connect : Bool → State → State → State
connect all s t = if all then and_state s t else or_state s t

abbrev pub truth_at : Bool → ℕ → Planes → ℕ → State
truth_at all rows p row = if ltb row rows then row_state p row else exactly all

truth_at-inside :
    (all : Bool) (rows : ℕ) (p : Planes) (row : ℕ)
    → row < rows
    → truth_at all rows p row ≡ row_state p row
truth_at-inside all rows p row lt = let inside : ltb row rows ≡ true = ground arith in rw inside

connect_assoc :
    (all : Bool) (a b c : State) → connect all (connect all a b) c ≡ connect all a (connect all b c)
connect_assoc all a b c = ground arith

connect_comm : (all : Bool) (a b : State) → connect all a b ≡ connect all b a
connect_comm all a b = ground arith

connect_idem : (all : Bool) (a : State) → connect all a a ≡ a
connect_idem all a = ground arith

connect_unit : (all : Bool) (a : State) → connect all a (exactly all) ≡ a
connect_unit all a = ground arith

combine_truth-Writes :
    (all : Bool) (rows : ℕ) (a b : Planes)
    → HasShape rows a
    → HasShape rows b
    → Writes rows
        (combine_truth all rows a b)
        (λ row. connect all (row_state a row) (row_state b row))
combine_truth-Writes true rows a b ha hb = and_planes-Writes rows ha ha hb
combine_truth-Writes false rows a b ha hb = or_planes-Writes rows ha ha hb

pub truth_semantics : Bool → ℕ → Semantics Planes (ℕ → State)
truth_semantics all rows = record {
  val = truth_at all rows;
  op = λ f g row. connect all (f row) (g row);
  unit = λ row. exactly all;
  op_assoc = λ f g h. λ i row. connect_assoc all (f row) (g row) (h row) i;
  op_comm = λ f g. λ i row. connect_comm all (f row) (g row) i;
  op_idem = λ f. λ i row. connect_idem all (f row) i;
  op_unit = λ f. λ i row. connect_unit all (f row) i;
  Ok = HasShape rows;
  combine = combine_truth all rows;
  combine_lem = λ a b ha hb.
      let w = combine_truth-Writes all rows a b ha hb in
      (w.out, w.returns, w.shape, λ i row. written a b w row i);
}
  where
    written :
        (a b : Planes) {r : Option Planes}
        (w : Writes rows r (λ row. connect all (row_state a row) (row_state b row))) (row : ℕ)
        → truth_at all rows w.out row
          ≡ connect all (truth_at all rows a row) (truth_at all rows b row)
    written a b w row = elim (Bool-cases (ltb row rows)) [
      | inl inside ↦ rw inside (w.values row ∙ rw inside)
      | inr outside ↦ rw outside (sym (connect_idem all (exactly all)))
    ]

abbrev pub no_planes : Planes
no_planes = record { positive = []; negative = [] }

-- The window of a slot that exists.
abbrev pub window : List Planes → ℕ → Planes
window store slot = get_or store (slot - 1) no_planes

-- The values of the operands at a row.
abbrev pub operand_states : List ℕ → List Planes → List ℕ → ℕ → List State
operand_states slots store [] row = []
operand_states slots store (o ∷ os) row =
    row_state (window store (operand_slot slots o)) row ∷ operand_states slots store os row

abbrev pub connect_all : Bool → List State → State
connect_all all [] = exactly all
connect_all all (v ∷ vs) = connect all v (connect_all all vs)

-- The slots of the operands exist and have the shape of the row count.
abbrev pub HaveShape : ℕ → List ℕ → List Planes → List ℕ → Type 0
HaveShape rows slots store [] = Unit
HaveShape rows slots store (o ∷ os) =
    ((0 < operand_slot slots o) × (operand_slot slots o ≤ length store))
    × HasShape rows (window store (operand_slot slots o))
    × HaveShape rows slots store os

module _ (all : Bool) (rows : ℕ) (slots : List ℕ) (dst : ℕ) (store : List Planes) where
  HaveShape-Ready :
      (os : List ℕ)
      → HaveShape rows slots store os
      → Ready (truth_semantics all rows) no_planes slots dst store os
  unfolding truth_semantics
  HaveShape-Ready [] h = tt
  HaveShape-Ready (o ∷ os) (is, shape, h) = (is, shape, HaveShape-Ready os h)

  fold_values-row :
      (os : List ℕ) (row : ℕ)
      → row < rows
      → fold_values
          (truth_semantics all rows)
          (values (truth_semantics all rows) no_planes slots dst store os)
          row
        ≡ connect_all all (operand_states slots store os row)
  unfolding truth_semantics
  fold_values-row [] row lt = refl
  fold_values-row (o ∷ os) row lt =
      let inside : ltb row rows ≡ true = ground arith in
      rw inside (
        ap (connect all (row_state (window store (operand_slot slots o)) row))
          (fold_values-row os row lt))

  -- Reducing a group that has operands returns, when its slot and those of its operands exist and
  -- have the shape of the row count: each row of its slot is then the conjunction or disjunction of
  -- that row in all operands, whether or not its slot is one of theirs. No other slot has changed,
  -- and there are as many as before.
  pub reduce_truth_group-connect_all :
      (o : ℕ) (os : List ℕ)
      → 0 < dst
      → dst ≤ length store
      → HasShape rows (window store dst)
      → HaveShape rows slots store (o ∷ os)
      → (store' : List Planes) × (reduce_truth_group all rows slots dst (o ∷ os) store
          ≡ some store')
        × HasShape rows (window store' dst)
        × ((row : ℕ)
            → row < rows
            → row_state (window store' dst) row
              ≡ connect_all all (operand_states slots store (o ∷ os) row))
        × ((slot : ℕ)
            → 0 < slot
            → slot ≤ length store
            → slot ≢ dst
            → window store' slot ≡ window store slot)
        × (length store' ≡ length store)
  unfolding reduce_truth_group truth_semantics
  reduce_truth_group-connect_all o os lo hi shape ready =
      let (store', ran, u) =
        reduce_group-Updated (truth_semantics all rows) no_planes slots dst store o os (lo, hi)
          shape (HaveShape-Ready (o ∷ os) ready) in
      (
        store',
        ran,
        u.well_formed,
        λ row lt.
            sym (truth_at-inside all rows (window store' dst) row lt)
            ∙ ap (λ f. f row) u.value
            ∙ fold_values-row (o ∷ os) row lt,
        λ slot a b ne. u.others slot (a, b) (ground arith),
        u.size,
      )
