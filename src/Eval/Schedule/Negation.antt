-- ===== src/Eval/Schedule/Negation.antt =====
-- The negation of internal/eval/executor.go, which reads the windows of one operand.
use verifoxx.Common.{
  ℕ, ◌-◌, ◌≤◌, ◌<◌, ◌≡◌, ap, ◌∙◌, true, false, some, List, arith, length, get_elem?, get_or,
  get_elem?-eq-get_or, take-length, drop-length, ltb, ◌==◌, if◌then◌else◌, inl, inr, Bool-cases,
}
use mathlib.Core.List.{append-nil}
use verifoxx.Truth.Planes.Rows.{not_state, not_planes-Writes}
use verifoxx.Program.{Program}
use verifoxx.Eval.Batch.{Batch}
use verifoxx.Eval.Leaf.{Leaf, ReasonPlanes}
use verifoxx.Eval.Leaf.Rows.{reason_at}
use verifoxx.Eval.Reduce.Truth.{window, no_planes}
use verifoxx.Eval.Reduce.Reasons.{reason_window, no_reasons}
use verifoxx.Eval.Clause.{Scratch}
use verifoxx.Eval.Schedule.{execute_negation, slot_of_operand, copy_words, store_leaf}
use verifoxx.Eval.Schedule.Reference.{Value, value_of, negated}
use verifoxx.Eval.Schedule.Stored.{Stores, slot_of-window, store_leaf-Stores}
use verifoxx.Eval.Schedule.Kept.{Kept, IsSchedule}
use verifoxx.Eval.Schedule.Groups.{IsOperand}

copy_words-all : (dst src : List ℕ) → length dst ≡ length src → copy_words dst src ≡ src
copy_words-all dst src e = rw (e, drop-length (length src) dst e, take-length src) (append-nil src)

module _ (p : Program) (b : Batch) (states : List ℕ) (row : ℕ) (s : Scratch) (values : List Value)
    (sched : IsSchedule p b.rows) (inside : row < length p.opcodes)
    (kept : Kept p b.rows row s values) (o : ℕ)
    (is : IsOperand p b states row s values sched inside kept o) where
  slot_of_operand-found :
      (slots : List ℕ)
      → length slots ≡ length p.opcodes
      → slot_of_operand p b states slots o ≡ some (get_or slots (o - 1) 0)
  slot_of_operand-found slots sized =
      let positive : (o == 0) ≡ false = ground (arith, is.positive) in
      rw positive
        (get_elem?-eq-get_or slots (o - 1) 0 (omega (arith, is.positive, is.before, sized)))

  abbrev truth_slot : ℕ
  truth_slot = get_or p.truth_slots row 0

  abbrev reason_slot : ℕ
  reason_slot = get_or p.reason_slots row 0

  abbrev dst : Leaf
  dst = record { truth = window s.truths truth_slot; reasons = reason_window s.reasons reason_slot }

  -- A negation stores what its operand has, with truth exchanged.
  pub execute_negation-Stores :
      get_elem? p.operand_starts row ≡ some (get_or p.operand_starts row 0)
      → get_elem? p.operands (get_or p.operand_starts row 0) ≡ some o
      → (next : Scratch) × (execute_negation p b states row truth_slot reason_slot dst s
          ≡ some next)
        × Stores b.rows p.truth_slot_count p.reason_slot_count truth_slot reason_slot s next
            (negated (value_of values o))
  unfolding execute_negation
  execute_negation-Stores start found =
      let t_in = sched.truth_range row inside in
      let r_in = sched.reason_range row inside in
      let t_o = get_or p.truth_slots (o - 1) 0 in
      let r_o = get_or p.reason_slots (o - 1) 0 in
      let (t_lo, t_hi) = sched.truth_range (o - 1) (omega (arith, is.positive, is.before)) in
      let (r_lo, r_hi) = sched.reason_range (o - 1) (omega (arith, is.positive, is.before)) in
      let t_slot = slot_of_operand-found p.truth_slots sched.opcodes_sized in
      let r_slot = slot_of_operand-found p.reason_slots sched.reasons_sized in
      let src =
        slot_of-window s.truths t_o no_planes t_lo (omega (arith, t_hi, kept.is.truth_count)) in
      let src_reasons =
        slot_of-window s.reasons r_o no_reasons r_lo (omega (arith, r_hi, kept.is.reason_count)) in
      let w =
        not_planes-Writes b.rows (kept.is.truths truth_slot t_in.0 t_in.1)
          (kept.is.truths t_o t_lo t_hi) in
      let reasons : ReasonPlanes =
        if reason_slot == r_o
        then dst.reasons
        else record { words = copy_words dst.reasons.words (reason_window s.reasons r_o).words } in
      let same : reasons ≡ reason_window s.reasons r_o = copied r_in r_lo r_hi in
      let leaf : Leaf = record { truth = w.out; reasons = reasons } in
      (
        store_leaf truth_slot reason_slot s leaf,
        rw (start, found, t_slot, src, w.returns, r_slot, src_reasons),
        store_leaf-Stores b.rows p.truth_slot_count p.reason_slot_count truth_slot reason_slot s
            leaf (negated (value_of values o)) kept.is t_in r_in
            (record { truth = w.shape; reasons = rw same (kept.is.reasons r_o r_lo r_hi) })
            (λ r r_inside.
              let below : ltb r b.rows ≡ true = ground arith in
              (w.values r ∙ rw below)
              ∙ ap not_state
                  (kept.truth (o - 1) r (omega (arith, is.positive, is.before)) is.truth r_inside))
            (λ q r r_inside.
              ap (λ planes. reason_at b.rows planes q r) same
              ∙ kept.reasons (o - 1) q r (omega (arith, is.positive, is.before)) is.reasons
                  r_inside),
      )
    where
      copied :
          (0 < reason_slot) × (reason_slot ≤ p.reason_slot_count)
          → 0 < get_or p.reason_slots (o - 1) 0
          → get_or p.reason_slots (o - 1) 0 ≤ p.reason_slot_count
          → (if reason_slot == get_or p.reason_slots (o - 1) 0 then dst.reasons else record {
            words =
                copy_words dst.reasons.words
                  (reason_window s.reasons (get_or p.reason_slots (o - 1) 0)).words;
          })
            ≡ reason_window s.reasons (get_or p.reason_slots (o - 1) 0)
      copied r_in r_lo r_hi =
          let r_o = get_or p.reason_slots (o - 1) 0 in
          elim (Bool-cases (reason_slot == r_o)) [
            | inl here ↦
                rw here (let e : reason_slot ≡ r_o = ground arith in ap (reason_window s.reasons) e)
            | inr there ↦ rw there (
                ap (λ words. record { words = words })
                  (copy_words-all dst.reasons.words (reason_window s.reasons r_o).words (
                    omega (
                      arith,
                      kept.is.reasons reason_slot r_in.0 r_in.1,
                      kept.is.reasons r_o r_lo r_hi,
                    ))))
          ]
