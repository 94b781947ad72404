-- ===== src/Eval/Reduce/Reasons.antt =====
-- `reduceReasonGroup` of internal/eval/executor.go, in the scalar mode.
use verifoxx.Common.{
  ◌*◌, ℕ, ◌+◌, ◌-◌, ◌/◌, ◌%◌, ◌≤◌, ◌<◌, ◌≡◌, ◌≢◌, refl, ap, ◌∙◌, bit_or, Bool, false, ◌||◌, Option,
  none, some, List, [], ◌∷◌, ltb, leb, if◌then◌else◌, length, get_or, tabulate, length-tabulate,
  get_or-tabulate, get_or-beyond, arith, inl, inr, Bool-cases,
}
use verifoxx.Words.{bit, bit-bit_or, bit-zero}
use verifoxx.Truth.Planes.{word_count}
use verifoxx.Eval.Leaf.{ReasonPlanes}
use verifoxx.Eval.Leaf.Rows.{reason_at, HasReasonShape}
use verifoxx.Truth.Reason.{reason_count}
use verifoxx.Eval.Reduce.{reduce_group, operand_slot}
use verifoxx.Eval.Reduce.Semantics.{Semantics, fold_values}
use verifoxx.Eval.Reduce.Correct.{Ready, values, reduce_group-Updated}

-- The loop `dst.Words[word] |= src.Words[word]`.
abbrev pub combine_reasons : ReasonPlanes → ReasonPlanes → Option ReasonPlanes
combine_reasons dst src =
    if leb (length dst.words) (length src.words)
    then some (record {
      words =
          tabulate (length dst.words)
            (λ word. bit_or (get_or dst.words word 0) (get_or src.words word 0));
    })
    else none

pub reduce_reason_group : List ℕ → ℕ → List ℕ → List ReasonPlanes → Option (List ReasonPlanes)
reduce_reason_group slots dst operands store = reduce_group combine_reasons slots dst operands store

united : ReasonPlanes → ReasonPlanes → ReasonPlanes
united a b = record {
  words =
      tabulate (length a.words) (λ word. bit_or (get_or a.words word 0) (get_or b.words word 0));
}

abbrev reason_bits : ReasonPlanes → ℕ → ℕ → Bool
reason_bits p word k = bit (get_or p.words word 0) k

united-bits :
    (n : ℕ) (a b : ReasonPlanes) (word k : ℕ)
    → length a.words ≡ n
    → length b.words ≡ n
    → reason_bits (united a b) word k ≡ (reason_bits a word k || reason_bits b word k)
unfolding united
united-bits n a b word k ha hb = elim (Bool-cases (ltb word (length a.words))) [
  | inl inside ↦
      ap (λ w. bit w k) (get_or-tabulate {A = ℕ} (length a.words) _ word 0 (ground arith))
      ∙ bit-bit_or (get_or a.words word 0) (get_or b.words word 0) k
  | inr outside ↦ rw (
    get_or-beyond (united a b).words word 0 (rw length-tabulate (ground arith)),
    get_or-beyond a.words word 0 (ground arith),
    get_or-beyond b.words word 0 (ground arith),
    bit-zero k,
  )
]

or_assoc : (a b c : Bool) → ((a || b) || c) ≡ (a || (b || c))
or_assoc a b c = ground arith

or_comm : (a b : Bool) → (a || b) ≡ (b || a)
or_comm a b = ground arith

or_idem : (a : Bool) → (a || a) ≡ a
or_idem a = ground arith

or_unit : (a : Bool) → (a || false) ≡ a
or_unit a = ground arith

combine_reasons-united :
    (n : ℕ) (a b : ReasonPlanes)
    → length a.words ≡ n
    → length b.words ≡ n
    → combine_reasons a b ≡ some (united a b)
unfolding united
combine_reasons-united n a b ha hb = ground arith

length-united : (a b : ReasonPlanes) → length (united a b).words ≡ length a.words
unfolding united
length-united a b = length-tabulate _ _

reason_semantics : ℕ → Semantics ReasonPlanes (ℕ → ℕ → Bool)
reason_semantics n = record {
  val = reason_bits;
  op = λ f g word k. f word k || g word k;
  unit = λ word k. false;
  op_assoc = λ f g h. λ i word k. or_assoc (f word k) (g word k) (h word k) i;
  op_comm = λ f g. λ i word k. or_comm (f word k) (g word k) i;
  op_idem = λ f. λ i word k. or_idem (f word k) i;
  op_unit = λ f. λ i word k. or_unit (f word k) i;
  Ok = λ p. length p.words ≡ n;
  combine = combine_reasons;
  combine_lem = λ a b ha hb. (
    united a b,
    combine_reasons-united n a b ha hb,
    length-united a b ∙ ha,
    λ i word k. united-bits n a b word k ha hb i,
  );
}

abbrev pub no_reasons : ReasonPlanes
no_reasons = record { words = [] }

abbrev pub reason_window : List ReasonPlanes → ℕ → ReasonPlanes
reason_window store slot = get_or store (slot - 1) no_reasons

-- Whether one of the operands has the reason at the row.
abbrev pub any_reason : ℕ → List ℕ → List ReasonPlanes → List ℕ → ℕ → ℕ → Bool
any_reason rows slots store [] q row = false
any_reason rows slots store (o ∷ os) q row =
    reason_at rows (reason_window store (operand_slot slots o)) q row
    || any_reason rows slots store os q row

abbrev pub HaveReasonShape : ℕ → List ℕ → List ReasonPlanes → List ℕ → Type 0
HaveReasonShape rows slots store [] = Unit
HaveReasonShape rows slots store (o ∷ os) =
    ((0 < operand_slot slots o) × (operand_slot slots o ≤ length store))
    × HasReasonShape rows (reason_window store (operand_slot slots o))
    × HaveReasonShape rows slots store os

module _ (rows : ℕ) (slots : List ℕ) (dst : ℕ) (store : List ReasonPlanes) where
  abbrev semantics : Semantics ReasonPlanes (ℕ → ℕ → Bool)
  semantics = reason_semantics (reason_count * word_count rows)

  HaveReasonShape-Ready :
      (os : List ℕ)
      → HaveReasonShape rows slots store os
      → Ready semantics no_reasons slots dst store os
  unfolding reason_semantics
  HaveReasonShape-Ready [] h = tt
  HaveReasonShape-Ready (o ∷ os) (is, shape, h) = (is, shape, HaveReasonShape-Ready os h)

  fold_values-any_reason :
      (os : List ℕ) (q row : ℕ)
      → fold_values semantics
          (values semantics no_reasons slots dst store os)
          ((q - 1) * word_count rows + row / 64)
          (row % 64)
        ≡ any_reason rows slots store os q row
  unfolding reason_semantics
  fold_values-any_reason [] q row = refl
  fold_values-any_reason (o ∷ os) q row =
      ap (λ b. reason_at rows (reason_window store (operand_slot slots o)) q row || b)
        (fold_values-any_reason os q row)

  -- Reducing the reasons of a group that has operands returns, when its slot and those of its
  -- operands exist and have the shape of the row count: each request then has in its slot the
  -- reasons that it has in one of the operands. No other slot has changed, and there are as many as
  -- before.
  pub reduce_reason_group-any_reason :
      (o : ℕ) (os : List ℕ)
      → 0 < dst
      → dst ≤ length store
      → HasReasonShape rows (reason_window store dst)
      → HaveReasonShape rows slots store (o ∷ os)
      → (store' : List ReasonPlanes) × (reduce_reason_group slots dst (o ∷ os) store ≡ some store')
        × HasReasonShape rows (reason_window store' dst)
        × ((q row : ℕ)
            → reason_at rows (reason_window store' dst) q row
              ≡ any_reason rows slots store (o ∷ os) q row)
        × ((slot : ℕ)
            → 0 < slot
            → slot ≤ length store
            → slot ≢ dst
            → reason_window store' slot ≡ reason_window store slot)
        × (length store' ≡ length store)
  unfolding reduce_reason_group reason_semantics
  reduce_reason_group-any_reason o os lo hi shape ready =
      let (store', ran, u) =
        reduce_group-Updated semantics no_reasons slots dst store o os (lo, hi) shape
          (HaveReasonShape-Ready (o ∷ os) ready) in
      (
        store',
        ran,
        u.well_formed,
        λ q row.
            ap (λ f. f ((q - 1) * word_count rows + row / 64) (row % 64)) u.value
            ∙ fold_values-any_reason (o ∷ os) q row,
        λ slot a b ne. u.others slot (a, b) (ground arith),
        u.size,
      )
