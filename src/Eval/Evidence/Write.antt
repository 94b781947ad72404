-- ===== src/Eval/Evidence/Write.antt =====
-- The loops of internal/eval/evidence_eval.go that set the bits of each row.
use verifoxx.Common.{
  ℕ, zero, suc, ◌+◌, ◌-◌, ◌*◌, ◌/◌, ◌%◌, ◌^◌, ◌≤◌, ◌<◌, ◌≡◌, ◌≢◌, refl, ◌∙◌, bit_or, ◌&&◌, ◌||◌,
  some, List, arith, leb, ◌==◌, if◌then◌else◌, get_or, set, length-set, inl, inr, Bool-cases,
  >>=-eq-some, some_inj,
}
use verifoxx.Truth.Planes.{word_count}
use verifoxx.Truth.Planes.Rows.{row_bit}
use verifoxx.Truth.Reason.{reason_count, IsReason, has, missing, conflict}
use verifoxx.Eval.Batch.{Batch}
use verifoxx.Eval.Leaf.{cleared, Leaf, ReasonPlanes, set_bit, reset_leaf_outputs}
use verifoxx.Eval.Leaf.Rows.{
  HasLeafShape, IsClear, cleared-IsClear, cleared-HasLeafShape, reset-eq-cleared, reason_at,
  HasReasonShape, row_bit-set_bit, reason_at-set_bit, HasReasonShape-set_bit,
}
use verifoxx.Eval.Evidence.{
  RowResult, EvidencePredicate, write_reasons, write_row, eval_row, eval_rows, eval_unchecked,
}

abbrev written : ℕ → ℕ → ℕ → ℕ → List ℕ → ReasonPlanes
written words row mask reason xs = record {
  words = if has mask reason then set_bit xs ((reason - 1) * words + row / 64) (row % 64) else xs;
}

written-HasReasonShape :
    (rows row mask reason : ℕ) (p : ReasonPlanes)
    → HasReasonShape rows p
    → HasReasonShape rows (written (word_count rows) row mask reason p.words)
written-HasReasonShape rows row mask reason p h = elim (Bool-cases (has mask reason)) [
  | inl set ↦ rw set (HasReasonShape-set_bit rows p _ _ h)
  | inr clear ↦ rw clear h
]

reason_at-written :
    (rows row mask reason : ℕ) (p : ReasonPlanes) (q other : ℕ)
    → HasReasonShape rows p
    → IsReason reason
    → IsReason q
    → row < rows
    → other < rows
    → reason_at rows (written (word_count rows) row mask reason p.words) q other
      ≡ (reason_at rows p q other || (has mask reason && (reason == q && row == other)))
reason_at-written rows row mask reason p q other h hr hq lt lo =
    elim (Bool-cases (has mask reason)) [
      | inl set ↦ rw (set) (reason_at-set_bit rows p reason row q other h hr hq lt lo)
      | inr clear ↦ rw clear (ground arith)
    ]

-- The reasons from `reason` to 9 are written for a row.
write_reasons-reason_at :
    (rows row mask left reason : ℕ) (p : ReasonPlanes) (q other : ℕ)
    → HasReasonShape rows p
    → reason + left ≡ conflict + 1
    → missing ≤ reason
    → IsReason q
    → row < rows
    → other < rows
    → reason_at rows
        (record { words = write_reasons (word_count rows) row mask left reason p.words })
        q
        other
      ≡ (reason_at rows p q other || (leb reason q && (has mask q && row == other)))
unfolding write_reasons
write_reasons-reason_at rows row mask zero reason p q other h e lo hq hr ho = ground arith
write_reasons-reason_at rows row mask (suc left) reason p q other h e lo hq hr ho =
    let next = written (word_count rows) row mask reason p.words in
    write_reasons-reason_at rows row mask left (reason + 1) next q other
      (written-HasReasonShape rows row mask reason p h) (omega arith) (omega arith) hq hr ho
    ∙ rw (reason_at-written rows row mask reason p q other h (omega arith) hq hr ho)
        (elim (Bool-cases (reason == q)) [
          | inl same ↦ let eq : reason ≡ q = ground arith in rw eq (ground arith)
          | inr apart ↦ ground arith
        ])

write_reasons-HasReasonShape :
    (rows row mask left reason : ℕ) (p : ReasonPlanes)
    → HasReasonShape rows p
    → HasReasonShape rows
        (record { words = write_reasons (word_count rows) row mask left reason p.words })
unfolding write_reasons
write_reasons-HasReasonShape rows row mask zero reason p h = h
write_reasons-HasReasonShape rows row mask (suc left) reason p h =
    write_reasons-HasReasonShape rows row mask left (reason + 1)
      (written (word_count rows) row mask reason p.words)
      (written-HasReasonShape rows row mask reason p h)

-- The outputs hold a result in a row.
pub record RowIs (rows : ℕ) (leaf : Leaf) (row : ℕ) (result : RowResult) : Type 0 where
  pub positive : row_bit leaf.truth.positive row ≡ result.positive
  pub negative : row_bit leaf.truth.negative row ≡ result.negative
  pub reasons : (q : ℕ) → IsReason q → reason_at rows leaf.reasons q row ≡ has result.reasons q

module _ (rows row : ℕ) (result : RowResult) (leaf : Leaf) (h : HasLeafShape rows leaf)
    (lt : row < rows) where
  abbrev after : Leaf
  after = write_row (word_count rows) row result leaf

  write_row-HasLeafShape : HasLeafShape rows after
  unfolding write_row
  write_row-HasLeafShape = record {
    truth = record {
      positive = ground (
        arith,
        h.truth.positive,
        length-set leaf.truth.positive (row / 64)
            (bit_or (get_or leaf.truth.positive (row / 64) 0) (2 ^ (row % 64))),
      );
      negative = ground (
        arith,
        h.truth.negative,
        length-set leaf.truth.negative (row / 64)
            (bit_or (get_or leaf.truth.negative (row / 64) 0) (2 ^ (row % 64))),
      );
    };
    reasons =
        write_reasons-HasReasonShape rows row result.reasons reason_count missing leaf.reasons
          h.reasons;
  }

  write_row-positive :
      (other : ℕ)
      → row_bit after.truth.positive other
        ≡ (row_bit leaf.truth.positive other || (result.positive && row == other))
  unfolding write_row
  write_row-positive other = elim (Bool-cases result.positive) [
    | inl set ↦
        rw set (row_bit-set_bit leaf.truth.positive row other (rw h.truth.positive (omega arith)))
    | inr clear ↦ rw clear (ground arith)
  ]

  write_row-negative :
      (other : ℕ)
      → row_bit after.truth.negative other
        ≡ (row_bit leaf.truth.negative other || (result.negative && row == other))
  unfolding write_row
  write_row-negative other = elim (Bool-cases result.negative) [
    | inl set ↦
        rw set (row_bit-set_bit leaf.truth.negative row other (rw h.truth.negative (omega arith)))
    | inr clear ↦ rw clear (ground arith)
  ]

  write_row-reasons :
      (q other : ℕ)
      → IsReason q
      → other < rows
      → reason_at rows after.reasons q other
        ≡ (reason_at rows leaf.reasons q other || (has result.reasons q && row == other))
  unfolding write_row
  write_row-reasons q other hq lo =
      write_reasons-reason_at rows row result.reasons reason_count missing leaf.reasons q other
        h.reasons refl (omega arith) hq lt lo
      ∙ ground arith

  write_row-RowIs : IsClear rows leaf row → RowIs rows after row result
  write_row-RowIs c = record {
    positive = write_row-positive row ∙ ground (arith, c.positive);
    negative = write_row-negative row ∙ ground (arith, c.negative);
    reasons = λ q hq. write_row-reasons q row hq lt ∙ ground (arith, c.reasons q hq);
  }

  write_row-IsClear :
      (other : ℕ) → row ≢ other → other < rows → IsClear rows leaf other → IsClear rows after other
  write_row-IsClear other ne lo c = record {
    positive = write_row-positive other ∙ ground (arith, c.positive);
    negative = write_row-negative other ∙ ground (arith, c.negative);
    reasons = λ q hq. write_row-reasons q other hq lo ∙ ground (arith, c.reasons q hq);
  }

  write_row-keeps :
      (other : ℕ) (r : RowResult)
      → row ≢ other
      → other < rows
      → RowIs rows leaf other r
      → RowIs rows after other r
  write_row-keeps other r ne lo c = record {
    positive = write_row-positive other ∙ ground (arith, c.positive);
    negative = write_row-negative other ∙ ground (arith, c.negative);
    reasons = λ q hq. write_row-reasons q other hq lo ∙ ground (arith, c.reasons q hq);
  }

module _ (batch : Batch) (states : List ℕ) (predicate : EvidencePredicate) where
  -- The rows below `row` hold their results, and the others are clear.
  record LoopInv (row : ℕ) (leaf : Leaf) : Type 0 where
    shape : HasLeafShape batch.rows leaf
    done :
        (r : ℕ)
        → r < row
        → r < batch.rows
        → (result : RowResult) × (eval_row batch states predicate r ≡ some result)
          × RowIs batch.rows leaf r result
    clear : (r : ℕ) → row ≤ r → r < batch.rows → IsClear batch.rows leaf r

  LoopInv-suc :
      (row : ℕ) (leaf : Leaf) (result : RowResult)
      → row < batch.rows
      → eval_row batch states predicate row ≡ some result
      → LoopInv row leaf
      → LoopInv (row + 1) (write_row (word_count batch.rows) row result leaf)
  LoopInv-suc row leaf result lt e v = record {
    shape = write_row-HasLeafShape batch.rows row result leaf v.shape lt;
    done = λ r below lr. elim (Bool-cases (r == row)) [
      | inl same ↦
          let er : row ≡ r = ground arith in
          rw (← er) (
            result,
            e,
            write_row-RowIs batch.rows row result leaf v.shape lt (v.clear row (omega arith) lt),
          )
      | inr other ↦
          let (old, eo, is) = v.done r (ground arith) lr in
          (
            old,
            eo,
            write_row-keeps batch.rows row result leaf v.shape lt r old (ground arith) lr is,
          )
    ];
    clear = λ r above lr.
        write_row-IsClear batch.rows row result leaf v.shape lt r (omega arith) lr
          (v.clear r (omega arith) lr);
  }

  eval_rows-LoopInv :
      (left row : ℕ) (leaf out : Leaf)
      → row + left ≡ batch.rows
      → eval_rows batch states predicate left row leaf ≡ some out
      → LoopInv row leaf
      → LoopInv batch.rows out
  unfolding eval_rows
  eval_rows-LoopInv zero row leaf out e h v =
      let er : row ≡ batch.rows = omega arith in rw (← some_inj h) (rw er at v)
  eval_rows-LoopInv (suc left) row leaf out e h v =
      let (result, er, h₁) = >>=-eq-some (eval_row batch states predicate row) _ h in
      eval_rows-LoopInv left (row + 1) (write_row (word_count batch.rows) row result leaf) out
        (omega arith) h₁ (LoopInv-suc row leaf result (omega arith) er v)

  -- When evaluation returns, the scan of each row returned, and the row holds the truth value and
  -- the reasons that it found.
  pub eval_unchecked-RowIs :
      (dst out : Leaf)
      → eval_unchecked dst batch states predicate ≡ some out
      → HasLeafShape batch.rows out
        × ((row : ℕ)
            → row < batch.rows
            → (result : RowResult) × (eval_row batch states predicate row ≡ some result)
              × RowIs batch.rows out row result)
  unfolding eval_unchecked
  eval_unchecked-RowIs dst out h =
      let (start, es, h₁) = >>=-eq-some (reset_leaf_outputs dst batch.rows) _ h in
      let words = word_count batch.rows in
      let e : start ≡ cleared words = reset-eq-cleared dst batch.rows es in
      let v =
        eval_rows-LoopInv batch.rows 0 (cleared words) out (omega arith) (rw e at h₁) (record {
          shape = cleared-HasLeafShape batch.rows;
          done = λ r below. elim below [ ];
          clear = λ r _ _. cleared-IsClear batch.rows r;
        }) in
      (v.shape, λ row lt. v.done row lt lt)
