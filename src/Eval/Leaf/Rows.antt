-- ===== src/Eval/Leaf/Rows.antt =====
-- The rows of the outputs of internal/eval/scalar.go: the truth value and the reasons of each request.
use verifoxx.Common.{
  ℕ, zero, suc, ◌+◌, ◌-◌, ◌*◌, ◌/◌, ◌%◌, ◌^◌, ◌<◌, ◌≡◌, refl, ◌∙◌, bit_or, Bool, false, ◌&&◌, ◌||◌,
  some, List, arith, ◌==◌, length, get_or, replicate, length-replicate, length-set, get_or-set_self,
  get_or-set_ne, inl, inr, Bool-cases,
}
use verifoxx.Words.{bit, bit-bit_or, bit-pow, bit-zero}
use verifoxx.Truth.Planes.{word_count}
use verifoxx.Truth.Planes.Rows.{row_bit, HasShape}
use verifoxx.Truth.Reason.{reason_count, IsReason}
use verifoxx.Eval.Leaf.{Leaf, ReasonPlanes, set_bit, cleared, reset_leaf_outputs}

-- The bit of a reason and a row.
abbrev pub reason_at : ℕ → ReasonPlanes → ℕ → ℕ → Bool
reason_at rows p reason row =
    bit (get_or p.words ((reason - 1) * word_count rows + row / 64) 0) (row % 64)

abbrev pub HasReasonShape : ℕ → ReasonPlanes → Type 0
HasReasonShape rows p = length p.words ≡ reason_count * word_count rows

-- `xs[word] |= 1 << k` sets one bit.
pub bit-set_bit :
    (xs : List ℕ) (word k j i : ℕ)
    → word < length xs
    → bit (get_or (set_bit xs word k) j 0) i ≡ (bit (get_or xs j 0) i || (word == j && k == i))
bit-set_bit xs word k j i h = elim (Bool-cases (word == j)) [
  | inl same ↦
      let e : word ≡ j = ground arith in
      rw
        (
          ← e,
          get_or-set_self xs word (bit_or (get_or xs word 0) (2 ^ k)) 0 h,
          bit-bit_or (get_or xs word 0) (2 ^ k) i,
          bit-pow k i,
        )
        (ground arith)
  | inr other ↦
      rw (get_or-set_ne xs word j (bit_or (get_or xs word 0) (2 ^ k)) 0 (ground arith))
        (ground arith)
]

-- Setting the bit of a row changes that row and no other.
pub row_bit-set_bit :
    (xs : List ℕ) (row other : ℕ)
    → row / 64 < length xs
    → row_bit (set_bit xs (row / 64) (row % 64)) other ≡ (row_bit xs other || row == other)
row_bit-set_bit xs row other h =
    bit-set_bit xs (row / 64) (row % 64) (other / 64) (other % 64) h ∙ ground arith

-- Places of different reasons lie in different planes.
place_inj : (a b w i j : ℕ) → i < w → j < w → a * w + i ≡ b * w + j → (a ≡ b) × (i ≡ j)
place_inj zero zero w i j hi hj e = (refl, omega arith)
place_inj zero (suc b) w i j hi hj e = absurd (omega arith)
place_inj (suc a) zero w i j hi hj e = absurd (omega arith)
place_inj (suc a) (suc b) w i j hi hj e = ground (arith, place_inj a b w i j hi hj (omega arith))

place-lt : (a n w i : ℕ) → a < n → i < w → a * w + i < n * w
place-lt a n w i ha hi = grind arith

-- Setting the bit of a reason and a row changes that pair and no other.
pub reason_at-set_bit :
    (rows : ℕ) (p : ReasonPlanes) (reason row q other : ℕ)
    → HasReasonShape rows p
    → IsReason reason
    → IsReason q
    → row < rows
    → other < rows
    → reason_at rows
        (record { words = set_bit p.words ((reason - 1) * word_count rows + row / 64) (row % 64) })
        q
        other
      ≡ (reason_at rows p q other || (reason == q && row == other))
reason_at-set_bit rows p reason row q other h hr hq lt lo =
    let w = word_count rows in
    bit-set_bit p.words ((reason - 1) * w + row / 64) (row % 64) ((q - 1) * w + other / 64)
      (other % 64)
      (rw h (place-lt (reason - 1) reason_count w (row / 64) (omega arith) (omega arith)))
    ∙ elim (Bool-cases ((reason - 1) * w + row / 64 == (q - 1) * w + other / 64)) [
      | inl same ↦ ground (
        arith,
        place_inj (reason - 1) (q - 1) w (row / 64) (other / 64) (omega arith) (omega arith)
            (ground arith),
      )
      | inr apart ↦ elim (Bool-cases (reason == q && row == other)) [
        | inl both ↦
            let er : reason ≡ q = ground arith in
            let eo : row ≡ other = ground arith in
            let places : (reason - 1) * w + row / 64 ≡ (q - 1) * w + other / 64 = cc in
            absurd (ground arith)
        | inr differ ↦ rw (apart, differ)
      ]
    ]

pub HasReasonShape-set_bit :
    (rows : ℕ) (p : ReasonPlanes) (word k : ℕ)
    → HasReasonShape rows p
    → HasReasonShape rows (record { words = set_bit p.words word k })
HasReasonShape-set_bit rows p word k h = length-set p.words word _ ∙ h

-- Both outputs have the length that the row count asks for.
pub record HasLeafShape (rows : ℕ) (leaf : Leaf) : Type 0 where
  pub truth : HasShape rows leaf.truth
  pub reasons : HasReasonShape rows leaf.reasons

-- Nothing is set in a row.
pub record IsClear (rows : ℕ) (leaf : Leaf) (row : ℕ) : Type 0 where
  pub positive : row_bit leaf.truth.positive row ≡ false
  pub negative : row_bit leaf.truth.negative row ≡ false
  pub reasons : (q : ℕ) → IsReason q → reason_at rows leaf.reasons q row ≡ false

get_or-zeros : (n i : ℕ) → get_or {A = ℕ} (replicate n 0) i 0 ≡ 0
get_or-zeros zero i = refl
get_or-zeros (suc n) zero = refl
get_or-zeros (suc n) (suc i) = get_or-zeros n i

pub cleared-HasLeafShape : (rows : ℕ) → HasLeafShape rows (cleared (word_count rows))
cleared-HasLeafShape rows = record {
  truth = record { positive = length-replicate _ _; negative = length-replicate _ _ };
  reasons = length-replicate _ _;
}

pub cleared-IsClear : (rows row : ℕ) → IsClear rows (cleared (word_count rows)) row
cleared-IsClear rows row = record {
  positive = rw (get_or-zeros (word_count rows) (row / 64)) (bit-zero (row % 64));
  negative = rw (get_or-zeros (word_count rows) (row / 64)) (bit-zero (row % 64));
  reasons = λ q _. rw (get_or-zeros (reason_count * word_count rows) _) (bit-zero (row % 64));
}

pub reset-eq-cleared :
    (dst : Leaf) (rows : ℕ) {out : Leaf}
    → reset_leaf_outputs dst rows ≡ some out
    → out ≡ cleared (word_count rows)
unfolding reset_leaf_outputs
reset-eq-cleared dst rows h = ground arith

pub reset-HasLeafShape :
    (dst : Leaf) (rows : ℕ)
    → HasLeafShape rows dst
    → reset_leaf_outputs dst rows ≡ some (cleared (word_count rows))
unfolding reset_leaf_outputs
reset-HasLeafShape dst rows h = ground (arith, h.truth.positive, h.truth.negative, h.reasons)
