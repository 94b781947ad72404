-- ===== src/Truth/Planes/Rows.antt =====
-- The plane operations of internal/truth/planes.go, read one row at a time.
use verifoxx.Common.{
  ℕ, ◌-◌, ◌/◌, ◌%◌, ◌^◌, ◌≤◌, ◌<◌, bit_and, ◌≡◌, refl, ◌∙◌, ap, inl, inr, Bool, true, false, not,
  ◌&&◌, ◌||◌, Option, some, List, arith, ltb, ◌==◌, Bool-cases, if◌then◌else◌, length, get_or, set,
  replicate, length-set, length-tabulate, length-replicate, get_or-set_self, get_or-set_ne,
  get_or-beyond, get_or-tabulate, get_or-replicate,
}
use verifoxx.Words.{
  bit, complement, bit-bit_and, bit-bit_or, bit-zero, bit-low_mask, bit-complement,
}
use verifoxx.Truth.Planes.{
  Planes, Word, word_count, require_shape, mask_tail, combine, not_word, and_word, or_word, set_all,
  not_planes, and_planes, or_planes,
}

-- The truth value of a row: evidence for it, and evidence against it.
pub record State : Type 0 where
  pub positive : Bool
  pub negative : Bool

abbrev pub unknown : State
unknown = record { positive = false; negative = false }

abbrev pub exactly : Bool → State
exactly v = record { positive = v; negative = not v }

abbrev pub not_state : State → State
not_state s = record { positive = s.negative; negative = s.positive }

abbrev pub and_state : State → State → State
and_state s t = record { positive = s.positive && t.positive; negative = s.negative || t.negative }

abbrev pub or_state : State → State → State
or_state s t = record { positive = s.positive || t.positive; negative = s.negative && t.negative }

-- The bit of a row in a plane: bit `row & 63` of word `row >> 6`.
abbrev pub row_bit : List ℕ → ℕ → Bool
row_bit words row = bit (get_or words (row / 64) 0) (row % 64)

abbrev pub row_state : Planes → ℕ → State
row_state p row = record { positive = row_bit p.positive row; negative = row_bit p.negative row }

-- Both planes have the length that the row count asks for.
pub record HasShape (rows : ℕ) (p : Planes) : Type 0 where
  pub positive : length p.positive ≡ word_count rows
  pub negative : length p.negative ≡ word_count rows

pub require_shape-HasShape :
    (rows : ℕ) (p : Planes) → HasShape rows p → require_shape p (word_count rows) ≡ true
require_shape-HasShape rows p h = ground arith

abbrev mask_words : List ℕ → ℕ → ℕ → List ℕ
mask_words xs last rows = set xs last (bit_and (get_or xs last 0) (2 ^ (rows % 64) - 1))

row_bit-beyond : (xs : List ℕ) (row : ℕ) → length xs ≤ row / 64 → row_bit xs row ≡ false
row_bit-beyond xs row h = rw (get_or-beyond xs (row / 64) 0 h) (bit-zero (row % 64))

-- The last word keeps the bits of the rows that there are, and no other word changes.
mask_words-row :
    (xs : List ℕ) (last rows row : ℕ)
    → length xs ≡ word_count rows
    → last ≡ length xs - 1
    → (rows % 64 == 0) ≡ false
    → row_bit (mask_words xs last rows) row ≡ (row_bit xs row && ltb row rows)
mask_words-row xs last rows row h at_end partial = elim (Bool-cases (row / 64 == last)) [
  | inl same ↦
      let e : row / 64 ≡ last = ground arith in
      rw
        (
          e,
          get_or-set_self xs last (bit_and (get_or xs last 0) (2 ^ (rows % 64) - 1)) 0
              (ground arith),
          bit-bit_and (get_or xs last 0) (2 ^ (rows % 64) - 1) (row % 64),
          bit-low_mask (rows % 64) (row % 64),
        )
        (ground arith)
  | inr other ↦
      rw
        (get_or-set_ne xs last (row / 64) (bit_and (get_or xs last 0) (2 ^ (rows % 64) - 1)) 0
          (ground arith))
        (ground (arith, row_bit-beyond xs row))
]

HasShape-mask_tail : (rows : ℕ) (p : Planes) → HasShape rows p → HasShape rows (mask_tail p rows)
unfolding mask_tail
HasShape-mask_tail rows p h = elim (Bool-cases (rows % 64 == 0)) [
  | inl whole ↦ rw whole h
  | inr partial ↦ rw partial (record {
    positive = length-set p.positive _ _ ∙ h.positive;
    negative = length-set p.negative _ _ ∙ h.negative;
  })
]

row_bit-whole :
    (xs : List ℕ) (rows row : ℕ)
    → length xs ≡ word_count rows
    → (rows % 64 == 0) ≡ true
    → row_bit xs row ≡ (row_bit xs row && ltb row rows)
row_bit-whole xs rows row h whole = ground (arith, row_bit-beyond xs row)

-- Masking the tail keeps the rows that there are and clears all others.
pub row_state-mask_tail :
    (rows : ℕ) (p : Planes) (row : ℕ)
    → HasShape rows p
    → row_state (mask_tail p rows) row ≡ (if ltb row rows then row_state p row else unknown)
unfolding mask_tail
row_state-mask_tail rows p row h = elim (Bool-cases (rows % 64 == 0)) [
  | inl whole ↦ rw whole (
      ground (
        arith,
        row_bit-whole p.positive rows row h.positive whole,
        row_bit-whole p.negative rows row h.negative whole,
      ))
  | inr partial ↦ rw partial (
      ground (
        arith,
        mask_words-row p.positive (length p.positive - 1) rows row h.positive refl partial,
        mask_words-row p.negative (length p.positive - 1) rows row h.negative,
        h.positive,
        h.negative,
      ))
]

-- The operation returns planes of the right shape with the given value in each row, and with no
-- bit beyond the last row.
pub record Writes (rows : ℕ) (result : Option Planes) (value : ℕ → State) : Type 0 where
  pub out : Planes
  pub returns : result ≡ some out
  pub shape : HasShape rows out
  pub values : (row : ℕ) → row_state out row ≡ (if ltb row rows then value row else unknown)

masked-Writes :
    (rows : ℕ) (p : Planes) (value : ℕ → State) {result : Option Planes}
    → HasShape rows p
    → ((row : ℕ) → row < rows → row_state p row ≡ value row)
    → result ≡ some (mask_tail p rows)
    → Writes rows result value
masked-Writes rows p value h v e = record {
  out = mask_tail p rows;
  returns = e;
  shape = HasShape-mask_tail rows p h;
  values = λ row. row_state-mask_tail rows p row h ∙ elim (Bool-cases (ltb row rows)) [
    | inl inside ↦ rw inside (v row (ground arith))
    | inr outside ↦ rw outside
  ];
}

HasShape-combine :
    (rows : ℕ) (f : ℕ → ℕ → ℕ → ℕ → Word) (l r : Planes)
    → HasShape rows (combine (word_count rows) f l r)
unfolding combine
HasShape-combine rows f l r = record {
  positive = length-tabulate _ _;
  negative = length-tabulate _ _;
}

-- The word that holds a row of a combined plane.
combine-word :
    (rows row : ℕ) (f : ℕ → ℕ → ℕ → ℕ → Word) (l r : Planes)
    → row < rows
    → let i = row / 64 in
      let w =
        f
          (get_or l.positive i 0)
          (get_or l.negative i 0)
          (get_or r.positive i 0)
          (get_or r.negative i 0) in
      row_state (combine (word_count rows) f l r) row
      ≡ record { positive = bit w.positive (row % 64); negative = bit w.negative (row % 64) }
unfolding combine
combine-word rows row f l r h = rw (
  get_or-tabulate {A = ℕ} (word_count rows) _ (row / 64) 0 (omega arith),
  get_or-tabulate {A = ℕ} (word_count rows) _ (row / 64) 0 (omega arith),
)

module _ (rows : ℕ) {dst left right : Planes} (hd : HasShape rows dst) (hl : HasShape rows left)
    (hr : HasShape rows right) where
  -- On planes of the shape of the row count, `And` returns planes of that shape: each row is the
  -- conjunction of the rows of the operands, and no bit beyond the last row is set.
  pub and_planes-Writes :
      Writes rows
        (and_planes dst left right rows)
        (λ row. and_state (row_state left row) (row_state right row))
  unfolding and_planes
  and_planes-Writes =
      masked-Writes rows (combine (word_count rows) and_word left right) _
        (HasShape-combine rows and_word left right)
        (λ row h. combine-word rows row and_word left right h ∙ simp (bit-bit_and, bit-bit_or))
        (rw (
          require_shape-HasShape rows dst hd,
          require_shape-HasShape rows left hl,
          require_shape-HasShape rows right hr,
        ))

  -- On planes of the shape of the row count, `Or` returns planes of that shape: each row is the
  -- disjunction of the rows of the operands, and no bit beyond the last row is set.
  pub or_planes-Writes :
      Writes rows
        (or_planes dst left right rows)
        (λ row. or_state (row_state left row) (row_state right row))
  unfolding or_planes
  or_planes-Writes =
      masked-Writes rows (combine (word_count rows) or_word left right) _
        (HasShape-combine rows or_word left right)
        (λ row h. combine-word rows row or_word left right h ∙ simp (bit-bit_and, bit-bit_or))
        (rw (
          require_shape-HasShape rows dst hd,
          require_shape-HasShape rows left hl,
          require_shape-HasShape rows right hr,
        ))

module _ (rows : ℕ) {dst src : Planes} (hd : HasShape rows dst) where
  -- On planes of the shape of the row count, `Not` returns planes of that shape: each row exchanges
  -- what speaks for and against the row of the source, and no bit beyond the last row is set.
  pub not_planes-Writes :
      HasShape rows src
      → Writes rows (not_planes dst src rows) (λ row. not_state (row_state src row))
  unfolding not_planes
  not_planes-Writes hs =
      masked-Writes rows (combine (word_count rows) (λ a b _ _. not_word a b) src src) _
        (HasShape-combine rows _ src src)
        (λ row h. combine-word rows row (λ a b _ _. not_word a b) src src h)
        (rw (require_shape-HasShape rows dst hd, require_shape-HasShape rows src hs))

constant : Bool → ℕ → Planes
constant value words =
    if value
    then record { positive = replicate words (complement 64 0); negative = replicate words 0 }
    else record { positive = replicate words 0; negative = replicate words (complement 64 0) }

HasShape-constant : (value : Bool) (rows : ℕ) → HasShape rows (constant value (word_count rows))
unfolding constant
HasShape-constant true rows = record {
  positive = length-replicate _ _;
  negative = length-replicate _ _;
}
HasShape-constant false rows = record {
  positive = length-replicate _ _;
  negative = length-replicate _ _;
}

row_bit-ones :
    (rows row : ℕ) → row < rows → row_bit (replicate (word_count rows) (complement 64 0)) row ≡ true
row_bit-ones rows row h =
    rw (get_or-replicate (word_count rows) (row / 64) (complement 64 0) 0 (omega arith))
      (bit-complement 64 0 (row % 64) (omega arith) (omega arith) ∙ ap not (bit-zero (row % 64)))

row_bit-zeros : (rows row : ℕ) → row < rows → row_bit (replicate (word_count rows) 0) row ≡ false
row_bit-zeros rows row h =
    rw (get_or-replicate {A = ℕ} (word_count rows) (row / 64) 0 0 (omega arith))
      (bit-zero (row % 64))

row_state-constant :
    (value : Bool) (rows row : ℕ)
    → row < rows
    → row_state (constant value (word_count rows)) row ≡ exactly value
unfolding constant
row_state-constant true rows row h = cc (row_bit-ones rows row h, row_bit-zeros rows row h)
row_state-constant false rows row h = cc (row_bit-ones rows row h, row_bit-zeros rows row h)

-- On planes of the shape of the row count, `Set` returns planes of that shape: each row is exactly
-- the value, and no bit beyond the last row is set.
pub set_all-Writes :
    (rows : ℕ) (dst : Planes) (value : Bool)
    → HasShape rows dst
    → Writes rows (set_all dst value rows) (λ _. exactly value)
unfolding set_all constant
set_all-Writes rows dst value h =
    masked-Writes rows (constant value (word_count rows)) _ (HasShape-constant value rows)
      (row_state-constant value rows) (rw (require_shape-HasShape rows dst h))
