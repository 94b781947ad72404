-- ===== src/Eval/Batch/Columns.antt =====
-- The columns that evaluation cuts out of a batch, beside the accessors of internal/eval/batch.go,
-- which read one request at a time.
use verifoxx.Common.{
  get_or-drop, get_or-take, ℕ, ◌+◌, ◌-◌, ◌*◌, ◌/◌, ◌%◌, ◌<◌, ◌≡◌, sym, ap, ◌∙◌, true, none, some,
  List, ltb, if◌then◌else◌, length, get_or, take, drop, arith, some_inj, inl, inr, Bool-cases,
}
use verifoxx.Words.{bit, test_bit}
use verifoxx.Truth.Planes.Rows.{row_bit}
use verifoxx.Eval.Batch.{
  Batch, source_rows, source_words, word_base, batch_words, valid_physical_range, row_column,
  word_column, present, row_value, batch_boolean, batch_symbol, batch_integer, batch_timestamp,
}
use verifoxx.Common.Int.{ℤ, pos}

-- A column that was cut holds the elements from its start on.
cut-get_or {ℓ} :
    {A : Type ℓ} (xs cut : List A) (start n i : ℕ) (d : A)
    → (if ltb (length xs) (start + n) then none else some (take n (drop start xs))) ≡ some cut
    → i < n
    → (get_or cut i d ≡ get_or xs (start + i) d) × (start + i < length xs)
cut-get_or xs cut start n i d h lt = elim (Bool-cases (ltb (length xs) (start + n))) [
  | inl short ↦ cc (sym (rw short at h))
  | inr long ↦
      let same : take n (drop start xs) ≡ cut = some_inj (rw long at h) in
      (rw (← same) (get_or-take n (drop start xs) i d lt ∙ get_or-drop start xs i d), ground arith)
]

-- A column of presence bits that was cut from a batch with a valid range holds, for each request,
-- what `Present` answers.
pub word_column-present :
    (b : Batch) (field row : ℕ) (cut : List ℕ)
    → valid_physical_range b ≡ true
    → 0 < field
    → row < b.rows
    → word_column b b.presence_masks (field - 1) ≡ some cut
    → row_bit cut row ≡ present b field row
unfolding present
word_column-present b field row cut valid some_field lt h =
    let word = (field - 1) * source_words b + word_base b + row / 64 in
    let (e, inside) =
      cut-get_or b.presence_masks cut ((field - 1) * source_words b + word_base b) (batch_words b)
        (row / 64) 0 h (omega arith) in
    ap (λ w. bit w (row % 64)) e
    ∙ ground (arith, valid, test_bit (get_or b.presence_masks word 0) (row % 64))

-- A Boolean column that was cut from a batch with a valid range holds, for each request, what
-- `Boolean` answers.
pub word_column-batch_boolean :
    (b : Batch) (column row : ℕ) (cut : List ℕ)
    → valid_physical_range b ≡ true
    → row < b.rows
    → word_column b b.boolean_values column ≡ some cut
    → row_bit cut row ≡ batch_boolean b column row
unfolding batch_boolean
word_column-batch_boolean b column row cut valid lt h =
    let word = column * source_words b + word_base b + row / 64 in
    let (e, inside) =
      cut-get_or b.boolean_values cut (column * source_words b + word_base b) (batch_words b)
        (row / 64) 0 h (omega arith) in
    ap (λ w. bit w (row % 64)) e
    ∙ ground (arith, valid, test_bit (get_or b.boolean_values word 0) (row % 64))

row_column-row_value {ℓ} :
    {A : Type ℓ} (b : Batch) (values cut : List A) (d : A) (column row : ℕ)
    → valid_physical_range b ≡ true
    → row < b.rows
    → row_column b values column ≡ some cut
    → row_value b values d column row ≡ (get_or cut row d, true)
unfolding row_value
row_column-row_value b values cut d column row valid lt h =
    let (e, inside) =
      cut-get_or values cut (column * source_rows b + b.row_base) b.rows row d h lt in
    rw e (ground (arith, valid))

-- A column of symbols, integers or timestamps that was cut from a batch with a valid range holds,
-- for each request, what `Symbol`, `Integer` and `Timestamp` answer, each for its own column, and
-- they answer it as found.
pub row_column-batch_values :
    (b : Batch) (column row : ℕ) (symbols : List ℕ) (integers timestamps : List ℤ)
    → valid_physical_range b ≡ true
    → row < b.rows
    → (row_column b b.symbol_values column ≡ some symbols
        → batch_symbol b column row ≡ (get_or symbols row 0, true))
      × (row_column b b.integer_values column ≡ some integers
          → batch_integer b column row ≡ (get_or integers row (pos 0), true))
      × (row_column b b.timestamp_values column ≡ some timestamps
          → batch_timestamp b column row ≡ (get_or timestamps row (pos 0), true))
unfolding batch_symbol batch_integer batch_timestamp
row_column-batch_values b column row symbols integers timestamps valid lt = (
  row_column-row_value b b.symbol_values symbols 0 column row valid lt,
  row_column-row_value b b.integer_values integers (pos 0) column row valid lt,
  row_column-row_value b b.timestamp_values timestamps (pos 0) column row valid lt,
)
