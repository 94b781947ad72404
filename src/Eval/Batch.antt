-- ===== src/Eval/Batch.antt =====
-- internal/eval/batch.go and evidence.go: request facts and evidence in columns. A range view reads
-- the columns of its source batch from `row_base` on, `row_stride` rows to a column.
pub mod Columns
use verifoxx.Common.{
  ℕ, ◌+◌, ◌-◌, ◌*◌, ◌/◌, ◌%◌, ◌^◌, bit_and, Bool, true, false, ◌&&◌, ◌||◌, not, Option, none, some,
  List, ltb, leb, ◌==◌, if◌then◌else◌, length, get_or, take, drop,
}
use verifoxx.Common.Int.{ℤ, pos}

pub record EvidenceBatch : Type 0 where
  pub ids : List ℕ
  pub kinds : List ℕ
  pub states : List ℕ
  pub subjects : List ℕ
  pub scopes : List ℕ
  pub reviewers : List ℕ
  pub timings : List ℕ
  pub timestamps : List ℤ

pub record Batch : Type 0 where
  pub symbol_values : List ℕ
  pub integer_values : List ℤ
  pub timestamp_values : List ℤ
  pub boolean_values : List ℕ
  pub presence_masks : List ℕ
  pub request_ids : List ℕ
  pub evidence_offsets : List ℕ
  pub evidence_refs : List ℕ
  pub evidence : EvidenceBatch
  pub rows : ℕ
  pub row_base : ℕ
  pub row_stride : ℕ

abbrev pub source_rows : Batch → ℕ
source_rows b = if b.row_stride == 0 then b.rows else b.row_stride

abbrev pub source_words : Batch → ℕ
source_words b = (source_rows b + 63) / 64

abbrev pub word_base : Batch → ℕ
word_base b = b.row_base / 64

abbrev pub batch_words : Batch → ℕ
batch_words b = (b.rows + 63) / 64

unfoldable pub valid_physical_range : Batch → Bool
valid_physical_range b =
    if not (b.row_base % 64 == 0) || (b.row_stride == 0 && not (b.row_base == 0))
    then false
    else leb (b.row_base + b.rows) (source_rows b)

-- `batchRowColumn`
abbrev pub row_column {ℓ} : {A : Type ℓ} → Batch → List A → ℕ → Option (List A)
row_column b values column =
    let start = column * source_rows b + b.row_base in
    if ltb (length values) (start + b.rows) then none else some (take b.rows (drop start values))

-- `batchWordColumn`
abbrev pub word_column : Batch → List ℕ → ℕ → Option (List ℕ)
word_column b values column =
    let start = column * source_words b + word_base b in
    if ltb (length values) (start + batch_words b)
    then none
    else some (take (batch_words b) (drop start values))

-- `Present`
pub present : Batch → ℕ → ℕ → Bool
present b field row =
    let word = (field - 1) * source_words b + word_base b + row / 64 in
    if field == 0 || leb b.rows row || not (valid_physical_range b)
    then false
    else if leb (length b.presence_masks) word
    then false
    else not (bit_and (get_or b.presence_masks word 0) (2 ^ (row % 64)) == 0)

-- `Symbol`, `Integer` and `Timestamp`, over the column that they read.
pub row_value {ℓ} : {A : Type ℓ} → Batch → List A → A → ℕ → ℕ → A × Bool
row_value b values zero_value column row =
    let i = column * source_rows b + b.row_base + row in
    if leb b.rows row || not (valid_physical_range b)
    then (zero_value, false)
    else if leb (length values) i
    then (zero_value, false)
    else (get_or values i zero_value, true)

pub batch_symbol : Batch → ℕ → ℕ → ℕ × Bool
batch_symbol b = row_value b b.symbol_values 0

pub batch_integer : Batch → ℕ → ℕ → ℤ × Bool
batch_integer b = row_value b b.integer_values (pos 0)

pub batch_timestamp : Batch → ℕ → ℕ → ℤ × Bool
batch_timestamp b = row_value b b.timestamp_values (pos 0)

-- `Boolean`
pub batch_boolean : Batch → ℕ → ℕ → Bool
batch_boolean b column row =
    let word = column * source_words b + word_base b + row / 64 in
    if leb b.rows row || not (valid_physical_range b)
    then false
    else if leb (length b.boolean_values) word
    then false
    else not (bit_and (get_or b.boolean_values word 0) (2 ^ (row % 64)) == 0)

-- `EvidenceRange`
pub evidence_range : Batch → ℕ → Option (ℕ × ℕ)
evidence_range b row =
    let start = get_or b.evidence_offsets row 0 in
    let end = get_or b.evidence_offsets (row + 1) 0 in
    if leb b.rows row || leb (length b.evidence_offsets) (row + 1)
    then none
    else if ltb end start || ltb (length b.evidence_refs) end
    then none
    else some (start, end)
