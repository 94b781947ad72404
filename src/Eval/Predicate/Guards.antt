-- ===== src/Eval/Predicate/Guards.antt =====
-- The guards of internal/eval/predicate.go and what they look up.
use verifoxx.Common.{
  take, drop, ◌^◌, ℕ, zero, suc, ◌+◌, ◌-◌, ◌*◌, ◌<◌, ◌≡◌, sym, ap, ◌∙◌, ◌&&◌, some, List, [], ◌∷◌,
  arith, ltb, ◌==◌, length, get_or, require, >>=-eq-some, some_inj,
}
use verifoxx.Program.{Program, Opcode, ValueKind, kind_valid}
use verifoxx.Program.Symbols.{lookup_field}
use verifoxx.Eval.Batch.{Batch, source_words, word_column, word_base, batch_words}
use verifoxx.Eval.Leaf.{Leaf, reset_leaf_outputs}
use verifoxx.Eval.Predicate.{
  PredicateValue, Columns, found_words, operand_values, read_kind, cut_columns, read_symbols,
  read_integers, read_booleans, read_timestamps, write_leaf, eval_predicate, predicate_operands,
  is_predicate, opcode_fits, column_length_fits,
}

-- The elements of a column of words are words of 64 bits.
abbrev pub AreWords : List ℕ → Type 0
AreWords xs = (i : ℕ) → get_or xs i 0 < 2 ^ 64

AreWords-take : (n : ℕ) (xs : List ℕ) → AreWords xs → AreWords (take n xs)
AreWords-take zero xs h i = omega arith
AreWords-take (suc n) [] h i = omega arith
AreWords-take (suc n) (x ∷ xs) h zero = h 0
AreWords-take (suc n) (x ∷ xs) h (suc i) = AreWords-take n xs (λ j. h (suc j)) i

AreWords-drop : (n : ℕ) (xs : List ℕ) → AreWords xs → AreWords (drop n xs)
AreWords-drop zero xs h i = h i
AreWords-drop (suc n) [] h i = omega arith
AreWords-drop (suc n) (x ∷ xs) h i = AreWords-drop n xs (λ j. h (suc j)) i

-- The presence and the values of the fact of a request.
pub record FactColumns (b : Batch) (p : Program) (row : ℕ) (kind : ValueKind)
    (values : List PredicateValue) (c : Columns) : Type 0 where
  pub column : ℕ
  pub field : lookup_field p.field_index (get_or p.fields row 0) ≡ some (kind, column)
  pub operands : operand_values p (get_or p.opcodes row Opcode.invalid) kind row ≡ some values
  pub cut :
      cut_columns b
        (read_kind (get_or p.opcodes row Opcode.invalid) values kind)
        (get_or p.fields row 0)
        column
      ≡ some c

predicate_operands-parts :
    (b : Batch) (p : Program) (row : ℕ) (kind : ValueKind) (column : ℕ)
    (values : List PredicateValue)
    → predicate_operands b p row ≡ some ((kind, column), values)
    → (lookup_field p.field_index (get_or p.fields row 0) ≡ some (kind, column))
      × (operand_values p (get_or p.opcodes row Opcode.invalid) kind row ≡ some values)
unfolding predicate_operands
predicate_operands-parts b p row kind column values h =
    let opcode = get_or p.opcodes row Opcode.invalid in
    let (_, _, h₁) =
      >>=-eq-some
        (require (
          ltb row (length p.opcodes)
          && ltb row (length p.fields)
          && ltb row (length p.values)
          && is_predicate opcode))
        _ h in
    let ((k, c), field, h₂) =
      >>=-eq-some (lookup_field p.field_index (get_or p.fields row 0)) _ h₁ in
    let (_, _, h₃) =
      >>=-eq-some
        (require (
          kind_valid k
          && ltb c (p.field_index.counts k)
          && length b.presence_masks == length p.field_index.kinds * source_words b))
        _ h₂ in
    let (vs, operands, h₄) = >>=-eq-some (operand_values p opcode k row) _ h₃ in
    let (_, _, h₅) =
      >>=-eq-some (require (opcode_fits opcode k && column_length_fits p b opcode k)) _ h₄ in
    let same : ((k, c), vs) ≡ ((kind, column), values) = some_inj h₅ in
    (
      field ∙ ap (λ x. some x.0) same,
      ap (λ x. operand_values p opcode x.0.0 row) (sym same) ∙ operands ∙ ap (λ x. some x.1) same,
    )

pub eval_predicate-FactColumns :
    (dst out : Leaf) (b : Batch) (p : Program) (row : ℕ)
    → eval_predicate dst b p row ≡ some out
    → (kind : ValueKind) × (values : List PredicateValue) × (c : Columns) × FactColumns b p row kind
        values c
      × (out
          ≡ write_leaf
              (get_or p.opcodes row Opcode.invalid)
              c.presence
              (found_words (get_or p.opcodes row Opcode.invalid) kind values c b.rows)
              b.rows)
unfolding eval_predicate
eval_predicate-FactColumns dst out b p row h =
    let opcode = get_or p.opcodes row Opcode.invalid in
    let (((kind, column), values), ran, h₁) = >>=-eq-some (predicate_operands b p row) _ h in
    let (_, _, h₂) = >>=-eq-some (reset_leaf_outputs dst b.rows) _ h₁ in
    let (c, cut, h₃) =
      >>=-eq-some (cut_columns b (read_kind opcode values kind) (get_or p.fields row 0) column) _
        h₂ in
    let (field, operands) = predicate_operands-parts b p row kind column values ran in
    (
      kind,
      values,
      c,
      record { column = column; field = field; operands = operands; cut = cut },
      sym (some_inj h₃),
    )

pub read_booleans-AreWords :
    (b : Batch) (kind : ValueKind) (column : ℕ) (xs : List ℕ)
    → AreWords b.boolean_values
    → read_booleans b kind column ≡ some xs
    → AreWords xs
read_booleans-AreWords b ValueKind.boolean column xs ws h =
    let start = column * source_words b + word_base b in
    let taken = take (batch_words b) (drop start b.boolean_values) in
    let e : taken ≡ xs = ground arith in
    rw e at (
      AreWords-take (batch_words b) (drop start b.boolean_values)
        (AreWords-drop start b.boolean_values ws))
read_booleans-AreWords b ValueKind.invalid column xs ws h = rw (← some_inj h) (λ i. omega arith)
read_booleans-AreWords b ValueKind.symbol column xs ws h = rw (← some_inj h) (λ i. omega arith)
read_booleans-AreWords b ValueKind.integer column xs ws h = rw (← some_inj h) (λ i. omega arith)
read_booleans-AreWords b ValueKind.timestamp column xs ws h = rw (← some_inj h) (λ i. omega arith)
read_booleans-AreWords b ValueKind.presence column xs ws h = rw (← some_inj h) (λ i. omega arith)

pub cut_columns-reads :
    (b : Batch) (kind : ValueKind) (field column : ℕ) (c : Columns)
    → cut_columns b kind field column ≡ some c
    → (word_column b b.presence_masks (field - 1) ≡ some c.presence)
      × (read_symbols b kind column ≡ some c.symbols)
      × (read_integers b kind column ≡ some c.integers)
      × (read_booleans b kind column ≡ some c.booleans)
      × (read_timestamps b kind column ≡ some c.timestamps)
unfolding cut_columns
cut_columns-reads b kind field column c h =
    let (_, e₁, h₁) = >>=-eq-some (word_column b b.presence_masks (field - 1)) _ h in
    let (_, e₂, h₂) = >>=-eq-some (read_symbols b kind column) _ h₁ in
    let (_, e₃, h₃) = >>=-eq-some (read_integers b kind column) _ h₂ in
    let (_, e₄, h₄) = >>=-eq-some (read_booleans b kind column) _ h₃ in
    let (_, e₅, h₅) = >>=-eq-some (read_timestamps b kind column) _ h₄ in
    let same = some_inj h₅ in
    (
      e₁ ∙ ap (λ d. some d.presence) same,
      e₂ ∙ ap (λ d. some d.symbols) same,
      e₃ ∙ ap (λ d. some d.integers) same,
      e₄ ∙ ap (λ d. some d.booleans) same,
      e₅ ∙ ap (λ d. some d.timestamps) same,
    )
