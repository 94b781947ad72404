-- ===== src/Eval/Predicate.antt =====
-- internal/eval/predicate.go: predicates over the fact columns, 64 requests to a word.
-- `none` is a panic. The guards stand before the outputs are cleared, as in the source. The columns
-- are cut once, before the loop over the words, which cuts them for each word: a batch whose range
-- exceeds its columns panics here also when it has no word.
pub mod Rows
pub mod Guards
pub mod Meaning
pub mod Literals
pub mod Facts
use verifoxx.Common.{
  ℕ, zero, suc, ◌+◌, ◌-◌, ◌*◌, ◌/◌, ◌%◌, ◌^◌, bit_and, bit_or, Bool, true, false, ◌&&◌, ◌||◌, not,
  Option, none, some, List, [], ◌∷◌, ◌++◌, ltb, leb, ◌==◌, if◌then◌else◌, length, get_or, take,
  drop, tabulate, replicate, ◌>>=◌, ◌>>◌, require,
}
use verifoxx.Common.Int.{ℤ, pos, eqb_ℤ, ltb_ℤ}
use verifoxx.Words.{complement, and_not}
use verifoxx.Truth.Planes.{Planes, word_count}
use verifoxx.Truth.Reason.{reason_count}
use verifoxx.Program.{Program, Opcode, ValueKind, FieldIndex, kind_valid, same_kind}
use verifoxx.Program.Symbols.{symbol, lookup_field}
use verifoxx.Eval.Batch.{Batch, source_rows, source_words, row_column, word_column}
use verifoxx.Eval.Leaf.{Leaf, ReasonPlanes, reset_leaf_outputs, leaf_word_mask, set_bit}

pub record PredicateValue : Type 0 where
  pub integer : ℤ
  pub timestamp : ℤ
  pub symbol_id : ℕ
  pub boolean : Bool

abbrev pub no_value : PredicateValue
no_value = record { integer = pos 0; timestamp = pos 0; symbol_id = 0; boolean = false }

-- The `switch` of `programPredicateValue`, for a reference that is not zero.
unfoldable pub referenced_value : Program → ℕ → ValueKind → Option PredicateValue
referenced_value p ref ValueKind.symbol = do
  require (not (ltb p.program_symbol_count ref))
  bytes ← symbol p ref
  some (record no_value { symbol_id = ref })
referenced_value p ref ValueKind.integer = do
  require (ltb (ref - 1) (length p.integer_values))
  some (record no_value { integer = get_or p.integer_values (ref - 1) (pos 0) })
referenced_value p ref ValueKind.boolean = do
  require (ltb (ref - 1) (length p.boolean_values) && leb (get_or p.boolean_values (ref - 1) 0) 1)
  some (record no_value { boolean = not (get_or p.boolean_values (ref - 1) 0 == 0) })
referenced_value p ref ValueKind.timestamp = do
  require (ltb (ref - 1) (length p.timestamp_values))
  some (record no_value { timestamp = get_or p.timestamp_values (ref - 1) (pos 0) })
referenced_value p ref _ = none

-- `programPredicateValue`
unfoldable pub program_predicate_value : Program → ℕ → ValueKind → Option PredicateValue
unfolding referenced_value
program_predicate_value p id want = do
  let row = id - 1
  require (
      not (id == 0)
      && ltb row (length p.value_kinds)
      && ltb row (length p.value_refs)
      && same_kind (get_or p.value_kinds row ValueKind.invalid) want)
  require (not (get_or p.value_refs row 0 == 0))
  referenced_value p (get_or p.value_refs row 0) want

abbrev pub ordered_predicate : Opcode → Bool
ordered_predicate Opcode.less = true
ordered_predicate Opcode.less_equal = true
ordered_predicate Opcode.greater = true
ordered_predicate Opcode.greater_equal = true
ordered_predicate _ = false

-- `compareInt64`; no other opcode reaches it.
abbrev pub compare_int : Opcode → ℤ → ℤ → Bool
compare_int Opcode.equal a b = eqb_ℤ a b
compare_int Opcode.not_equal a b = not (eqb_ℤ a b)
compare_int Opcode.less a b = ltb_ℤ a b
compare_int Opcode.less_equal a b = not (ltb_ℤ b a)
compare_int Opcode.greater a b = ltb_ℤ b a
compare_int Opcode.greater_equal a b = not (ltb_ℤ a b)
compare_int _ a b = false

-- The columns of the field, cut out for this batch; only that of the field's kind is read.
pub record Columns : Type 0 where
  pub presence : List ℕ
  pub symbols : List ℕ
  pub integers : List ℤ
  pub booleans : List ℕ
  pub timestamps : List ℤ

-- `if test(request) { word |= 1 << (request & 63) }` for the requests from `request` on, `left` of
-- them.
unfoldable pub gather : (ℕ → Bool) → ℕ → ℕ → ℕ → ℕ
gather test zero request acc = acc
gather test (suc left) request acc =
    gather test left (request + 1) (if test request then bit_or acc (2 ^ (request % 64)) else acc)

-- The matches of one word: of its requests below the row count, or the word of a Boolean column.
unfoldable pub word_matches : (ℕ → Bool) → ℕ → ℕ → ℕ
word_matches test rows word =
    let start = word * 64 in
    let end = if ltb (start + 64) rows then start + 64 else rows in
    gather test (end - start) start 0

-- Whether a request matches the value of a predicate other than `in`.
abbrev pub request_matches : Opcode → ValueKind → PredicateValue → Columns → ℕ → Bool
request_matches opcode ValueKind.symbol value c request =
    let equal = get_or c.symbols request 0 == value.symbol_id in
    elim opcode [ Opcode.equal ↦ equal | _ ↦ not equal ]
request_matches opcode ValueKind.integer value c request =
    compare_int opcode (get_or c.integers request (pos 0)) value.integer
request_matches opcode ValueKind.timestamp value c request =
    compare_int opcode (get_or c.timestamps request (pos 0)) value.timestamp
request_matches opcode _ value c request = false

-- The word of a Boolean column that equals the value, or differs from it.
abbrev pub boolean_word : Opcode → Bool → ℕ → ℕ
boolean_word opcode value got =
    let same = if value then got else complement 64 got in
    elim opcode [ Opcode.not_equal ↦ complement 64 same | _ ↦ same ]

unfoldable pub matches : Opcode → ValueKind → PredicateValue → Columns → ℕ → ℕ → ℕ
matches opcode ValueKind.boolean value c rows word =
    boolean_word opcode value.boolean (get_or c.booleans word 0)
matches opcode kind value c rows word = word_matches (request_matches opcode kind value c) rows word

-- `fillInMatches`, as the word that the loop over the list leaves: each value adds its matches.
pub in_matches : ValueKind → List PredicateValue → Columns → ℕ → ℕ → ℕ
in_matches kind [] c rows word = 0
in_matches kind (value ∷ values) c rows word =
    bit_or (matches Opcode.equal kind value c rows word) (in_matches kind values c rows word)

-- The words that one round of the last loop writes.
pub record LeafWord : Type 0 where
  pub positive : ℕ
  pub negative : ℕ
  pub missing : ℕ

abbrev pub leaf_word : Opcode → ℕ → ℕ → ℕ → LeafWord
leaf_word Opcode.defined valid present found = record {
  positive = present;
  negative = and_not valid present;
  missing = 0;
}
leaf_word Opcode.exists valid present found = record {
  positive = present;
  negative = 0;
  missing = and_not valid present;
}
leaf_word _ valid present found = record {
  positive = bit_and present found;
  negative = and_not present found;
  missing = and_not valid present;
}

-- The last loop, over words of matches; the missing plane is the first of the nine.
unfoldable pub write_leaf : Opcode → List ℕ → (ℕ → ℕ) → ℕ → Leaf
write_leaf opcode presence found rows =
    let words = word_count rows in
    let word : ℕ → LeafWord = λ i.
      let valid = leaf_word_mask i words rows in
      leaf_word opcode valid (bit_and (get_or presence i 0) valid) (found i) in
    record {
      truth = record {
        positive = tabulate words (λ i. (word i).positive);
        negative = tabulate words (λ i. (word i).negative);
      };
      reasons = record {
        words = tabulate words (λ i. (word i).missing) ++ replicate ((reason_count - 1) * words) 0;
      };
    }

-- The literals of an `in` list, from `start` on, `left` of them.
list_literals : Program → ValueKind → ℕ → ℕ → Option (List PredicateValue)
list_literals p kind zero start = some []
list_literals p kind (suc left) start = do
  value ← program_predicate_value p (get_or p.list_values start 0) kind
  rest ← list_literals p kind left (start + 1)
  some (value ∷ rest)

-- The `switch opcode` that reads the operand: one value, or the values of a list.
unfoldable pub operand_values : Program → Opcode → ValueKind → ℕ → Option (List PredicateValue)
unfolding list_literals
operand_values p Opcode.exists kind row = do require (get_or p.values row 0 == 0); some []
operand_values p Opcode.defined kind row = do require (get_or p.values row 0 == 0); some []
operand_values p Opcode.within kind row = do
  require (
      get_or p.values row 0 == 0
      && ltb row (length p.list_starts)
      && ltb row (length p.list_counts))
  require (leb (get_or p.list_starts row 0 + get_or p.list_counts row 0) (length p.list_values))
  list_literals p kind (get_or p.list_counts row 0) (get_or p.list_starts row 0)
operand_values p opcode kind row = do
  value ← program_predicate_value p (get_or p.values row 0) kind
  some (value ∷ [])

abbrev pub is_predicate : Opcode → Bool
is_predicate Opcode.equal = true
is_predicate Opcode.not_equal = true
is_predicate Opcode.within = true
is_predicate Opcode.exists = true
is_predicate Opcode.defined = true
is_predicate opcode = ordered_predicate opcode

-- The opcodes that fit the kind of the field.
abbrev pub opcode_fits : Opcode → ValueKind → Bool
opcode_fits Opcode.exists kind = true
opcode_fits Opcode.defined kind = true
opcode_fits opcode ValueKind.presence = false
opcode_fits opcode ValueKind.integer = true
opcode_fits opcode ValueKind.timestamp = true
opcode_fits opcode kind = not (ordered_predicate opcode)

-- `requireColumnLength` for the column that a predicate reads.
abbrev pub column_length_fits : Program → Batch → Opcode → ValueKind → Bool
column_length_fits p b Opcode.defined kind = true
column_length_fits p b opcode ValueKind.symbol =
    length b.symbol_values == p.field_index.counts ValueKind.symbol * source_rows b
column_length_fits p b opcode ValueKind.integer =
    length b.integer_values == p.field_index.counts ValueKind.integer * source_rows b
column_length_fits p b opcode ValueKind.boolean =
    length b.boolean_values == p.field_index.counts ValueKind.boolean * source_words b
column_length_fits p b opcode ValueKind.timestamp =
    length b.timestamp_values == p.field_index.counts ValueKind.timestamp * source_rows b
column_length_fits p b opcode kind = true

-- The columns of the values, each for the kind that reads it.
abbrev pub read_symbols : Batch → ValueKind → ℕ → Option (List ℕ)
read_symbols b ValueKind.symbol column = row_column b b.symbol_values column
read_symbols b kind column = some []

abbrev pub read_integers : Batch → ValueKind → ℕ → Option (List ℤ)
read_integers b ValueKind.integer column = row_column b b.integer_values column
read_integers b kind column = some []

abbrev pub read_booleans : Batch → ValueKind → ℕ → Option (List ℕ)
read_booleans b ValueKind.boolean column = word_column b b.boolean_values column
read_booleans b kind column = some []

abbrev pub read_timestamps : Batch → ValueKind → ℕ → Option (List ℤ)
read_timestamps b ValueKind.timestamp column = row_column b b.timestamp_values column
read_timestamps b kind column = some []

unfoldable pub cut_columns : Batch → ValueKind → ℕ → ℕ → Option Columns
cut_columns b kind field column = do
  presence ← word_column b b.presence_masks (field - 1)
  symbols ← read_symbols b kind column
  integers ← read_integers b kind column
  booleans ← read_booleans b kind column
  timestamps ← read_timestamps b kind column
  some (record {
    presence = presence;
    symbols = symbols;
    integers = integers;
    booleans = booleans;
    timestamps = timestamps;
  })

-- The value of a predicate with one operand.
abbrev pub operand : List PredicateValue → PredicateValue
operand [] = no_value
operand (value ∷ values) = value

-- The words of matches that the last loop reads.
abbrev pub found_words : Opcode → ValueKind → List PredicateValue → Columns → ℕ → ℕ → ℕ
found_words Opcode.within kind values c rows = in_matches kind values c rows
found_words opcode kind values c rows = matches opcode kind (operand values) c rows

-- The kind of the value column that is read; `exists`, `defined` and `in` with an empty list read the
-- presence alone.
abbrev pub read_kind : Opcode → List PredicateValue → ValueKind → ValueKind
read_kind Opcode.defined values kind = ValueKind.presence
read_kind Opcode.exists values kind = ValueKind.presence
read_kind Opcode.within [] kind = ValueKind.presence
read_kind opcode values kind = kind

-- The guards of `evalPredicate` and its operands, before the outputs are cleared.
unfoldable pub predicate_operands :
    Batch → Program → ℕ → Option ((ValueKind × ℕ) × List PredicateValue)
predicate_operands b p row = do
  let opcode = get_or p.opcodes row Opcode.invalid
  require (
      ltb row (length p.opcodes)
      && ltb row (length p.fields)
      && ltb row (length p.values)
      && is_predicate opcode)
  (kind, column) ← lookup_field p.field_index (get_or p.fields row 0)
  require (
      kind_valid kind
      && ltb column (p.field_index.counts kind)
      && length b.presence_masks == length p.field_index.kinds * source_words b)
  values ← operand_values p opcode kind row
  require (opcode_fits opcode kind && column_length_fits p b opcode kind)
  some ((kind, column), values)

-- `evalPredicate`, at the row of an instruction.
unfoldable pub eval_predicate : Leaf → Batch → Program → ℕ → Option Leaf
eval_predicate dst b p row = do
  let opcode = get_or p.opcodes row Opcode.invalid
  ((kind, column), values) ← predicate_operands b p row
  cleared ← reset_leaf_outputs dst b.rows
  columns ← cut_columns b (read_kind opcode values kind) (get_or p.fields row 0) column
  some (write_leaf opcode columns.presence (found_words opcode kind values columns b.rows) b.rows)
