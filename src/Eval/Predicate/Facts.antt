-- ===== src/Eval/Predicate/Facts.antt =====
-- What `evalPredicate` of internal/eval/predicate.go answers for each request, in terms of what the
-- accessors of internal/eval/batch.go answer and of the literals of the program.
use verifoxx.Common.{
  ℕ, ◌<◌, ◌≡◌, refl, sym, ap, ◌∙◌, Bool, true, false, not, ◌||◌, some, List, [], ◌∷◌, arith, ◌==◌,
  if◌then◌else◌, get_or,
}
use verifoxx.Common.Int.{ℤ, pos, negsuc, eqb_ℤ, ltb_ℤ}
use verifoxx.Truth.Planes.Rows.{row_bit}
use verifoxx.Program.{Program, Opcode, ValueKind, FieldIndex}
use verifoxx.Program.Symbols.{lookup_field}
use verifoxx.Eval.Batch.{
  Batch, valid_physical_range, present, batch_symbol, batch_integer, batch_boolean, batch_timestamp,
}
use verifoxx.Eval.Batch.Columns.{
  word_column-present, word_column-batch_boolean, row_column-batch_values,
}
use verifoxx.Eval.Leaf.{Leaf}
use verifoxx.Eval.Leaf.Rows.{HasLeafShape}
use verifoxx.Eval.Predicate.{
  PredicateValue, Columns, operand, compare_int, read_kind, read_symbols, read_integers,
  read_booleans, read_timestamps, eval_predicate,
}
use verifoxx.Eval.Predicate.Literals.{AreOperands, operand_values-AreOperands}
use verifoxx.Eval.Predicate.Rows.{leaf_state}
use verifoxx.Eval.Predicate.Guards.{AreWords, cut_columns-reads}
use verifoxx.Eval.Predicate.Meaning.{
  holds, holds_any, found, AnswersFact, eval_predicate-AnswersFact,
}

-- The relation that an opcode names, from `<` and equality.
abbrev pub relates : Opcode → ℤ → ℤ → Bool
relates Opcode.equal a b = eqb_ℤ a b
relates Opcode.not_equal a b = not (eqb_ℤ a b)
relates Opcode.less a b = ltb_ℤ a b
relates Opcode.less_equal a b = ltb_ℤ a b || eqb_ℤ a b
relates Opcode.greater a b = ltb_ℤ b a
relates Opcode.greater_equal a b = ltb_ℤ b a || eqb_ℤ a b
relates _ a b = false

at_most-ltb : (a b : ℤ) → not (ltb_ℤ b a) ≡ (ltb_ℤ a b || eqb_ℤ a b)
at_most-ltb (pos a) (pos b) = ground arith
at_most-ltb (pos a) (negsuc b) = refl
at_most-ltb (negsuc a) (pos b) = refl
at_most-ltb (negsuc a) (negsuc b) = ground arith

at_least-ltb : (a b : ℤ) → not (ltb_ℤ a b) ≡ (ltb_ℤ b a || eqb_ℤ a b)
at_least-ltb (pos a) (pos b) = ground arith
at_least-ltb (pos a) (negsuc b) = refl
at_least-ltb (negsuc a) (pos b) = refl
at_least-ltb (negsuc a) (negsuc b) = ground arith

compare_int-relates : (opcode : Opcode) (a b : ℤ) → compare_int opcode a b ≡ relates opcode a b
compare_int-relates opcode a b = elim opcode as (λ o. compare_int o a b ≡ relates o a b) [
  | Opcode.less_equal ↦ at_most-ltb a b
  | Opcode.greater_equal ↦ at_least-ltb a b
  | _ ↦ refl
]

-- Whether the fact that the accessor of the kind gives has the relation of the opcode to a value.
abbrev pub fact_holds : Batch → ℕ → Opcode → ValueKind → PredicateValue → ℕ → Bool
fact_holds b column opcode ValueKind.symbol value r =
    let same = (batch_symbol b column r).0 == value.symbol_id in
    elim opcode [ Opcode.equal ↦ same | _ ↦ not same ]
fact_holds b column opcode ValueKind.integer value r =
    relates opcode (batch_integer b column r).0 value.integer
fact_holds b column opcode ValueKind.timestamp value r =
    relates opcode (batch_timestamp b column r).0 value.timestamp
fact_holds b column opcode ValueKind.boolean value r =
    let same = if value.boolean then batch_boolean b column r else not (batch_boolean b column r) in
    elim opcode [ Opcode.not_equal ↦ not same | _ ↦ same ]
fact_holds b column opcode _ value r = false

abbrev pub fact_among : Batch → ℕ → ValueKind → List PredicateValue → ℕ → Bool
fact_among b column kind [] r = false
fact_among b column kind (value ∷ values) r =
    fact_holds b column Opcode.equal kind value r || fact_among b column kind values r

-- For `in`, whether the fact equals one of the values.
abbrev pub fact_found : Batch → ℕ → Opcode → ValueKind → List PredicateValue → ℕ → Bool
fact_found b column Opcode.within kind values r = fact_among b column kind values r
fact_found b column opcode kind values r = fact_holds b column opcode kind (operand values) r

module _ (b : Batch) (column r : ℕ) (c : Columns) (valid : valid_physical_range b ≡ true)
    (inside : r < b.rows) where
  -- The column of the kind was cut.
  abbrev IsCut : ValueKind → Type 0
  IsCut kind =
      (read_symbols b kind column ≡ some c.symbols)
      × (read_integers b kind column ≡ some c.integers)
      × (read_booleans b kind column ≡ some c.booleans)
      × (read_timestamps b kind column ≡ some c.timestamps)

  holds-fact_holds :
      (opcode : Opcode) (kind : ValueKind) (value : PredicateValue)
      → IsCut kind
      → holds opcode kind value c r ≡ fact_holds b column opcode kind value r
  holds-fact_holds opcode ValueKind.symbol value (symbols, _, _, _) =
      ap
        (λ x. elim opcode [
          | Opcode.equal ↦ x.0 == value.symbol_id
          | _ ↦ not (x.0 == value.symbol_id)
        ])
        (sym ((row_column-batch_values b column r c.symbols [] [] valid inside).0 symbols))
  holds-fact_holds opcode ValueKind.integer value (_, integers, _, _) =
      rw ((row_column-batch_values b column r [] c.integers [] valid inside).1 integers)
        (compare_int-relates opcode (get_or c.integers r (pos 0)) value.integer)
  holds-fact_holds opcode ValueKind.timestamp value (_, _, _, timestamps) =
      rw ((row_column-batch_values b column r [] [] c.timestamps valid inside).2 timestamps)
        (compare_int-relates opcode (get_or c.timestamps r (pos 0)) value.timestamp)
  holds-fact_holds opcode ValueKind.boolean value (_, _, booleans, _) =
      ap
        (λ x.
          let same = if value.boolean then x else not x in
          elim opcode [ Opcode.not_equal ↦ not same | _ ↦ same ])
        (word_column-batch_boolean b column r c.booleans valid inside booleans)
  holds-fact_holds opcode ValueKind.invalid value cut = refl
  holds-fact_holds opcode ValueKind.presence value cut = refl

  holds_any-fact_among :
      (kind : ValueKind) (values : List PredicateValue)
      → IsCut kind
      → holds_any kind values c r ≡ fact_among b column kind values r
  holds_any-fact_among kind [] cut = refl
  holds_any-fact_among kind (value ∷ values) cut =
      rw (holds-fact_holds Opcode.equal kind value cut, holds_any-fact_among kind values cut)

  -- What the leaf holds depends on the fact alone.
  found-fact_found :
      (opcode : Opcode) (kind : ValueKind) (values : List PredicateValue) (here : Bool)
      → IsCut (read_kind opcode values kind)
      → leaf_state opcode here (found opcode kind values c r)
        ≡ leaf_state opcode here (fact_found b column opcode kind values r)
  found-fact_found Opcode.exists kind values here cut = refl
  found-fact_found Opcode.defined kind values here cut = refl
  found-fact_found Opcode.within kind [] here cut = refl
  found-fact_found Opcode.within kind (value ∷ values) here cut =
      ap (leaf_state Opcode.within here) (holds_any-fact_among kind (value ∷ values) cut)
  found-fact_found opcode kind values here cut =
      ap (leaf_state opcode here) (holds-fact_holds opcode kind (operand values) cut)

lookup_field-positive :
    (s : FieldIndex) (field : ℕ) (found : ValueKind × ℕ)
    → lookup_field s field ≡ some found
    → 0 < field
unfolding lookup_field
lookup_field-positive s field found h = ground arith

-- When evaluation of a predicate returns, on a batch with a valid range whose Boolean column holds
-- 64-bit words, the field of its instruction has a kind and a column, its operands are literals of
-- that kind, and each request holds the answer for its fact: where the fact is present, whether it
-- has the relation of the opcode to the operand, or for `in` equals one of them, and otherwise the
-- reason `missing`, unless the predicate asks for presence itself. Presence and fact are those that
-- the accessors of the batch answer for the field and the request.
pub eval_predicate-AnswersRequests :
    (dst out : Leaf) (b : Batch) (p : Program) (row : ℕ)
    → AreWords b.boolean_values
    → valid_physical_range b ≡ true
    → eval_predicate dst b p row ≡ some out
    → (kind : ValueKind) × (column : ℕ) × (values : List PredicateValue) × (lookup_field
          p.field_index
          (get_or p.fields row 0)
        ≡ some (kind, column))
      × AreOperands p (get_or p.opcodes row Opcode.invalid) kind row values
      × HasLeafShape b.rows out
      × ((r : ℕ)
          → r < b.rows
          → AnswersFact b.rows out
              (get_or p.opcodes row Opcode.invalid)
              (present b (get_or p.fields row 0) r)
              (fact_found b column (get_or p.opcodes row Opcode.invalid) kind values r)
              r)
eval_predicate-AnswersRequests dst out b p row ws valid h =
    let opcode = get_or p.opcodes row Opcode.invalid in
    let field = get_or p.fields row 0 in
    let (kind, values, c, f, shape, answers) = eval_predicate-AnswersFact dst out b p row ws h in
    let (presence, symbols, integers, booleans, timestamps) =
      cut_columns-reads b (read_kind opcode values kind) field f.column c f.cut in
    (
      kind,
      f.column,
      values,
      f.field,
      operand_values-AreOperands p opcode kind row values f.operands,
      shape,
      λ r lt.
          let a = answers r lt in
          let here =
            word_column-present b field r c.presence valid
              (lookup_field-positive p.field_index field (kind, f.column) f.field) lt presence in
          rw (← here) (record {
            state =
                a.state
                ∙ found-fact_found b f.column r c valid lt opcode kind values (row_bit c.presence r)
                    (symbols, integers, booleans, timestamps);
            reasons = a.reasons;
          }),
    )
