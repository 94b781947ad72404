-- ===== src/Eval/Predicate/Meaning.antt =====
-- What `evalPredicate` of internal/eval/predicate.go answers for each request, from the fact of the
-- request and the values of the predicate.
use verifoxx.Common.{
  ◌^◌, ℕ, ◌/◌, ◌%◌, ◌<◌, ◌≡◌, ap, ◌∙◌, Bool, false, ◌&&◌, ◌||◌, not, some, List, [], ◌∷◌, arith,
  ◌==◌, if◌then◌else◌, get_or,
}
use verifoxx.Words.{bit, complement, bit-bit_or, bit-zero, bit-complement}
use verifoxx.Truth.Planes.Rows.{row_bit, row_state}
use verifoxx.Truth.Reason.{IsReason, missing}
use verifoxx.Program.{Program, Opcode, ValueKind}
use verifoxx.Eval.Batch.{Batch}
use verifoxx.Eval.Leaf.{Leaf}
use verifoxx.Eval.Leaf.Rows.{HasLeafShape, reason_at}
use verifoxx.Eval.Predicate.{
  PredicateValue, Columns, operand, boolean_word, request_matches, matches, in_matches, found_words,
  read_kind, write_leaf, eval_predicate,
}
use verifoxx.Eval.Predicate.Rows.{
  leaf_state, leaf_missing, word_matches-bit, write_leaf-HasLeafShape, write_leaf-row,
}
use verifoxx.Eval.Predicate.Guards.{
  AreWords, FactColumns, eval_predicate-FactColumns, read_booleans-AreWords, cut_columns-reads,
}

-- Whether the fact of a request has the relation of the opcode to the value.
abbrev pub holds : Opcode → ValueKind → PredicateValue → Columns → ℕ → Bool
holds opcode ValueKind.boolean value c r =
    let same = if value.boolean then row_bit c.booleans r else not (row_bit c.booleans r) in
    elim opcode [ Opcode.not_equal ↦ not same | _ ↦ same ]
holds opcode kind value c r = request_matches opcode kind value c r

-- Whether it equals one of the values.
abbrev pub holds_any : ValueKind → List PredicateValue → Columns → ℕ → Bool
holds_any kind [] c r = false
holds_any kind (value ∷ values) c r = holds Opcode.equal kind value c r || holds_any kind values c r

abbrev pub found : Opcode → ValueKind → List PredicateValue → Columns → ℕ → Bool
found Opcode.within kind values c r = holds_any kind values c r
found opcode kind values c r = holds opcode kind (operand values) c r

boolean_word-bit :
    (opcode : Opcode) (value : Bool) (got i : ℕ)
    → got < 2 ^ 64
    → i < 64
    → bit (boolean_word opcode value got) i ≡ (
        let same = if value then bit got i else not (bit got i) in
        elim opcode [ Opcode.not_equal ↦ not same | _ ↦ same ])
boolean_word-bit opcode value got i small h = ground (
  arith,
  bit-complement 64 got i small h,
  bit-complement 64 (complement 64 got) i (omega arith) h,
)

-- The bit of a request in a word of matches.
matches-bit :
    (opcode : Opcode) (kind : ValueKind) (value : PredicateValue) (c : Columns) (rows r : ℕ)
    → AreWords c.booleans
    → r < rows
    → bit (matches opcode kind value c rows (r / 64)) (r % 64) ≡ holds opcode kind value c r
unfolding matches
matches-bit opcode ValueKind.boolean value c rows r ws lt =
    boolean_word-bit opcode value.boolean (get_or c.booleans (r / 64) 0) (r % 64) (ws (r / 64))
      (omega arith)
matches-bit opcode ValueKind.invalid value c rows r ws lt = word_matches-bit _ rows r lt
matches-bit opcode ValueKind.symbol value c rows r ws lt = word_matches-bit _ rows r lt
matches-bit opcode ValueKind.integer value c rows r ws lt = word_matches-bit _ rows r lt
matches-bit opcode ValueKind.timestamp value c rows r ws lt = word_matches-bit _ rows r lt
matches-bit opcode ValueKind.presence value c rows r ws lt = word_matches-bit _ rows r lt

in_matches-bit :
    (kind : ValueKind) (values : List PredicateValue) (c : Columns) (rows r : ℕ)
    → AreWords c.booleans
    → r < rows
    → bit (in_matches kind values c rows (r / 64)) (r % 64) ≡ holds_any kind values c r
unfolding in_matches
in_matches-bit kind [] c rows r ws lt = bit-zero (r % 64)
in_matches-bit kind (value ∷ values) c rows r ws lt = rw (
  bit-bit_or (matches Opcode.equal kind value c rows (r / 64))
      (in_matches kind values c rows (r / 64)) (r % 64),
  matches-bit Opcode.equal kind value c rows r ws lt,
  in_matches-bit kind values c rows r ws lt,
)

found_words-bit :
    (opcode : Opcode) (kind : ValueKind) (values : List PredicateValue) (c : Columns) (rows r : ℕ)
    → AreWords c.booleans
    → r < rows
    → bit (found_words opcode kind values c rows (r / 64)) (r % 64) ≡ found opcode kind values c r
found_words-bit opcode kind values c rows r ws lt =
    elim opcode
      as (λ o. bit (found_words o kind values c rows (r / 64)) (r % 64) ≡ found o kind values c r) [
        | Opcode.within ↦ in_matches-bit kind values c rows r ws lt
        | _ ↦ matches-bit _ kind (operand values) c rows r ws lt
      ]

-- The answer for a request: its truth value, and the reason `missing` or none.
pub record AnswersFact (rows : ℕ) (out : Leaf) (opcode : Opcode) (present value : Bool) (r : ℕ)
    : Type 0 where
  pub state : row_state out.truth r ≡ leaf_state opcode present value
  pub reasons :
      (q : ℕ)
      → IsReason q
      → reason_at rows out.reasons q r ≡ (q == missing && leaf_missing opcode present)

write_leaf-AnswersFact :
    (opcode : Opcode) (kind : ValueKind) (values : List PredicateValue) (c : Columns) (rows r : ℕ)
    → AreWords c.booleans
    → r < rows
    → AnswersFact rows
        (write_leaf opcode c.presence (found_words opcode kind values c rows) rows)
        opcode
        (row_bit c.presence r)
        (found opcode kind values c r)
        r
write_leaf-AnswersFact opcode kind values c rows r ws lt =
    let words = found_words opcode kind values c rows in
    let (p, n, q) = write_leaf-row opcode c.presence words rows r lt in
    record {
      state =
          ap
            (λ x. record {
              positive = x;
              negative = row_bit (write_leaf opcode c.presence words rows).truth.negative r;
            })
            p
          ∙ ap
              (λ x. record {
                positive =
                    (leaf_state opcode (row_bit c.presence r)
                      (bit (words (r / 64)) (r % 64))).positive;
                negative = x;
              })
              n
          ∙ ap (leaf_state opcode (row_bit c.presence r))
              (found_words-bit opcode kind values c rows r ws lt);
      reasons = q;
    }

-- When evaluation of a predicate returns, on a batch whose Boolean column holds 64-bit words, the
-- field and the operands of its instruction were found, and each request holds the answer for its
-- fact: the comparison where the fact is present, and otherwise the reason `missing`, unless the
-- predicate asks for presence itself.
pub eval_predicate-AnswersFact :
    (dst out : Leaf) (b : Batch) (p : Program) (row : ℕ)
    → AreWords b.boolean_values
    → eval_predicate dst b p row ≡ some out
    → (kind : ValueKind) × (values : List PredicateValue) × (c : Columns) × FactColumns b p row kind
        values c
      × HasLeafShape b.rows out
      × ((r : ℕ)
          → r < b.rows
          → AnswersFact b.rows out
              (get_or p.opcodes row Opcode.invalid)
              (row_bit c.presence r)
              (found (get_or p.opcodes row Opcode.invalid) kind values c r)
              r)
eval_predicate-AnswersFact dst out b p row ws h =
    let opcode = get_or p.opcodes row Opcode.invalid in
    let (kind, values, c, f, e) = eval_predicate-FactColumns dst out b p row h in
    let words : AreWords c.booleans =
      read_booleans-AreWords b (read_kind opcode values kind) f.column c.booleans ws
        (cut_columns-reads b (read_kind opcode values kind) (get_or p.fields row 0) f.column c
          f.cut).3 in
    (
      kind,
      values,
      c,
      f,
      rw e (
          write_leaf-HasLeafShape opcode c.presence (found_words opcode kind values c b.rows)
            b.rows),
      λ r lt. rw e (write_leaf-AnswersFact opcode kind values c b.rows r words lt),
    )
