-- ===== src/Eval/Schedule/Leaves.antt =====
-- The instructions of internal/eval/executor.go that read no other instruction.
use verifoxx.Common.{
  ℕ, ◌+◌, ◌-◌, ◌<◌, ◌≡◌, ap, ◌∙◌, true, some, List, arith, ◌*◌, ◌/◌, ◌%◌, get_or-zeros, ltb, length,
  get_elem?, get_or, replicate, length-replicate, ◌>>=◌, >>=-eq-some, some_inj, inl, inr,
  Bool-cases,
}
use verifoxx.Words.{bit-zero}
use verifoxx.Truth.Planes.{word_count}
use verifoxx.Truth.Planes.Rows.{row_state, set_all-Writes}
use verifoxx.Program.{Program, Opcode, ValueKind}
use verifoxx.Eval.Batch.{Batch}
use verifoxx.Eval.Leaf.{Leaf, cleared}
use verifoxx.Eval.Leaf.Rows.{HasLeafShape, reason_at, reset-HasLeafShape, cleared-HasLeafShape}
use verifoxx.Eval.Predicate.{eval_predicate, found_words, program_predicate_value}
use verifoxx.Eval.Predicate.Guards.{eval_predicate-FactColumns}
use verifoxx.Eval.Predicate.Rows.{write_leaf-HasLeafShape}
use verifoxx.Eval.Evidence.{EvidencePredicate, eval_unchecked, eval_validated, require_predicate}
use verifoxx.Eval.Evidence.Write.{eval_unchecked-RowIs}
use verifoxx.Eval.Schedule.{predicate_of, execute_boolean, execute_evidence}
use verifoxx.Eval.Schedule.Reference.{Value, exact, leaf_value}

-- A leaf that holds a value.
pub record Holds (rows : ℕ) (leaf : Leaf) (v : Value) : Type 0 where
  pub shape : HasLeafShape rows leaf
  pub truth : (r : ℕ) → r < rows → row_state leaf.truth r ≡ v.truth r
  pub reasons : (q r : ℕ) → r < rows → reason_at rows leaf.reasons q r ≡ v.reasons q r

leaf_value-Holds :
    (rows : ℕ) (leaf : Leaf) (v : Value)
    → HasLeafShape rows leaf
    → leaf_value rows leaf ≡ v
    → Holds rows leaf v
leaf_value-Holds rows leaf v shape e = record {
  shape = shape;
  truth = λ r inside. ap (λ w. w.truth r) e;
  reasons = λ q r inside. ap (λ w. w.reasons q r) e;
}

module _ (p : Program) (b : Batch) (states : List ℕ) (row : ℕ) (dst : Leaf)
    (shape : HasLeafShape b.rows dst) where
  abbrev blank : Leaf
  blank = cleared (word_count b.rows)

  -- What the destination held does not matter.
  eval_predicate-blank : eval_predicate dst b p row ≡ eval_predicate blank b p row
  unfolding eval_predicate
  eval_predicate-blank = rw (
    reset-HasLeafShape dst b.rows shape,
    reset-HasLeafShape blank b.rows (cleared-HasLeafShape b.rows),
  )

  eval_validated-blank :
      (predicate : EvidencePredicate)
      → eval_validated dst b p states predicate ≡ eval_validated blank b p states predicate
  unfolding eval_validated eval_unchecked
  eval_validated-blank predicate = rw (
    reset-HasLeafShape dst b.rows shape,
    reset-HasLeafShape blank b.rows (cleared-HasLeafShape b.rows),
  )

  eval_predicate-HasLeafShape :
      (out : Leaf) → eval_predicate dst b p row ≡ some out → HasLeafShape b.rows out
  eval_predicate-HasLeafShape out h =
      let (kind, values, c, f, e) = eval_predicate-FactColumns dst out b p row h in
      let opcode = get_or p.opcodes row Opcode.invalid in
      rw e
        (write_leaf-HasLeafShape opcode c.presence (found_words opcode kind values c b.rows) b.rows)

  eval_validated-HasLeafShape :
      (predicate : EvidencePredicate) (out : Leaf)
      → eval_validated dst b p states predicate ≡ some out
      → HasLeafShape b.rows out
  unfolding eval_validated
  eval_validated-HasLeafShape predicate out h =
      elim (Bool-cases (require_predicate p states predicate)) [
        | inl fits ↦ (eval_unchecked-RowIs b states predicate dst out (rw fits at h)).0
        | inr refused ↦ absurd (ground (arith, rw refused at h))
      ]

  pub predicate-Holds :
      (v : Value)
      → (eval_predicate blank b p row >>= λ leaf. some (leaf_value b.rows leaf)) ≡ some v
      → (out : Leaf) × (eval_predicate dst b p row ≡ some out) × Holds b.rows out v
  predicate-Holds v h =
      let (out, evaluated, e) = >>=-eq-some (eval_predicate blank b p row) _ h in
      let returns : eval_predicate dst b p row ≡ some out = eval_predicate-blank ∙ evaluated in
      (
        out,
        returns,
        leaf_value-Holds b.rows out v (eval_predicate-HasLeafShape out returns) (some_inj e),
      )

  pub evidence-Holds :
      (v : Value)
      → (predicate_of p row >>= λ predicate.
          eval_validated blank b p states predicate >>= λ leaf. some (leaf_value b.rows leaf))
        ≡ some v
      → (out : Leaf) × (execute_evidence p b states row dst ≡ some out) × Holds b.rows out v
  unfolding execute_evidence
  evidence-Holds v h =
      let (predicate, found, rest) = >>=-eq-some (predicate_of p row) _ h in
      let (out, evaluated, e) = >>=-eq-some (eval_validated blank b p states predicate) _ rest in
      let returns : eval_validated dst b p states predicate ≡ some out =
        eval_validated-blank predicate ∙ evaluated in
      (
        out,
        rw found returns,
        leaf_value-Holds b.rows out v (eval_validated-HasLeafShape predicate out returns)
            (some_inj e),
      )

  pub boolean-Holds :
      (v : Value)
      → (get_elem? p.values row >>= λ id.
          program_predicate_value p id ValueKind.boolean >>= λ value. some (exact value.boolean))
        ≡ some v
      → (out : Leaf) × (execute_boolean p b states row dst ≡ some out) × Holds b.rows out v
  unfolding execute_boolean
  boolean-Holds v h =
      let (id, found, rest) = >>=-eq-some (get_elem? p.values row) _ h in
      let (value, read, e) = >>=-eq-some (program_predicate_value p id ValueKind.boolean) _ rest in
      let w = set_all-Writes b.rows dst.truth value.boolean shape.truth in
      let size = length dst.reasons.words in
      (
        record { truth = w.out; reasons = record { words = replicate size 0 } },
        rw (found, read, w.returns),
        record {
          shape = record {
            truth = w.shape;
            reasons = length-replicate {A = ℕ} size 0 ∙ shape.reasons;
          };
          truth = λ r inside.
              let below : ltb r b.rows ≡ true = ground arith in
              (w.values r ∙ rw below) ∙ ap (λ u. u.truth r) (some_inj e);
          reasons = λ q r inside.
              rw (get_or-zeros {A = ℕ} size ((q - 1) * word_count b.rows + r / 64) 0)
                (bit-zero (r % 64) ∙ ap (λ u. u.reasons q r) (some_inj e));
        },
      )
