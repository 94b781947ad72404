-- ===== src/Eval/Evidence/Validated.antt =====
-- `evalEvidenceValidated` of internal/eval/evidence_eval.go, from the checks to the answers.
use verifoxx.Common.{
  ◌&&◌, ◌==◌, ==_iff, none, ◌⊎◌, inl, inr, Bool-cases, ℕ, ◌<◌, ◌≡◌, ◌∙◌, arith, length, true, false,
  some, List, sym,
}
use verifoxx.Truth.Planes.Rows.{row_bit}
use verifoxx.Truth.Reason.{IsReason, conflict}
use verifoxx.Program.{Program}
use verifoxx.Eval.Batch.{Batch}
use verifoxx.Eval.Leaf.{Leaf}
use verifoxx.Eval.Leaf.Rows.{HasLeafShape, reason_at}
use verifoxx.Eval.Evidence.{
  EvidencePredicate, RowResult, bind_states, eval_validated, eval_evidence, require_predicate,
  valid_evidence_batch,
}
use verifoxx.Eval.Evidence.Classify.{IsExplained, bind_states-StatesKnown, eval_row-IsExplained}
use verifoxx.Eval.Evidence.Write.{RowIs, eval_unchecked-RowIs}
use verifoxx.Eval.Evidence.Total.{IsEvidenceBatch, valid-IsEvidenceBatch, eval_unchecked-total}

-- An unknown row has a reason, and a row that is both true and false has the reason `conflict`.
pub record AnswersRow (rows : ℕ) (out : Leaf) (row : ℕ) : Type 0 where
  pub unknown :
      row_bit out.truth.positive row ≡ false
      → row_bit out.truth.negative row ≡ false
      → (q : ℕ) × IsReason q × (reason_at rows out.reasons q row ≡ true)
  pub conflicting :
      row_bit out.truth.positive row ≡ true
      → row_bit out.truth.negative row ≡ true
      → reason_at rows out.reasons conflict row ≡ true

pub record Answers (rows : ℕ) (out : Leaf) : Type 0 where
  pub shape : HasLeafShape rows out
  pub row : (r : ℕ) → r < rows → AnswersRow rows out r

RowIs-AnswersRow :
    (rows row : ℕ) (out : Leaf) (result : RowResult)
    → RowIs rows out row result
    → IsExplained result
    → AnswersRow rows out row
RowIs-AnswersRow rows row out result is v = record {
  unknown = λ p n.
      let (q, iq, h) = v.unknown (sym is.positive ∙ p) (sym is.negative ∙ n) in
      (q, iq, is.reasons q iq ∙ h);
  conflicting = λ p n.
      is.reasons conflict (omega arith) ∙ v.conflicting (sym is.positive ∙ p) (sym is.negative ∙ n);
}

require_predicate-count :
    (p : Program) (states : List ℕ) (predicate : EvidencePredicate)
    → require_predicate p states predicate ≡ true
    → length states ≡ length p.evidence_state_names
unfolding require_predicate
require_predicate-count p states predicate h = ground arith

-- For the states that a program binds, a batch that the batch check accepts, a predicate that the
-- predicate check accepts and outputs of the right shape, evaluation returns, and in what it returns
-- an unknown request has a reason and a contradictory one the reason `conflict`.
pub eval_validated-Answers :
    (p : Program) (batch : Batch) (states : List ℕ) (predicate : EvidencePredicate) (dst : Leaf)
    → bind_states p p.evidence_state_names ≡ some states
    → valid_evidence_batch batch p ≡ true
    → require_predicate p states predicate ≡ true
    → HasLeafShape batch.rows dst
    → (out : Leaf) × (eval_validated dst batch p states predicate ≡ some out)
      × Answers batch.rows out
unfolding eval_validated
eval_validated-Answers p batch states predicate dst bound valid fits shape =
    let (out, ran) = eval_unchecked-total batch states predicate known dst shape in
    let (out_shape, rows) = eval_unchecked-RowIs batch states predicate dst out ran in
    (
      out,
      rw fits ran,
      record {
        shape = out_shape;
        row = λ r lt.
            let (result, er, is) = rows r lt in
            RowIs-AnswersRow batch.rows r out result is (
              eval_row-IsExplained batch states predicate r result
                (bind_states-StatesKnown p p.evidence_state_names states bound) er);
      },
    )
  where
    count : length states ≡ length p.evidence_state_names
    count = require_predicate-count p states predicate fits

    known : IsEvidenceBatch batch (length states)
    known = rw count (valid-IsEvidenceBatch batch p valid)

-- With the states that a program binds and outputs of the right shape, `evalEvidence` panics exactly
-- when a check refuses the predicate or the batch, and otherwise returns answers: an unknown request
-- has a reason, and a contradictory one the reason `conflict`.
pub eval_evidence-Answers :
    (p : Program) (batch : Batch) (states : List ℕ) (predicate : EvidencePredicate) (dst : Leaf)
    → bind_states p p.evidence_state_names ≡ some states
    → HasLeafShape batch.rows dst
    → ((eval_evidence dst batch p states predicate ≡ none)
        × ((require_predicate p states predicate && valid_evidence_batch batch p) ≡ false))
      ⊎ (((require_predicate p states predicate && valid_evidence_batch batch p) ≡ true)
          × ((out : Leaf) × (eval_evidence dst batch p states predicate ≡ some out)
              × Answers batch.rows out))
unfolding eval_evidence eval_validated
eval_evidence-Answers p batch states predicate dst bound shape =
    elim (Bool-cases (require_predicate p states predicate)) [
      | inr refused ↦ inl (rw refused, rw refused)
      | inl fits ↦
          let count : (length states == length p.evidence_state_names) ≡ true =
            (==_iff _ _).1 (require_predicate-count p states predicate fits) in
          elim (Bool-cases (valid_evidence_batch batch p)) [
            | inr refused ↦ inl (rw (fits, count, refused), rw (fits, refused))
            | inl valid ↦
                let (out, ran, answers) =
                  eval_validated-Answers p batch states predicate dst bound valid fits shape in
                inr (rw (fits, valid), (out, rw (fits, count, valid) (rw fits at ran), answers))
          ]
    ]
