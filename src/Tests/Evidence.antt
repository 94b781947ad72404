-- ===== src/Tests/Evidence.antt =====
-- Two requests with evidence for internal/eval/evidence_eval.go: the first has one record in the
-- expected state and one that is stale, the second has none.
use verifoxx.Common.{
  ◌&&◌, none, false, ◌⊎◌, ℕ, ◌≡◌, refl, true, false, ◌<◌, some, List, [], ◌∷◌, replicate, arith,
  inl, inr,
}
use verifoxx.Truth.Reason.{has, with_reason}
use verifoxx.Program.Symbols.{symbol, bytes_equal}
use verifoxx.Tests.Policy.{policy, batch}
use verifoxx.Eval.Leaf.{Leaf, cleared, reset_leaf_outputs}
use verifoxx.Eval.Leaf.Rows.{HasLeafShape}
use verifoxx.Eval.Evidence.{
  EvidencePredicate, RowResult, state_reason, bind_states, classify, add_record, classify_row,
  scan_edge, scan_edges, close_row, eval_row, reason_of, require_predicate, eval_validated,
  eval_evidence, write_reasons, write_row, eval_rows, eval_unchecked, offsets_valid, refs_valid,
  records_valid, valid_evidence_batch,
}
use verifoxx.Eval.Evidence.Classify.{
  Explained, StatesKnown, IsExplained, classify-Explained, eval_row-IsExplained,
}
use verifoxx.Eval.Evidence.Write.{RowIs, eval_unchecked-RowIs}
use verifoxx.Eval.Evidence.Validated.{Answers, eval_validated-Answers, eval_evidence-Answers}
use verifoxx.Eval.Evidence.Total.{valid-IsEvidenceBatch, eval_unchecked-total}

-- The states "ok" and "stale".
abbrev pub states : List ℕ
states = 0 ∷ 2 ∷ []

abbrev pub predicate : EvidencePredicate
predicate = record { kind = 1; state = 1; subject = 5; scope = 0; timing = 0 }

abbrev first_row : RowResult
first_row = record { found_kind = true; positive = true; negative = false; reasons = 2 }

first_row-eval_row : eval_row batch states predicate 0 ≡ some first_row
unfolding eval_row scan_edges scan_edge classify_row reason_of classify add_record close_row
first_row-eval_row = refl

states-StatesKnown : StatesKnown states
states-StatesKnown = (inl refl, (inr (omega arith), tt))

eval_row-IsExplained_example : IsExplained first_row
eval_row-IsExplained_example =
    eval_row-IsExplained batch states predicate 0 first_row states-StatesKnown first_row-eval_row

-- A stale record of the expected subject.
classify-Explained_example : Explained (classify 2 1 2 5 5 0 0 0 0).reasons
unfolding classify
classify-Explained_example = classify-Explained 2 1 2 5 5 0 0 0 0 (inr (omega arith)) refl refl

pub bind_states-states : bind_states policy (1 ∷ 2 ∷ []) ≡ some states
unfolding bind_states symbol state_reason bytes_equal
bind_states-states = refl

pub batch-valid : valid_evidence_batch batch policy ≡ true
unfolding valid_evidence_batch offsets_valid refs_valid records_valid
batch-valid = refl

abbrev dst : Leaf
dst = cleared 1

dst-HasLeafShape : HasLeafShape 2 dst
dst-HasLeafShape = record { truth = record { positive = refl; negative = refl }; reasons = refl }

-- The first request is true and has a stale record, and the second misses its evidence.
abbrev pub out : Leaf
out = record {
  truth = record { positive = 1 ∷ []; negative = 0 ∷ [] };
  reasons = record { words = 2 ∷ 1 ∷ replicate 7 0 };
}

pub eval_unchecked-out : eval_unchecked dst batch states predicate ≡ some out
unfolding eval_unchecked reset_leaf_outputs eval_rows write_row write_reasons has eval_row
    scan_edges scan_edge classify_row reason_of classify add_record close_row with_reason
eval_unchecked-out = refl

eval_unchecked-RowIs_example :
    HasLeafShape 2 out
    × ((row : ℕ)
        → row < 2
        → (result : RowResult) × (eval_row batch states predicate row ≡ some result)
          × RowIs 2 out row result)
eval_unchecked-RowIs_example =
    eval_unchecked-RowIs batch states predicate dst out eval_unchecked-out

eval_unchecked-total_example : (out : Leaf) × (eval_unchecked dst batch states predicate ≡ some out)
eval_unchecked-total_example =
    eval_unchecked-total batch states predicate (valid-IsEvidenceBatch batch policy batch-valid) dst
      dst-HasLeafShape

eval_validated-Answers_example :
    (out : Leaf) × (eval_validated dst batch policy states predicate ≡ some out)
    × Answers batch.rows out
unfolding require_predicate
eval_validated-Answers_example =
    eval_validated-Answers policy batch states predicate dst bind_states-states batch-valid refl
      dst-HasLeafShape

eval_evidence-Answers_example :
    ((eval_evidence dst batch policy states predicate ≡ none)
      × ((require_predicate policy states predicate && valid_evidence_batch batch policy) ≡ false))
    ⊎ (((require_predicate policy states predicate && valid_evidence_batch batch policy) ≡ true)
        × ((out : Leaf) × (eval_evidence dst batch policy states predicate ≡ some out)
            × Answers 2 out))
eval_evidence-Answers_example =
    eval_evidence-Answers policy batch states predicate dst bind_states-states dst-HasLeafShape
