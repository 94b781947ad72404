-- ===== src/Tests/Predicate.antt =====
-- The fact predicate of the small policy, for internal/eval/predicate.go: the fact of the second
-- request is present and equal, and that of the first is missing.
use verifoxx.Common.{ℕ, ◌≡◌, ◌<◌, refl, some, [], ◌∷◌, replicate, arith, List, get_or}
use verifoxx.Program.{Opcode, ValueKind}
use verifoxx.Program.Symbols.{symbol, lookup_field}
use verifoxx.Eval.Leaf.{Leaf, cleared, reset_leaf_outputs}
use verifoxx.Eval.Leaf.Rows.{HasLeafShape}
use verifoxx.Eval.Predicate.{
  PredicateValue, referenced_value, program_predicate_value, gather, word_matches, matches,
  write_leaf, operand_values, cut_columns, predicate_operands, eval_predicate,
}
use verifoxx.Eval.Batch.{present, valid_physical_range}
use verifoxx.Eval.Predicate.Meaning.{AnswersFact}
use verifoxx.Eval.Predicate.Literals.{AreOperands}
use verifoxx.Eval.Predicate.Facts.{fact_found, eval_predicate-AnswersRequests}
use verifoxx.Tests.Policy.{policy, batch}

abbrev dst : Leaf
dst = cleared 1

abbrev pub out : Leaf
out = record {
  truth = record { positive = 2 ∷ []; negative = 0 ∷ [] };
  reasons = record { words = 1 ∷ replicate 8 0 };
}

pub eval_predicate-out : eval_predicate dst batch policy 0 ≡ some out
unfolding eval_predicate predicate_operands lookup_field operand_values program_predicate_value
    referenced_value symbol reset_leaf_outputs cut_columns write_leaf matches word_matches gather
eval_predicate-out = refl

eval_predicate-AnswersRequests_example :
    (kind : ValueKind) × (column : ℕ) × (values : List PredicateValue) × (lookup_field
        policy.field_index
        (get_or policy.fields 0 0)
      ≡ some (kind, column))
    × AreOperands policy Opcode.equal kind 0 values
    × HasLeafShape 2 out
    × ((r : ℕ)
        → r < 2
        → AnswersFact 2 out Opcode.equal
            (present batch (get_or policy.fields 0 0) r)
            (fact_found batch column Opcode.equal kind values r)
            r)
unfolding valid_physical_range
eval_predicate-AnswersRequests_example =
    eval_predicate-AnswersRequests dst out batch policy 0 (λ i. omega arith) refl eval_predicate-out
