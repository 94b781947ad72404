-- ===== src/Tests/Clause.antt =====
-- A clause whose evidence is negative and stale for the first request, for internal/eval/executor.go.
use verifoxx.Common.{ℕ, ◌≡◌, refl, true, false, some, [], ◌∷◌, replicate, arith}
use verifoxx.Truth.Reason.{has, with_reason}
use verifoxx.Eval.Clause.{
  Candidate, Scratch, Status, instruction_truth, instruction_reasons, collect_reasons,
  collect_evidence, clause_status, first_negative_node, first_reason_node,
}
use verifoxx.Eval.Clause.Edges.{IsDriver}
use verifoxx.Eval.Clause.Drivers.{
  IsNegative, HasReason, first_negative_node-total, first_reason_node-total,
}
use verifoxx.Eval.Clause.Choice.{
  no_candidate, choose_candidate, Among, Unbeaten, choose_candidate-Unbeaten,
}
use verifoxx.Tests.Policy.{policy}
use verifoxx.Tests.Result.{outcomes}

abbrev scratch : Scratch
scratch = record {
  truths =
      record { positive = 1 ∷ []; negative = 0 ∷ [] }
      ∷ record { positive = 0 ∷ []; negative = 1 ∷ [] }
      ∷ [];
  reasons = record { words = replicate 9 0 } ∷ record { words = 0 ∷ 1 ∷ replicate 7 0 } ∷ [];
}

abbrev status : Status
status = record { positive = false; negative = true; reasons = 2 }

status-collected : clause_status policy scratch 0 2 0 ≡ some status
unfolding clause_status collect_evidence instruction_truth instruction_reasons collect_reasons
    with_reason
status-collected = refl

first_negative_node-total_example :
    (node : ℕ) × (first_negative_node policy scratch 0 2 0 ≡ some node)
    × IsDriver policy (IsNegative policy scratch 0 2) 0 node
first_negative_node-total_example =
    first_negative_node-total policy scratch 0 2 0 status status-collected refl (omega arith)
      (omega arith)

first_reason_node-total_example :
    (node : ℕ) × (first_reason_node policy scratch 0 2 0 2 ≡ some node)
    × IsDriver policy (HasReason policy scratch 0 2 2) 0 node
unfolding has
first_reason_node-total_example =
    first_reason_node-total policy scratch 0 2 0 2 status status-collected refl (omega arith)
      (omega arith)

-- Two candidates with the outcomes 1 and 3 of the tables; the second one wins.
abbrev review : Candidate
review = record no_candidate { outcome = 1; clause = 1 }

abbrev deny : Candidate
deny = record no_candidate { outcome = 3; clause = 2 }

choose_candidate-Unbeaten_example :
    (out : Candidate) × (choose_candidate outcomes no_candidate (review ∷ deny ∷ []) ≡ some out)
    × Among out (review ∷ deny ∷ [])
    × Unbeaten outcomes out (review ∷ deny ∷ [])
choose_candidate-Unbeaten_example =
    choose_candidate-Unbeaten outcomes review (deny ∷ []) (omega arith) (omega arith, tt)
