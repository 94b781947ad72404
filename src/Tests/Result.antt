-- ===== src/Tests/Result.antt =====
-- The tables of internal/result for one rule set of nine rows.
use verifoxx.Common.{◌≡◌, refl, true, false, some, [], ◌∷◌, arith, inr, ◌>>=◌}
use verifoxx.Truth.Reason.{valid_mask}
use verifoxx.Result.Outcome.{OutcomeTable, all_nonzero, prefer}
use verifoxx.Result.Outcome
use verifoxx.Result.Outcome.Order.{prefer_assoc, prefer_comm}
use verifoxx.Result.Remediation.{
  RemediationTable, Remediation, IsRemediation, valid_row, valid_rows, lookup-IsRemediation,
}
use verifoxx.Result.Remediation
use verifoxx.Result.Resolution.{
  Resolver, Resolution, ResolutionTable, ok, known_outcomes, nonzero, known_remediations,
  ranges_fit, new_resolver, resolve,
}
use verifoxx.Result.Resolution.Valid.{IsResolver, new_resolver-IsResolver}
use verifoxx.Result.Resolution.Best.{Decides, resolve-Decides}

-- Allow, deny and needs review.
abbrev pub outcomes : OutcomeTable
outcomes = record {
  names = 7 ∷ 8 ∷ 9 ∷ [];
  precedence = 1 ∷ 5 ∷ 3 ∷ [];
  terminal = false ∷ true ∷ false ∷ [];
}

abbrev remediations : RemediationTable
remediations = record {
  kinds = 1 ∷ 2 ∷ [];
  fields = 4 ∷ 0 ∷ [];
  values = 6 ∷ 0 ∷ [];
  evidence_kinds = 0 ∷ 3 ∷ [];
}

abbrev rules : ResolutionTable
rules = record {
  outcome_ids = 3 ∷ 3 ∷ 1 ∷ 2 ∷ 3 ∷ 2 ∷ 1 ∷ 1 ∷ 3 ∷ [];
  explanation_ids = 1 ∷ 2 ∷ 3 ∷ 4 ∷ 5 ∷ 6 ∷ 7 ∷ 8 ∷ 9 ∷ [];
  remediation_starts = 0 ∷ 0 ∷ 0 ∷ 1 ∷ 0 ∷ 0 ∷ 0 ∷ 0 ∷ 0 ∷ [];
  remediation_counts = 1 ∷ 1 ∷ 0 ∷ 1 ∷ 0 ∷ 0 ∷ 0 ∷ 0 ∷ 2 ∷ [];
  remediation_ids = 1 ∷ 2 ∷ [];
}

abbrev pub resolver : Resolver
resolver = record { outcomes = outcomes; remediations = remediations; rules = rules }

resolver-ok : new_resolver outcomes remediations rules ≡ ok resolver
unfolding new_resolver Outcome.valid all_nonzero Remediation.valid valid_rows valid_row
    known_outcomes nonzero known_remediations ranges_fit
resolver-ok = refl

prefer_assoc_example :
    (prefer outcomes 1 2 >>= λ x. prefer outcomes x.0 3)
    ≡ (prefer outcomes 2 3 >>= λ y. prefer outcomes 1 y.0)
prefer_assoc_example =
    prefer_assoc outcomes 1 2 3 (inr (omega arith)) (inr (omega arith)) (inr (omega arith))

prefer_comm_example : prefer outcomes 2 3 ≡ prefer outcomes 3 2
prefer_comm_example = prefer_comm outcomes 2 3

lookup-IsRemediation_example :
    (r : Remediation) × (Remediation.lookup remediations 2 ≡ some (some r)) × IsRemediation r
unfolding Remediation.valid valid_rows valid_row
lookup-IsRemediation_example = lookup-IsRemediation remediations 2 refl (omega arith) (omega arith)

new_resolver-IsResolver_example : IsResolver resolver
new_resolver-IsResolver_example =
    new_resolver-IsResolver outcomes remediations rules resolver resolver-ok

-- The reasons stale and unverifiable; the second one's outcome wins.
resolve-Decides_example :
    (res : Resolution) × (resolve resolver 1 10 ≡ some (some res)) × Decides resolver 1 10 res
unfolding valid_mask
resolve-Decides_example =
    resolve-Decides resolver new_resolver-IsResolver_example 1 10 (omega arith) refl
      (λ e. omega arith) (omega arith) (omega arith)
