-- ===== src/Result/Resolution/Valid.antt =====
-- The checks of `NewResolver` in internal/result/resolution.go.
use verifoxx.Common.{
  ℕ, zero, suc, ◌+◌, ◌%◌, ◌≤◌, ◌<◌, ◌≡◌, true, List, [], ◌∷◌, arith, length, get_or,
}
use verifoxx.Truth.Reason.{reason_count}
use verifoxx.Result.Outcome.{OutcomeTable}
use verifoxx.Result.Outcome.Order.{IsRow}
use verifoxx.Result.Remediation.{RemediationTable}
use verifoxx.Result.Resolution.{
  ResolutionTable, Resolver, ok, known_outcomes, nonzero, ranges_fit, new_resolver,
}

pub record IsResolver (r : Resolver) : Type 0 where
  pub whole_blocks : length r.rules.outcome_ids % reason_count ≡ 0
  pub outcomes_known :
      (i : ℕ) → i < length r.rules.outcome_ids → IsRow r.outcomes (get_or r.rules.outcome_ids i 0)
  pub explanations : length r.rules.explanation_ids ≡ length r.rules.outcome_ids
  pub explanations_set :
      (i : ℕ) → i < length r.rules.outcome_ids → 0 < get_or r.rules.explanation_ids i 0
  pub starts : length r.rules.remediation_starts ≡ length r.rules.outcome_ids
  pub counts : length r.rules.remediation_counts ≡ length r.rules.outcome_ids
  pub in_range :
      (i : ℕ)
      → i < length r.rules.outcome_ids
      → get_or r.rules.remediation_starts i 0 + get_or r.rules.remediation_counts i 0
        ≤ length r.rules.remediation_ids

known_outcomes-IsRow :
    (t : OutcomeTable) (ids : List ℕ) (i : ℕ)
    → known_outcomes t ids ≡ true
    → i < length ids
    → IsRow t (get_or ids i 0)
unfolding known_outcomes
known_outcomes-IsRow t [] i h lt = elim lt [ ]
known_outcomes-IsRow t (id ∷ ids) zero h lt = ground arith
known_outcomes-IsRow t (id ∷ ids) (suc i) h lt =
    known_outcomes-IsRow t ids i (unfold known_outcomes in ground arith) (omega arith)

nonzero-pos : (ids : List ℕ) (i : ℕ) → nonzero ids ≡ true → i < length ids → 0 < get_or ids i 0
unfolding nonzero
nonzero-pos [] i h lt = elim lt [ ]
nonzero-pos (id ∷ ids) zero h lt = ground arith
nonzero-pos (id ∷ ids) (suc i) h lt = nonzero-pos ids i (ground arith) (omega arith)

ranges_fit-le :
    (rules : ResolutionTable) (left i j : ℕ)
    → ranges_fit rules left i ≡ true
    → i ≤ j
    → j < i + left
    → get_or rules.remediation_starts j 0 + get_or rules.remediation_counts j 0
      ≤ length rules.remediation_ids
unfolding ranges_fit
ranges_fit-le rules zero i j h lo hi = absurd (omega arith)
ranges_fit-le rules (suc left) i j h lo hi = ground (arith, ranges_fit-le rules left (i + 1) j)

new_resolver-parts :
    (outcomes : OutcomeTable) (remediations : RemediationTable) (rules : ResolutionTable)
    (r : Resolver)
    → new_resolver outcomes remediations rules ≡ ok r
    → (r.outcomes ≡ outcomes)
      × (r.rules ≡ rules)
      × (length rules.explanation_ids ≡ length rules.outcome_ids)
      × (length rules.remediation_starts ≡ length rules.outcome_ids)
      × (length rules.remediation_counts ≡ length rules.outcome_ids)
      × (length rules.outcome_ids % reason_count ≡ 0)
      × (known_outcomes outcomes rules.outcome_ids ≡ true)
      × (nonzero rules.explanation_ids ≡ true)
      × (ranges_fit rules (length rules.outcome_ids) 0 ≡ true)
unfolding new_resolver
new_resolver-parts outcomes remediations rules r h = ground arith

-- Every resolver that the constructor returns satisfies what resolving relies on: whole blocks of
-- nine rows, known outcomes, explanations that are set, and ranges within the edges.
pub new_resolver-IsResolver :
    (outcomes : OutcomeTable) (remediations : RemediationTable) (rules : ResolutionTable)
    (r : Resolver)
    → new_resolver outcomes remediations rules ≡ ok r
    → IsResolver r
new_resolver-IsResolver outcomes remediations rules r h =
    let (eo, er, explanations, starts, counts, whole, known, set, fit) =
      new_resolver-parts outcomes remediations rules r h in
    record {
      whole_blocks = rw er whole;
      outcomes_known =
          rw (er, eo) (λ i lt. known_outcomes-IsRow outcomes rules.outcome_ids i known lt);
      explanations = rw er explanations;
      explanations_set = rw er (λ i lt. nonzero-pos rules.explanation_ids i set (omega arith));
      starts = rw er starts;
      counts = rw er counts;
      in_range = rw er (λ i lt.
          ranges_fit-le rules (length rules.outcome_ids) 0 i fit (omega arith) (omega arith));
    }
