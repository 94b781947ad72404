-- ===== src/Result/Resolution/Best.antt =====
-- `Resolve` of internal/result/resolution.go, and what it means for a resolution to be decided by
-- the order of outcomes.
use verifoxx.Common.{
  ℕ, ◌+◌, ◌-◌, ◌*◌, ◌/◌, ◌^◌, ◌≤◌, ◌<◌, ◌≡◌, ◌≢◌, refl, sym, ◌∙◌, true, false, some, arith, length,
  get_or, get_elem?-eq-get_or, take, drop, inl, inr,
}
use verifoxx.Words.{bit}
use verifoxx.Truth.Reason.{
  reason_count, valid_mask, has, IsReason, has-bit, valid_mask_ext, has-zero,
}
use verifoxx.Result.Outcome.Order.{outranks, IsRow}
use verifoxx.Result.Resolution.{Resolver, Resolution, Scan, scan, finish, resolve}
use verifoxx.Result.Resolution.Valid.{IsResolver}
use verifoxx.Result.Resolution.Invariant.{Found, scan-Inv}

-- The first row of a rule set.
abbrev pub base_of : ℕ → ℕ
base_of rule_set = (rule_set - 1) * reason_count

-- The outcome that a rule set gives for a reason.
abbrev pub outcome_for : Resolver → ℕ → ℕ → ℕ
outcome_for r rule_set reason = get_or r.rules.outcome_ids (base_of rule_set + (reason - 1)) 0

-- The resolution is that of the first reason of the mask whose outcome no other reason outranks.
pub record Decides (r : Resolver) (rule_set reasons : ℕ) (res : Resolution) : Type 0 where
  pub is_reason : IsReason res.reason
  pub in_mask : has reasons res.reason ≡ true
  pub outcome : res.outcome ≡ outcome_for r rule_set res.reason
  pub known : IsRow r.outcomes res.outcome
  pub dominates :
      (q : ℕ)
      → IsReason q
      → has reasons q ≡ true
      → outranks r.outcomes (outcome_for r rule_set q) res.outcome ≡ false
  pub first :
      (q : ℕ)
      → IsReason q
      → q < res.reason
      → has reasons q ≡ true
      → outcome_for r rule_set q ≢ res.outcome
  pub terminal : res.terminal ≡ get_or r.outcomes.terminal (res.outcome - 1) false
  pub explanation :
      res.explanation ≡ get_or r.rules.explanation_ids (base_of rule_set + (res.reason - 1)) 0
  pub remediations :
      let row = base_of rule_set + (res.reason - 1) in
      res.remediations
      ≡ take
          (get_or r.rules.remediation_counts row 0)
          (drop (get_or r.rules.remediation_starts row 0) r.rules.remediation_ids)

-- A valid mask that is not empty has a reason.
empty_mask :
    (reasons : ℕ)
    → reasons < 2 ^ 16
    → valid_mask reasons ≡ true
    → ((o : ℕ) → o < reason_count → bit reasons o ≡ false)
    → reasons ≡ 0
empty_mask reasons small v none_of =
    valid_mask_ext reasons 0 small (omega arith) v (unfold valid_mask in refl) λ reason h.
      has-bit reasons reason h ∙ none_of (reason - 1) (omega arith) ∙ sym (has-zero reason)

module _ (r : Resolver) (v : IsResolver r) (rule_set reasons : ℕ) where
  abbrev resolution_of : ℕ → Resolution
  resolution_of win =
      let row = base_of rule_set + win in
      record {
        remediations =
            take (get_or r.rules.remediation_counts row 0)
              (drop (get_or r.rules.remediation_starts row 0) r.rules.remediation_ids);
        outcome = get_or r.rules.outcome_ids row 0;
        explanation = get_or r.rules.explanation_ids row 0;
        reason = win + 1;
        terminal = get_or r.outcomes.terminal (get_or r.rules.outcome_ids row 0 - 1) false;
      }

  finish-resolution_of :
      (s : Scan) (win : ℕ)
      → base_of rule_set + win < length r.rules.outcome_ids
      → s.current ≡ get_or r.rules.outcome_ids (base_of rule_set + win) 0
      → s.reason ≡ win + 1
      → s.win_row ≡ base_of rule_set + win
      → finish r s ≡ some (resolution_of win)
  unfolding finish
  finish-resolution_of s win fits ec er ew =
      let row = base_of rule_set + win in
      let id = get_or r.rules.outcome_ids row 0 in
      ground (
        arith,
        v.outcomes_known row fits,
        v.in_range row fits,
        v.explanations,
        v.starts,
        v.counts,
        get_elem?-eq-get_or r.rules.remediation_starts row 0,
        get_elem?-eq-get_or r.rules.remediation_counts row 0,
        get_elem?-eq-get_or r.rules.explanation_ids row 0,
        get_elem?-eq-get_or r.outcomes.terminal (id - 1) false,
      )

  Decides-resolution_of :
      (s : Scan)
      → base_of rule_set + reason_count ≤ length r.rules.outcome_ids
      → (f : Found r (base_of rule_set) reasons reason_count s)
      → Decides r rule_set reasons (resolution_of f.win)
  Decides-resolution_of s fits f =
      let e : f.win + 1 - 1 ≡ f.win = omega arith in
      record {
        is_reason = omega (arith, f.passed);
        in_mask = has-bit reasons (f.win + 1) (omega (arith, f.passed)) ∙ rw e f.in_mask;
        outcome = rw e;
        known = rw f.current at f.known;
        dominates = λ q iq h.
            rw f.current at (f.dominates (q - 1) (omega arith) (sym (has-bit reasons q iq) ∙ h));
        first = λ q iq lt h.
            rw f.current at (f.first (q - 1) (omega arith) (sym (has-bit reasons q iq) ∙ h));
        terminal = refl;
        explanation = rw e;
        remediations = rw e;
      }

  -- With a resolver that satisfies `IsResolver`, resolving a valid mask that is not empty within a
  -- rule set that exists returns a resolution: that of the first reason of the mask whose outcome
  -- no other reason of the mask outranks.
  pub resolve-Decides :
      reasons < 2 ^ 16
      → valid_mask reasons ≡ true
      → reasons ≢ 0
      → 0 < rule_set
      → rule_set ≤ length r.rules.outcome_ids / reason_count
      → (res : Resolution) × (resolve r rule_set reasons ≡ some (some res))
        × Decides r rule_set reasons res
  resolve-Decides small valid nonempty pos below =
      let base = base_of rule_set in
      let fits : base + reason_count ≤ length r.rules.outcome_ids = omega (arith, v.whole_blocks) in
      let (s, ran, i) =
        scan-Inv r base reasons reason_count 0 (record { current = 0; reason = 0; win_row = base })
          (omega arith) v (inl (record { absent = refl; none_below = λ o lt. elim lt [ ] })) in
      elim i [
        | inl n ↦ absurd (nonempty (empty_mask reasons small valid n.none_below))
        | inr f ↦ (resolution_of f.win, returns s f ran, Decides-resolution_of s fits f)
      ]
    where
      returns :
          (s : Scan) (f : Found r (base_of rule_set) reasons reason_count s)
          → scan r
              (base_of rule_set)
              reasons
              reason_count
              0
              (record { current = 0; reason = 0; win_row = base_of rule_set })
            ≡ some s
          → resolve r rule_set reasons ≡ some (some (resolution_of f.win))
      returns s f ran =
          unfold resolve in
          ground (
            arith,
            valid,
            ran,
            finish-resolution_of s f.win (omega (arith, v.whole_blocks, f.passed)) f.current
                f.reason f.win_row,
          )
