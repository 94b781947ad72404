-- ===== src/Result/Resolution.antt =====
-- internal/result/resolution.go: the resolver, which turns a mask of uncertainty reasons into one
-- outcome by the nine rows of a rule set.
-- `none` is a panic. Identifiers, starts and counts are words of 32 and 16 bits: the source widens
-- them to 64 bits before it adds, so no sum wraps. A slice ends within the length of its array.
pub mod Valid
pub mod Invariant
pub mod Best
use verifoxx.Common.{
  ℕ, zero, suc, ◌+◌, ◌-◌, ◌*◌, ◌/◌, ◌%◌, ◌^◌, bit_and, Bool, true, false, not, ◌&&◌, ◌||◌, Option,
  none, some, List, [], ◌∷◌, ltb, leb, ◌==◌, if◌then◌else◌, length, get_elem?, get_or, take, drop,
  ◌>>=◌, ◌>>◌, require,
}
use verifoxx.Truth.Reason.{reason_count, valid_mask}
use verifoxx.Result.Outcome.{OutcomeTable, prefer_known}
use verifoxx.Result.Outcome
use verifoxx.Result.Remediation.{RemediationTable}
use verifoxx.Result.Remediation

pub record ResolutionTable : Type 0 where
  pub outcome_ids : List ℕ
  pub explanation_ids : List ℕ
  pub remediation_starts : List ℕ
  pub remediation_counts : List ℕ
  pub remediation_ids : List ℕ

pub record Resolver : Type 0 where
  pub outcomes : OutcomeTable
  pub remediations : RemediationTable
  pub rules : ResolutionTable

pub data Error : Type 0 where
  invalid_outcome_table invalid_remediation_table invalid_resolution_table : Error
  invalid_outcome_reference invalid_explanation_reference invalid_remediation_reference : Error

pub data Result : Type 0 where
  ok : Resolver → Result
  err : Error → Result

-- Every identifier of a column finds a row.
unfoldable pub known_outcomes : OutcomeTable → List ℕ → Bool
known_outcomes t [] = true
known_outcomes t (id ∷ ids) = elim (Outcome.index t id) [
  | none ↦ false
  | some _ ↦ known_outcomes t ids
]

unfoldable pub nonzero : List ℕ → Bool
nonzero [] = true
nonzero (id ∷ ids) = not (id == 0) && nonzero ids

unfoldable pub known_remediations : RemediationTable → List ℕ → Bool
known_remediations t [] = true
known_remediations t (id ∷ ids) = elim (Remediation.index t id) [
  | none ↦ false
  | some _ ↦ known_remediations t ids
]

-- The ranges of the rows from `i` on, `left` of them, end within the edges.
unfoldable pub ranges_fit : ResolutionTable → ℕ → ℕ → Bool
ranges_fit rules zero i = true
ranges_fit rules (suc left) i =
    leb (get_or rules.remediation_starts i 0 + get_or rules.remediation_counts i 0)
      (length rules.remediation_ids)
    && ranges_fit rules left (i + 1)

-- `NewResolver`, its checks in their order.
unfoldable pub new_resolver : OutcomeTable → RemediationTable → ResolutionTable → Result
new_resolver outcomes remediations rules =
    let n = length rules.outcome_ids in
    if not (Outcome.valid outcomes)
    then err invalid_outcome_table
    else if not (Remediation.valid remediations)
    then err invalid_remediation_table
    else if n == 0
        || not (length rules.explanation_ids == n)
        || not (length rules.remediation_starts == n)
        || not (length rules.remediation_counts == n)
    then err invalid_resolution_table
    else if not (n % reason_count == 0)
    then err invalid_resolution_table
    else if not (known_outcomes outcomes rules.outcome_ids)
    then err invalid_outcome_reference
    else if not (nonzero rules.explanation_ids)
    then err invalid_explanation_reference
    else if not (ranges_fit rules n 0)
    then err invalid_resolution_table
    else if not (known_remediations remediations rules.remediation_ids)
    then err invalid_remediation_reference
    else ok (record { outcomes = outcomes; remediations = remediations; rules = rules })

pub record Resolution : Type 0 where
  pub remediations : List ℕ
  pub outcome : ℕ
  pub explanation : ℕ
  pub reason : ℕ
  pub terminal : Bool

-- The variables of the scan in `Resolve`.
pub record Scan : Type 0 where
  pub current : ℕ
  pub reason : ℕ
  pub win_row : ℕ

-- The body of the scan, at reason offset `off`.
scan_step : Resolver → ℕ → ℕ → ℕ → Scan → Option Scan
scan_step r base reasons off s = if bit_and reasons (2 ^ off) == 0 then some s else (do
  id ← get_elem? r.rules.outcome_ids (base + off)
  winner ← prefer_known r.outcomes s.current id
  some (
      if winner == s.current
      then s
      else record { current = winner; reason = off + 1; win_row = base + off }))

-- The offsets from `off` on, `left` of them.
pub scan : Resolver → ℕ → ℕ → ℕ → ℕ → Scan → Option Scan
scan r base reasons zero off s = some s
scan r base reasons (suc left) off s = do
  s' ← scan_step r base reasons off s
  scan r base reasons left (off + 1) s'

-- `xs[start : start+count]`
abbrev pub slice {ℓ} : {A : Type ℓ} → List A → ℕ → ℕ → Option (List A)
slice xs start count =
    if leb (start + count) (length xs) then some (take count (drop start xs)) else none

-- What `Resolve` returns after the scan.
finish : Resolver → Scan → Option Resolution
finish r s = do
  start ← get_elem? r.rules.remediation_starts s.win_row
  count ← get_elem? r.rules.remediation_counts s.win_row
  explanation ← get_elem? r.rules.explanation_ids s.win_row
  require (not (s.current == 0))
  terminal ← get_elem? r.outcomes.terminal (s.current - 1)
  edges ← slice r.rules.remediation_ids start count
  some (record {
    remediations = edges;
    outcome = s.current;
    explanation = explanation;
    reason = s.reason;
    terminal = terminal;
  })

-- `Resolve`; inside, `none` is `(Resolution{}, false)`.
pub resolve : Resolver → ℕ → ℕ → Option (Option Resolution)
resolve r rule_set reasons =
    let blocks = length r.rules.outcome_ids / reason_count in
    let base = (rule_set - 1) * reason_count in
    if not (valid_mask reasons)
    then none
    else if rule_set == 0 || ltb blocks rule_set
    then none
    else if reasons == 0
    then some none
    else (do
      s ← scan r base reasons reason_count 0 (record { current = 0; reason = 0; win_row = base })
      resolution ← finish r s
      some (some resolution))
