-- ===== src/Eval/Clause/Choice.antt =====
-- The choice among the candidates of a request in internal/eval/executor.go: `finalizeResults` starts
-- from the empty candidate and applies `preferExecutionCandidate` to each candidate in turn.
use verifoxx.Common.{
  ℕ, ◌≡◌, refl, true, false, ◌||◌, Option, some, List, [], ◌∷◌, ◌==◌, if◌then◌else◌, arith, All,
  ◌⊎◌, inl, inr, Bool-cases, ◌>>=◌,
}
use verifoxx.Result.Outcome.{OutcomeTable}
use verifoxx.Result.Outcome.Order.{outranks, IsRow, IsRowOrZero, prefer_lem}
use verifoxx.Eval.Clause.{Candidate, prefer_execution_candidate}

abbrev pub no_candidate : Candidate
no_candidate = record {
  remediations = [];
  outcome = 0;
  explanation = 0;
  requirement = 0;
  clause = 0;
  node = 0;
  reasons = 0;
  driver_reason = 0;
  applicability = false;
}

-- The calls of `preferExecutionCandidate` for one request.
pub choose_candidate : OutcomeTable → Candidate → List Candidate → Option Candidate
choose_candidate outcomes chosen [] = some chosen
choose_candidate outcomes chosen (c ∷ cs) = do
  next ← prefer_execution_candidate chosen c outcomes
  choose_candidate outcomes next cs

prefer_execution_candidate-outranks :
    (t : OutcomeTable) (chosen c : Candidate)
    → IsRowOrZero t chosen.outcome
    → IsRow t c.outcome
    → prefer_execution_candidate chosen c t
      ≡ some (if chosen.outcome == 0 || outranks t c.outcome chosen.outcome then c else chosen)
unfolding prefer_execution_candidate
prefer_execution_candidate-outranks t chosen c h k =
    rw (prefer_lem t chosen.outcome c.outcome h (inr k)) (ground arith)

abbrev pub Among : Candidate → List Candidate → Type 0
Among out [] = ⊥
Among out (c ∷ cs) = (out ≡ c) ⊎ Among out cs

abbrev pub AreRows : OutcomeTable → List Candidate → Type 0
AreRows t = All (λ c. IsRow t c.outcome)

-- No candidate of the list outranks the one.
abbrev pub Unbeaten : OutcomeTable → Candidate → List Candidate → Type 0
Unbeaten t out = All (λ c. outranks t c.outcome out.outcome ≡ false)

outranks_trans :
    (t : OutcomeTable) (a b c : ℕ)
    → outranks t a b ≡ false
    → outranks t b c ≡ false
    → outranks t a c ≡ false
outranks_trans t a b c h k = ground arith

outranks_asym : (t : OutcomeTable) (a b : ℕ) → outranks t a b ≡ true → outranks t b a ≡ false
outranks_asym t a b h = ground arith

outranks_irrefl : (t : OutcomeTable) (a : ℕ) → outranks t a a ≡ false
outranks_irrefl t a = ground arith

-- From a candidate with a known outcome on, the choice is among it and the list.
choose_candidate-from :
    (t : OutcomeTable) (chosen : Candidate) (cs : List Candidate)
    → IsRow t chosen.outcome
    → AreRows t cs
    → (out : Candidate) × (choose_candidate t chosen cs ≡ some out)
      × Among out (chosen ∷ cs)
      × Unbeaten t out (chosen ∷ cs)
unfolding choose_candidate
choose_candidate-from t chosen [] h hs =
    (chosen, refl, inl refl, (outranks_irrefl t chosen.outcome, tt))
choose_candidate-from t chosen (c ∷ cs) h (hc, hs) =
    let step = prefer_execution_candidate-outranks t chosen c (inr h) hc in
    let set : (chosen.outcome == 0) ≡ false = ground arith in
    elim (Bool-cases (outranks t c.outcome chosen.outcome)) [
      | inl better ↦
          let (out, ran, among, (beats_c, beats)) = choose_candidate-from t c cs hc hs in
          (
            out,
            rw (step, set, better) ran,
            inr among,
            (
              outranks_trans t chosen.outcome c.outcome out.outcome
                  (outranks_asym t c.outcome chosen.outcome better) beats_c,
              (beats_c, beats),
            ),
          )
      | inr worse ↦
          let (out, ran, among, (beats_chosen, beats)) = choose_candidate-from t chosen cs h hs in
          (
            out,
            rw (step, set, worse) ran,
            (elim among [ inl e ↦ inl e | inr later ↦ inr (inr later) ]),
            (
              beats_chosen,
              (outranks_trans t c.outcome chosen.outcome out.outcome worse beats_chosen, beats),
            ),
          )
    ]

-- For candidates with known outcomes, at least one, the choice from the empty candidate on returns
-- one of them, and no other outranks it.
pub choose_candidate-Unbeaten :
    (t : OutcomeTable) (c : Candidate) (cs : List Candidate)
    → IsRow t c.outcome
    → AreRows t cs
    → (out : Candidate) × (choose_candidate t no_candidate (c ∷ cs) ≡ some out)
      × Among out (c ∷ cs)
      × Unbeaten t out (c ∷ cs)
unfolding choose_candidate
choose_candidate-Unbeaten t c cs h hs =
    let step = prefer_execution_candidate-outranks t no_candidate c (inl refl) h in
    let (out, ran, among, unbeaten) = choose_candidate-from t c cs h hs in
    (out, rw step ran, among, unbeaten)
