-- ===== src/Eval/Evidence/Classify.antt =====
-- The reasons that a scan of internal/eval/evidence_eval.go collects.
use verifoxx.Common.{
  ℕ, zero, suc, ◌+◌, ◌-◌, ◌≡◌, refl, ◌∙◌, bit_or, Bool, true, false, not, some, List, [], ◌∷◌,
  arith, ◌==◌, if◌then◌else◌, get_elem?, ◌⊎◌, inl, inr, Bool-cases, All, >>=-eq-some, some_inj,
}
use verifoxx.Truth.Reason.{
  missing, conflict, wrong_scope, wrong_subject, wrong_timing, IsReason, has, reason_bit,
  with_reason, has-bit_or, has-reason_bit, has-with_reason,
}
use verifoxx.Program.{Program}
use verifoxx.Program.Symbols.{symbol}
use verifoxx.Eval.Batch.{Batch, EvidenceBatch}
use verifoxx.Eval.Evidence.{
  EvidencePredicate, Classification, RowResult, classify, add_record, classify_row, scan_edge,
  scan_edges, close_row, close_reasons, eval_row, no_evidence, evidence_reason_mask, classified,
  qualifier_reasons, reason_of, state_reason, bind_states, wrong_when,
}

-- A reason is in the mask.
abbrev pub Explained : ℕ → Type 0
Explained mask = (q : ℕ) × IsReason q × (has mask q ≡ true)

pub Explained-left : (a b : ℕ) → Explained a → Explained (bit_or a b)
Explained-left a b (q, h, e) = (q, h, has-bit_or a b q ∙ ground arith)

pub Explained-right : (a b : ℕ) → Explained b → Explained (bit_or a b)
Explained-right a b (q, h, e) = (q, h, has-bit_or a b q ∙ ground arith)

Explained-reason_bit : (q : ℕ) → IsReason q → Explained (reason_bit q)
Explained-reason_bit q h = (q, h, has-reason_bit q q ∙ ground arith)

pub Explained-with_reason : (mask q : ℕ) → IsReason q → Explained (with_reason mask q)
Explained-with_reason mask q h = (q, h, has-with_reason mask q q ∙ ground arith)

pub Explained-with_more : (mask r : ℕ) → Explained mask → Explained (with_reason mask r)
Explained-with_more mask r (q, h, e) = (q, h, has-with_reason mask r q ∙ ground arith)

-- No reason, or one of the nine.
abbrev pub IsStateReason : ℕ → Type 0
IsStateReason r = (r ≡ 0) ⊎ IsReason r

wrong-Explained : (b : Bool) (q : ℕ) → IsReason q → b ≡ true → Explained (wrong_when b q)
wrong-Explained b q h e =
    let same : wrong_when b q ≡ reason_bit q = ground arith in rw same (Explained-reason_bit q h)

-- The qualifiers are clear exactly when none of the three tests found a difference.
qualifiers-Explained :
    (a b c : Bool) → (qualifier_reasons a b c == 0) ≡ false → Explained (qualifier_reasons a b c)
qualifiers-Explained true b c h = Explained-left _ (wrong_when c wrong_timing) (
    Explained-left _ (wrong_when b wrong_scope)
      (wrong-Explained true wrong_subject (omega arith) refl))
qualifiers-Explained false true c h = Explained-left _ (wrong_when c wrong_timing) (
    Explained-right (wrong_when false wrong_subject) _
      (wrong-Explained true wrong_scope (omega arith) refl))
qualifiers-Explained false false true h =
    Explained-right (bit_or (wrong_when false wrong_subject) (wrong_when false wrong_scope)) _
      (wrong-Explained true wrong_timing (omega arith) refl)
qualifiers-Explained false false false h = cc

classified-Explained :
    (m : Bool) (reason : ℕ) (a b c : Bool)
    → IsStateReason reason
    → (classified m reason (qualifier_reasons a b c)).positive ≡ false
    → (classified m reason (qualifier_reasons a b c)).negative ≡ false
    → Explained (classified m reason (qualifier_reasons a b c)).reasons
classified-Explained true reason a b c known p n =
    Explained-right (evidence_reason_mask 0) (qualifier_reasons a b c)
      (qualifiers-Explained a b c (ground arith))
classified-Explained false reason a b c known p n =
    Explained-left (evidence_reason_mask reason) (qualifier_reasons a b c)
      (Explained-reason_bit reason (ground arith))

-- A record whose state has no reason or one of the nine, and which speaks neither for nor against
-- the predicate, gives a reason.
pub classify-Explained :
    (state expected_state reason subject expected_subject scope expected_scope timing
      expected_timing : ℕ)
    → IsStateReason reason
    → let c =
        classify state expected_state reason subject expected_subject scope expected_scope timing
          expected_timing in
      c.positive ≡ false → c.negative ≡ false → Explained c.reasons
unfolding classify
classify-Explained state expected_state reason subject expected_subject scope expected_scope timing
      expected_timing known p n =
    classified-Explained (state == expected_state) reason _ _ _ known p n

-- Each state of an index has no reason or one of the nine.
abbrev pub StatesKnown : List ℕ → Type 0
StatesKnown = All IsStateReason

StatesKnown-get_elem? :
    (states : List ℕ) (i r : ℕ) → StatesKnown states → get_elem? states i ≡ some r → IsStateReason r
StatesKnown-get_elem? [] i r h e = cc
StatesKnown-get_elem? (s ∷ states) zero r (h, hs) e = ground arith
StatesKnown-get_elem? (s ∷ states) (suc i) r (h, hs) e = StatesKnown-get_elem? states i r hs e

StatesKnown-reason_of :
    (states : List ℕ) (state r : ℕ)
    → StatesKnown states
    → reason_of states state ≡ some r
    → IsStateReason r
unfolding reason_of
StatesKnown-reason_of states state r h e =
    StatesKnown-get_elem? states (state - 1) r h (ground arith)

state_reason-IsStateReason : (name : List ℕ) → IsStateReason (state_reason name)
unfolding state_reason
state_reason-IsStateReason name = ground arith

-- Binding a program gives each evidence state no reason or one of the nine.
pub bind_states-StatesKnown :
    (p : Program) (ids states : List ℕ) → bind_states p ids ≡ some states → StatesKnown states
unfolding bind_states
bind_states-StatesKnown p [] states h = rw (← some_inj h) tt
bind_states-StatesKnown p (id ∷ ids) states h =
    let (name, _, h₁) = >>=-eq-some (symbol p id) _ h in
    let (rest, bound, h₂) = >>=-eq-some (bind_states p ids) _ h₁ in
    rw (← some_inj h₂) (state_reason-IsStateReason name, bind_states-StatesKnown p ids rest bound)

-- What the scan of a row has kept so far.
record ScanInv (acc : RowResult) : Type 0 where
  explained :
      acc.found_kind ≡ true → acc.positive ≡ false → acc.negative ≡ false → Explained acc.reasons
  found : acc.found_kind ≡ false → (acc.positive ≡ false) × (acc.negative ≡ false)

add_record-ScanInv :
    (acc : RowResult) (c : Classification)
    → (c.positive ≡ false → c.negative ≡ false → Explained c.reasons)
    → ScanInv (add_record acc c)
unfolding add_record
add_record-ScanInv acc c h = record {
  explained = λ _ p n. Explained-right acc.reasons c.reasons (h (ground arith) (ground arith));
  found = λ e. cc;
}

classify_row-Explained :
    (e : EvidenceBatch) (states : List ℕ) (predicate : EvidencePredicate) (row : ℕ)
    (c : Classification)
    → StatesKnown states
    → classify_row e states predicate row ≡ some c
    → c.positive ≡ false
    → c.negative ≡ false
    → Explained c.reasons
unfolding classify_row
classify_row-Explained e states predicate row c known h =
    let (state, _, h₁) = >>=-eq-some (get_elem? e.states row) _ h in
    let (reason, er, h₂) = >>=-eq-some (reason_of states state) _ h₁ in
    let (subject, _, h₃) = >>=-eq-some (get_elem? e.subjects row) _ h₂ in
    let (scope, _, h₄) = >>=-eq-some (get_elem? e.scopes row) _ h₃ in
    let (timing, _, h₅) = >>=-eq-some (get_elem? e.timings row) _ h₄ in
    rw (← some_inj h₅) (
      classify-Explained state predicate.state reason subject predicate.subject scope
        predicate.scope timing predicate.timing
        (StatesKnown-reason_of states state reason known er))

scan_edge-ScanInv :
    (e : EvidenceBatch) (states : List ℕ) (predicate : EvidencePredicate) (row : ℕ)
    (acc acc' : RowResult)
    → StatesKnown states
    → scan_edge e states predicate row acc ≡ some acc'
    → ScanInv acc
    → ScanInv acc'
unfolding scan_edge
scan_edge-ScanInv e states predicate row acc acc' known h v =
    let (kind, _, h₁) = >>=-eq-some (get_elem? e.kinds row) _ h in
    elim (Bool-cases (kind == predicate.kind)) [
      | inl same ↦
          let (c, ec, h₂) =
            >>=-eq-some (classify_row e states predicate row) (λ c. some (add_record acc c))
              (rw same at h₁) in
          rw (← some_inj h₂)
            (add_record-ScanInv acc c (classify_row-Explained e states predicate row c known ec))
      | inr other ↦ let e' : some acc ≡ some acc' = rw other at h₁ in rw (← some_inj e') v
    ]

scan_edges-ScanInv :
    (batch : Batch) (states : List ℕ) (predicate : EvidencePredicate) (left edge : ℕ)
    (acc acc' : RowResult)
    → StatesKnown states
    → scan_edges batch states predicate left edge acc ≡ some acc'
    → ScanInv acc
    → ScanInv acc'
unfolding scan_edges
scan_edges-ScanInv batch states predicate zero edge acc acc' known h v = rw (← some_inj h) v
scan_edges-ScanInv batch states predicate (suc left) edge acc acc' known h v =
    let (row, _, h₁) = >>=-eq-some (get_elem? batch.evidence_refs edge) _ h in
    let (next, en, h₂) = >>=-eq-some (scan_edge batch.evidence states predicate row acc) _ h₁ in
    scan_edges-ScanInv batch states predicate left (edge + 1) next acc' known h₂
      (scan_edge-ScanInv batch.evidence states predicate row acc next known en v)

-- A truth value that is not exact carries a reason, and a contradictory one the conflict.
pub record IsExplained (result : RowResult) : Type 0 where
  pub unknown : result.positive ≡ false → result.negative ≡ false → Explained result.reasons
  pub conflicting :
      result.positive ≡ true → result.negative ≡ true → has result.reasons conflict ≡ true

close_reasons-unknown :
    (found positive negative : Bool) (reasons : ℕ)
    → (found ≡ true → Explained reasons)
    → positive ≡ false
    → Explained (close_reasons found positive negative reasons)
close_reasons-unknown true false negative reasons h p = h refl
close_reasons-unknown false false negative reasons h p =
    Explained-with_reason reasons missing (omega arith)
close_reasons-unknown found true negative reasons h p = cc

close_reasons-conflicting :
    (found positive negative : Bool) (reasons : ℕ)
    → positive ≡ true
    → negative ≡ true
    → has (close_reasons found positive negative reasons) conflict ≡ true
close_reasons-conflicting found true true reasons p n =
    has-with_reason (if not found then with_reason reasons missing else reasons) conflict conflict
    ∙ ground arith
close_reasons-conflicting found false negative reasons p n = cc
close_reasons-conflicting found true false reasons p n = cc

close_row-IsExplained : (acc : RowResult) → ScanInv acc → IsExplained (close_row acc)
unfolding close_row
close_row-IsExplained acc v = record {
  unknown = λ p n.
      close_reasons-unknown acc.found_kind acc.positive acc.negative acc.reasons
        (λ f. v.explained f p n) p;
  conflicting = close_reasons-conflicting acc.found_kind acc.positive acc.negative acc.reasons;
}

-- When the scan of a request returns, with states that each have no reason or one of the nine, a
-- result that is neither true nor false has a reason, and one that is both has `conflict`.
pub eval_row-IsExplained :
    (batch : Batch) (states : List ℕ) (predicate : EvidencePredicate) (row : ℕ) (result : RowResult)
    → StatesKnown states
    → eval_row batch states predicate row ≡ some result
    → IsExplained result
unfolding eval_row
eval_row-IsExplained batch states predicate row result known h =
    let (start, _, h₁) = >>=-eq-some (get_elem? batch.evidence_offsets row) _ h in
    let (end, _, h₂) = >>=-eq-some (get_elem? batch.evidence_offsets (row + 1)) _ h₁ in
    let (acc, ea, h₃) =
      >>=-eq-some (scan_edges batch states predicate (end - start) start no_evidence) _ h₂ in
    rw (← some_inj h₃) (
      close_row-IsExplained acc (
        scan_edges-ScanInv batch states predicate (end - start) start no_evidence acc known ea
          (record { explained = λ f. cc; found = λ _. (refl, refl) })))
