-- ===== src/Eval/Evidence/Total.antt =====
-- `validEvidenceBatch` of internal/eval/evidence_eval.go, and the reads of the evaluation behind it.
use verifoxx.Common.{
  ℕ, zero, suc, ◌+◌, ◌-◌, ◌≤◌, ◌<◌, ◌≡◌, refl, true, some, List, [], ◌∷◌, arith, leb, ◌==◌, length,
  get_or, get_elem?-eq-get_or, inl, inr, Bool-cases,
}
use verifoxx.Program.{Program}
use verifoxx.Eval.Batch.{Batch, EvidenceBatch}
use verifoxx.Eval.Leaf.{Leaf, cleared}
use verifoxx.Truth.Planes.{word_count}
use verifoxx.Eval.Leaf.Rows.{HasLeafShape, reset-HasLeafShape}
use verifoxx.Eval.Evidence.{
  EvidencePredicate, RowResult, Classification, classify, classify_row, scan_edge, scan_edges,
  close_row, eval_row, eval_rows, eval_unchecked, write_row, no_evidence, offsets_valid, refs_valid,
  records_valid, offsets_span, valid_evidence_batch, reason_of, add_record,
}

-- What the check of a batch gives.
pub record IsEvidenceBatch (batch : Batch) (states : ℕ) : Type 0 where
  pub offsets : length batch.evidence_offsets ≡ batch.rows + 1
  pub within :
      (i : ℕ)
      → 0 < i
      → i < length batch.evidence_offsets
      → get_or batch.evidence_offsets i 0 ≤ length batch.evidence_refs
  pub refs :
      (i : ℕ)
      → i < length batch.evidence_refs
      → get_or batch.evidence_refs i 0 < length batch.evidence.ids
  pub kinds : length batch.evidence.kinds ≡ length batch.evidence.ids
  pub states_length : length batch.evidence.states ≡ length batch.evidence.ids
  pub subjects : length batch.evidence.subjects ≡ length batch.evidence.ids
  pub scopes : length batch.evidence.scopes ≡ length batch.evidence.ids
  pub timings : length batch.evidence.timings ≡ length batch.evidence.ids
  pub known_states :
      (i : ℕ)
      → i < length batch.evidence.ids
      → (0 < get_or batch.evidence.states i 0) × (get_or batch.evidence.states i 0 ≤ states)

offsets_valid-le :
    (refs previous : ℕ) (xs : List ℕ) (i : ℕ)
    → offsets_valid refs previous xs ≡ true
    → i < length xs
    → get_or xs i 0 ≤ refs
unfolding offsets_valid
offsets_valid-le refs previous [] i h lt = elim lt [ ]
offsets_valid-le refs previous (x ∷ xs) zero h lt = ground arith
offsets_valid-le refs previous (x ∷ xs) (suc i) h lt =
    offsets_valid-le refs x xs i (ground arith) (omega arith)

refs_valid-lt :
    (rows : ℕ) (xs : List ℕ) (i : ℕ)
    → refs_valid rows xs ≡ true
    → i < length xs
    → get_or xs i 0 < rows
unfolding refs_valid
refs_valid-lt rows [] i h lt = elim lt [ ]
refs_valid-lt rows (x ∷ xs) zero h lt = ground arith
refs_valid-lt rows (x ∷ xs) (suc i) h lt = refs_valid-lt rows xs i (ground arith) (omega arith)

records_valid-state :
    (p : Program) (e : EvidenceBatch) (left row i : ℕ)
    → records_valid p e left row ≡ true
    → row ≤ i
    → i < row + left
    → (0 < get_or e.states i 0) × (get_or e.states i 0 ≤ length p.evidence_state_names)
unfolding records_valid
records_valid-state p e zero row i h lo hi = absurd (omega arith)
records_valid-state p e (suc left) row i h lo hi = elim (Bool-cases (row == i)) [
  | inl same ↦ let er : row ≡ i = ground arith in rw (← er) (ground arith)
  | inr other ↦
      records_valid-state p e left (row + 1) i (unfold records_valid in ground arith) (ground arith)
        (omega arith)
]

offsets_within :
    (offsets : List ℕ) (refs i : ℕ)
    → offsets_span offsets refs ≡ true
    → 0 < i
    → i < length offsets
    → get_or offsets i 0 ≤ refs
offsets_within [] refs i h pos lt = elim lt [ ]
offsets_within (o ∷ offsets) refs zero h pos lt = elim pos [ ]
offsets_within (o ∷ offsets) refs (suc i) h pos lt =
    offsets_valid-le refs 0 offsets i (ground arith) (omega arith)

batch_parts :
    (batch : Batch) (p : Program)
    → valid_evidence_batch batch p ≡ true
    → (length batch.evidence_offsets ≡ batch.rows + 1)
      × (offsets_span batch.evidence_offsets (length batch.evidence_refs) ≡ true)
      × (length batch.evidence.kinds ≡ length batch.evidence.ids)
      × (length batch.evidence.states ≡ length batch.evidence.ids)
      × (length batch.evidence.subjects ≡ length batch.evidence.ids)
      × (length batch.evidence.scopes ≡ length batch.evidence.ids)
      × (length batch.evidence.timings ≡ length batch.evidence.ids)
      × (refs_valid (length batch.evidence.ids) batch.evidence_refs ≡ true)
      × (records_valid p batch.evidence (length batch.evidence.ids) 0 ≡ true)
unfolding valid_evidence_batch
batch_parts batch p h = ground arith

-- A batch that the batch check accepts has what evaluation reads: one offset more than rows, offsets
-- and references within range, the columns that it looks into of one length, and known states.
pub valid-IsEvidenceBatch :
    (batch : Batch) (p : Program)
    → valid_evidence_batch batch p ≡ true
    → IsEvidenceBatch batch (length p.evidence_state_names)
valid-IsEvidenceBatch batch p h =
    let (offsets, span, kinds, states, subjects, scopes, timings, refs, records) =
      batch_parts batch p h in
    record {
      offsets = offsets;
      within = λ i pos lt.
          offsets_within batch.evidence_offsets (length batch.evidence_refs) i span pos lt;
      refs = λ i lt. refs_valid-lt (length batch.evidence.ids) batch.evidence_refs i refs lt;
      kinds = kinds;
      states_length = states;
      subjects = subjects;
      scopes = scopes;
      timings = timings;
      known_states = λ i lt.
          records_valid-state p batch.evidence (length batch.evidence.ids) 0 i records (omega arith)
            (omega arith);
    }

module _ (batch : Batch) (states : List ℕ) (predicate : EvidencePredicate)
    (v : IsEvidenceBatch batch (length states)) where
  classify_row-total :
      (row : ℕ)
      → row < length batch.evidence.ids
      → (c : Classification) × (classify_row batch.evidence states predicate row ≡ some c)
  unfolding classify_row reason_of
  classify_row-total row lt =
      let e = batch.evidence in
      let state = get_or e.states row 0 in
      let reason = get_or states (state - 1) 0 in
      let subject = get_or e.subjects row 0 in
      let scope = get_or e.scopes row 0 in
      let timing = get_or e.timings row 0 in
      (
        classify state predicate.state reason subject predicate.subject scope predicate.scope timing
            predicate.timing,
        rw
            (
              get_elem?-eq-get_or e.states row 0 (rw v.states_length lt),
              get_elem?-eq-get_or e.subjects row 0 (rw v.subjects lt),
              get_elem?-eq-get_or e.scopes row 0 (rw v.scopes lt),
              get_elem?-eq-get_or e.timings row 0 (rw v.timings lt),
            )
            (ground (arith, v.known_states row lt, get_elem?-eq-get_or states (state - 1) 0)),
      )

  scan_edge-total :
      (row : ℕ) (acc : RowResult)
      → row < length batch.evidence.ids
      → (acc' : RowResult) × (scan_edge batch.evidence states predicate row acc ≡ some acc')
  unfolding scan_edge
  scan_edge-total row acc lt =
      let kind = get_or batch.evidence.kinds row 0 in
      let found = get_elem?-eq-get_or batch.evidence.kinds row 0 (rw v.kinds lt) in
      let (c, ec) = classify_row-total row lt in
      elim (Bool-cases (kind == predicate.kind)) [
        | inl same ↦ (add_record acc c, ground (arith, found, ec))
        | inr other ↦ (acc, ground (arith, found))
      ]

  scan_edges-total :
      (left edge : ℕ) (acc : RowResult)
      → edge + left ≤ length batch.evidence_refs
      → (acc' : RowResult) × (scan_edges batch states predicate left edge acc ≡ some acc')
  unfolding scan_edges
  scan_edges-total zero edge acc h = (acc, refl)
  scan_edges-total (suc left) edge acc h =
      let row = get_or batch.evidence_refs edge 0 in
      let (next, en) = scan_edge-total row acc (v.refs edge (omega arith)) in
      let (last, el) = scan_edges-total left (edge + 1) next (omega arith) in
      (last, rw (get_elem?-eq-get_or batch.evidence_refs edge 0 (omega arith)) (rw en el))

  eval_row-total :
      (row : ℕ)
      → row < batch.rows
      → (result : RowResult) × (eval_row batch states predicate row ≡ some result)
  unfolding eval_row
  eval_row-total row lt =
      let offsets = batch.evidence_offsets in
      let start = get_or offsets row 0 in
      let end = get_or offsets (row + 1) 0 in
      let below : end ≤ length batch.evidence_refs =
        v.within (row + 1) (omega arith) (omega (arith, v.offsets)) in
      let (acc, ea) = edges_between start end below in
      (
        close_row acc,
        rw (
          get_elem?-eq-get_or offsets row 0 (omega (arith, v.offsets)),
          get_elem?-eq-get_or offsets (row + 1) 0 (omega (arith, v.offsets)),
          ea,
        ),
      )
    where
      edges_between :
          (start end : ℕ)
          → end ≤ length batch.evidence_refs
          → (acc : RowResult) × (scan_edges batch states predicate (end - start) start no_evidence
              ≡ some acc)
      edges_between start end below = elim (Bool-cases (leb start end)) [
        | inl up ↦ scan_edges-total (end - start) start no_evidence (ground arith)
        | inr down ↦
            let e : end - start ≡ 0 = ground arith in (no_evidence, unfold scan_edges in rw e)
      ]

  eval_rows-total :
      (left row : ℕ) (leaf : Leaf)
      → row + left ≤ batch.rows
      → (out : Leaf) × (eval_rows batch states predicate left row leaf ≡ some out)
  unfolding eval_rows
  eval_rows-total zero row leaf h = (leaf, refl)
  eval_rows-total (suc left) row leaf h =
      let (result, er) = eval_row-total row (omega arith) in
      let (out, eo) =
        eval_rows-total left (row + 1) (write_row (word_count batch.rows) row result leaf)
          (omega arith) in
      (out, rw er eo)

  -- Evaluation returns on every batch with the lengths and ranges that the batch check gives, for
  -- outputs of the right shape.
  pub eval_unchecked-total :
      (dst : Leaf)
      → HasLeafShape batch.rows dst
      → (out : Leaf) × (eval_unchecked dst batch states predicate ≡ some out)
  unfolding eval_unchecked
  eval_unchecked-total dst h =
      let (out, eo) =
        eval_rows-total batch.rows 0 (cleared (word_count batch.rows)) (omega arith) in
      (out, rw (reset-HasLeafShape dst batch.rows h) eo)
