-- ===== src/Eval/Evidence/Checked.antt =====
-- What `validEvidenceBatch` of internal/eval/evidence_eval.go accepts.
use verifoxx.Common.{ℕ, suc, ◌≤◌, ◌<◌, ◌≡◌, length, get_or}
use verifoxx.Program.{Program}
use verifoxx.Eval.Batch.{Batch, EvidenceBatch}
use verifoxx.Eval.Evidence.Total.{IsEvidenceBatch}

-- The offsets rise from 0 to the number of references, the columns of the evidence have one length,
-- and the kinds and states are those of the program.
pub record IsChecked (batch : Batch) (p : Program) : Type 0 where
  pub requests : length batch.request_ids ≡ batch.rows
  pub reads : IsEvidenceBatch batch (length p.evidence_state_names)
  pub first : get_or batch.evidence_offsets 0 0 ≡ 0
  pub last : get_or batch.evidence_offsets batch.rows 0 ≡ length batch.evidence_refs
  pub ordered :
      (i : ℕ)
      → i < batch.rows
      → get_or batch.evidence_offsets i 0 ≤ get_or batch.evidence_offsets (suc i) 0
  pub reviewers : length batch.evidence.reviewers ≡ length batch.evidence.ids
  pub timestamps : length batch.evidence.timestamps ≡ length batch.evidence.ids
  pub known :
      (i : ℕ)
      → i < length batch.evidence.ids
      → (0 < get_or batch.evidence.ids i 0)
        × (0 < get_or batch.evidence.kinds i 0)
        × (get_or batch.evidence.kinds i 0 ≤ length p.evidence_kind_names)

-- What the check asks of a record.
abbrev IsRecord : Program → EvidenceBatch → ℕ → Type 0
IsRecord p e i =
    (0 < get_or e.ids i 0)
    × (0 < get_or e.kinds i 0)
    × (get_or e.kinds i 0 ≤ length p.evidence_kind_names)
    × (0 < get_or e.states i 0)
    × (get_or e.states i 0 ≤ length p.evidence_state_names)
