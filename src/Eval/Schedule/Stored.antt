-- ===== src/Eval/Schedule/Stored.antt =====
-- The windows of internal/eval/executor.go between two instructions.
use verifoxx.Common.{
  ℕ, ◌-◌, ◌≤◌, ◌<◌, ◌≡◌, ◌≢◌, ◌∙◌, false, inl, inr, Bool-cases, some, List, arith, ◌==◌,
  if◌then◌else◌, length, get_or, set, length-set, get_or-set_self, get_or-set_ne,
  get_elem?-eq-get_or, ==_self,
}
use verifoxx.Truth.Planes.Rows.{HasShape, row_state}
use verifoxx.Eval.Leaf.{Leaf}
use verifoxx.Eval.Leaf.Rows.{HasReasonShape, HasLeafShape, reason_at}
use verifoxx.Eval.Reduce.{slot_of}
use verifoxx.Eval.Reduce.Truth.{window, no_planes}
use verifoxx.Eval.Reduce.Reasons.{reason_window, no_reasons}
use verifoxx.Eval.Clause.{Scratch}
use verifoxx.Eval.Schedule.{store_leaf}
use verifoxx.Eval.Schedule.Reference.{Value}

-- One window for each slot, in the shape of the row count.
pub record IsScratch (rows tc rc : ℕ) (s : Scratch) : Type 0 where
  pub truth_count : length s.truths ≡ tc
  pub reason_count : length s.reasons ≡ rc
  pub truths : (slot : ℕ) → 0 < slot → slot ≤ tc → HasShape rows (window s.truths slot)
  pub reasons :
      (slot : ℕ) → 0 < slot → slot ≤ rc → HasReasonShape rows (reason_window s.reasons slot)

-- The windows of an instruction hold a value, and no other window has changed.
pub record Stores (rows tc rc truth_slot reason_slot : ℕ) (before after : Scratch) (v : Value)
    : Type 0 where
  pub is : IsScratch rows tc rc after
  pub truth : (r : ℕ) → r < rows → row_state (window after.truths truth_slot) r ≡ v.truth r
  pub reasons :
      (q r : ℕ)
      → r < rows
      → reason_at rows (reason_window after.reasons reason_slot) q r ≡ v.reasons q r
  pub other_truths :
      (slot : ℕ)
      → 0 < slot
      → slot ≤ tc
      → slot ≢ truth_slot
      → window after.truths slot ≡ window before.truths slot
  pub other_reasons :
      (slot : ℕ)
      → 0 < slot
      → slot ≤ rc
      → slot ≢ reason_slot
      → reason_window after.reasons slot ≡ reason_window before.reasons slot

module _ {ℓ} {S : Type ℓ} where
  pub slot_of-window :
      (store : List S) (slot : ℕ) (d : S)
      → 0 < slot
      → slot ≤ length store
      → slot_of store slot ≡ some (get_or store (slot - 1) d)
  slot_of-window store slot d positive fits =
      let e : (slot == 0) ≡ false = ground arith in
      rw e (get_elem?-eq-get_or store (slot - 1) d (omega arith))

  -- A window after a write of another one, or of itself.
  set-window :
      (store : List S) (slot other : ℕ) (w d : S)
      → 0 < slot
      → slot ≤ length store
      → 0 < other
      → get_or (set store (slot - 1) w) (other - 1) d
        ≡ (if slot == other then w else get_or store (other - 1) d)
  set-window store slot other w d positive fits other_positive = elim (Bool-cases (slot == other)) [
    | inl same ↦
        let e : other ≡ slot = ground arith in
        rw (same, e) (get_or-set_self store (slot - 1) w d (omega arith))
    | inr apart ↦ rw apart (get_or-set_ne store (slot - 1) (other - 1) w d (ground arith))
  ]

-- Writing the windows of one instruction.
pub store_leaf-Stores :
    (rows tc rc truth_slot reason_slot : ℕ) (s : Scratch) (leaf : Leaf) (v : Value)
    → IsScratch rows tc rc s
    → (0 < truth_slot) × (truth_slot ≤ tc)
    → (0 < reason_slot) × (reason_slot ≤ rc)
    → HasLeafShape rows leaf
    → ((r : ℕ) → r < rows → row_state leaf.truth r ≡ v.truth r)
    → ((q r : ℕ) → r < rows → reason_at rows leaf.reasons q r ≡ v.reasons q r)
    → Stores rows tc rc truth_slot reason_slot s (store_leaf truth_slot reason_slot s leaf) v
store_leaf-Stores rows tc rc truth_slot reason_slot s leaf v is t_in r_in shape truth reasons =
    let t_fits : truth_slot ≤ length s.truths = omega (arith, is.truth_count, t_in.1) in
    let r_fits : reason_slot ≤ length s.reasons = omega (arith, is.reason_count, r_in.1) in
    let t_set : (slot : ℕ)
        → 0 < slot
        → window (set s.truths (truth_slot - 1) leaf.truth) slot
          ≡ (if truth_slot == slot then leaf.truth else window s.truths slot) =
      λ slot. set-window s.truths truth_slot slot leaf.truth no_planes t_in.0 t_fits in
    let r_set : (slot : ℕ)
        → 0 < slot
        → reason_window (set s.reasons (reason_slot - 1) leaf.reasons) slot
          ≡ (if reason_slot == slot then leaf.reasons else reason_window s.reasons slot) =
      λ slot. set-window s.reasons reason_slot slot leaf.reasons no_reasons r_in.0 r_fits in
    record {
      is = record {
        truth_count = length-set s.truths (truth_slot - 1) leaf.truth ∙ is.truth_count;
        reason_count = length-set s.reasons (reason_slot - 1) leaf.reasons ∙ is.reason_count;
        truths = λ slot lo hi. rw (t_set slot lo) (elim (Bool-cases (truth_slot == slot)) [
          | inl same ↦ rw same shape.truth
          | inr apart ↦ rw apart (is.truths slot lo hi)
        ]);
        reasons = λ slot lo hi. rw (r_set slot lo) (elim (Bool-cases (reason_slot == slot)) [
          | inl same ↦ rw same shape.reasons
          | inr apart ↦ rw apart (is.reasons slot lo hi)
        ]);
      };
      truth = λ r inside. rw (t_set truth_slot t_in.0, ==_self truth_slot) (truth r inside);
      reasons =
          λ q r inside. rw (r_set reason_slot r_in.0, ==_self reason_slot) (reasons q r inside);
      other_truths = λ slot lo hi apart.
          let e : (truth_slot == slot) ≡ false = ground arith in rw (t_set slot lo, e);
      other_reasons = λ slot lo hi apart.
          let e : (reason_slot == slot) ≡ false = ground arith in rw (r_set slot lo, e);
    }
