-- ===== src/Compile/Lifetimes/Correct.antt =====
-- `assignSlots` of internal/compile/liveness.go: the slots of truth and of reasons.
use verifoxx.Common.{
  ℕ, ◌-◌, ◌≤◌, ◌<◌, ◌≡◌, ◌≢◌, refl, true, false, ◌⊎◌, Option, some, none, List, arith, length,
  get_or, replicate, length-replicate,
}
use verifoxx.Program.{Program}
use verifoxx.Words.{max_uint32}
use verifoxx.Compile.Allocate.{SlotMode, skipped}
use verifoxx.Compile.Allocate.Chain.{IsLastUses}
use verifoxx.Compile.Allocate.Correct.{IsAllocation, allocate_slots-IsAllocation}
use verifoxx.Compile.Lifetimes.{
  validate_slot_program, operands_of, compute_reason_live, assign_slots,
}
use verifoxx.Compile.Lifetimes.Uses.{
  rows_of, operand_at, validate_slot_program-IsOrdered, AreLastUses, compute_last_uses-AreLastUses,
}
use verifoxx.Compile.Lifetimes.Reasons.{Flagged, AreReasonsLive, compute_reason_live-AreReasonsLive}

-- Slots in which the result of a live row stays until its consumers have read it, and that of a root
-- until the end.
pub record KeepsOperands (p : Program) (Live : ℕ → Type 0) (slots : List ℕ) (count : ℕ)
    : Type 0 where
  pub sized : length slots ≡ rows_of p
  pub bounded : count ≤ rows_of p
  pub in_range :
      (row : ℕ)
      → row < rows_of p
      → Live row
      → (0 < get_or slots row 0) × (get_or slots row 0 ≤ count)
  pub operands :
      (row i between : ℕ)
      → row < rows_of p
      → i < length (operands_of p row)
      → operand_at p row i - 1 < between
      → between < row
      → Live (operand_at p row i - 1)
      → Live between
      → get_or slots (operand_at p row i - 1) 0 ≢ get_or slots between 0
  pub roots :
      (root later : ℕ)
      → root < later
      → later < rows_of p
      → get_or p.root_flags root 0 ≢ 0
      → Live root
      → Live later
      → get_or slots root 0 ≢ get_or slots later 0

IsAllocation-KeepsOperands :
    (p : Program) (last_uses : List ℕ) (live : Option (List ℕ)) (slots : List ℕ) (count : ℕ)
    → AreLastUses p last_uses
    → IsAllocation last_uses live slots count
    → KeepsOperands p (λ row. skipped live row ≡ false) slots count
IsAllocation-KeepsOperands p last_uses live slots count uses all = record {
  sized = omega (arith, uses.sized, all.sized);
  bounded = omega (arith, uses.sized, all.bounded);
  in_range = λ row inside alive. all.in_range row (omega (arith, uses.sized)) alive;
  operands = λ row i between inside i_inside after before o_alive b_alive.
      all.apart (operand_at p row i - 1) between after (omega (arith, uses.sized)) o_alive b_alive
        (omega (arith, uses.used row i inside i_inside));
  roots = λ root later lt inside is_root r_alive l_alive.
      all.apart root later lt (omega (arith, uses.sized)) r_alive l_alive
        (omega (arith, uses.roots root (omega arith) is_root));
}

AreLastUses-IsLastUses :
    (p : Program) (last_uses : List ℕ) (live : Option (List ℕ))
    → AreLastUses p last_uses
    → IsLastUses last_uses live
AreLastUses-IsLastUses p last_uses live uses row inside alive =
    let (lo, hi) = uses.bounds row (omega (arith, uses.sized)) in
    (lo, omega (arith, uses.sized, hi))

-- On a program that the validation accepts, slot assignment returns in both modes and changes only
-- the slots. In the slots of truth, no instruction between an operand and its consumer, and none
-- after a root, overwrites the result; the slots of reasons do the same for the rows that are live.
-- At least the roots are live and, with a group or a negation, its operands. Slots are counted from
-- 1, and there are at most as many as rows.
pub assign_slots-KeepsOperands :
    (p : Program) (mode : SlotMode)
    → validate_slot_program p ≡ true
    → (mode ≡ SlotMode.slot_reuse) ⊎ (mode ≡ SlotMode.slot_retain_all)
    → (q : Program) × (assign_slots p mode ≡ some q)
      × (q ≡ record p {
        truth_slots = q.truth_slots;
        reason_slots = q.reason_slots;
        truth_slot_count = q.truth_slot_count;
        reason_slot_count = q.reason_slot_count;
      })
      × KeepsOperands p (λ row. Unit {0}) q.truth_slots q.truth_slot_count
      × KeepsOperands p (Flagged (compute_reason_live p)) q.reason_slots q.reason_slot_count
      × AreReasonsLive p (compute_reason_live p)
unfolding assign_slots
assign_slots-KeepsOperands p mode valid either =
    let ordered = validate_slot_program-IsOrdered p valid in
    let live = compute_reason_live p in
    let flagged = compute_reason_live-AreReasonsLive p ordered in
    let (last_uses, computed, uses) = compute_last_uses-AreLastUses p valid in
    let n = length last_uses in
    let fits : n ≤ max_uint32 = omega (arith, ordered.fits, uses.sized) in
    let (truth, truth_peak, truth_returns, truth_is) =
      allocate_slots-IsAllocation last_uses none (replicate n 0) fits (length-replicate {A = ℕ} n 0)
        mode either refl (AreLastUses-IsLastUses p last_uses none uses) in
    let (reasons, reason_peak, reason_returns, reason_is) =
      allocate_slots-IsAllocation last_uses (some live) (replicate n 0) fits
        (length-replicate {A = ℕ} n 0) mode either (ground (arith, uses.sized, flagged.sized))
        (AreLastUses-IsLastUses p last_uses (some live) uses) in
    let kept = IsAllocation-KeepsOperands p last_uses none truth truth_peak uses truth_is in
    (
      record p {
        truth_slots = truth;
        reason_slots = reasons;
        truth_slot_count = truth_peak;
        reason_slot_count = reason_peak;
      },
      rw (computed, truth_returns, reason_returns),
      refl,
      record {
        sized = kept.sized;
        bounded = kept.bounded;
        in_range = λ row inside _. kept.in_range row inside refl;
        operands = λ row i between inside i_inside after before _ _.
            kept.operands row i between inside i_inside after before refl refl;
        roots =
            λ root later lt inside is_root _ _. kept.roots root later lt inside is_root refl refl;
      },
      IsAllocation-KeepsOperands p last_uses (some live) reasons reason_peak uses reason_is,
      flagged,
    )
