-- ===== src/Tests/Compile.antt =====
-- Slots of a program of three instructions, the last of which joins the others.
use verifoxx.Common.{
  ℕ, zero, suc, ◌≤◌, ◌≡◌, refl, true, false, inl, some, none, List, [], ◌∷◌, arith, get_or,
}
use verifoxx.Compile.Slots.{
  FreeSlots, take_lowest_free_slot, skip_empty, mark_slot_free, trailing_zeros,
}
use verifoxx.Words.{bit, bit-zero, bit-beyond}
use verifoxx.Compile.Slots.Laws.{IsFreeSlots}
use verifoxx.Compile.Slots.Lowest.{TakesLowest, take_lowest_free_slot-TakesLowest}
use verifoxx.Compile.Allocate.{SlotMode, allocate_slots}
use verifoxx.Compile.Allocate.Chain.{IsLastUses}
use verifoxx.Compile.Allocate.Correct.{IsAllocation, allocate_slots-IsAllocation}
use verifoxx.Compile.Lifetimes.{validate_slot_program, assign_slots, compute_reason_live}
use verifoxx.Compile.Lifetimes.Reasons.{Flagged, AreReasonsLive}
use verifoxx.Compile.Lifetimes.Correct.{KeepsOperands, assign_slots-KeepsOperands}
use verifoxx.Program.{Program}
use verifoxx.Tests.Policy.{policy}

-- Four rows, the second of which is used at once, and the third by the last.
abbrev uses : List ℕ
uses = 3 ∷ 1 ∷ 3 ∷ 4 ∷ []

uses-IsLastUses : IsLastUses uses none
uses-IsLastUses zero inside alive = (omega arith, omega arith)
uses-IsLastUses (suc zero) inside alive = (omega arith, omega arith)
uses-IsLastUses (suc (suc zero)) inside alive = (omega arith, omega arith)
uses-IsLastUses (suc (suc (suc zero))) inside alive = (omega arith, omega arith)
uses-IsLastUses (suc (suc (suc (suc row)))) inside alive = absurd (omega arith)

allocate_slots-IsAllocation_example :
    (slots : List ℕ) × (peak : ℕ) × (allocate_slots uses none
        (0 ∷ 0 ∷ 0 ∷ 0 ∷ [])
        SlotMode.slot_reuse
      ≡ some (slots, peak))
    × IsAllocation uses none slots peak
allocate_slots-IsAllocation_example =
    allocate_slots-IsAllocation uses none (0 ∷ 0 ∷ 0 ∷ 0 ∷ []) (omega arith) refl
      SlotMode.slot_reuse (inl refl) refl uses-IsLastUses

allocate_reuses :
    allocate_slots uses none (0 ∷ 0 ∷ 0 ∷ 0 ∷ []) SlotMode.slot_reuse ≡ some (1 ∷ 2 ∷ 2 ∷ 1 ∷ [], 2)
unfolding allocate_slots take_lowest_free_slot skip_empty mark_slot_free trailing_zeros
allocate_reuses = refl

-- Slots 2 and 4 are free.
abbrev two_free : FreeSlots
two_free = record { words = 10 ∷ []; first = 0 }

two_free-narrow : (word i : ℕ) → 64 ≤ i → bit (get_or two_free.words word 0) i ≡ false
two_free-narrow zero i wide = bit-beyond 64 10 i (omega arith) wide
two_free-narrow (suc word) i wide = bit-zero i

two_free-IsFreeSlots : IsFreeSlots 1 two_free
two_free-IsFreeSlots = record {
  sized = refl;
  narrow = two_free-narrow;
  within = omega arith;
  skipped = λ word below. absurd (omega arith);
}

take_lowest_free_slot-TakesLowest_example : TakesLowest 1 two_free
take_lowest_free_slot-TakesLowest_example =
    take_lowest_free_slot-TakesLowest 1 two_free two_free-IsFreeSlots

policy-valid : validate_slot_program policy ≡ true
unfolding validate_slot_program
policy-valid = refl

assign_slots-KeepsOperands_example :
    (q : Program) × (assign_slots policy SlotMode.slot_reuse ≡ some q)
    × (q ≡ record policy {
      truth_slots = q.truth_slots;
      reason_slots = q.reason_slots;
      truth_slot_count = q.truth_slot_count;
      reason_slot_count = q.reason_slot_count;
    })
    × KeepsOperands policy (λ row. Unit {0}) q.truth_slots q.truth_slot_count
    × KeepsOperands policy (Flagged (compute_reason_live policy)) q.reason_slots q.reason_slot_count
    × AreReasonsLive policy (compute_reason_live policy)
assign_slots-KeepsOperands_example =
    assign_slots-KeepsOperands policy SlotMode.slot_reuse policy-valid (inl refl)
