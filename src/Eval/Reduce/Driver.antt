-- ===== src/Eval/Reduce/Driver.antt =====
-- Where the driver of the in-place reduction of internal/eval/executor.go stands: the first operand
-- whose slot is that of the group.
use verifoxx.Common.{
  ◌⊎◌, some_inj, ℕ, ◌+◌, ◌≤◌, ◌<◌, ◌≡◌, true, false, none, some, List, [], ◌∷◌, arith, ◌==◌, inl,
  inr, Bool-cases,
}
use verifoxx.Eval.Reduce.{operand_slot, find_driver}

module _ (slots : List ℕ) (dst : ℕ) where
  find_driver-le : (os : List ℕ) (i d : ℕ) → find_driver slots dst os i ≡ some d → i ≤ d
  unfolding find_driver
  find_driver-le [] i d h = cc
  find_driver-le (o ∷ os) i d h = elim (Bool-cases (operand_slot slots o == dst)) [
    | inl here ↦ let e : i ≡ d = some_inj (rw here at h) in omega arith
    | inr other ↦ let rest = find_driver-le os (i + 1) d (rw other at h) in omega arith
  ]

  -- The driver is not an operand outside the destination.
  pub driver-here :
      (d i o : ℕ) (os : List ℕ)
      → (operand_slot slots o == dst) ≡ false
      → i ≡ d
      → (find_driver slots dst (o ∷ os) i ≡ some d) ⊎ (d < i)
      → ⊥
  unfolding find_driver
  driver-here d i o os other e (inl h) =
      let later = find_driver-le os (i + 1) d (rw other at h) in omega arith
  driver-here d i o os other e (inr h) = omega arith

  pub driver-found :
      (d i o : ℕ) (os : List ℕ)
      → (operand_slot slots o == dst) ≡ true
      → (find_driver slots dst (o ∷ os) i ≡ some d) ⊎ (d < i)
      → d < i + 1
  unfolding find_driver
  driver-found d i o os here (inl h) = let e : i ≡ d = some_inj (rw here at h) in omega arith
  driver-found d i o os here (inr h) = omega arith

  pub find_driver-none :
      (o : ℕ) (os : List ℕ) (i : ℕ)
      → find_driver slots dst (o ∷ os) i ≡ none
      → ((operand_slot slots o == dst) ≡ false) × (find_driver slots dst os (i + 1) ≡ none)
  unfolding find_driver
  find_driver-none o os i h = ground arith
