-- ===== src/Eval/Reduce.antt =====
-- The in-place reduction of internal/eval/executor.go that `reduceTruthGroup` and
-- `reduceReasonGroup` share: the slots of the operands are combined into the slot of the group,
-- which may be the slot of one of the operands, the driver.
pub mod Semantics
pub mod Driver
pub mod Correct
pub mod Truth
pub mod Reasons
use verifoxx.Common.{
  ℕ, ◌+◌, ◌-◌, Option, none, some, List, [], ◌∷◌, ◌==◌, if◌then◌else◌, get_elem?, get_or, set,
  ◌>>=◌,
}

-- The window of a one-based slot; a slot out of range panics.
abbrev pub slot_of {ℓ} : {S : Type ℓ} → List S → ℕ → Option S
slot_of store slot = if slot == 0 then none else get_elem? store (slot - 1)

-- The slot of a one-based operand. Operand 0 and one out of range, where the source panics, have slot
-- 0: it has no window, and it is not that of the group, whose own window is read first.
abbrev pub operand_slot : List ℕ → ℕ → ℕ
operand_slot slots operand = if operand == 0 then 0 else get_or slots (operand - 1) 0

-- The first operand whose slot is the destination, from index `i` on.
unfoldable pub find_driver : List ℕ → ℕ → List ℕ → ℕ → Option ℕ
find_driver slots dst [] i = none
find_driver slots dst (operand ∷ operands) i =
    if operand_slot slots operand == dst then some i else find_driver slots dst operands (i + 1)

module _ {ℓ} {S : Type ℓ} (combine : S → S → Option S) (slots : List ℕ) (dst : ℕ) where
  -- The body of the second loop, for an operand that is not the driver.
  combine_operand : List S → ℕ → Option (List S)
  combine_operand store operand = do
    src ← slot_of store (operand_slot slots operand)
    current ← slot_of store dst
    result ← combine current src
    some (set store (dst - 1) result)

  -- The second loop, from index `i` on.
  combine_operands : ℕ → ℕ → List ℕ → List S → Option (List S)
  combine_operands driver i [] store = some store
  combine_operands driver i (operand ∷ operands) store = do
    next ← (if i == driver then some store else combine_operand store operand)
    combine_operands driver (i + 1) operands next

  -- With no driver, the first operand is copied into the destination and becomes the driver.
  reduce_from : Option ℕ → List ℕ → List S → Option (List S)
  reduce_from (some driver) operands store = combine_operands driver 0 operands store
  reduce_from none [] store = none
  reduce_from none (operand ∷ operands) store = do
    src ← slot_of store (operand_slot slots operand)
    current ← slot_of store dst
    combine_operands 0 0 (operand ∷ operands) (set store (dst - 1) src)

  pub reduce_group : List ℕ → List S → Option (List S)
  unfolding reduce_from combine_operands combine_operand
  reduce_group operands store = do
    current ← slot_of store dst
    reduce_from (find_driver slots dst operands 0) operands store
