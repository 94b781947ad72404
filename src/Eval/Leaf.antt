-- ===== src/Eval/Leaf.antt =====
-- internal/eval/scalar.go: the reason planes of a slot, and the outputs of a leaf instruction.
pub mod Rows
use verifoxx.Common.{
  ℕ, ◌+◌, ◌-◌, ◌*◌, ◌/◌, ◌%◌, ◌^◌, bit_or, Bool, true, false, ◌&&◌, ◌||◌, not, Option, none, some,
  List, ltb, ◌==◌, if◌then◌else◌, length, get_or, set, take, drop, replicate,
}
use verifoxx.Words.{complement}
use verifoxx.Truth.Planes.{Planes, word_count}
use verifoxx.Truth.Reason.{reason_count, missing, conflict}

-- One plane of words for each of the nine reasons, one behind the other.
pub record ReasonPlanes : Type 0 where
  pub words : List ℕ

-- `plane`
abbrev pub plane : ReasonPlanes → ℕ → ℕ → List ℕ
plane p reason words = take words (drop ((reason - 1) * words) p.words)

-- `Plane`, with its guards.
pub plane_checked : ReasonPlanes → ℕ → ℕ → Option (List ℕ)
plane_checked p reason rows =
    let words = word_count rows in
    if ltb reason missing || ltb conflict reason || not (length p.words == reason_count * words)
    then none
    else some (plane p reason words)

-- The truth and reason outputs of one instruction.
pub record Leaf : Type 0 where
  pub truth : Planes
  pub reasons : ReasonPlanes

abbrev pub cleared : ℕ → Leaf
cleared words = record {
  truth = record { positive = replicate words 0; negative = replicate words 0 };
  reasons = record { words = replicate (reason_count * words) 0 };
}

-- `resetLeafOutputs`
unfoldable pub reset_leaf_outputs : Leaf → ℕ → Option Leaf
reset_leaf_outputs dst rows =
    let words = word_count rows in
    if not (length dst.truth.positive == words)
      || not (length dst.truth.negative == words)
      || not (length dst.reasons.words == reason_count * words)
    then none
    else some (cleared words)

-- `leafWordMask`
abbrev pub leaf_word_mask : ℕ → ℕ → ℕ → ℕ
leaf_word_mask word words rows =
    if not (word + 1 == words) || rows % 64 == 0 then complement 64 0 else 2 ^ (rows % 64) - 1

-- `xs[word] |= 1 << k`
abbrev pub set_bit : List ℕ → ℕ → ℕ → List ℕ
set_bit xs word k = set xs word (bit_or (get_or xs word 0) (2 ^ k))
