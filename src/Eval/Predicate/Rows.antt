-- ===== src/Eval/Predicate/Rows.antt =====
-- The last loop of `evalPredicate` in internal/eval/predicate.go, request by request.
use verifoxx.Common.{
  ℕ, zero, suc, ◌+◌, ◌-◌, ◌*◌, ◌/◌, ◌%◌, ◌^◌, ◌≤◌, ◌<◌, ◌≡◌, refl, ap, ◌∙◌, bit_and, bit_or, Bool,
  true, false, ◌&&◌, ◌||◌, not, List, ◌++◌, arith, ltb, leb, ◌==◌, if◌then◌else◌, length, get_or,
  tabulate, replicate, length-tabulate, length-replicate, length-append, get_or-tabulate,
  get_or-append_left, get_or-append_right, get_or-zeros, inl, inr, Bool-cases,
}
use verifoxx.Words.{
  bit, bit-bit_and, bit-bit_or, bit-and_not, bit-zero, bit-pow, bit-complement, bit-low_mask,
}
use verifoxx.Truth.Planes.{word_count}
use verifoxx.Truth.Planes.Rows.{State, row_bit, exactly}
use verifoxx.Truth.Reason.{reason_count, IsReason, missing}
use verifoxx.Program.{Opcode}
use verifoxx.Eval.Leaf.{leaf_word_mask}
use verifoxx.Eval.Leaf.Rows.{reason_at, HasLeafShape}
use verifoxx.Eval.Predicate.{leaf_word, write_leaf, gather, word_matches}

-- Gathering sets the bits of the requests that pass the test.
gather-bit :
    (test : ℕ → Bool) (left request acc word r : ℕ)
    → word ≡ r / 64
    → word * 64 ≤ request
    → request + left ≤ word * 64 + 64
    → bit (gather test left request acc) (r % 64)
      ≡ (bit acc (r % 64) || (leb request r && ltb r (request + left) && test r))
unfolding gather
gather-bit test zero request acc word r e lo hi = ground arith
gather-bit test (suc left) request acc word r e lo hi =
    gather-bit test left (request + 1)
      (if test request then bit_or acc (2 ^ (request % 64)) else acc) word r e (omega arith)
      (omega arith)
    ∙ elim (Bool-cases (test request)) [
      | inl passes ↦
          rw (passes, bit-bit_or acc (2 ^ (request % 64)) (r % 64), bit-pow (request % 64) (r % 64))
            (elim (Bool-cases (request == r)) [
              | inl same ↦ let er : request ≡ r = ground arith in rw (← er, passes) (ground arith)
              | inr apart ↦ ground arith
            ])
      | inr fails ↦ rw fails (elim (Bool-cases (request == r)) [
        | inl same ↦ let er : request ≡ r = ground arith in rw (← er, fails) (ground arith)
        | inr apart ↦ ground arith
      ])
    ]

-- A word of matches has the bit of each request that passes the test.
pub word_matches-bit :
    (test : ℕ → Bool) (rows row : ℕ)
    → row < rows
    → bit (word_matches test rows (row / 64)) (row % 64) ≡ test row
unfolding word_matches
word_matches-bit test rows row lt =
    let start = row / 64 * 64 in
    let end = if ltb (start + 64) rows then start + 64 else rows in
    gather-bit test (end - start) start 0 (row / 64) row refl (omega arith) (ground arith)
    ∙ rw (bit-zero (row % 64)) (ground arith)

-- Every request of the batch lies under the mask of its word.
leaf_word_mask-bit :
    (rows row : ℕ)
    → row < rows
    → bit (leaf_word_mask (row / 64) (word_count rows) rows) (row % 64) ≡ true
leaf_word_mask-bit rows row lt =
    elim (Bool-cases (not (row / 64 + 1 == word_count rows) || rows % 64 == 0)) [
      | inl whole ↦
          rw whole
            (bit-complement 64 0 (row % 64) (omega arith) (omega arith) ∙ rw (bit-zero (row % 64)))
      | inr partial ↦ rw partial (bit-low_mask (rows % 64) (row % 64) ∙ ground arith)
    ]

-- The truth value of a request, from the presence of its fact and the match.
abbrev pub leaf_state : Opcode → Bool → Bool → State
leaf_state Opcode.defined present found = exactly present
leaf_state Opcode.exists present found = record { positive = present; negative = false }
leaf_state _ present found = record { positive = present && found; negative = present && not found }

abbrev pub leaf_missing : Opcode → Bool → Bool
leaf_missing Opcode.defined present = false
leaf_missing _ present = not present

leaf_word-bits :
    (opcode : Opcode) (valid present found i : ℕ)
    → bit valid i ≡ true
    → (bit (leaf_word opcode valid (bit_and present valid) found).positive i
        ≡ (leaf_state opcode (bit present i) (bit found i)).positive)
      × (bit (leaf_word opcode valid (bit_and present valid) found).negative i
          ≡ (leaf_state opcode (bit present i) (bit found i)).negative)
      × (bit (leaf_word opcode valid (bit_and present valid) found).missing i
          ≡ leaf_missing opcode (bit present i))
leaf_word-bits Opcode.defined valid present found i v = (
  bit-bit_and present valid i ∙ ground arith,
  bit-and_not valid (bit_and present valid) i ∙ ground (arith, bit-bit_and present valid i),
  bit-zero i,
)
leaf_word-bits Opcode.exists valid present found i v = (
  bit-bit_and present valid i ∙ ground arith,
  bit-zero i,
  bit-and_not valid (bit_and present valid) i ∙ ground (arith, bit-bit_and present valid i),
)
leaf_word-bits _ valid present found i v = (
  bit-bit_and (bit_and present valid) found i ∙ ground (arith, bit-bit_and present valid i),
  bit-and_not (bit_and present valid) found i ∙ ground (arith, bit-bit_and present valid i),
  bit-and_not valid (bit_and present valid) i ∙ ground (arith, bit-bit_and present valid i),
)

first_plane-length :
    (words : ℕ) (f : ℕ → ℕ)
    → length (tabulate words f ++ replicate ((reason_count - 1) * words) 0) ≡ reason_count * words
first_plane-length words f =
    length-append (tabulate words f) (replicate ((reason_count - 1) * words) 0)
    ∙ omega
        (arith, length-tabulate words f, length-replicate {A = ℕ} ((reason_count - 1) * words) 0)

pub write_leaf-HasLeafShape :
    (opcode : Opcode) (presence : List ℕ) (found : ℕ → ℕ) (rows : ℕ)
    → HasLeafShape rows (write_leaf opcode presence found rows)
unfolding write_leaf
write_leaf-HasLeafShape opcode presence found rows = record {
  truth = record { positive = length-tabulate _ _; negative = length-tabulate _ _ };
  reasons = first_plane-length (word_count rows) _;
}

-- The first plane holds `f`, and the other planes nothing.
first_plane-get_or :
    (words : ℕ) (f : ℕ → ℕ) (q word : ℕ)
    → IsReason q
    → word < words
    → get_or
        (tabulate words f ++ replicate ((reason_count - 1) * words) 0)
        ((q - 1) * words + word)
        0
      ≡ (if q == missing then f word else 0)
first_plane-get_or words f (suc zero) word h lt =
    let e : (1 - 1) * words + word ≡ word = omega arith in
    rw e (
      get_or-append_left (tabulate words f) (replicate ((reason_count - 1) * words) 0) word 0
        (rw length-tabulate lt)
      ∙ get_or-tabulate words f word 0 lt)
first_plane-get_or words f (suc (suc q)) word h lt =
    let e : suc (suc q) - 1 ≡ suc q = omega arith in
    let other : (suc (suc q) == missing) ≡ false = ground arith in
    rw (e, other)
      (get_or-append_right (tabulate words f) (replicate ((reason_count - 1) * words) 0)
          (suc q * words + word) 0 (rw length-tabulate (omega arith))
        ∙ get_or-zeros ((reason_count - 1) * words) _ 0)
first_plane-get_or words f zero word h lt = absurd (omega arith)

-- What a request holds after `evalPredicate`: its value, and `missing` or no reason.
pub write_leaf-row :
    (opcode : Opcode) (presence : List ℕ) (found : ℕ → ℕ) (rows row : ℕ)
    → row < rows
    → let present = row_bit presence row in
      let value = leaf_state opcode present (bit (found (row / 64)) (row % 64)) in
      let out = write_leaf opcode presence found rows in
      (row_bit out.truth.positive row ≡ value.positive)
      × (row_bit out.truth.negative row ≡ value.negative)
      × ((q : ℕ)
          → IsReason q
          → reason_at rows out.reasons q row ≡ (q == missing && leaf_missing opcode present))
unfolding write_leaf
write_leaf-row opcode presence found rows row lt =
    let words = word_count rows in
    let word = row / 64 in
    let inside : word < words = omega arith in
    let valid = leaf_word_mask word words rows in
    let present = get_or presence word 0 in
    let bits =
      leaf_word-bits opcode valid present (found word) (row % 64)
        (leaf_word_mask-bit rows row lt) in
    (
      rw (get_or-tabulate {A = ℕ} words _ word 0 inside) bits.0,
      rw (get_or-tabulate {A = ℕ} words _ word 0 inside) bits.1,
      λ q hq.
          ap (λ w. bit w (row % 64)) (first_plane-get_or words _ q word hq inside)
          ∙ elim (Bool-cases (q == missing)) [
            | inl is ↦ rw is bits.2
            | inr other ↦ rw other (bit-zero (row % 64))
          ],
    )
