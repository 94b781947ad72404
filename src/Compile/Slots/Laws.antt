-- ===== src/Compile/Slots/Laws.antt =====
-- The bitset of internal/compile/liveness.go as a set of slots.
use verifoxx.Common.{
  ℕ, zero, suc, ◌-◌, ◌/◌, ◌%◌, ◌^◌, ◌≤◌, ◌<◌, bit_and, bit_or, ◌≡◌, ◌≢◌, refl, sym, ◌∙◌, Bool, true,
  false, not, ◌||◌, inl, inr, Bool-cases, some, List, arith, ltb, leb, ◌==◌, if◌then◌else◌, length,
  get_or, set, get_or-set_self, get_or-set_ne, length-set,
}
use verifoxx.Words.{bit, bit-pow, bit-bit_or, test_bit}
use verifoxx.Compile.Slots.{FreeSlots, trailing_zeros, mark_slot_free}

-- Whether a slot is free.
unfoldable pub is_free : FreeSlots → ℕ → Bool
is_free free slot = bit (get_or free.words ((slot - 1) / 64) 0) ((slot - 1) % 64)

-- The words have 64 bits, and none before `first` has one that is set.
pub record IsFreeSlots (size : ℕ) (free : FreeSlots) : Type 0 where
  pub sized : length free.words ≡ size
  pub narrow : (word i : ℕ) → 64 ≤ i → bit (get_or free.words word 0) i ≡ false
  pub within : free.first ≤ size
  pub skipped : (word : ℕ) → word < free.first → get_or free.words word 0 ≡ 0

bits_clear : (n x : ℕ) → x ≤ n → ((i : ℕ) → bit x i ≡ false) → x ≡ 0
unfolding bit
bits_clear n zero le clear = refl
bits_clear zero (suc x) le clear = absurd (omega arith)
bits_clear (suc n) (suc x) le clear =
    let half = bits_clear n (suc x / 2) (omega arith) (λ i. clear (suc i)) in
    let low = clear 0 in ground arith

-- The lowest bit of a word that is not zero.
pub trailing_zeros-lowest :
    (n x : ℕ)
    → x ≢ 0
    → ((i : ℕ) → n ≤ i → bit x i ≡ false)
    → (trailing_zeros n x < n)
      × (bit x (trailing_zeros n x) ≡ true)
      × ((i : ℕ) → i < trailing_zeros n x → bit x i ≡ false)
unfolding trailing_zeros bit
trailing_zeros-lowest zero x some_bit clear =
    absurd (some_bit (bits_clear x x (omega arith) (λ i. clear i (omega arith))))
trailing_zeros-lowest (suc n) x some_bit clear = elim (Bool-cases (x % 2 == 1)) [
  | inl odd ↦ rw odd (omega arith, odd, λ i below. absurd (omega arith))
  | inr even ↦
      let (inside, found, lowest) =
        trailing_zeros-lowest n (x / 2) (λ e. some_bit (ground arith))
          (λ i le. clear (suc i) (omega arith)) in
      rw even (omega arith, found, λ i below. lower even lowest i below)
]
  where
    lower :
        (x % 2 == 1) ≡ false
        → ((i : ℕ) → i < trailing_zeros n (x / 2) → bit (x / 2) i ≡ false)
        → (i : ℕ) → i < suc (trailing_zeros n (x / 2))
        → bit x i ≡ false
    lower even lowest zero below = unfold bit in even
    lower even lowest (suc i) below = unfold bit in lowest i (omega arith)

-- A word after a write of word `i`.
get_or-set :
    (words : List ℕ) (i j v : ℕ)
    → i < length words
    → get_or (set words i v) j 0 ≡ (if i == j then v else get_or words j 0)
get_or-set words i j v inside = elim (Bool-cases (i == j)) [
  | inl same ↦ let e : j ≡ i = ground arith in rw (same, e) (get_or-set_self words i v 0 inside)
  | inr other ↦ rw other (get_or-set_ne words i j v 0 (ground arith))
]

-- Writing a bit of a word.
module _ (size slot value : ℕ) (free : FreeSlots) (is : IsFreeSlots size free)
    (slot_positive : 0 < slot) (slot_fits : (slot - 1) / 64 < size) (change : Bool → Bool → Bool)
    (value_is : (i : ℕ)
      → bit value i ≡ change (bit (get_or free.words ((slot - 1) / 64) 0) i) ((slot - 1) % 64 == i))
    (keeps : (b : Bool) → change b false ≡ b) where
  abbrev written : ℕ → FreeSlots
  written first = record { words = set free.words ((slot - 1) / 64) value; first = first }

  word_inside : (slot - 1) / 64 < length free.words
  word_inside = omega (arith, slot_fits, is.sized)

  pub is_free-written :
      (first t : ℕ) → 0 < t → is_free (written first) t ≡ change (is_free free t) (t == slot)
  unfolding is_free
  is_free-written first t positive = elim (Bool-cases ((slot - 1) / 64 == (t - 1) / 64)) [
    | inl same ↦
        let e : (t - 1) / 64 ≡ (slot - 1) / 64 = ground arith in
        let here : ((slot - 1) % 64 == (t - 1) % 64) ≡ (t == slot) = ground arith in
        rw (e, get_or-set_self free.words ((slot - 1) / 64) value 0 word_inside, sym here)
          (value_is ((t - 1) % 64))
    | inr other ↦
        let e : (t == slot) ≡ false = ground arith in
        rw (
          e,
          get_or-set_ne free.words ((slot - 1) / 64) ((t - 1) / 64) value 0 (ground arith),
          keeps (bit (get_or free.words ((t - 1) / 64) 0) ((t - 1) % 64)),
        )
  ]

  pub narrow-written :
      (first word i : ℕ) → 64 ≤ i → bit (get_or (written first).words word 0) i ≡ false
  narrow-written first word i wide =
      rw (get_or-set free.words ((slot - 1) / 64) word value word_inside)
        (elim (Bool-cases ((slot - 1) / 64 == word)) [
          | inl same ↦
              let beyond : ((slot - 1) % 64 == i) ≡ false = ground arith in
              rw (same, value_is i, beyond, keeps (bit (get_or free.words ((slot - 1) / 64) 0) i))
                (is.narrow ((slot - 1) / 64) i wide)
          | inr other ↦ rw other (is.narrow word i wide)
        ])

  pub length-written : (first : ℕ) → length (written first).words ≡ size
  length-written first = length-set free.words ((slot - 1) / 64) value ∙ is.sized

-- Marking a slot that is not free.
pub mark_slot_free-Adds :
    (size slot : ℕ) (free : FreeSlots)
    → IsFreeSlots size free
    → 0 < slot
    → (slot - 1) / 64 < size
    → is_free free slot ≡ false
    → (result : FreeSlots) × (mark_slot_free free slot ≡ some result)
      × IsFreeSlots size result
      × ((t : ℕ) → 0 < t → is_free result t ≡ (is_free free t || t == slot))
unfolding is_free mark_slot_free
mark_slot_free-Adds size slot free is positive fits taken =
    let word = (slot - 1) / 64 in
    let mask = 2 ^ ((slot - 1) % 64) in
    let value = bit_or (get_or free.words word 0) mask in
    let first = if ltb word free.first then word else free.first in
    let value_is : (i : ℕ)
        → bit value i ≡ (bit (get_or free.words word 0) i || (slot - 1) % 64 == i) =
      λ i. bit-bit_or (get_or free.words word 0) mask i ∙ rw (bit-pow ((slot - 1) % 64) i) in
    let keeps : (b : Bool) → (b || false) ≡ b = λ b. ground arith in
    let either : Bool → Bool → Bool = λ a b. a || b in
    let outside : leb (length free.words) word ≡ false = ground (arith, is.sized) in
    let unmarked : not (bit_and (get_or free.words word 0) mask == 0) ≡ false =
      test_bit (get_or free.words word 0) ((slot - 1) % 64) ∙ taken in
    let some_slot : (slot == 0) ≡ false = ground arith in
    (
      record { words = set free.words word value; first = first },
      rw (some_slot, outside, unmarked),
      record {
        sized = length-written size slot value free is positive fits either value_is keeps first;
        narrow = narrow-written size slot value free is positive fits either value_is keeps first;
        within = ground (arith, is.within);
        skipped = λ w below.
            get_or-set_ne free.words word w value 0 (ground arith) ∙ is.skipped w (ground arith);
      },
      unfold is_free in
          is_free-written size slot value free is positive fits either value_is keeps first,
    )
