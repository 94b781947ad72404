-- ===== src/Compile/Slots/Lowest.antt =====
-- `takeLowestFreeSlot` of internal/compile/liveness.go: the search for a word, and its lowest bit.
use verifoxx.Common.{
  ℕ, zero, suc, ◌+◌, ◌-◌, ◌*◌, ◌/◌, ◌%◌, ◌^◌, ◌≤◌, ◌<◌, ◌≡◌, ◌≢◌, refl, sym, ap, ◌∙◌, Bool, true,
  false, not, ◌&&◌, ◌⊎◌, inl, inr, Bool-cases, some, List, [], ◌∷◌, arith, ltb, ◌==◌, if◌then◌else◌,
  length, get_or, set, drop, get_or-set_ne, get_or-set_self, get_or-drop, length-drop,
  get_or-beyond, length-set,
}
use verifoxx.Words.{bit, bit-zero, bit-pow, bit-and_not, and_not}
use verifoxx.Compile.Slots.{FreeSlots, trailing_zeros, skip_empty, take_lowest_free_slot}
use verifoxx.Compile.Slots.Laws.{
  is_free, IsFreeSlots, trailing_zeros-lowest, is_free-written, narrow-written,
}

-- The first word that is not zero.
record SkipsTo (values : List ℕ) (start result : ℕ) : Type 0 where
  from : start ≤ result
  to : result ≤ start + length values
  empty : (i : ℕ) → start + i < result → get_or values i 0 ≡ 0
  found : result < start + length values → get_or values (result - start) 0 ≢ 0

skip_empty-SkipsTo : (values : List ℕ) (start : ℕ) → SkipsTo values start (skip_empty values start)
unfolding skip_empty
skip_empty-SkipsTo [] start = record {
  from = omega arith;
  to = omega arith;
  empty = λ i below. refl;
  found = λ below. absurd (omega arith);
}
skip_empty-SkipsTo (value ∷ values) start = elim (Bool-cases (value == 0)) [
  | inl none_set ↦
      let rest = skip_empty-SkipsTo values (start + 1) in
      rw none_set (record {
        from = omega (arith, rest.from);
        to = omega (arith, rest.to);
        empty = λ i below. later rest none_set i below;
        found = λ below.
            let e : skip_empty values (start + 1) - start
                ≡ suc (skip_empty values (start + 1) - (start + 1)) =
              omega (arith, rest.from) in
            rw e (rest.found (omega arith));
      })
  | inr some_set ↦ rw some_set (record {
    from = omega arith;
    to = omega arith;
    empty = λ i below. absurd (omega arith);
    found = λ below e.
        let same : start - start ≡ 0 = omega arith in absurd (ground (arith, rw same at e));
  })
]
  where
    later :
        SkipsTo values (start + 1) (skip_empty values (start + 1))
        → (value == 0) ≡ true
        → (i : ℕ) → start + i < skip_empty values (start + 1)
        → get_or (value ∷ values) i 0 ≡ 0
    later rest none_set zero below = ground arith
    later rest none_set (suc i) below = rest.empty i (omega arith)

-- What `takeLowestFreeSlot` gives: no slot when none is free, and else the lowest one, taken out.
pub record TakesLowest (size : ℕ) (free : FreeSlots) : Type 0 where
  pub result : FreeSlots
  pub slot : ℕ
  pub returns : take_lowest_free_slot free ≡ some (result, slot)
  pub is : IsFreeSlots size result
  pub others : (t : ℕ) → 0 < t → is_free result t ≡ (is_free free t && not (t == slot))
  pub lowest : (t : ℕ) → 0 < t → (slot ≡ 0) ⊎ (t < slot) → is_free free t ≡ false
  pub was_free : 0 < slot → is_free free slot ≡ true

module _ (size : ℕ) (free : FreeSlots) (is : IsFreeSlots size free) where
  -- The word where the search ends.
  word : ℕ
  word = skip_empty (drop free.first free.words) free.first

  skips : SkipsTo (drop free.first free.words) free.first word
  unfolding word
  skips = skip_empty-SkipsTo (drop free.first free.words) free.first

  end : free.first + length (drop free.first free.words) ≡ size
  end = length-drop free.first free.words (ground (arith, is.sized, is.within)) ∙ is.sized

  -- The words before it are zero.
  empty_before : (w : ℕ) → w < word → get_or free.words w 0 ≡ 0
  empty_before w below = elim (Bool-cases (ltb w free.first)) [
    | inl skipped ↦ is.skipped w (ground arith)
    | inr later ↦
        let e : free.first + (w - free.first) ≡ w = ground arith in
        ap (λ i. get_or free.words i 0) (sym e)
        ∙ sym (get_or-drop free.first free.words (w - free.first) 0)
        ∙ skips.empty (w - free.first) (ground arith)
  ]

  not_free_before : (t : ℕ) → (t - 1) / 64 < word → is_free free t ≡ false
  unfolding is_free
  not_free_before t below = rw (empty_before ((t - 1) / 64) below) (bit-zero ((t - 1) % 64))

  take-none : word ≡ size → TakesLowest size free
  unfolding take_lowest_free_slot word
  take-none at_end =
      let stop : (word == length free.words) ≡ true = ground (arith, is.sized) in
      let none_free : (t : ℕ) → is_free free t ≡ false = λ t.
        elim (Bool-cases (ltb ((t - 1) / 64) size)) [
          | inl inside ↦ not_free_before t (ground arith)
          | inr outside ↦
              unfold is_free in
              rw (get_or-beyond free.words ((t - 1) / 64) 0 (ground (arith, is.sized)))
                (bit-zero ((t - 1) % 64))
        ] in
      record {
        result = record free { first = word };
        slot = 0;
        returns = unfold word in rw stop;
        is = record {
          sized = is.sized;
          narrow = is.narrow;
          within = omega arith;
          skipped = empty_before;
        };
        others = λ t positive. unfold is_free in ground arith;
        lowest = λ t positive _. none_free t;
        was_free = λ positive. absurd (omega arith);
      }

  module _ (inside : word < size) where
    value : ℕ
    value = get_or free.words word 0

    low : ℕ
    low = trailing_zeros 64 value

    value-some : value ≢ 0
    unfolding value
    value-some =
        let at_word : free.first + (word - free.first) ≡ word = omega (arith, skips.from) in
        λ e. skips.found (omega (arith, inside, end)) (
          get_or-drop free.first free.words (word - free.first) 0
          ∙ ap (λ i. get_or free.words i 0) at_word
          ∙ e)

    low-lowest : (low < 64) × (bit value low ≡ true) × ((i : ℕ) → i < low → bit value i ≡ false)
    unfolding low value
    low-lowest = trailing_zeros-lowest 64 (get_or free.words word 0) value-some (is.narrow word)

    taken : ℕ
    taken = word * 64 + low + 1

    taken-word : (taken - 1) / 64 ≡ word
    unfolding taken
    taken-word = omega (arith, low-lowest.0)

    taken-bit : (taken - 1) % 64 ≡ low
    unfolding taken
    taken-bit = omega (arith, low-lowest.0)

    -- The lowest bit is taken out of the word.
    cleared-bits :
        (i : ℕ)
        → bit (and_not value (2 ^ low)) i
          ≡ (bit (get_or free.words ((taken - 1) / 64) 0) i && not ((taken - 1) % 64 == i))
    unfolding value
    cleared-bits i =
        rw (taken-word, taken-bit)
          (bit-and_not (get_or free.words word 0) (2 ^ low) i
            ∙ ap (λ b. bit (get_or free.words word 0) i && not b) (bit-pow low i))

    after : ℕ
    after = if and_not value (2 ^ low) == 0 then word + 1 else word

    after-within : after ≤ size
    unfolding after
    after-within = ground (arith, inside)

    -- The words before the new start are zero.
    after-skipped :
        (w : ℕ) → w < after → get_or (set free.words word (and_not value (2 ^ low))) w 0 ≡ 0
    unfolding after
    after-skipped w below = elim (Bool-cases (w == word)) [
      | inl here ↦
          let e : w ≡ word = ground arith in
          rw
            (
              e,
              get_or-set_self free.words word (and_not value (2 ^ low)) 0
                  (omega (arith, inside, is.sized)),
            )
            (ground arith)
      | inr before ↦
          get_or-set_ne free.words word w (and_not value (2 ^ low)) 0 (ground arith)
          ∙ empty_before w (ground arith)
    ]

    taken-lowest : (t : ℕ) → 0 < t → t < taken → is_free free t ≡ false
    unfolding taken
    taken-lowest t positive below = elim (Bool-cases (ltb ((t - 1) / 64) word)) [
      | inl before ↦ not_free_before t (ground arith)
      | inr here ↦
          let e : (t - 1) / 64 ≡ word = ground (arith, low-lowest.0) in
          unfold is_free in rw e (unfold value in low-lowest.2 ((t - 1) % 64) (ground arith))
    ]

    take-returns :
        take_lowest_free_slot free
        ≡ some
            (record { words = set free.words word (and_not value (2 ^ low)); first = after }, taken)
    unfolding take_lowest_free_slot word value low taken after
    take-returns =
        let more : (word == length free.words) ≡ false = ground (arith, inside, is.sized) in
        let fine : ltb (length free.words) word ≡ false = ground (arith, inside, is.sized) in
        rw (more, fine)

    take-some : TakesLowest size free
    take-some =
        let drop_bit : Bool → Bool → Bool = λ a b. a && not b in
        let keeps : (b : Bool) → (b && not false) ≡ b = λ b. ground arith in
        let positive : 0 < taken = unfold taken in omega arith in
        let fits : (taken - 1) / 64 < size = rw taken-word inside in
        let cleared = and_not value (2 ^ low) in
        record {
          result = record { words = set free.words word cleared; first = after };
          slot = taken;
          returns = take-returns;
          is = record {
            sized = length-set free.words word cleared ∙ is.sized;
            narrow = rw taken-word at (
                narrow-written size taken cleared free is positive fits drop_bit cleared-bits keeps
                  after);
            within = after-within;
            skipped = after-skipped;
          };
          others = rw taken-word at (
              is_free-written size taken cleared free is positive fits drop_bit cleared-bits keeps
                after);
          lowest = λ t positive before. elim before [
            | inl none_left ↦ absurd (unfold taken in omega arith)
            | inr below ↦ taken-lowest t positive below
          ];
          was_free = λ positive.
              unfold is_free in rw (taken-word, taken-bit) (unfold value in low-lowest.1);
        }

-- Taking a slot gives the lowest free one, and none only when none is free.
pub take_lowest_free_slot-TakesLowest :
    (size : ℕ) (free : FreeSlots) → IsFreeSlots size free → TakesLowest size free
take_lowest_free_slot-TakesLowest size free is = elim (Bool-cases (ltb (word size free is) size)) [
  | inl inside ↦ take-some size free is (ground arith)
  | inr outside ↦ take-none size free is (ground (arith, (skips size free is).to, end size free is))
]
