-- ===== src/Compile/Slots.antt =====
-- internal/compile/liveness.go: the bitset of free slots.
-- Slots are one-based, and slot `s` is bit `(s - 1) % 64` of word `(s - 1) / 64`. `first` is the
-- word before which no slot is free.
pub mod Laws
pub mod Lowest
use verifoxx.Common.{
  ℕ, zero, suc, ◌+◌, ◌-◌, ◌*◌, ◌/◌, ◌%◌, ◌^◌, bit_and, bit_or, not, Option, none, some, List, [],
  ◌∷◌, ltb, leb, ◌==◌, if◌then◌else◌, length, get_or, set, drop,
}
use verifoxx.Words.{and_not}

-- `bits.TrailingZeros64`, on as many bits as are left.
unfoldable pub trailing_zeros : ℕ → ℕ → ℕ
trailing_zeros zero x = 0
trailing_zeros (suc bits) x =
    let rest = trailing_zeros bits (x / 2) in if x % 2 == 1 then 0 else suc rest

abbrev pub slot_word_count : ℕ → ℕ
slot_word_count n = n / 64 + (if n % 64 == 0 then 0 else 1)

pub record FreeSlots : Type 0 where
  pub words : List ℕ
  pub first : ℕ

-- `markSlotFree`; `none` is `ErrInvalidGeneratedProgram`.
unfoldable pub mark_slot_free : FreeSlots → ℕ → Option FreeSlots
mark_slot_free free slot =
    let bit_index = slot - 1 in
    let word = bit_index / 64 in
    let mask = 2 ^ (bit_index % 64) in
    let value = get_or free.words word 0 in
    if slot == 0
    then none
    else if leb (length free.words) word
    then none
    else if not (bit_and value mask == 0)
    then none
    else some (record {
      words = set free.words word (bit_or value mask);
      first = if ltb word free.first then word else free.first;
    })

-- `for word < len(words) && words[word] == 0 { word++ }`, over the words from `word` on.
unfoldable pub skip_empty : List ℕ → ℕ → ℕ
skip_empty [] word = word
skip_empty (value ∷ values) word =
    let rest = skip_empty values (word + 1) in if value == 0 then rest else word

-- `takeLowestFreeSlot`; slot 0 is the failure, and `none` a word out of range, which panics.
unfoldable pub take_lowest_free_slot : FreeSlots → Option (FreeSlots × ℕ)
take_lowest_free_slot free =
    let word = skip_empty (drop free.first free.words) free.first in
    let value = get_or free.words word 0 in
    let bit = trailing_zeros 64 value in
    let cleared = and_not value (2 ^ bit) in
    if word == length free.words
    then some (record free { first = word }, 0)
    else if ltb (length free.words) word
    then none
    else some (
      record {
        words = set free.words word cleared;
        first = if cleared == 0 then word + 1 else word;
      },
      word * 64 + bit + 1,
    )
