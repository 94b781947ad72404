-- ===== src/Truth/Planes.antt =====
-- internal/truth/planes.go and scalar.go: two bitplanes hold one four-valued truth value per row.
-- A plane is the list of its 64-bit words; an operation returns the new destination, and `none`
-- where the source panics.
pub mod Rows
use verifoxx.Common.{
  ℕ, ◌+◌, ◌-◌, ◌/◌, ◌%◌, ◌^◌, bit_and, bit_or, Bool, true, false, ◌&&◌, Option, none, some, List,
  [], ◌∷◌, ◌==◌, if◌then◌else◌, length, get_or, set, replicate, tabulate,
}
use verifoxx.Words.{complement}

pub record Planes : Type 0 where
  pub positive : List ℕ
  pub negative : List ℕ

-- `int((uint64(rows) + 63) >> 6)`
abbrev pub word_count : ℕ → ℕ
word_count rows = (rows + 63) / 64

abbrev pub require_shape : Planes → ℕ → Bool
require_shape p words = length p.positive == words && length p.negative == words

-- `dst[last] &= mask`, with `last` taken from the positive plane.
pub mask_tail : Planes → ℕ → Planes
mask_tail dst rows =
    let remaining = rows % 64 in
    let last = length dst.positive - 1 in
    let mask = 2 ^ remaining - 1 in
    if remaining == 0 then dst else record {
      positive = set dst.positive last (bit_and (get_or dst.positive last 0) mask);
      negative = set dst.negative last (bit_and (get_or dst.negative last 0) mask);
    }

-- One word of each operation.
pub record Word : Type 0 where
  pub positive : ℕ
  pub negative : ℕ

abbrev pub not_word : ℕ → ℕ → Word
not_word positive negative = record { positive = negative; negative = positive }

abbrev pub and_word : ℕ → ℕ → ℕ → ℕ → Word
and_word l_positive l_negative r_positive r_negative = record {
  positive = bit_and l_positive r_positive;
  negative = bit_or l_negative r_negative;
}

abbrev pub or_word : ℕ → ℕ → ℕ → ℕ → Word
or_word l_positive l_negative r_positive r_negative = record {
  positive = bit_or l_positive r_positive;
  negative = bit_and l_negative r_negative;
}

-- The loop `for i := 0; i < words; i++` that writes both words of the destination.
pub combine : ℕ → (ℕ → ℕ → ℕ → ℕ → Word) → Planes → Planes → Planes
combine words f l r =
    let word : ℕ → Word = λ i.
      f (get_or l.positive i 0) (get_or l.negative i 0) (get_or r.positive i 0)
        (get_or r.negative i 0) in
    record {
      positive = tabulate words (λ i. (word i).positive);
      negative = tabulate words (λ i. (word i).negative);
    }

-- `Set`
pub set_all : Planes → Bool → ℕ → Option Planes
set_all dst value rows =
    let words = word_count rows in
    let zeros = replicate words 0 in
    let ones = replicate words (complement 64 0) in
    if require_shape dst words
    then some (
        mask_tail
          (if value
            then record { positive = ones; negative = zeros }
            else record { positive = zeros; negative = ones })
          rows)
    else none

-- `Not`
pub not_planes : Planes → Planes → ℕ → Option Planes
not_planes dst src rows =
    let words = word_count rows in
    if require_shape dst words && require_shape src words
    then some (mask_tail (combine words (λ a b _ _. not_word a b) src src) rows)
    else none

-- `And`
pub and_planes : Planes → Planes → Planes → ℕ → Option Planes
and_planes dst left right rows =
    let words = word_count rows in
    if require_shape dst words && require_shape left words && require_shape right words
    then some (mask_tail (combine words and_word left right) rows)
    else none

-- `Or`
pub or_planes : Planes → Planes → Planes → ℕ → Option Planes
or_planes dst left right rows =
    let words = word_count rows in
    if require_shape dst words && require_shape left words && require_shape right words
    then some (mask_tail (combine words or_word left right) rows)
    else none
