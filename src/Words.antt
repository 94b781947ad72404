-- ===== src/Words.antt =====
-- Machine words as native numbers, and the bits of a word.
use Prim.Native.Nat.{min, max, digits, bitwise, bit_and-bitwise, bit_or-bitwise}
use native.Mathlib.Nat.{pow-suc, one-le-pow}
use verifoxx.Common.{
  ℕ, zero, suc, ◌+◌, ◌-◌, ◌*◌, ◌/◌, ◌%◌, ◌^◌, ◌≤◌, ◌<◌, bit_and, bit_or, ◌≡◌, refl, sym, ◌∙◌, inl,
  inr, Bool-cases, Bool, false, not, ◌&&◌, ◌||◌, arith, ltb, ◌==◌,
}

-- `math.MaxUint32`
abbrev pub max_uint32 : ℕ
max_uint32 = 2 ^ 32 - 1

-- Bit `i` of `x`.
unfoldable pub bit : ℕ → ℕ → Bool
bit x zero = x % 2 == 1
bit x (suc i) = bit (x / 2) i

-- `^x` of an unsigned word of `w` bits.
abbrev pub complement : ℕ → ℕ → ℕ
complement w x = 2 ^ w - 1 - x

-- `a &^ b`: the bits of `a` less those that `b` has too.
abbrev pub and_not : ℕ → ℕ → ℕ
and_not a b = a - bit_and a b

module _ (last : ℕ → ℕ) (digit : ℕ → ℕ → ℕ) where
  digits-zero : (fuel b : ℕ) → digits last digit fuel zero b ≡ digits last digit zero zero b
  digits-zero zero b = refl
  digits-zero (suc fuel) b = refl

  -- Fuel beyond the number itself does not matter.
  digits-enough :
      (more fuel b a : ℕ)
      → fuel ≤ more
      → a ≤ fuel
      → digits last digit fuel a b ≡ digits last digit more a b
  digits-enough more fuel b zero le enough = digits-zero fuel b ∙ sym (digits-zero more b)
  digits-enough more zero b (suc a) le enough = absurd (omega arith)
  digits-enough zero (suc fuel) b (suc a) le enough = absurd (omega arith)
  digits-enough (suc more) (suc fuel) b (suc a) le enough =
      let rest = digits-enough more fuel (b / 2) (suc a / 2) (omega arith) (omega arith) in
      omega arith

  lowest_digit :
      (b a : ℕ)
      → 0 < a
      → bitwise last digit a b ≡ digit (a % 2) (b % 2) + 2 * bitwise last digit (a / 2) (b / 2)
  lowest_digit b zero positive = absurd (omega arith)
  lowest_digit b (suc a) positive =
      let enough = digits-enough a (suc a / 2) (b / 2) (suc a / 2) (omega arith) (omega arith) in
      omega arith

bit_or_halves : (a b : ℕ) → bit_or a b ≡ max (a % 2) (b % 2) + 2 * bit_or (a / 2) (b / 2)
bit_or_halves a b = elim (Bool-cases (a == 0)) [
  | inl none_of ↦
      let e : a ≡ 0 = ground arith in
      rw e (omega (arith, bit_or-bitwise 0 b, bit_or-bitwise 0 (b / 2)))
  | inr some_of ↦ omega (
    arith,
    bit_or-bitwise a b,
    bit_or-bitwise (a / 2) (b / 2),
    lowest_digit (λ y. y) max b a (ground arith),
  )
]

bit_and_halves : (a b : ℕ) → bit_and a b ≡ min (a % 2) (b % 2) + 2 * bit_and (a / 2) (b / 2)
bit_and_halves a b = elim (Bool-cases (a == 0)) [
  | inl none_of ↦
      let e : a ≡ 0 = ground arith in
      rw e (omega (arith, bit_and-bitwise 0 b, bit_and-bitwise 0 (b / 2)))
  | inr some_of ↦ omega (
    arith,
    bit_and-bitwise a b,
    bit_and-bitwise (a / 2) (b / 2),
    lowest_digit (λ y. 0) min b a (ground arith),
  )
]

half_and : (a b : ℕ) → bit_and a b / 2 ≡ bit_and (a / 2) (b / 2)
half_and a b = omega (arith, bit_and_halves a b)

half_or : (a b : ℕ) → bit_or a b / 2 ≡ bit_or (a / 2) (b / 2)
half_or a b = omega (arith, bit_or_halves a b)

pub bit-bit_and : (a b i : ℕ) → bit (bit_and a b) i ≡ (bit a i && bit b i)
unfolding bit
bit-bit_and a b zero = ground (arith, bit_and_halves a b)
bit-bit_and a b (suc i) = rw (half_and a b) (bit-bit_and (a / 2) (b / 2) i)

pub bit-bit_or : (a b i : ℕ) → bit (bit_or a b) i ≡ (bit a i || bit b i)
unfolding bit
bit-bit_or a b zero = ground (arith, bit_or_halves a b)
bit-bit_or a b (suc i) = rw (half_or a b) (bit-bit_or (a / 2) (b / 2) i)

bit_and-le_below : (n a b : ℕ) → a ≤ n → bit_and a b ≤ a
bit_and-le_below n zero b h = omega (arith, bit_and-bitwise 0 b)
bit_and-le_below zero (suc a) b h = absurd (omega arith)
bit_and-le_below (suc n) (suc a) b h =
    omega (arith, bit_and_halves (suc a) b, bit_and-le_below n (suc a / 2) (b / 2) (omega arith))

pub bit_and-le : (a b : ℕ) → bit_and a b ≤ a
bit_and-le a b = bit_and-le_below a a b (omega arith)

pub bit-and_not : (a b i : ℕ) → bit (and_not a b) i ≡ (bit a i && not (bit b i))
unfolding bit
bit-and_not a b zero = ground (arith, bit_and_halves a b, bit_and-le (a / 2) (b / 2))
bit-and_not a b (suc i) =
    let half : and_not a b / 2 ≡ and_not (a / 2) (b / 2) =
      omega (arith, bit_and_halves a b, bit_and-le (a / 2) (b / 2)) in
    rw half (bit-and_not (a / 2) (b / 2) i)

pub bit-zero : (i : ℕ) → bit 0 i ≡ false
unfolding bit
bit-zero zero = refl
bit-zero (suc i) = bit-zero i

pub bit-complement : (w x i : ℕ) → x < 2 ^ w → i < w → bit (complement w x) i ≡ not (bit x i)
unfolding bit
bit-complement zero x i h k = elim k [ ]
bit-complement (suc w) x zero h k = ground (arith, pow-suc 2 w)
bit-complement (suc w) x (suc i) h k =
    let half : complement (suc w) x / 2 ≡ complement w (x / 2) = omega (arith, pow-suc 2 w) in
    rw half (bit-complement w (x / 2) i (omega (arith, pow-suc 2 w)) (omega arith))

-- The mask of the `k` low bits.
pub bit-low_mask : (k i : ℕ) → bit (2 ^ k - 1) i ≡ ltb i k
unfolding bit
bit-low_mask zero i = bit-zero i ∙ ground arith
bit-low_mask (suc k) zero = ground (arith, pow-suc 2 k, one-le-pow k 2)
bit-low_mask (suc k) (suc i) =
    let half : (2 ^ suc k - 1) / 2 ≡ 2 ^ k - 1 = omega (arith, pow-suc 2 k, one-le-pow k 2) in
    rw half (bit-low_mask k i ∙ ground arith)

-- The one-hot word `1 << k`.
pub bit-pow : (k i : ℕ) → bit (2 ^ k) i ≡ (k == i)
unfolding bit
bit-pow zero zero = refl
bit-pow zero (suc i) = bit-zero i ∙ ground arith
bit-pow (suc k) zero = ground (arith, pow-suc 2 k)
bit-pow (suc k) (suc i) =
    let half : 2 ^ suc k / 2 ≡ 2 ^ k = omega (arith, pow-suc 2 k) in
    rw half (bit-pow k i ∙ ground arith)

bit_and-zero_below : (n a : ℕ) → a ≤ n → bit_and a 0 ≡ 0
bit_and-zero_below n zero h = refl
bit_and-zero_below zero (suc a) h = absurd (omega arith)
bit_and-zero_below (suc n) (suc a) h =
    omega (arith, bit_and_halves (suc a) 0, bit_and-zero_below n (suc a / 2) (omega arith))

pub bit_and-zero : (a : ℕ) → bit_and a 0 ≡ 0
bit_and-zero a = bit_and-zero_below a a (omega arith)

-- `x & (1 << k) != 0` reads bit `k`.
pub test_bit : (x k : ℕ) → not (bit_and x (2 ^ k) == 0) ≡ bit x k
unfolding bit
test_bit x zero = ground (arith, bit_and_halves x 1, bit_and-zero (x / 2))
test_bit x (suc k) =
    let halves = bit_and_halves x (2 ^ suc k) in
    let half : 2 ^ suc k / 2 ≡ 2 ^ k = omega (arith, pow-suc 2 k) in
    let even : 2 ^ suc k % 2 ≡ 0 = omega (arith, pow-suc 2 k) in
    rw (halves, half, even) (ground (arith, test_bit (x / 2) k))

-- A word of `n` bits is determined by them.
pub bits_ext : (n x y : ℕ) → x < 2 ^ n → y < 2 ^ n → ((i : ℕ) → i < n → bit x i ≡ bit y i) → x ≡ y
bits_ext zero x y hx hy h = omega arith
bits_ext (suc n) x y hx hy h =
    let low : (x % 2 == 1) ≡ (y % 2 == 1) = unfold bit in h 0 (omega arith) in
    let high : x / 2 ≡ y / 2 =
      bits_ext n (x / 2) (y / 2) (omega (arith, pow-suc 2 n)) (omega (arith, pow-suc 2 n))
        (λ i k. unfold bit in h (suc i) (omega arith)) in
    let same : x % 2 ≡ y % 2 = ground arith in omega arith

-- The bits beyond the width of a word are clear.
pub bit-beyond : (n x i : ℕ) → x < 2 ^ n → n ≤ i → bit x i ≡ false
unfolding bit
bit-beyond zero x i narrow wide = let e : x ≡ 0 = omega arith in rw e (bit-zero i)
bit-beyond (suc n) x zero narrow wide = absurd (omega arith)
bit-beyond (suc n) x (suc i) narrow wide =
    bit-beyond n (x / 2) i (omega (arith, pow-suc 2 n)) (omega arith)
