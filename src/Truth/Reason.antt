-- ===== src/Truth/Reason.antt =====
-- internal/truth/reason.go: the nine uncertainty reasons and the bitset of them.
use verifoxx.Common.{
  ℕ, ◌+◌, ◌-◌, ◌^◌, ◌≤◌, ◌<◌, bit_and, bit_or, ◌≡◌, ◌∙◌, Bool, true, false, not, ◌&&◌, ◌||◌, arith,
  ltb, leb, ◌==◌, Bool-cases, ◌⊎◌, inl, inr, sym, if◌then◌else◌, ==_iff, ap,
}
use native.Mathlib.Nat.{one-le-pow}
use verifoxx.Words.{
  test_bit, bits_ext, bit, complement, bit-bit_and, bit-bit_or, bit-zero, bit-pow, bit-complement,
  bit-low_mask,
}

abbrev pub reason_count : ℕ
reason_count = 9

-- The identifiers, one-based.
abbrev pub missing : ℕ
missing = 1

abbrev pub stale : ℕ
stale = 2

abbrev pub unclear : ℕ
unclear = 3

abbrev pub unverifiable : ℕ
unverifiable = 4

abbrev pub wrong_scope : ℕ
wrong_scope = 5

abbrev pub wrong_subject : ℕ
wrong_subject = 6

abbrev pub wrong_timing : ℕ
wrong_timing = 7

abbrev pub invalid : ℕ
invalid = 8

abbrev pub conflict : ℕ
conflict = 9

-- `1<<ReasonCount - 1`
abbrev pub all_reasons_mask : ℕ
all_reasons_mask = 2 ^ reason_count - 1

-- A mask is a `uint16`.
abbrev pub reason_bit : ℕ → ℕ
reason_bit reason = if ltb reason missing || ltb conflict reason then 0 else 2 ^ (reason - 1)

unfoldable pub with_reason : ℕ → ℕ → ℕ
with_reason mask reason = bit_or mask (reason_bit reason)

unfoldable pub has : ℕ → ℕ → Bool
has mask reason = let b = reason_bit reason in not (b == 0) && not (bit_and mask b == 0)

-- `mask&^AllReasonsMask == 0`
unfoldable pub valid_mask : ℕ → Bool
valid_mask mask = bit_and mask (complement 16 all_reasons_mask) == 0

-- A reason identifier that names a bit.
abbrev pub IsReason : ℕ → Type 0
IsReason reason = (missing ≤ reason) × (reason ≤ conflict)

pub reason_bit-IsReason : (reason : ℕ) → IsReason reason → reason_bit reason ≡ 2 ^ (reason - 1)
reason_bit-IsReason reason h = ground arith

two_pow-ne-zero : (k : ℕ) → (2 ^ k == 0) ≡ false
two_pow-ne-zero k = ground (arith, one-le-pow k 2)

-- A reason is in the mask when its bit is.
pub has-bit : (mask reason : ℕ) → IsReason reason → has mask reason ≡ bit mask (reason - 1)
unfolding has
has-bit mask reason h =
    rw (reason_bit-IsReason reason h, two_pow-ne-zero (reason - 1), test_bit mask (reason - 1))

pub has-not_IsReason : (mask reason : ℕ) → ¬ IsReason reason → has mask reason ≡ false
unfolding has
has-not_IsReason mask reason h = ground arith

reason_cases : (reason : ℕ) → IsReason reason ⊎ (¬ IsReason reason)
reason_cases reason = elim (Bool-cases (leb missing reason && leb reason conflict)) [
  | inl inside ↦ inl (ground arith)
  | inr outside ↦ inr (λ h. ground arith)
]

pub has-bit_or : (a b reason : ℕ) → has (bit_or a b) reason ≡ (has a reason || has b reason)
has-bit_or a b reason = elim (reason_cases reason) [
  | inl inside ↦
      rw (has-bit (bit_or a b) reason inside, has-bit a reason inside, has-bit b reason inside)
        (bit-bit_or a b (reason - 1))
  | inr outside ↦ rw (
    has-not_IsReason (bit_or a b) reason outside,
    has-not_IsReason a reason outside,
    has-not_IsReason b reason outside,
  )
]

pub has-zero : (reason : ℕ) → has 0 reason ≡ false
has-zero reason = elim (reason_cases reason) [
  | inl inside ↦ has-bit 0 reason inside ∙ bit-zero (reason - 1)
  | inr outside ↦ has-not_IsReason 0 reason outside
]

abbrev pub is_reason : ℕ → Bool
is_reason reason = leb missing reason && leb reason conflict

pub has-reason_bit :
    (reason other : ℕ) → has (reason_bit reason) other ≡ (is_reason reason && reason == other)
has-reason_bit reason other = elim (reason_cases reason) [
  | inl inside ↦ rw (reason_bit-IsReason reason inside) (elim (reason_cases other) [
    | inl other_inside ↦
        has-bit (2 ^ (reason - 1)) other other_inside
        ∙ bit-pow (reason - 1) (other - 1)
        ∙ ground arith
    | inr other_outside ↦ has-not_IsReason (2 ^ (reason - 1)) other other_outside ∙ ground arith
  ])
  | inr outside ↦
      let e : reason_bit reason ≡ 0 = ground arith in rw e (has-zero other ∙ ground arith)
]

-- Adding a reason to a mask adds that one and no other, and an identifier out of range adds none.
pub has-with_reason :
    (mask reason other : ℕ)
    → has (with_reason mask reason) other
      ≡ (has mask other || (is_reason reason && reason == other))
unfolding with_reason
has-with_reason mask reason other =
    has-bit_or mask (reason_bit reason) other
    ∙ ap (λ b. has mask other || b) (has-reason_bit reason other)

-- The bits above the nine reasons are clear in a valid mask.
valid_mask-high :
    (mask i : ℕ) → valid_mask mask ≡ true → reason_count ≤ i → i < 16 → bit mask i ≡ false
unfolding valid_mask
valid_mask-high mask i h lo hi =
    let clear : bit_and mask (complement 16 all_reasons_mask) ≡ 0 = (==_iff _ 0).0 h in
    let both : (bit mask i && bit (complement 16 all_reasons_mask) i) ≡ false =
      sym (bit-bit_and mask (complement 16 all_reasons_mask) i)
      ∙ ap (λ x. bit x i) clear
      ∙ bit-zero i in
    let one : bit (complement 16 all_reasons_mask) i ≡ true =
      bit-complement 16 all_reasons_mask i (omega arith) hi
      ∙ ap not (bit-low_mask reason_count i)
      ∙ ground arith in
    ground arith

-- A valid mask of 16 bits is a set of reasons: two of them with the same reasons are equal.
pub valid_mask_ext :
    (m n : ℕ)
    → m < 2 ^ 16
    → n < 2 ^ 16
    → valid_mask m ≡ true
    → valid_mask n ≡ true
    → ((reason : ℕ) → IsReason reason → has m reason ≡ has n reason)
    → m ≡ n
valid_mask_ext m n hm hn vm vn same = bits_ext 16 m n hm hn λ i hi.
    elim (Bool-cases (ltb i reason_count)) [
      | inl low ↦
          let inside : IsReason (i + 1) = ground arith in
          let e : i + 1 - 1 ≡ i = omega arith in
          rw e at (sym (has-bit m (i + 1) inside) ∙ same (i + 1) inside ∙ has-bit n (i + 1) inside)
      | inr high ↦
          valid_mask-high m i vm (ground arith) hi ∙ sym (valid_mask-high n i vn (ground arith) hi)
    ]
