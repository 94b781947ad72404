-- ===== src/Schema/Interner/Probe.antt =====
-- The probes of internal/schema/symbols.go: the slots that they visit, and how full a table is.
use native.Mathlib.Nat.{one-le-pow}
use verifoxx.Common.{
  ℕ, zero, suc, ◌+◌, ◌-◌, ◌^◌, ◌≤◌, ◌<◌, bit_and, ◌≡◌, ◌≢◌, refl, sym, ap, ◌∙◌, subst, true, false,
  ◌⊎◌, inl, inr, Bool-cases, some, List, [], ◌∷◌, arith, ltb, leb, ◌==◌, if◌then◌else◌, length,
  get_or, set, replicate,
}
use verifoxx.Words.{bit-bit_and, bit-low_mask, bit-pow, bit-zero, bits_ext, bit_and-le}
use verifoxx.Program.Symbols.{bytes_equal}
use verifoxx.Schema.Interner.{
  Interner, Place, found, vacant, read, no_ref, first_slot, next_slot, hash_symbol, probe,
  probe_vacant,
}

-- Masking with one less than a power of two.
bit_and-low : (k x : ℕ) → x < 2 ^ k → bit_and (2 ^ k - 1) x ≡ x
bit_and-low k x small =
    bits_ext k (bit_and (2 ^ k - 1) x) x (omega (arith, bit_and-le (2 ^ k - 1) x, one-le-pow k 2))
      small (λ i below. let low = bit-low_mask k i in bit-bit_and (2 ^ k - 1) x i ∙ ground arith)

bit_and-wraps : (k : ℕ) → bit_and (2 ^ k - 1) (2 ^ k) ≡ 0
bit_and-wraps k =
    bits_ext k (bit_and (2 ^ k - 1) (2 ^ k)) 0
      (omega (arith, bit_and-le (2 ^ k - 1) (2 ^ k), one-le-pow k 2))
      (omega (arith, one-le-pow k 2))
      (λ i below.
        let one = bit-pow k i in bit-bit_and (2 ^ k - 1) (2 ^ k) i ∙ ground (arith, bit-zero i))

pub first_slot-lt : (k : ℕ) (b : List ℕ) → first_slot (2 ^ k) b < 2 ^ k
first_slot-lt k b = omega (arith, bit_and-le (2 ^ k - 1) (hash_symbol b), one-le-pow k 2)

-- The slot that a probe visits after a number of steps.
abbrev pub visited : ℕ → ℕ → ℕ → ℕ
visited size start steps = if ltb (start + steps) size then start + steps else start + steps - size

next_slot-visited :
    (k start steps : ℕ)
    → start < 2 ^ k
    → steps < 2 ^ k
    → next_slot (2 ^ k) (visited (2 ^ k) start steps) ≡ visited (2 ^ k) start (suc steps)
next_slot-visited k start steps inside below =
    let at = visited (2 ^ k) start steps in
    elim (Bool-cases (at + 1 == 2 ^ k)) [
      | inl end ↦
          let e : at + 1 ≡ 2 ^ k = ground arith in
          ap (bit_and (2 ^ k - 1)) e ∙ bit_and-wraps k ∙ ground arith
      | inr middle ↦ bit_and-low k (at + 1) (ground arith) ∙ ground arith
    ]

-- The number of slots that are not empty.
unfoldable pub used : List ℕ → ℕ
used [] = 0
used (x ∷ xs) = (if x == 0 then 0 else 1) + used xs

pub used-set :
    (xs : List ℕ) (i v : ℕ)
    → i < length xs
    → get_or xs i 0 ≡ 0
    → v ≢ 0
    → used (set xs i v) ≡ suc (used xs)
unfolding used
used-set [] i v inside empty some_id = elim inside [ ]
used-set (x ∷ xs) zero v inside empty some_id = ground arith
used-set (x ∷ xs) (suc i) v inside empty some_id =
    omega (arith, used-set xs i v (omega arith) empty some_id)

pub used-replicate : (n : ℕ) → used (replicate n 0) ≡ 0
unfolding used
used-replicate zero = refl
used-replicate (suc n) = omega (arith, used-replicate n)

used-full :
    (xs : List ℕ) → ((i : ℕ) → i < length xs → (get_or xs i 0 == 0) ≡ false) → used xs ≡ length xs
unfolding used
used-full [] full = refl
used-full (x ∷ xs) full =
    let rest = used-full xs (λ i below. full (suc i) (omega arith)) in
    let here = full 0 (omega arith) in ground arith

-- A table that is not full has an empty slot among those that a probe visits.
visited-full :
    (xs : List ℕ) (start : ℕ)
    → start < length xs
    → ((steps : ℕ)
        → steps < length xs
        → (get_or xs (visited (length xs) start steps) 0 == 0) ≡ false)
    → used xs ≡ length xs
visited-full xs start inside full = used-full xs λ i below.
    let steps = if leb start i then i - start else i + length xs - start in
    let here : visited (length xs) start steps ≡ i = ground arith in
    subst (λ j. (get_or xs j 0 == 0) ≡ false) here (full steps (ground arith))

-- How a probe ends: all slots before are taken by other symbols.
pub record Ends (t : Interner) (b : List ℕ) (start : ℕ) (place : Place) : Type 0 where
  pub steps : ℕ
  pub inside : steps < length t.ids
  pub earlier :
      (e : ℕ)
      → e < steps
      → ((get_or t.ids (visited (length t.ids) start e) 0 == 0) ≡ false)
        × (bytes_equal (read t.arena (get_or t.refs (visited (length t.ids) start e) no_ref)) b
            ≡ false)
  pub last :
      ((get_or t.ids (visited (length t.ids) start steps) 0 ≡ 0)
        × (place ≡ vacant (visited (length t.ids) start steps)))
      ⊎ (((get_or t.ids (visited (length t.ids) start steps) 0 == 0) ≡ false)
          × (bytes_equal
                (read t.arena (get_or t.refs (visited (length t.ids) start steps) no_ref))
                b
              ≡ true)
          × (place ≡ found (get_or t.ids (visited (length t.ids) start steps) 0)))

module _ (k : ℕ) (t : Interner) (b : List ℕ) (start : ℕ) (sized : length t.ids ≡ 2 ^ k)
    (start_inside : start < 2 ^ k) where
  next-visited :
      (steps : ℕ)
      → steps < length t.ids
      → next_slot (length t.ids) (visited (length t.ids) start steps)
        ≡ visited (length t.ids) start (suc steps)
  next-visited steps below =
      rw sized (next_slot-visited k start steps start_inside (omega (arith, sized)))

  -- A slot that is taken by another symbol.
  abbrev Passed : ℕ → Type 0
  Passed e =
      ((get_or t.ids (visited (length t.ids) start e) 0 == 0) ≡ false)
      × (bytes_equal (read t.arena (get_or t.refs (visited (length t.ids) start e) no_ref)) b
          ≡ false)

  probe_from-Ends :
      (fuel steps : ℕ)
      → steps + fuel ≡ length t.ids
      → used t.ids < length t.ids
      → ((e : ℕ) → e < steps → Passed e)
      → (place : Place) × (probe t b fuel (visited (length t.ids) start steps) ≡ some place)
        × Ends t b start place
  unfolding probe
  probe_from-Ends zero steps ends room before =
      let all =
        visited-full t.ids start (omega (arith, sized)) (λ e below. (before e (omega arith)).0) in
      absurd (omega (arith, all))
  probe_from-Ends (suc fuel) steps ends room before =
      let slot = visited (length t.ids) start steps in
      let id = get_or t.ids slot 0 in
      elim (Bool-cases (id == 0)) [
        | inl empty ↦ (
          vacant slot,
          rw empty,
          record {
            steps = steps;
            inside = omega arith;
            earlier = before;
            last = inl (ground arith, refl);
          },
        )
        | inr taken ↦ elim (Bool-cases (bytes_equal (read t.arena (get_or t.refs slot no_ref)) b)) [
          | inl same ↦ (
            found id,
            rw (taken, same),
            record {
              steps = steps;
              inside = omega arith;
              earlier = before;
              last = inr (taken, same, refl);
            },
          )
          | inr other ↦
              let (place, ran, ended) =
                probe_from-Ends fuel (suc steps) (omega arith) room (λ e below.
                  elim (Bool-cases (e == steps)) [
                    | inl here ↦
                        let e_is : e ≡ steps = ground arith in
                        subst Passed (sym e_is) (taken, other)
                    | inr earlier ↦ before e (ground arith)
                  ]) in
              (place, rw (taken, other, next-visited steps (omega arith)) ran, ended)
        ]
      ]

  -- A probe of a table that is not full ends.
  pub probe-Ends :
      used t.ids < length t.ids
      → (place : Place) × (probe t b (length t.ids) start ≡ some place) × Ends t b start place
  probe-Ends room =
      let e : visited (length t.ids) start 0 ≡ start = ground (arith, sized) in
      let (place, ran, ended) =
        probe_from-Ends (length t.ids) 0 (omega arith) room (λ i below. absurd (omega arith)) in
      (place, subst (λ x. probe t b (length t.ids) x ≡ some place) e ran, ended)

  probe_from-found :
      (fuel steps last : ℕ)
      → steps + fuel ≡ length t.ids
      → steps ≤ last
      → last < length t.ids
      → ((e : ℕ) → e < last → Passed e)
      → (get_or t.ids (visited (length t.ids) start last) 0 == 0) ≡ false
      → bytes_equal (read t.arena (get_or t.refs (visited (length t.ids) start last) no_ref)) b
        ≡ true
      → probe t b fuel (visited (length t.ids) start steps)
        ≡ some (found (get_or t.ids (visited (length t.ids) start last) 0))
  unfolding probe
  probe_from-found zero steps last ends le inside before taken same = absurd (omega arith)
  probe_from-found (suc fuel) steps last ends le inside before taken same =
      elim (Bool-cases (steps == last)) [
        | inl here ↦ let e : steps ≡ last = ground arith in rw (e, taken, same)
        | inr earlier ↦
            let (passed, other) = before steps (ground arith) in
            rw (passed, other, next-visited steps (omega arith))
              (probe_from-found fuel (suc steps) last (omega arith) (ground arith) inside before
                taken same)
      ]

  -- A probe finds a symbol that it reaches through slots that others have taken.
  pub probe-found :
      (last : ℕ)
      → last < length t.ids
      → ((e : ℕ) → e < last → Passed e)
      → (get_or t.ids (visited (length t.ids) start last) 0 == 0) ≡ false
      → bytes_equal (read t.arena (get_or t.refs (visited (length t.ids) start last) no_ref)) b
        ≡ true
      → probe t b (length t.ids) start
        ≡ some (found (get_or t.ids (visited (length t.ids) start last) 0))
  probe-found last inside before taken same =
      let e : visited (length t.ids) start 0 ≡ start = ground (arith, sized) in
      rw e at (
        probe_from-found (length t.ids) 0 last (omega arith) (omega arith) inside before taken same)

module _ (k : ℕ) (ids : List ℕ) (start : ℕ) (sized : length ids ≡ 2 ^ k)
    (start_inside : start < 2 ^ k) (room : used ids < length ids) where
  probe_vacant-from :
      (fuel steps : ℕ)
      → steps + fuel ≡ length ids
      → ((e : ℕ) → e < steps → (get_or ids (visited (length ids) start e) 0 == 0) ≡ false)
      → (slot : ℕ) × (probe_vacant ids fuel (visited (length ids) start steps) ≡ some slot)
        × (slot < length ids)
        × (get_or ids slot 0 ≡ 0)
        × (last : ℕ) × (last < length ids)
        × (visited (length ids) start last ≡ slot)
        × ((e : ℕ) → e < last → (get_or ids (visited (length ids) start e) 0 == 0) ≡ false)
  unfolding probe_vacant
  probe_vacant-from zero steps ends before =
      let all = visited-full ids start (omega (arith, sized)) (λ e below. before e (omega arith)) in
      absurd (omega (arith, all))
  probe_vacant-from (suc fuel) steps ends before =
      let slot = visited (length ids) start steps in
      elim (Bool-cases (get_or ids slot 0 == 0)) [
        | inl empty ↦
            (slot, rw empty, ground (arith, sized), ground arith, steps, omega arith, refl, before)
        | inr taken ↦
            let (result, ran, inside, empty, last, last_inside, there, taken_before) =
              probe_vacant-from fuel (suc steps) (omega arith) (λ e below.
                elim (Bool-cases (e == steps)) [
                  | inl here ↦
                      let e_is : e ≡ steps = ground arith in
                      subst (λ i. (get_or ids (visited (length ids) start i) 0 == 0) ≡ false)
                        (sym e_is) taken
                  | inr earlier ↦ before e (ground arith)
                ]) in
            let next : next_slot (length ids) slot ≡ visited (length ids) start (suc steps) =
              rw sized (next_slot-visited k start steps start_inside (omega (arith, sized))) in
            (result, rw (taken, next) ran, inside, empty, last, last_inside, there, taken_before)
      ]

  -- A table that is not full has an empty slot for a symbol that is moved, behind taken ones.
  pub probe_vacant-finds :
      (slot : ℕ) × (probe_vacant ids (length ids) start ≡ some slot)
      × (slot < length ids)
      × (get_or ids slot 0 ≡ 0)
      × (last : ℕ) × (last < length ids)
      × (visited (length ids) start last ≡ slot)
      × ((e : ℕ) → e < last → (get_or ids (visited (length ids) start e) 0 == 0) ≡ false)
  probe_vacant-finds =
      let e : visited (length ids) start 0 ≡ start = ground (arith, sized) in
      let (slot, ran, inside, empty, last, last_inside, there, before) =
        probe_vacant-from (length ids) 0 (omega arith) (λ i below. absurd (omega arith)) in
      (
        slot,
        subst (λ x. probe_vacant ids (length ids) x ≡ some slot) e ran,
        inside,
        empty,
        last,
        last_inside,
        there,
        before,
      )
