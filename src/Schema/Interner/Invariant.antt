-- ===== src/Schema/Interner/Invariant.antt =====
-- The state of an interner of internal/schema/symbols.go, and the growth of its table.
use native.Mathlib.Nat.{one-le-pow}
use verifoxx.Common.{
  ℕ, zero, suc, ◌+◌, ◌-◌, ◌*◌, ◌%◌, ◌^◌, ◌≤◌, ◌<◌, ◌≡◌, sym, ap, ◌∙◌, false, inl, inr, Bool-cases,
  some, List, [], ◌∷◌, arith, ◌==◌, if◌then◌else◌, length, get_or, set, take, length-set,
  get_or-set_self, get_or-set_ne,
}
use verifoxx.Arena.{Ref, limit, bytes}
use verifoxx.Schema.Interner.{Interner, no_ref}
use verifoxx.Schema.Interner.Probe.{used}
use verifoxx.Schema.Interner.Indexed.{IsIndexed}

-- Where the bytes of a symbol lie.
abbrev pub ref_of : Interner → ℕ → Ref
ref_of t id = record { offset = get_or t.starts (id - 1) 0; length = get_or t.lengths (id - 1) 0 }

-- The slots of a table that are taken refer to symbols.
pub record HasEntries (t : Interner) : Type 0 where
  pub refs_sized : length t.refs ≡ length t.ids
  pub entries :
      (slot : ℕ)
      → slot < length t.ids
      → (get_or t.ids slot 0 == 0) ≡ false
      → (get_or t.ids slot 0 ≤ length t.starts)
        × (get_or t.refs slot no_ref ≡ ref_of t (get_or t.ids slot 0))

pub record IsInterner (t : Interner) : Type 0 where
  pub bits : ℕ
  pub sized : length t.ids ≡ 2 ^ bits
  pub even : length t.ids % 2 ≡ 0
  pub has : HasEntries t
  pub indexed : IsIndexed t
  pub counted : used t.ids ≡ t.count
  pub half : t.count * 2 ≤ length t.ids
  pub next : t.next_id ≡ suc t.count
  pub starts_sized : length t.starts ≡ t.count
  pub lengths_sized : length t.lengths ≡ t.count
  pub within : length t.arena.buf ≤ limit t.arena
  pub readable :
      (id : ℕ)
      → 0 < id
      → id ≤ length t.starts
      → (p : List ℕ) × (bytes t.arena (ref_of t id) ≡ some p)

pub IsInterner-room : (t : Interner) → IsInterner t → used t.ids < length t.ids
IsInterner-room t is = omega (arith, is.counted, is.half, is.sized, one-le-pow is.bits 2)

-- Filling an empty slot.
pub set-HasEntries :
    (t after : Interner) (slot id : ℕ) (ref : Ref)
    → after.ids ≡ set t.ids slot id
    → after.refs ≡ set t.refs slot ref
    → slot < length t.ids
    → HasEntries t
    → ((other : ℕ)
        → (other == 0) ≡ false
        → other ≤ length t.starts
        → (other ≤ length after.starts) × (ref_of after other ≡ ref_of t other))
    → id ≤ length after.starts
    → ref ≡ ref_of after id
    → HasEntries after
set-HasEntries t after slot id ref ids refs inside has keeps known located = record {
  refs_sized =
      ap length refs
      ∙ length-set t.refs slot ref
      ∙ has.refs_sized
      ∙ sym (ap length ids ∙ length-set t.ids slot id);
  entries = λ i i_inside taken. elim (Bool-cases (slot == i)) [
    | inl here ↦
        let e : i ≡ slot = ground arith in
        let id_here : get_or after.ids i 0 ≡ id =
          rw (ids, e) (get_or-set_self t.ids slot id 0 inside) in
        let ref_here : get_or after.refs i no_ref ≡ ref =
          rw (refs, e) (get_or-set_self t.refs slot ref no_ref (omega (arith, has.refs_sized))) in
        (omega (arith, id_here, known), ref_here ∙ located ∙ ap (ref_of after) (sym id_here))
    | inr there ↦
        let id_same : get_or after.ids i 0 ≡ get_or t.ids i 0 =
          rw ids (get_or-set_ne t.ids slot i id 0 (ground arith)) in
        let ref_same : get_or after.refs i no_ref ≡ get_or t.refs i no_ref =
          rw refs (get_or-set_ne t.refs slot i ref no_ref (ground arith)) in
        let size : length after.ids ≡ length t.ids = ap length ids ∙ length-set t.ids slot id in
        let (small, at) = has.entries i (omega (arith, size)) (rw id_same at taken) in
        let (still, same) = keeps (get_or t.ids i 0) (rw id_same at taken) small in
        (omega (arith, id_same, still), ref_same ∙ at ∙ sym same ∙ ap (ref_of after) (sym id_same))
  ];
}

pub used-take :
    (xs : List ℕ) (i : ℕ)
    → i < length xs
    → used (take (suc i) xs) ≡ used (take i xs) + (if get_or xs i 0 == 0 then 0 else 1)
unfolding used
used-take [] i inside = elim inside [ ]
used-take (x ∷ xs) zero inside = omega arith
used-take (x ∷ xs) (suc i) inside = omega (arith, used-take xs i (omega arith))

pub used-take_le : (xs : List ℕ) (i : ℕ) → used (take i xs) ≤ used xs
unfolding used
used-take_le xs zero = omega arith
used-take_le [] (suc i) = omega arith
used-take_le (x ∷ xs) (suc i) = omega (arith, used-take_le xs i)
