-- ===== src/Schema/Interner/Move.antt =====
-- The index that `grow` of internal/schema/symbols.go builds, one slot of the old table at a time.
use verifoxx.Common.{
  ℕ, suc, ◌<◌, ◌≡◌, refl, sym, ap, ◌∙◌, true, false, inl, inr, Bool-cases, arith, ◌==◌, length,
  get_or, set, length-set, get_or-set_self, get_or-set_ne,
}
use verifoxx.Arena.{Ref}
use verifoxx.Program.Symbols.{bytes_equal}
use verifoxx.Schema.Interner.{Interner, read, no_ref, first_slot}
use verifoxx.Schema.Interner.Probe.{}
use verifoxx.Schema.Interner.Indexed.{
  bytes_equal-eq, text, Taken, probed, Reaches, IsIndexed, IsIndexed-unique, set-reached,
}

module _ (old : Interner) (indexed : IsIndexed old) where
  -- The new table once the slots of the old one before `i` are moved.
  pub record IsFilled (i : ℕ) (t : Interner) : Type 0 where
    -- Each slot was filled from a slot of the old table.
    pub sources :
        (slot : ℕ)
        → slot < length t.ids
        → Taken t slot
        → (j : ℕ) × (j < i)
          × (j < length old.ids)
          × Taken old j
          × (get_or t.refs slot no_ref ≡ get_or old.refs j no_ref)
    pub reached : (slot : ℕ) → slot < length t.ids → Taken t slot → Reaches t (text t slot) slot
    pub moved :
        (j : ℕ)
        → j < i
        → Taken old j
        → (slot : ℕ) × (slot < length t.ids) × (get_or t.ids slot 0 ≡ get_or old.ids j 0)

  -- An empty slot is passed over.
  pub IsFilled-skip :
      (i : ℕ) (t : Interner) → (get_or old.ids i 0 == 0) ≡ true → IsFilled i t → IsFilled (suc i) t
  IsFilled-skip i t empty f = record {
    sources = λ slot inside taken.
        let (j, before, j_inside, j_taken, same) = f.sources slot inside taken in
        (j, omega arith, j_inside, j_taken, same);
    reached = f.reached;
    moved = λ j before taken. elim (Bool-cases (j == i)) [
      | inl here ↦
          let e : j ≡ i = ground arith in absurd (ground (arith, ap (λ x. get_or old.ids x 0) e))
      | inr earlier ↦ f.moved j (ground arith) taken
    ];
  }

  module _ (i : ℕ) (t : Interner) (slot last : ℕ) (i_inside : i < length old.ids)
      (i_taken : Taken old i) (arena : t.arena ≡ old.arena)
      (refs_sized : length t.refs ≡ length t.ids) (slot_inside : slot < length t.ids)
      (vacant : get_or t.ids slot 0 ≡ 0) (last_inside : last < length t.ids)
      (start_inside : first_slot (length t.ids) (text old i) < length t.ids)
      (there : probed t (text old i) last ≡ slot)
      (before : (e : ℕ) → e < last → Taken t (probed t (text old i) e)) (f : IsFilled i t) where
    abbrev id : ℕ
    id = get_or old.ids i 0

    abbrev ref : Ref
    ref = get_or old.refs i no_ref

    abbrev after : Interner
    after = record t { ids = set t.ids slot id; refs = set t.refs slot ref }

    -- A slot that is taken refers to another symbol than the one that is moved.
    moved-differs :
        (s : ℕ) → s < length t.ids → Taken t s → bytes_equal (text t s) (text old i) ≡ false
    moved-differs s inside taken = elim (Bool-cases (bytes_equal (text t s) (text old i))) [
      | inr other ↦ other
      | inl equal ↦
          let (j, earlier, j_inside, j_taken, same) = f.sources s inside taken in
          let texts : text old j ≡ text old i =
            ap (λ a. read a (get_or old.refs j no_ref)) (sym arena)
            ∙ ap (read t.arena) (sym same)
            ∙ bytes_equal-eq (text t s) (text old i) equal in
          let e = IsIndexed-unique old j i indexed j_inside i_inside j_taken i_taken texts in
          absurd (omega (arith, e))
    ]

    after-text : text after slot ≡ text old i
    after-text =
        ap (read t.arena)
          (get_or-set_self t.refs slot ref no_ref (omega (arith, refs_sized, slot_inside)))
        ∙ ap (λ a. read a ref) arena

    moved-Reaches : Reaches t (text old i) slot
    moved-Reaches = record {
      steps = last;
      inside = last_inside;
      here = there;
      passed = λ e below.
          let inside : probed t (text old i) e < length t.ids =
            ground (arith, start_inside, last_inside) in
          (inside, before e below, moved-differs (probed t (text old i) e) inside (before e below));
    }

    pub IsFilled-move : IsFilled (suc i) after
    IsFilled-move =
        let size : length after.ids ≡ length t.ids = length-set t.ids slot id in
        let other : (s : ℕ) → (slot ≡ s → ⊥) → get_or after.ids s 0 ≡ get_or t.ids s 0 =
          λ s ne. get_or-set_ne t.ids slot s id 0 ne in
        record {
          sources = λ s inside taken. elim (Bool-cases (slot == s)) [
            | inl here ↦
                let e : s ≡ slot = ground arith in
                (
                  i,
                  omega arith,
                  i_inside,
                  i_taken,
                  rw e (
                      get_or-set_self t.refs slot ref no_ref
                        (omega (arith, refs_sized, slot_inside))),
                )
            | inr apart ↦
                let ne : slot ≡ s → ⊥ = λ e. absurd (ground arith) in
                let taken_before : Taken t s = rw (other s ne) at taken in
                let (j, earlier, j_inside, j_taken, same) =
                  f.sources s (omega (arith, size)) taken_before in
                (
                  j,
                  omega arith,
                  j_inside,
                  j_taken,
                  get_or-set_ne t.refs slot s ref no_ref ne ∙ same,
                )
          ];
          reached =
              set-reached t after slot id ref refl refl vacant (λ s inside taken. refl) slot_inside
                f.reached (rw after-text moved-Reaches);
          moved = λ j earlier taken. elim (Bool-cases (j == i)) [
            | inl here ↦
                let e : j ≡ i = ground arith in
                (
                  slot,
                  omega (arith, size, slot_inside),
                  get_or-set_self t.ids slot id 0 slot_inside
                      ∙ ap (λ x. get_or old.ids x 0) (sym e),
                )
            | inr not_here ↦
                let (s, inside, same) = f.moved j (ground arith) taken in
                let s_taken : Taken t s = rw same taken in
                let ne : slot ≡ s → ⊥ =
                  λ e. absurd (ground (arith, ap (λ x. get_or t.ids x 0) e, vacant, s_taken)) in
                (s, omega (arith, size), other s ne ∙ same)
          ];
        }
