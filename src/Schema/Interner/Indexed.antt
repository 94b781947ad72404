-- ===== src/Schema/Interner/Indexed.antt =====
-- The table of internal/schema/symbols.go as an index: a probe reaches each slot that is taken, and
-- each symbol has a slot.
use verifoxx.Common.{
  ℕ, ◌≤◌, ◌<◌, ◌≡◌, ◌≢◌, refl, sym, ap, ap₂, ◌∙◌, true, false, inl, inr, Bool-cases, List, [], ◌∷◌,
  arith, ltb, ◌==◌, length, get_or, set, length-set, get_or-set_ne,
}
use verifoxx.Arena.{Ref}
use verifoxx.Program.Symbols.{bytes_equal}
use verifoxx.Schema.Interner.{Interner, read, no_ref, first_slot}
use verifoxx.Schema.Interner.Probe.{visited}

pub bytes_equal-eq : (a b : List ℕ) → bytes_equal a b ≡ true → a ≡ b
unfolding bytes_equal
bytes_equal-eq [] [] h = refl
bytes_equal-eq [] (b ∷ bs) h = absurd (ground arith)
bytes_equal-eq (a ∷ as') [] h = absurd (ground arith)
bytes_equal-eq (a ∷ as') (b ∷ bs) h =
    ap₂ (λ x xs. x ∷ xs) (ground arith) (bytes_equal-eq as' bs (ground arith))

pub bytes_equal_self : (a : List ℕ) → bytes_equal a a ≡ true
unfolding bytes_equal
bytes_equal_self [] = refl
bytes_equal_self (a ∷ as') = ground (arith, bytes_equal_self as')

-- The symbol that a slot refers to.
abbrev pub text : Interner → ℕ → List ℕ
text t slot = read t.arena (get_or t.refs slot no_ref)

abbrev pub Taken : Interner → ℕ → Type 0
Taken t slot = (get_or t.ids slot 0 == 0) ≡ false

-- The slot that the probe for some bytes visits after a number of steps.
abbrev pub probed : Interner → List ℕ → ℕ → ℕ
probed t b steps = visited (length t.ids) (first_slot (length t.ids) b) steps

-- The probe for some bytes reaches a slot through slots that other symbols have taken.
pub record Reaches (t : Interner) (b : List ℕ) (slot : ℕ) : Type 0 where
  pub steps : ℕ
  pub inside : steps < length t.ids
  pub here : probed t b steps ≡ slot
  pub passed :
      (e : ℕ)
      → e < steps
      → (probed t b e < length t.ids)
        × Taken t (probed t b e)
        × (bytes_equal (text t (probed t b e)) b ≡ false)

pub record IsIndexed (t : Interner) : Type 0 where
  pub reached : (slot : ℕ) → slot < length t.ids → Taken t slot → Reaches t (text t slot) slot
  pub placed :
      (id : ℕ)
      → 0 < id
      → id ≤ length t.starts
      → (slot : ℕ) × (slot < length t.ids) × (get_or t.ids slot 0 ≡ id)

-- No two slots refer to the same symbol.
pub IsIndexed-unique :
    (t : Interner) (i j : ℕ)
    → IsIndexed t
    → i < length t.ids
    → j < length t.ids
    → Taken t i
    → Taken t j
    → text t i ≡ text t j
    → i ≡ j
IsIndexed-unique t i j x i_inside j_inside i_taken j_taken same =
    let ri = rw same at (x.reached i i_inside i_taken) in
    let rj = x.reached j j_inside j_taken in
    let b = text t j in
    elim (Bool-cases (ltb ri.steps rj.steps)) [
      | inl before ↦
          let (_, _, other) = rj.passed ri.steps (ground arith) in
          let equal : bytes_equal (text t (probed t b ri.steps)) b ≡ true =
            rw (ri.here, same) (bytes_equal_self b) in
          absurd (ground (arith, other, equal))
      | inr not_before ↦ elim (Bool-cases (ltb rj.steps ri.steps)) [
        | inl after ↦
            let (_, _, other) = ri.passed rj.steps (ground arith) in
            let equal : bytes_equal (text t (probed t b rj.steps)) b ≡ true =
              rw rj.here (bytes_equal_self b) in
            absurd (ground (arith, other, equal))
        | inr not_after ↦
            let e : ri.steps ≡ rj.steps = ground arith in sym ri.here ∙ ap (probed t b) e ∙ rj.here
      ]
    ]

-- Filling an empty slot, where the slots that are taken refer to the same symbols as before.
module _ (t after : Interner) (slot id : ℕ) (ref : Ref) (ids : after.ids ≡ set t.ids slot id)
    (refs : after.refs ≡ set t.refs slot ref) (vacant : get_or t.ids slot 0 ≡ 0)
    (texts : (i : ℕ)
      → i < length t.ids
      → Taken t i
      → read after.arena (get_or t.refs i no_ref) ≡ text t i) where
  pub length-ids : length after.ids ≡ length t.ids
  length-ids = ap length ids ∙ length-set t.ids slot id

  pub other-ids : (i : ℕ) → slot ≢ i → get_or after.ids i 0 ≡ get_or t.ids i 0
  other-ids i other = rw ids (get_or-set_ne t.ids slot i id 0 other)

  pub Taken-apart : (i : ℕ) → Taken t i → slot ≢ i
  Taken-apart i taken same = absurd (ground (arith, ap (λ j. get_or t.ids j 0) same))

  pub Taken-text :
      (i : ℕ) → i < length t.ids → Taken t i → Taken after i × (text after i ≡ text t i)
  Taken-text i inside taken =
      let apart = Taken-apart i taken in
      (
        rw (other-ids i apart) taken,
        ap (read after.arena) (rw refs (get_or-set_ne t.refs slot i ref no_ref apart))
            ∙ texts i inside taken,
      )

  pub Reaches-after : (b : List ℕ) (i : ℕ) → Reaches t b i → Reaches after b i
  Reaches-after b i r =
      let size = length-ids in
      record {
        steps = r.steps;
        inside = omega (arith, size, r.inside);
        here = ap (λ n. visited n (first_slot n b) r.steps) size ∙ r.here;
        passed = λ e below.
            let (inside, taken, other) = r.passed e below in
            let at : probed after b e ≡ probed t b e =
              ap (λ n. visited n (first_slot n b) e) size in
            let (still, same) = Taken-text (probed t b e) inside taken in
            rw (at, size, same) (inside, still, other);
      }

  pub set-reached :
      (inside : slot < length t.ids)
      → ((i : ℕ) → i < length t.ids → Taken t i → Reaches t (text t i) i)
      → Reaches t (text after slot) slot
      → (i : ℕ) → i < length after.ids
      → Taken after i
      → Reaches after (text after i) i
  set-reached inside reached new i i_inside i_taken = elim (Bool-cases (slot == i)) [
    | inl here ↦ let e : i ≡ slot = ground arith in rw e (Reaches-after (text after slot) slot new)
    | inr there ↦
        let i_before : i < length t.ids = omega (arith, length-ids) in
        let taken : Taken t i = rw (other-ids i (ground arith)) at i_taken in
        let (_, same) = Taken-text i i_before taken in
        rw same (Reaches-after (text t i) i (reached i i_before taken))
  ]
