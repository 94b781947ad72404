-- ===== src/Schema/Interner/Lookup.antt =====
-- `Lookup` and `Bytes` of internal/schema/symbols.go in a table that satisfies the invariant.
use native.Mathlib.Nat.{one-le-pow}
use verifoxx.Common.{
  ℕ, ◌+◌, ◌^◌, ◌≤◌, ◌<◌, ◌≡◌, sym, ap, ◌∙◌, subst, false, ◌||◌, inl, inr, Bool-cases, Option, some,
  none, List, arith, ltb, ◌==◌, length, get_or,
}
use verifoxx.Arena.{ByteArena, Ref, limit, bytes}
use verifoxx.Arena.Laws.{}
use verifoxx.Program.Symbols.{}
use verifoxx.Schema.Interner.{
  Interner, found, read, no_ref, first_slot, probe, find_symbol, bytes_of,
}
use verifoxx.Schema.Interner.Probe.{first_slot-lt, probe-found}
use verifoxx.Schema.Interner.Indexed.{bytes_equal_self, text, Taken}
use verifoxx.Schema.Interner.Invariant.{ref_of, IsInterner}

-- What `Intern` gives: an identifier under which the symbol is read and looked up, or no identifier
-- when the arena has no room; symbols that were there are read and looked up as before.
pub record Interned (t : Interner) (b : List ℕ) (after : Interner) (result : Option ℕ)
    : Type 0 where
  pub is : IsInterner after
  pub keeps :
      (id : ℕ) (p : List ℕ)
      → bytes_of t id ≡ some p
      → (bytes_of after id ≡ some p) × (find_symbol after p ≡ some (some id))
  pub answer :
      (id : ℕ)
      → result ≡ some id
      → (bytes_of after id ≡ some b) × (find_symbol after b ≡ some (some id))
  pub refused : result ≡ none → limit t.arena < length t.arena.buf + length b

pub bytes_of-readable :
    (t : Interner) (id : ℕ)
    → IsInterner t
    → 0 < id
    → id ≤ length t.starts
    → bytes_of t id ≡ bytes t.arena (ref_of t id)
unfolding bytes_of
bytes_of-readable t id is positive le =
    let inside : (id == 0 || ltb (length t.starts) id) ≡ false = ground arith in rw inside

pub read-bytes : (a : ByteArena) (r : Ref) (p : List ℕ) → bytes a r ≡ some p → read a r ≡ p
read-bytes a r p h = rw (read, h)

pub find_symbol-probe :
    (t : Interner) (b : List ℕ) (id : ℕ)
    → IsInterner t
    → probe t b (length t.ids) (first_slot (length t.ids) b) ≡ some (found id)
    → find_symbol t b ≡ some (some id)
unfolding find_symbol
find_symbol-probe t b id is h =
    let some_slot : (length t.ids == 0) ≡ false = ground (arith, is.sized, one-le-pow is.bits 2) in
    rw (some_slot, h)

pub bytes_of-range :
    (t : Interner) (id : ℕ) (p : List ℕ)
    → bytes_of t id ≡ some p
    → (0 < id) × (id ≤ length t.starts)
unfolding bytes_of
bytes_of-range t id p h = elim (Bool-cases (id == 0 || ltb (length t.starts) id)) [
  | inl outside ↦ absurd (ground (arith, rw outside at h))
  | inr inside ↦ (ground arith, ground arith)
]

-- In a table that satisfies the invariant, a symbol is looked up under its own identifier.
pub bytes_of-find_symbol :
    (t : Interner) (id : ℕ) (p : List ℕ)
    → IsInterner t
    → bytes_of t id ≡ some p
    → find_symbol t p ≡ some (some id)
bytes_of-find_symbol t id p is h =
    let (positive, le) = bytes_of-range t id p h in
    let (slot, inside, here) = is.indexed.placed id positive le in
    let taken : Taken t slot = ground (arith, here) in
    let (_, located) = is.has.entries slot inside taken in
    let at : get_or t.refs slot no_ref ≡ ref_of t id = located ∙ ap (ref_of t) here in
    let readable = sym (bytes_of-readable t id is positive le) ∙ h in
    let text_is : text t slot ≡ p =
      ap (read t.arena) at ∙ read-bytes t.arena (ref_of t id) p readable in
    let r = rw text_is at (is.indexed.reached slot inside taken) in
    let start_lt : first_slot (length t.ids) p < 2 ^ is.bits =
      subst (λ n. first_slot n p < 2 ^ is.bits) (sym is.sized) (first_slot-lt is.bits p) in
    find_symbol-probe t p id is (
      probe-found is.bits t p (first_slot (length t.ids) p) is.sized start_lt r.steps r.inside
        (λ e below. let (_, taken, other) = r.passed e below in (taken, other)) (rw r.here taken)
        (rw (r.here, text_is) (bytes_equal_self p))
      ∙ ap (λ s. some (found (get_or t.ids s 0))) r.here
      ∙ ap (λ x. some (found x)) here)
