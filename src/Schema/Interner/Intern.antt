-- ===== src/Schema/Interner/Intern.antt =====
-- The loops of `Intern` in internal/schema/symbols.go.
use native.Mathlib.Nat.{one-le-pow}
use verifoxx.Common.{
  ℕ, suc, ◌+◌, ◌*◌, ◌<◌, ◌≡◌, sym, ap, ◌∙◌, subst, true, false, inl, inr, Bool-cases, Option,
  Option-cases, some, none, List, arith, ltb, ◌==◌, length, get_or,
}
use verifoxx.Arena.{ByteArena, limit, append}
use verifoxx.Schema.Interner.{
  Interner, Place, found, vacant, first_slot, probe, add_symbol, intern_loop, intern,
}
use verifoxx.Schema.Interner.Probe.{Ends, visited, probe-Ends}
use verifoxx.Schema.Interner.Invariant.{IsInterner, IsInterner-room}
use verifoxx.Schema.Interner.Grow.{grow-IsInterner}
use verifoxx.Schema.Interner.Lookup.{Interned, bytes_of-find_symbol}
use verifoxx.Schema.Interner.Correct.{start, start-lt, found-Interned, added-Interned, added, slot}

append-none : (a : ByteArena) (p : List ℕ) → append a p ≡ none → limit a < length a.buf + length p
unfolding append
append-none a p h = ground arith

-- A round that returns.
Returns : ℕ → Interner → List ℕ → Type 0
Returns fuel t b =
    (after : Interner) × (result : Option ℕ) × (intern_loop fuel t b ≡ some (after, result))
    × Interned t b after result

refused-Interned :
    (t : Interner) (b : List ℕ) → IsInterner t → append t.arena b ≡ none → Interned t b t none
refused-Interned t b is h = record {
  is = is;
  keeps = λ id p e. (e, bytes_of-find_symbol t id p is e);
  answer = λ id e. absurd (none_some id e);
  refused = λ e. append-none t.arena b h;
}
  where
    none_some : (id : ℕ) → none ≡ some id → ⊥
    none_some id e = cc

module _ (t : Interner) (b : List ℕ) (is : IsInterner t) where
  ends :
      (place : Place) × (probe t b (length t.ids) (first_slot (length t.ids) b) ≡ some place)
      × Ends t b (start t b is) place
  unfolding start
  ends =
      probe-Ends is.bits t b (first_slot (length t.ids) b) is.sized
        (unfold start in start-lt t b is) (IsInterner-room t is)

  add_symbol-Interned :
      (room : (t.count * 2) < length t.ids) (place : Place) (ended : Ends t b (start t b is) place)
      → get_or t.ids (visited (length t.ids) (start t b is) ended.steps) 0 ≡ 0
      → (after : Interner) × (result : Option ℕ) × (add_symbol t
            (visited (length t.ids) (start t b is) ended.steps)
            b
          ≡ (after, result))
        × Interned t b after result
  unfolding add_symbol
  add_symbol-Interned room place ended empty = elim (Option-cases (append t.arena b)) [
    | inl full ↦ (t, none, rw (add_symbol, full), refused-Interned t b is full)
    | inr ((arena, ref), appended) ↦ (
      added t b is arena ref room appended place ended empty,
      some t.next_id,
      unfold slot in rw (add_symbol, appended),
      added-Interned t b is arena ref room appended place ended empty,
    )
  ]

  -- A round that finds the symbol returns.
  found-Returns :
      (fuel id : ℕ)
      → probe t b (length t.ids) (first_slot (length t.ids) b) ≡ some (found id)
      → Ends t b (start t b is) (found id)
      → Returns (suc fuel) t b
  unfolding Returns intern_loop
  found-Returns fuel id ran ended = (t, some id, rw ran, found-Interned t b is id ran ended)

  -- A round of a table with room returns.
  room-Returns : (fuel : ℕ) → (t.count * 2) < length t.ids → Returns (suc fuel) t b
  unfolding Returns intern_loop
  room-Returns fuel room =
      let (place, ran, ended) = ends in
      elim ended.last [
        | inl empty ↦
            let has_room : ltb (t.count * 2) (length t.ids) ≡ true = ground arith in
            let (after, result, e, interned) = add_symbol-Interned room place ended empty.0 in
            (after, result, rw (ran, empty.1, has_room, e), interned)
        | inr here ↦
            found-Returns fuel (get_or t.ids (visited (length t.ids) (start t b is) ended.steps) 0)
              (ran ∙ ap some here.2) (subst (Ends t b (start t b is)) here.2 ended)
      ]

-- In a table that grows, the symbol is added in the next round.
module _ (t : Interner) (b : List ℕ) (is : IsInterner t) where
  grown-Returns :
      (fuel slot : ℕ)
      → ltb (t.count * 2) (length t.ids) ≡ false
      → probe t b (length t.ids) (first_slot (length t.ids) b) ≡ some (vacant slot)
      → Returns (suc (suc fuel)) t b
  unfolding Returns intern_loop
  grown-Returns fuel slot full ran =
      let (grown, grew, grown_is, size, count, arena, same) = grow-IsInterner t is in
      let room : (grown.count * 2) < length grown.ids =
        omega (arith, size, count, is.half, is.sized, one-le-pow is.bits 2) in
      let (after, result, returned, i) = room-Returns grown b grown_is fuel room in
      (
        after,
        result,
        rw (ran, full, grew) returned,
        record {
          is = i.is;
          keeps = λ id p h. i.keeps id p (same id ∙ h);
          answer = i.answer;
          refused = λ e. rw (sym arena) (i.refused e);
        },
      )

  loop-Returns : Returns 2 t b
  loop-Returns =
      let (place, ran, ended) = ends t b is in
      elim (Bool-cases (ltb (t.count * 2) (length t.ids))) [
        | inl room ↦ room-Returns t b is 1 (ground arith)
        | inr full ↦ elim ended.last [
          | inl empty ↦
              grown-Returns 0 (visited (length t.ids) (start t b is) ended.steps) full
                (ran ∙ ap some empty.1)
          | inr here ↦
              found-Returns t b is 1
                (get_or t.ids (visited (length t.ids) (start t b is) ended.steps) 0)
                (ran ∙ ap some here.2) (subst (Ends t b (start t b is)) here.2 ended)
        ]
      ]

  -- `Intern` returns on every table that satisfies the invariant, and keeps the invariant. The
  -- identifier that it gives reads back the symbol and is the one that a lookup of the symbol gives;
  -- without an identifier, the symbol would exceed the limit of the arena. Every identifier that read
  -- a symbol before reads the same one afterwards, and a lookup of that symbol gives it.
  pub intern-Interned :
      (after : Interner) × (result : Option ℕ) × (intern t b ≡ some (after, result))
      × Interned t b after result
  unfolding intern Returns
  intern-Interned =
      let some_slots : (length t.ids == 0) ≡ false =
        ground (arith, is.sized, one-le-pow is.bits 2) in
      rw some_slots loop-Returns
