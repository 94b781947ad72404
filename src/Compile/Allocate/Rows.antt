-- ===== src/Compile/Allocate/Rows.antt =====
-- The loop of `allocateSlots` in internal/compile/liveness.go, row by row.
use verifoxx.Common.{
  ℕ, suc, ◌+◌, ◌≤◌, ◌<◌, ◌≡◌, ◌≢◌, refl, sym, ap, ◌∙◌, true, false, ◌⊎◌, inl, inr, Bool-cases,
  Option, some, List, arith, ◌==◌, length, get_or, set, length-set, get_or-set_self, get_or-set_ne,
}
use verifoxx.Words.{max_uint32}
use verifoxx.Compile.Slots.{slot_word_count}
use verifoxx.Compile.Slots.Laws.{is_free, IsFreeSlots}
use verifoxx.Compile.Slots.Lowest.{take_lowest_free_slot-TakesLowest}
use verifoxx.Compile.Allocate.{Assigned, Links, skipped, pick_slot, assign_row, allocate_row}
use verifoxx.Compile.Allocate.Chain.{IsLastUses, IsLinks}
use verifoxx.Compile.Allocate.Invariant.{
  slot_at, IsLive, Consistent, HeldBelow, HeldAfter, fewer-Consistent, mark_slot_free-Consistent,
  release-Consistent,
}

module _ (last_uses : List ℕ) (live : Option (List ℕ)) (fits : length last_uses ≤ max_uint32) where
  -- A slot that no row holds.
  record Picks (Held : ℕ → Type 0) (row : ℕ) (s : Assigned) : Type 0 where
    next : Assigned
    slot : ℕ
    returns : pick_slot last_uses live s ≡ some (next, slot)
    same_dst : next.dst ≡ s.dst
    free_is : IsFreeSlots (slot_word_count (length last_uses)) next.free
    positive : 0 < slot
    below : slot ≤ next.peak
    more : s.peak ≤ next.peak
    peak_le : next.peak ≤ suc row
    not_held : (j : ℕ) → Held j → slot_at s j ≢ slot
    now_taken : is_free next.free slot ≡ false
    still_free : (t : ℕ) → 0 < t → is_free next.free t ≡ true → is_free s.free t ≡ true

  pick_slot-Picks :
      (Held : ℕ → Type 0) (row : ℕ) (s : Assigned)
      → row < length last_uses
      → Consistent last_uses live Held row s
      → Picks Held row s
  unfolding pick_slot
  pick_slot-Picks Held row s inside c =
      let taken =
        take_lowest_free_slot-TakesLowest (slot_word_count (length last_uses)) s.free c.free_is in
      let back : (t : ℕ) → 0 < t → is_free taken.result t ≡ true → is_free s.free t ≡ true =
        λ t t_positive now. let now_is = taken.others t t_positive in ground arith in
      elim (Bool-cases (taken.slot == 0)) [
        | inl none_free ↦
            let room : (s.peak == max_uint32) ≡ false = ground (arith, c.peak_le, fits) in
            let new = s.peak + 1 in
            let not_before : is_free s.free new ≡ false =
              taken.lowest new (omega arith) (inl (ground arith)) in
            record {
              next = record s { free = taken.result; peak = new };
              slot = new;
              returns = rw (taken.returns, none_free, room);
              same_dst = refl;
              free_is = taken.is;
              positive = omega arith;
              below = omega arith;
              more = omega arith;
              peak_le = omega (arith, c.peak_le);
              not_held = λ j held e.
                  let (j_below, alive) = c.held_row j held in
                  absurd (omega (arith, (c.in_range j j_below alive).1, e));
              now_taken = let now_is = taken.others new (omega arith) in ground arith;
              still_free = back;
            }
        | inr found ↦
            let positive : 0 < taken.slot = ground arith in
            let was_free = taken.was_free positive in
            record {
              next = record s { free = taken.result };
              slot = taken.slot;
              returns = rw (taken.returns, found);
              same_dst = refl;
              free_is = taken.is;
              positive = positive;
              below = c.free_below taken.slot positive was_free;
              more = omega arith;
              peak_le = omega (arith, c.peak_le);
              not_held =
                  λ j held e. absurd (ground (arith, ap (is_free s.free) e, c.held_taken j held));
              now_taken = let now_is = taken.others taken.slot positive in ground arith;
              still_free = back;
            }
      ]

  -- A row that holds its slot once row `row` has one.
  abbrev HeldNow : ℕ → ℕ → Type 0
  HeldNow row j = HeldAfter last_uses live row j ⊎ (j ≡ row)

  module _ (row : ℕ) (s : Assigned) (inside : row < length last_uses)
      (alive : IsLive last_uses live row)
      (c : Consistent last_uses live (HeldAfter last_uses live row) row s) where
    picks : Picks (HeldAfter last_uses live row) row s
    picks = pick_slot-Picks (HeldAfter last_uses live row) row s inside c

    assigned : Assigned
    assigned = record picks.next { dst = set s.dst row picks.slot }

    slot_at-row : slot_at assigned row ≡ picks.slot
    unfolding assigned
    slot_at-row = get_or-set_self s.dst row picks.slot 0 (omega (arith, c.sized))

    slot_at-other : (j : ℕ) → j ≢ row → slot_at assigned j ≡ slot_at s j
    unfolding assigned
    slot_at-other j other = get_or-set_ne s.dst row j picks.slot 0 (λ e. other (sym e))

    slot_at-before : (j : ℕ) → j < row → slot_at assigned j ≡ slot_at s j
    slot_at-before j before = slot_at-other j (λ e. absurd (omega (arith, e)))

    held-taken :
        (j : ℕ)
        → HeldAfter last_uses live row j
        → is_free assigned.free (slot_at assigned j) ≡ false
    unfolding assigned
    held-taken j held =
        let positive = (c.in_range j held.0.1 held.0.0).0 in
        let old = c.held_taken j held in
        rw (slot_at-before j held.0.1) (elim (Bool-cases (is_free picks.next.free (slot_at s j))) [
          | inl now ↦ let then_free = picks.still_free (slot_at s j) positive now in ground arith
          | inr taken ↦ taken
        ])

    -- A row that holds its slot does not have the one picked.
    held-not_slot :
        (j : ℕ) → HeldAfter last_uses live row j → slot_at assigned j ≢ slot_at assigned row
    held-not_slot j held e =
        picks.not_held j held (sym (slot_at-before j held.0.1) ∙ e ∙ slot_at-row)

    now-apart :
        (i j : ℕ) → HeldNow row i → HeldNow row j → slot_at assigned i ≡ slot_at assigned j → i ≡ j
    now-apart i j (inl hi) (inl hj) e =
        c.held_apart i j hi hj (sym (slot_at-before i hi.0.1) ∙ e ∙ slot_at-before j hj.0.1)
    now-apart i j (inl hi) (inr ej) e = absurd (held-not_slot i hi (e ∙ ap (slot_at assigned) ej))
    now-apart i j (inr ei) (inl hj) e =
        absurd (held-not_slot j hj (sym e ∙ ap (slot_at assigned) ei))
    now-apart i j (inr ei) (inr ej) e = ei ∙ sym ej

    assigned-range :
        (j : ℕ)
        → j < suc row
        → IsLive last_uses live j
        → (0 < slot_at assigned j) × (slot_at assigned j ≤ picks.next.peak)
    assigned-range j below j_alive = elim (Bool-cases (j == row)) [
      | inl here ↦
          let e : j ≡ row = ground arith in rw (e, slot_at-row) (picks.positive, picks.below)
      | inr before ↦
          let j_before : j < row = ground arith in
          let (lo, hi) = c.in_range j j_before j_alive in
          rw (slot_at-before j j_before) (lo, omega (arith, hi, picks.more))
    ]

    assigned-apart :
        (i j : ℕ)
        → i < j
        → j < suc row
        → IsLive last_uses live i
        → IsLive last_uses live j
        → j < get_or last_uses i 0
        → slot_at assigned i ≢ slot_at assigned j
    assigned-apart i j lt below i_alive j_alive used e = elim (Bool-cases (j == row)) [
      | inl here ↦
          let same : j ≡ row = ground arith in
          held-not_slot i ((i_alive, ground arith), ground arith) (e ∙ ap (slot_at assigned) same)
      | inr before ↦
          let j_before : j < row = ground arith in
          c.apart i j lt j_before i_alive j_alive used
            (sym (slot_at-before i (omega arith)) ∙ e ∙ slot_at-before j j_before)
    ]

    assigned-Consistent : Consistent last_uses live (HeldNow row) (suc row) assigned
    assigned-Consistent = record {
      free_is = unfold assigned in picks.free_is;
      sized = unfold assigned in length-set s.dst row picks.slot ∙ c.sized;
      peak_le = unfold assigned in picks.peak_le;
      held_row = λ j held. elim held [
        | inl before ↦ (omega (arith, before.0.1), before.0.0)
        | inr e ↦ (omega (arith, e), rw e alive)
      ];
      held_taken = λ j held. elim held [
        | inl before ↦ held-taken j before
        | inr e ↦ rw (e, slot_at-row) (unfold assigned in picks.now_taken)
      ];
      held_apart = now-apart;
      free_below = λ t positive now.
          unfold assigned in
          omega (arith, c.free_below t positive (picks.still_free t positive now), picks.more);
      in_range = unfold assigned in assigned-range;
      apart = assigned-apart;
    }

  -- A row before `row` that row `row` or a later one uses.
  abbrev pub HeldAt : ℕ → ℕ → Type 0
  HeldAt row j = (IsLive last_uses live j × (j < row)) × (row ≤ get_or last_uses j 0)

  assign_row-Consistent :
      (row : ℕ) (s : Assigned)
      → row < length last_uses
      → IsLive last_uses live row
      → row ≤ get_or last_uses row 0
      → Consistent last_uses live (HeldAfter last_uses live row) row s
      → (next : Assigned) × (assign_row last_uses live row s ≡ some next)
        × Consistent last_uses live (HeldAt (suc row)) (suc row) next
  unfolding assign_row assigned
  assign_row-Consistent row s inside alive ordered c =
      let p = picks row s inside alive c in
      let now = assigned-Consistent row s inside alive c in
      elim (Bool-cases (get_or last_uses row 0 == row)) [
        | inl own ↦
            let (free, marked, after) =
              mark_slot_free-Consistent last_uses live (HeldNow row) (suc row) row
                (assigned row s inside alive c) (omega arith) (inr refl) now in
            let e = slot_at-row row s inside alive c in
            (
              record (assigned row s inside alive c) { free = free },
              rw (p.returns, own, rw e at marked),
              fewer-Consistent last_uses live (λ i. HeldNow row i × (i ≢ row)) (HeldAt (suc row))
                  (suc row) (record (assigned row s inside alive c) { free = free })
                  (λ j h. later_row own j h) after,
            )
        | inr longer ↦ (
          assigned row s inside alive c,
          rw (p.returns, longer),
          fewer-Consistent last_uses live (HeldNow row) (HeldAt (suc row)) (suc row)
              (assigned row s inside alive c) (λ j h. some_row j h) now,
        )
      ]
    where
      some_row : (j : ℕ) → HeldAt (suc row) j → HeldNow row j
      some_row j h = elim (Bool-cases (j == row)) [
        | inl here ↦ inr (ground arith)
        | inr before ↦ inl ((h.0.0, ground arith), omega arith)
      ]

      later_row :
          (get_or last_uses row 0 == row) ≡ true
          → (j : ℕ) → HeldAt (suc row) j
          → HeldNow row j × (j ≢ row)
      later_row own j h =
          let other : j ≢ row = λ e.
            let used : suc row ≤ get_or last_uses row 0 = rw (sym e) (omega (arith, h.1, e)) in
            absurd (ground arith) in
          (some_row j h, other)

  -- A row that is not live keeps everything.
  skip_row-Consistent :
      (row : ℕ) (s : Assigned)
      → skipped live row ≡ true
      → Consistent last_uses live (HeldAfter last_uses live row) row s
      → Consistent last_uses live (HeldAt (suc row)) (suc row) s
  skip_row-Consistent row s dead c =
      let before : (j : ℕ) → j < suc row → IsLive last_uses live j → j < row = λ j below alive.
        elim (Bool-cases (j == row)) [
          | inl here ↦ let e : j ≡ row = ground arith in absurd (ground (arith, rw e at alive))
          | inr other ↦ ground arith
        ] in
      let held : (j : ℕ) → HeldAt (suc row) j → HeldAfter last_uses live row j =
        λ j h. ((h.0.0, before j h.0.1 h.0.0), omega arith) in
      record {
        free_is = c.free_is;
        sized = c.sized;
        peak_le = omega (arith, c.peak_le);
        held_row = λ j h. (h.0.1, h.0.0);
        held_taken = λ j h. c.held_taken j (held j h);
        held_apart = λ i j hi hj. c.held_apart i j (held i hi) (held j hj);
        free_below = c.free_below;
        in_range = λ j below alive. c.in_range j (before j below alive) alive;
        apart =
            λ i j lt below i_alive j_alive. c.apart i j lt (before j below j_alive) i_alive j_alive;
      }

  -- One row of the loop.
  pub allocate_row-Consistent :
      (links : Links)
      → IsLastUses last_uses live
      → IsLinks last_uses live (length last_uses) links
      → (row : ℕ) (s : Assigned) → row < length last_uses
      → Consistent last_uses live (HeldAt row) row s
      → (next : Assigned) × (allocate_row last_uses live links row s ≡ some next)
        × Consistent last_uses live (HeldAt (suc row)) (suc row) next
  unfolding allocate_row
  allocate_row-Consistent links is linked row s inside c =
      let held =
        fewer-Consistent last_uses live (HeldAt row)
          (HeldBelow last_uses live row (length last_uses)) row s (λ j h. below_row j h) c in
      let (free, released, after) =
        release-Consistent last_uses live row links.nexts (length last_uses) (length last_uses)
          (get_or links.heads row 0) s inside (omega arith) (linked.chains row) held in
      elim (Bool-cases (skipped live row)) [
        | inl dead ↦ (
          record s { free = free },
          rw (released, dead),
          skip_row-Consistent row (record s { free = free }) dead after,
        )
        | inr alive ↦
            let (next, given, kept) =
              assign_row-Consistent row (record s { free = free }) inside alive
                (is row inside alive).0 after in
            (next, rw (released, alive) given, kept)
      ]
    where
      below_row : (j : ℕ) → HeldBelow last_uses live row (length last_uses) j → HeldAt row j
      below_row j h = elim h.1 [
        | inl later ↦ (h.0, omega arith)
        | inr here ↦ (h.0, omega (arith, here.0))
      ]
