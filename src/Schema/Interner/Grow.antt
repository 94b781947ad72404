-- ===== src/Schema/Interner/Grow.antt =====
-- `grow` of internal/schema/symbols.go moves all symbols to a table of twice the size.
use native.Mathlib.Nat.{one-le-pow, pow-suc}
use verifoxx.Common.{
  ℕ, suc, ◌*◌, ◌^◌, ◌<◌, ◌≡◌, refl, sym, ap, ◌∙◌, subst, false, inl, inr, Bool-cases, some, arith,
  ◌==◌, length, get_or, set, take, replicate, length-set, length-replicate, get_or-zeros,
  take-length, Runs, for_rows-Runs,
}
use verifoxx.Arena.{Ref}
use verifoxx.Schema.Interner.{Interner, read, no_ref, first_slot, move_slot, grow, bytes_of}
use verifoxx.Schema.Interner.Probe.{
  used, used-set, used-replicate, first_slot-lt, probe_vacant-finds,
}
use verifoxx.Schema.Interner.Move.{IsFilled, IsFilled-skip, IsFilled-move}
use verifoxx.Schema.Interner.Invariant.{
  ref_of, HasEntries, IsInterner, set-HasEntries, used-take, used-take_le,
}

module _ (old : Interner) (is : IsInterner old) where
  -- The new table once the slots of the old one before `i` are moved.
  pub record IsMoved (i : ℕ) (t : Interner) : Type 0 where
    pub sized : length t.ids ≡ length old.ids * 2
    pub has : HasEntries t
    pub filled : IsFilled old is.indexed i t
    pub counted : used t.ids ≡ used (take i old.ids)
    pub arena : t.arena ≡ old.arena
    pub starts : t.starts ≡ old.starts
    pub lengths : t.lengths ≡ old.lengths
    pub count : t.count ≡ old.count
    pub next : t.next_id ≡ old.next_id

  ref_of-moved : (i : ℕ) (t : Interner) (id : ℕ) → IsMoved i t → ref_of t id ≡ ref_of old id
  ref_of-moved i t id m = rw (m.starts, m.lengths)

  twice : length old.ids * 2 ≡ 2 ^ suc is.bits
  twice = omega (arith, is.sized, pow-suc 2 is.bits)

  move_slot-IsMoved :
      (i : ℕ) (t : Interner)
      → i < length old.ids
      → IsMoved i t
      → (next : Interner) × (move_slot old i t ≡ some next) × IsMoved (suc i) next
  unfolding move_slot
  move_slot-IsMoved i t inside m = elim (Bool-cases (get_or old.ids i 0 == 0)) [
    | inl empty ↦ (
      t,
      rw empty,
      record {
        sized = m.sized;
        has = m.has;
        filled = IsFilled-skip old is.indexed i t empty m.filled;
        counted = ground (arith, m.counted, used-take old.ids i inside);
        arena = m.arena;
        starts = m.starts;
        lengths = m.lengths;
        count = m.count;
        next = m.next;
      },
    )
    | inr taken ↦
        let id = get_or old.ids i 0 in
        let ref = get_or old.refs i no_ref in
        let b = read old.arena ref in
        let sized : length t.ids ≡ 2 ^ suc is.bits = m.sized ∙ twice in
        let room : used t.ids < length t.ids = omega (
          arith,
          m.sized,
          m.counted,
          used-take_le old.ids i,
          is.counted,
          is.half,
          is.sized,
          one-le-pow is.bits 2,
        ) in
        let start : first_slot (length t.ids) b < 2 ^ suc is.bits =
          subst (λ n. first_slot n b < 2 ^ suc is.bits) (sym sized)
            (first_slot-lt (suc is.bits) b) in
        let start_inside : first_slot (length t.ids) b < length t.ids =
          omega (arith, start, sized) in
        let (slot, ran, slot_inside, vacant, last, last_inside, there, before) =
          probe_vacant-finds (suc is.bits) t.ids (first_slot (length t.ids) b) sized start room in
        let after : Interner = record t { ids = set t.ids slot id; refs = set t.refs slot ref } in
        let (small, located) = is.has.entries i inside taken in
        (
          after,
          rw (taken, ran),
          record {
            sized = length-set t.ids slot id ∙ m.sized;
            has =
                set-HasEntries t after slot id ref refl refl slot_inside m.has
                  (λ other some_id le. (le, refl))
                  (omega (arith, small, ap (λ xs. length xs) m.starts))
                  (located ∙ sym (ref_of-moved i t id m));
            filled =
                IsFilled-move old is.indexed i t slot last inside taken m.arena m.has.refs_sized
                  slot_inside vacant last_inside start_inside there before m.filled;
            counted = ground (
              arith,
              used-set t.ids slot id slot_inside vacant (λ e. absurd (ground arith)),
              m.counted,
              used-take old.ids i inside,
            );
            arena = m.arena;
            starts = m.starts;
            lengths = m.lengths;
            count = m.count;
            next = m.next;
          },
        )
  ]

  no_entry : (slot : ℕ) → (get_or (replicate (length old.ids * 2) 0) slot 0 == 0) ≡ false → ⊥
  no_entry slot taken = ground (arith, get_or-zeros {A = ℕ} (length old.ids * 2) slot 0)

  grow-Runs :
      Runs
        (move_slot old)
        (length old.ids)
        0
        (record old {
          ids = replicate (length old.ids * 2) 0;
          refs = replicate (length old.ids * 2) no_ref;
        })
        (IsMoved (length old.ids))
  unfolding used
  grow-Runs =
      for_rows-Runs (move_slot old) (length old.ids) IsMoved move_slot-IsMoved (length old.ids) 0
        (record old {
          ids = replicate (length old.ids * 2) 0;
          refs = replicate (length old.ids * 2) no_ref;
        })
        (omega arith)
        (record {
          sized = length-replicate {A = ℕ} (length old.ids * 2) 0;
          has = record {
            refs_sized =
                length-replicate {A = Ref} (length old.ids * 2) no_ref
                ∙ sym (length-replicate {A = ℕ} (length old.ids * 2) 0);
            entries = λ slot inside taken. absurd (no_entry slot taken);
          };
          filled = record {
            sources = λ slot inside taken. absurd (no_entry slot taken);
            reached = λ slot inside taken. absurd (no_entry slot taken);
            moved = λ j before taken. absurd (omega arith);
          };
          counted = used-replicate (length old.ids * 2);
          arena = refl;
          starts = refl;
          lengths = refl;
          count = refl;
          next = refl;
        })

  -- A table that grows keeps its symbols and has room for as many again.
  pub grow-IsInterner :
      (t : Interner) × (grow old ≡ some t)
      × IsInterner t
      × (length t.ids ≡ length old.ids * 2)
      × (t.count ≡ old.count)
      × (t.arena ≡ old.arena)
      × ((id : ℕ) → bytes_of t id ≡ bytes_of old id)
  unfolding grow bytes_of
  grow-IsInterner =
      let runs = grow-Runs in
      let t = runs.out in
      let m = runs.after in
      let whole : used (take (length old.ids) old.ids) ≡ used old.ids =
        ap used (take-length old.ids) in
      (
        t,
        runs.returns,
        record {
          bits = suc is.bits;
          sized = m.sized ∙ twice;
          even = omega (arith, m.sized);
          has = m.has;
          indexed = record {
            reached = m.filled.reached;
            placed = λ id positive le.
                let (j, j_inside, same) =
                  is.indexed.placed id positive (omega (arith, ap (λ xs. length xs) m.starts)) in
                let (slot, slot_inside, e) = m.filled.moved j j_inside (ground (arith, same)) in
                (slot, slot_inside, e ∙ same);
          };
          counted = omega (arith, m.counted, whole, is.counted, m.count);
          half = omega (arith, m.count, is.half, m.sized);
          next = omega (arith, m.next, is.next, m.count);
          starts_sized = omega (arith, ap (λ xs. length xs) m.starts, is.starts_sized, m.count);
          lengths_sized = omega (arith, ap (λ xs. length xs) m.lengths, is.lengths_sized, m.count);
          within = rw m.arena is.within;
          readable = λ id positive le.
              rw (m.arena, ref_of-moved (length old.ids) t id m)
                (is.readable id positive (omega (arith, ap (λ xs. length xs) m.starts)));
        },
        m.sized,
        m.count,
        m.arena,
        λ id. rw (m.arena, m.starts, m.lengths),
      )
