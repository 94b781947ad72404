-- ===== src/Schema/Interner/Correct.antt =====
-- What `Intern` of internal/schema/symbols.go does to a table: it finds a symbol, or adds one.
use native.Mathlib.Nat.{}
use verifoxx.Common.{
  ℕ, ◌+◌, ◌-◌, ◌*◌, ◌^◌, ◌≤◌, ◌<◌, ◌≡◌, ◌≢◌, refl, sym, ap, ◌∙◌, subst, true, false, inl, inr,
  Bool-cases, some, none, List, [], ◌∷◌, ◌++◌, arith, ◌==◌, length, get_or, set, length-set,
  length-append, get_or-append_left, get_or-append_right, get_or-set_self, get_or-set_ne, some_inj,
}
use verifoxx.Arena.{ByteArena, Ref, append, bytes}
use verifoxx.Arena.Laws.{append-bytes}
use verifoxx.Program.Symbols.{bytes_equal}
use verifoxx.Schema.Interner.{
  Interner, Place, found, vacant, read, no_ref, first_slot, probe, bytes_of,
}
use verifoxx.Schema.Interner.Probe.{used-set, visited, Ends, first_slot-lt, probe-found}
use verifoxx.Schema.Interner.Indexed.{
  bytes_equal-eq, bytes_equal_self, text, Taken, Reaches, set-reached,
}
use verifoxx.Schema.Interner.Invariant.{ref_of, IsInterner, set-HasEntries}
use verifoxx.Schema.Interner.Lookup.{
  Interned, bytes_of-readable, read-bytes, find_symbol-probe, bytes_of-range, bytes_of-find_symbol,
}

module _ (t : Interner) (b : List ℕ) (is : IsInterner t) where
  unfoldable pub start : ℕ
  start = first_slot (length t.ids) b

  pub start-lt : start < 2 ^ is.bits
  unfolding start
  start-lt = subst (λ n. first_slot n b < 2 ^ is.bits) (sym is.sized) (first_slot-lt is.bits b)

  -- A symbol that is there already.
  pub found-Interned :
      (id : ℕ)
      → probe t b (length t.ids) (first_slot (length t.ids) b) ≡ some (found id)
      → Ends t b start (found id)
      → Interned t b t (some id)
  unfolding start
  found-Interned id ran ended = elim ended.last [
    | inl empty ↦ absurd (place-clash empty.1)
    | inr here ↦
        let slot = visited (length t.ids) start ended.steps in
        let inside : slot < length t.ids = ground (arith, start-lt, is.sized, ended.inside) in
        let id_is : id ≡ get_or t.ids slot 0 = found_inj here.2 in
        let (small, at) = is.has.entries slot inside here.0 in
        let positive : 0 < get_or t.ids slot 0 = ground (arith, here.0) in
        let (p, readable) = is.readable (get_or t.ids slot 0) positive small in
        let same : read t.arena (get_or t.refs slot no_ref) ≡ b = bytes_equal-eq _ b here.1 in
        let p_is : p ≡ b =
          sym (read-bytes t.arena (ref_of t (get_or t.ids slot 0)) p readable)
          ∙ ap (read t.arena) (sym at)
          ∙ same in
        record {
          is = is;
          keeps = λ other q h. (h, bytes_of-find_symbol t other q is h);
          answer = λ other e.
              let other_is : other ≡ get_or t.ids slot 0 = some_inj (sym e) ∙ id_is in
              (
                rw other_is (
                    bytes_of-readable t (get_or t.ids slot 0) is positive small
                    ∙ readable
                    ∙ ap some p_is),
                find_symbol-probe t b other is (ran ∙ ap (λ x. some (found x)) (some_inj e)),
              );
          refused = λ e. absurd (some_none e);
        }
  ]
    where
      place-clash : {s : ℕ} → found id ≡ vacant s → ⊥
      place-clash e = ground arith

      found_inj : {s : ℕ} → found id ≡ found s → id ≡ s
      found_inj e = cc

      some_none : some id ≡ none → ⊥
      some_none e = cc

  module _ (arena : ByteArena) (ref : Ref) (room : t.count * 2 < length t.ids)
      (appended : append t.arena b ≡ some (arena, ref)) (place : Place)
      (ended : Ends t b start place)
      (vacant_there : get_or t.ids (visited (length t.ids) start ended.steps) 0 ≡ 0) where
    unfoldable pub slot : ℕ
    slot = visited (length t.ids) start ended.steps

    slot-inside : slot < length t.ids
    unfolding slot
    slot-inside = ground (arith, start-lt, is.sized, ended.inside)

    vacant-slot : get_or t.ids slot 0 ≡ 0
    unfolding slot
    vacant-slot = vacant_there

    abbrev pub added : Interner
    added = record {
      arena = arena;
      ids = set t.ids slot t.next_id;
      refs = set t.refs slot ref;
      starts = t.starts ++ ref.offset ∷ [];
      lengths = t.lengths ++ ref.length ∷ [];
      count = t.count + 1;
      next_id = t.next_id + 1;
    }

    -- Symbols that are there keep their place in the arena.
    ref_of-old : (id : ℕ) → 0 < id → id ≤ length t.starts → ref_of added id ≡ ref_of t id
    ref_of-old id positive le = rw (
      get_or-append_left t.starts (ref.offset ∷ []) (id - 1) 0 (omega arith),
      get_or-append_left t.lengths (ref.length ∷ []) (id - 1) 0
          (omega (arith, is.starts_sized, is.lengths_sized)),
    )

    ref_of-new : ref_of added t.next_id ≡ ref
    ref_of-new =
        let at_starts : t.next_id - 1 - length t.starts ≡ 0 =
          omega (arith, is.next, is.starts_sized) in
        let at_lengths : t.next_id - 1 - length t.lengths ≡ 0 =
          omega (arith, is.next, is.lengths_sized) in
        let offset : get_or (t.starts ++ ref.offset ∷ []) (t.next_id - 1) 0 ≡ ref.offset =
          get_or-append_right t.starts (ref.offset ∷ []) (t.next_id - 1) 0
            (omega (arith, is.next, is.starts_sized))
          ∙ rw at_starts in
        let size : get_or (t.lengths ++ ref.length ∷ []) (t.next_id - 1) 0 ≡ ref.length =
          get_or-append_right t.lengths (ref.length ∷ []) (t.next_id - 1) 0
            (omega (arith, is.next, is.lengths_sized))
          ∙ rw at_lengths in
        rw (offset, size)

    bytes-old :
        (id : ℕ)
        → 0 < id
        → id ≤ length t.starts
        → (p : List ℕ) × (bytes t.arena (ref_of t id) ≡ some p)
          × (bytes arena (ref_of added id) ≡ some p)
    bytes-old id positive le =
        let (p, readable) = is.readable id positive le in
        let (_, earlier, _) = append-bytes t.arena arena ref b is.within appended in
        (
          p,
          readable,
          ap (bytes arena) (ref_of-old id positive le) ∙ earlier (ref_of t id) p readable,
        )

    bytes-new : bytes arena (ref_of added t.next_id) ≡ some b
    bytes-new =
        ap (bytes arena) ref_of-new ∙ (append-bytes t.arena arena ref b is.within appended).0

    -- A slot that is taken refers to the same symbol as before.
    text-old :
        (i : ℕ) → i < length t.ids → Taken t i → read arena (get_or t.refs i no_ref) ≡ text t i
    text-old i i_inside taken =
        let (small, located) = is.has.entries i i_inside taken in
        let (p, readable, now) = bytes-old (get_or t.ids i 0) (ground (arith, taken)) small in
        ap (read arena)
          (located ∙ sym (ref_of-old (get_or t.ids i 0) (ground (arith, taken)) small))
        ∙ read-bytes arena (ref_of added (get_or t.ids i 0)) p now
        ∙ sym (read-bytes t.arena (ref_of t (get_or t.ids i 0)) p readable)
        ∙ ap (read t.arena) (sym located)

    text-new : text added slot ≡ b
    text-new =
        ap (read arena)
          (get_or-set_self t.refs slot ref no_ref (omega (arith, slot-inside, is.has.refs_sized)))
        ∙ read-bytes arena ref b (append-bytes t.arena arena ref b is.within appended).0

    Reaches-new : Reaches t b slot
    unfolding slot start
    Reaches-new = record {
      steps = ended.steps;
      inside = ended.inside;
      here = refl;
      passed = λ e below.
          let (taken, other) = ended.earlier e below in
          (ground (arith, start-lt, is.sized, ended.inside), taken, other);
    }

    added-reached : (i : ℕ) → i < length added.ids → Taken added i → Reaches added (text added i) i
    added-reached =
        set-reached t added slot t.next_id ref refl refl vacant-slot text-old slot-inside
          is.indexed.reached (rw text-new Reaches-new)

    added-placed :
        (id : ℕ)
        → 0 < id
        → id ≤ length added.starts
        → (s : ℕ) × (s < length added.ids) × (get_or added.ids s 0 ≡ id)
    added-placed id positive le =
        let size : length added.ids ≡ length t.ids = length-set t.ids slot t.next_id in
        let grown : length added.starts ≡ length t.starts + 1 =
          length-append t.starts (ref.offset ∷ []) in
        elim (Bool-cases (id == t.next_id)) [
          | inl here ↦
              let e : id ≡ t.next_id = ground arith in
              (
                slot,
                omega (arith, size, slot-inside),
                get_or-set_self t.ids slot t.next_id 0 slot-inside ∙ sym e,
              )
          | inr old ↦
              let (s, inside, there) =
                is.indexed.placed id positive (ground (arith, grown, is.next, is.starts_sized)) in
              let apart : slot ≢ s =
                λ e. absurd (omega (arith, ap (λ i. get_or t.ids i 0) e, vacant-slot, there)) in
              (s, omega (arith, size), get_or-set_ne t.ids slot s t.next_id 0 apart ∙ there)
        ]

    added-IsInterner : IsInterner added
    added-IsInterner =
        let grown : length added.starts ≡ length t.starts + 1 =
          length-append t.starts (ref.offset ∷ []) in
        record {
          bits = is.bits;
          sized = length-set t.ids slot t.next_id ∙ is.sized;
          even = omega (arith, is.even, length-set t.ids slot t.next_id);
          has =
              set-HasEntries t added slot t.next_id ref refl refl slot-inside is.has
                (λ other some_id le. (omega (arith, grown), ref_of-old other (ground arith) le))
                (omega (arith, grown, is.next, is.starts_sized)) (sym ref_of-new);
          indexed = record { reached = added-reached; placed = added-placed };
          counted = omega (
            arith,
            used-set t.ids slot t.next_id slot-inside vacant-slot
                (λ e. absurd (omega (arith, e, is.next))),
            is.counted,
          );
          half = omega (arith, length-set t.ids slot t.next_id, is.even, room);
          next = omega (arith, is.next);
          starts_sized = omega (arith, grown, is.starts_sized);
          lengths_sized =
              omega (arith, length-append t.lengths (ref.length ∷ []), is.lengths_sized);
          within = (append-bytes t.arena arena ref b is.within appended).2;
          readable = λ id positive le. elim (Bool-cases (id == t.next_id)) [
            | inl here ↦ let e : id ≡ t.next_id = ground arith in (b, rw e bytes-new)
            | inr old ↦
                let (p, _, now) =
                  bytes-old id positive (ground (arith, grown, is.next, is.starts_sized)) in
                (p, now)
          ];
        }

    -- The slots before are taken by the same symbols as before.
    added-passed :
        (e : ℕ)
        → e < ended.steps
        → ((get_or added.ids (visited (length added.ids) start e) 0 == 0) ≡ false)
          × (bytes_equal
                (read arena (get_or added.refs (visited (length added.ids) start e) no_ref))
                b
              ≡ false)
    added-passed e below =
        let (taken, other) = ended.earlier e below in
        let at = visited (length t.ids) start e in
        let size : length added.ids ≡ length t.ids = length-set t.ids slot t.next_id in
        let apart : slot ≢ at = λ same.
          absurd (ground (arith, taken, ap (λ i. get_or t.ids i 0) (sym same), vacant-slot)) in
        let at_inside : at < length t.ids = ground (arith, start-lt, is.sized, ended.inside) in
        rw
          (
            size,
            get_or-set_ne t.ids slot at t.next_id 0 apart,
            get_or-set_ne t.refs slot at ref no_ref apart,
            text-old at at_inside taken,
          )
          (taken, other)

    added-keeps : (id : ℕ) (p : List ℕ) → bytes_of t id ≡ some p → bytes_of added id ≡ some p
    added-keeps id p h =
        let (positive, le) = bytes_of-range t id p h in
        let (q, readable, now) = bytes-old id positive le in
        let grown : length added.starts ≡ length t.starts + 1 =
          length-append t.starts (ref.offset ∷ []) in
        let same : q ≡ p =
          some_inj (sym readable ∙ sym (bytes_of-readable t id is positive le) ∙ h) in
        bytes_of-readable added id added-IsInterner positive (omega (arith, grown, le))
        ∙ now
        ∙ ap some same

    -- The new symbol is found where it was put.
    added-found :
        probe added b (length added.ids) (first_slot (length added.ids) b) ≡ some (found t.next_id)
    unfolding start
    added-found =
        let size : length added.ids ≡ length t.ids = length-set t.ids slot t.next_id in
        let here : get_or added.ids (visited (length added.ids) start ended.steps) 0 ≡ t.next_id =
          rw size (unfold slot in get_or-set_self t.ids slot t.next_id 0 slot-inside) in
        let taken : (get_or added.ids (visited (length added.ids) start ended.steps) 0 == 0)
            ≡ false =
          ground (arith, here, is.next) in
        let ref_here : get_or added.refs (visited (length added.ids) start ended.steps) no_ref
            ≡ ref =
          rw size (
            unfold slot in
            get_or-set_self t.refs slot ref no_ref
              (omega (arith, slot-inside, is.has.refs_sized))) in
        let same : bytes_equal
              (read arena (get_or added.refs (visited (length added.ids) start ended.steps) no_ref))
              b
            ≡ true =
          rw
            (
              ref_here,
              read-bytes arena ref b (append-bytes t.arena arena ref b is.within appended).0,
            )
            (bytes_equal_self b) in
        let first : first_slot (length added.ids) b ≡ start =
          unfold start in ap (λ n. first_slot n b) size in
        rw first (
          probe-found is.bits added b start (size ∙ is.sized) start-lt ended.steps
            (omega (arith, size, ended.inside)) added-passed taken same
          ∙ ap (λ id. some (found id)) here)

    pub added-Interned : Interned t b added (some t.next_id)
    added-Interned = record {
      is = added-IsInterner;
      keeps = λ id p h.
          let kept = added-keeps id p h in
          (kept, bytes_of-find_symbol added id p added-IsInterner kept);
      answer = λ id e.
          let id_is : id ≡ t.next_id = some_inj (sym e) in
          let grown : length added.starts ≡ length t.starts + 1 =
            length-append t.starts (ref.offset ∷ []) in
          let positive : 0 < t.next_id = omega (arith, is.next) in
          let le : t.next_id ≤ length added.starts =
            omega (arith, grown, is.next, is.starts_sized) in
          (
            rw id_is (bytes_of-readable added t.next_id added-IsInterner positive le ∙ bytes-new),
            rw id_is (find_symbol-probe added b t.next_id added-IsInterner added-found),
          );
      refused = λ e. absurd (some_none e);
    }
      where
        some_none : some t.next_id ≡ none → ⊥
        some_none e = cc
