-- ===== src/Compile/Allocate/Correct.antt =====
-- The slots that `allocateSlots` of internal/compile/liveness.go gives.
use verifoxx.Common.{
  ℕ, suc, ◌-◌, ◌/◌, ◌%◌, ◌≤◌, ◌<◌, ◌≡◌, ◌≢◌, ◌∙◌, true, false, ◌&&◌, inl, inr, ◌⊎◌, Bool-cases,
  Option, some, List, arith, ◌==◌, length, get_or, set, length-replicate, length-set, get_or-zeros,
  get_or-set_self, get_or-set_ne, Runs, for_rows-Runs,
}
use verifoxx.Words.{max_uint32, bit-zero}
use verifoxx.Compile.Slots.{slot_word_count}
use verifoxx.Compile.Slots.Laws.{is_free}
use verifoxx.Compile.Allocate.{
  Assigned, SlotMode, skipped, sized_live, allocate_row, retain_row, no_slots, reuse_slots,
  allocate_slots,
}
use verifoxx.Compile.Allocate.Chain.{IsLastUses, IsLinks-Runs}
use verifoxx.Compile.Allocate.Invariant.{IsLive, Consistent}
use verifoxx.Compile.Allocate.Rows.{HeldAt, allocate_row-Consistent}

-- Slots for the live rows: each lies between 1 and `peak`, there are at most as many as rows, and
-- the slot of a row is given to no other row before the last use.
pub record IsAllocation (last_uses : List ℕ) (live : Option (List ℕ)) (dst : List ℕ) (peak : ℕ)
    : Type 0 where
  pub sized : length dst ≡ length last_uses
  pub bounded : peak ≤ length last_uses
  pub in_range :
      (j : ℕ)
      → j < length last_uses
      → skipped live j ≡ false
      → (0 < get_or dst j 0) × (get_or dst j 0 ≤ peak)
  pub apart :
      (i j : ℕ)
      → i < j
      → j < length last_uses
      → skipped live i ≡ false
      → skipped live j ≡ false
      → j < get_or last_uses i 0
      → get_or dst i 0 ≢ get_or dst j 0

module _ (last_uses : List ℕ) (live : Option (List ℕ)) (dst : List ℕ)
    (fits : length last_uses ≤ max_uint32) (sized : length dst ≡ length last_uses) where
  start-Consistent :
      Consistent last_uses live (HeldAt last_uses live fits 0) 0 (no_slots last_uses live dst)
  unfolding is_free
  start-Consistent = record {
    free_is = record {
      sized = length-replicate {A = ℕ} (slot_word_count (length last_uses)) 0;
      narrow = λ word i wide.
          rw (get_or-zeros {A = ℕ} (slot_word_count (length last_uses)) word 0) (bit-zero i);
      within = omega arith;
      skipped = λ word below. get_or-zeros {A = ℕ} (slot_word_count (length last_uses)) word 0;
    };
    sized = sized;
    peak_le = omega arith;
    held_row = λ j h. absurd (omega (arith, h.0.1));
    held_taken = λ j h. absurd (omega (arith, h.0.1));
    held_apart = λ i j hi hj. absurd (omega (arith, hi.0.1));
    free_below = λ t positive now.
        let e = get_or-zeros {A = ℕ} (slot_word_count (length last_uses)) ((t - 1) / 64) 0 in
        absurd (ground (arith, bit-zero ((t - 1) % 64), rw e at now));
    in_range = λ j below. absurd (omega arith);
    apart = λ i j lt below. absurd (omega arith);
  }

  reuse_slots-IsAllocation :
      IsLastUses last_uses live
      → (s : Assigned) × (reuse_slots last_uses live dst ≡ some s)
        × IsAllocation last_uses live s.dst s.peak
  unfolding reuse_slots
  reuse_slots-IsAllocation is =
      let linked = IsLinks-Runs last_uses live is in
      let rows =
        for_rows-Runs (allocate_row last_uses live linked.out) (length last_uses)
          (λ row. Consistent last_uses live (HeldAt last_uses live fits row) row)
          (allocate_row-Consistent last_uses live fits linked.out is linked.after)
          (length last_uses) 0 (no_slots last_uses live dst) (omega arith) start-Consistent in
      (
        rows.out,
        rw (linked.returns, rows.returns),
        record {
          sized = rows.after.sized;
          bounded = rows.after.peak_le;
          in_range = rows.after.in_range;
          apart = rows.after.apart;
        },
      )

  -- Without reuse, each live row has the next slot.
  record IsRetained (row : ℕ) (s : List ℕ × ℕ) : Type 0 where
    sized_dst : length s.0 ≡ length last_uses
    peak_le : s.1 ≤ row
    in_range :
        (j : ℕ) → j < row → IsLive last_uses live j → (0 < get_or s.0 j 0) × (get_or s.0 j 0 ≤ s.1)
    increasing :
        (i j : ℕ)
        → i < j
        → j < row
        → IsLive last_uses live i
        → IsLive last_uses live j
        → get_or s.0 i 0 < get_or s.0 j 0

  -- A live row, when rows before it are known.
  earlier_row :
      (row j : ℕ) → skipped live row ≡ true → j < suc row → IsLive last_uses live j → j < row
  earlier_row row j dead below alive = elim (Bool-cases (j == row)) [
    | inl here ↦ let e : j ≡ row = ground arith in absurd (ground (arith, rw e at alive))
    | inr other ↦ ground arith
  ]

  retain_row-IsRetained :
      (row : ℕ) (s : List ℕ × ℕ)
      → row < length last_uses
      → IsRetained row s
      → (next : List ℕ × ℕ) × (retain_row last_uses live row s ≡ some next)
        × IsRetained (suc row) next
  unfolding retain_row
  retain_row-IsRetained row (d, peak) inside inv = elim (Bool-cases (skipped live row)) [
    | inl dead ↦ (
      (d, peak),
      rw dead,
      record {
        sized_dst = inv.sized_dst;
        peak_le = omega (arith, inv.peak_le);
        in_range = λ j below alive. inv.in_range j (earlier_row row j dead below alive) alive;
        increasing = λ i j lt below i_alive j_alive.
            inv.increasing i j lt (earlier_row row j dead below j_alive) i_alive j_alive;
      },
    )
    | inr alive ↦
        let room : (peak == max_uint32) ≡ false = ground (arith, inv.peak_le, fits) in
        let here = get_or-set_self d row (suc peak) 0 (omega (arith, inv.sized_dst)) in
        let there : (j : ℕ) → j < row → get_or (set d row (suc peak)) j 0 ≡ get_or d j 0 =
          λ j before. get_or-set_ne d row j (suc peak) 0 (λ e. absurd (omega (arith, e))) in
        (
          (set d row (suc peak), suc peak),
          rw (alive, room),
          record {
            sized_dst = length-set d row (suc peak) ∙ inv.sized_dst;
            peak_le = omega (arith, inv.peak_le);
            in_range = λ j below j_alive. elim (Bool-cases (j == row)) [
              | inl same ↦ let e : j ≡ row = ground arith in rw (e, here) (omega arith, omega arith)
              | inr other ↦
                  let before : j < row = ground arith in
                  let (lo, hi) = inv.in_range j before j_alive in
                  rw (there j before) (lo, omega (arith, hi))
            ];
            increasing = λ i j lt below i_alive j_alive. elim (Bool-cases (j == row)) [
              | inl same ↦
                  let e : j ≡ row = ground arith in
                  let before : i < row = omega (arith, e) in
                  rw (e, here, there i before) (omega (arith, (inv.in_range i before i_alive).1))
              | inr other ↦
                  let before : j < row = ground arith in
                  rw (there j before, there i (omega arith))
                    (inv.increasing i j lt before i_alive j_alive)
            ];
          },
        )
  ]

  retain_rows-IsRetained :
      Runs (retain_row last_uses live) (length last_uses) 0 (dst, 0) (IsRetained (length last_uses))
  retain_rows-IsRetained =
      for_rows-Runs (retain_row last_uses live) (length last_uses) IsRetained retain_row-IsRetained
        (length last_uses) 0 (dst, 0) (omega arith)
        (record {
          sized_dst = sized;
          peak_le = omega arith;
          in_range = λ j below. absurd (omega arith);
          increasing = λ i j lt below. absurd (omega arith);
        })

  -- Both modes of slot allocation return on last uses that lie between their own row and the end:
  -- each live row gets a slot between 1 and the number of slots, which is at most the number of
  -- rows, and no live row before the last use of another is given its slot. The destination and the
  -- live flags have a place for each row, and rows fit in 32 bits.
  pub allocate_slots-IsAllocation :
      (mode : SlotMode)
      → (mode ≡ SlotMode.slot_reuse) ⊎ (mode ≡ SlotMode.slot_retain_all)
      → sized_live last_uses live live ≡ true
      → IsLastUses last_uses live
      → (slots : List ℕ) × (peak : ℕ) × (allocate_slots last_uses live dst mode
          ≡ some (slots, peak))
        × IsAllocation last_uses live slots peak
  unfolding allocate_slots
  allocate_slots-IsAllocation mode either live_sized is =
      let known : (length dst == length last_uses && sized_live last_uses live live) ≡ true =
        ground arith in
      elim either [
        | inl reuse ↦
            let (s, returned, kept) = reuse_slots-IsAllocation is in
            (s.dst, s.peak, rw (known, reuse, returned), kept)
        | inr retain ↦
            let all = retain_rows-IsRetained in
            (
              all.out.0,
              all.out.1,
              rw (known, retain) all.returns,
              record {
                sized = all.after.sized_dst;
                bounded = all.after.peak_le;
                in_range = all.after.in_range;
                apart = λ i j lt below i_alive j_alive used e.
                    absurd (omega (arith, e, all.after.increasing i j lt below i_alive j_alive));
              },
            )
      ]
