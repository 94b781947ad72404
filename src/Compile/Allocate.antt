-- ===== src/Compile/Allocate.antt =====
-- internal/compile/liveness.go: `allocateSlots`.
-- Rows are zero-based and fit in 32 bits, as `validateSlotProgram` has checked of the program before.
-- `none` is an error. A linked list of instructions holds the rows that a row releases: `heads` and
-- `nexts` hold one-based identifiers, and 0 ends a list.
pub mod Chain
pub mod Invariant
pub mod Rows
pub mod Correct
use verifoxx.Common.{
  ℕ, zero, suc, ◌+◌, ◌-◌, Bool, true, false, not, ◌&&◌, ◌||◌, Option, none, some, List, ltb, leb,
  ◌==◌, if◌then◌else◌, length, get_or, set, replicate, ◌>>=◌, ◌>>◌, require, for_rows,
}
use verifoxx.Words.{max_uint32}
use verifoxx.Compile.Slots.{FreeSlots, slot_word_count, mark_slot_free, take_lowest_free_slot}

-- `other` stands for every undefined byte.
pub data SlotMode : Type 0 where
  slot_reuse slot_retain_all other : SlotMode

-- `live != nil && live[row] == 0`; `none` is `nil`.
abbrev pub skipped : Option (List ℕ) → ℕ → Bool
skipped none row = false
skipped (some flags) row = get_or flags row 0 == 0

-- The destination, the free slots and the number of slots so far.
pub record Assigned : Type 0 where
  pub dst : List ℕ
  pub free : FreeSlots
  pub peak : ℕ

pub record Links : Type 0 where
  pub heads : List ℕ
  pub nexts : List ℕ

module _ (last_uses : List ℕ) (live : Option (List ℕ)) where
  -- The body of the loop over `lastUses` that builds the lists.
  unfoldable pub link_row : ℕ → Links → Option Links
  link_row row links =
      let last_use = get_or last_uses row 0 in
      let n = length last_uses in
      if skipped live row
      then some links
      else if ltb last_use row || ltb n last_use
      then none
      else if ltb row last_use && ltb last_use n
      then some (record {
        heads = set links.heads last_use (suc row);
        nexts = set links.nexts row (get_or links.heads last_use 0);
      })
      else some links

  -- `for id := head; id != 0; id = next[id-1]`, on fuel.
  unfoldable pub release : List ℕ → List ℕ → ℕ → ℕ → FreeSlots → Option FreeSlots
  release nexts dst fuel zero free = some free
  release nexts dst zero (suc row) free = none
  release nexts dst (suc fuel) (suc row) free = do
    _ ← require (ltb row (length last_uses) && not (skipped live row))
    next ← mark_slot_free free (get_or dst row 0)
    release nexts dst fuel (get_or nexts row 0) next

  -- A free slot, or else a new one.
  unfoldable pub pick_slot : Assigned → Option (Assigned × ℕ)
  pick_slot s = take_lowest_free_slot s.free >>= λ taken.
      if not (taken.1 == 0)
      then some (record s { free = taken.0 }, taken.1)
      else if s.peak == max_uint32
      then none
      else some (record s { free = taken.0; peak = s.peak + 1 }, s.peak + 1)

  -- A row that is its own last use releases its slot at once.
  unfoldable pub assign_row : ℕ → Assigned → Option Assigned
  unfolding pick_slot
  assign_row row s = do
    picked ← pick_slot s
    let after = record picked.0 { dst = set s.dst row picked.1 }
    (if get_or last_uses row 0 == row
        then (mark_slot_free after.free picked.1 >>= λ free. some (record after { free = free }))
        else some after)

  -- The body of the loop that allocates.
  unfoldable pub allocate_row : Links → ℕ → Assigned → Option Assigned
  unfolding release assign_row
  allocate_row links row s = do
    free ← release links.nexts s.dst (length last_uses) (get_or links.heads row 0) s.free
    if skipped live row
        then some (record s { free = free })
        else assign_row row (record s { free = free })

  -- The loop without reuse.
  unfoldable pub retain_row : ℕ → List ℕ × ℕ → Option (List ℕ × ℕ)
  retain_row row (dst, peak) =
      if skipped live row
      then some (dst, peak)
      else if peak == max_uint32
      then none
      else some (set dst row (suc peak), suc peak)

  abbrev pub no_links : Links
  no_links = record {
    heads = replicate (length last_uses) 0;
    nexts = replicate (length last_uses) 0;
  }

  abbrev pub no_slots : List ℕ → Assigned
  no_slots dst = record {
    dst = dst;
    free = record {
      words = replicate (slot_word_count (length last_uses)) 0;
      first = slot_word_count (length last_uses);
    };
    peak = 0;
  }

  -- Both loops of the mode that reuses slots.
  unfoldable pub reuse_slots : List ℕ → Option Assigned
  unfolding link_row allocate_row
  reuse_slots dst = do
    links ← for_rows link_row (length last_uses) 0 no_links
    for_rows (allocate_row links) (length last_uses) 0 (no_slots dst)

  abbrev pub sized_live : Option (List ℕ) → Bool
  sized_live none = true
  sized_live (some flags) = length flags == length last_uses

  -- `allocateSlots`: the destination and the number of slots.
  unfoldable pub allocate_slots : List ℕ → SlotMode → Option (List ℕ × ℕ)
  unfolding reuse_slots retain_row
  allocate_slots dst mode =
      require (length dst == length last_uses && sized_live live) >> elim mode [
        | SlotMode.slot_retain_all ↦ for_rows retain_row (length last_uses) 0 (dst, 0)
        | SlotMode.slot_reuse ↦ reuse_slots dst >>= λ s. some (s.dst, s.peak)
        | SlotMode.other ↦ none
      ]
