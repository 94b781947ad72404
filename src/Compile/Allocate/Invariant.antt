-- ===== src/Compile/Allocate/Invariant.antt =====
-- The state of `allocateSlots` of internal/compile/liveness.go between two steps.
use verifoxx.Common.{
  ℕ, zero, suc, ◌-◌, ◌/◌, ◌≤◌, ◌<◌, ◌≡◌, ◌≢◌, refl, true, false, not, ◌&&◌, ◌⊎◌, inl, inr,
  Bool-cases, Option, some, List, arith, ltb, length, get_or,
}
use verifoxx.Compile.Slots.{FreeSlots, slot_word_count, mark_slot_free}
use verifoxx.Compile.Slots.Laws.{is_free, IsFreeSlots, mark_slot_free-Adds}
use verifoxx.Compile.Allocate.{Assigned, skipped, release}
use verifoxx.Compile.Allocate.Chain.{Chain, stop, link, Releases}

abbrev pub slot_at : Assigned → ℕ → ℕ
slot_at s row = get_or s.dst row 0

slot_word-fits : (n slot : ℕ) → 0 < slot → slot ≤ n → (slot - 1) / 64 < slot_word_count n
slot_word-fits n slot positive le = ground arith

module _ (last_uses : List ℕ) (live : Option (List ℕ)) where
  abbrev pub IsLive : ℕ → Type 0
  IsLive row = skipped live row ≡ false

  -- The slots given to the rows before `row`, where `Held` says which of these still hold theirs.
  pub record Consistent (Held : ℕ → Type 0) (row : ℕ) (s : Assigned) : Type 0 where
    pub free_is : IsFreeSlots (slot_word_count (length last_uses)) s.free
    pub sized : length s.dst ≡ length last_uses
    pub peak_le : s.peak ≤ row
    pub held_row : (j : ℕ) → Held j → (j < row) × IsLive j
    pub held_taken : (j : ℕ) → Held j → is_free s.free (slot_at s j) ≡ false
    pub held_apart : (i j : ℕ) → Held i → Held j → slot_at s i ≡ slot_at s j → i ≡ j
    pub free_below : (t : ℕ) → 0 < t → is_free s.free t ≡ true → t ≤ s.peak
    pub in_range : (j : ℕ) → j < row → IsLive j → (0 < slot_at s j) × (slot_at s j ≤ s.peak)
    pub apart :
        (i j : ℕ)
        → i < j
        → j < row
        → IsLive i
        → IsLive j
        → j < get_or last_uses i 0
        → slot_at s i ≢ slot_at s j

  -- Fewer rows hold their slots.
  pub fewer-Consistent :
      (Held Fewer : ℕ → Type 0) (row : ℕ) (s : Assigned)
      → ((j : ℕ) → Fewer j → Held j)
      → Consistent Held row s
      → Consistent Fewer row s
  fewer-Consistent Held Fewer row s less c = record {
    free_is = c.free_is;
    sized = c.sized;
    peak_le = c.peak_le;
    held_row = λ j held. c.held_row j (less j held);
    held_taken = λ j held. c.held_taken j (less j held);
    held_apart = λ i j hi hj. c.held_apart i j (less i hi) (less j hj);
    free_below = c.free_below;
    in_range = c.in_range;
    apart = c.apart;
  }

  -- A row gives its slot back.
  pub mark_slot_free-Consistent :
      (Held : ℕ → Type 0) (row j : ℕ) (s : Assigned)
      → row ≤ length last_uses
      → Held j
      → Consistent Held row s
      → (free : FreeSlots) × (mark_slot_free s.free (slot_at s j) ≡ some free)
        × Consistent (λ i. Held i × (i ≢ j)) row (record s { free = free })
  mark_slot_free-Consistent Held row j s fits held c =
      let (below, alive) = c.held_row j held in
      let (positive, le) = c.in_range j below alive in
      let (free, marked, is, adds) =
        mark_slot_free-Adds (slot_word_count (length last_uses)) (slot_at s j) s.free c.free_is
          positive
          (slot_word-fits (length last_uses) (slot_at s j) positive (omega (arith, c.peak_le)))
          (c.held_taken j held) in
      (
        free,
        marked,
        record {
          free_is = is;
          sized = c.sized;
          peak_le = c.peak_le;
          held_row = λ i hi. c.held_row i hi.0;
          held_taken = λ i hi.
              let (i_below, i_alive) = c.held_row i hi.0 in
              let i_positive = (c.in_range i i_below i_alive).0 in
              let differs : slot_at s i ≢ slot_at s j = λ e. hi.1 (c.held_apart i j hi.0 held e) in
              let old = c.held_taken i hi.0 in
              let new = adds (slot_at s i) i_positive in ground arith;
          held_apart = λ i k hi hk. c.held_apart i k hi.0 hk.0;
          free_below = λ t t_positive now.
              let new = adds t t_positive in
              elim (Bool-cases (is_free s.free t)) [
                | inl old ↦ c.free_below t t_positive old
                | inr fresh ↦ ground arith
              ];
          in_range = c.in_range;
          apart = c.apart;
        },
      )

  -- A row that is released by row `u` before the bound, or is used later than row `u`.
  abbrev pub HeldBelow : ℕ → ℕ → ℕ → Type 0
  HeldBelow u bound j =
      (IsLive j × (j < u))
      × ((u < get_or last_uses j 0) ⊎ ((get_or last_uses j 0 ≡ u) × (j < bound)))

  -- A row used later than row `u`.
  abbrev pub HeldAfter : ℕ → ℕ → Type 0
  HeldAfter u j = (IsLive j × (j < u)) × (u < get_or last_uses j 0)

  -- The rows of a list give their slots back, and the fuel is enough.
  pub release-Consistent :
      (u : ℕ) (nexts : List ℕ) (fuel bound id : ℕ) (s : Assigned)
      → u < length last_uses
      → bound ≤ fuel
      → Chain (Releases last_uses live u) nexts bound id
      → Consistent (HeldBelow u bound) u s
      → (free : FreeSlots) × (release last_uses live nexts s.dst fuel id s.free ≡ some free)
        × Consistent (HeldAfter u) u (record s { free = free })
  unfolding release
  release-Consistent u nexts fuel bound _ s inside enough (stop _) c = (
    s.free,
    refl,
    fewer-Consistent (HeldBelow u bound) (HeldAfter u) u s (λ j h. (h.0, inl h.1)) c,
  )
  release-Consistent u nexts zero bound _ s inside enough (link _ row below releases rest) c =
      absurd (omega arith)
  release-Consistent u nexts (suc fuel) bound _ s inside enough (link _ row below releases rest) c =
      let (alive, last, before) = releases in
      let (free, marked, after) =
        mark_slot_free-Consistent (HeldBelow u bound) u row s (omega arith)
          ((alive, before), inr (last, below)) c in
      let fewer =
        fewer-Consistent (λ i. HeldBelow u bound i × (i ≢ row)) (HeldBelow u row) u
          (record s { free = free })
          (λ i h. elim h.1 [
            | inl later ↦ ((h.0, inl later), λ e. absurd (ground (arith, e)))
            | inr earlier ↦ ((h.0, inr (earlier.0, omega arith)), λ e. absurd (omega (arith, e)))
          ])
          after in
      let (free', released, done) =
        release-Consistent u nexts fuel row (get_or nexts row 0) (record s { free = free }) inside
          (omega arith) rest fewer in
      let known : (ltb row (length last_uses) && not (skipped live row)) ≡ true = ground arith in
      (free', rw (known, marked) released, done)
