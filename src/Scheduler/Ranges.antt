-- ===== src/Scheduler/Ranges.antt =====
-- What the ranges of internal/scheduler/shard.go are: a partition of the rows.
use native.Mathlib.Nat.{div-add-mod, mod-lt, suc-mul}
use verifoxx.Common.{
  ℕ, zero, suc, ◌+◌, ◌-◌, ◌*◌, ◌/◌, ◌%◌, ◌^◌, ◌≤◌, ◌<◌, ◌≡◌, refl, ap, false, List, [], ◌∷◌, arith,
  ltb, ◌==◌, length, inl, inr, Bool-cases,
}
use verifoxx.Scheduler.{
  RowRange, row_words, at_least_one, at_most, shard_count, shard_words, write_ranges,
  partition_rows,
}

-- The ranges follow each other from `from` on and end at `rows`, none is empty unless there are no
-- rows, and each starts with a word.
abbrev pub IsPartition : ℕ → ℕ → List RowRange → Type 0
IsPartition rows from [] = from ≡ rows
IsPartition rows from (r ∷ rs) =
    (r.start ≡ from)
    × (r.start % 64 ≡ 0)
    × (r.start ≤ r.end)
    × (0 < rows → r.start < r.end)
    × IsPartition rows r.end rs

shard_count-bounds :
    (capacity words shards : ℕ)
    → 0 < capacity
    → (0 < shard_count capacity words shards)
      × (shard_count capacity words shards ≤ capacity)
      × (shard_count capacity words shards ≤ at_least_one shards)
      × (0 < words → shard_count capacity words shards ≤ words)
unfolding shard_count
shard_count-bounds capacity words shards h = ground arith

-- What is left to do takes the words that are left.
Remains : ℕ → ℕ → ℕ → ℕ → ℕ → ℕ → Type 0
Remains words per_shard extra left shard from =
    (extra - shard ≤ left) × (from + left * per_shard + (extra - shard) ≡ words)

shard_words-Remains :
    (words per_shard extra left shard from : ℕ)
    → Remains words per_shard extra (suc left) shard from
    → Remains words per_shard extra left (shard + 1) (from + shard_words per_shard extra shard)
unfolding Remains
shard_words-Remains words per_shard extra left shard from (fits, total) =
    let step = suc-mul left per_shard in
    elim (Bool-cases (ltb shard extra)) [
      | inl more ↦ (ground arith, ground arith)
      | inr no_more ↦ (ground arith, ground arith)
    ]

write_ranges-IsPartition :
    (rows per_shard extra left shard from : ℕ)
    → rows < 2 ^ 32
    → (0 < rows → 0 < per_shard)
    → Remains (row_words rows) per_shard extra left shard from
    → IsPartition rows
        (at_most rows (from * 64))
        (write_ranges rows per_shard extra left shard from)
unfolding write_ranges Remains
write_ranges-IsPartition rows per_shard extra zero shard from small full (fits, total) =
    ground arith
write_ranges-IsPartition rows per_shard extra (suc left) shard from small full remains =
    let step = suc-mul left per_shard in
    let to = from + shard_words per_shard extra shard in
    let rest =
      write_ranges-IsPartition rows per_shard extra left (shard + 1) to small full
        (shard_words-Remains (row_words rows) per_shard extra left shard from remains) in
    let end : at_most rows (to * 64) % 2 ^ 32 ≡ at_most rows (to * 64) = ground arith in
    (ground arith, omega arith, ground arith, λ some_rows. ground arith, rw end rest)

length-write_ranges :
    (rows per_shard extra left shard from : ℕ)
    → length (write_ranges rows per_shard extra left shard from) ≡ left
unfolding write_ranges
length-write_ranges rows per_shard extra zero shard from = refl
length-write_ranges rows per_shard extra (suc left) shard from = ap suc (
    length-write_ranges rows per_shard extra left (shard + 1)
      (from + shard_words per_shard extra shard))

div-pos : (words count : ℕ) → 0 < count → count ≤ words → 0 < words / count
div-pos words count some_shards le = elim (Bool-cases ((words / count) == 0)) [
  | inl none_each ↦
      let e : words / count ≡ 0 = ground arith in
      let total : count * 0 + words % count ≡ words = rw e at (div-add-mod words count) in
      let less = mod-lt words some_shards in absurd (omega arith)
  | inr some_each ↦ ground arith
]

-- At first all words are left.
div-Remains :
    (words count : ℕ) → 0 < count → Remains words (words / count) (words % count) count 0 0
unfolding Remains
div-Remains words count some_shards =
    let less = mod-lt words some_shards in
    let total = div-add-mod words count in (omega arith, omega arith)

-- For a destination that is not empty, the ranges partition the rows at the borders of words, and
-- there is at least one and are at most as many as the destination holds and as the number of
-- shards, where that is not 0. No range is empty unless there are no rows.
pub partition_rows-IsPartition :
    (capacity rows shards : ℕ)
    → 0 < capacity
    → rows < 2 ^ 32
    → IsPartition rows 0 (partition_rows capacity rows shards)
      × (0 < length (partition_rows capacity rows shards))
      × (length (partition_rows capacity rows shards) ≤ capacity)
      × (length (partition_rows capacity rows shards) ≤ at_least_one shards)
unfolding partition_rows
partition_rows-IsPartition capacity rows shards room small =
    let words = row_words rows in
    let count = shard_count capacity words shards in
    let (positive, fits, asked, per_word) = shard_count-bounds capacity words shards room in
    let size = length-write_ranges rows (words / count) (words % count) count 0 0 in
    let no_room : (capacity == 0) ≡ false = ground arith in
    let from_start : at_most rows (0 * 64) ≡ 0 = ground arith in
    let partition =
      write_ranges-IsPartition rows (words / count) (words % count) count 0 0 small
        (λ some_rows. div-pos words count positive (per_word (omega arith)))
        (div-Remains words count positive) in
    rw (no_room, size) (rw from_start at partition, positive, fits, asked)
