-- ===== src/Scheduler.antt =====
-- internal/scheduler/shard.go: the ranges of rows that the scheduler gives to its workers.
-- `rows` is a `uint32`, so that the sums and products below do not leave 64 bits; the conversions to
-- `uint32` are written out. The number of shards is an `int`; one below 1 counts as 1 in the source,
-- so that 0 stands for all of them. The destination is given by its length, as the source writes
-- every range that it returns.
pub mod Ranges
use verifoxx.Common.{
  ℕ, zero, suc, ◌+◌, ◌-◌, ◌*◌, ◌/◌, ◌%◌, ◌^◌, List, [], ◌∷◌, ltb, ◌==◌, if◌then◌else◌,
}

pub record RowRange : Type 0 where
  pub start : ℕ
  pub end : ℕ

abbrev pub row_words : ℕ → ℕ
row_words rows = (rows + 63) / 64

abbrev pub at_least_one : ℕ → ℕ
at_least_one shards = if ltb shards 1 then 1 else shards

abbrev pub at_most : ℕ → ℕ → ℕ
at_most bound count = if ltb bound count then bound else count

-- The number of ranges, for a destination of `capacity` ranges that is not empty.
unfoldable pub shard_count : ℕ → ℕ → ℕ → ℕ
shard_count capacity words shards =
    let count = at_most capacity (at_least_one shards) in
    if words == 0 then 1 else at_most words count

-- The words of a shard.
abbrev pub shard_words : ℕ → ℕ → ℕ → ℕ
shard_words per_shard extra shard = if ltb shard extra then per_shard + 1 else per_shard

-- The range from one word to another.
abbrev pub row_range : ℕ → ℕ → ℕ → RowRange
row_range rows from to = record {
  start = (from * 64) % 2 ^ 32;
  end = at_most rows (to * 64) % 2 ^ 32;
}

-- The loop, with the number of ranges left to write, the shard and its first word.
unfoldable pub write_ranges : ℕ → ℕ → ℕ → ℕ → ℕ → ℕ → List RowRange
write_ranges rows per_shard extra zero shard from = []
write_ranges rows per_shard extra (suc left) shard from =
    let to = from + shard_words per_shard extra shard in
    row_range rows from to ∷ write_ranges rows per_shard extra left (shard + 1) to

unfoldable pub partition_rows : ℕ → ℕ → ℕ → List RowRange
partition_rows capacity rows shards =
    if capacity == 0
    then []
    else let words = row_words rows in
      let count = shard_count capacity words shards in
      write_ranges rows (words / count) (words % count) count 0 0
