-- ===== src/Tests/Scheduler.antt =====
-- Two hundred rows for two workers and a destination of three ranges.
use verifoxx.Common.{◌≤◌, ◌<◌, ◌≡◌, refl, [], ◌∷◌, arith, length}
use verifoxx.Scheduler.{at_least_one, partition_rows, shard_count, write_ranges}
use verifoxx.Scheduler.Ranges.{IsPartition, partition_rows-IsPartition}

partition_rows-two_hundred :
    partition_rows 3 200 2
    ≡ record { start = 0; end = 128 } ∷ record { start = 128; end = 200 } ∷ []
unfolding partition_rows shard_count write_ranges
partition_rows-two_hundred = refl

partition_rows-no_rows : partition_rows 3 0 2 ≡ record { start = 0; end = 0 } ∷ []
unfolding partition_rows shard_count write_ranges
partition_rows-no_rows = refl

partition_rows-IsPartition_example :
    IsPartition 200 0 (partition_rows 3 200 2)
    × (0 < length (partition_rows 3 200 2))
    × (length (partition_rows 3 200 2) ≤ 3)
    × (length (partition_rows 3 200 2) ≤ at_least_one 2)
partition_rows-IsPartition_example = partition_rows-IsPartition 3 200 2 (omega arith) (omega arith)
