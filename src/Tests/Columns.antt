-- ===== src/Tests/Columns.antt =====
-- The columns of the small batch, for internal/eval/batch.go.
use verifoxx.Common.{◌≡◌, refl, true, some, [], ◌∷◌, arith}
use verifoxx.Truth.Planes.Rows.{row_bit}
use verifoxx.Eval.Batch.{
  Batch, valid_physical_range, present, row_column, batch_boolean, batch_symbol, batch_integer,
  batch_timestamp,
}
use verifoxx.Common.Int.{pos}
use verifoxx.Eval.Batch.Columns.{
  word_column-present, word_column-batch_boolean, row_column-batch_values,
}
use verifoxx.Tests.Policy.{batch}

word_column-present_example : row_bit (2 ∷ []) 1 ≡ present batch 1 1
unfolding valid_physical_range
word_column-present_example =
    word_column-present batch 1 1 (2 ∷ []) refl (omega arith) (omega arith) refl

abbrev flags : Batch
flags = record batch { boolean_values = 1 ∷ [] }

word_column-batch_boolean_example : row_bit (1 ∷ []) 1 ≡ batch_boolean flags 0 1
unfolding valid_physical_range
word_column-batch_boolean_example =
    word_column-batch_boolean flags 0 1 (1 ∷ []) refl (omega arith) refl

abbrev numbers : Batch
numbers = record batch {
  integer_values = pos 4 ∷ pos 5 ∷ [];
  timestamp_values = pos 6 ∷ pos 7 ∷ [];
}

row_column-batch_values_example :
    (row_column numbers numbers.symbol_values 0 ≡ some (0 ∷ 3 ∷ [])
      → batch_symbol numbers 0 1 ≡ (3, true))
    × (row_column numbers numbers.integer_values 0 ≡ some (pos 4 ∷ pos 5 ∷ [])
        → batch_integer numbers 0 1 ≡ (pos 5, true))
    × (row_column numbers numbers.timestamp_values 0 ≡ some (pos 6 ∷ pos 7 ∷ [])
        → batch_timestamp numbers 0 1 ≡ (pos 7, true))
unfolding valid_physical_range
row_column-batch_values_example =
    row_column-batch_values numbers 0 1 (0 ∷ 3 ∷ []) (pos 4 ∷ pos 5 ∷ []) (pos 6 ∷ pos 7 ∷ []) refl
      (omega arith)
