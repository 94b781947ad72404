-- ===== src/Program/Symbols.antt =====
-- internal/program/program.go: the frozen symbol slab; internal/index/schema.go: the field lookup.
use verifoxx.Common.{
  ℕ, ◌+◌, ◌-◌, Bool, true, false, ◌&&◌, ◌||◌, Option, none, some, List, [], ◌∷◌, ltb, leb, ◌==◌,
  if◌then◌else◌, length, get_or, take, drop,
}
use verifoxx.Program.{Program, FieldIndex, ValueKind}

-- `Symbol`; `none` is `ok = false`.
unfoldable pub symbol : Program → ℕ → Option (List ℕ)
symbol p id =
    let i = id - 1 in
    let start = get_or p.symbol_starts i 0 in
    let size = get_or p.symbol_lengths i 0 in
    if id == 0
    then none
    else if leb (length p.symbol_starts) i || leb (length p.symbol_lengths) i
    then none
    else if ltb (length p.symbol_bytes) (start + size)
    then none
    else some (take size (drop start p.symbol_bytes))

-- `Schema.Lookup`: the kind and the column of a field.
unfoldable pub lookup_field : FieldIndex → ℕ → Option (ValueKind × ℕ)
lookup_field s field =
    let row = field - 1 in
    if field == 0
    then none
    else if leb (length s.kinds) row || leb (length s.columns) row
    then none
    else some (get_or s.kinds row ValueKind.invalid, get_or s.columns row 0)

-- `bytes.Equal`
unfoldable pub bytes_equal : List ℕ → List ℕ → Bool
bytes_equal [] [] = true
bytes_equal (a ∷ as') (b ∷ bs) = a == b && bytes_equal as' bs
bytes_equal _ _ = false
