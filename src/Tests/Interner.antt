-- ===== src/Tests/Interner.antt =====
-- A new interner, for internal/schema/symbols.go.
use verifoxx.Common.{ℕ, ◌≡◌, refl, Option, some, List, [], ◌∷◌, ◌>>=◌}
use verifoxx.Arena.{append, bytes}
use verifoxx.Program.Symbols.{bytes_equal}
use verifoxx.Schema.Interner.{
  Interner, bit_length, hash_from, intern_loop, intern, new_symbol_interner,
}
use verifoxx.Schema.Interner.Lookup.{Interned}
use verifoxx.Schema.Interner.Intern.{intern-Interned}
use verifoxx.Schema.Interner.Empty.{new_symbol_interner-IsInterner}

abbrev word : List ℕ
word = b'o' ∷ b'k' ∷ []

intern-Interned_example :
    (after : Interner) × (result : Option ℕ) × (intern (new_symbol_interner 2) word
      ≡ some (after, result))
    × Interned (new_symbol_interner 2) word after result
intern-Interned_example =
    intern-Interned (new_symbol_interner 2) word (new_symbol_interner-IsInterner 2)

-- The identifiers of two symbols, the first of which comes twice.
abbrev three_ids : Option (Option ℕ × Option ℕ × Option ℕ)
three_ids = do
  a ← intern (new_symbol_interner 2) word
  b ← intern a.0 (b'x' ∷ [])
  c ← intern b.0 word
  some (a.1, b.1, c.1)

three_ids-known : three_ids ≡ some (some 1, some 2, some 1)
unfolding intern intern_loop hash_from append bytes bytes_equal bit_length
three_ids-known = refl
