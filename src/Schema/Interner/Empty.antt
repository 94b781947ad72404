-- ===== src/Schema/Interner/Empty.antt =====
-- `NewSymbolInterner` and `Reset` of internal/schema/symbols.go: interners without symbols.
use native.Mathlib.Nat.{pow-suc}
use verifoxx.Common.{
  ℕ, zero, suc, ◌-◌, ◌*◌, ◌%◌, ◌^◌, ◌≤◌, ◌≡◌, refl, sym, ◌∙◌, inl, inr, Bool-cases, List, [], arith,
  ltb, leb, if◌then◌else◌, length, replicate, length-replicate, get_or-zeros,
}
use verifoxx.Arena.{ByteArena, Ref, limit, new_arena, reset}
use verifoxx.Schema.Interner.{
  Interner, no_ref, bit_length, next_pow2, new_symbol_interner, reset_symbols,
}
use verifoxx.Schema.Interner.Probe.{used-replicate}
use verifoxx.Schema.Interner.Invariant.{IsInterner}

-- A table without symbols.
empty-IsInterner :
    (arena : ByteArena) (refs : List Ref) (size bits : ℕ)
    → size ≡ 2 ^ bits
    → size % 2 ≡ 0
    → length refs ≡ size
    → length arena.buf ≤ limit arena
    → IsInterner (record {
      arena = arena;
      ids = replicate size 0;
      refs = refs;
      starts = [];
      lengths = [];
      count = 0;
      next_id = 1;
    })
empty-IsInterner arena refs size bits power even refs_sized within =
    let sized = length-replicate {A = ℕ} size 0 in
    record {
      bits = bits;
      sized = sized ∙ power;
      even = omega (arith, sized, even);
      has = record {
        refs_sized = refs_sized ∙ sym sized;
        entries = λ slot inside taken. absurd (ground (arith, get_or-zeros {A = ℕ} size slot 0));
      };
      indexed = record {
        reached = λ slot inside taken. absurd (ground (arith, get_or-zeros {A = ℕ} size slot 0));
        placed = λ id positive le. absurd (omega arith);
      };
      counted = used-replicate size;
      half = omega arith;
      next = refl;
      starts_sized = refl;
      lengths_sized = refl;
      within = within;
      readable = λ id positive le. absurd (omega arith);
    }

-- The size of a table is a power of two.
table_size : (hint : ℕ) → ℕ
table_size hint = if ltb (next_pow2 (2 * hint)) 4 then 4 else next_pow2 (2 * hint)

power-even : (m : ℕ) → 4 ≤ 2 ^ m → 2 ^ m % 2 ≡ 0
power-even zero large = absurd (omega arith)
power-even (suc m) large = omega (arith, pow-suc 2 m)

table_size-power :
    (hint : ℕ) → (bits : ℕ) × (table_size hint ≡ 2 ^ bits) × (table_size hint % 2 ≡ 0)
unfolding table_size
table_size-power hint = elim (Bool-cases (ltb (next_pow2 (2 * hint)) 4)) [
  | inl small ↦ (2, rw small (omega arith), rw small (omega arith))
  | inr large ↦
      let m = bit_length 64 (2 * hint - 1) in
      elim (Bool-cases (leb (2 * hint) 1)) [
        | inl one ↦ absurd (ground arith)
        | inr more ↦
            let size : table_size hint ≡ 2 ^ m = rw (large, more) in
            (m, size, rw size (power-even m (ground arith)))
      ]
]

pub new_symbol_interner-IsInterner : (hint : ℕ) → IsInterner (new_symbol_interner hint)
unfolding table_size
new_symbol_interner-IsInterner hint =
    let (bits, power, even) = table_size-power hint in
    empty-IsInterner new_arena (replicate (table_size hint) no_ref) (table_size hint) bits power
      even (length-replicate {A = Ref} (table_size hint) no_ref) (omega arith)

pub reset_symbols-IsInterner : (t : Interner) → IsInterner t → IsInterner (reset_symbols t)
reset_symbols-IsInterner t is =
    empty-IsInterner (reset t.arena) t.refs (length t.ids) is.bits is.sized is.even
      is.has.refs_sized (omega arith)
