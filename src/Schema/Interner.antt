-- ===== src/Schema/Interner.antt =====
-- internal/schema/symbols.go: the symbols, in a table with open addressing over an arena.
-- A `nil` arena is an empty one. Bytes are read as empty where the arena gives `nil`. The loops of the
-- source are recursion on fuel: a probe visits each slot at most once, and the table grows at most
-- once while a symbol is added. `none` is fuel that is used up.

pub mod Probe
pub mod Indexed
pub mod Move
pub mod Invariant
pub mod Grow
pub mod Lookup
pub mod Correct
pub mod Intern
pub mod Empty
use Prim.Native.Nat.{bit_xor}
use verifoxx.Common.{
  ℕ, zero, suc, ◌+◌, ◌-◌, ◌*◌, ◌/◌, ◌%◌, ◌^◌, bit_and, Bool, true, false, not, ◌&&◌, ◌||◌, Option,
  none, some, List, [], ◌∷◌, ◌++◌, ltb, leb, ◌==◌, if◌then◌else◌, length, get_or, set, replicate,
  ◌>>=◌, for_rows,
}
use verifoxx.Arena.{ByteArena, Ref, new_arena, append, bytes, reset}
use verifoxx.Program.Symbols.{bytes_equal}

abbrev pub fnv_offset : ℕ
fnv_offset = 14695981039346656037

abbrev pub fnv_prime : ℕ
fnv_prime = 1099511628211

-- The loop of `HashSymbol`, on 64 bits.
unfoldable pub hash_from : ℕ → List ℕ → ℕ
hash_from h [] = h
hash_from h (c ∷ cs) = hash_from (bit_xor h c * fnv_prime % 2 ^ 64) cs

-- `HashSymbol`
abbrev pub hash_symbol : List ℕ → ℕ
hash_symbol b = hash_from fnv_offset b

-- `bits.Len`
unfoldable pub bit_length : ℕ → ℕ → ℕ
bit_length zero n = 0
bit_length (suc fuel) n = let rest = bit_length fuel (n / 2) in if n == 0 then 0 else suc rest

-- `nextPow2`
abbrev pub next_pow2 : ℕ → ℕ
next_pow2 n = if leb n 1 then 1 else 2 ^ bit_length 64 (n - 1)

pub record Interner : Type 0 where
  pub arena : ByteArena
  pub ids : List ℕ
  pub refs : List Ref
  pub starts : List ℕ
  pub lengths : List ℕ
  pub count : ℕ
  pub next_id : ℕ

abbrev pub no_ref : Ref
no_ref = record { offset = 0; length = 0 }

-- `NewSymbolInterner`; the hint is not negative.
abbrev pub new_symbol_interner : ℕ → Interner
new_symbol_interner hint =
    let wanted = next_pow2 (2 * hint) in
    let size = if ltb wanted 4 then 4 else wanted in
    record {
      arena = new_arena;
      ids = replicate size 0;
      refs = replicate size no_ref;
      starts = [];
      lengths = [];
      count = 0;
      next_id = 1;
    }

-- `initTable`
abbrev pub init_table : Interner → ℕ → Interner
init_table t size = record t { ids = replicate size 0; refs = replicate size no_ref; next_id = 1 }

-- `in.arena.Bytes`, where `nil` is as good as empty.
abbrev pub read : ByteArena → Ref → List ℕ
read a r = elim (bytes a r) [ none ↦ [] | some p ↦ p ]

-- `hash & mask` and `(slot + 1) & mask`, for a table of this size.
abbrev pub first_slot : ℕ → List ℕ → ℕ
first_slot size b = bit_and (size - 1) (hash_symbol b)

abbrev pub next_slot : ℕ → ℕ → ℕ
next_slot size slot = bit_and (size - 1) (slot + 1)

-- Where a probe ends: at a symbol, or at an empty slot.
pub data Place : Type 0 where
  found vacant : ℕ → Place

-- The inner loop of `Intern` and `Lookup`, from a slot on.
unfoldable pub probe : Interner → List ℕ → ℕ → ℕ → Option Place
probe t b zero slot = none
probe t b (suc fuel) slot =
    let rest = probe t b fuel (next_slot (length t.ids) slot) in
    let id = get_or t.ids slot 0 in
    if id == 0
    then some (vacant slot)
    else if bytes_equal (read t.arena (get_or t.refs slot no_ref)) b
    then some (found id)
    else rest

abbrev pub probe_all : Interner → List ℕ → Option Place
probe_all t b = probe t b (length t.ids) (first_slot (length t.ids) b)

-- The loop of `grow` that looks for an empty slot.
unfoldable pub probe_vacant : List ℕ → ℕ → ℕ → Option ℕ
probe_vacant ids zero slot = none
probe_vacant ids (suc fuel) slot =
    let rest = probe_vacant ids fuel (next_slot (length ids) slot) in
    if get_or ids slot 0 == 0 then some slot else rest

-- The body of the loop of `grow`, which moves a slot of the old table.
unfoldable pub move_slot : Interner → ℕ → Interner → Option Interner
unfolding probe_vacant
move_slot old i t =
    let id = get_or old.ids i 0 in
    let ref = get_or old.refs i no_ref in
    if id == 0
    then some t
    else probe_vacant t.ids (length t.ids) (first_slot (length t.ids) (read old.arena ref))
      >>= λ slot. some (record t { ids = set t.ids slot id; refs = set t.refs slot ref })

-- `grow`
unfoldable pub grow : Interner → Option Interner
unfolding move_slot
grow t =
    let size = length t.ids * 2 in
    for_rows (move_slot t) (length t.ids) 0
      (record t { ids = replicate size 0; refs = replicate size no_ref })

-- A new symbol in an empty slot; without an identifier for `ErrTooLarge`.
unfoldable pub add_symbol : Interner → ℕ → List ℕ → Interner × Option ℕ
add_symbol t slot b = elim (append t.arena b) [
  | none ↦ (t, none)
  | some (arena, ref) ↦ (
    record {
      arena = arena;
      ids = set t.ids slot t.next_id;
      refs = set t.refs slot ref;
      starts = t.starts ++ ref.offset ∷ [];
      lengths = t.lengths ++ ref.length ∷ [];
      count = t.count + 1;
      next_id = t.next_id + 1;
    },
    some t.next_id,
  )
]

-- The outer loop of `Intern`.
unfoldable pub intern_loop : ℕ → Interner → List ℕ → Option (Interner × Option ℕ)
unfolding probe grow add_symbol
intern_loop zero t b = none
intern_loop (suc fuel) t b = probe_all t b >>= λ place. elim place [
  | found id ↦ some (t, some id)
  | vacant slot ↦
      if ltb (t.count * 2) (length t.ids)
      then some (add_symbol t slot b)
      else grow t >>= λ grown. intern_loop fuel grown b
]

-- `Intern`
unfoldable pub intern : Interner → List ℕ → Option (Interner × Option ℕ)
intern t b = intern_loop 2 (if length t.ids == 0 then init_table t 4 else t) b

-- `Lookup`; no identifier for a symbol that is not there.
unfoldable pub find_symbol : Interner → List ℕ → Option (Option ℕ)
unfolding probe
find_symbol t b =
    if length t.ids == 0
    then some none
    else probe_all t b >>= λ place. elim place [
      | found id ↦ some (some id)
      | vacant slot ↦ some none
    ]

-- `Bytes`
unfoldable pub bytes_of : Interner → ℕ → Option (List ℕ)
bytes_of t id =
    if id == 0 || ltb (length t.starts) id
    then none
    else bytes t.arena
        (record { offset = get_or t.starts (id - 1) 0; length = get_or t.lengths (id - 1) 0 })

-- `Reset`
abbrev pub reset_symbols : Interner → Interner
reset_symbols t = record t {
  arena = reset t.arena;
  ids = replicate (length t.ids) 0;
  starts = [];
  lengths = [];
  count = 0;
  next_id = 1;
}
