-- ===== src/Arena.antt =====
-- internal/arena/bytes.go: bytes one behind the other, under a limit.
-- Lengths are `int`s and references pairs of `uint32`s; the source adds them in 64 bits, so that no
-- sum wraps. Capacity is not visible, so that `New` and `Grow` change nothing here.
pub mod Laws
use verifoxx.Common.{
  ℕ, ◌+◌, ◌-◌, ◌^◌, Option, none, some, List, [], ◌++◌, ltb, ◌==◌, if◌then◌else◌, length, take,
  drop,
}
use verifoxx.Words.{max_uint32}

pub record Ref : Type 0 where
  pub offset : ℕ
  pub length : ℕ

pub record ByteArena : Type 0 where
  pub buf : List ℕ
  pub max_bytes : ℕ

-- `New`
abbrev pub new_arena : ByteArena
new_arena = record { buf = []; max_bytes = max_uint32 }

abbrev pub limit : ByteArena → ℕ
limit a = if a.max_bytes == 0 then max_uint32 else a.max_bytes

-- `Append`; `none` is `ErrTooLarge`, which leaves the arena as it is.
unfoldable pub append : ByteArena → List ℕ → Option (ByteArena × Ref)
append a p =
    let off = length a.buf in
    if length p == 0
    then some (a, record { offset = off; length = 0 })
    else if ltb (limit a) (length a.buf + length p)
    then none
    else some (record a { buf = a.buf ++ p }, record { offset = off; length = length p })

-- `Bytes`; `none` is `nil`.
unfoldable pub bytes : ByteArena → Ref → Option (List ℕ)
bytes a r =
    if ltb (length a.buf) (r.offset + r.length)
    then none
    else some (take r.length (drop r.offset a.buf))

-- `Reset`
abbrev pub reset : ByteArena → ByteArena
reset a = record a { buf = [] }
