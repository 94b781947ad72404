-- ===== src/Tests/Arena.antt =====
-- An arena for six bytes.
use verifoxx.Common.{ℕ, ◌≤◌, ◌≡◌, refl, some, List, [], ◌∷◌, arith, length}
use verifoxx.Arena.{ByteArena, Ref, limit, append, bytes}
use verifoxx.Arena.Laws.{append-bytes}

abbrev small : ByteArena
small = record { buf = 1 ∷ 2 ∷ 3 ∷ []; max_bytes = 6 }

abbrev larger : ByteArena
larger = record small { buf = 1 ∷ 2 ∷ 3 ∷ 7 ∷ 8 ∷ [] }

abbrev added : Ref
added = record { offset = 3; length = 2 }

append-small : append small (7 ∷ 8 ∷ []) ≡ some (larger, added)
unfolding append
append-small = refl

append-bytes_example :
    (bytes larger added ≡ some (7 ∷ 8 ∷ []))
    × ((earlier : Ref) (q : List ℕ) → bytes small earlier ≡ some q → bytes larger earlier ≡ some q)
    × (length larger.buf ≤ limit larger)
append-bytes_example = append-bytes small larger added (7 ∷ 8 ∷ []) (omega arith) append-small
