-- ===== src/Arena/Laws.antt =====
-- Appending to the arena of internal/arena/bytes.go, beside reading from it.
use verifoxx.Common.{
  ℕ, ◌+◌, ◌≤◌, ◌≡◌, refl, ap, ◌∙◌, false, some, none, List, [], ◌∷◌, ◌++◌, arith, ltb,
  if◌then◌else◌, length, take, drop, length-append, take-append, drop-append, drop-length,
  take-length, length-drop, inl, inr, Bool-cases,
}
use mathlib.Core.List.{append-nil}
use verifoxx.Arena.{ByteArena, Ref, limit, append, bytes}

-- What `append` did: the bytes stand at the end, from the offset on.
pub append-parts :
    (a a' : ByteArena) (r : Ref) (p : List ℕ)
    → append a p ≡ some (a', r)
    → (a'.buf ≡ a.buf ++ p)
      × (r.offset ≡ length a.buf)
      × (r.length ≡ length p)
      × (a'.max_bytes ≡ a.max_bytes)
unfolding append
append-parts a a' r [] h = ground (arith, append-nil a.buf)
append-parts a a' r (x ∷ p) h = ground arith

append-limit :
    (a a' : ByteArena) (r : Ref) (p : List ℕ)
    → length a.buf ≤ limit a
    → append a p ≡ some (a', r)
    → length a'.buf ≤ limit a'
unfolding append
append-limit a a' r p within h = ground (arith, length-append a.buf p)

-- A slice that fits before bytes are appended is the same afterwards.
slice-append :
    (buf p buf' : List ℕ) (offset size : ℕ) (q : List ℕ)
    → buf' ≡ buf ++ p
    → (if ltb (length buf) (offset + size) then none else some (take size (drop offset buf)))
      ≡ some q
    → (if ltb (length buf') (offset + size) then none else some (take size (drop offset buf')))
      ≡ some q
slice-append buf p buf' offset size q grown h =
    elim (Bool-cases (ltb (length buf) (offset + size))) [
      | inl short ↦ cc (rw short at h)
      | inr fits ↦
          let still : ltb (length buf') (offset + size) ≡ false =
            rw grown (ground (arith, length-append buf p)) in
          let inside : size ≤ length (drop offset buf) = ground (arith, length-drop offset buf) in
          rw still (
            ap some (
              rw grown (
                ap (take size) (drop-append offset buf p (ground arith))
                ∙ take-append size (drop offset buf) p inside))
            ∙ rw fits at h)
    ]

-- Appending gives a reference that reads back the bytes, keeps what every other reference reads,
-- and stays within the limit.
pub append-bytes :
    (a a' : ByteArena) (r : Ref) (p : List ℕ)
    → length a.buf ≤ limit a
    → append a p ≡ some (a', r)
    → (bytes a' r ≡ some p)
      × ((earlier : Ref) (q : List ℕ) → bytes a earlier ≡ some q → bytes a' earlier ≡ some q)
      × (length a'.buf ≤ limit a')
unfolding bytes
append-bytes a a' r p within h =
    let (grown, at_end, size, same) = append-parts a a' r p h in
    (
      read_back grown at_end size,
      (λ earlier q. read_earlier grown earlier q),
      append-limit a a' r p within h,
    )
  where
    read_back :
        a'.buf ≡ a.buf ++ p
        → r.offset ≡ length a.buf
        → r.length ≡ length p
        → (if ltb (length a'.buf) (r.offset + r.length)
            then none
            else some (take r.length (drop r.offset a'.buf)))
          ≡ some p
    read_back grown at_end size =
        let fits : ltb (length a'.buf) (r.offset + r.length) ≡ false =
          rw (grown, at_end, size) (ground (arith, length-append a.buf p)) in
        rw fits (
          ap some (
            rw (grown, at_end, size)
              (ap (take (length p)) (drop-append (length a.buf) a.buf p (omega arith))
                ∙ rw (drop-length (length a.buf) a.buf refl) (take-length p))))

    read_earlier :
        a'.buf ≡ a.buf ++ p
        → (earlier : Ref) (q : List ℕ)
        → (if ltb (length a.buf) (earlier.offset + earlier.length)
            then none
            else some (take earlier.length (drop earlier.offset a.buf)))
          ≡ some q
        → (if ltb (length a'.buf) (earlier.offset + earlier.length)
            then none
            else some (take earlier.length (drop earlier.offset a'.buf)))
          ≡ some q
    read_earlier grown earlier q = slice-append a.buf p a'.buf earlier.offset earlier.length q grown
