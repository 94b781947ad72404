-- ===== src/Result/Outcome.antt =====
-- internal/result/outcome.go: the outcome table and the choice between two outcomes.
-- `none` is an index out of range, which panics. An `int` is wide enough for every identifier, so
-- the guard `i < 0` never fires and is left out.
pub mod Order
use verifoxx.Common.{
  ℕ, ◌+◌, ◌-◌, Bool, true, false, not, ◌&&◌, ◌||◌, Option, none, some, List, [], ◌∷◌, ltb, leb,
  ◌==◌, if◌then◌else◌, length, get_elem?, ◌>>=◌,
}

pub record OutcomeTable : Type 0 where
  pub names : List ℕ
  pub precedence : List ℕ
  pub terminal : List Bool

pub record Outcome : Type 0 where
  pub name : ℕ
  pub precedence : ℕ
  pub terminal : Bool

-- `index`: the zero-based offset and `ok`, or `none` for `ok = false`.
abbrev pub index : OutcomeTable → ℕ → Option ℕ
index t id =
    if id == 0
    then none
    else if leb (length t.names) (id - 1)
        || leb (length t.precedence) (id - 1)
        || leb (length t.terminal) (id - 1)
    then none
    else some (id - 1)

-- `Lookup`; inside, `none` is `ok = false`.
pub lookup : OutcomeTable → ℕ → Option (Option Outcome)
lookup t id = elim (index t id) [
  | none ↦ some none
  | some idx ↦ do
    name ← get_elem? t.names idx
    precedence ← get_elem? t.precedence idx
    terminal ← get_elem? t.terminal idx
    some (some (record { name = name; precedence = precedence; terminal = terminal }))
]

-- `preferKnown`
pub prefer_known : OutcomeTable → ℕ → ℕ → Option ℕ
prefer_known t current candidate =
    if current == 0 then some candidate else if candidate == 0 then some current else (do
      cur ← get_elem? t.precedence (current - 1)
      cand ← get_elem? t.precedence (candidate - 1)
      some (if ltb cur cand || (cand == cur && ltb candidate current) then candidate else current))

-- `Prefer` and its `ok`.
pub prefer : OutcomeTable → ℕ → ℕ → Option (ℕ × Bool)
prefer t current candidate =
    if current == 0
    then (if candidate == 0
        then some (0, true)
        else elim (index t candidate) [ none ↦ some (0, false) | some _ ↦ some (candidate, true) ])
    else elim (index t current) [
      | none ↦ some (0, false)
      | some _ ↦ if candidate == 0 then some (current, true) else elim (index t candidate) [
        | none ↦ some (0, false)
        | some _ ↦ do winner ← prefer_known t current candidate; some (winner, true)
      ]
    ]

unfoldable pub all_nonzero : List ℕ → Bool
all_nonzero [] = true
all_nonzero (name ∷ names) = not (name == 0) && all_nonzero names

-- `valid`
unfoldable pub valid : OutcomeTable → Bool
unfolding all_nonzero
valid t =
    let n = length t.names in
    not (n == 0 || not (length t.precedence == n) || not (length t.terminal == n))
    && all_nonzero t.names
