-- ===== src/Result/Outcome/Order.antt =====
-- The choice between outcomes of internal/result/outcome.go as an order: by precedence, then by
-- the lower identifier, with absence below everything.
use verifoxx.Common.{
  ℕ, ◌-◌, ◌≤◌, ◌<◌, ◌≡◌, Bool, true, ◌&&◌, ◌||◌, some, ◌⊎◌, arith, ltb, ◌==◌, if◌then◌else◌, length,
  get_or, get_elem?-eq-get_or, ◌>>=◌,
}
use verifoxx.Result.Outcome.{OutcomeTable, index, prefer_known, prefer}

abbrev pub precedence_of : OutcomeTable → ℕ → ℕ
precedence_of t id = get_or t.precedence (id - 1) 0

-- Outcome `a` is chosen over outcome `b`.
abbrev pub outranks : OutcomeTable → ℕ → ℕ → Bool
outranks t a b =
    ltb (precedence_of t b) (precedence_of t a)
    || (precedence_of t a == precedence_of t b && ltb a b)

abbrev pub best : OutcomeTable → ℕ → ℕ → ℕ
best t a b = if a == 0 then b else if b == 0 then a else if outranks t b a then b else a

-- An identifier of a row of every column.
abbrev pub IsRow : OutcomeTable → ℕ → Type 0
IsRow t id =
    (0 < id) × (id ≤ length t.names) × (id ≤ length t.precedence) × (id ≤ length t.terminal)

pub index-IsRow : (t : OutcomeTable) (id : ℕ) → IsRow t id → index t id ≡ some (id - 1)
index-IsRow t id h = ground arith

pub IsRow-index : (t : OutcomeTable) (id i : ℕ) → index t id ≡ some i → IsRow t id
IsRow-index t id i h = ground arith

abbrev pub IsRowOrZero : OutcomeTable → ℕ → Type 0
IsRowOrZero t id = (id ≡ 0) ⊎ IsRow t id

pub prefer_known_lem :
    (t : OutcomeTable) (a b : ℕ)
    → IsRowOrZero t a
    → IsRowOrZero t b
    → prefer_known t a b ≡ some (best t a b)
unfolding prefer_known
prefer_known_lem t a b ha hb =
    ground (
      arith,
      get_elem?-eq-get_or t.precedence (a - 1) 0,
      get_elem?-eq-get_or t.precedence (b - 1) 0,
    )

pub prefer_lem :
    (t : OutcomeTable) (a b : ℕ)
    → IsRowOrZero t a
    → IsRowOrZero t b
    → prefer t a b ≡ some (best t a b, true)
unfolding prefer
prefer_lem t a b ha hb = ground (arith, prefer_known_lem t a b, index-IsRow t a, index-IsRow t b)

best_assoc : (t : OutcomeTable) (a b c : ℕ) → best t (best t a b) c ≡ best t a (best t b c)
best_assoc t a b c = ground arith

best_comm : (t : OutcomeTable) (a b : ℕ) → best t a b ≡ best t b a
best_comm t a b = ground arith

IsRowOrZero-best :
    (t : OutcomeTable) (a b : ℕ) → IsRowOrZero t a → IsRowOrZero t b → IsRowOrZero t (best t a b)
IsRowOrZero-best t a b ha hb = ground arith

-- Choosing among known or absent outcomes does not depend on how the choices are grouped.
pub prefer_assoc :
    (t : OutcomeTable) (a b c : ℕ)
    → IsRowOrZero t a
    → IsRowOrZero t b
    → IsRowOrZero t c
    → (prefer t a b >>= λ x. prefer t x.0 c) ≡ (prefer t b c >>= λ y. prefer t a y.0)
prefer_assoc t a b c ha hb hc = rw (
  prefer_lem t a b ha hb,
  prefer_lem t b c hb hc,
  prefer_lem t (best t a b) c (IsRowOrZero-best t a b ha hb) hc,
  prefer_lem t a (best t b c) ha (IsRowOrZero-best t b c hb hc),
  best_assoc t a b c,
)

-- The choice between two outcomes does not depend on their order, whatever the identifiers.
pub prefer_comm : (t : OutcomeTable) (a b : ℕ) → prefer t a b ≡ prefer t b a
unfolding prefer
prefer_comm t a b =
    ground (arith, prefer_known_lem t a b, prefer_known_lem t b a, IsRow-index t a, IsRow-index t b)
