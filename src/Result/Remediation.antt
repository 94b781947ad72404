-- ===== src/Result/Remediation.antt =====
-- internal/result/remediation.go: the remediation table.
use verifoxx.Common.{
  ℕ, zero, suc, ◌+◌, ◌-◌, ◌≤◌, ◌<◌, ◌≡◌, Bool, true, false, not, ◌&&◌, ◌||◌, Option, none, some,
  List, arith, leb, ◌==◌, if◌then◌else◌, length, get_elem?, get_or, ◌>>=◌, Bool-cases, inl, inr,
  get_elem?-eq-get_or,
}

-- The kinds are bytes: 0 is invalid, and any other value is undefined.
abbrev pub set_field : ℕ
set_field = 1

abbrev pub add_evidence : ℕ
add_evidence = 2

-- `RemediationKind.Valid`
unfoldable pub kind_valid : ℕ → Bool
kind_valid k = k == set_field || k == add_evidence

pub record RemediationTable : Type 0 where
  pub kinds : List ℕ
  pub fields : List ℕ
  pub values : List ℕ
  pub evidence_kinds : List ℕ

pub record Remediation : Type 0 where
  pub kind : ℕ
  pub field : ℕ
  pub value : ℕ
  pub evidence_kind : ℕ

abbrev pub index : RemediationTable → ℕ → Option ℕ
index t id =
    if id == 0
    then none
    else if leb (length t.kinds) (id - 1)
        || leb (length t.fields) (id - 1)
        || leb (length t.values) (id - 1)
        || leb (length t.evidence_kinds) (id - 1)
    then none
    else some (id - 1)

-- `Lookup`; the outer `none` is a panic, the inner one `ok = false`.
pub lookup : RemediationTable → ℕ → Option (Option Remediation)
lookup t id = elim (index t id) [
  | none ↦ some none
  | some idx ↦ do
    kind ← get_elem? t.kinds idx
    field ← get_elem? t.fields idx
    value ← get_elem? t.values idx
    evidence_kind ← get_elem? t.evidence_kinds idx
    some
        (some (record { kind = kind; field = field; value = value; evidence_kind = evidence_kind }))
]

-- The body of the loop of `valid`, at row `i`.
unfoldable pub valid_row : RemediationTable → ℕ → Bool
valid_row t i =
    let kind = get_or t.kinds i 0 in
    let no_field = get_or t.fields i 0 == 0 in
    let no_value = get_or t.values i 0 == 0 in
    let no_evidence = get_or t.evidence_kinds i 0 == 0 in
    if kind == set_field
    then not (no_field || no_value || not no_evidence)
    else if kind == add_evidence
    then not (not no_field || not no_value || no_evidence)
    else false

-- The rows from `i` on, `left` of them.
unfoldable pub valid_rows : RemediationTable → ℕ → ℕ → Bool
unfolding valid_row
valid_rows t zero i = true
valid_rows t (suc left) i = valid_row t i && valid_rows t left (i + 1)

unfoldable pub valid : RemediationTable → Bool
unfolding valid_rows
valid t =
    let n = length t.kinds in
    if not (length t.fields == n)
      || not (length t.values == n)
      || not (length t.evidence_kinds == n)
    then false
    else valid_rows t n 0

-- What a row of a valid table holds: exactly the payload of its kind.
pub data IsRemediation (r : Remediation) : Type 0 where
  sets_field :
      r.kind ≡ set_field → 0 < r.field → 0 < r.value → r.evidence_kind ≡ 0 → IsRemediation r
  adds_evidence :
      r.kind ≡ add_evidence → r.field ≡ 0 → r.value ≡ 0 → 0 < r.evidence_kind → IsRemediation r

abbrev row : RemediationTable → ℕ → Remediation
row t i = record {
  kind = get_or t.kinds i 0;
  field = get_or t.fields i 0;
  value = get_or t.values i 0;
  evidence_kind = get_or t.evidence_kinds i 0;
}

valid_row-IsRemediation :
    (t : RemediationTable) (i : ℕ) → valid_row t i ≡ true → IsRemediation (row t i)
unfolding valid_row
valid_row-IsRemediation t i h = elim (Bool-cases (get_or t.kinds i 0 == set_field)) [
  | inl sets ↦ sets_field (ground arith) (ground arith) (ground arith) (ground arith)
  | inr other ↦ adds_evidence (ground arith) (ground arith) (ground arith) (ground arith)
]

valid_rows-IsRemediation :
    (t : RemediationTable) (left i j : ℕ)
    → valid_rows t left i ≡ true
    → i ≤ j
    → j < i + left
    → IsRemediation (row t j)
unfolding valid_rows
valid_rows-IsRemediation t zero i j h lo hi = absurd (omega arith)
valid_rows-IsRemediation t (suc left) i j h lo hi = elim (Bool-cases (i == j)) [
  | inl here ↦
      let e : i ≡ j = ground arith in
      rw e at (valid_row-IsRemediation t i (unfold valid_row in ground arith))
  | inr later ↦
      valid_rows-IsRemediation t left (i + 1) j (unfold valid_row in ground arith) (ground arith)
        (omega arith)
]

valid-rows :
    (t : RemediationTable)
    → valid t ≡ true
    → (length t.fields ≡ length t.kinds)
      × (length t.values ≡ length t.kinds)
      × (length t.evidence_kinds ≡ length t.kinds)
      × (valid_rows t (length t.kinds) 0 ≡ true)
unfolding valid
valid-rows t h = (ground arith, ground arith, ground arith, ground arith)

lookup-row :
    (t : RemediationTable) (i : ℕ)
    → i < length t.kinds
    → i < length t.fields
    → i < length t.values
    → i < length t.evidence_kinds
    → lookup t (suc i) ≡ some (some (row t i))
unfolding lookup
lookup-row t i hk hf hv he = ground (
  arith,
  get_elem?-eq-get_or t.kinds i 0 hk,
  get_elem?-eq-get_or t.fields i 0 hf,
  get_elem?-eq-get_or t.values i 0 hv,
  get_elem?-eq-get_or t.evidence_kinds i 0 he,
)

-- A lookup in a valid table finds a row for each identifier from 1 to the table's length, and the
-- row carries the payload of its kind and no other.
pub lookup-IsRemediation :
    (t : RemediationTable) (id : ℕ)
    → valid t ≡ true
    → 0 < id
    → id ≤ length t.kinds
    → (r : Remediation) × (lookup t id ≡ some (some r)) × IsRemediation r
lookup-IsRemediation t (suc i) h pos fits =
    let (f, v, e, rows) = valid-rows t h in
    (
      row t i,
      lookup-row t i (omega arith) (omega arith) (omega arith) (omega arith),
      valid_rows-IsRemediation t (length t.kinds) 0 i rows (omega arith) (omega arith),
    )
lookup-IsRemediation t zero h pos fits = elim pos [ ]
