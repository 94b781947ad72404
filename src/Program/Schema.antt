-- ===== src/Program/Schema.antt =====
-- internal/index/schema.go: `BuildSchema`.
-- The two arrays of six counters are functions of the kind. A `nil` destination and more than 2^32
-- fields are left out.
use verifoxx.Common.{
  ℕ, ◌+◌, ◌≡◌, true, not, Option, none, some, List, [], ◌∷◌, arith, if◌then◌else◌, get_or,
}
use verifoxx.Program.{FieldIndex, ValueKind, kind_valid, same_kind}

abbrev pub Counters : Type 0
Counters = ValueKind → ℕ

-- `counts[kind]++`
abbrev pub increment : Counters → ValueKind → Counters
increment c kind = λ k. if same_kind k kind then c k + 1 else c k

-- The first loop; `none` is `ErrInvalidSchema`.
unfoldable pub count_kinds : List ValueKind → Counters → Option Counters
count_kinds [] c = some c
count_kinds (kind ∷ kinds) c =
    if not (kind_valid kind) then none else count_kinds kinds (increment c kind)

-- The second loop.
unfoldable pub assign_columns : List ValueKind → Counters → List ℕ
assign_columns [] next = []
assign_columns (kind ∷ kinds) next = next kind ∷ assign_columns kinds (increment next kind)

-- `BuildSchema`
unfoldable pub build_schema : List ValueKind → Option FieldIndex
unfolding count_kinds assign_columns
build_schema kinds = elim (count_kinds kinds (λ _. 0)) [
  | none ↦ none
  | some counts ↦
      some (record { kinds = kinds; columns = assign_columns kinds (λ _. 0); counts = counts })
]

same_kind-eq : (a b : ValueKind) → same_kind a b ≡ true → a ≡ b
same_kind-eq a b h = ground arith

abbrev pub kind_at : List ValueKind → ℕ → ValueKind
kind_at kinds i = get_or kinds i ValueKind.invalid
