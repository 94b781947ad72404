-- ===== src/Tests/Program.antt =====
-- A registry and a schema, for internal/program/registry.go and internal/index/schema.go.
use verifoxx.Common.{◌≡◌, refl, some, [], ◌∷◌, arith}
use verifoxx.Program.{FieldIndex, ValueKind}
use verifoxx.Program.Schema.{increment}
use verifoxx.Program.Registry.{Compiled, Registry, ok, empty, lookup, publish}
use verifoxx.Program.Registry.Steps.{
  Steps, done, more, publishes, IsRegistry, Steps-IsRegistry, Steps-keeps, publish-canonical,
}

abbrev first : Compiled
first = record { address = 1; content_hash = 40 }

abbrev later : Compiled
later = record { address = 2; content_hash = 40 }

abbrev published : Registry
published = record empty { programs = (40, first) ∷ [] }

first-Steps : Steps empty (publish empty first).1
first-Steps =
    more empty (publish empty first).1 (publish empty first).1 (publishes first)
      (done (publish empty first).1)

Steps-IsRegistry_example : IsRegistry published
unfolding publish
Steps-IsRegistry_example = Steps-IsRegistry published first-Steps

later-Steps : Steps published (publish published later).1
later-Steps =
    more published (publish published later).1 (publish published later).1 (publishes later)
      (done (publish published later).1)

Steps-keeps_example : lookup (publish published later).1 40 ≡ some first
Steps-keeps_example = Steps-keeps published (publish published later).1 40 first later-Steps refl

publish-canonical_example :
    ((publish empty first).0 ≡ ok first)
    × (publish (publish empty first).1 later ≡ (ok first, (publish empty first).1))
publish-canonical_example =
    publish-canonical empty (publish empty first).1 first later (omega arith) (omega arith) refl
      (done (publish empty first).1) refl

abbrev schema : FieldIndex
schema = record {
  kinds = ValueKind.symbol ∷ ValueKind.integer ∷ ValueKind.symbol ∷ [];
  columns = 0 ∷ 0 ∷ 1 ∷ [];
  counts =
      increment (increment (increment (λ _. 0) ValueKind.symbol) ValueKind.integer)
        ValueKind.symbol;
}
