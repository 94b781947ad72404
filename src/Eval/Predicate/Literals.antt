-- ===== src/Eval/Predicate/Literals.antt =====
-- The literals that the operands of internal/eval/predicate.go are.
use verifoxx.Common.{
  ℕ, zero, suc, ◌+◌, ◌-◌, ◌<◌, ◌≡◌, refl, sym, ap, Bool, true, not, ◌&&◌, some, ◌>>=◌, List, [],
  ◌∷◌, arith, leb, ltb, ◌==◌, length, get_or, require, >>=-eq-some, some_inj,
}
use verifoxx.Common.Int.{pos}
use verifoxx.Program.{Program, Opcode, ValueKind, same_kind}
use verifoxx.Eval.Predicate.{
  PredicateValue, program_predicate_value, referenced_value, list_literals, operand_values,
}

-- What a reference of a value of this kind stands for.
abbrev pub Refers : Program → ℕ → ValueKind → PredicateValue → Type 0
Refers p ref ValueKind.symbol value = value.symbol_id ≡ ref
Refers p ref ValueKind.integer value = value.integer ≡ get_or p.integer_values (ref - 1) (pos 0)
Refers p ref ValueKind.boolean value =
    value.boolean ≡ not (get_or p.boolean_values (ref - 1) 0 == 0)
Refers p ref ValueKind.timestamp value =
    value.timestamp ≡ get_or p.timestamp_values (ref - 1) (pos 0)
Refers p ref _ value = ⊥

-- A value is the literal of the program with this identifier, and has this kind.
abbrev pub IsLiteral : Program → ValueKind → ℕ → PredicateValue → Type 0
IsLiteral p kind id value =
    (0 < id)
    × (get_or p.value_kinds (id - 1) ValueKind.invalid ≡ kind)
    × (0 < get_or p.value_refs (id - 1) 0)
    × Refers p (get_or p.value_refs (id - 1) 0) kind value

-- The literals from `start` on.
abbrev pub AreLiterals : Program → ValueKind → ℕ → List PredicateValue → Type 0
AreLiterals p kind start [] = Unit
AreLiterals p kind start (value ∷ values) =
    IsLiteral p kind (get_or p.list_values start 0) value × AreLiterals p kind (start + 1) values

-- The values that an instruction names.
abbrev pub AreOperands : Program → Opcode → ValueKind → ℕ → List PredicateValue → Type 0
AreOperands p Opcode.exists kind row values = values ≡ []
AreOperands p Opcode.defined kind row values = values ≡ []
AreOperands p Opcode.within kind row values =
    (length values ≡ get_or p.list_counts row 0)
    × AreLiterals p kind (get_or p.list_starts row 0) values
AreOperands p opcode kind row values =
    (value : PredicateValue) × (values ≡ value ∷ [])
    × IsLiteral p kind (get_or p.values row 0) value

same_kind-eq : (a b : ValueKind) → same_kind a b ≡ true → a ≡ b
same_kind-eq a b h = ground arith

referenced_value-Refers :
    (p : Program) (ref : ℕ) (kind : ValueKind) (value : PredicateValue)
    → referenced_value p ref kind ≡ some value
    → Refers p ref kind value
unfolding referenced_value
referenced_value-Refers p ref ValueKind.symbol value h = ground arith
referenced_value-Refers p ref ValueKind.integer value h = ground arith
referenced_value-Refers p ref ValueKind.boolean value h = ground arith
referenced_value-Refers p ref ValueKind.timestamp value h = ground arith
referenced_value-Refers p ref ValueKind.invalid value h = absurd (ground arith)
referenced_value-Refers p ref ValueKind.presence value h = absurd (ground arith)

require-true : (test : Bool) (u : Unit {0}) → require test ≡ some u → test ≡ true
require-true test u h = ground arith

program_predicate_value-IsLiteral :
    (p : Program) (id : ℕ) (kind : ValueKind) (value : PredicateValue)
    → program_predicate_value p id kind ≡ some value
    → IsLiteral p kind id value
unfolding program_predicate_value
program_predicate_value-IsLiteral p id kind value h =
    let row = id - 1 in
    let tests =
      not (id == 0)
      && ltb row (length p.value_kinds)
      && ltb row (length p.value_refs)
      && same_kind (get_or p.value_kinds row ValueKind.invalid) kind in
    let (u, passed, h₁) = >>=-eq-some (require tests) _ h in
    let (u', referred, h₂) = >>=-eq-some (require (not (get_or p.value_refs row 0 == 0))) _ h₁ in
    let all = require-true tests u passed in
    let some_ref = require-true (not (get_or p.value_refs row 0 == 0)) u' referred in
    (
      ground arith,
      same_kind-eq (get_or p.value_kinds row ValueKind.invalid) kind (ground arith),
      ground arith,
      referenced_value-Refers p (get_or p.value_refs row 0) kind value h₂,
    )

list_literals-AreLiterals :
    (p : Program) (kind : ValueKind) (left start : ℕ) (values : List PredicateValue)
    → list_literals p kind left start ≡ some values
    → (length values ≡ left) × AreLiterals p kind start values
unfolding list_literals
list_literals-AreLiterals p kind zero start values h = rw (← some_inj h) (refl, tt)
list_literals-AreLiterals p kind (suc left) start values h =
    let (value, read, h₁) =
      >>=-eq-some (program_predicate_value p (get_or p.list_values start 0) kind) _ h in
    let (rest, more, h₂) = >>=-eq-some (list_literals p kind left (start + 1)) _ h₁ in
    let (size, are) = list_literals-AreLiterals p kind left (start + 1) rest more in
    rw (← some_inj h₂) (
      ap suc size,
      (program_predicate_value-IsLiteral p (get_or p.list_values start 0) kind value read, are),
    )

operand_values-one :
    (p : Program) (kind : ValueKind) (row : ℕ) (values : List PredicateValue)
    → (program_predicate_value p (get_or p.values row 0) kind >>= λ value. some (value ∷ []))
      ≡ some values
    → (value : PredicateValue) × (values ≡ value ∷ [])
      × IsLiteral p kind (get_or p.values row 0) value
operand_values-one p kind row values h =
    let (value, read, h₁) =
      >>=-eq-some (program_predicate_value p (get_or p.values row 0) kind) _ h in
    (
      value,
      sym (some_inj h₁),
      program_predicate_value-IsLiteral p (get_or p.values row 0) kind value read,
    )

pub operand_values-AreOperands :
    (p : Program) (opcode : Opcode) (kind : ValueKind) (row : ℕ) (values : List PredicateValue)
    → operand_values p opcode kind row ≡ some values
    → AreOperands p opcode kind row values
unfolding operand_values
operand_values-AreOperands p Opcode.exists kind row values h =
    let (_, _, h₁) = >>=-eq-some (require (get_or p.values row 0 == 0)) _ h in sym (some_inj h₁)
operand_values-AreOperands p Opcode.defined kind row values h =
    let (_, _, h₁) = >>=-eq-some (require (get_or p.values row 0 == 0)) _ h in sym (some_inj h₁)
operand_values-AreOperands p Opcode.within kind row values h =
    let (_, _, h₁) =
      >>=-eq-some
        (require (
          get_or p.values row 0 == 0
          && ltb row (length p.list_starts)
          && ltb row (length p.list_counts)))
        _ h in
    let (_, _, h₂) =
      >>=-eq-some
        (require
          (leb (get_or p.list_starts row 0 + get_or p.list_counts row 0) (length p.list_values)))
        _ h₁ in
    list_literals-AreLiterals p kind (get_or p.list_counts row 0) (get_or p.list_starts row 0)
      values h₂
operand_values-AreOperands p opcode kind row values h = operand_values-one p kind row values h
