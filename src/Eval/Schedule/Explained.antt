-- ===== src/Eval/Schedule/Explained.antt =====
-- Uncertainty in the values of the instructions of internal/eval/executor.go, from leaves to groups.
pub mod Checked
use verifoxx.Common.{
  ℕ, zero, suc, ◌+◌, ◌-◌, ◌≤◌, ◌<◌, ◌≡◌, refl, sym, ap, ◌∙◌, Bool, true, false, not, ◌&&◌, ◌||◌,
  ◌⊎◌, inl, inr, Bool-cases, Option, some, none, List, [], ◌∷◌, ◌++◌, arith, length, get_elem?,
  get_or, ◌>>=◌, >>=-eq-some, some_inj, subst, ◌==◌, ltb, if◌then◌else◌, for_rows,
}
use verifoxx.Truth.Planes.{word_count}
use verifoxx.Truth.Planes.Rows.{State, exactly, row_bit}
use verifoxx.Program.{Program, Opcode, ValueKind}
use verifoxx.Eval.Batch.{Batch}
use verifoxx.Eval.Leaf.{Leaf, cleared}
use verifoxx.Eval.Leaf.Rows.{cleared-HasLeafShape}
use verifoxx.Eval.Evidence.{
  EvidencePredicate, bind_states, valid_evidence_batch, require_predicate, eval_validated,
}
use verifoxx.Eval.Evidence.Validated.{Answers, eval_validated-Answers}
use verifoxx.Eval.Predicate.{eval_predicate, program_predicate_value}
use verifoxx.Eval.Predicate.Guards.{AreWords}
use verifoxx.Eval.Predicate.Rows.{leaf_state, leaf_missing}
use verifoxx.Eval.Predicate.Meaning.{found, eval_predicate-AnswersFact}
use verifoxx.Truth.Reason.{IsReason, conflict, missing}
use verifoxx.Eval.Reduce.Truth.{connect, connect_all}
use verifoxx.Eval.Schedule.Reference.{
  Value, exact, value_of, truths_of, any_of, group_value, negated, leaf_value, group_at, value_at,
  next_value, values_of,
}

pub leaf_state-unknown :
    (opcode : Opcode) (present found : Bool)
    → ((leaf_state opcode present found).positive ≡ false)
      × ((leaf_state opcode present found).negative ≡ false)
    → leaf_missing opcode present ≡ true
leaf_state-unknown opcode present found h = ground arith

pub leaf_state-conflicting :
    (opcode : Opcode) (present found : Bool)
    → ((leaf_state opcode present found).positive ≡ true)
      × ((leaf_state opcode present found).negative ≡ true)
    → ⊥
leaf_state-conflicting opcode present found h = ground arith

-- An unknown request has a reason, and a contradictory one the reason `conflict`.
pub record Explained (v : Value) (r : ℕ) : Type 0 where
  pub unknown :
      (v.truth r).positive ≡ false
      → (v.truth r).negative ≡ false
      → (q : ℕ) × IsReason q × (v.reasons q r ≡ true)
  pub conflicting :
      (v.truth r).positive ≡ true → (v.truth r).negative ≡ true → v.reasons conflict r ≡ true

pub exact-Explained : (value : Bool) (r : ℕ) → Explained (exact value) r
exact-Explained value r = record {
  unknown = λ p n. absurd (ground arith);
  conflicting = λ p n. absurd (ground arith);
}

pub negated-Explained : (v : Value) (r : ℕ) → Explained v r → Explained (negated v) r
negated-Explained v r e = record {
  unknown = λ p n. e.unknown n p;
  conflicting = λ p n. e.conflicting n p;
}

abbrev Is : Bool → Bool → State → Type 0
Is positive negative t = (t.positive ≡ positive) × (t.negative ≡ negative)

connect-unknown :
    (all : Bool) (a c : State)
    → Is false false (connect all a c)
    → Is false false a ⊎ Is false false c
connect-unknown all a c h = ground arith

connect-conflicting :
    (all : Bool) (a c : State) → Is true true (connect all a c) → Is true true a ⊎ Is true true c
connect-conflicting all a c h = ground arith

-- An operand has the reason of a group that is unknown or contradictory.
module _ (values : List Value) (r : ℕ) (explained : (o : ℕ) → Explained (value_of values o) r) where
  group-unknown :
      (all : Bool) (operands : List ℕ)
      → Is false false (connect_all all (truths_of values operands r))
      → (q : ℕ) × IsReason q × (any_of values operands q r ≡ true)
  group-unknown all [] h = absurd (ground arith)
  group-unknown all (o ∷ os) h =
      elim (connect-unknown all ((value_of values o).truth r)
        (connect_all all (truths_of values os r)) h) [
          | inl here ↦ let (q, is, has) = (explained o).unknown here.0 here.1 in (q, is, rw has)
          | inr later ↦
              let (q, is, has) = group-unknown all os later in (q, is, rw has (ground arith))
        ]

  group-conflicting :
      (all : Bool) (operands : List ℕ)
      → Is true true (connect_all all (truths_of values operands r))
      → any_of values operands conflict r ≡ true
  group-conflicting all [] h = absurd (ground arith)
  group-conflicting all (o ∷ os) h =
      elim (connect-conflicting all ((value_of values o).truth r)
        (connect_all all (truths_of values os r)) h) [
          | inl here ↦ rw ((explained o).conflicting here.0 here.1)
          | inr later ↦ rw (group-conflicting all os later) (ground arith)
        ]

  pub group-Explained :
      (all : Bool) (operands : List ℕ) → Explained (group_value all values operands) r
  group-Explained all operands = record {
    unknown = λ p n. group-unknown all operands (p, n);
    conflicting = λ p n. group-conflicting all operands (p, n);
  }
