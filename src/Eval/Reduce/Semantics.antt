-- ===== src/Eval/Reduce/Semantics.antt =====
-- What the windows of the in-place reduction of internal/eval/executor.go stand for.
use verifoxx.Common.{◌≡◌, sym, ◌∙◌, ap, Option, some, List, [], ◌∷◌}

-- What a window stands for, and how combining acts on it.
pub record Semantics (S V : Type 0) : Type 1 where
  pub val : S → V
  pub op : V → V → V
  pub unit : V
  pub op_assoc : (a b c : V) → op (op a b) c ≡ op a (op b c)
  pub op_comm : (a b : V) → op a b ≡ op b a
  pub op_idem : (a : V) → op a a ≡ a
  pub op_unit : (a : V) → op a unit ≡ a
  pub Ok : S → Type 0
  pub combine : S → S → Option S
  pub combine_lem :
      (a b : S)
      → Ok a
      → Ok b
      → (c : S) × (combine a b ≡ some c) × Ok c × (val c ≡ op (val a) (val b))

-- The combination of a list of values.
abbrev pub fold_values : {S V : Type 0} → Semantics S V → List V → V
fold_values s [] = s.unit
fold_values s (v ∷ vs) = s.op v (fold_values s vs)

module _ {S V : Type 0} (s : Semantics S V) where
  pub absorbs_op : (a b t : V) → s.op a t ≡ a → s.op (s.op a b) t ≡ s.op a b
  absorbs_op a b t h =
      s.op_assoc a b t ∙ ap (s.op a) (s.op_comm b t) ∙ sym (s.op_assoc a t b) ∙ ap (λ x. s.op x b) h

  pub absorb_self : (t r : V) → s.op t (s.op t r) ≡ s.op t r
  absorb_self t r = sym (s.op_assoc t t r) ∙ ap (λ x. s.op x r) (s.op_idem t)

  pub absorb_other : (t v r : V) → s.op t r ≡ r → s.op t (s.op v r) ≡ s.op v r
  absorb_other t v r h =
      sym (s.op_assoc t v r) ∙ ap (λ x. s.op x r) (s.op_comm t v) ∙ s.op_assoc v t r ∙ ap (s.op v) h
