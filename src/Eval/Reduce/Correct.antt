-- ===== src/Eval/Reduce/Correct.antt =====
-- The in-place reduction of internal/eval/executor.go over windows of any kind, given what a window
-- stands for.
use verifoxx.Common.{
  ◌⊎◌, ℕ, ◌+◌, ◌-◌, ◌≤◌, ◌<◌, ◌≡◌, refl, sym, ◌∙◌, ap, true, false, none, some, List, [], ◌∷◌,
  arith, ◌==◌, if◌then◌else◌, length, get_or, set, length-set, get_or-set_self, get_or-set_ne,
  get_elem?-eq-get_or, inl, inr, Bool-cases, Option-cases,
}
use verifoxx.Eval.Reduce.{
  slot_of, operand_slot, find_driver, combine_operand, combine_operands, reduce_from, reduce_group,
}
use verifoxx.Eval.Reduce.Semantics.{Semantics, fold_values, absorbs_op, absorb_self, absorb_other}
use verifoxx.Eval.Reduce.Driver.{find_driver-none, driver-here, driver-found}

module _ {S V : Type 0} (s : Semantics S V) (default : S) (slots : List ℕ) (dst : ℕ) where
  abbrev pub at : List S → ℕ → S
  at store slot = get_or store (slot - 1) default

  abbrev pub IsSlot : List S → ℕ → Type 0
  IsSlot store slot = (0 < slot) × (slot ≤ length store)

  slot_of-at :
      (store : List S) (slot : ℕ) → IsSlot store slot → slot_of store slot ≡ some (at store slot)
  slot_of-at store slot h = ground (arith, get_elem?-eq-get_or store (slot - 1) default)

  -- The slots of the operands exist and are well formed.
  abbrev pub Ready : List S → List ℕ → Type 0
  Ready store [] = Unit
  Ready store (o ∷ os) =
      IsSlot store (operand_slot slots o) × s.Ok (at store (operand_slot slots o)) × Ready store os

  -- What the operands stand for.
  abbrev pub values : List S → List ℕ → List V
  values store [] = []
  values store (o ∷ os) = s.val (at store (operand_slot slots o)) ∷ values store os

  -- The operands have the values `vs`, save that those in the destination and the driver have `t`,
  -- which the destination holds already.
  abbrev Fits : List S → V → ℕ → ℕ → List ℕ → List V → Type 0
  Fits store t driver i [] [] = Unit
  Fits store t driver i [] (v ∷ vs) = ⊥
  Fits store t driver i (o ∷ os) [] = ⊥
  Fits store t driver i (o ∷ os) (v ∷ vs) =
      IsSlot store (operand_slot slots o)
      × s.Ok (at store (operand_slot slots o))
      × ((i == driver) ≡ true → v ≡ t)
      × ((operand_slot slots o == dst) ≡ true → v ≡ t)
      × ((operand_slot slots o == dst) ≡ false → s.val (at store (operand_slot slots o)) ≡ v)
      × Fits store t driver (i + 1) os vs

  -- The destination of `store'` stands for `v`, and the other slots are those of `store`.
  pub record Updated (store store' : List S) (v : V) : Type 0 where
    pub size : length store' ≡ length store
    pub value : s.val (at store' dst) ≡ v
    pub well_formed : s.Ok (at store' dst)
    pub others :
        (slot : ℕ) → IsSlot store slot → (slot == dst) ≡ false → at store' slot ≡ at store slot

  set-Updated :
      (store : List S) (c : S) (v : V)
      → IsSlot store dst
      → s.Ok c
      → s.val c ≡ v
      → Updated store (set store (dst - 1) c) v
  set-Updated store c v is ok e =
      let here : at (set store (dst - 1) c) dst ≡ c =
        get_or-set_self store (dst - 1) c default (omega arith) in
      record {
        size = length-set store (dst - 1) c;
        value = rw here e;
        well_formed = rw here ok;
        others = λ slot h ne. get_or-set_ne store (dst - 1) (slot - 1) c default (ground arith);
      }

  Fits-Updated :
      (store store' : List S) (w t : V) (driver i : ℕ) (os : List ℕ) (vs : List V)
      → Updated store store' w
      → Fits store t driver i os vs
      → Fits store' t driver i os vs
  Fits-Updated store store' w t driver i [] [] u f = tt
  Fits-Updated store store' w t driver i [] (v ∷ vs) u f = f
  Fits-Updated store store' w t driver i (o ∷ os) [] u f = f
  Fits-Updated store store' w t driver i (o ∷ os) (v ∷ vs) u (is, ok, dr, same, apart, rest) =
      let slot = operand_slot slots o in
      (
        (is.0, rw u.size is.1),
        elim (Bool-cases (slot == dst)) [
          | inl here ↦ let e : slot ≡ dst = ground arith in rw e u.well_formed
          | inr other ↦ rw (u.others slot is other) ok
        ],
        dr,
        same,
        λ other. rw (u.others slot is other) (apart other),
        Fits-Updated store store' w t driver (i + 1) os vs u rest,
      )

  combine_operand-Updated :
      (store : List S) (o : ℕ)
      → IsSlot store dst
      → s.Ok (at store dst)
      → IsSlot store (operand_slot slots o)
      → s.Ok (at store (operand_slot slots o))
      → (store' : List S) × (combine_operand s.combine slots dst store o ≡ some store')
        × Updated store store'
            (s.op (s.val (at store dst)) (s.val (at store (operand_slot slots o))))
  unfolding combine_operand
  combine_operand-Updated store o is ok src_is src_ok =
      let slot = operand_slot slots o in
      let (c, ran, c_ok, value) = s.combine_lem (at store dst) (at store slot) ok src_ok in
      (
        set store (dst - 1) c,
        rw (slot_of-at store slot src_is, slot_of-at store dst is, ran),
        set-Updated store c _ is c_ok value,
      )

  Updated-trans :
      (a b c : List S) (v w x : V) → w ≡ x → Updated a b v → Updated b c w → Updated a c x
  Updated-trans a b c v w x e u u' = record {
    size = u'.size ∙ u.size;
    value = u'.value ∙ e;
    well_formed = u'.well_formed;
    others = λ slot is other. u'.others slot (is.0, rw u.size is.1) other ∙ u.others slot is other;
  }

  -- One round of the loop leaves the destination with its value combined with that of the operand.
  round-Updated :
      (store : List S) (t v : V) (driver i o : ℕ)
      → IsSlot store dst
      → s.Ok (at store dst)
      → s.op (s.val (at store dst)) t ≡ s.val (at store dst)
      → IsSlot store (operand_slot slots o)
      → s.Ok (at store (operand_slot slots o))
      → ((i == driver) ≡ true → v ≡ t)
      → ((operand_slot slots o == dst) ≡ true → v ≡ t)
      → ((operand_slot slots o == dst) ≡ false → s.val (at store (operand_slot slots o)) ≡ v)
      → (store' : List S) × ((if i == driver
            then some store
            else combine_operand s.combine slots dst store o)
          ≡ some store')
        × Updated store store' (s.op (s.val (at store dst)) v)
  round-Updated store t v driver i o is ok absorbed src_is src_ok dr same apart =
      elim (Bool-cases (i == driver)) [
        | inl skip ↦ (
          store,
          rw skip,
          record {
            size = refl;
            value = sym (ap (s.op (s.val (at store dst))) (dr skip) ∙ absorbed);
            well_formed = ok;
            others = λ slot h ne. refl;
          },
        )
        | inr combines ↦
            let (store', ran, u) = combine_operand-Updated store o is ok src_is src_ok in
            (
              store',
              rw combines ran,
              record {
                size = u.size;
                value = u.value ∙ elim (Bool-cases (operand_slot slots o == dst)) [
                  | inl here ↦
                      let e : operand_slot slots o ≡ dst = ground arith in
                      ap (λ x. s.op (s.val (at store dst)) (s.val (at store x))) e
                      ∙ s.op_idem (s.val (at store dst))
                      ∙ sym absorbed
                      ∙ ap (s.op (s.val (at store dst))) (sym (same here))
                  | inr other ↦ ap (s.op (s.val (at store dst))) (apart other)
                ];
                well_formed = u.well_formed;
                others = u.others;
              },
            )
      ]

  -- The loop leaves the destination with its value combined with those of all operands.
  combine_operands-Updated :
      (store : List S) (t : V) (driver i : ℕ) (os : List ℕ) (vs : List V)
      → IsSlot store dst
      → s.Ok (at store dst)
      → s.op (s.val (at store dst)) t ≡ s.val (at store dst)
      → Fits store t driver i os vs
      → (store' : List S) × (combine_operands s.combine slots dst driver i os store ≡ some store')
        × Updated store store' (s.op (s.val (at store dst)) (fold_values s vs))
  unfolding combine_operands
  combine_operands-Updated store t driver i [] [] is ok absorbed f = (
    store,
    refl,
    record {
      size = refl;
      value = sym (s.op_unit (s.val (at store dst)));
      well_formed = ok;
      others = λ slot h ne. refl;
    },
  )
  combine_operands-Updated store t driver i [] (v ∷ vs) is ok absorbed f = absurd f
  combine_operands-Updated store t driver i (o ∷ os) [] is ok absorbed f = absurd f
  combine_operands-Updated store t driver i (o ∷ os) (v ∷ vs) is ok absorbed
        (src_is, src_ok, dr, same, apart, rest) =
      let acc = s.val (at store dst) in
      let (next, ran, u) =
        round-Updated store t v driver i o is ok absorbed src_is src_ok dr same apart in
      let (store', ran', u') =
        combine_operands-Updated next t driver (i + 1) os vs (is.0, rw u.size is.1) u.well_formed
          (rw u.value (absorbs_op s acc v t absorbed))
          (Fits-Updated store next (s.op acc v) t driver (i + 1) os vs u rest) in
      (
        store',
        rw (ran, ran'),
        Updated-trans store next store' _ _ _
            (ap (λ x. s.op x (fold_values s vs)) u.value ∙ s.op_assoc acc v (fold_values s vs)) u
            u',
      )

  -- Combining the value of the destination once more changes nothing, if an operand stands there.
  find_driver-absorbs :
      (store : List S) (os : List ℕ) (i d : ℕ)
      → find_driver slots dst os i ≡ some d
      → s.op (s.val (at store dst)) (fold_values s (values store os))
        ≡ fold_values s (values store os)
  unfolding find_driver
  find_driver-absorbs store [] i d h = cc
  find_driver-absorbs store (o ∷ os) i d h = elim (Bool-cases (operand_slot slots o == dst)) [
    | inl here ↦
        let e : operand_slot slots o ≡ dst = ground arith in
        rw e (absorb_self s (s.val (at store dst)) (fold_values s (values store os)))
    | inr other ↦
        let rest = find_driver-absorbs store os (i + 1) d (rw other at h) in
        absorb_other s (s.val (at store dst)) (s.val (at store (operand_slot slots o)))
          (fold_values s (values store os)) rest
  ]

  -- With the first operand in the destination as the driver, the operands fit.
  driver-Fits :
      (store : List S) (d i : ℕ) (os : List ℕ)
      → Ready store os
      → (find_driver slots dst os i ≡ some d) ⊎ (d < i)
      → Fits store (s.val (at store dst)) d i os (values store os)
  unfolding find_driver
  driver-Fits store d i [] ready from = tt
  driver-Fits store d i (o ∷ os) (is, ok, ready) from =
      let slot = operand_slot slots o in
      let in_dst : (slot == dst) ≡ true → s.val (at store slot) ≡ s.val (at store dst) =
        λ here. let e : slot ≡ dst = ground arith in ap (λ x. s.val (at store x)) e in
      (
        is,
        ok,
        λ at_driver. elim (Bool-cases (slot == dst)) [
          | inl here ↦ in_dst here
          | inr other ↦ absurd (driver-here slots dst d i o os other (ground arith) from)
        ],
        in_dst,
        λ other. refl,
        driver-Fits store d (i + 1) os ready (elim (Bool-cases (slot == dst)) [
          | inl here ↦ inr (driver-found slots dst d i o os here from)
          | inr other ↦ elim from [ inl h ↦ inl (rw other at h) | inr h ↦ inr (omega arith) ]
        ]),
      )

  -- With no operand in the destination, those behind the first fit whatever was copied there.
  apart-Fits :
      (store next : List S) (w t : V) (i : ℕ) (os : List ℕ)
      → 0 < i
      → find_driver slots dst os i ≡ none
      → Updated store next w
      → Ready store os
      → Fits next t 0 i os (values store os)
  apart-Fits store next w t i [] later h u ready = tt
  apart-Fits store next w t i (o ∷ os) later h u (is, ok, ready) =
      let (other, rest) = find_driver-none slots dst o os i h in
      let kept = u.others (operand_slot slots o) is other in
      (
        (is.0, rw u.size is.1),
        rw kept ok,
        λ e. absurd (ground arith),
        λ e. cc,
        λ e. rw kept,
        apart-Fits store next w t (i + 1) os (omega arith) rest u ready,
      )

  reduce-none :
      (store : List S) (o : ℕ) (os : List ℕ)
      → find_driver slots dst (o ∷ os) 0 ≡ none
      → IsSlot store dst
      → Ready store (o ∷ os)
      → (store' : List S) × (reduce_from s.combine slots dst none (o ∷ os) store ≡ some store')
        × Updated store store' (fold_values s (values store (o ∷ os)))
  unfolding reduce_from
  reduce-none store o os h is (src_is, src_ok, ready) =
      let slot = operand_slot slots o in
      let v = s.val (at store slot) in
      let vs = values store os in
      let next = set store (dst - 1) (at store slot) in
      let u : Updated store next v = set-Updated store (at store slot) v is src_ok refl in
      let (other, rest) = find_driver-none slots dst o os 0 h in
      let kept = u.others slot src_is other in
      let (store', ran, u') =
        combine_operands-Updated next v 0 0 (o ∷ os) (v ∷ vs) (is.0, rw u.size is.1) u.well_formed
          (rw u.value (s.op_idem v))
          (
            (src_is.0, rw u.size src_is.1),
            rw kept src_ok,
            (λ e. refl),
            (λ e. cc),
            (λ e. ap s.val kept),
            apart-Fits store next v v 1 os (omega arith) rest u ready,
          ) in
      (
        store',
        rw (slot_of-at store slot src_is, slot_of-at store dst is) ran,
        Updated-trans store next store' v _ _
            (ap (λ x. s.op x (s.op v (fold_values s vs))) u.value
              ∙ sym (s.op_assoc v v (fold_values s vs))
              ∙ ap (λ x. s.op x (fold_values s vs)) (s.op_idem v))
            u u',
      )

  -- Reducing a group that has operands returns, when its slot and those of its operands exist and
  -- are well formed: the slot of the group then stands for the combination of what all operands
  -- stood for, and no other slot has changed, whether or not the slot is one of theirs.
  pub reduce_group-Updated :
      (store : List S) (o : ℕ) (os : List ℕ)
      → IsSlot store dst
      → s.Ok (at store dst)
      → Ready store (o ∷ os)
      → (store' : List S) × (reduce_group s.combine slots dst (o ∷ os) store ≡ some store')
        × Updated store store' (fold_values s (values store (o ∷ os)))
  unfolding reduce_group
  reduce_group-Updated store o os is ok ready =
      elim (Option-cases (find_driver slots dst (o ∷ os) 0)) [
        | inl absent ↦
            let (store', ran, u) = reduce-none store o os absent is ready in
            (store', rw (slot_of-at store dst is, absent) ran, u)
        | inr (d, found) ↦
            let t = s.val (at store dst) in
            let vs = values store (o ∷ os) in
            let (store', ran, u) =
              combine_operands-Updated store t d 0 (o ∷ os) vs is ok (s.op_idem t)
                (driver-Fits store d 0 (o ∷ os) ready (inl found)) in
            (
              store',
              rw (slot_of-at store dst is, found) (unfold reduce_from in ran),
              Updated-trans store store store' t _ _ (find_driver-absorbs store (o ∷ os) 0 d found)
                  (record {
                    size = refl;
                    value = refl;
                    well_formed = ok;
                    others = λ slot h ne. refl;
                  })
                  u,
            )
      ]
