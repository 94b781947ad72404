-- ===== src/Compile/Lifetimes/Uses.antt =====
-- The last uses that `computeLastUses` of internal/compile/liveness.go computes.
use verifoxx.Common.{
  ℕ, zero, suc, ◌+◌, ◌-◌, ◌≤◌, ◌<◌, ◌≡◌, ◌≢◌, refl, ap, ◌∙◌, true, not, ◌&&◌, ◌⊎◌, inl, inr,
  Bool-cases, some, List, [], ◌∷◌, arith, leb, ◌==◌, if◌then◌else◌, length, get_or, set, tabulate,
  length-set, get_or-set_self, get_or-set_ne, length-tabulate, get_or-tabulate, all_rows-row,
  all_of, all_of-get_or, subst,
}
use verifoxx.Words.{and_not, max_uint32}
use verifoxx.Program.{Program}
use verifoxx.Compile.Lifetimes.{
  validate_slot_program, operands_of, known_root_flags, use_operands, use_rows, keep_roots,
  compute_last_uses,
}

-- The operand at a position of a row.
abbrev pub operand_at : Program → ℕ → ℕ → ℕ
operand_at p row i = get_or (operands_of p row) i 0

abbrev pub rows_of : Program → ℕ
rows_of p = length p.opcodes

-- Operands are rows before their consumer.
pub record IsOrdered (p : Program) : Type 0 where
  pub fits : rows_of p ≤ max_uint32
  pub before :
      (row i : ℕ)
      → row < rows_of p
      → i < length (operands_of p row)
      → (0 < operand_at p row i) × (operand_at p row i ≤ row)

pub validate_slot_program-IsOrdered : (p : Program) → validate_slot_program p ≡ true → IsOrdered p
unfolding validate_slot_program
validate_slot_program-IsOrdered p valid = record {
  fits = ground arith;
  before = λ row i inside i_inside.
      let rows =
        all_rows-row (rows_of p)
          (λ r.
            and_not (get_or p.root_flags r 0) known_root_flags == 0
            && leb (get_or p.operand_starts r 0 + get_or p.operand_counts r 0) (length p.operands)
            && all_of (λ operand. not (operand == 0) && leb operand r) (operands_of p r))
          row (ground arith) inside in
      let one =
        all_of-get_or (λ operand. not (operand == 0) && leb operand row) (operands_of p row) i 0
          (ground arith) i_inside in
      ground arith;
}

-- The consumer is the use of each of its operands, and no other use changes.
module _ (consumer : ℕ) where
  use_operands-length :
      (operands uses : List ℕ) → length (use_operands consumer operands uses) ≡ length uses
  unfolding use_operands
  use_operands-length [] uses = refl
  use_operands-length (operand ∷ operands) uses =
      use_operands-length operands (set uses (operand - 1) consumer)
      ∙ length-set uses (operand - 1) consumer

  use_operands-other :
      (operands uses : List ℕ) (j : ℕ)
      → ((i : ℕ) → i < length operands → get_or operands i 0 ≤ consumer)
      → j < length uses
      → (get_or (use_operands consumer operands uses) j 0 ≡ get_or uses j 0)
        ⊎ ((get_or (use_operands consumer operands uses) j 0 ≡ consumer) × (j ≤ consumer))
  unfolding use_operands
  use_operands-other [] uses j known inside = inl refl
  use_operands-other (operand ∷ operands) uses j known inside =
      let rest =
        use_operands-other operands (set uses (operand - 1) consumer) j
          (λ i below. known (suc i) (omega arith))
          (omega (arith, length-set uses (operand - 1) consumer)) in
      elim (Bool-cases (operand - 1 == j)) [
        | inl here ↦
            let e : operand - 1 ≡ j = ground arith in
            let below : j ≤ consumer = omega (arith, e, known 0 (omega arith)) in
            elim rest [
              | inl same ↦ inr (
                same
                    ∙ ap (λ k. get_or (set uses k consumer) j 0) e
                    ∙ get_or-set_self uses j consumer 0 inside,
                below,
              )
              | inr now ↦ inr now
            ]
        | inr there ↦
            let e = get_or-set_ne uses (operand - 1) j consumer 0 (ground arith) in
            elim rest [ inl same ↦ inl (same ∙ e) | inr now ↦ inr now ]
      ]

  use_operands-used :
      (operands uses : List ℕ) (i : ℕ)
      → ((k : ℕ) → k < length operands → get_or operands k 0 ≤ consumer)
      → i < length operands
      → get_or operands i 0 - 1 < length uses
      → get_or (use_operands consumer operands uses) (get_or operands i 0 - 1) 0 ≡ consumer
  unfolding use_operands
  use_operands-used [] uses i known inside fits = elim inside [ ]
  use_operands-used (operand ∷ operands) uses zero known inside fits =
      elim (use_operands-other operands (set uses (operand - 1) consumer) (operand - 1)
        (λ i below. known (suc i) (omega arith))
        (omega (arith, length-set uses (operand - 1) consumer))) [
          | inl same ↦ same ∙ get_or-set_self uses (operand - 1) consumer 0 fits
          | inr now ↦ now.0
        ]
  use_operands-used (operand ∷ operands) uses (suc i) known inside fits =
      use_operands-used operands (set uses (operand - 1) consumer) i
        (λ k below. known (suc k) (omega arith)) (omega arith)
        (omega (arith, length-set uses (operand - 1) consumer))

module _ (p : Program) (ordered : IsOrdered p) where
  -- The uses once the consumers before `consumer` are done.
  record IsUses (consumer : ℕ) (uses : List ℕ) : Type 0 where
    sized : length uses ≡ rows_of p
    bounds : (j : ℕ) → j < rows_of p → (j ≤ get_or uses j 0) × (get_or uses j 0 < rows_of p)
    used :
        (row i : ℕ)
        → row < consumer
        → row < rows_of p
        → i < length (operands_of p row)
        → row ≤ get_or uses (operand_at p row i - 1) 0

  use_operands-IsUses :
      (consumer : ℕ) (uses : List ℕ)
      → consumer < rows_of p
      → IsUses consumer uses
      → IsUses (suc consumer) (use_operands consumer (operands_of p consumer) uses)
  use_operands-IsUses consumer uses inside u =
      let known : (i : ℕ)
          → i < length (operands_of p consumer)
          → operand_at p consumer i ≤ consumer =
        λ i below. (ordered.before consumer i inside below).1 in
      let next : List ℕ = use_operands consumer (operands_of p consumer) uses in
      let other : (j : ℕ)
          → j < rows_of p
          → (get_or next j 0 ≡ get_or uses j 0) ⊎ ((get_or next j 0 ≡ consumer) × (j ≤ consumer)) =
        λ j j_inside.
          use_operands-other consumer (operands_of p consumer) uses j known
            (omega (arith, u.sized)) in
      let used_here : (i : ℕ)
          → i < length (operands_of p consumer)
          → consumer ≤ get_or next (operand_at p consumer i - 1) 0 =
        λ i i_inside.
          let before = ordered.before consumer i inside i_inside in
          rw
            (use_operands-used consumer (operands_of p consumer) uses i known i_inside
              (omega (arith, u.sized)))
            (omega arith) in
      record {
        sized = use_operands-length consumer (operands_of p consumer) uses ∙ u.sized;
        bounds = λ j j_inside. elim (other j j_inside) [
          | inl same ↦ rw same (u.bounds j j_inside)
          | inr now ↦ rw now.0 (now.1, inside)
        ];
        used = λ row i below row_inside i_inside. elim (Bool-cases (row == consumer)) [
          | inl here ↦
              let e : row ≡ consumer = ground arith in
              let here_inside : i < length (operands_of p consumer) =
                subst (λ r. i < length (operands_of p r)) e i_inside in
              rw e (used_here i here_inside)
          | inr earlier ↦
              let before = ordered.before row i row_inside i_inside in
              let old = u.used row i (ground arith) row_inside i_inside in
              elim (other (operand_at p row i - 1) (omega arith)) [
                | inl same ↦ rw same old
                | inr now ↦ rw now.0 (omega arith)
              ]
        ];
      }

  use_rows-IsUses :
      (rounds consumer : ℕ) (uses : List ℕ)
      → consumer + rounds ≡ rows_of p
      → IsUses consumer uses
      → IsUses (rows_of p) (use_rows p rounds consumer uses)
  unfolding use_rows
  use_rows-IsUses zero consumer uses ends u =
      let e : consumer ≡ rows_of p = omega arith in subst (λ k. IsUses k uses) e u
  use_rows-IsUses (suc rounds) consumer uses ends u =
      use_rows-IsUses rounds (suc consumer) (use_operands consumer (operands_of p consumer) uses)
        (omega arith) (use_operands-IsUses consumer uses (omega arith) u)

-- Last uses of a program: an operand is used at its consumer or later, and a root after all rows.
pub record AreLastUses (p : Program) (last_uses : List ℕ) : Type 0 where
  pub sized : length last_uses ≡ rows_of p
  pub bounds :
      (j : ℕ) → j < rows_of p → (j ≤ get_or last_uses j 0) × (get_or last_uses j 0 ≤ rows_of p)
  pub used :
      (row i : ℕ)
      → row < rows_of p
      → i < length (operands_of p row)
      → row ≤ get_or last_uses (operand_at p row i - 1) 0
  pub roots :
      (j : ℕ) → j < rows_of p → get_or p.root_flags j 0 ≢ 0 → get_or last_uses j 0 ≡ rows_of p

pub compute_last_uses-AreLastUses :
    (p : Program)
    → validate_slot_program p ≡ true
    → (last_uses : List ℕ) × (compute_last_uses p ≡ some last_uses) × AreLastUses p last_uses
unfolding compute_last_uses
compute_last_uses-AreLastUses p valid =
    let ordered = validate_slot_program-IsOrdered p valid in
    let n = rows_of p in
    let start : List ℕ = tabulate n (λ row. row) in
    let uses : List ℕ = use_rows p n 0 start in
    let u = use_rows-IsUses p ordered n 0 start (omega arith) (record {
      sized = length-tabulate {A = ℕ} n (λ row. row);
      bounds = λ j inside.
          let e = get_or-tabulate {A = ℕ} n (λ row. row) j 0 inside in rw e (omega arith, inside);
      used = λ row i below. absurd (omega arith);
    }) in
    let kept : (j : ℕ)
        → j < n
        → get_or (keep_roots p uses) j 0
          ≡ (if get_or p.root_flags j 0 == 0 then get_or uses j 0 else n) =
      λ j inside.
        get_or-tabulate {A = ℕ} n
          (λ row. if get_or p.root_flags row 0 == 0 then get_or uses row 0 else n) j 0 inside in
    (
      keep_roots p uses,
      rw valid,
      record {
        sized =
            length-tabulate {A = ℕ} n
              (λ row. if get_or p.root_flags row 0 == 0 then get_or uses row 0 else n);
        bounds = λ j inside. let old = u.bounds j inside in rw (kept j inside) (ground arith);
        used = λ row i inside i_inside.
            let before = ordered.before row i inside i_inside in
            let old = u.used row i inside inside i_inside in
            rw (kept (operand_at p row i - 1) (omega arith)) (ground arith);
        roots = λ j inside root. rw (kept j inside) (ground arith);
      },
    )
