-- ===== src/Compile/Lifetimes/Reasons.antt =====
-- The rows whose reasons `computeReasonLive` of internal/compile/liveness.go keeps.
use verifoxx.Common.{
  ℕ, zero, suc, ◌-◌, ◌≤◌, ◌<◌, ◌≡◌, ◌≢◌, refl, sym, subst, ◌∙◌, true, false, inl, inr, Bool-cases,
  List, [], ◌∷◌, arith, ◌==◌, if◌then◌else◌, length, get_or, set, tabulate, length-set,
  get_or-set_self, get_or-set_ne, length-tabulate, get_or-tabulate, ltb, get_or-beyond,
}
use verifoxx.Program.{Program}
use verifoxx.Compile.Lifetimes.{
  operands_of, opcode_at, passes_reasons, live_operands, live_row, live_rows, compute_reason_live,
}
use verifoxx.Compile.Lifetimes.Uses.{operand_at, rows_of, IsOrdered}

-- Whether the flag of a row is set.
abbrev pub Flagged : List ℕ → ℕ → Type 0
Flagged flags row = (get_or flags row 0 == 0) ≡ false

set-Flagged : (flags : List ℕ) (i j : ℕ) → Flagged flags j → Flagged (set flags i 1) j
set-Flagged flags i j flagged = elim (Bool-cases (i == j)) [
  | inl here ↦
      let e : i ≡ j = ground arith in
      let inside : i < length flags = elim (Bool-cases (ltb i (length flags))) [
        | inl below ↦ ground arith
        | inr beyond ↦
            let none_there = get_or-beyond flags j 0 (ground arith) in absurd (ground arith)
      ] in
      rw (sym e, get_or-set_self flags i 1 0 inside)
  | inr there ↦ rw (get_or-set_ne flags i j 1 0 (ground arith)) flagged
]

live_operands-length :
    (operands flags : List ℕ) → length (live_operands operands flags) ≡ length flags
unfolding live_operands
live_operands-length [] flags = refl
live_operands-length (operand ∷ operands) flags =
    live_operands-length operands (set flags (operand - 1) 1) ∙ length-set flags (operand - 1) 1

live_operands-keeps :
    (operands flags : List ℕ) (j : ℕ) → Flagged flags j → Flagged (live_operands operands flags) j
unfolding live_operands
live_operands-keeps [] flags j flagged = flagged
live_operands-keeps (operand ∷ operands) flags j flagged =
    live_operands-keeps operands (set flags (operand - 1) 1) j
      (set-Flagged flags (operand - 1) j flagged)

live_operands-marks :
    (operands flags : List ℕ) (i : ℕ)
    → i < length operands
    → get_or operands i 0 - 1 < length flags
    → Flagged (live_operands operands flags) (get_or operands i 0 - 1)
unfolding live_operands
live_operands-marks [] flags i inside fits = elim inside [ ]
live_operands-marks (operand ∷ operands) flags zero inside fits =
    live_operands-keeps operands (set flags (operand - 1) 1) (operand - 1)
      (rw (get_or-set_self flags (operand - 1) 1 0 fits))
live_operands-marks (operand ∷ operands) flags (suc i) inside fits =
    live_operands-marks operands (set flags (operand - 1) 1) i (omega arith)
      (omega (arith, length-set flags (operand - 1) 1))

live_operands-other :
    (operands flags : List ℕ) (j : ℕ)
    → ((i : ℕ) → i < length operands → (0 < get_or operands i 0) × (get_or operands i 0 ≤ j))
    → get_or (live_operands operands flags) j 0 ≡ get_or flags j 0
unfolding live_operands
live_operands-other [] flags j before = refl
live_operands-other (operand ∷ operands) flags j before =
    live_operands-other operands (set flags (operand - 1) 1) j
      (λ i inside. before (suc i) (omega arith))
    ∙ get_or-set_ne flags (operand - 1) j 1 0
        (λ e. let here = before 0 (omega arith) in absurd (omega (arith, e)))

module _ (p : Program) (ordered : IsOrdered p) where
  -- The flagged rows from `row` on pass their flag to their operands.
  abbrev pub PassesFrom : ℕ → List ℕ → Type 0
  PassesFrom row flags =
      (k i : ℕ)
      → row ≤ k
      → k < rows_of p
      → Flagged flags k
      → passes_reasons (opcode_at p k) ≡ true
      → i < length (operands_of p k)
      → Flagged flags (operand_at p k i - 1)

  PassesFrom-row :
      (row : ℕ) (flags : List ℕ)
      → PassesFrom (suc row) flags
      → ((i : ℕ)
          → Flagged flags row
          → passes_reasons (opcode_at p row) ≡ true
          → i < length (operands_of p row)
          → Flagged flags (operand_at p row i - 1))
      → PassesFrom row flags
  PassesFrom-row row flags rest at_row k i from inside flagged passing i_inside =
      elim (Bool-cases (k == row)) [
        | inl here ↦
            let e : k ≡ row = ground arith in
            rw e (
              at_row i (subst (λ r. Flagged flags r) e flagged)
                (subst (λ r. passes_reasons (opcode_at p r) ≡ true) e passing)
                (subst (λ r. i < length (operands_of p r)) e i_inside))
        | inr later ↦ rest k i (ground arith) inside flagged passing i_inside
      ]

  -- What a part of the loop gives.
  record Passes (row : ℕ) (before after : List ℕ) : Type 0 where
    sized : length after ≡ rows_of p
    keeps : (j : ℕ) → Flagged before j → Flagged after j
    passes : PassesFrom row after

  live_operands-Passes :
      (row : ℕ) (flags : List ℕ)
      → row < rows_of p
      → length flags ≡ rows_of p
      → PassesFrom (suc row) flags
      → Passes row flags (live_operands (operands_of p row) flags)
  live_operands-Passes row flags inside sized rest = record {
    sized = live_operands-length (operands_of p row) flags ∙ sized;
    keeps = live_operands-keeps (operands_of p row) flags;
    passes =
        PassesFrom-row row (live_operands (operands_of p row) flags)
          (λ k i from k_inside flagged passing i_inside.
            let same = live_operands-other (operands_of p row) flags k (λ m m_inside.
              let before = ordered.before row m inside m_inside in (before.0, omega arith)) in
            live_operands-keeps (operands_of p row) flags (operand_at p k i - 1)
              (rest k i from k_inside (rw same at flagged) passing i_inside))
          (λ i flagged passing i_inside.
            let before = ordered.before row i inside i_inside in
            live_operands-marks (operands_of p row) flags i i_inside (omega arith));
  }

  live_row-Passes :
      (row : ℕ) (flags : List ℕ)
      → row < rows_of p
      → length flags ≡ rows_of p
      → PassesFrom (suc row) flags
      → Passes row flags (live_row p row flags)
  unfolding live_row
  live_row-Passes row flags inside sized rest = elim (Bool-cases (get_or flags row 0 == 0)) [
    | inl dead ↦ rw dead (record {
      sized = sized;
      keeps = λ j flagged. flagged;
      passes = PassesFrom-row row flags rest (λ i flagged passing i_inside. absurd (ground arith));
    })
    | inr flagged_row ↦ rw flagged_row (elim (Bool-cases (passes_reasons (opcode_at p row))) [
      | inl passing ↦ rw passing (live_operands-Passes row flags inside sized rest)
      | inr other ↦ rw other (record {
        sized = sized;
        keeps = λ j flagged. flagged;
        passes =
            PassesFrom-row row flags rest (λ i flagged passing i_inside. absurd (ground arith));
      })
    ])
  ]

  live_rows-Passes :
      (row : ℕ) (flags : List ℕ)
      → row ≤ rows_of p
      → length flags ≡ rows_of p
      → PassesFrom row flags
      → Passes 0 flags (live_rows p row flags)
  unfolding live_rows
  live_rows-Passes zero flags below sized rest = record {
    sized = sized;
    keeps = λ j flagged. flagged;
    passes = rest;
  }
  live_rows-Passes (suc row) flags below sized rest =
      let one = live_row-Passes row flags (omega arith) sized rest in
      let all = live_rows-Passes row (live_row p row flags) (omega arith) one.sized one.passes in
      record {
        sized = all.sized;
        keeps = λ j flagged. all.keeps j (one.keeps j flagged);
        passes = all.passes;
      }

-- The rows whose reasons are kept: the roots, and the operands of those that pass reasons on.
pub record AreReasonsLive (p : Program) (flags : List ℕ) : Type 0 where
  pub sized : length flags ≡ rows_of p
  pub roots : (j : ℕ) → j < rows_of p → get_or p.root_flags j 0 ≢ 0 → Flagged flags j
  pub operands :
      (k i : ℕ)
      → k < rows_of p
      → Flagged flags k
      → passes_reasons (opcode_at p k) ≡ true
      → i < length (operands_of p k)
      → Flagged flags (operand_at p k i - 1)

pub compute_reason_live-AreReasonsLive :
    (p : Program) → IsOrdered p → AreReasonsLive p (compute_reason_live p)
unfolding compute_reason_live
compute_reason_live-AreReasonsLive p ordered =
    let n = rows_of p in
    let root : ℕ → ℕ = λ row. if get_or p.root_flags row 0 == 0 then 0 else 1 in
    let all =
      live_rows-Passes p ordered n (tabulate n root) (omega arith) (length-tabulate {A = ℕ} n root)
        (λ k i from inside. absurd (omega arith)) in
    record {
      sized = all.sized;
      roots = λ j inside is_root.
          all.keeps j (rw (get_or-tabulate {A = ℕ} n root j 0 inside) (ground arith));
      operands = λ k i. all.passes k i (omega arith);
    }
