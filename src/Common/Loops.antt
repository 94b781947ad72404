-- ===== src/Common/Loops.antt =====
-- `for row := range n { body(row) }` on a state, where a body may fail.
use Prim.Native.Nat.{ℕ, zero, suc, ◌+◌, ◌<◌}
use mathlib.Core.Path.{◌≡◌, refl, subst}
use mathlib.Core.Bool.{Bool, true, ◌&&◌}
use mathlib.Core.List.{List, [], ◌∷◌}
use mathlib.Core.Option.{Option, some}
use native.Mathlib.Omega.{arith}
use verifoxx.Common.Tests.{◌>>=◌}
use verifoxx.Common.Lists.{length, get_or}

-- A test of each row that stops at the first one that fails.
abbrev pub all_rows : ℕ → (ℕ → Bool) → Bool
all_rows zero test = true
all_rows (suc n) test = test zero && all_rows n (λ row. test (suc row))

pub all_rows-row :
    (n : ℕ) (test : ℕ → Bool) (row : ℕ) → all_rows n test ≡ true → row < n → test row ≡ true
all_rows-row zero test row h inside = elim inside [ ]
all_rows-row (suc n) test zero h inside = ground arith
all_rows-row (suc n) test (suc row) h inside =
    all_rows-row n (λ i. test (suc i)) row (ground arith) (omega arith)

-- A test of each element that stops at the first one that fails.
abbrev pub all_of {ℓ} : {A : Type ℓ} → (A → Bool) → List A → Bool
all_of test [] = true
all_of test (x ∷ xs) = test x && all_of test xs

pub all_of-get_or {ℓ} :
    {A : Type ℓ} (test : A → Bool) (xs : List A) (i : ℕ) (d : A)
    → all_of test xs ≡ true
    → i < length xs
    → test (get_or xs i d) ≡ true
all_of-get_or test [] i d h inside = elim inside [ ]
all_of-get_or test (x ∷ xs) zero d h inside = ground arith
all_of-get_or test (x ∷ xs) (suc i) d h inside =
    all_of-get_or test xs i d (ground arith) (omega arith)

module _ {ℓ} {S : Type ℓ} (body : ℕ → S → Option S) where
  -- The rounds that are left, from a row on.
  abbrev pub for_rows : ℕ → ℕ → S → Option S
  for_rows zero row s = some s
  for_rows (suc rounds) row s = body row s >>= λ next. for_rows rounds (suc row) next

  -- What a loop that does not fail gives.
  pub record Runs (rounds row : ℕ) (s : S) (After : S → Type 0) : Type ℓ where
    pub out : S
    pub returns : for_rows rounds row s ≡ some out
    pub after : After out

  -- A body that keeps an invariant and does not fail.
  pub for_rows-Runs :
      (n : ℕ) (Invariant : ℕ → S → Type 0)
      → ((row : ℕ) (s : S)
          → row < n
          → Invariant row s
          → (next : S) × (body row s ≡ some next) × Invariant (suc row) next)
      → (rounds row : ℕ) (s : S) → row + rounds ≡ n
      → Invariant row s
      → Runs rounds row s (Invariant n)
  for_rows-Runs n Invariant step zero row s ends inv =
      let e : row ≡ n = omega arith in
      record { out = s; returns = refl; after = subst (λ k. Invariant k s) e inv }
  for_rows-Runs n Invariant step (suc rounds) row s ends inv =
      let (next, went, kept) = step row s (omega arith) inv in
      let rest = for_rows-Runs n Invariant step rounds (suc row) next (omega arith) kept in
      record { out = rest.out; returns = rw went rest.returns; after = rest.after }
