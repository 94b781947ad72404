-- ===== src/Result/Resolution/Invariant.antt =====
-- The scan over the nine rows of a rule set in internal/result/resolution.go.
use verifoxx.Common.{
  ℕ, zero, suc, ◌+◌, ◌^◌, ◌≤◌, ◌<◌, ◌≡◌, ◌≢◌, refl, ◌∙◌, bit_and, true, false, some, arith, ◌==◌,
  if◌then◌else◌, length, get_or, get_elem?-eq-get_or, ◌⊎◌, inl, inr, Bool-cases,
}
use verifoxx.Words.{bit, test_bit}
use verifoxx.Result.Outcome.Order.{best, outranks, IsRow, IsRowOrZero, prefer_known_lem}
use verifoxx.Result.Resolution.{Resolver, Scan, scan_step, scan}
use verifoxx.Result.Resolution.Valid.{IsResolver}

module _ (r : Resolver) (base reasons : ℕ) where
  abbrev outcome_at : ℕ → ℕ
  outcome_at off = get_or r.rules.outcome_ids (base + off) 0

  -- The scan has passed `off` offsets, and `win` is the first of the best among them.
  pub record Found (off : ℕ) (s : Scan) : Type 0 where
    pub win : ℕ
    pub passed : win < off
    pub in_mask : bit reasons win ≡ true
    pub current : s.current ≡ outcome_at win
    pub reason : s.reason ≡ win + 1
    pub win_row : s.win_row ≡ base + win
    pub known : IsRow r.outcomes s.current
    pub dominates :
        (o : ℕ)
        → o < off
        → bit reasons o ≡ true
        → outranks r.outcomes (outcome_at o) s.current ≡ false
    pub first : (o : ℕ) → o < win → bit reasons o ≡ true → outcome_at o ≢ s.current

  -- The scan has met no reason of the mask yet.
  pub record Nothing (off : ℕ) (s : Scan) : Type 0 where
    pub absent : s.current ≡ 0
    pub none_below : (o : ℕ) → o < off → bit reasons o ≡ false

  abbrev Inv : ℕ → Scan → Type 0
  Inv off s = Nothing off s ⊎ Found off s

  skip-Inv : (off : ℕ) (s : Scan) → bit reasons off ≡ false → Inv off s → Inv (off + 1) s
  skip-Inv off s clear (inl n) = inl (record {
    absent = n.absent;
    none_below = λ o lt. elim (Bool-cases (o == off)) [
      | inl same ↦ let e : o ≡ off = ground arith in rw e clear
      | inr other ↦ n.none_below o (ground arith)
    ];
  })
  skip-Inv off s clear (inr f) = inr (record {
    win = f.win;
    passed = omega (arith, f.passed);
    in_mask = f.in_mask;
    current = f.current;
    reason = f.reason;
    win_row = f.win_row;
    known = f.known;
    dominates = λ o lt b. elim (Bool-cases (o == off)) [
      | inl same ↦ let e : o ≡ off = ground arith in cc (rw e at b)
      | inr other ↦ f.dominates o (ground arith) b
    ];
    first = f.first;
  })

  -- The offset does not change the winner.
  keep-Inv :
      (off : ℕ) (s : Scan)
      → IsRow r.outcomes (outcome_at off)
      → best r.outcomes s.current (outcome_at off) ≡ s.current
      → Inv off s
      → Inv (off + 1) s
  keep-Inv off s row same (inl n) = absurd (ground (arith, n.absent))
  keep-Inv off s row same (inr f) = inr (record {
    win = f.win;
    passed = omega (arith, f.passed);
    in_mask = f.in_mask;
    current = f.current;
    reason = f.reason;
    win_row = f.win_row;
    known = f.known;
    dominates = λ o lt b. elim (Bool-cases (o == off)) [
      | inl here ↦ let e : o ≡ off = ground arith in rw e (ground (arith, f.known))
      | inr other ↦ f.dominates o (ground arith) b
    ];
    first = f.first;
  })

  abbrev chosen : ℕ → Scan
  chosen off = record { current = outcome_at off; reason = off + 1; win_row = base + off }

  -- The offset is the new winner.
  choose-Inv :
      (off : ℕ) (s : Scan)
      → bit reasons off ≡ true
      → IsRow r.outcomes (outcome_at off)
      → best r.outcomes s.current (outcome_at off) ≢ s.current
      → Inv off s
      → Inv (off + 1) (chosen off)
  choose-Inv off s here row change i = inr (record {
    win = off;
    passed = omega arith;
    in_mask = here;
    current = refl;
    reason = refl;
    win_row = refl;
    known = row;
    dominates = λ o lt b. elim (Bool-cases (o == off)) [
      | inl same ↦ let e : o ≡ off = ground arith in rw e (ground arith)
      | inr other ↦ elim i [
        | inl n ↦ absurd (ground (arith, n.none_below o))
        | inr f ↦ ground (arith, f.dominates o (ground arith) b, f.known)
      ]
    ];
    first = λ o lt b same. elim i [
      | inl n ↦ ground (arith, n.none_below o)
      | inr f ↦ ground (arith, f.dominates o lt b, f.known)
    ];
  })

  scan_step-Inv :
      (off : ℕ) (s : Scan)
      → base + off < length r.rules.outcome_ids
      → IsRow r.outcomes (outcome_at off)
      → Inv off s
      → (s' : Scan) × (scan_step r base reasons off s ≡ some s') × Inv (off + 1) s'
  scan_step-Inv off s fits row i = elim (Bool-cases (bit reasons off)) [
    | inl here ↦ elim (Bool-cases (best r.outcomes s.current (outcome_at off) == s.current)) [
      | inl same ↦ (s, stays same, keep-Inv off s row (ground arith) i)
      | inr change ↦ (chosen off, changes here change, choose-Inv off s here row (ground arith) i)
    ]
    | inr clear ↦ (s, skips clear, skip-Inv off s clear i)
  ]
    where
      known : IsRowOrZero r.outcomes s.current
      known = elim i [ inl n ↦ inl n.absent | inr f ↦ inr f.known ]

      runs : scan_step r base reasons off s ≡ (
          if bit_and reasons (2 ^ off) == 0
          then some s
          else some
              (if best r.outcomes s.current (outcome_at off) == s.current then s else chosen off))
      runs =
          unfold scan_step in
          rw
            (
              get_elem?-eq-get_or r.rules.outcome_ids (base + off) 0 fits,
              prefer_known_lem r.outcomes s.current (outcome_at off) known (inr row),
            )
            (ground arith)

      stays :
          (best r.outcomes s.current (outcome_at off) == s.current) ≡ true
          → scan_step r base reasons off s ≡ some s
      stays same = runs ∙ ground arith

      changes :
          bit reasons off ≡ true
          → (best r.outcomes s.current (outcome_at off) == s.current) ≡ false
          → scan_step r base reasons off s ≡ some (chosen off)
      changes here change = runs ∙ ground (arith, test_bit reasons off)

      skips : bit reasons off ≡ false → scan_step r base reasons off s ≡ some s
      skips clear = runs ∙ ground (arith, test_bit reasons off)

  pub scan-Inv :
      (left off : ℕ) (s : Scan)
      → base + off + left ≤ length r.rules.outcome_ids
      → IsResolver r
      → Inv off s
      → (s' : Scan) × (scan r base reasons left off s ≡ some s') × Inv (off + left) s'
  unfolding scan
  scan-Inv zero off s fits v i = let e : off ≡ off + 0 = omega arith in (s, refl, rw (← e) i)
  scan-Inv (suc left) off s fits v i =
      let (s₁, ran, i₁) =
        scan_step-Inv off s (omega arith) (v.outcomes_known (base + off) (omega arith)) i in
      let (s₂, rest, i₂) = scan-Inv left (off + 1) s₁ (omega arith) v i₁ in
      let e : off + 1 + left ≡ off + suc left = omega arith in (s₂, rw ran rest, rw e at i₂)
