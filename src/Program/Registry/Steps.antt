-- ===== src/Program/Registry/Steps.antt =====
-- The registry of internal/program/registry.go under any interleaving of its callers. A step is what a
-- caller does between taking and releasing a lock, or one atomic store.
use verifoxx.Common.{
  ◌⊎◌, ℕ, ◌<◌, ◌≡◌, refl, sym, ap, ◌∙◌, false, Option, none, some, List, [], ◌∷◌, ◌==◌, length,
  arith, inl, inr, Bool-cases, Option-cases, some_inj,
}
use verifoxx.Program.Registry.{
  Compiled, Registry, ok, empty, lookup, publish, activate, in_flight, remove, compiles,
  enter_flight, begin_load, start_flight, publish_compiled, finish_load, max_int,
}

-- One atomic step of one caller. The lookup before a flight starts may be older than the flight, so
-- that the hash may be published by then.
pub data Step (r : Registry) : Registry → Type 0 where
  publishes : (candidate : Compiled) → Step r (publish r candidate).1
  activates : (hash : ℕ) → Step r (activate r hash).1
  starts : (hash : ℕ) (s : Registry) → enter_flight r hash ≡ compiles s → Step r s
  compiled : (hash : ℕ) (c : Option Compiled) → Step r (publish_compiled r hash c).1
  ends : (hash : ℕ) → Step r (finish_load r hash)

pub data Steps : Registry → Registry → Type 0 where
  done : (r : Registry) → Steps r r
  more : (r s t : Registry) → Step r s → Steps s t → Steps r t

-- No hash stands twice.
abbrev pub Distinct : List ℕ → Type 0
Distinct [] = Unit
Distinct (x ∷ xs) = (in_flight xs x ≡ false) × Distinct xs

pub record IsRegistry (r : Registry) : Type 0 where
  pub keys :
      (hash : ℕ) (c : Compiled) → lookup r hash ≡ some c → (c.content_hash ≡ hash) × (0 < hash)
  pub active_published : (c : Compiled) → r.active ≡ some c → lookup r c.content_hash ≡ some c
  pub one_flight : Distinct r.flights

abbrev added : Registry → Compiled → Registry
added r c = record r { programs = (c.content_hash, c) ∷ r.programs }

-- Publishing changes nothing, or adds a program under a hash that had none.
publish-cases :
    (r : Registry) (c : Compiled)
    → ((publish r c).1 ≡ r)
      ⊎ ((0 < c.content_hash) × (lookup r c.content_hash ≡ none) × ((publish r c).1 ≡ added r c))
unfolding publish
publish-cases r c = elim (Bool-cases (c.content_hash == 0)) [
  | inl zero_hash ↦ inl (rw zero_hash)
  | inr valid ↦ elim (Option-cases (lookup r c.content_hash)) [
    | inr (old, found) ↦ inl (rw (valid, found))
    | inl absent ↦ elim (Bool-cases (length r.programs == max_int)) [
      | inl full ↦ inl (rw (valid, absent, full))
      | inr room ↦ inr (ground arith, absent, rw (valid, absent, room))
    ]
  ]
]

-- Publishing keeps what was published.
pub publish-keeps :
    (r : Registry) (candidate : Compiled) (hash : ℕ) (c : Compiled)
    → lookup r hash ≡ some c
    → lookup (publish r candidate).1 hash ≡ some c
publish-keeps r candidate hash c h = elim (publish-cases r candidate) [
  | inl same ↦ rw same h
  | inr (pos, absent, e) ↦ rw e (elim (Bool-cases (candidate.content_hash == hash)) [
    | inl here ↦
        let k : candidate.content_hash ≡ hash = ground arith in
        cc (sym absent ∙ ap (lookup r) k ∙ h)
    | inr other ↦ rw other h
  ])
]

publish-IsRegistry : (r : Registry) (c : Compiled) → IsRegistry r → IsRegistry (publish r c).1
publish-IsRegistry r c v = elim (publish-cases r c) [
  | inl same ↦ rw same v
  | inr (pos, absent, e) ↦ rw e (record {
    keys = λ hash d h. elim (Bool-cases (c.content_hash == hash)) [
      | inl here ↦ ground arith
      | inr other ↦ v.keys hash d (rw other at h)
    ];
    active_published = λ d h. elim (Bool-cases (c.content_hash == d.content_hash)) [
      | inl here ↦ ground (arith, v.active_published d h)
      | inr other ↦ rw other (v.active_published d h)
    ];
    one_flight = v.one_flight;
  })
]

remove-in_flight :
    (xs : List ℕ) (x y : ℕ) → in_flight xs y ≡ false → in_flight (remove xs x) y ≡ false
remove-in_flight [] x y h = refl
remove-in_flight (z ∷ xs) x y h = ground (arith, remove-in_flight xs x y)

remove-Distinct : (xs : List ℕ) (x : ℕ) → Distinct xs → Distinct (remove xs x)
remove-Distinct [] x h = tt
remove-Distinct (z ∷ xs) x h = elim (Bool-cases (z == x)) [
  | inl same ↦ rw same (remove-Distinct xs x h.1)
  | inr other ↦ rw other (remove-in_flight xs x z h.0, remove-Distinct xs x h.1)
]

-- What a step does: it publishes, makes a published program active, or changes the flights.
activate-IsRegistry : (r : Registry) (hash : ℕ) → IsRegistry r → IsRegistry (activate r hash).1
unfolding activate
activate-IsRegistry r hash v = elim (Bool-cases (hash == 0)) [
  | inl zero_hash ↦ rw zero_hash v
  | inr valid ↦ rw valid (elim (Option-cases (lookup r hash)) [
    | inl absent ↦ rw absent v
    | inr (c, found) ↦ rw found (record {
      keys = v.keys;
      active_published = λ d e.
          let same : c ≡ d = some_inj e in
          let key = v.keys hash c found in
          ap (λ x. lookup r x.content_hash) (sym same) ∙ ap (lookup r) key.0 ∙ found ∙ ap some same;
      one_flight = v.one_flight;
    })
  ])
]

-- A flight starts only for a hash that is not in flight.
enter_flight-start :
    (r s : Registry) (hash : ℕ)
    → enter_flight r hash ≡ compiles s
    → (in_flight r.flights hash ≡ false) × (start_flight r hash ≡ s)
unfolding enter_flight
enter_flight-start r s hash h = ground arith

-- What `begin_load` does when it starts a compilation is a step.
begin_load-Step : (r s : Registry) (hash : ℕ) → begin_load r hash ≡ compiles s → Step r s
unfolding begin_load enter_flight
begin_load-Step r s hash h = starts hash s (unfold enter_flight in ground arith)

Step-IsRegistry : (r s : Registry) → Step r s → IsRegistry r → IsRegistry s
unfolding publish_compiled finish_load
Step-IsRegistry r _ (publishes candidate) v = publish-IsRegistry r candidate v
Step-IsRegistry r _ (activates hash) v = activate-IsRegistry r hash v
Step-IsRegistry r s (starts hash _ h) v =
    let (absent, same) = enter_flight-start r s hash h in
    rw (← same) (record {
      keys = v.keys;
      active_published = v.active_published;
      one_flight = (absent, v.one_flight);
    })
Step-IsRegistry r _ (compiled hash none) v = v
Step-IsRegistry r _ (compiled hash (some c)) v = elim (Bool-cases (c.content_hash == hash)) [
  | inl same ↦ rw same (publish-IsRegistry r c v)
  | inr other ↦ rw other v
]
Step-IsRegistry r _ (ends hash) v = record {
  keys = v.keys;
  active_published = v.active_published;
  one_flight = remove-Distinct r.flights hash v.one_flight;
}

Step-keeps :
    (r s : Registry) (hash : ℕ) (c : Compiled)
    → Step r s
    → lookup r hash ≡ some c
    → lookup s hash ≡ some c
unfolding publish_compiled finish_load activate
Step-keeps r _ hash c (publishes candidate) h = publish-keeps r candidate hash c h
Step-keeps r _ hash c (activates other) h = ground arith
Step-keeps r s hash c (starts other _ e) h = rw (← (enter_flight-start r s other e).1) h
Step-keeps r _ hash c (compiled other none) h = h
Step-keeps r _ hash c (compiled other (some d)) h = elim (Bool-cases (d.content_hash == other)) [
  | inl same ↦ rw same (publish-keeps r d hash c h)
  | inr apart ↦ rw apart h
]
Step-keeps r _ hash c (ends other) h = h

-- In every registry that is reached from the empty one, a program stands under its own hash, which
-- is not the zero hash, the active program is published, and no hash is in flight twice.
pub Steps-IsRegistry : (r : Registry) → Steps empty r → IsRegistry r
Steps-IsRegistry r steps = from empty r steps empty-IsRegistry
  where
    empty-IsRegistry : IsRegistry empty
    empty-IsRegistry = record {
      keys = λ hash c h. cc;
      active_published = λ c h. cc;
      one_flight = tt;
    }

    from : (r s : Registry) → Steps r s → IsRegistry r → IsRegistry s
    from _ _ (done r) v = v
    from r t (more _ s _ step steps) v = from s t steps (Step-IsRegistry r s step v)

-- A published program stays published under its hash, whatever steps follow.
pub Steps-keeps :
    (r s : Registry) (hash : ℕ) (c : Compiled)
    → Steps r s
    → lookup r hash ≡ some c
    → lookup s hash ≡ some c
Steps-keeps _ _ hash c (done r) h = h
Steps-keeps r t hash c (more _ s _ step steps) h =
    Steps-keeps s t hash c steps (Step-keeps r s hash c step h)

publish-existing :
    (s : Registry) (c old : Compiled)
    → lookup s c.content_hash ≡ some old
    → 0 < c.content_hash
    → publish s c ≡ (ok old, s)
unfolding publish
publish-existing s c old h pos = ground arith

publish-new :
    (r : Registry) (c : Compiled)
    → lookup r c.content_hash ≡ none
    → 0 < c.content_hash
    → length r.programs < max_int
    → publish r c ≡ (ok c, added r c)
unfolding publish
publish-new r c absent pos room = ground arith

added-lookup : (r : Registry) (c : Compiled) → lookup (added r c) c.content_hash ≡ some c
added-lookup r c = ground arith

-- The first program published for a hash is canonical: publishing it succeeds, and every later
-- publication for the same hash returns it and changes nothing, whatever steps lie between.
pub publish-canonical :
    (r s : Registry) (first later : Compiled)
    → 0 < first.content_hash
    → length r.programs < max_int
    → lookup r first.content_hash ≡ none
    → Steps (publish r first).1 s
    → later.content_hash ≡ first.content_hash
    → ((publish r first).0 ≡ ok first) × (publish s later ≡ (ok first, s))
publish-canonical r s first later pos room absent steps same =
    let new = publish-new r first absent pos room in
    let installed : lookup (publish r first).1 first.content_hash ≡ some first =
      rw new (added-lookup r first) in
    (
      ap (λ x. x.0) new,
      publish-existing s later first
          (ap (lookup s) same
            ∙ Steps-keeps (publish r first).1 s first.content_hash first steps installed)
          (rw same pos),
    )
