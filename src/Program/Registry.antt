-- ===== src/Program/Registry.antt =====
-- internal/program/registry.go: published programs by content hash, the active one, and the hashes
-- that are being compiled.
-- A snapshot is never changed, so the map of the last snapshot is the state; without a snapshot it
-- is empty. A hash is a number, and 0 the zero hash. A nil registry, candidate or compile function
-- is left out.
pub mod Steps
use verifoxx.Common.{
  ℕ, ◌+◌, ◌-◌, ◌^◌, Bool, true, false, ◌&&◌, ◌||◌, not, Option, none, some, List, [], ◌∷◌, ◌==◌,
  if◌then◌else◌, length,
}

-- A pointer to a frozen program, with the hash that it holds.
pub record Compiled : Type 0 where
  pub address : ℕ
  pub content_hash : ℕ

pub record Registry : Type 0 where
  pub programs : List (ℕ × Compiled)
  pub active : Option Compiled
  pub flights : List ℕ

abbrev pub empty : Registry
empty = record { programs = []; active = none; flights = [] }

pub data Error : Type 0 where
  invalid_registry policy_not_found : Error

-- What a call returns.
pub data Result : Type 0 where
  ok : Compiled → Result
  err : Error → Result

abbrev pub find : List (ℕ × Compiled) → ℕ → Option Compiled
find [] hash = none
find ((key, compiled) ∷ rest) hash = if key == hash then some compiled else find rest hash

-- `Lookup`
abbrev pub lookup : Registry → ℕ → Option Compiled
lookup r hash = find r.programs hash

-- `int(^uint(0)>>1)`
abbrev pub max_int : ℕ
max_int = 2 ^ 63 - 1

-- `Publish`
unfoldable pub publish : Registry → Compiled → Result × Registry
publish r candidate =
    let hash = candidate.content_hash in
    if hash == 0 then (err invalid_registry, r) else elim (lookup r hash) [
      | some existing ↦ (ok existing, r)
      | none ↦
          if length r.programs == max_int
          then (err invalid_registry, r)
          else (ok candidate, record r { programs = (hash, candidate) ∷ r.programs })
    ]

-- `Activate`; the error, if any. A program that was found stays published, so that the lookup and
-- the store may count as one step.
unfoldable pub activate : Registry → ℕ → Option Error × Registry
activate r hash = if hash == 0 then (some policy_not_found, r) else elim (lookup r hash) [
  | none ↦ (some policy_not_found, r)
  | some compiled ↦ (none, record r { active = some compiled })
]

abbrev pub in_flight : List ℕ → ℕ → Bool
in_flight [] hash = false
in_flight (flight ∷ flights) hash = flight == hash || in_flight flights hash

abbrev pub remove : List ℕ → ℕ → List ℕ
remove [] hash = []
remove (flight ∷ flights) hash =
    if flight == hash then remove flights hash else flight ∷ remove flights hash

-- How `LoadOrCompile` goes on behind its lookups.
pub data Load : Type 0 where
  returns : Result → Load
  waits : Load
  compiles : Registry → Load

-- `registry.flights[hash] = current`
abbrev pub start_flight : Registry → ℕ → Registry
start_flight r hash = record r { flights = hash ∷ r.flights }

-- `LoadOrCompile` under the lock of the flights: it waits for a flight, or starts one.
unfoldable pub enter_flight : Registry → ℕ → Load
enter_flight r hash = if in_flight r.flights hash then waits else compiles (start_flight r hash)

-- `LoadOrCompile` up to the call of the compile function.
unfoldable pub begin_load : Registry → ℕ → Load
unfolding enter_flight
begin_load r hash =
    if hash == 0
    then returns (err invalid_registry)
    else elim (lookup r hash) [ some compiled ↦ returns (ok compiled) | none ↦ enter_flight r hash ]

-- What the compile function returned, checked and published; `none` is its error.
unfoldable pub publish_compiled : Registry → ℕ → Option Compiled → Option Result × Registry
publish_compiled r hash none = (none, r)
publish_compiled r hash (some compiled) =
    if compiled.content_hash == hash
    then (let (result, r') = publish r compiled in (some result, r'))
    else (some (err invalid_registry), r)

-- The end of `LoadOrCompile`, which removes the flight.
unfoldable pub finish_load : Registry → ℕ → Registry
finish_load r hash = record r { flights = remove r.flights hash }
