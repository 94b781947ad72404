-- ===== src/Compile/Allocate/Chain.antt =====
-- The lists of rows that `allocateSlots` of internal/compile/liveness.go builds.
use verifoxx.Common.{
  ℕ, suc, ◌≤◌, ◌<◌, ◌≡◌, refl, ◌∙◌, false, ◌&&◌, ◌||◌, inl, inr, Bool-cases, Option, some, List,
  arith, ltb, ◌==◌, length, get_or, set, length-set, length-replicate, get_or-set_self,
  get_or-set_ne, get_or-zeros, Runs, for_rows-Runs,
}
use verifoxx.Compile.Allocate.{Links, skipped, link_row, no_links}

-- The rows of a list are below a bound, from the last one on.
pub data Chain (Good : ℕ → Type 0) (nexts : List ℕ) : ℕ → ℕ → Type 0 where
  stop : (bound : ℕ) → Chain Good nexts bound 0
  link :
      (bound row : ℕ)
      → row < bound
      → Good row
      → Chain Good nexts row (get_or nexts row 0)
      → Chain Good nexts bound (suc row)

module _ (Good : ℕ → Type 0) where
  later-Chain :
      (nexts : List ℕ) (low high id : ℕ)
      → low ≤ high
      → Chain Good nexts low id
      → Chain Good nexts high id
  later-Chain nexts low high _ le (stop _) = Chain.stop high
  later-Chain nexts low high _ le (link _ row below good rest) =
      Chain.link high row (omega arith) good rest

  set-Chain :
      (nexts : List ℕ) (bound row id v : ℕ)
      → bound ≤ row
      → Chain Good nexts bound id
      → Chain Good (set nexts row v) bound id
  set-Chain nexts bound row _ v le (stop _) = Chain.stop bound
  set-Chain nexts bound row _ v le (link _ r below good rest) =
      let e : get_or (set nexts row v) r 0 ≡ get_or nexts r 0 =
        get_or-set_ne nexts row r v 0 (omega arith) in
      Chain.link bound r below good
        (rw e (set-Chain nexts r row (get_or nexts r 0) v (omega arith) rest))

module _ (last_uses : List ℕ) (live : Option (List ℕ)) where
  -- A row that row `u` releases.
  abbrev pub Releases : ℕ → ℕ → Type 0
  Releases u row = (skipped live row ≡ false) × (get_or last_uses row 0 ≡ u) × (row < u)

  -- Last uses lie between their own row and the end.
  abbrev pub IsLastUses : Type 0
  IsLastUses =
      (row : ℕ)
      → row < length last_uses
      → skipped live row ≡ false
      → (row ≤ get_or last_uses row 0) × (get_or last_uses row 0 ≤ length last_uses)

  pub record IsLinks (row : ℕ) (links : Links) : Type 0 where
    pub sized_heads : length links.heads ≡ length last_uses
    pub sized_nexts : length links.nexts ≡ length last_uses
    pub chains : (u : ℕ) → Chain (Releases u) links.nexts row (get_or links.heads u 0)

  module _ (is : IsLastUses) where
    IsLinks-kept : (row : ℕ) (links : Links) → IsLinks row links → IsLinks (suc row) links
    IsLinks-kept row links inv = record {
      sized_heads = inv.sized_heads;
      sized_nexts = inv.sized_nexts;
      chains = λ u.
          later-Chain (Releases u) links.nexts row (suc row) (get_or links.heads u 0) (omega arith)
            (inv.chains u);
    }

    -- Putting a row before the list of its last use.
    IsLinks-put :
        (row u : ℕ) (links : Links)
        → u < length last_uses
        → row < length last_uses
        → Releases u row
        → IsLinks row links
        → IsLinks (suc row) (record {
          heads = set links.heads u (suc row);
          nexts = set links.nexts row (get_or links.heads u 0);
        })
    IsLinks-put row u links u_inside inside releases inv =
        let old : (w : ℕ)
            → Chain (Releases w) (set links.nexts row (get_or links.heads u 0)) row
                (get_or links.heads w 0) =
          λ w.
            set-Chain (Releases w) links.nexts row row (get_or links.heads w 0)
              (get_or links.heads u 0) (omega arith) (inv.chains w) in
        let first : get_or (set links.nexts row (get_or links.heads u 0)) row 0
            ≡ get_or links.heads u 0 =
          get_or-set_self links.nexts row (get_or links.heads u 0) 0
            (omega (arith, inv.sized_nexts)) in
        record {
          sized_heads = length-set links.heads u (suc row) ∙ inv.sized_heads;
          sized_nexts = length-set links.nexts row (get_or links.heads u 0) ∙ inv.sized_nexts;
          chains = λ w. elim (Bool-cases (u == w)) [
            | inl same ↦
                let e : w ≡ u = ground arith in
                rw (e, get_or-set_self links.heads u (suc row) 0 (omega (arith, inv.sized_heads)))
                  (Chain.link (suc row) row (omega arith) releases (rw first (old u)))
            | inr other ↦ rw (get_or-set_ne links.heads u w (suc row) 0 (ground arith)) (
                later-Chain (Releases w) (set links.nexts row (get_or links.heads u 0)) row
                  (suc row) (get_or links.heads w 0) (omega arith) (old w))
          ];
        }

    link_row-IsLinks :
        (row : ℕ) (links : Links)
        → row < length last_uses
        → IsLinks row links
        → (next : Links) × (link_row last_uses live row links ≡ some next) × IsLinks (suc row) next
    unfolding link_row
    link_row-IsLinks row links inside inv = elim (Bool-cases (skipped live row)) [
      | inl dead ↦ (links, rw dead, IsLinks-kept row links inv)
      | inr alive ↦
          let last_use = get_or last_uses row 0 in
          let (lo, hi) = is row inside alive in
          let fine : (ltb last_use row || ltb (length last_uses) last_use) ≡ false = ground arith in
          elim (Bool-cases (ltb row last_use && ltb last_use (length last_uses))) [
            | inl linked ↦ (
              record {
                heads = set links.heads last_use (suc row);
                nexts = set links.nexts row (get_or links.heads last_use 0);
              },
              rw (alive, fine, linked),
              IsLinks-put row last_use links (ground arith) inside (alive, refl, ground arith) inv,
            )
            | inr kept ↦ (links, rw (alive, fine, kept), IsLinks-kept row links inv)
          ]
    ]

    -- All lists are built, with lists of rows that end.
    pub IsLinks-Runs :
        Runs
          (link_row last_uses live)
          (length last_uses)
          0
          (no_links last_uses live)
          (IsLinks (length last_uses))
    IsLinks-Runs =
        for_rows-Runs (link_row last_uses live) (length last_uses) IsLinks link_row-IsLinks
          (length last_uses) 0 (no_links last_uses live) (omega arith)
          (record {
            sized_heads = length-replicate (length last_uses) 0;
            sized_nexts = length-replicate (length last_uses) 0;
            chains = λ u. rw (get_or-zeros {A = ℕ} (length last_uses) u 0) (Chain.stop 0);
          })
