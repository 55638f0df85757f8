-- ===== src/Base/Sets.antt =====
-- A Go map of sets, `map[K]map[L]struct{}`: which keys exist, and what their sets hold.
use mathlib.Core.Path.{◌≡◌}
use mathlib.Core.Bool.{Bool, true, false, ◌&&◌}
use mathlib.Core.Option.{none, some}
use mathlib.Core.List.{List, [], ◌∷◌}
use native.Mathlib.Omega.{arith}
use wgipam.Base.Tests.{Eq, ◌==◌, if◌then◌else◌}
use wgipam.Base.Map.{Map, lookup, insert, member, discard, lookup-insert, member-discard}

module _ {ℓ κ} {K : Type ℓ} {V : Type κ} ⦃e : Eq K⦄ where
  -- `_, ok := m[k]`
  abbrev pub has : K → Map K V → Bool
  has k m = elim (lookup k m) [ none ↦ false | some _ ↦ true ]

  -- Overwriting the value of a key that exists adds no key.
  pub has-insert :
      (k j : K) (v w : V) (m : Map K V) → lookup k m ≡ some v → has j (insert k w m) ≡ has j m
  has-insert k j v w m h = ground (arith, lookup-insert k j w m, e.beq_iff k j)

  pub has-insert_new :
      (k j : K) (w : V) (m : Map K V) → has j (insert k w m) ≡ (if k == j then true else has j m)
  has-insert_new k j w m = ground (arith, lookup-insert k j w m)

module _ {ℓ κ} {K : Type ℓ} {L : Type κ} ⦃e : Eq K⦄ ⦃f : Eq L⦄ where
  -- `_, ok := m[k][c]`
  abbrev pub holds : K → L → Map K (List L) → Bool
  holds k c m = elim (lookup k m) [ none ↦ false | some s ↦ member c s ]

  -- A key whose set is empty, or that is new, is given an empty set.
  pub holds-insert_new :
      (k : K) (m : Map K (List L)) (j : K) (c : L)
      → holds k c m ≡ false
      → holds j c (insert k [] m) ≡ holds j c m
  holds-insert_new k m j c h = ground (arith, h, lookup-insert k j [] m, e.beq_iff k j)

  module _ (k : K) (s : List L) (m : Map K (List L)) (h : lookup k m ≡ some s) where
    pub holds-add :
        (c : L) (j : K) (d : L)
        → holds j d (insert k (c ∷ s) m) ≡ (if k == j && c == d then true else holds j d m)
    holds-add c j d = ground (arith, lookup-insert k j (c ∷ s) m, e.beq_iff k j)

    pub holds-discard :
        (c : L) (j : K) (d : L)
        → holds j d (insert k (discard c s) m) ≡ (if k == j && c == d then false else holds j d m)
    holds-discard c j d =
        ground (arith, lookup-insert k j (discard c s) m, e.beq_iff k j, member-discard c d s)
