-- ===== src/Prelude/MultiMap.antt =====
-- Go's `map[K]map[V]struct{}`, as the AOI index and the collectible grid use it: an absent set
-- reads as the empty one, an insertion makes the set, and a set that becomes empty is dropped.
use map_walker.Prelude.Tests.{if◌then◌else◌}
use map_walker.Prelude.Eq.{Eq}
use map_walker.Prelude.Map
use map_walker.Prelude.Map.{lookup-insert, lookup-delete}
use map_walker.Prelude.Set
use map_walker.Prelude.Set.{contains-add, contains-remove}
use mathlib.Core.Path.{◌≡◌, refl}
use mathlib.Core.Bool.{Bool, true, false, not, ◌&&◌, ◌||◌}
use mathlib.Core.Option.{none, some}
use mathlib.Core.List.{List, [], ◌∷◌}
use native.Mathlib.Omega.{arith}

abbrev pub is_empty {ℓ} : {A : Type ℓ} → List A → Bool
is_empty [] = true
is_empty (x ∷ s) = false

module _ {ℓ κ} {K : Type ℓ} {V : Type κ} ⦃e : Eq K⦄ where
  -- `m[k]` as a set
  unfoldable pub members : K → List (K × List V) → List V
  members k m = elim (Map.lookup k m) [ none ↦ [] | some s ↦ s ]

module _ {ℓ} {V : Type ℓ} ⦃d : Eq V⦄ where
  empty_contains : (w : V) (s : List V) → is_empty s ≡ true → Set.contains w s ≡ false
  unfolding Set.contains
  empty_contains w [] h = refl
  empty_contains w (x ∷ s) h = ground arith

module _ {ℓ κ} {K : Type ℓ} {V : Type κ} ⦃e : Eq K⦄ ⦃d : Eq V⦄ where
  -- `m[k][v] = struct{}{}`, after `m[k]` is made where it is nil
  unfoldable pub link : K → V → List (K × List V) → List (K × List V)
  unfolding members
  link k v m = Map.insert k (Set.add v (members k m)) m

  -- `delete(m[k], v)`, and `delete(m, k)` if the set is empty now
  unfoldable pub unlink : K → V → List (K × List V) → List (K × List V)
  unlink k v m = elim (Map.lookup k m) [
    | none ↦ m
    | some s ↦
        let rest = Set.remove v s in if is_empty rest then Map.delete k m else Map.insert k rest m
  ]

  -- `_, ok := m[k][v]`
  unfoldable pub linked : K → V → List (K × List V) → Bool
  unfolding members
  linked k v m = Set.contains v (members k m)

  pub linked-link :
      (k : K) (v : V) (j : K) (w : V) (m : List (K × List V))
      → linked j w (link k v m) ≡ ((e.beq k j && d.beq v w) || linked j w m)
  unfolding linked link members
  linked-link k v j w m = ground (
    arith,
    lookup-insert k j (Set.add v (members k m)) m,
    contains-add v w (members k m),
    e.beq_iff k j,
  )

  pub linked-unlink :
      (k : K) (v : V) (j : K) (w : V) (m : List (K × List V))
      → linked j w (unlink k v m) ≡ (not (e.beq k j && d.beq v w) && linked j w m)
  unfolding linked unlink members Set.contains
  linked-unlink k v j w m = ground (
    arith,
    lookup-delete k j m,
    lookup-insert k j (Set.remove v (members k m)) m,
    contains-remove v w (members k m),
    empty_contains w (Set.remove v (members k m)),
    e.beq_iff k j,
  )

  -- `delete(m, k)` drops the whole set of k.
  pub linked-delete :
      (k j : K) (w : V) (m : List (K × List V))
      → linked j w (Map.delete k m) ≡ (not (e.beq k j) && linked j w m)
  unfolding linked members Set.contains
  linked-delete k j w m = ground (arith, lookup-delete k j m)
