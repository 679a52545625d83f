-- ===== src/Prelude/Set.antt =====
-- Go's `map[K]struct{}` as a list of keys, and the slices that the code builds from such sets.
use map_walker.Prelude.Tests.{if◌then◌else◌}
use map_walker.Prelude.Eq.{Eq}
use mathlib.Core.Path.{◌≡◌, refl}
use mathlib.Core.Bool.{Bool, false, not, ◌&&◌, ◌||◌}
use mathlib.Core.List.{List, [], ◌∷◌, ◌++◌}
use native.Mathlib.Omega.{arith}

module _ {ℓ} {K : Type ℓ} ⦃e : Eq K⦄ where
  unfoldable pub contains : K → List K → Bool
  contains k [] = false
  contains k (j ∷ s) = e.beq j k || contains k s

  unfoldable pub add : K → List K → List K
  unfolding contains
  add k s = if contains k s then s else k ∷ s

  unfoldable pub remove : K → List K → List K
  remove k [] = []
  remove k (j ∷ s) = let rest = remove k s in if e.beq j k then rest else j ∷ rest

  pub contains-add : (k j : K) (s : List K) → contains j (add k s) ≡ (e.beq k j || contains j s)
  unfolding add contains
  contains-add k j s = ground (arith, e.beq_iff k j)

  pub contains-remove :
      (k j : K) (s : List K) → contains j (remove k s) ≡ (not (e.beq k j) && contains j s)
  unfolding contains remove
  contains-remove k j [] = ground arith
  contains-remove k j (i ∷ s) =
      ground (arith, e.beq_iff i j, e.beq_iff k j, e.beq_iff i k, contains-remove k j s)

  pub contains-append :
      (k : K) (s t : List K) → contains k (s ++ t) ≡ (contains k s || contains k t)
  unfolding contains
  contains-append k [] t = refl
  contains-append k (j ∷ s) t = ground (arith, contains-append k s t)

-- The elements that pass a test, in order: the code's `append` under an `if`.
module _ {ℓ} {K : Type ℓ} where
  unfoldable pub keep : (K → Bool) → List K → List K
  keep p [] = []
  keep p (j ∷ s) = let rest = keep p s in if p j then j ∷ rest else rest

module _ {ℓ} {K : Type ℓ} ⦃e : Eq K⦄ (p : K → Bool) where
  pub contains-keep : (k : K) (s : List K) → contains k (keep p s) ≡ (p k && contains k s)
  unfolding contains keep
  contains-keep k [] = ground arith
  contains-keep k (j ∷ s) = ground (arith, e.beq_iff j k, contains-keep k s)
