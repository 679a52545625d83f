-- ===== src/Prelude/Sort.antt =====
-- `sort.Slice` as the code uses it. Go leaves open the order of elements that compare equal; the
-- theorems speak of the keys alone, where it makes no difference.
use Prim.Native.Nat.{ℕ}
use map_walker.Prelude.Tests.{ltb, if◌then◌else◌}
use map_walker.Prelude.Eq.{Eq, nat_eq}
use map_walker.Prelude.Set.{contains}
use native.Mathlib.Omega.{arith}
use mathlib.Core.Path.{◌≡◌, refl}
use mathlib.Core.Bool.{Bool, ◌||◌, ◌&&◌}
use mathlib.Core.List.{List, [], ◌∷◌}

module _ {ℓ} {A : Type ℓ} (before : A → A → Bool) where
  unfoldable pub sort_insert : A → List A → List A
  sort_insert x [] = x ∷ []
  sort_insert x (y ∷ ys) = if before y x then y ∷ sort_insert x ys else x ∷ y ∷ ys

  unfoldable pub sort : List A → List A
  sort [] = []
  sort (x ∷ xs) = sort_insert x (sort xs)

-- `setKeys` of world.go: the keys of a set, in ascending order.
unfoldable pub set_keys : List ℕ → List ℕ
set_keys = sort ltb

module _ {ℓ} {A : Type ℓ} ⦃e : Eq A⦄ (before : A → A → Bool) where
  contains-sort_insert :
      (x : A) (ys : List A) (k : A)
      → contains k (sort_insert before x ys) ≡ (e.beq x k || contains k ys)
  unfolding sort_insert contains
  contains-sort_insert x [] k = refl
  contains-sort_insert x (y ∷ ys) k = ground (arith, contains-sort_insert x ys k)

  pub contains-sort : (xs : List A) (k : A) → contains k (sort before xs) ≡ contains k xs
  unfolding sort contains
  contains-sort [] k = refl
  contains-sort (x ∷ xs) k =
      ground (arith, contains-sort_insert x (sort before xs) k, contains-sort xs k)

pub contains-set_keys : (xs : List ℕ) (k : ℕ) → contains k (set_keys xs) ≡ contains k xs
unfolding set_keys
contains-set_keys xs k = contains-sort ltb xs k

-- Filters and sorts by a number that each element has.
module _ {ℓ} {A : Type ℓ} where
  unfoldable pub retain : (A → Bool) → List A → List A
  retain p [] = []
  retain p (x ∷ xs) = let rest = retain p xs in if p x then x ∷ rest else rest

  unfoldable pub keys_by : (A → ℕ) → List A → List ℕ
  keys_by key [] = []
  keys_by key (x ∷ xs) = key x ∷ keys_by key xs

  abbrev pub sort_by : (A → ℕ) → List A → List A
  sort_by key xs = sort (λ x y. ltb (key x) (key y)) xs

  contains-keys_by-insert :
      (key : A → ℕ) (k : ℕ) (x : A) (ys : List A)
      → contains k (keys_by key (sort_insert (λ x y. ltb (key x) (key y)) x ys))
        ≡ (nat_eq.beq (key x) k || contains k (keys_by key ys))
  unfolding keys_by sort_insert contains
  contains-keys_by-insert key k x [] = refl
  contains-keys_by-insert key k x (y ∷ ys) = ground (arith, contains-keys_by-insert key k x ys)

  pub contains-keys_by-sort :
      (key : A → ℕ) (k : ℕ) (xs : List A)
      → contains k (keys_by key (sort_by key xs)) ≡ contains k (keys_by key xs)
  unfolding keys_by sort contains
  contains-keys_by-sort key k [] = refl
  contains-keys_by-sort key k (x ∷ xs) = ground (
    arith,
    contains-keys_by-insert key k x (sort (λ x y. ltb (key x) (key y)) xs),
    contains-keys_by-sort key k xs,
  )

  pub contains-keys_by-retain :
      (key : A → ℕ) (q : ℕ → Bool) (k : ℕ) (xs : List A)
      → contains k (keys_by key (retain (λ x. q (key x)) xs)) ≡ (q k && contains k (keys_by key xs))
  unfolding keys_by retain contains
  contains-keys_by-retain key q k [] = ground arith
  contains-keys_by-retain key q k (x ∷ xs) =
      ground (arith, contains-keys_by-retain key q k xs, nat_eq.beq_iff (key x) k)
