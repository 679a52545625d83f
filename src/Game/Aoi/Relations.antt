-- ===== src/Game/Aoi/Relations.antt =====
-- What the operations on single relationships and on whole lists of them do to `is_visible`.
use map_walker.Prelude.{ℕ, ◌≡◌, refl, Bool, not, ◌&&◌, ◌||◌, List, [], ◌∷◌, ◌==◌, ◌∙◌, arith}
use map_walker.Prelude.Eq.{nat_eq}
use map_walker.Prelude.Float.{Float64}
use map_walker.Prelude.Set.{contains}
use map_walker.Prelude.MultiMap.{link, unlink, linked-link, linked-unlink}
use map_walker.Game.Aoi.{
  AoiIndex, is_visible, add_relationship, remove_relationship, drop_neighbor, drop_left, unlink_all,
}

-- The pair {p, q}, in either order.
abbrev pub is_pair : ℕ → ℕ → ℕ → ℕ → Bool
is_pair p q x y = ((p == x) && (q == y)) || ((q == x) && (p == y))

-- A pair of p and a member of the list, in either order.
abbrev pub is_pair_in : ℕ → List ℕ → ℕ → ℕ → Bool
is_pair_in p ns x y = ((p == x) && contains y ns) || ((p == y) && contains x ns)

abbrev pub IsSymmetric : {F : Type 0} → AoiIndex F → Type 0
IsSymmetric a = (x y : ℕ) → is_visible a x y ≡ is_visible a y x

-- Two indices that differ in `visible` and `stats` alone.
pub record SamePlayers {F : Type 0} (a b : AoiIndex F) : Type 0 where
  pub config : b.config ≡ a.config
  pub players : b.players ≡ a.players
  pub cells : b.cells ≡ a.cells

pub SamePlayers-refl : {F : Type 0} (a : AoiIndex F) → SamePlayers a a
SamePlayers-refl a = record { config = refl; players = refl; cells = refl }

pub SamePlayers-trans :
    {F : Type 0} {a b c : AoiIndex F} → SamePlayers a b → SamePlayers b c → SamePlayers a c
SamePlayers-trans h k = record {
  config = k.config ∙ h.config;
  players = k.players ∙ h.players;
  cells = k.cells ∙ h.cells;
}

module _ {F : Type 0} where
  pub is_visible-add_relationship :
      (a : AoiIndex F) (p q x y : ℕ)
      → is_visible a p q ≡ is_visible a q p
      → is_visible (add_relationship a p q).0 x y ≡ (is_pair p q x y || is_visible a x y)
  unfolding is_visible add_relationship
  is_visible-add_relationship a p q x y h =
      ground (arith, linked-link q p x y (link p q a.visible), linked-link p q x y a.visible)

  pub is_visible-remove_relationship :
      (a : AoiIndex F) (p q x y : ℕ)
      → is_visible a p q ≡ is_visible a q p
      → is_visible (remove_relationship a p q).0 x y ≡ (not (is_pair p q x y) && is_visible a x y)
  unfolding is_visible remove_relationship
  is_visible-remove_relationship a p q x y h =
      ground (arith, linked-unlink q p x y (unlink p q a.visible), linked-unlink p q x y a.visible)

  pub remove_relationship-IsSymmetric :
      (a : AoiIndex F) (p q : ℕ) → IsSymmetric a → IsSymmetric (remove_relationship a p q).0
  remove_relationship-IsSymmetric a p q h x y = ground (
    arith,
    h p q,
    h x y,
    is_visible-remove_relationship a p q x y,
    is_visible-remove_relationship a p q y x,
  )

  remove_relationship-SamePlayers :
      (a : AoiIndex F) (p q : ℕ) → SamePlayers a (remove_relationship a p q).0
  unfolding remove_relationship
  remove_relationship-SamePlayers a p q = ground arith

  pub unlink_all-SamePlayers :
      (p : ℕ) (ns : List ℕ) (a : AoiIndex F) → SamePlayers a (unlink_all p ns a)
  unfolding unlink_all
  unlink_all-SamePlayers p [] a = SamePlayers-refl a
  unlink_all-SamePlayers p (n ∷ ns) a =
      SamePlayers-trans (remove_relationship-SamePlayers a n p) (unlink_all-SamePlayers p ns _)

  pub is_visible-unlink_all :
      (p : ℕ) (ns : List ℕ) (a : AoiIndex F) (x y : ℕ)
      → IsSymmetric a
      → is_visible (unlink_all p ns a) x y ≡ (not (is_pair_in p ns x y) && is_visible a x y)
  unfolding unlink_all contains
  is_visible-unlink_all p [] a x y h = ground arith
  is_visible-unlink_all p (n ∷ ns) a x y h = ground (
    arith,
    is_visible-unlink_all p ns (remove_relationship a n p).0 x y
        (remove_relationship-IsSymmetric a n p h),
    is_visible-remove_relationship a n p x y (h n p),
  )

module _ ⦃fl : Float64⦄ where
  open fl use {F}

  is_visible-drop_neighbor :
      (p n : ℕ) (a : AoiIndex F) (x y : ℕ)
      → is_visible (drop_neighbor p n a) x y ≡ is_visible (remove_relationship a p n).0 x y
  unfolding is_visible drop_neighbor
  is_visible-drop_neighbor p n a x y = ground arith

  drop_neighbor-SamePlayers : (p n : ℕ) (a : AoiIndex F) → SamePlayers a (drop_neighbor p n a)
  unfolding drop_neighbor remove_relationship
  drop_neighbor-SamePlayers p n a = ground arith

  pub drop_left-SamePlayers :
      (p : ℕ) (ns : List ℕ) (a : AoiIndex F) → SamePlayers a (drop_left p ns a)
  unfolding drop_left
  drop_left-SamePlayers p [] a = SamePlayers-refl a
  drop_left-SamePlayers p (n ∷ ns) a =
      SamePlayers-trans (drop_neighbor-SamePlayers p n a) (drop_left-SamePlayers p ns _)

  drop_neighbor-IsSymmetric :
      (p n : ℕ) (a : AoiIndex F) → IsSymmetric a → IsSymmetric (drop_neighbor p n a)
  drop_neighbor-IsSymmetric p n a h x y = ground (
    arith,
    remove_relationship-IsSymmetric a p n h x y,
    is_visible-drop_neighbor p n a x y,
    is_visible-drop_neighbor p n a y x,
  )

  pub is_visible-drop_left :
      (p : ℕ) (ns : List ℕ) (a : AoiIndex F) (x y : ℕ)
      → IsSymmetric a
      → is_visible (drop_left p ns a) x y ≡ (not (is_pair_in p ns x y) && is_visible a x y)
  unfolding drop_left contains
  is_visible-drop_left p [] a x y h = ground arith
  is_visible-drop_left p (n ∷ ns) a x y h = ground (
    arith,
    is_visible-drop_left p ns (drop_neighbor p n a) x y (drop_neighbor-IsSymmetric p n a h),
    is_visible-drop_neighbor p n a x y,
    is_visible-remove_relationship a p n x y (h p n),
  )
