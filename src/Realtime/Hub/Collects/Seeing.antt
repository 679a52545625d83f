-- ===== src/Realtime/Hub/Collects/Seeing.antt =====
-- hub.go, recalcCollectibleVisibility: what a player is told of the items around.
use map_walker.Prelude.{
  ℕ, ◌≡◌, refl, ◌∙◌, ap, true, false, not, ◌&&◌, ◌||◌, List, [], ◌∷◌, ◌++◌, arith, Bool-cases, inl,
  inr, or_else, append-nil, sym, ◌==◌, some, Succeeds, Succeeds-bind,
}
use map_walker.Prelude.Eq.{nat_eq}
use map_walker.Prelude.Float.{Float64}
use map_walker.Prelude.Map
use map_walker.Prelude.Map.{lookup-insert}
use map_walker.Prelude.Set.{contains, contains-keep, contains-append}
use map_walker.Prelude.Sort.{keys_by}
use map_walker.Game.World.{PlayerPosition, player_position}
use map_walker.Game.Collectibles.{Collectible, CollectibleField, collectibles_within_radius}
use map_walker.Game.Collectibles.Stock.{IsStocked}
use map_walker.Game.Collectibles.Within.{AreAround, is_around, collectibles_within_radius-AreAround}
use map_walker.Realtime.Messages.{CollectibleEnteredItem, set_of, entered_item_ids}
use map_walker.Realtime.Messages.Normal.{contains-set_of}
use map_walker.Realtime.Hub.State.{Hub, append_to, is_connected}
use map_walker.Realtime.Hub.Collects.{
  visible_items, entered_items, left_items, item_ids, append_some, see_items, recalc_player,
}

-- What a map of slices has for a key.
abbrev slice : {A : Type 0} → ℕ → List (ℕ × List A) → List A
slice id m = or_else (Map.lookup id m) []

slice-append_some :
    {A : Type 0} (id : ℕ) (xs : List A) (m : List (ℕ × List A))
    → slice id (append_some id xs m) ≡ slice id m ++ xs
unfolding append_to
slice-append_some id [] m = sym (append-nil (slice id m))
slice-append_some id (x ∷ xs) m = ground (arith, lookup-insert id id (slice id m ++ (x ∷ xs)) m)

contains-keys_by-append :
    {A : Type 0} (key : A → ℕ) (k : ℕ) (xs ys : List A)
    → contains k (keys_by key (xs ++ ys))
      ≡ (contains k (keys_by key xs) || contains k (keys_by key ys))
unfolding keys_by contains
contains-keys_by-append key k [] ys = refl
contains-keys_by-append key k (x ∷ xs) ys = ground (arith, contains-keys_by-append key k xs ys)

module _ {F : Type 0} where
  contains-entered_items :
      (seen : List ℕ) (x : ℕ) (near : List (Collectible F))
      → contains x (entered_item_ids (entered_items seen near))
        ≡ (contains x (item_ids near) && not (contains x seen))
  unfolding entered_items contains keys_by
  contains-entered_items seen x [] = refl
  contains-entered_items seen x (c ∷ cs) = elim (Bool-cases (c.id == x)) [
    | inl this ↦ ground (arith, this, contains-entered_items seen x cs)
    | inr other ↦ ground (arith, other, contains-entered_items seen x cs)
  ]

  abbrev pub told_entered : Hub F → ℕ → List ℕ
  told_entered h id = entered_item_ids (slice id h.collectibles.pending_entered)

  abbrev pub told_left : Hub F → ℕ → List ℕ
  told_left h id = slice id h.collectibles.pending_left_ids

  -- What the player sees and is told, by the items of the inner and of the outer circle.
  pub see_items_lem :
      (h : Hub F) (id : ℕ) (near far : List (Collectible F)) (x : ℕ)
      → (contains x (visible_items (see_items h id near far) id) ≡ contains x (item_ids near))
        × (contains x (told_entered (see_items h id near far) id) ≡ (
            contains x (told_entered h id)
            || contains x (item_ids near) && not (contains x (visible_items h id))))
        × (contains x (told_left (see_items h id near far) id) ≡ (
            contains x (told_left h id)
            || contains x (visible_items h id) && not (contains x (item_ids far))))
  unfolding see_items visible_items left_items
  see_items_lem h id near far x =
      let seen = visible_items h id in
      (
        ground (
          arith,
          lookup-insert id id (set_of (item_ids near)) h.collectibles.visible_ids,
          contains-set_of (item_ids near) x,
        ),
        ap (λ xs. contains x (entered_item_ids xs))
              (slice-append_some id (entered_items seen near) h.collectibles.pending_entered)
            ∙ ground (
              arith,
              contains-keys_by-append (λ (c : CollectibleEnteredItem F). c.id) x
                  (slice id h.collectibles.pending_entered) (entered_items seen near),
              contains-entered_items seen x near,
            ),
        ap (contains x) (slice-append_some id (left_items seen far) h.collectibles.pending_left_ids)
            ∙ ground (
              arith,
              contains-append x (told_left h id) (left_items seen far),
              contains-keep (λ i. not (contains i (set_of (item_ids far)))) x seen,
              contains-set_of (item_ids far) x,
            ),
      )

  -- An item that a recalculation finds between the two circles, and the next one not in the inner
  -- circle, is no longer seen, and neither recalculation tells that it has left.
  pub see_items-forgotten :
      (h : Hub F) (id x : ℕ) (near far nearer farther : List (Collectible F))
      → contains x (item_ids near) ≡ false
      → contains x (item_ids far) ≡ true
      → contains x (item_ids nearer) ≡ false
      → (contains x (visible_items (see_items (see_items h id near far) id nearer farther) id)
          ≡ false)
        × (contains x (told_left (see_items (see_items h id near far) id nearer farther) id)
            ≡ contains x (told_left h id))
  see_items-forgotten h id x near far nearer farther out within away =
      let g = see_items h id near far in
      ground (
        arith,
        see_items_lem h id near far x,
        see_items_lem g id nearer farther x,
        out,
        within,
        away,
      )

module _ ⦃fl : Float64⦄ where
  open fl use {F, lit}

  -- What the player sees and has been told after a recalculation at this position.
  pub record Seen (h : Hub F) (id : ℕ) (f : CollectibleField F) (p : PlayerPosition F) (g : Hub F)
      : Type 0 where
    pub visible : (x : ℕ) → contains x (visible_items g id) ≡ is_around f p.lat p.lng (lit 500 1) x
    pub entered :
        (x : ℕ)
        → contains x (told_entered g id) ≡ (
            contains x (told_entered h id)
            || is_around f p.lat p.lng (lit 500 1) x && not (contains x (visible_items h id)))
    pub left :
        (x : ℕ)
        → contains x (told_left g id) ≡ (
            contains x (told_left h id)
            || contains x (visible_items h id) && not (is_around f p.lat p.lng (lit 600 1) x))

  see_items-Seen :
      (h : Hub F) (id : ℕ) (f : CollectibleField F) (p : PlayerPosition F)
      (near far : List (Collectible F))
      → AreAround f p.lat p.lng (lit 500 1) near
      → AreAround f p.lat p.lng (lit 600 1) far
      → Seen h id f p (see_items h id near far)
  see_items-Seen h id f p near far inner outer = record {
    visible = λ x. ground (arith, see_items_lem h id near far x, inner x);
    entered = λ x. ground (arith, see_items_lem h id near far x, inner x);
    left = λ x. ground (arith, see_items_lem h id near far x, outer x);
  }

  -- The recalculation for a connected player of the world returns on a well-kept field; afterwards
  -- the player sees exactly the items of the nine cells around it that are at most 500 m away. It
  -- is told that those of them have entered which it did not see before, and that those have left
  -- which it saw before and which are not in the nine cells or more than 600 m away; so an item
  -- that it saw and that is between the circles is no longer seen, and not told as left.
  pub recalc_player-Seen :
      (h : Hub F) (id : ℕ) (f : CollectibleField F) (p : PlayerPosition F)
      → is_connected h id ≡ true
      → player_position h.world id ≡ some p
      → IsStocked f
      → Succeeds (recalc_player h id f) (Seen h id f p)
  unfolding recalc_player
  recalc_player-Seen h id f p connected here s =
      rw (connected, here, recalc_player)
        (Succeeds-bind (AreAround f p.lat p.lng (lit 500 1)) (Seen h id f p)
          (collectibles_within_radius f p.lat p.lng (lit 500 1)) _
          (λ near inner.
            Succeeds-bind (AreAround f p.lat p.lng (lit 600 1)) (Seen h id f p)
              (collectibles_within_radius f p.lat p.lng (lit 600 1)) _
              (λ far outer. see_items-Seen h id f p near far inner outer)
              (collectibles_within_radius-AreAround f p.lat p.lng (lit 600 1) s))
          (collectibles_within_radius-AreAround f p.lat p.lng (lit 500 1) s))
