-- ===== src/Realtime/Messages/Normal.antt =====
-- `NormalizeReplicationChanges` of messages.go: who is in which part of the result.
use map_walker.Prelude.{ℕ, ◌≡◌, refl, Bool, not, ◌||◌, ◌&&◌, List, [], ◌∷◌, ◌==◌, arith}
use map_walker.Prelude.Eq.{nat_eq}
use map_walker.Prelude.Set.{contains, contains-add}
use map_walker.Prelude.Sort.{
  set_keys, retain, contains-set_keys, contains-keys_by-sort, contains-keys_by-retain,
}
use map_walker.Game.World.{PlayerState, PlayerPosition}
use map_walker.Realtime.Messages.{
  ReplicationChanges, CollectibleEnteredItem, CollectibleSpawnedItem, set_of, entered_ids,
  position_ids, entered_item_ids, spawned_item_ids, filter_collectible_ids,
  filter_collectible_entered, filter_collectible_spawned, normalize_entered, normalize_positions,
  normalize_replication_changes,
}

pub contains-set_of : (xs : List ℕ) (k : ℕ) → contains k (set_of xs) ≡ contains k xs
unfolding set_of contains
contains-set_of [] k = refl
contains-set_of (x ∷ xs) k = ground (arith, contains-add x k (set_of xs), contains-set_of xs k)

contains-retain :
    (q : ℕ → Bool) (xs : List ℕ) (k : ℕ) → contains k (retain q xs) ≡ (q k && contains k xs)
unfolding retain contains
contains-retain q [] k = ground arith
contains-retain q (x ∷ xs) k = ground (arith, contains-retain q xs k, nat_eq.beq_iff x k)

contains-filter_ids :
    (target keep : List ℕ) (k : ℕ)
    → contains k (filter_collectible_ids target keep) ≡ (not (contains k keep) && contains k target)
unfolding filter_collectible_ids
contains-filter_ids target keep k = contains-retain (λ id. not (contains id keep)) target k

module _ {F : Type 0} (self : ℕ) (c : ReplicationChanges F) (k : ℕ) where
  normal_entered : contains k (entered_ids (normalize_entered self c)) ≡ (
      contains k (entered_ids c.entered) && not (k == self) && not (contains k c.left_player_ids))
  unfolding normalize_entered
  normal_entered = ground (
    arith,
    contains-keys_by-sort (λ (p : PlayerState F). p.id) k
        (retain (λ p. not (p.id == self || contains p.id (set_of c.left_player_ids))) c.entered),
    contains-keys_by-retain (λ (p : PlayerState F). p.id)
        (λ id. not (id == self || contains id (set_of c.left_player_ids))) k c.entered,
    contains-set_of c.left_player_ids k,
  )

  normal_positions : contains k (position_ids (normalize_positions self c)) ≡ (
      contains k (position_ids c.positions)
      && not (k == self)
      && not (contains k c.left_player_ids)
      && not (contains k (entered_ids (normalize_entered self c))))
  unfolding normalize_positions
  normal_positions = ground (
    arith,
    contains-keys_by-sort (λ (p : PlayerPosition F). p.id) k
        (retain
          (λ p. not (
            p.id == self
            || contains p.id (set_of c.left_player_ids)
            || contains p.id (entered_ids (normalize_entered self c))))
          c.positions),
    contains-keys_by-retain (λ (p : PlayerPosition F). p.id)
        (λ id. not (
          id == self
          || contains id (set_of c.left_player_ids)
          || contains id (entered_ids (normalize_entered self c))))
        k c.positions,
    contains-set_of c.left_player_ids k,
  )

  normal_left :
      contains k (normalize_replication_changes self c).left_player_ids
      ≡ (contains k c.left_player_ids && not (k == self))
  unfolding normalize_replication_changes
  normal_left = ground (
    arith,
    contains-retain (λ id. not (id == self)) (set_keys (set_of c.left_player_ids)) k,
    contains-set_keys (set_of c.left_player_ids) k,
    contains-set_of c.left_player_ids k,
  )

  -- In the normalized changes, a player that left is reported as left alone, one that came into
  -- sight and did not leave as entered alone, positions are those of the others, and the recipient
  -- itself is in none of the three.
  pub normalize-players :
      (contains k (normalize_replication_changes self c).left_player_ids
        ≡ (contains k c.left_player_ids && not (k == self)))
      × (contains k (entered_ids (normalize_replication_changes self c).entered) ≡ (
          contains k (entered_ids c.entered)
          && not (k == self)
          && not (contains k c.left_player_ids)))
      × (contains k (position_ids (normalize_replication_changes self c).positions) ≡ (
          contains k (position_ids c.positions)
          && not (k == self)
          && not (contains k c.left_player_ids)
          && not (contains k (entered_ids c.entered))))
  unfolding normalize_replication_changes
  normalize-players =
      (normal_left, normal_entered, ground (arith, normal_positions, normal_entered))

  normal_items_entered :
      (spawned left collected : List ℕ)
      → contains k (
          entered_item_ids
            (filter_collectible_entered c.collectibles_entered spawned left collected))
        ≡ (contains k (entered_item_ids c.collectibles_entered)
            && not (contains k spawned)
            && not (contains k left)
            && not (contains k collected))
  unfolding filter_collectible_entered
  normal_items_entered spawned left collected = ground (
    arith,
    contains-keys_by-sort (λ (i : CollectibleEnteredItem F). i.id) k
        (retain
          (λ i.
            not (contains i.id spawned)
            && not (contains i.id left)
            && not (contains i.id collected))
          c.collectibles_entered),
    contains-keys_by-retain (λ (i : CollectibleEnteredItem F). i.id)
        (λ id. not (contains id spawned) && not (contains id left) && not (contains id collected)) k
        c.collectibles_entered,
  )

  normal_items_spawned :
      (left collected : List ℕ)
      → contains k
          (spawned_item_ids (filter_collectible_spawned c.collectibles_spawned left collected))
        ≡ (contains k (spawned_item_ids c.collectibles_spawned)
            && not (contains k left)
            && not (contains k collected))
  unfolding filter_collectible_spawned
  normal_items_spawned left collected = ground (
    arith,
    contains-keys_by-sort (λ (i : CollectibleSpawnedItem F). i.id) k
        (retain (λ i. not (contains i.id left) && not (contains i.id collected))
          c.collectibles_spawned),
    contains-keys_by-retain (λ (i : CollectibleSpawnedItem F). i.id)
        (λ id. not (contains id left) && not (contains id collected)) k c.collectibles_spawned,
  )

  -- In the normalized changes, an item that left or was collected is reported as neither entered
  -- nor spawned, one that was spawned is not reported as entered, and the left and the collected
  -- items are those of the changes.
  pub normalize-collectibles :
      (contains k (normalize_replication_changes self c).collectible_ids_left
        ≡ contains k c.collectible_ids_left)
      × (contains k (normalize_replication_changes self c).collectible_ids_collected
          ≡ contains k c.collectible_ids_collected)
      × (contains k (spawned_item_ids (normalize_replication_changes self c).collectibles_spawned)
          ≡ (contains k (spawned_item_ids c.collectibles_spawned)
              && not (contains k c.collectible_ids_left)
              && not (contains k c.collectible_ids_collected)))
      × (contains k (entered_item_ids (normalize_replication_changes self c).collectibles_entered)
          ≡ (contains k (entered_item_ids c.collectibles_entered)
              && not (contains k (spawned_item_ids c.collectibles_spawned))
              && not (contains k c.collectible_ids_left)
              && not (contains k c.collectible_ids_collected)))
  unfolding normalize_replication_changes
  normalize-collectibles =
      let left = set_of c.collectible_ids_left in
      let collected = set_of c.collectible_ids_collected in
      let spawned = set_of (spawned_item_ids c.collectibles_spawned) in
      let some_spawned = filter_collectible_ids spawned left in
      let left_lem = contains-set_of c.collectible_ids_left k in
      let collected_lem = contains-set_of c.collectible_ids_collected k in
      (
        ground (arith, contains-set_keys left k, left_lem),
        ground (arith, contains-set_keys collected k, collected_lem),
        ground (arith, normal_items_spawned left collected, left_lem, collected_lem),
        ground (
          arith,
          normal_items_entered (filter_collectible_ids some_spawned collected) left collected,
          contains-filter_ids some_spawned collected k,
          contains-filter_ids spawned left k,
          contains-set_of (spawned_item_ids c.collectibles_spawned) k,
          left_lem,
          collected_lem,
        ),
      )
