-- ===== src/Realtime/Messages.antt =====
-- internal/realtime/messages.go: the changes for one recipient, and how they are brought into the
-- form that is sent. A nil slice and an empty one are both the empty list: they differ only in the
-- JSON text, where the omitEmpty functions make an empty slice nil. Encoding is left to
-- encoding/json.
pub mod Normal
use Prim.Native.String.{String}
use map_walker.Prelude.{
  ℕ, Bool, true, false, not, ◌||◌, ◌&&◌, Option, none, some, List, [], ◌∷◌, ◌==◌, if◌then◌else◌,
}
use map_walker.Prelude.Eq.{nat_eq}
use map_walker.Prelude.Map
use map_walker.Prelude.Map.{keys}
use map_walker.Prelude.MultiMap.{is_empty}
use map_walker.Prelude.Set
use map_walker.Prelude.Set.{contains}
use map_walker.Prelude.Sort.{set_keys, retain, keys_by, sort_by}
use map_walker.Game.Appearance.{Appearance}
use map_walker.Game.World.{PlayerState, PlayerPosition}

pub record SelfPosition (F : Type 0) : Type 0 where
  pub lat : F
  pub lng : F

pub record PlayerAppearanceUpdate : Type 0 where
  pub player_id : ℕ
  pub appearance : Appearance

pub record CollectibleEnteredItem (F : Type 0) : Type 0 where
  pub id : ℕ
  pub region_id : String
  pub lat : F
  pub lng : F

pub record CollectibleSpawnedItem (F : Type 0) : Type 0 where
  pub id : ℕ
  pub region_id : String
  pub lat : F
  pub lng : F

pub record ReplicationChanges (F : Type 0) : Type 0 where
  pub self_position : Option (SelfPosition F)
  pub entered : List (PlayerState F)
  pub left_player_ids : List ℕ
  pub positions : List (PlayerPosition F)
  pub appearances : List PlayerAppearanceUpdate
  pub collectibles_entered : List (CollectibleEnteredItem F)
  pub collectible_ids_left : List ℕ
  pub collectibles_spawned : List (CollectibleSpawnedItem F)
  pub collectible_ids_collected : List ℕ

-- `int64Set` and `uint64Set`
unfoldable pub set_of : List ℕ → List ℕ
set_of [] = []
set_of (x ∷ xs) = Set.add x (set_of xs)

abbrev pub entered_ids : {F : Type 0} → List (PlayerState F) → List ℕ
entered_ids xs = keys_by (λ p. p.id) xs

abbrev pub position_ids : {F : Type 0} → List (PlayerPosition F) → List ℕ
position_ids xs = keys_by (λ p. p.id) xs

abbrev pub update_ids : List PlayerAppearanceUpdate → List ℕ
update_ids xs = keys_by (λ u. u.player_id) xs

abbrev pub entered_item_ids : {F : Type 0} → List (CollectibleEnteredItem F) → List ℕ
entered_item_ids xs = keys_by (λ c. c.id) xs

abbrev pub spawned_item_ids : {F : Type 0} → List (CollectibleSpawnedItem F) → List ℕ
spawned_item_ids xs = keys_by (λ c. c.id) xs

-- `filterCollectibleIDs(target, keep)`: what remains of the target.
unfoldable pub filter_collectible_ids : List ℕ → List ℕ → List ℕ
filter_collectible_ids target keep = retain (λ id. not (contains id keep)) target

-- The map `appearanceByPlayer`: the last update of each player that is kept.
unfoldable pub appearance_by_player :
    List ℕ
    → List ℕ
    → List PlayerAppearanceUpdate
    → List (ℕ × PlayerAppearanceUpdate)
    → List (ℕ × PlayerAppearanceUpdate)
appearance_by_player left entered [] m = m
appearance_by_player left entered (u ∷ us) m = appearance_by_player left entered us (
    if contains u.player_id left || contains u.player_id entered
    then m
    else Map.insert u.player_id u m)

-- Its values by the keys, in their order. Each key is in the map.
unfoldable pub values_at : List ℕ → List (ℕ × PlayerAppearanceUpdate) → List PlayerAppearanceUpdate
values_at [] m = []
values_at (k ∷ ks) m =
    let rest = values_at ks m in elim (Map.lookup k m) [ none ↦ rest | some u ↦ u ∷ rest ]

unfoldable pub normalize_appearance_updates :
    List PlayerAppearanceUpdate → List ℕ → List ℕ → List PlayerAppearanceUpdate
normalize_appearance_updates updates left entered =
    let m = appearance_by_player left entered updates [] in values_at (set_keys (keys m)) m

module _ {F : Type 0} where
  unfoldable pub filter_collectible_entered :
      List (CollectibleEnteredItem F) → List ℕ → List ℕ → List ℕ → List (CollectibleEnteredItem F)
  filter_collectible_entered items spawned left collected =
      sort_by (λ c. c.id)
        (retain
          (λ c.
            not (contains c.id spawned)
            && not (contains c.id left)
            && not (contains c.id collected))
          items)

  unfoldable pub filter_collectible_spawned :
      List (CollectibleSpawnedItem F) → List ℕ → List ℕ → List (CollectibleSpawnedItem F)
  filter_collectible_spawned items left collected =
      sort_by (λ c. c.id)
        (retain (λ c. not (contains c.id left) && not (contains c.id collected)) items)

  unfoldable pub is_empty_changes : ReplicationChanges F → Bool
  is_empty_changes c =
      not (Map.is_some c.self_position)
      && is_empty c.entered
      && is_empty c.left_player_ids
      && is_empty c.positions
      && is_empty c.appearances
      && is_empty c.collectibles_entered
      && is_empty c.collectible_ids_left
      && is_empty c.collectibles_spawned
      && is_empty c.collectible_ids_collected

  unfoldable pub normalize_entered : ℕ → ReplicationChanges F → List (PlayerState F)
  normalize_entered self c =
      sort_by (λ p. p.id)
        (retain (λ p. not (p.id == self || contains p.id (set_of c.left_player_ids))) c.entered)

  unfoldable pub normalize_positions : ℕ → ReplicationChanges F → List (PlayerPosition F)
  normalize_positions self c =
      let entered = entered_ids (normalize_entered self c) in
      sort_by (λ p. p.id)
        (retain
          (λ p.
            not (p.id == self || contains p.id (set_of c.left_player_ids) || contains p.id entered))
          c.positions)

  unfoldable pub normalize_replication_changes : ℕ → ReplicationChanges F → ReplicationChanges F
  normalize_replication_changes self c =
      let left = set_of c.left_player_ids in
      let entered = normalize_entered self c in
      let left_items = set_of c.collectible_ids_left in
      let collected_items = set_of c.collectible_ids_collected in
      let spawned_items =
        filter_collectible_ids
          (filter_collectible_ids (set_of (spawned_item_ids c.collectibles_spawned)) left_items)
          collected_items in
      record {
        self_position = c.self_position;
        entered = entered;
        left_player_ids = retain (λ id. not (id == self)) (set_keys left);
        positions = normalize_positions self c;
        appearances = normalize_appearance_updates c.appearances left (entered_ids entered);
        collectibles_entered =
            filter_collectible_entered c.collectibles_entered spawned_items left_items
              collected_items;
        collectible_ids_left = set_keys left_items;
        collectibles_spawned =
            filter_collectible_spawned c.collectibles_spawned left_items collected_items;
        collectible_ids_collected = set_keys collected_items;
      }

  -- `EncodeReplicationUpdate` up to json.Marshal: nothing is sent if nothing is left.
  unfoldable pub replication_update : ℕ → ReplicationChanges F → Option (ReplicationChanges F)
  replication_update self c =
      let normalized = normalize_replication_changes self c in
      if is_empty_changes normalized then none else some normalized
