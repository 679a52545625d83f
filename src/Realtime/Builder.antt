-- ===== src/Realtime/Builder.antt =====
-- internal/realtime/replication_builder.go: the messages of a broadcast, one job for each
-- recipient. The map byRecipient is filled by the loops of Build in their order. Durations have no
-- part in the model; BuildConcrete, which only the benchmarks call, is Build with another reader.
pub mod Received
use map_walker.Prelude.{
  ℕ, Bool, true, false, Option, none, some, List, [], ◌∷◌, ◌++◌, if◌then◌else◌, length, or_else,
}
use map_walker.Prelude.Eq.{nat_eq}
use map_walker.Prelude.Map
use map_walker.Game.Appearance.{Appearance}
use map_walker.Game.Aoi.{MovementDelta, AoiIndex, visible_neighbors}
use map_walker.Game.World.{World, PlayerState, PlayerPosition, player_position}
use map_walker.Realtime.Messages.{
  SelfPosition, PlayerAppearanceUpdate, CollectibleEnteredItem, CollectibleSpawnedItem,
  ReplicationChanges,
}

pub record ReplicationBuildInput (F : Type 0) : Type 0 where
  pub tick : ℕ
  pub movement_deltas : List MovementDelta
  pub pending_entered : List (PlayerState F)
  pub pending_left : List (ℕ × List ℕ)
  pub pending_appearances : List (ℕ × Appearance)
  pub collect_entered : List (ℕ × List (CollectibleEnteredItem F))
  pub collect_left : List (ℕ × List ℕ)
  pub collect_spawned : List (ℕ × List (CollectibleSpawnedItem F))
  pub collect_collected : List (ℕ × List ℕ)

-- The interface; C is the type of a client.
pub record ReplicationBuildReader (F C : Type 0) : Type 0 where
  pub connected : ℕ → Bool
  pub client : ℕ → Option C
  pub visible_neighbors : ℕ → List ℕ
  pub player_position : ℕ → Option (PlayerPosition F)

pub record ReplicationJob (F C : Type 0) : Type 0 where
  pub recipient_id : ℕ
  pub tick : ℕ
  pub client : C
  pub changes : ReplicationChanges F

pub record BuilderStats : Type 0 where
  pub recipients : ℕ
  pub jobs : ℕ

module _ {F : Type 0} where
  abbrev pub no_changes : ReplicationChanges F
  no_changes = record {
    self_position = none;
    entered = [];
    left_player_ids = [];
    positions = [];
    appearances = [];
    collectibles_entered = [];
    collectible_ids_left = [];
    collectibles_spawned = [];
    collectible_ids_collected = [];
  }

  -- `getOrCreateRecipient`, and what is done with the entry.
  unfoldable pub with_recipient :
      ℕ
      → (ReplicationChanges F → ReplicationChanges F)
      → List (ℕ × ReplicationChanges F)
      → List (ℕ × ReplicationChanges F)
  with_recipient id f m = Map.insert id (f (or_else (Map.lookup id m) no_changes)) m

  abbrev pub put_self : PlayerPosition F → ReplicationChanges F → ReplicationChanges F
  put_self p c = record c { self_position = some (record { lat = p.lat; lng = p.lng }) }

  abbrev pub put_position : PlayerPosition F → ReplicationChanges F → ReplicationChanges F
  put_position p c = record c { positions = c.positions ++ (p ∷ []) }

  abbrev pub put_entered : PlayerState F → ReplicationChanges F → ReplicationChanges F
  put_entered s c = record c { entered = c.entered ++ (s ∷ []) }

  abbrev pub put_appearance : ℕ → Appearance → ReplicationChanges F → ReplicationChanges F
  put_appearance id look c = record c {
    appearances = c.appearances ++ (record { player_id = id; appearance = look } ∷ []);
  }

  abbrev pub put_left : List ℕ → ReplicationChanges F → ReplicationChanges F
  put_left ids c = record c { left_player_ids = c.left_player_ids ++ ids }

  abbrev pub put_items_entered :
      List (CollectibleEnteredItem F) → ReplicationChanges F → ReplicationChanges F
  put_items_entered items c = record c { collectibles_entered = c.collectibles_entered ++ items }

  abbrev pub put_items_left : List ℕ → ReplicationChanges F → ReplicationChanges F
  put_items_left ids c = record c { collectible_ids_left = c.collectible_ids_left ++ ids }

  abbrev pub put_items_spawned :
      List (CollectibleSpawnedItem F) → ReplicationChanges F → ReplicationChanges F
  put_items_spawned items c = record c { collectibles_spawned = c.collectibles_spawned ++ items }

  abbrev pub put_items_collected : List ℕ → ReplicationChanges F → ReplicationChanges F
  put_items_collected ids c = record c {
    collectible_ids_collected = c.collectible_ids_collected ++ ids;
  }

  -- `hubReader`
  unfoldable pub hub_reader :
      {C : Type 0} → List (ℕ × C) → AoiIndex F → World F → ReplicationBuildReader F C
  hub_reader clients aoi world = record {
    connected = λ id. Map.has id clients;
    client = λ id. Map.lookup id clients;
    visible_neighbors = λ id. visible_neighbors aoi id;
    player_position = λ id. player_position world id;
  }

module _ {F C : Type 0} (reader : ReplicationBuildReader F C) where
  -- For a connected recipient.
  unfoldable pub if_connected :
      ℕ
      → (ReplicationChanges F → ReplicationChanges F)
      → List (ℕ × ReplicationChanges F)
      → List (ℕ × ReplicationChanges F)
  if_connected id f m = if reader.connected id then with_recipient id f m else m

  -- One change for each of a list of recipients.
  unfoldable pub fan_out :
      (ReplicationChanges F → ReplicationChanges F)
      → List ℕ
      → List (ℕ × ReplicationChanges F)
      → List (ℕ × ReplicationChanges F)
  fan_out f [] m = m
  fan_out f (id ∷ ids) m = fan_out f ids (if_connected id f m)

  unfoldable pub add_delta :
      MovementDelta → List (ℕ × ReplicationChanges F) → List (ℕ × ReplicationChanges F)
  add_delta d m = elim (reader.player_position d.player_id) [
    | none ↦ m
    | some p ↦ fan_out (put_position p) d.stable (if_connected d.player_id (put_self p) m)
  ]

  unfoldable pub add_deltas :
      List MovementDelta → List (ℕ × ReplicationChanges F) → List (ℕ × ReplicationChanges F)
  add_deltas [] m = m
  add_deltas (d ∷ ds) m = add_deltas ds (add_delta d m)

  unfoldable pub add_entered :
      List (PlayerState F) → List (ℕ × ReplicationChanges F) → List (ℕ × ReplicationChanges F)
  add_entered [] m = m
  add_entered (s ∷ ss) m =
      add_entered ss (fan_out (put_entered s) (reader.visible_neighbors s.id) m)

  unfoldable pub add_appearances :
      List (ℕ × Appearance) → List (ℕ × ReplicationChanges F) → List (ℕ × ReplicationChanges F)
  add_appearances [] m = m
  add_appearances ((id, look) ∷ xs) m = add_appearances xs (
      fan_out (put_appearance id look) (reader.visible_neighbors id)
        (if_connected id (put_appearance id look) m))

  -- The loops over what is already kept by recipient.
  unfoldable pub add_kept :
      {A : Type 0}
      → (A → ReplicationChanges F → ReplicationChanges F)
      → List (ℕ × A)
      → List (ℕ × ReplicationChanges F)
      → List (ℕ × ReplicationChanges F)
  add_kept put [] m = m
  add_kept put ((id, a) ∷ xs) m = add_kept put xs (if_connected id (put a) m)

  unfoldable pub by_recipient : ReplicationBuildInput F → List (ℕ × ReplicationChanges F)
  by_recipient input =
      let m1 = add_deltas input.movement_deltas [] in
      let m2 = add_entered input.pending_entered m1 in
      let m3 = add_kept put_left input.pending_left m2 in
      let m4 = add_appearances input.pending_appearances m3 in
      let m5 = add_kept put_items_entered input.collect_entered m4 in
      let m6 = add_kept put_items_left input.collect_left m5 in
      let m7 = add_kept put_items_spawned input.collect_spawned m6 in
      add_kept put_items_collected input.collect_collected m7

  -- The deep copy of the changes is the same value.
  unfoldable pub jobs_of : ℕ → List (ℕ × ReplicationChanges F) → List (ReplicationJob F C)
  jobs_of tick [] = []
  jobs_of tick ((id, changes) ∷ m) =
      let rest = jobs_of tick m in
      elim (reader.client id) [
        | none ↦ rest
        | some client ↦
            record { recipient_id = id; tick = tick; client = client; changes = changes } ∷ rest
      ]

  unfoldable pub build : ReplicationBuildInput F → List (ReplicationJob F C) × BuilderStats
  build input =
      let m = by_recipient input in
      let jobs = jobs_of input.tick m in
      (jobs, record { recipients = length m; jobs = length jobs })
