-- ===== src/Realtime/Hub/State.antt =====
-- The state of the hub (hub.go), grouped as in the source, what it gives out, and the sends.
-- A connection is a number: `==` on a ClientSender compares connections. Which messages can be
-- encoded and which a connection takes are parameters, by the number of the attempt. Scores are
-- the bits of an int64, read as they are below 2^63; times are nanoseconds.
use Prim.Native.String.{String}
use map_walker.Prelude.{
  ℕ, ◌+◌, ◌/◌, Bool, true, false, ◌&&◌, Option, List, [], ◌∷◌, ◌++◌, if◌then◌else◌, or_else, ltb,
}
use map_walker.Prelude.Int.{ℤ}
use map_walker.Prelude.Eq.{nat_eq}
use map_walker.Prelude.Map
use map_walker.Game.Appearance.{Appearance}
use map_walker.Game.Geometry.{aoi_config_from_world}
use map_walker.Game.Aoi.{AoiIndex, new_aoi_index}
use map_walker.Game.World.{World, PlayerState}
use map_walker.Game.Collectibles.{Collectible, CollectibleField, CollectibleRegion}
use map_walker.Prelude.Float.{Float64}
use map_walker.Storage.Positions.{PositionUpdate}
use map_walker.Storage.Scores.{ScoreUpdate}
use map_walker.Realtime.Messages.{CollectibleEnteredItem, CollectibleSpawnedItem}
use map_walker.Realtime.Builder.{ReplicationJob}
use map_walker.Realtime.Dispatcher.{ReplicationDispatcher, new_replication_dispatcher}

-- What the hub knows of a `ClientSender`.
pub record HubClient : Type 0 where
  pub conn : ℕ
  pub id : ℕ
  pub username : String

-- `SavedPlayerLoad` of player_load.go.
pub record SavedPlayerLoad (F : Type 0) : Type 0 where
  pub username : String
  pub lat : F
  pub lng : F
  pub has_position : Bool
  pub appearance : Appearance
  pub score : ℕ
  pub is_synthetic : Bool

-- The messages that the hub sends itself.
pub data HubMessage (F : Type 0) : Type 0 where
  self_state : ℕ → PlayerState F → ℕ → HubMessage F
  visible_entities : ℕ → List (PlayerState F) → HubMessage F
  collectible_regions : ℕ → List (CollectibleRegion F) → HubMessage F
  visible_collectibles : ℕ → List (Collectible F) → HubMessage F
  collect_result : ℕ → ℕ → HubMessage F

pub record HubPlayers : Type 0 where
  pub clients : List (ℕ × HubClient)
  pub scores : List (ℕ × ℕ)
  pub synthetic_ids : List ℕ

-- `has_positions` tells whether there is a position persister.
pub record HubPersistence : Type 0 where
  pub has_positions : Bool
  pub dirty : List ℕ
  pub seq : List (ℕ × ℕ)

pub record HubReplication (F : Type 0) : Type 0 where
  pub dispatcher : ReplicationDispatcher (ReplicationJob F HubClient)
  pub pending_entered : List (ℕ × PlayerState F)
  pub pending_left : List (ℕ × List ℕ)
  pub pending_appearances : List (ℕ × Appearance)

pub record HubCollectibles (F : Type 0) : Type 0 where
  pub field : Option (CollectibleField F)
  pub has_score_persister : Bool
  pub visible_ids : List (ℕ × List ℕ)
  pub pending_entered : List (ℕ × List (CollectibleEnteredItem F))
  pub pending_left_ids : List (ℕ × List ℕ)
  pub pending_spawned : List (ℕ × List (CollectibleSpawnedItem F))
  pub pending_collected : List (ℕ × List ℕ)
  pub cooldowns : List (ℕ × ℤ)

-- `intervalStats` without its durations.
pub record IntervalStats : Type 0 where
  pub accepted_inputs : ℕ
  pub simulation_ticks : ℕ
  pub moved_players : ℕ
  pub builder_calls : ℕ
  pub builder_jobs : ℕ
  pub builder_recipients : ℕ
  pub replication_recipients : ℕ

-- What has gone out, newest first: messages by connection, closed connections, what was handed to
-- the two persisters (a score with whether the hub waited for it), and the calls of Drain.
pub record HubOutput (F : Type 0) : Type 0 where
  pub attempts : ℕ
  pub sent : List (ℕ × HubMessage F)
  pub closed : List ℕ
  pub positions : List (List (PositionUpdate F))
  pub scores : List (ScoreUpdate × Bool)
  pub position_drains : ℕ
  pub score_drains : ℕ

pub record Hub (F : Type 0) : Type 0 where
  pub world : World F
  pub aoi : AoiIndex F
  pub players : HubPlayers
  pub persistence : HubPersistence
  pub replication : HubReplication F
  pub collectibles : HubCollectibles F
  pub stats : IntervalStats
  pub output : HubOutput F

abbrev pub no_interval : IntervalStats
no_interval = record {
  accepted_inputs = 0;
  simulation_ticks = 0;
  moved_players = 0;
  builder_calls = 0;
  builder_jobs = 0;
  builder_recipients = 0;
  replication_recipients = 0;
}

-- Half of GOMAXPROCS, at least 2 and at most 8.
unfoldable pub worker_count : ℕ → ℕ
worker_count processors =
    let n = processors / 2 in let m : ℕ = if ltb n 2 then 2 else n in if ltb 8 m then 8 else m

module _ ⦃fl : Float64⦄ where
  open fl use {F}

  unfoldable pub new_hub : World F → Bool → Option (CollectibleField F) → Bool → ℕ → Hub F
  new_hub world has_positions field has_score_persister processors = record {
    world = world;
    aoi = new_aoi_index (aoi_config_from_world world.config);
    players = record { clients = []; scores = []; synthetic_ids = [] };
    persistence = record { has_positions = has_positions; dirty = []; seq = [] };
    replication = record {
      dispatcher = new_replication_dispatcher (worker_count processors) 512;
      pending_entered = [];
      pending_left = [];
      pending_appearances = [];
    };
    collectibles = record {
      field = field;
      has_score_persister = has_score_persister;
      visible_ids = [];
      pending_entered = [];
      pending_left_ids = [];
      pending_spawned = [];
      pending_collected = [];
      cooldowns = [];
    };
    stats = no_interval;
    output = record {
      attempts = 0;
      sent = [];
      closed = [];
      positions = [];
      scores = [];
      position_drains = 0;
      score_drains = 0;
    };
  }

-- `append(m[id], x...)` in a map of slices.
unfoldable pub append_to : {A : Type 0} → ℕ → List A → List (ℕ × List A) → List (ℕ × List A)
append_to id xs m = Map.insert id (or_else (Map.lookup id m) [] ++ xs) m

module _ {F : Type 0} where
  unfoldable pub is_connected : Hub F → ℕ → Bool
  is_connected h id = Map.has id h.players.clients

  -- `playerScore`
  unfoldable pub player_score : Hub F → ℕ → ℕ
  player_score h id = or_else (Map.lookup id h.players.scores) 0

  -- `CloseSend`
  unfoldable pub close_send : Hub F → HubClient → Hub F
  close_send h client = record h {
    output = record h.output { closed = client.conn ∷ h.output.closed };
  }

  module _ (encodes takes : ℕ → Bool) where
    -- An attempt to encode a message and send it; the result is whether both went well.
    unfoldable pub try_send : Hub F → HubClient → HubMessage F → Hub F × Bool
    try_send h client message =
        let n = h.output.attempts in
        let tried = record h { output = record h.output { attempts = n + 1 } } in
        if encodes n && takes n
        then (
          record tried {
            output = record tried.output { sent = (client.conn, message) ∷ h.output.sent };
          },
          true,
        )
        else (tried, false)
