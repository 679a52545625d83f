-- ===== src/Realtime/Hub/Core.antt =====
-- The part of the hub's state that its components share, and its invariant.
use map_walker.Prelude.{ℕ, ◌+◌, ◌<◌, ◌≤◌, ◌≡◌, Option, some, List, arith, length}
use map_walker.Prelude.Eq.{nat_eq}
use map_walker.Prelude.Float.{Float64}
use map_walker.Prelude.Map
use map_walker.Prelude.Map.{UniqueKeys}
use map_walker.Game.Aoi
use map_walker.Game.Aoi.{AoiIndex}
use map_walker.Game.Aoi.Structure.{IsStructured}
use map_walker.Game.World.{World, has_player}
use map_walker.Game.World.Invariant.{IsConsistent}
use map_walker.Game.Collectibles.{CollectibleField}
use map_walker.Game.Collectibles.Stock.{IsStocked}
use map_walker.Game.Collectibles.Population.{CanRespawn}
use map_walker.Realtime.Builder.{ReplicationJob}
use map_walker.Realtime.Dispatcher.Queues.{IsWorking}
use map_walker.Realtime.Dispatcher.{ReplicationDispatcher}
use map_walker.Realtime.Hub.State.{Hub, HubClient}

pub record Core (F : Type 0) : Type 0 where
  pub world : World F
  pub aoi : AoiIndex F
  pub clients : List (ℕ × HubClient)
  pub field : Option (CollectibleField F)
  pub dispatcher : ReplicationDispatcher (ReplicationJob F HubClient)

abbrev pub core : {F : Type 0} → Hub F → Core F
core h = record {
  world = h.world;
  aoi = h.aoi;
  clients = h.players.clients;
  field = h.collectibles.field;
  dispatcher = h.replication.dispatcher;
}

module _ ⦃fl : Float64⦄ (draw_int : ℕ → ℕ → ℕ) where
  open fl use {F}

  -- A field that is well kept, whose delays can be drawn, and whose ids last for n items more
  -- than are scheduled.
  pub record IsReady (n : ℕ) (f : CollectibleField F) : Type 0 where
    pub stocked : IsStocked f
    pub respawns : CanRespawn f draw_int
    pub supply : f.next_id + length f.replacements + n < 18446744073709551616

  -- The world, the index and the clients have the same players, each under its own id; the world,
  -- the index, the field and the dispatcher are well kept, and the ids of items last for n more.
  pub record IsSettled (n : ℕ) (k : Core F) : Type 0 where
    pub world : IsConsistent k.world
    pub aoi : IsStructured k.aoi
    pub placed : (x : ℕ) → Aoi.has_player k.aoi x ≡ has_player k.world x
    pub connected : (x : ℕ) → Map.has x k.clients ≡ has_player k.world x
    pub keyed : (x : ℕ) (c : HubClient) → Map.lookup x k.clients ≡ some c → c.id ≡ x
    pub unique : UniqueKeys k.clients
    pub field : (f : CollectibleField F) → k.field ≡ some f → IsReady n f
    pub working : IsWorking k.dispatcher

  pub IsReady-weaken : (n m : ℕ) (f : CollectibleField F) → m ≤ n → IsReady n f → IsReady m f
  IsReady-weaken n m f h s = record {
    stocked = s.stocked;
    respawns = s.respawns;
    supply = omega (arith, s.supply);
  }

  pub IsSettled-weaken : (n m : ℕ) (k : Core F) → m ≤ n → IsSettled n k → IsSettled m k
  IsSettled-weaken n m k h s = record {
    world = s.world;
    aoi = s.aoi;
    placed = s.placed;
    connected = s.connected;
    keyed = s.keyed;
    unique = s.unique;
    field = λ f e. IsReady-weaken n m f h (s.field f e);
    working = s.working;
  }
