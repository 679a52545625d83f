-- ===== src/Realtime/Hub/Clients.antt =====
-- hub.go, the life of a connection: registerClient, sendInitialization, addPlayer, removeClient,
-- and the positions that are handed to the persister.
pub mod Leaving
pub mod Sequence
pub mod Outcomes
pub mod Sending
pub mod Welcome
pub mod Joining
use Prim.Native.String.{String}
use map_walker.Prelude.{
  ℕ, Bool, true, false, not, ◌&&◌, ◌||◌, Option, none, some, List, [], ◌∷◌, ◌++◌, if◌then◌else◌,
  or_else, ◌==◌, ◌>>=◌, map,
}
use map_walker.Prelude.Eq.{nat_eq, string_eq}
use map_walker.Prelude.Float.{Float64}
use map_walker.Prelude.Map
use map_walker.Prelude.MultiMap.{is_empty}
use map_walker.Prelude.Set
use map_walker.Prelude.Sort.{retain}
use map_walker.Prelude.Word.{incr}
use map_walker.Game.Appearance.{Appearance, default_appearance}
use map_walker.Game.Aoi
use map_walker.Game.World.{
  PlayerPosition, has_player, add_player_with_state, remove_player, reset_input, player_state,
  player_states, player_position, spawn_lat_lng, update_player_appearance,
}
use map_walker.Game.Collectibles.{Collectible, CollectibleRegion, collectibles_within_radius}
use map_walker.Storage.Positions.{PositionUpdate}
use map_walker.Realtime.Messages.{set_of}
use map_walker.Realtime.Hub.State.{
  Hub, HubClient, HubMessage, SavedPlayerLoad, self_state, visible_entities, collectible_regions,
  visible_collectibles, is_connected, player_score, close_send, append_to, try_send,
}

-- `clearPendingLeftForPlayer` on the map: an entry that becomes empty is dropped.
unfoldable pub without_left : ℕ → List (ℕ × List ℕ) → List (ℕ × List ℕ)
without_left player_id [] = []
without_left player_id ((client_id, ids) ∷ m) =
    let rest = without_left player_id m in
    let filtered = retain (λ id. not (id == player_id)) ids in
    if is_empty filtered then rest else (client_id, filtered) ∷ rest

module _ {F : Type 0} where
  unfoldable pub clear_pending_left_for_player : Hub F → ℕ → Hub F
  clear_pending_left_for_player h player_id = record h {
    replication = record h.replication {
      pending_left = without_left player_id h.replication.pending_left;
    };
  }

  unfoldable pub clear_pending_replication_for : Hub F → ℕ → Hub F
  clear_pending_replication_for h id = record h {
    replication = record h.replication {
      pending_appearances = Map.delete id h.replication.pending_appearances;
      pending_left = Map.delete id h.replication.pending_left;
    };
    collectibles = record h.collectibles {
      pending_entered = Map.delete id h.collectibles.pending_entered;
      pending_left_ids = Map.delete id h.collectibles.pending_left_ids;
      pending_spawned = Map.delete id h.collectibles.pending_spawned;
      pending_collected = Map.delete id h.collectibles.pending_collected;
      visible_ids = Map.delete id h.collectibles.visible_ids;
    };
  }

  abbrev pub next_seq : Hub F → ℕ → ℕ
  next_seq h id = incr (or_else (Map.lookup id h.persistence.seq) 0)

  abbrev pub position_update : Hub F → ℕ → PlayerPosition F → PositionUpdate F
  position_update h id p = record { user_id = id; lat = p.lat; lng = p.lng; seq = next_seq h id }

  -- `h.persistence.seq[id]++`
  abbrev pub count_seq : Hub F → ℕ → Hub F
  count_seq h id = record h {
    persistence = record h.persistence { seq = Map.insert id (next_seq h id) h.persistence.seq };
  }

  -- The hand-over of a batch, by Submit or SubmitSync.
  abbrev pub hand_over : Hub F → List (PositionUpdate F) → Hub F
  hand_over h updates = record h {
    output = record h.output { positions = updates ∷ h.output.positions };
  }

  unfoldable pub submit_final_position : Hub F → ℕ → Hub F
  submit_final_position h id =
      if not h.persistence.has_positions then h else elim (player_position h.world id) [
        | none ↦ h
        | some p ↦ hand_over (count_seq h id) (position_update h id p ∷ [])
      ]

  -- The loop of `persistDirtyPositions`.
  unfoldable pub collect_dirty :
      List ℕ → Hub F → List (PositionUpdate F) → Hub F × List (PositionUpdate F)
  collect_dirty [] h updates = (h, updates)
  collect_dirty (id ∷ ids) h updates = elim (player_position h.world id) [
    | none ↦ collect_dirty ids h updates
    | some p ↦ collect_dirty ids (count_seq h id) (updates ++ (position_update h id p ∷ []))
  ]

  unfoldable pub persist_dirty_positions : Hub F → Hub F
  persist_dirty_positions h =
      let (g, updates) = collect_dirty h.persistence.dirty h [] in
      if not h.persistence.has_positions || is_empty h.persistence.dirty
      then h
      else hand_over (record g { persistence = record g.persistence { dirty = [] } }) updates

  -- The neighbours that are still connected learn that the player left.
  unfoldable pub tell_left : ℕ → List ℕ → Hub F → Hub F
  tell_left player_id [] h = h
  tell_left player_id (n ∷ ns) h = tell_left player_id ns (
      if is_connected h n
      then record h {
        replication = record h.replication {
          pending_left = append_to n (player_id ∷ []) h.replication.pending_left;
        };
      }
      else h)

  -- The final score of a player whose score the hub has.
  unfoldable pub submit_final_score : Hub F → ℕ → Hub F
  submit_final_score h id =
      if not h.collectibles.has_score_persister then h else elim (Map.lookup id h.players.scores) [
        | none ↦ h
        | some score ↦ record h {
          output = record h.output {
            scores = (record { user_id = id; score = score }, true) ∷ h.output.scores;
          };
        }
      ]

  abbrev pub drop_client : Hub F → ℕ → Hub F
  drop_client h id = record h {
    players = record h.players { clients = Map.delete id h.players.clients };
  }

  abbrev pub drop_from_aoi : Hub F → ℕ → Hub F
  drop_from_aoi h id = record h { aoi = (Aoi.remove h.aoi id).0 }

  abbrev pub drop_from_world : Hub F → ℕ → Hub F
  drop_from_world h id = record h {
    world = (remove_player h.world id).0;
    replication = record h.replication {
      pending_entered = Map.delete id h.replication.pending_entered;
    };
  }

  abbrev pub drop_persistence : Hub F → ℕ → Hub F
  drop_persistence h id = record h {
    persistence = record h.persistence {
      dirty = Set.remove id h.persistence.dirty;
      seq = Map.delete id h.persistence.seq;
    };
  }

  -- `removeClient` once the connection is known to be the current one.
  unfoldable pub remove_current : Hub F → HubClient → Hub F
  remove_current h client =
      let id = client.id in
      let h1 = submit_final_score (submit_final_position (drop_client h id) id) id in
      let h2 = tell_left id (Aoi.remove h1.aoi id).1.left (drop_from_aoi h1 id) in
      let h3 = clear_pending_replication_for (drop_from_world h2 id) id in
      close_send (drop_persistence h3 id) client

  -- `current, exists := clients[client.ID()]; exists && current == client`
  unfoldable pub is_current : Hub F → HubClient → Bool
  is_current h client = elim (Map.lookup client.id h.players.clients) [
    | none ↦ false
    | some current ↦ current.conn == client.conn
  ]

  unfoldable pub remove_client : Hub F → HubClient → Hub F
  remove_client h client = if is_current h client then remove_current h client else h

  unfoldable pub apply_appearance_update : Hub F → ℕ → Appearance → Hub F
  apply_appearance_update h id appearance =
      let (world, changed, ok) = update_player_appearance h.world id appearance in
      if not (has_player h.world id)
      then h
      else (if not ok || not changed then record h { world = world } else record h {
        world = world;
        replication = record h.replication {
          pending_appearances = Map.insert id appearance h.replication.pending_appearances;
        };
      })

module _ ⦃fl : Float64⦄ where
  open fl use {F, lit}

  -- The branch of `addPlayer` for a saved player.
  unfoldable pub add_saved_player : Hub F → ℕ → String → SavedPlayerLoad F → Hub F
  add_saved_player h id username state =
      let (lat, lng) =
        if state.has_position then (state.lat, state.lng) else spawn_lat_lng h.world in
      let name = if string_eq.beq state.username "" then username else state.username in
      record h {
        world = (add_player_with_state h.world id name lat lng state.appearance).0;
        players = record h.players {
          scores =
              if Map.is_some h.collectibles.field
              then Map.insert id state.score h.players.scores
              else h.players.scores;
          synthetic_ids =
              if state.is_synthetic
              then Set.add id h.players.synthetic_ids
              else h.players.synthetic_ids;
        };
      }

  -- A hub without a loader has one that finds nobody.
  unfoldable pub add_player : (ℕ → Option (SavedPlayerLoad F)) → Hub F → ℕ → String → Hub F
  add_player load_saved_player h id username = elim (load_saved_player id) [
    | some state ↦ add_saved_player h id username state
    | none ↦
        let (lat, lng) = spawn_lat_lng h.world in
        record h {
          world = (add_player_with_state h.world id username lat lng default_appearance).0;
        }
  ]

  unfoldable pub insert_player_into_aoi : Hub F → ℕ → Option (Hub F)
  insert_player_into_aoi h id = elim (player_position h.world id) [
    | none ↦ some h
    | some p ↦ do (aoi, _) ← Aoi.insert h.aoi id p.lat p.lng; some (record h { aoi = aoi })
  ]

  -- The regions and the items within 500 m for the initial messages.
  unfoldable pub initial_collectibles :
      Hub F → ℕ → Option (List (CollectibleRegion F) × List (Collectible F))
  initial_collectibles h id = elim h.collectibles.field [
    | none ↦ some ([], [])
    | some f ↦
        let p =
          or_else (player_position h.world id) (record { id = 0; lat = lit 0 1; lng = lit 0 1 }) in
        do cs ← collectibles_within_radius f p.lat p.lng (lit 500 1); some (f.regions, cs)
  ]

  unfoldable pub track_initial : Hub F → ℕ → List (Collectible F) → Hub F
  track_initial h id cs =
      if Map.is_some h.collectibles.field && not (is_empty cs)
      then record h {
        collectibles = record h.collectibles {
          visible_ids = Map.insert id (set_of (map (λ c. c.id) cs)) h.collectibles.visible_ids;
        };
      }
      else h

  module _ (encodes takes : ℕ → Bool) where
    -- The sends of `sendInitialization`, up to the first that fails.
    unfoldable pub send_all : Hub F → HubClient → List (HubMessage F) → Hub F × Bool
    send_all h client [] = (h, true)
    send_all h client (m ∷ ms) =
        let (g, ok) = try_send encodes takes h client m in
        let rest = send_all g client ms in if ok then rest else (g, false)

    unfoldable pub send_collectibles : Hub F → HubClient → Option (Hub F)
    send_collectibles h client = do
      (regions, cs) ← initial_collectibles h client.id
      let (g, ok) =
          send_all h client
            (collectible_regions h.world.tick regions ∷ visible_collectibles h.world.tick cs ∷ [])
      some (if ok then track_initial g client.id cs else remove_client g client)

    unfoldable pub send_initialization : Hub F → HubClient → Option (Hub F)
    send_initialization h client = elim (player_state h.world client.id) [
      | none ↦ some (remove_client h client)
      | some self ↦
          let neighbors = Aoi.visible_neighbors h.aoi client.id in
          let (g, ok) = send_all h client (
            self_state h.world.tick self (player_score h client.id)
            ∷ visible_entities h.world.tick (player_states h.world neighbors)
            ∷ []) in
          if ok then send_collectibles g client else some (remove_client g client)
    ]

    abbrev pub put_client : Hub F → HubClient → Hub F
    put_client h client = record h {
      players = record h.players { clients = Map.insert client.id client h.players.clients };
    }

    -- The end of `registerClient` on both paths.
    unfoldable pub welcome : Hub F → HubClient → Option (Hub F)
    welcome h client =
        send_initialization (clear_pending_replication_for (put_client h client) client.id) client

    -- A player that is new to the world, and the neighbours' news of it.
    unfoldable pub admit : (ℕ → Option (SavedPlayerLoad F)) → Hub F → HubClient → Option (Hub F)
    admit load_saved_player h client = do
      g ←
          insert_player_into_aoi (add_player load_saved_player h client.id client.username)
            client.id
      some (
          if is_empty g.players.clients then g else elim (player_state g.world client.id) [
            | none ↦ g
            | some state ↦
                clear_pending_left_for_player
                  (record g {
                    replication = record g.replication {
                      pending_entered = Map.insert client.id state g.replication.pending_entered;
                    };
                  })
                  client.id
          ])

    -- Another connection takes over from the one that is there.
    unfoldable pub replace_connection : Hub F → HubClient → HubClient → Option (Hub F)
    replace_connection h existing client =
        let g = close_send h existing in
        welcome (record g { world = reset_input g.world client.id }) client

    unfoldable pub register_client :
        (ℕ → Option (SavedPlayerLoad F)) → Hub F → HubClient → Option (Hub F)
    register_client load_saved_player h client = elim (Map.lookup client.id h.players.clients) [
      | some existing ↦
          if existing.conn == client.conn
          then (do
            g ← (if has_player h.world client.id then some h else admit load_saved_player h client)
            welcome g client)
          else replace_connection h existing client
      | none ↦ do
        g ← (if has_player h.world client.id then some h else admit load_saved_player h client)
        welcome g client
    ]
