-- ===== src/Realtime/Hub/Broadcast.antt =====
-- hub.go, broadcastReplication and its parts, and the statistics. `none` is a panic. The durations
-- of the statistics have no part in the model.
pub mod Rounds
use map_walker.Prelude.{
  ℕ, ◌+◌, Bool, true, false, not, ◌||◌, ◌&&◌, Option, none, some, List, [], ◌∷◌, ◌++◌,
  if◌then◌else◌, length, ◌>>=◌,
}
use map_walker.Prelude.Eq.{nat_eq}
use map_walker.Prelude.Int.{ℤ}
use map_walker.Prelude.Float.{Float64}
use map_walker.Prelude.Map
use map_walker.Prelude.MultiMap.{is_empty}
use map_walker.Prelude.Word.{u64, incr}
use map_walker.Game.Appearance.{Appearance}
use map_walker.Game.Aoi.{MovementDelta, AoiStats, move_detailed, take_stats}
use map_walker.Game.World.{
  PlayerState, player_position, player_state, take_moved_player_ids, take_removed_player_ids,
}
use map_walker.Realtime.Builder.{ReplicationBuildInput, ReplicationJob, hub_reader, build}
use map_walker.Realtime.Dispatcher.{submit_job}
use map_walker.Realtime.Hub.State.{Hub, HubClient, is_connected, append_to, no_interval}
use map_walker.Realtime.Hub.Clients.{tell_left}
use map_walker.Realtime.Hub.Collects.{
  advance_collectible_replacements, recalc_collectible_visibility,
}

module _ {F : Type 0} where
  -- The loop over the neighbours that a player came near to.
  unfoldable pub note_entered : List ℕ → ℕ → PlayerState F → Hub F → Hub F
  note_entered [] player_id state h = h
  note_entered (n ∷ ns) player_id state h = note_entered ns player_id state (
      if is_connected h n && not (Map.has player_id h.replication.pending_entered)
      then record h {
        replication = record h.replication {
          pending_entered = Map.insert player_id state h.replication.pending_entered;
        };
      }
      else h)

  unfoldable pub note_delta : Hub F → MovementDelta → PlayerState F → Hub F
  note_delta h delta state =
      tell_left delta.player_id delta.left (note_entered delta.entered delta.player_id state h)

  unfoldable pub states_of_entered : Hub F → List (ℕ × PlayerState F) → List (PlayerState F)
  states_of_entered h [] = []
  states_of_entered h ((id, _) ∷ m) =
      let rest = states_of_entered h m in
      elim (player_state h.world id) [ none ↦ rest | some state ↦ state ∷ rest ]

  unfoldable pub take_pending_entered : Hub F → Hub F × List (PlayerState F)
  take_pending_entered h = (
    record h { replication = record h.replication { pending_entered = [] } },
    states_of_entered h h.replication.pending_entered,
  )

  unfoldable pub take_pending_left : Hub F → Hub F × List (ℕ × List ℕ)
  take_pending_left h = (
    record h { replication = record h.replication { pending_left = [] } },
    h.replication.pending_left,
  )

  unfoldable pub take_pending_appearances : Hub F → Hub F × List (ℕ × Appearance)
  take_pending_appearances h = (
    record h { replication = record h.replication { pending_appearances = [] } },
    h.replication.pending_appearances,
  )

  -- `takePendingCollectEntered` and the three functions below it.
  unfoldable pub clear_pending_collect : Hub F → Hub F
  clear_pending_collect h = record h {
    collectibles = record h.collectibles {
      pending_entered = [];
      pending_left_ids = [];
      pending_spawned = [];
      pending_collected = [];
    };
  }

  abbrev pub take_moved : Hub F → Hub F × List ℕ
  take_moved h =
      let (world, moved) = take_moved_player_ids h.world in
      (record h { world = (take_removed_player_ids world).0 }, moved)

  -- The input of the builder: what has moved, and all that is pending.
  unfoldable pub build_input : Hub F → Hub F → List MovementDelta → ReplicationBuildInput F
  build_input before h deltas = record {
    tick = h.world.tick;
    movement_deltas = deltas;
    pending_entered = (take_pending_entered before).1;
    pending_left = (take_pending_left before).1;
    pending_appearances = (take_pending_appearances before).1;
    collect_entered = h.collectibles.pending_entered;
    collect_left = h.collectibles.pending_left_ids;
    collect_spawned = h.collectibles.pending_spawned;
    collect_collected = h.collectibles.pending_collected;
  }

  unfoldable pub has_nothing : List ℕ → ReplicationBuildInput F → Bool
  has_nothing moved i =
      is_empty moved
      && is_empty i.pending_entered
      && is_empty i.pending_left
      && is_empty i.pending_appearances
      && is_empty i.collect_entered
      && is_empty i.collect_left
      && is_empty i.collect_spawned
      && is_empty i.collect_collected

  -- The hand-over of the jobs; whether one is taken has no effect.
  unfoldable pub submit_jobs : List (ReplicationJob F HubClient) → Hub F → Option (Hub F)
  submit_jobs [] h = some h
  submit_jobs (job ∷ jobs) h = elim (submit_job h.replication.dispatcher job.recipient_id job) [
    | none ↦ none
    | some (d, _) ↦ submit_jobs jobs (record h {
      replication = record h.replication { dispatcher = d };
      stats = record h.stats { replication_recipients = incr h.stats.replication_recipients };
    })
  ]

  unfoldable pub send_updates : Hub F → ReplicationBuildInput F → Option (Hub F)
  send_updates h input =
      let (jobs, bs) = build (hub_reader h.players.clients h.aoi h.world) input in
      submit_jobs jobs (record h {
        stats = record h.stats {
          builder_calls = incr h.stats.builder_calls;
          builder_jobs = u64 (h.stats.builder_jobs + bs.jobs);
          builder_recipients = u64 (h.stats.builder_recipients + bs.recipients);
        };
      })

  abbrev pub count_moved : ℕ → Hub F → Hub F
  count_moved n h = record h {
    stats = record h.stats { moved_players = u64 (h.stats.moved_players + n) };
  }

  -- The three `takePending…` of the replication state.
  abbrev pub take_pending : Hub F → Hub F
  take_pending h = (take_pending_appearances (take_pending_left (take_pending_entered h).0).0).0

module _ ⦃fl : Float64⦄ where
  open fl use {F}

  unfoldable pub apply_movement_aoi_deltas :
      List ℕ → Hub F → List MovementDelta → Option (Hub F × List MovementDelta)
  apply_movement_aoi_deltas [] h deltas = some (h, deltas)
  apply_movement_aoi_deltas (id ∷ ids) h deltas = elim (player_position h.world id) [
    | none ↦ apply_movement_aoi_deltas ids h deltas
    | some p ↦ elim (move_detailed h.aoi id p.lat p.lng) [
      | none ↦ none
      | some (aoi, delta) ↦ elim (player_state h.world id) [
        | none ↦ apply_movement_aoi_deltas ids (record h { aoi = aoi }) deltas
        | some state ↦
            apply_movement_aoi_deltas ids (note_delta (record h { aoi = aoi }) delta state)
              (deltas ++ (delta ∷ []))
      ]
    ]
  ]

  module _ (draw_float : ℕ → F) (now : ℤ) where
    -- The collectible part of a broadcast.
    unfoldable pub update_collectibles : List ℕ → Hub F → Option (Hub F)
    update_collectibles moved h = elim h.collectibles.field [
      | none ↦ some h
      | some f ↦ elim (advance_collectible_replacements draw_float now f h) [
        | none ↦ none
        | some g ↦ elim g.collectibles.field [
          | none ↦ none
          | some field ↦ recalc_collectible_visibility moved g field
        ]
      ]
    ]

    unfoldable pub broadcast_replication : Hub F → Option (Hub F)
    broadcast_replication h = do
      let (h1, moved) = take_moved h
      (h2, deltas) ← apply_movement_aoi_deltas moved h1 []
      let h3 = count_moved (length moved) h2
      h4 ← update_collectibles moved (take_pending h3)
      let input = build_input h3 h4 deltas
      let h5 = clear_pending_collect h4
      if has_nothing moved input then some h5 else send_updates h5 input
