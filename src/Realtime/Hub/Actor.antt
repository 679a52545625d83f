-- ===== src/Realtime/Hub/Actor.antt =====
-- hub.go, Run: the events of the hub's channels and tickers, each handled to its end before the
-- next, and the stop. `none` is a panic. The channels are not modelled: a run is the list of the
-- events in the order in which the hub receives them, with the rounds of the dispatcher's workers
-- between them. The position persister is one that has a
-- Drain, as that of package storage.
pub mod Settled
pub mod Stale
use map_walker.Prelude.{
  ℕ, ◌+◌, Bool, true, false, not, ◌&&◌, Option, none, some, List, [], ◌∷◌, ◌>>=◌, if◌then◌else◌,
  ltb, length,
}
use map_walker.Prelude.Eq.{nat_eq}
use map_walker.Prelude.Int.{ℤ}
use map_walker.Prelude.Float.{Float64}
use map_walker.Prelude.Map.{values}
use map_walker.Prelude.Map
use map_walker.Prelude.Word.{incr}
use map_walker.Game.Appearance.{Appearance}
use map_walker.Game.Aoi.{AoiStats, take_stats}
use map_walker.Game.World.{InputState, apply_input, step, add_all}
use map_walker.Realtime.Builder.{ReplicationJob}
use map_walker.Realtime.Dispatcher.{ReplicationDispatcher, Outcome, run_one, stop, queue_depth}
use map_walker.Realtime.Hub.State.{
  Hub, HubClient, SavedPlayerLoad, IntervalStats, no_interval, close_send,
}
use map_walker.Realtime.Hub.Clients.{
  register_client, remove_client, is_current, persist_dirty_positions, submit_final_position,
  apply_appearance_update,
}
use map_walker.Realtime.Hub.Collects.{process_collect}
use map_walker.Realtime.Hub.Broadcast.{broadcast_replication}
use map_walker.Realtime.Hub.Leaderboard.{LeaderboardResponse, build_leaderboard}

-- What the hub's loop can receive; times are those of the clock when the event is handled.
pub data HubEvent : Type 0 where
  registers : HubClient → HubEvent
  unregisters : HubClient → HubEvent
  inputs : HubClient → InputState → HubEvent
  simulates : HubEvent
  broadcasts : ℤ → HubEvent
  persists : HubEvent
  logs : HubEvent
  disconnects : ℕ → HubEvent
  changes_appearance : ℕ → Appearance → HubEvent
  collects : HubClient → ℕ → ℤ → HubEvent
  asks_leaderboard : ℕ → HubEvent

-- A step of the program: the hub handles an event, or between two events the worker with this
-- index finishes its oldest job.
pub data HubStep : Type 0 where
  receives : HubEvent → HubStep
  finishes : ℕ → Outcome → HubStep

-- `HubSnapshot`, the counters of it; the interval as it was, and the statistics of the index.
pub record HubSnapshot (F : Type 0) : Type 0 where
  pub connected_clients : ℕ
  pub interval : IntervalStats
  pub aoi : AoiStats
  pub dispatcher : ReplicationDispatcher (ReplicationJob F HubClient)
  pub queue_depth : ℕ

module _ {F : Type 0} where
  unfoldable pub log_stats : Hub F → Hub F × HubSnapshot F
  log_stats h =
      let (aoi, stats) = take_stats h.aoi in
      (
        record h { aoi = aoi; stats = no_interval },
        record {
          connected_clients = length h.players.clients;
          interval = h.stats;
          aoi = stats;
          dispatcher = h.replication.dispatcher;
          queue_depth = queue_depth h.replication.dispatcher.workers;
        },
      )

  -- An input counts only from the current connection.
  unfoldable pub handle_input : Hub F → HubClient → InputState → Hub F
  handle_input h client input =
      let (world, ok) = apply_input h.world client.id input in
      if not (is_current h client)
      then h
      else (if ok
          then record h {
            world = world;
            stats = record h.stats { accepted_inputs = incr h.stats.accepted_inputs };
          }
          else record h { world = world })

  unfoldable pub drain_positions : Hub F → Hub F
  drain_positions h =
      if h.persistence.has_positions
      then record h { output = record h.output { position_drains = h.output.position_drains + 1 } }
      else h

  unfoldable pub drain_scores : Hub F → Hub F
  drain_scores h =
      if h.collectibles.has_score_persister
      then record h { output = record h.output { score_drains = h.output.score_drains + 1 } }
      else h

  unfoldable pub disconnect_user : Hub F → ℕ → Hub F
  disconnect_user h id =
      drain_positions
        (elim (Map.lookup id h.players.clients) [ none ↦ h | some client ↦ remove_client h client ])

  unfoldable pub submit_all_final : List HubClient → Hub F → Hub F
  submit_all_final [] h = h
  submit_all_final (c ∷ cs) h = submit_all_final cs (submit_final_position h c.id)

  unfoldable pub close_all : List HubClient → Hub F → Hub F
  close_all [] h = h
  close_all (c ∷ cs) h = close_all cs (close_send h c)

  -- The case of the stop channel.
  unfoldable pub stop_hub : Hub F → Hub F
  stop_hub h =
      let clients = values h.players.clients in
      let g = record h {
        replication = record h.replication { dispatcher = stop h.replication.dispatcher };
      } in
      close_all clients (drain_scores (drain_positions (submit_all_final clients g)))

  -- The answer to a question for the leaderboard.
  unfoldable pub reply : Hub F → HubEvent → Option LeaderboardResponse
  reply h (asks_leaderboard id) = some (build_leaderboard h id)
  reply h _ = none

module _ ⦃fl : Float64⦄ where
  open fl use {F, lit}

  -- A tick of the simulation, 50 ms.
  unfoldable pub simulate : Hub F → Hub F
  simulate h =
      let (world, moved) = step h.world (lit 5 100) in
      record h {
        world = world;
        persistence = record h.persistence { dirty = add_all moved h.persistence.dirty };
        stats = record h.stats { simulation_ticks = incr h.stats.simulation_ticks };
      }

  module _ (load_saved_player : ℕ → Option (SavedPlayerLoad F)) (encodes takes : ℕ → Bool)
      (draw_float : ℕ → F) (draw_int : ℕ → ℕ → ℕ) where
    unfoldable pub handle : Hub F → HubEvent → Option (Hub F)
    handle h (registers client) = register_client encodes takes load_saved_player h client
    handle h (unregisters client) = some (remove_client h client)
    handle h (inputs client input) = some (handle_input h client input)
    handle h simulates = some (simulate h)
    handle h (broadcasts now) = broadcast_replication draw_float now h
    handle h persists = some (persist_dirty_positions h)
    handle h logs = some (log_stats h).0
    handle h (disconnects id) = some (disconnect_user h id)
    handle h (changes_appearance id look) = some (apply_appearance_update h id look)
    handle h (collects client item now) = process_collect encodes takes draw_int now h client item
    handle h (asks_leaderboard id) = some h

    unfoldable pub hub_step : Hub F → HubStep → Option (Hub F)
    hub_step h (receives e) = do g ← handle h e; some (drain_scores g)
    hub_step h (finishes idx outcome) = some (record h {
      replication = record h.replication {
        dispatcher = run_one h.replication.dispatcher idx outcome;
      };
    })

    -- The loop of `Run`, after each event of which the scores are drained.
    unfoldable pub run_hub : Hub F → List HubStep → Option (Hub F)
    run_hub h [] = some h
    run_hub h (e ∷ es) = elim (hub_step h e) [ none ↦ none | some g ↦ run_hub g es ]
