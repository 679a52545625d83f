-- ===== src/Realtime/Hub/Actor/Settled.antt =====
-- hub.go, Run: no event makes the hub panic, and each keeps it settled.
use map_walker.Prelude.{
  ℕ, suc, ◌<◌, ◌≡◌, refl, subst, sym, Bool, not, ◌||◌, Option, some, List, [], ◌∷◌, arith, if_both,
  option_both, Succeeds, Succeeds-bind, Succeeds-elim, length, length-replicate,
}
use map_walker.Prelude.Eq.{nat_eq}
use map_walker.Prelude.Float.{Float64}
use map_walker.Prelude.Map
use map_walker.Prelude.MultiMap.{is_empty}
use map_walker.Game.Appearance.{Appearance}
use map_walker.Game.Geometry.{Config, aoi_config_from_world}
use map_walker.Game.Aoi
use map_walker.Game.Aoi.{new_aoi_index, take_stats}
use map_walker.Game.Aoi.Structure.{new-IsStructured, IsStructured-stats}
use map_walker.Game.World
use map_walker.Game.World.{
  World, InputState, new_world, has_player, player_position, apply_input, step,
  update_player_appearance,
}
use map_walker.Game.World.Invariant.{
  IsConsistent, apply, inputs, appears, steps, apply-IsConsistent, new-IsConsistent,
}
use map_walker.Game.Collectibles.{CollectibleField}
use map_walker.Storage.Positions.{PositionUpdate}
use map_walker.Realtime.Dispatcher.{new_replication_dispatcher}
use map_walker.Realtime.Dispatcher.Queues.{run_one-IsWorking}
use map_walker.Realtime.Hub.State.{Hub, HubClient, SavedPlayerLoad, new_hub, worker_count}
use map_walker.Realtime.Hub.Core.{Core, core, IsReady, IsSettled, IsSettled-weaken}
use map_walker.Realtime.Hub.Clients.{
  is_current, collect_dirty, persist_dirty_positions, apply_appearance_update,
}
use map_walker.Realtime.Hub.Clients.Leaving.{remove_client-IsSettled}
use map_walker.Realtime.Hub.Clients.Joining.{register_client-IsSettled}
use map_walker.Realtime.Hub.Collects.Picking.{process_collect-IsSettled}
use map_walker.Realtime.Hub.Broadcast.Rounds.{broadcast_replication-IsSettled}
use map_walker.Realtime.Hub.Actor.{
  HubEvent, HubStep, registers, unregisters, inputs as receives_input, simulates, broadcasts,
  persists, logs, disconnects, changes_appearance, collects, asks_leaderboard, receives, finishes,
  handle, handle_input, simulate, log_stats, disconnect_user, drain_positions, drain_scores,
  hub_step, run_hub,
}

module _ {F : Type 0} where
  core-collect_dirty :
      (ids : List ℕ) (h : Hub F) (updates : List (PositionUpdate F))
      → core (collect_dirty ids h updates).0 ≡ core h
  unfolding collect_dirty
  core-collect_dirty [] h updates = refl
  core-collect_dirty (id ∷ ids) h updates =
      option_both (λ (r : Hub F × List (PositionUpdate F)). core r.0 ≡ core h)
        (player_position h.world id) (core-collect_dirty ids h updates)
        (λ p _. core-collect_dirty ids _ _)

  core-persist_dirty_positions : (h : Hub F) → core (persist_dirty_positions h) ≡ core h
  unfolding persist_dirty_positions
  core-persist_dirty_positions h =
      if_both (λ g. core g ≡ core h)
        (not h.persistence.has_positions || is_empty h.persistence.dirty) refl
        (core-collect_dirty h.persistence.dirty h [])

  core-drain_scores : (h : Hub F) → core (drain_scores h) ≡ core h
  unfolding drain_scores
  core-drain_scores h = if_both (λ g. core g ≡ core h) h.collectibles.has_score_persister refl refl

  core-drain_positions : (h : Hub F) → core (drain_positions h) ≡ core h
  unfolding drain_positions
  core-drain_positions h = if_both (λ g. core g ≡ core h) h.persistence.has_positions refl refl

module _ ⦃fl : Float64⦄ (draw_int : ℕ → ℕ → ℕ) where
  open fl use {F, lit}

  -- A world with the same players.
  world-IsSettled :
      (n : ℕ) (k : Core F) (w : World F)
      → IsConsistent w
      → ((x : ℕ) → has_player w x ≡ has_player k.world x)
      → IsSettled draw_int n k
      → IsSettled draw_int n (record k { world = w })
  world-IsSettled n k w consistent same s = record {
    world = consistent;
    aoi = s.aoi;
    placed = λ x. ground (arith, same x, s.placed x);
    connected = λ x. ground (arith, same x, s.connected x);
    keyed = s.keyed;
    unique = s.unique;
    field = s.field;
    working = s.working;
  }

  handle_input-IsSettled :
      (n : ℕ) (h : Hub F) (client : HubClient) (i : InputState)
      → IsSettled draw_int n (core h)
      → IsSettled draw_int n (core (handle_input h client i))
  unfolding handle_input apply
  handle_input-IsSettled n h client i s =
      let t =
        world-IsSettled n (core h) (apply_input h.world client.id i).0
          (apply-IsConsistent h.world (inputs client.id i) s.world)
          (λ x. World.Presence.has_player-apply_input h.world client.id i x) s in
      if_both (λ g. IsSettled draw_int n (core g)) (not (is_current h client)) s
        (if_both (λ g. IsSettled draw_int n (core g)) (apply_input h.world client.id i).1 t t)

  simulate-IsSettled :
      (n : ℕ) (h : Hub F) → IsSettled draw_int n (core h) → IsSettled draw_int n (core (simulate h))
  unfolding simulate apply
  simulate-IsSettled n h s =
      world-IsSettled n (core h) (step h.world (lit 5 100)).0
        (apply-IsConsistent h.world (steps (lit 5 100)) s.world)
        (λ x. World.Presence.has_player-step h.world (lit 5 100) x) s

  appearance-IsSettled :
      (n : ℕ) (h : Hub F) (id : ℕ) (look : Appearance)
      → IsSettled draw_int n (core h)
      → IsSettled draw_int n (core (apply_appearance_update h id look))
  unfolding apply_appearance_update apply
  appearance-IsSettled n h id look s =
      let r = update_player_appearance h.world id look in
      let t =
        world-IsSettled n (core h) r.0 (apply-IsConsistent h.world (appears id look) s.world)
          (λ x. World.Presence.has_player-update_appearance h.world id look x) s in
      if_both (λ g. IsSettled draw_int n (core g)) (not (has_player h.world id)) s
        (if_both (λ g. IsSettled draw_int n (core g)) (not r.2 || not r.1) t t)

  log_stats-IsSettled :
      (n : ℕ) (h : Hub F)
      → IsSettled draw_int n (core h)
      → IsSettled draw_int n (core (log_stats h).0)
  unfolding log_stats take_stats Aoi.has_player
  log_stats-IsSettled n h s = record {
    world = s.world;
    aoi = IsStructured-stats _ s.aoi;
    placed = s.placed;
    connected = s.connected;
    keyed = s.keyed;
    unique = s.unique;
    field = s.field;
    working = s.working;
  }

  disconnect_user-IsSettled :
      (n : ℕ) (h : Hub F) (id : ℕ)
      → IsSettled draw_int n (core h)
      → IsSettled draw_int n (core (disconnect_user h id))
  unfolding disconnect_user
  disconnect_user-IsSettled n h id s = subst (IsSettled draw_int n) (sym (core-drain_positions _)) (
      option_both (λ g. IsSettled draw_int n (core g)) (Map.lookup id h.players.clients) s
        (λ client _. remove_client-IsSettled draw_int n h client s))

  module _ (load : ℕ → Option (SavedPlayerLoad F)) (encodes takes : ℕ → Bool)
      (draw_float : ℕ → F) where
    handle-IsSettled :
        (n : ℕ) (h : Hub F) (e : HubEvent)
        → IsSettled draw_int (suc n) (core h)
        → Succeeds
            (handle load encodes takes draw_float draw_int h e)
            (λ g. IsSettled draw_int n (core g))
    unfolding handle
    handle-IsSettled n h e big = go e
      where
        s : IsSettled draw_int n (core h)
        s = IsSettled-weaken draw_int (suc n) n (core h) (omega arith) big

        go :
            (e : HubEvent)
            → Succeeds
                (handle load encodes takes draw_float draw_int h e)
                (λ g. IsSettled draw_int n (core g))
        go (registers client) = register_client-IsSettled draw_int encodes takes n load h client s
        go (unregisters client) = remove_client-IsSettled draw_int n h client s
        go (receives_input client i) = handle_input-IsSettled n h client i s
        go simulates = simulate-IsSettled n h s
        go (broadcasts now) = broadcast_replication-IsSettled draw_int draw_float now n h s
        go persists = subst (IsSettled draw_int n) (sym (core-persist_dirty_positions h)) s
        go logs = log_stats-IsSettled n h s
        go (disconnects id) = disconnect_user-IsSettled n h id s
        go (changes_appearance id look) = appearance-IsSettled n h id look s
        go (collects client item now) =
            process_collect-IsSettled draw_int encodes takes n now h client item big
        go (asks_leaderboard id) = s

    hub_step-IsSettled :
        (n : ℕ) (h : Hub F) (e : HubStep)
        → IsSettled draw_int (suc n) (core h)
        → Succeeds
            (hub_step load encodes takes draw_float draw_int h e)
            (λ g. IsSettled draw_int n (core g))
    unfolding hub_step
    hub_step-IsSettled n h (receives e) s =
        Succeeds-bind (λ g. IsSettled draw_int n (core g)) (λ g. IsSettled draw_int n (core g))
          (handle load encodes takes draw_float draw_int h e) _
          (λ g t. subst (IsSettled draw_int n) (sym (core-drain_scores g)) t)
          (handle-IsSettled n h e s)
    hub_step-IsSettled n h (finishes idx outcome) big =
        let s = IsSettled-weaken draw_int (suc n) n (core h) (omega arith) big in
        record {
          world = s.world;
          aoi = s.aoi;
          placed = s.placed;
          connected = s.connected;
          keyed = s.keyed;
          unique = s.unique;
          field = s.field;
          working = run_one-IsWorking h.replication.dispatcher idx outcome s.working;
        }

    run_hub_from-IsSettled :
        (es : List HubStep) (h : Hub F)
        → IsSettled draw_int (length es) (core h)
        → Succeeds
            (run_hub load encodes takes draw_float draw_int h es)
            (λ g. IsSettled draw_int 0 (core g))
    unfolding run_hub
    run_hub_from-IsSettled [] h s = s
    run_hub_from-IsSettled (e ∷ es) h s =
        Succeeds-elim (λ g. IsSettled draw_int (length es) (core g))
          (λ g. IsSettled draw_int 0 (core g)) (hub_step load encodes takes draw_float draw_int h e)
          _ (λ g t. run_hub_from-IsSettled es g t) (hub_step-IsSettled (length es) h e s)

    worker_count_positive : (processors : ℕ) → 0 < worker_count processors
    unfolding worker_count
    worker_count_positive processors = ground arith

    -- A new hub over an empty world and a ready collectible field, if it has one, handles every
    -- sequence of events and worker rounds without a panic, whatever the loader, the encoder, the
    -- connections and the random source do; afterwards the world, the AOI index and the clients
    -- have the same players, each under its own id, and the world, the index, the field and the
    -- dispatcher are well kept. A ready field is well kept, its delays can be drawn, and its ids
    -- last for one item more per step.
    pub run_hub-IsSettled :
        (c : Config F) (field : Option (CollectibleField F)) (has_positions has_scores : Bool)
        (processors : ℕ) (es : List HubStep)
        → ((f : CollectibleField F) → field ≡ some f → IsReady draw_int (length es) f)
        → Succeeds
            (run_hub load encodes takes draw_float draw_int
              (new_hub (new_world c) has_positions field has_scores processors)
              es)
            (λ g. IsSettled draw_int 0 (core g))
    unfolding new_hub new_world new_aoi_index new_replication_dispatcher Aoi.has_player has_player
        Map.lookup
    run_hub-IsSettled c field has_positions has_scores processors es ready =
        run_hub_from-IsSettled es (new_hub (new_world c) has_positions field has_scores processors)
          (record {
            world = new-IsConsistent c;
            aoi = new-IsStructured (aoi_config_from_world c);
            placed = λ x. refl;
            connected = λ x. refl;
            keyed = λ x k e. cc;
            unique = tt;
            field = ready;
            working = record {
              some_worker = worker_count_positive processors;
              queues = length-replicate (worker_count processors) [];
            };
          })
