-- ===== src/Realtime/Hub/Broadcast/Rounds.antt =====
-- hub.go, broadcastReplication: it runs to its end and keeps the hub settled.
use map_walker.Prelude.{
  ℕ, ◌≡◌, refl, ◌∙◌, subst, sym, true, not, ◌&&◌, Option, some, List, [], ◌∷◌, ◌++◌, arith, if_both,
  if◌then◌else◌, option_both, Succeeds, Succeeds-bind, Succeeds-elim, length,
}
use map_walker.Prelude.Eq.{nat_eq}
use map_walker.Prelude.Int.{ℤ}
use map_walker.Prelude.Float.{Float64}
use map_walker.Prelude.Map
use map_walker.Game.Aoi
use map_walker.Game.Aoi.{AoiIndex, MovementDelta, move_detailed}
use map_walker.Game.Aoi.Presence.{HasAlso, move_detailed-HasAlso}
use map_walker.Game.World.{
  PlayerState, PlayerPosition, has_player, player_position, player_state, take_moved_player_ids,
  take_removed_player_ids,
}
use map_walker.Game.World.Invariant.{apply, takes_moved, takes_removed, apply-IsConsistent}
use map_walker.Game.Collectibles.{CollectibleField}
use map_walker.Realtime.Builder.{ReplicationBuildInput, ReplicationJob}
use map_walker.Realtime.Dispatcher.{submit_job}
use map_walker.Realtime.Dispatcher.Queues.{IsWorking, submit_job-IsWorking}
use map_walker.Realtime.Hub.State.{Hub, HubClient, is_connected}
use map_walker.Realtime.Hub.Core.{Core, core, IsSettled}
use map_walker.Realtime.Hub.Clients.Leaving.{core-tell_left}
use map_walker.Realtime.Hub.Collects.{advance_collectible_replacements}
use map_walker.Realtime.Hub.Collects.Picking.{
  advance_collectible_replacements-IsSettled, recalc_collectible_visibility-IsSettled,
}
use map_walker.Realtime.Hub.Broadcast.{
  note_entered, note_delta, take_moved, take_pending, take_pending_entered, take_pending_left,
  take_pending_appearances, clear_pending_collect, build_input, has_nothing, submit_jobs,
  send_updates, count_moved, apply_movement_aoi_deltas, update_collectibles, broadcast_replication,
}

module _ {F : Type 0} where
  core-note_entered :
      (ns : List ℕ) (id : ℕ) (state : PlayerState F) (h : Hub F)
      → core (note_entered ns id state h) ≡ core h
  unfolding note_entered
  core-note_entered [] id state h = refl
  core-note_entered (n ∷ ns) id state h =
      core-note_entered ns id state _
      ∙ if_both (λ g. core g ≡ core h)
          (is_connected h n && not (Map.has id h.replication.pending_entered)) refl refl

  core-note_delta :
      (h : Hub F) (delta : MovementDelta) (state : PlayerState F)
      → core (note_delta h delta state) ≡ core h
  unfolding note_delta
  core-note_delta h delta state =
      core-tell_left delta.player_id delta.left _
      ∙ core-note_entered delta.entered delta.player_id state h

module _ ⦃fl : Float64⦄ (draw_int : ℕ → ℕ → ℕ) where
  open fl use {F}

  moved-IsSettled :
      (n : ℕ) (k : Core F) (id : ℕ) (a : AoiIndex F)
      → Aoi.has_player k.aoi id ≡ true
      → HasAlso id k.aoi a
      → IsSettled draw_int n k
      → IsSettled draw_int n (record k { aoi = a })
  moved-IsSettled n k id a here also s = record {
    world = s.world;
    aoi = also.structured;
    placed = λ x. ground (arith, also.players x, s.placed x, here);
    connected = s.connected;
    keyed = s.keyed;
    unique = s.unique;
    field = s.field;
    working = s.working;
  }

  submit_jobs-IsSettled :
      (n : ℕ) (jobs : List (ReplicationJob F HubClient)) (h : Hub F)
      → IsSettled draw_int n (core h)
      → Succeeds (submit_jobs jobs h) (λ g. IsSettled draw_int n (core g))
  unfolding submit_jobs
  submit_jobs-IsSettled n [] h s = s
  submit_jobs-IsSettled n (job ∷ jobs) h s =
      Succeeds-elim (λ r. IsWorking r.0) (λ g. IsSettled draw_int n (core g))
        (submit_job h.replication.dispatcher job.recipient_id job) _
        (λ r w. submit_jobs-IsSettled n jobs _ (record {
          world = s.world;
          aoi = s.aoi;
          placed = s.placed;
          connected = s.connected;
          keyed = s.keyed;
          unique = s.unique;
          field = s.field;
          working = w;
        }))
        (submit_job-IsWorking h.replication.dispatcher job.recipient_id job s.working)

  in_index :
      (n : ℕ) (h : Hub F) (id : ℕ) (p : PlayerPosition F)
      → player_position h.world id ≡ some p
      → IsSettled draw_int n (core h)
      → Aoi.has_player h.aoi id ≡ true
  unfolding player_position has_player
  in_index n h id p e s = ground (arith, s.placed id, e)

  apply_movement-IsSettled :
      (n : ℕ) (ids : List ℕ) (h : Hub F) (deltas : List MovementDelta)
      → IsSettled draw_int n (core h)
      → Succeeds (apply_movement_aoi_deltas ids h deltas) (λ r. IsSettled draw_int n (core r.0))
  unfolding apply_movement_aoi_deltas
  apply_movement-IsSettled n [] h deltas s = s
  apply_movement-IsSettled n (id ∷ ids) h deltas s =
      option_both
        (λ (o : Option (Hub F × List MovementDelta)).
          Succeeds o (λ r. IsSettled draw_int n (core r.0)))
        (player_position h.world id) (apply_movement-IsSettled n ids h deltas s)
        (λ p e.
          let here = in_index n h id p e s in
          Succeeds-elim (λ r. HasAlso id h.aoi r.0) (λ r. IsSettled draw_int n (core r.0))
            (move_detailed h.aoi id p.lat p.lng) _
            (λ r also.
              let t = moved-IsSettled n (core h) id r.0 here also s in
              option_both
                (λ (o : Option (Hub F × List MovementDelta)).
                  Succeeds o (λ r. IsSettled draw_int n (core r.0)))
                (player_state h.world id) (apply_movement-IsSettled n ids _ deltas t)
                (λ state _. apply_movement-IsSettled n ids _ (deltas ++ (r.1 ∷ [])) (
                  subst (IsSettled draw_int n)
                    (sym (core-note_delta (record h { aoi = r.0 }) r.1 state)) t)))
            (move_detailed-HasAlso h.aoi id p.lat p.lng s.aoi here))

  module _ (draw_float : ℕ → F) (now : ℤ) where
    update_collectibles-IsSettled :
        (n : ℕ) (moved : List ℕ) (h : Hub F)
        → IsSettled draw_int n (core h)
        → Succeeds (update_collectibles draw_float now moved h) (λ g. IsSettled draw_int n (core g))
    unfolding update_collectibles
    update_collectibles-IsSettled n moved h s =
        option_both (λ (o : Option (Hub F)). Succeeds o (λ g. IsSettled draw_int n (core g)))
          h.collectibles.field s
          (λ f e.
            Succeeds-elim
              (λ g.
                IsSettled draw_int n (core g)
                × ((f' : CollectibleField F) × (g.collectibles.field ≡ some f')))
              (λ g. IsSettled draw_int n (core g))
              (advance_collectible_replacements draw_float now f h) _
              (λ g (t, (f', e')).
                rw e' (recalc_collectible_visibility-IsSettled draw_int n moved g f' e' t))
              (advance_collectible_replacements-IsSettled draw_int n draw_float now f h e s))

    taken-IsSettled :
        (n : ℕ) (h : Hub F)
        → IsSettled draw_int n (core h)
        → IsSettled draw_int n (core (take_moved h).0)
    unfolding take_moved_player_ids take_removed_player_ids apply has_player
    taken-IsSettled n h s = record {
      world =
          apply-IsConsistent (take_moved_player_ids h.world).0 takes_removed
            (apply-IsConsistent h.world takes_moved s.world);
      aoi = s.aoi;
      placed = s.placed;
      connected = s.connected;
      keyed = s.keyed;
      unique = s.unique;
      field = s.field;
      working = s.working;
    }

    -- The end of broadcastReplication.
    sent-IsSettled :
        (n : ℕ) (moved : List ℕ) (h : Hub F) (input : ReplicationBuildInput F)
        → IsSettled draw_int n (core h)
        → Succeeds
            (if has_nothing moved input
              then some (clear_pending_collect h)
              else send_updates (clear_pending_collect h) input)
            (λ g. IsSettled draw_int n (core g))
    unfolding send_updates clear_pending_collect
    sent-IsSettled n moved h input s =
        if_both (λ (o : Option (Hub F)). Succeeds o (λ g. IsSettled draw_int n (core g)))
          (has_nothing moved input) s (submit_jobs-IsSettled n _ _ s)

    -- broadcastReplication never panics, and leaves the hub settled.
    pub broadcast_replication-IsSettled :
        (n : ℕ) (h : Hub F)
        → IsSettled draw_int n (core h)
        → Succeeds (broadcast_replication draw_float now h) (λ g. IsSettled draw_int n (core g))
    unfolding broadcast_replication take_pending_entered take_pending_left take_pending_appearances
    broadcast_replication-IsSettled n h s =
        let h1 = take_moved h in
        Succeeds-bind (λ r. IsSettled draw_int n (core r.0)) (λ g. IsSettled draw_int n (core g))
          (apply_movement_aoi_deltas h1.1 h1.0 []) _
          (λ r t.
            let h3 = count_moved (length h1.1) r.0 in
            Succeeds-bind (λ g. IsSettled draw_int n (core g)) (λ g. IsSettled draw_int n (core g))
              (update_collectibles draw_float now h1.1 (take_pending h3)) _
              (λ h4 u. sent-IsSettled n h1.1 h4 (build_input h3 h4 r.1) u)
              (update_collectibles-IsSettled n h1.1 (take_pending h3) t))
          (apply_movement-IsSettled n h1.1 h1.0 [] (taken-IsSettled n h s))
