-- ===== src/Realtime/Hub/Clients/Leaving.antt =====
-- hub.go, removeClient: what it does to the world, the index and the clients.
use map_walker.Prelude.{
  ℕ, ◌≡◌, refl, ◌∙◌, ap, subst, sym, not, List, [], ◌∷◌, arith, if_both, option_both,
}
use map_walker.Prelude.Eq.{nat_eq}
use map_walker.Prelude.Float.{Float64}
use map_walker.Prelude.Map
use map_walker.Prelude.Map.{lookup-delete, delete-UniqueKeys}
use map_walker.Game.Aoi
use map_walker.Game.Aoi.{AoiIndex}
use map_walker.Game.Aoi.Remove.{remove-IsStructured}
use map_walker.Game.World.{remove_player, player_position}
use map_walker.Game.World
use map_walker.Game.World.Invariant.{apply, removes, apply-IsConsistent}
use map_walker.Realtime.Hub.State.{Hub, HubClient, is_connected, close_send}
use map_walker.Realtime.Hub.Core.{Core, core, IsSettled}
use map_walker.Realtime.Hub.Clients.{
  submit_final_position, submit_final_score, tell_left, clear_pending_replication_for,
  remove_current, is_current, remove_client, drop_client, drop_from_aoi,
}

module _ {F : Type 0} where
  pub core-submit_final_position : (h : Hub F) (id : ℕ) → core (submit_final_position h id) ≡ core h
  unfolding submit_final_position
  core-submit_final_position h id =
      if_both (λ g. core g ≡ core h) (not h.persistence.has_positions) refl
        (option_both (λ g. core g ≡ core h) (player_position h.world id) refl (λ p e. refl))

  core-submit_final_score : (h : Hub F) (id : ℕ) → core (submit_final_score h id) ≡ core h
  unfolding submit_final_score
  core-submit_final_score h id =
      if_both (λ g. core g ≡ core h) (not h.collectibles.has_score_persister) refl
        (option_both (λ g. core g ≡ core h) (Map.lookup id h.players.scores) refl (λ score e. refl))

  pub core-tell_left : (id : ℕ) (ns : List ℕ) (h : Hub F) → core (tell_left id ns h) ≡ core h
  unfolding tell_left
  core-tell_left id [] h = refl
  core-tell_left id (n ∷ ns) h =
      core-tell_left id ns _ ∙ if_both (λ g. core g ≡ core h) (is_connected h n) refl refl

  -- The core without this player.
  abbrev pub dropped : Core F → ℕ → Core F
  dropped k id = record k {
    world = (remove_player k.world id).0;
    aoi = (Aoi.remove k.aoi id).0;
    clients = Map.delete id k.clients;
  }

  pub core-remove_current :
      (h : Hub F) (client : HubClient) → core (remove_current h client) ≡ dropped (core h) client.id
  unfolding remove_current clear_pending_replication_for close_send
  core-remove_current h client =
      let id = client.id in
      let h1 = submit_final_score (submit_final_position (drop_client h id) id) id in
      ap (λ (k : Core F). record k { world = (remove_player k.world id).0 })
        (core-tell_left id (Aoi.remove h1.aoi id).1.left (drop_from_aoi h1 id))
      ∙ ap
          (λ (k : Core F). record k {
            world = (remove_player k.world id).0;
            aoi = (Aoi.remove k.aoi id).0;
          })
          (core-submit_final_score (submit_final_position (drop_client h id) id) id
            ∙ core-submit_final_position (drop_client h id) id)

module _ ⦃fl : Float64⦄ (draw_int : ℕ → ℕ → ℕ) where
  open fl use {F}

  dropped-IsSettled :
      (n : ℕ) (k : Core F) (id : ℕ) → IsSettled draw_int n k → IsSettled draw_int n (dropped k id)
  unfolding apply
  dropped-IsSettled n k id s = record {
    world = apply-IsConsistent k.world (removes id) s.world;
    aoi = remove-IsStructured k.aoi id s.aoi;
    placed = λ x. ground (
      arith,
      Aoi.Presence.has_player-remove k.aoi id x s.aoi,
      World.Presence.has_player-remove k.world id x,
      s.placed x,
    );
    connected = λ x. ground (
      arith,
      lookup-delete id x k.clients,
      World.Presence.has_player-remove k.world id x,
      s.connected x,
    );
    keyed = λ x c e. ground (arith, lookup-delete id x k.clients, s.keyed x c);
    unique = delete-UniqueKeys id k.clients s.unique;
    field = s.field;
    working = s.working;
  }

  pub remove_client-IsSettled :
      (n : ℕ) (h : Hub F) (client : HubClient)
      → IsSettled draw_int n (core h)
      → IsSettled draw_int n (core (remove_client h client))
  unfolding remove_client
  remove_client-IsSettled n h client s =
      if_both (λ g. IsSettled draw_int n (core g)) (is_current h client)
        (subst (IsSettled draw_int n) (sym (core-remove_current h client))
          (dropped-IsSettled n (core h) client.id s))
        s
