-- ===== src/Realtime/Hub/Clients/Outcomes.antt =====
-- hub.go, removeClient: what becomes of a connection.
use map_walker.Prelude.{ℕ, ◌≡◌, ◌∙◌, ap, Bool, true, not, ◌&&◌, arith, ◌==◌}
use map_walker.Prelude.Eq.{nat_eq}
use map_walker.Prelude.Float.{Float64}
use map_walker.Prelude.Map
use map_walker.Prelude.Map.{lookup-delete}
use map_walker.Prelude.Set.{contains}
use map_walker.Game.Aoi
use map_walker.Game.World
use map_walker.Game.World.{PlayerState, player_state, player_states}
use map_walker.Realtime.Hub.State.{Hub, HubClient, is_connected, close_send}
use map_walker.Realtime.Hub.Clients.{remove_current, remove_client, is_current}
use map_walker.Realtime.Hub.Clients.Leaving.{core-remove_current}
use map_walker.Realtime.Hub.Clients.Joining.{}

-- The connection is closed.
abbrev pub is_closed : {F : Type 0} → Hub F → HubClient → Bool
is_closed h client = contains client.conn h.output.closed

module _ {F : Type 0} where
  pub closed-remove_current :
      (h : Hub F) (client : HubClient) → is_closed (remove_current h client) client ≡ true
  unfolding remove_current close_send contains
  closed-remove_current h client = ground arith

module _ ⦃fl : Float64⦄ where
  open fl use {F}

  -- removeClient of the current connection, on a well-kept AOI index, takes exactly its player out
  -- of the clients, the world and the index, and closes the connection.
  pub remove_client-removed :
      (h : Hub F) (client : HubClient) (x : ℕ)
      → is_current h client ≡ true
      → Aoi.Structure.IsStructured h.aoi
      → (is_connected (remove_client h client) x ≡ (not (client.id == x) && is_connected h x))
        × (World.has_player (remove_client h client).world x
            ≡ (not (client.id == x) && World.has_player h.world x))
        × (Aoi.has_player (remove_client h client).aoi x
            ≡ (not (client.id == x) && Aoi.has_player h.aoi x))
        × (is_closed (remove_client h client) client ≡ true)
  unfolding remove_client is_connected
  remove_client-removed h client x current s =
      let e = core-remove_current h client in
      rw (current, remove_client)
        (
          ap (λ k. Map.has x k.clients) e
              ∙ ground (arith, lookup-delete client.id x h.players.clients),
          ap (λ k. World.has_player k.world x) e
              ∙ World.Presence.has_player-remove h.world client.id x,
          ap (λ k. Aoi.has_player k.aoi x) e ∙ Aoi.Presence.has_player-remove h.aoi client.id x s,
          closed-remove_current h client,
        )
