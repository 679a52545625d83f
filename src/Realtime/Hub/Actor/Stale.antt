-- ===== src/Realtime/Hub/Actor/Stale.antt =====
-- hub.go: the events of a connection that another one has replaced.
use map_walker.Prelude.{
  ℕ, ◌≡◌, refl, ◌∙◌, ap, Bool, true, false, Option, none, some, inl, inr, arith, ◌==◌, Succeeds,
  Succeeds_map,
}
use map_walker.Prelude.Eq.{nat_eq}
use map_walker.Prelude.Int.{ℤ}
use map_walker.Prelude.Float.{Float64}
use map_walker.Prelude.Map
use map_walker.Prelude.Map.{lookup-insert}
use map_walker.Game.World
use map_walker.Game.World.{InputState, reset_input}
use map_walker.Game.World.Invariant.{apply, resets, apply-IsConsistent}
use map_walker.Realtime.Hub.State.{Hub, HubClient, SavedPlayerLoad, is_connected, close_send}
use map_walker.Realtime.Hub.Core.{core, IsSettled}
use map_walker.Realtime.Hub.Clients.{
  is_current, remove_client, register_client, replace_connection, welcome, put_client,
  send_initialization, clear_pending_replication_for,
}
use map_walker.Realtime.Hub.Clients.Joining.{again-IsSettled}
use map_walker.Realtime.Hub.Clients.Welcome.{IsWelcomed, IsRefused, send_initialization-outcome}
use map_walker.Realtime.Hub.Clients.Sending.{Either}
use map_walker.Realtime.Hub.Collects.{process_collect}
use map_walker.Realtime.Hub.Actor.{handle, handle_input, unregisters, inputs, collects}

module _ ⦃fl : Float64⦄ (load : ℕ → Option (SavedPlayerLoad fl.F)) (encodes takes : ℕ → Bool)
    (draw_float : ℕ → fl.F) (draw_int : ℕ → ℕ → ℕ) where
  open fl use {F}

  -- The events of a connection that is not the current one.
  handle-stale :
      (h : Hub F) (client : HubClient) (i : InputState) (item : ℕ) (now : ℤ)
      → is_current h client ≡ false
      → (handle load encodes takes draw_float draw_int h (unregisters client) ≡ some h)
        × (handle load encodes takes draw_float draw_int h (inputs client i) ≡ some h)
        × (handle load encodes takes draw_float draw_int h (collects client item now) ≡ some h)
  unfolding handle remove_client handle_input process_collect
  handle-stale h client i item now stale = (
    rw (stale, remove_client) refl,
    rw (stale, handle_input) refl,
    rw (stale, process_collect) refl,
  )

  is_current-core :
      (g h : Hub F) (c : HubClient) → core g ≡ core h → is_current g c ≡ is_current h c
  unfolding is_current
  is_current-core g h c e =
      ap
        (λ k. elim (Map.lookup c.id k.clients) [ none ↦ false | some found ↦ found.conn == c.conn ])
        e

  not_connected : (g : Hub F) (c : HubClient) → is_connected g c.id ≡ false → is_current g c ≡ false
  unfolding is_current is_connected
  not_connected g c e = ground (arith, e)

  -- With another connection in the place of the old one.
  put-current :
      (h : Hub F) (old client : HubClient)
      → old.id ≡ client.id
      → (client.conn == old.conn) ≡ false
      → (is_current (put_client encodes takes h client) client ≡ true)
        × (is_current (put_client encodes takes h client) old ≡ false)
  unfolding is_current
  put-current h old client same other = (
    ground (arith, lookup-insert client.id client.id client h.players.clients),
    ground (arith, lookup-insert client.id old.id client h.players.clients, same, other),
  )

  -- Whether the new connection is welcomed or refused, the old one is not the current one.
  outdated :
      (k : Hub F) (old client : HubClient)
      → old.id ≡ client.id
      → is_current k old ≡ false
      → (g : Hub F)
      → Either encodes takes k.output.attempts 4 (IsWelcomed k client g) (IsRefused client g)
      → is_current g old ≡ false
  outdated k old client same stale g (inl (_, welcomed)) =
      is_current-core g k old welcomed.kept ∙ stale
  outdated k old client same stale g (inr (_, refused)) =
      not_connected g old (ap (is_connected g) same ∙ refused.gone)

  -- The hub after the new connection of a connected player.
  register_client-replaced :
      (n : ℕ) (h : Hub F) (old client : HubClient)
      → Map.lookup client.id h.players.clients ≡ some old
      → (old.conn == client.conn) ≡ false
      → IsSettled draw_int n (core h)
      → Succeeds (register_client encodes takes load h client) (λ g. is_current g old ≡ false)
  unfolding register_client replace_connection welcome clear_pending_replication_for close_send
      apply
  register_client-replaced n h old client e other s =
      let same = s.keyed client.id old e in
      let k = record (close_send h old) { world = reset_input h.world client.id } in
      let c = put-current k old client same (ground (arith, other)) in
      let q = clear_pending_replication_for (put_client encodes takes k client) client.id in
      rw (e, other, register_client)
        (Succeeds_map (send_initialization encodes takes q client)
          (outdated q old client same
            (is_current-core q (put_client encodes takes k client) old refl ∙ c.1))
          (send_initialization-outcome encodes takes draw_int n q client
            (is_current-core q (put_client encodes takes k client) client refl ∙ c.0)
            (again-IsSettled draw_int encodes takes n (close_send h old) client
              (reset_input h.world client.id)
              (apply-IsConsistent h.world (resets client.id) s.world)
              (λ x. World.Presence.has_player-reset_input h.world client.id x)
              (ground (arith, s.connected client.id, e)) s)))

  -- When a connected player of a settled hub registers another connection, registerClient returns,
  -- whatever becomes of the new one; in the hub that it leaves, an unregistration, an input and a
  -- collect request of the old connection change nothing.
  pub replaced-stale :
      (n : ℕ) (h : Hub F) (old client : HubClient) (i : InputState) (item : ℕ) (now : ℤ)
      → Map.lookup client.id h.players.clients ≡ some old
      → (old.conn == client.conn) ≡ false
      → IsSettled draw_int n (core h)
      → Succeeds (register_client encodes takes load h client) (λ g.
        (handle load encodes takes draw_float draw_int g (unregisters old) ≡ some g)
        × (handle load encodes takes draw_float draw_int g (inputs old i) ≡ some g)
        × (handle load encodes takes draw_float draw_int g (collects old item now) ≡ some g))
  replaced-stale n h old client i item now e other s =
      Succeeds_map (register_client encodes takes load h client)
        (λ g stale. handle-stale g old i item now stale)
        (register_client-replaced n h old client e other s)
