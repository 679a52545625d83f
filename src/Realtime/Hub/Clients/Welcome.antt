-- ===== src/Realtime/Hub/Clients/Welcome.antt =====
-- hub.go, sendInitialization: what a new connection is sent, errors included.
use map_walker.Prelude.{
  ℕ, ◌+◌, ◌≡◌, refl, ◌∙◌, ap, sym, subst, Bool, true, false, not, ◌&&◌, inl, inr, Option, or_else,
  none, some, List, [], ◌∷◌, arith, Option-cases, if_both, if_cases, option_cases, Succeeds,
  Succeeds_map, Succeeds-bind, ◌==◌,
}
use map_walker.Prelude.Eq.{nat_eq}
use map_walker.Prelude.Float.{Float64}
use map_walker.Prelude.Map
use map_walker.Prelude.Map.{lookup-delete}
use map_walker.Prelude.MultiMap.{is_empty}
use map_walker.Game.Aoi
use map_walker.Game.World.{
  PlayerState, PlayerPosition, player_state, player_states, player_position, has_player,
}
use map_walker.Game.Collectibles.{
  Collectible, CollectibleRegion, CollectibleField, collectibles_within_radius,
}
use map_walker.Game.Collectibles.Within.{AreAround, collectibles_within_radius-AreAround}
use map_walker.Realtime.Hub.State.{
  Hub, HubClient, HubMessage, self_state, visible_entities, collectible_regions,
  visible_collectibles, player_score, is_connected,
}
use map_walker.Realtime.Hub.Core.{core, IsSettled}
use map_walker.Realtime.Hub.Clients.{
  remove_client, is_current, send_all, send_collectibles, send_initialization, initial_collectibles,
  track_initial,
}
use map_walker.Realtime.Hub.Clients.Leaving.{core-remove_current}
use map_walker.Realtime.Hub.Clients.Joining.{core-send_all, send_all-IsSettled, core-track_initial}
use map_walker.Realtime.Hub.Clients.Sending.{
  sent_to, all_pass, Either, first_failed, send_all-result, send_all-Sent,
}
use map_walker.Realtime.Hub.Clients.Outcomes.{is_closed, closed-remove_current}

module _ {F : Type 0} where
  -- The four messages of an initialization.
  abbrev pub initialization :
      ℕ
      → PlayerState F
      → ℕ
      → List (PlayerState F)
      → List (CollectibleRegion F)
      → List (Collectible F)
      → List (HubMessage F)
  initialization tick self score neighbors regions items =
      self_state tick self score
      ∷ visible_entities tick neighbors
      ∷ collectible_regions tick regions
      ∷ visible_collectibles tick items
      ∷ []

  -- The connection is gone and closed.
  pub record IsRefused (client : HubClient) (g : Hub F) : Type 0 where
    pub gone : is_connected g client.id ≡ false
    pub closed : is_closed g client ≡ true

  is_current-same :
      (g h : Hub F) (client : HubClient)
      → core g ≡ core h
      → is_current h client ≡ true
      → is_current g client ≡ true
  unfolding is_current
  is_current-same g h client e current =
      ap
        (λ k. elim (Map.lookup client.id k.clients) [
          | none ↦ false
          | some found ↦ found.conn == client.conn
        ])
        e
      ∙ current

  current-connected :
      (h : Hub F) (client : HubClient)
      → is_current h client ≡ true
      → is_connected h client.id ≡ true
  unfolding is_current is_connected
  current-connected h client e = ground (arith, e)

  remove_client-IsRefused :
      (h : Hub F) (client : HubClient)
      → is_current h client ≡ true
      → IsRefused client (remove_client h client)
  unfolding remove_client is_connected
  remove_client-IsRefused h client current =
      rw (current, remove_client)
        (record {
          gone =
              ap (λ k. Map.has client.id k.clients) (core-remove_current h client)
              ∙ ground (arith, lookup-delete client.id client.id h.players.clients);
          closed = closed-remove_current h client;
        })

module _ ⦃fl : Float64⦄ where
  open fl use {F, lit}

  -- The regions of the field and exactly its items around this position, up to 500 m away; nothing
  -- where there is no field.
  abbrev pub IsOffered :
      Option (CollectibleField F)
      → F
      → F
      → List (CollectibleRegion F)
      → List (Collectible F)
      → Type 0
  IsOffered none lat lng regions items = (regions ≡ []) × (items ≡ [])
  IsOffered (some f) lat lng regions items =
      (regions ≡ f.regions) × AreAround f lat lng (lit 500 1) items

  -- The hub has kept its state, and has sent the four messages on the connection, in order and
  -- nothing else.
  pub record IsWelcomed (h : Hub F) (client : HubClient) (g : Hub F) : Type 0 where
    pub kept : core g ≡ core h
    pub self : PlayerState F
    pub in_world : player_state h.world client.id ≡ some self
    pub regions : List (CollectibleRegion F)
    pub items : List (Collectible F)
    pub offered : IsOffered h.collectibles.field self.lat self.lng regions items
    pub messages :
        g.output.sent
        ≡ sent_to client.conn
            (initialization h.world.tick self
              (player_score h client.id)
              (player_states h.world (Aoi.visible_neighbors h.aoi client.id))
              regions
              items)
            h.output.sent

  position_of : (h : Hub F) (id : ℕ) → PlayerPosition F
  position_of h id =
      or_else (player_position h.world id) (record { id = 0; lat = lit 0 1; lng = lit 0 1 })

  position_of_self :
      (h : Hub F) (id : ℕ) (self : PlayerState F)
      → player_state h.world id ≡ some self
      → ((position_of h id).lat ≡ self.lat) × ((position_of h id).lng ≡ self.lng)
  unfolding position_of player_state player_position
  position_of_self h id self e = elim (Option-cases (Map.lookup id h.world.players)) [
    | inl absent ↦ absurd (ground (arith, absent, e))
    | inr (p, found) ↦ ground (arith, found, e)
  ]

  -- The initial items are those around the position of the player.
  initial_collectibles-IsOffered :
      (draw_int : ℕ → ℕ → ℕ) (n : ℕ) (h : Hub F) (id : ℕ) (self : PlayerState F)
      → IsSettled draw_int n (core h)
      → player_state h.world id ≡ some self
      → Succeeds
          (initial_collectibles h id)
          (λ r. IsOffered h.collectibles.field self.lat self.lng r.0 r.1)
  unfolding initial_collectibles position_of
  initial_collectibles-IsOffered draw_int n h id self s e =
      let p = position_of h id in
      let (same_lat, same_lng) = position_of_self h id self e in
      subst
        (λ lat.
          Succeeds (initial_collectibles h id)
            (λ r. IsOffered h.collectibles.field lat self.lng r.0 r.1))
        same_lat
        (subst
          (λ lng.
            Succeeds (initial_collectibles h id)
              (λ r. IsOffered h.collectibles.field p.lat lng r.0 r.1))
          same_lng
          (option_cases
            (λ (o : Option (List (CollectibleRegion F) × List (Collectible F))).
              Succeeds o (λ r. IsOffered h.collectibles.field p.lat p.lng r.0 r.1))
            h.collectibles.field
            (λ none_there. subst (λ o. IsOffered o p.lat p.lng [] []) (sym none_there) (refl, refl))
            (λ f here.
              Succeeds-bind (AreAround f p.lat p.lng (lit 500 1))
                (λ (r : List (CollectibleRegion F) × List (Collectible F)).
                  IsOffered h.collectibles.field p.lat p.lng r.0 r.1)
                (collectibles_within_radius f p.lat p.lng (lit 500 1)) _
                (λ cs m. subst (λ o. IsOffered o p.lat p.lng f.regions cs) (sym here) (refl, m))
                (collectibles_within_radius-AreAround f p.lat p.lng (lit 500 1)
                  (s.field f here).stocked))))

  module _ (encodes takes : ℕ → Bool) where
    -- The second half, after which the two messages are on top of what was sent.
    record IsTold (self : PlayerState F) (h : Hub F) (client : HubClient) (g : Hub F) : Type 0 where
      kept : core g ≡ core h
      regions : List (CollectibleRegion F)
      items : List (Collectible F)
      offered : IsOffered h.collectibles.field self.lat self.lng regions items
      messages :
          g.output.sent
          ≡ sent_to client.conn
              (collectible_regions h.world.tick regions
                ∷ visible_collectibles h.world.tick items
                ∷ [])
              h.output.sent

    track_initial-sent :
        (h : Hub F) (id : ℕ) (cs : List (Collectible F))
        → (track_initial h id cs).output.sent ≡ h.output.sent
    unfolding track_initial
    track_initial-sent h id cs =
        if_both (λ (g : Hub F). g.output.sent ≡ h.output.sent)
          (Map.is_some h.collectibles.field && not (is_empty cs)) refl refl

    send_collectibles-outcome :
        (draw_int : ℕ → ℕ → ℕ) (n : ℕ) (h : Hub F) (client : HubClient) (self : PlayerState F)
        → is_current h client ≡ true
        → IsSettled draw_int n (core h)
        → player_state h.world client.id ≡ some self
        → Succeeds (send_collectibles encodes takes h client) (λ g.
          Either encodes takes h.output.attempts 2 (IsTold self h client g) (IsRefused client g))
    unfolding send_collectibles
    send_collectibles-outcome draw_int n h client self current s e =
        let Told = λ (g : Hub F).
          Either encodes takes h.output.attempts 2 (IsTold self h client g) (IsRefused client g) in
        Succeeds-bind
          (λ (r : List (CollectibleRegion F) × List (Collectible F)).
            IsOffered h.collectibles.field self.lat self.lng r.0 r.1)
          Told (initial_collectibles h client.id) _
          (λ (regions, items) offered.
            let ms : List (HubMessage F) =
              collectible_regions h.world.tick regions
              ∷ visible_collectibles h.world.tick items
              ∷ [] in
            let r = send_all encodes takes h client ms in
            let same = core-send_all draw_int encodes takes h client ms in
            let g = track_initial r.0 client.id items in
            let result = send_all-result encodes takes ms h client in
            if_cases Told r.1
              (λ ok. inl (
                sym result ∙ ok,
                record {
                  kept = core-track_initial draw_int encodes takes r.0 client.id items ∙ same;
                  regions = regions;
                  items = items;
                  offered = offered;
                  messages =
                      track_initial-sent r.0 client.id items
                      ∙ (send_all-Sent encodes takes ms h client ok).messages;
                },
              ))
              (λ failed. inr (
                sym result ∙ failed,
                remove_client-IsRefused r.0 client (is_current-same r.0 h client same current),
              )))
          (initial_collectibles-IsOffered draw_int n h client.id self s e)

    -- Both halves together.
    join :
        (h k : Hub F) (client : HubClient) (self : PlayerState F)
        → player_state h.world client.id ≡ some self
        → core k ≡ core h
        → all_pass encodes takes h.output.attempts 2 ≡ true
        → k.output.attempts ≡ h.output.attempts + 1 + 1
        → k.output.sent
          ≡ sent_to client.conn
              (self_state h.world.tick self (player_score h client.id)
                ∷ visible_entities h.world.tick
                    (player_states h.world (Aoi.visible_neighbors h.aoi client.id))
                ∷ [])
              h.output.sent
        → (g : Hub F)
        → Either encodes takes k.output.attempts 2 (IsTold self k client g) (IsRefused client g)
        → Either encodes takes h.output.attempts 4 (IsWelcomed h client g) (IsRefused client g)
    unfolding sent_to all_pass
    join h k client self e same passed attempts sent g (inr (failed, refused)) =
        inr (ground (arith, passed, attempts, failed), refused)
    join h k client self e same passed attempts sent g (inl (ok, told)) = inl (
      ground (arith, passed, attempts, ok),
      record {
        kept = told.kept ∙ same;
        self = self;
        in_world = e;
        regions = told.regions;
        items = told.items;
        offered =
            subst (λ c. IsOffered c.field self.lat self.lng told.regions told.items) same
              told.offered;
        messages =
            told.messages
            ∙ ap
                (λ c.
                  (client.conn, visible_collectibles c.world.tick told.items)
                  ∷ (client.conn, collectible_regions c.world.tick told.regions)
                  ∷ k.output.sent)
                same
            ∙ ap
                (λ out.
                  (client.conn, visible_collectibles h.world.tick told.items)
                  ∷ (client.conn, collectible_regions h.world.tick told.regions)
                  ∷ out)
                sent;
      },
    )

    -- The player of a current connection is in the world.
    current-state :
        (draw_int : ℕ → ℕ → ℕ) (n : ℕ) (h : Hub F) (client : HubClient)
        → is_current h client ≡ true
        → IsSettled draw_int n (core h)
        → player_state h.world client.id ≡ none
        → ⊥
    unfolding player_state has_player is_connected
    current-state draw_int n h client current s e =
        ground (arith, s.connected client.id, current-connected h client current, e)

    -- For a current connection of a settled hub, sendInitialization returns. If its next four
    -- messages can be encoded and sent, the hub keeps its world, index, clients, field and
    -- dispatcher, and has sent the connection its state, its neighbours, the regions of the field
    -- and exactly the items of the nine cells around it that are at most 500 m away, in this order
    -- and nothing else; if one of the four cannot, the connection is gone and closed.
    pub send_initialization-outcome :
        (draw_int : ℕ → ℕ → ℕ) (n : ℕ) (h : Hub F) (client : HubClient)
        → is_current h client ≡ true
        → IsSettled draw_int n (core h)
        → Succeeds (send_initialization encodes takes h client) (λ g.
          Either encodes takes h.output.attempts 4 (IsWelcomed h client g) (IsRefused client g))
    unfolding send_initialization
    send_initialization-outcome draw_int n h client current s =
        let Done = λ (g : Hub F).
          Either encodes takes h.output.attempts 4 (IsWelcomed h client g) (IsRefused client g) in
        option_cases (λ (o : Option (Hub F)). Succeeds o Done) (player_state h.world client.id)
          (λ absent. absurd (current-state draw_int n h client current s absent))
          (λ self e.
            let ms : List (HubMessage F) =
              self_state h.world.tick self (player_score h client.id)
              ∷ visible_entities h.world.tick
                  (player_states h.world (Aoi.visible_neighbors h.aoi client.id))
              ∷ [] in
            let r = send_all encodes takes h client ms in
            let same = core-send_all draw_int encodes takes h client ms in
            let still = is_current-same r.0 h client same current in
            let result = send_all-result encodes takes ms h client in
            if_cases (λ (o : Option (Hub F)). Succeeds o Done) r.1
              (λ ok.
                let sent = send_all-Sent encodes takes ms h client ok in
                Succeeds_map (send_collectibles encodes takes r.0 client)
                  (join h r.0 client self e same (sym result ∙ ok) sent.attempts sent.messages)
                  (send_collectibles-outcome draw_int n r.0 client self still
                    (send_all-IsSettled draw_int encodes takes n h client ms s)
                    (ap (λ c. player_state c.world client.id) same ∙ e)))
              (λ failed. inr (
                first_failed encodes takes h.output.attempts (sym result ∙ failed),
                remove_client-IsRefused r.0 client still,
              )))
