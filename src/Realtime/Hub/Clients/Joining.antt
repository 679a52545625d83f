-- ===== src/Realtime/Hub/Clients/Joining.antt =====
-- hub.go, registerClient and sendInitialization: what they do to the world, the index and the
-- clients.
use Prim.Native.String.{String}
use map_walker.Prelude.{
  ℕ, ◌≡◌, refl, ◌∙◌, ap, subst, sym, Bool, true, not, ◌&&◌, ◌||◌, Option, some, List, [], ◌∷◌,
  arith, inl, inr, Option-cases, ◌==◌, if_both, if_cases, if◌then◌else◌, option_both, or_else,
  Succeeds, Succeeds-bind,
}
use map_walker.Prelude.Eq.{nat_eq}
use map_walker.Prelude.Float.{Float64}
use map_walker.Prelude.Map
use map_walker.Prelude.Map.{lookup-insert, insert-UniqueKeys}
use map_walker.Prelude.MultiMap.{is_empty}
use map_walker.Game.Appearance.{Appearance}
use map_walker.Game.Aoi
use map_walker.Game.Aoi.{AoiIndex}
use map_walker.Game.Aoi.Structure.{IsStructured}
use map_walker.Game.Aoi.Presence.{HasAlso, insert-HasAlso}
use map_walker.Game.World
use map_walker.Game.World.{
  World, reset_input, has_player, add_player_with_state, player_position, player_state,
  player_states,
}
use map_walker.Game.World.Invariant.{IsConsistent, apply, adds, resets, apply-IsConsistent}
use map_walker.Game.Collectibles.{Collectible, CollectibleRegion, collectibles_within_radius}
use map_walker.Game.Collectibles.Within.{collectibles_within_radius-Within}
use map_walker.Realtime.Hub.State.{
  Hub, HubClient, HubMessage, SavedPlayerLoad, close_send, try_send, self_state, visible_entities,
  player_score,
}
use map_walker.Realtime.Hub.Core.{Core, core, IsSettled}
use map_walker.Realtime.Hub.Clients.{
  remove_client, register_client, replace_connection, admit, welcome, put_client,
  send_initialization, send_collectibles, send_all, track_initial, initial_collectibles,
  insert_player_into_aoi, add_player, add_saved_player, clear_pending_replication_for,
  clear_pending_left_for_player,
}
use map_walker.Realtime.Hub.Clients.Leaving.{remove_client-IsSettled}

module _ {F : Type 0} (encodes takes : ℕ → Bool) where
  pub core-try_send :
      (h : Hub F) (client : HubClient) (m : HubMessage F)
      → core (try_send encodes takes h client m).0 ≡ core h
  unfolding try_send
  core-try_send h client m =
      if_both (λ (r : Hub F × Bool). core r.0 ≡ core h)
        (encodes h.output.attempts && takes h.output.attempts) refl refl

module _ ⦃fl : Float64⦄ (draw_int : ℕ → ℕ → ℕ) (encodes takes : ℕ → Bool) where
  open fl use {F, lit}

  pub core-send_all :
      (h : Hub F) (client : HubClient) (ms : List (HubMessage F))
      → core (send_all encodes takes h client ms).0 ≡ core h
  unfolding send_all
  core-send_all h client [] = refl
  core-send_all h client (m ∷ ms) =
      let e = core-try_send encodes takes h client m in
      let sent = try_send encodes takes h client m in
      if_both (λ (r : Hub F × Bool). core r.0 ≡ core h) sent.1 (core-send_all sent.0 client ms ∙ e)
        e

  pub send_all-IsSettled :
      (n : ℕ) (h : Hub F) (client : HubClient) (ms : List (HubMessage F))
      → IsSettled draw_int n (core h)
      → IsSettled draw_int n (core (send_all encodes takes h client ms).0)
  send_all-IsSettled n h client ms s =
      subst (IsSettled draw_int n) (sym (core-send_all h client ms)) s

  pub initial_collectibles-Succeeds :
      (n : ℕ) (h : Hub F) (id : ℕ)
      → IsSettled draw_int n (core h)
      → Succeeds (initial_collectibles h id) (λ _. Unit)
  unfolding initial_collectibles
  initial_collectibles-Succeeds n h id s =
      let p =
        or_else (player_position h.world id) (record { id = 0; lat = lit 0 1; lng = lit 0 1 }) in
      option_both
        (λ (o : Option (List (CollectibleRegion F) × List (Collectible F))). Succeeds o (λ _. Unit))
        h.collectibles.field tt
        (λ f e.
          Succeeds-bind _ (λ (_ : List (CollectibleRegion F) × List (Collectible F)). Unit)
            (collectibles_within_radius f p.lat p.lng (lit 500 1)) _ (λ cs _. tt)
            (collectibles_within_radius-Within f p.lat p.lng (lit 500 1) (s.field f e).stocked))

  pub core-track_initial :
      (h : Hub F) (id : ℕ) (cs : List (Collectible F)) → core (track_initial h id cs) ≡ core h
  unfolding track_initial
  core-track_initial h id cs =
      if_both (λ g. core g ≡ core h) (Map.is_some h.collectibles.field && not (is_empty cs)) refl
        refl

  send_collectibles-IsSettled :
      (n : ℕ) (h : Hub F) (client : HubClient)
      → IsSettled draw_int n (core h)
      → Succeeds (send_collectibles encodes takes h client) (λ g. IsSettled draw_int n (core g))
  unfolding send_collectibles
  send_collectibles-IsSettled n h client s =
      Succeeds-bind (λ _. Unit) (λ g. IsSettled draw_int n (core g))
        (initial_collectibles h client.id) _
        (λ found _.
          if_both (λ (g : Hub F). IsSettled draw_int n (core g)) _
            (subst (IsSettled draw_int n) (sym (core-track_initial _ client.id found.1))
              (send_all-IsSettled n h client _ s))
            (remove_client-IsSettled draw_int n _ client (send_all-IsSettled n h client _ s)))
        (initial_collectibles-Succeeds n h client.id s)

  send_initialization-IsSettled :
      (n : ℕ) (h : Hub F) (client : HubClient)
      → IsSettled draw_int n (core h)
      → Succeeds (send_initialization encodes takes h client) (λ g. IsSettled draw_int n (core g))
  unfolding send_initialization
  send_initialization-IsSettled n h client s =
      option_both (λ (o : Option (Hub F)). Succeeds o (λ g. IsSettled draw_int n (core g)))
        (player_state h.world client.id) (remove_client-IsSettled draw_int n h client s)
        (λ self _.
          let ms : List (HubMessage F) =
            self_state h.world.tick self (player_score h client.id)
            ∷ visible_entities h.world.tick
                (player_states h.world (Aoi.visible_neighbors h.aoi client.id))
            ∷ [] in
          let sent = send_all encodes takes h client ms in
          if_both (λ (o : Option (Hub F)). Succeeds o (λ g. IsSettled draw_int n (core g))) sent.1
            {y = some (remove_client sent.0 client)}
            (send_collectibles-IsSettled n sent.0 client (send_all-IsSettled n h client ms s))
            (remove_client-IsSettled draw_int n sent.0 client (send_all-IsSettled n h client ms s)))

  welcome-IsSettled :
      (n : ℕ) (h : Hub F) (client : HubClient)
      → IsSettled draw_int n (core (put_client encodes takes h client))
      → Succeeds (welcome encodes takes h client) (λ g. IsSettled draw_int n (core g))
  unfolding welcome clear_pending_replication_for
  welcome-IsSettled n h client s = send_initialization-IsSettled n _ client s

  -- A connection for a player that is already in the world and the index.
  pub entered-IsSettled :
      (n : ℕ) (k : Core F) (client : HubClient) (w : World F) (a : AoiIndex F)
      → IsConsistent w
      → ((x : ℕ) → has_player w x ≡ ((client.id == x) || has_player k.world x))
      → HasAlso client.id k.aoi a
      → IsSettled draw_int n k
      → IsSettled draw_int n
          (record k { world = w; aoi = a; clients = Map.insert client.id client k.clients })
  entered-IsSettled n k client w a consistent present also s = record {
    world = consistent;
    aoi = also.structured;
    placed = λ x. ground (arith, present x, also.players x, s.placed x);
    connected =
        λ x. ground (arith, present x, lookup-insert client.id x client k.clients, s.connected x);
    keyed = λ x c e. ground (arith, lookup-insert client.id x client k.clients, s.keyed x c);
    unique = insert-UniqueKeys client.id client k.clients s.unique;
    field = s.field;
    working = s.working;
  }

  -- What `addPlayer` does to the world.
  add_player-world :
      (load : ℕ → Option (SavedPlayerLoad F)) (h : Hub F) (id : ℕ) (username : String)
      → (name : String) × (lat : F) × (lng : F) × (look : Appearance) × (core
            (add_player load h id username)
          ≡ record (core h) { world = (add_player_with_state h.world id name lat lng look).0 })
  unfolding add_player add_saved_player
  add_player-world load h id username = elim (Option-cases (load id)) [
    | inl e ↦ rw (e, add_player) (username, _, _, _, refl)
    | inr (state, e) ↦ rw (e, add_player) (_, _, _, _, refl)
  ]

  -- The player is in the world after `addPlayer`, so that it gets its place in the index.
  insert_player-Added :
      (h : Hub F) (id : ℕ)
      → IsStructured h.aoi
      → has_player h.world id ≡ true
      → Succeeds
          (insert_player_into_aoi h id)
          (λ g. (a : AoiIndex F) × HasAlso id h.aoi a × (g ≡ record h { aoi = a }))
  unfolding insert_player_into_aoi has_player player_position
  insert_player-Added h id s here = elim (Option-cases (Map.lookup id h.world.players)) [
    | inl e ↦ absurd (ground arith)
    | inr (p, e) ↦
        rw (e, insert_player_into_aoi)
          (Succeeds-bind (λ r. HasAlso id h.aoi r.0)
            (λ g. (a : AoiIndex F) × HasAlso id h.aoi a × (g ≡ record h { aoi = a })) _ _
            (λ r also. (r.0, also, refl)) (insert-HasAlso h.aoi id p.position.lat p.position.lng s))
  ]

  -- The hub is settled as soon as it has the connection.
  abbrev IsSettledWith : ℕ → HubClient → Hub F → Type 0
  IsSettledWith n client g = IsSettled draw_int n (core (put_client encodes takes g client))

  admit-IsSettled :
      (n : ℕ) (load : ℕ → Option (SavedPlayerLoad F)) (h : Hub F) (client : HubClient)
      → IsSettled draw_int n (core h)
      → Succeeds (admit encodes takes load h client) (IsSettledWith n client)
  unfolding admit apply clear_pending_left_for_player
  admit-IsSettled n load h client s =
      let added = add_player load h client.id client.username in
      let (name, lat, lng, look, e) = add_player-world load h client.id client.username in
      let present = World.Presence.has_player-add h.world client.id name lat lng look in
      let settled : (a : AoiIndex F)
          → HasAlso client.id added.aoi a
          → IsSettledWith n client (record added { aoi = a }) =
        λ a also.
          subst
            (λ k.
              IsSettled draw_int n
                (record k { aoi = a; clients = Map.insert client.id client k.clients }))
            (sym e)
            (entered-IsSettled n (core h) client
              (add_player_with_state h.world client.id name lat lng look).0 a
              (apply-IsConsistent h.world (adds client.id name lat lng look) s.world) present
              (subst (λ b. HasAlso client.id b a) (ap (λ k. k.aoi) e) also) s) in
      Succeeds-bind
        (λ g. (a : AoiIndex F) × HasAlso client.id added.aoi a × (g ≡ record added { aoi = a }))
        (IsSettledWith n client) (insert_player_into_aoi added client.id) _
        (λ g found.
          let one : IsSettledWith n client g =
            subst (IsSettledWith n client) (sym found.2) (settled found.0 found.1) in
          if_both (IsSettledWith n client) (is_empty g.players.clients) one (
            option_both (IsSettledWith n client) (player_state g.world client.id) one (λ _ _. one)))
        (insert_player-Added added client.id (subst IsStructured (sym (ap (λ k. k.aoi) e)) s.aoi)
          (ap (λ k. has_player k.world client.id) e ∙ ground (arith, present client.id)))

  -- A connection of a player that has its place.
  pub again-IsSettled :
      (n : ℕ) (h : Hub F) (client : HubClient) (w : World F)
      → IsConsistent w
      → ((x : ℕ) → has_player w x ≡ has_player h.world x)
      → has_player h.world client.id ≡ true
      → IsSettled draw_int n (core h)
      → IsSettledWith n client (record h { world = w })
  again-IsSettled n h client w consistent same here s =
      entered-IsSettled n (core h) client w h.aoi consistent (λ x. ground (arith, same x, here))
        (record { structured = s.aoi; players = λ x. ground (arith, s.placed x, here) }) s

  enter-IsSettled :
      (n : ℕ) (load : ℕ → Option (SavedPlayerLoad F)) (h : Hub F) (client : HubClient)
      → IsSettled draw_int n (core h)
      → Succeeds
          (if has_player h.world client.id then some h else admit encodes takes load h client)
          (IsSettledWith n client)
  enter-IsSettled n load h client s =
      if_cases (λ (o : Option (Hub F)). Succeeds o (IsSettledWith n client))
        (has_player h.world client.id)
        (λ here. again-IsSettled n h client h.world s.world (λ x. refl) here s)
        (λ _. admit-IsSettled n load h client s)

  -- registerClient never panics, and leaves the hub settled.
  pub register_client-IsSettled :
      (n : ℕ) (load : ℕ → Option (SavedPlayerLoad F)) (h : Hub F) (client : HubClient)
      → IsSettled draw_int n (core h)
      → Succeeds (register_client encodes takes load h client) (λ g. IsSettled draw_int n (core g))
  unfolding register_client replace_connection close_send apply
  register_client-IsSettled n load h client s =
      let fresh =
        Succeeds-bind (IsSettledWith n client) (λ g. IsSettled draw_int n (core g))
          (if has_player h.world client.id then some h else admit encodes takes load h client)
          (λ g. welcome encodes takes g client) (λ g t. welcome-IsSettled n g client t)
          (enter-IsSettled n load h client s) in
      option_both (λ (o : Option (Hub F)). Succeeds o (λ g. IsSettled draw_int n (core g)))
        (Map.lookup client.id h.players.clients) fresh
        (λ existing e.
          if_both (λ (o : Option (Hub F)). Succeeds o (λ g. IsSettled draw_int n (core g)))
            (existing.conn == client.conn) fresh
            (welcome-IsSettled n _ client (
              again-IsSettled n (close_send h existing) client (reset_input h.world client.id)
                (apply-IsConsistent h.world (resets client.id) s.world)
                (λ x. World.Presence.has_player-reset_input h.world client.id x)
                (ground (arith, s.connected client.id, e)) s)))
