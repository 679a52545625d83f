-- ===== src/Realtime/Hub/Collects/Scoring.antt =====
-- hub.go, processCollect: what it does to the scores and the items.
use map_walker.Prelude.{
  ℕ, suc, ◌<◌, ◌≡◌, refl, ◌∙◌, ap, subst, sym, Bool, true, false, not, ◌&&◌, ◌||◌, Option, none,
  some, List, [], ◌∷◌, arith, if_both, if_cases, option_cases, or_else, Succeeds, Succeeds-bind,
  ◌==◌, if◌then◌else◌,
}
use map_walker.Prelude.Eq.{nat_eq}
use map_walker.Prelude.Int.{ℤ, pos, ◌-ℤ◌, ltb_ℤ}
use map_walker.Prelude.Float.{Float64}
use map_walker.Prelude.Map
use map_walker.Prelude.Map.{lookup-insert}
use map_walker.Prelude.Set.{contains}
use map_walker.Prelude.Word.{incr, incr-small}
use map_walker.Game.Geometry.{aoi_config_from_world, lat_lng_to_local}
use map_walker.Game.World.{player_position}
use map_walker.Game.Aoi.{query_player_ids_near_point}
use map_walker.Game.Collectibles.{Collectible, CollectibleField, collectible, remove}
use map_walker.Game.Collectibles.Population.{Removed, remove-Removed}
use map_walker.Realtime.Hub.State.{
  Hub, HubClient, HubMessage, is_connected, collect_result, player_score, try_send,
}
use map_walker.Realtime.Hub.Core.{IsReady}
use map_walker.Realtime.Hub.Clients.{is_current}
use map_walker.Realtime.Hub.Collects.{
  award, tell_collected, put_field, conclude_collect, take_item, process_collect, item_in_reach,
  is_cooling, start_cooldown, visible_items, is_too_far, collectible_local_diff,
}
use map_walker.Realtime.Hub.Collects.Picking.{item_in_reach-Reached}

-- The scores and the field.
record Stakes (F : Type 0) : Type 0 where
  scores : List (ℕ × ℕ)
  field : Option (CollectibleField F)

abbrev stakes : {F : Type 0} → Hub F → Stakes F
stakes h = record { scores = h.players.scores; field = h.collectibles.field }

-- The item is in the field.
abbrev field_has : {F : Type 0} → Option (CollectibleField F) → ℕ → Bool
field_has o x = elim o [ none ↦ false | some f ↦ Map.is_some (collectible f x) ]

unfoldable pub has_item : {F : Type 0} → Hub F → ℕ → Bool
has_item h x = field_has h.collectibles.field x

module _ {F : Type 0} where
  stakes-tell_collected :
      (ids : List ℕ) (c : Collectible F) (item : ℕ) (h : Hub F)
      → stakes (tell_collected ids c item h) ≡ stakes h
  unfolding tell_collected
  stakes-tell_collected [] c item h = refl
  stakes-tell_collected (id ∷ ids) c item h =
      stakes-tell_collected ids c item _
      ∙ if_both (λ g. stakes g ≡ stakes h) (is_connected h id) refl refl

  stakes-try_send :
      (encodes takes : ℕ → Bool) (h : Hub F) (client : HubClient) (m : HubMessage F)
      → stakes (try_send encodes takes h client m).0 ≡ stakes h
  unfolding try_send
  stakes-try_send encodes takes h client m =
      if_both (λ (r : Hub F × Bool). stakes r.0 ≡ stakes h)
        (encodes h.output.attempts && takes h.output.attempts) refl refl

  abbrev awarded : Hub F → ℕ → Stakes F
  awarded h id = record {
    scores = Map.insert id (incr (player_score h id)) h.players.scores;
    field = h.collectibles.field;
  }

  stakes-award : (h : Hub F) (id : ℕ) → stakes (award h id) ≡ awarded h id
  unfolding award
  stakes-award h id =
      if_both (λ g. stakes g ≡ awarded h id) h.collectibles.has_score_persister refl refl

module _ ⦃fl : Float64⦄ where
  open fl use {F, lit, fadd, fsub, fmul, fltb}

  -- The squared distance on the local plane is at most 400, that is 20 m.
  abbrev pub is_close : Hub F → F → F → Collectible F → Bool
  is_close h lat lng c =
      let config = aoi_config_from_world h.world.config in
      let (x1, y1) = lat_lng_to_local config lat lng in
      let (x2, y2) = lat_lng_to_local config c.lat c.lng in
      not
        (fltb (lit 400 1) (fadd (fmul (fsub x1 x2) (fsub x1 x2)) (fmul (fsub y1 y2) (fsub y1 y2))))

  -- The field has the item, and the player is in the world, sees it and is close to it.
  unfoldable pub is_reachable : Hub F → ℕ → ℕ → Bool
  is_reachable h player item = elim h.collectibles.field [
    | none ↦ false
    | some f ↦ elim (Map.lookup item f.collectibles) [
      | none ↦ false
      | some c ↦
          contains c.id (or_else (Map.lookup player h.collectibles.visible_ids) [])
          && (elim (Map.lookup player h.world.players) [
            | none ↦ false
            | some p ↦ is_close h p.position.lat p.position.lng c
          ])
    ]
  ]

  -- The player's last attempt is less than 300 ms old.
  unfoldable pub tried_lately : Hub F → ℕ → ℤ → Bool
  tried_lately h id now = elim (Map.lookup id h.collectibles.cooldowns) [
    | none ↦ false
    | some last ↦ ltb_ℤ (now -ℤ last) (pos 300000000)
  ]

  -- The connection is the one that the hub has for its player.
  unfoldable pub is_in_charge : Hub F → HubClient → Bool
  is_in_charge h client = elim (Map.lookup client.id h.players.clients) [
    | none ↦ false
    | some current ↦ current.conn == client.conn
  ]

  -- The connection is the player's, which is not synthetic, has not tried within the last 300 ms
  -- and reaches the item.
  unfoldable pub may_collect : Hub F → HubClient → ℕ → ℤ → Bool
  may_collect h client item now =
      is_in_charge h client
      && not (contains client.id h.players.synthetic_ids)
      && not (tried_lately h client.id now)
      && is_reachable h client.id item

  -- One point for this player and this item gone, or nothing.
  pub record Scored (taken : Bool) (id item : ℕ) (h g : Hub F) : Type 0 where
    pub score :
        (x : ℕ)
        → player_score g x
          ≡ (if taken && (id == x) then suc (player_score h x) else player_score h x)
    pub items : (x : ℕ) → has_item g x ≡ (has_item h x && not (taken && (item == x)))

module _ ⦃fl : Float64⦄ (encodes takes : ℕ → Bool) where
  open fl use {F}

  stakes-conclude_collect :
      (h : Hub F) (client : HubClient) (c : Collectible F) (item : ℕ)
      → stakes (conclude_collect encodes takes h client c item) ≡ awarded h client.id
  unfolding conclude_collect
  stakes-conclude_collect h client c item =
      let g = award h client.id in
      let sent = try_send encodes takes g client (collect_result item (player_score g client.id)) in
      let e : stakes sent.0 ≡ awarded h client.id =
        stakes-try_send encodes takes g client _ ∙ stakes-award h client.id in
      if_both (λ k. stakes k ≡ awarded h client.id) (encodes g.output.attempts)
        (stakes-tell_collected (query_player_ids_near_point sent.0.aoi c.lat c.lng) c item sent.0
          ∙ e)
        e

  module _ (draw_int : ℕ → ℕ → ℕ) where
    nothing-Scored : (id item : ℕ) (h g : Hub F) → stakes g ≡ stakes h → Scored false id item h g
    unfolding player_score has_item
    nothing-Scored id item h g e = record {
      score = λ x. ap (λ (s : Stakes F). or_else (Map.lookup x s.scores) 0) e;
      items = λ x. ap (λ (s : Stakes F). field_has s.field x) e ∙ ground arith;
    }

    taken-Scored :
        (id item : ℕ) (h g : Hub F) (f f' : CollectibleField F)
        → h.collectibles.field ≡ some f
        → Map.is_some (collectible f item) ≡ true
        → Removed f item (f', true)
        → suc (player_score h id) < 9223372036854775808
        → stakes g ≡ awarded (put_field h f') id
        → Scored true id item h g
    unfolding player_score has_item collectible
    taken-Scored id item h g f f' field here m small e = record {
      score = λ x.
          ap (λ (s : Stakes F). or_else (Map.lookup x s.scores) 0) e
          ∙ ground (
            arith,
            lookup-insert id x (incr (player_score h id)) h.players.scores,
            incr-small (player_score h id) (omega (arith, small)),
          );
      items = λ x.
          ap (λ (s : Stakes F). field_has s.field x) e ∙ ground (arith, field, here, m.others x);
    }

    take_item-Scored :
        (now : ℤ) (h k : Hub F) (client : HubClient) (item : ℕ) (f : CollectibleField F)
        (c : Collectible F)
        → stakes k ≡ stakes h
        → h.collectibles.field ≡ some f
        → collectible f item ≡ some c
        → IsReady draw_int 1 f
        → suc (player_score h client.id) < 9223372036854775808
        → Succeeds
            (take_item encodes takes draw_int now k client item f c)
            (Scored true client.id item h)
    unfolding take_item collectible player_score
    take_item-Scored now h k client item f c same field found ready small =
        Succeeds-bind (Removed f item) (Scored true client.id item h) (remove draw_int now f item) _
          (λ r m.
            let answer : r.1 ≡ true = ground (arith, m.answer, found) in
            rw answer (
              taken-Scored client.id item h _ f r.0 field (ground (arith, found))
                (rw (sym answer) m) small
                (stakes-conclude_collect (put_field k r.0) client c item
                  ∙ ap
                      (λ (s : Stakes F). record {
                        scores =
                            Map.insert client.id (incr (or_else (Map.lookup client.id s.scores) 0))
                              s.scores;
                        field = some r.0;
                      })
                      same)))
          (remove-Removed draw_int now f item ready.stocked ready.respawns)

    abbrev is_stopped : Hub F → HubClient → ℤ → Bool
    is_stopped h client now =
        not (is_current h client)
        || contains client.id h.players.synthetic_ids
        || is_cooling h client.id now

    may_collect-stopped :
        (h : Hub F) (client : HubClient) (item : ℕ) (now : ℤ)
        → is_stopped h client now ≡ true
        → false ≡ may_collect h client item now
    unfolding may_collect is_in_charge is_current is_cooling tried_lately
    may_collect-stopped h client item now e = ground (arith, e)

    in_reach :
        (h : Hub F) (id item : ℕ) → Map.is_some (item_in_reach h id item) ≡ is_reachable h id item
    unfolding item_in_reach is_reachable collectible visible_items player_position is_too_far
        collectible_local_diff
    in_reach h id item = ground arith

    may_collect-passed :
        (h : Hub F) (client : HubClient) (item : ℕ) (now : ℤ)
        → is_stopped h client now ≡ false
        → Map.is_some (item_in_reach h client.id item) ≡ may_collect h client item now
    unfolding may_collect is_in_charge is_current is_cooling tried_lately
    may_collect-passed h client item now e = ground (arith, e, in_reach h client.id item)

    in_reach-cooled :
        (h : Hub F) (id item : ℕ) (now : ℤ)
        → item_in_reach (start_cooldown h id now) id item ≡ item_in_reach h id item
    unfolding item_in_reach visible_items is_too_far collectible_local_diff
    in_reach-cooled h id item now = refl

    -- If the hub's field, if any, is ready for one more item and the player's score is below 2^63 -
    -- 1, processCollect returns; when the connection is current, the player is not synthetic and
    -- has not tried within the last 300 ms, and the item is there, seen and at most 20 m away on
    -- the local plane, the player has one point more and exactly this item is gone; otherwise no
    -- score and no item changes.
    pub process_collect-Scored :
        (now : ℤ) (h : Hub F) (client : HubClient) (item : ℕ)
        → ((f : CollectibleField F) → h.collectibles.field ≡ some f → IsReady draw_int 1 f)
        → suc (player_score h client.id) < 9223372036854775808
        → Succeeds
            (process_collect encodes takes draw_int now h client item)
            (Scored (may_collect h client item now) client.id item h)
    unfolding process_collect
    process_collect-Scored now h client item ready small =
        let id = client.id in
        let cooled = start_cooldown h id now in
        let can = may_collect h client item now in
        if_cases (λ (o : Option (Hub F)). Succeeds o (Scored can id item h))
          (is_stopped h client now)
          (λ stopped.
            subst (λ b. Scored b id item h h) (may_collect-stopped h client item now stopped)
              (nothing-Scored id item h h refl))
          (λ passed.
            let same = may_collect-passed h client item now passed in
            let reach = in_reach-cooled h id item now in
            option_cases (λ (o : Option (Hub F)). Succeeds o (Scored can id item h))
              (item_in_reach cooled id item)
              (λ e.
                subst (λ b. Scored b id item h cooled) (ap Map.is_some (sym e ∙ reach) ∙ same)
                  (nothing-Scored id item h cooled refl))
              (λ r e.
                let reached = item_in_reach-Reached cooled id item r e in
                subst
                  (λ b.
                    Succeeds (take_item encodes takes draw_int now cooled client item r.0 r.1)
                      (Scored b id item h))
                  (ap Map.is_some (sym e ∙ reach) ∙ same)
                  (take_item-Scored now h cooled client item r.0 r.1 refl reached.field
                    reached.found (ready r.0 reached.field) small)))
