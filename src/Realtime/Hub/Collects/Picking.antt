-- ===== src/Realtime/Hub/Collects/Picking.antt =====
-- hub.go, processCollect and the replacements: what they do to the field.
use map_walker.Prelude.{
  ℕ, suc, ◌≡◌, refl, ◌∙◌, ap, subst, sym, Bool, true, false, not, ◌||◌, Option, some, List, [], ◌∷◌,
  arith, inl, inr, Option-cases, if_both, option_both, Succeeds, Succeeds-bind, Succeeds-elim,
}
use map_walker.Prelude.Eq.{nat_eq}
use map_walker.Prelude.Int.{ℤ}
use map_walker.Prelude.Float.{Float64}
use map_walker.Prelude.Set
use map_walker.Game.Aoi.{query_player_ids_near_point}
use map_walker.Game.World.{PlayerPosition, player_position}
use map_walker.Game.Collectibles.{
  Collectible, CollectibleField, collectible, collectibles_within_radius, advance_replacements,
  remove,
}
use map_walker.Game.Collectibles.Within.{collectibles_within_radius-Within}
use map_walker.Game.Collectibles.Population.{Removed, remove-Removed}
use map_walker.Game.Collectibles.Advance.{Advanced, advance_replacements-Advanced}
use map_walker.Realtime.Hub.State.{
  Hub, HubClient, is_connected, collect_result, player_score, try_send,
}
use map_walker.Realtime.Hub.Core.{Core, core, IsReady, IsSettled, IsSettled-weaken}
use map_walker.Realtime.Hub.Clients.{is_current}
use map_walker.Realtime.Hub.Clients.Joining.{core-try_send}
use map_walker.Realtime.Hub.Collects.{
  award, tell_collected, tell_spawned, tell_all_spawned, see_items, put_field, conclude_collect,
  take_item, process_collect, item_in_reach, is_cooling, is_too_far, start_cooldown, visible_items,
  advance_collectible_replacements, recalc_player, recalc_collectible_visibility,
}

module _ {F : Type 0} where
  core-award : (h : Hub F) (id : ℕ) → core (award h id) ≡ core h
  unfolding award
  core-award h id = if_both (λ g. core g ≡ core h) h.collectibles.has_score_persister refl refl

  core-tell_collected :
      (ids : List ℕ) (c : Collectible F) (item : ℕ) (h : Hub F)
      → core (tell_collected ids c item h) ≡ core h
  unfolding tell_collected
  core-tell_collected [] c item h = refl
  core-tell_collected (id ∷ ids) c item h =
      core-tell_collected ids c item _
      ∙ if_both (λ g. core g ≡ core h) (is_connected h id) refl refl

  core-tell_spawned :
      (ids : List ℕ) (c : Collectible F) (h : Hub F) → core (tell_spawned ids c h) ≡ core h
  unfolding tell_spawned
  core-tell_spawned [] c h = refl
  core-tell_spawned (id ∷ ids) c h =
      core-tell_spawned ids c _ ∙ if_both (λ g. core g ≡ core h) (is_connected h id) refl refl

module _ ⦃fl : Float64⦄ where
  open fl use {F, lit}

  core-tell_all_spawned :
      (cs : List (Collectible F)) (h : Hub F) → core (tell_all_spawned cs h) ≡ core h
  unfolding tell_all_spawned
  core-tell_all_spawned [] h = refl
  core-tell_all_spawned (c ∷ cs) h =
      core-tell_all_spawned cs _
      ∙ core-tell_spawned (query_player_ids_near_point h.aoi c.lat c.lng) c h

  module _ (encodes takes : ℕ → Bool) where
    core-conclude_collect :
        (h : Hub F) (client : HubClient) (c : Collectible F) (item : ℕ)
        → core (conclude_collect encodes takes h client c item) ≡ core h
    unfolding conclude_collect
    core-conclude_collect h client c item =
        let g = award h client.id in
        let sent =
          try_send encodes takes g client (collect_result item (player_score g client.id)) in
        let e : core sent.0 ≡ core h =
          core-try_send encodes takes g client _ ∙ core-award h client.id in
        if_both (λ g. core g ≡ core h) (encodes g.output.attempts)
          (core-tell_collected (query_player_ids_near_point sent.0.aoi c.lat c.lng) c item sent.0
            ∙ e)
          e

  module _ (draw_int : ℕ → ℕ → ℕ) where
    -- Another field in the place of the old one.
    put_field-IsSettled :
        (n m : ℕ) (k : Core F) (f : CollectibleField F)
        → IsReady draw_int m f
        → IsSettled draw_int n k
        → IsSettled draw_int m (record k { field = some f })
    put_field-IsSettled n m k f r s = record {
      world = s.world;
      aoi = s.aoi;
      placed = s.placed;
      connected = s.connected;
      keyed = s.keyed;
      unique = s.unique;
      field = λ g e. ground (arith, r);
      working = s.working;
    }

    Removed-IsReady :
        (n : ℕ) (f : CollectibleField F) (id : ℕ) (r : CollectibleField F × Bool)
        → IsReady draw_int (suc n) f
        → Removed f id r
        → IsReady draw_int n r.0
    Removed-IsReady n f id r ready m = record {
      stocked = m.stocked;
      respawns = rw m.regions ready.respawns;
      supply = omega (arith, m.supply, ready.supply);
    }

    Advanced-IsReady :
        (n : ℕ) (now : ℤ) (f : CollectibleField F) (r : CollectibleField F × List (Collectible F))
        → IsReady draw_int n f
        → Advanced now f r
        → IsReady draw_int n r.0
    Advanced-IsReady n now f r ready m = record {
      stocked = m.stocked;
      respawns = rw m.regions ready.respawns;
      supply = omega (arith, m.supply, ready.supply);
    }

  -- What the guards of processCollect make sure of.
  pub record Reached (h : Hub F) (player item : ℕ) (r : CollectibleField F × Collectible F)
      : Type 0 where
    pub field : h.collectibles.field ≡ some r.0
    pub found : collectible r.0 item ≡ some r.1
    pub seen : Set.contains r.1.id (visible_items h player) ≡ true
    pub position :
        (p : PlayerPosition F) × (player_position h.world player ≡ some p)
        × (is_too_far h p.lat p.lng r.1 ≡ false)

  pub item_in_reach-Reached :
      (h : Hub F) (player item : ℕ) (r : CollectibleField F × Collectible F)
      → item_in_reach h player item ≡ some r
      → Reached h player item r
  unfolding item_in_reach
  item_in_reach-Reached h player item r e = elim (Option-cases h.collectibles.field) [
    | inl no_field ↦ absurd (ground (arith, no_field, e))
    | inr (f, field) ↦ elim (Option-cases (collectible f item)) [
      | inl no_item ↦ absurd (ground (arith, field, no_item, e))
      | inr (c, found) ↦ elim (Option-cases (player_position h.world player)) [
        | inl no_position ↦ absurd (ground (arith, field, found, no_position, e))
        | inr (p, position) ↦ record {
          field = ground (arith, field, found, position, e);
          found = ground (arith, field, found, position, e);
          seen = ground (arith, field, found, position, e);
          position = (p, position, ground (arith, field, found, position, e));
        }
      ]
    ]
  ]

  module _ (draw_int : ℕ → ℕ → ℕ) (encodes takes : ℕ → Bool) where
    take_item-IsSettled :
        (n : ℕ) (now : ℤ) (h : Hub F) (client : HubClient) (item : ℕ) (f : CollectibleField F)
        (c : Collectible F)
        → IsReady draw_int (suc n) f
        → IsSettled draw_int (suc n) (core h)
        → Succeeds
            (take_item encodes takes draw_int now h client item f c)
            (λ g. IsSettled draw_int n (core g))
    unfolding take_item
    take_item-IsSettled n now h client item f c ready s =
        Succeeds-bind (Removed f item) (λ g. IsSettled draw_int n (core g))
          (remove draw_int now f item) _
          (λ r m.
            if_both (λ g. IsSettled draw_int n (core g)) r.1
              (subst (IsSettled draw_int n)
                (sym (core-conclude_collect encodes takes (put_field h r.0) client c item))
                (put_field-IsSettled draw_int (suc n) n (core h) r.0
                  (Removed-IsReady draw_int n f item r ready m) s))
              (IsSettled-weaken draw_int (suc n) n (core h) (omega arith) s))
          (remove-Removed draw_int now f item ready.stocked ready.respawns)

    -- processCollect never panics, and leaves the hub settled.
    pub process_collect-IsSettled :
        (n : ℕ) (now : ℤ) (h : Hub F) (client : HubClient) (item : ℕ)
        → IsSettled draw_int (suc n) (core h)
        → Succeeds
            (process_collect encodes takes draw_int now h client item)
            (λ g. IsSettled draw_int n (core g))
    unfolding process_collect
    process_collect-IsSettled n now h client item s =
        let cooled = start_cooldown h client.id now in
        let weak = IsSettled-weaken draw_int (suc n) n (core h) (omega arith) s in
        if_both (λ (o : Option (Hub F)). Succeeds o (λ g. IsSettled draw_int n (core g)))
          (not (is_current h client)
            || Set.contains client.id h.players.synthetic_ids
            || is_cooling h client.id now)
          weak
          (option_both (λ (o : Option (Hub F)). Succeeds o (λ g. IsSettled draw_int n (core g)))
            (item_in_reach cooled client.id item) weak
            (λ r e.
              take_item-IsSettled n now cooled client item r.0 r.1
                (s.field r.0 (item_in_reach-Reached cooled client.id item r e).field) s))

  module _ (draw_int : ℕ → ℕ → ℕ) where
    pub advance_collectible_replacements-IsSettled :
        (n : ℕ) (draw_float : ℕ → F) (now : ℤ) (f : CollectibleField F) (h : Hub F)
        → h.collectibles.field ≡ some f
        → IsSettled draw_int n (core h)
        → Succeeds (advance_collectible_replacements draw_float now f h) (λ g.
          IsSettled draw_int n (core g)
          × ((f' : CollectibleField F) × (g.collectibles.field ≡ some f')))
    unfolding advance_collectible_replacements
    advance_collectible_replacements-IsSettled n draw_float now f h e s =
        let ready = s.field f e in
        Succeeds-bind (Advanced now f)
          (λ g.
            IsSettled draw_int n (core g)
            × ((f' : CollectibleField F) × (g.collectibles.field ≡ some f')))
          (advance_replacements draw_float now f) _
          (λ r m.
            let same = core-tell_all_spawned r.1 (put_field h r.0) in
            (
              subst (IsSettled draw_int n) (sym same) (
                  put_field-IsSettled draw_int n n (core h) r.0
                    (Advanced-IsReady draw_int n now f r ready m) s),
              (r.0, ap (λ k. k.field) same),
            ))
          (advance_replacements-Advanced draw_float now f ready.stocked
            (omega (arith, ready.supply)))

    recalc_player-IsSettled :
        (n : ℕ) (h : Hub F) (id : ℕ) (f : CollectibleField F)
        → h.collectibles.field ≡ some f
        → IsSettled draw_int n (core h)
        → Succeeds (recalc_player h id f) (λ g. core g ≡ core h)
    unfolding recalc_player see_items
    recalc_player-IsSettled n h id f e s =
        let stocked = (s.field f e).stocked in
        if_both (λ (o : Option (Hub F)). Succeeds o (λ g. core g ≡ core h))
          (not (is_connected h id)) refl
          (option_both (λ (o : Option (Hub F)). Succeeds o (λ g. core g ≡ core h))
            (player_position h.world id) refl
            (λ p _.
              Succeeds-bind _ (λ (g : Hub F). core g ≡ core h)
                (collectibles_within_radius f p.lat p.lng (lit 500 1)) _
                (λ near _.
                  Succeeds-bind _ (λ (g : Hub F). core g ≡ core h)
                    (collectibles_within_radius f p.lat p.lng (lit 600 1)) _ (λ far _. refl)
                    (collectibles_within_radius-Within f p.lat p.lng (lit 600 1) stocked))
                (collectibles_within_radius-Within f p.lat p.lng (lit 500 1) stocked)))

    pub recalc_collectible_visibility-IsSettled :
        (n : ℕ) (ids : List ℕ) (h : Hub F) (f : CollectibleField F)
        → h.collectibles.field ≡ some f
        → IsSettled draw_int n (core h)
        → Succeeds (recalc_collectible_visibility ids h f) (λ g. IsSettled draw_int n (core g))
    unfolding recalc_collectible_visibility
    recalc_collectible_visibility-IsSettled n [] h f e s = s
    recalc_collectible_visibility-IsSettled n (id ∷ ids) h f e s =
        Succeeds-elim (λ g. core g ≡ core h) (λ g. IsSettled draw_int n (core g))
          (recalc_player h id f) (λ g. recalc_collectible_visibility ids g f)
          (λ g same.
            recalc_collectible_visibility-IsSettled n ids g f (ap (λ k. k.field) same ∙ e)
              (subst (IsSettled draw_int n) (sym same) s))
          (recalc_player-IsSettled n h id f e s)
