-- ===== src/Realtime/Hub/Collects.antt =====
-- hub.go, collectibles: processCollect and its fan-out, the replacements, and what the players see.
-- The order of `range` over a set is that of its list. `none` is a panic.
pub mod Picking
pub mod Seeing
pub mod Scoring
use map_walker.Prelude.{
  ℕ, Bool, true, false, not, ◌||◌, Option, none, some, List, [], ◌∷◌, ◌++◌, if◌then◌else◌, or_else,
  ◌>>=◌, map,
}
use map_walker.Prelude.Eq.{nat_eq}
use map_walker.Prelude.Int.{ℤ, pos, ◌-ℤ◌, ltb_ℤ}
use map_walker.Prelude.Float.{Float64}
use map_walker.Prelude.Map
use map_walker.Prelude.MultiMap.{is_empty}
use map_walker.Prelude.Set
use map_walker.Prelude.Word.{incr}
use map_walker.Game.Geometry.{aoi_config_from_world, lat_lng_to_local}
use map_walker.Game.Aoi.{query_player_ids_near_point}
use map_walker.Game.World.{player_position}
use map_walker.Game.Collectibles.{
  Collectible, CollectibleField, collectible, collectibles_within_radius, advance_replacements,
  remove,
}
use map_walker.Realtime.Messages.{CollectibleEnteredItem, CollectibleSpawnedItem, set_of}
use map_walker.Realtime.Hub.State.{
  Hub, HubClient, collect_result, is_connected, player_score, append_to, try_send,
}
use map_walker.Realtime.Hub.Clients.{is_current}

-- 300 ms
abbrev pub collect_cooldown : ℤ
collect_cooldown = pos 300000000

-- A change to the set of a player that has one.
unfoldable pub change_visible : (List ℕ → List ℕ) → ℕ → List (ℕ × List ℕ) → List (ℕ × List ℕ)
change_visible f id m = elim (Map.lookup id m) [ none ↦ m | some ids ↦ Map.insert id (f ids) m ]

abbrev pub append_some : {A : Type 0} → ℕ → List A → List (ℕ × List A) → List (ℕ × List A)
append_some id xs m = if is_empty xs then m else append_to id xs m

module _ {F : Type 0} where
  -- Whether the last attempt is too recent.
  unfoldable pub is_cooling : Hub F → ℕ → ℤ → Bool
  is_cooling h id now = elim (Map.lookup id h.collectibles.cooldowns) [
    | none ↦ false
    | some last ↦ ltb_ℤ (now -ℤ last) collect_cooldown
  ]

  abbrev pub start_cooldown : Hub F → ℕ → ℤ → Hub F
  start_cooldown h id now = record h {
    collectibles = record h.collectibles { cooldowns = Map.insert id now h.collectibles.cooldowns };
  }

  -- `visibleIDs[id]`, a nil map where there is none.
  unfoldable pub visible_items : Hub F → ℕ → List ℕ
  visible_items h id = or_else (Map.lookup id h.collectibles.visible_ids) []

  -- One point more, handed to the score persister without waiting. A score is the bits of an int64.
  unfoldable pub award : Hub F → ℕ → Hub F
  award h id =
      let score = incr (player_score h id) in
      let g = record h {
        players = record h.players { scores = Map.insert id score h.players.scores };
      } in
      if h.collectibles.has_score_persister
      then record g {
        output = record g.output {
          scores = (record { user_id = id; score = score }, false) ∷ h.output.scores;
        };
      }
      else g

  unfoldable pub tell_collected : List ℕ → Collectible F → ℕ → Hub F → Hub F
  tell_collected [] c item h = h
  tell_collected (id ∷ ids) c item h = tell_collected ids c item (
      if is_connected h id
      then record h {
        collectibles = record h.collectibles {
          visible_ids = change_visible (Set.remove c.id) id h.collectibles.visible_ids;
          pending_collected = append_to id (item ∷ []) h.collectibles.pending_collected;
        };
      }
      else h)

  unfoldable pub spawned_item : Collectible F → CollectibleSpawnedItem F
  spawned_item c = record { id = c.id; region_id = c.region_id; lat = c.lat; lng = c.lng }

  unfoldable pub tell_spawned : List ℕ → Collectible F → Hub F → Hub F
  tell_spawned [] c h = h
  tell_spawned (id ∷ ids) c h = tell_spawned ids c (
      if is_connected h id
      then record h {
        collectibles = record h.collectibles {
          visible_ids = change_visible (Set.add c.id) id h.collectibles.visible_ids;
          pending_spawned = append_to id (spawned_item c ∷ []) h.collectibles.pending_spawned;
        };
      }
      else h)

  -- The items near by that the player did not see before.
  unfoldable pub entered_items : List ℕ → List (Collectible F) → List (CollectibleEnteredItem F)
  entered_items seen [] = []
  entered_items seen (c ∷ cs) =
      let rest = entered_items seen cs in
      if Set.contains c.id seen
      then rest
      else record { id = c.id; region_id = c.region_id; lat = c.lat; lng = c.lng } ∷ rest

  abbrev pub item_ids : List (Collectible F) → List ℕ
  item_ids cs = map (λ c. c.id) cs

  -- The items seen before that are not in the wider circle.
  unfoldable pub left_items : List ℕ → List (Collectible F) → List ℕ
  left_items seen far = Set.keep (λ id. not (Set.contains id (set_of (item_ids far)))) seen

  -- The end of the loop of `recalcCollectibleVisibility`.
  unfoldable pub see_items : Hub F → ℕ → List (Collectible F) → List (Collectible F) → Hub F
  see_items h id near far =
      let seen = visible_items h id in
      record h {
        collectibles = record h.collectibles {
          visible_ids = Map.insert id (set_of (item_ids near)) h.collectibles.visible_ids;
          pending_entered = append_some id (entered_items seen near) h.collectibles.pending_entered;
          pending_left_ids = append_some id (left_items seen far) h.collectibles.pending_left_ids;
        };
      }

module _ ⦃fl : Float64⦄ where
  open fl use {F, lit, fadd, fsub, fmul, fltb}

  unfoldable pub collectible_local_diff : Hub F → F → F → F → F → F × F
  collectible_local_diff h lat1 lng1 lat2 lng2 =
      let config = aoi_config_from_world h.world.config in
      let (x1, y1) = lat_lng_to_local config lat1 lng1 in
      let (x2, y2) = lat_lng_to_local config lat2 lng2 in (fsub x1 x2, fsub y1 y2)

  unfoldable pub is_too_far : Hub F → F → F → Collectible F → Bool
  is_too_far h lat lng c =
      let (dx, dy) = collectible_local_diff h lat lng c.lat c.lng in
      fltb (lit 400 1) (fadd (fmul dx dx) (fmul dy dy))

  -- The item, if it is there, the player sees it and is near enough.
  unfoldable pub item_in_reach : Hub F → ℕ → ℕ → Option (CollectibleField F × Collectible F)
  item_in_reach h player item = elim h.collectibles.field [
    | none ↦ none
    | some f ↦ elim (collectible f item) [
      | none ↦ none
      | some c ↦
          if not (Set.contains c.id (visible_items h player))
          then none
          else (elim (player_position h.world player) [
            | none ↦ none
            | some p ↦ if is_too_far h p.lat p.lng c then none else some (f, c)
          ])
    ]
  ]

  abbrev pub put_field : Hub F → CollectibleField F → Hub F
  put_field h f = record h { collectibles = record h.collectibles { field = some f } }

  module _ (encodes takes : ℕ → Bool) where
    -- The end of `processCollect`: a result that cannot be encoded ends it before the fan-out.
    unfoldable pub conclude_collect : Hub F → HubClient → Collectible F → ℕ → Hub F
    conclude_collect h client c item =
        let g = award h client.id in
        let (sent, _) =
          try_send encodes takes g client (collect_result item (player_score g client.id)) in
        if encodes g.output.attempts
        then tell_collected (query_player_ids_near_point sent.aoi c.lat c.lng) c item sent
        else sent

    module _ (draw_int : ℕ → ℕ → ℕ) (now : ℤ) where
      unfoldable pub take_item :
          Hub F → HubClient → ℕ → CollectibleField F → Collectible F → Option (Hub F)
      take_item h client item f c = do
        (g, removed) ← remove draw_int now f item
        some (if removed then conclude_collect (put_field h g) client c item else h)

      unfoldable pub process_collect : Hub F → HubClient → ℕ → Option (Hub F)
      process_collect h client item =
          let cooled = start_cooldown h client.id now in
          if not (is_current h client)
            || Set.contains client.id h.players.synthetic_ids
            || is_cooling h client.id now
          then some h
          else elim (item_in_reach cooled client.id item) [
            | none ↦ some cooled
            | some (f, c) ↦ take_item cooled client item f c
          ]

  -- The loop over the replacements.
  unfoldable pub tell_all_spawned : List (Collectible F) → Hub F → Hub F
  tell_all_spawned [] h = h
  tell_all_spawned (c ∷ cs) h =
      tell_all_spawned cs (tell_spawned (query_player_ids_near_point h.aoi c.lat c.lng) c h)

  unfoldable pub advance_collectible_replacements :
      (ℕ → F) → ℤ → CollectibleField F → Hub F → Option (Hub F)
  advance_collectible_replacements draw_float now f h = do
    (g, spawned) ← advance_replacements draw_float now f
    some (tell_all_spawned spawned (put_field h g))

  unfoldable pub recalc_player : Hub F → ℕ → CollectibleField F → Option (Hub F)
  recalc_player h id f =
      if not (is_connected h id) then some h else elim (player_position h.world id) [
        | none ↦ some h
        | some p ↦ do
          near ← collectibles_within_radius f p.lat p.lng (lit 500 1)
          far ← collectibles_within_radius f p.lat p.lng (lit 600 1)
          some (see_items h id near far)
      ]

  unfoldable pub recalc_collectible_visibility :
      List ℕ → Hub F → CollectibleField F → Option (Hub F)
  recalc_collectible_visibility [] h f = some h
  recalc_collectible_visibility (id ∷ ids) h f = elim (recalc_player h id f) [
    | none ↦ none
    | some g ↦ recalc_collectible_visibility ids g f
  ]
