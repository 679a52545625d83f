-- ===== src/Tests/HubRuns.antt =====
-- The hub at concrete inputs.
use map_walker.Prelude.{
  ℕ, zero, suc, ◌≤◌, ◌≡◌, refl, ap, subst, Bool, true, false, not, ◌&&◌, Option, none, some, List,
  [], ◌∷◌, arith, ◌==◌, ltb, if◌then◌else◌, or_else, length, Succeeds,
}
use map_walker.Prelude.Eq.{nat_eq}
use map_walker.Prelude.Int.{ℤ, pos}
use map_walker.Prelude.Map
use map_walker.Prelude.Set.{contains}
use map_walker.Prelude.Sort.{keys_by}
use map_walker.Game.Appearance.{default_appearance}
use map_walker.Game.Geometry.{Config}
use map_walker.Game.Aoi
use map_walker.Game.Aoi.{AoiIndex, new_aoi_index}
use map_walker.Game.Aoi.Presence.{HasAlso, insert-HasAlso}
use map_walker.Game.World
use map_walker.Game.World.{
  World, InputState, PlayerPosition, new_world, add_player_with_state, player_position,
}
use map_walker.Game.World.Invariant.{apply, adds, apply-IsConsistent}
use map_walker.Game.World.Presence.{has_player-add}
use map_walker.Game.Collectibles.{Collectible, CollectibleField, collectible}
use map_walker.Storage.Positions.{filter_and_collapse, seq_of}
use map_walker.Realtime.Dispatcher.{update}
use map_walker.Realtime.Hub.State.{
  Hub, HubClient, SavedPlayerLoad, new_hub, is_connected, player_score,
}
use map_walker.Realtime.Hub.Core.{core, IsReady, IsSettled}
use map_walker.Realtime.Hub.Clients.{
  is_current, next_seq, position_update, remove_client, send_initialization, register_client,
}
use map_walker.Realtime.Hub.Clients.Joining.{entered-IsSettled}
use map_walker.Realtime.Hub.Clients.Outcomes.{is_closed, remove_client-removed}
use map_walker.Realtime.Hub.Clients.Welcome.{IsWelcomed, IsRefused, send_initialization-outcome}
use map_walker.Realtime.Hub.Clients.Sending.{Either}
use map_walker.Realtime.Hub.Clients.Sequence.{reconnect-filtered}
use map_walker.Realtime.Hub.Collects.{visible_items, see_items, recalc_player, process_collect}
use map_walker.Realtime.Hub.Collects.Seeing.{
  told_left, Seen, recalc_player-Seen, see_items-forgotten,
}
use map_walker.Realtime.Hub.Collects.Scoring.{Scored, may_collect, process_collect-Scored}
use map_walker.Realtime.Hub.Leaderboard.{username_of, build_leaderboard}
use map_walker.Realtime.Hub.Leaderboard.Ranks.{
  is_listed, standing, build_leaderboard-self, build_leaderboard-top,
}
use map_walker.Realtime.Hub.Actor.{
  HubStep, receives, finishes, registers, unregisters, inputs, simulates, broadcasts, collects,
  disconnects, handle, run_hub,
}
use map_walker.Realtime.Hub.Actor.Settled.{run_hub-IsSettled}
use map_walker.Realtime.Hub.Actor.Stale.{replaced-stale}
use map_walker.Tests.Grid.{whole}
use map_walker.Tests.WorldRuns.{moves_up}
use map_walker.Tests.CollectibleRuns.{
  draw_float, draw_int, populated, populated-Grown, populated-supply, populated-CanRespawn,
  from_success,
}

abbrev world_config : Config ℤ
world_config = record { spawn_lat = pos 10; spawn_lng = pos 20; speed_meters_per_second = pos 2 }

abbrev anna : HubClient
anna = record { conn = 7; id = 1; username = "anna" }

abbrev bert : HubClient
bert = record { conn = 8; id = 2; username = "bert" }

-- The same player on another connection.
abbrev anna_again : HubClient
anna_again = record { conn = 9; id = 1; username = "anna" }

abbrev nobody : ℕ → Option (SavedPlayerLoad ℤ)
nobody id = none

abbrev always : ℕ → Bool
always n = true

abbrev steps : List HubStep
steps =
    receives (registers anna)
    ∷ receives (registers bert)
    ∷ receives (registers anna_again)
    ∷ receives (inputs anna_again (moves_up 1))
    ∷ receives simulates
    ∷ receives (broadcasts (pos 7))
    ∷ finishes 1 (update 20 true)
    ∷ receives (collects bert 1 (pos 9))
    ∷ receives (disconnects 2)
    ∷ []

populated-IsReady : (n : ℕ) → n ≤ 100 → IsReady draw_int n populated
populated-IsReady n h = record {
  stocked = populated-Grown.stocked;
  respawns = populated-CanRespawn;
  supply = omega (arith, populated-supply, h);
}

only_field :
    (n : ℕ) (f : CollectibleField ℤ) → n ≤ 100 → some populated ≡ some f → IsReady draw_int n f
only_field n f h e =
    subst (IsReady draw_int n) (ap (λ o. or_else o populated) e) (populated-IsReady n h)

run_hub-IsSettled_example :
    Succeeds
      (run_hub nobody always always draw_float draw_int
        (new_hub (new_world world_config) true (some populated) true 8)
        steps)
      (λ g. IsSettled draw_int 0 (core g))
run_hub-IsSettled_example =
    run_hub-IsSettled draw_int nobody always always draw_float world_config (some populated) true
      true 8 steps (λ f e. only_field 9 f (omega arith) e)

abbrev start : Hub ℤ
start = new_hub (new_world world_config) true none true 8

start-IsSettled : IsSettled draw_int 0 (core start)
unfolding run_hub
start-IsSettled =
    run_hub-IsSettled draw_int nobody always always draw_float world_config none true true 8 []
      (λ f e. absurd (cc))

-- The first item, and the hub with anna on the spot.
abbrev item_1 : Collectible ℤ
item_1 =
    or_else (collectible populated 1)
      (record { id = 0; region_id = ""; lat = pos 10; lng = pos 20 })

abbrev anna_world : World ℤ
anna_world = (add_player_with_state start.world 1 "anna" item_1.lat item_1.lng default_appearance).0

abbrev anna_insert : Option (AoiIndex ℤ × Aoi.RelationshipChanges)
anna_insert = Aoi.insert start.aoi 1 item_1.lat item_1.lng

abbrev anna_aoi : AoiIndex ℤ
anna_aoi = (or_else anna_insert (start.aoi, record { entered = []; left = [] })).0

anna_aoi-HasAlso : HasAlso 1 start.aoi anna_aoi
anna_aoi-HasAlso =
    from_success (λ r. HasAlso 1 start.aoi r.0) anna_insert
      (start.aoi, record { entered = []; left = [] })
      (insert-HasAlso start.aoi 1 item_1.lat item_1.lng start-IsSettled.aoi)

abbrev one : Hub ℤ
one = record start {
  world = anna_world;
  aoi = anna_aoi;
  players = record start.players {
    clients = Map.insert 1 anna start.players.clients;
    scores = (1, 4) ∷ [];
  };
}

one-IsSettled : IsSettled draw_int 0 (core one)
unfolding apply
one-IsSettled =
    entered-IsSettled draw_int always always 0 (core start) anna anna_world anna_aoi
      (apply-IsConsistent start.world (adds 1 "anna" item_1.lat item_1.lng default_appearance)
        start-IsSettled.world)
      (λ x. has_player-add start.world 1 "anna" item_1.lat item_1.lng default_appearance x)
      anna_aoi-HasAlso start-IsSettled

anna_current : is_current one anna ≡ true
unfolding is_current Map.lookup Map.insert new_hub
anna_current = refl

-- The second message is not taken.
abbrev first_only : ℕ → Bool
first_only zero = true
first_only (suc n) = false

send_initialization-outcome_example :
    Succeeds (send_initialization always first_only one anna) (λ g.
      Either always first_only one.output.attempts 4 (IsWelcomed one anna g) (IsRefused anna g))
send_initialization-outcome_example =
    send_initialization-outcome always first_only draw_int 0 one anna anna_current one-IsSettled

remove_client-removed_example :
    (is_connected (remove_client one anna) 1 ≡ (not (anna.id == 1) && is_connected one 1))
    × (World.has_player (remove_client one anna).world 1
        ≡ (not (anna.id == 1) && World.has_player one.world 1))
    × (Aoi.has_player (remove_client one anna).aoi 1
        ≡ (not (anna.id == 1) && Aoi.has_player one.aoi 1))
    × (is_closed (remove_client one anna) anna ≡ true)
remove_client-removed_example = remove_client-removed one anna 1 anna_current one-IsSettled.aoi

abbrev there : PlayerPosition ℤ
there = record { id = 1; lat = pos 3; lng = pos 4 }

reconnect-filtered_example :
    (next_seq (remove_client one anna) 1 ≡ 1)
    × (filter_and_collapse ((1, 5) ∷ []) (position_update (remove_client one anna) 1 there ∷ [])
        ≡ [])
unfolding seq_of Map.lookup
reconnect-filtered_example =
    reconnect-filtered one anna ((1, 5) ∷ []) there anna_current (omega arith)

replaced-stale_example : Succeeds (register_client always always nobody one anna_again) (λ g.
    (handle nobody always always draw_float draw_int g (unregisters anna) ≡ some g)
    × (handle nobody always always draw_float draw_int g (inputs anna (moves_up 1)) ≡ some g)
    × (handle nobody always always draw_float draw_int g (collects anna 1 (pos 9)) ≡ some g))
unfolding Map.lookup Map.insert new_hub
replaced-stale_example =
    replaced-stale nobody always always draw_float draw_int 0 one anna anna_again (moves_up 1) 1
      (pos 9) refl refl one-IsSettled

-- Anna stands on the first item and sees it.
abbrev collecting : Hub ℤ
collecting = record one {
  collectibles = record one.collectibles { field = some populated; visible_ids = (1, 1 ∷ []) ∷ [] };
}

process_collect-Scored_example :
    Succeeds
      (process_collect always always draw_int (pos 9) collecting anna 1)
      (Scored (may_collect collecting anna 1 (pos 9)) 1 1 collecting)
unfolding Map.lookup player_score
process_collect-Scored_example =
    process_collect-Scored always always draw_int (pos 9) collecting anna 1
      (λ f e. only_field 1 f (omega arith) e) (omega arith)

build_leaderboard-self_example : (build_leaderboard one 1).self ≡ (
    if is_listed one 1
    then some (record {
      player_id = 1;
      username = username_of one 1;
      score = player_score one 1;
      rank = suc (standing one 1);
    })
    else none)
build_leaderboard-self_example = build_leaderboard-self one 1

build_leaderboard-top_example :
    (length (build_leaderboard one 2).top ≤ 5)
    × (contains 1 (keys_by (λ t. t.player_id) (build_leaderboard one 2).top)
        ≡ (is_listed one 1 && ltb (standing one 1) 5))
build_leaderboard-top_example = build_leaderboard-top one 2 1

-- The item 1 is seen, first between the circles and then far away.
abbrev item : ℕ → Collectible ℤ
item id = record { id = id; region_id = "park"; lat = pos 1; lng = pos 2 }

abbrev spot : PlayerPosition ℤ
spot = record { id = 1; lat = item_1.lat; lng = item_1.lng }

recalc_player-Seen_example :
    Succeeds (recalc_player collecting 1 populated) (Seen collecting 1 populated spot)
unfolding is_connected player_position Map.lookup Map.insert new_hub add_player_with_state
    World.has_player new_world
recalc_player-Seen_example =
    recalc_player-Seen collecting 1 populated spot refl refl populated-Grown.stocked

see_items-forgotten_example :
    (contains 1 (visible_items (see_items (see_items collecting 1 [] (item 1 ∷ [])) 1 [] []) 1)
      ≡ false)
    × (contains 1 (told_left (see_items (see_items collecting 1 [] (item 1 ∷ [])) 1 [] []) 1)
        ≡ contains 1 (told_left collecting 1))
unfolding contains
see_items-forgotten_example =
    see_items-forgotten collecting 1 1 [] (item 1 ∷ []) [] [] refl refl refl
