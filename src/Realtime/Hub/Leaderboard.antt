-- ===== src/Realtime/Hub/Leaderboard.antt =====
-- hub.go, buildLeaderboard: the clients that are not synthetic, by score and then by id.
pub mod Order
pub mod Ranks
use Prim.Native.String.{String}
use map_walker.Prelude.{
  ℕ, zero, suc, Bool, Option, none, some, List, [], ◌∷◌, if◌then◌else◌, ltb, ◌==◌, take,
}
use map_walker.Prelude.Eq.{nat_eq}
use map_walker.Prelude.Set
use map_walker.Prelude.Sort.{sort}
use map_walker.Game.World.{player_state}
use map_walker.Realtime.Hub.State.{Hub, HubClient, player_score}

-- The `entry` of buildLeaderboard.
pub record Entry : Type 0 where
  pub player_id : ℕ
  pub username : String
  pub score : ℕ

-- `rank` is 0 where the source leaves it out.
pub record LeaderboardEntry : Type 0 where
  pub player_id : ℕ
  pub username : String
  pub score : ℕ
  pub rank : ℕ

pub record LeaderboardResponse : Type 0 where
  pub top : List LeaderboardEntry
  pub self : Option LeaderboardEntry

-- The comparison of `sort.Slice`.
unfoldable pub ranks_before : Entry → Entry → Bool
ranks_before a b = if a.score == b.score then ltb a.player_id b.player_id else ltb b.score a.score

abbrev pub ranked : Entry → ℕ → LeaderboardEntry
ranked e rank = record {
  player_id = e.player_id;
  username = e.username;
  score = e.score;
  rank = rank;
}

-- The first five.
unfoldable pub top_of : List Entry → List LeaderboardEntry
top_of [] = []
top_of (e ∷ es) = ranked e 0 ∷ top_of es

-- The search for the requester, from the index i on.
unfoldable pub self_from : ℕ → ℕ → List Entry → Option LeaderboardEntry
self_from requester i [] = none
self_from requester i (e ∷ es) =
    let rest = self_from requester (suc i) es in
    if e.player_id == requester then some (ranked e (suc i)) else rest

module _ {F : Type 0} where
  abbrev pub username_of : Hub F → ℕ → String
  username_of h id = elim (player_state h.world id) [ none ↦ "" | some state ↦ state.username ]

  abbrev pub entry_of : Hub F → ℕ → Entry
  entry_of h id = record { player_id = id; username = username_of h id; score = player_score h id }

  unfoldable pub entries_of : Hub F → List (ℕ × HubClient) → List Entry
  entries_of h [] = []
  entries_of h ((id, _) ∷ clients) =
      let rest = entries_of h clients in
      if Set.contains id h.players.synthetic_ids then rest else entry_of h id ∷ rest

  unfoldable pub build_leaderboard : Hub F → ℕ → LeaderboardResponse
  build_leaderboard h requester =
      let entries = sort ranks_before (entries_of h h.players.clients) in
      record { top = top_of (take 5 entries); self = self_from requester 0 entries }
