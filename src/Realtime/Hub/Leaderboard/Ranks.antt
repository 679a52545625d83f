-- ===== src/Realtime/Hub/Leaderboard/Ranks.antt =====
-- hub.go, buildLeaderboard: which place each client has.
use map_walker.Prelude.{
  ℕ, suc, ◌≤◌, ◌||◌, ◌≡◌, refl, ◌∙◌, ap, Bool, not, ◌&&◌, none, some, List, [], ◌∷◌, arith, inl,
  inr, Bool-cases, if_cases, if◌then◌else◌, ltb, ◌==◌, take, length, length-take,
}
use map_walker.Prelude.Eq.{nat_eq}
use map_walker.Prelude.Map
use map_walker.Prelude.Set.{contains}
use map_walker.Prelude.Sort.{sort, keys_by}
use map_walker.Realtime.Hub.State.{Hub, HubClient, player_score}
use map_walker.Realtime.Hub.Leaderboard.{
  ranks_before, username_of, entries_of, entry_of, build_leaderboard,
}
use map_walker.Realtime.Hub.Leaderboard.Order.{
  ids, count_before, count_before-sort, ids-sort, AreDetermined, sort-AreDetermined, sort-AreRanked,
  self_from_lem, contains-take, ids-top_of, length-top_of,
}

module _ {F : Type 0} where
  -- A connected client that is not synthetic.
  unfoldable pub is_listed : Hub F → ℕ → Bool
  is_listed h x = Map.has x h.players.clients && not (contains x h.players.synthetic_ids)

  -- The client y has a higher score than x, or the same score and a lower id.
  abbrev pub outranks : Hub F → ℕ → ℕ → Bool
  outranks h y x =
      ltb (player_score h x) (player_score h y) || (player_score h y == player_score h x) && ltb y x

  -- How many of these clients are not synthetic and outrank x.
  unfoldable pub count_outranking : Hub F → ℕ → List (ℕ × HubClient) → ℕ
  count_outranking h x [] = 0
  count_outranking h x ((y, c) ∷ clients) =
      let rest = count_outranking h x clients in
      if not (contains y h.players.synthetic_ids) && outranks h y x then suc rest else rest

  abbrev pub standing : Hub F → ℕ → ℕ
  standing h x = count_outranking h x h.players.clients

  count_before-entries_of :
      (h : Hub F) (x : ℕ) (clients : List (ℕ × HubClient))
      → count_before (entry_of h x) (entries_of h clients) ≡ count_outranking h x clients
  unfolding count_before entries_of count_outranking ranks_before
  count_before-entries_of h x [] = refl
  count_before-entries_of h x ((y, c) ∷ clients) =
      ground (arith, count_before-entries_of h x clients)

  entries_of-AreDetermined :
      (h : Hub F) (clients : List (ℕ × HubClient))
      → AreDetermined (entry_of h) (λ x. refl) (entries_of h clients)
  unfolding entries_of
  entries_of-AreDetermined h [] = tt
  entries_of-AreDetermined h ((id, c) ∷ clients) =
      if_cases (AreDetermined (entry_of h) (λ x. refl)) (contains id h.players.synthetic_ids)
        (λ _. entries_of-AreDetermined h clients) (λ _. (refl, entries_of-AreDetermined h clients))

  ids-entries_of :
      (h : Hub F) (x : ℕ) (clients : List (ℕ × HubClient))
      → contains x (ids (entries_of h clients))
        ≡ (Map.has x clients && not (contains x h.players.synthetic_ids))
  unfolding entries_of contains keys_by Map.lookup
  ids-entries_of h x [] = refl
  ids-entries_of h x ((id, c) ∷ clients) = elim (Bool-cases (id == x)) [
    | inl here ↦ ground (arith, here, ids-entries_of h x clients)
    | inr other ↦ ground (arith, other, ids-entries_of h x clients)
  ]

  -- The leaderboard shows the requester exactly when it is connected and not synthetic, with its
  -- name, its score and a rank that is one more than the number of such clients that have a higher
  -- score, or the same score and a lower id.
  pub build_leaderboard-self :
      (h : Hub F) (requester : ℕ)
      → (build_leaderboard h requester).self ≡ (
          if is_listed h requester
          then some (record {
            player_id = requester;
            username = username_of h requester;
            score = player_score h requester;
            rank = suc (standing h requester);
          })
          else none)
  unfolding build_leaderboard is_listed
  build_leaderboard-self h requester =
      let es = entries_of h h.players.clients in
      let d = entries_of-AreDetermined h h.players.clients in
      ground (
        arith,
        self_from_lem (entry_of h) (λ x. refl) requester 0 (sort ranks_before es)
            (sort-AreDetermined (entry_of h) (λ x. refl) es d)
            (sort-AreRanked (entry_of h) (λ x. refl) es d),
        ids-sort requester es,
        ids-entries_of h requester h.players.clients,
        count_before-sort (entry_of h requester) es,
        count_before-entries_of h requester h.players.clients,
      )

  -- The top of the leaderboard has at most five entries, and a player is among them exactly when it
  -- is connected, not synthetic, and fewer than five such clients have a higher score, or the same
  -- score and a lower id.
  pub build_leaderboard-top :
      (h : Hub F) (requester x : ℕ)
      → (length (build_leaderboard h requester).top ≤ 5)
        × (contains x (keys_by (λ t. t.player_id) (build_leaderboard h requester).top)
            ≡ (is_listed h x && ltb (standing h x) 5))
  unfolding build_leaderboard is_listed
  build_leaderboard-top h requester x =
      let es = entries_of h h.players.clients in
      let sorted = sort ranks_before es in
      let d = entries_of-AreDetermined h h.players.clients in
      (
        omega (arith, length-top_of (take 5 sorted), length-take 5 sorted),
        ap (contains x) (ids-top_of (take 5 sorted))
            ∙ contains-take (entry_of h) (λ x. refl) x 5 sorted
                (sort-AreDetermined (entry_of h) (λ x. refl) es d)
                (sort-AreRanked (entry_of h) (λ x. refl) es d)
            ∙ ground (
              arith,
              ids-sort x es,
              ids-entries_of h x h.players.clients,
              count_before-sort (entry_of h x) es,
              count_before-entries_of h x h.players.clients,
            ),
      )
