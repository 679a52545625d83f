-- ===== src/Realtime/Hub/Clients/Sequence.antt =====
-- The numbers of the position updates: removeClient of hub.go deletes the player's counter, and
-- filterAndCollapse of internal/storage/persistence.go compares with the numbers it has seen.
use map_walker.Prelude.{ℕ, ◌≡◌, ◌<◌, ap, true, none, List, [], ◌∷◌, arith, or_else}
use map_walker.Prelude.Eq.{nat_eq}
use map_walker.Prelude.Map
use map_walker.Prelude.Map.{lookup-delete}
use map_walker.Prelude.Word.{incr}
use map_walker.Game.World.{PlayerPosition}
use map_walker.Storage.Positions.{seq_of, collapse, filter_and_collapse}
use map_walker.Realtime.Hub.State.{Hub, HubClient, close_send}
use map_walker.Realtime.Hub.Clients.{
  next_seq, position_update, remove_current, remove_client, is_current,
  clear_pending_replication_for,
}

lookup-delete_self : (k : ℕ) (m : List (ℕ × ℕ)) → Map.lookup k (Map.delete k m) ≡ none
lookup-delete_self k m = ground (arith, lookup-delete k k m)

module _ {F : Type 0} where
  next_seq-remove_current :
      (h : Hub F) (client : HubClient) → next_seq (remove_current h client) client.id ≡ 1
  unfolding remove_current close_send clear_pending_replication_for
  next_seq-remove_current h client = ap (λ o. incr (or_else o 0)) (lookup-delete_self client.id _)

  -- After removeClient of the current connection the player's next position update has the number
  -- 1, and the filter of a worker that has already seen a number of this player drops it.
  pub reconnect-filtered :
      (h : Hub F) (client : HubClient) (last_seq : List (ℕ × ℕ)) (p : PlayerPosition F)
      → is_current h client ≡ true
      → 0 < seq_of last_seq client.id
      → (next_seq (remove_client h client) client.id ≡ 1)
        × (filter_and_collapse last_seq (position_update (remove_client h client) client.id p ∷ [])
            ≡ [])
  unfolding filter_and_collapse collapse remove_client
  reconnect-filtered h client last_seq p current seen =
      let first = next_seq-remove_current h client in
      rw (current, remove_client) (first, ground (arith, first, seen))
