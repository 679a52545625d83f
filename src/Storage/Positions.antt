-- ===== src/Storage/Positions.antt =====
-- internal/storage/persistence.go and position_batch.go: the position worker. The database is not
-- in the repository: `outcome n` says whether its n-th call succeeds, and `written` is the log of
-- the rows that it has committed, newest first. `Submit` starts a goroutine for each batch, so
-- batches reach the worker in any order: a run is any list of batches.
pub mod Freshness
pub mod Completeness
use map_walker.Prelude.{
  ℕ, zero, suc, ◌+◌, Bool, Option, none, some, List, [], ◌∷◌, if◌then◌else◌, ltb, leb, length, take,
  drop, or_else,
}
use map_walker.Prelude.Eq.{nat_eq}
use map_walker.Prelude.Map
use map_walker.Prelude.Map.{values}
use map_walker.Prelude.MultiMap.{is_empty}

pub record PositionUpdate (F : Type 0) : Type 0 where
  pub user_id : ℕ
  pub lat : F
  pub lng : F
  pub seq : ℕ

pub record Worker (F : Type 0) : Type 0 where
  pub is_mysql : Bool
  pub last_seq : List (ℕ × ℕ)
  pub calls : ℕ
  pub written : List (PositionUpdate F)

abbrev pub max_position_chunk_size : ℕ
max_position_chunk_size = 500

-- `w.lastSeq[id]`, 0 if absent.
unfoldable pub seq_of : List (ℕ × ℕ) → ℕ → ℕ
seq_of last_seq user = or_else (Map.lookup user last_seq) 0

module _ {F : Type 0} where
  unfoldable pub keep_best :
      PositionUpdate F → List (ℕ × PositionUpdate F) → List (ℕ × PositionUpdate F)
  keep_best u best = elim (Map.lookup u.user_id best) [
    | none ↦ Map.insert u.user_id u best
    | some existing ↦ if ltb existing.seq u.seq then Map.insert u.user_id u best else best
  ]

  -- The loop of `filterAndCollapse`.
  unfoldable pub collapse :
      List (ℕ × ℕ)
      → List (PositionUpdate F)
      → List (ℕ × PositionUpdate F)
      → List (ℕ × PositionUpdate F)
  collapse last_seq [] best = best
  collapse last_seq (u ∷ us) best =
      collapse last_seq us
        (if leb u.seq (seq_of last_seq u.user_id) then best else keep_best u best)

  unfoldable pub filter_and_collapse :
      List (ℕ × ℕ) → List (PositionUpdate F) → List (PositionUpdate F)
  filter_and_collapse last_seq batch = values (collapse last_seq batch [])

  -- A committed row.
  unfoldable pub commit_row : PositionUpdate F → Worker F → Worker F
  commit_row u w = record w {
    written = u ∷ w.written;
    last_seq = Map.insert u.user_id u.seq w.last_seq;
  }

  unfoldable pub commit_rows : List (PositionUpdate F) → Worker F → Worker F
  commit_rows [] w = w
  commit_rows (u ∷ us) w = commit_rows us (commit_row u w)

  abbrev pub count_call : Worker F → Worker F
  count_call w = record w { calls = w.calls + 1 }

  module _ (outcome : ℕ → Bool) where
    unfoldable pub apply_per_row : List (PositionUpdate F) → Worker F → Worker F
    apply_per_row [] w = w
    apply_per_row (u ∷ us) w =
        apply_per_row us (if outcome w.calls then commit_row u (count_call w) else count_call w)

    -- One round of `applyBulk`. A chunk is one transaction; an empty one makes no call.
    unfoldable pub apply_chunk : List (PositionUpdate F) → Worker F → Worker F
    apply_chunk chunk w =
        if is_empty chunk
        then w
        else (if outcome w.calls then commit_rows chunk (count_call w) else count_call w)

    -- The loop over the offsets. Its fuel is the number of updates, and each round takes at least
    -- one of them.
    unfoldable pub apply_bulk : ℕ → List (PositionUpdate F) → Worker F → Worker F
    apply_bulk zero us w = w
    apply_bulk (suc fuel) us w =
        let rest =
          apply_bulk fuel (drop max_position_chunk_size us)
            (apply_chunk (take max_position_chunk_size us) w) in
        if is_empty us then w else rest

    unfoldable pub apply : Worker F → List (PositionUpdate F) → Worker F
    apply w batch =
        let accepted = filter_and_collapse w.last_seq batch in
        if is_empty accepted
        then w
        else (if w.is_mysql
            then apply_bulk (length accepted) accepted w
            else apply_per_row accepted w)

    -- The worker's loop, over the batches in the order in which it receives them.
    unfoldable pub run : Worker F → List (List (PositionUpdate F)) → Worker F
    run w [] = w
    run w (batch ∷ batches) = run (apply w batch) batches
