-- ===== src/Realtime/Builder/Received.antt =====
-- What a recipient gets from `Build` of replication_builder.go.
use map_walker.Prelude.{
  ℕ, ◌≡◌, refl, ◌∙◌, ap, Bool, false, ◌||◌, ◌&&◌, List, [], ◌∷◌, ◌++◌, ◌==◌, arith, if◌then◌else◌,
  or_else, inl, inr, Option-cases, if_both, append-nil, append_assoc,
}
use map_walker.Prelude.Eq.{nat_eq}
use map_walker.Prelude.Map
use map_walker.Prelude.Map.{lookup-insert}
use map_walker.Prelude.Set.{contains}
use map_walker.Prelude.Sort.{keys_by}
use map_walker.Game.Appearance.{Appearance}
use map_walker.Game.Aoi.{MovementDelta}
use map_walker.Game.World.{PlayerState, PlayerPosition}
use map_walker.Realtime.Messages.{ReplicationChanges, entered_ids}
use map_walker.Realtime.Builder.{
  ReplicationBuildInput, ReplicationBuildReader, ReplicationJob, no_changes, with_recipient,
  if_connected, fan_out, add_delta, add_deltas, add_entered, add_appearances, add_kept,
  by_recipient, jobs_of, build, put_self, put_position, put_entered, put_appearance, put_left,
  put_items_entered, put_items_left, put_items_spawned, put_items_collected,
}

module _ {F C : Type 0} where
  -- The changes in the first job for a recipient.
  unfoldable pub received : ℕ → List (ReplicationJob F C) → ReplicationChanges F
  received r [] = no_changes
  received r (j ∷ js) = if j.recipient_id == r then j.changes else received r js

module _ {F C : Type 0} (reader : ReplicationBuildReader F C) (r : ℕ) where
  abbrev changes_for : List (ℕ × ReplicationChanges F) → ReplicationChanges F
  changes_for m = or_else (Map.lookup r m) no_changes

  received-jobs_of :
      (tick : ℕ) (m : List (ℕ × ReplicationChanges F))
      → received r (jobs_of reader tick m)
        ≡ (if Map.is_some (reader.client r) then changes_for m else no_changes)
  unfolding received jobs_of Map.lookup
  received-jobs_of tick [] = ground arith
  received-jobs_of tick ((id, c) ∷ m) = ground (arith, received-jobs_of tick m)

  if_connected_for :
      (id : ℕ) (f : ReplicationChanges F → ReplicationChanges F)
      (m : List (ℕ × ReplicationChanges F))
      → changes_for (if_connected reader id f m)
        ≡ (if reader.connected r && id == r then f (changes_for m) else changes_for m)
  unfolding if_connected with_recipient
  if_connected_for id f m =
      ground (arith, lookup-insert id r (f (or_else (Map.lookup id m) no_changes)) m)

  -- A loop that leaves a part g of the changes leaves it for everybody.
  module _ {X : Type 0} (g : ReplicationChanges F → X) where
    if_connected_keeps :
        (id : ℕ) (f : ReplicationChanges F → ReplicationChanges F)
        (m : List (ℕ × ReplicationChanges F))
        → ((c : ReplicationChanges F) → g (f c) ≡ g c)
        → g (changes_for (if_connected reader id f m)) ≡ g (changes_for m)
    if_connected_keeps id f m h =
        ap g (if_connected_for id f m)
        ∙ if_both (λ c. g c ≡ g (changes_for m)) (reader.connected r && id == r) (h (changes_for m))
            refl

    fan_out_keeps :
        (f : ReplicationChanges F → ReplicationChanges F) (ids : List ℕ)
        (m : List (ℕ × ReplicationChanges F))
        → ((c : ReplicationChanges F) → g (f c) ≡ g c)
        → g (changes_for (fan_out reader f ids m)) ≡ g (changes_for m)
    unfolding fan_out
    fan_out_keeps f [] m h = refl
    fan_out_keeps f (id ∷ ids) m h =
        fan_out_keeps f ids (if_connected reader id f m) h ∙ if_connected_keeps id f m h

    add_kept_keeps :
        {A : Type 0} (put : A → ReplicationChanges F → ReplicationChanges F) (xs : List (ℕ × A))
        (m : List (ℕ × ReplicationChanges F))
        → ((a : A) (c : ReplicationChanges F) → g (put a c) ≡ g c)
        → g (changes_for (add_kept reader put xs m)) ≡ g (changes_for m)
    unfolding add_kept
    add_kept_keeps put [] m h = refl
    add_kept_keeps put ((id, a) ∷ xs) m h =
        add_kept_keeps put xs (if_connected reader id (put a) m) h
        ∙ if_connected_keeps id (put a) m (h a)

    add_deltas_keeps :
        (ds : List MovementDelta) (m : List (ℕ × ReplicationChanges F))
        → ((p : PlayerPosition F) (c : ReplicationChanges F) → g (put_self p c) ≡ g c)
        → ((p : PlayerPosition F) (c : ReplicationChanges F) → g (put_position p c) ≡ g c)
        → g (changes_for (add_deltas reader ds m)) ≡ g (changes_for m)
    unfolding add_deltas add_delta
    add_deltas_keeps [] m h k = refl
    add_deltas_keeps (d ∷ ds) m h k = elim (Option-cases (reader.player_position d.player_id)) [
      | inl e ↦ add_deltas_keeps ds (add_delta reader d m) h k ∙ rw (e, add_delta) refl
      | inr (p, e) ↦
          add_deltas_keeps ds (add_delta reader d m) h k
          ∙ rw (e, add_delta)
              (fan_out_keeps (put_position p) d.stable
                  (if_connected reader d.player_id (put_self p) m) (k p)
                ∙ if_connected_keeps d.player_id (put_self p) m (h p))
    ]

    add_appearances_keeps :
        (xs : List (ℕ × Appearance)) (m : List (ℕ × ReplicationChanges F))
        → ((id : ℕ) (look : Appearance) (c : ReplicationChanges F)
            → g (put_appearance id look c) ≡ g c)
        → g (changes_for (add_appearances reader xs m)) ≡ g (changes_for m)
    unfolding add_appearances
    add_appearances_keeps [] m h = refl
    add_appearances_keeps ((id, look) ∷ xs) m h =
        add_appearances_keeps xs _ h
        ∙ fan_out_keeps (put_appearance id look) (reader.visible_neighbors id) _ (h id look)
        ∙ if_connected_keeps id (put_appearance id look) m (h id look)

    add_entered_keeps :
        (ss : List (PlayerState F)) (m : List (ℕ × ReplicationChanges F))
        → ((s : PlayerState F) (c : ReplicationChanges F) → g (put_entered s c) ≡ g c)
        → g (changes_for (add_entered reader ss m)) ≡ g (changes_for m)
    unfolding add_entered
    add_entered_keeps [] m h = refl
    add_entered_keeps (s ∷ ss) m h =
        add_entered_keeps ss _ h
        ∙ fan_out_keeps (put_entered s) (reader.visible_neighbors s.id) m (h s)

  -- The left ids kept for the recipient, in order.
  unfoldable pub left_for : List (ℕ × List ℕ) → List ℕ
  left_for [] = []
  left_for ((id, ids) ∷ xs) = let rest = left_for xs in if id == r then ids ++ rest else rest

  add_left_for :
      (xs : List (ℕ × List ℕ)) (m : List (ℕ × ReplicationChanges F))
      → (changes_for (add_kept reader put_left xs m)).left_player_ids ≡ (
          if reader.connected r
          then (changes_for m).left_player_ids ++ left_for xs
          else (changes_for m).left_player_ids)
  unfolding add_kept left_for
  add_left_for [] m = ground (arith, append-nil (changes_for m).left_player_ids)
  add_left_for ((id, ids) ∷ xs) m = ground (
    arith,
    add_left_for xs (if_connected reader id (put_left ids) m),
    if_connected_for id (put_left ids) m,
    append_assoc (changes_for m).left_player_ids ids (left_for xs),
  )

  -- One of the states has this id and the recipient among its neighbours.
  unfoldable pub entered_to : List (PlayerState F) → ℕ → Bool
  entered_to [] k = false
  entered_to (s ∷ ss) k =
      (contains r (reader.visible_neighbors s.id) && s.id == k) || entered_to ss k

  entered_append :
      (k : ℕ) (xs : List (PlayerState F)) (s : PlayerState F)
      → contains k (entered_ids (xs ++ (s ∷ []))) ≡ (contains k (entered_ids xs) || s.id == k)
  unfolding contains keys_by
  entered_append k [] s = ground arith
  entered_append k (x ∷ xs) s = ground (arith, entered_append k xs s)

  fan_out_entered :
      (k : ℕ) (s : PlayerState F) (ids : List ℕ) (m : List (ℕ × ReplicationChanges F))
      → contains k (entered_ids (changes_for (fan_out reader (put_entered s) ids m)).entered) ≡ (
          contains k (entered_ids (changes_for m).entered)
          || (reader.connected r && contains r ids && s.id == k))
  unfolding fan_out contains
  fan_out_entered k s [] m = ground arith
  fan_out_entered k s (id ∷ ids) m = ground (
    arith,
    fan_out_entered k s ids (if_connected reader id (put_entered s) m),
    if_connected_for id (put_entered s) m,
    entered_append k (changes_for m).entered s,
  )

  add_entered_to :
      (k : ℕ) (ss : List (PlayerState F)) (m : List (ℕ × ReplicationChanges F))
      → contains k (entered_ids (changes_for (add_entered reader ss m)).entered) ≡ (
          contains k (entered_ids (changes_for m).entered)
          || (reader.connected r && entered_to ss k))
  unfolding add_entered entered_to
  add_entered_to k [] m = ground arith
  add_entered_to k (s ∷ ss) m = ground (
    arith,
    add_entered_to k ss (fan_out reader (put_entered s) (reader.visible_neighbors s.id) m),
    fan_out_entered k s (reader.visible_neighbors s.id) m,
  )

  by_recipient_left :
      (input : ReplicationBuildInput F)
      → (changes_for (by_recipient reader input)).left_player_ids
        ≡ (if reader.connected r then left_for input.pending_left else [])
  unfolding by_recipient Map.lookup
  by_recipient_left input =
      let g = λ (c : ReplicationChanges F). c.left_player_ids in
      let m1 = add_deltas reader input.movement_deltas [] in
      let m2 = add_entered reader input.pending_entered m1 in
      let before =
        add_entered_keeps g input.pending_entered m1 (λ s c. refl)
        ∙ add_deltas_keeps g input.movement_deltas [] (λ p c. refl) (λ p c. refl) in
      add_kept_keeps g put_items_collected input.collect_collected _ (λ a c. refl)
      ∙ add_kept_keeps g put_items_spawned input.collect_spawned _ (λ a c. refl)
      ∙ add_kept_keeps g put_items_left input.collect_left _ (λ a c. refl)
      ∙ add_kept_keeps g put_items_entered input.collect_entered _ (λ a c. refl)
      ∙ add_appearances_keeps g input.pending_appearances _ (λ id look c. refl)
      ∙ add_left_for input.pending_left m2
      ∙ ap (λ ids. if reader.connected r then ids ++ left_for input.pending_left else ids) before

  by_recipient_entered :
      (input : ReplicationBuildInput F) (k : ℕ)
      → contains k (entered_ids (changes_for (by_recipient reader input)).entered)
        ≡ (reader.connected r && entered_to input.pending_entered k)
  unfolding by_recipient Map.lookup contains keys_by
  by_recipient_entered input k =
      let g = λ (c : ReplicationChanges F). contains k (entered_ids c.entered) in
      let m1 = add_deltas reader input.movement_deltas [] in
      let before = add_deltas_keeps g input.movement_deltas [] (λ p c. refl) (λ p c. refl) in
      add_kept_keeps g put_items_collected input.collect_collected _ (λ a c. refl)
      ∙ add_kept_keeps g put_items_spawned input.collect_spawned _ (λ a c. refl)
      ∙ add_kept_keeps g put_items_left input.collect_left _ (λ a c. refl)
      ∙ add_kept_keeps g put_items_entered input.collect_entered _ (λ a c. refl)
      ∙ add_appearances_keeps g input.pending_appearances _ (λ id look c. refl)
      ∙ add_kept_keeps g put_left input.pending_left _ (λ a c. refl)
      ∙ add_entered_to k input.pending_entered m1
      ∙ ap (λ b. b || (reader.connected r && entered_to input.pending_entered k)) before

  -- Of a broadcast, a connected recipient with a client receives exactly the left ids that are kept
  -- for it, in order, and entered states under exactly the ids of the pending ones that have it
  -- among their visible neighbours; any other recipient receives neither.
  pub build-received :
      (input : ReplicationBuildInput F) (k : ℕ)
      → ((received r (build reader input).0).left_player_ids ≡ (
          if Map.is_some (reader.client r) && reader.connected r
          then left_for input.pending_left
          else []))
        × (contains k (entered_ids (received r (build reader input).0).entered) ≡ (
            Map.is_some (reader.client r)
            && reader.connected r
            && entered_to input.pending_entered k))
  unfolding build contains keys_by
  build-received input k = (
    ground
        (arith, received-jobs_of input.tick (by_recipient reader input), by_recipient_left input),
    ground (
      arith,
      received-jobs_of input.tick (by_recipient reader input),
      by_recipient_entered input k,
    ),
  )
