-- ===== src/Game/Collectibles/Population.antt =====
-- The population of a region: its items and its scheduled replacements together.
use Prim.Native.String.{String}
use map_walker.Prelude.{
  ℕ, suc, ◌+◌, ◌≤◌, length, length-append, ◌≡◌, refl, Bool, true, false, none, some, List, [], ◌∷◌,
  ◌++◌, ◌==◌, arith, inl, inr, if◌then◌else◌, Option-cases, Succeeds,
}
use map_walker.Prelude.Int.{ℤ, leb_ℤ}
use map_walker.Prelude.Eq.{nat_eq, string_eq}
use map_walker.Prelude.Float.{Float64}
use map_walker.Prelude.Map
use map_walker.Prelude.Map.{UniqueKeys, lookup-insert, lookup-delete, delete-UniqueKeys}
use map_walker.Prelude.MultiMap.{linked-unlink}
use map_walker.Game.Geometry.{cell_eq}
use map_walker.Game.Collectibles.{
  Collectible, CollectibleField, CollectibleRegion, ReplacementDeadline, cell_at, grid_remove,
  region_by_id, respawn_delay, remove,
}
use map_walker.Game.Collectibles.Stock.{IsStocked, IsStocked-same, stands_at}

unfoldable pub one_if : Bool → ℕ
one_if true = 1
one_if false = 0

-- The deadlines scheduled for a region, and those that have not come.
unfoldable pub scheduled : String → List ReplacementDeadline → ℕ
unfolding one_if
scheduled id [] = 0
scheduled id (r ∷ rs) = one_if (string_eq.beq r.region_id id) + scheduled id rs

unfoldable pub not_due : ℤ → List ReplacementDeadline → List ReplacementDeadline
not_due now [] = []
not_due now (r ∷ rs) = let rest = not_due now rs in if leb_ℤ r.due_at now then rest else r ∷ rest

pub scheduled-append :
    (id : String) (rs qs : List ReplacementDeadline)
    → scheduled id (rs ++ qs) ≡ scheduled id rs + scheduled id qs
unfolding scheduled
scheduled-append id [] qs = omega arith
scheduled-append id (r ∷ rs) qs = omega (arith, scheduled-append id rs qs)

module _ {F : Type 0} where
  -- The items that a region has.
  unfoldable pub alive : String → List (ℕ × Collectible F) → ℕ
  unfolding one_if
  alive id [] = 0
  alive id ((x, c) ∷ m) = one_if (string_eq.beq c.region_id id) + alive id m

  abbrev pub population : String → CollectibleField F → ℕ
  population id f = alive id f.collectibles + scheduled id f.replacements

  pub alive-insert :
      (id : String) (x : ℕ) (c : Collectible F) (m : List (ℕ × Collectible F))
      → Map.lookup x m ≡ none
      → alive id (Map.insert x c m) ≡ one_if (string_eq.beq c.region_id id) + alive id m
  unfolding alive Map.insert Map.lookup
  alive-insert id x c [] h = refl
  alive-insert id x c ((y, d) ∷ m) h = ground (arith, alive-insert id x c m)

  delete_absent :
      (x : ℕ) (m : List (ℕ × Collectible F)) → Map.lookup x m ≡ none → Map.delete x m ≡ m
  unfolding Map.delete Map.lookup
  delete_absent x [] h = refl
  delete_absent x ((y, d) ∷ m) h = ground (arith, delete_absent x m)

  alive-delete :
      (id : String) (x : ℕ) (c : Collectible F) (m : List (ℕ × Collectible F))
      → UniqueKeys m
      → Map.lookup x m ≡ some c
      → alive id m ≡ one_if (string_eq.beq c.region_id id) + alive id (Map.delete x m)
  unfolding alive Map.delete Map.lookup
  alive-delete id x c [] u h = cc
  alive-delete id x c ((y, d) ∷ m) u h =
      ground (arith, alive-delete id x c m, delete_absent x m, u.0)

  -- A region of the field with this id.
  abbrev pub IsKnown : String → CollectibleField F → Type 0
  IsKnown id f = Map.is_some (region_by_id id f.regions) ≡ true

  pub region_by_id-id :
      (id : String) (rs : List (CollectibleRegion F)) (region : CollectibleRegion F)
      → region_by_id id rs ≡ some region
      → region.id ≡ id
  unfolding region_by_id
  region_by_id-id id [] region h = cc
  region_by_id-id id (r ∷ rs) region h =
      ground (arith, string_eq.beq_iff r.id id, region_by_id-id id rs region)

module _ ⦃fl : Float64⦄ where
  open fl use {F}

  -- What `Remove` of the item c leaves, before it schedules a replacement.
  abbrev taken : CollectibleField F → Collectible F → CollectibleField F
  taken f c = record f {
    grid = grid_remove f.aoi_config c.id c.lat c.lng f.grid;
    collectibles = Map.delete c.id f.collectibles;
  }

  taken-IsStocked :
      (f : CollectibleField F) (c : Collectible F) (id : ℕ)
      → IsStocked f
      → Map.lookup id f.collectibles ≡ some c
      → IsStocked (taken f c)
  unfolding stands_at grid_remove
  taken-IsStocked f c id s e = record {
    unique = delete-UniqueKeys c.id f.collectibles s.unique;
    keyed = λ x d h. ground (arith, lookup-delete c.id x f.collectibles, s.keyed x d);
    below = λ x h. ground (arith, lookup-delete c.id x f.collectibles, s.below x);
    gridded = λ cell x. ground (
      arith,
      linked-unlink (cell_at f.aoi_config c.lat c.lng) c.id cell x f.grid,
      lookup-delete c.id x f.collectibles,
      s.keyed id c e,
      s.gridded cell x,
    );
  }

  -- Every delay can be drawn: no region's bound for IntN is below one.
  abbrev pub CanRespawn : CollectibleField F → (ℕ → ℕ → ℕ) → Type 0
  CanRespawn f draw_int =
      (id : String) (region : CollectibleRegion F) (n : ℕ)
      → region_by_id id f.regions ≡ some region
      → Map.is_some (respawn_delay draw_int region n) ≡ true

  -- After `Remove` of an id: the answer says whether the item was there, it is there no more, all
  -- others are, the field is well kept, and each region of the field has the population it had.
  pub record Removed (f : CollectibleField F) (id : ℕ) (r : CollectibleField F × Bool)
      : Type 0 where
    pub stocked : IsStocked r.0
    pub regions : r.0.regions ≡ f.regions
    pub supply : r.0.next_id + length r.0.replacements ≤ suc (f.next_id + length f.replacements)
    pub answer : r.1 ≡ Map.has id f.collectibles
    pub others :
        (x : ℕ)
        → Map.lookup x r.0.collectibles ≡ (if id == x then none else Map.lookup x f.collectibles)
    pub population :
        (region_id : String)
        → IsKnown region_id f
        → population region_id r.0 ≡ population region_id f

  module _ (draw_int : ℕ → ℕ → ℕ) where
    absent-Removed :
        (f : CollectibleField F) (id : ℕ)
        → IsStocked f
        → Map.lookup id f.collectibles ≡ none
        → Removed f id (f, false)
    absent-Removed f id s e = record {
      stocked = s;
      regions = refl;
      supply = omega arith;
      answer = ground arith;
      others = λ x. ground arith;
      population = λ region_id k. refl;
    }

    unscheduled-Removed :
        (f : CollectibleField F) (id : ℕ) (c : Collectible F)
        → IsStocked f
        → Map.lookup id f.collectibles ≡ some c
        → region_by_id c.region_id f.regions ≡ none
        → Removed f id (taken f c, true)
    unfolding one_if
    unscheduled-Removed f id c s e unknown = record {
      stocked = taken-IsStocked f c id s e;
      regions = refl;
      supply = omega arith;
      answer = ground arith;
      others = λ x. ground (arith, s.keyed id c e, lookup-delete c.id x f.collectibles);
      population = λ region_id k. ground (
        arith,
        s.keyed id c e,
        alive-delete region_id id c f.collectibles s.unique e,
        string_eq.beq_iff c.region_id region_id,
      );
    }

    scheduled-Removed :
        (f : CollectibleField F) (id : ℕ) (c : Collectible F) (due_at : ℤ)
        → IsStocked f
        → Map.lookup id f.collectibles ≡ some c
        → Removed f id (
          record f {
            grid = grid_remove f.aoi_config c.id c.lat c.lng f.grid;
            collectibles = Map.delete c.id f.collectibles;
            draws = f.draws + 1;
            replacements =
                f.replacements ++ (record { region_id = c.region_id; due_at = due_at } ∷ []);
          },
          true,
        )
    unfolding one_if scheduled
    scheduled-Removed f id c due_at s e = record {
      stocked = IsStocked-same {f = taken f c} refl refl refl refl (taken-IsStocked f c id s e);
      regions = refl;
      supply = omega (
        arith,
        length-append f.replacements (record { region_id = c.region_id; due_at = due_at } ∷ []),
      );
      answer = ground arith;
      others = λ x. ground (arith, s.keyed id c e, lookup-delete c.id x f.collectibles);
      population = λ region_id k. ground (
        arith,
        s.keyed id c e,
        alive-delete region_id id c f.collectibles s.unique e,
        scheduled-append region_id f.replacements
            (record { region_id = c.region_id; due_at = due_at } ∷ []),
      );
    }

    -- On a well-kept field whose delays can be drawn, Remove returns; it answers whether the item
    -- was there, takes away that item alone, and every region of the field keeps its number of
    -- items and deadlines together.
    pub remove-Removed :
        (now : ℤ) (f : CollectibleField F) (id : ℕ)
        → IsStocked f
        → CanRespawn f draw_int
        → Succeeds (remove draw_int now f id) (Removed f id)
    unfolding remove
    remove-Removed now f id s can = elim (Option-cases (Map.lookup id f.collectibles)) [
      | inl e ↦ rw (e, remove) (absent-Removed f id s e)
      | inr (c, e) ↦ elim (Option-cases (region_by_id c.region_id f.regions)) [
        | inl unknown ↦ rw (e, unknown, remove) (unscheduled-Removed f id c s e unknown)
        | inr (region, known) ↦ elim (Option-cases (respawn_delay draw_int region f.draws)) [
          | inl panics ↦ absurd (ground (arith, can c.region_id region f.draws known))
          | inr (delay, drawn) ↦ rw (e, known, drawn, remove) (scheduled-Removed f id c _ s e)
        ]
      ]
    ]
