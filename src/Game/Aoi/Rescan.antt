-- ===== src/Game/Aoi/Rescan.antt =====
-- The enter scan with its counter and marker (`full_scan`), and the test in front of it in
-- `MoveDetailed`.
use map_walker.Prelude.{
  ℕ, ◌≡◌, refl, Bool, true, false, not, ◌&&◌, ◌||◌, none, some, List, [], ◌==◌, arith, inl, inr,
  Bool-cases, ◌⊎◌, Succeeds,
}
use map_walker.Prelude.Eq.{nat_eq}
use map_walker.Prelude.Float.{Float64}
use map_walker.Prelude.Map
use map_walker.Prelude.Map.{lookup-insert, lookup-delete}
use map_walker.Prelude.Set.{contains}
use map_walker.Game.Geometry.{nine_cells}
use map_walker.Game.Aoi.{
  AoiIndex, AoiPlayer, is_visible, mark_enter_scan, marked, members_of_cells, enter_scan_nine_cells,
  enter_scan_if_forced, should_force_enter_scan, count_full_scan, full_scan,
}
use map_walker.Game.Aoi.Leave.{}
use map_walker.Game.Aoi.Scan.{Scanned, enters, enter_scan-Scanned}
use map_walker.Game.Aoi.Structure.{
  IsStructured, IsStructured-stats, members_of_cells-present, mark_enter_scan-IsStructured,
  Scanned-IsStructured,
}

module _ ⦃fl : Float64⦄ where
  open fl use {F}

  -- The ids in the nine cells around a player.
  abbrev pub candidates : AoiIndex F → AoiPlayer F → List ℕ
  candidates a self = members_of_cells (nine_cells self.cell) a.cells

  -- Who is where: the configuration, and each player but for the scan marker of p.
  pub record SamePlaces (p : ℕ) (a b : AoiIndex F) : Type 0 where
    pub config : b.config ≡ a.config
    pub others : (x : ℕ) → (p == x) ≡ false → Map.lookup x b.players ≡ Map.lookup x a.players
    pub self :
        (q : AoiPlayer F)
        → Map.lookup p a.players ≡ some q
        → (Map.lookup p b.players ≡ some q) ⊎ (Map.lookup p b.players ≡ some (marked q))

  -- What an enter scan with a test in front of it does; `forced` is the test.
  pub record Rescanned (forced : Bool) (self : AoiPlayer F) (p : ℕ) (a : AoiIndex F)
      (r : AoiIndex F × List ℕ) : Type 0 where
    pub structured : IsStructured r.0
    pub places : SamePlaces p a r.0
    pub seen :
        (x y : ℕ)
        → is_visible r.0 x y ≡ (
            is_visible a x y
            || (p == x) && forced && enters a self p (candidates a self) y
            || (p == y) && forced && enters a self p (candidates a self) x)
    pub listed :
        (y : ℕ)
        → contains y r.1
          ≡ (forced && enters a self p (candidates a self) y && not (is_visible a p y))

  module _ (a : AoiIndex F) (self : AoiPlayer F) (p : ℕ) where
    Scanned-Rescanned :
        (r : AoiIndex F × List ℕ)
        → IsStructured a
        → Map.lookup p a.players ≡ some self
        → Scanned self p (candidates a self) a [] r
        → Rescanned true self p a (mark_enter_scan (count_full_scan r.0) self p, r.1)
    unfolding mark_enter_scan is_visible contains
    Scanned-Rescanned r s e n = record {
      structured =
          mark_enter_scan-IsStructured (count_full_scan r.0) self p (rw n.same.players e)
            (IsStructured-stats _ (Scanned-IsStructured n (rw e) s));
      places = record {
        config = n.same.config;
        others = λ x h. ground (arith, lookup-insert p x (marked self) r.0.players, n.same.players);
        self = λ q k. inr (ground (arith, lookup-insert p p (marked self) r.0.players));
      };
      seen = λ x y. ground (arith, n.seen x y);
      listed = n.listed;
    }

    pub full_scan-Rescanned :
        IsStructured a
        → Map.lookup p a.players ≡ some self
        → Succeeds (full_scan a self p) (Rescanned true self p a)
    unfolding full_scan
    full_scan-Rescanned s e =
        (elim (enter_scan_nine_cells a self p)
            as (λ o.
              Succeeds o (Scanned self p (candidates a self) a [])
              → Succeeds
                  (elim o [
                    | none ↦ none
                    | some (b, entered) ↦ some (mark_enter_scan (count_full_scan b) self p, entered)
                  ])
                  (Rescanned true self p a)) [
                    | none ↦ λ h. h
                    | some r ↦ λ h. Scanned-Rescanned r s e h
                  ])
          (enter_scan-Scanned a self p s.symmetric
            (λ y. members_of_cells-present a (nine_cells self.cell) y s))

    pub enter_scan_if_forced-Rescanned :
        IsStructured a
        → Map.lookup p a.players ≡ some self
        → Succeeds
            (enter_scan_if_forced a self p)
            (Rescanned (should_force_enter_scan a.config self) self p a)
    unfolding enter_scan_if_forced is_visible contains
    enter_scan_if_forced-Rescanned s e = elim (Bool-cases (should_force_enter_scan a.config self)) [
      | inl forced ↦ rw forced (full_scan-Rescanned s e)
      | inr skipped ↦ rw skipped (record {
        structured = IsStructured-stats _ s;
        places = record { config = refl; others = λ x h. refl; self = λ q k. inl k };
        seen = λ x y. ground arith;
        listed = λ y. ground arith;
      })
    ]
