-- ===== src/Game/Aoi/Scan.antt =====
-- `enterScanNineCells` of aoi.go: who enters, and the relationships after it.
use map_walker.Prelude.{
  ℕ, ◌≡◌, Bool, true, false, not, ◌&&◌, ◌||◌, none, some, List, [], ◌∷◌, ◌==◌, arith, inl, inr,
  Option-cases, Succeeds, Succeeds_map, subst,
}
use map_walker.Prelude.Eq.{nat_eq}
use map_walker.Prelude.Float.{Float64}
use map_walker.Prelude.Map
use map_walker.Prelude.Set.{contains, contains-append}
use map_walker.Game.Geometry.{cell_eq, nine_cells}
use map_walker.Game.Aoi.{
  AoiIndex, AoiPlayer, is_visible, within_enter_radius, add_relationship, scan_candidate,
  scan_candidates, enter_if_near, count_candidate, members_of_cells, enter_scan_nine_cells,
}
use map_walker.Game.Aoi.Relations.{
  SamePlayers, SamePlayers-refl, SamePlayers-trans, IsSymmetric, is_visible-add_relationship,
}

module _ ⦃fl : Float64⦄ where
  open fl use {F}

  -- The index has the player y, and it is within the enter radius of `self`.
  unfoldable pub is_near : AoiIndex F → AoiPlayer F → ℕ → Bool
  is_near a self y = elim (Map.lookup y a.players) [
    | none ↦ false
    | some q ↦ within_enter_radius a.config self q
  ]

  -- Another player of the list, within the enter radius.
  abbrev pub enters : AoiIndex F → AoiPlayer F → ℕ → List ℕ → ℕ → Bool
  enters a self p cs y = not (p == y) && contains y cs && is_near a self y

  -- What a scan of the candidates `cs` by the player p does.
  pub record Scanned (self : AoiPlayer F) (p : ℕ) (cs : List ℕ) (a : AoiIndex F) (entered : List ℕ)
      (r : AoiIndex F × List ℕ) : Type 0 where
    pub same : SamePlayers a r.0
    pub seen :
        (x y : ℕ)
        → is_visible r.0 x y ≡ (
            is_visible a x y
            || (p == x) && enters a self p cs y
            || (p == y) && enters a self p cs x)
    pub listed :
        (y : ℕ)
        → contains y r.1 ≡ (contains y entered || (enters a self p cs y && not (is_visible a p y)))

  module _ (self : AoiPlayer F) (p c : ℕ) (a : AoiIndex F) (entered : List ℕ) where
    scan_candidate_total :
        Map.has c a.players ≡ true → Succeeds (scan_candidate self p c a entered) (λ _. Unit {0})
    unfolding scan_candidate
    scan_candidate_total h = ground arith

    module _ (r : AoiIndex F × List ℕ) (e : scan_candidate self p c a entered ≡ some r) where
      scan_candidate-SamePlayers : SamePlayers a r.0
      unfolding scan_candidate enter_if_near add_relationship
      scan_candidate-SamePlayers = ground arith

      is_visible-scan_candidate :
          (x y : ℕ)
          → IsSymmetric a
          → is_visible r.0 x y ≡ (
              is_visible a x y
              || (p == x) && enters a self p (c ∷ []) y
              || (p == y) && enters a self p (c ∷ []) x)
      unfolding scan_candidate enter_if_near add_relationship is_near contains is_visible
      is_visible-scan_candidate x y h =
          ground (arith, is_visible-add_relationship (count_candidate a) p c x y (h p c), h x y)

      contains-scan_candidate :
          (y : ℕ)
          → contains y r.1
            ≡ (contains y entered || (enters a self p (c ∷ []) y && not (is_visible a p y)))
      unfolding scan_candidate enter_if_near add_relationship is_near contains is_visible
      contains-scan_candidate y = ground (arith, contains-append y entered (c ∷ []))

  scan_candidate-Scanned :
      (self : AoiPlayer F) (p c : ℕ) (a : AoiIndex F) (entered : List ℕ) (r : AoiIndex F × List ℕ)
      → IsSymmetric a
      → scan_candidate self p c a entered ≡ some r
      → Scanned self p (c ∷ []) a entered r
  scan_candidate-Scanned self p c a entered r h e = record {
    same = scan_candidate-SamePlayers self p c a entered r e;
    seen = λ x y. is_visible-scan_candidate self p c a entered r e x y h;
    listed = contains-scan_candidate self p c a entered r e;
  }

  pub Scanned-IsSymmetric :
      {self : AoiPlayer F} {p : ℕ} {cs : List ℕ} {a : AoiIndex F} {entered : List ℕ}
      {r : AoiIndex F × List ℕ}
      → Scanned self p cs a entered r
      → IsSymmetric a
      → IsSymmetric r.0
  Scanned-IsSymmetric s h x y = ground (arith, s.seen x y, s.seen y x, h x y)

  pub is_near-SamePlayers :
      {a b : AoiIndex F} (self : AoiPlayer F) (y : ℕ)
      → SamePlayers a b
      → is_near b self y ≡ is_near a self y
  unfolding is_near
  is_near-SamePlayers self y s = rw (s.players, s.config)

  Scanned-cons :
      {self : AoiPlayer F} {p c : ℕ} {cs : List ℕ} {a : AoiIndex F} {entered : List ℕ}
      {r t : AoiIndex F × List ℕ}
      → Scanned self p (c ∷ []) a entered r
      → Scanned self p cs r.0 r.1 t
      → Scanned self p (c ∷ cs) a entered t
  unfolding contains
  Scanned-cons {self} {p} {c} {cs} {a} {r = r} s u = record {
    same = SamePlayers-trans s.same u.same;
    seen = λ x y. ground (
      arith,
      s.seen x y,
      u.seen x y,
      is_near-SamePlayers self x s.same,
      is_near-SamePlayers self y s.same,
    );
    listed =
        λ y. ground (arith, s.listed y, u.listed y, s.seen p y, is_near-SamePlayers self y s.same);
  }

  -- By induction on the candidates.
  scan_candidates-Scanned :
      (self : AoiPlayer F) (p : ℕ) (cs : List ℕ) (a : AoiIndex F) (entered : List ℕ)
      → IsSymmetric a
      → ((y : ℕ) → contains y cs ≡ true → Map.has y a.players ≡ true)
      → Succeeds (scan_candidates self p cs a entered) (Scanned self p cs a entered)
  unfolding scan_candidates contains
  scan_candidates-Scanned self p [] a entered h present = record {
    same = SamePlayers-refl a;
    seen = λ x y. ground arith;
    listed = λ y. ground arith;
  }
  scan_candidates-Scanned self p (c ∷ cs) a entered h present =
      elim (Option-cases (scan_candidate self p c a entered)) [
        | inl e ↦ absurd (
            subst (λ r. Succeeds r (λ _. Unit {0})) e
              (scan_candidate_total self p c a entered (present c (ground arith))))
        | inr (r, e) ↦
            let first = scan_candidate-Scanned self p c a entered r h e in
            rw (e, scan_candidates)
              (Succeeds_map (scan_candidates self p cs r.0 r.1) (λ t. Scanned-cons first)
                (scan_candidates-Scanned self p cs r.0 r.1 (Scanned-IsSymmetric first h)
                  (λ y m. rw (first.same.players) (present y (ground arith)))))
      ]

  -- With a player behind every id of the cells, the scan ends and does that.
  pub enter_scan-Scanned :
      (a : AoiIndex F) (self : AoiPlayer F) (p : ℕ)
      → IsSymmetric a
      → ((y : ℕ)
          → contains y (members_of_cells (nine_cells self.cell) a.cells) ≡ true
          → Map.has y a.players ≡ true)
      → Succeeds
          (enter_scan_nine_cells a self p)
          (Scanned self p (members_of_cells (nine_cells self.cell) a.cells) a [])
  unfolding enter_scan_nine_cells
  enter_scan-Scanned a self p h present = scan_candidates-Scanned self p _ a [] h present
