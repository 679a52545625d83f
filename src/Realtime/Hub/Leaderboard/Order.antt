-- ===== src/Realtime/Hub/Leaderboard/Order.antt =====
-- hub.go, buildLeaderboard: the order of the entries, and the places it gives.
use map_walker.Prelude.{
  ℕ, zero, suc, ◌+◌, ◌≡◌, refl, ap, true, false, ◌&&◌, ◌||◌, none, some, List, [], ◌∷◌, arith, inl,
  inr, Bool-cases, if_cases, if◌then◌else◌, ltb, ◌==◌, take, length,
}
use map_walker.Prelude.Eq.{nat_eq}
use map_walker.Prelude.Set.{contains}
use map_walker.Prelude.Sort.{sort, sort_insert, keys_by}
use map_walker.Realtime.Hub.Leaderboard.{Entry, ranks_before, ranked, top_of, self_from}

abbrev pub ids : List Entry → List ℕ
ids es = keys_by (λ e. e.player_id) es

-- How many entries stand before this one.
unfoldable pub count_before : Entry → List Entry → ℕ
count_before e [] = 0
count_before e (d ∷ es) =
    let rest = count_before e es in if ranks_before d e then suc rest else rest

count_before-sort_insert :
    (e x : Entry) (ys : List Entry)
    → count_before e (sort_insert ranks_before x ys) ≡ count_before e (x ∷ ys)
unfolding count_before sort_insert
count_before-sort_insert e x [] = refl
count_before-sort_insert e x (y ∷ ys) = ground (arith, count_before-sort_insert e x ys)

pub count_before-sort :
    (e : Entry) (xs : List Entry) → count_before e (sort ranks_before xs) ≡ count_before e xs
unfolding count_before sort
count_before-sort e [] = refl
count_before-sort e (x ∷ xs) =
    ground (arith, count_before-sort_insert e x (sort ranks_before xs), count_before-sort e xs)

ids-sort_insert :
    (k : ℕ) (x : Entry) (ys : List Entry)
    → contains k (ids (sort_insert ranks_before x ys)) ≡ ((x.player_id == k) || contains k (ids ys))
unfolding keys_by sort_insert contains
ids-sort_insert k x [] = refl
ids-sort_insert k x (y ∷ ys) = ground (arith, ids-sort_insert k x ys)

pub ids-sort :
    (k : ℕ) (xs : List Entry) → contains k (ids (sort ranks_before xs)) ≡ contains k (ids xs)
unfolding keys_by sort contains
ids-sort k [] = refl
ids-sort k (x ∷ xs) = ground (arith, ids-sort_insert k x (sort ranks_before xs), ids-sort k xs)

-- The order of the entries: of two, one is first, and what is not before stays so along a chain.
before_asym : (a b : Entry) → ranks_before a b ≡ true → ranks_before b a ≡ false
unfolding ranks_before
before_asym a b h = ground arith

before_total :
    (a b : Entry)
    → (a.player_id == b.player_id) ≡ false
    → ranks_before a b ≡ false
    → ranks_before b a ≡ true
unfolding ranks_before
before_total a b ne h = ground arith

before_chain :
    (a b c : Entry) → ranks_before a b ≡ false → ranks_before b c ≡ false → ranks_before a c ≡ false
unfolding ranks_before
before_chain a b c h k = ground arith

-- Entries that their ids determine.
module _ (g : ℕ → Entry) (own : (x : ℕ) → (g x).player_id ≡ x) where
  abbrev pub AreDetermined : List Entry → Type 0
  AreDetermined [] = Unit
  AreDetermined (e ∷ es) = (e ≡ g e.player_id) × AreDetermined es

  abbrev pub AreRanked : List Entry → Type 0
  AreRanked [] = Unit
  AreRanked (e ∷ es) =
      ((x : ℕ) → contains x (ids es) ≡ true → ranks_before (g x) e ≡ false) × AreRanked es

  sort_insert-AreDetermined :
      (x : Entry) (ys : List Entry)
      → x ≡ g x.player_id
      → AreDetermined ys
      → AreDetermined (sort_insert ranks_before x ys)
  unfolding sort_insert
  sort_insert-AreDetermined x [] e d = (e, tt)
  sort_insert-AreDetermined x (y ∷ ys) e d =
      if_cases AreDetermined (ranks_before y x) (λ _. (d.0, sort_insert-AreDetermined x ys e d.1))
        (λ _. (e, d))

  pub sort-AreDetermined :
      (xs : List Entry) → AreDetermined xs → AreDetermined (sort ranks_before xs)
  unfolding sort
  sort-AreDetermined [] d = tt
  sort-AreDetermined (x ∷ xs) d =
      sort_insert-AreDetermined x (sort ranks_before xs) d.0 (sort-AreDetermined xs d.1)

  sort_insert-AreRanked :
      (x : Entry) (ys : List Entry)
      → x ≡ g x.player_id
      → AreDetermined ys
      → AreRanked ys
      → AreRanked (sort_insert ranks_before x ys)
  unfolding sort_insert contains keys_by
  sort_insert-AreRanked x [] e d r = (λ z h. cc, tt)
  sort_insert-AreRanked x (y ∷ ys) e d r =
      if_cases AreRanked (ranks_before y x)
        (λ first. (
          λ z h. ground (arith, ids-sort_insert z x ys, r.0 z, before_asym y x first, e),
          sort_insert-AreRanked x ys e d.1 r.1,
        ))
        (λ later. (λ z h. ground (arith, r.0 z, before_chain (g z) y x, later, d.0), r))

  pub sort-AreRanked : (xs : List Entry) → AreDetermined xs → AreRanked (sort ranks_before xs)
  unfolding sort
  sort-AreRanked [] d = tt
  sort-AreRanked (x ∷ xs) d =
      sort_insert-AreRanked x (sort ranks_before xs) d.0 (sort-AreDetermined xs d.1)
        (sort-AreRanked xs d.1)

  -- What stands behind the first of a ranked list has it before itself.
  first_before :
      (e : Entry) (es : List Entry) (x : ℕ)
      → e ≡ g e.player_id
      → AreRanked (e ∷ es)
      → (e.player_id == x) ≡ false
      → contains x (ids es) ≡ true
      → ranks_before e (g x) ≡ true
  first_before e es x d r ne h = ground (arith, r.0 x h, before_total (g x) e, own x)

  none_before :
      (x : ℕ) (es : List Entry)
      → AreDetermined es
      → ((y : ℕ) → contains y (ids es) ≡ true → ranks_before (g y) (g x) ≡ false)
      → count_before (g x) es ≡ 0
  unfolding count_before contains keys_by
  none_before x [] d h = refl
  none_before x (e ∷ es) d h =
      ground (arith, h e.player_id, d.0, none_before x es d.1 (λ y k. ground (arith, h y, k)))

  before_self : (e : Entry) → ranks_before e e ≡ false
  unfolding ranks_before
  before_self e = ground arith

  -- Nothing stands before the first of a ranked list.
  first-count_before :
      (e : Entry) (es : List Entry)
      → AreDetermined (e ∷ es)
      → AreRanked (e ∷ es)
      → count_before (g e.player_id) (e ∷ es) ≡ 0
  unfolding count_before
  first-count_before e es d r = ground (
    arith,
    before_self e,
    d.0,
    none_before e.player_id es d.1 (λ y h. ground (arith, r.0 y h, d.0)),
  )

  pub self_from_lem :
      (r i : ℕ) (es : List Entry)
      → AreDetermined es
      → AreRanked es
      → self_from r i es ≡ (
          if contains r (ids es)
          then some (ranked (g r) (suc (i + count_before (g r) es)))
          else none)
  unfolding self_from contains keys_by count_before
  self_from_lem r i [] d s = refl
  self_from_lem r i (e ∷ es) d s = elim (Bool-cases (e.player_id == r)) [
    | inl here ↦ ground (arith, here, first-count_before e es d s, d.0)
    | inr further ↦ elim (Bool-cases (contains r (ids es))) [
      | inl there ↦ ground (
        arith,
        further,
        there,
        self_from_lem r (suc i) es d.1 s.1,
        first_before e es r d.0 s further there,
      )
      | inr nowhere ↦ ground (arith, further, nowhere, self_from_lem r (suc i) es d.1 s.1)
    ]
  ]

  pub contains-take :
      (x n : ℕ) (es : List Entry)
      → AreDetermined es
      → AreRanked es
      → contains x (ids (take n es)) ≡ (contains x (ids es) && ltb (count_before (g x) es) n)
  unfolding contains keys_by count_before
  contains-take x zero es d s = ground arith
  contains-take x (suc n) [] d s = refl
  contains-take x (suc n) (e ∷ es) d s = elim (Bool-cases (e.player_id == x)) [
    | inl here ↦ ground (arith, here, first-count_before e es d s)
    | inr further ↦ elim (Bool-cases (contains x (ids es))) [
      | inl there ↦ ground (
        arith,
        further,
        there,
        contains-take x n es d.1 s.1,
        first_before e es x d.0 s further there,
      )
      | inr nowhere ↦ ground (arith, further, nowhere, contains-take x n es d.1 s.1)
    ]
  ]

pub ids-top_of : (es : List Entry) → keys_by (λ t. t.player_id) (top_of es) ≡ ids es
unfolding keys_by top_of
ids-top_of [] = refl
ids-top_of (e ∷ es) = ap (λ xs. e.player_id ∷ xs) (ids-top_of es)

pub length-top_of : (es : List Entry) → length (top_of es) ≡ length es
unfolding top_of
length-top_of [] = refl
length-top_of (e ∷ es) = ap suc (length-top_of es)
