-- ===== src/Prelude/Float.antt =====
-- float64 and the `math` package, which are not part of the repository: the operations the code
-- calls, with no law. A theorem that needs one names it as a hypothesis.
use map_walker.Prelude.Int.{ℤ}
use Prim.Native.Nat.{ℕ}
use mathlib.Core.Path.{◌≡◌}
use mathlib.Core.Bool.{Bool, true, false}

pub record Float64 : Type 1 where
  pub F : Type 0
  pub pi : F
  -- The literal num / den.
  pub lit : ℕ → ℕ → F
  pub fadd : F → F → F
  pub fsub : F → F → F
  pub fmul : F → F → F
  pub fdiv : F → F → F
  pub fleb : F → F → Bool
  pub fltb : F → F → Bool
  pub feqb : F → F → Bool
  -- int(math.Floor(x))
  pub floor : F → ℤ
  pub sqrt : F → F
  pub hypot : F → F → F
  pub cos : F → F
  pub sin : F → F

-- Two facts of IEEE 754 arithmetic. The square of a difference does not depend on its sign, and
-- of three numbers in order the last is not below the first (a NaN is in no order).
module _ (fl : Float64) where
  open fl use {F, lit, fmul, fsub, fleb, fltb, feqb}

  pub record OrderLaws : Type 0 where
    pub square_swap : (x y : F) → fmul (fsub x y) (fsub x y) ≡ fmul (fsub y x) (fsub y x)
    pub le_not_lt : (x y z : F) → fleb x y ≡ true → fleb y z ≡ true → fltb z x ≡ false

  -- Differences of 0 and 1 are exact.
  pub record UnitLaws : Type 0 where
    pub neither : feqb (fsub (lit 0 1) (lit 0 1)) (lit 0 1) ≡ true
    pub both : feqb (fsub (lit 1 1) (lit 1 1)) (lit 0 1) ≡ true
    pub up : feqb (fsub (lit 1 1) (lit 0 1)) (lit 0 1) ≡ false
    pub down : feqb (fsub (lit 0 1) (lit 1 1)) (lit 0 1) ≡ false
