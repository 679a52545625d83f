-- ===== src/Tests/Grid.antt =====
-- A `Float64` for the examples: whole numbers, a flat earth, division that rounds down. It meets
-- the laws that the theorems name.
use map_walker.Prelude.{◌/◌, ◌≡◌, refl, true, false, arith, if◌then◌else◌}
use map_walker.Prelude.Int.{ℤ, pos, negsuc, ◌+ℤ◌, ◌-ℤ◌, ◌*ℤ◌, leb_ℤ, ltb_ℤ, square-swap_ℤ}
use map_walker.Prelude.Eq.{int_beq}
use map_walker.Prelude.Float.{Float64, OrderLaws, UnitLaws}

unfoldable pub div_ℤ : ℤ → ℤ → ℤ
div_ℤ (pos n) (pos m) = pos (n / m)
div_ℤ (negsuc n) (pos m) = negsuc (n / m)
div_ℤ a (negsuc m) = pos 0

instance abbrev pub whole : Float64
whole = record {
  F = ℤ;
  pi = pos 3;
  lit = λ num den. pos (num / den);
  fadd = ◌+ℤ◌;
  fsub = ◌-ℤ◌;
  fmul = ◌*ℤ◌;
  fdiv = div_ℤ;
  fleb = leb_ℤ;
  fltb = ltb_ℤ;
  feqb = int_beq;
  floor = λ x. x;
  sqrt = λ x. x;
  hypot = λ x y. if leb_ℤ x y then y else x;
  cos = λ _. pos 1;
  sin = λ _. pos 0;
}

pub whole_le_not_lt : (x y z : ℤ) → leb_ℤ x y ≡ true → leb_ℤ y z ≡ true → ltb_ℤ z x ≡ false
whole_le_not_lt x y z h k = ground arith

abbrev pub whole_laws : OrderLaws whole
whole_laws = record { square_swap = square-swap_ℤ; le_not_lt = whole_le_not_lt }

abbrev pub whole_units : UnitLaws whole
unfolding ◌-ℤ◌
whole_units = record { neither = refl; both = refl; up = refl; down = refl }
