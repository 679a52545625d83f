-- ===== src/Game/Appearance.antt =====
-- internal/game/appearance.go.
use Prim.Native.String.{String}
use map_walker.Prelude.{◌≡◌, ◌↔◌, Bool, true, ◌&&◌, arith}
use map_walker.Prelude.Eq.{string_eq}

pub record Appearance : Type 0 where
  pub color : String
  pub shape : String

abbrev pub default_appearance : Appearance
default_appearance = record { color = "#3388ff"; shape = "circle" }

-- `==` of two such structs.
abbrev pub appearance_beq : Appearance → Appearance → Bool
appearance_beq a b = string_eq.beq a.color b.color && string_eq.beq a.shape b.shape

pub appearance_beq_iff : (a b : Appearance) → (appearance_beq a b ≡ true) ↔ (a ≡ b)
appearance_beq_iff a b = (
  λ h. ground (arith, string_eq.beq_iff a.color b.color, string_eq.beq_iff a.shape b.shape),
  λ h. ground (arith, string_eq.beq_iff a.color b.color, string_eq.beq_iff a.shape b.shape),
)
