-- ===== src/Base/Floats.antt =====
-- The operations of `f64` that the program uses. No property rests on how they round: they are an
-- interface, and the code is a function of it.
use Prim.Native.Nat.{ℕ}
use mathlib.Core.Bool.{Bool}
use rustspell_server.Base.Int.{ℤ, pos}
use rustspell_server.Base.Tests.{if◌then◌else◌}

pub record Floats : Type 1 where
  pub Float : Type 0
  pub from_int : ℤ → Float
  pub add : Float → Float → Float
  pub sub : Float → Float → Float
  pub mul : Float → Float → Float
  pub div : Float → Float → Float
  pub less : Float → Float → Bool
  pub less_eq : Float → Float → Bool
  pub round : Float → Float
  pub to_u64 : Float → ℕ

-- `x.clamp(0.0, 1.0)`
abbrev pub clamp_unit : (f : Floats) → f.Float → f.Float
clamp_unit f x =
    if f.less x (f.from_int (pos 0))
    then f.from_int (pos 0)
    else if f.less (f.from_int (pos 1)) x
    then f.from_int (pos 1)
    else x

-- A literal of hundredths, which division rounds to the same value.
abbrev pub hundredths : (f : Floats) → ℕ → f.Float
hundredths f n = f.div (f.from_int (pos n)) (f.from_int (pos 100))
