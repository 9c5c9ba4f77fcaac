-- ===== src/Prelude/Int.antt =====
-- Integers over the native numbers.
use Prim.Native.Nat.{ℕ, ◌-◌, min, max}
use mathlib.Core.Bool.{Bool, false}
use factory_network_server.Prelude.Tests.{nat_eq, leb, if◌then◌else◌}

-- `negsuc n` is -(n + 1).
pub data ℤ : Type 0 where
  pos : ℕ → ℤ
  negsuc : ℕ → ℤ

-- `Math.max(lo, Math.min(hi, n))` for bounds that are not negative.
abbrev pub clamp : ℕ → ℕ → ℤ → ℕ
clamp lo hi (pos n) = max lo (min hi n)
clamp lo hi (negsuc n) = lo

abbrev pub int_eq : ℤ → ℤ → Bool
int_eq (pos a) (pos b) = nat_eq a b
int_eq (negsuc a) (negsuc b) = nat_eq a b
int_eq _ _ = false

-- a - b, as an integer.
abbrev pub sub_ℕ : ℕ → ℕ → ℤ
sub_ℕ a b = if leb b a then pos (a - b) else negsuc (b - a - 1)
