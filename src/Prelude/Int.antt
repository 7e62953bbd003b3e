-- ===== src/Prelude/Int.antt =====
-- Signed numbers, for signal strengths (`int8_t rssi`).
use Prim.Native.Nat.{ℕ, suc, ◌+◌}
use mathlib.Core.Bool.{Bool}
use mathlib.Core.List.{◌∷◌}
use esp32_hydroponics_govern.Prelude.Tests.{ltb}
use esp32_hydroponics_govern.Prelude.CStrings.{Text, decimal}

-- `negsuc n` is -(n + 1).
pub data ℤ : Type 0 where
  pos : ℕ → ℤ
  negsuc : ℕ → ℤ

abbrev pub pos_part : ℤ → ℕ
pos_part (pos n) = n
pos_part (negsuc n) = 0

abbrev pub neg_part : ℤ → ℕ
neg_part (pos n) = 0
neg_part (negsuc n) = suc n

-- `a < b`
abbrev pub ltb_ℤ : ℤ → ℤ → Bool
ltb_ℤ a b = ltb (pos_part a + neg_part b) (pos_part b + neg_part a)

-- What `%d` prints.
unfoldable pub signed_decimal : ℤ → Text
signed_decimal (pos n) = decimal n
signed_decimal (negsuc n) = b'-' ∷ decimal (suc n)
