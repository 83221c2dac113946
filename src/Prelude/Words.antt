-- ===== src/Prelude/Words.antt =====
-- `u32::to_le_bytes`
use Prim.Native.Nat.{ℕ, ◌/◌, ◌%◌, ◌^◌, ◌<◌}
use mathlib.Core.Path.{◌≡◌, refl}
use mathlib.Core.List.{[], ◌∷◌}
use native.Mathlib.Omega.{arith}
use did_rust.Prelude.Lists.{Bytes, length, IsArray}

unfoldable pub to_le_bytes : ℕ → Bytes
to_le_bytes n = (n % 256) ∷ (n / 256 % 256) ∷ (n / 65536 % 256) ∷ (n / 16777216 % 256) ∷ []

pub length-to_le_bytes : (n : ℕ) → length (to_le_bytes n) ≡ 4
unfolding to_le_bytes
length-to_le_bytes n = refl

pub to_le_bytes-IsArray : (n : ℕ) → IsArray 4 (to_le_bytes n)
unfolding to_le_bytes
to_le_bytes-IsArray n = omega arith

-- Two `u32` with the same bytes are the same.
pub to_le_bytes_injective :
    (m n : ℕ) → m < 2 ^ 32 → n < 2 ^ 32 → to_le_bytes m ≡ to_le_bytes n → m ≡ n
unfolding to_le_bytes
to_le_bytes_injective m n hm hn e = ground arith
