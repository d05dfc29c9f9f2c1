-- ===== src/Base/Bytes.antt =====
-- Memory as bytes: numbers below 256, in the little-endian order of x86 and x64.
use Prim.Native.Nat.{ℕ, suc, ◌+◌, ◌*◌, ◌/◌, ◌%◌, ◌<◌}
use mathlib.Core.Path.{◌≡◌}
use mathlib.Core.List.{List, [], ◌∷◌, ◌++◌}
use native.Mathlib.Omega.{arith}
use qv_plugin_netfilter.Base.Lists.{length, get_or, take, drop}

-- The byte at an offset; a read past the end gives 0.
abbrev pub byte_at : List ℕ → ℕ → ℕ
byte_at m i = get_or m i 0

abbrev pub slice : ℕ → ℕ → List ℕ → List ℕ
slice i n m = take n (drop i m)

-- An `unsigned short` and an `unsigned int` in memory.
abbrev pub le16 : ℕ → List ℕ
le16 x = (x % 256) ∷ (x / 256 % 256) ∷ []

abbrev pub le32 : ℕ → List ℕ
le32 x = (x % 256) ∷ (x / 256 % 256) ∷ (x / 65536 % 256) ∷ (x / 16777216 % 256) ∷ []

abbrev pub get16 : ℕ → List ℕ → ℕ
get16 i m = byte_at m i + 256 * byte_at m (suc i)

abbrev pub get32 : ℕ → List ℕ → ℕ
get32 i m =
    byte_at m i
    + 256 * byte_at m (suc i)
    + 65536 * byte_at m (suc (suc i))
    + 16777216 * byte_at m (suc (suc (suc i)))

-- memcpy(dst, src, sizeof(src)) into an array that is at least as long.
abbrev pub overwrite : List ℕ → List ℕ → List ℕ
overwrite dst src = src ++ drop (length src) dst

pub le16_value : (x : ℕ) → x < 65536 → x % 256 + 256 * (x / 256 % 256) ≡ x
le16_value x h = omega arith

pub le32_value :
    (x : ℕ)
    → x < 4294967296
    → x % 256 + 256 * (x / 256 % 256) + 65536 * (x / 65536 % 256) + 16777216 * (x / 16777216 % 256)
      ≡ x
le32_value x h = omega arith

-- Every element is a byte.
abbrev pub AreBytes : List ℕ → Type 0
AreBytes [] = Unit
AreBytes (x ∷ xs) = (x < 256) × AreBytes xs
