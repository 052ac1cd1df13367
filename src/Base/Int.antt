-- ===== src/Base/Int.antt =====
-- Signed integers over the native numbers, with the conversions of Go's 64-bit types.
use Prim.Native.Nat.{ℕ, ◌+◌, ◌-◌, ◌%◌, ◌^◌, ◌<◌}
use mathlib.Core.Path.{◌≡◌}
use mathlib.Core.Logic.{inl, inr}
use mathlib.Core.Bool.{Bool, true, false}
use native.Mathlib.Omega.{arith}
use proxy_core.Base.Tests.{if◌then◌else◌, ltb, leb, Bool-cases, tests}

-- `negsuc n` is -(n + 1).
pub data ℤ : Type 0 where
  pos : ℕ → ℤ
  negsuc : ℕ → ℤ

-- a - b, as an integer.
abbrev pub sub_ℕ : ℕ → ℕ → ℤ
sub_ℕ a b = if leb b a then pos (a - b) else negsuc (b - a - 1)

-- The order of the integers, as a test.
abbrev pub ltbℤ : ℤ → ℤ → Bool
ltbℤ (pos a) (pos b) = ltb a b
ltbℤ (pos a) (negsuc b) = false
ltbℤ (negsuc a) (pos b) = true
ltbℤ (negsuc a) (negsuc b) = ltb b a

-- The range of `int64`.
abbrev pub IsInt64 : ℤ → Type 0
IsInt64 (pos n) = n < 2 ^ 63
IsInt64 (negsuc n) = n < 2 ^ 63

-- `uint64(z)` of an `int64`, and `int64(u)` of a `uint64`: the same 64 bits.
abbrev pub to_uint64 : ℤ → ℕ
to_uint64 (pos n) = n
to_uint64 (negsuc n) = 2 ^ 64 - 1 - n

abbrev pub to_int64 : ℕ → ℤ
to_int64 u = if ltb u (2 ^ 63) then pos u else negsuc (2 ^ 64 - 1 - u)

-- `u ^ (1 << 63)` on a `uint64`: flipping the top bit is adding 2^63 modulo 2^64.
abbrev pub flip_top : ℕ → ℕ
flip_top u = (u + 2 ^ 63) % 2 ^ 64

pub to_int64-flip_top : (z : ℤ) → IsInt64 z → to_int64 (flip_top (flip_top (to_uint64 z))) ≡ z
to_int64-flip_top (pos n) h = ground arith
to_int64-flip_top (negsuc n) h = ground arith

-- The flipped bits are ordered as the integers are.
pub flip_top_order :
    (y z : ℤ)
    → IsInt64 y
    → IsInt64 z
    → ltb (flip_top (to_uint64 y)) (flip_top (to_uint64 z)) ≡ ltbℤ y z
flip_top_order (pos m) (pos n) h k = ground arith
flip_top_order (pos m) (negsuc n) h k = ground arith
flip_top_order (negsuc m) (pos n) h k = ground arith
flip_top_order (negsuc m) (negsuc n) h k = ground arith

pub flip_top_injective :
    (y z : ℤ) → IsInt64 y → IsInt64 z → flip_top (to_uint64 y) ≡ flip_top (to_uint64 z) → y ≡ z
flip_top_injective (pos m) (pos n) h k e = ground arith
flip_top_injective (pos m) (negsuc n) h k e = absurd (omega arith)
flip_top_injective (negsuc m) (pos n) h k e = absurd (omega arith)
flip_top_injective (negsuc m) (negsuc n) h k e = ground arith

pub to_int64-IsInt64 : (u : ℕ) → u < 2 ^ 64 → IsInt64 (to_int64 u)
to_int64-IsInt64 u h = elim (Bool-cases (ltb u (2 ^ 63))) [
  | inl e ↦ rw e (omega tests)
  | inr e ↦ rw e (ground arith)
]

-- Decoding a flipped pattern and encoding it again gives the pattern.
pub flip_top-to_int64 : (u : ℕ) → u < 2 ^ 64 → flip_top (to_uint64 (to_int64 (flip_top u))) ≡ u
flip_top-to_int64 u h = ground arith
