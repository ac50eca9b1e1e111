-- ===== src/Common/Signed.antt =====
-- Signed numbers over the native ℕ, for code whose 32-bit shifts turn a number negative, and the
-- reads of a Buffer at an offset that may be one.
use Prim.Native.Nat.{ℕ, zero, suc, ◌+◌, ◌-◌, ◌%◌, ◌^◌, ◌≤◌, ◌<◌}
use mathlib.Core.Path.{◌≡◌}
use mathlib.Core.Bool.{Bool, true}
use mathlib.Core.List.{List, [], ◌∷◌, ◌++◌}
use mathlib.Core.Option.{Option, none}
use native.Mathlib.Omega.{arith}
use hellojs.Common.Tests.{if◌then◌else◌, ltb, lt→ltb, le→ltb}
use hellojs.Common.Lists.{length, get_elem?, take, drop}
use hellojs.Common.Bytes.{Bytes}

-- `negsuc n` is -(n + 1).
pub data ℤ : Type 0 where
  pos : ℕ → ℤ
  negsuc : ℕ → ℤ

abbrev pub sub_ℕ : ℕ → ℕ → ℤ
sub_ℕ m n = if ltb m n then negsuc (n - m - 1) else pos (m - n)

infixl 20 ◌+ℤ◌ ◌-ℤ◌
abbrev pub ◌+ℤ◌ : ℤ → ℤ → ℤ
pos m +ℤ pos n = pos (m + n)
pos m +ℤ negsuc n = sub_ℕ m (n + 1)
negsuc m +ℤ pos n = sub_ℕ n (m + 1)
negsuc m +ℤ negsuc n = negsuc (m + n + 1)

abbrev pub ◌-ℤ◌ : ℤ → ℤ → ℤ
a -ℤ pos zero = a
a -ℤ pos (suc n) = a +ℤ negsuc n
a -ℤ negsuc n = a +ℤ pos (n + 1)

-- `a < n` for a natural `n`.
abbrev pub lt_ℕ : ℤ → ℕ → Bool
lt_ℕ (pos m) n = ltb m n
lt_ℕ (negsuc m) n = true

-- The number that a 32-bit pattern is after `<<`.
unfoldable pub to_int32 : ℕ → ℤ
to_int32 x = let w = x % 2 ^ 32 in if ltb w (2 ^ 31) then pos w else negsuc (2 ^ 32 - w - 1)

-- `array[i]`: undefined below 0 and past the end.
abbrev pub elem_at {ℓ} : {A : Type ℓ} → List A → ℤ → Option A
elem_at xs (pos i) = get_elem? xs i
elem_at xs (negsuc i) = none

abbrev pub zeros : ℕ → Bytes
zeros zero = []
zeros (suc n) = 0 ∷ zeros n

-- The bytes that reads from `off` on go through. One before the buffer is undefined, which `&` reads
-- as 0.
unfoldable pub from : Bytes → ℤ → Bytes
from buf (pos off) = drop off buf
from buf (negsuc n) = zeros (suc n) ++ buf

-- An argument of `subarray`: a negative one counts from the end and stops at 0.
abbrev pub bound : ℕ → ℤ → ℕ
bound len (pos i) = i
bound len (negsuc i) = len - (i + 1)

-- `buf.subarray(start, end)`: empty where the end is not behind the start.
unfoldable pub subarray : Bytes → ℤ → ℤ → Bytes
subarray buf start end =
    let s = bound (length buf) start in take (bound (length buf) end - s) (drop s buf)

pub to_int32_small : (x : ℕ) → x < 2 ^ 31 → to_int32 x ≡ pos x
unfolding to_int32
to_int32_small x h = ground arith

pub sub_ℕ_le : (m n : ℕ) → n ≤ m → sub_ℕ m n ≡ pos (m - n)
sub_ℕ_le m n h = rw (le→ltb m n h)

pub sub_ℕ_lt : (m n : ℕ) → m < n → sub_ℕ m n ≡ negsuc (n - m - 1)
sub_ℕ_lt m n h = rw (lt→ltb m n h)
