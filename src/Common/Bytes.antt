-- ===== src/Common/Bytes.antt =====
-- Node's Buffer as a list of byte values: big-endian writes and reads, an element read past the
-- end, and slices.
use Prim.Native.Nat.{ℕ, zero, suc, ◌+◌, ◌*◌, ◌/◌, ◌%◌, ◌^◌, ◌≤◌, ◌<◌}
use mathlib.Core.Path.{◌≡◌, refl, ap, ◌∙◌}
use mathlib.Core.List.{List, [], ◌∷◌, ◌++◌}
use mathlib.Core.Option.{Option, none, some}
use native.Mathlib.Omega.{arith}
use native.Mathlib.Nat.{pow-suc, mod-eq_of_lt, mod-lt, add-mul-mod_self_left, div-add-mod}
use hellojs.Common.Lists.{length, get_or, All}

abbrev pub Bytes : Type 0
Bytes = List ℕ

abbrev pub IsByte : ℕ → Type 0
IsByte b = b < 256

-- `buf[i]` where the result goes into `&`, `|` or a shift: past the end it is undefined, which
-- these operators read as 0.
abbrev pub byte_at : Bytes → ℕ → ℕ
byte_at buf i = get_or buf i 0

-- The `n` bytes of `x`, highest first (`writeUIntBE(x, o, n)` for `x` in range).
unfoldable pub write_be : ℕ → ℕ → Bytes
write_be zero x = []
write_be (suc n) x = (x / 256 ^ n % 256) ∷ write_be n x

-- `readUIntBE(o, n)`: `none` is the RangeError of a read that passes the end.
unfoldable pub read_be_from : ℕ → ℕ → Bytes → Option ℕ
read_be_from acc zero bs = some acc
read_be_from acc (suc n) [] = none
read_be_from acc (suc n) (b ∷ bs) = read_be_from (acc * 256 + b) n bs

abbrev pub read_be : ℕ → Bytes → Option ℕ
read_be n bs = read_be_from 0 n bs

pub pow_256_pos : (n : ℕ) → 1 ≤ 256 ^ n
pow_256_pos zero = omega arith
pow_256_pos (suc n) = omega (arith, pow-suc 256 n, pow_256_pos n)

pub mod_mul : (p x : ℕ) → 1 ≤ p → x % (256 * p) ≡ x / p % 256 * p + x % p
mod_mul p x h = omega (
  arith,
  mod-eq_of_lt {n = low} {m = 256 * p} below,
  add-mul-mod_self_left low (256 * p) (x / p / 256),
  ap (λ (t : ℕ). t % (256 * p)) split_it,
)
  where
    low : ℕ
    low = x / p % 256 * p + x % p

    digit : (x / p % 256 + 1) * p ≤ 256 * p
    digit = grind arith

    below : x / p % 256 * p + x % p < 256 * p
    below = omega (arith, digit, mod-lt x h)

    split_it : x ≡ x / p % 256 * p + x % p + 256 * p * (x / p / 256)
    split_it = omega (arith, div-add-mod x p, ap (λ (t : ℕ). p * t) (div-add-mod (x / p) 256))

pub length-write_be : (n x : ℕ) → length (write_be n x) ≡ n
unfolding write_be
length-write_be zero x = refl
length-write_be (suc n) x = ap suc (length-write_be n x)

pub write_be-IsByte : (n x : ℕ) → All IsByte (write_be n x)
unfolding write_be
write_be-IsByte zero x = tt
write_be-IsByte (suc n) x = (omega arith, write_be-IsByte n x)

pub read_be_from-write_be :
    (n acc x : ℕ) (rest : Bytes)
    → read_be_from acc n (write_be n x ++ rest) ≡ some (acc * 256 ^ n + x % 256 ^ n)
unfolding write_be read_be_from
read_be_from-write_be zero acc x rest = ap some (omega arith)
read_be_from-write_be (suc n) acc x rest =
    read_be_from-write_be n (acc * 256 + x / 256 ^ n % 256) x rest
    ∙ ap some (
        omega (
          arith,
          pow-suc 256 n,
          mod_mul (256 ^ n) x (pow_256_pos n),
          ap (λ (t : ℕ). acc * t) (pow-suc 256 n),
          ap (λ (t : ℕ). x % t) same,
        ))
  where
    same : 256 ^ suc n ≡ 256 * 256 ^ n
    same = omega (arith, pow-suc 256 n)

pub read_be-write_be :
    (n x : ℕ) (rest : Bytes) → x < 256 ^ n → read_be n (write_be n x ++ rest) ≡ some x
read_be-write_be n x rest h =
    read_be_from-write_be n 0 x rest ∙ ap some (omega (arith, mod-eq_of_lt h))

-- A read inside the buffer does not throw.
pub read_be_from_total :
    (n acc : ℕ) (bs : Bytes) → n ≤ length bs → (x : ℕ) × (read_be_from acc n bs ≡ some x)
unfolding read_be_from
read_be_from_total zero acc bs h = (acc, refl)
read_be_from_total (suc n) acc [] h = absurd (omega arith)
read_be_from_total (suc n) acc (b ∷ bs) h = read_be_from_total n (acc * 256 + b) bs (omega arith)

pub read_be_from-lt :
    (n acc k : ℕ) (bs : Bytes) {x : ℕ}
    → All IsByte bs
    → acc < k
    → read_be_from acc n bs ≡ some x
    → x < k * 256 ^ n
unfolding read_be_from
read_be_from-lt zero acc k bs hb h e = ground arith
read_be_from-lt (suc n) acc k [] hb h e = cc
read_be_from-lt (suc n) acc k (b ∷ bs) hb h e = omega (
  arith,
  read_be_from-lt n (acc * 256 + b) (k * 256) bs hb.1 (omega (arith, hb.0)) e,
  ap (λ (t : ℕ). k * t) (pow-suc 256 n),
)

-- Bytes behind those read do not matter.
pub read_be_from-append :
    (n acc : ℕ) (bs more : Bytes) {x : ℕ}
    → read_be_from acc n bs ≡ some x
    → read_be_from acc n (bs ++ more) ≡ some x
unfolding read_be_from
read_be_from-append zero acc bs more e = e
read_be_from-append (suc n) acc [] more e = cc
read_be_from-append (suc n) acc (b ∷ bs) more e = read_be_from-append n (acc * 256 + b) bs more e
