-- ===== src/Common/Bits.antt =====
-- `&` and `|` at masks and shifted fields as arithmetic, from the digit recursion of the native
-- operations.
use Prim.Native.Nat.{
  ℕ, zero, suc, ◌+◌, ◌-◌, ◌*◌, ◌/◌, ◌%◌, ◌^◌, ◌≤◌, ◌<◌, min, max, bit_and, bit_or, digits,
  bit_and-bitwise, bit_or-bitwise,
}
use mathlib.Core.Path.{◌≡◌, refl, ap, sym, ◌∙◌}
use mathlib.Core.Bool.{Bool, true, false}
use native.Mathlib.Omega.{arith}
use native.Mathlib.Nat.{pow-suc, mod-eq_of_lt, mod-lt, add-mul-mod_self_left, div-add-mod}
use hellojs.Common.Tests.{◌==◌, ==_iff, if◌then◌else◌, Bool-cases}
use mathlib.Core.Logic.{inl, inr}
use native.Mathlib.Decide.{dec_lt}

-- A test over all numbers below a bound, made by evaluation.
unfoldable pub all_below : ℕ → (ℕ → Bool) → Bool
all_below zero test = true
all_below (suc n) test = if test n then all_below n test else false

pub all_below_sound :
    (n : ℕ) (test : ℕ → Bool) → all_below n test ≡ true → (i : ℕ) → i < n → test i ≡ true
unfolding all_below
all_below_sound zero test done i h = absurd (omega arith)
all_below_sound (suc n) test done i h = elim (Bool-cases (test n)) [
  | inr no_n ↦ ground arith
  | inl yes_n ↦ elim (dec_lt i n) [
    | yes below ↦ all_below_sound n test (ground arith) i below
    | no last ↦ let e : i ≡ n = omega arith in rw e yes_n
  ]
]

-- Two functions that agree at every byte, by such a test.
pub agree_bytes :
    (f g : ℕ → ℕ) (x : ℕ) → all_below 256 (λ b. f b == g b) ≡ true → x < 256 → f x ≡ g x
agree_bytes f g x t h = (==_iff _ _).0 (all_below_sound 256 (λ b. f b == g b) t x h)

-- The recursion behind the native operations, for any operation on digits.
module _ (last : ℕ → ℕ) (digit : ℕ → ℕ → ℕ) where
  abbrev by_digits : ℕ → ℕ → ℕ → ℕ
  by_digits = digits last digit

  -- Two bounds on the number of digits give one result, if both are large enough.
  by_digits_bound : (x y m k : ℕ) → x ≤ m → x ≤ k → by_digits m x y ≡ by_digits k x y
  by_digits_bound zero y zero zero _ _ = refl
  by_digits_bound zero y zero (suc k) _ _ = refl
  by_digits_bound zero y (suc m) zero _ _ = refl
  by_digits_bound zero y (suc m) (suc k) _ _ = refl
  by_digits_bound (suc x) y zero k p _ = absurd (omega arith)
  by_digits_bound (suc x) y (suc m) zero _ q = absurd (omega arith)
  by_digits_bound (suc x) y (suc m) (suc k) p q =
      let half : suc x / 2 ≤ x = omega arith in
      ap (λ r. r * 2 + digit (suc x % 2) (y % 2))
        (by_digits_bound (suc x / 2) (y / 2) m k (omega arith) (omega arith))

  -- One round, with the bound that the native operations use on both sides.
  by_digits_round :
      (x y : ℕ)
      → by_digits (suc x) (suc x) y
        ≡ by_digits (suc x / 2) (suc x / 2) (y / 2) * 2 + digit (suc x % 2) (y % 2)
  by_digits_round x y =
      ap (λ r. r * 2 + digit (suc x % 2) (y % 2))
        (by_digits_bound (suc x / 2) (y / 2) x (suc x / 2) (omega arith) (omega arith))

bit_or_zero_left : (y : ℕ) → bit_or 0 y ≡ y
bit_or_zero_left = bit_or-bitwise 0

bit_and_zero_left : (y : ℕ) → bit_and 0 y ≡ 0
bit_and_zero_left = bit_and-bitwise 0

-- The lowest digit apart.
pub bit_or_low : (x y : ℕ) → bit_or x y ≡ bit_or (x / 2) (y / 2) * 2 + max (x % 2) (y % 2)
bit_or_low zero y = omega (arith, bit_or_zero_left y, bit_or_zero_left (y / 2))
bit_or_low (suc x) y =
    bit_or-bitwise (suc x) y
    ∙ by_digits_round (λ b. b) max x y
    ∙ ap (λ r. r * 2 + max (suc x % 2) (y % 2)) (sym (bit_or-bitwise (suc x / 2) (y / 2)))

pub bit_and_low : (x y : ℕ) → bit_and x y ≡ bit_and (x / 2) (y / 2) * 2 + min (x % 2) (y % 2)
bit_and_low zero y = omega (arith, bit_and_zero_left y, bit_and_zero_left (y / 2))
bit_and_low (suc x) y =
    bit_and-bitwise (suc x) y
    ∙ by_digits_round (λ b. zero) min x y
    ∙ ap (λ r. r * 2 + min (suc x % 2) (y % 2)) (sym (bit_and-bitwise (suc x / 2) (y / 2)))

-- An operand 0 on the right; `n` bounds the digits of the other.
zero_right : (n x : ℕ) → x ≤ n → (bit_and x 0 ≡ 0) × (bit_or x 0 ≡ x)
zero_right n zero _ = (refl, refl)
zero_right zero (suc x) h = absurd (omega arith)
zero_right (suc n) (suc x) h =
    let (a, o) = zero_right n (suc x / 2) (omega arith) in
    (omega (arith, bit_and_low (suc x) 0), omega (arith, bit_or_low (suc x) 0))

pub bit_or-zero : (x : ℕ) → bit_or x 0 ≡ x
bit_or-zero x = (zero_right x x (omega arith)).1

pow_two_suc : (k : ℕ) → 2 ^ suc k ≡ 2 * 2 ^ k
pow_two_suc k = omega (arith, pow-suc 2 k)

double_field : (k hi : ℕ) → hi * 2 ^ suc k ≡ 2 * (hi * 2 ^ k)
double_field k hi = omega (arith, ap (λ (t : ℕ). hi * t) (pow_two_suc k))

or_halves :
    (a b c d : ℕ) → a / 2 ≡ c → b / 2 ≡ d → bit_or a b ≡ bit_or c d * 2 + max (a % 2) (b % 2)
or_halves a b c d p q = rw (← p, ← q) (bit_or_low a b)

and_halves :
    (a b c d : ℕ) → a / 2 ≡ c → b / 2 ≡ d → bit_and a b ≡ bit_and c d * 2 + min (a % 2) (b % 2)
and_halves a b c d p q = rw (← p, ← q) (bit_and_low a b)

-- A field above `k` bits, joined with `k` bits below it.
pub bit_or_field : (k hi lo : ℕ) → lo < 2 ^ k → bit_or (hi * 2 ^ k) lo ≡ hi * 2 ^ k + lo
bit_or_field zero hi zero h = omega (arith, bit_or-zero (hi * 1))
bit_or_field zero hi (suc lo) h = absurd (omega arith)
bit_or_field (suc k) hi lo h =
    let e = double_field k hi in
    omega (
      arith,
      pow_two_suc k,
      or_halves (hi * 2 ^ suc k) lo (hi * 2 ^ k) (lo / 2) (omega arith) (omega arith),
      bit_or_field k hi (lo / 2) (omega (arith, pow_two_suc k)),
    )

pub bit_or_field_comm : (k hi lo : ℕ) → lo < 2 ^ k → bit_or lo (hi * 2 ^ k) ≡ hi * 2 ^ k + lo
bit_or_field_comm zero hi zero h = omega (arith, bit_or_zero_left (hi * 1))
bit_or_field_comm zero hi (suc lo) h = absurd (omega arith)
bit_or_field_comm (suc k) hi lo h =
    let e = double_field k hi in
    omega (
      arith,
      pow_two_suc k,
      or_halves lo (hi * 2 ^ suc k) (lo / 2) (hi * 2 ^ k) (omega arith) (omega arith),
      bit_or_field_comm k hi (lo / 2) (omega (arith, pow_two_suc k)),
    )

pub pow_two_pos : (k : ℕ) → 1 ≤ 2 ^ k
pow_two_pos zero = omega arith
pow_two_pos (suc k) = omega (arith, pow_two_suc k, pow_two_pos k)

mod_double : (p a : ℕ) → 1 ≤ p → a % (2 * p) ≡ a / 2 % p * 2 + a % 2
mod_double p a h = omega (
  arith,
  mod-eq_of_lt {n = a / 2 % p * 2 + a % 2} {m = 2 * p} (omega (arith, mod-lt (a / 2) h)),
  add-mul-mod_self_left (a / 2 % p * 2 + a % 2) (2 * p) (a / 2 / p),
  ap (λ (t : ℕ). t % (2 * p)) (split_it),
)
  where
    split_it : a ≡ a / 2 % p * 2 + a % 2 + 2 * p * (a / 2 / p)
    split_it = omega (arith, div-add-mod (a / 2) p)

pub bit_and_mask : (k a : ℕ) → bit_and a (2 ^ k - 1) ≡ a % 2 ^ k
bit_and_mask zero a = omega (arith, (zero_right a a (omega arith)).0)
bit_and_mask (suc k) a =
    let p = pow_two_pos k in
    let d : 2 ^ suc k - 1 ≡ 2 * 2 ^ k - 1 = omega (arith, pow_two_suc k) in
    rw (pow_two_suc k) (
      omega (
        arith,
        p,
        mod_double (2 ^ k) a p,
        and_halves a (2 * 2 ^ k - 1) (a / 2) (2 ^ k - 1) (omega arith) (omega arith),
        bit_and_mask k (a / 2),
      ))
