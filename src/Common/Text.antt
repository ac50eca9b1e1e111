-- ===== src/Common/Text.antt =====
-- JavaScript strings: a list of UTF-16 code units, so that `length` is the string's. What Node does
-- with them beyond comparison is taken as a parameter.
use Prim.Native.Nat.{ℕ, ◌+◌}
use Prim.Native.Char.{code}
use Prim.Native.String.{String}
use mathlib.Core.Path.{◌≡◌, refl}
use mathlib.Core.Bool.{Bool, true, false, ◌&&◌}
use mathlib.Core.List.{List, [], ◌∷◌, map}
use native.Mathlib.Omega.{arith}
use hellojs.Common.Tests.{◌==◌, ==_iff, leb, if◌then◌else◌}
use hellojs.Common.Bytes.{Bytes}

abbrev pub Text : Type 0
Text = List ℕ

-- An ASCII literal of the source.
abbrev pub text : String → Text
text String.[] = []
text (String.◌∷◌ c s) = code c ∷ text s

abbrev pub text_eq : Text → Text → Bool
text_eq [] [] = true
text_eq [] (b ∷ t) = false
text_eq (a ∷ s) [] = false
text_eq (a ∷ s) (b ∷ t) = a == b && text_eq s t

pub text_eq→eq : (s t : Text) → text_eq s t ≡ true → s ≡ t
text_eq→eq [] [] e = refl
text_eq→eq [] (b ∷ t) e = cc
text_eq→eq (a ∷ s) [] e = cc
text_eq→eq (a ∷ s) (b ∷ t) e = ground (arith, ==_iff a b, text_eq→eq s t)

pub text_eq_refl : (s : Text) → text_eq s s ≡ true
text_eq_refl [] = refl
text_eq_refl (a ∷ s) = ground (arith, ==_iff a a, text_eq_refl s)

-- `Buffer.from(s, 'utf8')`, `buf.toString('utf8')` and `s.toLowerCase()`.
pub record Strings : Type 0 where
  pub to_utf8 : Text → Bytes
  pub from_utf8 : Bytes → Text
  pub to_lower_case : Text → Text

-- On ASCII strings the three are these, which shows that what is assumed of them can be met.
abbrev pub lower_code : ℕ → ℕ
lower_code c = if leb b'A' c && leb c b'Z' then c + 32 else c

abbrev pub ascii : Strings
ascii = record { to_utf8 = λ s. s; from_utf8 = λ b. b; to_lower_case = map lower_code }
