-- ===== src/H3/Qpack/Table/Log.antt =====
-- What RFC 9204 section 3.2 promises of the dynamic table: every entry ever inserted has a number of
-- its own, and the oldest are out of reach as soon as all from them on exceed the capacity.
use Prim.Native.Nat.{max}
use hellojs.Common.{ℕ, suc, List, [], ◌∷◌, ◌++◌, Option, none, if◌then◌else◌, ltb, get_elem?}
use hellojs.Common.Signed.{ℤ, pos, negsuc, lt_ℕ}
use hellojs.H2.Hpack.Table.{Header, total_cost}

-- `dropped` is the number of the oldest entry that can still be reached.
pub record Log : Type 0 where
  pub all : List Header
  pub dropped : ℕ
  pub capacity : ℤ

unfoldable pub new_log : Log
new_log = record { all = []; dropped = 0; capacity = pos 0 }

-- How many entries have to go from the front, until the rest fits.
unfoldable pub overflow : ℤ → List Header → ℕ
overflow capacity [] = 0
overflow capacity (e ∷ es) =
    let rest = overflow capacity es in if lt_ℕ capacity (total_cost (e ∷ es)) then suc rest else 0

abbrev pub settle : List Header → ℕ → ℤ → Log
settle all dropped capacity = record {
  all = all;
  dropped = max dropped (overflow capacity all);
  capacity = capacity;
}

unfoldable pub insert : Log → Header → Log
insert l h = settle (l.all ++ (h ∷ [])) l.dropped l.capacity

unfoldable pub set_capacity : Log → ℤ → Log
set_capacity l capacity = settle l.all l.dropped capacity

unfoldable pub get : Log → ℤ → Option Header
get l (pos i) = if ltb i l.dropped then none else get_elem? l.all i
get l (negsuc i) = none
