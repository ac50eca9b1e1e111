-- ===== src/H2/Hpack/Table.antt =====
-- The dynamic table of lib/h2/hpack.js.
pub mod Eviction
use hellojs.Common.{
  ℕ, zero, suc, ◌+◌, ◌-◌, ◌≤◌, ◌<◌, ◌≡◌, refl, ap, ◌∙◌, sym, Bool, true, false, ◌&&◌, List, [], ◌∷◌,
  ◌++◌, Option, none, some, if◌then◌else◌, ltb, leb, length, get_elem?, arith, dec_lt, dec_le,
  le→ltb, lt→ltb, Bool-cases, inl, inr,
}
use hellojs.Common.Text.{Text}
use hellojs.H2.Hpack.Static.{static_table}

abbrev pub Header : Type 0
Header = Text × Text

-- Newest first.
pub record DynamicTable : Type 0 where
  pub entries : List Header
  pub capacity : ℕ
  pub size : ℕ

abbrev pub static_len : ℕ
static_len = 61

abbrev pub cost : Header → ℕ
cost (name, value) = length name + length value + 32

abbrev pub total_cost : List Header → ℕ
total_cost [] = 0
total_cost (e ∷ es) = cost e + total_cost es

-- `Array.pop` of a list that is not empty: what stays, and the last element.
pop {ℓ} : {A : Type ℓ} → A → List A → List A × A
pop x [] = ([], x)
pop x (y ∷ ys) = let (front, z) = pop y ys in (x ∷ front, z)

-- The loop takes an entry a round, so as many rounds as entries are enough.
evict_rounds : ℕ → List Header → ℕ → ℕ → List Header × ℕ
evict_rounds zero entries capacity size = (entries, size)
evict_rounds (suc fuel) [] capacity size = ([], size)
evict_rounds (suc fuel) (e ∷ es) capacity size =
    let (front, popped) = pop e es in
    let rest = evict_rounds fuel front capacity (size - cost popped) in
    if ltb capacity size then rest else (e ∷ es, size)

pub evict : DynamicTable → DynamicTable
unfolding evict_rounds pop
evict t =
    let (entries, size) = evict_rounds (length t.entries) t.entries t.capacity t.size in
    record t { entries = entries; size = size }

pub add : DynamicTable → Text → Text → DynamicTable
add t name value =
    evict (record t { entries = (name, value) ∷ t.entries; size = t.size + cost (name, value) })

pub set_capacity : DynamicTable → ℕ → DynamicTable
set_capacity t cap = evict (record t { capacity = cap })

pub new_table : ℕ → DynamicTable
new_table capacity = record { entries = []; capacity = capacity; size = 0 }

-- 1 to 61 is the static table, the dynamic one follows.
unfoldable pub lookup : DynamicTable → ℕ → Option Header
unfolding static_table
lookup t idx =
    if leb 1 idx && leb idx static_len
    then get_elem? static_table (idx - 1)
    else if leb (static_len + 1) idx
    then get_elem? t.entries (idx - static_len - 1)
    else none

-- What RFC 7541 section 4.4 keeps: from the newest on, as many entries as fit.
abbrev pub fit : ℕ → List Header → List Header
fit capacity [] = []
fit capacity (e ∷ es) = if leb (cost e) capacity then e ∷ fit (capacity - cost e) es else []

pub record IsValid (t : DynamicTable) : Type 0 where
  pub counted : t.size ≡ total_cost t.entries
  pub within : t.size ≤ t.capacity
