-- ===== src/H3/Qpack/Table.antt =====
-- `DynamicTable` of lib/h3/qpack.js.
pub mod Log
pub mod Refine
use hellojs.Common.{ℕ, suc, ◌+◌, ◌-◌, List, [], ◌∷◌, ◌++◌, Option, if◌then◌else◌, length}
use hellojs.Common.Text.{Text}
use hellojs.Common.Signed.{ℤ, pos, sub_ℕ, ◌+ℤ◌, ◌-ℤ◌, lt_ℕ, elem_at}
use hellojs.H2.Hpack.Table.{Header, cost}

-- Oldest first. The capacity is a number that `decodeInt` gave.
pub record DynamicTable : Type 0 where
  pub entries : List Header
  pub total_inserted : ℕ
  pub capacity : ℤ
  pub size : ℕ

unfoldable pub new_table : DynamicTable
new_table = record { entries = []; total_inserted = 0; capacity = pos 0; size = 0 }

-- `while (this.size > this.capacity && this.entries.length > 0)`: the oldest entry is shifted out.
unfoldable pub shrink : List Header → ℤ → ℕ → List Header × ℕ
shrink [] capacity size = ([], size)
shrink (e ∷ es) capacity size =
    let rest = shrink es capacity (size - cost e) in
    if lt_ℕ capacity size then rest else (e ∷ es, size)

unfoldable pub shrunk : DynamicTable → DynamicTable
unfolding shrink
shrunk t =
    let (entries, size) = shrink t.entries t.capacity t.size in
    record t { entries = entries; size = size }

unfoldable pub get_absolute : DynamicTable → ℤ → Option Header
get_absolute t abs_idx =
    let oldest_abs = sub_ℕ t.total_inserted (length t.entries) in
    elem_at t.entries (abs_idx -ℤ oldest_abs)

unfoldable pub get_relative : DynamicTable → ℤ → ℤ → Option Header
get_relative t base idx = get_absolute t (base -ℤ idx -ℤ pos 1)

pub get_post_base : DynamicTable → ℤ → ℤ → Option Header
get_post_base t base idx = get_absolute t (base +ℤ idx)

unfoldable pub insert : DynamicTable → Text → Text → DynamicTable
unfolding shrunk
insert t name value = shrunk (record t {
  entries = t.entries ++ ((name, value) ∷ []);
  size = t.size + cost (name, value);
  total_inserted = t.total_inserted + 1;
})

unfoldable pub set_capacity : DynamicTable → ℤ → DynamicTable
unfolding shrunk
set_capacity t cap = shrunk (record t { capacity = cap })
