-- ===== src/H3/Qpack/Table/Refine.antt =====
-- The table of the code, a list and three counters, is that log.
use Prim.Native.Nat.{max}
use hellojs.Common.{
  ℕ, zero, suc, ◌+◌, ◌-◌, ◌≤◌, ◌≡◌, refl, ap, ◌∙◌, List, [], ◌∷◌, ◌++◌, length, get_elem?, drop,
  arith, Bool-cases, inl, inr, dec_lt, lt→ltb, le→ltb, length-append, length-drop, drop_all,
  drop-append_left, false,
}
use hellojs.Common.Signed.{ℤ, pos, negsuc, lt_ℕ, sub_ℕ_le, sub_ℕ_lt, ◌-ℤ◌, elem_at}
use hellojs.H2.Hpack.Table.{Header, cost, total_cost}
use hellojs.H2.Hpack.Table.Eviction.{total_cost-snoc}
use hellojs.H3.Qpack.Table.{
  DynamicTable, new_table, shrink, shrunk, get_absolute, insert, set_capacity,
}
use hellojs.H3.Qpack.Table.Log as Log
use hellojs.H3.Qpack.Table.Log.{Log, overflow, new_log}

shrink-overflow :
    (es : List Header) (cap : ℤ)
    → shrink es cap (total_cost es)
      ≡ (drop (overflow cap es) es, total_cost (drop (overflow cap es) es))
unfolding shrink overflow
shrink-overflow [] cap = refl
shrink-overflow (e ∷ es) cap =
    let less : total_cost (e ∷ es) - cost e ≡ total_cost es = omega arith in
    elim (Bool-cases (lt_ℕ cap (total_cost (e ∷ es)))) [
      | inl over ↦ rw (over, less) (shrink-overflow es cap)
      | inr fits ↦ rw fits refl
    ]

lt_ℕ_down : (cap : ℤ) (m n : ℕ) → m ≤ n → lt_ℕ cap n ≡ false → lt_ℕ cap m ≡ false
lt_ℕ_down (pos c) m n h e = ground arith
lt_ℕ_down (negsuc c) m n h e = cc

overflow_fits :
    (cap : ℤ) (es : List Header) → lt_ℕ cap (total_cost es) ≡ false → overflow cap es ≡ 0
unfolding overflow
overflow_fits cap [] h = refl
overflow_fits cap (e ∷ es) h = rw h refl

overflow-drop :
    (cap : ℤ) (k : ℕ) (es : List Header) → overflow cap (drop k es) ≡ overflow cap es - k
unfolding overflow
overflow-drop cap zero es = omega arith
overflow-drop cap (suc k) [] = omega arith
overflow-drop cap (suc k) (e ∷ es) = elim (Bool-cases (lt_ℕ cap (total_cost (e ∷ es)))) [
  | inl over ↦ rw over (overflow-drop cap k es ∙ omega arith)
  | inr fits ↦
      let none_over =
        overflow_fits cap es
          (lt_ℕ_down cap (total_cost es) (total_cost (e ∷ es)) (omega arith) fits) in
      rw fits (overflow-drop cap k es ∙ omega (arith, none_over))
]

drop-drop {ℓ} : {A : Type ℓ} (m n : ℕ) (xs : List A) → drop m (drop n xs) ≡ drop (n + m) xs
drop-drop m zero xs = let e : 0 + m ≡ m = omega arith in rw e
drop-drop {A = A} m (suc n) [] =
    let e : suc n + m ≡ suc (n + m) = omega arith in rw (e, drop_all {A = A} m [] (omega arith))
drop-drop m (suc n) (x ∷ xs) =
    let e : suc n + m ≡ suc (n + m) = omega arith in rw e (drop-drop m n xs)

get_elem?-drop {ℓ} :
    {A : Type ℓ} (n i : ℕ) (xs : List A) → get_elem? (drop n xs) i ≡ get_elem? xs (n + i)
get_elem?-drop zero i xs = let e : 0 + i ≡ i = omega arith in rw e
get_elem?-drop (suc n) i [] = refl
get_elem?-drop (suc n) i (x ∷ xs) =
    let e : suc n + i ≡ suc (n + i) = omega arith in rw e (get_elem?-drop n i xs)

-- What the table holds of the log.
pub record Refines (t : DynamicTable) (l : Log) : Type 0 where
  pub entries_eq : t.entries ≡ drop l.dropped l.all
  pub total_eq : t.total_inserted ≡ length l.all
  pub dropped_le : l.dropped ≤ length l.all
  pub size_eq : t.size ≡ total_cost t.entries
  pub capacity_eq : t.capacity ≡ l.capacity

overflow_le : (cap : ℤ) (es : List Header) → overflow cap es ≤ length es
unfolding overflow
overflow_le cap [] = omega arith
overflow_le cap (e ∷ es) = elim (Bool-cases (lt_ℕ cap (total_cost (e ∷ es)))) [
  | inl over ↦ rw over (omega (arith, overflow_le cap es))
  | inr fits ↦ rw fits (omega arith)
]

-- A record of the log's entries from `d` on, however much that costs, is settled by the loop.
shrunk-Refines :
    (all : List Header) (d : ℕ) (cap : ℤ)
    → d ≤ length all
    → Refines
        (shrunk (record {
          entries = drop d all;
          total_inserted = length all;
          capacity = cap;
          size = total_cost (drop d all);
        }))
        (Log.settle all d cap)
unfolding shrunk
shrunk-Refines all d cap h =
    let es = drop d all in
    let o = overflow cap es in
    let count : d + o ≡ max d (overflow cap all) = omega (arith, overflow-drop cap d all) in
    let left : drop o es ≡ drop (max d (overflow cap all)) all =
      drop-drop o d all ∙ ap (λ k. drop k all) count in
    rw (shrink-overflow es cap) (record {
      entries_eq = left;
      total_eq = refl;
      dropped_le = omega (arith, overflow_le cap all);
      size_eq = refl;
      capacity_eq = refl;
    })

insert-Refines :
    (t : DynamicTable) (l : Log) (h : Header)
    → Refines t l
    → Refines (insert t h.0 h.1) (Log.insert l h)
unfolding insert Log.insert
insert-Refines t l h r =
    let all = l.all ++ (h ∷ []) in
    let shape = drop-append_left l.dropped l.all (h ∷ []) r.dropped_le in
    let one = length-append l.all (h ∷ []) in
    let total : t.total_inserted + 1 ≡ length all = omega (arith, r.total_eq) in
    let entries : t.entries ++ (h ∷ []) ≡ drop l.dropped all = rw (r.entries_eq, shape) in
    let size : t.size + cost h ≡ total_cost (drop l.dropped all) =
      omega (arith, total_cost-snoc t.entries h, r.size_eq, ap total_cost entries) in
    rw (total, entries, size, r.capacity_eq)
      (shrunk-Refines all l.dropped l.capacity (omega (arith, r.dropped_le)))

set_capacity-Refines :
    (t : DynamicTable) (l : Log) (cap : ℤ)
    → Refines t l
    → Refines (set_capacity t cap) (Log.set_capacity l cap)
unfolding set_capacity Log.set_capacity
set_capacity-Refines t l cap r =
    let size : t.size ≡ total_cost (drop l.dropped l.all) =
      r.size_eq ∙ ap total_cost r.entries_eq in
    rw (size, r.entries_eq, r.total_eq) (shrunk-Refines l.all l.dropped cap r.dropped_le)

get_absolute-Refines :
    (t : DynamicTable) (l : Log) (i : ℤ) → Refines t l → get_absolute t i ≡ Log.get l i
unfolding get_absolute Log.get
get_absolute-Refines t l i r =
    let len : length t.entries ≡ length l.all - l.dropped =
      ap length r.entries_eq ∙ length-drop l.dropped l.all in
    let back : length l.all - (length l.all - l.dropped) ≡ l.dropped =
      omega (arith, r.dropped_le) in
    rw
      (
        r.total_eq,
        len,
        sub_ℕ_le (length l.all) (length l.all - l.dropped) (omega arith),
        back,
        r.entries_eq,
      )
      (at i l.dropped l.all)
  where
    at :
        (i : ℤ) (d : ℕ) (all : List Header)
        → elem_at (drop d all) (i -ℤ pos d)
          ≡ Log.get (record { all = all; dropped = d; capacity = l.capacity }) i
    at (pos i) zero all = rw (le→ltb i 0 (omega arith))
    at (negsuc i) zero all = refl
    at (negsuc i) (suc d) all = refl
    at (pos i) (suc d) all = elim (dec_lt i (suc d)) [
      | yes gone ↦ rw (sub_ℕ_lt i (d + 1) (omega arith), lt→ltb i (suc d) gone)
      | no there ↦
          let whole : suc d + (i - (d + 1)) ≡ i = omega arith in
          rw (
            sub_ℕ_le i (d + 1) (omega arith),
            le→ltb i (suc d) (omega arith),
            get_elem?-drop (suc d) (i - (d + 1)) all,
            whole,
          )
    ]

new_table-Refines : Refines new_table new_log
unfolding new_table new_log
new_table-Refines = record {
  entries_eq = refl;
  total_eq = refl;
  dropped_le = omega arith;
  size_eq = refl;
  capacity_eq = refl;
}

-- What the peer's encoder asks of the table.
pub data Op : Type 0 where
  insert_op : Header → Op
  capacity_op : ℤ → Op

abbrev pub run : List Op → DynamicTable → DynamicTable
run [] t = t
run (insert_op h ∷ ops) t = run ops (insert t h.0 h.1)
run (capacity_op c ∷ ops) t = run ops (set_capacity t c)

abbrev pub run_log : List Op → Log → Log
run_log [] l = l
run_log (insert_op h ∷ ops) l = run_log ops (Log.insert l h)
run_log (capacity_op c ∷ ops) l = run_log ops (Log.set_capacity l c)

run-Refines :
    (ops : List Op) (t : DynamicTable) (l : Log) → Refines t l → Refines (run ops t) (run_log ops l)
run-Refines [] t l r = r
run-Refines (insert_op h ∷ ops) t l r = run-Refines ops _ _ (insert-Refines t l h r)
run-Refines (capacity_op c ∷ ops) t l r = run-Refines ops _ _ (set_capacity-Refines t l c r)

-- After any sequence of insertions and changes of capacity the table finds under an absolute index
-- the entry that was inserted as that many-th, unless the entries from it on have exceeded a capacity
-- since, and then nothing; its size field is the cost of the entries that it holds.
pub run_refines_log :
    (ops : List Op) (i : ℤ)
    → let t = run ops new_table in
      (get_absolute t i ≡ Log.get (run_log ops new_log) i) × (t.size ≡ total_cost t.entries)
run_refines_log ops i =
    let r = run-Refines ops new_table new_log new_table-Refines in
    (get_absolute-Refines _ _ i r, r.size_eq)
