-- ===== src/H2/Hpack/Table/Eviction.antt =====
-- Eviction keeps the newest entries that fit, and the size field counts them exactly.
use hellojs.Common.{
  ℕ, zero, suc, ◌+◌, ◌-◌, ◌≤◌, ◌<◌, ◌≡◌, refl, ap, ◌∙◌, sym, List, [], ◌∷◌, ◌++◌, subst, length,
  arith, dec_lt, le→ltb, lt→ltb, length-append,
}
use hellojs.Common.Text.{Text}
use hellojs.H2.Hpack.Table.{
  Header, DynamicTable, cost, total_cost, pop, evict_rounds, evict, add, set_capacity, new_table,
  fit, IsValid,
}

pop-snoc {ℓ} : {A : Type ℓ} (x : A) (xs : List A) → x ∷ xs ≡ (pop x xs).0 ++ ((pop x xs).1 ∷ [])
unfolding pop
pop-snoc x [] = refl
pop-snoc x (y ∷ ys) = ap (◌∷◌ x) (pop-snoc y ys)

pub total_cost-snoc :
    (xs : List Header) (z : Header) → total_cost (xs ++ (z ∷ [])) ≡ total_cost xs + cost z
total_cost-snoc [] z = omega arith
total_cost-snoc (x ∷ xs) z = omega (arith, total_cost-snoc xs z)

fit-snoc :
    (cap : ℕ) (xs : List Header) (z : Header)
    → cap < total_cost (xs ++ (z ∷ []))
    → fit cap (xs ++ (z ∷ [])) ≡ fit cap xs
fit-snoc cap [] z h = ground arith
fit-snoc cap (x ∷ xs) z h = ground (arith, fit-snoc (cap - cost x) xs z)

pub fit_all : (cap : ℕ) (es : List Header) → total_cost es ≤ cap → fit cap es ≡ es
fit_all cap [] h = refl
fit_all cap (e ∷ es) h = ground (arith, fit_all (cap - cost e) es)

pub total_cost-fit : (cap : ℕ) (es : List Header) → total_cost (fit cap es) ≤ cap
total_cost-fit cap [] = omega arith
total_cost-fit cap (e ∷ es) = ground (arith, total_cost-fit (cap - cost e) es)

-- One round of the loop on a list that does not fit.
evict_round :
    (fuel cap : ℕ) (e : Header) (es : List Header)
    → cap < total_cost (e ∷ es)
    → let front = (pop e es).0 in
      (evict_rounds (suc fuel) (e ∷ es) cap (total_cost (e ∷ es))
        ≡ evict_rounds fuel front cap (total_cost front))
      × (fit cap (e ∷ es) ≡ fit cap front)
      × (length front ≡ length es)
unfolding evict_rounds
evict_round fuel cap e es over =
    let (front, z) = pop e es in
    let whole = pop-snoc e es in
    let sum : total_cost (e ∷ es) ≡ total_cost front + cost z =
      ap total_cost whole ∙ total_cost-snoc front z in
    let less : total_cost (e ∷ es) - cost z ≡ total_cost front = omega arith in
    (
      rw (lt→ltb cap (total_cost (e ∷ es)) over) (ap (evict_rounds fuel front cap) less),
      ap (fit cap) whole ∙ fit-snoc cap front z (subst (λ l. cap < total_cost l) whole over),
      omega (arith, ap length whole, length-append front (z ∷ [])),
    )

evict_rounds-fit :
    (fuel : ℕ) (es : List Header) (cap : ℕ)
    → length es ≤ fuel
    → evict_rounds fuel es cap (total_cost es) ≡ (fit cap es, total_cost (fit cap es))
unfolding evict_rounds
evict_rounds-fit zero [] cap h = refl
evict_rounds-fit zero (e ∷ es) cap h = absurd (omega arith)
evict_rounds-fit (suc fuel) [] cap h = refl
evict_rounds-fit (suc fuel) (e ∷ es) cap h = elim (dec_lt cap (total_cost (e ∷ es))) [
  | yes over ↦
      let (step, same, short) = evict_round fuel cap e es over in
      step
      ∙ evict_rounds-fit fuel (pop e es).0 cap (omega arith)
      ∙ ap (λ l. (l, total_cost l)) (sym same)
  | no fits ↦
      let all = fit_all cap (e ∷ es) (omega arith) in
      rw (le→ltb cap (total_cost (e ∷ es)) (omega arith), all)
]

-- On a table whose size is right, eviction keeps exactly the newest entries that fit.
pub evict-fit :
    (t : DynamicTable)
    → t.size ≡ total_cost t.entries
    → evict t ≡ record t {
      entries = fit t.capacity t.entries;
      size = total_cost (fit t.capacity t.entries);
    }
unfolding evict
evict-fit t h =
    let e = evict_rounds-fit (length t.entries) t.entries t.capacity (omega arith) in rw (h, e)

-- After `add` on a valid table the newest of the new entry and the old ones that fit into the
-- capacity are left, none in between left out, and the table is valid: the size field is the cost
-- of the entries and within the capacity, which has not changed.
pub add-fit :
    (t : DynamicTable) (name value : Text)
    → IsValid t
    → ((add t name value).entries ≡ fit t.capacity ((name, value) ∷ t.entries))
      × IsValid (add t name value)
      × ((add t name value).capacity ≡ t.capacity)
unfolding add
add-fit t name value v =
    let es = (name, value) ∷ t.entries in
    let t' : DynamicTable = record t { entries = es; size = t.size + cost (name, value) } in
    rw (evict-fit t' (omega (arith, v.counted)))
      (refl, record { counted = refl; within = total_cost-fit t.capacity es }, refl)

-- After `setCapacity` on a valid table the newest entries that fit are left, and the table is valid
-- with the new capacity.
pub set_capacity-fit :
    (t : DynamicTable) (cap : ℕ)
    → IsValid t
    → ((set_capacity t cap).entries ≡ fit cap t.entries)
      × IsValid (set_capacity t cap)
      × ((set_capacity t cap).capacity ≡ cap)
unfolding set_capacity
set_capacity-fit t cap v =
    rw (evict-fit (record t { capacity = cap }) v.counted)
      (refl, record { counted = refl; within = total_cost-fit cap t.entries }, refl)

pub new_table-IsValid : (capacity : ℕ) → IsValid (new_table capacity)
unfolding new_table
new_table-IsValid capacity = record { counted = refl; within = omega arith }
