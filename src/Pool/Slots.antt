-- ===== src/Pool/Slots.antt =====
-- lib/pool.js, `_acquireSlot` and `_releaseSlot` of one host: the cap on connections at a time.
pub mod Cap
mod Runs
use hellojs.Common.{
  ℕ, zero, suc, ◌+◌, ◌-◌, Bool, true, false, List, [], ◌∷◌, if◌then◌else◌, leb, ltb, ◌==◌,
}

-- The host's entry in `hostState`. `waiters` is how many promises wait, `resumed` how many are
-- resolved and have their `st.count++` still before them, in a microtask; `lost` is how many of those
-- are left with an entry that has been deleted.
pub record Slots : Type 0 where
  pub present : Bool
  pub count : ℕ
  pub waiters : ℕ
  pub resumed : ℕ
  pub lost : ℕ

unfoldable pub no_slots : Slots
no_slots = record { present = false; count = 0; waiters = 0; resumed = 0; lost = 0 }

-- `_acquireSlot` up to its `await`, or to its end.
unfoldable pub acquire_slot : ℕ → Slots → Slots
acquire_slot max_per_host s =
    if leb max_per_host s.count
    then record s { present = true; waiters = s.waiters + 1 }
    else record s { present = true; count = s.count + 1 }

-- What is left of `_acquireSlot` in a waiter that was woken.
unfoldable pub resume : Slots → Slots
resume s = if ltb 0 s.resumed then record s { resumed = s.resumed - 1; count = s.count + 1 } else s

-- `_releaseSlot`
unfoldable pub release_slot : Slots → Slots
release_slot s =
    let count = s.count - 1 in
    if s.present
    then (if ltb 0 s.waiters
        then record s { count = count; waiters = s.waiters - 1; resumed = s.resumed + 1 }
        else if count == 0
        then record s { present = false; count = 0; resumed = 0; lost = s.lost + s.resumed }
        else record s { count = count })
    else s

-- What happens to a host, each event in a turn of the event loop of its own: the microtasks that a
-- turn leaves run before the next one.
pub data Event : Type 0 where
  acquires releases : Event

unfoldable pub turn : ℕ → Event → Slots → Slots
turn max_per_host acquires s = resume (acquire_slot max_per_host s)
turn max_per_host releases s = resume (release_slot s)

unfoldable pub turns : ℕ → List Event → Slots → Slots
turns max_per_host [] s = s
turns max_per_host (e ∷ es) s = turns max_per_host es (turn max_per_host e s)
