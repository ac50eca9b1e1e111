-- ===== src/Pool/Slots/Runs.antt =====
-- The slots of a host at concrete calls, and the theorem at a run.
use hellojs.Common.{◌≡◌, refl, [], ◌∷◌, arith}
use hellojs.Pool.Slots.{no_slots, acquire_slot, release_slot, resume, turns, acquires, releases}
use hellojs.Pool.Slots.Cap.{IsSettled, turns-IsSettled}

-- One slot is released and another one acquired before the waiter goes on: two are held of one.
over_cap :
    (resume (acquire_slot 1 (release_slot (acquire_slot 1 (acquire_slot 1 no_slots))))).count ≡ 2
unfolding no_slots acquire_slot release_slot resume
over_cap = refl

turns-IsSettled_example : IsSettled 2 (
    turns 2
      (acquires ∷ acquires ∷ acquires ∷ releases ∷ acquires ∷ releases ∷ releases ∷ [])
      no_slots)
turns-IsSettled_example =
    turns-IsSettled 2
      (acquires ∷ acquires ∷ acquires ∷ releases ∷ acquires ∷ releases ∷ releases ∷ [])
      (omega arith)
