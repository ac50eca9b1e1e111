-- ===== src/Pool/Slots/Cap.antt =====
-- The cap holds, and nobody waits below it, if no turn of the event loop mixes calls.
use hellojs.Common.{
  ℕ, ◌+◌, ◌-◌, ◌≤◌, ◌<◌, ◌≡◌, refl, sym, subst, true, false, List, [], ◌∷◌, leb, ltb, ◌==◌, arith,
  Bool-cases, inl, inr,
}
use hellojs.Pool.Slots.{
  Slots, no_slots, acquire_slot, release_slot, resume, Event, acquires, releases, turn, turns,
}

-- Between two turns.
pub record IsSettled (max_per_host : ℕ) (s : Slots) : Type 0 where
  pub capped : s.count ≤ max_per_host
  pub busy : 0 < s.waiters → s.count ≡ max_per_host
  pub none_resumed : s.resumed ≡ 0
  pub none_lost : s.lost ≡ 0

acquire_slot-IsSettled :
    (max : ℕ) (s : Slots) → IsSettled max s → IsSettled max (acquire_slot max s)
unfolding acquire_slot
acquire_slot-IsSettled max s ok = elim (Bool-cases (leb max s.count)) [
  | inl full ↦
      let at_cap : s.count ≡ max = ground (arith, ok.capped) in
      rw full (record {
        capped = ok.capped;
        busy = λ h. at_cap;
        none_resumed = ok.none_resumed;
        none_lost = ok.none_lost;
      })
  | inr free ↦
      let below : s.count < max = ground arith in
      rw free (record {
        capped = omega arith;
        busy = λ h. let at_cap : s.count ≡ max = ok.busy h in absurd (omega arith);
        none_resumed = ok.none_resumed;
        none_lost = ok.none_lost;
      })
]

resume-none : (s : Slots) → s.resumed ≡ 0 → resume s ≡ s
unfolding resume
resume-none s e = let none_left : ltb 0 s.resumed ≡ false = ground arith in rw none_left refl

-- The three ways in which a slot is given back, each with the microtask behind it.
release-IsSettled :
    (max : ℕ) (s : Slots) → 0 < max → IsSettled max s → IsSettled max (resume (release_slot s))
unfolding release_slot resume
release-IsSettled max s pos ok = elim (Bool-cases s.present) [
  | inl here ↦ elim (Bool-cases (ltb 0 s.waiters)) [
    | inl some_wait ↦
        let waiting : 0 < s.waiters = ground arith in
        let at_cap : s.count ≡ max = ok.busy waiting in
        let one : ltb 0 (s.resumed + 1) ≡ true = ground arith in
        rw (here, some_wait)
          (rw one (record {
            capped = omega (arith, ok.capped);
            busy = λ h. omega arith;
            none_resumed = omega (arith, ok.none_resumed);
            none_lost = ok.none_lost;
          }))
    | inr none_wait ↦
        let nobody : s.waiters ≡ 0 = ground arith in
        let quiet : ltb 0 s.resumed ≡ false = ground (arith, ok.none_resumed) in
        elim (Bool-cases (s.count - 1 == 0)) [
          | inl last ↦
              rw (here, none_wait, last)
                (record {
                  capped = omega arith;
                  busy = λ h. absurd (omega arith);
                  none_resumed = refl;
                  none_lost = omega (arith, ok.none_lost, ok.none_resumed);
                })
          | inr more ↦
              rw (here, none_wait, more)
                (rw quiet (record {
                  capped = omega (arith, ok.capped);
                  busy = λ h. absurd (omega arith);
                  none_resumed = ok.none_resumed;
                  none_lost = ok.none_lost;
                }))
        ]
  ]
  | inr gone ↦
      let quiet : ltb 0 s.resumed ≡ false = ground (arith, ok.none_resumed) in
      rw gone (
        rw quiet (record {
          capped = ok.capped;
          busy = ok.busy;
          none_resumed = ok.none_resumed;
          none_lost = ok.none_lost;
        }))
]

turns-IsSettled_from :
    (max : ℕ) (es : List Event) (s : Slots)
    → 0 < max
    → IsSettled max s
    → IsSettled max (turns max es s)
unfolding turns turn
turns-IsSettled_from max [] s pos ok = ok
turns-IsSettled_from max (acquires ∷ es) s pos ok =
    let taken = acquire_slot-IsSettled max s ok in
    turns-IsSettled_from max es (resume (acquire_slot max s)) pos
      (subst (IsSettled max) (sym (resume-none (acquire_slot max s) taken.none_resumed)) taken)
turns-IsSettled_from max (releases ∷ es) s pos ok =
    turns-IsSettled_from max es (resume (release_slot s)) pos (release-IsSettled max s pos ok)

-- However calls of `_acquireSlot` and `_releaseSlot` follow one another, each in a turn of its own,
-- the count of a host stays within the cap, and somebody waits only while it is at the cap.
pub turns-IsSettled : (max : ℕ) (es : List Event) → 0 < max → IsSettled max (turns max es no_slots)
unfolding no_slots
turns-IsSettled max es pos = turns-IsSettled_from max es no_slots pos (record {
  capped = omega arith;
  busy = λ h. absurd (omega arith);
  none_resumed = refl;
  none_lost = refl;
})
