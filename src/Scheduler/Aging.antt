-- ===== src/Scheduler/Aging.antt =====
-- Aging in kernel/parts/scheduler_policy.inc.
use zenov_os.Prelude.{ℕ, zero, suc, ◌-◌, ◌*◌, ◌<◌, ◌≤◌, ◌≡◌, arith, true, ℕ_discrete}
use zenov_os.Scheduler.Policy.{Candidate, account_wait, quantum_ticks}

-- A task that stays ready, through a number of timer ticks.
pub wait_through : ℕ → Candidate → Candidate
wait_through zero c = c
wait_through (suc n) c = wait_through n (account_wait c)

-- How many ticks a ready candidate still waits before it has the highest priority.
abbrev pub ticks_to_top : Candidate → ℕ
ticks_to_top c = 50 * (3 - c.dynamic_priority) - c.wait_ticks

tick_rises :
    (c : Candidate)
    → c.ready ≡ true
    → c.dynamic_priority < 3
    → c.wait_ticks < 50
    → ((account_wait c).ready ≡ true)
      × ((account_wait c).dynamic_priority ≤ 3)
      × (ticks_to_top (account_wait c) < ticks_to_top c)
      × ((account_wait c).wait_ticks < 50)
unfolding account_wait
tick_rises c r d w = ground arith

tick_stays :
    (c : Candidate)
    → c.ready ≡ true
    → c.dynamic_priority ≡ 3
    → ((account_wait c).ready ≡ true) × ((account_wait c).dynamic_priority ≡ 3)
unfolding account_wait
tick_stays c r d = ground arith

top_stays :
    (n : ℕ) (c : Candidate)
    → c.ready ≡ true
    → c.dynamic_priority ≡ 3
    → (wait_through n c).dynamic_priority ≡ 3
unfolding wait_through
top_stays zero c r d = d
top_stays (suc n) c r d = let s = tick_stays c r d in top_stays n (account_wait c) s.0 s.1

-- A candidate that stays ready reaches the highest priority and keeps it: from any priority up to 3
-- and a wait below the aging period, it has priority 3 after every number of ticks that is at least
-- 50 for each level that it lacks, less the ticks that it has waited already.
pub wait_through-top :
    (n : ℕ) (c : Candidate)
    → c.ready ≡ true
    → c.dynamic_priority ≤ 3
    → c.wait_ticks < 50
    → ticks_to_top c ≤ n
    → (wait_through n c).dynamic_priority ≡ 3
unfolding wait_through
wait_through-top zero c r d w h = omega arith
wait_through-top (suc n) c r d w h = elim (ℕ_discrete c.dynamic_priority 3) [
  | yes top ↦ top_stays (suc n) c r top
  | no low ↦
      let (r', d', less, w') = tick_rises c r (omega arith) w in
      wait_through-top n (account_wait c) r' d' w' (omega arith)
]

-- The time slice of every priority byte lies between the smallest and the largest quantum, and no
-- slice is as long as the aging period.
pub quantum_ticks_bounds :
    (priority : ℕ)
    → (3 ≤ quantum_ticks priority) × (quantum_ticks priority ≤ 6) × (quantum_ticks priority < 50)
unfolding quantum_ticks
quantum_ticks_bounds priority = ground arith
