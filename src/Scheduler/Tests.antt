-- ===== src/Scheduler/Tests.antt =====
-- The theorems on kernel/parts/scheduler_policy.inc at concrete inputs.
use zenov_os.Prelude.{ℕ, ◌≡◌, refl, some, arith, List, [], ◌∷◌, Bool, true, false}
use zenov_os.Prelude.Int.{pos}
use zenov_os.Scheduler.Policy.{Candidate, select, index_at, select_from, consider}
use zenov_os.Scheduler.Selection.{Chooses, select_lem}
use zenov_os.Scheduler.Aging.{wait_through, wait_through-top}

abbrev task : Bool → ℕ → Candidate
task ready priority = record {
  ready = ready;
  base_priority = 1;
  dynamic_priority = priority;
  wait_ticks = 49;
}

abbrev tasks : List Candidate
tasks = task true 2 ∷ task true 3 ∷ task false 3 ∷ task true 3 ∷ []

-- Among equals the next one after the current task runs.
select_runs : select (some tasks) 4 (pos 1) ≡ pos 3
unfolding select select_from consider index_at
select_runs = refl

select_lem_example : Chooses tasks 4 (pos 1) (select (some tasks) 4 (pos 1))
select_lem_example = select_lem tasks 4 (pos 1) (omega arith) (omega arith) (omega arith)

wait_through-top_example : (wait_through 51 (task true 1)).dynamic_priority ≡ 3
wait_through-top_example =
    wait_through-top 51 (task true 1) refl (omega arith) (omega arith) (omega arith)
