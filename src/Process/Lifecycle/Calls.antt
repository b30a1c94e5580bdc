-- ===== src/Process/Lifecycle/Calls.antt =====
-- Histories of calls of kernel/parts/process_lifecycle.inc.
use zenov_os.Prelude.{ℕ, Option, none, some, List, [], ◌∷◌, inl, inr, Option-cases}
use zenov_os.Process.Handles.{ObjectKey}
use zenov_os.Prelude.Int.{ℤ}
use zenov_os.Process.Lifecycle.{
  Manager, TerminationReason, initial, create, destroy_unstarted, retain, release, terminate,
  reap_parent, reparent, reset,
}
use zenov_os.Process.Lifecycle.Soundness.{IsValid, initial-IsValid}
use zenov_os.Process.Lifecycle.Soundness.Operations.{
  retain-IsValid, release-IsValid, terminate-IsValid, reap_parent-IsValid,
  destroy_unstarted-IsValid,
}
use zenov_os.Process.Lifecycle.Soundness.Creation.{create-IsValid, reset-IsValid}
use zenov_os.Process.Lifecycle.Soundness.Reparenting.{reparent-IsValid}

pub data Call : Type 0 where
  creates : ℕ → ℤ → Call
  destroys retains releases : ObjectKey → Call
  terminates : ObjectKey → ℕ → ℕ → ℕ → ℕ → TerminationReason → Call
  reaps : ObjectKey → ℕ → Call
  reparents : ℕ → ℕ → Call
  resets : Call

abbrev after_create : Manager → Option (ObjectKey × ℕ × Manager) → Manager
after_create m none = m
after_create m (some (key, pid, m')) = m'

pub step : Manager → Call → Manager
step m (creates parent task) = after_create m (create m parent task)
step m (destroys key) = (destroy_unstarted m key).1
step m (retains key) = (retain m key).1
step m (releases key) = (release m key).1
step m (terminates key exit_code fault_vector ticks switches reason) =
    (terminate m key exit_code fault_vector ticks switches reason).1
step m (reaps key parent) = (reap_parent m key parent).1
step m (reparents old new) = (reparent m old new).1
step m resets = reset m

pub run : Manager → List Call → Manager
run m [] = m
run m (c ∷ cs) = run (step m c) cs

-- Every call of the object manager, whether it succeeds or not, keeps its invariant.
pub step-IsValid : (m : Manager) (c : Call) → IsValid m → IsValid (step m c)
unfolding step
step-IsValid m (creates parent task) v = elim (Option-cases (create m parent task)) [
  | inl e ↦ rw e v
  | inr ((key, pid, m'), e) ↦ rw e (create-IsValid m parent task key pid m' v e)
]
step-IsValid m (destroys key) v = destroy_unstarted-IsValid m key v
step-IsValid m (retains key) v = retain-IsValid m key v
step-IsValid m (releases key) v = release-IsValid m key v
step-IsValid m (terminates key c f t s reason) v = terminate-IsValid m key c f t s reason v
step-IsValid m (reaps key parent) v = reap_parent-IsValid m key parent v
step-IsValid m (reparents old new) v = reparent-IsValid m old new v
step-IsValid m resets v = reset-IsValid m v

run_from-IsValid : (m : Manager) (cs : List Call) → IsValid m → IsValid (run m cs)
unfolding run
run_from-IsValid m [] v = v
run_from-IsValid m (c ∷ cs) v = run_from-IsValid (step m c) cs (step-IsValid m c v)

-- After any history of calls from the start of the kernel the invariant holds: both counters are
-- exact, each object in use carries its slot, the slot's generation and the pid made of both, and no
-- object stays in use that has ended, is reaped and is named by no handle.
pub run-initial-IsValid : (cs : List Call) → IsValid (run initial cs)
run-initial-IsValid cs = run_from-IsValid initial cs initial-IsValid
