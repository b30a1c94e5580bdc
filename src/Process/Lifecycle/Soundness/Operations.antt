-- ===== src/Process/Lifecycle/Soundness/Operations.antt =====
-- Each call of kernel/parts/process_lifecycle.inc on one object keeps the invariant.
use zenov_os.Prelude.{
  ℕ, ◌-◌, refl, some, arith, true, not, ◌||◌, inl, inr, Option-cases, Bool-cases, ◌==◌, ◌/=◌,
}
use zenov_os.Process.Handles.{ObjectKey}
use zenov_os.Process.Lifecycle.{
  Object, Manager, TerminationReason, no_object, find, count_down, retain, retain_object, release,
  release_object, terminate, terminate_object, terminated, is_running, reap_parent, reap_object,
  destroy_unstarted, destroy_object,
}
use zenov_os.Process.Lifecycle.Soundness.Updates.{IsValid, IsFound, find-IsFound, clean-set}
use zenov_os.Process.Lifecycle.Soundness.Collection.{
  rewritten-IsSound, removed-IsSound, found-retained, found-live, rewrite_collect-IsValid,
}

retain_object-IsValid :
    (m : Manager) (key : ObjectKey) (o : Object)
    → IsValid m
    → IsFound m key o
    → IsValid (retain_object m key (some o)).1
retain_object-IsValid m key o v f = elim (Bool-cases (o.handle_references == 0xffff_ffff)) [
  | inl z ↦ rw z v
  | inr z ↦ rw z (record {
    sound =
        rewritten-IsSound {m = m} {key = key} {l = m.live_objects} v f
          (record {
            still_used = f.in_use;
            slot_kept = refl;
            generation_kept = refl;
            pid_kept = refl;
          })
          refl;
    clean =
        clean-set m key.slot _ (omega (arith, v.sound.objects_full, f.in_range)) (λ j d. v.clean j)
          (ground arith);
  })
]

pub retain-IsValid : (m : Manager) (key : ObjectKey) → IsValid m → IsValid (retain m key).1
unfolding retain
retain-IsValid m key v = elim (Option-cases (find m key)) [
  | inl e ↦ rw e v
  | inr (o, e) ↦ rw e (retain_object-IsValid m key o v (find-IsFound m key o e))
]

release_object-IsValid :
    (m : Manager) (key : ObjectKey) (o : Object)
    → IsValid m
    → IsFound m key o
    → IsValid (release_object m key (some o)).1
release_object-IsValid m key o v f = elim (Bool-cases (o.handle_references == 0)) [
  | inl z ↦ rw z v
  | inr z ↦ rw z (
      rewrite_collect-IsValid m key o (record o { handle_references = o.handle_references - 1 })
        m.live_objects v f
        (record {
          still_used = f.in_use;
          slot_kept = refl;
          generation_kept = refl;
          pid_kept = refl;
        })
        refl)
]

pub release-IsValid : (m : Manager) (key : ObjectKey) → IsValid m → IsValid (release m key).1
unfolding release
release-IsValid m key v = elim (Option-cases (find m key)) [
  | inl e ↦ rw e v
  | inr (o, e) ↦ rw e (release_object-IsValid m key o v (find-IsFound m key o e))
]

terminate_object-IsValid :
    (m : Manager) (key : ObjectKey) (o : Object) (c fv rt cs : ℕ) (reason : TerminationReason)
    → IsValid m
    → IsFound m key o
    → IsValid (terminate_object m key c fv rt cs reason (some o)).1
terminate_object-IsValid m key o c fv rt cs reason v f =
    elim (Bool-cases (o.signaled || is_running reason)) [
      | inl z ↦ rw z v
      | inr z ↦ rw z (
          rewrite_collect-IsValid m key o (terminated o c fv rt cs reason)
            (count_down m.live_objects) v f
            (record {
              still_used = f.in_use;
              slot_kept = refl;
              generation_kept = refl;
              pid_kept = refl;
            })
            (ground (arith, found-live m key o v.sound f)))
    ]

pub terminate-IsValid :
    (m : Manager) (key : ObjectKey) (c fv rt cs : ℕ) (reason : TerminationReason)
    → IsValid m
    → IsValid (terminate m key c fv rt cs reason).1
unfolding terminate
terminate-IsValid m key c fv rt cs reason v = elim (Option-cases (find m key)) [
  | inl e ↦ rw e v
  | inr (o, e) ↦
      rw e (terminate_object-IsValid m key o c fv rt cs reason v (find-IsFound m key o e))
]

reap_object-IsValid :
    (m : Manager) (key : ObjectKey) (o : Object) (parent_pid : ℕ)
    → IsValid m
    → IsFound m key o
    → IsValid (reap_object m key parent_pid (some o)).1
reap_object-IsValid m key o parent_pid v f =
    elim (Bool-cases (not o.signaled || o.parent_reaped || o.parent_pid /= parent_pid)) [
      | inl z ↦ rw z v
      | inr z ↦ rw z (
          rewrite_collect-IsValid m key o (record o { parent_reaped = true }) m.live_objects v f
            (record {
              still_used = f.in_use;
              slot_kept = refl;
              generation_kept = refl;
              pid_kept = refl;
            })
            refl)
    ]

pub reap_parent-IsValid :
    (m : Manager) (key : ObjectKey) (parent_pid : ℕ)
    → IsValid m
    → IsValid (reap_parent m key parent_pid).1
unfolding reap_parent
reap_parent-IsValid m key parent_pid v = elim (Option-cases (find m key)) [
  | inl e ↦ rw e v
  | inr (o, e) ↦ rw e (reap_object-IsValid m key o parent_pid v (find-IsFound m key o e))
]

destroy_object-IsValid :
    (m : Manager) (key : ObjectKey) (o : Object)
    → IsValid m
    → IsFound m key o
    → IsValid (destroy_object m key (some o)).1
destroy_object-IsValid m key o v f = elim (Bool-cases (o.signaled || o.handle_references /= 0)) [
  | inl z ↦ rw z v
  | inr z ↦ rw z (record {
    sound =
        removed-IsSound m key o (count_down m.live_objects) (count_down m.retained_objects) v.sound
          f (ground (arith, found-retained m key o v.sound f))
          (ground (arith, found-live m key o v.sound f));
    clean =
        clean-set m key.slot no_object (omega (arith, v.sound.objects_full, f.in_range))
          (λ j d. v.clean j) refl;
  })
]

pub destroy_unstarted-IsValid :
    (m : Manager) (key : ObjectKey) → IsValid m → IsValid (destroy_unstarted m key).1
unfolding destroy_unstarted
destroy_unstarted-IsValid m key v = elim (Option-cases (find m key)) [
  | inl e ↦ rw e v
  | inr (o, e) ↦ rw e (destroy_object-IsValid m key o v (find-IsFound m key o e))
]
