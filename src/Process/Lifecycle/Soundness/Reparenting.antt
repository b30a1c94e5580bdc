-- ===== src/Process/Lifecycle/Soundness/Reparenting.antt =====
-- `reparent` of kernel/parts/process_lifecycle.inc keeps the invariant.
use zenov_os.Prelude.{
  ℕ, zero, suc, ◌+◌, ◌<◌, ◌≤◌, ◌≡◌, refl, arith, Bool, true, false, not, ◌&&◌, ◌||◌, inl, inr,
  Bool-cases, ◌==◌, ◌/=◌,
}
use zenov_os.Process.Lifecycle.{
  Object, Manager, object_at, put, reparent_slot, reparent_from, reparent, collect_if_unreferenced,
}
use zenov_os.Process.Lifecycle.Soundness.Updates.{IsSound, IsValid, IsFound, is_live, clean-set}
use zenov_os.Process.Lifecycle.Soundness.Collection.{
  IsSame, rewritten-IsSound, rewrite_collect-IsValid,
}

-- The object at a slot is found by its own key.
own-IsFound :
    (m : Manager) (i : ℕ)
    → IsSound m
    → i < 16
    → (object_at m i).used ≡ true
    → IsFound m (record { slot = i; generation = (object_at m i).generation }) (object_at m i)
own-IsFound m i v h u = record {
  in_range = h;
  there = refl;
  in_use = u;
  matches = refl;
  keyed = ground (arith, (v.each i u).current, (v.each i u).positive);
}

-- A write at a slot, and the collection by a key that names the slot.
orphan-IsValid :
    (m : Manager) (i s : ℕ) (o' : Object)
    → IsValid m
    → i < 16
    → (object_at m i).used ≡ true
    → s ≡ i
    → IsSame (object_at m i) o'
    → is_live (object_at m i) ≡ is_live o'
    → IsValid
        (collect_if_unreferenced
          (put m i o')
          (record { slot = s; generation = (object_at m i).generation })).1
orphan-IsValid m i s o' v h u e same alive = rw e (
    rewrite_collect-IsValid m _ (object_at m i) o' m.live_objects v (own-IsFound m i v.sound h u)
      same (rw alive refl))

moved-IsValid :
    (m : Manager) (i new : ℕ)
    → IsValid m
    → i < 16
    → (object_at m i).used ≡ true
    → IsValid (put m i (record (object_at m i) { parent_pid = new }))
moved-IsValid m i new v h u = record {
  sound =
      rewritten-IsSound {l = m.live_objects} v (own-IsFound m i v.sound h u)
        (record { still_used = u; slot_kept = refl; generation_kept = refl; pid_kept = refl }) refl;
  clean = clean-set m i _ (omega (arith, v.sound.objects_full)) (λ j d. v.clean j) (v.clean i);
}

pub reparent_slot-IsValid :
    (m : Manager) (old new i : ℕ) → IsValid m → i < 16 → IsValid (reparent_slot m old new i).1
unfolding reparent_slot
reparent_slot-IsValid m old new i v h =
    elim (Bool-cases (not (object_at m i).used || (object_at m i).parent_pid /= old)) [
      | inl z ↦ rw z v
      | inr z ↦
          let u : (object_at m i).used ≡ true = ground arith in
          rw z (elim (Bool-cases (new == 0 && (object_at m i).signaled)) [
            | inl s ↦ rw s (
                orphan-IsValid m i (object_at m i).slot
                  (record (object_at m i) { parent_pid = new; parent_reaped = true }) v h u
                  (v.sound.each i u).placed
                  (record {
                    still_used = u;
                    slot_kept = refl;
                    generation_kept = refl;
                    pid_kept = refl;
                  })
                  refl)
            | inr s ↦ rw s (moved-IsValid m i new v h u)
          ])
    ]

pub reparent_from-IsValid :
    (rounds : ℕ) (m : Manager) (old new i : ℕ) (changed : Bool)
    → IsValid m
    → i + rounds ≤ 16
    → IsValid (reparent_from rounds m old new i changed).1
unfolding reparent_from
reparent_from-IsValid zero m old new i changed v h = v
reparent_from-IsValid (suc rounds) m old new i changed v h =
    reparent_from-IsValid rounds (reparent_slot m old new i).1 old new (i + 1) _
      (reparent_slot-IsValid m old new i v (omega arith)) (omega arith)

pub reparent-IsValid : (m : Manager) (old new : ℕ) → IsValid m → IsValid (reparent m old new).1
unfolding reparent
reparent-IsValid m old new v = reparent_from-IsValid 16 m old new 0 false v (omega arith)
