-- ===== src/Process/Lifecycle/Results.antt =====
-- What the calls of kernel/parts/process_lifecycle.inc return and leave behind.
use zenov_os.Prelude.{
  ℕ, ◌+◌, ◌-◌, ◌<◌, ◌≡◌, refl, sym, ap, ◌∙◌, Option, none, some, arith, List, true, false, not,
  ◌&&◌, ◌||◌, ◌⊎◌, inl, inr, get_or, get_or-set_self, get_or-set_default, set-set, set-get_or,
  count_if-le, to_nat, Option-cases, Bool-cases, ◌==◌, ◌/=◌, if◌then◌else◌,
}
use zenov_os.Process.Handles.{ObjectKey}
use zenov_os.Prelude.Int.{ℤ}
use zenov_os.Process.Lifecycle.{
  Object, Manager, TerminationReason, no_object, encode_pid, decode_pid, find, find_pid,
  find_pid_at, object_at, collect_if_unreferenced, find_free, put, key_for, count_down, retain,
  release, release_object, terminate, terminated, is_running, reap_parent, create, create_at,
  new_object, next_generation,
}
use zenov_os.Process.Lifecycle.Pids.{
  decode_pid-encode_pid, encode_pid-decode_pid, next_generation_bounds,
}
use zenov_os.Process.Lifecycle.Soundness.{
  IsObject, IsSound, IsValid, IsFound, is_used, is_live, is_garbage, find-IsFound, IsFound-find,
}
use zenov_os.Process.Lifecycle.Soundness.Collection.{
  IsSame, found-live, rewritten, rewritten-IsFound, collected, collect_if_unreferenced_lem,
}
use zenov_os.Process.Lifecycle.Soundness.Creation.{
  free_slot, created, created-IsValid, find_free-none,
}

find-collected : (m : Manager) (key : ObjectKey) → find (collected m key.slot) key ≡ none
unfolding find
find-collected m key = ground (arith, ap is_used (get_or-set_default m.objects key.slot no_object))

-- After `collect_if_unreferenced` an object that was found is gone if it was garbage, and is found
-- as before otherwise.
pub find-collect :
    (m : Manager) (key : ObjectKey) (o : Object)
    → IsFound m key o
    → find (collect_if_unreferenced m key).1 key ≡ (if is_garbage o then none else some o)
find-collect m key o f = elim (Bool-cases (is_garbage o)) [
  | inl g ↦ rw (collect_if_unreferenced_lem m key o f) (rw g (find-collected m key))
  | inr g ↦ rw (collect_if_unreferenced_lem m key o f) (rw g (IsFound-find m key o f))
]

-- The same after a write through the pointer.
find-rewrite_collect :
    (m : Manager) (key : ObjectKey) (o o' : Object) (l : ℕ)
    → IsValid m
    → IsFound m key o
    → IsSame o o'
    → l + to_nat (is_live o) ≡ m.live_objects + to_nat (is_live o')
    → find (collect_if_unreferenced (rewritten m key.slot o' l) key).1 key
      ≡ (if is_garbage o' then none else some o')
find-rewrite_collect m key o o' l v f same live =
    find-collect (rewritten m key.slot o' l) key o' (rewritten-IsFound v f same live)

unchanged :
    {o o' : Object}
    → o.used ≡ true
    → o'.used ≡ o.used
    → o'.slot ≡ o.slot
    → o'.generation ≡ o.generation
    → o'.pid ≡ o.pid
    → IsSame o o'
unchanged u a b c d = record {
  still_used = a ∙ u;
  slot_kept = b;
  generation_kept = c;
  pid_kept = d;
}

-- `release` of a found object with a reference succeeds and takes one reference away; afterwards the
-- object is gone if it had ended, was reaped and that was the last reference, and is found with the
-- lower count otherwise.
pub find-release :
    (m : Manager) (key : ObjectKey) (o : Object)
    → IsValid m
    → find m key ≡ some o
    → 0 < o.handle_references
    → ((release m key).0 ≡ true)
      × (find (release m key).1 key ≡ (
          if o.signaled && o.parent_reaped && o.handle_references == 1
          then none
          else some (record o { handle_references = o.handle_references - 1 })))
unfolding release
find-release m key o v e h =
    let f = find-IsFound m key o e in
    let z : (o.handle_references == 0) ≡ false = ground arith in
    let o' : Object = record o { handle_references = o.handle_references - 1 } in
    rw e (
      rw z (
        refl,
        find-rewrite_collect m key o o' m.live_objects v f (unchanged f.in_use refl refl refl refl)
              refl
            ∙ ground (arith, f.in_use),
      ))

-- `terminate` of a found object that has not ended, for a reason other than `running`, succeeds;
-- afterwards the object is gone if its parent is 0 or it was reaped, and no handle names it, and is
-- found with the exit values recorded otherwise.
pub find-terminate :
    (m : Manager) (key : ObjectKey) (o : Object) (c fv t s : ℕ) (reason : TerminationReason)
    → IsValid m
    → find m key ≡ some o
    → o.signaled ≡ false
    → is_running reason ≡ false
    → ((terminate m key c fv t s reason).0 ≡ true)
      × (find (terminate m key c fv t s reason).1 key ≡ (
          if (o.parent_pid == 0 || o.parent_reaped) && o.handle_references == 0
          then none
          else some (record o {
            signaled = true;
            exit_code = c;
            fault_vector = fv;
            runtime_ticks = t;
            context_switches = s;
            reason = reason;
            parent_reaped = o.parent_pid == 0 || o.parent_reaped;
          })))
unfolding terminate
find-terminate m key o c fv t s reason v e alive why =
    let f = find-IsFound m key o e in
    let z : (o.signaled || is_running reason) ≡ false = rw (alive, why) refl in
    rw e (
      rw z (
        refl,
        find-rewrite_collect m key o (terminated o c fv t s reason) (count_down m.live_objects) v f
              (unchanged f.in_use refl refl refl refl)
              (ground (arith, found-live m key o v.sound f))
            ∙ ground (arith, f.in_use),
      ))

-- `reap_parent` by the parent of a found object that has ended and is not reaped succeeds, and
-- afterwards the object is found exactly while handles name it.
pub find-reap_parent :
    (m : Manager) (key : ObjectKey) (o : Object)
    → IsValid m
    → find m key ≡ some o
    → o.signaled ≡ true
    → o.parent_reaped ≡ false
    → ((reap_parent m key o.parent_pid).0 ≡ true)
      × (find (reap_parent m key o.parent_pid).1 key
          ≡ (if o.handle_references == 0 then none else some (record o { parent_reaped = true })))
unfolding reap_parent
find-reap_parent m key o v e ended fresh =
    let f = find-IsFound m key o e in
    let z : (not o.signaled || o.parent_reaped || o.parent_pid /= o.parent_pid) ≡ false =
      ground arith in
    rw e (
      rw z (
        refl,
        find-rewrite_collect m key o (record o { parent_reaped = true }) m.live_objects v f
              (unchanged f.in_use refl refl refl refl) refl
            ∙ ground (arith, f.in_use),
      ))

put-put_back :
    (m : Manager) (key : ObjectKey) (o o' o'' : Object)
    → IsFound m key o
    → o'' ≡ o
    → put (put m key.slot o') key.slot o'' ≡ m
put-put_back m key o o' o'' f e =
    rw (e, f.there)
      (ap (λ (os : List Object). record m { objects = os })
        (set-set m.objects key.slot o' (object_at m key.slot)
          ∙ set-get_or m.objects key.slot no_object))

collect-clean :
    (m : Manager) (key : ObjectKey) (o : Object)
    → IsValid m
    → IsFound m key o
    → (collect_if_unreferenced m key).1 ≡ m
collect-clean m key o v f =
    let g : is_garbage o ≡ false = rw f.there (v.clean key.slot) in
    rw (collect_if_unreferenced_lem m key o f) (rw g refl)

release_object-retained :
    (m : Manager) (key : ObjectKey) (o : Object)
    → IsValid m
    → IsFound m key o
    → let o' : Object = record o { handle_references = o.handle_references + 1 } in
      release_object (put m key.slot o') key (some o') ≡ (true, m)
release_object-retained m key o v f =
    let o' : Object = record o { handle_references = o.handle_references + 1 } in
    let o'' : Object = record o { handle_references = o.handle_references + 1 - 1 } in
    let z : (o.handle_references + 1 == 0) ≡ false = ground arith in
    let n : o.handle_references + 1 - 1 ≡ o.handle_references = omega arith in
    let back : o'' ≡ o = ap (λ (k : ℕ). record o { handle_references = k }) n in
    rw z (rw (put-put_back m key o o' o'' f back) (rw (collect-clean m key o v f) refl))

-- `release` undoes `retain`: on a valid manager, retaining a found object whose count is below the
-- largest and releasing it again gives back the same manager.
pub release-retain :
    (m : Manager) (key : ObjectKey) (o : Object)
    → IsValid m
    → find m key ≡ some o
    → o.handle_references < 0xffff_ffff
    → ((retain m key).0 ≡ true) × (release (retain m key).1 key ≡ (true, m))
unfolding retain release
release-retain m key o v e h =
    let f = find-IsFound m key o e in
    let o' : Object = record o { handle_references = o.handle_references + 1 } in
    let z : (o.handle_references == 0xffff_ffff) ≡ false = ground arith in
    let f' =
      rewritten-IsFound {o' = o'} {l = m.live_objects} v f (unchanged f.in_use refl refl refl refl)
        refl in
    rw e (
      rw z (
        refl,
        rw (IsFound-find (put m key.slot o') key o' f') (release_object-retained m key o v f),
      ))

-- An object in use is found by its pid.
pub find_pid_lem :
    (m : Manager) (i : ℕ)
    → IsValid m
    → i < 16
    → (object_at m i).used ≡ true
    → find_pid m (object_at m i).pid ≡ some (object_at m i)
unfolding find_pid
find_pid_lem m i v h u =
    let known = v.sound.each i u in
    rw (known.numbered, decode_pid-encode_pid i _ h known.positive (v.sound.bounded i))
      (ground (arith, known))

found_by_pid :
    (m : Manager) (pid i g : ℕ) (o : Object)
    → find_pid_at m pid (some (i, g)) ≡ some o
    → (o ≡ object_at m i) × (o.used ≡ true) × (o.pid ≡ pid)
found_by_pid m pid i g o e = ground arith

own-IsFound :
    (m : Manager) (i : ℕ) (o : Object)
    → IsSound m
    → i < 16
    → o ≡ object_at m i
    → o.used ≡ true
    → IsFound m (key_for o) o
own-IsFound m i o v h e u =
    let known : IsObject i (get_or m.generations i 0) o =
      rw e (v.each i (ap is_used (sym e) ∙ u)) in
    record {
      in_range = omega (arith, known.placed);
      there = e ∙ ap (object_at m) (sym known.placed);
      in_use = u;
      matches = refl;
      keyed = ground (arith, known.current, known.positive);
    }

-- What `find_pid` finds has that pid, and is found by its key as well.
pub find_pid-find :
    (m : Manager) (pid : ℕ) (o : Object)
    → IsValid m
    → find_pid m pid ≡ some o
    → (o.pid ≡ pid) × (find m (key_for o) ≡ some o)
unfolding find_pid
find_pid-find m pid o v e = elim (Option-cases (decode_pid pid)) [
  | inl d ↦ cc (rw d at e)
  | inr ((i, g), d) ↦
      let (there, u, numbered) = found_by_pid m pid i g o (rw d at e) in
      let room = (encode_pid-decode_pid pid i g d).0 in
      (numbered, IsFound-find m (key_for o) o (own-IsFound m i o v.sound room there u))
]

-- What `create` leaves behind where it finds a free object.
created-found :
    (m : Manager) (parent : ℕ) (task : ℤ) (i g : ℕ)
    → IsValid m
    → i < 16
    → (object_at m i).used ≡ false
    → 0 < g
    → g < 65536
    → let o = new_object i g parent task in
      let m' = created m parent task i g in
      (find m' (key_for o) ≡ some o)
      × (find_pid m' o.pid ≡ some o)
      × (m'.retained_objects ≡ m.retained_objects + 1)
created-found m parent task i g v h free gp gb =
    let o = new_object i g parent task in
    let m' = created m parent task i g in
    let v' = created-IsValid m parent task i g v h free gp gb in
    let there : object_at m' i ≡ o =
      get_or-set_self m.objects i o no_object (omega (arith, h, v.sound.objects_full)) in
    (
      IsFound-find m' (key_for o) o (own-IsFound m' i o v'.sound h (sym there) refl),
      rw there at (find_pid_lem m' i v' h (rw there refl)),
      omega (arith, v.sound.retained, v.sound.objects_full, count_if-le is_used m.objects),
    )

find-create_at :
    (m : Manager) (parent : ℕ) (task : ℤ) (free : Option ℕ)
    → IsValid m
    → find_free 0 m.objects ≡ free
    → ((create_at m parent task free ≡ none) × (m.retained_objects ≡ 16))
      ⊎ ((key : ObjectKey) × (pid : ℕ) × (m' : Manager) × (o : Object) × (create_at m parent task
              free
            ≡ some (key, pid, m'))
          × (find m' key ≡ some o)
          × (find_pid m' pid ≡ some o)
          × (o.parent_pid ≡ parent)
          × (m'.retained_objects ≡ m.retained_objects + 1))
find-create_at m parent task none v e =
    inl (refl, v.sound.retained ∙ find_free-none 0 m.objects e ∙ v.sound.objects_full)
find-create_at m parent task (some i) v e =
    let (room, free) = free_slot m i v.sound e in
    let g = next_generation (get_or m.generations i 0) in
    let (gp, gb) = next_generation_bounds (get_or m.generations i 0) in
    let (by_key, by_pid, counted) = created-found m parent task i g v room free gp gb in
    inr (
      key_for (new_object i g parent task),
      encode_pid i g,
      created m parent task i g,
      new_object i g parent task,
      refl,
      by_key,
      by_pid,
      refl,
      counted,
    )

-- On a valid manager `create` fails only where all sixteen objects are in use; otherwise the key and
-- the pid that it returns both find the new object, whose parent is the given one.
pub find-create :
    (m : Manager) (parent : ℕ) (task : ℤ)
    → IsValid m
    → ((create m parent task ≡ none) × (m.retained_objects ≡ 16))
      ⊎ ((key : ObjectKey) × (pid : ℕ) × (m' : Manager) × (o : Object) × (create m parent task
            ≡ some (key, pid, m'))
          × (find m' key ≡ some o)
          × (find_pid m' pid ≡ some o)
          × (o.parent_pid ≡ parent)
          × (m'.retained_objects ≡ m.retained_objects + 1))
unfolding create
find-create m parent task v = find-create_at m parent task (find_free 0 m.objects) v refl
