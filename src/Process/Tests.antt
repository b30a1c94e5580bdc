-- ===== src/Process/Tests.antt =====
-- The theorems on kernel/parts/process_handles.inc and process_lifecycle.inc at concrete inputs, and
-- runs of the two tables.
use zenov_os.Prelude.{
  ℕ, ◌+◌, ◌-◌, ◌≡◌, refl, ap, subst, none, some, arith, [], ◌∷◌, Bool, true, false, ◌&&◌, ◌||◌, ◌⊎◌,
  set, ◌==◌, if◌then◌else◌, ◌↔◌,
}
use zenov_os.Prelude.Int.{pos}
use zenov_os.Process.Handles
use zenov_os.Process.Handles.{ObjectKey, Table, empty_table, next_generation, find_free}
use zenov_os.Process.Handles.Codec.{decode-encode}
use zenov_os.Process.Handles.Invariant.{IsValid, empty-IsValid, allocate-IsValid}
use zenov_os.Process.Handles.Allocation.{accepts, resolve-allocate, allocate-eq-zero_iff}
use zenov_os.Process.Handles.Stale.{run, allocates, closes, run-IsValid, resolve-close}
use zenov_os.Process.Lifecycle
use zenov_os.Process.Lifecycle.{Manager, Object, initial, exited}
use zenov_os.Process.Lifecycle.Soundness as Sound
use zenov_os.Process.Lifecycle.Soundness.{initial-IsValid}
use zenov_os.Process.Lifecycle.Calls as Calls
use zenov_os.Process.Lifecycle.Calls.{creates, retains, releases, terminates, reaps}
use zenov_os.Process.Lifecycle.Soundness.Creation.{create-IsValid}
use zenov_os.Process.Lifecycle.Soundness.Operations.{retain-IsValid, terminate-IsValid}
use zenov_os.Process.Lifecycle.Results.{
  find-release, find-terminate, find-reap_parent, release-retain, find_pid-find, find-create,
}

abbrev child : ObjectKey
child = record { slot = 2; generation = 5 }

abbrev other : ObjectKey
other = record { slot = 3; generation = 1 }

handle_runs : (Handles.allocate empty_table child 3).0 ≡ 0x101
unfolding Handles.allocate Handles.encode next_generation find_free
handle_runs = refl

decode-encode_example : Handles.decode (Handles.encode 7 65535) ≡ some (7, 65535)
decode-encode_example = decode-encode 7 65535 (omega arith) (omega arith) (omega arith)

resolve-allocate_example :
    Handles.resolve
      (Handles.allocate empty_table child 3).1
      (Handles.allocate empty_table child 3).0
      1
    ≡ some child
resolve-allocate_example =
    resolve-allocate empty_table child 3 1 empty-IsValid (rw handle_runs (omega arith)) refl

allocate-eq-zero_iff_example :
    ((Handles.allocate empty_table child 4).0 ≡ 0)
    ↔ ((accepts child 4 ≡ false) ⊎ (Handles.active_count empty_table ≡ 8))
allocate-eq-zero_iff_example = allocate-eq-zero_iff empty_table child 4 empty-IsValid

abbrev opened : Table
unfolding Handles.allocate Handles.encode next_generation find_free
opened = (Handles.allocate empty_table child 3).1

opened-IsValid : IsValid opened
unfolding opened
opened-IsValid = allocate-IsValid empty_table child 3 empty-IsValid

abbrev closed : Table
closed = record opened { entries = set opened.entries 0 Handles.no_entry }

closes_opened : Handles.close opened 0x101 ≡ some (child, closed)
unfolding opened Handles.allocate Handles.encode next_generation find_free Handles.close
    Handles.decode
closes_opened = refl

resolve-close_example :
    Handles.resolve (run closed (allocates other 1 ∷ closes 7 ∷ [])) 0x101 1 ≡ none
unfolding opened
resolve-close_example =
    resolve-close opened closed 0x101 1 child (allocates other 1 ∷ closes 7 ∷ []) opened-IsValid
      closes_opened (omega arith)

run-IsValid_example : IsValid (run empty_table (allocates other 1 ∷ closes 0x101 ∷ []))
run-IsValid_example = run-IsValid empty_table (allocates other 1 ∷ closes 0x101 ∷ []) empty-IsValid

run_manager-IsValid_example :
    Sound.IsValid (Calls.run initial (creates 0 (pos 1) ∷ releases child ∷ []))
run_manager-IsValid_example = Calls.run-initial-IsValid (creates 0 (pos 1) ∷ releases child ∷ [])

-- One object with a parent, made by `create`.
abbrev first_key : ObjectKey
first_key = record { slot = 0; generation = 1 }

abbrev parented : Manager
parented = record {
  objects = set initial.objects 0 (Lifecycle.new_object 0 1 9 (pos 2));
  generations = set initial.generations 0 1;
  live_objects = 1;
  retained_objects = 1;
}

create_runs : Lifecycle.create initial 9 (pos 2) ≡ some (first_key, 1, parented)
unfolding Lifecycle.create Lifecycle.encode_pid Lifecycle.next_generation Lifecycle.find_free
create_runs = refl

parented-IsValid : Sound.IsValid parented
parented-IsValid = create-IsValid initial 9 (pos 2) first_key 1 parented initial-IsValid create_runs

abbrev first_object : Object
first_object = Lifecycle.new_object 0 1 9 (pos 2)

first_found : Lifecycle.find parented first_key ≡ some first_object
unfolding Lifecycle.find Lifecycle.encode_pid
first_found = refl

release-retain_example :
    ((Lifecycle.retain parented first_key).0 ≡ true)
    × (Lifecycle.release (Lifecycle.retain parented first_key).1 first_key ≡ (true, parented))
release-retain_example =
    release-retain parented first_key first_object parented-IsValid first_found (omega arith)

find-terminate_example :
    ((Lifecycle.terminate parented first_key 3 0 10 2 exited).0 ≡ true)
    × (Lifecycle.find (Lifecycle.terminate parented first_key 3 0 10 2 exited).1 first_key ≡ (
        if (first_object.parent_pid == 0 || first_object.parent_reaped)
          && first_object.handle_references == 0
        then none
        else some (record first_object {
          signaled = true;
          exit_code = 3;
          fault_vector = 0;
          runtime_ticks = 10;
          context_switches = 2;
          reason = exited;
          parent_reaped = first_object.parent_pid == 0 || first_object.parent_reaped;
        })))
find-terminate_example =
    find-terminate parented first_key first_object 3 0 10 2 exited parented-IsValid first_found refl
      refl

-- The same object with one reference, and after its end.
abbrev held_object : Object
held_object = record first_object { handle_references = 1 }

abbrev held : Manager
held = Lifecycle.put parented 0 held_object

retain_runs : Lifecycle.retain parented first_key ≡ (true, held)
unfolding Lifecycle.retain Lifecycle.find
retain_runs = refl

held-IsValid : Sound.IsValid held
held-IsValid =
    subst Sound.IsValid (ap (λ (r : Bool × Manager). r.1) retain_runs)
      (retain-IsValid parented first_key parented-IsValid)

held_found : Lifecycle.find held first_key ≡ some held_object
unfolding Lifecycle.find
held_found = refl

find-release_example :
    ((Lifecycle.release held first_key).0 ≡ true)
    × (Lifecycle.find (Lifecycle.release held first_key).1 first_key ≡ (
        if held_object.signaled && held_object.parent_reaped && held_object.handle_references == 1
        then none
        else some (record held_object { handle_references = held_object.handle_references - 1 })))
find-release_example = find-release held first_key held_object held-IsValid held_found (omega arith)

abbrev ended_object : Object
ended_object = Lifecycle.terminated held_object 3 0 10 2 exited

abbrev ended : Manager
ended = record (Lifecycle.put parented 0 ended_object) { live_objects = 0 }

terminate_runs : Lifecycle.terminate held first_key 3 0 10 2 exited ≡ (true, ended)
unfolding Lifecycle.terminate Lifecycle.find Lifecycle.collect_if_unreferenced
terminate_runs = refl

ended-IsValid : Sound.IsValid ended
ended-IsValid =
    subst Sound.IsValid (ap (λ (r : Bool × Manager). r.1) terminate_runs)
      (terminate-IsValid held first_key 3 0 10 2 exited held-IsValid)

ended_found : Lifecycle.find ended first_key ≡ some ended_object
unfolding Lifecycle.find
ended_found = refl

find-reap_parent_example :
    ((Lifecycle.reap_parent ended first_key 9).0 ≡ true)
    × (Lifecycle.find (Lifecycle.reap_parent ended first_key 9).1 first_key ≡ (
        if ended_object.handle_references == 0
        then none
        else some (record ended_object { parent_reaped = true })))
find-reap_parent_example =
    find-reap_parent ended first_key ended_object ended-IsValid ended_found refl refl

find_pid_found : Lifecycle.find_pid parented 1 ≡ some first_object
unfolding Lifecycle.find_pid Lifecycle.decode_pid Lifecycle.encode_pid
find_pid_found = refl

find_pid-find_example :
    (first_object.pid ≡ 1)
    × (Lifecycle.find parented (Lifecycle.key_for first_object) ≡ some first_object)
find_pid-find_example = find_pid-find parented 1 first_object parented-IsValid find_pid_found

find-create_example :
    ((Lifecycle.create initial 9 (pos 2) ≡ none) × (initial.retained_objects ≡ 16))
    ⊎ ((key : ObjectKey) × (pid : ℕ) × (m' : Manager) × (o : Object) × (Lifecycle.create initial 9
            (pos 2)
          ≡ some (key, pid, m'))
        × (Lifecycle.find m' key ≡ some o)
        × (Lifecycle.find_pid m' pid ≡ some o)
        × (o.parent_pid ≡ 9)
        × (m'.retained_objects ≡ initial.retained_objects + 1))
find-create_example = find-create initial 9 (pos 2) initial-IsValid
