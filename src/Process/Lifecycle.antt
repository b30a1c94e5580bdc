-- ===== src/Process/Lifecycle.antt =====
-- kernel/parts/process_lifecycle.inc: the sixteen process objects, found by a key or a pid, both of
-- which carry a generation. The globals `objects`, `generations`, `live_objects` and
-- `retained_objects` are the fields of a `Manager`; a pointer to an object is its value, and a write
-- through it is a write at the key's slot. The field `reserved`, which nothing reads, is left out.
pub mod Pids
pub mod Soundness
pub mod Calls
pub mod Results
use zenov_os.Prelude.{
  ℕ, zero, suc, ◌+◌, ◌-◌, ◌*◌, ◌/◌, Bool, true, false, not, ◌&&◌, ◌||◌, Option, none, some, List,
  [], ◌∷◌, bit_and, bit_or, u16, u32, ltb, leb, ◌==◌, ◌/=◌, if◌then◌else◌, get_or, set, replicate,
}
use zenov_os.Prelude.Int.{ℤ, negsuc}
use zenov_os.Process.Handles.{ObjectKey, key_valid}

abbrev pub object_capacity : ℕ
object_capacity = 16

abbrev pub pid_index_mask : ℕ
pid_index_mask = 0xff

-- `1 << 8`, by which the generation is shifted.
abbrev pub pid_generation_unit : ℕ
pid_generation_unit = 256

pub data TerminationReason : Type 0 where
  running exited faulted cancelled : TerminationReason

pub record Object : Type 0 where
  pub used : Bool
  pub signaled : Bool
  pub parent_reaped : Bool
  pub generation : ℕ
  pub slot : ℕ
  pub task_slot : ℤ
  pub pid : ℕ
  pub parent_pid : ℕ
  pub exit_code : ℕ
  pub fault_vector : ℕ
  pub runtime_ticks : ℕ
  pub context_switches : ℕ
  pub handle_references : ℕ
  pub reason : TerminationReason

-- `Object{}`; `task_slot` is -1.
abbrev pub no_object : Object
no_object = record {
  used = false;
  signaled = false;
  parent_reaped = false;
  generation = 0;
  slot = 0;
  task_slot = negsuc 0;
  pid = 0;
  parent_pid = 0;
  exit_code = 0;
  fault_vector = 0;
  runtime_ticks = 0;
  context_switches = 0;
  handle_references = 0;
  reason = running;
}

pub record Manager : Type 0 where
  pub objects : List Object
  pub generations : List ℕ
  pub live_objects : ℕ
  pub retained_objects : ℕ

-- The globals as the kernel starts.
abbrev pub initial : Manager
initial = record {
  objects = replicate object_capacity no_object;
  generations = replicate object_capacity 0;
  live_objects = 0;
  retained_objects = 0;
}

unfoldable pub next_generation : ℕ → ℕ
next_generation current = let next = u16 (current + 1) in if next == 0 then 1 else next

unfoldable pub encode_pid : ℕ → ℕ → ℕ
encode_pid slot generation =
    if leb object_capacity slot || generation == 0
    then 0
    else bit_or (u32 ((generation - 1) * pid_generation_unit)) (slot + 1)

-- The slot and the generation.
unfoldable pub decode_pid : ℕ → Option (ℕ × ℕ)
decode_pid pid =
    let encoded_slot = bit_and pid pid_index_mask in
    let encoded_generation = pid / pid_generation_unit in
    if encoded_slot == 0 || ltb object_capacity encoded_slot || ltb 0xfffe encoded_generation
    then none
    else some (encoded_slot - 1, u16 (encoded_generation + 1))

abbrev pub key_for : Object → ObjectKey
key_for object = record { slot = object.slot; generation = object.generation }

abbrev pub object_at : Manager → ℕ → Object
object_at m slot = get_or m.objects slot no_object

-- `find` and `find_const`.
unfoldable pub find : Manager → ObjectKey → Option Object
find m key =
    if not (key_valid key) || leb object_capacity key.slot
    then none
    else let object = object_at m key.slot in
      if object.used && object.generation == key.generation then some object else none

abbrev pub find_pid_at : Manager → ℕ → Option (ℕ × ℕ) → Option Object
find_pid_at m pid none = none
find_pid_at m pid (some (slot, generation)) =
    let object = object_at m slot in
    if object.used && object.generation == generation && object.pid == pid
    then some object
    else none

unfoldable pub find_pid : Manager → ℕ → Option Object
find_pid m pid = find_pid_at m pid (decode_pid pid)

-- `if (count) --count;`
abbrev pub count_down : ℕ → ℕ
count_down count = if count == 0 then 0 else count - 1

-- A write through the pointer that `find` returned for a key with this slot.
abbrev pub put : Manager → ℕ → Object → Manager
put m slot object = record m { objects = set m.objects slot object }

abbrev pub collect_object : Manager → ObjectKey → Option Object → Bool × Manager
collect_object m key none = (false, m)
collect_object m key (some object) =
    if not object.signaled || not object.parent_reaped || object.handle_references /= 0
    then (false, m)
    else (
      true,
      record (put m key.slot no_object) { retained_objects = count_down m.retained_objects },
    )

unfoldable pub collect_if_unreferenced : Manager → ObjectKey → Bool × Manager
collect_if_unreferenced m key = collect_object m key (find m key)

-- The first object that is free, where the scan stands at `slot`.
unfoldable pub find_free : ℕ → List Object → Option ℕ
find_free slot [] = none
find_free slot (object ∷ rest) = if object.used then find_free (slot + 1) rest else some slot

abbrev pub new_object : ℕ → ℕ → ℕ → ℤ → Object
new_object slot generation parent_pid task_slot = record no_object {
  used = true;
  generation = generation;
  slot = slot;
  task_slot = task_slot;
  pid = encode_pid slot generation;
  parent_pid = parent_pid;
}

abbrev pub create_at : Manager → ℕ → ℤ → Option ℕ → Option (ObjectKey × ℕ × Manager)
create_at m parent_pid task_slot none = none
create_at m parent_pid task_slot (some slot) =
    let generation = next_generation (get_or m.generations slot 0) in
    let object = new_object slot generation parent_pid task_slot in
    some (
      key_for object,
      object.pid,
      record {
        objects = set m.objects slot object;
        generations = set m.generations slot generation;
        live_objects = u32 (m.live_objects + 1);
        retained_objects = u32 (m.retained_objects + 1);
      },
    )

-- The key, the pid and the new state.
unfoldable pub create : Manager → ℕ → ℤ → Option (ObjectKey × ℕ × Manager)
create m parent_pid task_slot = create_at m parent_pid task_slot (find_free 0 m.objects)

abbrev pub destroy_object : Manager → ObjectKey → Option Object → Bool × Manager
destroy_object m key none = (false, m)
destroy_object m key (some object) =
    if object.signaled || object.handle_references /= 0 then (false, m) else (
      true,
      record (put m key.slot no_object) {
        live_objects = count_down m.live_objects;
        retained_objects = count_down m.retained_objects;
      },
    )

unfoldable pub destroy_unstarted : Manager → ObjectKey → Bool × Manager
destroy_unstarted m key = destroy_object m key (find m key)

abbrev pub retain_object : Manager → ObjectKey → Option Object → Bool × Manager
retain_object m key none = (false, m)
retain_object m key (some object) =
    if object.handle_references == 0xffff_ffff
    then (false, m)
    else (true, put m key.slot (record object { handle_references = object.handle_references + 1 }))

unfoldable pub retain : Manager → ObjectKey → Bool × Manager
retain m key = retain_object m key (find m key)

abbrev pub release_object : Manager → ObjectKey → Option Object → Bool × Manager
release_object m key none = (false, m)
release_object m key (some object) =
    if object.handle_references == 0
    then (false, m)
    else let released = record object { handle_references = object.handle_references - 1 } in
      (true, (collect_if_unreferenced (put m key.slot released) key).1)

unfoldable pub release : Manager → ObjectKey → Bool × Manager
release m key = release_object m key (find m key)

abbrev pub is_running : TerminationReason → Bool
is_running running = true
is_running exited = false
is_running faulted = false
is_running cancelled = false

-- The object as `terminate` leaves it.
abbrev pub terminated : Object → ℕ → ℕ → ℕ → ℕ → TerminationReason → Object
terminated object exit_code fault_vector runtime_ticks context_switches reason = record object {
  signaled = true;
  exit_code = exit_code;
  fault_vector = fault_vector;
  runtime_ticks = runtime_ticks;
  context_switches = context_switches;
  reason = reason;
  parent_reaped = if object.parent_pid == 0 then true else object.parent_reaped;
}

abbrev pub terminate_object :
    Manager → ObjectKey → ℕ → ℕ → ℕ → ℕ → TerminationReason → Option Object → Bool × Manager
terminate_object m key exit_code fault_vector runtime_ticks context_switches reason none =
    (false, m)
terminate_object m key exit_code fault_vector runtime_ticks context_switches reason (some object) =
    if object.signaled || is_running reason
    then (false, m)
    else let ended =
        terminated object exit_code fault_vector runtime_ticks context_switches reason in
      let m' = record (put m key.slot ended) { live_objects = count_down m.live_objects } in
      (true, (collect_if_unreferenced m' key).1)

unfoldable pub terminate : Manager → ObjectKey → ℕ → ℕ → ℕ → ℕ → TerminationReason → Bool × Manager
terminate m key exit_code fault_vector runtime_ticks context_switches reason =
    terminate_object m key exit_code fault_vector runtime_ticks context_switches reason (find m key)

abbrev pub reap_object : Manager → ObjectKey → ℕ → Option Object → Bool × Manager
reap_object m key parent_pid none = (false, m)
reap_object m key parent_pid (some object) =
    if not object.signaled || object.parent_reaped || object.parent_pid /= parent_pid
    then (false, m)
    else let reaped = record object { parent_reaped = true } in
      (true, (collect_if_unreferenced (put m key.slot reaped) key).1)

unfoldable pub reap_parent : Manager → ObjectKey → ℕ → Bool × Manager
reap_parent m key parent_pid = reap_object m key parent_pid (find m key)

-- One round of the loop of `reparent`.
unfoldable pub reparent_slot : Manager → ℕ → ℕ → ℕ → Bool × Manager
reparent_slot m old_parent_pid new_parent_pid slot =
    let object = object_at m slot in
    if not object.used || object.parent_pid /= old_parent_pid
    then (false, m)
    else let moved = record object { parent_pid = new_parent_pid } in
      let orphan = record moved { parent_reaped = true } in
      if new_parent_pid == 0 && object.signaled
      then (true, (collect_if_unreferenced (put m slot orphan) (key_for orphan)).1)
      else (true, put m slot moved)

-- The rounds that are left, from `slot` on.
unfoldable pub reparent_from : ℕ → Manager → ℕ → ℕ → ℕ → Bool → Bool × Manager
reparent_from zero m old_parent_pid new_parent_pid slot changed = (changed, m)
reparent_from (suc rounds) m old_parent_pid new_parent_pid slot changed =
    let (hit, m') = reparent_slot m old_parent_pid new_parent_pid slot in
    reparent_from rounds m' old_parent_pid new_parent_pid (slot + 1) (changed || hit)

unfoldable pub reparent : Manager → ℕ → ℕ → Bool × Manager
reparent m old_parent_pid new_parent_pid =
    reparent_from object_capacity m old_parent_pid new_parent_pid 0 false

unfoldable pub first_child_in : List Object → ℕ → Bool → Option Object
first_child_in [] parent_pid signaled_only = none
first_child_in (object ∷ rest) parent_pid signaled_only =
    if not object.used
      || object.parent_pid /= parent_pid
      || object.parent_reaped
      || (signaled_only && not object.signaled)
    then first_child_in rest parent_pid signaled_only
    else some object

unfoldable pub first_child : Manager → ℕ → Bool → Option Object
first_child m parent_pid signaled_only = first_child_in m.objects parent_pid signaled_only

-- The generations survive, so that old keys stay dead.
unfoldable pub reset : Manager → Manager
reset m = record {
  objects = replicate object_capacity no_object;
  generations = m.generations;
  live_objects = 0;
  retained_objects = 0;
}
