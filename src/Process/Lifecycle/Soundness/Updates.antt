-- ===== src/Process/Lifecycle/Soundness/Updates.antt =====
-- The invariant of the object manager of kernel/parts/process_lifecycle.inc, and the effect of one
-- write on it.
use zenov_os.Prelude.{
  ℕ, ◌+◌, ◌<◌, ◌≡◌, ◌≢◌, refl, sym, ap, ◌∙◌, some, arith, List, Bool, true, false, not, ◌&&◌,
  get_or, set, length, length-set, get_or-set_self, get_or-set_ne, get_or-replicate, count_if,
  count_if-set, to_nat, ℕ_discrete, ◌==◌,
}
use zenov_os.Process.Handles.{ObjectKey, key_valid}
use zenov_os.Process.Lifecycle.{Object, Manager, no_object, initial, encode_pid, find, object_at}

-- An object in use at a slot, against the generation counter of the slot.
pub record IsObject (slot counter : ℕ) (object : Object) : Type 0 where
  pub placed : object.slot ≡ slot
  pub current : object.generation ≡ counter
  pub positive : 0 < counter
  pub numbered : object.pid ≡ encode_pid slot counter

abbrev pub is_used : Object → Bool
is_used object = object.used

abbrev pub is_live : Object → Bool
is_live object = object.used && not object.signaled

-- Ended, reaped by the parent, and named by no handle: such an object is collected.
abbrev pub is_garbage : Object → Bool
is_garbage object =
    object.used && object.signaled && object.parent_reaped && object.handle_references == 0

pub record IsSound (m : Manager) : Type 0 where
  pub objects_full : length m.objects ≡ 16
  pub generations_full : length m.generations ≡ 16
  pub bounded : (i : ℕ) → get_or m.generations i 0 < 65536
  pub each :
      (i : ℕ) → (object_at m i).used ≡ true → IsObject i (get_or m.generations i 0) (object_at m i)
  pub retained : m.retained_objects ≡ count_if is_used m.objects
  pub live : m.live_objects ≡ count_if is_live m.objects

pub record IsValid (m : Manager) : Type 0 where
  pub sound : IsSound m
  pub clean : (i : ℕ) → is_garbage (object_at m i) ≡ false

-- What a write must keep for the invariant.
pub record IsUpdate (m : Manager) (i : ℕ) (object : Object) (gs : List ℕ) (l r : ℕ) : Type 0 where
  pub in_range : i < 16
  pub length_kept : length gs ≡ 16
  pub gs_bounded : (j : ℕ) → get_or gs j 0 < 65536
  pub gs_kept : (j : ℕ) → i ≢ j → get_or gs j 0 ≡ get_or m.generations j 0
  pub fits : object.used ≡ true → IsObject i (get_or gs i 0) object
  pub retained_moved :
      r + to_nat (is_used (object_at m i)) ≡ m.retained_objects + to_nat (is_used object)
  pub live_moved : l + to_nat (is_live (object_at m i)) ≡ m.live_objects + to_nat (is_live object)

abbrev pub updated : Manager → ℕ → Object → List ℕ → ℕ → ℕ → Manager
updated m i object gs l r = record {
  objects = set m.objects i object;
  generations = gs;
  live_objects = l;
  retained_objects = r;
}

module _ {m : Manager} {i : ℕ} {object : Object} {gs : List ℕ} {l r : ℕ} (v : IsSound m)
    (u : IsUpdate m i object gs l r) where
  each_updated :
      (j : ℕ)
      → (object_at (updated m i object gs l r) j).used ≡ true
      → IsObject j (get_or gs j 0) (object_at (updated m i object gs l r) j)
  each_updated j e = elim (ℕ_discrete i j) [
    | yes same ↦
        let here =
          get_or-set_self m.objects i object no_object
            (omega (arith, v.objects_full, u.in_range)) in
        rw (← same) (rw here (u.fits (ap is_used (sym here) ∙ rw (← same) at e)))
    | no other ↦
        let there = get_or-set_ne m.objects i j object no_object other in
        rw (there, u.gs_kept j other) (v.each j (rw there at e))
  ]

  pub updated-IsSound : IsSound (updated m i object gs l r)
  updated-IsSound = record {
    objects_full = length-set m.objects i object ∙ v.objects_full;
    generations_full = u.length_kept;
    bounded = u.gs_bounded;
    each = each_updated;
    retained = omega (
      arith,
      v.retained,
      u.retained_moved,
      count_if-set is_used m.objects i object no_object (omega (arith, v.objects_full, u.in_range)),
    );
    live = omega (
      arith,
      v.live,
      u.live_moved,
      count_if-set is_live m.objects i object no_object (omega (arith, v.objects_full, u.in_range)),
    );
  }

-- An object that is found.
pub record IsFound (m : Manager) (key : ObjectKey) (object : Object) : Type 0 where
  pub in_range : key.slot < 16
  pub there : object ≡ object_at m key.slot
  pub in_use : object.used ≡ true
  pub matches : object.generation ≡ key.generation
  pub keyed : key_valid key ≡ true

pub find-IsFound :
    (m : Manager) (key : ObjectKey) (object : Object)
    → find m key ≡ some object
    → IsFound m key object
unfolding find
find-IsFound m key object h = ground arith

pub IsFound-find :
    (m : Manager) (key : ObjectKey) (object : Object)
    → IsFound m key object
    → find m key ≡ some object
unfolding find
IsFound-find m key object h = ground arith

-- A write of a clean object leaves the manager clean, if all other slots are.
pub clean-set :
    (m : Manager) (i : ℕ) (object : Object)
    → i < length m.objects
    → ((j : ℕ) → i ≢ j → is_garbage (object_at m j) ≡ false)
    → is_garbage object ≡ false
    → (j : ℕ) → is_garbage (get_or (set m.objects i object) j no_object) ≡ false
clean-set m i object h others c j = elim (ℕ_discrete i j) [
  | yes same ↦ rw (← same) (ap is_garbage (get_or-set_self m.objects i object no_object h) ∙ c)
  | no other ↦ ap is_garbage (get_or-set_ne m.objects i j object no_object other) ∙ others j other
]

pub initial-IsValid : IsValid initial
initial-IsValid = record {
  sound = record {
    objects_full = refl;
    generations_full = refl;
    bounded = λ i. rw (get_or-replicate {A = ℕ} 16 i 0) (omega arith);
    each = λ i u. cc (u, ap is_used (get_or-replicate 16 i no_object));
    retained = refl;
    live = refl;
  };
  clean = λ i. ap is_garbage (get_or-replicate 16 i no_object);
}
