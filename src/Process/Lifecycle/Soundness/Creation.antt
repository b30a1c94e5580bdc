-- ===== src/Process/Lifecycle/Soundness/Creation.antt =====
-- `create` and `reset` of kernel/parts/process_lifecycle.inc keep the invariant.
use zenov_os.Prelude.{
  ℕ, suc, ◌+◌, ◌-◌, ◌<◌, ◌≤◌, ◌≡◌, refl, ap, subst, ◌∙◌, Option, none, some, arith, List, [], ◌∷◌,
  false, inl, inr, get_or, set, length, length-set, get_or-set_self, get_or-set_ne,
  get_or-replicate, count_if, count_if-le, ℕ_discrete, Bool-cases, u32,
}
use zenov_os.Process.Handles.{ObjectKey}
use zenov_os.Prelude.Int.{ℤ}
use zenov_os.Process.Lifecycle.{
  Object, Manager, no_object, object_at, find_free, create, create_at, new_object, next_generation,
  reset,
}
use zenov_os.Process.Lifecycle.Pids.{next_generation_bounds}
use zenov_os.Process.Lifecycle.Soundness.Updates.{
  IsSound, IsValid, is_used, is_live, is_garbage, updated-IsSound, clean-set,
}

-- The scan stops at the first free object.
pub find_free-some :
    (k : ℕ) (xs : List Object) (i : ℕ)
    → find_free k xs ≡ some i
    → (k ≤ i) × (i < k + length xs) × ((get_or xs (i - k) no_object).used ≡ false)
unfolding find_free
find_free-some k [] i h = cc
find_free-some k (x ∷ xs) i h = elim (Bool-cases x.used) [
  | inl busy ↦ later (find_free-some (k + 1) xs i (ground arith))
  | inr free ↦ here free (ground arith)
]
  where
    later :
        (k + 1 ≤ i) × (i < k + 1 + length xs) × ((get_or xs (i - (k + 1)) no_object).used ≡ false)
        → (k ≤ i) × (i < k + suc (length xs)) × ((get_or (x ∷ xs) (i - k) no_object).used ≡ false)
    later (a, b, c) =
        let e : i - k ≡ suc (i - (k + 1)) = omega arith in (omega arith, omega arith, rw e c)

    here :
        x.used ≡ false
        → k ≡ i
        → (k ≤ i) × (i < k + suc (length xs)) × ((get_or (x ∷ xs) (i - k) no_object).used ≡ false)
    here free e = let d : i - k ≡ 0 = omega arith in (omega arith, omega arith, rw d free)

-- It fails only where every object is in use.
pub find_free-none :
    (k : ℕ) (xs : List Object) → find_free k xs ≡ none → count_if is_used xs ≡ length xs
unfolding find_free
find_free-none k [] h = refl
find_free-none k (x ∷ xs) h = ground (arith, find_free-none (k + 1) xs)

pub free_slot :
    (m : Manager) (i : ℕ)
    → IsSound m
    → find_free 0 m.objects ≡ some i
    → (i < 16) × ((object_at m i).used ≡ false)
free_slot m i v h =
    let (a, b, c) = find_free-some 0 m.objects i h in
    let d : i - 0 ≡ i = omega arith in (omega (arith, v.objects_full), rw d at c)

abbrev pub created : Manager → ℕ → ℤ → ℕ → ℕ → Manager
created m parent task i g = record {
  objects = set m.objects i (new_object i g parent task);
  generations = set m.generations i g;
  live_objects = u32 (m.live_objects + 1);
  retained_objects = u32 (m.retained_objects + 1);
}

created-IsSound :
    (m : Manager) (parent : ℕ) (task : ℤ) (i g : ℕ)
    → IsSound m
    → i < 16
    → (object_at m i).used ≡ false
    → 0 < g
    → g < 65536
    → IsSound (created m parent task i g)
created-IsSound m parent task i g v h free gp gb = updated-IsSound v (record {
  in_range = h;
  length_kept = length-set m.generations i g ∙ v.generations_full;
  gs_bounded = gs_bounded;
  gs_kept = λ j d. get_or-set_ne m.generations i j g 0 d;
  fits = λ u. rw at_i (record { placed = refl; current = refl; positive = gp; numbered = refl });
  retained_moved = ground (arith, free, v.retained, v.objects_full, count_if-le is_used m.objects);
  live_moved = ground (arith, free, v.live, v.objects_full, count_if-le is_live m.objects);
})
  where
    at_i : get_or (set m.generations i g) i 0 ≡ g
    at_i = get_or-set_self m.generations i g 0 (omega (arith, h, v.generations_full))

    gs_bounded : (j : ℕ) → get_or (set m.generations i g) j 0 < 65536
    gs_bounded j = elim (ℕ_discrete i j) [
      | yes same ↦ rw (← same) (rw at_i gb)
      | no other ↦ rw (get_or-set_ne m.generations i j g 0 other) (v.bounded j)
    ]

pub created-IsValid :
    (m : Manager) (parent : ℕ) (task : ℤ) (i g : ℕ)
    → IsValid m
    → i < 16
    → (object_at m i).used ≡ false
    → 0 < g
    → g < 65536
    → IsValid (created m parent task i g)
created-IsValid m parent task i g v h free gp gb = record {
  sound = created-IsSound m parent task i g v.sound h free gp gb;
  clean =
      clean-set m i (new_object i g parent task) (omega (arith, v.sound.objects_full))
        (λ j d. v.clean j) refl;
}

create_at-IsValid :
    (m : Manager) (parent : ℕ) (task : ℤ) (o : Option ℕ) (k : ObjectKey) (pid : ℕ) (m' : Manager)
    → IsValid m
    → find_free 0 m.objects ≡ o
    → create_at m parent task o ≡ some (k, pid, m')
    → IsValid m'
create_at-IsValid m parent task none k pid m' v e h = cc
create_at-IsValid m parent task (some i) k pid m' v e h =
    let (room, free) = free_slot m i v.sound e in
    let bounds = next_generation_bounds (get_or m.generations i 0) in
    let same : created m parent task i (next_generation (get_or m.generations i 0)) ≡ m' = cc h in
    subst IsValid same (created-IsValid m parent task i _ v room free bounds.0 bounds.1)

pub create-IsValid :
    (m : Manager) (parent : ℕ) (task : ℤ) (k : ObjectKey) (pid : ℕ) (m' : Manager)
    → IsValid m
    → create m parent task ≡ some (k, pid, m')
    → IsValid m'
unfolding create
create-IsValid m parent task k pid m' v h =
    create_at-IsValid m parent task (find_free 0 m.objects) k pid m' v refl h

pub reset-IsValid : (m : Manager) → IsValid m → IsValid (reset m)
unfolding reset
reset-IsValid m v = record {
  sound = record {
    objects_full = refl;
    generations_full = v.sound.generations_full;
    bounded = v.sound.bounded;
    each = λ i u. cc (u, ap is_used (get_or-replicate 16 i no_object));
    retained = refl;
    live = refl;
  };
  clean = λ i. ap is_garbage (get_or-replicate 16 i no_object);
}
