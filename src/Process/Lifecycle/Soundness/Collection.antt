-- ===== src/Process/Lifecycle/Soundness/Collection.antt =====
-- Writes through a found pointer of kernel/parts/process_lifecycle.inc, and the collection that
-- follows them, keep the invariant.
use zenov_os.Prelude.{
  ℕ, ◌+◌, ◌≤◌, ◌≡◌, ◌≢◌, refl, sym, ap, ◌∙◌, arith, true, false, inl, inr, get_or, set,
  get_or-set_self, get_or-set_ne, count_if-set, to_nat, ℕ_discrete, Bool-cases, if◌then◌else◌,
}
use zenov_os.Process.Handles.{ObjectKey}
use zenov_os.Process.Lifecycle.{
  Object, Manager, no_object, object_at, collect_if_unreferenced, count_down,
}
use zenov_os.Process.Lifecycle.Soundness.Updates.{
  IsObject, IsSound, IsValid, IsFound, is_used, is_live, is_garbage, updated, updated-IsSound,
  IsFound-find, clean-set,
}

-- The object that a write leaves behind keeps its identity.
pub record IsSame (o o' : Object) : Type 0 where
  pub still_used : o'.used ≡ true
  pub slot_kept : o'.slot ≡ o.slot
  pub generation_kept : o'.generation ≡ o.generation
  pub pid_kept : o'.pid ≡ o.pid

-- The counters of a manager with `l` live objects and its other counter kept.
abbrev pub rewritten : Manager → ℕ → Object → ℕ → Manager
rewritten m i o' l = updated m i o' m.generations l m.retained_objects

module _ {m : Manager} {key : ObjectKey} {o o' : Object} {l : ℕ} (v : IsValid m)
    (f : IsFound m key o) (same : IsSame o o')
    (live : l + to_nat (is_live o) ≡ m.live_objects + to_nat (is_live o')) where
  pub rewritten-IsSound : IsSound (rewritten m key.slot o' l)
  rewritten-IsSound = updated-IsSound v.sound (record {
    in_range = f.in_range;
    length_kept = v.sound.generations_full;
    gs_bounded = v.sound.bounded;
    gs_kept = λ j d. refl;
    fits = λ u. fits;
    retained_moved = rw (← f.there) (rw (f.in_use, same.still_used));
    live_moved = rw (← f.there) live;
  })
    where
      known : IsObject key.slot (get_or m.generations key.slot 0) o
      known = rw f.there (v.sound.each key.slot (ap is_used (sym f.there) ∙ f.in_use))

      fits : IsObject key.slot (get_or m.generations key.slot 0) o'
      fits = record {
        placed = same.slot_kept ∙ known.placed;
        current = same.generation_kept ∙ known.current;
        positive = known.positive;
        numbered = same.pid_kept ∙ known.numbered;
      }

  pub rewritten-IsFound : IsFound (rewritten m key.slot o' l) key o'
  rewritten-IsFound = record {
    in_range = f.in_range;
    there = sym (
        get_or-set_self m.objects key.slot o' no_object
          (omega (arith, f.in_range, v.sound.objects_full)));
    in_use = same.still_used;
    matches = same.generation_kept ∙ f.matches;
    keyed = f.keyed;
  }

pub rewritten_others :
    (m : Manager) (i : ℕ) (o' : Object)
    → IsValid m
    → (j : ℕ) → i ≢ j
    → is_garbage (get_or (set m.objects i o') j no_object) ≡ false
rewritten_others m i o' v j d =
    ap is_garbage (get_or-set_ne m.objects i j o' no_object d) ∙ v.clean j

-- Taking an object away.
pub removed-IsSound :
    (m : Manager) (key : ObjectKey) (o : Object) (l r : ℕ)
    → IsSound m
    → IsFound m key o
    → r + 1 ≡ m.retained_objects
    → l + to_nat (is_live o) ≡ m.live_objects
    → IsSound (updated m key.slot no_object m.generations l r)
removed-IsSound m key o l r v f er el = updated-IsSound v (record {
  in_range = f.in_range;
  length_kept = v.generations_full;
  gs_bounded = v.bounded;
  gs_kept = λ j d. refl;
  fits = λ u. cc;
  retained_moved = rw (← f.there) (rw f.in_use (omega arith));
  live_moved = rw (← f.there) (omega arith);
})

-- A found object is counted.
pub found-retained :
    (m : Manager) (key : ObjectKey) (o : Object)
    → IsSound m
    → IsFound m key o
    → 1 ≤ m.retained_objects
found-retained m key o v f = omega (
  arith,
  v.retained,
  count_if-set is_used m.objects key.slot no_object no_object
      (omega (arith, v.objects_full, f.in_range)),
  ap to_nat (ap is_used (sym f.there) ∙ f.in_use),
)

pub found-live :
    (m : Manager) (key : ObjectKey) (o : Object)
    → IsSound m
    → IsFound m key o
    → o.signaled ≡ false
    → 1 ≤ m.live_objects
found-live m key o v f s = omega (
  arith,
  v.live,
  count_if-set is_live m.objects key.slot no_object no_object
      (omega (arith, v.objects_full, f.in_range)),
  ap to_nat (ap is_live (sym f.there) ∙ alive),
)
  where
    alive : is_live o ≡ true
    alive = ground (arith, f)

abbrev pub collected : Manager → ℕ → Manager
collected m i = updated m i no_object m.generations m.live_objects (count_down m.retained_objects)

-- Of a found object, `collect_if_unreferenced` takes away exactly garbage.
pub collect_if_unreferenced_lem :
    (m : Manager) (key : ObjectKey) (o : Object)
    → IsFound m key o
    → collect_if_unreferenced m key
      ≡ (if is_garbage o then (true, collected m key.slot) else (false, m))
unfolding collect_if_unreferenced
collect_if_unreferenced_lem m key o f = rw (IsFound-find m key o f) (ground arith)

collected-IsValid :
    (m : Manager) (key : ObjectKey) (o : Object)
    → IsSound m
    → IsFound m key o
    → is_garbage o ≡ true
    → ((j : ℕ) → key.slot ≢ j → is_garbage (object_at m j) ≡ false)
    → IsValid (collected m key.slot)
collected-IsValid m key o v f g others = record {
  sound =
      removed-IsSound m key o m.live_objects (count_down m.retained_objects) v f
        (ground (arith, found-retained m key o v f)) (ground arith);
  clean = clean-set m key.slot no_object (omega (arith, v.objects_full, f.in_range)) others refl;
}

kept-IsValid :
    (m : Manager) (key : ObjectKey) (o : Object)
    → IsSound m
    → IsFound m key o
    → is_garbage o ≡ false
    → ((j : ℕ) → key.slot ≢ j → is_garbage (object_at m j) ≡ false)
    → IsValid m
kept-IsValid m key o v f g others = record {
  sound = v;
  clean = λ j. elim (ℕ_discrete key.slot j) [
    | yes same ↦ rw (← same, ← f.there) g
    | no other ↦ others j other
  ];
}

-- `collect_if_unreferenced` restores the invariant where only the key's object may break it.
pub collect-IsValid :
    (m : Manager) (key : ObjectKey) (o : Object)
    → IsSound m
    → IsFound m key o
    → ((j : ℕ) → key.slot ≢ j → is_garbage (object_at m j) ≡ false)
    → IsValid (collect_if_unreferenced m key).1
collect-IsValid m key o v f others = elim (Bool-cases (is_garbage o)) [
  | inl g ↦
      rw (collect_if_unreferenced_lem m key o f) (rw g (collected-IsValid m key o v f g others))
  | inr g ↦ rw (collect_if_unreferenced_lem m key o f) (rw g (kept-IsValid m key o v f g others))
]

-- A write that keeps the object's identity, and the collection after it.
pub rewrite_collect-IsValid :
    (m : Manager) (key : ObjectKey) (o o' : Object) (l : ℕ)
    → IsValid m
    → IsFound m key o
    → IsSame o o'
    → l + to_nat (is_live o) ≡ m.live_objects + to_nat (is_live o')
    → IsValid (collect_if_unreferenced (rewritten m key.slot o' l) key).1
rewrite_collect-IsValid m key o o' l v f same live =
    collect-IsValid (rewritten m key.slot o' l) key o' (rewritten-IsSound v f same live)
      (rewritten-IsFound v f same live) (rewritten_others m key.slot o' v)
