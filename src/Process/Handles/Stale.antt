-- ===== src/Process/Handles/Stale.antt =====
-- Histories of a handle table of kernel/parts/process_handles.inc, and what becomes of a handle
-- after its `close`.
use zenov_os.Prelude.{
  ℕ, suc, ◌+◌, ◌-◌, ◌%◌, ◌<◌, ◌≤◌, ◌≡◌, ◌≢◌, ap, ◌∙◌, Option, none, some, arith, List, [], ◌∷◌,
  true, false, inl, inr, get_or, set, get_or-set_self, get_or-set_ne, get_or-set_default,
  ℕ_discrete, Option-cases,
}
use zenov_os.Process.Handles.{
  Entry, Table, ObjectKey, no_entry, fill, allocate, resolve_at, resolve, close, decode,
  next_generation,
}
use zenov_os.Process.Handles.Codec.{decode_bounds}
use zenov_os.Process.Handles.Invariant.{IsValid, allocate-IsValid, close-IsValid}
use zenov_os.Process.Handles.Allocation.{refused, full, granted, allocate-Outcome}

pub data Call : Type 0 where
  allocates : ObjectKey → ℕ → Call
  closes : ℕ → Call

abbrev after_close : Table → Option (ObjectKey × Table) → Table
after_close t none = t
after_close t (some (k, t')) = t'

-- A call that fails leaves the table as it was.
pub step : Table → Call → Table
step t (allocates k r) = (allocate t k r).1
step t (closes h) = after_close t (close t h)

pub run : Table → List Call → Table
run t [] = t
run t (c ∷ cs) = run (step t c) cs

abbrev is_allocation : Call → ℕ
is_allocation (allocates k r) = 1
is_allocation (closes h) = 0

abbrev pub allocations : List Call → ℕ
allocations [] = 0
allocations (c ∷ cs) = is_allocation c + allocations cs

pub step-IsValid : (t : Table) (c : Call) → IsValid t → IsValid (step t c)
unfolding step
step-IsValid t (allocates k r) v = allocate-IsValid t k r v
step-IsValid t (closes h) v = elim (Option-cases (close t h)) [
  | inl e ↦ rw e v
  | inr ((k, t'), e) ↦ rw e (close-IsValid t h k t' v e)
]

-- Every history of calls keeps the table valid.
pub run-IsValid : (t : Table) (cs : List Call) → IsValid t → IsValid (run t cs)
unfolding run
run-IsValid t [] v = v
run-IsValid t (c ∷ cs) v = run-IsValid (step t c) cs (step-IsValid t c v)

-- The counter of index `i` stands `m` generations behind a handle's generation `g`, counted round
-- the 65535 generations.
record IsPast (t : Table) (i g m : ℕ) : Type 0 where
  counter : get_or t.generations i 0 ≡ (g - 1 + m) % 65535 + 1
  unused : m ≡ 0 → (get_or t.entries i no_entry).used ≡ false

next_generation_cycle : (x : ℕ) → 0 < x → x < 65536 → next_generation x ≡ x % 65535 + 1
unfolding next_generation
next_generation_cycle x h h' = ground arith

abbrev Ago : Table → ℕ → ℕ → ℕ → Type 0
Ago t i g n = (m : ℕ) × (m ≤ n) × IsPast t i g m

counter_advance :
    (t : Table) (i g m : ℕ)
    → IsValid t
    → i < 8
    → IsPast t i g m
    → get_or (set t.generations i (next_generation (get_or t.generations i 0))) i 0
      ≡ (g - 1 + suc m) % 65535 + 1
counter_advance t i g m v h past =
    get_or-set_self t.generations i _ 0 (omega (arith, v.generations_full))
    ∙ next_generation_cycle (get_or t.generations i 0) (omega arith) (v.bounded i)
    ∙ omega arith

fill-Ago :
    (t : Table) (k : ObjectKey) (r i g n j : ℕ)
    → IsValid t
    → i < 8
    → Ago t i g n
    → Ago (fill t k r j (next_generation (get_or t.generations j 0))) i g (suc n)
fill-Ago t k r i g n j v hi (m, le, past) = elim (ℕ_discrete j i) [
  | yes e ↦ (
    suc m,
    omega arith,
    record {
      counter = rw e (counter_advance t i g m v hi past);
      unused = λ z. absurd (omega arith);
    },
  )
  | no d ↦ (
    m,
    omega arith,
    record {
      counter = get_or-set_ne t.generations j i _ 0 d ∙ past.counter;
      unused = λ z.
          ap (λ (x : Entry). x.used) (get_or-set_ne t.entries j i _ no_entry d) ∙ past.unused z;
    },
  )
]

clear-Ago :
    (t : Table) (i g n j : ℕ)
    → Ago t i g n
    → Ago (record t { entries = set t.entries j no_entry }) i g n
clear-Ago t i g n j (m, le, past) =
    (m, le, record { counter = past.counter; unused = λ z. kept z (ℕ_discrete j i) })
  where
    kept : m ≡ 0 → Dec (j ≡ i) → (get_or (set t.entries j no_entry) i no_entry).used ≡ false
    kept z (yes e) = rw e (ap (λ (x : Entry). x.used) (get_or-set_default t.entries i no_entry))
    kept z (no d) = rw (get_or-set_ne t.entries j i no_entry no_entry d) (past.unused z)

close-clears :
    (t : Table) (h : ℕ) (k : ObjectKey) (t' : Table)
    → close t h ≡ some (k, t')
    → (i : ℕ) × (g : ℕ) × (decode h ≡ some (i, g))
      × ((get_or t.entries i no_entry).used ≡ true)
      × ((get_or t.entries i no_entry).generation ≡ g)
      × (t' ≡ record t { entries = set t.entries i no_entry })
unfolding close
close-clears t h k t' e = elim (Option-cases (decode h)) [
  | inl d ↦ cc (rw d at e)
  | inr ((i, g), d) ↦ ground (arith, rw d at e)
]

step-Ago :
    (t : Table) (c : Call) (i g n : ℕ)
    → IsValid t
    → i < 8
    → Ago t i g n
    → Ago (step t c) i g (is_allocation c + n)
unfolding step
step-Ago t (allocates k r) i g n v hi past = elim (allocate-Outcome t k r v) [
  | refused a e ↦ rw (e, step) (past.0, omega (arith, past.1), past.2)
  | full c e ↦ rw (e, step) (past.0, omega (arith, past.1), past.2)
  | granted j hj free a e ↦
      let (m, le, then_past) = fill-Ago t k r i g n j v hi past in
      rw (e, step) (m, omega arith, then_past)
]
step-Ago t (closes h) i g n v hi past = elim (Option-cases (close t h)) [
  | inl e ↦ rw (e, step) (past.0, omega (arith, past.1), past.2)
  | inr ((k, t'), e) ↦
      let (j, g', d, u, c, changed) = close-clears t h k t' e in
      let (m, le, then_past) = clear-Ago t i g n j past in
      rw (e, step, changed) (m, omega arith, then_past)
]

run-Ago :
    (t : Table) (cs : List Call) (i g n : ℕ)
    → IsValid t
    → i < 8
    → Ago t i g n
    → Ago (run t cs) i g (allocations cs + n)
unfolding run
run-Ago t [] i g n v hi past = (past.0, omega (arith, past.1), past.2)
run-Ago t (c ∷ cs) i g n v hi past =
    let (m, le, then_past) =
      run-Ago (step t c) cs i g (is_allocation c + n) (step-IsValid t c v) hi
        (step-Ago t c i g n v hi past) in
    (m, omega arith, then_past)

-- A used entry carries the counter of its index, which has moved on.
moved_on :
    (t : Table) (i g m : ℕ)
    → IsValid t
    → 0 < g
    → g < 65536
    → m < 65535
    → IsPast t i g m
    → (get_or t.entries i no_entry).used ≡ true
    → (get_or t.entries i no_entry).generation ≢ g
moved_on t i g m v gp gb small past u e = elim (ℕ_discrete m 0) [
  | yes z ↦ cc (u, past.unused z)
  | no nz ↦ omega (arith, (v.live i u).current, past.counter)
]

unresolvable :
    (t : Table) (i g q m : ℕ)
    → IsValid t
    → 0 < g
    → g < 65536
    → m < 65535
    → IsPast t i g m
    → resolve_at t q (some (i, g)) ≡ none
unresolvable t i g q m v gp gb small past = ground (arith, moved_on t i g m v gp gb small past)

close-Ago :
    (t t' : Table) (i g : ℕ)
    → IsValid t
    → 0 < g
    → g < 65536
    → (get_or t.entries i no_entry).used ≡ true
    → (get_or t.entries i no_entry).generation ≡ g
    → t' ≡ record t { entries = set t.entries i no_entry }
    → Ago t' i g 0
close-Ago t t' i g v gp gb u c changed = rw changed (
  0,
  omega arith,
  record {
    counter = omega (arith, (v.live i u).current);
    unused = λ z. ap (λ (x : Entry). x.used) (get_or-set_default t.entries i no_entry);
  },
)

-- On a valid table, a handle that was closed resolves to nothing after any history of calls with
-- fewer than 65535 allocations, also where its entry has been given to other objects.
pub resolve-close :
    (t t' : Table) (h q : ℕ) (k : ObjectKey) (cs : List Call)
    → IsValid t
    → close t h ≡ some (k, t')
    → allocations cs < 65535
    → resolve (run t' cs) h q ≡ none
unfolding resolve
resolve-close t t' h q k cs v e few =
    let (i, g, d, u, c, changed) = close-clears t h k t' e in
    let (hi, gp, gb) = decode_bounds h i g d in
    let v' = close-IsValid t h k t' v e in
    let (m, le, past) = run-Ago t' cs i g 0 v' hi (close-Ago t t' i g v gp gb u c changed) in
    rw d (unresolvable (run t' cs) i g q m (run-IsValid t' cs v') gp gb (omega arith) past)
