-- ===== src/Process/Handles/Allocation.antt =====
-- What `allocate`, `resolve` and `close` of kernel/parts/process_handles.inc do together.
use zenov_os.Prelude.{
  ℕ, ◌+◌, ◌-◌, ◌<◌, ◌≡◌, ◌≢◌, refl, sym, ap, ◌∙◌, Option, none, some, arith, Bool, true, false, not,
  ◌||◌, ◌⊎◌, inl, inr, get_or, length, length-set, get_or-set_self, count_if, count_if-le,
  count_if-set, Bool-cases, ◌==◌, ◌/=◌, bit_and, ◌↔◌,
}
use zenov_os.Process.Handles.{
  Entry, Table, ObjectKey, no_entry, key_valid, find_free, fill, allocate_at, allocate, resolve_at,
  resolve, encode, next_generation, active_count, rights_none,
}
use zenov_os.Process.Handles.Codec.{decode-encode, encode-ne_zero, next_generation_bounds}
use zenov_os.Process.Handles.Invariant.{IsValid, find_free-some, find_free-none, free_index-lt}

-- The arguments that `allocate` accepts.
abbrev pub accepts : ObjectKey → ℕ → Bool
accepts k r = not (not (key_valid k) || r == 0 || bit_and r rights_none /= 0)

allocate_accepted :
    (t : Table) (k : ObjectKey) (r : ℕ)
    → accepts k r ≡ true
    → allocate t k r ≡ allocate_at t k r (find_free 0 t.entries)
unfolding allocate
allocate_accepted t k r a = ground arith

pub allocate_rejected :
    (t : Table) (k : ObjectKey) (r : ℕ) → accepts k r ≡ false → allocate t k r ≡ (0, t)
unfolding allocate
allocate_rejected t k r a = ground arith

abbrev new_entry : ObjectKey → ℕ → ℕ → Entry
new_entry k r g = record { used = true; rights = r; generation = g; object = k }

resolve_at-fill :
    (t : Table) (k : ObjectKey) (r q i g : ℕ)
    → i < length t.entries
    → key_valid k ≡ true
    → bit_and r q ≡ q
    → resolve_at (fill t k r i g) q (some (i, g)) ≡ some k
resolve_at-fill t k r q i g h kv sub =
    rw (get_or-set_self t.entries i (new_entry k r g) no_entry h) (ground arith)

-- The three ways a call of `allocate` goes.
pub data Outcome (t : Table) (k : ObjectKey) (r : ℕ) : Type 0 where
  refused : accepts k r ≡ false → allocate t k r ≡ (0, t) → Outcome t k r
  full :
      count_if (λ (x : Entry). x.used) t.entries ≡ length t.entries
      → allocate t k r ≡ (0, t)
      → Outcome t k r
  granted :
      (i : ℕ)
      → i < 8
      → (get_or t.entries i no_entry).used ≡ false
      → accepts k r ≡ true
      → allocate t k r ≡ (
        encode i (next_generation (get_or t.generations i 0)),
        fill t k r i (next_generation (get_or t.generations i 0)),
      )
      → Outcome t k r

allocate-Outcome_at :
    (t : Table) (k : ObjectKey) (r : ℕ) (o : Option ℕ)
    → IsValid t
    → accepts k r ≡ true
    → find_free 0 t.entries ≡ o
    → Outcome t k r
allocate-Outcome_at t k r none v a e =
    full (find_free-none 0 t.entries e) (allocate_accepted t k r a ∙ ap (allocate_at t k r) e)
allocate-Outcome_at t k r (some i) v a e =
    granted i (free_index-lt t i v e)
      (let d : i - 0 ≡ i = omega arith in rw d at (find_free-some 0 t.entries i e).2) a
      (allocate_accepted t k r a ∙ ap (allocate_at t k r) e)

pub allocate-Outcome : (t : Table) (k : ObjectKey) (r : ℕ) → IsValid t → Outcome t k r
allocate-Outcome t k r v = elim (Bool-cases (accepts k r)) [
  | inl a ↦ allocate-Outcome_at t k r (find_free 0 t.entries) v a refl
  | inr a ↦ refused a (allocate_rejected t k r a)
]

pub granted-ne_zero :
    (t : Table) (i : ℕ) → i < 8 → encode i (next_generation (get_or t.generations i 0)) ≢ 0
granted-ne_zero t i h =
    let bounds = next_generation_bounds (get_or t.generations i 0) in
    encode-ne_zero i _ h bounds.0 bounds.1

-- A handle that `allocate` returns, if it is not 0, resolves to the object that it was made for,
-- with every set of rights that the granted rights contain.
pub resolve-allocate :
    (t : Table) (k : ObjectKey) (r q : ℕ)
    → IsValid t
    → (allocate t k r).0 ≢ 0
    → bit_and r q ≡ q
    → resolve (allocate t k r).1 (allocate t k r).0 q ≡ some k
unfolding resolve
resolve-allocate t k r q v nz sub = elim (allocate-Outcome t k r v) [
  | refused a e ↦ absurd (nz (ap (λ (x : ℕ × Table). x.0) e))
  | full c e ↦ absurd (nz (ap (λ (x : ℕ × Table). x.0) e))
  | granted i room free a e ↦
      let bounds = next_generation_bounds (get_or t.generations i 0) in
      rw (e, decode-encode i _ room bounds.0 bounds.1)
        (resolve_at-fill t k r q i _ (omega (arith, v.entries_full)) (ground arith) sub)
]

open_after :
    (t : Table) (k : ObjectKey) (r i g : ℕ)
    → IsValid t
    → i < 8
    → (get_or t.entries i no_entry).used ≡ false
    → active_count (fill t k r i g) ≡ active_count t + 1
unfolding active_count
open_after t k r i g v h free = ground (
  arith,
  count_if-set (λ (x : Entry). x.used) t.entries i (new_entry k r g) no_entry
      (omega (arith, v.entries_full)),
)

some_room :
    (t : Table) (k : ObjectKey) (r i : ℕ)
    → IsValid t
    → i < 8
    → (get_or t.entries i no_entry).used ≡ false
    → accepts k r ≡ true
    → (accepts k r ≡ false) ⊎ (active_count t ≡ 8)
    → ⊥
unfolding active_count
some_room t k r i v h free a (inl no_way) = cc
some_room t k r i v h free a (inr c) = omega (
  arith,
  open_after t k r i 0 v h free,
  count_if-le (λ (x : Entry). x.used) (fill t k r i 0).entries,
  length-set t.entries i (new_entry k r 0),
  v.entries_full,
)

-- On a valid table `allocate` returns 0 exactly when it does not accept its arguments or all eight
-- entries are in use.
pub allocate-eq-zero_iff :
    (t : Table) (k : ObjectKey) (r : ℕ)
    → IsValid t
    → ((allocate t k r).0 ≡ 0) ↔ ((accepts k r ≡ false) ⊎ (active_count t ≡ 8))
unfolding active_count
allocate-eq-zero_iff t k r v = elim (allocate-Outcome t k r v) [
  | refused a e ↦ (λ h. inl a, λ h. ap (λ (x : ℕ × Table). x.0) e)
  | full c e ↦ (λ h. inr (c ∙ v.entries_full), λ h. ap (λ (x : ℕ × Table). x.0) e)
  | granted i room free a e ↦ (
    λ h. absurd (granted-ne_zero t i room (sym (ap (λ (x : ℕ × Table). x.0) e) ∙ h)),
    λ h. absurd (some_room t k r i v room free a h),
  )
]

-- A successful `allocate` adds one to the count of open handles, and one that returns 0 leaves the
-- table as it was.
pub active_count-allocate :
    (t : Table) (k : ObjectKey) (r : ℕ)
    → IsValid t
    → (((allocate t k r).0 ≢ 0) × (active_count (allocate t k r).1 ≡ active_count t + 1))
      ⊎ (((allocate t k r).0 ≡ 0) × ((allocate t k r).1 ≡ t))
active_count-allocate t k r v = elim (allocate-Outcome t k r v) [
  | refused a e ↦ inr (ap (λ (x : ℕ × Table). x.0) e, ap (λ (x : ℕ × Table). x.1) e)
  | full c e ↦ inr (ap (λ (x : ℕ × Table). x.0) e, ap (λ (x : ℕ × Table). x.1) e)
  | granted i room free a e ↦
      rw e (inl (granted-ne_zero t i room, open_after t k r i _ v room free))
]
