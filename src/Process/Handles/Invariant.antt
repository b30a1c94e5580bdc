-- ===== src/Process/Handles/Invariant.antt =====
-- What holds of a handle table of kernel/parts/process_handles.inc between two calls, and how the
-- calls keep it.
use zenov_os.Prelude.{
  ℕ, suc, ◌+◌, ◌-◌, ◌<◌, ◌≤◌, ◌≡◌, refl, Option, none, some, arith, List, [], ◌∷◌, true, false, inl,
  inr, get_or, set, length, length-set, get_or-set_self, get_or-set_ne, get_or-set_default,
  get_or-replicate, ap, ◌∙◌, count_if, ℕ_discrete, Option-cases, Bool-cases,
}
use zenov_os.Process.Handles.{
  Entry, Table, ObjectKey, no_entry, key_valid, find_free, fill, allocate_at, allocate, close,
  decode, empty_table,
}
use zenov_os.Process.Handles.Codec.{next_generation_bounds}

-- An entry in use, against the generation counter of its index.
pub record IsLive (entry : Entry) (counter : ℕ) : Type 0 where
  pub current : entry.generation ≡ counter
  pub positive : 0 < counter
  pub keyed : key_valid entry.object ≡ true

pub record IsValid (table : Table) : Type 0 where
  pub entries_full : length table.entries ≡ 8
  pub generations_full : length table.generations ≡ 8
  pub bounded : (i : ℕ) → get_or table.generations i 0 < 65536
  pub live :
      (i : ℕ)
      → (get_or table.entries i no_entry).used ≡ true
      → IsLive (get_or table.entries i no_entry) (get_or table.generations i 0)

-- The scan stops at the first free entry.
pub find_free-some :
    (k : ℕ) (xs : List Entry) (i : ℕ)
    → find_free k xs ≡ some i
    → (k ≤ i) × (i < k + length xs) × ((get_or xs (i - k) no_entry).used ≡ false)
unfolding find_free
find_free-some k [] i h = cc
find_free-some k (x ∷ xs) i h = elim (Bool-cases x.used) [
  | inl busy ↦ later (find_free-some (k + 1) xs i (ground arith))
  | inr free ↦ here free (ground arith)
]
  where
    later :
        (k + 1 ≤ i) × (i < k + 1 + length xs) × ((get_or xs (i - (k + 1)) no_entry).used ≡ false)
        → (k ≤ i) × (i < k + suc (length xs)) × ((get_or (x ∷ xs) (i - k) no_entry).used ≡ false)
    later (a, b, c) =
        let e : i - k ≡ suc (i - (k + 1)) = omega arith in (omega arith, omega arith, rw e c)

    here :
        x.used ≡ false
        → k ≡ i
        → (k ≤ i) × (i < k + suc (length xs)) × ((get_or (x ∷ xs) (i - k) no_entry).used ≡ false)
    here free e = let d : i - k ≡ 0 = omega arith in (omega arith, omega arith, rw d free)

-- It fails only where every entry is in use.
pub find_free-none :
    (k : ℕ) (xs : List Entry)
    → find_free k xs ≡ none
    → count_if (λ entry. entry.used) xs ≡ length xs
unfolding find_free
find_free-none k [] h = refl
find_free-none k (x ∷ xs) h = ground (arith, find_free-none (k + 1) xs)

fill-IsLive :
    (t : Table) (k : ObjectKey) (r i g : ℕ)
    → IsValid t
    → i < 8
    → key_valid k ≡ true
    → 0 < g
    → (j : ℕ) → (get_or (fill t k r i g).entries j no_entry).used ≡ true
    → IsLive (get_or (fill t k r i g).entries j no_entry) (get_or (fill t k r i g).generations j 0)
fill-IsLive t k r i g v h kv gp j u = elim (ℕ_discrete i j) [
  | yes e ↦ rw (← e) (
      rw
        (
          get_or-set_self t.entries i
              (record { used = true; rights = r; generation = g; object = k }) no_entry
              (omega (arith, v.entries_full)),
          get_or-set_self t.generations i g 0 (omega (arith, v.generations_full)),
        )
        (record { current = refl; positive = gp; keyed = kv }))
  | no d ↦
      let other =
        get_or-set_ne t.entries i j (record { used = true; rights = r; generation = g; object = k })
          no_entry d in
      rw (other, get_or-set_ne t.generations i j g 0 d) (v.live j (rw other at u))
]

fill_bounded :
    (t : Table) (i g : ℕ)
    → IsValid t
    → i < 8
    → g < 65536
    → (j : ℕ) → get_or (set t.generations i g) j 0 < 65536
fill_bounded t i g v h b j = elim (ℕ_discrete i j) [
  | yes e ↦
      rw (← e) (rw (get_or-set_self t.generations i g 0 (omega (arith, v.generations_full))) b)
  | no d ↦ rw (get_or-set_ne t.generations i j g 0 d) (v.bounded j)
]

pub fill-IsValid :
    (t : Table) (k : ObjectKey) (r i g : ℕ)
    → IsValid t
    → i < 8
    → key_valid k ≡ true
    → 0 < g
    → g < 65536
    → IsValid (fill t k r i g)
fill-IsValid t k r i g v h kv gp gb = record {
  entries_full = length-set t.entries i _ ∙ v.entries_full;
  generations_full = length-set t.generations i g ∙ v.generations_full;
  bounded = fill_bounded t i g v h gb;
  live = fill-IsLive t k r i g v h kv gp;
}

pub free_index-lt : (t : Table) (i : ℕ) → IsValid t → find_free 0 t.entries ≡ some i → i < 8
free_index-lt t i v h = omega (arith, find_free-some 0 t.entries i h, v.entries_full)

allocate_at-IsValid :
    (t : Table) (k : ObjectKey) (r : ℕ) (o : Option ℕ)
    → IsValid t
    → key_valid k ≡ true
    → find_free 0 t.entries ≡ o
    → IsValid (allocate_at t k r o).1
allocate_at-IsValid t k r none v kv h = v
allocate_at-IsValid t k r (some i) v kv h =
    let bounds = next_generation_bounds (get_or t.generations i 0) in
    fill-IsValid t k r i _ v (free_index-lt t i v h) kv bounds.0 bounds.1

pub allocate-IsValid : (t : Table) (k : ObjectKey) (r : ℕ) → IsValid t → IsValid (allocate t k r).1
unfolding allocate
allocate-IsValid t k r v = ground (arith, allocate_at-IsValid t k r (find_free 0 t.entries) v, v)

clear-IsLive :
    (t : Table) (i : ℕ)
    → IsValid t
    → (j : ℕ) → (get_or (set t.entries i no_entry) j no_entry).used ≡ true
    → IsLive (get_or (set t.entries i no_entry) j no_entry) (get_or t.generations j 0)
clear-IsLive t i v j u = elim (ℕ_discrete i j) [
  | yes e ↦
      let gone = ap (λ (x : Entry). x.used) (get_or-set_default t.entries i no_entry) in
      cc (rw (← e) at u, gone)
  | no d ↦
      let other = get_or-set_ne t.entries i j no_entry no_entry d in
      rw other (v.live j (rw other at u))
]

pub clear-IsValid :
    (t : Table) (i : ℕ) → IsValid t → IsValid (record t { entries = set t.entries i no_entry })
clear-IsValid t i v = record {
  entries_full = length-set t.entries i _ ∙ v.entries_full;
  generations_full = v.generations_full;
  bounded = v.bounded;
  live = clear-IsLive t i v;
}

pub close-IsValid :
    (t : Table) (h : ℕ) (k : ObjectKey) (t' : Table)
    → IsValid t
    → close t h ≡ some (k, t')
    → IsValid t'
unfolding close
close-IsValid t h k t' v e = elim (Option-cases (decode h)) [
  | inl d ↦ cc (rw d at e)
  | inr ((i, g), d) ↦ ground (arith, rw d at e, clear-IsValid t i v)
]

pub empty-IsValid : IsValid empty_table
empty-IsValid = record {
  entries_full = refl;
  generations_full = refl;
  bounded = λ i. rw (get_or-replicate {A = ℕ} 8 i 0) (omega arith);
  live = λ i u. cc (u, ap (λ (x : Entry). x.used) (get_or-replicate 8 i no_entry));
}
