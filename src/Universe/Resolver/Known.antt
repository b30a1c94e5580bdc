-- ===== src/Universe/Resolver/Known.antt =====
-- There are 53 known capabilities, so that a list of distinct ones is no longer.
use zenov_os.Prelude.{
  suc, ◌≡◌, refl, sym, ap, subst, ◌∙◌, ◌≤◌, inl, inr, List, [], ◌∷◌, ◌++◌, true, false, not, ◌||◌,
  length, take, drop, Bool-cases, and_split, arith,
}
use zenov_os.Prelude.Bytes.{Bytes, codes, str_eq, member}
use zenov_os.Prelude.Bytes.Laws.{str_eq_iff, str_eq_refl}
use zenov_os.Prelude.Bytes.Sorting.{
  all_texts, all_texts_mono, distinct, distinct-insert_sorted, all_texts-insert_sorted,
}
use zenov_os.Package.Sha256.Streaming.{take-drop}
use zenov_os.Universe.Capability.{runtime_names, static_capabilities, known_capability}
use zenov_os.Universe.Capability.Canonical.{length-insert_sorted}
use zenov_os.Universe.Resolver.{set_insert, set_erase}

length-set_erase :
    (x : Bytes) (ys : List Bytes) → member x ys ≡ true → suc (length (set_erase x ys)) ≡ length ys
unfolding set_erase member
length-set_erase x [] h = cc
length-set_erase x (y ∷ ys) h = elim (Bool-cases (str_eq y x)) [
  | inl e ↦ rw e refl
  | inr e ↦ rw e (ap suc (length-set_erase x ys (ground arith)))
]

member-set_erase :
    (x z : Bytes) (ys : List Bytes)
    → str_eq z x ≡ false
    → member z ys ≡ true
    → member z (set_erase x ys) ≡ true
unfolding set_erase member
member-set_erase x z [] apart h = cc
member-set_erase x z (y ∷ ys) apart h = elim (Bool-cases (str_eq y x)) [
  | inl e ↦ rw e (
      let same = (str_eq_iff y x).0 e in
      elim (Bool-cases (str_eq y z)) [
        | inl k ↦
            let twice = (str_eq_iff y z).0 k in cc (apart, subst (λ t. str_eq t x ≡ true) twice e)
        | inr k ↦ rw k at h
      ])
  | inr e ↦ rw e (elim (Bool-cases (str_eq y z)) [
    | inl k ↦ rw k refl
    | inr k ↦ rw k (member-set_erase x z ys apart (rw k at h))
  ])
]

all_texts-set_erase :
    (x : Bytes) (xs ys : List Bytes)
    → member x xs ≡ false
    → all_texts (λ z. member z ys) xs ≡ true
    → all_texts (λ z. member z (set_erase x ys)) xs ≡ true
unfolding all_texts member
all_texts-set_erase x [] ys apart h = refl
all_texts-set_erase x (z ∷ zs) ys apart h =
    let (first, rest) = and_split _ _ h in
    rw
      (
        member-set_erase x z ys (ground arith) first,
        all_texts-set_erase x zs ys (ground arith) rest,
      )
      refl

-- Distinct members of a list are not more than it has.
length-distinct :
    (xs ys : List Bytes)
    → distinct xs ≡ true
    → all_texts (λ z. member z ys) xs ≡ true
    → length xs ≤ length ys
unfolding distinct all_texts
length-distinct [] ys apart h = omega arith
length-distinct (x ∷ xs) ys apart h =
    let (first, rest) = and_split (member x ys) _ h in
    let (new, others) = and_split (not (member x xs)) _ apart in
    let shorter =
      length-distinct xs (set_erase x ys) others
        (all_texts-set_erase x xs ys (ground (arith, new)) rest) in
    omega (arith, length-set_erase x ys first, shorter)

runtimes : List Bytes → List Bytes
runtimes [] = []
runtimes (x ∷ xs) = (codes "runtime." ++ x) ∷ runtimes xs

member-runtimes :
    (v : Bytes) (xs : List Bytes)
    → member v xs ≡ true
    → member (codes "runtime." ++ v) (runtimes xs) ≡ true
unfolding member runtimes
member-runtimes v [] h = cc
member-runtimes v (x ∷ xs) h = elim (Bool-cases (str_eq x v)) [
  | inl e ↦
      let same = (str_eq_iff x v).0 e in rw same (rw (str_eq_refl (codes "runtime." ++ v)) refl)
  | inr e ↦ ground (arith, member-runtimes v xs (rw e at h))
]

member-append :
    (v : Bytes) (xs ys : List Bytes) → member v (xs ++ ys) ≡ (member v xs || member v ys)
unfolding member
member-append v [] ys = refl
member-append v (x ∷ xs) ys = ground (arith, member-append v xs ys)

-- All of them.
all_known : List Bytes
all_known = static_capabilities ++ runtimes runtime_names

known_capability-member : (v : Bytes) → known_capability v ≡ true → member v all_known ≡ true
unfolding known_capability all_known
known_capability-member v h =
    rw (member-append v static_capabilities (runtimes runtime_names))
      (elim (Bool-cases (member v static_capabilities)) [
        | inl e ↦ rw e refl
        | inr e ↦ rw e (
            let (starts, there) = and_split _ _ (rw e at h) in
            let start = (str_eq_iff (take 8 v) (codes "runtime.")).0 starts in
            let whole : codes "runtime." ++ drop 8 v ≡ v =
              ap (λ t. t ++ drop 8 v) (sym start) ∙ take-drop 8 v in
            subst (λ t. member t (runtimes runtime_names) ≡ true) whole
              (member-runtimes (drop 8 v) runtime_names there))
      ])

-- A set of known capabilities.
pub record IsActive (active : List Bytes) : Type 0 where
  pub apart : distinct active ≡ true
  pub known : all_texts known_capability active ≡ true

pub IsActive-length : (active : List Bytes) → IsActive active → length active ≤ 53
unfolding all_known runtimes
IsActive-length active h =
    length-distinct active all_known h.apart
      (all_texts_mono known_capability _ active known_capability-member h.known)

pub set_insert-IsActive :
    (c : Bytes) (active : List Bytes)
    → IsActive active
    → known_capability c ≡ true
    → member c active ≡ false
    → IsActive (set_insert c active) × (length (set_insert c active) ≡ suc (length active))
unfolding set_insert
set_insert-IsActive c active h known new = rw new (
  record {
    apart = distinct-insert_sorted c active ∙ rw (new, h.apart) refl;
    known = all_texts-insert_sorted known_capability c active ∙ rw (known, h.known) refl;
  },
  length-insert_sorted c active,
)
