-- ===== src/Universe/Resolver/Order.antt =====
-- When an order of packages has what each package needs before it: an executable test.
use zenov_os.Prelude.{
  ℕ, ◌≡◌, refl, inl, inr, List, [], ◌∷◌, ◌++◌, Bool, true, false, not, ◌&&◌, ◌||◌, ◌==◌, Bool-cases,
  and_intro, and_split, arith,
}
use zenov_os.Prelude.Bytes.{Bytes, codes, str_eq, member}
use zenov_os.Prelude.Bytes.Laws.{str_eq_iff, append_nil, append_assoc}
use zenov_os.Prelude.Bytes.Sorting.{all_texts, member-insert_sorted}
use zenov_os.Prelude.Result.{Result, ok, err}
use zenov_os.Universe.Capability.{parse_capability_alternatives}
use zenov_os.Universe.Descriptor.{Descriptor}
use zenov_os.Universe.Resolver.{set_insert, insert_all, has_index}
use zenov_os.Universe.Resolver.Providers.{at_record}
use zenov_os.Universe.Resolver.Resolve.{fits}

unfoldable pub any_text : (Bytes → Bool) → List Bytes → Bool
any_text p [] = false
any_text p (x ∷ xs) = p x || any_text p xs

pub any_text_mono :
    (p q : Bytes → Bool) (xs : List Bytes)
    → ((x : Bytes) → p x ≡ true → q x ≡ true)
    → any_text p xs ≡ true
    → any_text q xs ≡ true
unfolding any_text
any_text_mono p q [] f h = cc
any_text_mono p q (x ∷ xs) f h = elim (Bool-cases (p x)) [
  | inl e ↦ rw (f x e) refl
  | inr e ↦ ground (arith, any_text_mono p q xs f (ground arith))
]

pub any_text-member :
    (p : Bytes → Bool) (x : Bytes) (xs : List Bytes)
    → member x xs ≡ true
    → p x ≡ true
    → any_text p xs ≡ true
unfolding any_text member
any_text-member p x [] h k = cc
any_text-member p x (y ∷ ys) h k = elim (Bool-cases (str_eq y x)) [
  | inl e ↦ let same = (str_eq_iff y x).0 e in rw (same, k) refl
  | inr e ↦ ground (arith, any_text-member p x ys (ground arith) k)
]

-- Some option of a list of alternatives passes the test.
unfoldable pub some_option : (Bytes → Bool) → Result (List Bytes) → Bool
unfolding any_text
some_option p (ok options) = any_text p options
some_option p (err message) = false

pub some_option_mono :
    (p q : Bytes → Bool) (options : Result (List Bytes))
    → ((x : Bytes) → p x ≡ true → q x ≡ true)
    → some_option p options ≡ true
    → some_option q options ≡ true
unfolding some_option
some_option_mono p q (ok options) f h = any_text_mono p q options f h
some_option_mono p q (err message) f h = cc

member-set_insert :
    (v x : Bytes) (xs : List Bytes) → member v (set_insert x xs) ≡ (str_eq x v || member v xs)
unfolding set_insert
member-set_insert v x xs = elim (Bool-cases (member x xs)) [
  | inr e ↦ rw e (member-insert_sorted v x xs)
  | inl e ↦ rw e (elim (Bool-cases (str_eq x v)) [
    | inl k ↦ let same = (str_eq_iff x v).0 k in rw k (rw same at e)
    | inr k ↦ rw k refl
  ])
]

pub member-insert_all :
    (v : Bytes) (xs ys : List Bytes) → member v (insert_all xs ys) ≡ (member v xs || member v ys)
unfolding insert_all member
member-insert_all v [] ys = refl
member-insert_all v (x ∷ xs) ys =
    ground (arith, member-insert_all v xs (set_insert x ys), member-set_insert v x ys)

module _ (records : List Descriptor) where
  unfoldable pub provided_by : List ℕ → Bytes → Bool
  provided_by [] capability = false
  provided_by (i ∷ order) capability =
      member capability (at_record records i).provides || provided_by order capability

  pub provided_by-append :
      (order : List ℕ) (i : ℕ) (c : Bytes)
      → provided_by (order ++ (i ∷ [])) c
        ≡ (provided_by order c || member c (at_record records i).provides)
  unfolding provided_by
  provided_by-append [] i c = ground arith
  provided_by-append (j ∷ order) i c = ground (arith, provided_by-append order i c)

  pub has_index-provided_by :
      (order : List ℕ) (i : ℕ) (c : Bytes)
      → has_index i order ≡ true
      → member c (at_record records i).provides ≡ true
      → provided_by order c ≡ true
  unfolding provided_by has_index
  has_index-provided_by [] i c h k = cc
  has_index-provided_by (j ∷ order) i c h k = elim (Bool-cases (j == i)) [
    | inl e ↦ let same : j ≡ i = ground arith in rw (same, k) refl
    | inr e ↦ ground (arith, has_index-provided_by order i c (ground arith) k)
  ]

module _ (records : List Descriptor) (host_architecture : Bytes) (host : List Bytes) where
  -- The host or a package of the order provides the capability.
  abbrev pub is_provided : List ℕ → Bytes → Bool
  is_provided order capability = member capability host || provided_by records order capability

  abbrev pub alternative_met : List ℕ → Bytes → Bool
  alternative_met order expression =
      some_option (is_provided order) (parse_capability_alternatives expression)

  abbrev pub is_native : Descriptor → Bool
  is_native d = str_eq d.kind (codes "runtime") && str_eq d.runtime (codes "native")

  abbrev pub native_met : List ℕ → Descriptor → Bool
  native_met order d =
      not (is_native d)
      || member (codes "runtime.native") d.provides
      || is_provided order (codes "runtime.native")

  abbrev pub dependencies_met : List ℕ → Descriptor → Bool
  dependencies_met order d =
      all_texts (is_provided order) d.requirements
      && all_texts (alternative_met order) d.requirement_any

  -- The package can be installed on the host when the packages of the order are.
  abbrev pub package_met : List ℕ → Descriptor → Bool
  package_met order d =
      fits records host_architecture host d
      && str_eq d.availability (codes "available")
      && native_met order d
      && dependencies_met order d

  -- Each package has what it needs from the packages before it.
  unfoldable pub order_met : List ℕ → List ℕ → Bool
  order_met before [] = true
  order_met before (i ∷ order) =
      package_met before (at_record records i) && order_met (before ++ (i ∷ [])) order

  pub order_met-append :
      (before order : List ℕ) (i : ℕ)
      → order_met before order ≡ true
      → package_met (before ++ order) (at_record records i) ≡ true
      → order_met before (order ++ (i ∷ [])) ≡ true
  unfolding order_met
  order_met-append before [] i h k = and_intro _ _ (rw (append_nil before) at k) refl
  order_met-append before (j ∷ order) i h k =
      let (first, rest) = and_split _ _ h in
      and_intro _ _ first (
        order_met-append (before ++ (j ∷ [])) order i rest
          (rw (append_assoc before (j ∷ []) order) k))
