-- ===== src/Universe/Resolver/Fuel.antt =====
-- The fuel of the resolver is enough: a plan is made for every package of a loaded catalog.
use zenov_os.Prelude.{
  ℕ, zero, suc, ◌+◌, ◌≡◌, refl, sym, ap, subst, ◌∙◌, ◌≤◌, ◌<◌, inl, inr, List, [], ◌∷◌, ◌++◌, true,
  not, ◌&&◌, length, Bool-cases, Option-cases, and_split, arith,
}
use zenov_os.Prelude.Bytes.{Bytes, codes, str_eq, member, sort_texts}
use zenov_os.Prelude.Bytes.Sorting.{all_texts, distinct, all_texts-sort_texts}
use zenov_os.Prelude.Result.{Result, ok, err, is_ok, ◌>>=◌, bind-eq-ok, require-eq-ok, ok_injective}
use zenov_os.Package.Manifest.Validate.{split_on}
use zenov_os.Universe.Capability.{
  known_capability, check_tokens, parse_capability_alternatives, canonical_alternatives,
  has_adjacent,
}
use zenov_os.Universe.Capability.Canonical.{check_tokens-known}
use zenov_os.Universe.Descriptor.{Descriptor, runtime_capability}
use zenov_os.Universe.Descriptor.Directory.{File, load_directory}
use zenov_os.Universe.Descriptor.Laws.{
  is_canonical, needs_known, all_known, load_directory-all_known,
}
use zenov_os.Universe.Resolver.{Context, Plan, Attempt, set_insert, choose, decide, block_with}
use zenov_os.Universe.Resolver.Providers.{at_record, best_provider}
use zenov_os.Universe.Resolver.Resolve.{
  has, first_present, try_options, inspect, emit, leave, resolve_native, resolve_all,
  resolve_alternative, resolve_alternatives, resolve_provider, resolve_new, resolve_step,
  resolve_capability,
}
use zenov_os.Universe.Resolver.Plans.{resolver, resolve_fuel, open_plan, make_plan}
use zenov_os.Universe.Resolver.Steps.{Resolves, resolve_all-Resolves}
use zenov_os.Universe.Resolver.Alternatives.{resolve_alternative-Resolves}
use zenov_os.Universe.Resolver.Packages.{resolve_native-Resolves}
use zenov_os.Universe.Resolver.Emission.{inspect-Resolves}
use zenov_os.Universe.Resolver.Soundness.{resolve_capability-Resolves}
use zenov_os.Universe.Resolver.Known.{IsActive, IsActive-length, set_insert-IsActive}

is_ok-value {ℓ} : {A : Type ℓ} (r : Result A) → is_ok r ≡ true → (a : A) × (r ≡ ok a)
is_ok-value (ok a) h = (a, refl)
is_ok-value (err message) h = cc

bind_ok {ℓ κ} :
    {A : Type ℓ} {B : Type κ} (r : Result A) (f : A → Result B) (a : A)
    → r ≡ ok a
    → (b : B) × (f a ≡ ok b)
    → (b : B) × ((r >>= f) ≡ ok b)
bind_ok (ok x) f a e h = rw (ok_injective x a e) h
bind_ok (err message) f a e h = cc

-- The options of alternatives are known.
parse_capability_alternatives-known :
    (expression : Bytes) (options : List Bytes)
    → parse_capability_alternatives expression ≡ ok options
    → all_texts known_capability options ≡ true
unfolding parse_capability_alternatives
parse_capability_alternatives-known expression options h =
    let (tokens, checked, h1) = bind-eq-ok (check_tokens (split_on b'|' expression)) _ h in
    let (many, h2) = require-eq-ok _ _ _ h1 in
    let (apart, h3) = require-eq-ok (not (has_adjacent (sort_texts tokens))) _ _ h2 in
    let (same, known) = check_tokens-known (split_on b'|' expression) tokens checked in
    subst (λ t. all_texts known_capability t ≡ true) (ok_injective _ options h3)
      (all_texts-sort_texts known_capability tokens ∙ ap (all_texts known_capability) same ∙ known)

canonical_alternatives-known :
    (expression text : Bytes)
    → canonical_alternatives expression ≡ ok text
    → (options : List Bytes) × (parse_capability_alternatives expression ≡ ok options)
      × (all_texts known_capability options ≡ true)
unfolding canonical_alternatives
canonical_alternatives-known expression text h =
    let (options, parsed, e) = bind-eq-ok (parse_capability_alternatives expression) _ h in
    (options, parsed, parse_capability_alternatives-known expression options parsed)

module _ (records : List Descriptor) (host_architecture : Bytes) (host : List Bytes) where
  module _ (resolve : Bytes → Context → Result Context)
      (resolve_ok : (c : Bytes) (a b : Context)
        → resolve c a ≡ ok b
        → Resolves records host_architecture host
            (λ context. has records host_architecture host context c)
            a
            b)
      (active : List Bytes)
      (returns : (c : Bytes) (a : Context)
        → known_capability c ≡ true
        → a.active ≡ active
        → (b : Context) × (resolve c a ≡ ok b)) where
    resolve_all-returns :
        (cs : List Bytes) (a : Context)
        → all_texts known_capability cs ≡ true
        → a.active ≡ active
        → (b : Context) × (resolve_all records host_architecture host resolve cs a ≡ ok b)
    unfolding resolve_all all_texts
    resolve_all-returns [] a known h = (a, refl)
    resolve_all-returns (c ∷ cs) a known h =
        let (first, rest) = and_split (known_capability c) _ known in
        let (middle, e) = returns c a first h in
        let (b, k) =
          resolve_all-returns cs middle rest ((resolve_ok c a middle e).0.restored ∙ h) in
        (b, rw e k)

    try_options-returns :
        (a : Context) (options : List Bytes)
        → all_texts known_capability options ≡ true
        → a.active ≡ active
        → (attempts : List Attempt) × (try_options records host_architecture host resolve a options
            ≡ ok attempts)
    unfolding try_options all_texts
    try_options-returns a [] known h = ([], refl)
    try_options-returns a (c ∷ cs) known h =
        let (first, rest) = and_split (known_capability c) _ known in
        let (after, e) = returns c a first h in
        let (attempts, k) = try_options-returns a cs rest h in
        bind_ok (resolve c a) _ after e
          (bind_ok (try_options records host_architecture host resolve a cs) _ attempts k (_, refl))

    resolve_alternative-returns :
        (expression : Bytes) (a : Context)
        → is_canonical expression ≡ true
        → a.active ≡ active
        → (b : Context) × (resolve_alternative records host_architecture host resolve expression a
            ≡ ok b)
    unfolding resolve_alternative
    resolve_alternative-returns expression a h k =
        let (text, written) = is_ok-value (canonical_alternatives expression) h in
        let (options, parsed, known) = canonical_alternatives-known expression text written in
        bind_ok (parse_capability_alternatives expression) _ options parsed (
          bind_ok (canonical_alternatives expression) _ text written
            (elim (Option-cases (first_present records host_architecture host a options)) [
              | inr (option, found) ↦ (decide text option true a, rw found refl)
              | inl missing ↦
                  let (attempts, tried) = try_options-returns a options known k in
                  (choose text attempts a, rw missing (rw tried refl))
            ]))

    resolve_alternatives-returns :
        (es : List Bytes) (a : Context)
        → all_texts is_canonical es ≡ true
        → a.active ≡ active
        → (b : Context) × (resolve_alternatives records host_architecture host resolve es a ≡ ok b)
    unfolding resolve_alternatives all_texts
    resolve_alternatives-returns [] a known h = (a, refl)
    resolve_alternatives-returns (c ∷ cs) a known h =
        let (first, rest) = and_split (is_canonical c) _ known in
        let (middle, e) = resolve_alternative-returns c a first h in
        let step =
          resolve_alternative-Resolves records host_architecture host resolve resolve_ok c a middle
            e in
        let (b, k) = resolve_alternatives-returns cs middle rest (step.0.restored ∙ h) in
        (b, rw e k)

    -- The requirements and the alternatives of a package, one after the other.
    needs-returns :
        (d : Descriptor) (a : Context)
        → needs_known d ≡ true
        → a.active ≡ active
        → (b : Context) × (c : Context) × (resolve_all records host_architecture host resolve
              d.requirements a
            ≡ ok b)
          × (resolve_alternatives records host_architecture host resolve d.requirement_any b ≡ ok c)
    needs-returns d a known h =
        let (first, rest) = and_split (all_texts known_capability d.requirements) _ known in
        let (b, e) = resolve_all-returns d.requirements a first h in
        let step =
          resolve_all-Resolves records host_architecture host resolve resolve_ok d.requirements a b
            e in
        let (c, k) = resolve_alternatives-returns d.requirement_any b rest (step.0.restored ∙ h) in
        (b, c, e, k)

    resolve_native-returns :
        (c : Bytes) (d : Descriptor) (a : Context)
        → a.active ≡ active
        → (b : Context) × (resolve_native records host_architecture host resolve c d a ≡ ok b)
    unfolding resolve_native
    resolve_native-returns c d a h =
        elim (Bool-cases (
          not (str_eq c (codes "runtime.native"))
          && str_eq d.kind (codes "runtime")
          && str_eq d.runtime (codes "native"))) [
            | inr e ↦ rw e (a, refl)
            | inl e ↦ rw e (
                returns (codes "runtime.native") a (unfold known_capability member str_eq in refl)
                  h)
          ]

    resolve_provider-returns :
        (c : Bytes) (i : ℕ) (a : Context)
        → needs_known (at_record records i) ≡ true
        → a.active ≡ active
        → (b : Context) × (resolve_provider records host_architecture host resolve c i a ≡ ok b)
    unfolding resolve_provider
    resolve_provider-returns c i a known h =
        let d = at_record records i in
        let checked = inspect records host_architecture host d a in
        let kept = (inspect-Resolves records host_architecture host d a).0.restored ∙ h in
        let (native, e) = resolve_native-returns c d checked kept in
        let step =
          resolve_native-Resolves records host_architecture host resolve resolve_ok c d checked
            native e in
        let (required, settled, k, z) = needs-returns d native known (step.0.restored ∙ kept) in
        (emit records host_architecture host c i settled, rw e (rw k (rw z refl)))

  module _ (known : (i : ℕ) → needs_known (at_record records i) ≡ true) where
    resolve_new-returns :
        (resolve : Bytes → Context → Result Context)
        → ((c : Bytes) (a b : Context)
            → resolve c a ≡ ok b
            → Resolves records host_architecture host
                (λ context. has records host_architecture host context c)
                a
                b)
        → (c : Bytes) (a : Context)
        → ((x : Bytes) (b : Context)
            → known_capability x ≡ true
            → b.active ≡ set_insert c a.active
            → (after : Context) × (resolve x b ≡ ok after))
        → (b : Context) × (resolve_new records host_architecture host resolve c a ≡ ok b)
    unfolding resolve_new
    resolve_new-returns resolve resolve_ok c a returns =
        let entered : Context = record a { active = set_insert c a.active } in
        elim (Option-cases (best_provider c records host_architecture)) [
          | inl e ↦ (
            leave records host_architecture host c
                (block_with (codes "missing capability provider: " ++ c) entered),
            rw (e, resolve_new) refl,
          )
          | inr (i, e) ↦
              let (b, k) =
                resolve_provider-returns resolve resolve_ok (set_insert c a.active) returns c i
                  entered (known i) refl in
              (leave records host_architecture host c b, rw (e, resolve_new) (rw k refl))
        ]

    -- The fuel and the capabilities that are being resolved are more than the known capabilities.
    resolve_capability-returns :
        (fuel : ℕ) (c : Bytes) (a : Context)
        → known_capability c ≡ true
        → IsActive a.active
        → 54 ≤ fuel + length a.active
        → (b : Context) × (resolve_capability records host_architecture host fuel c a ≡ ok b)
    unfolding resolve_capability resolve_step
    resolve_capability-returns zero c a k valid h =
        let bad : ◌≡◌ {A = ℕ} 0 1 = omega (arith, h, IsActive-length a.active valid) in cc
    resolve_capability-returns (suc fuel) c a k valid h =
        let resolve = resolve_capability records host_architecture host fuel in
        elim (Bool-cases (has records host_architecture host a c)) [
          | inl e ↦ (a, rw e refl)
          | inr e ↦ elim (Bool-cases (member c a.active)) [
            | inl z ↦ (block_with (codes "dependency cycle at " ++ c) a, rw e (rw z refl))
            | inr z ↦
                let (next, size) = set_insert-IsActive c a.active valid k z in
                let (b, found) =
                  resolve_new-returns resolve
                    (resolve_capability-Resolves records host_architecture host fuel) c a
                    (λ x b kx same.
                      resolve_capability-returns fuel x b kx (subst IsActive (sym same) next)
                        (omega (arith, h, size, ap length same))) in
                (b, rw e (rw z found))
          ]
        ]

-- What is not in the records needs nothing.
needs_known-at_record :
    (records : List Descriptor)
    → ((i : ℕ) → i < length records → all_known (at_record records i) ≡ true)
    → (i : ℕ) → needs_known (at_record records i) ≡ true
unfolding all_texts
needs_known-at_record [] h i = refl
needs_known-at_record (d ∷ ds) h zero = (and_split _ _ (h zero (omega arith))).1
needs_known-at_record (d ∷ ds) h (suc i) =
    needs_known-at_record ds (λ j k. h (suc j) (omega arith)) i

nil-IsActive : IsActive []
unfolding distinct all_texts
nil-IsActive = record { apart = refl; known = refl }

-- For each package of a catalog that is loaded from a directory, and for every host, the resolver
-- ends with a plan, and neither throws nor calls itself without end.
pub load_directory-make_plan :
    (directory : List File) (records : List Descriptor)
    → load_directory directory ≡ ok records
    → (host_architecture : Bytes) (host : List Bytes) (i : ℕ) → i < length records
    → (plan : Plan) × (make_plan records host_architecture host i ≡ ok plan)
unfolding make_plan
load_directory-make_plan directory records loaded host_architecture host i h =
    let d = at_record records i in
    let valid = load_directory-all_known directory records loaded in
    let known = needs_known-at_record records valid in
    let step = resolver records host_architecture host in
    let resolve_ok = resolve_capability-Resolves records host_architecture host resolve_fuel in
    let returns : (c : Bytes) (a : Context)
        → known_capability c ≡ true
        → a.active ≡ []
        → (b : Context) × (step c a ≡ ok b) =
      λ c a k e.
        resolve_capability-returns records host_architecture host known resolve_fuel c a k
          (subst IsActive (sym e) nil-IsActive) (omega arith) in
    let a = open_plan records host_architecture host d in
    let (first, needs) = and_split (known_capability (runtime_capability d)) _ (valid i h) in
    let empty : a.active ≡ [] = unfold open_plan in refl in
    let (running, e) = returns (runtime_capability d) a first empty in
    let kept = (resolve_ok (runtime_capability d) a running e).0.restored ∙ empty in
    let (required, settled, k, z) =
      needs-returns records host_architecture host step resolve_ok [] returns d running needs
        kept in
    bind_ok (step (runtime_capability d) a) _ running e (
      bind_ok (resolve_all records host_architecture host step d.requirements running) _ required k
        (bind_ok
          (resolve_alternatives records host_architecture host step d.requirement_any required) _
          settled z (_, refl)))
