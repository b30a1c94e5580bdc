-- ===== src/Universe/Descriptor/Laws.antt =====
-- What `validate_descriptor` lets through names known capabilities only, and so does all that
-- `load_directory` returns.
use zenov_os.Prelude.{
  ℕ, zero, suc, ◌≡◌, refl, subst, ◌<◌, List, [], ◌∷◌, Bool, true, not, ◌&&◌, length, and_intro,
  and_split, or_last, arith,
}
use Prim.{Unit}
use Prim.Native.String.{String}
use zenov_os.Prelude.Bytes.{Bytes, codes, str_eq, member}
use zenov_os.Prelude.Bytes.Laws.{str_eq_refl}
use zenov_os.Prelude.Bytes.Sorting.{all_texts}
use zenov_os.Prelude.Result.{ok, is_ok, bind-eq-ok, require-eq-ok, ok_injective}
use zenov_os.Universe.Capability.{runtime_names, known_capability, canonical_alternatives}
use zenov_os.Universe.Descriptor.{Descriptor, parse_descriptor, runtime_capability}
use zenov_os.Universe.Descriptor.Validate.{
  check_unique, validate_unique_capabilities, check_groups, validate_metadata, validate_contents,
}
use zenov_os.Universe.Descriptor.Platforms.{validate_descriptor}
use zenov_os.Universe.Descriptor.Directory.{
  File, load_files, load_directory, descriptor_identity, source_files,
}
use zenov_os.Universe.Resolver.Providers.{at_record}

-- The alternatives have a canonical text.
abbrev pub is_canonical : Bytes → Bool
is_canonical expression = is_ok (canonical_alternatives expression)

-- What the package needs can be looked for.
abbrev pub needs_known : Descriptor → Bool
needs_known d =
    all_texts known_capability d.requirements && all_texts is_canonical d.requirement_any

check_unique-all_texts :
    (test : Bytes → Bool) (message : String) (unique values : List Bytes) (r : Unit {0})
    → check_unique test message unique values ≡ ok r
    → all_texts test values ≡ true
unfolding check_unique all_texts
check_unique-all_texts test message unique [] r h = refl
check_unique-all_texts test message unique (value ∷ values) r h =
    let (first, rest) = require-eq-ok (test value && not (member value unique)) message _ h in
    and_intro _ _ (and_split _ _ first).0
      (check_unique-all_texts test message (value ∷ unique) values r rest)

check_groups-all_texts :
    (any_groups groups : List Bytes) (r : Unit {0})
    → check_groups any_groups groups ≡ ok r
    → all_texts is_canonical groups ≡ true
unfolding check_groups all_texts
check_groups-all_texts any_groups [] r h = refl
check_groups-all_texts any_groups (group ∷ groups) r h =
    let (text, e, k) = bind-eq-ok (canonical_alternatives group) _ h in
    let (new, rest) = require-eq-ok (not (member text any_groups)) _ _ k in
    and_intro _ _ (rw e refl) (check_groups-all_texts (text ∷ any_groups) groups r rest)

validate_contents-needs_known :
    (d : Descriptor) (r : Unit {0}) → validate_contents d ≡ ok r → needs_known d ≡ true
unfolding validate_contents validate_unique_capabilities
validate_contents-needs_known d r h =
    let (u, requires, h1) =
      bind-eq-ok (validate_unique_capabilities d.requirements "unknown or duplicate requires") _
        h in
    let (v, provides, h2) =
      bind-eq-ok (validate_unique_capabilities d.provides "unknown or duplicate provides") _ h1 in
    let (w, groups, h3) = bind-eq-ok (check_groups [] d.requirement_any) _ h2 in
    and_intro _ _ (check_unique-all_texts known_capability _ [] d.requirements u requires)
      (check_groups-all_texts [] d.requirement_any w groups)

runtime_capability-known :
    (d : Descriptor)
    → member d.runtime runtime_names ≡ true
    → known_capability (runtime_capability d) ≡ true
unfolding known_capability
runtime_capability-known d h = or_last _ _ (and_intro _ _ (str_eq_refl (codes "runtime.")) h)

validate_metadata-known :
    (d : Descriptor) (r : Unit {0})
    → validate_metadata d ≡ ok r
    → known_capability (runtime_capability d) ≡ true
unfolding validate_metadata
validate_metadata-known d r h =
    let (a, h1) = require-eq-ok (str_eq d.schema (codes "zen-source-1")) _ _ h in
    let (b, h2) = require-eq-ok _ _ _ h1 in
    let (c, h3) = require-eq-ok _ _ _ h2 in
    let (rest, available) = and_split _ _ c in runtime_capability-known d (and_split _ _ rest).1

-- The runtime of a package and what it needs can be looked for.
abbrev pub all_known : Descriptor → Bool
all_known d = known_capability (runtime_capability d) && needs_known d

validate_descriptor-all_known :
    (d : Descriptor) (r : Unit {0}) → validate_descriptor d ≡ ok r → all_known d ≡ true
unfolding validate_descriptor
validate_descriptor-all_known d r h =
    let (a, metadata, h1) = bind-eq-ok (validate_metadata d) _ h in
    let (b, contents, h2) = bind-eq-ok (validate_contents d) _ h1 in
    and_intro _ _ (validate_metadata-known d a metadata)
      (validate_contents-needs_known d b contents)

abbrev AllKnown : List Descriptor → Type 0
AllKnown records = (i : ℕ) → i < length records → all_known (at_record records i) ≡ true

cons-AllKnown :
    (d : Descriptor) (rest : List Descriptor)
    → all_known d ≡ true
    → AllKnown rest
    → AllKnown (d ∷ rest)
cons-AllKnown d rest h k zero z = h
cons-AllKnown d rest h k (suc i) z = k i (omega arith)

load_files-AllKnown :
    (files : List File) (identities : List Bytes) (records : List Descriptor)
    → load_files files identities ≡ ok records
    → AllKnown records
unfolding load_files
load_files-AllKnown [] identities records h =
    subst AllKnown (ok_injective [] records h) (λ i z. elim z [ ])
load_files-AllKnown (f ∷ fs) identities records h =
    let (d, parsed, h1) = bind-eq-ok (parse_descriptor f.content) _ h in
    let (r, valid, h2) = bind-eq-ok (validate_descriptor d) _ h1 in
    let (new, h3) = require-eq-ok (not (member (descriptor_identity d) identities)) _ _ h2 in
    let (rest, loaded, h4) = bind-eq-ok (load_files fs (descriptor_identity d ∷ identities)) _ h3 in
    subst AllKnown (ok_injective _ records h4) (
      cons-AllKnown d rest (validate_descriptor-all_known d r valid)
        (load_files-AllKnown fs (descriptor_identity d ∷ identities) rest loaded))

pub load_directory-all_known :
    (files : List File) (records : List Descriptor)
    → load_directory files ≡ ok records
    → (i : ℕ) → i < length records
    → all_known (at_record records i) ≡ true
unfolding load_directory
load_directory-all_known files records h i k =
    let (found, loaded, h1) = bind-eq-ok (load_files (source_files files) []) _ h in
    let (some_found, h2) = require-eq-ok _ _ _ h1 in
    let same = ok_injective found records h2 in
    subst AllKnown same (load_files-AllKnown (source_files files) [] found loaded) i k
