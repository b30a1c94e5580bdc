-- ===== src/Universe/Resolver/Providers.antt =====
-- tools/zenuniverse/resolver.hpp: the latest descriptor of a package, and the best provider of a
-- capability. The loops go over the indices of the records.
use zenov_os.Prelude.{
  ℕ, zero, suc, List, Bool, not, ◌&&◌, ◌||◌, Option, none, some, length, get_or, if◌then◌else◌, [],
  ◌∷◌, ◌++◌,
}
use zenov_os.Prelude.Bytes.{Bytes, codes, str_eq, str_less, member}
use zenov_os.Universe.Descriptor.{Descriptor, empty_descriptor}
use zenov_os.Universe.Descriptor.Canonical.{version_less}

abbrev pub at_record : List Descriptor → ℕ → Descriptor
at_record records i = get_or records i empty_descriptor

-- One round of the loop of `latest`.
unfoldable pub newer : List Descriptor → Bytes → Option ℕ → ℕ → Option ℕ
unfolding str_eq
newer records id none i = if str_eq (at_record records i).id id then some i else none
newer records id (some best) i =
    if str_eq (at_record records i).id id
      && version_less (at_record records best) (at_record records i)
    then some i
    else some best

-- The first records, as many as the number says.
unfoldable pub latest_of : List Descriptor → Bytes → ℕ → Option ℕ
unfolding newer
latest_of records id zero = none
latest_of records id (suc n) = newer records id (latest_of records id n) n

unfoldable pub latest : List Descriptor → Bytes → Option ℕ
unfolding latest_of
latest records id = latest_of records id (length records)

unfoldable pub runtime_provider : List Descriptor → Bytes → Option ℕ
unfolding latest
runtime_provider records runtime = latest records (codes "org.zenov.runtime." ++ runtime)

unfoldable pub architecture_rank : Descriptor → Bytes → ℕ
unfolding str_eq
architecture_rank d host_architecture =
    if str_eq d.architecture host_architecture
    then 2
    else if str_eq d.architecture (codes "any")
    then 1
    else 0

unfoldable pub availability_rank : Descriptor → ℕ
unfolding str_eq
availability_rank d =
    if str_eq d.availability (codes "available")
    then 2
    else if str_eq d.availability (codes "external")
    then 1
    else 0

unfoldable pub delivery_rank : Descriptor → ℕ
unfolding str_eq
delivery_rank d =
    if str_eq d.delivery (codes "builtin")
      || str_eq d.delivery (codes "embedded")
      || str_eq d.delivery (codes "https")
    then 2
    else if str_eq d.delivery (codes "user-supplied")
    then 1
    else 0

-- The three ranks, which are compared in this order.
unfoldable pub score : Descriptor → Bytes → Bytes
unfolding architecture_rank availability_rank delivery_rank
score d host_architecture =
    architecture_rank d host_architecture ∷ availability_rank d ∷ delivery_rank d ∷ []

unfoldable pub is_better : Descriptor → Descriptor → Bytes → Bool
unfolding str_eq str_less score
is_better d best host_architecture =
    let current_score = score d host_architecture in
    let best_score = score best host_architecture in
    str_less best_score current_score
    || str_eq current_score best_score && version_less best d
    || str_eq current_score best_score
      && not (version_less d best)
      && not (version_less best d)
      && str_less d.id best.id

-- One round of the loop of `best_provider`.
unfoldable pub better : Bytes → List Descriptor → Bytes → Option ℕ → ℕ → Option ℕ
unfolding is_better
better capability records host_architecture none i =
    if member capability (at_record records i).provides then some i else none
better capability records host_architecture (some best) i =
    if member capability (at_record records i).provides
      && is_better (at_record records i) (at_record records best) host_architecture
    then some i
    else some best

unfoldable pub best_of : Bytes → List Descriptor → Bytes → ℕ → Option ℕ
unfolding better
best_of capability records host_architecture zero = none
best_of capability records host_architecture (suc n) =
    better capability records host_architecture (best_of capability records host_architecture n) n

unfoldable pub best_provider : Bytes → List Descriptor → Bytes → Option ℕ
unfolding best_of
best_provider capability records host_architecture =
    best_of capability records host_architecture (length records)
