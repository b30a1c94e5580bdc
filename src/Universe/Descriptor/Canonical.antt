-- ===== src/Universe/Descriptor/Canonical.antt =====
-- tools/zenuniverse/descriptor.hpp: the canonical text of a descriptor, and the order of versions.
use zenov_os.Prelude.{
  ℕ, ◌+◌, ◌-◌, ◌*◌, ◌/◌, List, [], ◌∷◌, ◌++◌, Bool, length, ltb, ◌==◌, if◌then◌else◌,
}
use zenov_os.Prelude.Bytes.{Bytes, codes, str_eq, str_less, is_digit, sort_texts}
use zenov_os.Prelude.Result.{Result, ok, ◌>>=◌}
use zenov_os.Package.Manifest.{pair_line, list_lines, pair_lines}
use zenov_os.Package.Manifest.Validate.{split_on}
use zenov_os.Package.Versions.{resize, max_size}
use zenov_os.Package.Archive.Index.{decimal, decimal_digits}
use zenov_os.Universe.Common.{string_less}
use zenov_os.Universe.Capability.{canonical_alternatives}
use zenov_os.Universe.Descriptor.{Descriptor}

-- The groups, each in its canonical text.
unfoldable pub canonical_groups : List Bytes → Result (List Bytes)
canonical_groups [] = ok []
canonical_groups (group ∷ groups) = do
  text ← canonical_alternatives group
  texts ← canonical_groups groups
  ok (text ∷ texts)

-- A line for a text that is not empty.
abbrev pub optional_line : Bytes → Bytes → Bytes
optional_line key value = if length value == 0 then [] else pair_line key value

abbrev pub head_pairs : Descriptor → List (Bytes × Bytes)
head_pairs d =
    (codes "schema", d.schema)
    ∷ (codes "id", d.id)
    ∷ (codes "version", d.version)
    ∷ (codes "kind", d.kind)
    ∷ (codes "platform", d.platform)
    ∷ (codes "architecture", d.architecture)
    ∷ (codes "artifact", d.artifact)
    ∷ (codes "delivery", d.delivery)
    ∷ (codes "runtime", d.runtime)
    ∷ (codes "availability", d.availability)
    ∷ (codes "entrypoint", d.entrypoint)
    ∷ []

abbrev pub metadata_pairs : Descriptor → List (Bytes × Bytes)
metadata_pairs d =
    (codes "channel", d.channel)
    ∷ (codes "category", d.category)
    ∷ (codes "license", d.license)
    ∷ (codes "description", d.description)
    ∷ (codes "homepage", d.homepage)
    ∷ (codes "bytes", decimal d.bytes)
    ∷ (codes "sha256", d.sha)
    ∷ []

unfoldable pub canonical : Descriptor → Result Bytes
unfolding pair_lines list_lines sort_texts decimal_digits
canonical d = do
  any_groups ← canonical_groups d.requirement_any
  ok (
      pair_lines (head_pairs d)
      ++ optional_line (codes "provider-abi") d.provider_abi
      ++ optional_line (codes "launch-mode") d.launch_mode
      ++ pair_lines (metadata_pairs d)
      ++ list_lines (codes "mirror") (sort_texts d.mirrors)
      ++ list_lines (codes "accepts") (sort_texts d.accepts)
      ++ list_lines (codes "asset") (sort_texts d.assets)
      ++ list_lines (codes "requires") (sort_texts d.requirements)
      ++ list_lines (codes "requires-any") (sort_texts any_groups)
      ++ list_lines (codes "provides") (sort_texts d.provides)
      ++ list_lines (codes "arg") d.launch_args)

-- The digits at the start of a part; what is too large is the largest number.
unfoldable pub version_number : ℕ → Bytes → ℕ
version_number number [] = number
version_number number (c ∷ cs) =
    let digit = c - b'0' in
    let rest = version_number (number * 10 + digit) cs in
    if is_digit c
    then (if ltb ((18446744073709551615 - digit) / 10) number then 18446744073709551615 else rest)
    else number

unfoldable pub numbers_of : List Bytes → List ℕ
unfolding version_number
numbers_of [] = []
numbers_of (part ∷ parts) = version_number 0 part ∷ numbers_of parts

-- The loop ends at the end of the text, so that an empty part there does not count.
unfoldable pub drop_empty_end : List Bytes → List Bytes
drop_empty_end [] = []
drop_empty_end (part ∷ []) = if length part == 0 then [] else part ∷ []
drop_empty_end (part ∷ next ∷ parts) = part ∷ drop_empty_end (next ∷ parts)

unfoldable pub version_parts : Bytes → List ℕ
unfolding split_on drop_empty_end numbers_of
version_parts value = numbers_of (drop_empty_end (split_on b'.' value))

-- Vectors of numbers are compared as texts are.
unfoldable pub version_less : Descriptor → Descriptor → Bool
unfolding str_eq str_less string_less
version_less left right =
    let a = version_parts left.version in
    let b = version_parts right.version in
    let count = max_size (length a) (length b) in
    if str_eq (resize a count) (resize b count)
    then str_less left.version right.version
    else string_less (resize a count) (resize b count)
