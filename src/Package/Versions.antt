-- ===== src/Package/Versions.antt =====
-- tools/zenpkg/manifest.hpp: the comparison of versions, and the resolution of a manifest on a host.
pub mod Laws
pub mod Resolve
use zenov_os.Prelude.{
  ℕ, zero, suc, ◌+◌, ◌-◌, ◌*◌, ◌/◌, List, [], ◌∷◌, ◌++◌, Bool, true, false, not, ◌&&◌, ◌||◌, Option,
  none, some, length, take, replicate, ltb, leb, ◌==◌, ◌/=◌, if◌then◌else◌,
}
use zenov_os.Prelude.Bytes.{Bytes, codes, str_eq, str_less, find_byte, is_digit, member}
use zenov_os.Prelude.Result.{Result, ok, err, ◌>>=◌, ◌>>◌, require}
use zenov_os.Package.Manifest.{Manifest}
use zenov_os.Package.Manifest.Validate.{split_on}

-- The text before the first byte of `-+`.
unfoldable pub version_core : Bytes → Bytes
version_core [] = []
version_core (c ∷ cs) =
    let rest = version_core cs in if c == b'-' || c == b'+' then [] else c ∷ rest

-- The digits of a component, read behind `parsed`.
unfoldable pub parse_digits : ℕ → Bytes → Result ℕ
parse_digits parsed [] = ok parsed
parse_digits parsed (c ∷ cs) = do
  require (is_digit c) "version core must be numeric"
  require (leb parsed ((18446744073709551615 - (c - b'0')) / 10)) "version component overflows"
  parse_digits (parsed * 10 + (c - b'0')) cs

unfoldable pub parse_components : List Bytes → Result (List ℕ)
unfolding parse_digits
parse_components [] = ok []
parse_components (component ∷ components) = do
  require (not (length component == 0)) "version has an empty numeric component"
  parsed ← parse_digits 0 component
  parts ← parse_components components
  ok (parsed ∷ parts)

unfoldable pub parse_numeric_version : Bytes → Result (List ℕ)
unfolding version_core split_on parse_components
parse_numeric_version value = parse_components (split_on b'.' (version_core value))

-- `resize(count, 0)` to at least the size of the vector.
abbrev pub resize : List ℕ → ℕ → List ℕ
resize xs count = xs ++ replicate (count - length xs) 0

abbrev pub max_size : ℕ → ℕ → ℕ
max_size a b = if ltb a b then b else a

abbrev pub has_byte : ℕ → Bytes → Bool
has_byte c value = elim (find_byte c value) [ none ↦ false | some i ↦ true ]

-- The decision of `version_at_least` on the parsed numbers, which compare as texts do.
unfoldable pub numbers_at_least : List ℕ → List ℕ → Bytes → Bytes → Bool
numbers_at_least left right current minimum =
    let current_prerelease = has_byte b'-' current in
    let minimum_prerelease = has_byte b'-' minimum in
    if not (str_eq left right)
    then str_less right left
    else if current_prerelease && not minimum_prerelease
        || not current_prerelease && minimum_prerelease
    then not current_prerelease
    else not (str_less current minimum)

unfoldable pub version_at_least : Bytes → Bytes → Result Bool
version_at_least current minimum = do
  left ← parse_numeric_version current
  right ← parse_numeric_version minimum
  let count = max_size (length left) (length right)
  ok (numbers_at_least (resize left count) (resize right count) current minimum)

pub record Resolution : Type 0 where
  pub compatible : Bool
  pub reasons : List Bytes

abbrev pub mismatch : Bytes → Bytes → Bytes → List Bytes
mismatch what wanted host =
    if not (str_eq wanted (codes "any")) && not (str_eq wanted host)
    then (what ++ codes " mismatch: package=" ++ wanted ++ codes " host=" ++ host) ∷ []
    else []

-- The capabilities that the host does not have.
unfoldable pub missing_capabilities : List Bytes → List Bytes → List Bytes
unfolding member
missing_capabilities capabilities [] = []
missing_capabilities capabilities (required ∷ others) =
    let rest = missing_capabilities capabilities others in
    if member required capabilities then rest else (codes "missing capability: " ++ required) ∷ rest

abbrev pub too_old : Bool → Bytes → Bytes → List Bytes
too_old enough required host =
    if enough
    then []
    else (codes "OS version too old: package requires " ++ required ++ codes " host=" ++ host) ∷ []

unfoldable pub resolve_manifest : Manifest → Bytes → Bytes → Bytes → List Bytes → Result Resolution
resolve_manifest manifest architecture target os_version capabilities = do
  enough ← version_at_least os_version manifest.min_os
  let reasons =
      mismatch (codes "architecture") manifest.architecture architecture
      ++ mismatch (codes "target") manifest.target target
      ++ too_old enough manifest.min_os os_version
      ++ missing_capabilities capabilities manifest.capabilities
  ok (record { compatible = length reasons == 0; reasons = reasons })
