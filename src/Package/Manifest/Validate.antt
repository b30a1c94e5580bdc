-- ===== src/Package/Manifest/Validate.antt =====
-- The validation of a manifest in tools/zenpkg/manifest.hpp.
use zenov_os.Prelude.{
  ℕ, List, [], ◌∷◌, Bool, true, false, not, ◌&&◌, ◌||◌, length, drop, ltb, ◌==◌, if◌then◌else◌,
}
use Prim.{Unit, tt}
use Prim.Native.String.{String}
use zenov_os.Prelude.Bytes.{Bytes, codes, str_eq, is_alnum, all_bytes, member, front, back}
use zenov_os.Prelude.Result.{Result, ok, ◌>>=◌, ◌>>◌, require}
use zenov_os.Package.Common.{is_safe_identifier, is_safe_version, is_printable_text}
use zenov_os.Package.Manifest.{Manifest, parse_manifest}

abbrev pub allowed_kinds : List Bytes
allowed_kinds =
    codes "native"
    ∷ codes "application"
    ∷ codes "runtime"
    ∷ codes "compat-profile"
    ∷ codes "firmware-descriptor"
    ∷ []

unfoldable pub is_allowed_kind : Bytes → Bool
unfolding member
is_allowed_kind value = member value allowed_kinds

abbrev pub allowed_payload_types : List Bytes
allowed_payload_types =
    codes "zex1"
    ∷ codes "elf32"
    ∷ codes "elf64"
    ∷ codes "tar"
    ∷ codes "runtime-bundle"
    ∷ codes "metadata"
    ∷ codes "none"
    ∷ []

unfoldable pub is_allowed_payload_type : Bytes → Bool
unfolding member
is_allowed_payload_type value = member value allowed_payload_types

abbrev pub allowed_runtimes : List Bytes
allowed_runtimes =
    codes "native"
    ∷ codes "wine"
    ∷ codes "proton"
    ∷ codes "qemu-user"
    ∷ codes "qemu-system"
    ∷ codes "darling"
    ∷ codes "pcsx2"
    ∷ codes "rpcs3"
    ∷ codes "xemu"
    ∷ codes "xenia"
    ∷ codes "external"
    ∷ []

unfoldable pub is_allowed_runtime : Bytes → Bool
unfolding member
is_allowed_runtime value = member value allowed_runtimes

abbrev pub split_step : Bool → ℕ → List Bytes → List Bytes
split_step true x parts = [] ∷ parts
split_step false x [] = (x ∷ []) ∷ []
split_step false x (part ∷ parts) = (x ∷ part) ∷ parts

-- The parts between the separators; a text without one is one part.
unfoldable pub split_on : ℕ → Bytes → List Bytes
split_on c [] = [] ∷ []
split_on c (x ∷ xs) = split_step (x == c) x (split_on c xs)

abbrev pub component_byte : ℕ → Bool
component_byte c = not (ltb c 0x20 || c == 0x7f || c == b'\\' || c == b':')

unfoldable pub is_safe_component : Bytes → Bool
is_safe_component part =
    not (length part == 0 || str_eq part (codes ".") || str_eq part (codes ".."))
    && all_bytes component_byte part

unfoldable pub all_components : List Bytes → Bool
all_components [] = true
all_components (part ∷ parts) = is_safe_component part && all_components parts

unfoldable pub is_safe_absolute_entrypoint : Bytes → Bool
is_safe_absolute_entrypoint value =
    if length value == 0
    then false
    else if str_eq value (codes "-")
    then true
    else if not (front value == b'/') || ltb 127 (length value) || back value == b'/'
    then false
    else all_components (split_on b'/' (drop 1 value))

abbrev pub requirement_byte : ℕ → Bool
requirement_byte c =
    is_alnum c
    || c == b'.'
    || c == b'-'
    || c == b'_'
    || c == b':'
    || c == b'@'
    || c == b'<'
    || c == b'>'
    || c == b'='
    || c == b'+'

-- The texts of the exceptions are those behind the name of the field.
unfoldable pub validate_requirement : Bytes → Result (Unit {0})
validate_requirement value = do
  require (not (length value == 0 || ltb 96 (length value))) "entry has invalid length"
  require (all_bytes requirement_byte value) "contains an unsupported character"
  ok tt

-- The loop over one of the three lists, with the set of the entries so far.
unfoldable pub validate_list : String → List Bytes → List Bytes → Result (Unit {0})
validate_list message unique [] = ok tt
validate_list message unique (value ∷ values) = do
  validate_requirement value
  require (not (member value unique)) message
  validate_list message (value ∷ unique) values

abbrev pub is_asset_policy : Bytes → Bool
is_asset_policy value =
    str_eq value (codes "redistributable")
    || str_eq value (codes "user-supplied")
    || str_eq value (codes "metadata-only")

-- The checks on the scalar fields.
unfoldable pub validate_fields : Manifest → Result (Unit {0})
validate_fields manifest = do
  require (str_eq manifest.format (codes "zenpkg-manifest-1")) "format must be zenpkg-manifest-1"
  require (is_safe_identifier manifest.name) "name must be a 1-64 character safe identifier"
  require (is_safe_version manifest.version) "version contains unsupported characters"
  require (is_safe_identifier manifest.architecture) "architecture must be a safe identifier"
  require (is_safe_identifier manifest.target) "target must be a safe identifier"
  require (is_allowed_kind manifest.kind) "unsupported package kind"
  require (is_safe_absolute_entrypoint manifest.entrypoint)
      "entrypoint must be '-' or a safe absolute path"
  require (is_allowed_payload_type manifest.payload_type) "unsupported payload_type"
  require (is_allowed_runtime manifest.runtime) "unsupported runtime"
  require (is_safe_version manifest.min_os) "min_os contains unsupported characters"
  require (is_printable_text manifest.license 96)
      "license is required, printable and must fit 96 characters"
  require (is_printable_text manifest.source 256)
      "source is required, printable and must fit 256 characters"
  require (is_asset_policy manifest.asset_policy)
      "asset_policy must be redistributable, user-supplied, or metadata-only"
  ok tt

-- The checks that combine fields and the size of the payload.
unfoldable pub validate_kinds : Manifest → ℕ → Result (Unit {0})
validate_kinds manifest payload_size = do
  require (not (str_eq manifest.payload_type (codes "none") && not (payload_size == 0)))
      "payload_type=none requires an empty payload"
  require (not (not (str_eq manifest.payload_type (codes "none")) && payload_size == 0))
      "non-empty payload_type requires payload bytes"
  require
      (not (
        (str_eq manifest.kind (codes "compat-profile")
          || str_eq manifest.kind (codes "firmware-descriptor"))
        && not (str_eq manifest.entrypoint (codes "-"))))
      "metadata-only package kinds must use entrypoint=-"
  require
      (not (
        (str_eq manifest.kind (codes "application")
          || str_eq manifest.kind (codes "native")
          || str_eq manifest.kind (codes "runtime"))
        && str_eq manifest.entrypoint (codes "-")))
      "executable package kinds require an entrypoint"
  ok tt

unfoldable pub validate_lists : Manifest → Result (Unit {0})
validate_lists manifest = do
  validate_list "duplicate capability" [] manifest.capabilities
  validate_list "duplicate dependency" [] manifest.dependencies
  validate_list "duplicate conflict" [] manifest.conflicts

unfoldable pub validate_manifest : Manifest → ℕ → Result (Unit {0})
validate_manifest manifest payload_size = do
  validate_fields manifest
  validate_kinds manifest payload_size
  validate_lists manifest

unfoldable pub parse_and_validate_manifest : Bytes → ℕ → Result Manifest
parse_and_validate_manifest input payload_size = do
  manifest ← parse_manifest input
  validate_manifest manifest payload_size
  ok manifest
