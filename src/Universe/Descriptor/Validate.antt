-- ===== src/Universe/Descriptor/Validate.antt =====
-- tools/zenuniverse/descriptor.hpp: `validate_descriptor`, in the order of its checks.
use zenov_os.Prelude.{List, [], ◌∷◌, Bool, not, ◌&&◌, ◌||◌, length, ltb, ◌==◌, if◌then◌else◌}
use Prim.{Unit, tt}
use Prim.Native.String.{String}
use zenov_os.Prelude.Bytes.{Bytes, codes, str_eq, member}
use zenov_os.Prelude.Result.{Result, ok, ◌>>=◌, ◌>>◌, require}
use zenov_os.Universe.Common.{safe_id, printable, https_url, hex64, has_byte}
use zenov_os.Universe.Capability.{runtime_names, known_capability, canonical_alternatives}
use zenov_os.Universe.Values.{valid_launch_argument}
use zenov_os.Universe.Descriptor.{Descriptor}

abbrev pub kinds : List Bytes
kinds =
    codes "application"
    ∷ codes "game"
    ∷ codes "runtime"
    ∷ codes "sdk"
    ∷ codes "toolchain"
    ∷ codes "profile"
    ∷ codes "firmware"
    ∷ []

abbrev pub console_platforms : List Bytes
console_platforms =
    codes "playstation1"
    ∷ codes "playstation-portable"
    ∷ codes "playstation2"
    ∷ codes "playstation3"
    ∷ codes "xbox"
    ∷ codes "xbox360"
    ∷ []

abbrev pub platforms : List Bytes
platforms = codes "zenov" ∷ codes "linux" ∷ codes "windows" ∷ codes "macos" ∷ console_platforms

abbrev pub architectures : List Bytes
architectures = codes "any" ∷ codes "x86" ∷ codes "x86_64" ∷ codes "arm64" ∷ codes "ppc64" ∷ []

abbrev pub artifacts : List Bytes
artifacts =
    codes "zpk"
    ∷ codes "zex1"
    ∷ codes "elf32"
    ∷ codes "elf64"
    ∷ codes "appimage"
    ∷ codes "flatpak"
    ∷ codes "deb"
    ∷ codes "rpm"
    ∷ codes "tar"
    ∷ codes "exe"
    ∷ codes "msi"
    ∷ codes "msix"
    ∷ codes "appx"
    ∷ codes "dmg"
    ∷ codes "pkg"
    ∷ codes "app"
    ∷ codes "iso"
    ∷ codes "disc-image"
    ∷ codes "rom"
    ∷ codes "psx-exe"
    ∷ codes "bin-cue"
    ∷ codes "chd"
    ∷ codes "pbp"
    ∷ codes "cso"
    ∷ codes "runtime-bundle"
    ∷ codes "metadata"
    ∷ []

abbrev pub deliveries : List Bytes
deliveries =
    codes "builtin"
    ∷ codes "embedded"
    ∷ codes "https"
    ∷ codes "user-supplied"
    ∷ codes "metadata-only"
    ∷ []

abbrev pub availability_values : List Bytes
availability_values = codes "available" ∷ codes "planned" ∷ codes "external" ∷ []

abbrev pub launch_modes : List Bytes
launch_modes = codes "builtin" ∷ codes "exec" ∷ codes "external" ∷ []

-- Each value passes the test and is new.
unfoldable pub check_unique : (Bytes → Bool) → String → List Bytes → List Bytes → Result (Unit {0})
check_unique test message unique [] = ok tt
check_unique test message unique (value ∷ values) = do
  require (test value && not (member value unique)) message
  check_unique test message (value ∷ unique) values

unfoldable pub validate_unique_capabilities : List Bytes → String → Result (Unit {0})
unfolding check_unique
validate_unique_capabilities values message = check_unique known_capability message [] values

-- The loop over `requirement_any`.
unfoldable pub check_groups : List Bytes → List Bytes → Result (Unit {0})
check_groups any_groups [] = ok tt
check_groups any_groups (group ∷ groups) = do
  canonical ← canonical_alternatives group
  require (not (member canonical any_groups)) "duplicate requires-any"
  check_groups (canonical ∷ any_groups) groups

unfoldable pub check_arguments : List Bytes → List Bytes → Result (Unit {0})
check_arguments assets [] = ok tt
check_arguments assets (value ∷ values) = do
  require (valid_launch_argument value assets) "invalid launch argument"
  check_arguments assets values

-- The schema, the identity, the enumerations, the metadata and the entry point.
unfoldable pub validate_metadata : Descriptor → Result (Unit {0})
validate_metadata d = do
  require (str_eq d.schema (codes "zen-source-1")) "schema must be zen-source-1"
  require (safe_id d.id && safe_id d.version) "unsafe id or version"
  require
      (member d.kind kinds
        && member d.platform platforms
        && member d.architecture architectures
        && member d.artifact artifacts
        && member d.delivery deliveries
        && member d.runtime runtime_names
        && member d.availability availability_values)
      "unsupported enum"
  require
      (safe_id d.channel
        && safe_id d.category
        && printable d.license 96
        && printable d.description 240
        && https_url d.homepage)
      "invalid metadata"
  require
      (not (
        length d.entrypoint == 0
        || ltb 192 (length d.entrypoint)
        || has_byte 13 d.entrypoint
        || has_byte 10 d.entrypoint))
      "invalid entrypoint"

-- The lists, of which only the arguments may have duplicates.
unfoldable pub validate_contents : Descriptor → Result (Unit {0})
validate_contents d = do
  validate_unique_capabilities d.requirements "unknown or duplicate requires"
  validate_unique_capabilities d.provides "unknown or duplicate provides"
  check_groups [] d.requirement_any
  check_unique safe_id "invalid or duplicate asset" [] d.assets
  check_unique (λ value. member value artifacts) "invalid or duplicate accepts" [] d.accepts
  check_arguments d.assets d.launch_args
  check_unique https_url "invalid or duplicate HTTPS mirror" [] d.mirrors

abbrev pub fixed_bytes : Descriptor → Bool
fixed_bytes d = hex64 d.sha && not (d.bytes == 0)

abbrev pub no_bytes : Descriptor → Bool
no_bytes d = length d.mirrors == 0 && str_eq d.sha (codes "-") && d.bytes == 0

-- What each delivery has.
unfoldable pub validate_delivery : Descriptor → Result (Unit {0})
validate_delivery d =
    if str_eq d.delivery (codes "https")
    then require (not (length d.mirrors == 0) && fixed_bytes d)
        "https delivery requires mirror, bytes and lowercase sha256"
    else if str_eq d.delivery (codes "embedded")
    then require (length d.mirrors == 0 && fixed_bytes d)
        "embedded delivery requires bytes/sha256 and no mirrors"
    else if str_eq d.delivery (codes "builtin")
    then require (no_bytes d && str_eq d.kind (codes "runtime"))
        "builtin delivery is reserved for zero-byte runtime substrate"
    else if str_eq d.delivery (codes "metadata-only")
    then require (no_bytes d) "metadata-only requires bytes=0 sha256=- and no mirrors"
    else if str_eq d.delivery (codes "user-supplied")
    then require (no_bytes d) "user-supplied content cannot publish mirrors or fixed bytes"
    else ok tt
