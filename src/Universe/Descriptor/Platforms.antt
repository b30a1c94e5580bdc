-- ===== src/Universe/Descriptor/Platforms.antt =====
-- tools/zenuniverse/descriptor.hpp: the second half of `validate_descriptor`, on platforms and runtimes.
use zenov_os.Prelude.{
  ◌-◌, List, [], ◌∷◌, ◌++◌, not, ◌&&◌, none, some, length, drop, ◌==◌, if◌then◌else◌,
}
use Prim.{Unit, tt}
use mathlib.Core.List.{reverse}
use zenov_os.Prelude.Bytes.{Bytes, codes, str_eq, find_byte, member, starts_with}
use zenov_os.Prelude.Result.{Result, ok, err, ◌>>=◌, ◌>>◌, require}
use zenov_os.Universe.Values.{safe_runtime_entrypoint}
use zenov_os.Universe.Descriptor.{Descriptor}
use zenov_os.Universe.Descriptor.Validate.{
  console_platforms, launch_modes, validate_metadata, validate_contents, validate_delivery,
}

abbrev pub allowed : List (Bytes × List Bytes)
allowed =
    (
      codes "windows",
      codes "exe"
          ∷ codes "msi"
          ∷ codes "msix"
          ∷ codes "appx"
          ∷ codes "runtime-bundle"
          ∷ codes "metadata"
          ∷ [],
    )
    ∷ (
      codes "linux",
      codes "elf32"
          ∷ codes "elf64"
          ∷ codes "appimage"
          ∷ codes "flatpak"
          ∷ codes "deb"
          ∷ codes "rpm"
          ∷ codes "tar"
          ∷ codes "runtime-bundle"
          ∷ codes "metadata"
          ∷ [],
    )
    ∷ (
      codes "macos",
      codes "dmg" ∷ codes "pkg" ∷ codes "app" ∷ codes "runtime-bundle" ∷ codes "metadata" ∷ [],
    )
    ∷ (
      codes "playstation1",
      codes "psx-exe"
          ∷ codes "bin-cue"
          ∷ codes "chd"
          ∷ codes "pbp"
          ∷ codes "iso"
          ∷ codes "disc-image"
          ∷ codes "metadata"
          ∷ [],
    )
    ∷ (
      codes "playstation-portable",
      codes "iso" ∷ codes "disc-image" ∷ codes "pbp" ∷ codes "cso" ∷ codes "metadata" ∷ [],
    )
    ∷ (codes "playstation2", codes "iso" ∷ codes "disc-image" ∷ codes "cso" ∷ codes "metadata" ∷ [])
    ∷ (codes "playstation3", codes "iso" ∷ codes "disc-image" ∷ codes "metadata" ∷ [])
    ∷ (codes "xbox", codes "iso" ∷ codes "disc-image" ∷ codes "rom" ∷ codes "metadata" ∷ [])
    ∷ (codes "xbox360", codes "iso" ∷ codes "disc-image" ∷ codes "rom" ∷ codes "metadata" ∷ [])
    ∷ (
      codes "zenov",
      codes "zpk" ∷ codes "zex1" ∷ codes "elf32" ∷ codes "runtime-bundle" ∷ codes "metadata" ∷ [],
    )
    ∷ []

abbrev pub platform_runtime : List (Bytes × List Bytes)
platform_runtime =
    (codes "windows", codes "wine" ∷ codes "proton" ∷ codes "qemu-system" ∷ codes "external" ∷ [])
    ∷ (
      codes "linux",
      codes "linux-i386-minimal"
          ∷ codes "linux-abi"
          ∷ codes "qemu-user"
          ∷ codes "qemu-system"
          ∷ codes "external"
          ∷ [],
    )
    ∷ (codes "macos", codes "darling" ∷ codes "qemu-system" ∷ codes "external" ∷ [])
    ∷ (codes "playstation1", codes "duckstation" ∷ codes "external" ∷ [])
    ∷ (codes "playstation-portable", codes "ppsspp" ∷ codes "external" ∷ [])
    ∷ (codes "playstation2", codes "pcsx2" ∷ codes "external" ∷ [])
    ∷ (codes "playstation3", codes "rpcs3" ∷ codes "external" ∷ [])
    ∷ (codes "xbox", codes "xemu" ∷ codes "external" ∷ [])
    ∷ (codes "xbox360", codes "xenia" ∷ codes "external" ∷ [])
    ∷ (codes "zenov", codes "native" ∷ codes "external" ∷ [])
    ∷ []

-- `map.at(key)`, which throws where the key is missing.
unfoldable pub at : Bytes → List (Bytes × List Bytes) → Result (List Bytes)
unfolding str_eq
at key [] = err "map::at"
at key ((name, values) ∷ entries) = if str_eq name key then ok values else at key entries

-- What is not a runtime itself runs on a runtime for its platform.
unfoldable pub validate_runtime : Descriptor → Result (Unit {0})
unfolding at member str_eq
validate_runtime d =
    if str_eq d.kind (codes "runtime")
    then ok tt
    else at d.platform platform_runtime >>= λ runtimes.
        require (member d.runtime runtimes) "runtime/platform mismatch"

-- Consoles, formats and runtimes of the platform.
unfoldable pub validate_platform : Descriptor → Result (Unit {0})
unfolding at member str_eq validate_runtime
validate_platform d = do
  require
      (not (
        member d.platform console_platforms
        && str_eq d.kind (codes "game")
        && not (str_eq d.delivery (codes "user-supplied"))))
      "console game content must be user-supplied"
  formats ← at d.platform allowed
  require (member d.artifact formats) "artifact/platform mismatch"
  validate_runtime d

-- `id.substr(id.find_last_of('.') + 1)`: all of it where it has no dot.
unfoldable pub after_last_dot : Bytes → Bytes
unfolding find_byte
after_last_dot id = elim (find_byte b'.' (reverse id)) [
  | none ↦ id
  | some i ↦ drop (length id - i) id
]

-- `provides` is one capability, the runtime that the id names.
unfoldable pub provides_itself : Descriptor → List Bytes → Result (Unit {0})
unfolding starts_with after_last_dot str_eq
provides_itself d [] = err "runtime provider must provide exactly one runtime capability"
provides_itself d (first ∷ []) = do
  require (starts_with first (codes "runtime."))
      "runtime provider must provide exactly one runtime capability"
  require (str_eq first (codes "runtime." ++ after_last_dot d.id))
      "runtime provider id/capability mismatch"
provides_itself d (first ∷ second ∷ rest) =
    err "runtime provider must provide exactly one runtime capability"

-- How the bytes of a runtime are delivered.
unfoldable pub provider_delivery : Descriptor → Result (Unit {0})
unfolding str_eq
provider_delivery d =
    if str_eq d.delivery (codes "builtin")
    then require
        (str_eq d.availability (codes "available")
          && str_eq d.launch_mode (codes "builtin")
          && str_eq d.entrypoint (codes "@kernel-loader"))
        "builtin runtime must be available through @kernel-loader"
    else require
        (not (
          str_eq d.availability (codes "available")
          && not (str_eq d.delivery (codes "embedded"))
          && not (str_eq d.delivery (codes "https"))))
        "available runtime must contain downloadable, embedded or builtin bytes"

-- The checks on a runtime.
unfoldable pub validate_provider : Descriptor → Result (Unit {0})
unfolding provides_itself provider_delivery str_eq member safe_runtime_entrypoint
validate_provider d = do
  require (str_eq d.runtime (codes "native")) "runtime provider itself must execute natively"
  require (str_eq d.provider_abi (codes "zen-runtime-provider-1"))
      "runtime provider must declare provider-abi=zen-runtime-provider-1"
  require (member d.launch_mode launch_modes) "runtime provider has invalid launch-mode"
  require (not (length d.accepts == 0)) "runtime provider must declare accepted artifacts"
  require (safe_runtime_entrypoint d.entrypoint)
      "runtime provider entrypoint must be absolute or @kernel-loader"
  provides_itself d d.provides
  provider_delivery d
  require
      (not (str_eq d.launch_mode (codes "builtin") && not (str_eq d.delivery (codes "builtin"))))
      "builtin launch-mode requires builtin delivery"

-- Only a runtime has an ABI, launch arguments and formats it accepts.
unfoldable pub validate_kind : Descriptor → Result (Unit {0})
unfolding validate_provider str_eq
validate_kind d =
    if str_eq d.kind (codes "runtime")
    then validate_provider d
    else require
        (length d.provider_abi == 0
          && length d.launch_mode == 0
          && length d.accepts == 0
          && length d.launch_args == 0)
        "only runtime providers may declare provider ABI, accepts or launch arguments"

unfoldable pub validate_descriptor : Descriptor → Result (Unit {0})
validate_descriptor d = do
  validate_metadata d
  validate_contents d
  validate_delivery d
  validate_platform d
  validate_kind d
