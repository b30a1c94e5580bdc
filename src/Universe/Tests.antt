-- ===== src/Universe/Tests.antt =====
-- Concrete runs of zenuniverse.
use zenov_os.Prelude.{◌≡◌, refl, arith, true, false, ℕ, List, [], ◌∷◌, ◌++◌}
use zenov_os.Prelude.Bytes.{
  member, sort_texts, codes, str_eq, find_byte, all_bytes, back, starts_with,
}
use zenov_os.Package.Common.{has_two_dots}
use zenov_os.Package.Manifest.Validate.{split_on}
use zenov_os.Package.Sha256.{sha256_hex}
use zenov_os.Universe.Common.{https_url, host_of, safe_id, trim, skip_blank, printable}
use zenov_os.Prelude.Result.{ok}
use zenov_os.Universe.Capability.{
  canonical_alternatives, parse_capability_alternatives, check_tokens, known_capability,
  has_adjacent, join_bars,
}
use zenov_os.Universe.Capability.Canonical.{canonical_alternatives-canonical_alternatives}
use zenov_os.Package.Manifest.{lines_of, pop_return}
use zenov_os.Universe.Values.{parse_u64, safe_runtime_entrypoint, contains}
use zenov_os.Universe.Descriptor.{
  Descriptor, empty_descriptor, parse_descriptor, read_lines, read_line, read_pair, put_value,
  put_scalar, find_scalar,
}
use zenov_os.Universe.Descriptor.Validate.{
  validate_metadata, validate_contents, validate_delivery, check_unique,
  validate_unique_capabilities, check_groups, check_arguments,
}
use zenov_os.Universe.Descriptor.Platforms.{
  validate_descriptor, validate_platform, validate_kind, validate_provider, provider_delivery,
  provides_itself, validate_runtime, after_last_dot, at,
}
use zenov_os.Universe.Descriptor.Directory.{
  File, load_directory, load_files, source_files, insert_file,
}
use zenov_os.Universe.Resolver.Fuel.{load_directory-make_plan}
use zenov_os.Universe.Descriptor.Canonical.{version_less, version_parts}
use zenov_os.Universe.Resolver.{
  Plan, set_insert, set_erase, insert_all, has_index, push_new, choose, min_attempt, attempt_less,
}
use zenov_os.Universe.Resolver.Providers.{at_record, best_provider, best_of, better, is_better}
use zenov_os.Universe.Resolver.Resolve.{
  resolve_capability, resolve_step, resolve_new, resolve_provider, resolve_native, resolve_all,
  resolve_alternatives, resolve_alternative, first_present, try_options, inspect, emit,
}
use zenov_os.Universe.Resolver.Plans.{make_plan, open_plan, empty_plan}
use zenov_os.Universe.Resolver.Soundness.{make_plan_lem, is_met_by}
use zenov_os.Universe.Resolver.Order.{order_met}
use zenov_os.Universe.Digest.{sha256}
use zenov_os.Universe.Digest.Hex.{sha256-sha256_hex}

sha256-sha256_hex_example : sha256 (codes "abc") ≡ sha256_hex (codes "abc")
sha256-sha256_hex_example = sha256-sha256_hex (codes "abc") (omega arith)

address : https_url (codes "https://zenov.example/pkg") ≡ true
unfolding https_url host_of find_byte all_bytes str_eq back
address = refl

no_host : https_url (codes "https://.zenov/pkg") ≡ false
unfolding https_url host_of find_byte all_bytes str_eq back
no_host = refl

parent_refused : safe_id (codes "zen..os") ≡ false
unfolding safe_id all_bytes has_two_dots back
parent_refused = refl

trimmed : trim (codes "  zen os ") ≡ codes "zen os"
unfolding trim skip_blank
trimmed = refl

graphics_sorted :
    canonical_alternatives (codes "runtime.wine|graphics.vulkan")
    ≡ ok (codes "graphics.vulkan|runtime.wine")
unfolding canonical_alternatives parse_capability_alternatives check_tokens known_capability
    has_adjacent join_bars split_on member str_eq sort_texts
graphics_sorted = refl

canonical_alternatives-canonical_alternatives_example :
    canonical_alternatives (codes "graphics.vulkan|runtime.wine")
    ≡ ok (codes "graphics.vulkan|runtime.wine")
canonical_alternatives-canonical_alternatives_example =
    canonical_alternatives-canonical_alternatives (codes "runtime.wine|graphics.vulkan")
      (codes "graphics.vulkan|runtime.wine") graphics_sorted

-- A program for Windows that needs one of two capabilities, its runtime, and what that runtime needs.
abbrev wine : Descriptor
wine = record empty_descriptor {
  id = codes "org.zenov.runtime.wine";
  version = codes "1.0";
  kind = codes "runtime";
  architecture = codes "any";
  availability = codes "available";
  runtime = codes "native";
  requirements = codes "kernel.threads" ∷ [];
  provides = codes "runtime.wine" ∷ [];
}

abbrev native : Descriptor
native = record wine {
  id = codes "org.zenov.runtime.native";
  requirements = [];
  provides = codes "runtime.native" ∷ [];
}

abbrev graphics : Descriptor
graphics = record wine {
  id = codes "org.zenov.graphics";
  kind = codes "profile";
  requirements = [];
  provides = codes "graphics.vulkan" ∷ [];
}

abbrev program : Descriptor
program = record empty_descriptor {
  architecture = codes "any";
  runtime = codes "wine";
  requirement_any = codes "audio.stream|graphics.vulkan" ∷ [];
}

abbrev catalog : List Descriptor
catalog = graphics ∷ program ∷ wine ∷ native ∷ []

abbrev program_plan : Plan
program_plan = record empty_plan {
  order = 3 ∷ 2 ∷ 0 ∷ 1 ∷ [];
  alternatives =
      record {
        expression = codes "audio.stream|graphics.vulkan";
        selected = codes "graphics.vulkan";
        satisfied = true;
      }
      ∷ [];
}

program_planned : make_plan catalog (codes "x86") (codes "kernel.threads" ∷ []) 1 ≡ ok program_plan
unfolding make_plan open_plan resolve_capability resolve_step resolve_new resolve_provider
    resolve_native resolve_all resolve_alternatives resolve_alternative first_present try_options
    inspect emit best_provider best_of better is_better choose min_attempt attempt_less set_insert
    set_erase insert_all has_index push_new canonical_alternatives parse_capability_alternatives
    check_tokens known_capability has_adjacent join_bars split_on member str_eq sort_texts
    version_less version_parts
program_planned = refl

make_plan_lem_example :
    (providers : List ℕ) × (program_plan.order ≡ providers ++ (1 ∷ []))
    × (order_met catalog (codes "x86") (codes "kernel.threads" ∷ []) [] providers ≡ true)
    × (is_met_by catalog (codes "x86") (codes "kernel.threads" ∷ []) providers (at_record catalog 1)
        ≡ true)
make_plan_lem_example =
    make_plan_lem catalog (codes "x86") (codes "kernel.threads" ∷ []) 1 program_plan program_planned
      refl

-- The runtime that is built into the kernel, as a file of a catalog.
abbrev native_file : File
native_file = record {
  filename = codes "native.zsource";
  is_regular = true;
  content =
      codes
        "schema=zen-source-1\nid=org.zenov.runtime.native\nversion=1.0\nkind=runtime\nplatform=zenov\narchitecture=any\n"
      ++ codes
          "artifact=metadata\ndelivery=builtin\nruntime=native\navailability=available\nentrypoint=@kernel-loader\n"
      ++ codes
          "channel=stable\ncategory=runtime\nlicense=BSD\ndescription=Native\nhomepage=https://zenov.example\n"
      ++ codes
          "sha256=-\nprovider-abi=zen-runtime-provider-1\nlaunch-mode=builtin\naccepts=zpk\nprovides=runtime.native\n";
}

abbrev native_record : Descriptor
native_record = record {
  schema = codes "zen-source-1";
  id = codes "org.zenov.runtime.native";
  version = codes "1.0";
  kind = codes "runtime";
  platform = codes "zenov";
  architecture = codes "any";
  artifact = codes "metadata";
  delivery = codes "builtin";
  runtime = codes "native";
  availability = codes "available";
  entrypoint = codes "@kernel-loader";
  channel = codes "stable";
  category = codes "runtime";
  license = codes "BSD";
  description = codes "Native";
  homepage = codes "https://zenov.example";
  sha = codes "-";
  provider_abi = codes "zen-runtime-provider-1";
  launch_mode = codes "builtin";
  bytes = 0;
  mirrors = [];
  requirements = [];
  requirement_any = [];
  provides = codes "runtime.native" ∷ [];
  assets = [];
  accepts = codes "zpk" ∷ [];
  launch_args = [];
}

native_loaded : load_directory (native_file ∷ []) ≡ ok (native_record ∷ [])
unfolding load_directory load_files source_files insert_file parse_descriptor read_lines read_line
    read_pair put_value put_scalar find_scalar lines_of pop_return trim skip_blank find_byte member
    str_eq back parse_u64 validate_descriptor validate_metadata validate_contents validate_delivery
    validate_platform validate_kind validate_provider provider_delivery provides_itself
    validate_runtime after_last_dot starts_with safe_runtime_entrypoint contains check_unique
    validate_unique_capabilities check_groups check_arguments safe_id printable https_url host_of
    all_bytes has_two_dots known_capability at
native_loaded = refl

load_directory-make_plan_example :
    (plan : Plan) × (make_plan (native_record ∷ []) (codes "x86") [] 0 ≡ ok plan)
load_directory-make_plan_example =
    load_directory-make_plan (native_file ∷ []) (native_record ∷ []) native_loaded (codes "x86") []
      0 (omega arith)
