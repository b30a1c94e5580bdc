-- ===== src/Universe/HostProfile.antt =====
-- tools/zenuniverse/host_profile.hpp: the hosts that the tool knows.
use zenov_os.Prelude.{ℕ, List, [], ◌∷◌, ◌++◌, not, ◌&&◌, ◌||◌, ◌==◌, if◌then◌else◌}
use Prim.{Unit, tt}
use zenov_os.Prelude.Bytes.{Bytes, codes, str_eq, member}
use zenov_os.Prelude.Bytes.Sorting.{all_texts}
use zenov_os.Prelude.Result.{Result, ok, err, ◌>>=◌, ◌>>◌, require}
use zenov_os.Universe.Common.{safe_id, printable}
use zenov_os.Universe.Capability.{known_capability}
use zenov_os.Universe.Descriptor.Validate.{architectures}

pub record HostProfile : Type 0 where
  pub schema : Bytes
  pub id : Bytes
  pub architecture : Bytes
  pub description : Bytes
  pub capabilities : List Bytes
  pub artifact_bytes_limit : ℕ
  pub process_limit : ℕ
  pub thread_limit : ℕ

unfoldable pub validate_host_profile : HostProfile → Result (Unit {0})
unfolding all_texts
validate_host_profile profile = do
  require
      (str_eq profile.schema (codes "ZENHOST1")
        && safe_id profile.id
        && member profile.architecture architectures)
      "invalid built-in host profile metadata"
  require
      (printable profile.description 240
        && not (
            profile.artifact_bytes_limit == 0
            || profile.process_limit == 0
            || profile.thread_limit == 0))
      "invalid built-in host profile limits"
  require (all_texts known_capability profile.capabilities)
      "host profile contains unknown capability"
  require (member (codes "cpu." ++ profile.architecture) profile.capabilities)
      "host profile architecture capability mismatch"

abbrev pub zenov_profile : HostProfile
zenov_profile = record {
  schema = codes "ZENHOST1";
  id = codes "zenov-0.1.1-i686";
  architecture = codes "x86";
  description =
      codes "Current ZenovOS 0.1.1 BIOS/i686 single-foreground-process runtime substrate.";
  capabilities =
      codes "abi.linux.i386.int80-minimal"
      ∷ codes "abi.zenov.zex1"
      ∷ codes "cpu.x86"
      ∷ codes "graphics.framebuffer"
      ∷ codes "input.keyboard"
      ∷ codes "input.mouse"
      ∷ codes "kernel.single-foreground-process"
      ∷ codes "loader.elf32-static"
      ∷ codes "storage.small-files"
      ∷ codes "storage.zenovfs"
      ∷ [];
  artifact_bytes_limit = 65536;
  process_limit = 1;
  thread_limit = 1;
}

-- The keys with their profiles; the first use validates each profile.
abbrev pub profiles : List (Bytes × HostProfile)
profiles = (codes "zenov-0.1.1-i686", zenov_profile) ∷ []

unfoldable pub validate_profiles : List (Bytes × HostProfile) → Result (Unit {0})
validate_profiles [] = ok tt
validate_profiles ((key, profile) ∷ rest) = validate_host_profile profile >> validate_profiles rest

unfoldable pub builtin_host_profiles : Result (List (Bytes × HostProfile))
unfolding validate_profiles
builtin_host_profiles = validate_profiles profiles >> ok profiles

unfoldable pub find_profile : Bytes → List (Bytes × HostProfile) → Result HostProfile
unfolding str_eq
find_profile id [] = err "unknown host profile"
find_profile id ((key, profile) ∷ rest) = if str_eq key id then ok profile else find_profile id rest

unfoldable pub require_host_profile : Bytes → Result HostProfile
unfolding builtin_host_profiles find_profile
require_host_profile id = builtin_host_profiles >>= λ entries. find_profile id entries
