-- ===== src/Universe/Capability.antt =====
-- tools/zenuniverse/capability.hpp: the capabilities that are known, and lists of alternatives.
pub mod Canonical
use zenov_os.Prelude.{
  ℕ, zero, suc, ◌+◌, List, [], ◌∷◌, ◌++◌, Bool, true, false, not, ◌&&◌, ◌||◌, length, take, drop,
  leb, ltb, ◌==◌, if◌then◌else◌,
}
use zenov_os.Prelude.Bytes.{Bytes, codes, str_eq, member, sort_texts}
use zenov_os.Prelude.Result.{Result, ok, err, ◌>>=◌, ◌>>◌, require}
use zenov_os.Package.Manifest.Validate.{split_on}

abbrev pub runtime_names : List Bytes
runtime_names =
    codes "native"
    ∷ codes "linux-i386-minimal"
    ∷ codes "linux-abi"
    ∷ codes "wine"
    ∷ codes "proton"
    ∷ codes "qemu-user"
    ∷ codes "qemu-system"
    ∷ codes "darling"
    ∷ codes "duckstation"
    ∷ codes "ppsspp"
    ∷ codes "pcsx2"
    ∷ codes "rpcs3"
    ∷ codes "xemu"
    ∷ codes "xenia"
    ∷ codes "external"
    ∷ []

abbrev pub static_capabilities : List Bytes
static_capabilities =
    codes "abi.zenov.zex1"
    ∷ codes "abi.linux.i386.int80-minimal"
    ∷ codes "audio.low-latency"
    ∷ codes "audio.stream"
    ∷ codes "cpu.avx2"
    ∷ codes "cpu.sse4.1"
    ∷ codes "cpu.x86"
    ∷ codes "cpu.x86_64-modern"
    ∷ codes "filesystem.fuse-or-extract"
    ∷ codes "filesystem.overlay"
    ∷ codes "graphics.framebuffer"
    ∷ codes "graphics.opengl"
    ∷ codes "graphics.opengl3.0"
    ∷ codes "graphics.opengl3.1"
    ∷ codes "graphics.opengl3.3"
    ∷ codes "graphics.vulkan"
    ∷ codes "graphics.vulkan1.0"
    ∷ codes "graphics.vulkan1.1"
    ∷ codes "graphics.vulkan1.3"
    ∷ codes "graphics.window-system"
    ∷ codes "input.gamepad"
    ∷ codes "input.keyboard"
    ∷ codes "input.mouse"
    ∷ codes "kernel.dynamic-linker"
    ∷ codes "kernel.futex"
    ∷ codes "kernel.jit"
    ∷ codes "kernel.mmap"
    ∷ codes "kernel.namespaces"
    ∷ codes "kernel.processes"
    ∷ codes "kernel.signals"
    ∷ codes "kernel.single-foreground-process"
    ∷ codes "kernel.threads"
    ∷ codes "loader.elf32-static"
    ∷ codes "loader.elf64-dynamic"
    ∷ codes "loader.elf64-static"
    ∷ codes "storage.large-files"
    ∷ codes "storage.small-files"
    ∷ codes "storage.zenovfs"
    ∷ []

unfoldable pub known_capability : Bytes → Bool
known_capability value =
    member value static_capabilities
    || str_eq (take 8 value) (codes "runtime.") && member (drop 8 value) runtime_names

-- The loop over the tokens between the bars.
unfoldable pub check_tokens : List Bytes → Result (List Bytes)
check_tokens [] = ok []
check_tokens (token ∷ tokens) = do
  require (known_capability token) "unknown capability in requires-any"
  options ← check_tokens tokens
  ok (token ∷ options)

-- `std::adjacent_find` finds something.
unfoldable pub has_adjacent : List Bytes → Bool
has_adjacent [] = false
has_adjacent (x ∷ []) = false
has_adjacent (x ∷ y ∷ rest) = str_eq x y || has_adjacent (y ∷ rest)

unfoldable pub parse_capability_alternatives : Bytes → Result (List Bytes)
parse_capability_alternatives value = do
  options ← check_tokens (split_on b'|' value)
  require (not (ltb (length options) 2)) "requires-any must contain at least two capabilities"
  require (not (has_adjacent (sort_texts options))) "requires-any contains duplicate capability"
  ok (sort_texts options)

unfoldable pub join_bars : List Bytes → Bytes
join_bars [] = []
join_bars (option ∷ []) = option
join_bars (option ∷ next ∷ options) = option ++ b'|' ∷ join_bars (next ∷ options)

unfoldable pub canonical_alternatives : Bytes → Result Bytes
canonical_alternatives value = do
  options ← parse_capability_alternatives value
  ok (join_bars options)
