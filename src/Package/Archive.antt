-- ===== src/Package/Archive.antt =====
-- tools/zenpkg/archive.hpp: the bytes of a package, written and read.
pub mod Index
pub mod Layout
pub mod Slices
pub mod RoundTrip
use zenov_os.Prelude.{
  ℕ, zero, suc, ◌+◌, ◌-◌, List, [], ◌∷◌, ◌++◌, Bool, true, false, not, ◌&&◌, length, take, drop,
  u64, ltb, leb, ◌==◌,
}
use Prim.{Unit, tt}
use zenov_os.Prelude.Bytes.{Bytes, codes, str_eq, starts_with}
use zenov_os.Prelude.Result.{Result, ok, err, ◌>>=◌, ◌>>◌, require}
use zenov_os.Package.Common.{append_u32_le, append_u64_le, read_u32_le, read_u64_le}
use zenov_os.Package.Sha256.{hash, sha256_hex}
use zenov_os.Package.Manifest.{Manifest, canonical_manifest}
use zenov_os.Package.Manifest.Validate.{validate_manifest, parse_and_validate_manifest}

abbrev pub package_magic : Bytes
package_magic = codes "ZENPKG1" ++ (0 ∷ [])

abbrev pub package_version : ℕ
package_version = 1

abbrev pub package_header_size : ℕ
package_header_size = 128

abbrev pub max_manifest_size : ℕ
max_manifest_size = 65536

abbrev pub max_payload_size : ℕ
max_payload_size = 4294967296

pub record Package : Type 0 where
  pub manifest : Manifest
  pub manifest_text : Bytes
  pub payload : Bytes
  pub manifest_digest : Bytes
  pub payload_digest : Bytes
  pub package_digest_hex : Bytes

-- The header up to its own digest.
unfoldable pub header_bytes : ℕ → ℕ → Bytes → Bytes → Bytes
header_bytes manifest_size payload_size manifest_digest payload_digest =
    append_u64_le
      (append_u64_le (append_u32_le (append_u32_le package_magic package_version) 0) manifest_size)
      payload_size
    ++ manifest_digest
    ++ payload_digest

unfoldable pub build_package_bytes : Manifest → Bytes → Result Bytes
build_package_bytes manifest payload = do
  validate_manifest manifest (length payload)
  let canonical = canonical_manifest manifest
  require (leb (length canonical) max_manifest_size) "manifest exceeds package limit"
  require (leb (length payload) max_payload_size) "payload exceeds package limit"
  manifest_digest ← hash canonical
  payload_digest ← hash payload
  let output = header_bytes (length canonical) (length payload) manifest_digest payload_digest
  header_digest ← hash output
  require (length (output ++ header_digest) == package_header_size)
      "internal package header size mismatch"
  ok ((output ++ header_digest) ++ canonical ++ payload)

-- `length` bytes from an offset on, within the bounds.
abbrev pub slice : ℕ → ℕ → Bytes → Bytes
slice at size bytes = take size (drop at bytes)

-- The sizes of the manifest and of the payload in a header that the checks on it let pass. `size_t`
-- has 64 bits, so the test that a size fits the address space never fails.
unfoldable pub parse_header : Bytes → Result (ℕ × ℕ)
parse_header bytes = do
  require (not (ltb (length bytes) package_header_size)) "package is smaller than the fixed header"
  require (starts_with bytes package_magic) "invalid package magic"
  version ← read_u32_le bytes 8
  flags ← read_u32_le bytes 12
  manifest_size ← read_u64_le bytes 16
  payload_size ← read_u64_le bytes 24
  require (version == package_version) "unsupported package version"
  require (flags == 0) "unsupported package flags"
  require (leb manifest_size max_manifest_size) "manifest size exceeds package limit"
  require (leb payload_size max_payload_size) "payload size exceeds package limit"
  require (u64 (package_header_size + manifest_size + payload_size) == length bytes)
      "package length does not match header sizes"
  ok (manifest_size, payload_size)

-- The manifest and the payload behind the header, with their digests.
unfoldable pub parse_body : Bytes → ℕ → Result Package
parse_body bytes manifest_size = do
  header_digest ← hash (slice 0 96 bytes)
  require (str_eq header_digest (slice 96 32 bytes)) "package header checksum mismatch"
  let manifest_text = slice package_header_size manifest_size bytes
  let payload = drop (package_header_size + manifest_size) bytes
  actual_manifest ← hash manifest_text
  actual_payload ← hash payload
  require (str_eq actual_manifest (slice 32 32 bytes)) "manifest SHA-256 mismatch"
  require (str_eq actual_payload (slice 64 32 bytes)) "payload SHA-256 mismatch"
  manifest ← parse_and_validate_manifest manifest_text (length payload)
  require (str_eq (canonical_manifest manifest) manifest_text) "manifest is not in canonical form"
  digest ← sha256_hex bytes
  ok (record {
    manifest = manifest;
    manifest_text = manifest_text;
    payload = payload;
    manifest_digest = actual_manifest;
    payload_digest = actual_payload;
    package_digest_hex = digest;
  })

unfoldable pub parse_package_bytes : Bytes → Result Package
parse_package_bytes bytes = do
  (manifest_size, payload_size) ← parse_header bytes
  parse_body bytes manifest_size
