-- ===== src/Package/Archive/RoundTrip.antt =====
-- A package that is built is read back.
use zenov_os.Prelude.{ℕ, ◌+◌, ◌<◌, ◌≤◌, ◌≡◌, refl, ap, ◌∙◌, arith, length, drop}
use Prim.{tt}
use zenov_os.Prelude.Bytes.{Bytes, str_eq}
use zenov_os.Prelude.Bytes.Laws.{str_eq_refl}
use zenov_os.Prelude.Result.{Result, ok, ◌>>=◌}
use zenov_os.Package.Common.{hex_encode}
use zenov_os.Package.Sha256.{hash, sha256_hex}
use zenov_os.Package.Sha256.Padding.{hash-digest_blocks}
use zenov_os.Package.Manifest.{Manifest, canonical_manifest}
use zenov_os.Package.Manifest.Validate.{validate_manifest, parse_and_validate_manifest}
use zenov_os.Package.Manifest.Validity.{
  IsTrimmed, validate_manifest-AreValues, validate_manifest-sorted_manifest,
}
use zenov_os.Package.Manifest.RoundTrip.{
  sorted_manifest, parse_manifest-canonical_manifest, canonical_manifest-sorted_manifest,
}
use zenov_os.Package.Archive.{
  Package, header_bytes, build_package_bytes, slice, parse_body, parse_package_bytes,
}
use zenov_os.Package.Archive.Slices.{
  Digests, package_bytes, build_lem, header_slice, length-header_bytes, manifest_slice,
  payload_slice, digest_slice, text_slice, payload_rest, sizes_read, size_small,
}

-- A text that is not too long has a digest of 32 bytes.
digest_of :
    (message : Bytes)
    → length message < 2305843009213693952
    → (d : Bytes) × (hash message ≡ ok d) × (length d ≡ 32)
digest_of message small = (_, hash-digest_blocks message small, refl)

parse_body_lem :
    (bytes text payload header d1 d2 d3 hex : Bytes) (m : Manifest)
    → slice 0 96 bytes ≡ header
    → slice 96 32 bytes ≡ d3
    → slice 128 (length text) bytes ≡ text
    → drop (128 + length text) bytes ≡ payload
    → slice 32 32 bytes ≡ d1
    → slice 64 32 bytes ≡ d2
    → hash header ≡ ok d3
    → hash text ≡ ok d1
    → hash payload ≡ ok d2
    → parse_and_validate_manifest text (length payload) ≡ ok m
    → canonical_manifest m ≡ text
    → sha256_hex bytes ≡ ok hex
    → parse_body bytes (length text)
      ≡ ok (record {
        manifest = m;
        manifest_text = text;
        payload = payload;
        manifest_digest = d1;
        payload_digest = d2;
        package_digest_hex = hex;
      })
unfolding parse_body
parse_body_lem bytes text payload header d1 d2 d3 hex m a b c d e f g h i j k l =
    rw (a, b, c, d, e, f)
      (rw (g, h, i, j, l, str_eq_refl d1, str_eq_refl d2, str_eq_refl d3)
        (rw (ap (λ t. str_eq t text) k ∙ str_eq_refl text) refl))

sorted_read :
    (m : Manifest) (payload_size : ℕ)
    → validate_manifest m payload_size ≡ ok tt
    → IsTrimmed m
    → parse_and_validate_manifest (canonical_manifest m) payload_size ≡ ok (sorted_manifest m)
unfolding parse_and_validate_manifest
sorted_read m payload_size valid trimmed =
    rw
      (parse_manifest-canonical_manifest m
        (validate_manifest-AreValues m payload_size valid trimmed))
      (rw (validate_manifest-sorted_manifest m payload_size valid) refl)

hex_of :
    (message : Bytes)
    → length message < 2305843009213693952
    → (hex : Bytes) × (sha256_hex message ≡ ok hex)
unfolding sha256_hex
hex_of message small =
    let d = digest_of message small in
    (hex_encode d.0, ap (λ r. r >>= λ digest. ok (hex_encode digest)) d.1)

-- What a package holds.
abbrev pub contents : Package → Result (Manifest × Bytes)
contents p = ok (p.manifest, p.payload)

read_lem :
    (m : Manifest) (payload d1 d2 d3 : Bytes)
    → validate_manifest m (length payload) ≡ ok tt
    → IsTrimmed m
    → length (canonical_manifest m) ≤ 65536
    → length payload ≤ 4294967296
    → Digests (canonical_manifest m) payload d1 d2 d3
    → (parse_package_bytes (package_bytes (canonical_manifest m) payload d1 d2 d3) >>= contents)
      ≡ ok (sorted_manifest m, payload)
unfolding parse_package_bytes
read_lem m payload d1 d2 d3 valid trimmed few small h =
    let text = canonical_manifest m in
    let bytes = package_bytes text payload d1 d2 d3 in
    let hex = hex_of bytes (size_small text payload d1 d2 d3 h few small) in
    let body =
      parse_body_lem bytes text payload (header_bytes (length text) (length payload) d1 d2) d1 d2 d3
        hex.0 (sorted_manifest m) (header_slice text payload d1 d2 d3 h)
        (digest_slice text payload d1 d2 d3 h) (text_slice text payload d1 d2 d3 h)
        (payload_rest text payload d1 d2 d3 h) (manifest_slice text payload d1 d2 d3 h)
        (payload_slice text payload d1 d2 d3 h) h.header_hash h.manifest_hash h.payload_hash
        (sorted_read m (length payload) valid trimmed) (canonical_manifest-sorted_manifest m)
        hex.1 in
    rw (sizes_read text payload d1 d2 d3 h few small) (rw body refl)

-- A manifest that the validation lets pass with the payload, that has no space at the ends of its
-- entry point, license and source, and whose canonical form has 64 KiB at most, is built into a
-- package with a payload of 4 GiB at most, and reading the package succeeds with that payload and
-- with the manifest, its lists sorted.
pub parse_package_bytes-build_package_bytes :
    (m : Manifest) (payload : Bytes)
    → validate_manifest m (length payload) ≡ ok tt
    → IsTrimmed m
    → length (canonical_manifest m) ≤ 65536
    → length payload ≤ 4294967296
    → (build_package_bytes m payload >>= λ bytes. parse_package_bytes bytes >>= contents)
      ≡ ok (sorted_manifest m, payload)
parse_package_bytes-build_package_bytes m payload valid trimmed few small =
    let text = canonical_manifest m in
    let (d1, hash1, size1) = digest_of text (omega (arith, few)) in
    let (d2, hash2, size2) = digest_of payload (omega (arith, small)) in
    let header = header_bytes (length text) (length payload) d1 d2 in
    let (d3, hash3, size3) =
      digest_of header
        (omega (arith, length-header_bytes (length text) (length payload) d1 d2, size1, size2)) in
    let h : Digests text payload d1 d2 d3 = record {
      manifest_hash = hash1;
      payload_hash = hash2;
      header_hash = hash3;
      first_size = size1;
      second_size = size2;
      third_size = size3;
    } in
    rw (build_lem m payload d1 d2 d3 valid few small h)
      (read_lem m payload d1 d2 d3 valid trimmed few small h)
