-- ===== src/Package/Tests.antt =====
-- Concrete runs of the package tools.
use zenov_os.Prelude.{◌/◌, ◌≤◌, ◌≡◌, refl, arith, [], ◌∷◌, true, false, ◌&&◌, length}
use Prim.{tt}
use zenov_os.Prelude.Bytes.{
  Bytes, codes, str_eq, str_less, find_byte, member, all_bytes, back, skip_spaces, sort_texts,
}
use zenov_os.Prelude.Bytes.Sorting.{all_texts}
use zenov_os.Prelude.Result.{ok, ◌>>=◌}
use zenov_os.Package.Common.{
  is_safe_identifier, is_safe_version, is_printable_text, trim, has_two_dots,
}
use zenov_os.Package.Sha256.{
  absorb, hash, update, bytes, reset, initial_words, words_bytes, transform, pad, put_zeros,
  put_length, sha256_hex, transform_full,
}
use zenov_os.Package.Sha256.Streaming.{update-append, absorb_lem, pushes}
use zenov_os.Package.Sha256.Padding.{hash-digest_blocks, digest_blocks, padded}
use zenov_os.Package.Manifest.{Manifest, canonical_manifest, list_lines, pair_lines}
use zenov_os.Package.Manifest.RoundTrip.{sorted_manifest}
use zenov_os.Package.Manifest.Validity.{IsTrimmed}
use zenov_os.Package.Manifest.Validate.{
  validate_manifest, validate_fields, validate_kinds, validate_lists, validate_list,
  validate_requirement, is_safe_absolute_entrypoint, split_on, all_components, is_safe_component,
  is_allowed_kind, is_allowed_runtime, is_allowed_payload_type,
}
use zenov_os.Package.Versions.{
  version_at_least, resolve_manifest, parse_numeric_version, numbers_at_least, version_core,
  parse_components, parse_digits,
}
use zenov_os.Package.Versions.Laws.{version_at_least_total, version_at_least_trans}
use zenov_os.Package.Versions.Resolve.{resolve_manifest-verdict, is_for, verdict}
use zenov_os.Package.Archive.{build_package_bytes, parse_package_bytes}
use zenov_os.Package.Archive.RoundTrip.{parse_package_bytes-build_package_bytes, contents}

-- The digest of "abc".
digest_abc :
    sha256_hex (codes "abc")
    ≡ ok (codes "ba7816bf8f01cfea414140de5dae2223b00361a396177a9cb410ff61f20015ad")
unfolding sha256_hex transform pad put_zeros put_length transform_full
digest_abc = refl

abbrev sample : Manifest
sample = record {
  format = codes "zenpkg-manifest-1";
  name = codes "zen-notes";
  version = codes "1.2.0";
  architecture = codes "x86_64";
  target = codes "zenov";
  kind = codes "application";
  entrypoint = codes "/apps/notes.zex";
  payload_type = codes "zex1";
  runtime = codes "native";
  min_os = codes "0.9";
  license = codes "BSD-2-Clause";
  source = codes "https://example.org/notes";
  asset_policy = codes "redistributable";
  capabilities = codes "ui:window" ∷ codes "fs:read" ∷ [];
  dependencies = codes "zen-base>=1.0" ∷ [];
  conflicts = [];
}

abbrev payload : Bytes
payload = 7 ∷ 0 ∷ 255 ∷ []

sample_valid : validate_manifest sample (length payload) ≡ ok tt
unfolding validate_manifest validate_fields validate_kinds validate_lists validate_list
    validate_requirement is_safe_absolute_entrypoint split_on all_components is_safe_component
    is_allowed_kind is_allowed_runtime is_allowed_payload_type is_safe_identifier is_safe_version
    is_printable_text str_eq member all_bytes has_two_dots back
sample_valid = refl

sample-IsTrimmed : IsTrimmed sample
unfolding IsTrimmed trim skip_spaces
sample-IsTrimmed = (refl, refl, refl)

sample_small : length (canonical_manifest sample) ≤ 65536
unfolding canonical_manifest list_lines pair_lines sort_texts
sample_small = omega arith

payload_small : length payload ≤ 4294967296
payload_small = omega arith

parse_package_bytes-build_package_bytes_example :
    (build_package_bytes sample payload >>= λ bytes. parse_package_bytes bytes >>= contents)
    ≡ ok (sorted_manifest sample, payload)
parse_package_bytes-build_package_bytes_example =
    parse_package_bytes-build_package_bytes sample payload sample_valid sample-IsTrimmed
      sample_small payload_small

update-append_example :
    (update reset (bytes (codes "ab")) >>= λ next. update next (bytes (codes "c")))
    ≡ update reset (bytes (codes "abc"))
update-append_example = update-append reset (codes "ab") (codes "c") (omega arith) (omega arith)

hash-digest_blocks_example :
    hash (codes "abc")
    ≡ ok (
        words_bytes
          (digest_blocks (length (padded (codes "abc")) / 64) initial_words (padded (codes "abc"))))
hash-digest_blocks_example = hash-digest_blocks (codes "abc") (omega arith)

newer : version_at_least (codes "1.10") (codes "1.9.3") ≡ ok true
unfolding version_at_least parse_numeric_version numbers_at_least version_core parse_components
    parse_digits split_on str_eq str_less find_byte
newer = refl

final_newer : version_at_least (codes "1.9.3") (codes "1.9.3-rc1") ≡ ok true
unfolding version_at_least parse_numeric_version numbers_at_least version_core parse_components
    parse_digits split_on str_eq str_less find_byte
final_newer = refl

prerelease_older : version_at_least (codes "2.0-rc1") (codes "2.0.0") ≡ ok false
unfolding version_at_least parse_numeric_version numbers_at_least version_core parse_components
    parse_digits split_on str_eq str_less find_byte
prerelease_older = refl

version_at_least_total_example : version_at_least (codes "2.0.0") (codes "2.0-rc1") ≡ ok true
version_at_least_total_example =
    version_at_least_total (codes "2.0-rc1") (codes "2.0.0") prerelease_older

version_at_least_trans_example : version_at_least (codes "1.10") (codes "1.9.3-rc1") ≡ ok true
version_at_least_trans_example =
    version_at_least_trans (codes "1.10") (codes "1.9.3") (codes "1.9.3-rc1") newer final_newer

resolve_manifest-verdict_example :
    (resolve_manifest sample (codes "x86_64") (codes "zenov") (codes "1.0") (codes "ui:window" ∷ [])
      >>= verdict)
    ≡ (version_at_least (codes "1.0") (codes "0.9") >>= λ enough. ok (
        is_for (codes "x86_64") (codes "x86_64")
        && is_for (codes "zenov") (codes "zenov")
        && enough
        && all_texts
            (λ c. member c (codes "ui:window" ∷ []))
            (codes "ui:window" ∷ codes "fs:read" ∷ [])))
resolve_manifest-verdict_example =
    resolve_manifest-verdict sample (codes "x86_64") (codes "zenov") (codes "1.0")
      (codes "ui:window" ∷ [])

absorb_lem_example : absorb 5 reset (codes "abc") ≡ pushes reset (codes "abc")
absorb_lem_example = absorb_lem 5 reset (codes "abc") (omega arith) (omega arith)
