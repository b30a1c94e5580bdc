-- ===== src/Package/Archive/Slices.antt =====
-- The parts of a package that is built, and the slices that the reader takes of it.
use zenov_os.Prelude.{
  ℕ, ◌+◌, ◌<◌, ◌≤◌, ◌≡◌, refl, sym, ap, ◌∙◌, arith, [], ◌++◌, true, length, take, drop,
  length-append, leb, ◌==◌,
}
use Prim.{tt}
use zenov_os.Prelude.Bytes.{Bytes}
use zenov_os.Prelude.Bytes.Laws.{take-append, drop-append, append_assoc}
use zenov_os.Prelude.Result.{ok}
use zenov_os.Package.Common.{append_u32_le, append_u64_le, le_bytes}
use zenov_os.Package.Sha256.{hash}
use zenov_os.Package.Manifest.{Manifest, canonical_manifest}
use zenov_os.Package.Manifest.Validate.{validate_manifest}
use zenov_os.Package.Archive.{header_bytes, build_package_bytes, slice, parse_header}
use zenov_os.Package.Archive.Layout.{with_header, length-with_header, parse_header-with_header}

slice_lem :
    (pre mid post : Bytes) (at n : ℕ)
    → length pre ≡ at
    → length mid ≡ n
    → slice at n (pre ++ (mid ++ post)) ≡ mid
slice_lem pre mid post at n a e =
    ap (λ k. slice k n (pre ++ (mid ++ post))) (sym a)
    ∙ ap (λ t. take n t) (drop-append pre (mid ++ post))
    ∙ ap (λ k. take k (mid ++ post)) (sym e)
    ∙ take-append mid post

-- The parts of a package in a row.
unfoldable pub package_bytes : Bytes → Bytes → Bytes → Bytes → Bytes → Bytes
package_bytes text payload d1 d2 d3 =
    with_header (length text) (length payload) (d1 ++ (d2 ++ (d3 ++ (text ++ payload))))

join_five : (a b c d e : Bytes) → (((a ++ b) ++ c) ++ d) ++ e ≡ a ++ (b ++ (c ++ (d ++ e)))
join_five a b c d e =
    append_assoc ((a ++ b) ++ c) d e
    ∙ append_assoc (a ++ b) c (d ++ e)
    ∙ append_assoc a b (c ++ (d ++ e))

join_four : (a b c d : Bytes) → ((a ++ b) ++ c) ++ d ≡ a ++ (b ++ (c ++ d))
join_four a b c d = append_assoc (a ++ b) c d ∙ append_assoc a b (c ++ d)

-- The three digests of a package.
pub record Digests (text payload d1 d2 d3 : Bytes) : Type 0 where
  pub manifest_hash : hash text ≡ ok d1
  pub payload_hash : hash payload ≡ ok d2
  pub header_hash : hash (header_bytes (length text) (length payload) d1 d2) ≡ ok d3
  pub first_size : length d1 ≡ 32
  pub second_size : length d2 ≡ 32
  pub third_size : length d3 ≡ 32

pub length-header_bytes :
    (a b : ℕ) (d1 d2 : Bytes) → length (header_bytes a b d1 d2) ≡ 32 + length d1 + length d2
unfolding header_bytes append_u32_le append_u64_le le_bytes
length-header_bytes a b d1 d2 = omega (arith, length-append d1 d2)

bytes_shape :
    (text payload d1 d2 d3 : Bytes)
    → ((header_bytes (length text) (length payload) d1 d2 ++ d3) ++ text) ++ payload
      ≡ package_bytes text payload d1 d2 d3
unfolding header_bytes append_u32_le append_u64_le le_bytes with_header package_bytes
bytes_shape text payload d1 d2 d3 =
    ap (with_header (length text) (length payload)) (join_five d1 d2 d3 text payload)

pub build_lem :
    (m : Manifest) (payload d1 d2 d3 : Bytes)
    → validate_manifest m (length payload) ≡ ok tt
    → length (canonical_manifest m) ≤ 65536
    → length payload ≤ 4294967296
    → Digests (canonical_manifest m) payload d1 d2 d3
    → build_package_bytes m payload ≡ ok (package_bytes (canonical_manifest m) payload d1 d2 d3)
unfolding build_package_bytes
build_lem m payload d1 d2 d3 valid few small h =
    let text = canonical_manifest m in
    let header = header_bytes (length text) (length payload) d1 d2 in
    let few' : leb (length text) 65536 ≡ true = ground arith in
    let small' : leb (length payload) 4294967296 ≡ true = ground arith in
    let size : (length (header ++ d3) == 128) ≡ true = ground (
      arith,
      length-append header d3,
      length-header_bytes (length text) (length payload) d1 d2,
      h.first_size,
      h.second_size,
      h.third_size,
    ) in
    rw (valid, few', small', h.manifest_hash, h.payload_hash, h.header_hash)
      (rw size (ap ok (bytes_shape text payload d1 d2 d3)))

-- The slices that the reader takes.
pub header_slice :
    (text payload d1 d2 d3 : Bytes)
    → Digests text payload d1 d2 d3
    → slice 0 96 (package_bytes text payload d1 d2 d3)
      ≡ header_bytes (length text) (length payload) d1 d2
header_slice text payload d1 d2 d3 h =
    let header = header_bytes (length text) (length payload) d1 d2 in
    ap (slice 0 96) (
      sym (bytes_shape text payload d1 d2 d3)
      ∙ append_assoc (header ++ d3) text payload
      ∙ append_assoc header d3 (text ++ payload))
    ∙ slice_lem [] header (d3 ++ (text ++ payload)) 0 96 refl (
        omega (
          arith,
          length-header_bytes (length text) (length payload) d1 d2,
          h.first_size,
          h.second_size,
        ))

module _ (text payload d1 d2 d3 : Bytes) (h : Digests text payload d1 d2 d3) where
  abbrev put_header : Bytes → Bytes
  put_header = with_header (length text) (length payload)

  pub manifest_slice : slice 32 32 (package_bytes text payload d1 d2 d3) ≡ d1
  unfolding package_bytes with_header le_bytes
  manifest_slice =
      slice_lem (put_header []) d1 (d2 ++ (d3 ++ (text ++ payload))) 32 32 refl h.first_size

  pub payload_slice : slice 64 32 (package_bytes text payload d1 d2 d3) ≡ d2
  unfolding package_bytes with_header le_bytes
  payload_slice =
      slice_lem (put_header d1) d2 (d3 ++ (text ++ payload)) 64 32 (omega (arith, h.first_size))
        h.second_size

  pub digest_slice : slice 96 32 (package_bytes text payload d1 d2 d3) ≡ d3
  unfolding package_bytes with_header le_bytes
  digest_slice =
      ap (λ t. slice 96 32 (put_header t)) (sym (append_assoc d1 d2 (d3 ++ (text ++ payload))))
      ∙ slice_lem (put_header (d1 ++ d2)) d3 (text ++ payload) 96 32
          (omega (arith, length-append d1 d2, h.first_size, h.second_size)) h.third_size

  pub text_slice : slice 128 (length text) (package_bytes text payload d1 d2 d3) ≡ text
  unfolding package_bytes with_header le_bytes
  text_slice =
      ap (λ t. slice 128 (length text) (put_header t)) (sym (join_four d1 d2 d3 (text ++ payload)))
      ∙ slice_lem (put_header ((d1 ++ d2) ++ d3)) text payload 128 (length text)
          (omega (
            arith,
            length-append (d1 ++ d2) d3,
            length-append d1 d2,
            h.first_size,
            h.second_size,
            h.third_size,
          ))
          refl

  pub payload_rest : drop (128 + length text) (package_bytes text payload d1 d2 d3) ≡ payload
  unfolding package_bytes with_header le_bytes
  payload_rest =
      let pre = put_header (((d1 ++ d2) ++ d3) ++ text) in
      let size : length pre ≡ 128 + length text = omega (
        arith,
        length-append ((d1 ++ d2) ++ d3) text,
        length-append (d1 ++ d2) d3,
        length-append d1 d2,
        h.first_size,
        h.second_size,
        h.third_size,
      ) in
      ap (λ t. drop (128 + length text) (put_header t)) (sym (join_five d1 d2 d3 text payload))
      ∙ ap (λ k. drop k (pre ++ payload)) (sym size)
      ∙ drop-append pre payload

  pub sizes_read :
      length text ≤ 65536
      → length payload ≤ 4294967296
      → parse_header (package_bytes text payload d1 d2 d3) ≡ ok (length text, length payload)
  unfolding package_bytes
  sizes_read few small =
      parse_header-with_header (length text) (length payload)
        (d1 ++ (d2 ++ (d3 ++ (text ++ payload)))) few small
        (omega (
          arith,
          length-append d1 (d2 ++ (d3 ++ (text ++ payload))),
          length-append d2 (d3 ++ (text ++ payload)),
          length-append d3 (text ++ payload),
          length-append text payload,
          h.first_size,
          h.second_size,
          h.third_size,
        ))

  pub size_small :
      length text ≤ 65536
      → length payload ≤ 4294967296
      → length (package_bytes text payload d1 d2 d3) < 2305843009213693952
  unfolding package_bytes
  size_small few small = omega (
    arith,
    length-with_header (length text) (length payload) (d1 ++ (d2 ++ (d3 ++ (text ++ payload)))),
    length-append d1 (d2 ++ (d3 ++ (text ++ payload))),
    length-append d2 (d3 ++ (text ++ payload)),
    length-append d3 (text ++ payload),
    length-append text payload,
    h.first_size,
    h.second_size,
    h.third_size,
  )
