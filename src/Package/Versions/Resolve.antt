-- ===== src/Package/Versions/Resolve.antt =====
-- The verdict of `resolve_manifest` in tools/zenpkg/manifest.hpp.
use zenov_os.Prelude.{
  ◌≡◌, refl, ap, ◌∙◌, arith, List, [], ◌∷◌, ◌++◌, Bool, true, false, ◌&&◌, ◌||◌, inl, inr, length,
  length-append, ◌==◌, Bool-cases,
}
use zenov_os.Prelude.Bytes.{Bytes, codes, str_eq, member}
use zenov_os.Prelude.Bytes.Sorting.{all_texts}
use zenov_os.Prelude.Result.{Result, ok, err, ◌>>=◌}
use zenov_os.Package.Manifest.{Manifest}
use zenov_os.Package.Versions.{
  version_at_least, Resolution, mismatch, too_old, missing_capabilities, resolve_manifest,
}

-- A field that names the host's value, or any.
abbrev pub is_for : Bytes → Bytes → Bool
is_for wanted host = str_eq wanted (codes "any") || str_eq wanted host

abbrev no_reasons : List Bytes → Bool
no_reasons reasons = length reasons == 0

no_reasons-append : (xs ys : List Bytes) → no_reasons (xs ++ ys) ≡ (no_reasons xs && no_reasons ys)
no_reasons-append xs ys = ground (arith, length-append xs ys)

no_reasons-mismatch :
    (what wanted host : Bytes) → no_reasons (mismatch what wanted host) ≡ is_for wanted host
no_reasons-mismatch what wanted host = elim (Bool-cases (str_eq wanted (codes "any"))) [
  | inl e ↦ rw e refl
  | inr e ↦ elim (Bool-cases (str_eq wanted host)) [
    | inl f ↦ rw (e, f) refl
    | inr f ↦ rw (e, f) refl
  ]
]

no_reasons-missing_capabilities :
    (capabilities required : List Bytes)
    → no_reasons (missing_capabilities capabilities required)
      ≡ all_texts (λ c. member c capabilities) required
unfolding missing_capabilities all_texts
no_reasons-missing_capabilities capabilities [] = refl
no_reasons-missing_capabilities capabilities (c ∷ cs) = elim (Bool-cases (member c capabilities)) [
  | inl e ↦ rw e (no_reasons-missing_capabilities capabilities cs)
  | inr e ↦ rw e (ground arith)
]

no_reasons-too_old :
    (enough : Bool) (required host : Bytes) → no_reasons (too_old enough required host) ≡ enough
no_reasons-too_old true required host = refl
no_reasons-too_old false required host = refl

abbrev pub verdict : Resolution → Result Bool
verdict r = ok r.compatible

then_verdict :
    (r : Result Bool) (f : Bool → Result Resolution) (g : Bool → Result Bool)
    → ((b : Bool) → (f b >>= verdict) ≡ g b)
    → ((r >>= f) >>= verdict) ≡ (r >>= g)
then_verdict (ok b) f g e = e b
then_verdict (err m) f g e = refl

no_reasons_four :
    (a b c d : List Bytes)
    → no_reasons (a ++ b ++ c ++ d) ≡ (no_reasons a && no_reasons b && no_reasons c && no_reasons d)
no_reasons_four a b c d =
    no_reasons-append (a ++ b ++ c) d
    ∙ ap (λ t. t && no_reasons d)
        (no_reasons-append (a ++ b) c ∙ ap (λ t. t && no_reasons c) (no_reasons-append a b))

-- The verdict of a resolution: it fails exactly as the comparison of the host's version with `min_os`
-- does, and otherwise the manifest is compatible if its architecture and its target are the host's or
-- "any", the version is enough, and the host has every capability that the manifest names.
pub resolve_manifest-verdict :
    (m : Manifest) (architecture target os_version : Bytes) (capabilities : List Bytes)
    → (resolve_manifest m architecture target os_version capabilities >>= verdict) ≡ (
        version_at_least os_version m.min_os >>= λ enough. ok (
          is_for m.architecture architecture
          && is_for m.target target
          && enough
          && all_texts (λ c. member c capabilities) m.capabilities))
unfolding resolve_manifest
resolve_manifest-verdict m architecture target os_version capabilities =
    then_verdict (version_at_least os_version m.min_os) _ _ (λ enough.
      let a = mismatch (codes "architecture") m.architecture architecture in
      let b = mismatch (codes "target") m.target target in
      let c = too_old enough m.min_os os_version in
      let d = missing_capabilities capabilities m.capabilities in
      ap ok (
        no_reasons_four a b c d
        ∙ ap (λ t. t && no_reasons b && no_reasons c && no_reasons d)
            (no_reasons-mismatch (codes "architecture") m.architecture architecture)
        ∙ ap (λ t. is_for m.architecture architecture && t && no_reasons c && no_reasons d)
            (no_reasons-mismatch (codes "target") m.target target)
        ∙ ap
            (λ t. is_for m.architecture architecture && is_for m.target target && t && no_reasons d)
            (no_reasons-too_old enough m.min_os os_version)
        ∙ ap (λ t. is_for m.architecture architecture && is_for m.target target && enough && t)
            (no_reasons-missing_capabilities capabilities m.capabilities)))
