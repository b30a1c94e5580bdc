-- ===== src/Package/Manifest/Validity.antt =====
-- The validation of a manifest: what it lets pass can be written and read, in any order of the lists.
use zenov_os.Prelude.{
  ℕ, ◌≡◌, refl, ap, ◌∙◌, arith, List, [], ◌∷◌, Bool, true, not, ◌&&◌, ◌||◌, length, ltb, ◌==◌,
}
use Prim.{tt}
use Prim.Native.String.{String}
use zenov_os.Prelude.Bytes.{Bytes, codes, str_eq, member, all_bytes, sort_texts}
use zenov_os.Prelude.Bytes.Sorting.{
  all_texts_mono, all_texts, distinct, all_texts-sort_texts, distinct-sort_texts, str_eq_sym,
}
use zenov_os.Prelude.Result.{ok, ◌>>◌, require-eq-ok, bind-eq-ok, require_lem}
use zenov_os.Package.Common.{trim, is_safe_identifier, is_safe_version, is_printable_text}
use zenov_os.Package.Manifest.{Manifest, scalar_pairs}
use zenov_os.Package.Manifest.Laws.{is_key, is_value, are_pairs}
use zenov_os.Package.Manifest.RoundTrip.{AreValues, sorted_manifest}
use zenov_os.Package.Manifest.Validate.{
  requirement_byte, validate_requirement, validate_list, validate_fields, validate_kinds,
  validate_lists, validate_manifest, is_allowed_kind, is_allowed_payload_type, is_allowed_runtime,
  is_asset_policy, is_safe_absolute_entrypoint,
}
use zenov_os.Package.Manifest.Values.{
  is_requirement, identifier_value, version_value, requirement_value, text_value, kind_value,
  type_value, runtime_value, policy_value, format_value, entrypoint_value,
}

validate_requirement_iff :
    (value : Bytes)
    → ((validate_requirement value ≡ ok tt) → is_requirement value ≡ true)
      × (is_requirement value ≡ true → validate_requirement value ≡ ok tt)
unfolding validate_requirement
validate_requirement_iff value = (
  (λ h.
      let first = require-eq-ok (not (length value == 0 || ltb 96 (length value))) _ _ h in
      let second = require-eq-ok (all_bytes requirement_byte value) _ _ first.1 in
      rw (first.0, second.0) refl),
  (λ h.
      let size : not (length value == 0 || ltb 96 (length value)) ≡ true = ground arith in
      let inside : all_bytes requirement_byte value ≡ true = ground arith in
      require_lem _ _ _ size ∙ require_lem _ _ _ inside),
)

-- What the loop over a list asks of it.
abbrev list_test : List Bytes → List Bytes → Bool
list_test unique values =
    all_texts is_requirement values
    && all_texts (λ v. not (member v unique)) values
    && distinct values

fresh_more :
    (value : Bytes) (unique values : List Bytes)
    → all_texts (λ v. not (member v (value ∷ unique))) values
      ≡ (not (member value values) && all_texts (λ v. not (member v unique)) values)
unfolding all_texts member
fresh_more value unique [] = refl
fresh_more value unique (v ∷ vs) = ground (arith, fresh_more value unique vs, str_eq_sym value v)

validate_list-ok :
    (message : String) (unique values : List Bytes)
    → validate_list message unique values ≡ ok tt
    → list_test unique values ≡ true
unfolding validate_list all_texts distinct
validate_list-ok message unique [] h = refl
validate_list-ok message unique (value ∷ values) h =
    let first = bind-eq-ok (validate_requirement value) _ h in
    let second = require-eq-ok (not (member value unique)) _ _ first.2 in
    let rest = validate_list-ok message (value ∷ unique) values second.1 in
    ground (
      arith,
      fresh_more value unique values,
      (validate_requirement_iff value).0 first.1,
      second.0,
      rest,
    )

ok-validate_list :
    (message : String) (unique values : List Bytes)
    → list_test unique values ≡ true
    → validate_list message unique values ≡ ok tt
unfolding validate_list all_texts distinct
ok-validate_list message unique [] h = refl
ok-validate_list message unique (value ∷ values) h =
    let here : is_requirement value ≡ true = ground arith in
    let fresh : not (member value unique) ≡ true = ground arith in
    let rest : list_test (value ∷ unique) values ≡ true =
      ground (arith, fresh_more value unique values) in
    rw ((validate_requirement_iff value).1 here)
      (rw fresh (ok-validate_list message (value ∷ unique) values rest))

-- The verdict on a list does not depend on its order.
list_test-sort_texts :
    (values : List Bytes) → list_test [] (sort_texts values) ≡ list_test [] values
list_test-sort_texts values =
    rw
      (
        all_texts-sort_texts is_requirement values,
        all_texts-sort_texts (λ v. not (member v [])) values,
        distinct-sort_texts values,
      )
      refl

validate_lists-sorted_manifest :
    (m : Manifest) → validate_lists m ≡ ok tt → validate_lists (sorted_manifest m) ≡ ok tt
unfolding validate_lists sorted_manifest
validate_lists-sorted_manifest m h =
    let first = bind-eq-ok (validate_list "duplicate capability" [] m.capabilities) _ h in
    let second = bind-eq-ok (validate_list "duplicate dependency" [] m.dependencies) _ first.2 in
    let again : (message : String) (xs : List Bytes)
        → validate_list message [] xs ≡ ok tt
        → validate_list message [] (sort_texts xs) ≡ ok tt =
      λ message xs e.
        ok-validate_list message [] (sort_texts xs)
          (list_test-sort_texts xs ∙ validate_list-ok message [] xs e) in
    rw (again _ m.capabilities first.1)
      (rw (again _ m.dependencies second.1) (again _ m.conflicts second.2))

requirement_values :
    (message : String) (values : List Bytes)
    → validate_list message [] values ≡ ok tt
    → all_texts is_value values ≡ true
requirement_values message values h =
    let test = validate_list-ok message [] values h in
    all_texts_mono is_requirement is_value values requirement_value (ground arith)

-- The free texts of a manifest that was read have no space at their ends.
unfoldable pub IsTrimmed : Manifest → Type 0
IsTrimmed m =
    (trim m.entrypoint ≡ m.entrypoint) × (trim m.license ≡ m.license) × (trim m.source ≡ m.source)

fields_pairs :
    (m : Manifest) → validate_fields m ≡ ok tt → IsTrimmed m → are_pairs (scalar_pairs m) ≡ true
unfolding validate_fields IsTrimmed are_pairs
fields_pairs m h t =
    let a = require-eq-ok (str_eq m.format (codes "zenpkg-manifest-1")) _ _ h in
    let b = require-eq-ok (is_safe_identifier m.name) _ _ a.1 in
    let c = require-eq-ok (is_safe_version m.version) _ _ b.1 in
    let d = require-eq-ok (is_safe_identifier m.architecture) _ _ c.1 in
    let e = require-eq-ok (is_safe_identifier m.target) _ _ d.1 in
    let f = require-eq-ok (is_allowed_kind m.kind) _ _ e.1 in
    let g = require-eq-ok (is_safe_absolute_entrypoint m.entrypoint) _ _ f.1 in
    let i = require-eq-ok (is_allowed_payload_type m.payload_type) _ _ g.1 in
    let j = require-eq-ok (is_allowed_runtime m.runtime) _ _ i.1 in
    let k = require-eq-ok (is_safe_version m.min_os) _ _ j.1 in
    let l = require-eq-ok (is_printable_text m.license 96) _ _ k.1 in
    let n = require-eq-ok (is_printable_text m.source 256) _ _ l.1 in
    let o = require-eq-ok (is_asset_policy m.asset_policy) _ _ n.1 in
    rw
      (
        format_value m.format a.0,
        identifier_value m.name b.0,
        version_value m.version c.0,
        identifier_value m.architecture d.0,
        identifier_value m.target e.0,
        kind_value m.kind f.0,
        entrypoint_value m.entrypoint g.0 t.0,
        type_value m.payload_type i.0,
        runtime_value m.runtime j.0,
        version_value m.min_os k.0,
        text_value m.license 96 l.0 t.1,
        text_value m.source 256 n.0 t.2,
        policy_value m.asset_policy o.0,
      )
      (unfold is_key all_bytes in refl)

pub validate_manifest-AreValues :
    (m : Manifest) (payload_size : ℕ)
    → validate_manifest m payload_size ≡ ok tt
    → IsTrimmed m
    → AreValues m
unfolding validate_manifest validate_lists AreValues
validate_manifest-AreValues m payload_size h t =
    let fields = bind-eq-ok (validate_fields m) _ h in
    let kinds = bind-eq-ok (validate_kinds m payload_size) _ fields.2 in
    let first = bind-eq-ok (validate_list "duplicate capability" [] m.capabilities) _ kinds.2 in
    let second = bind-eq-ok (validate_list "duplicate dependency" [] m.dependencies) _ first.2 in
    (
      fields_pairs m fields.1 t,
      requirement_values _ m.capabilities first.1,
      requirement_values _ m.dependencies second.1,
      requirement_values _ m.conflicts second.2,
    )

pub validate_manifest-sorted_manifest :
    (m : Manifest) (payload_size : ℕ)
    → validate_manifest m payload_size ≡ ok tt
    → validate_manifest (sorted_manifest m) payload_size ≡ ok tt
unfolding validate_manifest validate_fields validate_kinds sorted_manifest
validate_manifest-sorted_manifest m payload_size h =
    let fields = bind-eq-ok (validate_fields m) _ h in
    let kinds = bind-eq-ok (validate_kinds m payload_size) _ fields.2 in
    ap (λ r. r >> (validate_kinds m payload_size >> validate_lists (sorted_manifest m))) fields.1
    ∙ ap (λ r. r >> validate_lists (sorted_manifest m)) kinds.1
    ∙ validate_lists-sorted_manifest m kinds.2
