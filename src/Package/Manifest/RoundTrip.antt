-- ===== src/Package/Manifest/RoundTrip.antt =====
-- A canonical manifest is read back.
use zenov_os.Prelude.{◌≡◌, refl, sym, ap, ◌∙◌, arith, List, [], ◌∷◌, ◌++◌, true}
use zenov_os.Prelude.Bytes.{Bytes, all_bytes, codes, str_eq, member, sort_texts}
use zenov_os.Prelude.Bytes.Sorting.{all_texts, sort_texts-sort_texts, all_texts-sort_texts}
use zenov_os.Prelude.Result.{ok, ◌>>=◌}
use zenov_os.Package.Manifest.{
  Manifest, ParseState, empty_manifest, find_field, set_key, parse_lines, parse_manifest, lines_of,
  scalar_pairs, pair_lines, list_lines, pair_line, canonical_manifest,
}
use zenov_os.Package.Manifest.Laws.{
  is_value, is_key, are_pairs, set_pairs, parse_text, parse_text-pair_lines,
}

abbrev start : ParseState
start = record { manifest = empty_manifest; seen_scalars = [] }

-- The manifest with other lists.
abbrev with_lists : Manifest → List Bytes → List Bytes → List Bytes → Manifest
with_lists m capabilities dependencies conflicts = record m {
  capabilities = capabilities;
  dependencies = dependencies;
  conflicts = conflicts;
}

-- The manifest with its lists sorted, as the canonical form has them.
unfoldable pub sorted_manifest : Manifest → Manifest
sorted_manifest m =
    with_lists m (sort_texts m.capabilities) (sort_texts m.dependencies) (sort_texts m.conflicts)

abbrev seen_all : List Bytes
seen_all =
    codes "asset_policy"
    ∷ codes "source"
    ∷ codes "license"
    ∷ codes "min_os"
    ∷ codes "runtime"
    ∷ codes "payload_type"
    ∷ codes "entrypoint"
    ∷ codes "kind"
    ∷ codes "target"
    ∷ codes "architecture"
    ∷ codes "version"
    ∷ codes "name"
    ∷ codes "format"
    ∷ []

scalars_set :
    (m : Manifest)
    → set_pairs (scalar_pairs m) start
      ≡ ok (record { manifest = with_lists m [] [] []; seen_scalars = seen_all })
unfolding set_pairs set_key find_field str_eq member
scalars_set m = refl

-- The pairs of a list.
unfoldable key_pairs : Bytes → List Bytes → List (Bytes × Bytes)
key_pairs key [] = []
key_pairs key (value ∷ values) = (key, value) ∷ key_pairs key values

list_lines-eq-pair_lines :
    (key : Bytes) (values : List Bytes) → list_lines key values ≡ pair_lines (key_pairs key values)
unfolding list_lines pair_lines key_pairs
list_lines-eq-pair_lines key [] = refl
list_lines-eq-pair_lines key (value ∷ values) =
    ap (λ t. pair_line key value ++ t) (list_lines-eq-pair_lines key values)

are_pairs-key_pairs :
    (key : Bytes) (values : List Bytes)
    → is_key key ≡ true
    → all_texts is_value values ≡ true
    → are_pairs (key_pairs key values) ≡ true
unfolding are_pairs key_pairs all_texts
are_pairs-key_pairs key [] k h = refl
are_pairs-key_pairs key (value ∷ values) k h =
    ground (arith, are_pairs-key_pairs key values k (ground arith))

append_one : (xs ys : List Bytes) (x : Bytes) → (xs ++ (x ∷ [])) ++ ys ≡ xs ++ (x ∷ ys)
append_one [] ys x = refl
append_one (z ∷ xs) ys x = ap (λ t. z ∷ t) (append_one xs ys x)

append_nil : (xs : List Bytes) → xs ++ [] ≡ xs
append_nil [] = refl
append_nil (x ∷ xs) = ap (λ t. x ∷ t) (append_nil xs)

capabilities_set :
    (m : Manifest) (seen values acc ds cs : List Bytes)
    → set_pairs
        (key_pairs (codes "capability") values)
        (record { manifest = with_lists m acc ds cs; seen_scalars = seen })
      ≡ ok (record { manifest = with_lists m (acc ++ values) ds cs; seen_scalars = seen })
unfolding set_pairs set_key str_eq key_pairs
capabilities_set m seen [] acc ds cs =
    ap (λ t. ok (record { manifest = with_lists m t ds cs; seen_scalars = seen }))
      (sym (append_nil acc))
capabilities_set m seen (value ∷ values) acc ds cs =
    capabilities_set m seen values (acc ++ (value ∷ [])) ds cs
    ∙ ap (λ t. ok (record { manifest = with_lists m t ds cs; seen_scalars = seen }))
        (append_one acc values value)

dependencies_set :
    (m : Manifest) (seen values acc as_ cs : List Bytes)
    → set_pairs
        (key_pairs (codes "dependency") values)
        (record { manifest = with_lists m as_ acc cs; seen_scalars = seen })
      ≡ ok (record { manifest = with_lists m as_ (acc ++ values) cs; seen_scalars = seen })
unfolding set_pairs set_key str_eq key_pairs
dependencies_set m seen [] acc as_ cs =
    ap (λ t. ok (record { manifest = with_lists m as_ t cs; seen_scalars = seen }))
      (sym (append_nil acc))
dependencies_set m seen (value ∷ values) acc as_ cs =
    dependencies_set m seen values (acc ++ (value ∷ [])) as_ cs
    ∙ ap (λ t. ok (record { manifest = with_lists m as_ t cs; seen_scalars = seen }))
        (append_one acc values value)

conflicts_set :
    (m : Manifest) (seen values acc as_ ds : List Bytes)
    → set_pairs
        (key_pairs (codes "conflict") values)
        (record { manifest = with_lists m as_ ds acc; seen_scalars = seen })
      ≡ ok (record { manifest = with_lists m as_ ds (acc ++ values); seen_scalars = seen })
unfolding set_pairs set_key str_eq key_pairs
conflicts_set m seen [] acc as_ ds =
    ap (λ t. ok (record { manifest = with_lists m as_ ds t; seen_scalars = seen }))
      (sym (append_nil acc))
conflicts_set m seen (value ∷ values) acc as_ ds =
    conflicts_set m seen values (acc ++ (value ∷ [])) as_ ds
    ∙ ap (λ t. ok (record { manifest = with_lists m as_ ds t; seen_scalars = seen }))
        (append_one acc values value)

-- Every value of a manifest can stand on a line.
unfoldable pub AreValues : Manifest → Type 0
AreValues m =
    (are_pairs (scalar_pairs m) ≡ true)
    × (all_texts is_value m.capabilities ≡ true)
    × (all_texts is_value m.dependencies ≡ true)
    × (all_texts is_value m.conflicts ≡ true)

step_lem :
    (pairs : List (Bytes × Bytes)) (rest : Bytes) (state next : ParseState)
    → are_pairs pairs ≡ true
    → set_pairs pairs state ≡ ok next
    → parse_text (pair_lines pairs ++ rest) state ≡ parse_text rest next
step_lem pairs rest state next h e =
    parse_text-pair_lines pairs rest state h ∙ ap (λ r. r >>= λ next. parse_text rest next) e

list_lem :
    (key : Bytes) (values : List Bytes) (rest : Bytes) (state next : ParseState)
    → is_key key ≡ true
    → all_texts is_value values ≡ true
    → set_pairs (key_pairs key values) state ≡ ok next
    → parse_text (list_lines key values ++ rest) state ≡ parse_text rest next
list_lem key values rest state next k h e =
    ap (λ t. parse_text (t ++ rest) state) (list_lines-eq-pair_lines key values)
    ∙ step_lem (key_pairs key values) rest state next (are_pairs-key_pairs key values k h) e

join_four : (p a b c : Bytes) → ((p ++ a) ++ b) ++ c ≡ p ++ (a ++ (b ++ (c ++ [])))
join_four [] [] [] [] = refl
join_four [] [] [] (x ∷ c) = ap (λ t. x ∷ t) (join_four [] [] [] c)
join_four [] [] (x ∷ b) c = ap (λ t. x ∷ t) (join_four [] [] b c)
join_four [] (x ∷ a) b c = ap (λ t. x ∷ t) (join_four [] a b c)
join_four (x ∷ p) a b c = ap (λ t. x ∷ t) (join_four p a b c)

canonical_text :
    (m : Manifest)
    → AreValues m
    → parse_text (canonical_manifest m) start
      ≡ ok (record { manifest = sorted_manifest m; seen_scalars = seen_all })
unfolding AreValues canonical_manifest sorted_manifest parse_text parse_lines lines_of
canonical_text m h =
    let as_ = sort_texts m.capabilities in
    let ds = sort_texts m.dependencies in
    let cs = sort_texts m.conflicts in
    let third = list_lines (codes "conflict") cs in
    let second = list_lines (codes "dependency") ds in
    let first = list_lines (codes "capability") as_ in
    let state : List Bytes → List Bytes → List Bytes → ParseState =
      λ x y z. record { manifest = with_lists m x y z; seen_scalars = seen_all } in
    let sorted : (xs : List Bytes)
        → all_texts is_value xs ≡ true
        → all_texts is_value (sort_texts xs) ≡ true =
      λ xs e. all_texts-sort_texts is_value xs ∙ e in
    ap (λ t. parse_text t start) (join_four (pair_lines (scalar_pairs m)) first second third)
    ∙ step_lem (scalar_pairs m) (first ++ (second ++ (third ++ []))) start (state [] [] []) h.0
        (scalars_set m)
    ∙ list_lem (codes "capability") as_ (second ++ (third ++ [])) (state [] [] []) (state as_ [] [])
        (unfold is_key all_bytes in refl) (sorted m.capabilities h.1)
        (capabilities_set m seen_all as_ [] [] [])
    ∙ list_lem (codes "dependency") ds (third ++ []) (state as_ [] []) (state as_ ds [])
        (unfold is_key all_bytes in refl) (sorted m.dependencies h.2)
        (dependencies_set m seen_all ds [] as_ [])
    ∙ list_lem (codes "conflict") cs [] (state as_ ds []) (state as_ ds cs)
        (unfold is_key all_bytes in refl) (sorted m.conflicts h.3)
        (conflicts_set m seen_all cs [] as_ ds)

-- The canonical form of a manifest whose values can stand on a line is read as the manifest with
-- its lists sorted.
pub parse_manifest-canonical_manifest :
    (m : Manifest) → AreValues m → parse_manifest (canonical_manifest m) ≡ ok (sorted_manifest m)
unfolding parse_manifest parse_text
parse_manifest-canonical_manifest m h =
    ap (λ r. r >>= λ state. ok state.manifest) (canonical_text m h)

pub canonical_manifest-sorted_manifest :
    (m : Manifest) → canonical_manifest (sorted_manifest m) ≡ canonical_manifest m
unfolding canonical_manifest sorted_manifest
canonical_manifest-sorted_manifest m =
    rw
      (
        sort_texts-sort_texts m.capabilities,
        sort_texts-sort_texts m.dependencies,
        sort_texts-sort_texts m.conflicts,
      )
      refl
