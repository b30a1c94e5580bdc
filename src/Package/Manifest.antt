-- ===== src/Package/Manifest.antt =====
-- tools/zenpkg/manifest.hpp: the manifest of a package, parsed, validated and written back.
pub mod Validate
pub mod Laws
pub mod Values
pub mod Validity
pub mod RoundTrip
use zenov_os.Prelude.{
  ℕ, zero, suc, ◌+◌, ◌-◌, List, [], ◌∷◌, ◌++◌, Bool, true, false, not, ◌&&◌, ◌||◌, Option, none,
  some, length, take, drop, ltb, leb, ◌==◌, if◌then◌else◌,
}
use Prim.{Unit, tt}
use Prim.Native.String.{String}
use zenov_os.Prelude.Bytes.{
  Bytes, codes, str_eq, find_byte, is_alnum, all_bytes, member, front, back, skip_spaces,
  insert_sorted, sort_texts,
}
use zenov_os.Prelude.Result.{Result, ok, err, ◌>>=◌, ◌>>◌, require}
use zenov_os.Package.Common.{trim, is_safe_identifier, is_safe_version, is_printable_text}

pub record Manifest : Type 0 where
  pub format : Bytes
  pub name : Bytes
  pub version : Bytes
  pub architecture : Bytes
  pub target : Bytes
  pub kind : Bytes
  pub entrypoint : Bytes
  pub payload_type : Bytes
  pub runtime : Bytes
  pub min_os : Bytes
  pub license : Bytes
  pub source : Bytes
  pub asset_policy : Bytes
  pub capabilities : List Bytes
  pub dependencies : List Bytes
  pub conflicts : List Bytes

abbrev pub empty_manifest : Manifest
empty_manifest = record {
  format = [];
  name = [];
  version = [];
  architecture = [];
  target = [];
  kind = [];
  entrypoint = [];
  payload_type = [];
  runtime = [];
  min_os = [];
  license = [];
  source = [];
  asset_policy = [];
  capabilities = [];
  dependencies = [];
  conflicts = [];
}

-- The parts that `std::getline` returns: a line ends with a newline or with the text.
unfoldable pub lines_of : Bytes → List Bytes
lines_of [] = []
lines_of (x ∷ xs) = line_step (x == 10) x (lines_of xs)
  where
    line_step : Bool → ℕ → List Bytes → List Bytes
    line_step true x lines = [] ∷ lines
    line_step false x [] = (x ∷ []) ∷ []
    line_step false x (line ∷ lines) = (x ∷ line) ∷ lines

-- A carriage return at the end goes.
unfoldable pub pop_return : Bytes → Bytes
unfolding back
pop_return line =
    if not (length line == 0) && back line == 13 then take (length line - 1) line else line

-- The keys of `scalar_fields`, each with the write through its pointer.
abbrev pub scalar_fields : List (Bytes × (Bytes → Manifest → Manifest))
scalar_fields =
    (codes "format", λ value m. record m { format = value })
    ∷ (codes "name", λ value m. record m { name = value })
    ∷ (codes "version", λ value m. record m { version = value })
    ∷ (codes "architecture", λ value m. record m { architecture = value })
    ∷ (codes "target", λ value m. record m { target = value })
    ∷ (codes "kind", λ value m. record m { kind = value })
    ∷ (codes "entrypoint", λ value m. record m { entrypoint = value })
    ∷ (codes "payload_type", λ value m. record m { payload_type = value })
    ∷ (codes "runtime", λ value m. record m { runtime = value })
    ∷ (codes "min_os", λ value m. record m { min_os = value })
    ∷ (codes "license", λ value m. record m { license = value })
    ∷ (codes "source", λ value m. record m { source = value })
    ∷ (codes "asset_policy", λ value m. record m { asset_policy = value })
    ∷ []

unfoldable pub find_field :
    Bytes → List (Bytes × (Bytes → Manifest → Manifest)) → Option (Bytes → Manifest → Manifest)
unfolding str_eq
find_field key [] = none
find_field key ((field, write) ∷ fields) =
    if str_eq field key then some write else find_field key fields

-- The manifest so far, and the keys of `seen_scalars`.
pub record ParseState : Type 0 where
  pub manifest : Manifest
  pub seen_scalars : List Bytes

-- One key and its value.
unfoldable pub set_key : Bytes → Bytes → ParseState → Result ParseState
unfolding find_field str_eq member
set_key key value state =
    let m = state.manifest in
    if str_eq key (codes "capability")
    then ok (record state { manifest = record m { capabilities = m.capabilities ++ (value ∷ []) } })
    else if str_eq key (codes "dependency")
    then ok (record state { manifest = record m { dependencies = m.dependencies ++ (value ∷ []) } })
    else if str_eq key (codes "conflict")
    then ok (record state { manifest = record m { conflicts = m.conflicts ++ (value ∷ []) } })
    else elim (find_field key scalar_fields) [
      | none ↦ err "unknown manifest key"
      | some write ↦ do
        require (not (member key state.seen_scalars)) "duplicate manifest key"
        ok (record { manifest = write value m; seen_scalars = key ∷ state.seen_scalars })
    ]

-- A line that is cut: the key is before the first `=`.
unfoldable pub parse_pair : Bytes → ParseState → Result ParseState
parse_pair cleaned state = elim (find_byte b'=' cleaned) [
  | none ↦ err "manifest line must use key=value syntax"
  | some equal ↦ do
    require (not (equal == 0)) "manifest line must use key=value syntax"
    let key = trim (take equal cleaned)
    let value = trim (drop (equal + 1) cleaned)
    require (not (length value == 0)) "manifest line has an empty value"
    set_key key value state
]

-- One round of the loop; empty lines and comments are passed over.
unfoldable pub parse_line : Bytes → ParseState → Result ParseState
parse_line line state =
    let cleaned = trim (pop_return line) in
    if length cleaned == 0 || front cleaned == b'#' then ok state else parse_pair cleaned state

unfoldable pub parse_lines : List Bytes → ParseState → Result ParseState
unfolding parse_line
parse_lines [] state = ok state
parse_lines (line ∷ lines) state = parse_line line state >>= λ next. parse_lines lines next

unfoldable pub parse_manifest : Bytes → Result Manifest
unfolding lines_of parse_lines
parse_manifest input = do
  state ← parse_lines (lines_of input) (record { manifest = empty_manifest; seen_scalars = [] })
  ok state.manifest

-- `output << key << '=' << value << '\n'`.
abbrev pub pair_line : Bytes → Bytes → Bytes
pair_line key value = key ++ (b'=' ∷ value) ++ (10 ∷ [])

unfoldable pub list_lines : Bytes → List Bytes → Bytes
list_lines key [] = []
list_lines key (value ∷ values) = pair_line key value ++ list_lines key values

-- The scalar keys with their values, in the order in which they are written.
abbrev pub scalar_pairs : Manifest → List (Bytes × Bytes)
scalar_pairs m =
    (codes "format", m.format)
    ∷ (codes "name", m.name)
    ∷ (codes "version", m.version)
    ∷ (codes "architecture", m.architecture)
    ∷ (codes "target", m.target)
    ∷ (codes "kind", m.kind)
    ∷ (codes "entrypoint", m.entrypoint)
    ∷ (codes "payload_type", m.payload_type)
    ∷ (codes "runtime", m.runtime)
    ∷ (codes "min_os", m.min_os)
    ∷ (codes "license", m.license)
    ∷ (codes "source", m.source)
    ∷ (codes "asset_policy", m.asset_policy)
    ∷ []

unfoldable pub pair_lines : List (Bytes × Bytes) → Bytes
pair_lines [] = []
pair_lines ((key, value) ∷ pairs) = pair_line key value ++ pair_lines pairs

unfoldable pub canonical_manifest : Manifest → Bytes
unfolding list_lines pair_lines sort_texts
canonical_manifest manifest =
    pair_lines (scalar_pairs manifest)
    ++ list_lines (codes "capability") (sort_texts manifest.capabilities)
    ++ list_lines (codes "dependency") (sort_texts manifest.dependencies)
    ++ list_lines (codes "conflict") (sort_texts manifest.conflicts)
