-- ===== src/Universe/Descriptor.antt =====
-- tools/zenuniverse/descriptor.hpp: the descriptors of the catalog, and how a text is read as one. A
-- descriptor has no `source`, which only stands in messages.
pub mod Validate
pub mod Platforms
pub mod Canonical
pub mod Directory
pub mod Laws
use zenov_os.Prelude.{
  ℕ, ◌+◌, List, [], ◌∷◌, ◌++◌, not, ◌||◌, Option, none, some, length, take, drop, leb, ◌==◌,
  if◌then◌else◌,
}
use zenov_os.Prelude.Bytes.{Bytes, codes, str_eq, find_byte, front, member}
use zenov_os.Prelude.Result.{Result, ok, err, ◌>>=◌, ◌>>◌, require}
use zenov_os.Package.Manifest.{lines_of, pop_return}
use zenov_os.Universe.Common.{trim}
use zenov_os.Universe.Values.{parse_u64}

pub record Descriptor : Type 0 where
  pub schema : Bytes
  pub id : Bytes
  pub version : Bytes
  pub kind : Bytes
  pub platform : Bytes
  pub architecture : Bytes
  pub artifact : Bytes
  pub delivery : Bytes
  pub runtime : Bytes
  pub availability : Bytes
  pub entrypoint : Bytes
  pub channel : Bytes
  pub category : Bytes
  pub license : Bytes
  pub description : Bytes
  pub homepage : Bytes
  pub sha : Bytes
  pub provider_abi : Bytes
  pub launch_mode : Bytes
  pub bytes : ℕ
  pub mirrors : List Bytes
  pub requirements : List Bytes
  pub requirement_any : List Bytes
  pub provides : List Bytes
  pub assets : List Bytes
  pub accepts : List Bytes
  pub launch_args : List Bytes

abbrev pub empty_descriptor : Descriptor
empty_descriptor = record {
  schema = [];
  id = [];
  version = [];
  kind = [];
  platform = [];
  architecture = [];
  artifact = [];
  delivery = [];
  runtime = [];
  availability = [];
  entrypoint = [];
  channel = [];
  category = [];
  license = [];
  description = [];
  homepage = [];
  sha = [];
  provider_abi = [];
  launch_mode = [];
  bytes = 0;
  mirrors = [];
  requirements = [];
  requirement_any = [];
  provides = [];
  assets = [];
  accepts = [];
  launch_args = [];
}

-- The keys of `scalar`, each with the write through its pointer.
abbrev pub scalar : List (Bytes × (Bytes → Descriptor → Descriptor))
scalar =
    (codes "schema", λ value d. record d { schema = value })
    ∷ (codes "id", λ value d. record d { id = value })
    ∷ (codes "version", λ value d. record d { version = value })
    ∷ (codes "kind", λ value d. record d { kind = value })
    ∷ (codes "platform", λ value d. record d { platform = value })
    ∷ (codes "architecture", λ value d. record d { architecture = value })
    ∷ (codes "artifact", λ value d. record d { artifact = value })
    ∷ (codes "delivery", λ value d. record d { delivery = value })
    ∷ (codes "runtime", λ value d. record d { runtime = value })
    ∷ (codes "availability", λ value d. record d { availability = value })
    ∷ (codes "entrypoint", λ value d. record d { entrypoint = value })
    ∷ (codes "channel", λ value d. record d { channel = value })
    ∷ (codes "category", λ value d. record d { category = value })
    ∷ (codes "license", λ value d. record d { license = value })
    ∷ (codes "description", λ value d. record d { description = value })
    ∷ (codes "homepage", λ value d. record d { homepage = value })
    ∷ (codes "sha256", λ value d. record d { sha = value })
    ∷ (codes "provider-abi", λ value d. record d { provider_abi = value })
    ∷ (codes "launch-mode", λ value d. record d { launch_mode = value })
    ∷ []

unfoldable pub find_scalar :
    Bytes
    → List (Bytes × (Bytes → Descriptor → Descriptor))
    → Option (Bytes → Descriptor → Descriptor)
unfolding str_eq
find_scalar key [] = none
find_scalar key ((field, write) ∷ fields) =
    if str_eq field key then some write else find_scalar key fields

-- The descriptor so far, and the keys of `seen`.
pub record Reading : Type 0 where
  pub descriptor : Descriptor
  pub seen : List Bytes

-- The keys that may stand on several lines, each with its `push_back`.
abbrev pub repeated : List (Bytes × (Bytes → Descriptor → Descriptor))
repeated =
    (codes "mirror", λ value d. record d { mirrors = d.mirrors ++ (value ∷ []) })
    ∷ (codes "requires", λ value d. record d { requirements = d.requirements ++ (value ∷ []) })
    ∷ (
      codes "requires-any",
      λ value d. record d { requirement_any = d.requirement_any ++ (value ∷ []) },
    )
    ∷ (codes "provides", λ value d. record d { provides = d.provides ++ (value ∷ []) })
    ∷ (codes "asset", λ value d. record d { assets = d.assets ++ (value ∷ []) })
    ∷ (codes "accepts", λ value d. record d { accepts = d.accepts ++ (value ∷ []) })
    ∷ (codes "arg", λ value d. record d { launch_args = d.launch_args ++ (value ∷ []) })
    ∷ []

-- A key that may stand once.
unfoldable pub put_scalar : Bytes → Bytes → Reading → Result Reading
unfolding find_scalar str_eq member parse_u64
put_scalar key value reading =
    if str_eq key (codes "bytes")
    then (do
      require (not (member key reading.seen)) "duplicate bytes"
      number ← parse_u64 value "bytes"
      ok (record {
        descriptor = record (reading.descriptor) { bytes = number };
        seen = key ∷ reading.seen;
      }))
    else elim (find_scalar key scalar) [
      | none ↦ err "unknown key"
      | some write ↦ do
        require (not (member key reading.seen)) "duplicate key"
        ok (record { descriptor = write value reading.descriptor; seen = key ∷ reading.seen })
    ]

unfoldable pub put_value : Bytes → Bytes → Reading → Result Reading
unfolding find_scalar put_scalar
put_value key value reading = elim (find_scalar key repeated) [
  | some push ↦ ok (record reading { descriptor = push value reading.descriptor })
  | none ↦ put_scalar key value reading
]

-- A line that is cut: the key is before the first `=`.
unfoldable pub read_pair : Bytes → Reading → Result Reading
unfolding find_byte put_value trim
read_pair line reading = elim (find_byte b'=' line) [
  | none ↦ err "expected key=value"
  | some equals ↦ do
    require (not (equals == 0)) "expected key=value"
    let value = trim (drop (equals + 1) line)
    require (not (length value == 0)) "empty value"
    put_value (trim (take equals line)) value reading
]

-- One round of the loop; empty lines, comments and a single dot are passed over.
unfoldable pub read_line : Bytes → Reading → Result Reading
unfolding read_pair pop_return trim str_eq
read_line text reading =
    let line = trim (pop_return text) in
    if length line == 0 || front line == b'#' || str_eq line (codes ".")
    then ok reading
    else read_pair line reading

unfoldable pub read_lines : List Bytes → Reading → Result Reading
unfolding read_line
read_lines [] reading = ok reading
read_lines (line ∷ lines) reading = read_line line reading >>= λ next. read_lines lines next

-- The text of the file, which is at most 64 KiB long.
unfoldable pub parse_descriptor : Bytes → Result Descriptor
unfolding lines_of read_lines
parse_descriptor text = do
  require (leb (length text) 65536) "text file exceeds bounded read limit"
  reading ← read_lines (lines_of text) (record { descriptor = empty_descriptor; seen = [] })
  ok reading.descriptor

abbrev pub runtime_capability : Descriptor → Bytes
runtime_capability d = codes "runtime." ++ d.runtime
