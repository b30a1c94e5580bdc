-- ===== src/Universe/Artifact.antt =====
-- tools/zenuniverse/artifact_manifest.hpp: the manifest of an artifact. `digest_regular_file` reads a
-- file through POSIX calls and is an argument here.
use zenov_os.Prelude.{
  ℕ, ◌+◌, List, [], ◌∷◌, ◌++◌, Bool, true, false, not, ◌&&◌, ◌||◌, none, some, length, take, drop,
  leb, ◌==◌, if◌then◌else◌,
}
use Prim.{Unit}
use zenov_os.Prelude.Bytes.{Bytes, codes, str_eq, find_byte, member, back, sort_texts}
use zenov_os.Prelude.Result.{Result, ok, err, ◌>>=◌, ◌>>◌, require}
use zenov_os.Package.Manifest.{lines_of, pair_lines}
use zenov_os.Package.Archive.Index.{decimal, decimal_digits}
use zenov_os.Universe.Common.{safe_id, hex64}
use zenov_os.Universe.Values.{parse_u64}
use zenov_os.Universe.Descriptor.Validate.{artifacts}

pub record FileDigest : Type 0 where
  pub bytes : ℕ
  pub sha256 : Bytes

pub record ArtifactManifest : Type 0 where
  pub schema : Bytes
  pub profile : Bytes
  pub artifact : Bytes
  pub ownership : Bytes
  pub bytes : ℕ
  pub sha256 : Bytes

abbrev pub ownership_values : List Bytes
ownership_values = codes "redistributable" ∷ codes "user-owned" ∷ []

unfoldable pub validate_artifact_manifest : ArtifactManifest → Result (Unit {0})
validate_artifact_manifest manifest = do
  require (str_eq manifest.schema (codes "ZENARTIFACT1"))
      "artifact manifest schema must be ZENARTIFACT1"
  require (safe_id manifest.profile) "artifact manifest has unsafe profile id"
  require
      (member manifest.artifact artifacts
        && not (str_eq manifest.artifact (codes "metadata"))
        && not (str_eq manifest.artifact (codes "runtime-bundle")))
      "artifact manifest has unsupported artifact family"
  require (member manifest.ownership ownership_values)
      "artifact manifest ownership must be redistributable or user-owned"
  require (not (manifest.bytes == 0) && hex64 manifest.sha256)
      "artifact manifest requires non-zero bytes and lowercase SHA-256"

abbrev pub manifest_pairs : ArtifactManifest → List (Bytes × Bytes)
manifest_pairs manifest =
    (codes "profile", manifest.profile)
    ∷ (codes "artifact", manifest.artifact)
    ∷ (codes "ownership", manifest.ownership)
    ∷ (codes "bytes", decimal manifest.bytes)
    ∷ (codes "sha256", manifest.sha256)
    ∷ []

unfoldable pub canonical_artifact_manifest : ArtifactManifest → Result Bytes
unfolding pair_lines decimal_digits
canonical_artifact_manifest manifest = do
  validate_artifact_manifest manifest
  ok (codes "ZENARTIFACT1" ++ (10 ∷ pair_lines (manifest_pairs manifest)))

-- One key and its value.
unfoldable pub set_artifact_field : Bytes → Bytes → ArtifactManifest → Result ArtifactManifest
unfolding str_eq parse_u64
set_artifact_field key value manifest =
    if str_eq key (codes "profile")
    then ok (record manifest { profile = value })
    else if str_eq key (codes "artifact")
    then ok (record manifest { artifact = value })
    else if str_eq key (codes "ownership")
    then ok (record manifest { ownership = value })
    else if str_eq key (codes "bytes")
    then (parse_u64 value "artifact bytes" >>= λ number. ok (record manifest { bytes = number }))
    else if str_eq key (codes "sha256")
    then ok (record manifest { sha256 = value })
    else err "artifact manifest unknown field"

-- One round of the loop: the keys of `seen`, and the manifest so far.
unfoldable pub read_field :
    Bytes → List Bytes → ArtifactManifest → Result (List Bytes × ArtifactManifest)
unfolding find_byte back set_artifact_field member
read_field line seen manifest = elim (find_byte b'=' line) [
  | none ↦
      require (length line == 0 || not (back line == 13))
        "artifact manifest must use LF line endings"
      >> require (not (length line == 0)) "artifact manifest contains blank line"
      >> err "artifact manifest expected key=value"
  | some equals ↦ do
    require (not (back line == 13)) "artifact manifest must use LF line endings"
    require (not (equals == 0)) "artifact manifest expected key=value"
    let key = take equals line
    let value = drop (equals + 1) line
    require (not (length value == 0) && not (member key seen))
        "artifact manifest empty or duplicate field"
    next ← set_artifact_field key value manifest
    ok (key ∷ seen, next)
]

unfoldable pub read_fields :
    List Bytes → List Bytes → ArtifactManifest → Result (List Bytes × ArtifactManifest)
unfolding read_field
read_fields [] seen manifest = ok (seen, manifest)
read_fields (line ∷ lines) seen manifest =
    read_field line seen manifest >>= λ next. read_fields lines (next.0) (next.1)

abbrev pub field_names : List Bytes
field_names =
    codes "artifact" ∷ codes "bytes" ∷ codes "ownership" ∷ codes "profile" ∷ codes "sha256" ∷ []

-- Two lists of texts are equal.
unfoldable pub texts_eq : List Bytes → List Bytes → Bool
unfolding str_eq
texts_eq [] [] = true
texts_eq [] (y ∷ ys) = false
texts_eq (x ∷ xs) [] = false
texts_eq (x ∷ xs) (y ∷ ys) = str_eq x y && texts_eq xs ys

abbrev pub no_artifact : ArtifactManifest
no_artifact = record {
  schema = codes "ZENARTIFACT1";
  profile = [];
  artifact = [];
  ownership = [];
  bytes = 0;
  sha256 = [];
}

unfoldable pub parse_artifact_lines : List Bytes → Bytes → Result ArtifactManifest
unfolding read_fields sort_texts texts_eq
parse_artifact_lines [] text = err "invalid artifact manifest header"
parse_artifact_lines (line ∷ lines) text = do
  require (str_eq line (codes "ZENARTIFACT1")) "invalid artifact manifest header"
  fields ← read_fields lines [] no_artifact
  require (texts_eq (sort_texts (fields.0)) field_names) "artifact manifest field set is incomplete"
  validate_artifact_manifest (fields.1)
  written ← canonical_artifact_manifest (fields.1)
  require (str_eq written text) "artifact manifest is not canonical"
  ok (fields.1)

-- The text of the file, which is at most 4096 bytes long.
unfoldable pub parse_artifact_manifest : Bytes → Result ArtifactManifest
unfolding lines_of back
parse_artifact_manifest text = do
  require (leb (length text) 4096) "text file exceeds bounded read limit"
  require (not (length text == 0) && back text == 10) "artifact manifest must end with newline"
  parse_artifact_lines (lines_of text) text

-- `digest` is the result of `digest_regular_file`.
unfoldable pub verify_artifact_file : ArtifactManifest → Result FileDigest → Result FileDigest
verify_artifact_file manifest digest = do
  found ← digest
  require (found.bytes == manifest.bytes) "artifact size mismatch"
  require (str_eq found.sha256 manifest.sha256) "artifact SHA-256 mismatch"
  ok found
