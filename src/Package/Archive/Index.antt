-- ===== src/Package/Archive/Index.antt =====
-- tools/zenpkg/archive.hpp: the index of a directory of packages. The directory is a list of files.
use zenov_os.Prelude.{
  ℕ, zero, suc, ◌+◌, ◌-◌, ◌/◌, ◌%◌, List, [], ◌∷◌, ◌++◌, Bool, not, ◌&&◌, ◌||◌, length, drop, ltb,
  ◌==◌, if◌then◌else◌,
}
use zenov_os.Prelude.Bytes.{Bytes, codes, str_eq, str_less, is_alnum, all_bytes, member}
use zenov_os.Prelude.Result.{Result, ok, ◌>>=◌, ◌>>◌, require}
use zenov_os.Package.Common.{is_printable_text}
use zenov_os.Package.Manifest.{Manifest}
use zenov_os.Package.Archive.{Package, parse_package_bytes}

-- An entry of the directory.
pub record Entry : Type 0 where
  pub filename : Bytes
  pub is_regular : Bool
  pub content : Bytes

pub record IndexRecord : Type 0 where
  pub name : Bytes
  pub version : Bytes
  pub architecture : Bytes
  pub target : Bytes
  pub kind : Bytes
  pub runtime : Bytes
  pub file : Bytes
  pub bytes : ℕ
  pub sha256 : Bytes

-- A name that is more than the extension and ends with it.
abbrev pub is_package_name : Bytes → Bool
is_package_name filename =
    ltb 4 (length filename) && str_eq (drop (length filename - 4) filename) (codes ".zpk")

-- The regular files with the extension, sorted by their names.
unfoldable pub insert_entry : Entry → List Entry → List Entry
insert_entry e [] = e ∷ []
insert_entry e (d ∷ ds) =
    if str_less d.filename e.filename then d ∷ insert_entry e ds else e ∷ d ∷ ds

unfoldable pub package_files : List Entry → List Entry
unfolding insert_entry
package_files [] = []
package_files (e ∷ es) =
    let rest = package_files es in
    if e.is_regular && is_package_name e.filename then insert_entry e rest else rest

abbrev pub filename_byte : ℕ → Bool
filename_byte c = is_alnum c || c == b'.' || c == b'-' || c == b'_'

abbrev pub identity_of : Manifest → Bytes
identity_of m = m.name ++ codes "@" ++ m.version ++ codes "#" ++ m.target

abbrev pub index_record : Package → Entry → IndexRecord
index_record contents e = record {
  name = contents.manifest.name;
  version = contents.manifest.version;
  architecture = contents.manifest.architecture;
  target = contents.manifest.target;
  kind = contents.manifest.kind;
  runtime = contents.manifest.runtime;
  file = e.filename;
  bytes = length e.content;
  sha256 = contents.package_digest_hex;
}

-- The loop of `scan_packages`, with the identities so far.
unfoldable pub scan_files : List Entry → List Bytes → Result (List IndexRecord)
scan_files [] identities = ok []
scan_files (e ∷ es) identities = do
  require (is_printable_text e.filename 128 && is_package_name e.filename)
      "unsafe package filename in repository"
  require (all_bytes filename_byte e.filename) "unsafe package filename in repository"
  contents ← parse_package_bytes e.content
  require (not (member (identity_of contents.manifest) identities))
      "duplicate package identity in index"
  records ← scan_files es (identity_of contents.manifest ∷ identities)
  ok (index_record contents e ∷ records)

-- By name, then version, then target.
unfoldable pub record_less : IndexRecord → IndexRecord → Bool
record_less left right =
    if not (str_eq left.name right.name)
    then str_less left.name right.name
    else if not (str_eq left.version right.version)
    then str_less left.version right.version
    else str_less left.target right.target

unfoldable pub insert_record : IndexRecord → List IndexRecord → List IndexRecord
unfolding record_less
insert_record r [] = r ∷ []
insert_record r (q ∷ qs) = if record_less q r then q ∷ insert_record r qs else r ∷ q ∷ qs

unfoldable pub sort_records : List IndexRecord → List IndexRecord
unfolding insert_record
sort_records [] = []
sort_records (r ∷ rs) = insert_record r (sort_records rs)

unfoldable pub scan_packages : List Entry → Result (List IndexRecord)
unfolding package_files scan_files sort_records
scan_packages directory = do
  records ← scan_files (package_files directory) []
  ok (sort_records records)

-- A number in decimal digits; one of 64 bits has twenty at most.
unfoldable pub decimal_digits : ℕ → ℕ → Bytes
decimal_digits zero n = []
decimal_digits (suc fuel) n =
    let rest = decimal_digits fuel (n / 10) in
    (if n / 10 == 0 then [] else rest) ++ ((b'0' + n % 10) ∷ [])

abbrev pub decimal : ℕ → Bytes
decimal n = decimal_digits 20 n

unfoldable pub render_record : IndexRecord → Bytes
unfolding decimal_digits
render_record r =
    codes "package="
    ++ r.name
    ++ (9 ∷ r.version)
    ++ (9 ∷ r.architecture)
    ++ (9 ∷ r.target)
    ++ (9 ∷ r.kind)
    ++ (9 ∷ r.runtime)
    ++ (9 ∷ r.file)
    ++ (9 ∷ decimal r.bytes)
    ++ (9 ∷ r.sha256)
    ++ (10 ∷ [])

unfoldable pub render_records : List IndexRecord → Bytes
unfolding render_record
render_records [] = []
render_records (r ∷ rs) = render_record r ++ render_records rs

unfoldable pub render_index : List IndexRecord → Bytes
unfolding render_records
render_index records =
    codes "format=zenpkg-index-1"
    ++ (10 ∷ codes "columns=name")
    ++ (9 ∷ codes "version")
    ++ (9 ∷ codes "architecture")
    ++ (9 ∷ codes "target")
    ++ (9 ∷ codes "kind")
    ++ (9 ∷ codes "runtime")
    ++ (9 ∷ codes "file")
    ++ (9 ∷ codes "bytes")
    ++ (9 ∷ codes "sha256")
    ++ (10 ∷ [])
    ++ render_records records
