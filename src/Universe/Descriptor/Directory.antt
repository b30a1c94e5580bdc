-- ===== src/Universe/Descriptor/Directory.antt =====
-- tools/zenuniverse/descriptor.hpp: `load_directory`, on the list of the entries of a directory.
use zenov_os.Prelude.{
  ◌-◌, List, [], ◌∷◌, ◌++◌, Bool, not, ◌&&◌, length, drop, ltb, ◌==◌, if◌then◌else◌,
}
use zenov_os.Prelude.Bytes.{Bytes, codes, str_eq, str_less, member}
use zenov_os.Prelude.Result.{Result, ok, ◌>>=◌, ◌>>◌, require}
use zenov_os.Universe.Descriptor.{Descriptor, parse_descriptor}
use zenov_os.Universe.Descriptor.Platforms.{validate_descriptor}

pub record File : Type 0 where
  pub filename : Bytes
  pub is_regular : Bool
  pub content : Bytes

-- The extension is ".zsource", behind a name that is not empty.
abbrev pub is_source_name : Bytes → Bool
is_source_name filename =
    ltb 8 (length filename) && str_eq (drop (length filename - 8) filename) (codes ".zsource")

unfoldable pub insert_file : File → List File → List File
unfolding str_less
insert_file f [] = f ∷ []
insert_file f (g ∷ gs) = if str_less g.filename f.filename then g ∷ insert_file f gs else f ∷ g ∷ gs

-- The regular files with the extension, sorted by their paths, which have one directory.
unfoldable pub source_files : List File → List File
unfolding insert_file str_eq
source_files [] = []
source_files (f ∷ fs) =
    let rest = source_files fs in
    if f.is_regular && is_source_name f.filename then insert_file f rest else rest

abbrev pub descriptor_identity : Descriptor → Bytes
descriptor_identity d = d.id ++ codes "@" ++ d.version

-- The loop over the sorted paths, with the identities so far.
unfoldable pub load_files : List File → List Bytes → Result (List Descriptor)
load_files [] identities = ok []
load_files (f ∷ fs) identities = do
  descriptor ← parse_descriptor f.content
  validate_descriptor descriptor
  require (not (member (descriptor_identity descriptor) identities)) "duplicate identity"
  records ← load_files fs (descriptor_identity descriptor ∷ identities)
  ok (descriptor ∷ records)

unfoldable pub load_directory : List File → Result (List Descriptor)
unfolding source_files
load_directory directory = do
  records ← load_files (source_files directory) []
  require (not (length records == 0)) "catalog has no .zsource descriptors"
  ok records
