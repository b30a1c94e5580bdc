-- ===== src/Universe/Resolver/Catalog.antt =====
-- tools/zenuniverse/resolver.hpp: `compile_catalog`.
use zenov_os.Prelude.{List, [], ◌∷◌, ◌++◌, Bool, length, if◌then◌else◌}
use zenov_os.Prelude.Bytes.{Bytes, codes, str_eq, str_less}
use zenov_os.Prelude.Result.{Result, ok, ◌>>=◌}
use zenov_os.Package.Archive.Index.{decimal, decimal_digits}
use zenov_os.Universe.Digest.{sha256}
use zenov_os.Universe.Descriptor.{Descriptor}
use zenov_os.Universe.Descriptor.Canonical.{canonical, version_less}

-- By id, then version; a catalog has each identity once.
unfoldable pub catalog_less : Descriptor → Descriptor → Bool
unfolding str_eq str_less version_less
catalog_less left right =
    if str_eq left.id right.id then version_less left right else str_less left.id right.id

unfoldable pub insert_descriptor : Descriptor → List Descriptor → List Descriptor
unfolding catalog_less
insert_descriptor d [] = d ∷ []
insert_descriptor d (e ∷ es) = if catalog_less e d then e ∷ insert_descriptor d es else d ∷ e ∷ es

unfoldable pub sort_descriptors : List Descriptor → List Descriptor
unfolding insert_descriptor
sort_descriptors [] = []
sort_descriptors (d ∷ ds) = insert_descriptor d (sort_descriptors ds)

-- The records, each behind its digest and before a line with a dot.
unfoldable pub catalog_payload : List Descriptor → Result Bytes
catalog_payload [] = ok []
catalog_payload (d ∷ ds) = do
  text ← canonical d
  digest ← sha256 text
  rest ← catalog_payload ds
  ok (codes "record-sha256=" ++ digest ++ (10 ∷ text) ++ codes "." ++ (10 ∷ rest))

unfoldable pub compile_catalog : List Descriptor → Result Bytes
unfolding sort_descriptors catalog_payload decimal_digits
compile_catalog records = do
  body ← catalog_payload (sort_descriptors records)
  digest ← sha256 body
  ok (
      codes "ZENUNIVERSE1"
      ++ (10 ∷ codes "count=")
      ++ decimal (length records)
      ++ (10 ∷ codes "payload-sha256=")
      ++ digest
      ++ (10 ∷ 10 ∷ body))
