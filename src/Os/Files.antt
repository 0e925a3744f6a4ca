-- ===== src/Os/Files.antt =====
-- Files by path: an association list.
use shyake.Base.{
  ◌≡◌, refl, Bytes, [], ◌∷◌, List, Option, none, some, if◌then◌else◌, arith, equal, equal_iff,
}

unfoldable pub lookup : Bytes → List (Bytes × Bytes) → Option Bytes
lookup k [] = none
lookup k ((j, v) ∷ m) = if equal j k then some v else lookup k m

unfoldable pub insert : Bytes → Bytes → List (Bytes × Bytes) → List (Bytes × Bytes)
insert k v [] = (k, v) ∷ []
insert k v ((j, w) ∷ m) = if equal j k then (k, v) ∷ m else (j, w) ∷ insert k v m

-- What a look-up finds after a file was put in.
pub lookup-insert :
    (path other content : Bytes) (files : List (Bytes × Bytes))
    → lookup other (insert path content files)
      ≡ (if equal path other then some content else lookup other files)
unfolding insert lookup
lookup-insert path other content [] = refl
lookup-insert path other content ((name, old) ∷ files) =
    let rest = lookup-insert path other content files in
    ground (rest, equal_iff name path, equal_iff name other, equal_iff path other, arith)

unfoldable pub remove : Bytes → List (Bytes × Bytes) → List (Bytes × Bytes)
remove k [] = []
remove k ((j, v) ∷ m) = let rest = remove k m in if equal j k then rest else (j, v) ∷ rest

pub lookup-remove :
    (k j : Bytes) (m : List (Bytes × Bytes))
    → lookup j (remove k m) ≡ (if equal k j then none else lookup j m)
unfolding lookup remove
lookup-remove k j [] = ground arith
lookup-remove k j ((i, w) ∷ m) =
    ground (arith, lookup-remove k j m, equal_iff i k, equal_iff i j, equal_iff k j)
