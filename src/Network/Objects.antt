-- ===== src/Network/Objects.antt =====
-- cJSON's printer and parser, as far as the client reads what it has written.
use shyake.Base.{◌≡◌, Bytes, [], ◌∷◌, List, Option, none, some, ◌>>=◌, map, equal, if◌then◌else◌}
use shyake.Update.{to_lower}
use shyake.Network.{Json, Field, of_text}

-- The first field of that name, in either case of its letters, as `cJSON_GetObjectItem` looks for it.
unfoldable pub find_field : Bytes → List (Bytes × Field) → Option Field
find_field key [] = none
find_field key ((name, value) ∷ fields) =
    let later = find_field key fields in
    if equal (map to_lower name) (map to_lower key) then some value else later

-- A printed object is parsed as an object with the same fields.
pub record IsJson (J : Json) : Type 0 where
  pub object : List (Bytes × Field) → J.Value
  pub parses : (fields : List (Bytes × Field)) → J.parse (J.print fields) ≡ some (object fields)
  pub text_item :
      (fields : List (Bytes × Field)) (key text : Bytes)
      → find_field key fields ≡ some (of_text text)
      → (J.item (object fields) key >>= J.string) ≡ some text
  pub no_item :
      (fields : List (Bytes × Field)) (key : Bytes)
      → find_field key fields ≡ none
      → J.item (object fields) key ≡ none
