-- ===== src/Tests/ToysJson.antt =====
-- A stand-in for cJSON that prints an object and parses it again: words of shifted bytes, each ended by 0.
use shyake.Base.{
  zero, suc, ◌≡◌, refl, ap, sym, ◌∙◌, Bytes, [], ◌∷◌, ◌++◌, List, Option, none, some, ◌>>=◌,
  append_assoc, append-nil,
}
use shyake.Base.Integer.{pos, negsuc}
use shyake.Network.{Json, Field, of_text, of_number}
use shyake.Network.Objects.{find_field, IsJson}
use shyake.Client.{Libs}
use shyake.Tests.Client.{toy_libs}

pub data ToyValue : Type 0 where
  leaf : Field → ToyValue
  object : List (Bytes × Field) → ToyValue

unfoldable pub shifted : Bytes → Bytes
shifted [] = 0 ∷ []
shifted (c ∷ s) = suc c ∷ shifted s

unfoldable pub words : Bytes → Bytes → List Bytes
words acc [] = []
words acc (zero ∷ s) = acc ∷ words [] s
words acc (suc c ∷ s) = words (acc ++ c ∷ []) s

unfoldable pub value_word : Field → Bytes
value_word (of_text text) = 0 ∷ text
value_word (of_number (pos n)) = 1 ∷ n ∷ []
value_word (of_number (negsuc n)) = 2 ∷ n ∷ []

unfoldable pub value_of : Bytes → Field
value_of (zero ∷ text) = of_text text
value_of (suc zero ∷ n ∷ s) = of_number (pos n)
value_of (suc (suc k) ∷ n ∷ s) = of_number (negsuc n)
value_of _ = of_text []

unfoldable pub print_object : List (Bytes × Field) → Bytes
print_object [] = []
print_object ((name, value) ∷ fields) =
    shifted name ++ (shifted (value_word value) ++ print_object fields)

unfoldable pub fields_of : List Bytes → List (Bytes × Field)
fields_of (name ∷ value ∷ more) = (name, value_of value) ∷ fields_of more
fields_of _ = []

abbrev item_of : ToyValue → Bytes → Option ToyValue
item_of (object fields) key = (find_field key fields >>= λ field. some (leaf field))
item_of (leaf field) key = none

abbrev string_of : ToyValue → Option Bytes
string_of (leaf (of_text text)) = some text
string_of _ = none

abbrev pub object_json : Json
object_json = record {
  Value = ToyValue;
  parse = λ body. some (object (fields_of (words [] body)));
  item = item_of;
  string = string_of;
  number = λ v. none;
  valueint = λ v. pos 0;
  valuedouble = λ v. none;
  elements = λ v. none;
  print = print_object;
}

words-shifted : (acc w s : Bytes) → words acc (shifted w ++ s) ≡ (acc ++ w) ∷ words [] s
unfolding words shifted
words-shifted acc [] s = ap (λ a. a ∷ words [] s) (sym (append-nil acc))
words-shifted acc (c ∷ w) s =
    words-shifted (acc ++ c ∷ []) w s ∙ ap (λ a. a ∷ words [] s) (append_assoc acc (c ∷ []) w)

value-word : (f : Field) → value_of (value_word f) ≡ f
unfolding value_of value_word
value-word (of_text text) = refl
value-word (of_number (pos n)) = refl
value-word (of_number (negsuc n)) = refl

fields-print : (fields : List (Bytes × Field)) → fields_of (words [] (print_object fields)) ≡ fields
unfolding fields_of words print_object
fields-print [] = refl
fields-print ((name, value) ∷ fields) =
    rw
      (
        words-shifted [] name (shifted (value_word value) ++ print_object fields),
        words-shifted [] (value_word value) (print_object fields),
        value-word value,
        fields-print fields,
      )
      refl

pub object_json-IsJson : IsJson object_json
object_json-IsJson = record {
  object = object;
  parses = λ fields. ap (λ fs. some (object fs)) (fields-print fields);
  text_item = λ fields key text h. rw h refl;
  no_item = λ fields key h. rw h refl;
}

-- The small libraries with this parser.
abbrev pub object_libs : Libs
object_libs = record toy_libs { json = object_json }
