-- ===== src/Json/Tree.antt =====
-- An instance of the interface: trees with the fields of an object in their order. Texts do not
-- parse; the tests start from trees.
use girasolbot.Prelude.{
  ℕ, Bool, true, false, Option, none, some, List, [], ◌∷◌, String, str_eq, if◌then◌else◌,
}
use girasolbot.Json.{Json}

mutual
  pub data Tree : Type 0 where
    null : Tree
    number : ℕ → Tree
    text : String → Tree
    array : Items → Tree
    object : Fields → Tree

  pub data Items : Type 0 where
    nil : Items
    cons : Tree → Items → Items

  pub data Fields : Type 0 where
    end : Fields
    field : String → Tree → Fields → Fields

unfoldable pub lookup : Fields → String → Option Tree
lookup end k = none
lookup (field j v fs) k = if str_eq j k then some v else lookup fs k

unfoldable pub list_of : Items → List Tree
list_of nil = []
list_of (cons v vs) = v ∷ list_of vs

unfoldable pub items_of : List Tree → Items
items_of [] = nil
items_of (v ∷ vs) = cons v (items_of vs)

unfoldable pub get_field : Tree → String → Option Tree
unfolding lookup
get_field (object fs) k = lookup fs k
get_field _ k = none

abbrev number_of : Tree → Option ℕ
number_of (number n) = some n
number_of _ = none

abbrev text_of : Tree → Option String
text_of (text s) = some s
text_of _ = none

unfoldable pub array_of : Tree → Option (List Tree)
unfolding list_of
array_of (array vs) = some (list_of vs)
array_of _ = none

abbrev null_test : Tree → Bool
null_test null = true
null_test _ = false

abbrev text_test : Tree → Bool
text_test (text s) = true
text_test _ = false

abbrev object_test : Tree → Bool
object_test (object fs) = true
object_test _ = false

-- `tree_of` gives the values of the texts that a test parses.
abbrev pub tree_json : (String → Option Tree) → Json
tree_json tree_of = record {
  Value = Tree;
  from_str = tree_of;
  get = get_field;
  as_u64 = number_of;
  as_str = text_of;
  as_array = array_of;
  is_null = null_test;
  is_string = text_test;
  is_object = object_test;
}
