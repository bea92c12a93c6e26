-- ===== src/Python/Json.antt =====
-- What `json.loads` gives, and what the program does with it: reading a key, and truth. A number is
-- its text and whether it is zero.
use notifyfork.Common.{
  String, List, [], ◌∷◌, Bool, true, false, not, Option, none, some, ◌==◌, if◌then◌else◌,
}
use notifyfork.Python.Result.{attribute_error, Result, ok, err}
use notifyfork.Python.Template.{Str}

mutual
  pub data Json : Type 0 where
    null : Json
    boolean : Bool → Json
    number : String → Bool → Json
    text : String → Json
    array : Items → Json
    object : Fields → Json

  pub data Items : Type 0 where
    no_items : Items
    item : Json → Items → Items

  pub data Fields : Type 0 where
    no_fields : Fields
    field : String → Json → Fields → Fields

unfoldable pub get_field : String → Fields → Option Json
get_field k no_fields = none
get_field k (field j v fs) = if j == k then some v else get_field k fs

-- `value.get(k)`: only a dict has the method.
unfoldable pub json_get : String → Json → Result (Option Json)
unfolding get_field
json_get k (object fs) = ok (get_field k fs)
json_get k _ = err (attribute_error "get")

unfoldable pub items_list : Items → List Json
items_list no_items = []
items_list (item j js) = j ∷ items_list js

-- Truth of a value.
unfoldable pub json_true : Json → Bool
json_true null = false
json_true (boolean b) = b
json_true (number shown zero) = not zero
json_true (text t) = not (t == "")
json_true (array no_items) = false
json_true (array (item j js)) = true
json_true (object no_fields) = false
json_true (object (field k v fs)) = true

-- Truth of what `get` returns, where a missing key is None.
unfoldable pub given_true : Option Json → Bool
unfolding json_true
given_true none = false
given_true (some j) = json_true j

module _ ⦃s : Str Json⦄ where
  -- `str(value)`; that of a list or a dict is given.
  unfoldable pub json_str : Json → String
  json_str null = "None"
  json_str (boolean true) = "True"
  json_str (boolean false) = "False"
  json_str (number shown zero) = shown
  json_str (text t) = t
  json_str (array js) = s.str (array js)
  json_str (object fs) = s.str (object fs)

  -- What a nullable text column keeps of a value: Django writes the `str` of what is not None.
  unfoldable pub text_column : Option Json → Option String
  unfolding json_str
  text_column none = none
  text_column (some null) = none
  text_column (some (boolean b)) = some (json_str (boolean b))
  text_column (some (number shown zero)) = some shown
  text_column (some (text t)) = some t
  text_column (some (array js)) = some (json_str (array js))
  text_column (some (object fs)) = some (json_str (object fs))
