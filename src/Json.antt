-- ===== src/Json.antt =====
-- `serde_json::Value` and what the program uses of it. A number is one that fits a `u64`, or the
-- bit pattern of another one.
use Prim.Native.String.{String}
use mahi_ai.Prelude.{
  ℕ, Bool, false, ◌||◌, Option, none, some, List, [], ◌∷◌, Text, text, text_eq, ◌==◌, if◌then◌else◌,
}
use mahi_ai.Contracts.Result.{Result}

mutual
  pub data Json : Type 0 where
    null : Json
    boolean : Bool → Json
    natural real : ℕ → Json
    string : Text → Json
    array : Items → Json
    object : Fields → Json

  pub data Items : Type 0 where
    no_items : Items
    item : Json → Items → Items

  pub data Fields : Type 0 where
    no_fields : Fields
    field : Text → Json → Fields → Fields

abbrev pub items : List Json → Items
items [] = no_items
items (j ∷ js) = item j (items js)

abbrev pub elements : Items → List Json
elements no_items = []
elements (item j js) = j ∷ elements js

abbrev pub fields : List (Text × Json) → Fields
fields [] = no_fields
fields ((k, j) ∷ rest) = field k j (fields rest)

-- `json!({...})` and `json!([...])`
abbrev pub entry : String → Json → Text × Json
entry key value = (text key, value)

abbrev pub json_object : List (Text × Json) → Json
json_object entries = object (fields entries)

abbrev pub json_array : List Json → Json
json_array values = array (items values)

abbrev pub word : String → Json
word t = string (text t)

abbrev pub find_field : Text → Fields → Json
find_field k no_fields = null
find_field k (field i j rest) = if i == k then j else find_field k rest

-- `value.get(key).is_some()` on the fields of an object.
abbrev pub has_key : Text → Fields → Bool
has_key k no_fields = false
has_key k (field i j rest) = (i == k) || has_key k rest

-- `value[key]`: null where the value is no object or has no such key.
abbrev pub index : Json → Text → Json
index (object fs) k = find_field k fs
index _ k = null

-- `value[0]`
abbrev pub first_item : Json → Json
first_item (array (item j js)) = j
first_item _ = null

abbrev pub set_field : Text → Json → Fields → Fields
set_field k j no_fields = field k j no_fields
set_field k j (field i w rest) =
    let others = set_field k j rest in if i == k then field k j rest else field i w others

-- `value[key] = ...` on an object.
abbrev pub set : Text → Json → Json → Json
set k j (object fs) = object (set_field k j fs)
set k j other = other

abbrev pub as_str : Json → Option Text
as_str (string t) = some t
as_str _ = none

abbrev pub as_u64 : Json → Option ℕ
as_u64 (natural n) = some n
as_u64 _ = none

abbrev pub as_array : Json → Option (List Json)
as_array (array js) = some (elements js)
as_array _ = none

abbrev pub unwrap_or {ℓ} : {A : Type ℓ} → A → Option A → A
unwrap_or d none = d
unwrap_or d (some a) = a

-- `value.as_str() == Some(t)`
abbrev pub is_str : Text → Json → Bool
is_str t j = elim (as_str j) [ none ↦ false | some s ↦ s == t ]

-- What the providers call of `serde_json`: the reader and the writer, and an `f32` as a number.
pub record SerdeJson : Type 0 where
  pub from_str : Text → Result Text Json
  pub to_string : Json → Result Text Text
  pub display : Json → Text
  pub widen : ℕ → Json
