-- ===== src/Control/Json.antt =====
-- The JSON values that the control interface reads and writes. A map holds each key once.
use text.Mathlib.Text.{◌==◌ as str_eq}
use text.Mathlib.TextEquality.{eq_iff as str_eq_iff}
use rustysd.Prelude.{
  ℕ, String, ◌≡◌, refl, Bool, List, [], ◌∷◌, Option, none, some, arith, if◌then◌else◌,
}

-- An integer with its sign, or another number as it is written.
pub data Number : Type 0 where
  pos neg : ℕ → Number
  real : String → Number

mutual
  pub data Value : Type 0 where
    null : Value
    bool : Bool → Value
    number : Number → Value
    string : String → Value
    array : Items → Value
    object : Object → Value

  pub data Items : Type 0 where
    nil : Items
    cons : Value → Items → Items

  pub data Object : Type 0 where
    empty : Object
    field : String → Value → Object → Object

-- `Map::get`
unfoldable pub get_field : String → Object → Option Value
get_field k empty = none
get_field k (field j v m) = if str_eq j k then some v else get_field k m

-- `Map::insert`
unfoldable pub insert_field : String → Value → Object → Object
insert_field k v empty = field k v empty
insert_field k v (field j w m) = if str_eq j k then field k v m else field j w (insert_field k v m)

unfoldable pub insert_some : String → Option Value → Object → Object
unfolding insert_field
insert_some k none m = m
insert_some k (some v) m = insert_field k v m

-- `Value::Array` of the elements of a vector.
unfoldable pub array_of : List Value → Items
array_of [] = nil
array_of (v ∷ vs) = cons v (array_of vs)

pub get_field-insert_field :
    (k j : String) (v : Value) (m : Object)
    → get_field j (insert_field k v m) ≡ (if str_eq k j then some v else get_field j m)
unfolding get_field insert_field
get_field-insert_field k j v empty = refl
get_field-insert_field k j v (field i w m) =
    ground (arith, str_eq_iff k j, str_eq_iff i k, str_eq_iff i j, get_field-insert_field k j v m)

pub get_field-insert_some :
    (k j : String) (o : Option Value) (m : Object)
    → get_field k m ≡ none
    → get_field j (insert_some k o m) ≡ (if str_eq k j then o else get_field j m)
unfolding insert_some
get_field-insert_some k j none m fresh = ground (arith, str_eq_iff k j)
get_field-insert_some k j (some v) m fresh = get_field-insert_field k j v m
