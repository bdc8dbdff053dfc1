-- ===== src/Json.antt =====
-- What the firmware asks of cJSON, the library that parses and prints its JSON: a parameter of every
-- function that reads or writes a message.
use veetee_vuqb.Base.{ℕ, Bool, false, not, if◌then◌else◌, Option, none, some, List, str_eq}
use veetee_vuqb.Base.Int.{ℤ}

-- A tree that the firmware builds by cJSON_CreateObject and the cJSON_Add functions, an object as its
-- fields in the order in which they are added.
mutual
  pub data Built : Type 0 where
    text : List ℕ → Built
    number : ℤ → Built
    flag : Bool → Built
    object : Fields → Built

  pub data Fields : Type 0 where
    end : Fields
    field : List ℕ → Built → Fields → Fields

-- The values, the item of an object under a name, the type tests, the fields of a value, whether its
-- number is a whole one, the parser, the two printers and the functions that allocate.
pub record CJson : Type 1 where
  pub Value : Type 0
  pub item : Value → List ℕ → Option Value
  pub is_object : Value → Bool
  pub is_string : Value → Bool
  pub is_number : Value → Bool
  pub is_bool : Value → Bool
  pub is_true : Value → Bool
  pub valuestring : Value → Option (List ℕ)
  pub is_whole : Value → Bool
  pub valueint : Value → ℤ
  pub array_size : Value → ℕ
  pub parse : List ℕ → Option Value
  pub print : Value → Option (List ℕ)
  pub print_built : Built → Option (List ℕ)
  pub create_object : Option Value

module _ (j : CJson) where
  -- `cJSON_IsString(value)` and the string of the value
  abbrev pub string_of : Option j.Value → Option (List ℕ)
  string_of none = none
  string_of (some value) = if j.is_string value then j.valuestring value else none

  -- `cJSON_IsString(value) && strcmp(value->valuestring, name) == 0`
  abbrev pub is_text : Option j.Value → List ℕ → Bool
  is_text value name = elim (string_of value) [ none ↦ false | some s ↦ str_eq s name ]

  -- The type tests, where false is also the answer for NULL.
  abbrev pub is_object : Option j.Value → Bool
  is_object none = false
  is_object (some value) = j.is_object value

  abbrev pub is_true : Option j.Value → Bool
  is_true none = false
  is_true (some value) = j.is_true value

  -- A number that is an integer: `cJSON_IsNumber(value) && value->valuedouble == (double)value->valueint`
  abbrev pub integer_of : Option j.Value → Option ℤ
  integer_of none = none
  integer_of (some value) =
      if not (j.is_number value)
      then none
      else if j.is_whole value
      then some (j.valueint value)
      else none
