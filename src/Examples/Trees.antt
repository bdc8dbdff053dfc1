-- ===== src/Examples/Trees.antt =====
-- A small JSON for the concrete inputs: trees, and a parser that knows two texts.
use veetee_vuqb.Base.{ℕ, Bool, true, false, if◌then◌else◌, Option, none, some, List, str_eq}
use veetee_vuqb.Base.Int.{pos}
use veetee_vuqb.Base.Text.{codes}
use veetee_vuqb.Json.{CJson}

-- A JSON value, where an object is its first field and the rest of it.
pub data Json : Type 0 where
  text : List ℕ → Json
  number : ℕ → Json
  empty : Json
  flag : Bool → Json
  field : List ℕ → Json → Json → Json

abbrev item : Json → List ℕ → Option Json
item (text s) name = none
item (number n) name = none
item (flag b) name = none
item empty name = none
item (field key value rest) name =
    let other = item rest name in if str_eq key name then some value else other

abbrev is_object : Json → Bool
is_object (text s) = false
is_object (number n) = false
is_object (flag b) = false
is_object empty = true
is_object (field key value rest) = true

abbrev string_of : Json → Option (List ℕ)
string_of (text s) = some s
string_of (number n) = none
string_of (flag b) = none
string_of empty = none
string_of (field key value rest) = none

abbrev is_string : Json → Bool
is_string (text s) = true
is_string (number n) = false
is_string (flag b) = false
is_string empty = false
is_string (field key value rest) = false

abbrev number_of : Json → Option ℕ
number_of (number n) = some n
number_of (text s) = none
number_of (flag b) = none
number_of empty = none
number_of (field key value rest) = none

abbrev is_true : Json → Bool
is_true (flag b) = b
is_true (text s) = false
is_true (number n) = false
is_true empty = false
is_true (field key value rest) = false

-- One of the two texts that the parser knows: the hello of a server for the first profile.
abbrev pub server_hello : Json
server_hello = field (codes "type") (text (codes "hello")) (
    field (codes "version") (number 1) (
      field (codes "transport") (text (codes "websocket")) (
        field (codes "session_id") (text (codes "s1")) (
          field (codes "audio_params")
            (field (codes "format") (text (codes "opus")) (
              field (codes "sample_rate") (number 24000) (
                field (codes "channels") (number 1)
                  (field (codes "frame_duration") (number 60) empty))))
            empty))))

-- The other: an alert of another session.
abbrev pub foreign_alert : Json
foreign_alert =
    field (codes "type") (text (codes "alert"))
      (field (codes "session_id") (text (codes "s9")) empty)

abbrev pub json : CJson
json = record {
  Value = Json;
  item = item;
  is_object = is_object;
  is_string = is_string;
  is_number = λ v. elim (number_of v) [ none ↦ false | some n ↦ true ];
  is_bool = λ v. false;
  is_true = is_true;
  valuestring = string_of;
  array_size = λ v. 0;
  parse = λ s.
      if str_eq s (codes "hello")
      then some server_hello
      else if str_eq s (codes "alert")
      then some foreign_alert
      else none;
  print_built = λ b. some (codes "{}");
  is_whole = λ v. true;
  valueint = λ v. elim (number_of v) [ none ↦ pos 0 | some n ↦ pos n ];
  print = λ v. some (codes "{}");
  create_object = some empty;
}
