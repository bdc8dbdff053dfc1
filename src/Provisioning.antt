-- ===== src/Provisioning.antt =====
-- veetee-firmware/main/main.c: the provisioning of the Wi-Fi, its form and its DNS responder. The HTTP
-- server, the sockets and the Wi-Fi driver are libraries: what they answer is an argument.
pub mod Forms
pub mod Names
pub mod Accepting
use veetee_vuqb.Base.{
  ℕ, ◌+◌, ◌-◌, ◌*◌, ◌^◌, Bool, true, false, not, ◌&&◌, ◌||◌, if◌then◌else◌, ltb, leb, ◌==◌, Option,
  none, some, List, [], ◌∷◌, ◌++◌, length, take, drop, set,
}
use Prim.Native.Nat.{bit_or}
use veetee_vuqb.Base.Text.{codes}

-- isxdigit, and the value of a digit: the letters after tolower
abbrev pub is_digit : ℕ → Bool
is_digit c = leb b'0' c && leb c b'9'

abbrev pub isxdigit : ℕ → Bool
isxdigit c = is_digit c || (leb b'a' c && leb c b'f') || (leb b'A' c && leb c b'F')

abbrev pub hex_value : ℕ → ℕ
hex_value c = if leb c b'9' then c - b'0' else if leb b'a' c then c - b'a' + 10 else c - b'A' + 10

abbrev pub and_then : ℕ → Option (List ℕ) → Option (List ℕ)
and_then value rest = elim rest [ none ↦ none | some bytes ↦ some (value ∷ bytes) ]

-- form_decode on what is left of the input, with what is left of the output's capacity: the bytes that it
-- writes before the terminator, or `none` where it returns false.
unfoldable pub form_decode : ℕ → List ℕ → Option (List ℕ)
form_decode capacity [] = if capacity == 0 then none else some []
form_decode capacity (value ∷ []) =
    if leb capacity 1 || value == b'%'
    then none
    else and_then (if value == b'+' then b' ' else value) (form_decode (capacity - 1) [])
form_decode capacity (value ∷ low ∷ []) =
    let plain = form_decode (capacity - 1) (low ∷ []) in
    if leb capacity 1 || value == b'%'
    then none
    else and_then (if value == b'+' then b' ' else value) plain
form_decode capacity (value ∷ high ∷ low ∷ rest) = elim (leb capacity 1) [
  | true ↦ none
  | false ↦ elim (value == b'%') [
    | false ↦
        and_then (if value == b'+' then b' ' else value)
          (form_decode (capacity - 1) (high ∷ low ∷ rest))
    | true ↦
        if not (isxdigit high) || not (isxdigit low)
        then none
        else and_then (bit_or (hex_value high * 2 ^ 4) (hex_value low))
            (form_decode (capacity - 1) rest)
  ]
]

-- What stands before the next `&`.
unfoldable pub field_value : List ℕ → List ℕ
field_value [] = []
field_value (c ∷ cs) = let rest = field_value cs in if c == b'&' then [] else c ∷ rest

abbrev pub starts_with : List ℕ → List ℕ → Bool
starts_with [] s = true
starts_with (c ∷ cs) [] = false
starts_with (c ∷ cs) (d ∷ ds) = (c == d) && starts_with cs ds

-- form_field from an offset on, with whether a field starts there. A round at an offset where none starts
-- is one of the inner loop, which passes over the rest of a field.
unfoldable pub form_field : Bool → List ℕ → List ℕ → ℕ → Option (List ℕ)
form_field at_field_start [] name output_capacity = none
form_field at_field_start (c ∷ body) name output_capacity =
    let later = form_field (c == b'&') body name output_capacity in
    if at_field_start && starts_with (name ++ (b'=' ∷ [])) (c ∷ body)
    then form_decode output_capacity (field_value (drop (length name + 1) (c ∷ body)))
    else later

-- The loop of httpd_req_recv: each answer is the bytes that it delivers, none where its count is not
-- positive, and at most those that are asked for. `none` is the error.
unfoldable pub receive_body : ℕ → List (List ℕ) → Option (List ℕ)
receive_body missing [] = if missing == 0 then some [] else none
receive_body missing (chunk ∷ chunks) =
    let delivered = take missing chunk in
    let rest = receive_body (missing - length delivered) chunks in
    if missing == 0
    then some []
    else if length delivered == 0
    then none
    else elim rest [ none ↦ none | some bytes ↦ some (delivered ++ bytes) ]

-- The C string in a buffer.
unfoldable pub c_string : List ℕ → List ℕ
c_string [] = []
c_string (c ∷ cs) = let rest = c_string cs in if c == 0 then [] else c ∷ rest

-- What the handler answers: an error page, or the page of the accepted form with the station that was set.
pub data SaveAnswer : Type 0 where
  bad_request timeout bad_credentials not_saved : SaveAnswer
  accepted : List ℕ → List ℕ → SaveAnswer

-- The sizes of `ssid` and `password` in the handler, and in the driver's wifi_config_t
abbrev pub ssid_capacity : ℕ
ssid_capacity = 33

abbrev pub password_capacity : ℕ
password_capacity = 65

abbrev pub station_ssid_size : ℕ
station_ssid_size = 32

abbrev pub station_password_size : ℕ
station_password_size = 64

unfoldable pub check_credentials : Bool → Option (List ℕ) → Option (List ℕ) → SaveAnswer
check_credentials saved none password = SaveAnswer.bad_credentials
check_credentials saved (some ssid) none = SaveAnswer.bad_credentials
check_credentials saved (some ssid) (some password) =
    let name = c_string ssid in
    let secret = c_string password in
    if length name == 0
      || leb station_ssid_size (length name)
      || leb station_password_size (length secret)
    then SaveAnswer.bad_credentials
    else if not saved
    then SaveAnswer.not_saved
    else SaveAnswer.accepted name secret

-- provisioning_save_handler with an application: `saved` says whether esp_wifi_set_config succeeds. The
-- accepted form also sets provisioning_submitted and clears wifi_stop_requested.
unfoldable pub save_handler : ℕ → List (List ℕ) → Bool → SaveAnswer
save_handler content_len chunks saved =
    if content_len == 0 || ltb 512 content_len
    then SaveAnswer.bad_request
    else elim (receive_body content_len chunks) [
      | none ↦ SaveAnswer.timeout
      | some body ↦
          check_credentials saved (form_field true body (codes "ssid") ssid_capacity)
            (form_field true body (codes "password") password_capacity)
    ]

-- The answer of provisioning_dns_task to a datagram, `none` where it sends nothing.
unfoldable pub dns_response : List ℕ → Option (List ℕ)
dns_response query =
    if ltb (length query) 12 || ltb (512 - 16) (length query)
    then none
    else (let r = set query 2 129 in
        let r = set r 3 128 in
        let r = set r 4 0 in
        let r = set r 5 1 in
        let r = set r 6 0 in
        let r = set r 7 1 in
        some (r ++ (192 ∷ 12 ∷ 0 ∷ 1 ∷ 0 ∷ 1 ∷ 0 ∷ 0 ∷ 0 ∷ 60 ∷ 0 ∷ 4 ∷ 192 ∷ 168 ∷ 4 ∷ 1 ∷ [])))
