-- ===== src/Provisioning/Forms.antt =====
-- The form of the provisioning page: what is URL-encoded, the device reads back, whichever bytes the encoder
-- leaves as they are.
use Prim.Native.Nat.{bit_or}
use veetee_vuqb.Base.{
  ℕ, ◌+◌, ◌-◌, ◌*◌, ◌/◌, ◌%◌, ◌^◌, ◌≤◌, ◌<◌, ◌≡◌, refl, ◌∙◌, Bool, true, false, ◌&&◌, ◌||◌,
  if◌then◌else◌, ltb, leb, ◌==◌, some, List, [], ◌∷◌, ◌++◌, length, All, arith, Bool-cases, inl,
  inr, ==_iff,
}
use veetee_vuqb.Base.Bits.{bit_or-shift}
use veetee_vuqb.Provisioning.{
  is_digit, isxdigit, hex_value, and_then, form_decode, field_value, form_field,
}

-- The bytes that the urlencoded form of a browser leaves as they are: letters, digits, and `*`, `-`, `.`, `_`.
abbrev pub is_unescaped : ℕ → Bool
is_unescaped c =
    is_digit c
    || (leb b'a' c && leb c b'z')
    || (leb b'A' c && leb c b'Z')
    || c == b'*'
    || c == b'-'
    || c == b'.'
    || c == b'_'

-- An encoder may leave any bytes as they are but the three that mean something else.
abbrev pub IsPlain : (ℕ → Bool) → Type 0
IsPlain plain =
    (c : ℕ) → plain c ≡ true → ((c == b'%') ≡ false) × ((c == b'+') ≡ false) × ((c == b'&') ≡ false)

pub is_unescaped-IsPlain : IsPlain is_unescaped
is_unescaped-IsPlain c h = (ground arith, ground arith, ground arith)

abbrev pub hex_digit : ℕ → ℕ
hex_digit n = if ltb n 10 then b'0' + n else b'A' + (n - 10)

-- The encoding: a byte that the encoder leaves stands for itself, a space is a plus sign, and any other byte
-- is a percent sign and its two hexadecimal digits.
abbrev pub encode_byte : (ℕ → Bool) → ℕ → List ℕ
encode_byte plain c =
    if plain c
    then c ∷ []
    else if c == b' '
    then b'+' ∷ []
    else b'%' ∷ hex_digit (c / 16) ∷ hex_digit (c % 16) ∷ []

unfoldable pub encode : (ℕ → Bool) → List ℕ → List ℕ
encode plain [] = []
encode plain (c ∷ cs) = encode_byte plain c ++ encode plain cs

hex_digit-isxdigit : (n : ℕ) → n < 16 → isxdigit (hex_digit n) ≡ true
hex_digit-isxdigit n h = ground arith

hex_value-hex_digit : (n : ℕ) → n < 16 → hex_value (hex_digit n) ≡ n
hex_value-hex_digit n h = ground arith

hex_pair :
    (c : ℕ)
    → c < 256
    → bit_or (hex_value (hex_digit (c / 16)) * 2 ^ 4) (hex_value (hex_digit (c % 16))) ≡ c
hex_pair c b =
    let high = hex_value-hex_digit (c / 16) (omega arith) in
    let low = hex_value-hex_digit (c % 16) (omega arith) in
    rw (high, low) (bit_or-shift 4 (c / 16) (c % 16) (omega arith) ∙ omega arith)

-- One character that is decoded as it stands, and one escape.
decode-plain :
    (capacity c : ℕ) (rest : List ℕ)
    → 2 ≤ capacity
    → (c == b'%') ≡ false
    → form_decode capacity (c ∷ rest)
      ≡ and_then (if c == b'+' then b' ' else c) (form_decode (capacity - 1) rest)
unfolding form_decode
decode-plain capacity c [] h e =
    let room : leb capacity 1 ≡ false = ground arith in rw (room, e) refl
decode-plain capacity c (l ∷ []) h e =
    let room : leb capacity 1 ≡ false = ground arith in rw (room, e) refl
decode-plain capacity c (k ∷ l ∷ rest) h e =
    let room : leb capacity 1 ≡ false = ground arith in rw (form_decode, room, e) refl

decode-escape :
    (capacity c : ℕ) (rest : List ℕ)
    → 2 ≤ capacity
    → c < 256
    → form_decode capacity (b'%' ∷ hex_digit (c / 16) ∷ hex_digit (c % 16) ∷ rest)
      ≡ and_then c (form_decode (capacity - 1) rest)
unfolding form_decode
decode-escape capacity c rest h b =
    let room : leb capacity 1 ≡ false = ground arith in
    let high = hex_digit-isxdigit (c / 16) (omega arith) in
    let low = hex_digit-isxdigit (c % 16) (omega arith) in
    rw (form_decode, room, high, low, hex_pair c b) refl

decode-encode_byte :
    (plain : ℕ → Bool) (capacity c : ℕ) (rest : List ℕ)
    → IsPlain plain
    → 2 ≤ capacity
    → c < 256
    → form_decode capacity (encode_byte plain c ++ rest)
      ≡ and_then c (form_decode (capacity - 1) rest)
decode-encode_byte plain capacity c rest safe h b = elim (Bool-cases (plain c)) [
  | inl e ↦
      let (no_percent, no_plus, no_and) = safe c e in
      rw e (decode-plain capacity c rest h no_percent ∙ rw no_plus refl)
  | inr e ↦ elim (Bool-cases (c == b' ')) [
    | inl f ↦
        let is_space : c ≡ b' ' = (==_iff c b' ').0 f in
        rw (e, f) (decode-plain capacity b'+' rest h refl ∙ rw is_space refl)
    | inr f ↦ rw (e, f) (decode-escape capacity c rest h b)
  ]
]

-- A byte of a C string.
abbrev pub IsChar : ℕ → Type 0
IsChar c = (0 < c) × (c < 256)

-- form_decode reads back the encoding of bytes that fit its output, with its terminator.
pub form_decode-encode :
    (plain : ℕ → Bool) (capacity : ℕ) (s : List ℕ)
    → IsPlain plain
    → All IsChar s
    → length s < capacity
    → form_decode capacity (encode plain s) ≡ some s
unfolding form_decode encode
form_decode-encode plain capacity [] safe v h =
    let e : (capacity == 0) ≡ false = ground arith in rw e refl
form_decode-encode plain capacity (c ∷ cs) safe v h =
    decode-encode_byte plain capacity c (encode plain cs) safe (omega (arith, h)) v.0.1
    ∙ rw (form_decode-encode plain (capacity - 1) cs safe v.1 (omega (arith, h))) refl

-- Fields of a form: the encoding has no ampersand.
pub field_value-encode_byte :
    (plain : ℕ → Bool) (c : ℕ) (rest : List ℕ)
    → IsPlain plain
    → c < 256
    → field_value (encode_byte plain c ++ rest) ≡ encode_byte plain c ++ field_value rest
unfolding field_value
field_value-encode_byte plain c rest safe b = elim (Bool-cases (plain c)) [
  | inl e ↦ let (no_percent, no_plus, other) = safe c e in rw (e, other) refl
  | inr e ↦ elim (Bool-cases (c == b' ')) [
    | inl f ↦ rw (e, f) refl
    | inr f ↦
        let high : (hex_digit (c / 16) == b'&') ≡ false = ground arith in
        let low : (hex_digit (c % 16) == b'&') ≡ false = ground arith in rw (e, f, high, low) refl
  ]
]

pub skip-encode_byte :
    (plain : ℕ → Bool) (c : ℕ) (rest name : List ℕ) (capacity : ℕ)
    → IsPlain plain
    → c < 256
    → form_field false (encode_byte plain c ++ rest) name capacity
      ≡ form_field false rest name capacity
unfolding form_field
skip-encode_byte plain c rest name capacity safe b = elim (Bool-cases (plain c)) [
  | inl e ↦ let (no_percent, no_plus, other) = safe c e in rw (e, other) refl
  | inr e ↦ elim (Bool-cases (c == b' ')) [
    | inl f ↦ rw (e, f) refl
    | inr f ↦
        let high : (hex_digit (c / 16) == b'&') ≡ false = ground arith in
        let low : (hex_digit (c % 16) == b'&') ≡ false = ground arith in rw (e, f, high, low) refl
  ]
]
