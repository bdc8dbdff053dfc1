-- ===== src/McpWire/Escaping.antt =====
-- A JSON string reads back as the C string that append_escaped_string was given.
use veetee_vuqb.Base.{
  ℕ, zero, suc, ◌+◌, ◌-◌, ◌*◌, ◌<◌, ◌≡◌, refl, sym, ap, ◌∙◌, arith, Option, none, some, List, [],
  ◌∷◌, ◌++◌, length, ltb, leb, ◌==◌, if◌then◌else◌, ◌&&◌, ◌||◌,
}
use veetee_vuqb.McpWire.{escape_of}
use veetee_vuqb.McpWire.Appending.{escaped}

abbrev hex_value : ℕ → ℕ
hex_value c = if leb c b'9' then c - b'0' else c - b'a' + 10

-- What a JSON reader makes of the character behind a backslash; `none` for what it rejects.
abbrev simple_escape : ℕ → Option ℕ
simple_escape c =
    if c == b'"'
    then some b'"'
    else if c == b'\\'
    then some b'\\'
    else if c == b'b'
    then some 8
    else if c == b'f'
    then some 12
    else if c == b'n'
    then some 10
    else if c == b'r'
    then some 13
    else if c == b't'
    then some 9
    else none

-- A reader of the inside of a JSON string: the character at the start of a text, and the rest. It
-- rejects quotes and control characters, and reads \u escapes below U+0100.
read_char : List ℕ → Option (ℕ × List ℕ)
read_char [] = none
read_char (c ∷ []) = if (c == b'"') || (c == b'\\') || ltb c 0x20 then none else some (c, [])
read_char (c ∷ d ∷ rest) =
    if c == b'\\'
    then if d == b'u'
      then read_hex rest
      else elim (simple_escape d) [ none ↦ none | some e ↦ some (e, rest) ]
    else if (c == b'"') || ltb c 0x20
    then none
    else some (c, d ∷ rest)
  where
    read_hex : List ℕ → Option (ℕ × List ℕ)
    read_hex (a ∷ b ∷ x ∷ y ∷ rest) =
        if (a == b'0') && (b == b'0') then some (hex_value x * 16 + hex_value y, rest) else none
    read_hex _ = none

read_char-escape_of : (c : ℕ) (rest : List ℕ) → read_char (escape_of c ++ rest) ≡ some (c, rest)
unfolding read_char escape_of
read_char-escape_of c [] = ground arith
read_char-escape_of c (x ∷ rest) = ground arith

-- A reader of the whole inside of a JSON string, in at most `fuel` - 1 characters.
pub unescape : ℕ → List ℕ → Option (List ℕ)
unescape zero text = none
unescape (suc fuel) [] = some []
unescape (suc fuel) (c ∷ cs) = elim (read_char (c ∷ cs)) [
  | none ↦ none
  | some (d, rest) ↦ elim (unescape fuel rest) [ none ↦ none | some ds ↦ some (d ∷ ds) ]
]

starts : (text : List ℕ) → 0 < length text → (x : ℕ) × (xs : List ℕ) × (text ≡ x ∷ xs)
starts [] h = absurd (omega arith)
starts (x ∷ xs) h = (x, xs, refl)

escape_of_positive : (c : ℕ) → 0 < length (escape_of c)
unfolding escape_of
escape_of_positive c = ground arith

unescape_step :
    (fuel x d : ℕ) (xs rest ds : List ℕ)
    → read_char (x ∷ xs) ≡ some (d, rest)
    → unescape fuel rest ≡ some ds
    → unescape (suc fuel) (x ∷ xs) ≡ some (d ∷ ds)
unfolding unescape
unescape_step fuel x d xs rest ds e h = rw (unescape, e, h) refl

-- What append_escaped_string writes between its quotes reads back as the very string, by a reader
-- that rejects bare quotes and control characters, for any reader with fuel for one character more
-- than the string has.
unescape-escaped :
    (value : List ℕ) (fuel : ℕ) → length value < fuel → unescape fuel (escaped value) ≡ some value
unfolding unescape escaped
unescape-escaped value zero h = absurd (omega arith)
unescape-escaped [] (suc fuel) h = refl
unescape-escaped (c ∷ cs) (suc fuel) h =
    let rest = unescape-escaped cs fuel (omega arith) in
    let (x, xs, e) = starts (escape_of c) (escape_of_positive c) in
    let first : read_char (x ∷ (xs ++ escaped cs)) ≡ some (c, escaped cs) =
      ap (λ (t : List ℕ). read_char (t ++ escaped cs)) (sym e)
      ∙ read_char-escape_of c (escaped cs) in
    rw e (unescape_step fuel x c (xs ++ escaped cs) (escaped cs) cs first rest)
