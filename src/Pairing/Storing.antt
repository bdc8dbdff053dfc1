-- ===== src/Pairing/Storing.antt =====
-- veetee-firmware/main/main.c: the pairing code of the device, from its storage or made new, and its hash.
-- NVS, the PSA library and the random generator answer by arguments.
use veetee_vuqb.Base.{
  ℕ, ◌+◌, ◌*◌, ◌-◌, ◌/◌, ◌%◌, ◌<◌, ◌≤◌, ◌≡◌, ◌⊎◌, All, take, refl, Bool, true, false, not, ◌||◌,
  if◌then◌else◌, ltb, ◌==◌, Option, none, some, List, [], ◌∷◌, length, arith, Bool-cases, inl, inr,
  subst,
}
use veetee_vuqb.Base.Esp.{EspError}
use veetee_vuqb.Pairing.{code_length, code_is_valid, code_from_entropy}
use veetee_vuqb.Pairing.Codes.{six_digits, code_from_entropy-valid}

abbrev is_ok : EspError → Bool
is_ok EspError.ok = true
is_ok _ = false

-- Whether each call of the PSA library returns PSA_SUCCESS, and the digest that psa_hash_finish gives of the
-- bytes that psa_hash_update was given.
pub record HashAnswers : Type 0 where
  pub started : Bool
  pub set_up : Bool
  pub updated : Bool
  pub finished : Bool
  pub digest : List ℕ → List ℕ

-- `%02x` of each byte
abbrev pub hex_digit : ℕ → ℕ
hex_digit n = if ltb n 10 then b'0' + n else b'a' + (n - 10)

unfoldable pub hex_of : List ℕ → List ℕ
hex_of [] = []
hex_of (byte ∷ bytes) = hex_digit (byte / 16) ∷ hex_digit (byte % 16) ∷ hex_of bytes

-- The argument of psa_hash_update: VT_PAIRING_CODE_LENGTH bytes of the code
abbrev pub hashed_bytes : Option (List ℕ) → List ℕ
hashed_bytes none = []
hashed_bytes (some code) = take code_length code

-- pairing_hash with an output: the result, and the hash where it is made
unfoldable pub pairing_hash : HashAnswers → Option (List ℕ) → EspError × Option (List ℕ)
pairing_hash answers code =
    let digest = answers.digest (hashed_bytes code) in
    if not (code_is_valid code)
    then (EspError.err_invalid_arg, none)
    else if not answers.started
        || not answers.set_up
        || not answers.updated
        || not answers.finished
        || not (length digest == 32)
    then (EspError.fail, none)
    else (EspError.ok, some (hex_of digest))

-- What NVS answers: to nvs_open, to nvs_get_str with what then stands in the application's code, and to
-- nvs_set_str and nvs_commit.
pub record Storage : Type 0 where
  pub opened : EspError
  pub not_found : Bool
  pub got : EspError
  pub code : List ℕ
  pub set : EspError
  pub committed : EspError

abbrev finish_load : HashAnswers → List ℕ → EspError → EspError × List ℕ × Option (List ℕ)
finish_load answers code error =
    if not (is_ok error)
    then (error, code, none)
    else let (result, hash) = pairing_hash answers (some code) in (result, code, hash)

abbrev written_code : Option (List ℕ) → List ℕ → List ℕ
written_code none code = code
written_code (some written) code = written

-- pairing_load_or_create with an application: the result, its code and its hash after it
unfoldable pub pairing_load_or_create :
    Storage → ℕ → HashAnswers → EspError × List ℕ × Option (List ℕ)
pairing_load_or_create storage entropy answers =
    if not (is_ok storage.opened)
    then (storage.opened, storage.code, none)
    else if storage.not_found || not (code_is_valid (some storage.code))
    then (let (written, made) = code_from_entropy entropy (some storage.code) in
        let code = written_code written storage.code in
        if not made
        then (EspError.fail, code, none)
        else finish_load answers code
            (if is_ok storage.set then storage.committed else storage.set))
    else finish_load answers storage.code storage.got

length-hex_of : (bytes : List ℕ) → length (hex_of bytes) ≡ 2 * length bytes
unfolding hex_of
length-hex_of [] = refl
length-hex_of (byte ∷ bytes) = omega (arith, length-hex_of bytes)

-- A lowercase hexadecimal digit.
abbrev pub IsHex : ℕ → Type 0
IsHex c = ((b'0' ≤ c) × (c ≤ b'9')) ⊎ ((b'a' ≤ c) × (c ≤ b'f'))

hex_digit-IsHex : (n : ℕ) → n < 16 → IsHex (hex_digit n)
hex_digit-IsHex n h = elim (Bool-cases (ltb n 10)) [
  | inl e ↦ rw e (inl (omega arith, ground (arith, e)))
  | inr e ↦ rw e (inr (omega arith, ground (arith, e)))
]

hex_of-IsHex : (bytes : List ℕ) → All (λ b. b < 256) bytes → All IsHex (hex_of bytes)
unfolding hex_of
hex_of-IsHex [] v = tt
hex_of-IsHex (byte ∷ bytes) v = (
  hex_digit-IsHex (byte / 16) (omega (arith, v.0)),
  (hex_digit-IsHex (byte % 16) (omega arith), hex_of-IsHex bytes v.1),
)

-- A device that is ready to be paired: a valid code, and the digest of its six digits as 64 hexadecimal ones.
abbrev pub IsPaired : HashAnswers → EspError × List ℕ × Option (List ℕ) → Type 0
IsPaired answers (result, code, hash) =
    (code_is_valid (some code) ≡ true)
    × (hash ≡ some (hex_of (answers.digest (take code_length code))))
    × (length (hex_of (answers.digest (take code_length code))) ≡ 64)
    × All IsHex (hex_of (answers.digest (take code_length code)))

finish_load-code :
    (answers : HashAnswers) (code : List ℕ) (error : EspError)
    → (finish_load answers code error).1 ≡ code
finish_load-code answers code error = ground arith

finish_load-IsPaired :
    (answers : HashAnswers) (code : List ℕ) (error : EspError)
    → ((input : List ℕ) → All (λ b. b < 256) (answers.digest input))
    → code_is_valid (some code) ≡ true
    → (finish_load answers code error).0 ≡ EspError.ok
    → IsPaired answers (finish_load answers code error)
unfolding pairing_hash
finish_load-IsPaired answers code error bytes valid h = (
  ground (arith, valid),
  ground (arith, valid),
  ground (arith, valid, length-hex_of (answers.digest (take code_length code))),
  rw (finish_load-code answers code error)
      (hex_of-IsHex (answers.digest (take code_length code)) (bytes (take code_length code))),
)

-- Whatever is stored and whatever entropy there is, where a digest of the library is a list of bytes: when the
-- call returns ESP_OK, the device has a valid code, and its hash is the digest of the six digits of that code,
-- written as 64 lowercase hexadecimal digits; and a valid code that NVS finds is kept.
pub pairing_load_or_create-IsPaired :
    (storage : Storage) (entropy : ℕ) (answers : HashAnswers)
    → ((input : List ℕ) → All (λ b. b < 256) (answers.digest input))
    → let after = pairing_load_or_create storage entropy answers in
      (after.0 ≡ EspError.ok → IsPaired answers after)
      × (storage.not_found ≡ false
          → code_is_valid (some storage.code) ≡ true
          → after.1 ≡ storage.code)
unfolding pairing_load_or_create
pairing_load_or_create-IsPaired storage entropy answers bytes =
    let (made, valid) = code_from_entropy-valid entropy storage.code in
    let fresh : code_is_valid (some (six_digits (100000 + entropy % 900000))) ≡ true =
      subst (λ (p : Option (List ℕ) × Bool). code_is_valid p.0 ≡ true) made valid in
    (
      elim (Bool-cases (is_ok storage.opened)) [
        | inr e ↦ rw (pairing_load_or_create, e) (λ h. absurd (cc))
        | inl e ↦ elim (Bool-cases (storage.not_found || not (code_is_valid (some storage.code)))) [
          | inl f ↦
              rw (pairing_load_or_create, e, f, made)
                (finish_load-IsPaired answers (six_digits (100000 + entropy % 900000))
                  (if is_ok storage.set then storage.committed else storage.set) bytes fresh)
          | inr f ↦
              rw (pairing_load_or_create, e, f)
                (finish_load-IsPaired answers storage.code storage.got bytes (ground (arith, f)))
        ]
      ],
      λ found kept. ground (arith, found, kept),
    )
