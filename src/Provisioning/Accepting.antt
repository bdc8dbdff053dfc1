-- ===== src/Provisioning/Accepting.antt =====
-- provisioning_save_handler from the bytes on the connection to the station that is set.
use veetee_vuqb.Base.{
  ℕ, ◌-◌, ◌≤◌, ◌<◌, ◌≡◌, refl, ap, ◌∙◌, Bool, true, false, ltb, leb, ◌==◌, some, List, [], ◌∷◌,
  ◌++◌, length, take, All, arith, append_assoc, take-all, length-append, subst,
}
use veetee_vuqb.Base.Text.{codes}
use veetee_vuqb.Provisioning.{
  field_value, form_field, receive_body, c_string, SaveAnswer, ssid_capacity, password_capacity,
  station_ssid_size, station_password_size, check_credentials, save_handler,
}
use veetee_vuqb.Provisioning.Forms.{
  IsPlain, IsChar, encode_byte, encode, form_decode-encode, field_value-encode_byte,
  skip-encode_byte,
}

field_value-encode :
    (plain : ℕ → Bool) (s rest : List ℕ)
    → IsPlain plain
    → All IsChar s
    → field_value (encode plain s ++ (b'&' ∷ rest)) ≡ encode plain s
unfolding field_value encode
field_value-encode plain [] rest safe v = refl
field_value-encode plain (c ∷ cs) rest safe v =
    rw (append_assoc (encode_byte plain c) (encode plain cs) (b'&' ∷ rest)) (
      field_value-encode_byte plain c (encode plain cs ++ (b'&' ∷ rest)) safe v.0.1
      ∙ ap (λ x. encode_byte plain c ++ x) (field_value-encode plain cs rest safe v.1))

field_value-encode_end :
    (plain : ℕ → Bool) (s : List ℕ)
    → IsPlain plain
    → All IsChar s
    → field_value (encode plain s) ≡ encode plain s
unfolding field_value encode
field_value-encode_end plain [] safe v = refl
field_value-encode_end plain (c ∷ cs) safe v =
    field_value-encode_byte plain c (encode plain cs) safe v.0.1
    ∙ ap (λ x. encode_byte plain c ++ x) (field_value-encode_end plain cs safe v.1)

skip-encode :
    (plain : ℕ → Bool) (s rest name : List ℕ) (capacity : ℕ)
    → IsPlain plain
    → All IsChar s
    → form_field false (encode plain s ++ (b'&' ∷ rest)) name capacity
      ≡ form_field true rest name capacity
unfolding form_field encode
skip-encode plain [] rest name capacity safe v = refl
skip-encode plain (c ∷ cs) rest name capacity safe v =
    rw (append_assoc (encode_byte plain c) (encode plain cs) (b'&' ∷ rest)) (
      skip-encode_byte plain c (encode plain cs ++ (b'&' ∷ rest)) name capacity safe v.0.1
      ∙ skip-encode plain cs rest name capacity safe v.1)

-- The form as a client sends it.
abbrev pub form : (ℕ → Bool) → List ℕ → List ℕ → List ℕ
form plain ssid password =
    codes "ssid=" ++ (encode plain ssid ++ (b'&' ∷ (codes "password=" ++ encode plain password)))

form_field-ssid :
    (plain : ℕ → Bool) (ssid password : List ℕ)
    → IsPlain plain
    → All IsChar ssid
    → length ssid < ssid_capacity
    → form_field true (form plain ssid password) (codes "ssid") ssid_capacity ≡ some ssid
unfolding form_field
form_field-ssid plain ssid password safe v h =
    rw (field_value-encode plain ssid (codes "password=" ++ encode plain password) safe v)
      (form_decode-encode plain ssid_capacity ssid safe v h)

form_field-password :
    (plain : ℕ → Bool) (ssid password : List ℕ)
    → IsPlain plain
    → All IsChar ssid
    → All IsChar password
    → length password < password_capacity
    → form_field true (form plain ssid password) (codes "password") password_capacity
      ≡ some password
unfolding form_field
form_field-password plain ssid password safe v w h =
    skip-encode plain ssid (codes "password=" ++ encode plain password) (codes "password")
      password_capacity safe v
    ∙ rw (field_value-encode_end plain password safe w)
        (form_decode-encode plain password_capacity password safe w h)

c_string_id : (s : List ℕ) → All IsChar s → c_string s ≡ s
unfolding c_string
c_string_id [] v = refl
c_string_id (c ∷ cs) v =
    let filled : (c == 0) ≡ false = ground (arith, v.0.0) in
    rw filled (ap (◌∷◌ c) (c_string_id cs v.1))

abbrev pub joined : List (List ℕ) → List ℕ
joined [] = []
joined (chunk ∷ chunks) = chunk ++ joined chunks

-- However the connection cuts the body into chunks that are not empty, the handler puts it together.
receive_body-joined :
    (chunks : List (List ℕ))
    → All (λ chunk. 0 < length chunk) chunks
    → receive_body (length (joined chunks)) chunks ≡ some (joined chunks)
unfolding receive_body
receive_body-joined [] v = refl
receive_body-joined (chunk ∷ chunks) v =
    let whole = chunk ++ joined chunks in
    let size = length-append chunk (joined chunks) in
    let some_missing : (length whole == 0) ≡ false = ground (arith, size, v.0) in
    let all : take (length whole) chunk ≡ chunk =
      take-all (length whole) chunk (omega (arith, size)) in
    let delivered : (length chunk == 0) ≡ false = ground (arith, v.0) in
    let missing : length whole - length chunk ≡ length (joined chunks) = omega (arith, size) in
    rw (some_missing, all, delivered, missing, receive_body-joined chunks v.1)
      (ap (λ c. some (c ++ joined chunks)) all)

-- The handler sets the station to the network name and the password of a URL-encoded form, whichever bytes
-- other than `%`, `+` and `&` the client leaves unescaped, and however the connection cuts it into chunks, when
-- the driver takes it: for a name of 1 to 31 bytes and a password of at most 63, no byte of them 0, in a form
-- of at most 512 bytes.
pub save_handler-form :
    (plain : ℕ → Bool) (ssid password : List ℕ) (chunks : List (List ℕ))
    → IsPlain plain
    → All IsChar ssid
    → All IsChar password
    → (0 < length ssid) × (length ssid < station_ssid_size)
    → length password < station_password_size
    → joined chunks ≡ form plain ssid password
    → All (λ chunk. 0 < length chunk) chunks
    → length (form plain ssid password) ≤ 512
    → save_handler (length (form plain ssid password)) chunks true
      ≡ SaveAnswer.accepted ssid password
unfolding save_handler check_credentials
save_handler-form plain ssid password chunks safe v w fits fits_too sent filled short =
    let body = form plain ssid password in
    let received : receive_body (length body) chunks ≡ some body =
      subst (λ b. receive_body (length b) chunks ≡ some b) sent
        (receive_body-joined chunks filled) in
    let some_body : (length body == 0) ≡ false = ground arith in
    let no_more : ltb 512 (length body) ≡ false = ground (arith, short) in
    let named : (length ssid == 0) ≡ false = ground (arith, fits.0) in
    let named_short : leb station_ssid_size (length ssid) ≡ false = ground (arith, fits.1) in
    let secret_short : leb station_password_size (length password) ≡ false =
      ground (arith, fits_too) in
    rw
      (
        save_handler,
        some_body,
        no_more,
        received,
        form_field-ssid plain ssid password safe v (omega (arith, fits.1)),
        form_field-password plain ssid password safe v w (omega (arith, fits_too)),
        check_credentials,
        c_string_id ssid v,
        c_string_id password w,
        named,
        named_short,
        secret_short,
      )
      refl
