-- ===== src/Base/Buffer.antt =====
-- Byte buffers: `memcpy` to an offset, and the big-endian fields that veetee_protocol.c and
-- veetee_mqtt_udp_wire.c both define (put_u16, put_u32, get_u16, get_u32).
use Prim.Native.Nat.{ℕ, suc, ◌+◌, ◌*◌, ◌/◌, ◌%◌, ◌^◌, ◌≤◌, ◌<◌, bit_or}
use mathlib.Core.Path.{◌≡◌, refl, sym, ap, ◌∙◌}
use mathlib.Core.List.{List, [], ◌∷◌, ◌++◌, append_assoc}
use native.Mathlib.Omega.{arith}
use veetee_vuqb.Base.Lists.{
  length, get_or, set, take, take-length_append, drop, length-set, length-append,
  drop-length_append,
}
use veetee_vuqb.Base.Bits.{bit_or-shift}

-- memcpy(buffer + offset, bytes, n)
unfoldable pub copy_at {ℓ} : {A : Type ℓ} → List A → ℕ → List A → List A
copy_at buffer offset [] = buffer
copy_at buffer offset (x ∷ xs) = copy_at (set buffer offset x) (offset + 1) xs

abbrev pub u16_bytes : ℕ → List ℕ
u16_bytes value = (value / 2 ^ 8) % 2 ^ 8 ∷ value % 2 ^ 8 ∷ []

abbrev pub u32_bytes : ℕ → List ℕ
u32_bytes value =
    (value / 2 ^ 24) % 2 ^ 8
    ∷ (value / 2 ^ 16) % 2 ^ 8
    ∷ (value / 2 ^ 8) % 2 ^ 8
    ∷ value % 2 ^ 8
    ∷ []

abbrev pub put_u16 : List ℕ → ℕ → ℕ → List ℕ
put_u16 buffer offset value = copy_at buffer offset (u16_bytes value)

abbrev pub put_u32 : List ℕ → ℕ → ℕ → List ℕ
put_u32 buffer offset value = copy_at buffer offset (u32_bytes value)

-- The `uint16_t` and `uint32_t` at an offset. Callers read inside the buffer; a read past its end
-- would be 0 here.
unfoldable pub get_u16 : List ℕ → ℕ → ℕ
get_u16 buffer offset =
    bit_or (get_or buffer offset 0 * 2 ^ 8) (get_or buffer (offset + 1) 0) % 2 ^ 16

unfoldable pub get_u32 : List ℕ → ℕ → ℕ
get_u32 buffer offset =
    bit_or
      (bit_or
        (bit_or ((get_or buffer offset 0 * 2 ^ 24) % 2 ^ 32)
          (get_or buffer (offset + 1) 0 * 2 ^ 16))
        (get_or buffer (offset + 2) 0 * 2 ^ 8))
      (get_or buffer (offset + 3) 0)

abbrev pub IsByte : ℕ → Type 0
IsByte x = x < 256

pub length-copy_at {ℓ} :
    {A : Type ℓ} (buffer : List A) (i : ℕ) (xs : List A)
    → length (copy_at buffer i xs) ≡ length buffer
unfolding copy_at
length-copy_at buffer i [] = refl
length-copy_at buffer i (x ∷ xs) =
    length-copy_at (set buffer i x) (i + 1) xs ∙ length-set buffer i x

-- A copy that goes on where another ended is one copy.
pub copy_at_next {ℓ} :
    {A : Type ℓ} (buffer : List A) (i j : ℕ) (xs ys : List A)
    → j ≡ i + length xs
    → copy_at (copy_at buffer i xs) j ys ≡ copy_at buffer i (xs ++ ys)
unfolding copy_at
copy_at_next buffer i j [] ys e = let e' : j ≡ i = omega arith in rw e'
copy_at_next buffer i j (x ∷ xs) ys e = copy_at_next (set buffer i x) (i + 1) j xs ys (omega arith)

copy_at-suc {ℓ} :
    {A : Type ℓ} (b : A) (buffer : List A) (i : ℕ) (xs : List A)
    → copy_at (b ∷ buffer) (suc i) xs ≡ b ∷ copy_at buffer i xs
unfolding copy_at
copy_at-suc b buffer i [] = refl
copy_at-suc b buffer i (x ∷ xs) =
    let e : suc i + 1 ≡ suc (i + 1) = omega arith in
    rw e (copy_at-suc b (set buffer i x) (i + 1) xs)

-- A copy to the start of a buffer that has room puts the bytes before what was behind them.
pub copy_at-zero {ℓ} :
    {A : Type ℓ} (buffer xs : List A)
    → length xs ≤ length buffer
    → copy_at buffer 0 xs ≡ xs ++ drop (length xs) buffer
unfolding copy_at
copy_at-zero buffer [] h = refl
copy_at-zero [] (x ∷ xs) h = absurd (omega arith)
copy_at-zero (b ∷ buffer) (x ∷ xs) h =
    copy_at-suc x buffer 0 xs ∙ ap (◌∷◌ x) (copy_at-zero buffer xs (omega arith))

u32_sum : ℕ → ℕ → ℕ → ℕ → ℕ
u32_sum a b c d = a * 2 ^ 24 + b * 2 ^ 16 + c * 2 ^ 8 + d

or_bytes :
    (a b c d : ℕ)
    → IsByte a
    → IsByte b
    → IsByte c
    → IsByte d
    → bit_or (bit_or (bit_or ((a * 2 ^ 24) % 2 ^ 32) (b * 2 ^ 16)) (c * 2 ^ 8)) d ≡ u32_sum a b c d
unfolding u32_sum
or_bytes a b c d ha hb hc hd =
    let e0 : (a * 2 ^ 24) % 2 ^ 32 ≡ a * 2 ^ 24 = omega arith in
    let e1 = bit_or-shift 24 a (b * 2 ^ 16) (omega arith) in
    let f1 : a * 2 ^ 24 + b * 2 ^ 16 ≡ (a * 2 ^ 8 + b) * 2 ^ 16 = omega arith in
    let e2 = bit_or-shift 16 (a * 2 ^ 8 + b) (c * 2 ^ 8) (omega arith) in
    let f2 : (a * 2 ^ 8 + b) * 2 ^ 16 + c * 2 ^ 8 ≡ (a * 2 ^ 16 + b * 2 ^ 8 + c) * 2 ^ 8 =
      omega arith in
    let e3 = bit_or-shift 8 (a * 2 ^ 16 + b * 2 ^ 8 + c) d (omega arith) in
    rw (e0, e1, f1, e2, f2, e3) (omega arith)

or_byte_pair : (a b : ℕ) → IsByte a → IsByte b → bit_or (a * 2 ^ 8) b % 2 ^ 16 ≡ a * 2 ^ 8 + b
or_byte_pair a b ha hb = rw (bit_or-shift 8 a b hb) (omega arith)

-- A field read where the bytes of `value` stand is `value`.
pub get_u16_lem :
    (buffer : List ℕ) (i value : ℕ)
    → value < 2 ^ 16
    → get_or buffer i 0 ≡ (value / 2 ^ 8) % 2 ^ 8
    → get_or buffer (i + 1) 0 ≡ value % 2 ^ 8
    → get_u16 buffer i ≡ value
unfolding get_u16
get_u16_lem buffer i value h ea eb =
    let pair = or_byte_pair ((value / 2 ^ 8) % 2 ^ 8) (value % 2 ^ 8) (omega arith) (omega arith) in
    rw (ea, eb, pair) (omega arith)

pub get_u32_lem :
    (buffer : List ℕ) (i value : ℕ)
    → value < 2 ^ 32
    → get_or buffer i 0 ≡ (value / 2 ^ 24) % 2 ^ 8
    → get_or buffer (i + 1) 0 ≡ (value / 2 ^ 16) % 2 ^ 8
    → get_or buffer (i + 2) 0 ≡ (value / 2 ^ 8) % 2 ^ 8
    → get_or buffer (i + 3) 0 ≡ value % 2 ^ 8
    → get_u32 buffer i ≡ value
unfolding get_u32 u32_sum
get_u32_lem buffer i value h ea eb ec ed =
    let word =
      or_bytes ((value / 2 ^ 24) % 2 ^ 8) ((value / 2 ^ 16) % 2 ^ 8) ((value / 2 ^ 8) % 2 ^ 8)
        (value % 2 ^ 8) (omega arith) (omega arith) (omega arith) (omega arith) in
    rw (ea, eb, ec, ed, word) (omega arith)

-- Four bytes are the bytes of the field that is read from them, and a field fits its type.
pub u32_bytes-get_u32 :
    (buffer : List ℕ) (i a b c d : ℕ)
    → IsByte a × IsByte b × IsByte c × IsByte d
    → get_or buffer i 0 ≡ a
    → get_or buffer (i + 1) 0 ≡ b
    → get_or buffer (i + 2) 0 ≡ c
    → get_or buffer (i + 3) 0 ≡ d
    → (get_u32 buffer i < 2 ^ 32) × (u32_bytes (get_u32 buffer i) ≡ a ∷ b ∷ c ∷ d ∷ [])
unfolding get_u32 u32_sum
u32_bytes-get_u32 buffer i a b c d h ea eb ec ed =
    rw (ea, eb, ec, ed, or_bytes a b c d h.0 h.1 h.2 h.3) (omega arith, ground arith)

pub u16_bytes-get_u16 :
    (buffer : List ℕ) (i a b : ℕ)
    → IsByte a × IsByte b
    → get_or buffer i 0 ≡ a
    → get_or buffer (i + 1) 0 ≡ b
    → (get_u16 buffer i < 2 ^ 16) × (u16_bytes (get_u16 buffer i) ≡ a ∷ b ∷ [])
unfolding get_u16
u16_bytes-get_u16 buffer i a b h ea eb =
    rw (ea, eb, or_byte_pair a b h.0 h.1) (omega arith, ground arith)

-- A property of the buffers with four bytes in front holds of every buffer of four bytes or more.
four_in_front :
    (P : List ℕ → Type 0)
    → ((a b c d : ℕ) (rest : List ℕ) → P (a ∷ b ∷ c ∷ d ∷ rest))
    → (xs : List ℕ) → 4 ≤ length xs
    → P xs
four_in_front P f [] h = absurd (omega arith)
four_in_front P f (a ∷ []) h = absurd (omega arith)
four_in_front P f (a ∷ b ∷ []) h = absurd (omega arith)
four_in_front P f (a ∷ b ∷ c ∷ []) h = absurd (omega arith)
four_in_front P f (a ∷ b ∷ c ∷ d ∷ xs) h = f a b c d xs

-- The same of sixteen bytes, in groups of four.
pub sixteen_in_front :
    (P : List ℕ → Type 0)
    → ((a b c d e f g h i j k l m n o p : ℕ) (rest : List ℕ)
        → P (a ∷ b ∷ c ∷ d ∷ e ∷ f ∷ g ∷ h ∷ i ∷ j ∷ k ∷ l ∷ m ∷ n ∷ o ∷ p ∷ rest))
    → (xs : List ℕ) → 16 ≤ length xs
    → P xs
sixteen_in_front P q xs size =
    four_in_front (λ xs. 16 ≤ length xs → P xs)
      (λ a b c d r. λ s1.
        four_in_front (λ r. 12 ≤ length r → P (a ∷ b ∷ c ∷ d ∷ r))
          (λ e f g h r. λ s2.
            four_in_front (λ r. 8 ≤ length r → P (a ∷ b ∷ c ∷ d ∷ e ∷ f ∷ g ∷ h ∷ r))
              (λ i j k l r. λ s3.
                four_in_front (λ r. P (a ∷ b ∷ c ∷ d ∷ e ∷ f ∷ g ∷ h ∷ i ∷ j ∷ k ∷ l ∷ r))
                  (λ m n o p r. q a b c d e f g h i j k l m n o p r) r (omega arith))
              r (omega arith) (omega arith))
          r (omega arith) (omega arith))
      xs (omega arith) size

-- A copy that starts behind a front part leaves the front part alone.
copy_at_behind :
    (front buffer xs : List ℕ)
    → copy_at (front ++ buffer) (length front) xs ≡ front ++ copy_at buffer 0 xs
copy_at_behind [] buffer xs = refl
copy_at_behind (b ∷ front) buffer xs =
    copy_at-suc b (front ++ buffer) (length front) xs ∙ ap (◌∷◌ b) (copy_at_behind front buffer xs)

-- So the front part can still be read.
pub take-copy_at :
    (front buffer xs : List ℕ) (k : ℕ)
    → length front ≡ k
    → take k (copy_at (front ++ buffer) k xs) ≡ front
take-copy_at front buffer xs k e =
    ap (λ (m : ℕ). take m (copy_at (front ++ buffer) m xs)) (sym e)
    ∙ ap (take (length front)) (copy_at_behind front buffer xs)
    ∙ take-length_append front (copy_at buffer 0 xs)

-- Bytes in the middle of a buffer replaced by as many others.
pub copy_at_middle :
    (front old rest xs : List ℕ) (k : ℕ)
    → length front ≡ k
    → length xs ≡ length old
    → copy_at ((front ++ old) ++ rest) k xs ≡ (front ++ xs) ++ rest
copy_at_middle front old rest xs k e f =
    let room : length xs ≤ length (old ++ rest) = omega (arith, length-append old rest, f) in
    let tail : drop (length xs) (old ++ rest) ≡ rest =
      ap (λ (m : ℕ). drop m (old ++ rest)) f ∙ drop-length_append old rest in
    ap (λ (b : List ℕ). copy_at b k xs) (append_assoc front old rest)
    ∙ ap (λ (m : ℕ). copy_at (front ++ (old ++ rest)) m xs) (sym e)
    ∙ copy_at_behind front (old ++ rest) xs
    ∙ ap (λ (b : List ℕ). front ++ b) (copy_at-zero (old ++ rest) xs room)
    ∙ ap (λ (b : List ℕ). front ++ (xs ++ b)) tail
    ∙ sym (append_assoc front xs rest)
