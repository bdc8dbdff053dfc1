-- ===== src/Mcp/Digest.antt =====
-- The FNV digest of a call: the last part of veetee-firmware/main/veetee_mcp.c.
use Prim.Native.Nat.{bit_xor}
use veetee_vuqb.Base.{
  ℕ, ◌*◌, ◌%◌, ◌^◌, ◌<◌, ◌≡◌, refl, sym, ap, ◌∙◌, arith, Option, none, some, List, [], ◌∷◌, ◌++◌,
  length,
}
use veetee_vuqb.Base.Buffer.{u32_bytes}

abbrev pub fnv_offset : ℕ
fnv_offset = 2166136261

abbrev pub fnv_prime : ℕ
fnv_prime = 16777619

unfoldable pub digest_bytes : ℕ → List ℕ → ℕ
digest_bytes digest [] = digest
digest_bytes digest (byte ∷ bytes) = digest_bytes ((bit_xor digest byte * fnv_prime) % 2 ^ 32) bytes

abbrev pub text_of : Option (List ℕ) → List ℕ
text_of none = []
text_of (some text) = text

unfoldable pub digest_string : ℕ → Option (List ℕ) → ℕ
unfolding digest_bytes
digest_string digest value =
    let length_u32 = length (text_of value) % 2 ^ 32 in
    digest_bytes (digest_bytes digest (u32_bytes length_u32)) (text_of value)

unfoldable pub digest_call : Option (List ℕ) → Option (List ℕ) → Option (List ℕ) → ℕ
unfolding digest_string
digest_call method tool_name arguments_json =
    digest_string (digest_string (digest_string fnv_offset method) tool_name) arguments_json

-- Bytes digested in two parts are digested as one text.
digest_bytes-append :
    (digest : ℕ) (xs ys : List ℕ)
    → digest_bytes digest (xs ++ ys) ≡ digest_bytes (digest_bytes digest xs) ys
unfolding digest_bytes
digest_bytes-append digest [] ys = refl
digest_bytes-append digest (x ∷ xs) ys =
    digest_bytes-append ((bit_xor digest x * fnv_prime) % 2 ^ 32) xs ys

digest_bytes-lt : (digest : ℕ) (xs : List ℕ) → digest < 2 ^ 32 → digest_bytes digest xs < 2 ^ 32
unfolding digest_bytes
digest_bytes-lt digest [] h = h
digest_bytes-lt digest (x ∷ xs) h =
    digest_bytes-lt ((bit_xor digest x * fnv_prime) % 2 ^ 32) xs (omega arith)

-- A string's bytes behind the four big-endian bytes of its length; a NULL pointer as the empty one.
abbrev pub framed : Option (List ℕ) → List ℕ
framed value = u32_bytes (length (text_of value) % 2 ^ 32) ++ text_of value

digest_string-framed :
    (digest : ℕ) (value : Option (List ℕ))
    → digest_string digest value ≡ digest_bytes digest (framed value)
unfolding digest_string
digest_string-framed digest value =
    sym (digest_bytes-append digest (u32_bytes (length (text_of value) % 2 ^ 32)) (text_of value))

-- The digest of a call fits a uint32_t, and is the FNV-1a hash of one byte sequence: the method, the
-- tool's name and the arguments, each behind the four big-endian bytes of its length modulo 2^32,
-- a NULL pointer counted as an empty string.
digest_call-fnv :
    (method tool_name arguments_json : Option (List ℕ))
    → (digest_call method tool_name arguments_json
        ≡ digest_bytes fnv_offset (framed method ++ (framed tool_name ++ framed arguments_json)))
      × (digest_call method tool_name arguments_json < 2 ^ 32)
unfolding digest_call
digest_call-fnv m t a =
    let joined =
      digest_string-framed (digest_string (digest_string fnv_offset m) t) a
      ∙ ap (λ d. digest_bytes d (framed a))
          (digest_string-framed (digest_string fnv_offset m) t
            ∙ ap (λ d. digest_bytes d (framed t)) (digest_string-framed fnv_offset m))
      ∙ sym (digest_bytes-append (digest_bytes fnv_offset (framed m)) (framed t) (framed a))
      ∙ sym (digest_bytes-append fnv_offset (framed m) (framed t ++ framed a)) in
    let whole = framed m ++ (framed t ++ framed a) in
    (joined, rw joined (digest_bytes-lt fnv_offset whole (omega arith)))
