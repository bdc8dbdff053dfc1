-- ===== src/Pairing/Codes.antt =====
-- Which pairing codes veetee_pairing.c accepts, and that it accepts those that it makes.
use veetee_vuqb.Base.{
  ℕ, suc, refl, get_or, ◌+◌, ◌-◌, ◌/◌, ◌%◌, ◌<◌, ◌≤◌, ◌≡◌, ◌↔◌, ap, ◌∙◌, Bool, true, arith, Option,
  some, List, [], ◌∷◌, ◌++◌, ◌==◌, length, take, replicate, All,
}
use veetee_vuqb.Base.Text.{decimal}
use veetee_vuqb.Pairing.{code_length, digits_from, code_is_valid, snprintf_06lu, code_from_entropy}

abbrev pub IsDigit : ℕ → Type 0
IsDigit c = (b'0' ≤ c) × (c ≤ b'9')

-- `decimal` of six digits
pub six_digits : (v : ℕ) → List ℕ
six_digits v =
    (b'0' + v / 100000)
    ∷ (b'0' + v / 10000 % 10)
    ∷ (b'0' + v / 1000 % 10)
    ∷ (b'0' + v / 100 % 10)
    ∷ (b'0' + v / 10 % 10)
    ∷ (b'0' + v % 10)
    ∷ []

decimal-six : (v : ℕ) → 100000 ≤ v → v < 1000000 → decimal 10 v [] ≡ six_digits v
unfolding decimal six_digits
decimal-six v h k = ground arith

digits_from-suc :
    (code : List ℕ) (i n : ℕ)
    → (digits_from code i (suc n) ≡ true)
      ↔ (IsDigit (get_or code i 0) × (digits_from code (i + 1) n ≡ true))
unfolding digits_from
digits_from-suc code i n = (λ h. ground arith, λ h. ground arith)

-- The loop of vt_pairing_code_is_valid over six characters.
digits_from_six :
    (a b c d e f : ℕ) (rest : List ℕ)
    → let code = a ∷ b ∷ c ∷ d ∷ e ∷ f ∷ rest in
      (digits_from code 0 6 ≡ true) ↔ All IsDigit (a ∷ b ∷ c ∷ d ∷ e ∷ f ∷ [])
digits_from_six a b c d e f rest =
    let code : List ℕ = a ∷ b ∷ c ∷ d ∷ e ∷ f ∷ rest in
    let step = digits_from-suc code in
    (
      λ h.
          let p0 = (step 0 5).0 h in
          let p1 = (step 1 4).0 p0.1 in
          let p2 = (step 2 3).0 p1.1 in
          let p3 = (step 3 2).0 p2.1 in
          let p4 = (step 4 1).0 p3.1 in
          let p5 = (step 5 0).0 p4.1 in (p0.0, (p1.0, (p2.0, (p3.0, (p4.0, (p5.0, tt)))))),
      λ h. (step 0 5).1 (
        h.0,
        (step 1 4).1 (
          h.1.0,
          (step 2 3).1 (
            h.1.1.0,
            (step 3 2).1 (
              h.1.1.1.0,
              (step 4 1).1 (h.1.1.1.1.0, (step 5 0).1 (h.1.1.1.1.1.0, unfold digits_from in refl)),
            ),
          ),
        ),
      ),
    )

of_six :
    (code : List ℕ)
    → (code_is_valid (some code) ≡ true) ↔ ((get_or code 6 0 ≡ 0) × (digits_from code 0 6 ≡ true))
unfolding code_is_valid
of_six code = (λ v. ground arith, λ v. ground arith)

-- vt_pairing_code_is_valid accepts a C string exactly when it has six characters, all of them
-- decimal digits.
code_is_valid_iff :
    (code : List ℕ)
    → All (λ c. 0 < c) code
    → (code_is_valid (some code) ≡ true) ↔ ((length code ≡ 6) × All IsDigit code)
unfolding code_is_valid digits_from
code_is_valid_iff [] h = (λ v. ground arith, λ v. absurd (omega arith))
code_is_valid_iff (a ∷ []) h = (λ v. ground arith, λ v. absurd (omega arith))
code_is_valid_iff (a ∷ b ∷ []) h = (λ v. ground arith, λ v. absurd (omega arith))
code_is_valid_iff (a ∷ b ∷ c ∷ []) h = (λ v. ground arith, λ v. absurd (omega arith))
code_is_valid_iff (a ∷ b ∷ c ∷ d ∷ []) h = (λ v. ground arith, λ v. absurd (omega arith))
code_is_valid_iff (a ∷ b ∷ c ∷ d ∷ e ∷ []) h = (λ v. ground arith, λ v. absurd (omega arith))
code_is_valid_iff (a ∷ b ∷ c ∷ d ∷ e ∷ f ∷ []) h =
    let six = digits_from_six a b c d e f [] in
    let whole = of_six (a ∷ b ∷ c ∷ d ∷ e ∷ f ∷ []) in
    (λ v. (refl, six.0 (whole.0 v).1), λ v. whole.1 (refl, six.1 v.1))
code_is_valid_iff (a ∷ b ∷ c ∷ d ∷ e ∷ f ∷ g ∷ rest) h = (
  λ v. absurd (omega (arith, ((of_six (a ∷ b ∷ c ∷ d ∷ e ∷ f ∷ g ∷ rest)).0 v).0)),
  λ v. absurd (omega arith),
)

snprintf_six : (v : ℕ) → 100000 ≤ v → v < 1000000 → snprintf_06lu 7 v ≡ (six_digits v, 6)
unfolding snprintf_06lu six_digits
snprintf_six v h k =
    ap
      (λ (digits : List ℕ).
        let text = replicate (6 - length digits) b'0' ++ digits in (take 6 text, length text))
      (decimal-six v h k)

six_digits_valid : (v : ℕ) → 100000 ≤ v → v < 1000000 → code_is_valid (some (six_digits v)) ≡ true
unfolding code_is_valid digits_from six_digits
six_digits_valid v h k = ground arith

-- The code that is made from any entropy has the six digits of 100000 + entropy % 900000, is
-- accepted by vt_pairing_code_is_valid, and the call returns true.
pub code_from_entropy-valid :
    (entropy : ℕ) (buffer : List ℕ)
    → (code_from_entropy entropy (some buffer)
        ≡ (some (six_digits (100000 + entropy % 900000)), true))
      × (code_is_valid (code_from_entropy entropy (some buffer)).0 ≡ true)
unfolding code_from_entropy
code_from_entropy-valid entropy buffer =
    let v = 100000 + entropy % 900000 in
    let low : 100000 ≤ v = omega arith in
    let high : v < 1000000 = omega arith in
    let printed = snprintf_six v low high in
    let made : code_from_entropy entropy (some buffer) ≡ (some (six_digits v), true) =
      ap (λ (p : List ℕ × ℕ). (some p.0, p.1 == code_length)) printed in
    (
      made,
      ap (λ (p : Option (List ℕ) × Bool). code_is_valid p.0) made ∙ six_digits_valid v low high,
    )
