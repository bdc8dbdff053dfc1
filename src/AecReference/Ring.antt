-- ===== src/AecReference/Ring.antt =====
-- The ring of the delay line read as a queue.
use veetee_vuqb.Base.{
  ℕ, zero, suc, ◌+◌, ◌-◌, ◌%◌, ◌≤◌, ◌<◌, ◌≡◌, ◌≢◌, ◌⊎◌, inl, inr, refl, ap, ◌∙◌, arith, List, [],
  ◌∷◌, ◌++◌, length, get_or, set, get_or-set_ne,
}
use native.Mathlib.Decide.{ℕ_discrete}
use native.Mathlib.Nat.{mod_self, mod-eq_of_lt}
use veetee_vuqb.Base.Int.{ℤ, pos}

-- The index behind `i` in a ring of `c` places.
abbrev pub next : ℕ → ℕ → ℕ
next i c = (i + 1) % c

pub next_cases :
    (i c : ℕ) → i < c → ((i + 1 < c) × (next i c ≡ i + 1)) ⊎ ((i + 1 ≡ c) × (next i c ≡ 0))
next_cases i c h = elim (ℕ_discrete (i + 1) c) [
  | yes e ↦ inr (e, ap (λ (m : ℕ). m % c) e ∙ mod_self c)
  | no differ ↦ let below : i + 1 < c = omega arith in inl (below, mod-eq_of_lt below)
]

-- The `n` samples from index `i` on.
unfoldable pub from : List ℤ → ℕ → ℕ → ℕ → List ℤ
from storage c i zero = []
from storage c i (suc n) = get_or storage i (pos 0) ∷ from storage c (next i c) n

-- A write outside the part that is read.
pub from-set :
    (storage : List ℤ) (c i n w : ℕ) (v : ℤ)
    → i < c
    → w < c
    → (i + n ≤ w) ⊎ ((w < i) × (i + n ≤ w + c))
    → from (set storage w v) c i n ≡ from storage c i n
unfolding from
from-set storage c i zero w v hi hw apart = refl
from-set storage c i (suc n) w v hi hw apart =
    let differ : w ≢ i = ground arith in
    let here = get_or-set_ne storage v (pos 0) differ in
    elim (next_cases i c hi) [
      | inl e ↦
          let rest = from-set storage c (next i c) n w v (omega arith) hw (ground arith) in
          rw (here, rest) refl
      | inr e ↦
          let rest = from-set storage c (next i c) n w v (omega arith) hw (ground arith) in
          rw (here, rest) refl
    ]

-- The last sample that is read.
pub from-snoc :
    (storage : List ℤ) (c i n w : ℕ)
    → i < c
    → n < c
    → w < c
    → (w ≡ i + n) ⊎ (w + c ≡ i + n)
    → from storage c i (suc n) ≡ from storage c i n ++ (get_or storage w (pos 0) ∷ [])
unfolding from
from-snoc storage c i zero w hi hn hw last = let e : w ≡ i = ground arith in rw e refl
from-snoc storage c i (suc n) w hi hn hw last = elim (next_cases i c hi) [
  | inl e ↦
      ap (◌∷◌ (get_or storage i (pos 0)))
        (from-snoc storage c (next i c) n w (omega arith) (omega arith) hw (ground arith))
  | inr e ↦
      ap (◌∷◌ (get_or storage i (pos 0)))
        (from-snoc storage c (next i c) n w (omega arith) (omega arith) hw (ground arith))
]

pub length-from : (storage : List ℤ) (c i n : ℕ) → length (from storage c i n) ≡ n
unfolding from
length-from storage c i zero = refl
length-from storage c i (suc n) = ap suc (length-from storage c (next i c) n)

pub from_positive :
    (st : List ℤ) (c i n : ℕ)
    → 0 < n
    → from st c i n ≡ get_or st i (pos 0) ∷ from st c (next i c) (n - 1)
unfolding from
from_positive st c i zero h = elim h [ ]
from_positive st c i (suc n) h = let e : suc n - 1 ≡ n = omega arith in rw e refl
