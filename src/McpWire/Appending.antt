-- ===== src/McpWire/Appending.antt =====
-- What a chain of appends writes: the whole text, or nothing that is reported.
use veetee_vuqb.Base.{
  ℕ, zero, suc, ◌+◌, ◌-◌, ◌≤◌, ◌<◌, ◌≡◌, ◌⊎◌, inl, inr, refl, sym, ap, ◌∙◌, Bool, true, false, ◌||◌,
  arith, some, List, [], ◌∷◌, ◌++◌, length, set, take, length-append, append_assoc, append-nil,
  take-all, min, ltb, leb, Bool-cases,
}
use veetee_vuqb.Base.Buffer.{copy_at, copy_at_next}
use veetee_vuqb.Base.Text.{codes}
use veetee_vuqb.McpWire.{
  Writer, Step, and_then, append_bytes, append_format, escape_of, append_chars,
  append_escaped_string,
}

-- The writer has put `t` and a terminator at the start of the output, and `t` is below the capacity.
pub record Holds (output : List ℕ) (c : ℕ) (w : Writer) (t : List ℕ) : Type 0 where
  pub fine : w.failed ≡ false
  pub size : w.length ≡ length t
  pub room : length t < c
  pub bound : w.capacity ≡ c
  pub text : w.buffer ≡ copy_at output 0 (t ++ (0 ∷ []))

-- The step appends `a` where it fits, and reports a failure exactly where it does not.
abbrev pub Appends : Step → List ℕ → Type 0
Appends f a =
    (output : List ℕ) (c : ℕ) (w : Writer) (t : List ℕ)
    → Holds output c w t
    → ((f w).1 ≡ true) × Holds output c (f w).0 (t ++ a)
      ⊎ ((f w).1 ≡ false) × (c ≤ length t + length a)

set-set : (xs : List ℕ) (k v w : ℕ) → set (set xs k v) k w ≡ set xs k w
set-set [] k v w = refl
set-set (x ∷ xs) zero v w = refl
set-set (x ∷ xs) (suc k) v w = ap (◌∷◌ x) (set-set xs k v w)

copy_one : (xs : List ℕ) (k v : ℕ) → copy_at xs k (v ∷ []) ≡ set xs k v
unfolding copy_at
copy_one xs k v = refl

-- Text written over the terminator of the text in front of it.
over_terminator :
    (output t b : List ℕ) (k : ℕ)
    → k ≡ length t
    → set (copy_at (copy_at output 0 (t ++ (0 ∷ []))) k b) (k + length b) 0
      ≡ copy_at output 0 ((t ++ b) ++ (0 ∷ []))
over_terminator output t b k e =
    let front = copy_at output 0 t in
    let split : copy_at output 0 (t ++ (0 ∷ [])) ≡ set front k 0 =
      sym (copy_at_next output 0 k t (0 ∷ []) (omega (arith, e))) ∙ copy_one front k 0 in
    let last : set (copy_at (set front k 0) k b) (k + length b) 0
        ≡ copy_at (set front k 0) k (b ++ (0 ∷ [])) =
      sym (copy_one (copy_at (set front k 0) k b) (k + length b) 0)
      ∙ copy_at_next (set front k 0) k (k + length b) b (0 ∷ []) refl in
    ap (λ (xs : List ℕ). set (copy_at xs k b) (k + length b) 0) split
    ∙ last
    ∙ overwrites front k b
    ∙ copy_at_next output 0 k t (b ++ (0 ∷ [])) (omega (arith, e))
    ∙ ap (copy_at output 0) (sym (append_assoc t b (0 ∷ [])))
  where
    overwrites :
        (xs : List ℕ) (k : ℕ) (b : List ℕ)
        → copy_at (set xs k 0) k (b ++ (0 ∷ [])) ≡ copy_at xs k (b ++ (0 ∷ []))
    overwrites xs k [] = unfold copy_at in set-set xs k 0 0
    overwrites xs k (x ∷ b) =
        unfold copy_at in
        ap (λ (ys : List ℕ). copy_at ys (k + 1) (b ++ (0 ∷ []))) (set-set xs k 0 x)

pub append_bytes-Appends : (b : List ℕ) → Appends (λ w. append_bytes w b) b
unfolding append_bytes
append_bytes-Appends b output c w t v =
    elim (Bool-cases
      (w.failed || leb w.capacity w.length || ltb (w.capacity - w.length - 1) (length b))) [
        | inl bad ↦ rw bad (inr (refl, ground (arith, bad, v.fine, v.size, v.bound, v.room)))
        | inr good ↦ rw good (
            inl (
              refl,
              record {
                fine = v.fine;
                size = omega (arith, length-append t b, v.size);
                room = ground (arith, good, length-append t b, v.size, v.bound, v.room);
                bound = v.bound;
                text =
                    ap (λ (xs : List ℕ). set (copy_at xs w.length b) (w.length + length b) 0) v.text
                    ∙ over_terminator output t b w.length v.size;
              },
            ))
      ]

pub append_format-Appends : (b : List ℕ) → Appends (λ w. append_format w b) b
unfolding append_format
append_format-Appends b output c w t v =
    let open_writer : (w.failed || leb w.capacity w.length) ≡ false =
      ground (arith, v.fine, v.size, v.bound, v.room) in
    elim (Bool-cases (leb (w.capacity - w.length) (length b))) [
      | inl bad ↦ rw (open_writer, bad) (inr (refl, ground (arith, bad, v.size, v.bound, v.room)))
      | inr good ↦
          let fits : length b ≤ w.capacity - w.length - 1 = ground (arith, good) in
          let whole : take (w.capacity - w.length - 1) b ≡ b =
            take-all (w.capacity - w.length - 1) b fits in
          let amount : min (w.capacity - w.length - 1) (length b) ≡ length b =
            omega (arith, fits) in
          rw (open_writer, good)
            (inl (
              refl,
              record {
                fine = v.fine;
                size = omega (arith, length-append t b, v.size);
                room = ground (arith, good, length-append t b, v.size, v.bound, v.room);
                bound = v.bound;
                text =
                    rw (whole, amount)
                      (ap (λ (xs : List ℕ). set (copy_at xs w.length b) (w.length + length b) 0)
                          v.text
                        ∙ over_terminator output t b w.length v.size);
              },
            ))
    ]

pub and_then-Appends :
    (f g : Step) (a b : List ℕ)
    → Appends f a
    → Appends g b
    → Appends (λ w. and_then (f w) g) (a ++ b)
and_then-Appends f g a b hf hg output c w t v = by_first (f w) (hf output c w t v)
  where
    by_first :
        (out : Writer × Bool)
        → (out.1 ≡ true) × Holds output c out.0 (t ++ a)
          ⊎ (out.1 ≡ false) × (c ≤ length t + length a)
        → ((and_then out g).1 ≡ true) × Holds output c (and_then out g).0 (t ++ (a ++ b))
          ⊎ ((and_then out g).1 ≡ false) × (c ≤ length t + length (a ++ b))
    by_first (w', true) (inl h) = elim (hg output c w' (t ++ a) h.1) [
      | inl k ↦ inl (k.0, rw (← append_assoc t a b) k.1)
      | inr k ↦ inr (k.0, omega (arith, k.1, length-append t a, length-append a b))
    ]
    by_first (w', false) (inl h) = cc (h.0)
    by_first (w', true) (inr h) = cc (h.0)
    by_first (w', false) (inr h) = inr (refl, omega (arith, h.1, length-append a b))

-- The characters of a string as append_escaped_string writes them.
unfoldable pub escaped : List ℕ → List ℕ
escaped [] = []
escaped (c ∷ cs) = escape_of c ++ escaped cs

-- A string as it stands in a document.
abbrev pub quoted : List ℕ → List ℕ
quoted value = codes "\"" ++ (escaped value ++ codes "\"")

append_chars-Appends : (value : List ℕ) → Appends (append_chars value) (escaped value)
unfolding append_chars escaped
append_chars-Appends [] output c w t v = inl (refl, rw (append-nil t) v)
append_chars-Appends (x ∷ xs) output c w t v =
    and_then-Appends (λ w. append_bytes w (escape_of x)) (append_chars xs) (escape_of x)
      (escaped xs) (append_bytes-Appends (escape_of x)) (append_chars-Appends xs) output c w t v

pub append_escaped_string-Appends :
    (value : List ℕ) → Appends (append_escaped_string (some value)) (quoted value)
unfolding append_escaped_string
append_escaped_string-Appends value output c w t v =
    let quote = codes "\"" in
    rw (← append_assoc quote (escaped value) quote) (
      and_then-Appends (λ w. and_then (append_bytes w quote) (append_chars value))
        (λ w. append_bytes w quote) (quote ++ escaped value) quote
        (and_then-Appends (λ w. append_bytes w quote) (append_chars value) quote (escaped value)
          (append_bytes-Appends quote) (append_chars-Appends value))
        (append_bytes-Appends quote) output c w t v)

-- One more literal, and one more string, behind a chain of steps.
pub then_literal :
    (f : Step) (a : List ℕ) (text : List ℕ)
    → Appends f a
    → Appends (λ w. and_then (f w) (λ v. append_bytes v text)) (a ++ text)
then_literal f a text h =
    and_then-Appends f (λ v. append_bytes v text) a text h (append_bytes-Appends text)

pub then_string :
    (f : Step) (a : List ℕ) (value : List ℕ)
    → Appends f a
    → Appends (λ w. and_then (f w) (append_escaped_string (some value))) (a ++ quoted value)
then_string f a value h =
    and_then-Appends f (append_escaped_string (some value)) a (quoted value) h
      (append_escaped_string-Appends value)
