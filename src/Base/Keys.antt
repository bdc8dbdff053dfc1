-- ===== src/Base/Keys.antt =====
-- Lists whose entries are told apart by a key, such as the name of a tool.
use Prim.Native.Nat.{ℕ, zero, suc}
use mathlib.Core.Path.{◌≡◌}
use mathlib.Core.Logic.{◌≢◌, ◌↔◌}
use mathlib.Core.List.{List, [], ◌∷◌, ◌++◌}
use mathlib.Core.Option.{some}
use veetee_vuqb.Base.Lists.{All, All-append, All-parts, get_elem?}

module _ {A : Type 0} {K : Type 0} (key : A → K) where
  -- No entry of a list has the key of `x`.
  abbrev pub Fresh : A → List A → Type 0
  Fresh x others = All (λ (other : A). key x ≢ key other) others

  -- The keys of the entries differ from each other.
  abbrev pub Distinct : List A → Type 0
  Distinct [] = Unit
  Distinct (x ∷ xs) = All (λ (later : A). key later ≢ key x) xs × Distinct xs

  pub Fresh-nil : (xs : List A) → All (λ (u : A). Fresh u []) xs
  Fresh-nil [] = tt
  Fresh-nil (x ∷ xs) = (tt, Fresh-nil xs)

  -- What a loop over a list learns where the entries before its index grow by one.
  pub split_last :
      (previous : List A) (x : A) (xs : List A)
      → All (λ (u : A). Fresh u (previous ++ (x ∷ []))) xs
        ↔ (All (λ (u : A). Fresh u previous) xs × All (λ (u : A). key u ≢ key x) xs)
  split_last previous x [] = (λ h. (tt, tt), λ h. tt)
  split_last previous x (u ∷ us) =
      let rest = split_last previous x us in
      (
        λ h.
            let parts = All-parts (λ (o : A). key u ≢ key o) previous (x ∷ []) h.0 in
            let r = rest.0 h.1 in ((parts.0, r.0), (parts.1.0, r.1)),
        λ h. (
          All-append (λ (o : A). key u ≢ key o) previous (x ∷ []) h.0.0 (h.1.0, tt),
          rest.1 (h.0.1, h.1.1),
        ),
      )

  pub Distinct_at :
      (x : A) (others : List A) (i : ℕ) (y : A)
      → All (λ (later : A). key later ≢ key x) others
      → get_elem? others i ≡ some y
      → key y ≢ key x
  Distinct_at x [] i y h e = absurd (cc)
  Distinct_at x (o ∷ os) zero y h e = let same : o ≡ y = cc in rw (← same) h.0
  Distinct_at x (o ∷ os) (suc i) y h e = Distinct_at x os i y h.1 e
