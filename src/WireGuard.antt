-- ===== src/WireGuard.antt =====
-- veetee-firmware/main/veetee_wire_guard.c: which messages belong to the active session.
use veetee_vuqb.Base.{
  ◌≡◌, ◌≢◌, ◌↔◌, ◌⊎◌, inl, inr, ℕ, Bool, true, false, not, ◌||◌, if◌then◌else◌, arith, Option, none,
  some, List, [], ◌∷◌, str_eq, str_eq_iff, ap, sym, refl,
}

-- A NULL pointer or the empty string.
abbrev is_blank : Option (List ℕ) → Bool
is_blank none = true
is_blank (some []) = true
is_blank (some (_ ∷ _)) = false

abbrev text_of : Option (List ℕ) → List ℕ
text_of none = []
text_of (some text) = text

unfoldable pub session_matches : Option (List ℕ) → Bool → Option (List ℕ) → Bool
session_matches active_session incoming_present incoming_session =
    if not incoming_present
    then true
    else if is_blank active_session || is_blank incoming_session
    then false
    else str_eq (text_of active_session) (text_of incoming_session)

-- A message passes exactly when it carries no session field, or the active session is a string that
-- is not empty and the message carries the same string.
pub session_matches_iff :
    (active incoming : Option (List ℕ)) (present : Bool)
    → (session_matches active present incoming ≡ true)
      ↔ ((present ≡ false) ⊎ ((active ≢ none) × (active ≢ some []) × (incoming ≡ active)))
unfolding session_matches
session_matches_iff active incoming false = (λ h. inl refl, λ h. refl)
session_matches_iff none incoming true = (λ h. cc, λ h. ground arith)
session_matches_iff (some []) incoming true = (λ h. cc, λ h. ground arith)
session_matches_iff (some (a ∷ rest)) none true = (λ h. cc, λ h. ground arith)
session_matches_iff (some (a ∷ rest)) (some []) true = (λ h. cc, λ h. ground arith)
session_matches_iff (some (a ∷ rest)) (some (b ∷ bs)) true = (
  λ h. inr ((λ q. cc), (λ q. cc), ap some (sym ((str_eq_iff (a ∷ rest) (b ∷ bs)).0 h))),
  λ h. elim h [ inl q ↦ cc | inr q ↦ (str_eq_iff (a ∷ rest) (b ∷ bs)).1 (ap text_of (sym q.2)) ],
)
