-- ===== src/Conversation/Turns.antt =====
-- What the messages of the server do to a turn: which are passed over, and what a stop and an alert
-- leave.
use veetee_vuqb.Base.{
  ℕ, ◌≡◌, ◌≢◌, refl, Bool, true, false, not, ◌&&◌, ◌||◌, if◌then◌else◌, some, List, [], ◌∷◌, ◌∙◌,
  Bool-cases, Option-cases, &&_parts, sym, inl, inr, str_eq, str_eq_iff,
}
use veetee_vuqb.Base.Text.{codes}
use veetee_vuqb.Json.{CJson, string_of, is_text, is_true}
use veetee_vuqb.WireGuard.{session_matches, session_matches_iff}
use veetee_vuqb.Conversation.{App, take_lock}
use veetee_vuqb.Conversation.Messages.{
  Setting, session_passes, session_message, text_callback, tts_message, tts_stop_message,
  arm_continuous, is_nonempty, is_stale,
}

is_nonempty-[] : (s : List ℕ) → is_nonempty s ≡ false → s ≡ []
is_nonempty-[] [] h = refl
is_nonempty-[] (c ∷ cs) h = absurd (cc)

-- The application after a message that asks for capture or does not, where the lock is taken.
abbrev pub asked : Bool → App → App
asked continue app = record app {
  continuous_capture_pending = continue || app.continuous_capture_pending;
  wake_rearm_pending = not continue && app.wake_rearm_pending;
}

pub arm-asked :
    (continue : Bool) (app : App)
    → app.takes ≡ []
    → (if continue then (arm_continuous app).0 else app) ≡ asked continue app
unfolding arm_continuous take_lock
arm-asked true app taken = rw taken refl
arm-asked false app taken = refl

stale-kept :
    (app : App) (turn_id : List ℕ)
    → app.tts_turn_id ≢ []
    → turn_id ≢ app.tts_turn_id
    → is_stale (some turn_id) app ≡ true
unfolding is_stale
stale-kept app turn_id kept other = elim (Bool-cases (is_nonempty app.tts_turn_id)) [
  | inr e ↦ absurd (kept (is_nonempty-[] app.tts_turn_id e))
  | inl e ↦ elim (Bool-cases (str_eq turn_id app.tts_turn_id)) [
    | inl same ↦ absurd (other ((str_eq_iff turn_id app.tts_turn_id).0 same))
    | inr differ ↦ rw (e, differ) refl
  ]
]

module _ (j : CJson) where
  session_passes-item :
      (setting : Setting) (message incoming : j.Value)
      → j.item message (codes "session_id") ≡ some incoming
      → session_passes j setting message ≡ (
          j.is_string incoming
          && session_matches (some setting.session_id) true (j.valuestring incoming))
  unfolding session_passes
  session_passes-item setting message incoming found = rw (session_passes, found) refl

  session_passes-own :
      (setting : Setting) (message incoming : j.Value)
      → j.item message (codes "session_id") ≡ some incoming
      → session_passes j setting message ≡ true
      → string_of j (some incoming) ≡ some setting.session_id
  session_passes-own setting message incoming found h =
      let (is_string, matches) =
        &&_parts (j.is_string incoming)
          (session_matches (some setting.session_id) true (j.valuestring incoming))
          (sym (session_passes-item setting message incoming found) ∙ h) in
      elim ((session_matches_iff (some setting.session_id) (j.valuestring incoming) true).0
        matches) [ inl q ↦ absurd (cc) | inr (_, _, same) ↦ rw is_string same ]

  text-named :
      (message : j.Value) (name : List ℕ)
      → string_of j (j.item message (codes "type")) ≡ some name
      → is_text j (j.item message (codes "type")) (codes "hello") ≡ str_eq name (codes "hello")
  text-named message name named = rw (is_text, named) refl

  hello-test :
      (message : j.Value) (name : List ℕ)
      → string_of j (j.item message (codes "type")) ≡ some name
      → is_text j (j.item message (codes "type")) (codes "hello") ≡ false
      → str_eq name (codes "hello") ≡ false
  hello-test message name named type = sym (text-named message name named) ∙ type

  -- A message of another session, and one whose session id is no string, changes nothing, unless it is
  -- a hello.
  pub text_callback-ignores :
      (setting : Setting) (message incoming : j.Value) (app : App)
      → j.item message (codes "session_id") ≡ some incoming
      → string_of j (some incoming) ≢ some setting.session_id
      → is_text j (j.item message (codes "type")) (codes "hello") ≡ false
      → text_callback j setting message app ≡ app
  unfolding text_callback session_message
  text_callback-ignores setting message incoming app found other type =
      elim (Bool-cases (session_passes j setting message)) [
        | inl e ↦ absurd (other (session_passes-own setting message incoming found e))
        | inr e ↦ elim (Option-cases (string_of j (j.item message (codes "type")))) [
          | inl none_found ↦ rw (text_callback, none_found) refl
          | inr (name, named) ↦
              rw (text_callback, named, hello-test message name named type, session_message, e) refl
        ]
      ]

  -- A message of the session that is a tts stop.
  pub record IsStop (setting : Setting) (message : j.Value) : Type 0 where
    pub own : session_passes j setting message ≡ true
    pub type : string_of j (j.item message (codes "type")) ≡ some (codes "tts")
    pub state : string_of j (j.item message (codes "state")) ≡ some (codes "stop")

  pub text_callback-stop :
      (setting : Setting) (message : j.Value) (app : App)
      → IsStop setting message
      → text_callback j setting message app ≡ tts_stop_message j message app
  unfolding str_eq text_callback session_message tts_message
  text_callback-stop setting message app v =
      rw (text_callback, v.type, session_message, v.own, tts_message, v.state) refl

  -- A stop that names another turn than the one kept leaves the turn as it is, its state, its packets,
  -- its capture and its turn id, where the take of the lock succeeds. Only what it asks for the next
  -- turn stays: a stale stop that continues the conversation arms the capture all the same.
  pub text_callback-stale :
      (setting : Setting) (message : j.Value) (app : App) (turn_id : List ℕ)
      → IsStop setting message
      → string_of j (j.item message (codes "turn_id")) ≡ some turn_id
      → app.tts_turn_id ≢ []
      → turn_id ≢ app.tts_turn_id
      → app.takes ≡ []
      → text_callback j setting message app
        ≡ asked (is_true j (j.item message (codes "continue_listening"))) app
  unfolding tts_stop_message
  text_callback-stale setting message app turn_id v named kept other taken =
      let continue = is_true j (j.item message (codes "continue_listening")) in
      text_callback-stop setting message app v
      ∙ rw
          (
            tts_stop_message,
            arm-asked continue app taken,
            named,
            stale-kept (asked continue app) turn_id kept other,
          )
          refl
