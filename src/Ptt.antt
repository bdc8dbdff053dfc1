-- ===== src/Ptt.antt =====
-- veetee-firmware/main/veetee_ptt.c and veetee_ptt.h: the debouncer of the push-to-talk button.
pub mod Filter
use veetee_vuqb.Base.{
  ℕ, ◌+◌, ◌≤◌, ◌<◌, ◌≡◌, refl, Bool, true, false, not, ◌&&◌, ◌||◌, arith, if◌then◌else◌, ltb, ◌==◌,
  same, Option, none, some, List, [], ◌∷◌,
}

-- vt_ptt_event_t
pub data PttEvent : Type 0 where
  no_event pressed released : PttEvent

-- vt_ptt_debouncer_t; the counters are uint8_t
pub record Debouncer : Type 0 where
  pub stable : Bool
  pub candidate : Bool
  pub consecutive_samples : ℕ
  pub debounce_samples : ℕ

pub init : Bool → ℕ → Debouncer
init initial_state debounce_samples = record {
  stable = initial_state;
  candidate = initial_state;
  consecutive_samples = 0;
  debounce_samples = if debounce_samples == 0 then 1 else debounce_samples;
}

-- vt_ptt_debouncer_update on a debouncer that is not NULL. The increment is of a uint8_t that is
-- below another one, so it does not wrap.
unfoldable pub update : Debouncer → Bool → Debouncer × PttEvent
update d active =
    if not (same active d.candidate)
    then (record d { candidate = active; consecutive_samples = 0 }, no_event)
    else let count =
        if ltb d.consecutive_samples d.debounce_samples
        then d.consecutive_samples + 1
        else d.consecutive_samples in
      if ltb count d.debounce_samples || same d.stable d.candidate
      then (record d { consecutive_samples = count }, no_event)
      else (
        record d { consecutive_samples = count; stable = d.candidate },
        if d.candidate then pressed else released,
      )

pub update_pointer : Option Debouncer → Bool → Option Debouncer × PttEvent
update_pointer none active = (none, no_event)
update_pointer (some d) active = let (d', event) = update d active in (some d', event)

unfoldable pub is_stable : Option Debouncer → Bool
is_stable none = false
is_stable (some d) = d.stable
