-- ===== src/Device/Graph.antt =====
-- The transition table of veetee_state.c as a relation, and how vt_state_apply follows it.
use veetee_vuqb.Base.{◌≡◌, refl, ◌≢◌, true, false, arith}
use veetee_vuqb.Device.{
  State, idle, connecting, listening, thinking, speaking, Event, connect, hello_ready, listen_start,
  listen_stop, tts_start, tts_stop, tts_stop_manual, tts_stop_auto, abort, disconnect, Machine,
  event_allowed, can_transition, is_interruptible, next_state, apply,
}

-- `Edge s e t`: in state `s` the event `e` is taken and leads to `t`.
pub data Edge : State → Event → State → Type 0 where
  dial : Edge idle connect connecting
  redial : Edge connecting connect connecting
  greet : Edge connecting hello_ready listening
  open_mic : Edge idle listen_start listening
  keep_mic : Edge listening listen_start listening
  close_mic : Edge listening listen_stop thinking
  late_reply : Edge idle tts_start speaking
  early_reply : Edge listening tts_start speaking
  reply : Edge thinking tts_start speaking
  done : Edge speaking tts_stop listening
  done_manual : Edge speaking tts_stop_manual idle
  done_auto : Edge speaking tts_stop_auto listening
  cut_thinking : Edge thinking abort listening
  cut_speaking : Edge speaking abort listening
  drop_line : {s : State} → Edge s disconnect idle

ruleset edges = (
  dial, redial, greet, open_mic, keep_mic, close_mic, late_reply, early_reply, reply, done,
  done_manual, done_auto, cut_thinking, cut_speaking, drop_line,
)

taken : (m : Machine) (e : Event) → (apply m e).1 ≡ true → Edge m.state e (apply m e).0.state
unfolding apply
taken m e h = grind (arith, edges)

refused : (m : Machine) (e : Event) → (apply m e).1 ≡ false → (apply m e).0 ≡ m
unfolding apply
refused m e h = ground arith

Edge-allowed : {s t : State} {e : Event} → Edge s e t → event_allowed s e ≡ true
unfolding event_allowed
Edge-allowed dial = refl
Edge-allowed redial = refl
Edge-allowed greet = refl
Edge-allowed open_mic = refl
Edge-allowed keep_mic = refl
Edge-allowed close_mic = refl
Edge-allowed late_reply = refl
Edge-allowed early_reply = refl
Edge-allowed reply = refl
Edge-allowed done = refl
Edge-allowed done_manual = refl
Edge-allowed done_auto = refl
Edge-allowed cut_thinking = refl
Edge-allowed cut_speaking = refl
Edge-allowed drop_line = refl

allowed_taken : (m : Machine) (e : Event) → event_allowed m.state e ≡ true → (apply m e).1 ≡ true
unfolding apply
allowed_taken m e h = ground arith

-- vt_state_apply returns true on exactly the edges of the table and then stands at their end;
-- where it returns false no edge carries the event, and neither the state nor the generation moves.
pub apply-Edge :
    (m : Machine) (e : Event)
    → ((apply m e).1 ≡ true → Edge m.state e (apply m e).0.state)
      × ((apply m e).1 ≡ false → ((apply m e).0 ≡ m) × ((t : State) → ¬ Edge m.state e t))
apply-Edge m e = (
  taken m e,
  λ no_edge. (refused m e no_edge, λ t edge. cc (no_edge, allowed_taken m e (Edge-allowed edge))),
)

-- Whatever event_allowed accepts, vt_state_can_transition lets through as well, so the second test
-- of vt_state_apply never turns an event away; and abort is taken in exactly the states that
-- vt_state_is_interruptible names.
allowed-can_transition :
    (s : State) (e : Event)
    → (event_allowed s e ≡ true → can_transition s (next_state e) ≡ true)
      × (event_allowed s abort ≡ is_interruptible s)
unfolding event_allowed can_transition next_state is_interruptible
allowed-can_transition s e = (λ h. ground arith, ground arith)

-- While the device is connecting, no event but hello_ready and disconnect moves it.
pub connecting_waits :
    (m : Machine) (e : Event)
    → m.state ≡ connecting
    → e ≢ hello_ready
    → e ≢ disconnect
    → (apply m e).0 ≡ m
unfolding apply
connecting_waits m e h p q = ground arith
