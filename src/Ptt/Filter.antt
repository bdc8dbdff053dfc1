-- ===== src/Ptt/Filter.antt =====
-- What the debouncer of veetee_ptt.c lets through: edges that last, and only those.
use veetee_vuqb.Base.{
  ℕ, zero, suc, ◌+◌, ◌≤◌, ◌<◌, ◌≡◌, refl, Bool, true, false, not, arith, List, [], ◌∷◌, ◌++◌,
  replicate, ap, ◌∙◌,
}
use veetee_vuqb.Ptt.{PttEvent, no_event, pressed, released, Debouncer, init, update}

-- The counter has not passed the threshold, which is at least 1 and fits a uint8_t.
pub record IsValid (d : Debouncer) : Type 0 where
  pub counted : d.consecutive_samples ≤ d.debounce_samples
  pub positive : 0 < d.debounce_samples
  pub fits : d.debounce_samples < 256

-- vt_ptt_debouncer_init gives a valid debouncer for any uint8_t, 0 included, and every update keeps
-- it valid.
pub update-IsValid :
    (initial : Bool) (n : ℕ) (d : Debouncer) (active : Bool)
    → n < 256
    → IsValid d
    → IsValid (init initial n) × IsValid (update d active).0
unfolding init update
update-IsValid initial n d active h v = (ground arith, ground arith)

abbrev pub edge_event : Bool → Bool → PttEvent
edge_event false true = pressed
edge_event true false = released
edge_event _ _ = no_event

-- An event is reported exactly when the stable level changes: pressed where it rises, released
-- where it falls.
pub update-edge :
    (d : Debouncer) (active : Bool)
    → (update d active).1 ≡ edge_event d.stable (update d active).0.stable
unfolding update
update-edge d active = ground arith

-- The debouncer after a list of samples, and the events on the way.
pub run : Debouncer → List Bool → Debouncer × List PttEvent
run d [] = (d, [])
run d (x ∷ xs) =
    let (d', event) = update d x in let (d'', events) = run d' xs in (d'', event ∷ events)

module _ (d : Debouncer) (active : Bool) where
  step_flip :
      d.candidate ≡ not active
      → update d active ≡ (record d { candidate = active; consecutive_samples = 0 }, no_event)
  unfolding update
  step_flip c = ground arith

  step_wait :
      d.candidate ≡ active
      → d.consecutive_samples + 1 < d.debounce_samples
      → update d active ≡ (record d { consecutive_samples = d.consecutive_samples + 1 }, no_event)
  unfolding update
  step_wait c h = ground arith

  step_fire :
      d.candidate ≡ active
      → d.stable ≡ not active
      → d.consecutive_samples + 1 ≡ d.debounce_samples
      → update d active ≡ (
        record d { stable = active; consecutive_samples = d.debounce_samples },
        edge_event (not active) active,
      )
  unfolding update
  step_fire c s h = ground arith

-- One more sample in front.
run-cons :
    (d d' : Debouncer) (x : Bool) (event : PttEvent) (xs : List Bool)
    → update d x ≡ (d', event)
    → run d (x ∷ xs) ≡ ((run d' xs).0, event ∷ (run d' xs).1)
unfolding run
run-cons d d' x event xs e =
    ap (λ (p : Debouncer × PttEvent). ((run p.0 xs).0, p.1 ∷ (run p.0 xs).1)) e

-- Samples of the level that is already the candidate, while the threshold is away.
waiting :
    (n : ℕ) (d : Debouncer) (active : Bool)
    → d.candidate ≡ active
    → d.consecutive_samples + n < d.debounce_samples
    → ((run d (replicate n active)).0.stable ≡ d.stable)
      × ((run d (replicate n active)).1 ≡ replicate n no_event)
waiting zero d active c h = unfold run in (refl, refl)
waiting (suc n) d active c h =
    let d' : Debouncer = record d { consecutive_samples = d.consecutive_samples + 1 } in
    let rest = waiting n d' active c (omega arith) in
    rw (run-cons d d' active no_event _ (step_wait d active c (omega arith)))
      (rest.0, ap (◌∷◌ no_event) rest.1)

-- The samples that take the counter to the threshold: the last one changes the stable level.
climbing :
    (n : ℕ) (d : Debouncer) (active : Bool)
    → d.candidate ≡ active
    → d.stable ≡ not active
    → d.consecutive_samples + suc n ≡ d.debounce_samples
    → run d (replicate (suc n) active) ≡ (
      record d { stable = active; consecutive_samples = d.debounce_samples },
      replicate n no_event ++ edge_event (not active) active ∷ [],
    )
climbing zero d active c s h =
    unfold run in run-cons d _ active _ [] (step_fire d active c s (omega arith))
climbing (suc n) d active c s h =
    let d' : Debouncer = record d { consecutive_samples = d.consecutive_samples + 1 } in
    let rest = climbing n d' active c s (omega arith) in
    rw (run-cons d d' active no_event _ (step_wait d active c (omega arith)), rest)

-- From a settled button, a pulse of at most `debounce_samples` samples of the other level is
-- filtered out: it raises no event and leaves the stable level as it was.
pulse_filtered :
    (n : ℕ) (d : Debouncer) (active : Bool)
    → d.stable ≡ not active
    → d.candidate ≡ not active
    → 0 < d.debounce_samples
    → n ≤ d.debounce_samples
    → ((run d (replicate n active)).0.stable ≡ not active)
      × ((run d (replicate n active)).1 ≡ replicate n no_event)
pulse_filtered zero d active s c v h = unfold run in (s, refl)
pulse_filtered (suc n) d active s c v h =
    let d' : Debouncer = record d { candidate = active; consecutive_samples = 0 } in
    let rest = waiting n d' active refl (omega arith) in
    rw (run-cons d d' active no_event _ (step_flip d active c))
      (rest.0 ∙ s, ap (◌∷◌ no_event) rest.1)

-- One sample more is enough: of `debounce_samples + 1` samples of the other level the last one
-- raises the one event and changes the stable level.
held_accepted :
    (n : ℕ) (d : Debouncer) (active : Bool)
    → d.stable ≡ not active
    → d.candidate ≡ not active
    → d.debounce_samples ≡ suc n
    → run d (replicate (suc (suc n)) active) ≡ (
      record {
        stable = active;
        candidate = active;
        consecutive_samples = d.debounce_samples;
        debounce_samples = d.debounce_samples;
      },
      replicate (suc n) no_event ++ edge_event (not active) active ∷ [],
    )
held_accepted n d active s c h =
    let d' : Debouncer = record d { candidate = active; consecutive_samples = 0 } in
    let rest = climbing n d' active refl s (omega arith) in
    rw (run-cons d d' active no_event _ (step_flip d active c), rest)
