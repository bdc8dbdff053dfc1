-- ===== src/AecReference/Resampler.antt =====
-- The linear resampler of veetee-firmware/main/veetee_aec_reference.c, from one sample rate to
-- another. A size_t has the 32 bits of the device.
use veetee_vuqb.Base.{
  ℕ, zero, suc, ◌+◌, ◌-◌, ◌*◌, ◌/◌, ◌%◌, ◌^◌, ◌≤◌, ◌<◌, ◌≡◌, Bool, true, false, ◌||◌, if◌then◌else◌,
  ltb, leb, ◌==◌, List, length, get_or, set, take, arith, refl, Bool-cases, inl, inr, ◌≢◌,
}
use veetee_vuqb.Base.Buffer.{copy_at}
use veetee_vuqb.Base.Int.{ℤ, pos, negsuc, ◌+ℤ◌, scaled, quotient}

-- vt_aec_resampler_t
pub record Resampler : Type 0 where
  pub source_rate : ℕ
  pub target_rate : ℕ
  pub phase : ℕ
  pub previous : ℤ

-- vt_aec_resampler_init on a resampler that is not NULL: whether it succeeds, and what it leaves
unfoldable resampler_init : Resampler → ℕ → ℕ → Bool × Resampler
resampler_init resampler source_rate target_rate =
    if (source_rate == 0) || (target_rate == 0) then (false, resampler) else (
      true,
      record { source_rate = source_rate; target_rate = target_rate; phase = 0; previous = pos 0 },
    )

-- The two tests that bring a value into the range of int16_t.
abbrev clamped : ℤ → ℤ
clamped (pos n) = if ltb 32767 n then pos 32767 else pos n
clamped (negsuc n) = if ltb 32767 n then negsuc 32767 else negsuc n

-- The sample between two input samples that the phase stands for.
unfoldable interpolated : ℕ → List ℤ → ℕ → ℤ
interpolated target_rate input phase =
    let index = phase / target_rate in
    let fraction = phase % target_rate in
    let first = get_or input index (pos 0) in
    let second =
      if ltb (index + 1) (length input) then get_or input (index + 1) (pos 0) else first in
    clamped (quotient (scaled first (target_rate - fraction) +ℤ scaled second fraction) target_rate)

-- The loop of vt_aec_resampler_process, with room for `left` more samples.
unfoldable produce : Resampler → List ℤ → ℕ → ℕ → ℕ → List ℤ → ℕ → ℕ × List ℤ × ℕ
produce resampler input span zero phase output produced = (phase, output, produced)
produce resampler input span (suc left) phase output produced =
    let rest =
      produce resampler input span left (phase + resampler.source_rate)
        (set output produced (interpolated resampler.target_rate input phase)) (produced + 1) in
    if ltb phase span then rest else (phase, output, produced)

-- vt_aec_resampler_process with no pointer NULL: the samples produced, the resampler, the output
pub resampler_process : Resampler → List ℤ → List ℤ → ℕ → ℕ × Resampler × List ℤ
resampler_process resampler input output capacity =
    let count = length input in
    let last = get_or input (count - 1) (pos 0) in
    if (count == 0)
      || (capacity == 0)
      || (resampler.source_rate == 0)
      || (resampler.target_rate == 0)
    then (0, resampler, output)
    else if resampler.source_rate == resampler.target_rate
    then (let copied = if ltb count capacity then count else capacity in
        (copied, record resampler { previous = last }, copy_at output 0 (take copied input)))
    else if ltb ((2 ^ 32 - 1) / resampler.target_rate) count
    then (0, resampler, output)
    else let span = count * resampler.target_rate in
      let (phase, written, produced) =
        produce resampler input span capacity resampler.phase output 0 in
      (
        produced,
        record resampler { phase = if leb span phase then phase - span else 0; previous = last },
        written,
      )

-- vt_aec_resampler_reset on a resampler that is not NULL
unfoldable resampler_reset : Resampler → Resampler
resampler_reset resampler = record resampler { phase = 0; previous = pos 0 }

produce_phase :
    (r : Resampler) (input : List ℤ) (span left phase : ℕ) (output : List ℤ) (produced : ℕ)
    → let (phase', output', produced') = produce r input span left phase output produced in
      (produced' ≤ produced + left)
      × (phase' + produced * r.source_rate ≡ phase + produced' * r.source_rate)
      × (phase' < span → produced' ≡ produced + left)
unfolding produce
produce_phase r input span zero phase output produced = (omega arith, refl, λ h. omega arith)
produce_phase r input span (suc left) phase output produced =
    let ih =
      produce_phase r input span left (phase + r.source_rate)
        (set output produced (interpolated r.target_rate input phase)) (produced + 1) in
    let one : (produced + 1) * r.source_rate ≡ produced * r.source_rate + r.source_rate =
      grind arith in
    elim (Bool-cases (ltb phase span)) [
      | inl e ↦ rw e (omega (arith, ih.0), omega (arith, ih.1, one), λ h. omega (arith, ih.2 h))
      | inr e ↦ rw e (omega arith, refl, λ h. absurd (ground (arith, h, e)))
    ]

-- Between two different rates, neither of them 0, with an input that is not empty and whose span fits
-- a size_t, and with room for output: at most `capacity` samples come out; when they reach the end of
-- the input, the next call begins with the phase by which they reach beyond it; when they do not, the
-- output is full and the phase begins at 0 again.
resampler_process-phase :
    (r : Resampler) (input output : List ℤ) (capacity : ℕ)
    → r.source_rate ≢ r.target_rate
    → 0 < r.source_rate
    → 0 < r.target_rate
    → 0 < length input
    → length input ≤ (2 ^ 32 - 1) / r.target_rate
    → 0 < capacity
    → let (produced, r', output') = resampler_process r input output capacity in
      let span = length input * r.target_rate in
      let reached = r.phase + produced * r.source_rate in
      (produced ≤ capacity)
      × (span ≤ reached → r'.phase + span ≡ reached)
      × (reached < span → (produced ≡ capacity) × (r'.phase ≡ 0))
unfolding resampler_process
resampler_process-phase r input output capacity differ source target some_input fits room =
    let span = length input * r.target_rate in
    let loop = produce_phase r input span capacity r.phase output 0 in
    let a : (length input == 0) ≡ false = ground arith in
    let b : (capacity == 0) ≡ false = ground arith in
    let c : (r.source_rate == 0) ≡ false = ground arith in
    let d : (r.target_rate == 0) ≡ false = ground arith in
    let e : (r.source_rate == r.target_rate) ≡ false = ground arith in
    let f : ltb ((2 ^ 32 - 1) / r.target_rate) (length input) ≡ false = ground arith in
    let moved : (produce r input span capacity r.phase output 0).0
        ≡ r.phase + (produce r input span capacity r.phase output 0).2 * r.source_rate =
      grind (arith, loop.1) in
    rw (a, b, c, d, e, f)
      (
        omega (arith, loop.0),
        λ h. ground (arith, moved, h),
        λ h. (omega (arith, loop.2, moved, h), ground (arith, moved, h)),
      )
