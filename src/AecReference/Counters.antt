-- ===== src/AecReference/Counters.antt =====
-- The counters of the delay line saturate instead of wrapping.
use veetee_vuqb.Base.{ℕ, ◌+◌, ◌-◌, ◌≤◌, ◌<◌, ◌≡◌, refl, ◌∙◌, arith, List, [], ◌∷◌, length, min}
use veetee_vuqb.Base.Int.{ℤ}
use veetee_vuqb.AecReference.{
  uint32_max, Reference, saturating_add, saturating_increment, make_room, store_sample,
  push_samples, count_pushed, push,
}
use veetee_vuqb.AecReference.Queue.{IsReference}
use veetee_vuqb.AecReference.Pushing.{has_storage}

saturating_add_lem :
    (value amount : ℕ)
    → value ≤ uint32_max
    → saturating_add value amount ≡ min uint32_max (value + amount)
unfolding saturating_add
saturating_add_lem value amount h = ground arith

saturating_increment_lem :
    (value : ℕ) → value ≤ uint32_max → saturating_increment value ≡ min uint32_max (value + 1)
unfolding saturating_increment
saturating_increment_lem value h = ground arith

push_one_counts :
    (r : Reference) (s : ℤ)
    → r.count ≤ r.capacity
    → 0 < r.capacity
    → r.stats.overrun_count ≤ uint32_max
    → let r' = store_sample (make_room r) s in
      (r'.count ≡ min r.capacity (r.count + 1))
      × (r'.capacity ≡ r.capacity)
      × (r'.stats.overrun_count
          ≡ min uint32_max (r.stats.overrun_count + (r.count + 1 - r.capacity)))
      × (r'.stats.producer_samples ≡ r.stats.producer_samples)
unfolding store_sample make_room
push_one_counts r s full positive bound =
    let step = saturating_increment_lem r.stats.overrun_count bound in
    (ground arith, ground arith, ground (arith, step), ground arith)

push_samples_counts :
    (r : Reference) (xs : List ℤ)
    → r.count ≤ r.capacity
    → 0 < r.capacity
    → r.stats.overrun_count ≤ uint32_max
    → let r' = push_samples r xs in
      (r'.count ≡ min r.capacity (r.count + length xs))
      × (r'.stats.overrun_count
          ≡ min uint32_max (r.stats.overrun_count + (r.count + length xs - r.capacity)))
      × (r'.stats.producer_samples ≡ r.stats.producer_samples)
unfolding push_samples
push_samples_counts r [] full positive bound = (omega arith, omega arith, refl)
push_samples_counts r (x ∷ xs) full positive bound =
    let one = push_one_counts r x full positive bound in
    let rest =
      push_samples_counts (store_sample (make_room r) x) xs (omega (arith, one))
        (omega (arith, one)) (omega (arith, one)) in
    (omega (arith, one, rest), omega (arith, one, rest), rest.2 ∙ one.3)

-- A push that is given samples counts all of them as produced and those that it pushed out as
-- overruns, up to 2^32 - 1 and no further, and states the depth that it leaves.
push-counters :
    (r : Reference) (xs : List ℤ)
    → IsReference r
    → 0 < length xs
    → (r.stats.overrun_count ≤ uint32_max) × (r.stats.producer_samples ≤ uint32_max)
    → let (pushed, r') = push r xs in
      (r'.stats.producer_samples ≡ min uint32_max (r.stats.producer_samples + length xs))
      × (r'.stats.overrun_count
          ≡ min uint32_max (r.stats.overrun_count + (r.count + length xs - r.capacity)))
      × (r'.stats.depth_samples ≡ min r.capacity (r.count + length xs))
unfolding push count_pushed
push-counters r xs v some_given bound =
    let storage = has_storage r v in
    let counts = push_samples_counts r xs v.counted v.fits.0 bound.0 in
    let sum =
      saturating_add_lem (push_samples r xs).stats.producer_samples (length xs)
        (omega (arith, counts.2, bound)) in
    (
      ground (arith, storage, counts, sum),
      ground (arith, storage, counts),
      ground (arith, storage, counts, v.fits),
    )
