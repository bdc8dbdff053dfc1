-- ===== src/AecReference.antt =====
-- veetee-firmware/main/veetee_aec_reference.c and veetee_aec_reference.h: the delay line of speaker
-- samples that echo cancellation takes as its reference. A size_t has the 32 bits of the device.
pub mod Ring
pub mod Queue
pub mod Pushing
pub mod Popping
pub mod Life
pub mod Counters
pub mod Resampler
use veetee_vuqb.Base.{
  ℕ, zero, suc, ◌+◌, ◌-◌, ◌%◌, ◌^◌, Bool, true, false, ◌||◌, if◌then◌else◌, ltb, leb, ◌==◌, Option,
  none, some, List, [], ◌∷◌, length, get_or, set, replicate,
}
use veetee_vuqb.Base.Buffer.{copy_at}
use veetee_vuqb.Base.Int.{ℤ, pos}

abbrev pub uint32_max : ℕ
uint32_max = 2 ^ 32 - 1

-- vt_aec_reference_stats_t
pub record Stats : Type 0 where
  pub delay_samples : ℕ
  pub depth_samples : ℕ
  pub peak_depth_samples : ℕ
  pub producer_samples : ℕ
  pub consumer_samples : ℕ
  pub underrun_count : ℕ
  pub overrun_count : ℕ
  pub processed_frames : ℕ
  pub reset_count : ℕ

-- vt_aec_reference_t; the storage is what its pointer points to
pub record Reference : Type 0 where
  pub storage : Option (List ℤ)
  pub capacity : ℕ
  pub delay_samples : ℕ
  pub read : ℕ
  pub write : ℕ
  pub count : ℕ
  pub stats : Stats

abbrev pub zero_stats : Stats
zero_stats = record {
  delay_samples = 0;
  depth_samples = 0;
  peak_depth_samples = 0;
  producer_samples = 0;
  consumer_samples = 0;
  underrun_count = 0;
  overrun_count = 0;
  processed_frames = 0;
  reset_count = 0;
}

unfoldable pub saturating_add : ℕ → ℕ → ℕ
saturating_add value amount =
    if ltb (uint32_max - value) amount then uint32_max else (value + amount) % 2 ^ 32

unfoldable pub saturating_increment : ℕ → ℕ
saturating_increment value = if value == uint32_max then value else (value + 1) % 2 ^ 32

-- vt_aec_reference_init on a reference that is not NULL; true stands for 0, false for -1.
unfoldable pub init : Reference → Option (List ℤ) → ℕ → ℕ → Bool × Reference
init reference none capacity delay_samples = (false, reference)
init reference (some storage) capacity delay_samples =
    if (capacity == 0)
      || leb capacity delay_samples
      || ltb uint32_max delay_samples
      || ltb uint32_max capacity
    then (false, reference)
    else let made : Reference = record {
      storage = some storage;
      capacity = capacity;
      delay_samples = delay_samples;
      read = 0;
      write = 0;
      count = 0;
      stats = record zero_stats { delay_samples = delay_samples % 2 ^ 32 };
    } in
      (true, made)

abbrev pub samples_of : Option (List ℤ) → List ℤ
samples_of none = []
samples_of (some storage) = storage

-- `reference->storage[index] = sample`
abbrev pub put_sample : Option (List ℤ) → ℕ → ℤ → Option (List ℤ)
put_sample none index sample = none
put_sample (some storage) index sample = some (set storage index sample)

-- The `if` at the start of a round of the loop of vt_aec_reference_push.
unfoldable pub make_room : Reference → Reference
unfolding saturating_increment
make_room reference =
    if reference.count == reference.capacity
    then record reference {
      read = (reference.read + 1) % reference.capacity;
      count = reference.count - 1;
      stats = record reference.stats {
        overrun_count = saturating_increment reference.stats.overrun_count;
      };
    }
    else reference

-- The rest of the round.
unfoldable pub store_sample : Reference → ℤ → Reference
store_sample reference sample = record reference {
  storage = put_sample reference.storage reference.write sample;
  write = (reference.write + 1) % reference.capacity;
  count = reference.count + 1;
}

unfoldable pub push_samples : Reference → List ℤ → Reference
push_samples reference [] = reference
push_samples reference (sample ∷ samples) =
    push_samples (store_sample (make_room reference) sample) samples

-- The statistics at the end of vt_aec_reference_push.
unfoldable pub count_pushed : Reference → ℕ → Reference
unfolding saturating_add
count_pushed reference pushed = record reference {
  stats = record reference.stats {
    producer_samples = saturating_add reference.stats.producer_samples pushed;
    peak_depth_samples =
        if ltb reference.stats.peak_depth_samples reference.count
        then reference.count % 2 ^ 32
        else reference.stats.peak_depth_samples;
    depth_samples = reference.count % 2 ^ 32;
  };
}

abbrev pub is_null {ℓ} : {A : Type ℓ} → Option A → Bool
is_null none = true
is_null (some _) = false

-- vt_aec_reference_push with reference and samples not NULL: what it returns, and the reference.
unfoldable pub push : Reference → List ℤ → ℕ × Reference
push reference samples =
    if is_null reference.storage || (length samples == 0)
    then (0, reference)
    else (length samples, count_pushed (push_samples reference samples) (length samples))

-- The loop of vt_aec_reference_pop: `n` rounds from `index` on.
unfoldable pub pop_samples : ℕ → Reference → List ℤ → ℕ → Reference × List ℤ
pop_samples zero reference destination index = (reference, destination)
pop_samples (suc n) reference destination index =
    pop_samples n
      (record reference {
        read = (reference.read + 1) % reference.capacity;
        count = reference.count - 1;
      })
      (set destination index (get_or (samples_of reference.storage) reference.read (pos 0)))
      (index + 1)

abbrev pub available : Reference → ℕ
available reference =
    if ltb reference.delay_samples reference.count
    then reference.count - reference.delay_samples
    else 0

-- The `memset` behind the loop.
unfoldable pub fill_silence : List ℤ → ℕ → ℕ → List ℤ
fill_silence destination popped sample_count =
    if ltb popped sample_count
    then copy_at destination popped (replicate (sample_count - popped) (pos 0))
    else destination

-- The statistics at the end of vt_aec_reference_pop.
unfoldable pub count_popped : Reference → ℕ → ℕ → Reference
unfolding saturating_add saturating_increment
count_popped reference popped sample_count = record reference {
  stats = record reference.stats {
    underrun_count =
        if ltb popped sample_count
        then saturating_add reference.stats.underrun_count (sample_count - popped)
        else reference.stats.underrun_count;
    consumer_samples = saturating_add reference.stats.consumer_samples popped;
    processed_frames = saturating_increment reference.stats.processed_frames;
    depth_samples = reference.count % 2 ^ 32;
  };
}

-- vt_aec_reference_pop with reference and destination not NULL: what it returns, the reference and
-- the destination.
unfoldable pub pop : Reference → List ℤ → ℕ → ℕ × Reference × List ℤ
pop reference destination sample_count =
    if is_null reference.storage || (sample_count == 0)
    then (0, reference, destination)
    else let popped =
        if ltb (available reference) sample_count then available reference else sample_count in
      let (moved, filled) = pop_samples popped reference destination 0 in
      (popped, count_popped moved popped sample_count, fill_silence filled popped sample_count)

-- vt_aec_reference_reset on a reference that is not NULL
unfoldable pub reset : Reference → Reference
unfolding saturating_increment
reset reference = record reference {
  read = 0;
  write = 0;
  count = 0;
  stats = record reference.stats {
    depth_samples = 0;
    reset_count = saturating_increment reference.stats.reset_count;
  };
}

-- vt_aec_reference_get_stats with stats not NULL
pub get_stats : Option Reference → Stats
get_stats none = zero_stats
get_stats (some reference) = record reference.stats { depth_samples = reference.count % 2 ^ 32 }
