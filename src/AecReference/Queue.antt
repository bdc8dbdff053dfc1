-- ===== src/AecReference/Queue.antt =====
-- The delay line refines a bounded queue: it keeps the newest samples, and gives the oldest first.
use veetee_vuqb.Base.{
  ℕ, suc, ◌+◌, ◌-◌, ◌%◌, ◌≤◌, ◌<◌, ◌≡◌, ◌≢◌, ◌⊎◌, inl, inr, refl, ap, ap₂, ◌∙◌, arith, Option, none,
  some, List, [], ◌∷◌, ◌++◌, length, set, drop, length-set, get_or-set_self,
}
use native.Mathlib.Decide.{ℕ_discrete}
use veetee_vuqb.Base.Int.{ℤ, pos}
use veetee_vuqb.AecReference.{
  uint32_max, Stats, Reference, saturating_increment, samples_of, put_sample, make_room,
  store_sample,
}
use veetee_vuqb.AecReference.Ring.{next_cases, from, from-set, from-snoc, from_positive}

-- The indices are in the ring, and the distance between them is the count.
pub record IsReference (r : Reference) : Type 0 where
  pub size : length (samples_of r.storage) ≡ r.capacity
  pub fits : (0 < r.capacity) × (r.capacity ≤ uint32_max)
  pub read_in : r.read < r.capacity
  pub write_in : r.write < r.capacity
  pub counted : r.count ≤ r.capacity
  pub linked : (r.write ≡ r.read + r.count) ⊎ (r.write + r.capacity ≡ r.read + r.count)
  pub delayed : r.delay_samples < r.capacity

-- The samples in the delay line, oldest first.
abbrev pub contents : Reference → List ℤ
contents r = from (samples_of r.storage) r.capacity r.read r.count

samples_of-put_sample :
    (o : Option (List ℤ)) (i : ℕ) (v : ℤ) → samples_of (put_sample o i v) ≡ set (samples_of o) i v
samples_of-put_sample none i v = refl
samples_of-put_sample (some xs) i v = refl

-- The reference without its oldest sample.
abbrev pub without_oldest : Reference → Stats → Reference
without_oldest r stats = record r {
  read = (r.read + 1) % r.capacity;
  count = r.count - 1;
  stats = stats;
}

pub without_oldest-IsReference :
    (r : Reference) (stats : Stats)
    → IsReference r
    → 0 < r.count
    → IsReference (without_oldest r stats)
without_oldest-IsReference r stats v some_left = elim (next_cases r.read r.capacity v.read_in) [
  | inl e ↦ record {
    size = v.size;
    fits = v.fits;
    read_in = omega arith;
    write_in = v.write_in;
    counted = omega (arith, v.counted);
    linked = ground (arith, v.linked, e);
    delayed = v.delayed;
  }
  | inr e ↦ record {
    size = v.size;
    fits = v.fits;
    read_in = omega (arith, v.fits);
    write_in = v.write_in;
    counted = omega (arith, v.counted);
    linked = ground (arith, v.linked, e, v.write_in, v.counted);
    delayed = v.delayed;
  }
]

pub make_room_cases :
    (r : Reference)
    → ((r.count ≡ r.capacity) × (stats : Stats) × (make_room r ≡ without_oldest r stats))
      ⊎ ((r.count ≢ r.capacity) × (make_room r ≡ r))
unfolding make_room
make_room_cases r = elim (ℕ_discrete r.count r.capacity) [
  | yes e ↦ inl (
    e,
    record r.stats { overrun_count = saturating_increment r.stats.overrun_count },
    ground (arith, e),
  )
  | no differ ↦ inr (differ, ground (arith, differ))
]

pub make_room-IsReference :
    (r : Reference)
    → IsReference r
    → IsReference (make_room r) × ((make_room r).count < (make_room r).capacity)
make_room-IsReference r v = elim (make_room_cases r) [
  | inl full ↦ rw (full.2) (
    without_oldest-IsReference r full.1 v (omega (arith, full.0, v.fits)),
    omega (arith, full.0, v.fits),
  )
  | inr room ↦ rw (room.1) (v, omega (arith, room.0, v.counted))
]

pub make_room-contents :
    (r : Reference)
    → IsReference r
    → contents (make_room r) ≡ drop (r.count + 1 - r.capacity) (contents r)
make_room-contents r v = elim (make_room_cases r) [
  | inl full ↦
      let one : r.count + 1 - r.capacity ≡ 1 = omega (arith, full.0) in
      let first =
        from_positive (samples_of r.storage) r.capacity r.read r.count
          (omega (arith, full.0, v.fits)) in
      rw (full.2, one, first) refl
  | inr room ↦
      let none_lost : r.count + 1 - r.capacity ≡ 0 = omega (arith, room.0, v.counted) in
      rw (room.1, none_lost) refl
]

pub store_sample-IsReference :
    (r : Reference) (s : ℤ) → IsReference r → r.count < r.capacity → IsReference (store_sample r s)
unfolding store_sample
store_sample-IsReference r s v room =
    let kept = samples_of-put_sample r.storage r.write s in
    let size = length-set (samples_of r.storage) r.write s in
    record {
      size = rw kept (size ∙ v.size);
      fits = v.fits;
      read_in = v.read_in;
      write_in = elim (next_cases r.write r.capacity v.write_in) [
        | inl e ↦ omega arith
        | inr e ↦ omega (arith, v.fits)
      ];
      counted = omega arith;
      linked = elim (next_cases r.write r.capacity v.write_in) [
        | inl e ↦ ground (arith, v.linked, e)
        | inr e ↦ ground (arith, v.linked, e, v.read_in)
      ];
      delayed = v.delayed;
    }

pub store_sample-contents :
    (r : Reference) (s : ℤ)
    → IsReference r
    → r.count < r.capacity
    → contents (store_sample r s) ≡ contents r ++ (s ∷ [])
unfolding store_sample
store_sample-contents r s v room =
    let st = samples_of r.storage in
    let written = set st r.write s in
    let last =
      from-snoc written r.capacity r.read r.count r.write v.read_in room v.write_in v.linked in
    let front =
      from-set st r.capacity r.read r.count r.write s v.read_in v.write_in
        (ground (arith, v.linked)) in
    let here = get_or-set_self st r.write s (pos 0) (omega (arith, v.size, v.write_in)) in
    let more : r.count + 1 ≡ suc r.count = omega arith in
    ap (λ (xs : List ℤ). from xs r.capacity r.read (r.count + 1))
      (samples_of-put_sample r.storage r.write s)
    ∙ ap (from written r.capacity r.read) more
    ∙ last
    ∙ ap₂ (λ (xs : List ℤ) (x : ℤ). xs ++ (x ∷ [])) front here
