-- ===== src/AecReference/Popping.antt =====
-- What vt_aec_reference_pop takes out of the delay line.
use veetee_vuqb.Base.{
  if◌then◌else◌, ℕ, zero, suc, ◌+◌, ◌-◌, ◌≤◌, ◌<◌, ◌≡◌, ◌⊎◌, inl, inr, refl, ap, ◌∙◌, false, arith,
  List, ◌∷◌, ◌++◌, length, get_or, set, take, drop, replicate, length-append, length-take,
  length-replicate, min, ◌==◌, ltb,
}
use veetee_vuqb.Base.Buffer.{copy_at, copy_at_next, copy_at-zero}
use veetee_vuqb.Base.Int.{ℤ, pos}
use veetee_vuqb.AecReference.{
  Reference, samples_of, pop_samples, available, fill_silence, count_popped, pop,
}
use veetee_vuqb.AecReference.Ring.{length-from, from_positive}
use veetee_vuqb.AecReference.Queue.{
  IsReference, contents, without_oldest, without_oldest-IsReference,
}
use veetee_vuqb.AecReference.Pushing.{has_storage}

pop_samples_lem :
    (n : ℕ) (r : Reference) (destination : List ℤ) (i : ℕ)
    → IsReference r
    → n ≤ r.count
    → let (moved, filled) = pop_samples n r destination i in
      IsReference moved
      × (contents moved ≡ drop n (contents r))
      × (filled ≡ copy_at destination i (take n (contents r)))
unfolding pop_samples copy_at
pop_samples_lem zero r destination i v h = (v, refl, refl)
pop_samples_lem (suc n) r destination i v h =
    let x = get_or (samples_of r.storage) r.read (pos 0) in
    let smaller = without_oldest r r.stats in
    let first : contents r ≡ x ∷ contents smaller =
      from_positive (samples_of r.storage) r.capacity r.read r.count (omega arith) in
    let rest =
      pop_samples_lem n smaller (set destination i x) (i + 1)
        (without_oldest-IsReference r r.stats v (omega arith)) (omega arith) in
    (rest.0, rw first rest.1, rw first rest.2)

fill_silence_lem :
    (destination : List ℤ) (popped n : ℕ)
    → popped ≤ n
    → fill_silence destination popped n
      ≡ copy_at destination popped (replicate (n - popped) (pos 0))
unfolding fill_silence
fill_silence_lem destination popped n h = elim (full popped n h) [
  | inl e ↦ ground (arith, e)
  | inr e ↦
      let nothing : n - popped ≡ 0 = omega (arith, e) in
      rw nothing (unfold copy_at in ground (arith, e))
]
  where
    full : (p m : ℕ) → p ≤ m → (p < m) ⊎ (p ≡ m)
    full p m h = ground arith

count_popped-IsReference :
    (r : Reference) (popped n : ℕ) → IsReference r → IsReference (count_popped r popped n)
unfolding count_popped
count_popped-IsReference r popped n v = record {
  size = v.size;
  fits = v.fits;
  read_in = v.read_in;
  write_in = v.write_in;
  counted = v.counted;
  linked = v.linked;
  delayed = v.delayed;
}

-- How many samples a call takes.
abbrev pub taken : Reference → ℕ → ℕ
taken r n = min n (r.count - r.delay_samples)

written :
    (r : Reference) (destination : List ℤ) (popped n : ℕ)
    → popped ≤ r.count
    → popped ≤ n
    → n ≤ length destination
    → fill_silence (copy_at destination 0 (take popped (contents r))) popped n
      ≡ (take popped (contents r) ++ replicate (n - popped) (pos 0)) ++ drop n destination
written r destination popped n h le room =
    let front = take popped (contents r) in
    let silence : List ℤ = replicate (n - popped) (pos 0) in
    let size : length front ≡ popped = omega (
      arith,
      length-take popped (contents r),
      length-from (samples_of r.storage) r.capacity r.read r.count,
    ) in
    let whole : length (front ++ silence) ≡ n =
      omega (arith, length-append front silence, size, length-replicate (n - popped) (pos 0)) in
    fill_silence_lem (copy_at destination 0 front) popped n le
    ∙ copy_at_next destination 0 popped front silence (omega (arith, size))
    ∙ copy_at-zero destination (front ++ silence) (omega (arith, whole))
    ∙ ap (λ (m : ℕ). (front ++ silence) ++ drop m destination) whole

-- vt_aec_reference_pop takes the oldest samples, as many as are asked for but never the last
-- `delay_samples` ones, puts them at the start of the destination with silence behind them up to the
-- number that was asked for, leaves the rest of the destination alone, and keeps the ring valid, for
-- a destination that has room for them.
pub pop-oldest :
    (r : Reference) (destination : List ℤ) (n : ℕ)
    → IsReference r
    → n ≤ length destination
    → let (popped, r', destination') = pop r destination n in
      (popped ≡ taken r n)
      × IsReference r'
      × (contents r' ≡ drop popped (contents r))
      × (destination'
          ≡ (take popped (contents r) ++ replicate (n - popped) (pos 0)) ++ drop n destination)
unfolding pop
pop-oldest r destination zero v room =
    let storage = has_storage r v in rw storage (omega arith, v, refl, refl)
pop-oldest r destination (suc k) v room =
    let n = suc k in
    let storage = has_storage r v in
    let asked : (n == 0) ≡ false = ground arith in
    let popped : ℕ = if ltb (available r) n then available r else n in
    let amount : popped ≡ taken r n = ground arith in
    let moved = pop_samples_lem popped r destination 0 v (omega (arith, amount)) in
    rw (storage, asked)
      (
        amount,
        count_popped-IsReference (pop_samples popped r destination 0).0 popped n moved.0,
        unfold count_popped in moved.1,
        ap (λ (d : List ℤ). fill_silence d popped n) moved.2
            ∙ written r destination popped n (omega (arith, amount)) (omega (arith, amount)) room,
      )
