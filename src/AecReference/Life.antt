-- ===== src/AecReference/Life.antt =====
-- How a delay line begins, and begins again.
use veetee_vuqb.Base.{
  ℕ, ◌%◌, ◌^◌, ◌≤◌, ◌<◌, ◌≡◌, ◌↔◌, inl, refl, true, false, arith, some, List, [], length,
}
use veetee_vuqb.Base.Int.{ℤ}
use veetee_vuqb.AecReference.{uint32_max, Reference, zero_stats, init, reset}
use veetee_vuqb.AecReference.Ring.{from}
use veetee_vuqb.AecReference.Queue.{IsReference, contents}

abbrev made : List ℤ → ℕ → ℕ → Reference
made storage capacity delay = record {
  storage = some storage;
  capacity = capacity;
  delay_samples = delay;
  read = 0;
  write = 0;
  count = 0;
  stats = record zero_stats { delay_samples = delay % 2 ^ 32 };
}

made-IsReference :
    (storage : List ℤ) (capacity delay : ℕ)
    → length storage ≡ capacity
    → delay < capacity
    → capacity ≤ uint32_max
    → IsReference (made storage capacity delay)
made-IsReference storage capacity delay size small fits = record {
  size = size;
  fits = (omega arith, fits);
  read_in = omega arith;
  write_in = omega arith;
  counted = omega arith;
  linked = inl refl;
  delayed = small;
}

-- vt_aec_reference_init accepts a storage exactly with a capacity that is not 0 and fits 32 bits, and
-- a delay below it; where the storage has that capacity the delay line is then valid and empty, and
-- a refusal changes nothing. A reset keeps a delay line valid and empties it.
init-reset :
    (r : Reference) (storage : List ℤ) (capacity delay : ℕ)
    → length storage ≡ capacity
    → IsReference r
    → let (accepted, r') = init r (some storage) capacity delay in
      ((accepted ≡ true) ↔ ((0 < capacity) × (delay < capacity) × (capacity ≤ uint32_max)))
      × (accepted ≡ true → IsReference r' × (contents r' ≡ []))
      × (accepted ≡ false → r' ≡ r)
      × IsReference (reset r)
      × (contents (reset r) ≡ [])
unfolding init reset from
init-reset r storage capacity delay size v = (
  (λ h. (ground arith, ground arith, ground arith), λ h. ground arith),
  λ h.
      let same : (init r (some storage) capacity delay).1 ≡ made storage capacity delay =
        ground arith in
      rw same (made-IsReference storage capacity delay size (ground arith) (ground arith), refl),
  λ h. ground arith,
  record {
    size = v.size;
    fits = v.fits;
    read_in = omega (arith, v.fits);
    write_in = omega (arith, v.fits);
    counted = omega arith;
    linked = inl refl;
    delayed = v.delayed;
  },
  refl,
)
