-- ===== src/AecReference/Pushing.antt =====
-- What vt_aec_reference_push leaves in the delay line.
use veetee_vuqb.Base.{
  ℕ, ◌+◌, ◌-◌, ◌≡◌, refl, ap, ap₂, ◌∙◌, false, arith, Option, none, some, List, [], ◌∷◌, ◌++◌,
  length, drop, length-append, length-drop, drop-append, drop-drop, append_assoc, append-nil, ◌==◌,
}
use veetee_vuqb.Base.Int.{ℤ}
use veetee_vuqb.AecReference.{
  Reference, samples_of, make_room, store_sample, push_samples, count_pushed, push, is_null,
}
use veetee_vuqb.AecReference.Ring.{length-from}
use veetee_vuqb.AecReference.Queue.{
  IsReference, contents, make_room-IsReference, make_room-contents, store_sample-IsReference,
  store_sample-contents,
}

-- The last `c` entries of a list, or all of them.
abbrev pub keep_last : ℕ → List ℤ → List ℤ
keep_last c l = drop (length l - c) l

keep_last_twice : (c : ℕ) (l m : List ℤ) → keep_last c (keep_last c l ++ m) ≡ keep_last c (l ++ m)
keep_last_twice c l m =
    let k = length l - c in
    let joined : keep_last c l ++ m ≡ drop k (l ++ m) = drop-append k l m (omega arith) in
    let size : length (drop k (l ++ m)) ≡ length l + length m - k =
      length-drop k (l ++ m) ∙ ap (λ (n : ℕ). n - k) (length-append l m) in
    let steps : k + (length (drop k (l ++ m)) - c) ≡ length (l ++ m) - c =
      omega (arith, size, length-append l m) in
    ap (keep_last c) joined
    ∙ drop-drop (length (drop k (l ++ m)) - c) k (l ++ m)
    ∙ ap (λ (n : ℕ). drop n (l ++ m)) steps

abbrev push_one : Reference → ℤ → Reference
push_one r s = store_sample (make_room r) s

make_room_same :
    (r : Reference)
    → ((make_room r).capacity ≡ r.capacity) × ((make_room r).delay_samples ≡ r.delay_samples)
unfolding make_room
make_room_same r = (ground arith, ground arith)

push_one-IsReference :
    (r : Reference) (s : ℤ)
    → IsReference r
    → IsReference (push_one r s) × ((push_one r s).capacity ≡ r.capacity)
push_one-IsReference r s v =
    let roomy = make_room-IsReference r v in
    (
      store_sample-IsReference (make_room r) s roomy.0 roomy.1,
      unfold store_sample in (make_room_same r).0,
    )

push_one-contents :
    (r : Reference) (s : ℤ)
    → IsReference r
    → contents (push_one r s) ≡ keep_last r.capacity (contents r ++ (s ∷ []))
push_one-contents r s v =
    let roomy = make_room-IsReference r v in
    let k = r.count + 1 - r.capacity in
    let size = length-from (samples_of r.storage) r.capacity r.read r.count in
    store_sample-contents (make_room r) s roomy.0 roomy.1
    ∙ ap (λ (l : List ℤ). l ++ (s ∷ [])) (make_room-contents r v)
    ∙ drop-append k (contents r) (s ∷ []) (omega (arith, size, v.counted, v.fits))
    ∙ ap (λ (n : ℕ). drop n (contents r ++ (s ∷ [])))
        (omega (arith, length-append (contents r) (s ∷ []), size))

push_samples_lem :
    (r : Reference) (xs : List ℤ)
    → IsReference r
    → IsReference (push_samples r xs)
      × (contents (push_samples r xs) ≡ keep_last r.capacity (contents r ++ xs))
unfolding push_samples
push_samples_lem r [] v =
    let size = length-from (samples_of r.storage) r.capacity r.read r.count in
    let nothing : length (contents r) - r.capacity ≡ 0 = omega (arith, size, v.counted) in
    (v, rw (append-nil (contents r), nothing) refl)
push_samples_lem r (x ∷ xs) v =
    let one = push_one-IsReference r x v in
    let rest = push_samples_lem (push_one r x) xs one.0 in
    (
      rest.0,
      rest.1
          ∙ ap₂ (λ (c : ℕ) (l : List ℤ). keep_last c (l ++ xs)) one.1 (push_one-contents r x v)
          ∙ keep_last_twice r.capacity (contents r ++ (x ∷ [])) xs
          ∙ ap (keep_last r.capacity) (append_assoc (contents r) (x ∷ []) xs),
    )

count_pushed-IsReference : (r : Reference) (n : ℕ) → IsReference r → IsReference (count_pushed r n)
unfolding count_pushed
count_pushed-IsReference r n v = record {
  size = v.size;
  fits = v.fits;
  read_in = v.read_in;
  write_in = v.write_in;
  counted = v.counted;
  linked = v.linked;
  delayed = v.delayed;
}

pub has_storage : (r : Reference) → IsReference r → is_null r.storage ≡ false
has_storage r v = by_storage r.storage v.size
  where
    by_storage : (o : Option (List ℤ)) → length (samples_of o) ≡ r.capacity → is_null o ≡ false
    by_storage none e = absurd (omega (arith, e, v.fits))
    by_storage (some xs) e = refl

-- vt_aec_reference_push takes all samples that it is given, keeps the ring valid, and leaves in it
-- the newest of the old and the new samples, as many as the capacity allows, in their order.
pub push-newest :
    (r : Reference) (xs : List ℤ)
    → IsReference r
    → let (pushed, r') = push r xs in
      (pushed ≡ length xs)
      × IsReference r'
      × (contents r' ≡ keep_last r.capacity (contents r ++ xs))
unfolding push push_samples
push-newest r [] v =
    let storage = has_storage r v in rw storage (refl, v, (push_samples_lem r [] v).1)
push-newest r (x ∷ xs) v =
    let storage = has_storage r v in
    let pushed = push_samples_lem r (x ∷ xs) v in
    let positive : (length (x ∷ xs) == 0) ≡ false = ground arith in
    rw (storage, positive)
      (
        refl,
        count_pushed-IsReference (push_samples r (x ∷ xs)) (length (x ∷ xs)) pushed.0,
        unfold count_pushed in pushed.1,
      )
