-- ===== src/Examples/Echo.antt =====
-- A delay line of four samples that has wrapped.
use veetee_vuqb.Base.{◌-◌, ◌≡◌, inr, refl, some, List, [], ◌∷◌, ◌++◌, take, drop, replicate, arith}
use veetee_vuqb.Base.Int.{ℤ, pos, negsuc}
use veetee_vuqb.AecReference.{zero_stats, Reference, push, pop}
use veetee_vuqb.AecReference.Queue.{IsReference, contents}
use veetee_vuqb.AecReference.Pushing.{keep_last, push-newest}
use veetee_vuqb.AecReference.Popping.{taken, pop-oldest}
use veetee_vuqb.AecReference.Resampler.{Resampler}

abbrev line : Reference
line = record {
  storage = some (pos 30 ∷ pos 0 ∷ pos 10 ∷ negsuc 20 ∷ []);
  capacity = 4;
  delay_samples = 1;
  read = 2;
  write = 1;
  count = 3;
  stats = zero_stats;
}

line-IsReference : IsReference line
line-IsReference = record {
  size = refl;
  fits = (omega arith, omega arith);
  read_in = omega arith;
  write_in = omega arith;
  counted = omega arith;
  linked = inr refl;
  delayed = omega arith;
}

abbrev fresh : List ℤ
fresh = pos 1 ∷ pos 2 ∷ []

push-newest_example :
    let (pushed, r') = push line fresh in
    (pushed ≡ 2) × IsReference r' × (contents r' ≡ keep_last 4 (contents line ++ fresh))
push-newest_example = push-newest line fresh line-IsReference

abbrev heard : List ℤ
heard = replicate 5 (pos 9)

pop-oldest_example :
    let (popped, r', destination') = pop line heard 4 in
    (popped ≡ taken line 4)
    × IsReference r'
    × (contents r' ≡ drop popped (contents line))
    × (destination'
        ≡ (take popped (contents line) ++ replicate (4 - popped) (pos 0)) ++ drop 4 heard)
pop-oldest_example = pop-oldest line heard 4 line-IsReference (omega arith)

-- From a rate of 3 to a rate of 2.
abbrev resampler : Resampler
resampler = record { source_rate = 3; target_rate = 2; phase = 1; previous = pos 0 }
