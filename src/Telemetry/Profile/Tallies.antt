-- ===== src/Telemetry/Profile/Tallies.antt =====
-- Counts of records in shards, and of calls in the buckets of an interval.
use addictol.Base.{
  ℕ, zero, suc, ◌+◌, ◌-◌, ◌*◌, ◌≤◌, ◌<◌, ◌≡◌, refl, sym, ap, ◌∙◌, false, List, [], ◌∷◌, ◌++◌, map,
  ◌==◌, leb, ltb, ◌&&◌, length, length-set, get_or, set, u64_mod, if_both, arith,
}
use addictol.Base.Text.{Text}
use addictol.Telemetry.{SeriesSample}
use addictol.Telemetry.Profile.{
  Descriptor, DurationBucket, Source, Shard, Record, HistogramBucket, zero_bucket,
}
use addictol.Telemetry.Profile.Producer.{no_shard}
use addictol.Telemetry.Profile.Reader.{
  empty_shard, copy_range, copy_shards, add_to_bucket, bucket_loop, duration_bucket_index,
  tally_record, tally_range, tally_shards, cleared_buckets, descriptor_samples, series_samples,
}
use addictol.Telemetry.Profile.Runs.{calls_of}

abbrev pub stored : List Shard → ℕ
stored [] = 0
stored (h ∷ hs) = h.count + stored hs

abbrev pub tallied : List HistogramBucket → ℕ
tallied [] = 0
tallied (b ∷ bs) = b.calls + tallied bs

pub stored-empty : (hs : List Shard) → stored (map empty_shard hs) ≡ 0
stored-empty [] = refl
stored-empty (h ∷ hs) = omega (arith, stored-empty hs)

pub tallied-cleared : (bs : List HistogramBucket) → tallied (cleared_buckets bs) ≡ 0
tallied-cleared [] = refl
tallied-cleared (b ∷ bs) = omega (arith, tallied-cleared bs)

pub stored-set :
    (hs : List Shard) (i : ℕ)
    → ((get_or hs i no_shard).count == (get_or hs i no_shard).capacity) ≡ false
    → stored (set hs i (record (get_or hs i no_shard) { count = (get_or hs i no_shard).count + 1 }))
      ≡ stored hs + 1
stored-set [] i h = cc
stored-set (s ∷ hs) zero h = omega arith
stored-set (s ∷ hs) (suc i) h = omega (arith, stored-set hs i h)

tallied-set :
    (bs : List HistogramBucket) (i : ℕ) (r : Record)
    → i < length bs
    → tallied bs + 1 < u64_mod
    → tallied (set bs i (add_to_bucket r (get_or bs i zero_bucket))) ≡ tallied bs + 1
tallied-set [] i r lt small = omega (arith, lt)
tallied-set (b ∷ bs) zero r lt small = omega (arith, small)
tallied-set (b ∷ bs) (suc i) r lt small =
    omega (arith, tallied-set bs i r (omega (arith, lt)) (omega (arith, small)))

-- A bound on the descriptors of records.
abbrev pub Known : ℕ → (ℕ → Record) → Type 0
Known n f = (i : ℕ) → (f i).descriptor_index < n

pub copy_shards-Known :
    (n : ℕ) (hs : List Shard) (from to : ℕ → Record)
    → Known n from
    → Known n to
    → Known n (copy_shards from hs to)
unfolding copy_shards
copy_shards-Known n [] from to h k = k
copy_shards-Known n (s ∷ hs) from to h k =
    copy_shards-Known n hs from (copy_range from s.offset s.count to) h (λ i.
      if_both (λ (r : Record). r.descriptor_index < n)
        (leb s.offset i && ltb i (s.offset + s.count)) _ _ (h i) (k i))

module _ (nanoseconds : ℕ → ℕ → ℕ) where
  bucket_loop-lt :
      (ns index : ℕ) (bs : List DurationBucket) (last most : ℕ)
      → index + length bs ≤ most
      → last < most
      → bucket_loop nanoseconds ns index bs last < most
  unfolding bucket_loop
  bucket_loop-lt ns index [] last most fit small = small
  bucket_loop-lt ns index (b ∷ bs) last most fit small =
      if_both (λ x. x < most) (leb ns b.upper_nanoseconds) _ _ (omega (arith, fit))
        (bucket_loop-lt ns (index + 1) bs last most (omega (arith, fit)) small)

  -- What a record adds to the buckets.
  tally_record-tallied :
      (s : Source) (r : Record) (bs : List HistogramBucket)
      → 0 < length s.duration_buckets
      → length bs ≡ length s.descriptors * length s.duration_buckets
      → r.descriptor_index < length s.descriptors
      → tallied bs + 1 < u64_mod
      → (tallied (tally_record nanoseconds s r bs) ≡ tallied bs + 1)
        × (length (tally_record nanoseconds s r bs) ≡ length bs)
  unfolding tally_record duration_bucket_index
  tally_record-tallied s r bs some_buckets size known small =
      let index =
        bucket_loop-lt (nanoseconds r.duration_ticks s.qpc_frequency) 0 s.duration_buckets
          (length s.duration_buckets - 1) (length s.duration_buckets) (omega arith)
          (omega (arith, some_buckets)) in
      (tallied-set bs _ r (grind (arith, index, size, known)) small, length-set bs _ _)

  pub tally_range-tallied :
      (s : Source) (at n : ℕ) (bs : List HistogramBucket)
      → 0 < length s.duration_buckets
      → length bs ≡ length s.descriptors * length s.duration_buckets
      → Known (length s.descriptors) s.drain_records
      → tallied bs + n < u64_mod
      → (tallied (tally_range nanoseconds s at n bs) ≡ tallied bs + n)
        × (length (tally_range nanoseconds s at n bs) ≡ length bs)
  unfolding tally_range
  tally_range-tallied s at zero bs some_buckets size known small = (omega arith, refl)
  tally_range-tallied s at (suc n) bs some_buckets size known small =
      let (one, kept) =
        tally_record-tallied s (s.drain_records at) bs some_buckets size (known at)
          (omega (arith, small)) in
      let (more, same) =
        tally_range-tallied s (at + 1) n (tally_record nanoseconds s (s.drain_records at) bs)
          some_buckets (kept ∙ size) known (omega (arith, one, small)) in
      (omega (arith, one, more), same ∙ kept)

  pub tally_shards-tallied :
      (s : Source) (hs : List Shard) (bs : List HistogramBucket)
      → 0 < length s.duration_buckets
      → length bs ≡ length s.descriptors * length s.duration_buckets
      → Known (length s.descriptors) s.drain_records
      → tallied bs + stored hs < u64_mod
      → (let bs' =
            tally_shards nanoseconds s (map empty_shard hs) (map (λ (h : Shard). h.count) hs) bs in
          (tallied bs' ≡ tallied bs + stored hs) × (length bs' ≡ length bs))
  unfolding tally_shards
  tally_shards-tallied s [] bs some_buckets size known small = (omega arith, refl)
  tally_shards-tallied s (h ∷ hs) bs some_buckets size known small =
      let (one, kept) =
        tally_range-tallied s h.offset h.count bs some_buckets size known (omega (arith, small)) in
      let (more, same) =
        tally_shards-tallied s hs (tally_range nanoseconds s h.offset h.count bs) some_buckets
          (kept ∙ size) known (omega (arith, one, small)) in
      (omega (arith, one, more), same ∙ kept)

-- The calls in `n` buckets from `at` on.
abbrev sum_from : List HistogramBucket → ℕ → ℕ → ℕ
sum_from bs at zero = 0
sum_from bs at (suc n) = (get_or bs at zero_bucket).calls + sum_from bs (at + 1) n

sum_from-append :
    (bs : List HistogramBucket) (at n k : ℕ)
    → sum_from bs at (n + k) ≡ sum_from bs at n + sum_from bs (at + n) k
sum_from-append bs at zero k =
    let same : sum_from bs (at + 0) k ≡ sum_from bs at k =
      ap (λ x. sum_from bs x k) (omega arith) in
    let start : sum_from bs at (0 + k) ≡ sum_from bs at k =
      ap (λ x. sum_from bs at x) (omega arith) in
    omega (arith, same, start)
sum_from-append bs at (suc n) k =
    let rest = sum_from-append bs (at + 1) n k in
    let same : sum_from bs (at + 1 + n) k ≡ sum_from bs (at + suc n) k =
      ap (λ x. sum_from bs x k) (omega arith) in
    let shape : suc n + k ≡ suc (n + k) = omega arith in
    let start : sum_from bs at (suc n + k) ≡ sum_from bs at (suc (n + k)) =
      ap (λ x. sum_from bs at x) shape in
    omega (arith, rest, same, start)

sum_from-cons :
    (b : HistogramBucket) (bs : List HistogramBucket) (at n : ℕ)
    → sum_from (b ∷ bs) (suc at) n ≡ sum_from bs at n
sum_from-cons b bs at zero = refl
sum_from-cons b bs at (suc n) =
    let rest = sum_from-cons b bs (at + 1) n in
    let same : sum_from (b ∷ bs) (suc at + 1) n ≡ sum_from (b ∷ bs) (suc (at + 1)) n =
      ap (λ x. sum_from (b ∷ bs) x n) (omega arith) in
    omega (arith, rest, same)

sum_from-tallied : (bs : List HistogramBucket) → sum_from bs 0 (length bs) ≡ tallied bs
sum_from-tallied [] = refl
sum_from-tallied (b ∷ bs) =
    let rest = sum_from-tallied bs in
    let same : sum_from (b ∷ bs) (0 + 1) (length bs) ≡ sum_from bs 0 (length bs) =
      ap (λ x. sum_from (b ∷ bs) x (length bs)) (omega arith) ∙ sum_from-cons b bs 0 (length bs) in
    omega (arith, rest, same)

calls_of-append : (xs ys : List SeriesSample) → calls_of (xs ++ ys) ≡ calls_of xs + calls_of ys
calls_of-append [] ys = omega arith
calls_of-append (x ∷ xs) ys = omega (arith, calls_of-append xs ys)

descriptor_samples-calls :
    (series : Text) (bounds : List DurationBucket) (bs : List HistogramBucket) (at : ℕ)
    → calls_of (descriptor_samples series bounds bs at) ≡ sum_from bs at (length bounds)
unfolding descriptor_samples
descriptor_samples-calls series [] bs at = refl
descriptor_samples-calls series (b ∷ bounds) bs at =
    omega (arith, descriptor_samples-calls series bounds bs (at + 1))

series_samples-calls :
    (ds : List Descriptor) (bounds : List DurationBucket) (bs : List HistogramBucket) (at : ℕ)
    → calls_of (series_samples ds bounds bs at) ≡ sum_from bs at (length ds * length bounds)
unfolding series_samples
series_samples-calls [] bounds bs at =
    let none_left : 0 ≡ 0 * length bounds = omega arith in ap (λ x. sum_from bs at x) none_left
series_samples-calls (d ∷ ds) bounds bs at =
    let both =
      calls_of-append (descriptor_samples d.series bounds bs at)
        (series_samples ds bounds bs (at + length bounds)) in
    let first = descriptor_samples-calls d.series bounds bs at in
    let rest = series_samples-calls ds bounds bs (at + length bounds) in
    let split = sum_from-append bs at (length bounds) (length ds * length bounds) in
    let shape : length (d ∷ ds) * length bounds ≡ length bounds + length ds * length bounds =
      grind arith in
    let size : sum_from bs at (length (d ∷ ds) * length bounds)
        ≡ sum_from bs at (length bounds + length ds * length bounds) =
      ap (λ x. sum_from bs at x) shape in
    omega (arith, both, first, rest, split, size)

-- The samples of all buckets have the calls of the buckets.
pub series_samples-tallied :
    (ds : List Descriptor) (bounds : List DurationBucket) (bs : List HistogramBucket)
    → length bs ≡ length ds * length bounds
    → calls_of (series_samples ds bounds bs 0) ≡ tallied bs
series_samples-tallied ds bounds bs size =
    series_samples-calls ds bounds bs 0 ∙ ap (λ x. sum_from bs 0 x) (sym size) ∙ sum_from-tallied bs
