-- ===== src/Telemetry/Profile/Reader.antt =====
-- The readings and drains of Addictol/Source/Telemetry/AdOperationProfile.cpp. The values of metrics are those before
-- their conversion to double.
use addictol.Base.{
  ℕ, zero, suc, ◌+◌, ◌-◌, ◌*◌, Bool, false, not, List, [], ◌∷◌, ◌++◌, map, none, some, ◌==◌, leb,
  ltb, ◌&&◌, add64, length, get_or, set, if◌then◌else◌,
}
use addictol.Base.Text.{Text}
use addictol.Telemetry.{SeriesSample}
use addictol.Telemetry.Profile.{
  Descriptor, DurationBucket, Source, Shard, Record, Lane, HistogramBucket, quality_count,
  zero_bucket, counter_lane_count,
}

unfoldable pub capture_generation : Source → ℕ
capture_generation s = elim s.current_capture [ none ↦ 0 | some c ↦ (s.captures c).generation ]

-- The lanes of a descriptor that the generation wrote, from `at` on.
unfoldable pub sum_lanes : (ℕ → Lane) → ℕ → ℕ → ℕ → ℕ
sum_lanes lanes generation at zero = 0
sum_lanes lanes generation at (suc n) =
    let rest = sum_lanes lanes generation (at + 1) n in
    if (lanes at).generation == generation then add64 (lanes at).value rest else rest

unfoldable pub all_operation_count : ℕ → Source → ℕ
unfolding sum_lanes
all_operation_count d s = elim s.current_capture [
  | none ↦ 0
  | some c ↦
      if leb (length s.descriptors) d
      then 0
      else sum_lanes s.all_operations (s.captures c).generation (d * counter_lane_count)
          counter_lane_count
]

-- The counters from `index` on of the current capture.
abbrev pub counters_from : (ℕ → ℕ) → ℕ → ℕ → List ℕ
counters_from f index zero = []
counters_from f index (suc n) = f index ∷ counters_from f (index + 1) n

unfoldable pub counters : Source → List ℕ
counters s =
    counters_from (elim s.current_capture [ none ↦ λ i. 0 | some c ↦ (s.captures c).counters ]) 0
      quality_count

-- `copy_n` from `from` to `to`, at the same offset.
abbrev pub copy_range : (ℕ → Record) → ℕ → ℕ → (ℕ → Record) → ℕ → Record
copy_range from offset n to i = if leb offset i && ltb i (offset + n) then from i else to i

unfoldable pub copy_shards : (ℕ → Record) → List Shard → (ℕ → Record) → ℕ → Record
copy_shards from [] to = to
copy_shards from (h ∷ hs) to = copy_shards from hs (copy_range from h.offset h.count to)

abbrev pub empty_shard : Shard → Shard
empty_shard h = record h { count = 0 }

-- The first loop of `Drain`.
unfoldable pub take_shards : Source → Source
unfolding copy_shards
take_shards s = record s {
  drain_counts = map (λ (h : Shard). h.count) s.shards;
  drain_records = copy_shards s.records s.shards s.drain_records;
  shards = map empty_shard s.shards;
}

abbrev pub add_to_bucket : Record → HistogramBucket → HistogramBucket
add_to_bucket r b = record {
  calls = add64 b.calls 1;
  ticks = add64 b.ticks r.duration_ticks;
  bytes = add64 b.bytes r.bytes;
}

-- The counts of all operations from descriptor `d` on.
unfoldable pub operation_counts : Source → ℕ → List Descriptor → List ℕ
unfolding all_operation_count
operation_counts s d [] = []
operation_counts s d (e ∷ es) = all_operation_count d s ∷ operation_counts s (d + 1) es

-- `QpcTicksToNanosecondsSaturated`, whose arithmetic is on floating-point numbers.
module _ (nanoseconds : ℕ → ℕ → ℕ) where
  unfoldable pub bucket_loop : ℕ → ℕ → List DurationBucket → ℕ → ℕ
  bucket_loop ns index [] last = last
  bucket_loop ns index (b ∷ bs) last =
      let later = bucket_loop ns (index + 1) bs last in
      if leb ns b.upper_nanoseconds then index else later

  unfoldable pub duration_bucket_index : ℕ → Source → ℕ
  unfolding bucket_loop
  duration_bucket_index ticks s =
      bucket_loop (nanoseconds ticks s.qpc_frequency) 0 s.duration_buckets
        (length s.duration_buckets - 1)

  unfoldable pub tally_record : Source → Record → List HistogramBucket → List HistogramBucket
  unfolding duration_bucket_index
  tally_record s r buckets =
      let at =
        r.descriptor_index * length s.duration_buckets + duration_bucket_index r.duration_ticks s in
      set buckets at (add_to_bucket r (get_or buckets at zero_bucket))

  -- The records of a shard from `at` on.
  unfoldable pub tally_range : Source → ℕ → ℕ → List HistogramBucket → List HistogramBucket
  unfolding tally_record
  tally_range s at zero buckets = buckets
  tally_range s at (suc n) buckets =
      tally_range s (at + 1) n (tally_record s (s.drain_records at) buckets)

  unfoldable pub tally_shards :
      Source → List Shard → List ℕ → List HistogramBucket → List HistogramBucket
  unfolding tally_range
  tally_shards s [] ns buckets = buckets
  tally_shards s (h ∷ hs) [] buckets = buckets
  tally_shards s (h ∷ hs) (n ∷ ns) buckets = tally_shards s hs ns (tally_range s h.offset n buckets)

  -- `Drain` without the metrics.
  unfoldable pub collect : Source → Source
  unfolding take_shards tally_shards
  collect s =
      let taken = take_shards s in
      record taken {
        interval_buckets =
            tally_shards taken taken.shards taken.drain_counts taken.interval_buckets;
      }

  -- `Drain` into `room` metrics, each with whether it is valid.
  unfoldable pub drain_metrics : ℕ → Source → List (ℕ × Bool) × Source
  unfolding collect operation_counts counters capture_generation
  drain_metrics room s =
      let next = collect s in
      let valid = not (capture_generation next == 0) in
      if not (room == length s.schema) then ([], s) else (
        map (λ (v : ℕ). (v, valid)) (counters next ++ operation_counts next 0 next.descriptors),
        next,
      )

abbrev pub sample_of_bucket : Text → Text → HistogramBucket → SeriesSample
sample_of_bucket series label b = record {
  series = series;
  bucket = label;
  calls = b.calls;
  ticks = b.ticks;
  bytes = b.bytes;
  gauge = false;
}

-- The samples of one descriptor from bucket `at` on.
unfoldable pub descriptor_samples :
    Text → List DurationBucket → List HistogramBucket → ℕ → List SeriesSample
descriptor_samples series [] buckets at = []
descriptor_samples series (b ∷ bs) buckets at =
    sample_of_bucket series b.label (get_or buckets at zero_bucket)
    ∷ descriptor_samples series bs buckets (at + 1)

unfoldable pub series_samples :
    List Descriptor → List DurationBucket → List HistogramBucket → ℕ → List SeriesSample
unfolding descriptor_samples
series_samples [] bs buckets at = []
series_samples (d ∷ ds) bs buckets at =
    descriptor_samples d.series bs buckets at ++ series_samples ds bs buckets (at + length bs)

abbrev pub cleared_buckets : List HistogramBucket → List HistogramBucket
cleared_buckets bs = map (λ (b : HistogramBucket). zero_bucket) bs

-- `DrainSeries` into `room` samples.
unfoldable pub drain_series : ℕ → Source → List SeriesSample × Source
unfolding series_samples
drain_series room s = if not (room == length s.interval_buckets) then ([], s) else (
  series_samples s.descriptors s.duration_buckets s.interval_buckets 0,
  record s { interval_buckets = cleared_buckets s.interval_buckets },
)
