-- ===== src/Telemetry/Profile.antt =====
-- Addictol/Include/Telemetry/AdOperationProfile.h and Addictol/Source/Telemetry/AdOperationProfile.cpp: operations sampled
-- into the shards of a capture. The state of a source.
pub mod Valid
pub mod Sampling
pub mod Create
pub mod Producer
pub mod Reader
pub mod Capture
pub mod Runs
pub mod Ledger
pub mod Effects
pub mod Accounts
pub mod Starts
pub mod Balance
pub mod Tallies
pub mod Accepted
pub mod Records
pub mod RecordRuns
pub mod Start
pub mod Threads
pub mod Pins
pub mod Tests
pub mod Shards
use addictol.Base.{
  ℕ, ◌+◌, Bool, true, false, List, [], ◌∷◌, Option, none, some, add64, update_at, ◌==◌, ◌&&◌,
}
use addictol.Base.Text.{Text, bytes}

pub record Descriptor : Type 0 where
  pub series : Text
  pub label : Text
  pub all_operations_metric_key : Text
  pub sampling_period : ℕ
  pub result_group : Text

pub record DurationBucket : Type 0 where
  pub upper_nanoseconds : ℕ
  pub label : Text

pub record MetadataLabel : Type 0 where
  pub key : Text
  pub value : Text

pub record Configuration : Type 0 where
  pub source_id : Text
  pub source_name : Text
  pub descriptors : List Descriptor
  pub duration_buckets : List DurationBucket
  pub metadata_labels : List MetadataLabel
  pub record_capacity : ℕ
  pub publication_shard_count : ℕ

pub data Quality : Type 0 where
  sampled_admissions accepted_records admission_contention_drops : Quality
  publication_contention_drops capacity_drops stale_tokens : Quality
  suppressed_operations unfinished_operations invalid_results : Quality
  producer_capacity_drops : Quality

-- The index of a counter.
abbrev pub quality_index : Quality → ℕ
quality_index sampled_admissions = 0
quality_index accepted_records = 1
quality_index admission_contention_drops = 2
quality_index publication_contention_drops = 3
quality_index capacity_drops = 4
quality_index stale_tokens = 5
quality_index suppressed_operations = 6
quality_index unfinished_operations = 7
quality_index invalid_results = 8
quality_index producer_capacity_drops = 9

abbrev pub quality_count : ℕ
quality_count = 10

abbrev pub quality_names : List Text
quality_names =
    bytes "sampled_admissions"
    ∷ bytes "accepted_records"
    ∷ bytes "admission_contention_drops"
    ∷ bytes "publication_contention_drops"
    ∷ bytes "capacity_drops"
    ∷ bytes "stale_tokens"
    ∷ bytes "suppressed_operations"
    ∷ bytes "unfinished_operations"
    ∷ bytes "invalid_results"
    ∷ bytes "producer_capacity_drops"
    ∷ []

pub record CaptureState : Type 0 where
  pub active_begins : ℕ
  pub active_sampled : ℕ
  pub counters : ℕ → ℕ
  pub admission_open : Bool
  pub generation : ℕ

-- `AtomicCounter`
pub record Lane : Type 0 where
  pub value : ℕ
  pub generation : ℕ

pub record Record : Type 0 where
  pub duration_ticks : ℕ
  pub bytes : ℕ
  pub descriptor_index : ℕ

pub record Shard : Type 0 where
  pub offset : ℕ
  pub capacity : ℕ
  pub count : ℕ

pub record HistogramBucket : Type 0 where
  pub calls : ℕ
  pub ticks : ℕ
  pub bytes : ℕ

abbrev pub capture_state_count : ℕ
capture_state_count = 8

abbrev pub counter_lane_count : ℕ
counter_lane_count = 256

-- `shards` are those below the count of shards, and `current_capture` an index of `captures`.
pub record Source : Type 0 where
  pub valid : Bool
  pub source_salt : ℕ
  pub qpc_frequency : ℕ
  pub descriptors : List Descriptor
  pub duration_buckets : List DurationBucket
  pub schema : List Text
  pub descriptor_salts : List ℕ
  pub all_operations : ℕ → Lane
  pub records : ℕ → Record
  pub drain_records : ℕ → Record
  pub interval_buckets : List HistogramBucket
  pub captures : ℕ → CaptureState
  pub shards : List Shard
  pub drain_counts : List ℕ
  pub current_capture : Option ℕ

-- A token that `Begin` gave; none stands for a token without a source.
pub record Token : Type 0 where
  pub capture : ℕ
  pub start_qpc : ℕ
  pub descriptor_index : ℕ
  pub shard_index : ℕ

-- `fetch_add(1)` on the counter of a quality.
unfoldable pub count_quality : Quality → CaptureState → CaptureState
count_quality q c = record c {
  counters = update_at c.counters (quality_index q) (add64 (c.counters (quality_index q)) 1);
}

unfoldable pub bump : Quality → ℕ → Source → Source
unfolding count_quality
bump q i s = record s { captures = update_at s.captures i (count_quality q (s.captures i)) }

-- `CapturePin::valid`
unfoldable pub pin_valid : CaptureState → ℕ → Bool
pin_valid c g = c.generation == g && c.admission_open

abbrev pub zero_bucket : HistogramBucket
zero_bucket = record { calls = 0; ticks = 0; bytes = 0 }
