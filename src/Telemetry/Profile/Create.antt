-- ===== src/Telemetry/Profile/Create.antt =====
-- The constructor of OperationProfileSource. That memory is left for its strings and arrays is taken as given.
use Prim.Native.Nat.{bit_xor}
use addictol.Base.{
  ℕ, zero, suc, ◌+◌, ◌*◌, ◌/◌, ◌%◌, true, false, not, List, [], ◌∷◌, ◌++◌, map, none, ltb, ◌==◌,
  ◌||◌, length, replicate, if◌then◌else◌,
}
use addictol.Base.Text.{Text, bytes}
use addictol.Telemetry.Profile.{
  Descriptor, Configuration, Source, Shard, Record, Lane, CaptureState, quality_names, zero_bucket,
}
use addictol.Telemetry.Profile.Valid.{valid_configuration}
use addictol.Telemetry.Profile.Sampling.{mix64, hash_string}

-- The loop from shard `index` on, over `n` shards.
unfoldable pub lay_shards : ℕ → ℕ → ℕ → ℕ → ℕ → List Shard
lay_shards base remainder index offset zero = []
lay_shards base remainder index offset (suc n) =
    let capacity = base + (if ltb index remainder then 1 else 0) in
    record { offset = offset; capacity = capacity; count = 0 }
    ∷ lay_shards base remainder (index + 1) (offset + capacity) n

unfoldable pub shards_of : ℕ → ℕ → List Shard
unfolding lay_shards
shards_of capacity count = lay_shards (capacity / count) (capacity % count) 0 0 count

-- The salts of the descriptors from `index` on.
unfoldable pub salts_of : ℕ → List Descriptor → List ℕ
unfolding mix64
salts_of index [] = []
salts_of index (d ∷ ds) = mix64 (bit_xor (hash_string d.series) index) ∷ salts_of (index + 1) ds

abbrev pub quality_key : Text → Text → Text
quality_key id name = bytes "profile." ++ id ++ bytes "." ++ name

unfoldable pub schema_of : Configuration → List Text
schema_of a =
    map (quality_key a.source_id) quality_names
    ++ map (λ (d : Descriptor). d.all_operations_metric_key) a.descriptors

abbrev pub empty_lane : Lane
empty_lane = record { value = 0; generation = 0 }

abbrev pub empty_record : Record
empty_record = record { duration_ticks = 0; bytes = 0; descriptor_index = 0 }

abbrev pub empty_capture : CaptureState
empty_capture = record {
  active_begins = 0;
  active_sampled = 0;
  counters = λ i. 0;
  admission_open = false;
  generation = 0;
}

-- The members' initial values.
abbrev pub blank_source : ℕ → Source
blank_source frequency = record {
  valid = false;
  source_salt = 0;
  qpc_frequency = frequency;
  descriptors = [];
  duration_buckets = [];
  schema = [];
  descriptor_salts = [];
  all_operations = λ i. empty_lane;
  records = λ i. empty_record;
  drain_records = λ i. empty_record;
  interval_buckets = [];
  captures = λ i. empty_capture;
  shards = [];
  drain_counts = [];
  current_capture = none;
}

unfoldable pub create : Configuration → ℕ → Source
unfolding valid_configuration hash_string salts_of schema_of shards_of
create a frequency =
    if not (valid_configuration a) || frequency == 0
    then blank_source frequency
    else record (blank_source frequency) {
      valid = true;
      source_salt = hash_string a.source_id;
      descriptors = a.descriptors;
      duration_buckets = a.duration_buckets;
      schema = schema_of a;
      descriptor_salts = salts_of 0 a.descriptors;
      interval_buckets = replicate (length a.descriptors * length a.duration_buckets) zero_bucket;
      shards = shards_of a.record_capacity a.publication_shard_count;
      drain_counts = replicate a.publication_shard_count 0;
    }
