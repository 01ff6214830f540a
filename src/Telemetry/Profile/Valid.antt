-- ===== src/Telemetry/Profile/Valid.antt =====
-- ValidMetricKey, ValidSourceId and ValidConfiguration of Addictol/Source/Telemetry/AdOperationProfile.cpp.
use addictol.Base.{
  ℕ, ◌+◌, ◌-◌, Bool, true, false, not, List, [], ◌∷◌, ◌==◌, leb, ltb, ◌&&◌, ◌||◌, u64_mod,
  if◌then◌else◌,
}
use addictol.Base.Text.{Text, text_eq, is_empty}
use addictol.Telemetry.Profile.{Descriptor, DurationBucket, MetadataLabel, Configuration}

abbrev pub maximum_publication_shards : ℕ
maximum_publication_shards = 16

abbrev pub front_is : ℕ → Text → Bool
front_is c [] = false
front_is c (b ∷ t) = b == c

abbrev pub back_is : ℕ → Text → Bool
back_is c [] = false
back_is c (b ∷ []) = b == c
back_is c (b ∷ d ∷ t) = back_is c (d ∷ t)

abbrev pub has_byte : ℕ → Text → Bool
has_byte c [] = false
has_byte c (b ∷ t) = b == c || has_byte c t

-- 'a' to 'z', and '0' to '9'.
abbrev pub is_lower_case : ℕ → Bool
is_lower_case c = leb 97 c && leb c 122

abbrev pub is_number : ℕ → Bool
is_number c = leb 48 c && leb c 57

abbrev pub all_of : (ℕ → Bool) → Text → Bool
all_of p [] = true
all_of p (c ∷ t) = p c && all_of p t

abbrev pub key_character : ℕ → Bool
key_character c = is_lower_case c || is_number c || c == 95 || c == 46

abbrev pub id_character : ℕ → Bool
id_character c = is_lower_case c || is_number c || c == 95

unfoldable pub valid_metric_key : Text → Bool
valid_metric_key key =
    if is_empty key || front_is 46 key || back_is 46 key || not (has_byte 46 key)
    then false
    else all_of key_character key

abbrev pub front_lower : Text → Bool
front_lower [] = false
front_lower (c ∷ t) = is_lower_case c

unfoldable pub valid_source_id : Text → Bool
valid_source_id id = if is_empty id || not (front_lower id) then false else all_of id_character id

-- The first and the last upper bound.
abbrev pub first_upper : List DurationBucket → ℕ
first_upper [] = 0
first_upper (b ∷ bs) = b.upper_nanoseconds

abbrev pub last_upper : List DurationBucket → ℕ
last_upper [] = 0
last_upper (b ∷ []) = b.upper_nanoseconds
last_upper (b ∷ c ∷ bs) = last_upper (c ∷ bs)

unfoldable pub valid_buckets : ℕ → ℕ → List DurationBucket → Bool
valid_buckets index previous [] = true
valid_buckets index previous (b ∷ bs) =
    let rest = valid_buckets (index + 1) b.upper_nanoseconds bs in
    if is_empty b.label || (not (index == 0) && leb b.upper_nanoseconds previous)
    then false
    else rest

-- Whether an earlier descriptor has the series or the metric key.
abbrev pub repeated : Descriptor → List Descriptor → Bool
repeated d [] = false
repeated d (o ∷ os) =
    text_eq o.series d.series
    || text_eq o.all_operations_metric_key d.all_operations_metric_key
    || repeated d os

-- The loop, with the descriptors before.
unfoldable pub valid_descriptors : List Descriptor → List Descriptor → Bool
valid_descriptors before [] = true
valid_descriptors before (d ∷ ds) =
    let rest = valid_descriptors (d ∷ before) ds in
    if not (valid_metric_key d.series)
      || is_empty d.label
      || not (valid_metric_key d.all_operations_metric_key)
      || d.sampling_period == 0
    then false
    else if repeated d before
    then false
    else rest

abbrev pub valid_labels : List MetadataLabel → Bool
valid_labels [] = true
valid_labels (l ∷ ls) = not (is_empty l.key) && valid_labels ls

unfoldable pub valid_configuration : Configuration → Bool
valid_configuration a =
    if not (valid_source_id a.source_id)
      || is_empty a.source_name
      || is_empty a.descriptors
      || is_empty a.duration_buckets
      || not (first_upper a.duration_buckets == 0)
      || not (last_upper a.duration_buckets == u64_mod - 1)
      || a.record_capacity == 0
      || a.publication_shard_count == 0
      || ltb maximum_publication_shards a.publication_shard_count
      || ltb a.record_capacity a.publication_shard_count
    then false
    else if not (valid_buckets 0 0 a.duration_buckets)
    then false
    else if not (valid_descriptors [] a.descriptors)
    then false
    else valid_labels a.metadata_labels
