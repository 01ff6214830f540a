-- ===== src/Telemetry/Profile/Producer.antt =====
-- Begin, End and Publish of Addictol/Source/Telemetry/AdOperationProfile.cpp, each as one step; `contended` says that the
-- shard's mutex is held by another thread, and `now` is what the clock gives.
use Prim.Native.Nat.{bit_xor}
use addictol.Base.{
  ℕ, ◌+◌, ◌-◌, ◌*◌, ◌%◌, Bool, false, not, List, [], Option, none, some, ◌==◌, leb, ltb, ◌&&◌, ◌||◌,
  add64, sub64, length, get_or, set, update_at, if◌then◌else◌,
}
use addictol.Base.Text.{text_eq, is_empty}
use addictol.Telemetry.Profile.{
  Quality, sampled_admissions, accepted_records, admission_contention_drops,
  publication_contention_drops, capacity_drops, stale_tokens, suppressed_operations,
  invalid_results, producer_capacity_drops, Descriptor, Source, Shard, Record, Lane, Token, bump,
  pin_valid, counter_lane_count,
}
use addictol.Telemetry.Profile.Sampling.{
  SamplingState, Thread, Lanes, mix64, should_sample, thread_sampling_state,
  operation_profile_suppressed,
}

abbrev pub no_descriptor : Descriptor
no_descriptor = record {
  series = [];
  label = [];
  all_operations_metric_key = [];
  sampling_period = 0;
  result_group = [];
}

abbrev pub no_shard : Shard
no_shard = record { offset = 0; capacity = 0; count = 0 }

abbrev pub is_current : Option ℕ → ℕ → Bool
is_current none c = false
is_current (some i) c = i == c

-- The counter of a lane, for a generation.
unfoldable pub count_lane : ℕ → Lane → Lane
count_lane generation lane =
    if lane.generation == generation
    then record lane { value = add64 lane.value 1 }
    else record { value = 1; generation = generation }

unfoldable pub count_operation : ℕ → ℕ → Source → Source
unfolding count_lane
count_operation at generation s = record s {
  all_operations = update_at s.all_operations at (count_lane generation (s.all_operations at));
}

abbrev pub with_active : (ℕ → ℕ) → ℕ → Source → Source
with_active f c s = record s {
  captures =
      update_at s.captures c
        (record (s.captures c) { active_sampled = f ((s.captures c).active_sampled) });
}

abbrev pub more_active : ℕ → ℕ
more_active n = add64 n 1

abbrev pub less_active : ℕ → ℕ
less_active n = sub64 n 1

unfoldable pub shard_of_hash : ℕ → Source → ℕ
unfolding mix64
shard_of_hash hash s = mix64 (bit_xor hash 0xD1B5_4A32_D192_ED03) % length s.shards

-- `Begin` once the operation is selected.
unfoldable pub admit : Bool → ℕ → Bool → ℕ → ℕ → ℕ → ℕ → Source → Option Token × Source
unfolding bump pin_valid shard_of_hash
admit contended now measure c generation d hash s =
    let shard = shard_of_hash hash s in
    if not (pin_valid (s.captures c) generation)
    then (none, s)
    else if contended
    then (none, bump admission_contention_drops c s)
    else if not (is_current s.current_capture c)
        || not ((s.captures c).generation == generation)
        || not (s.captures c).admission_open
    then (none, s)
    else (
      some (record {
        capture = c;
        start_qpc = if measure then now else 0;
        descriptor_index = d;
        shard_index = shard;
      }),
      bump sampled_admissions c (with_active more_active c s),
    )

-- `Begin` with the thread's sampling state, and that state after it.
unfoldable pub sample :
    Bool → ℕ → Bool → ℕ → ℕ → SamplingState → Source → Option Token × SamplingState × Source
unfolding count_operation should_sample admit bump pin_valid
sample contended now measure c d t s =
    let generation = (s.captures c).generation in
    let counted = count_operation (d * counter_lane_count + t.counter_lane) generation s in
    let (decision, t') =
      should_sample t s.source_salt (get_or s.descriptor_salts d 0) generation
        (get_or s.descriptors d no_descriptor).sampling_period in
    let (token, s') = admit contended now measure c generation d decision.hash counted in
    if t.counter_lane == counter_lane_count
    then (
      none,
      t,
      if pin_valid (s.captures c) generation then bump producer_capacity_drops c s else s,
    )
    else if not decision.selected
    then (none, t', counted)
    else (token, t', s')

-- What `Begin` returns and changes: the thread, the lanes and the source.
pub record Begun : Type 0 where
  pub token : Option Token
  pub thread : Thread
  pub lanes : Lanes
  pub source : Source

-- `Begin` on the current capture.
unfoldable pub begin_on : Option ℕ → Bool → ℕ → Bool → ℕ → Thread → Lanes → Source → Begun
unfolding sample thread_sampling_state operation_profile_suppressed bump pin_valid
begin_on none contended now measure d t l s = record {
  token = none;
  thread = t;
  lanes = l;
  source = s;
}
begin_on (some c) contended now measure d t l s =
    let generation = (s.captures c).generation in
    let (sampling, l') = thread_sampling_state t l in
    let (token, sampling', s') = sample contended now measure c d sampling s in
    if not s.valid || leb (length s.descriptors) d || not (s.captures c).admission_open
    then record { token = none; thread = t; lanes = l; source = s }
    else if operation_profile_suppressed t
    then record {
      token = none;
      thread = t;
      lanes = l;
      source = if pin_valid (s.captures c) generation then bump suppressed_operations c s else s;
    }
    else record {
      token = token;
      thread = record t { sampling = some sampling' };
      lanes = l';
      source = s';
    }

unfoldable pub begin : Bool → ℕ → Bool → ℕ → Thread → Lanes → Source → Begun
unfolding begin_on
begin contended now measure d t l s = begin_on s.current_capture contended now measure d t l s

-- `IsCurrent`
unfoldable pub is_current_token : Option Token → Source → Bool
is_current_token none s = false
is_current_token (some t) s =
    is_current s.current_capture t.capture && (s.captures t.capture).admission_open

-- `Publish` counts a quality and ends the operation.
unfoldable pub finish : Quality → ℕ → Source → Source
unfolding bump
finish q c s = with_active less_active c (bump q c s)

unfoldable pub put_record : Shard → ℕ → Record → Source → Source
put_record shard i r s = record s {
  records = update_at s.records (shard.offset + shard.count) r;
  shards = set s.shards i (record shard { count = shard.count + 1 });
}

-- Whether the result may stand for the token's descriptor.
unfoldable pub accepts_result : List Descriptor → ℕ → ℕ → Bool
accepts_result ds d result =
    let group = (get_or ds d no_descriptor).result_group in
    not (
      leb (length ds) result
      || (not (result == d)
          && (is_empty group || not (text_eq group (get_or ds result no_descriptor).result_group))))

-- The duration that is given, or that since the token's start.
abbrev pub elapsed_of : Option ℕ → ℕ → ℕ → ℕ
elapsed_of (some e) start now = e
elapsed_of none start now = if ltb start now then now - start else 0

unfoldable pub publish_token : Bool → ℕ → Token → ℕ → ℕ → Option ℕ → Source → Source
unfolding finish put_record accepts_result
publish_token contended now t size result elapsed s =
    let c = t.capture in
    let shard = get_or s.shards t.shard_index no_shard in
    let r : Record = record {
      duration_ticks = elapsed_of elapsed t.start_qpc now;
      bytes = size;
      descriptor_index = result;
    } in
    if not (s.captures c).admission_open
    then finish stale_tokens c s
    else if not (accepts_result s.descriptors t.descriptor_index result)
    then finish invalid_results c s
    else if contended
    then finish publication_contention_drops c s
    else if not (is_current s.current_capture c) || not (s.captures c).admission_open
    then finish stale_tokens c s
    else if shard.count == shard.capacity
    then finish capacity_drops c s
    else finish accepted_records c (put_record shard t.shard_index r s)

unfoldable pub publish : Bool → ℕ → Option Token → ℕ → ℕ → Option ℕ → Source → Source
unfolding publish_token
publish contended now none size result elapsed s = s
publish contended now (some t) size result elapsed s =
    publish_token contended now t size result elapsed s

-- `End` with the token's own descriptor as the result.
unfoldable pub end_token : Bool → ℕ → Option Token → ℕ → Source → Source
unfolding publish
end_token contended now none size s = s
end_token contended now (some t) size s =
    publish contended now (some t) size t.descriptor_index none s
