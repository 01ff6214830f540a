-- ===== src/Telemetry/Profile/Records.antt =====
-- That no call loses an accepted record.
use addictol.Base.{
  length-map, update_at-same, ℕ, ◌+◌, ◌<◌, ◌≡◌, refl, ap, ◌∙◌, subst, Bool, true, not, List, Option,
  none, some, ◌==◌, ==_iff, ◌||◌, length, get_or, u64_mod, if_both, if_cases, update_at,
  update_at_both, get_elem?, arith, if◌then◌else◌,
}
use addictol.Telemetry.{SeriesSample}
use addictol.Telemetry.Profile.{
  Descriptor, publication_contention_drops, capacity_drops, stale_tokens, invalid_results, Source,
  Record, CaptureState, Token, HistogramBucket, zero_bucket,
}
use addictol.Telemetry.Profile.Producer.{
  publish, publish_token, accepts_result, is_current, no_shard, elapsed_of,
}
use addictol.Telemetry.Profile.Reader.{collect, take_shards, drain_metrics, drain_series}
use addictol.Telemetry.Profile.Tallies.{
  stored-empty, tallied-cleared, copy_shards-Known, tally_shards-tallied, series_samples-tallied,
}
use addictol.Telemetry.Profile.Capture.{
  find_capture, start_on, start_found, start_capture, close_on, close_capture_admission,
  close_admission, reset_capture_state, open_admission,
}
use addictol.Telemetry.Profile.Starts.{find_capture-IsSearched}
use addictol.Telemetry.Profile.Accepted.{
  accepted_now, IsKept, captures-IsKept, begin-IsKept, finish-IsKept, accept-IsKept,
}
use addictol.Telemetry.Profile.Runs.{
  ProfileWorld, ProfileCall, begin_call, publish_call, start_call, close_call, drain_call,
  series_call, profile_step, calls_of,
}

accepts_result-lt :
    (ds : List Descriptor) (d result : ℕ) → accepts_result ds d result ≡ true → result < length ds
unfolding accepts_result
accepts_result-lt ds d result h = ground (arith, h)

is_current-some : (o : Option ℕ) (c : ℕ) → is_current o c ≡ true → o ≡ some c
is_current-some none c h = cc
is_current-some (some i) c h = ap (λ (x : ℕ). some x) ((==_iff i c).0 h)

publish_token-IsKept :
    (reported : ℕ) (contended : Bool) (now : ℕ) (t : Token) (size result : ℕ) (elapsed : Option ℕ)
    (s : Source)
    → accepted_now s + 1 < u64_mod
    → IsKept reported s
    → IsKept reported (publish_token contended now t size result elapsed s)
unfolding publish_token
publish_token-IsKept reported contended now t size result elapsed s small k =
    let c = t.capture in
    let shard = get_or s.shards t.shard_index no_shard in
    let P : Source → Type 0 = IsKept reported in
    let r : Record = record {
      duration_ticks = elapsed_of elapsed t.start_qpc now;
      bytes = size;
      descriptor_index = result;
    } in
    if_both P (not (s.captures c).admission_open) _ _
      (finish-IsKept reported stale_tokens c s refl k)
      (if_cases P (not (accepts_result s.descriptors t.descriptor_index result)) _ _
        (λ e. finish-IsKept reported invalid_results c s refl k)
        (λ valid.
          if_both P contended _ _ (finish-IsKept reported publication_contention_drops c s refl k) (
            if_cases P (not (is_current s.current_capture c) || not (s.captures c).admission_open) _
              _ (λ e. finish-IsKept reported stale_tokens c s refl k)
              (λ current.
                if_cases P (shard.count == shard.capacity) _ _
                  (λ e. finish-IsKept reported capacity_drops c s refl k)
                  (λ room.
                    accept-IsKept reported t.shard_index c r s
                      (is_current-some s.current_capture c (ground (arith, current))) small
                      (accepts_result-lt s.descriptors t.descriptor_index result
                        (ground (arith, valid)))
                      room k)))))

publish-IsKept :
    (reported : ℕ) (contended : Bool) (now : ℕ) (o : Option Token) (size result : ℕ)
    (elapsed : Option ℕ) (s : Source)
    → accepted_now s + 1 < u64_mod
    → IsKept reported s
    → IsKept reported (publish contended now o size result elapsed s)
unfolding publish
publish-IsKept reported contended now none size result elapsed s small k = k
publish-IsKept reported contended now (some t) size result elapsed s small k =
    publish_token-IsKept reported contended now t size result elapsed s small k

-- The calls that are reported after an attempt to start.
start_found-IsKept :
    (reported : ℕ) (o : Option ℕ) (s : Source)
    → IsKept reported s
    → (let r = start_found o s in IsKept (if r.0 then 0 else reported) r.1)
unfolding start_found start_on reset_capture_state
start_found-IsKept reported none s k = k
start_found-IsKept reported (some c) s k = record {
  sized = length-map (λ (b : HistogramBucket). zero_bucket) s.interval_buckets ∙ k.sized;
  some_buckets = k.some_buckets;
  known = k.known;
  copied = k.copied;
  total =
      ap (λ (x : CaptureState). x.counters 1)
        (update_at-same s.captures c (open_admission (reset_capture_state (s.captures c))))
      ∙ omega (arith, stored-empty s.shards, tallied-cleared s.interval_buckets);
}

start_capture-IsKept :
    (reported next : ℕ) (s : Source)
    → IsKept reported s
    → (let r = start_capture next s in IsKept (if r.0 then 0 else reported) r.2)
unfolding start_capture
start_capture-IsKept reported next s k =
    let found = find_capture next s.captures 0 8 in
    let (same, free) = find_capture-IsSearched next s.captures 0 8 in
    if_both (λ (r : Bool × ℕ × Source). IsKept (if r.0 then 0 else reported) r.2) (not s.valid) _ _
      k
      (start_found-IsKept reported found.taken (record s { captures = found.captures })
        (captures-IsKept reported s found.captures s.all_operations (λ c. (same c).accepted) k))

close_on-IsKept :
    (reported : ℕ) (o : Option ℕ) (s : Source)
    → IsKept reported s
    → IsKept reported (close_on o s).1
unfolding close_on
close_on-IsKept reported none s k = k
close_on-IsKept reported (some c) s k =
    if_both (λ (r : ℕ × Source). IsKept reported r.1) (not (s.captures c).admission_open) _ _ k
      (captures-IsKept reported s (update_at s.captures c (close_admission (s.captures c)))
        s.all_operations
        (λ i.
          update_at_both (λ (j : ℕ) (x : CaptureState). x.counters 1 ≡ (s.captures j).counters 1)
            s.captures c (close_admission (s.captures c)) i refl refl)
        k)

drain_series-IsKept :
    (reported room : ℕ) (s : Source)
    → IsKept reported s
    → (let r = drain_series room s in IsKept (reported + calls_of r.0) r.1)
unfolding drain_series
drain_series-IsKept reported room s k =
    let samples =
      series_samples-tallied s.descriptors s.duration_buckets s.interval_buckets k.sized in
    if_both (λ (r : List SeriesSample × Source). IsKept (reported + calls_of r.0) r.1)
      (not (room == length s.interval_buckets)) _ _ (subst (λ x. IsKept x s) (omega arith) k)
      (record {
        sized = length-map (λ (b : HistogramBucket). zero_bucket) s.interval_buckets ∙ k.sized;
        some_buckets = k.some_buckets;
        known = k.known;
        copied = k.copied;
        total = omega (arith, k.total, samples, tallied-cleared s.interval_buckets);
      })

module _ (nanoseconds : ℕ → ℕ → ℕ) where
  collect-IsKept :
      (reported : ℕ) (s : Source)
      → accepted_now s < u64_mod
      → IsKept reported s
      → IsKept reported (collect nanoseconds s)
  unfolding collect take_shards
  collect-IsKept reported s small k =
      let taken = take_shards s in
      let copied =
        copy_shards-Known (length s.descriptors) s.shards s.records s.drain_records k.known
          k.copied in
      let (all, size) =
        tally_shards-tallied nanoseconds taken s.shards s.interval_buckets k.some_buckets k.sized
          copied (omega (arith, k.total, small)) in
      record {
        sized = size ∙ k.sized;
        some_buckets = k.some_buckets;
        known = k.known;
        copied = copied;
        total = omega (arith, k.total, all, stored-empty s.shards);
      }

  drain_metrics-IsKept :
      (reported room : ℕ) (s : Source)
      → accepted_now s < u64_mod
      → IsKept reported s
      → IsKept reported (drain_metrics nanoseconds room s).1
  unfolding drain_metrics
  drain_metrics-IsKept reported room s small k =
      if_both (λ (r : List (ℕ × Bool) × Source). IsKept reported r.1)
        (not (room == length s.schema)) _ _ k (collect-IsKept reported s small k)

  pub step-IsKept :
      (w : ProfileWorld) (c : ProfileCall)
      → accepted_now w.source + 1 < u64_mod
      → IsKept w.reported w.source
      → (let w' = profile_step nanoseconds w c in IsKept w'.reported w'.source)
  unfolding profile_step close_capture_admission
  step-IsKept w (begin_call contended now measure d t) small k =
      begin-IsKept w.reported contended now measure d t w.lanes w.source k
  step-IsKept w (publish_call i contended now size result elapsed) small k =
      publish-IsKept w.reported contended now (get_elem? w.live i) size result elapsed w.source
        small k
  step-IsKept w start_call small k = start_capture-IsKept w.reported w.next_generation w.source k
  step-IsKept w close_call small k = close_on-IsKept w.reported w.source.current_capture w.source k
  step-IsKept w (drain_call room) small k =
      drain_metrics-IsKept w.reported room w.source (omega (arith, small)) k
  step-IsKept w (series_call room) small k = drain_series-IsKept w.reported room w.source k
