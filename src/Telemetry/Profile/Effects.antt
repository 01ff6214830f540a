-- ===== src/Telemetry/Profile/Effects.antt =====
-- What Begin and Publish do to the captures of a source.
use addictol.Base.{
  ℕ, ◌+◌, ◌*◌, ◌≡◌, refl, Bool, true, not, Option, none, some, ◌==◌, leb, ◌||◌, add64, sub64,
  length, get_or, if_both, update_at-twice, if◌then◌else◌,
}
use addictol.Telemetry.Profile.{
  counter_lane_count, Quality, sampled_admissions, accepted_records, admission_contention_drops,
  publication_contention_drops, capacity_drops, stale_tokens, suppressed_operations,
  invalid_results, producer_capacity_drops, Source, Record, CaptureState, Token, bump,
  count_quality, pin_valid,
}
use addictol.Telemetry.Profile.Sampling.{
  SamplingState, Thread, Lanes, should_sample, thread_sampling_state, operation_profile_suppressed,
}
use addictol.Telemetry.Profile.Producer.{
  no_descriptor, count_operation, admit, sample, begin, begin_on, Begun, finish, publish_token,
  put_record, accepts_result, is_current, no_shard, elapsed_of,
}
use addictol.Telemetry.Profile.Ledger.{
  is_ending, ended, admitted, IsSameLedger, same-IsSameLedger, is_noted, bump-IsSameLedger,
}

-- What a call of Begin does to the captures, by the token it gives.
abbrev pub Effect : Option Token → (ℕ → CaptureState) → (ℕ → CaptureState) → Type 0
Effect none f g = (c : ℕ) → IsSameLedger (f c) (g c)
Effect (some t) f g = (c : ℕ) → g c ≡ (if c == t.capture then admitted (f c) else f c)

same-Effect : (s : Source) → Effect none s.captures s.captures
same-Effect s c = same-IsSameLedger (s.captures c)

bump-Effect :
    (q : Quality) (i : ℕ) (s : Source)
    → is_noted q ≡ true
    → Effect none s.captures (bump q i s).captures
bump-Effect q i s h c = bump-IsSameLedger q i s c h

admit-Effect :
    (contended : Bool) (now : ℕ) (measure : Bool) (c generation d hash : ℕ) (s : Source)
    → (let r = admit contended now measure c generation d hash s in
        Effect r.0 s.captures r.1.captures)
unfolding admit bump count_quality
admit-Effect contended now measure c generation d hash s =
    let P : Option Token × Source → Type 0 = λ r. Effect r.0 s.captures r.1.captures in
    let with_more : CaptureState → CaptureState =
      λ x. record x { active_sampled = add64 x.active_sampled 1 } in
    if_both P (not (pin_valid (s.captures c) generation)) _ _ (same-Effect s) (
      if_both P contended _ _ (bump-Effect admission_contention_drops c s refl) (
        if_both P
          (not (is_current s.current_capture c)
            || not ((s.captures c).generation == generation)
            || not (s.captures c).admission_open)
          _ _ (same-Effect s)
          (λ c'. update_at-twice s.captures c (count_quality sampled_admissions) with_more c')))

sample-Effect :
    (contended : Bool) (now : ℕ) (measure : Bool) (c d : ℕ) (t : SamplingState) (s : Source)
    → (let r = sample contended now measure c d t s in Effect r.0 s.captures r.2.captures)
unfolding sample count_operation
sample-Effect contended now measure c d t s =
    let P : Option Token × SamplingState × Source → Type 0 =
      λ r. Effect r.0 s.captures r.2.captures in
    let generation = (s.captures c).generation in
    let counted = count_operation (d * counter_lane_count + t.counter_lane) generation s in
    let decision =
      (should_sample t s.source_salt (get_or s.descriptor_salts d 0) generation
        (get_or s.descriptors d no_descriptor).sampling_period).0 in
    if_both P (t.counter_lane == counter_lane_count) _ _
      (if_both (λ (x : Source). Effect none s.captures x.captures)
        (pin_valid (s.captures c) generation) _ _ (bump-Effect producer_capacity_drops c s refl)
        (same-Effect s))
      (if_both P (not decision.selected) _ _ (same-Effect s)
        (admit-Effect contended now measure c generation d decision.hash counted))

begin_on-Effect :
    (current : Option ℕ) (contended : Bool) (now : ℕ) (measure : Bool) (d : ℕ) (t : Thread)
    (l : Lanes) (s : Source)
    → (let b = begin_on current contended now measure d t l s in
        Effect b.token s.captures b.source.captures)
unfolding begin_on
begin_on-Effect none contended now measure d t l s = same-Effect s
begin_on-Effect (some c) contended now measure d t l s =
    let P : Begun → Type 0 = λ b. Effect b.token s.captures b.source.captures in
    if_both P (not s.valid || leb (length s.descriptors) d || not (s.captures c).admission_open) _ _
      (same-Effect s)
      (if_both P (operation_profile_suppressed t) _ _
        (if_both (λ (x : Source). Effect none s.captures x.captures)
          (pin_valid (s.captures c) ((s.captures c).generation)) _ _
          (bump-Effect suppressed_operations c s refl) (same-Effect s))
        (sample-Effect contended now measure c d (thread_sampling_state t l).0 s))

pub begin-Effect :
    (contended : Bool) (now : ℕ) (measure : Bool) (d : ℕ) (t : Thread) (l : Lanes) (s : Source)
    → (let b = begin contended now measure d t l s in Effect b.token s.captures b.source.captures)
unfolding begin
begin-Effect contended now measure d t l s =
    begin_on-Effect s.current_capture contended now measure d t l s

pub finish-ended :
    (q : Quality) (i : ℕ) (s : Source) (c : ℕ)
    → (finish q i s).captures c ≡ (if c == i then ended q (s.captures c) else s.captures c)
unfolding finish bump count_quality
finish-ended q i s c =
    let fewer : CaptureState → CaptureState =
      λ x. record x { active_sampled = sub64 x.active_sampled 1 } in
    update_at-twice s.captures i fewer (count_quality q) c

-- An operation of capture `i` ends with some quality.
abbrev pub Ends : ℕ → (ℕ → CaptureState) → (ℕ → CaptureState) → Type 0
Ends i f g =
    (q : Quality) × (is_ending q ≡ true) × ((c : ℕ) → g c ≡ (if c == i then ended q (f c) else f c))

finish-Ends :
    (q : Quality) (i : ℕ) (s : Source)
    → is_ending q ≡ true
    → Ends i s.captures (finish q i s).captures
finish-Ends q i s h = (q, h, finish-ended q i s)

-- What a call of Publish with a token does to the captures.
pub publish_token-Ends :
    (contended : Bool) (now : ℕ) (t : Token) (size result : ℕ) (elapsed : Option ℕ) (s : Source)
    → Ends t.capture s.captures (publish_token contended now t size result elapsed s).captures
unfolding publish_token put_record
publish_token-Ends contended now t size result elapsed s =
    let c = t.capture in
    let shard = get_or s.shards t.shard_index no_shard in
    let P : Source → Type 0 = λ x. Ends c s.captures x.captures in
    let r : Record = record {
      duration_ticks = elapsed_of elapsed t.start_qpc now;
      bytes = size;
      descriptor_index = result;
    } in
    if_both P (not (s.captures c).admission_open) _ _ (finish-Ends stale_tokens c s refl) (
      if_both P (not (accepts_result s.descriptors t.descriptor_index result)) _ _
        (finish-Ends invalid_results c s refl)
        (if_both P contended _ _ (finish-Ends publication_contention_drops c s refl) (
          if_both P (not (is_current s.current_capture c) || not (s.captures c).admission_open) _ _
            (finish-Ends stale_tokens c s refl)
            (if_both P (shard.count == shard.capacity) _ _ (finish-Ends capacity_drops c s refl)
              (finish-Ends accepted_records c (put_record shard t.shard_index r s) refl)))))
