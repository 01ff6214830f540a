-- ===== src/Telemetry/Profile/Accepted.antt =====
-- Where the accepted records of a capture are.
use addictol.Base.{
  ℕ, ◌+◌, ◌*◌, ◌<◌, ◌≡◌, refl, sym, ap, ◌∙◌, subst, Bool, true, false, not, Option, none, some,
  ◌==◌, leb, ◌||◌, length, get_or, add64-small, u64_mod, if_both, if_cases, update_at_both, arith,
}
use addictol.Telemetry.Profile.{
  Quality, accepted_records, publication_contention_drops, capacity_drops, stale_tokens,
  invalid_results, quality_index, Source, Record, Lane, CaptureState, Token, bump, pin_valid,
  count_quality, counter_lane_count,
}
use addictol.Telemetry.Profile.Sampling.{
  should_sample, thread_sampling_state, operation_profile_suppressed, SamplingState, Thread, Lanes,
}
use addictol.Telemetry.Profile.Producer.{
  Begun, begin, begin_on, sample, admit, count_operation, finish, put_record, is_current, no_shard,
  no_descriptor,
}
use addictol.Telemetry.Profile.Ledger.{is_ending, ended}
use addictol.Telemetry.Profile.Effects.{Effect, begin-Effect, finish-ended}
use addictol.Telemetry.Profile.Tallies.{stored, tallied, stored-set, Known}

-- The accepted records of the current capture.
abbrev pub accepted_in : Option ℕ → (ℕ → CaptureState) → ℕ
accepted_in none f = 0
accepted_in (some c) f = (f c).counters (quality_index accepted_records)

abbrev pub accepted_now : Source → ℕ
accepted_now s = accepted_in s.current_capture s.captures

-- Every accepted record of the current capture is in a shard, in a bucket of the interval or among
-- the `reported` calls.
pub record IsKept (reported : ℕ) (s : Source) : Type 0 where
  pub sized : length s.interval_buckets ≡ length s.descriptors * length s.duration_buckets
  pub some_buckets : 0 < length s.duration_buckets
  pub known : Known (length s.descriptors) s.records
  pub copied : Known (length s.descriptors) s.drain_records
  pub total : accepted_now s ≡ stored s.shards + tallied s.interval_buckets + reported

-- The captures and lanes change, and the accepted records do not.
pub captures-IsKept :
    (reported : ℕ) (s : Source) (f : ℕ → CaptureState) (lanes : ℕ → Lane)
    → ((c : ℕ)
        → (f c).counters (quality_index accepted_records)
          ≡ (s.captures c).counters (quality_index accepted_records))
    → IsKept reported s
    → IsKept reported (record s { captures = f; all_operations = lanes })
captures-IsKept reported s f lanes same k = record {
  sized = k.sized;
  some_buckets = k.some_buckets;
  known = k.known;
  copied = k.copied;
  total = same_now s.current_capture ∙ k.total;
}
  where
    same_now : (o : Option ℕ) → accepted_in o f ≡ accepted_in o s.captures
    same_now none = refl
    same_now (some c) = same c

-- A call of Begin changes the captures and the lanes only.
abbrev Framed : Source → Source → Type 0
Framed s t = t ≡ record s { captures = t.captures; all_operations = t.all_operations }

admit-Framed :
    (contended : Bool) (now : ℕ) (measure : Bool) (c generation d hash : ℕ) (s : Source)
    → Framed s (admit contended now measure c generation d hash s).1
unfolding admit bump
admit-Framed contended now measure c generation d hash s =
    let P : Option Token × Source → Type 0 = λ r. Framed s r.1 in
    if_both P (not (pin_valid (s.captures c) generation)) _ _ refl (
      if_both P contended _ _ refl (
        if_both P
          (not (is_current s.current_capture c)
            || not ((s.captures c).generation == generation)
            || not (s.captures c).admission_open)
          _ _ refl refl))

sample-Framed :
    (contended : Bool) (now : ℕ) (measure : Bool) (c d : ℕ) (t : SamplingState) (s : Source)
    → Framed s (sample contended now measure c d t s).2
unfolding sample count_operation bump
sample-Framed contended now measure c d t s =
    let P : Option Token × SamplingState × Source → Type 0 = λ r. Framed s r.2 in
    let generation = (s.captures c).generation in
    let counted = count_operation (d * counter_lane_count + t.counter_lane) generation s in
    let decision =
      (should_sample t s.source_salt (get_or s.descriptor_salts d 0) generation
        (get_or s.descriptors d no_descriptor).sampling_period).0 in
    if_both P (t.counter_lane == counter_lane_count) _ _
      (if_both (Framed s) (pin_valid (s.captures c) generation) _ _ refl refl)
      (if_both P (not decision.selected) _ _ refl
        (let x = admit-Framed contended now measure c generation d decision.hash counted in x))

begin_on-Framed :
    (current : Option ℕ) (contended : Bool) (now : ℕ) (measure : Bool) (d : ℕ) (t : Thread)
    (l : Lanes) (s : Source)
    → Framed s (begin_on current contended now measure d t l s).source
unfolding begin_on bump
begin_on-Framed none contended now measure d t l s = refl
begin_on-Framed (some c) contended now measure d t l s =
    let P : Begun → Type 0 = λ b. Framed s b.source in
    if_both P (not s.valid || leb (length s.descriptors) d || not (s.captures c).admission_open) _ _
      refl
      (if_both P (operation_profile_suppressed t) _ _
        (if_both (Framed s) (pin_valid (s.captures c) ((s.captures c).generation)) _ _ refl refl)
        (sample-Framed contended now measure c d (thread_sampling_state t l).0 s))

begin-Framed :
    (contended : Bool) (now : ℕ) (measure : Bool) (d : ℕ) (t : Thread) (l : Lanes) (s : Source)
    → Framed s (begin contended now measure d t l s).source
unfolding begin
begin-Framed contended now measure d t l s =
    begin_on-Framed s.current_capture contended now measure d t l s

Effect-accepted :
    (o : Option Token) (f g : ℕ → CaptureState)
    → Effect o f g
    → (c : ℕ)
    → (g c).counters (quality_index accepted_records)
      ≡ (f c).counters (quality_index accepted_records)
Effect-accepted none f g e c = (e c).accepted
Effect-accepted (some t) f g e c =
    ap (λ (x : CaptureState). x.counters 1) (e c)
    ∙ if_both (λ (x : CaptureState). x.counters 1 ≡ (f c).counters 1) (c == t.capture) _ _ refl refl

pub begin-IsKept :
    (reported : ℕ) (contended : Bool) (now : ℕ) (measure : Bool) (d : ℕ) (t : Thread) (l : Lanes)
    (s : Source)
    → IsKept reported s
    → IsKept reported (begin contended now measure d t l s).source
begin-IsKept reported contended now measure d t l s k =
    let b = begin contended now measure d t l s in
    subst (IsKept reported) (sym (begin-Framed contended now measure d t l s)) (
      captures-IsKept reported s b.source.captures b.source.all_operations
        (Effect-accepted b.token s.captures b.source.captures
          (begin-Effect contended now measure d t l s))
        k)

-- The qualities of an operation that ends without a record.
abbrev drops : Quality → Bool
drops accepted_records = false
drops q = is_ending q

ended-accepted :
    (q : Quality) (x : CaptureState)
    → drops q ≡ true
    → (ended q x).counters (quality_index accepted_records)
      ≡ x.counters (quality_index accepted_records)
ended-accepted publication_contention_drops x h = refl
ended-accepted capacity_drops x h = refl
ended-accepted stale_tokens x h = refl
ended-accepted invalid_results x h = refl
ended-accepted _ x h = cc

pub finish-IsKept :
    (reported : ℕ) (q : Quality) (c : ℕ) (s : Source)
    → drops q ≡ true
    → IsKept reported s
    → IsKept reported (finish q c s)
unfolding finish bump
finish-IsKept reported q c s h k =
    captures-IsKept reported s (finish q c s).captures s.all_operations
      (λ i.
        ap (λ (x : CaptureState). x.counters 1) (finish-ended q c s i)
        ∙ if_both (λ (x : CaptureState). x.counters 1 ≡ (s.captures i).counters 1) (i == c) _ _
            (ended-accepted q (s.captures i) h) refl)
      k

pub accept-IsKept :
    (reported i c : ℕ) (r : Record) (s : Source)
    → s.current_capture ≡ some c
    → accepted_now s + 1 < u64_mod
    → r.descriptor_index < length s.descriptors
    → ((get_or s.shards i no_shard).count == (get_or s.shards i no_shard).capacity) ≡ false
    → IsKept reported s
    → IsKept reported (finish accepted_records c (put_record (get_or s.shards i no_shard) i r s))
unfolding finish bump count_quality put_record
accept-IsKept reported i c r s current small known room k =
    let shard = get_or s.shards i no_shard in
    let put = put_record shard i r s in
    let before = ap (λ o. accepted_in o s.captures) current in
    let after : accepted_now (finish accepted_records c put) ≡ accepted_now s + 1 =
      ap (λ o. accepted_in o (finish accepted_records c put).captures) current
      ∙ ap (λ (x : CaptureState). x.counters 1) (finish-ended accepted_records c put c)
      ∙ if_cases (λ (x : CaptureState). x.counters 1 ≡ accepted_now s + 1) (c == c) _ _
          (λ e. omega (arith, before, small, add64-small (accepted_now s) 1))
          (λ e. ground (arith, e)) in
    let more = stored-set s.shards i room in
    record {
      sized = k.sized;
      some_buckets = k.some_buckets;
      known = λ j.
          update_at_both (λ (x : ℕ) (v : Record). v.descriptor_index < length s.descriptors)
            s.records (shard.offset + shard.count) r j known (k.known j);
      copied = k.copied;
      total = omega (arith, after, more, k.total);
    }
