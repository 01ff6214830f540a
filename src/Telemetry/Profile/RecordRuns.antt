-- ===== src/Telemetry/Profile/RecordRuns.antt =====
-- The accepted records over sequences of calls.
use addictol.Base.{
  ℕ, zero, suc, ◌+◌, ◌*◌, ◌/◌, ◌%◌, ◌≤◌, ◌<◌, ◌≡◌, refl, ap, true, false, not, List, [], ◌∷◌,
  Option, none, some, ◌==◌, ltb, ◌||◌, length, replicate, u64_mod, if_cases, arith, if◌then◌else◌,
}
use addictol.Base.Text.{is_empty}
use addictol.Telemetry.Profile.{Configuration, CaptureState, Token, zero_bucket}
use addictol.Telemetry.Profile.Tallies.{stored, tallied}
use addictol.Telemetry.Profile.Valid.{valid_configuration}
use addictol.Telemetry.Profile.Create.{create, lay_shards, shards_of}
use addictol.Telemetry.Profile.Accounts.{IsAccounted}
use addictol.Telemetry.Profile.Balance.{step-IsAccounted, create-IsAccounted}
use addictol.Telemetry.Profile.Accepted.{accepted_in, accepted_now, IsKept}
use addictol.Telemetry.Profile.Runs.{ProfileWorld, ProfileCall, profile_step, profile_run, fresh}
use addictol.Telemetry.Profile.Records.{step-IsKept}

-- No more records are accepted than operations are sampled.
accepted_in-bounded :
    (most : ℕ) (live : List Token) (o : Option ℕ) (f : ℕ → CaptureState)
    → IsAccounted most live f
    → accepted_in o f ≤ most
accepted_in-bounded most live none f h = omega arith
accepted_in-bounded most live (some c) f h = omega (arith, (h c).balance, (h c).bounded)

length-positive {ℓ} : {A : Type ℓ} (xs : List A) → is_empty xs ≡ false → 0 < length xs
length-positive [] h = cc
length-positive (x ∷ xs) h = omega arith

valid_configuration-lists :
    (a : Configuration)
    → valid_configuration a ≡ true
    → (is_empty a.descriptors ≡ false) × (is_empty a.duration_buckets ≡ false)
unfolding valid_configuration
valid_configuration-lists a h = ground (arith, h)

replicate-zero :
    (n : ℕ) → (length (replicate n zero_bucket) ≡ n) × (tallied (replicate n zero_bucket) ≡ 0)
replicate-zero zero = (refl, refl)
replicate-zero (suc n) =
    let (size, none_tallied) = replicate-zero n in (ap suc size, omega (arith, none_tallied))

stored-lay_shards :
    (base remainder index offset n : ℕ) → stored (lay_shards base remainder index offset n) ≡ 0
unfolding lay_shards
stored-lay_shards base remainder index offset zero = refl
stored-lay_shards base remainder index offset (suc n) = omega (
  arith,
  stored-lay_shards base remainder (index + 1)
      (offset + (base + (if ltb index remainder then 1 else 0))) n,
)

create-IsKept :
    (a : Configuration) (frequency : ℕ)
    → valid_configuration a ≡ true
    → 0 < frequency
    → IsKept 0 (create a frequency)
unfolding create shards_of
create-IsKept a frequency valid positive =
    let (some_descriptors, some_bounds) = valid_configuration-lists a valid in
    let count = length-positive a.descriptors some_descriptors in
    let (size, none_tallied) = replicate-zero (length a.descriptors * length a.duration_buckets) in
    let none_stored =
      stored-lay_shards (a.record_capacity / a.publication_shard_count)
        (a.record_capacity % a.publication_shard_count) 0 0 a.publication_shard_count in
    if_cases (IsKept 0) (not (valid_configuration a) || frequency == 0) _ _
      (λ e. ground (arith, e, valid, positive))
      (λ e. record {
        sized = size;
        some_buckets = length-positive a.duration_buckets some_bounds;
        known = λ i. count;
        copied = λ i. count;
        total = omega (arith, none_tallied, none_stored);
      })

module _ (nanoseconds : ℕ → ℕ → ℕ) where
  run-IsKept :
      (most : ℕ) (w : ProfileWorld) (calls : List ProfileCall)
      → most + length calls + 1 < u64_mod
      → IsAccounted most w.live w.source.captures
      → IsKept w.reported w.source
      → (let w' = profile_run nanoseconds w calls in IsKept w'.reported w'.source)
  unfolding profile_run
  run-IsKept most w [] small h k = k
  run-IsKept most w (c ∷ calls) small h k =
      let bound = accepted_in-bounded most w.live w.source.current_capture w.source.captures h in
      run-IsKept (most + 1) (profile_step nanoseconds w c) calls (omega (arith, small))
        (step-IsAccounted nanoseconds most w c (omega (arith, small)) h)
        (step-IsKept nanoseconds w c (omega (arith, small, bound)) k)

  -- After fewer than 2 ^ 64 - 1 calls of a new source with a valid configuration, the records that
  -- the current capture accepted are as many as those in the shards, the calls in the buckets of
  -- the interval and the calls that DrainSeries has reported since the capture started.
  pub run-accepted :
      (a : Configuration) (frequency : ℕ) (calls : List ProfileCall)
      → valid_configuration a ≡ true
      → 0 < frequency
      → length calls + 1 < u64_mod
      → (let w = profile_run nanoseconds (fresh a frequency) calls in
          accepted_now w.source
          ≡ stored w.source.shards + tallied w.source.interval_buckets + w.reported)
  run-accepted a frequency calls valid positive small =
      (run-IsKept 0 (fresh a frequency) calls (omega (arith, small))
        (create-IsAccounted a frequency) (create-IsKept a frequency valid positive)).total
