-- ===== src/Telemetry/Profile/Sampling.antt =====
-- The salts and the state of a thread of Addictol/Source/Telemetry/AdOperationProfile.cpp: Mix64, HashString,
-- SamplingState and ShouldSample.
use Prim.Native.Nat.{bit_xor}
use addictol.Base.{
  ℕ, zero, suc, ◌+◌, ◌*◌, ◌/◌, ◌%◌, ◌^◌, Bool, true, false, [], ◌∷◌, ◌==◌, leb, ◌||◌, u64_mod,
  add64, Option, none, some, add32, sub32, not, if◌then◌else◌,
}
use addictol.Base.Text.{Text}
use addictol.Telemetry.Profile.{counter_lane_count}

unfoldable pub mul64 : ℕ → ℕ → ℕ
mul64 a b = a * b % u64_mod

unfoldable pub mix64 : ℕ → ℕ
unfolding mul64
mix64 value =
    let a = add64 value 0x9E37_79B9_7F4A_7C15 in
    let b = mul64 (bit_xor a (a / 2 ^ 30)) 0xBF58_476D_1CE4_E5B9 in
    let c = mul64 (bit_xor b (b / 2 ^ 27)) 0x94D0_49BB_1331_11EB in bit_xor c (c / 2 ^ 31)

unfoldable pub hash_loop : ℕ → Text → ℕ
unfolding mul64
hash_loop hash [] = hash
hash_loop hash (c ∷ t) = hash_loop (mul64 (bit_xor hash c) 1099511628211) t

unfoldable pub hash_string : Text → ℕ
unfolding mix64 hash_loop
hash_string value = mix64 (hash_loop 1469598103934665603 value)

pub record SamplingState : Type 0 where
  pub sequence : ℕ
  pub thread_salt : ℕ
  pub counter_lane : ℕ

-- The counter of salts and the owners of the lanes, which all threads share.
pub record Lanes : Type 0 where
  pub next_thread_salt : ℕ
  pub owners : ℕ → Bool

-- The first lane from `index` on, of `n`, without an owner, or the count of lanes.
unfoldable pub first_free : (ℕ → Bool) → ℕ → ℕ → ℕ
first_free owners index zero = counter_lane_count
first_free owners index (suc n) =
    let later = first_free owners (index + 1) n in if owners index then later else index

abbrev pub own : ℕ → Bool → (ℕ → Bool) → ℕ → Bool
own lane b owners i = if i == lane then b else owners i

-- The depth of suppression of a thread, and its sampling state, once it has one.
pub record Thread : Type 0 where
  pub suppression_depth : ℕ
  pub sampling : Option SamplingState

-- The constructor of `SamplingState`.
unfoldable pub start_sampling : Lanes → SamplingState × Lanes
unfolding mix64 first_free
start_sampling l =
    let lane = first_free l.owners 0 counter_lane_count in
    (
      record { sequence = 0; thread_salt = mix64 l.next_thread_salt; counter_lane = lane },
      record {
        next_thread_salt = add64 l.next_thread_salt 1;
        owners = if leb counter_lane_count lane then l.owners else own lane true l.owners;
      },
    )

-- The state that the thread has, or a new one.
unfoldable pub thread_sampling_state : Thread → Lanes → SamplingState × Lanes
unfolding start_sampling
thread_sampling_state t l = elim t.sampling [ none ↦ start_sampling l | some s ↦ (s, l) ]

-- The constructor and the destructor of `ScopedOperationProfileSuppression`, and the test.
unfoldable pub suppress : Thread → Thread
suppress t = record t { suppression_depth = add32 t.suppression_depth 1 }

unfoldable pub release_suppression : Thread → Thread
release_suppression t = record t { suppression_depth = sub32 t.suppression_depth 1 }

unfoldable pub operation_profile_suppressed : Thread → Bool
operation_profile_suppressed t = not (t.suppression_depth == 0)

-- The destructor of a thread's `SamplingState`.
unfoldable pub end_sampling : Thread → Lanes → Thread × Lanes
unfolding suppress
end_sampling t l = elim t.sampling [
  | none ↦ (t, l)
  | some s ↦ (
    suppress t,
    if leb counter_lane_count s.counter_lane
        then l
        else record l { owners = own s.counter_lane false l.owners },
  )
]

pub record SamplingDecision : Type 0 where
  pub hash : ℕ
  pub selected : Bool

unfoldable pub should_sample : SamplingState → ℕ → ℕ → ℕ → ℕ → SamplingDecision × SamplingState
unfolding mix64
should_sample t source_salt descriptor_salt generation period =
    let sequence = add64 t.sequence 1 in
    let hash = mix64 (
      bit_xor (bit_xor (bit_xor (bit_xor sequence t.thread_salt) source_salt) descriptor_salt)
        (mix64 generation)) in
    (
      record { hash = hash; selected = leb period 1 || hash % period == 0 },
      record t { sequence = sequence },
    )
