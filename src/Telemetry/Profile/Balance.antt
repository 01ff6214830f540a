-- ===== src/Telemetry/Profile/Balance.antt =====
-- The ledger of a capture over sequences of calls.
use addictol.Base.{
  ℕ, ◌+◌, ◌≤◌, ◌<◌, ◌≡◌, refl, subst, Bool, not, List, [], ◌∷◌, ◌==◌, ◌||◌, u64_mod, length,
  if_both, arith,
}
use addictol.Telemetry.{SeriesSample}
use addictol.Telemetry.Profile.Create.{create, blank_source}
use addictol.Telemetry.Profile.Valid.{valid_configuration}
use addictol.Telemetry.Profile.{Configuration, quality_index, sampled_admissions, Source, Token}
use addictol.Telemetry.Profile.Producer.{begin}
use addictol.Telemetry.Profile.Reader.{drain_metrics, drain_series, collect, take_shards}
use addictol.Telemetry.Profile.Capture.{close_capture_admission}
use addictol.Telemetry.Profile.Ledger.{settled}
use addictol.Telemetry.Profile.Effects.{begin-Effect}
use addictol.Telemetry.Profile.Runs.{
  ProfileWorld, ProfileCall, begin_call, publish_call, start_call, close_call, drain_call,
  series_call, profile_step, profile_run, fresh,
}
use addictol.Telemetry.Profile.Accounts.{
  live_of, IsAccounted, weaken, Effect-IsAccounted, publish-IsAccounted,
}
use addictol.Telemetry.Profile.Starts.{start_capture-IsAccounted, close-IsAccounted}

drain_series-IsAccounted :
    (most room : ℕ) (live : List Token) (s : Source)
    → IsAccounted most live s.captures
    → IsAccounted most live (drain_series room s).1.captures
unfolding drain_series
drain_series-IsAccounted most room live s h =
    if_both (λ (r : List SeriesSample × Source). IsAccounted most live r.1.captures)
      (not (room == length s.interval_buckets)) _ _ h h

pub create-IsAccounted :
    (a : Configuration) (frequency : ℕ) → IsAccounted 0 [] (create a frequency).captures
unfolding create
create-IsAccounted a frequency =
    let empty : IsAccounted 0 [] (blank_source frequency).captures =
      λ c. record { active = refl; balance = refl; bounded = omega arith } in
    if_both (λ (s : Source). IsAccounted 0 [] s.captures)
      (not (valid_configuration a) || frequency == 0) _ _ empty empty

module _ (nanoseconds : ℕ → ℕ → ℕ) where
  drain_metrics-IsAccounted :
      (most room : ℕ) (live : List Token) (s : Source)
      → IsAccounted most live s.captures
      → IsAccounted most live (drain_metrics nanoseconds room s).1.captures
  unfolding drain_metrics collect take_shards
  drain_metrics-IsAccounted most room live s h =
      if_both (λ (r : List (ℕ × Bool) × Source). IsAccounted most live r.1.captures)
        (not (room == length s.schema)) _ _ h h

  pub step-IsAccounted :
      (most : ℕ) (w : ProfileWorld) (c : ProfileCall)
      → most + 1 < u64_mod
      → IsAccounted most w.live w.source.captures
      → (let w' = profile_step nanoseconds w c in IsAccounted (most + 1) w'.live w'.source.captures)
  unfolding profile_step close_capture_admission
  step-IsAccounted most w (begin_call contended now measure d t) small h =
      Effect-IsAccounted most w.live (begin contended now measure d t w.lanes w.source).token
        w.source.captures (begin contended now measure d t w.lanes w.source).source.captures small
        (begin-Effect contended now measure d t w.lanes w.source) h
  step-IsAccounted most w (publish_call i contended now size result elapsed) small h =
      publish-IsAccounted most w.live i contended now size result elapsed w.source small h
  step-IsAccounted most w start_call small h =
      weaken most w.live _ (start_capture-IsAccounted most w.next_generation w.live w.source h)
  step-IsAccounted most w close_call small h =
      weaken most w.live _ (close-IsAccounted most w.live w.source.current_capture w.source h)
  step-IsAccounted most w (drain_call room) small h =
      weaken most w.live _ (drain_metrics-IsAccounted most room w.live w.source h)
  step-IsAccounted most w (series_call room) small h =
      weaken most w.live _ (drain_series-IsAccounted most room w.live w.source h)

  pub run-IsAccounted :
      (most : ℕ) (w : ProfileWorld) (calls : List ProfileCall)
      → most + length calls < u64_mod
      → IsAccounted most w.live w.source.captures
      → (let w' = profile_run nanoseconds w calls in
          IsAccounted (most + length calls) w'.live w'.source.captures)
  unfolding profile_run
  run-IsAccounted most w [] small h =
      subst (λ k. IsAccounted k w.live w.source.captures) (omega arith) h
  run-IsAccounted most w (c ∷ calls) small h =
      subst
        (λ k.
          IsAccounted k (profile_run nanoseconds w (c ∷ calls)).live
            (profile_run nanoseconds w (c ∷ calls)).source.captures)
        (omega arith)
        (run-IsAccounted (most + 1) (profile_step nanoseconds w c) calls (omega (arith, small))
          (step-IsAccounted most w c (omega (arith, small)) h))

  -- After fewer than 2 ^ 64 calls of a new source, whatever they are, each of its captures has
  -- sampled exactly the operations that it accepted, dropped or refused and those that still have a
  -- live token, and its count of active operations is that of the live tokens.
  pub run-balance :
      (a : Configuration) (frequency : ℕ) (calls : List ProfileCall) (c : ℕ)
      → length calls < u64_mod
      → (let w = profile_run nanoseconds (fresh a frequency) calls in
          let capture = w.source.captures c in
          (capture.counters (quality_index sampled_admissions) ≡ settled capture + live_of c w.live)
          × (capture.active_sampled ≡ live_of c w.live)
          × (capture.counters (quality_index sampled_admissions) ≤ length calls))
  run-balance a frequency calls c small =
      let b =
        run-IsAccounted 0 (fresh a frequency) calls (omega (arith, small))
          (create-IsAccounted a frequency) c in
      (b.balance, b.active, omega (arith, b.bounded))
