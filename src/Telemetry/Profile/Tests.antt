-- ===== src/Telemetry/Profile/Tests.antt =====
-- Runs of an operation profile.
use addictol.Base.{
  ℕ, ◌+◌, ◌-◌, ◌/◌, ◌≤◌, ◌<◌, ◌≡◌, ◌↔◌, refl, Bool, true, false, List, [], ◌∷◌, none, length,
  u64_mod, All, replicate, add64, count_if, arith,
}
use addictol.Base.Text.{bytes}
use addictol.Telemetry.Profile.{
  Descriptor, DurationBucket, Configuration, sampled_admissions, quality_index, capture_state_count,
}
use addictol.Telemetry.Profile.Valid.{
  valid_configuration, valid_source_id, valid_metric_key, valid_buckets, valid_descriptors,
}
use addictol.Base.Text.{text_eq}
use addictol.Telemetry.Profile.Sampling.{Thread}
use addictol.Telemetry.Profile.Create.{create, empty_capture}
use addictol.Telemetry.Profile.Capture.{start_capture, stamp, reset_capture_state}
use addictol.Telemetry.Profile.Ledger.{settled}
use addictol.Telemetry.Profile.Accounts.{live_of}
use addictol.Telemetry.Profile.Balance.{run-balance}
use addictol.Telemetry.Profile.Tallies.{stored, tallied}
use addictol.Telemetry.Profile.Accepted.{accepted_now}
use addictol.Telemetry.Profile.RecordRuns.{run-accepted}
use addictol.Telemetry.Profile.Shards.{IsLayout, create-shards}
use addictol.Telemetry.Profile.Start.{IsUnused, start_capture-free}
use addictol.Telemetry.Profile.Threads.{
  Event, first_sample, thread_end, happen_all, no_threads, IsOwned, happen_all-IsOwned,
}
use addictol.Telemetry.Profile.Runs.{
  ProfileCall, begin_call, publish_call, start_call, close_call, drain_call, series_call,
  profile_run, fresh,
}
use addictol.Telemetry.Profile.Pins.{
  Phase, outside, entering, loaded, pinned, pin_checked, inside, in_shard, in_shard_checked,
  admitting, counted, admitted, holding, see_open, load_generation, pin_capture, same_generation,
  still_open, lock_shard, still_generation, still_admitted, count_sampled, unlock_shard,
  unpin_admitted, end_operation, Move, operation, close, closing, pass_mutexes, lock_mutexes, reset,
  Control, idle, locked, seen_closed, seen_unpinned, checked, stamped, resetting, emptied, System,
  started, see_closed, see_unpinned, see_unsampled, store_generation, recheck, open_capture, Steps,
  stay, one_more, is_pinning, is_sampled,
}
use addictol.Telemetry.Profile.Pins.Safety.{is_using, has_generation, steps-exclusive}
use addictol.Telemetry.Profile.Pins.Unfinished.{
  ClosedSteps, stay_closed, one_more_closed, steps-unfinished,
}

abbrev reads : Descriptor
reads = record {
  series = bytes "io.read";
  label = bytes "Read";
  all_operations_metric_key = bytes "io.reads";
  sampling_period = 1;
  result_group = [];
}

abbrev bounds : List DurationBucket
bounds =
    record { upper_nanoseconds = 0; label = bytes "zero" }
    ∷ record { upper_nanoseconds = u64_mod - 1; label = bytes "overflow" }
    ∷ []

abbrev io : Configuration
io = record {
  source_id = bytes "io";
  source_name = bytes "Input";
  descriptors = reads ∷ [];
  duration_buckets = bounds;
  metadata_labels = [];
  record_capacity = 5;
  publication_shard_count = 2;
}

io-valid : valid_configuration io ≡ true
unfolding valid_configuration valid_source_id valid_metric_key valid_buckets valid_descriptors
    text_eq
io-valid = refl

abbrev thread : Thread
thread = record { suppression_depth = 0; sampling = none }

abbrev ticks : ℕ → ℕ → ℕ
ticks t frequency = t

-- Two operations, one of which ends; a drain and a report.
abbrev calls : List ProfileCall
calls =
    start_call
    ∷ begin_call false 3 true 0 thread
    ∷ begin_call false 4 true 0 thread
    ∷ publish_call 0 false 9 64 0 none
    ∷ close_call
    ∷ drain_call 11
    ∷ series_call 2
    ∷ []

run-balance_example :
    (let w = profile_run ticks (fresh io 1000) calls in
      let capture = w.source.captures 0 in
      (capture.counters (quality_index sampled_admissions) ≡ settled capture + live_of 0 w.live)
      × (capture.active_sampled ≡ live_of 0 w.live)
      × (capture.counters (quality_index sampled_admissions) ≤ length calls))
run-balance_example = run-balance ticks io 1000 calls 0 (omega arith)

run-accepted_example :
    (let w = profile_run ticks (fresh io 1000) calls in
      accepted_now w.source
      ≡ stored w.source.shards + tallied w.source.interval_buckets + w.reported)
run-accepted_example = run-accepted ticks io 1000 calls io-valid (omega arith) (omega arith)

create-shards_example :
    (let shards = (create io 1000).shards in
      (length shards ≡ 2) × (length shards ≤ 16) × (0 < 5 / 2) × IsLayout (5 / 2) 0 shards 5)
create-shards_example = create-shards io 1000 io-valid (omega arith)

create-valid : (create io 1000).valid ≡ true
unfolding create valid_configuration valid_source_id valid_metric_key valid_buckets
    valid_descriptors text_eq
create-valid = refl

start_capture-free_example :
    ((start_capture 1 (create io 1000)).0 ≡ true)
    ↔ ((i : ℕ) × (i < capture_state_count) × IsUnused ((create io 1000).captures i))
start_capture-free_example = start_capture-free 1 (create io 1000) create-valid

-- The second thread takes the next lane, and the first gives its lane back.
abbrev events : List Event
events = first_sample 0 ∷ first_sample 0 ∷ thread_end 1 ∷ first_sample 0 ∷ []

happen_all-IsOwned_example : IsOwned (happen_all no_threads events)
happen_all-IsOwned_example = happen_all-IsOwned events

-- StartCapture before the reset of the capture.
abbrev in_reset : System
in_reset = record {
  capture = stamp 7 empty_capture;
  operations = replicate 1 outside;
  control = resetting;
  next_generation = add64 7 1;
}

-- The capture that was never started, with the controller in StartCapture.
abbrev unused_at : Control → System
unused_at k = record (started 1 7) { control = k }

to_checked : Steps (started 1 7) (unused_at checked)
to_checked =
    one_more _ _ _
      (one_more _ _ _
        (one_more _ _ _ (one_more _ _ _ (stay (started 1 7)) (lock_mutexes (started 1 7) refl refl))
          (see_closed (unused_at locked) refl refl))
        (see_unpinned (unused_at seen_closed) refl refl))
      (see_unsampled (unused_at seen_unpinned) refl refl)

to_reset : Steps (started 1 7) in_reset
to_reset =
    one_more _ _ _ (one_more _ _ _ to_checked (store_generation (unused_at checked) refl))
      (recheck (record in_reset { control = stamped }) refl refl)

steps-exclusive_example :
    (true ≡ true → All (λ (p : Phase). is_using p ≡ false) in_reset.operations)
    × All (λ (p : Phase). has_generation in_reset.capture.generation p ≡ true) in_reset.operations
    × (in_reset.capture.active_begins ≡ count_if is_pinning in_reset.operations)
    × (in_reset.capture.active_sampled ≡ count_if is_sampled in_reset.operations)
steps-exclusive_example = steps-exclusive 1 7 in_reset (omega arith) to_reset

-- The capture after the start, and the system with its one operation at a phase.
abbrev at_phase : ℕ → ℕ → Phase → Bool → Control → System
at_phase begins sampled p admission k = record {
  capture = record (stamp 7 empty_capture) {
    active_begins = begins;
    active_sampled = sampled;
    admission_open = admission;
  };
  operations = p ∷ [];
  control = k;
  next_generation = add64 7 1;
}

open_now : Steps (started 1 7) (at_phase 0 0 outside true idle)
unfolding reset_capture_state
open_now =
    one_more _ _ _ (one_more _ _ _ to_reset (reset in_reset refl))
      (open_capture (record in_reset { control = emptied }) refl)

move :
    (begins sampled begins' sampled' : ℕ) (p p' : Phase) (admission : Bool) (k : Control)
    → Move k
        (at_phase begins sampled p admission k).capture
        p
        p'
        (at_phase begins' sampled' p' admission k).capture
    → Steps (started 1 7) (at_phase begins sampled p admission k)
    → Steps (started 1 7) (at_phase begins' sampled' p' admission k)
move begins sampled begins' sampled' p p' admission k m steps =
    one_more _ _ _ steps (operation (at_phase begins sampled p admission k) 0 p p' _ refl m)

-- An operation has its token when admission closes.
held : Steps (started 1 7) (at_phase 0 1 (holding 7) false idle)
held =
    let inside_now = move 1 0 1 0 (pin_checked 7) (inside 7) true idle (still_open _ 7 refl) (
      move 1 0 1 0 (pinned 7) (pin_checked 7) true idle (same_generation _ 7 refl) (
        move 0 0 1 0 (loaded 7) (pinned 7) true idle (pin_capture _ 7) (
          move 0 0 0 0 entering (loaded 7) true idle (load_generation _)
            (move 0 0 0 0 outside entering true idle (see_open _ refl) open_now)))) in
    let in_mutex =
      move 1 0 1 0 (in_shard_checked 7) (admitting 7) true idle (still_admitted _ 7 refl) (
        move 1 0 1 0 (in_shard 7) (in_shard_checked 7) true idle (still_generation _ 7 refl)
          (move 1 0 1 0 (inside 7) (in_shard 7) true idle (lock_shard _ 7 refl) inside_now)) in
    let token = move 1 1 0 1 (admitted 7) (holding 7) true idle (unpin_admitted _ 7) (
      move 1 1 1 1 (counted 7) (admitted 7) true idle (unlock_shard _ 7)
        (move 1 0 1 1 (admitting 7) (counted 7) true idle (count_sampled _ 7) in_mutex)) in
    one_more _ _ _ (one_more _ _ _ token (close (at_phase 0 1 (holding 7) true idle) refl refl))
      (pass_mutexes (at_phase 0 1 (holding 7) false closing) refl refl)

-- The operation ends, and a second StartCapture tests the capture.
closed_steps :
    ClosedSteps (at_phase 0 1 (holding 7) false idle) (at_phase 0 0 outside false seen_closed)
closed_steps =
    one_more_closed _ _ _
      (one_more_closed _ _ _
        (one_more_closed _ _ _ (stay_closed (at_phase 0 1 (holding 7) false idle))
          (operation (at_phase 0 1 (holding 7) false idle) 0 (holding 7) outside _ refl
            (end_operation _ 7))
          refl)
        (lock_mutexes (at_phase 0 0 outside false idle) refl refl) refl)
      (see_closed (at_phase 0 0 outside false locked) refl refl) refl

steps-unfinished_example :
    (at_phase 0 0 outside false seen_closed).capture.active_sampled
    ≤ (at_phase 0 1 (holding 7) false idle).capture.active_sampled
steps-unfinished_example =
    steps-unfinished 1 7 (at_phase 0 1 (holding 7) false idle)
      (at_phase 0 0 outside false seen_closed) (omega arith) held refl refl closed_steps
