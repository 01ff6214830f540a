-- ===== src/Telemetry/Profile/Capture.antt =====
-- StartCapture, CloseCaptureAdmission and ResetCaptureState of Addictol/Source/Telemetry/AdOperationProfile.cpp, each as
-- one step with the mutexes of all shards held.
use addictol.Base.{
  ℕ, zero, suc, ◌+◌, Bool, true, false, not, map, Option, none, some, ◌==◌, ◌&&◌, add64, replicate,
  length, update_at, if◌then◌else◌,
}
use addictol.Telemetry.Profile.{
  unfinished_operations, quality_index, Source, CaptureState, capture_state_count,
}
use addictol.Telemetry.Profile.Reader.{empty_shard, cleared_buckets}

unfoldable pub is_free : CaptureState → Bool
is_free c = not c.admission_open && (c.active_begins == 0) && (c.active_sampled == 0)

-- A free candidate gets the next generation, and is taken if no thread has pinned it.
abbrev pub stamp : ℕ → CaptureState → CaptureState
stamp generation c = record c { generation = generation }

pub record Search : Type 0 where
  pub taken : Option ℕ
  pub captures : ℕ → CaptureState
  pub next_generation : ℕ

-- The loop over the captures from `index` on, of `n`.
unfoldable pub find_capture : ℕ → (ℕ → CaptureState) → ℕ → ℕ → Search
unfolding is_free
find_capture next captures index zero = record {
  taken = none;
  captures = captures;
  next_generation = next;
}
find_capture next captures index (suc n) =
    let skipped = find_capture next captures (index + 1) n in
    let stamped = update_at captures index (stamp next (captures index)) in
    let pinned = find_capture (add64 next 1) stamped (index + 1) n in
    if not (is_free (captures index))
    then skipped
    else if not ((captures index).active_begins == 0)
    then pinned
    else record { taken = some index; captures = stamped; next_generation = add64 next 1 }

unfoldable pub reset_capture_state : CaptureState → CaptureState
reset_capture_state c = record c { active_sampled = 0; counters = λ i. 0; admission_open = false }

abbrev pub open_admission : CaptureState → CaptureState
open_admission c = record c { admission_open = true }

unfoldable pub start_on : ℕ → Source → Source
unfolding reset_capture_state
start_on c s = record s {
  captures = update_at s.captures c (open_admission (reset_capture_state (s.captures c)));
  shards = map empty_shard s.shards;
  drain_counts = replicate (length s.shards) 0;
  interval_buckets = cleared_buckets s.interval_buckets;
  current_capture = some c;
}

-- The end of `StartCapture`, with the capture that was taken.
unfoldable pub start_found : Option ℕ → Source → Bool × Source
unfolding start_on
start_found none s = (false, s)
start_found (some c) s = (true, start_on c s)

-- `StartCapture` with the next generation; what it answers, the generation and the source after it.
unfoldable pub start_capture : ℕ → Source → Bool × ℕ × Source
unfolding find_capture start_found
start_capture next s =
    let found = find_capture next s.captures 0 capture_state_count in
    let started = start_found found.taken (record s { captures = found.captures }) in
    if not s.valid then (false, next, s) else (started.0, found.next_generation, started.1)

abbrev pub close_admission : CaptureState → CaptureState
close_admission c = record c {
  admission_open = false;
  counters = update_at c.counters (quality_index unfinished_operations) c.active_sampled;
}

-- `CloseCaptureAdmission` of the current capture.
unfoldable pub close_on : Option ℕ → Source → ℕ × Source
close_on none s = (0, s)
close_on (some c) s =
    if not (s.captures c).admission_open
    then ((s.captures c).counters (quality_index unfinished_operations), s)
    else (
      (s.captures c).active_sampled,
      record s { captures = update_at s.captures c (close_admission (s.captures c)) },
    )

unfoldable pub close_capture_admission : Source → ℕ × Source
unfolding close_on
close_capture_admission s = close_on s.current_capture s
