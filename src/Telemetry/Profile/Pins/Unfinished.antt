-- ===== src/Telemetry/Profile/Pins/Unfinished.antt =====
-- What CloseCaptureAdmission counts as unfinished.
use addictol.Base.{
  ℕ, ◌+◌, ◌≤◌, ◌<◌, ◌≡◌, refl, false, u64_mod, count_if-set, length, All, All-get, All-set,
  All-map_imp, arith,
}
use addictol.Telemetry.Profile.{CaptureState}
use addictol.Telemetry.Profile.Capture.{reset_capture_state}
use addictol.Telemetry.Profile.Pins.{
  started, Phase, admitting, Control, idle, is_sampled, System, Step, operation, close,
  pass_mutexes, lock_mutexes, see_closed, see_unpinned, see_unsampled, leave_open, leave_pinned,
  leave_sampled, store_generation, recheck, skip, reset, open_capture, Steps, Move, still_admitted,
}
use addictol.Telemetry.Profile.Pins.Moves.{Good, is_admitting, IsSafe, Move-IsSafe, Move-unsampled}
use addictol.Telemetry.Profile.Pins.Safety.{
  at, step-IsSafe, step-length, steps-IsSafe, started-IsSafe, outside-All,
}

-- Steps in any order, during which the capture stays closed.
pub data ClosedSteps : System → System → Type 0 where
  stay_closed : (s : System) → ClosedSteps s s
  one_more_closed :
      (s t u : System)
      → ClosedSteps s t
      → Step t u
      → u.capture.admission_open ≡ false
      → ClosedSteps s u

-- The capture is closed, and no operation is past the second test and not yet counted.
record IsShut (s : System) : Type 0 where
  shut : s.capture.admission_open ≡ false
  decided : All (λ (p : Phase). is_admitting p ≡ false) s.operations

idle-unadmitting : (gen : ℕ) (p : Phase) → Good idle false gen p → is_admitting p ≡ false
idle-unadmitting gen (admitting g) h = cc (h.2 refl)
idle-unadmitting gen _ h = refl

idle-IsShut :
    (s : System) → s.control ≡ idle → s.capture.admission_open ≡ false → IsSafe s → IsShut s
idle-IsShut s k o safe = record {
  shut = o;
  decided =
      All-map_imp (Good idle false s.capture.generation) (λ (p : Phase). is_admitting p ≡ false)
        s.operations (idle-unadmitting s.capture.generation) (at s idle false k o safe);
}

Move-unadmitting :
    (k : Control) (c : CaptureState) (p p' : Phase) (c' : CaptureState)
    → Move k c p p' c'
    → c.admission_open ≡ false
    → is_admitting p ≡ false
    → is_admitting p' ≡ false
Move-unadmitting k c p p' c' (still_admitted _ g o) h q = cc
Move-unadmitting k c p p' c' _ h q = refl

step-unfinished :
    (s t : System)
    → Step s t
    → length s.operations + 1 < u64_mod
    → IsSafe s
    → IsShut s
    → t.capture.admission_open ≡ false
    → (t.capture.active_sampled ≤ s.capture.active_sampled) × IsShut t
unfolding reset_capture_state
step-unfinished s t (operation _ i p p' c e m) small safe closed o =
    let quiet = All-get (λ (p : Phase). is_admitting p ≡ false) s.operations i p closed.decided e in
    let moved = Move-unsampled s.control s.capture p p' c m quiet in
    let after = (Move-IsSafe s i p p' c small e m safe).sampled in
    let kept = count_if-set is_sampled s.operations i p p' e in
    (
      omega (arith, moved, after, kept, safe.sampled),
      record {
        shut = o;
        decided =
            All-set (λ (p : Phase). is_admitting p ≡ false) s.operations i p' closed.decided
              (Move-unadmitting s.control s.capture p p' c m closed.shut quiet);
      },
    )
step-unfinished s t (close _ l f) small safe closed o =
    (omega arith, record { shut = o; decided = closed.decided })
step-unfinished s t (pass_mutexes _ l free) small safe closed o =
    (omega arith, record { shut = o; decided = closed.decided })
step-unfinished s t (lock_mutexes _ l free) small safe closed o =
    (omega arith, record { shut = o; decided = closed.decided })
step-unfinished s t (see_closed _ l f) small safe closed o =
    (omega arith, record { shut = o; decided = closed.decided })
step-unfinished s t (see_unpinned _ l z) small safe closed o =
    (omega arith, record { shut = o; decided = closed.decided })
step-unfinished s t (see_unsampled _ l z) small safe closed o =
    (omega arith, record { shut = o; decided = closed.decided })
step-unfinished s t (leave_open _ l f) small safe closed o =
    (omega arith, record { shut = o; decided = closed.decided })
step-unfinished s t (leave_pinned _ l z) small safe closed o =
    (omega arith, record { shut = o; decided = closed.decided })
step-unfinished s t (leave_sampled _ l z) small safe closed o =
    (omega arith, record { shut = o; decided = closed.decided })
step-unfinished s t (store_generation _ l) small safe closed o =
    (omega arith, record { shut = o; decided = closed.decided })
step-unfinished s t (recheck _ l z) small safe closed o =
    (omega arith, record { shut = o; decided = closed.decided })
step-unfinished s t (skip _ l z) small safe closed o =
    (omega arith, record { shut = o; decided = closed.decided })
step-unfinished s t (reset _ l) small safe closed o =
    (omega arith, record { shut = o; decided = closed.decided })
step-unfinished s t (open_capture _ l) small safe closed o = cc

closed-unfinished :
    (s t : System)
    → ClosedSteps s t
    → length s.operations + 1 < u64_mod
    → IsSafe s
    → IsShut s
    → (t.capture.active_sampled ≤ s.capture.active_sampled)
      × IsShut t
      × IsSafe t
      × (length t.operations ≡ length s.operations)
closed-unfinished s t (stay_closed _) small safe closed = (omega arith, closed, safe, refl)
closed-unfinished s u (one_more_closed _ t _ steps step o) small safe closed =
    let (fewer, closed', safe', same) = closed-unfinished s t steps small safe closed in
    let room : length t.operations + 1 < u64_mod = omega (arith, small, same) in
    let (fewer', closed'') = step-unfinished t u step room safe' closed' o in
    (
      omega (arith, fewer, fewer'),
      closed'',
      step-IsSafe t u step room safe',
      omega (arith, same, step-length t u step),
    )

-- From a state in which the capture is closed and the controller is outside of
-- CloseCaptureAdmission and StartCapture, in whatever order the steps before came, there are never
-- more active operations than there for as long as the capture stays closed, in whatever order the
-- further steps of the producers and the controller come, if there are fewer than 2 ^ 64 - 1
-- operations.
pub steps-unfinished :
    (n next : ℕ) (t u : System)
    → n + 1 < u64_mod
    → Steps (started n next) t
    → t.control ≡ idle
    → t.capture.admission_open ≡ false
    → ClosedSteps t u
    → u.capture.active_sampled ≤ t.capture.active_sampled
steps-unfinished n next t u small steps k o later =
    let size = outside-All n idle false 0 in
    let (safe, same) =
      steps-IsSafe (started n next) t steps (omega (arith, small, size.3))
        (started-IsSafe n next) in
    let room : length t.operations + 1 < u64_mod = omega (arith, small, same, size.3) in
    (closed-unfinished t u later room safe (idle-IsShut t k o safe)).0
