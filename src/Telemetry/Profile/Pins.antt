-- ===== src/Telemetry/Profile/Pins.antt =====
-- One CaptureState of Addictol/Source/Telemetry/AdOperationProfile.cpp between its producers (Begin, CapturePin and
-- Publish) and its controller (StartCapture and CloseCaptureAdmission): the single loads and stores
-- of it, in any order of the threads, as if all were sequentially consistent. The stores of
-- ResetCaptureState are one step, and so is the release of all mutexes with what comes before it.
pub mod Moves
pub mod Turns
pub mod Safety
pub mod Unfinished
use addictol.Base.{
  replicate, ℕ, zero, suc, ◌+◌, ◌≡◌, ◌≢◌, Bool, true, false, List, Option, some, get_elem?, set,
  add64, sub64, count_if,
}
use addictol.Telemetry.Profile.{CaptureState}
use addictol.Telemetry.Profile.Create.{empty_capture}
use addictol.Telemetry.Profile.Capture.{stamp, reset_capture_state, open_admission}

-- How far an operation has come, with the generation that it loaded.
pub data Phase : Type 0 where
  -- not begun, or ended
  outside : Phase
  -- admission was open
  entering : Phase
  -- the generation is loaded
  loaded : ℕ → Phase
  -- the capture is pinned
  pinned : ℕ → Phase
  -- and has that generation
  pin_checked : ℕ → Phase
  -- the pin is valid
  inside : ℕ → Phase
  -- the shard's mutex is held
  in_shard : ℕ → Phase
  -- and the capture still has that generation
  in_shard_checked : ℕ → Phase
  -- and admission is still open
  admitting : ℕ → Phase
  -- the operation is counted
  counted : ℕ → Phase
  -- the mutex is released, and the capture still pinned
  admitted : ℕ → Phase
  -- the mutex is held, and a second test failed
  failing : Phase
  -- the token is given out
  holding : ℕ → Phase
  -- pinned, and about to give no token
  refused : Phase

-- The controller: outside of both operations, after the exchange of CloseCaptureAdmission, and in
-- StartCapture with the mutexes of all shards, after each of the first three tests, after the store
-- of the generation, after the second test of the pins, and after the reset.
pub data Control : Type 0 where
  idle closing locked seen_closed seen_unpinned checked stamped resetting emptied : Control

abbrev pub holds_mutexes : Control → Bool
holds_mutexes idle = false
holds_mutexes closing = false
holds_mutexes _ = true

abbrev pub is_pinning : Phase → Bool
is_pinning outside = false
is_pinning entering = false
is_pinning (loaded g) = false
is_pinning (holding g) = false
is_pinning _ = true

abbrev pub is_sampled : Phase → Bool
is_sampled (counted g) = true
is_sampled (admitted g) = true
is_sampled (holding g) = true
is_sampled _ = false

-- Whether the operation holds the mutex of its shard.
abbrev pub holds_shard : Phase → Bool
holds_shard (in_shard g) = true
holds_shard (in_shard_checked g) = true
holds_shard (admitting g) = true
holds_shard (counted g) = true
holds_shard failing = true
holds_shard _ = false

abbrev pub more_begins : CaptureState → CaptureState
more_begins c = record c { active_begins = add64 c.active_begins 1 }

abbrev pub fewer_begins : CaptureState → CaptureState
fewer_begins c = record c { active_begins = sub64 c.active_begins 1 }

abbrev pub more_sampled : CaptureState → CaptureState
more_sampled c = record c { active_sampled = add64 c.active_sampled 1 }

abbrev pub fewer_sampled : CaptureState → CaptureState
fewer_sampled c = record c { active_sampled = sub64 c.active_sampled 1 }

abbrev pub closed : CaptureState → CaptureState
closed c = record c { admission_open = false }

-- What an operation does next to the capture, while the controller is where it is.
pub data Move (k : Control) : CaptureState → Phase → Phase → CaptureState → Type 0 where
  see_open : (c : CaptureState) → c.admission_open ≡ true → Move k c outside entering c
  load_generation : (c : CaptureState) → Move k c entering (loaded c.generation) c
  pin_capture : (c : CaptureState) (g : ℕ) → Move k c (loaded g) (pinned g) (more_begins c)
  same_generation :
      (c : CaptureState) (g : ℕ) → c.generation ≡ g → Move k c (pinned g) (pin_checked g) c
  other_generation : (c : CaptureState) (g : ℕ) → c.generation ≢ g → Move k c (pinned g) refused c
  still_open :
      (c : CaptureState) (g : ℕ) → c.admission_open ≡ true → Move k c (pin_checked g) (inside g) c
  not_open :
      (c : CaptureState) (g : ℕ) → c.admission_open ≡ false → Move k c (pin_checked g) refused c
  -- The shard's mutex is contended.
  give_up : (c : CaptureState) (g : ℕ) → Move k c (inside g) refused c
  lock_shard :
      (c : CaptureState) (g : ℕ) → holds_mutexes k ≡ false → Move k c (inside g) (in_shard g) c
  -- The source has another capture.
  other_capture : (c : CaptureState) (g : ℕ) → Move k c (in_shard g) failing c
  still_generation :
      (c : CaptureState) (g : ℕ) → c.generation ≡ g → Move k c (in_shard g) (in_shard_checked g) c
  not_generation : (c : CaptureState) (g : ℕ) → c.generation ≢ g → Move k c (in_shard g) failing c
  still_admitted :
      (c : CaptureState) (g : ℕ)
      → c.admission_open ≡ true
      → Move k c (in_shard_checked g) (admitting g) c
  not_admitted :
      (c : CaptureState) (g : ℕ)
      → c.admission_open ≡ false
      → Move k c (in_shard_checked g) failing c
  count_sampled : (c : CaptureState) (g : ℕ) → Move k c (admitting g) (counted g) (more_sampled c)
  unlock_shard : (c : CaptureState) (g : ℕ) → Move k c (counted g) (admitted g) c
  unlock_failing : (c : CaptureState) → Move k c failing refused c
  unpin : (c : CaptureState) → Move k c refused outside (fewer_begins c)
  unpin_admitted : (c : CaptureState) (g : ℕ) → Move k c (admitted g) (holding g) (fewer_begins c)
  end_operation : (c : CaptureState) (g : ℕ) → Move k c (holding g) outside (fewer_sampled c)

pub record System : Type 0 where
  pub capture : CaptureState
  pub operations : List Phase
  pub control : Control
  pub next_generation : ℕ

-- The mutexes of the shards are all taken only while no operation holds one.
abbrev pub MutexesFree : System → Type 0
MutexesFree s = count_if holds_shard s.operations ≡ 0

pub data Step : System → System → Type 0 where
  operation :
      (s : System) (i : ℕ) (p p' : Phase) (c : CaptureState)
      → get_elem? s.operations i ≡ some p
      → Move s.control s.capture p p' c
      → Step s (record s { capture = c; operations = set s.operations i p' })
  -- CloseCaptureAdmission of a capture that is closed already returns at once.
  close :
      (s : System)
      → s.control ≡ idle
      → s.capture.admission_open ≡ true
      → Step s (record s { capture = closed s.capture; control = closing })
  pass_mutexes :
      (s : System) → s.control ≡ closing → MutexesFree s → Step s (record s { control = idle })
  lock_mutexes :
      (s : System) → s.control ≡ idle → MutexesFree s → Step s (record s { control = locked })
  see_closed :
      (s : System)
      → s.control ≡ locked
      → s.capture.admission_open ≡ false
      → Step s (record s { control = seen_closed })
  see_unpinned :
      (s : System)
      → s.control ≡ seen_closed
      → s.capture.active_begins ≡ 0
      → Step s (record s { control = seen_unpinned })
  see_unsampled :
      (s : System)
      → s.control ≡ seen_unpinned
      → s.capture.active_sampled ≡ 0
      → Step s (record s { control = checked })
  -- A first test fails, and StartCapture leaves the capture to the others.
  leave_open :
      (s : System)
      → s.control ≡ locked
      → s.capture.admission_open ≡ true
      → Step s (record s { control = idle })
  leave_pinned :
      (s : System)
      → s.control ≡ seen_closed
      → s.capture.active_begins ≢ 0
      → Step s (record s { control = idle })
  leave_sampled :
      (s : System)
      → s.control ≡ seen_unpinned
      → s.capture.active_sampled ≢ 0
      → Step s (record s { control = idle })
  store_generation :
      (s : System)
      → s.control ≡ checked
      → Step s (record s {
        capture = stamp s.next_generation s.capture;
        control = stamped;
        next_generation = add64 s.next_generation 1;
      })
  recheck :
      (s : System)
      → s.control ≡ stamped
      → s.capture.active_begins ≡ 0
      → Step s (record s { control = resetting })
  skip :
      (s : System)
      → s.control ≡ stamped
      → s.capture.active_begins ≢ 0
      → Step s (record s { control = idle })
  -- All stores of ResetCaptureState.
  reset :
      (s : System)
      → s.control ≡ resetting
      → Step s (record s { capture = reset_capture_state s.capture; control = emptied })
  open_capture :
      (s : System)
      → s.control ≡ emptied
      → Step s (record s { capture = open_admission s.capture; control = idle })

pub data Steps : System → System → Type 0 where
  stay : (s : System) → Steps s s
  one_more : (s t u : System) → Steps s t → Step t u → Steps s u

-- Before any call, with `n` operations to come.
abbrev pub started : ℕ → ℕ → System
started n next = record {
  capture = empty_capture;
  operations = replicate n outside;
  control = idle;
  next_generation = next;
}
