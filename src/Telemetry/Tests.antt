-- ===== src/Telemetry/Tests.antt =====
-- A ring of two entries, and the theorems at it.
use addictol.Base.{◌≡◌, refl, true, false, List, [], ◌∷◌, arith}
use addictol.Base.Text.{bytes}
use addictol.Telemetry.{SeriesSample}
use addictol.Telemetry.Burst.{
  Buffer, sample_of, accept, record_burst, entries_from, drain, activate, enable_drain,
}
use addictol.Telemetry.Burst.Fifo.{IsRing}
use addictol.Telemetry.Burst.Runs.{
  Call, History, record_call, drain_call, activate_call, enable_drain_call, call_on, calls_on,
  IsFifo, calls_on-IsFifo,
}

abbrev no_sample : SeriesSample
no_sample = record { series = []; bucket = []; calls = 0; ticks = 0; bytes = 0; gauge = false }

abbrev empty_buffer : Buffer
empty_buffer = record {
  entries = λ i. no_sample;
  published = 0;
  consumed = 0;
  overflow = 0;
  write = 0;
  read = 0;
  active = false;
  drain_enabled = false;
}

abbrev open_buffer : Buffer
open_buffer = record empty_buffer { active = true; drain_enabled = true }

abbrev empty_history : History
empty_history = record { accepted = []; drained = []; buffer = empty_buffer }

open_buffer-IsRing : IsRing 2 open_buffer
open_buffer-IsRing = record {
  published = refl;
  consumed = refl;
  ordered = omega arith;
  fits = omega arith;
  word = omega arith;
}

-- The third record finds the ring full.
abbrev calls : List Call
calls =
    activate_call
    ∷ enable_drain_call
    ∷ record_call (bytes "load") (bytes "a") 1
    ∷ record_call (bytes "load") (bytes "b") 2
    ∷ record_call (bytes "load") (bytes "c") 3
    ∷ drain_call 1
    ∷ record_call (bytes "load") (bytes "d") 4
    ∷ drain_call 5
    ∷ []

drained_in_order :
    (calls_on 2 empty_history calls).drained
    ≡ sample_of (bytes "load") (bytes "a") 1
      ∷ sample_of (bytes "load") (bytes "b") 2
      ∷ sample_of (bytes "load") (bytes "d") 4
      ∷ []
unfolding calls_on call_on record_burst accept drain entries_from activate enable_drain
drained_in_order = refl

empty-IsFifo : IsFifo 2 empty_history
unfolding entries_from
empty-IsFifo = record {
  ring = record {
    published = refl;
    consumed = refl;
    ordered = omega arith;
    fits = omega arith;
    word = omega arith;
  };
  fifo = refl;
}

calls_on-IsFifo_example : IsFifo 2 (calls_on 2 empty_history calls)
calls_on-IsFifo_example = calls_on-IsFifo 2 empty_history calls empty-IsFifo (omega arith)
