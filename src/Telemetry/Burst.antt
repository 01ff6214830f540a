-- ===== src/Telemetry/Burst.antt =====
-- SingleProducerBurstSeriesBuffer of Addictol/Include/Telemetry/AdTelemetry.h: a ring of entries between one
-- producer and one consumer. The calls are taken one after the other; the check of the
-- producer's thread in debug builds is left out.
pub mod Slots
pub mod Fifo
pub mod Runs
use addictol.Base.{
  ℕ, zero, suc, ◌+◌, ◌%◌, min, Bool, true, false, not, List, [], ◌∷◌, ◌==◌, leb, ◌&&◌, ◌||◌, add64,
  sub64, if◌then◌else◌,
}
use addictol.Base.Text.{Text}
use addictol.Telemetry.{SeriesSample}

pub record Buffer : Type 0 where
  pub entries : ℕ → SeriesSample
  pub published : ℕ
  pub consumed : ℕ
  pub overflow : ℕ
  pub write : ℕ
  pub read : ℕ
  pub active : Bool
  pub drain_enabled : Bool

unfoldable pub activate : Buffer → Buffer
activate b = record b { active = true }

unfoldable pub enable_drain : Buffer → Buffer
enable_drain b = record b { drain_enabled = true }

abbrev pub sample_of : Text → Text → ℕ → SeriesSample
sample_of series bucket ticks = record {
  series = series;
  bucket = bucket;
  calls = 1;
  ticks = ticks;
  bytes = 0;
  gauge = false;
}

abbrev pub put_entry : (ℕ → SeriesSample) → ℕ → SeriesSample → ℕ → SeriesSample
put_entry entries i sample j = if j == i then sample else entries j

module _ (capacity : ℕ) where
  unfoldable pub accept : SeriesSample → Buffer → Buffer
  accept sample b = record b {
    entries = put_entry b.entries (b.write % capacity) sample;
    write = add64 b.write 1;
    published = add64 b.write 1;
  }

  -- `Record`
  unfoldable pub record_burst : Text → Text → ℕ → Buffer → Bool × Buffer
  unfolding accept
  record_burst series bucket ticks b =
      if not b.active
      then (false, b)
      else if leb capacity (sub64 b.write b.consumed)
      then (false, record b { overflow = add64 b.overflow 1 })
      else (true, accept (sample_of series bucket ticks) b)

  -- The entries from position `at` on.
  unfoldable pub entries_from : (ℕ → SeriesSample) → ℕ → ℕ → List SeriesSample
  entries_from entries at zero = []
  entries_from entries at (suc n) = entries (at % capacity) ∷ entries_from entries (add64 at 1) n

  -- `Drain` into `room` samples.
  unfoldable pub drain : ℕ → Buffer → List SeriesSample × Buffer
  drain room b =
      let count = min room (sub64 b.published b.read) in
      if not b.active || not b.drain_enabled then ([], b) else (
        entries_from b.entries b.read count,
        record b {
          read = add64 b.read count;
          consumed = if count == 0 then b.consumed else add64 b.read count;
        },
      )

-- The count, and whether there is one.
unfoldable pub drain_overflow : Buffer → (ℕ × Bool) × Buffer
drain_overflow b =
    if not b.active || not b.drain_enabled
    then ((0, false), b)
    else ((b.overflow, true), record b { overflow = 0 })
