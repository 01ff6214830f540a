-- ===== src/Telemetry.antt =====
-- Addictol/Include/Telemetry/AdTelemetry.h: samples and buckets of series, and the buffer of bursts.
pub mod Buckets
pub mod Burst
pub mod Profile
pub mod Tests
use addictol.Base.{ℕ, Bool, List, [], ◌∷◌, ◌++◌, length, ltb, if◌then◌else◌, ◌+◌}
use addictol.Base.Text.{Text}

pub record SeriesSample : Type 0 where
  pub series : Text
  pub bucket : Text
  pub calls : ℕ
  pub ticks : ℕ
  pub bytes : ℕ
  pub gauge : Bool
