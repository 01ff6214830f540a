-- ===== src/Telemetry/Profile/Runs.antt =====
-- Sequences of calls of an OperationProfileSource by its producers and its reader. The tokens that are not
-- ended are kept in a list, from which a call of End takes one.
use addictol.Base.{
  get_elem?, remove_at, ℕ, ◌+◌, Bool, false, List, [], ◌∷◌, Option, none, some, if◌then◌else◌,
}
use addictol.Telemetry.{SeriesSample}
use addictol.Telemetry.Profile.{Configuration, Source, Token}
use addictol.Telemetry.Profile.Create.{create}
use addictol.Telemetry.Profile.Sampling.{Thread, Lanes}
use addictol.Telemetry.Profile.Producer.{begin, publish}
use addictol.Telemetry.Profile.Reader.{drain_metrics, drain_series}
use addictol.Telemetry.Profile.Capture.{start_capture, close_capture_admission}

pub data ProfileCall : Type 0 where
  -- `Begin`: whether the shard is contended, the clock, whether the lifetime is measured, the
  -- descriptor and the thread.
  begin_call : Bool → ℕ → Bool → ℕ → Thread → ProfileCall
  -- `Publish` of the live token at a position.
  publish_call : ℕ → Bool → ℕ → ℕ → ℕ → Option ℕ → ProfileCall
  start_call close_call : ProfileCall
  drain_call series_call : ℕ → ProfileCall

-- `reported` counts the calls in the samples that were drained since the capture started.
pub record ProfileWorld : Type 0 where
  pub source : Source
  pub next_generation : ℕ
  pub lanes : Lanes
  pub live : List Token
  pub reported : ℕ

-- A new source, and no thread with a sampling state.
abbrev pub fresh : Configuration → ℕ → ProfileWorld
fresh a frequency = record {
  source = create a frequency;
  next_generation = 1;
  lanes = record { next_thread_salt = 1; owners = λ i. false };
  live = [];
  reported = 0;
}

abbrev pub live_token : Option Token → List Token → List Token
live_token none ts = ts
live_token (some t) ts = t ∷ ts

abbrev pub calls_of : List SeriesSample → ℕ
calls_of [] = 0
calls_of (x ∷ xs) = x.calls + calls_of xs

module _ (nanoseconds : ℕ → ℕ → ℕ) where
  unfoldable pub profile_step : ProfileWorld → ProfileCall → ProfileWorld
  profile_step w (begin_call contended now measure d t) =
      let b = begin contended now measure d t w.lanes w.source in
      record w { source = b.source; lanes = b.lanes; live = live_token b.token w.live }
  profile_step w (publish_call i contended now size result elapsed) = record w {
    source = publish contended now (get_elem? w.live i) size result elapsed w.source;
    live = remove_at w.live i;
  }
  profile_step w start_call =
      let (ok, next, s) = start_capture w.next_generation w.source in
      record w { source = s; next_generation = next; reported = if ok then 0 else w.reported }
  profile_step w close_call =
      let (unfinished, s) = close_capture_admission w.source in record w { source = s }
  profile_step w (drain_call room) =
      let (values, s) = drain_metrics nanoseconds room w.source in record w { source = s }
  profile_step w (series_call room) =
      let (samples, s) = drain_series room w.source in
      record w { source = s; reported = w.reported + calls_of samples }

  unfoldable pub profile_run : ProfileWorld → List ProfileCall → ProfileWorld
  unfolding profile_step
  profile_run w [] = w
  profile_run w (c ∷ calls) = profile_run (profile_step w c) calls
