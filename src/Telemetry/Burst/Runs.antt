-- ===== src/Telemetry/Burst/Runs.antt =====
-- Sequences of calls of the producer and the consumer.
use addictol.Base.{
  append_assoc, ℕ, ◌+◌, ◌≤◌, ◌<◌, ◌≡◌, refl, sym, ap, ◌∙◌, Bool, List, [], ◌∷◌, ◌++◌, u64_mod,
  length, arith, if_both, if◌then◌else◌, not, ◌||◌, leb, sub64, add64-small,
}
use addictol.Base.Text.{Text}
use addictol.Telemetry.{SeriesSample}
use addictol.Telemetry.Burst.{
  Buffer, sample_of, accept, record_burst, drain, activate, enable_drain,
}
use addictol.Telemetry.Burst.Fifo.{IsRing, pending, record_burst-pending, drain-pending}

pub data Call : Type 0 where
  record_call : Text → Text → ℕ → Call
  drain_call : ℕ → Call
  activate_call enable_drain_call : Call

-- The samples that were accepted and those that were drained, in order, and the buffer.
pub record History : Type 0 where
  pub accepted : List SeriesSample
  pub drained : List SeriesSample
  pub buffer : Buffer

module _ (capacity : ℕ) where
  unfoldable pub call_on : History → Call → History
  call_on h (record_call series bucket ticks) =
      let (ok, b) = record_burst capacity series bucket ticks h.buffer in
      record h {
        accepted = h.accepted ++ (if ok then sample_of series bucket ticks ∷ [] else []);
        buffer = b;
      }
  call_on h (drain_call room) =
      let (samples, b) = drain capacity room h.buffer in
      record h { drained = h.drained ++ samples; buffer = b }
  call_on h activate_call = record h { buffer = activate h.buffer }
  call_on h enable_drain_call = record h { buffer = enable_drain h.buffer }

  unfoldable pub calls_on : History → List Call → History
  unfolding call_on
  calls_on h [] = h
  calls_on h (c ∷ calls) = calls_on (call_on h c) calls

  -- What was accepted is what was drained and what is still in the ring.
  pub record IsFifo (h : History) : Type 0 where
    pub ring : IsRing capacity h.buffer
    pub fifo : h.accepted ≡ h.drained ++ pending capacity h.buffer

  record_burst-write :
      (series bucket : Text) (ticks : ℕ) (b : Buffer)
      → b.write + 1 < u64_mod
      → (record_burst capacity series bucket ticks b).1.write ≤ b.write + 1
  unfolding record_burst accept
  record_burst-write series bucket ticks b word =
      if_both (λ (r : Bool × Buffer). r.1.write ≤ b.write + 1) (not b.active) _ _ (omega arith)
        (if_both (λ (r : Bool × Buffer). r.1.write ≤ b.write + 1)
          (leb capacity (sub64 b.write b.consumed)) _ _ (omega arith)
          (omega (arith, add64-small b.write 1 word)))

  drain-write : (room : ℕ) (b : Buffer) → (drain capacity room b).1.write ≡ b.write
  unfolding drain
  drain-write room b =
      if_both (λ (r : List SeriesSample × Buffer). r.1.write ≡ b.write)
        (not b.active || not b.drain_enabled) _ _ refl refl

  call_on-write :
      (h : History) (c : Call)
      → h.buffer.write + 1 < u64_mod
      → (call_on h c).buffer.write ≤ h.buffer.write + 1
  unfolding call_on activate enable_drain
  call_on-write h (record_call series bucket ticks) word =
      record_burst-write series bucket ticks h.buffer word
  call_on-write h (drain_call room) word = omega (arith, drain-write room h.buffer)
  call_on-write h activate_call word = omega arith
  call_on-write h enable_drain_call word = omega arith

  call_on-IsFifo :
      (h : History) (c : Call) → IsFifo h → h.buffer.write + 1 < u64_mod → IsFifo (call_on h c)
  unfolding call_on activate enable_drain
  call_on-IsFifo h (record_call series bucket ticks) f word =
      let (ring, kept) = record_burst-pending capacity series bucket ticks h.buffer f.ring word in
      let ok = (record_burst capacity series bucket ticks h.buffer).0 in
      let more = if ok then sample_of series bucket ticks ∷ [] else [] in
      record {
        ring = ring;
        fifo =
            ap (λ (l : List SeriesSample). l ++ more) f.fifo
            ∙ append_assoc h.drained (pending capacity h.buffer) more
            ∙ ap (λ (l : List SeriesSample). h.drained ++ l) (sym kept);
      }
  call_on-IsFifo h (drain_call room) f word =
      let (ring, kept, short) = drain-pending capacity room h.buffer f.ring in
      let samples = (drain capacity room h.buffer).0 in
      record {
        ring = ring;
        fifo =
            f.fifo
            ∙ ap (λ (l : List SeriesSample). h.drained ++ l) (sym kept)
            ∙ sym (
                append_assoc h.drained samples (pending capacity (drain capacity room h.buffer).1));
      }
  call_on-IsFifo h activate_call f word = record {
    ring = record {
      published = f.ring.published;
      consumed = f.ring.consumed;
      ordered = f.ring.ordered;
      fits = f.ring.fits;
      word = f.ring.word;
    };
    fifo = f.fifo;
  }
  call_on-IsFifo h enable_drain_call f word = record {
    ring = record {
      published = f.ring.published;
      consumed = f.ring.consumed;
      ordered = f.ring.ordered;
      fits = f.ring.fits;
      word = f.ring.word;
    };
    fifo = f.fifo;
  }

  -- A ring of bursts is a bounded queue: after any sequence of calls, the samples that Record
  -- accepted are, in their order, those that Drain gave and those still in the ring, which are no
  -- more than its capacity, if this held before and the count of writes stays below 2 ^ 64.
  pub calls_on-IsFifo :
      (h : History) (calls : List Call)
      → IsFifo h
      → h.buffer.write + length calls < u64_mod
      → IsFifo (calls_on h calls)
  unfolding calls_on
  calls_on-IsFifo h [] f word = f
  calls_on-IsFifo h (c ∷ calls) f word =
      let next = call_on-write h c (omega (arith, word)) in
      calls_on-IsFifo (call_on h c) calls (call_on-IsFifo h c f (omega (arith, word)))
        (omega (arith, next, word))
