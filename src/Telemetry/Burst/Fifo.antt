-- ===== src/Telemetry/Burst/Fifo.antt =====
-- The ring is a queue.
use addictol.Base.{
  append_nil, ℕ, suc, ◌+◌, ◌-◌, ◌%◌, ◌≤◌, ◌<◌, min, ◌≡◌, refl, sym, ap, ◌∙◌, inl, inr, Bool, not,
  List, [], ◌∷◌, ◌++◌, ◌==◌, leb, ◌||◌, add64, add64-small, sub64, u64_mod, if_both, length, arith,
  if◌then◌else◌, Bool-cases,
}
use addictol.Base.Text.{Text}
use addictol.Telemetry.{SeriesSample}
use addictol.Telemetry.Burst.{
  Buffer, sample_of, put_entry, accept, record_burst, entries_from, drain,
}
use addictol.Telemetry.Burst.Slots.{entries_from-snoc, entries_from-split, length-entries_from}

-- The positions agree between the threads, and no more entries are pending than fit.
pub record IsRing (capacity : ℕ) (b : Buffer) : Type 0 where
  pub published : b.published ≡ b.write
  pub consumed : b.consumed ≡ b.read
  pub ordered : b.read ≤ b.write
  pub fits : b.write ≤ b.read + capacity
  pub word : b.write < u64_mod

module _ (capacity : ℕ) where
  -- What was recorded and not drained, oldest first.
  abbrev pub pending : Buffer → List SeriesSample
  pending b = entries_from capacity b.entries b.read (b.write - b.read)

  accept-IsRing :
      (sample : SeriesSample) (b : Buffer)
      → IsRing capacity b
      → b.write + 1 < u64_mod
      → b.write - b.read < capacity
      → IsRing capacity (accept capacity sample b)
  unfolding accept
  accept-IsRing sample b ring word room =
      let e : add64 b.write 1 ≡ b.write + 1 = add64-small b.write 1 word in
      record {
        published = refl;
        consumed = ring.consumed;
        ordered = omega (arith, e, ring.ordered);
        fits = omega (arith, e, ring.ordered, room);
        word = omega (arith, e, word);
      }

  accept-pending :
      (sample : SeriesSample) (b : Buffer)
      → IsRing capacity b
      → b.write + 1 < u64_mod
      → b.write - b.read < capacity
      → pending (accept capacity sample b) ≡ pending b ++ sample ∷ []
  unfolding accept
  accept-pending sample b ring word room =
      let n = b.write - b.read in
      let e : add64 b.write 1 - b.read ≡ suc n =
        omega (arith, add64-small b.write 1 word, ring.ordered) in
      let at : b.write ≡ b.read + n = omega (arith, ring.ordered) in
      ap (entries_from capacity (put_entry b.entries (b.write % capacity) sample) b.read) e
      ∙ ap
          (λ (k : ℕ).
            entries_from capacity (put_entry b.entries (k % capacity) sample) b.read (suc n))
          at
      ∙ entries_from-snoc capacity b.entries b.read n sample room
          (omega (arith, ring.ordered, word))

  -- What a call of Record promises, by its answer and the buffer after it.
  abbrev pub Recorded : SeriesSample → Buffer → Bool × Buffer → Type 0
  Recorded sample b r =
      IsRing capacity r.1 × (pending r.1 ≡ pending b ++ (if r.0 then sample ∷ [] else []))

  -- Record keeps the ring well formed and adds its sample behind the pending ones exactly if it
  -- answers true, if the ring is well formed and the count of writes is below 2 ^ 64 - 1.
  pub record_burst-pending :
      (series bucket : Text) (ticks : ℕ) (b : Buffer)
      → IsRing capacity b
      → b.write + 1 < u64_mod
      → IsRing capacity (record_burst capacity series bucket ticks b).1
        × (pending (record_burst capacity series bucket ticks b).1
            ≡ pending b
              ++ (if (record_burst capacity series bucket ticks b).0
                  then sample_of series bucket ticks ∷ []
                  else []))
  unfolding record_burst
  record_burst-pending series bucket ticks b ring word =
      let sample = sample_of series bucket ticks in
      let kept = sym (append_nil (pending b)) in
      if_both (Recorded sample b) (not b.active) _ _ (ring, kept)
        (elim (Bool-cases (leb capacity (sub64 b.write b.consumed))) [
          | inl full ↦ rw full (
            record {
              published = ring.published;
              consumed = ring.consumed;
              ordered = ring.ordered;
              fits = ring.fits;
              word = ring.word;
            },
            kept,
          )
          | inr free ↦
              let room : b.write - b.read < capacity =
                ground (arith, free, ring.consumed, ring.ordered, ring.word) in
              rw free
                (accept-IsRing sample b ring word room, accept-pending sample b ring word room)
        ])

  -- The buffer after `count` entries were read.
  abbrev advanced : ℕ → Buffer → Buffer
  advanced count b = record b {
    read = add64 b.read count;
    consumed = if count == 0 then b.consumed else add64 b.read count;
  }

  advanced-IsRing :
      (count : ℕ) (b : Buffer)
      → IsRing capacity b
      → count ≤ b.write - b.read
      → IsRing capacity (advanced count b)
  advanced-IsRing count b ring less =
      let e : add64 b.read count ≡ b.read + count =
        add64-small b.read count (omega (arith, less, ring.ordered, ring.word)) in
      record {
        published = ring.published;
        consumed = ground (arith, e, ring.consumed);
        ordered = omega (arith, e, less, ring.ordered);
        fits = omega (arith, e, ring.fits);
        word = ring.word;
      }

  advanced-pending :
      (count : ℕ) (b : Buffer)
      → IsRing capacity b
      → count ≤ b.write - b.read
      → entries_from capacity b.entries b.read count ++ pending (advanced count b) ≡ pending b
  advanced-pending count b ring less =
      let e : add64 b.read count ≡ b.read + count =
        add64-small b.read count (omega (arith, less, ring.ordered, ring.word)) in
      let rest = b.write - (b.read + count) in
      let all : b.write - b.read ≡ count + rest = omega (arith, less, ring.ordered) in
      ap
        (λ (k : ℕ).
          entries_from capacity b.entries b.read count
          ++ entries_from capacity b.entries k (b.write - k))
        e
      ∙ sym (
          ap (entries_from capacity b.entries b.read) all
          ∙ entries_from-split capacity b.entries b.read count rest
              (omega (arith, less, ring.ordered, ring.word)))

  -- What a call of Drain promises, by the samples it gives and the buffer after it.
  abbrev Drained : ℕ → Buffer → List SeriesSample × Buffer → Type 0
  Drained room b r = IsRing capacity r.1 × (r.0 ++ pending r.1 ≡ pending b) × (length r.0 ≤ room)

  -- Drain keeps a well-formed ring so, gives no more samples than there is room for, and these with
  -- the samples that it leaves are the pending ones in their order.
  pub drain-pending :
      (room : ℕ) (b : Buffer)
      → IsRing capacity b
      → IsRing capacity (drain capacity room b).1
        × ((drain capacity room b).0 ++ pending (drain capacity room b).1 ≡ pending b)
        × (length (drain capacity room b).0 ≤ room)
  unfolding drain
  drain-pending room b ring =
      let count = min room (sub64 b.published b.read) in
      let less : count ≤ b.write - b.read =
        omega (arith, ring.published, ring.ordered, ring.word) in
      let short : count ≤ room = omega arith in
      let size = length-entries_from capacity b.entries b.read count in
      if_both (Drained room b) (not b.active || not b.drain_enabled) _ _ (ring, refl, omega arith)
        (
          advanced-IsRing count b ring less,
          advanced-pending count b ring less,
          omega (arith, size, short),
        )
