-- ===== src/Telemetry/Burst/Slots.antt =====
-- The entries of the ring at consecutive positions.
use addictol.Base.{
  ℕ, zero, suc, ◌+◌, ◌-◌, ◌%◌, ◌≤◌, ◌<◌, ◌≡◌, ◌≢◌, refl, sym, ap, ◌∙◌, inl, inr, false, List, [],
  ◌∷◌, ◌++◌, ◌==◌, leb, add64, add64-small, ==_refl, u64_mod, length, arith, Bool-cases,
}
use native.Mathlib.Nat.{mod-add-mod, mod-eq_of_lt, mod-eq-sub-mod, mod-lt}
use addictol.Telemetry.{SeriesSample}
use addictol.Telemetry.Burst.{put_entry, entries_from}

-- No two positions less than `c` apart fall on one slot.
slots_differ : (c r d : ℕ) → 0 < d → d < c → (r + d) % c ≢ r % c
slots_differ c r d pos small same =
    let below = mod-lt r {m = c} (omega arith) in
    let wrapped : (r % c + d) % c ≡ r % c = mod-add-mod r c d ∙ same in
    elim (Bool-cases (leb c (r % c + d))) [
      | inl h ↦
          let e = mod-eq-sub-mod {n = r % c + d} {m = c} (ground (arith, h)) in
          let f = mod-eq_of_lt {n = r % c + d - c} {m = c} (ground (arith, h)) in ground (arith, h)
      | inr h ↦ let f = mod-eq_of_lt {n = r % c + d} {m = c} (ground (arith, h)) in ground arith
    ]

module _ (capacity : ℕ) where
  entries_from-last :
      (entries : ℕ → SeriesSample) (at n : ℕ)
      → at + n < u64_mod
      → entries_from capacity entries at (suc n)
        ≡ entries_from capacity entries at n ++ entries ((at + n) % capacity) ∷ []
  unfolding entries_from
  entries_from-last entries at zero word = ap (λ (k : ℕ). entries (k % capacity) ∷ []) (omega arith)
  entries_from-last entries at (suc n) word =
      let ih = entries_from-last entries (at + 1) n (omega (arith, word)) in
      let e : at + 1 + n ≡ at + suc n = omega arith in
      let step : add64 at 1 ≡ at + 1 = add64-small at 1 (omega (arith, word)) in
      ap (λ (k : ℕ). entries (at % capacity) ∷ entries_from capacity entries k (suc n)) step
      ∙ ap (λ (xs : List SeriesSample). entries (at % capacity) ∷ xs) ih
      ∙ ap
          (λ (k : ℕ).
            entries (at % capacity)
            ∷ (entries_from capacity entries (at + 1) n ++ entries (k % capacity) ∷ []))
          e
      ∙ ap
          (λ (k : ℕ).
            entries (at % capacity)
            ∷ (entries_from capacity entries k n ++ entries ((at + suc n) % capacity) ∷ []))
          (sym step)

  entries_from-other :
      (entries : ℕ → SeriesSample) (sample : SeriesSample) (w at n : ℕ)
      → at + n ≤ w
      → w < at + capacity
      → w < u64_mod
      → entries_from capacity (put_entry entries (w % capacity) sample) at n
        ≡ entries_from capacity entries at n
  unfolding entries_from
  entries_from-other entries sample w at zero below room word = refl
  entries_from-other entries sample w at (suc n) below room word =
      let step : add64 at 1 ≡ at + 1 = add64-small at 1 (omega (arith, below, word)) in
      let ih =
        entries_from-other entries sample w (at + 1) n (omega (arith, below)) (omega (arith, room))
          word in
      let apart : w % capacity ≢ at % capacity = λ h.
        slots_differ capacity at (w - at) (omega (arith, below)) (omega (arith, room))
          (ap (λ (k : ℕ). k % capacity) (omega (arith, below)) ∙ h) in
      let here : (at % capacity == w % capacity) ≡ false = ground arith in simp (here, step, ih)

  pub entries_from-snoc :
      (entries : ℕ → SeriesSample) (at n : ℕ) (sample : SeriesSample)
      → n < capacity
      → at + n < u64_mod
      → entries_from capacity (put_entry entries ((at + n) % capacity) sample) at (suc n)
        ≡ entries_from capacity entries at n ++ sample ∷ []
  entries_from-snoc entries at n sample room word =
      let f = put_entry entries ((at + n) % capacity) sample in
      entries_from-last f at n word
      ∙ ap (λ (xs : List SeriesSample). xs ++ f ((at + n) % capacity) ∷ [])
          (entries_from-other entries sample (at + n) at n (omega arith) (omega (arith, room)) word)
      ∙ ap (λ (x : SeriesSample). entries_from capacity entries at n ++ x ∷ [])
          (simp (==_refl ((at + n) % capacity)))

  pub entries_from-split :
      (entries : ℕ → SeriesSample) (at m n : ℕ)
      → at + m + n < u64_mod
      → entries_from capacity entries at (m + n)
        ≡ entries_from capacity entries at m ++ entries_from capacity entries (at + m) n
  unfolding entries_from
  entries_from-split entries at zero n word =
      ap (entries_from capacity entries at) (omega arith)
      ∙ ap (λ (k : ℕ). entries_from capacity entries k n) (omega arith)
  entries_from-split entries at (suc m) n word =
      let step : add64 at 1 ≡ at + 1 = add64-small at 1 (omega (arith, word)) in
      let ih = entries_from-split entries (at + 1) m n (omega (arith, word)) in
      let e : at + 1 + m ≡ at + suc m = omega arith in
      let x = entries (at % capacity) in
      let more : suc m + n ≡ suc (m + n) = omega arith in
      ap (entries_from capacity entries at) more
      ∙ ap (λ (k : ℕ). x ∷ entries_from capacity entries k (m + n)) step
      ∙ ap (λ (xs : List SeriesSample). x ∷ xs) ih
      ∙ ap
          (λ (k : ℕ).
            x ∷ (entries_from capacity entries (at + 1) m ++ entries_from capacity entries k n))
          e
      ∙ ap
          (λ (k : ℕ).
            x ∷ (entries_from capacity entries k m ++ entries_from capacity entries (at + suc m) n))
          (sym step)

  pub length-entries_from :
      (entries : ℕ → SeriesSample) (at n : ℕ) → length (entries_from capacity entries at n) ≡ n
  unfolding entries_from
  length-entries_from entries at zero = refl
  length-entries_from entries at (suc n) = ap suc (length-entries_from entries (add64 at 1) n)
