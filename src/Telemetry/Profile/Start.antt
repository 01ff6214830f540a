-- ===== src/Telemetry/Profile/Start.antt =====
-- When StartCapture of Addictol/Source/Telemetry/AdOperationProfile.cpp succeeds.
use addictol.Base.{
  ℕ, zero, suc, ◌+◌, ◌≤◌, ◌<◌, ◌≡◌, ◌↔◌, inl, inr, refl, sym, ◌∙◌, subst, Bool, true, false, not,
  Option, none, some, is_some, ◌==◌, if_cases, Bool-cases, ==_iff, arith,
}
use addictol.Telemetry.Profile.{Source, CaptureState, capture_state_count}
use addictol.Telemetry.Profile.Capture.{Search, is_free, find_capture, start_found, start_capture}

is_free-begins : (c : CaptureState) → is_free c ≡ true → (c.active_begins == 0) ≡ true
unfolding is_free
is_free-begins c h = ground arith

impossible :
    {A : Type 0} (c : CaptureState)
    → not (is_free c) ≡ false
    → not (c.active_begins == 0) ≡ true
    → A
impossible c e k = let h = is_free-begins c (ground (arith, e)) in ground (arith, h, k)

find_capture-taken :
    (next : ℕ) (f : ℕ → CaptureState) (index n i : ℕ)
    → index ≤ i
    → i < index + n
    → is_free (f i) ≡ true
    → is_some (find_capture next f index n).taken ≡ true
unfolding find_capture
find_capture-taken next f index zero i lo hi free = ground (arith, lo, hi)
find_capture-taken next f index (suc n) i lo hi free =
    if_cases (λ (r : Search). is_some r.taken ≡ true) (not (is_free (f index))) _ _
      (λ e.
        find_capture-taken next f (index + 1) n i
          (elim (Bool-cases (i == index)) as (λ _. index + 1 ≤ i) [
            | inl q ↦
                let clash = subst (λ x. is_free (f x) ≡ true) ((==_iff i index).0 q) free in
                ground (arith, clash, e)
            | inr q ↦ ground (arith, lo)
          ])
          (omega (arith, hi)) free)
      (λ e.
        if_cases (λ (r : Search). is_some r.taken ≡ true) (not ((f index).active_begins == 0)) _ _
          (λ k. impossible (f index) e k) (λ k. refl))

find_capture-free :
    (next : ℕ) (f : ℕ → CaptureState) (index n : ℕ)
    → is_some (find_capture next f index n).taken ≡ true
    → (i : ℕ) × (i < index + n) × (is_free (f i) ≡ true)
unfolding find_capture
find_capture-free next f index zero h = cc
find_capture-free next f index (suc n) h =
    if_cases
      (λ (r : Search).
        is_some r.taken ≡ true → (i : ℕ) × (i < index + suc n) × (is_free (f i) ≡ true))
      (not (is_free (f index))) _ _
      (λ e k.
        let (i, small, free) = find_capture-free next f (index + 1) n k in
        (i, omega (arith, small), free))
      (λ e k. (index, omega arith, ground (arith, e))) h

start_found-is_some : (o : Option ℕ) (s : Source) → (start_found o s).0 ≡ is_some o
unfolding start_found
start_found-is_some none s = refl
start_found-is_some (some c) s = refl

start_capture-is_free :
    (next : ℕ) (s : Source)
    → s.valid ≡ true
    → ((start_capture next s).0 ≡ true)
      ↔ ((i : ℕ) × (i < capture_state_count) × (is_free (s.captures i) ≡ true))
unfolding start_capture start_found
start_capture-is_free next s valid =
    let found = find_capture next s.captures 0 capture_state_count in
    let searched : Source = record s { captures = found.captures } in
    let answer = start_found-is_some found.taken searched in
    if_cases
      (λ (r : Bool × ℕ × Source).
        (r.0 ≡ true) ↔ ((i : ℕ) × (i < capture_state_count) × (is_free (s.captures i) ≡ true)))
      (not s.valid) _ _ (λ e. ground (arith, e, valid))
      (λ e. (
        λ h. find_capture-free next s.captures 0 capture_state_count (sym answer ∙ h),
        λ (i, small, free).
            answer
            ∙ find_capture-taken next s.captures 0 capture_state_count i (omega arith)
                (omega (arith, small)) free,
      ))

-- Closed, and neither pinned nor counted in.
abbrev pub IsUnused : CaptureState → Type 0
IsUnused c = (c.admission_open ≡ false) × (c.active_begins ≡ 0) × (c.active_sampled ≡ 0)

is_free-IsUnused : (c : CaptureState) → (is_free c ≡ true) ↔ IsUnused c
unfolding is_free
is_free-IsUnused c = (λ h. ground (arith, h), λ h. rw (h.0, h.1, h.2) refl)

-- On a valid source StartCapture succeeds exactly if one of the eight captures is closed, without
-- pins and without active operations.
pub start_capture-free :
    (next : ℕ) (s : Source)
    → s.valid ≡ true
    → ((start_capture next s).0 ≡ true)
      ↔ ((i : ℕ) × (i < capture_state_count) × IsUnused (s.captures i))
start_capture-free next s valid =
    let both = start_capture-is_free next s valid in
    (
      λ h. let (i, small, free) = both.0 h in (i, small, (is_free-IsUnused (s.captures i)).0 free),
      λ (i, small, unused). both.1 (i, small, (is_free-IsUnused (s.captures i)).1 unused),
    )
