-- ===== src/Telemetry/Profile/Starts.antt =====
-- The ledgers of all captures through the calls that start and close one.
use addictol.Base.{
  ℕ, zero, suc, ◌+◌, ◌≡◌, refl, sym, ◌∙◌, subst, Bool, false, not, List, Option, none, some, ◌==◌,
  add64, if_both, if_cases, update_at, update_at_both, arith,
}
use mathlib.Core.Option.{some-injective}
use addictol.Telemetry.Profile.{Source, CaptureState, Token, capture_state_count}
use addictol.Telemetry.Profile.Capture.{
  Search, is_free, find_capture, start_on, start_found, start_capture, close_on,
  reset_capture_state, stamp, close_admission, open_admission,
}
use addictol.Telemetry.Profile.Ledger.{IsBalanced, IsSameLedger, same-IsSameLedger, same-IsBalanced}
use addictol.Telemetry.Profile.Accounts.{live_of, IsAccounted}

-- What the search for a free capture leaves: the ledgers as they were, and no active operation in
-- the capture that it takes.
abbrev pub IsSearched : (ℕ → CaptureState) → Search → Type 0
IsSearched f r =
    ((c : ℕ) → IsSameLedger (f c) (r.captures c))
    × ((c : ℕ) → r.taken ≡ some c → (f c).active_sampled ≡ 0)

stamp-IsSameLedger :
    (next index : ℕ) (f : ℕ → CaptureState) (c : ℕ)
    → IsSameLedger (f c) (update_at f index (stamp next (f index)) c)
stamp-IsSameLedger next index f c =
    update_at_both (λ (j : ℕ) (x : CaptureState). IsSameLedger (f j) x) f index
      (stamp next (f index)) c
      (record { active = refl; sampled = refl; accepted = refl; same = refl })
      (same-IsSameLedger (f c))

trans-IsSameLedger : (a b c : CaptureState) → IsSameLedger a b → IsSameLedger b c → IsSameLedger a c
trans-IsSameLedger a b c e k = record {
  active = k.active ∙ e.active;
  sampled = k.sampled ∙ e.sampled;
  accepted = k.accepted ∙ e.accepted;
  same = k.same ∙ e.same;
}

is_free-active : (c : CaptureState) → not (is_free c) ≡ false → c.active_sampled ≡ 0
unfolding is_free
is_free-active c h = ground arith

pub find_capture-IsSearched :
    (next : ℕ) (f : ℕ → CaptureState) (index n : ℕ) → IsSearched f (find_capture next f index n)
unfolding find_capture is_free
find_capture-IsSearched next f index zero = (λ c. same-IsSameLedger (f c), λ c h. cc)
find_capture-IsSearched next f index (suc n) =
    let stamped = update_at f index (stamp next (f index)) in
    let pinned = find_capture-IsSearched (add64 next 1) stamped (index + 1) n in
    let same = stamp-IsSameLedger next index f in
    let P : Search → Type 0 = IsSearched f in
    if_cases P (not (is_free (f index))) _ _ (λ e. find_capture-IsSearched next f (index + 1) n)
      (λ e.
        if_both P (not ((f index).active_begins == 0)) _ _
          (
            λ c. trans-IsSameLedger (f c) (stamped c) _ (same c) (pinned.0 c),
            λ c h. sym (same c).active ∙ pinned.1 c h,
          )
          (
            same,
            λ c h.
                subst (λ x. (f x).active_sampled ≡ 0) (some-injective index c h)
                  (is_free-active (f index) e),
          ))

reset-IsBalanced :
    (most : ℕ) (c : CaptureState) → IsBalanced most 0 (open_admission (reset_capture_state c))
unfolding reset_capture_state
reset-IsBalanced most c = record { active = refl; balance = refl; bounded = omega arith }

start_on-IsAccounted :
    (most i : ℕ) (live : List Token) (s : Source)
    → live_of i live ≡ 0
    → IsAccounted most live s.captures
    → IsAccounted most live (start_on i s).captures
unfolding start_on
start_on-IsAccounted most i live s none_live h c =
    update_at_both (λ (j : ℕ) (x : CaptureState). IsBalanced most (live_of j live) x) s.captures i
      (open_admission (reset_capture_state (s.captures i))) c
      (subst (λ k. IsBalanced most k (open_admission (reset_capture_state (s.captures i))))
        (sym none_live) (reset-IsBalanced most (s.captures i)))
      (h c)

start_found-IsAccounted :
    (most : ℕ) (o : Option ℕ) (live : List Token) (s : Source)
    → ((i : ℕ) → o ≡ some i → live_of i live ≡ 0)
    → IsAccounted most live s.captures
    → IsAccounted most live (start_found o s).1.captures
unfolding start_found
start_found-IsAccounted most none live s free h = h
start_found-IsAccounted most (some i) live s free h =
    start_on-IsAccounted most i live s (free i refl) h

pub start_capture-IsAccounted :
    (most next : ℕ) (live : List Token) (s : Source)
    → IsAccounted most live s.captures
    → IsAccounted most live (start_capture next s).2.captures
unfolding start_capture
start_capture-IsAccounted most next live s h =
    let found = find_capture next s.captures 0 capture_state_count in
    let (same, free) = find_capture-IsSearched next s.captures 0 capture_state_count in
    let searched : IsAccounted most live found.captures = λ c.
      same-IsBalanced most most (live_of c live) (s.captures c) (found.captures c) (omega arith)
        (same c) (h c) in
    let P : Bool × ℕ × Source → Type 0 = λ r. IsAccounted most live r.2.captures in
    if_both P (not s.valid) _ _ h (
      start_found-IsAccounted most found.taken live (record s { captures = found.captures })
        (λ i e. sym (h i).active ∙ free i e) searched)

pub close-IsAccounted :
    (most : ℕ) (live : List Token) (o : Option ℕ) (s : Source)
    → IsAccounted most live s.captures
    → IsAccounted most live (close_on o s).1.captures
unfolding close_on
close-IsAccounted most live none s h = h
close-IsAccounted most live (some i) s h =
    let P : ℕ × Source → Type 0 = λ r. IsAccounted most live r.1.captures in
    let closed = close_admission (s.captures i) in
    if_both P (not (s.captures i).admission_open) _ _ h (λ c.
      same-IsBalanced most most (live_of c live) (s.captures c) (update_at s.captures i closed c)
        (omega arith)
        (update_at_both (λ (j : ℕ) (x : CaptureState). IsSameLedger (s.captures j) x) s.captures i
          closed c (record { active = refl; sampled = refl; accepted = refl; same = refl })
          (same-IsSameLedger (s.captures c)))
        (h c))
