-- ===== src/Telemetry/Profile/Pins/Safety.antt =====
-- What the pins of a capture protect.
use addictol.Base.{
  ℕ, ◌==◌, ==_iff, zero, suc, ◌+◌, ◌<◌, ◌≡◌, refl, sym, ◌∙◌, subst, Bool, true, false, u64_mod,
  count_if, count_if-zero, count_if-none, length, length-set, All, All-map_imp, replicate, arith,
}
use addictol.Telemetry.Profile.{CaptureState}
use addictol.Telemetry.Profile.Capture.{stamp, reset_capture_state}
use addictol.Telemetry.Profile.Pins.{
  started, Phase, outside, inside, in_shard, in_shard_checked, admitting, counted, admitted,
  holding, Control, idle, closing, locked, seen_closed, seen_unpinned, checked, stamped, resetting,
  emptied, holds_mutexes, holds_shard, is_pinning, is_sampled, System, Step, operation, close,
  pass_mutexes, lock_mutexes, see_closed, see_unpinned, see_unsampled, leave_open, leave_pinned,
  leave_sampled, store_generation, recheck, skip, reset, open_capture, Steps, stay, one_more,
}
use addictol.Telemetry.Profile.Pins.Moves.{Good, IsSafe, Move-IsSafe, is_sealed, resets}
use addictol.Telemetry.Profile.Pins.Turns.{
  close-Good, pass-Good, lock-Good, closed-Good, unpinned-Good, unsampled-Good, stamp-Good,
  recheck-Good, release-Good, reset-Good, open-Good, reset-unsampled,
}

-- The controller moves on, and the capture keeps its two counts.
control-IsSafe :
    (s : System) (k : Control) (c : CaptureState) (n : ℕ)
    → c.active_begins ≡ s.capture.active_begins
    → c.active_sampled ≡ s.capture.active_sampled
    → (is_sealed k ≡ true → c.admission_open ≡ false)
    → All (Good k c.admission_open c.generation) s.operations
    → IsSafe s
    → IsSafe (record s { capture = c; control = k; next_generation = n })
control-IsSafe s k c n begins sampled shut good safe = record {
  begins = begins ∙ safe.begins;
  sampled = sampled ∙ safe.sampled;
  shut = shut;
  good = good;
}

-- The same, where the controller and the admission are known.
pub at :
    (s : System) (k : Control) (o : Bool)
    → s.control ≡ k
    → s.capture.admission_open ≡ o
    → IsSafe s
    → All (Good k o s.capture.generation) s.operations
at s k o e f safe =
    subst (λ x. All (Good x o s.capture.generation) s.operations) e
      (subst (λ x. All (Good s.control x s.capture.generation) s.operations) f safe.good)

-- All operations change what they may rely on.
turn :
    (s : System) (k k' : Control) (o o' : Bool) (gen' : ℕ)
    → ((p : Phase) → Good k o s.capture.generation p → Good k' o' gen' p)
    → All (Good k o s.capture.generation) s.operations
    → All (Good k' o' gen') s.operations
turn s k k' o o' gen' f h =
    All-map_imp (Good k o s.capture.generation) (Good k' o' gen') s.operations f h

-- Admission is closed once StartCapture has seen it closed.
shut_at :
    (s : System) (k : Control)
    → s.control ≡ k
    → is_sealed k ≡ true
    → IsSafe s
    → s.capture.admission_open ≡ false
shut_at s k e h safe = safe.shut (subst (λ x. is_sealed x ≡ true) (sym e) h)

-- The controller gives the mutexes back and leaves the capture as it is.
release-IsSafe :
    (s : System) (k : Control)
    → s.control ≡ k
    → holds_mutexes k ≡ true
    → IsSafe s
    → IsSafe (record s { control = idle })
release-IsSafe s k e held safe =
    control-IsSafe s idle s.capture s.next_generation refl refl (λ h. cc)
      (turn s k idle s.capture.admission_open s.capture.admission_open s.capture.generation
        (λ p. release-Good k s.capture.admission_open s.capture.generation p held)
        (at s k s.capture.admission_open e refl safe))
      safe

pub step-IsSafe :
    (s t : System) → Step s t → length s.operations + 1 < u64_mod → IsSafe s → IsSafe t
unfolding reset_capture_state
step-IsSafe s t (operation _ i p p' c e m) small safe = Move-IsSafe s i p p' c small e m safe
step-IsSafe s t (close _ k f) small safe =
    control-IsSafe s closing _ _ refl refl (λ h. refl)
      (turn s idle closing s.capture.admission_open false s.capture.generation
        (close-Good s.capture.admission_open s.capture.generation)
        (at s idle s.capture.admission_open k refl safe))
      safe
step-IsSafe s t (pass_mutexes _ k free) small safe =
    control-IsSafe s idle s.capture _ refl refl (λ h. cc)
      (count_if-zero holds_shard (Good closing s.capture.admission_open s.capture.generation)
        (Good idle s.capture.admission_open s.capture.generation) s.operations
        (pass-Good s.capture.admission_open s.capture.generation) free
        (at s closing s.capture.admission_open k refl safe))
      safe
step-IsSafe s t (lock_mutexes _ k free) small safe =
    control-IsSafe s locked s.capture _ refl refl (λ h. cc)
      (count_if-zero holds_shard (Good idle s.capture.admission_open s.capture.generation)
        (Good locked s.capture.admission_open s.capture.generation) s.operations
        (lock-Good s.capture.admission_open s.capture.generation) free
        (at s idle s.capture.admission_open k refl safe))
      safe
step-IsSafe s t (see_closed _ k o) small safe =
    control-IsSafe s seen_closed s.capture _ refl refl (λ h. o)
      (subst (λ x. All (Good seen_closed x s.capture.generation) s.operations) (sym o)
        (turn s locked seen_closed false false s.capture.generation
          (closed-Good s.capture.generation) (at s locked false k o safe)))
      safe
step-IsSafe s t (see_unpinned _ k none_pinned) small safe =
    let o = shut_at s seen_closed k refl safe in
    control-IsSafe s seen_unpinned s.capture _ refl refl (λ h. o)
      (subst (λ x. All (Good seen_unpinned x s.capture.generation) s.operations) (sym o)
        (count_if-zero is_pinning (Good seen_closed false s.capture.generation)
          (Good seen_unpinned false s.capture.generation) s.operations
          (unpinned-Good s.capture.generation) (sym safe.begins ∙ none_pinned)
          (at s seen_closed false k o safe)))
      safe
step-IsSafe s t (see_unsampled _ k none_sampled) small safe =
    let o = shut_at s seen_unpinned k refl safe in
    control-IsSafe s checked s.capture _ refl refl (λ h. o)
      (subst (λ x. All (Good checked x s.capture.generation) s.operations) (sym o)
        (count_if-zero is_sampled (Good seen_unpinned false s.capture.generation)
          (Good checked false s.capture.generation) s.operations
          (unsampled-Good s.capture.generation) (sym safe.sampled ∙ none_sampled)
          (at s seen_unpinned false k o safe)))
      safe
step-IsSafe s t (leave_open _ k o) small safe = release-IsSafe s locked k refl safe
step-IsSafe s t (leave_pinned _ k busy) small safe = release-IsSafe s seen_closed k refl safe
step-IsSafe s t (leave_sampled _ k busy) small safe = release-IsSafe s seen_unpinned k refl safe
step-IsSafe s t (store_generation _ k) small safe =
    let o = shut_at s checked k refl safe in
    control-IsSafe s stamped (stamp s.next_generation s.capture) _ refl refl (λ h. o)
      (subst (λ x. All (Good stamped x s.next_generation) s.operations) (sym o)
        (turn s checked stamped false false s.next_generation
          (stamp-Good s.capture.generation s.next_generation) (at s checked false k o safe)))
      safe
step-IsSafe s t (recheck _ k none_pinned) small safe =
    let o = shut_at s stamped k refl safe in
    control-IsSafe s resetting s.capture _ refl refl (λ h. o)
      (subst (λ x. All (Good resetting x s.capture.generation) s.operations) (sym o)
        (count_if-zero is_pinning (Good stamped false s.capture.generation)
          (Good resetting false s.capture.generation) s.operations
          (recheck-Good s.capture.generation) (sym safe.begins ∙ none_pinned)
          (at s stamped false k o safe)))
      safe
step-IsSafe s t (skip _ k busy) small safe = release-IsSafe s stamped k refl safe
step-IsSafe s t (reset _ k) small safe =
    let o = shut_at s resetting k refl safe in
    let held = at s resetting false k o safe in
    control-IsSafe s emptied _ _ refl
      (sym (
        safe.sampled
        ∙ count_if-none is_sampled (Good resetting false s.capture.generation) s.operations
            (reset-unsampled s.capture.generation) held))
      (λ h. refl)
      (turn s resetting emptied false false s.capture.generation (reset-Good s.capture.generation)
        held)
      safe
step-IsSafe s t (open_capture _ k) small safe =
    let o = shut_at s emptied k refl safe in
    control-IsSafe s idle _ _ refl refl (λ h. cc)
      (turn s emptied idle false true s.capture.generation (open-Good s.capture.generation)
        (at s emptied false k o safe))
      safe

pub step-length : (s t : System) → Step s t → length t.operations ≡ length s.operations
step-length s t (operation _ i p p' c e m) = length-set s.operations i p'
step-length s t (close _ k f) = refl
step-length s t (pass_mutexes _ k free) = refl
step-length s t (lock_mutexes _ k free) = refl
step-length s t (see_closed _ k o) = refl
step-length s t (see_unpinned _ k z) = refl
step-length s t (see_unsampled _ k z) = refl
step-length s t (leave_open _ k o) = refl
step-length s t (leave_pinned _ k z) = refl
step-length s t (leave_sampled _ k z) = refl
step-length s t (store_generation _ k) = refl
step-length s t (recheck _ k z) = refl
step-length s t (skip _ k z) = refl
step-length s t (reset _ k) = refl
step-length s t (open_capture _ k) = refl

pub steps-IsSafe :
    (s t : System)
    → Steps s t
    → length s.operations + 1 < u64_mod
    → IsSafe s
    → IsSafe t × (length t.operations ≡ length s.operations)
steps-IsSafe s t (stay _) small safe = (safe, refl)
steps-IsSafe s u (one_more _ t _ before next) small safe =
    let (safe_t, same) = steps-IsSafe s t before small safe in
    (step-IsSafe t u next (omega (arith, small, same)) safe_t, step-length t u next ∙ same)

pub outside-All :
    (n : ℕ) (k : Control) (o : Bool) (gen : ℕ)
    → (All (Good k o gen) (replicate n outside))
      × (count_if is_pinning (replicate n outside) ≡ 0)
      × (count_if is_sampled (replicate n outside) ≡ 0)
      × (length (replicate n outside) ≡ n)
outside-All zero k o gen = (tt, refl, refl, refl)
outside-All (suc n) k o gen =
    let (good, pins, samples, size) = outside-All n k o gen in
    ((tt, good), omega (arith, pins), omega (arith, samples), omega (arith, size))

pub started-IsSafe : (n next : ℕ) → IsSafe (started n next)
started-IsSafe n next =
    let (good, pins, samples, size) = outside-All n idle false 0 in
    record { begins = sym pins; sampled = sym samples; shut = λ h. refl; good = good }

-- Whether an operation may count in the capture, or holds a token of it.
abbrev pub is_using : Phase → Bool
is_using (inside g) = true
is_using (in_shard g) = true
is_using (in_shard_checked g) = true
is_using (admitting g) = true
is_using (counted g) = true
is_using (admitted g) = true
is_using (holding g) = true
is_using _ = false

-- The generation that an operation loaded.
abbrev pub has_generation : ℕ → Phase → Bool
has_generation gen (inside g) = g == gen
has_generation gen (in_shard g) = g == gen
has_generation gen (in_shard_checked g) = g == gen
has_generation gen (admitting g) = g == gen
has_generation gen (counted g) = g == gen
has_generation gen (admitted g) = g == gen
has_generation gen (holding g) = g == gen
has_generation gen _ = true

unused_at_resetting : (o : Bool) (gen : ℕ) (p : Phase) → Good resetting o gen p → is_using p ≡ false
unused_at_resetting o gen (inside g) h = cc
unused_at_resetting o gen (in_shard g) h = cc
unused_at_resetting o gen (in_shard_checked g) h = cc
unused_at_resetting o gen (admitting g) h = cc
unused_at_resetting o gen (counted g) h = cc
unused_at_resetting o gen (admitted g) h = cc
unused_at_resetting o gen (holding g) h = cc
unused_at_resetting o gen _ h = refl

unused_at_emptied : (o : Bool) (gen : ℕ) (p : Phase) → Good emptied o gen p → is_using p ≡ false
unused_at_emptied o gen (inside g) h = cc
unused_at_emptied o gen (in_shard g) h = cc
unused_at_emptied o gen (in_shard_checked g) h = cc
unused_at_emptied o gen (admitting g) h = cc
unused_at_emptied o gen (counted g) h = cc
unused_at_emptied o gen (admitted g) h = cc
unused_at_emptied o gen (holding g) h = cc
unused_at_emptied o gen _ h = refl

resetting-unused :
    (k : Control) (o : Bool) (gen : ℕ) (p : Phase)
    → resets k ≡ true
    → Good k o gen p
    → is_using p ≡ false
resetting-unused resetting o gen p e h = unused_at_resetting o gen p h
resetting-unused emptied o gen p e h = unused_at_emptied o gen p h
resetting-unused _ o gen p e h = cc

Good-generation :
    (k : Control) (o : Bool) (gen : ℕ) (p : Phase) → Good k o gen p → has_generation gen p ≡ true
Good-generation k o gen (inside g) h = (==_iff g gen).1 h.0
Good-generation k o gen (in_shard g) h = (==_iff g gen).1 h.0
Good-generation k o gen (in_shard_checked g) h = (==_iff g gen).1 h.0
Good-generation k o gen (admitting g) h = (==_iff g gen).1 h.0
Good-generation k o gen (counted g) h = (==_iff g gen).1 h.0
Good-generation k o gen (admitted g) h = (==_iff g gen).1 h.0
Good-generation k o gen (holding g) h = (==_iff g gen).1 h.0
Good-generation k o gen _ h = refl

-- In whatever order the steps of producers and the controller come, no operation counts in a
-- capture or holds a token of it from StartCapture's second test of its pins until StartCapture
-- opens it, each operation that does so loaded the generation that the capture has, and the
-- capture's two counts are those of the pins and of the sampled operations, if there are fewer than
-- 2 ^ 64 - 1 operations.
pub steps-exclusive :
    (n next : ℕ) (t : System)
    → n + 1 < u64_mod
    → Steps (started n next) t
    → (resets t.control ≡ true → All (λ (p : Phase). is_using p ≡ false) t.operations)
      × All (λ (p : Phase). has_generation t.capture.generation p ≡ true) t.operations
      × (t.capture.active_begins ≡ count_if is_pinning t.operations)
      × (t.capture.active_sampled ≡ count_if is_sampled t.operations)
steps-exclusive n next t small steps =
    let size = outside-All n idle false 0 in
    let (safe, same) =
      steps-IsSafe (started n next) t steps (omega (arith, small, size.3))
        (started-IsSafe n next) in
    let gen = t.capture.generation in
    let o = t.capture.admission_open in
    (
      λ e.
          All-map_imp (Good t.control o gen) (λ (p : Phase). is_using p ≡ false) t.operations
            (λ p h. resetting-unused t.control o gen p e h) safe.good,
      All-map_imp (Good t.control o gen) (λ (p : Phase). has_generation gen p ≡ true) t.operations
          (Good-generation t.control o gen) safe.good,
      safe.begins,
      safe.sampled,
    )
