-- ===== src/Telemetry/Profile/Pins/Moves.antt =====
-- What an operation may rely on at its phase, and the moves of operations.
use addictol.Base.{
  ℕ, ◌+◌, ◌≤◌, ◌<◌, ◌≡◌, refl, sym, ◌∙◌, subst, Bool, true, false, some, get_elem?, set, u64_mod,
  count_if, count_if-set, count_if-le-length, length, All, All-set, All-get, arith, if◌then◌else◌,
}
use addictol.Telemetry.Profile.{CaptureState}
use addictol.Telemetry.Profile.Pins.{
  Phase, pin_checked, inside, in_shard, in_shard_checked, admitting, counted, admitted, holding,
  Control, idle, closing, locked, seen_closed, seen_unpinned, checked, stamped, resetting, emptied,
  holds_mutexes, is_pinning, is_sampled, Move, see_open, load_generation, pin_capture,
  same_generation, other_generation, still_open, not_open, give_up, lock_shard, other_capture,
  still_generation, not_generation, still_admitted, not_admitted, count_sampled, unlock_shard,
  unlock_failing, unpin, unpin_admitted, end_operation, System,
}

-- StartCapture has seen the capture closed.
abbrev pub is_sealed : Control → Bool
is_sealed idle = false
is_sealed closing = false
is_sealed locked = false
is_sealed _ = true

-- It has seen no pins as well.
abbrev pub past_pins : Control → Bool
past_pins seen_closed = false
past_pins k = is_sealed k

-- And no active operations.
abbrev pub past_samples : Control → Bool
past_samples seen_unpinned = false
past_samples k = past_pins k

-- It has seen no pins on the new generation.
abbrev pub resets : Control → Bool
resets resetting = true
resets emptied = true
resets _ = false

-- What an operation may rely on, while the controller is at `k` and the capture has admission
-- `o` and a generation.
abbrev pub Good : Control → Bool → ℕ → Phase → Type 0
Good k o gen (pin_checked g) = (o ≡ true → g ≡ gen) × (resets k ≡ true → g ≡ gen)
Good k o gen (inside g) = (g ≡ gen) × (past_pins k ≡ false)
Good k o gen (in_shard g) = (g ≡ gen) × (holds_mutexes k ≡ false)
Good k o gen (in_shard_checked g) = (g ≡ gen) × (holds_mutexes k ≡ false)
Good k o gen (admitting g) = (g ≡ gen) × (holds_mutexes k ≡ false) × (o ≡ false → k ≡ closing)
Good k o gen (counted g) = (g ≡ gen) × (holds_mutexes k ≡ false)
Good k o gen (admitted g) = (g ≡ gen) × (past_pins k ≡ false)
Good k o gen (holding g) = (g ≡ gen) × (past_samples k ≡ false)
Good k o gen _ = Unit

unheld-past : (k : Control) → holds_mutexes k ≡ false → past_pins k ≡ false
unheld-past idle h = refl
unheld-past closing h = refl
unheld-past _ h = cc

unpinned-past : (k : Control) → past_pins k ≡ false → past_samples k ≡ false
unpinned-past idle h = refl
unpinned-past closing h = refl
unpinned-past locked h = refl
unpinned-past seen_closed h = refl
unpinned-past seen_unpinned h = refl
unpinned-past checked h = h
unpinned-past stamped h = h
unpinned-past resetting h = h
unpinned-past emptied h = h

open-past :
    (k : Control) (o : Bool) → (is_sealed k ≡ true → o ≡ false) → o ≡ true → past_pins k ≡ false
open-past idle o h e = refl
open-past closing o h e = refl
open-past locked o h e = refl
open-past seen_closed o h e = refl
open-past _ o h e = let shut = h refl in cc

pub record IsSafe (s : System) : Type 0 where
  pub begins : s.capture.active_begins ≡ count_if is_pinning s.operations
  pub sampled : s.capture.active_sampled ≡ count_if is_sampled s.operations
  pub shut : is_sealed s.control ≡ true → s.capture.admission_open ≡ false
  pub good : All (Good s.control s.capture.admission_open s.capture.generation) s.operations

abbrev pub one_if : Bool → ℕ
one_if b = if b then 1 else 0

Move-begins :
    (k : Control) (c : CaptureState) (p p' : Phase) (c' : CaptureState) (n n' : ℕ)
    → Move k c p p' c'
    → n + 1 < u64_mod
    → n' + one_if (is_pinning p) ≡ n + one_if (is_pinning p')
    → c.active_begins ≡ n
    → c'.active_begins ≡ n'
Move-begins k c p p' c' n n' (see_open _ o) small eq h = omega arith
Move-begins k c p p' c' n n' (load_generation _) small eq h = omega arith
Move-begins k c p p' c' n n' (pin_capture _ g) small eq h = omega arith
Move-begins k c p p' c' n n' (same_generation _ g e) small eq h = omega arith
Move-begins k c p p' c' n n' (other_generation _ g e) small eq h = omega arith
Move-begins k c p p' c' n n' (still_open _ g o) small eq h = omega arith
Move-begins k c p p' c' n n' (not_open _ g o) small eq h = omega arith
Move-begins k c p p' c' n n' (give_up _ g) small eq h = omega arith
Move-begins k c p p' c' n n' (lock_shard _ g l) small eq h = omega arith
Move-begins k c p p' c' n n' (other_capture _ g) small eq h = omega arith
Move-begins k c p p' c' n n' (still_generation _ g e) small eq h = omega arith
Move-begins k c p p' c' n n' (not_generation _ g e) small eq h = omega arith
Move-begins k c p p' c' n n' (still_admitted _ g o) small eq h = omega arith
Move-begins k c p p' c' n n' (not_admitted _ g o) small eq h = omega arith
Move-begins k c p p' c' n n' (count_sampled _ g) small eq h = omega arith
Move-begins k c p p' c' n n' (unlock_shard _ g) small eq h = omega arith
Move-begins k c p p' c' n n' (unlock_failing _) small eq h = omega arith
Move-begins k c p p' c' n n' (unpin _) small eq h = omega arith
Move-begins k c p p' c' n n' (unpin_admitted _ g) small eq h = omega arith
Move-begins k c p p' c' n n' (end_operation _ g) small eq h = omega arith

Move-sampled :
    (k : Control) (c : CaptureState) (p p' : Phase) (c' : CaptureState) (n n' : ℕ)
    → Move k c p p' c'
    → n + 1 < u64_mod
    → n' + one_if (is_sampled p) ≡ n + one_if (is_sampled p')
    → c.active_sampled ≡ n
    → c'.active_sampled ≡ n'
Move-sampled k c p p' c' n n' (see_open _ o) small eq h = omega arith
Move-sampled k c p p' c' n n' (load_generation _) small eq h = omega arith
Move-sampled k c p p' c' n n' (pin_capture _ g) small eq h = omega arith
Move-sampled k c p p' c' n n' (same_generation _ g e) small eq h = omega arith
Move-sampled k c p p' c' n n' (other_generation _ g e) small eq h = omega arith
Move-sampled k c p p' c' n n' (still_open _ g o) small eq h = omega arith
Move-sampled k c p p' c' n n' (not_open _ g o) small eq h = omega arith
Move-sampled k c p p' c' n n' (give_up _ g) small eq h = omega arith
Move-sampled k c p p' c' n n' (lock_shard _ g l) small eq h = omega arith
Move-sampled k c p p' c' n n' (other_capture _ g) small eq h = omega arith
Move-sampled k c p p' c' n n' (still_generation _ g e) small eq h = omega arith
Move-sampled k c p p' c' n n' (not_generation _ g e) small eq h = omega arith
Move-sampled k c p p' c' n n' (still_admitted _ g o) small eq h = omega arith
Move-sampled k c p p' c' n n' (not_admitted _ g o) small eq h = omega arith
Move-sampled k c p p' c' n n' (count_sampled _ g) small eq h = omega arith
Move-sampled k c p p' c' n n' (unlock_shard _ g) small eq h = omega arith
Move-sampled k c p p' c' n n' (unlock_failing _) small eq h = omega arith
Move-sampled k c p p' c' n n' (unpin _) small eq h = omega arith
Move-sampled k c p p' c' n n' (unpin_admitted _ g) small eq h = omega arith
Move-sampled k c p p' c' n n' (end_operation _ g) small eq h = omega arith

Move-Good :
    (k : Control) (c : CaptureState) (p p' : Phase) (c' : CaptureState)
    → Move k c p p' c'
    → (is_sealed k ≡ true → c.admission_open ≡ false)
    → Good k c.admission_open c.generation p
    → Good k c'.admission_open c'.generation p'
Move-Good k c p p' c' (see_open _ o) shut h = tt
Move-Good k c p p' c' (load_generation _) shut h = tt
Move-Good k c p p' c' (pin_capture _ g) shut h = tt
Move-Good k c p p' c' (same_generation _ g e) shut h = (λ _. sym e, λ _. sym e)
Move-Good k c p p' c' (other_generation _ g e) shut h = tt
Move-Good k c p p' c' (still_open _ g o) shut h = (h.0 o, open-past k c.admission_open shut o)
Move-Good k c p p' c' (not_open _ g o) shut h = tt
Move-Good k c p p' c' (give_up _ g) shut h = tt
Move-Good k c p p' c' (lock_shard _ g l) shut h = (h.0, l)
Move-Good k c p p' c' (other_capture _ g) shut h = tt
Move-Good k c p p' c' (still_generation _ g e) shut h = h
Move-Good k c p p' c' (not_generation _ g e) shut h = tt
Move-Good k c p p' c' (still_admitted _ g o) shut h = (h.0, h.1, λ z. cc)
Move-Good k c p p' c' (not_admitted _ g o) shut h = tt
Move-Good k c p p' c' (count_sampled _ g) shut h = (h.0, h.1)
Move-Good k c p p' c' (unlock_shard _ g) shut h = (h.0, unheld-past k h.1)
Move-Good k c p p' c' (unlock_failing _) shut h = tt
Move-Good k c p p' c' (unpin _) shut h = tt
Move-Good k c p p' c' (unpin_admitted _ g) shut h = (h.0, unpinned-past k h.1)
Move-Good k c p p' c' (end_operation _ g) shut h = tt

Move-same :
    (k : Control) (c : CaptureState) (p p' : Phase) (c' : CaptureState)
    → Move k c p p' c'
    → (c'.admission_open ≡ c.admission_open) × (c'.generation ≡ c.generation)
Move-same k c p p' c' (see_open _ o) = (refl, refl)
Move-same k c p p' c' (load_generation _) = (refl, refl)
Move-same k c p p' c' (pin_capture _ g) = (refl, refl)
Move-same k c p p' c' (same_generation _ g e) = (refl, refl)
Move-same k c p p' c' (other_generation _ g e) = (refl, refl)
Move-same k c p p' c' (still_open _ g o) = (refl, refl)
Move-same k c p p' c' (not_open _ g o) = (refl, refl)
Move-same k c p p' c' (give_up _ g) = (refl, refl)
Move-same k c p p' c' (lock_shard _ g l) = (refl, refl)
Move-same k c p p' c' (other_capture _ g) = (refl, refl)
Move-same k c p p' c' (still_generation _ g e) = (refl, refl)
Move-same k c p p' c' (not_generation _ g e) = (refl, refl)
Move-same k c p p' c' (still_admitted _ g o) = (refl, refl)
Move-same k c p p' c' (not_admitted _ g o) = (refl, refl)
Move-same k c p p' c' (count_sampled _ g) = (refl, refl)
Move-same k c p p' c' (unlock_shard _ g) = (refl, refl)
Move-same k c p p' c' (unlock_failing _) = (refl, refl)
Move-same k c p p' c' (unpin _) = (refl, refl)
Move-same k c p p' c' (unpin_admitted _ g) = (refl, refl)
Move-same k c p p' c' (end_operation _ g) = (refl, refl)

pub Move-IsSafe :
    (s : System) (i : ℕ) (p p' : Phase) (c : CaptureState)
    → length s.operations + 1 < u64_mod
    → get_elem? s.operations i ≡ some p
    → Move s.control s.capture p p' c
    → IsSafe s
    → IsSafe (record s { capture = c; operations = set s.operations i p' })
Move-IsSafe s i p p' c small at m safe =
    let ops = s.operations in
    let (same_open, same_generation_) = Move-same s.control s.capture p p' c m in
    let before : All (Good s.control c.admission_open c.generation) ops =
      subst (λ o. All (Good s.control o c.generation) ops) (sym same_open)
        (subst (λ g. All (Good s.control s.capture.admission_open g) ops) (sym same_generation_)
          safe.good) in
    record {
      begins =
          Move-begins s.control s.capture p p' c (count_if is_pinning ops)
            (count_if is_pinning (set ops i p')) m
            (omega (arith, small, count_if-le-length is_pinning ops))
            (count_if-set is_pinning ops i p p' at) safe.begins;
      sampled =
          Move-sampled s.control s.capture p p' c (count_if is_sampled ops)
            (count_if is_sampled (set ops i p')) m
            (omega (arith, small, count_if-le-length is_sampled ops))
            (count_if-set is_sampled ops i p p' at) safe.sampled;
      shut = λ h. same_open ∙ safe.shut h;
      good = All-set (Good s.control c.admission_open c.generation) ops i p' before (
          Move-Good s.control s.capture p p' c m safe.shut (
            All-get (Good s.control s.capture.admission_open s.capture.generation) ops i p safe.good
              at));
    }

-- The operation is past its tests, and not yet counted.
abbrev pub is_admitting : Phase → Bool
is_admitting (admitting g) = true
is_admitting _ = false

pub Move-unsampled :
    (k : Control) (c : CaptureState) (p p' : Phase) (c' : CaptureState)
    → Move k c p p' c'
    → is_admitting p ≡ false
    → one_if (is_sampled p') ≤ one_if (is_sampled p)
Move-unsampled k c p p' c' (see_open _ o) h = omega arith
Move-unsampled k c p p' c' (load_generation _) h = omega arith
Move-unsampled k c p p' c' (pin_capture _ g) h = omega arith
Move-unsampled k c p p' c' (same_generation _ g e) h = omega arith
Move-unsampled k c p p' c' (other_generation _ g e) h = omega arith
Move-unsampled k c p p' c' (still_open _ g o) h = omega arith
Move-unsampled k c p p' c' (not_open _ g o) h = omega arith
Move-unsampled k c p p' c' (give_up _ g) h = omega arith
Move-unsampled k c p p' c' (lock_shard _ g l) h = omega arith
Move-unsampled k c p p' c' (other_capture _ g) h = omega arith
Move-unsampled k c p p' c' (still_generation _ g e) h = omega arith
Move-unsampled k c p p' c' (not_generation _ g e) h = omega arith
Move-unsampled k c p p' c' (still_admitted _ g o) h = omega arith
Move-unsampled k c p p' c' (not_admitted _ g o) h = omega arith
Move-unsampled k c p p' c' (count_sampled _ g) h = cc
Move-unsampled k c p p' c' (unlock_shard _ g) h = omega arith
Move-unsampled k c p p' c' (unlock_failing _) h = omega arith
Move-unsampled k c p p' c' (unpin _) h = omega arith
Move-unsampled k c p p' c' (unpin_admitted _ g) h = omega arith
Move-unsampled k c p p' c' (end_operation _ g) h = omega arith
