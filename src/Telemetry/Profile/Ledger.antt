-- ===== src/Telemetry/Profile/Ledger.antt =====
-- Where the sampled operations of a capture are counted.
use addictol.Base.{
  ℕ, suc, ◌+◌, ◌≤◌, ◌<◌, ◌≡◌, refl, Bool, true, false, add64, sub64, u64_mod, add64-small,
  update_at, update_at_both, arith,
}
use addictol.Telemetry.Profile.{
  Quality, sampled_admissions, accepted_records, admission_contention_drops,
  publication_contention_drops, capacity_drops, stale_tokens, suppressed_operations,
  unfinished_operations, invalid_results, producer_capacity_drops, quality_index, Source,
  CaptureState, bump, count_quality,
}

-- The operations of a capture that have an outcome.
abbrev pub settled : CaptureState → ℕ
settled c =
    c.counters (quality_index accepted_records)
    + c.counters (quality_index publication_contention_drops)
    + c.counters (quality_index capacity_drops)
    + c.counters (quality_index stale_tokens)
    + c.counters (quality_index invalid_results)

-- With `live` operations not ended, of at most `most` that were sampled.
pub record IsBalanced (most live : ℕ) (c : CaptureState) : Type 0 where
  pub active : c.active_sampled ≡ live
  pub balance : c.counters (quality_index sampled_admissions) ≡ settled c + live
  pub bounded : c.counters (quality_index sampled_admissions) ≤ most

abbrev pub is_ending : Quality → Bool
is_ending accepted_records = true
is_ending publication_contention_drops = true
is_ending capacity_drops = true
is_ending stale_tokens = true
is_ending invalid_results = true
is_ending _ = false

-- The capture after an operation ended with a quality.
abbrev pub ended : Quality → CaptureState → CaptureState
ended q c = record c {
  counters = update_at c.counters (quality_index q) (add64 (c.counters (quality_index q)) 1);
  active_sampled = sub64 c.active_sampled 1;
}

pub ended-IsBalanced :
    (q : Quality) (most live : ℕ) (c : CaptureState)
    → is_ending q ≡ true
    → most < u64_mod
    → IsBalanced most (suc live) c
    → IsBalanced most live (ended q c)
ended-IsBalanced accepted_records most live c h small b = record {
  active = omega (arith, b.active);
  balance = omega (arith, b.balance, b.bounded, add64-small (c.counters 1) 1);
  bounded = b.bounded;
}
ended-IsBalanced publication_contention_drops most live c h small b = record {
  active = omega (arith, b.active);
  balance = omega (arith, b.balance, b.bounded, add64-small (c.counters 3) 1);
  bounded = b.bounded;
}
ended-IsBalanced capacity_drops most live c h small b = record {
  active = omega (arith, b.active);
  balance = omega (arith, b.balance, b.bounded, add64-small (c.counters 4) 1);
  bounded = b.bounded;
}
ended-IsBalanced stale_tokens most live c h small b = record {
  active = omega (arith, b.active);
  balance = omega (arith, b.balance, b.bounded, add64-small (c.counters 5) 1);
  bounded = b.bounded;
}
ended-IsBalanced invalid_results most live c h small b = record {
  active = omega (arith, b.active);
  balance = omega (arith, b.balance, b.bounded, add64-small (c.counters 8) 1);
  bounded = b.bounded;
}
ended-IsBalanced sampled_admissions most live c h small b = cc
ended-IsBalanced admission_contention_drops most live c h small b = cc
ended-IsBalanced suppressed_operations most live c h small b = cc
ended-IsBalanced unfinished_operations most live c h small b = cc
ended-IsBalanced producer_capacity_drops most live c h small b = cc

-- The capture after an operation was sampled.
abbrev pub admitted : CaptureState → CaptureState
admitted c = record c {
  active_sampled = add64 c.active_sampled 1;
  counters =
      update_at c.counters (quality_index sampled_admissions)
        (add64 (c.counters (quality_index sampled_admissions)) 1);
}

pub admitted-IsBalanced :
    (most live : ℕ) (c : CaptureState)
    → most + 1 < u64_mod
    → IsBalanced most live c
    → IsBalanced (most + 1) (suc live) (admitted c)
admitted-IsBalanced most live c small b = record {
  active = omega (arith, b.active, b.balance, b.bounded);
  balance = omega (arith, b.balance, b.bounded);
  bounded = omega (arith, b.bounded);
}

-- The same sampled, settled and active operations.
pub record IsSameLedger (c c' : CaptureState) : Type 0 where
  pub active : c'.active_sampled ≡ c.active_sampled
  pub sampled :
      c'.counters (quality_index sampled_admissions) ≡ c.counters (quality_index sampled_admissions)
  pub accepted :
      c'.counters (quality_index accepted_records) ≡ c.counters (quality_index accepted_records)
  pub same : settled c' ≡ settled c

pub same-IsSameLedger : (c : CaptureState) → IsSameLedger c c
same-IsSameLedger c = record { active = refl; sampled = refl; accepted = refl; same = refl }

pub same-IsBalanced :
    (most most' live : ℕ) (c c' : CaptureState)
    → most ≤ most'
    → IsSameLedger c c'
    → IsBalanced most live c
    → IsBalanced most' live c'
same-IsBalanced most most' live c c' le e b = record {
  active = omega (arith, b.active, e.active);
  balance = omega (arith, b.balance, e.sampled, e.same);
  bounded = omega (arith, b.bounded, e.sampled);
}

-- The qualities that are counted beside the ledger.
abbrev pub is_noted : Quality → Bool
is_noted admission_contention_drops = true
is_noted suppressed_operations = true
is_noted unfinished_operations = true
is_noted producer_capacity_drops = true
is_noted _ = false

pub count_quality-IsSameLedger :
    (q : Quality) (c : CaptureState) → is_noted q ≡ true → IsSameLedger c (count_quality q c)
unfolding count_quality
count_quality-IsSameLedger admission_contention_drops c h = record {
  active = refl;
  sampled = refl;
  accepted = refl;
  same = refl;
}
count_quality-IsSameLedger suppressed_operations c h = record {
  active = refl;
  sampled = refl;
  accepted = refl;
  same = refl;
}
count_quality-IsSameLedger unfinished_operations c h = record {
  active = refl;
  sampled = refl;
  accepted = refl;
  same = refl;
}
count_quality-IsSameLedger producer_capacity_drops c h = record {
  active = refl;
  sampled = refl;
  accepted = refl;
  same = refl;
}
count_quality-IsSameLedger _ c h = cc

pub bump-IsSameLedger :
    (q : Quality) (i : ℕ) (s : Source) (c : ℕ)
    → is_noted q ≡ true
    → IsSameLedger (s.captures c) ((bump q i s).captures c)
unfolding bump
bump-IsSameLedger q i s c h =
    update_at_both (λ (j : ℕ) (x : CaptureState). IsSameLedger (s.captures j) x) s.captures i
      (count_quality q (s.captures i)) c (count_quality-IsSameLedger q (s.captures i) h)
      (same-IsSameLedger (s.captures c))
