-- ===== src/Outcome/Recount.antt =====
-- The incremental tally against a recount.
use addictol.Base.{
  ℕ, zero, suc, ◌+◌, ◌-◌, ◌<◌, ◌≤◌, ◌≡◌, ◌∙◌, Bool, true, false, some, List, [], ◌∷◌, arith, length,
  get_elem?, set, length-set, count_if, count_if-le-length, if◌then◌else◌, u64_mod,
}
use addictol.Outcome.{
  ModuleOutcome, pending, installed, disabled, skipped, failed_query, failed_install,
  ModuleOutcomeTally, zero_tally, tally_one, record_module_outcome, tally_from,
  tally_module_outcomes,
}

abbrev pub is_installed : ModuleOutcome → Bool
is_installed installed = true
is_installed _ = false

abbrev pub is_disabled : ModuleOutcome → Bool
is_disabled disabled = true
is_disabled _ = false

abbrev pub is_skipped : ModuleOutcome → Bool
is_skipped skipped = true
is_skipped _ = false

abbrev pub is_failed_query : ModuleOutcome → Bool
is_failed_query failed_query = true
is_failed_query _ = false

abbrev pub is_failed_install : ModuleOutcome → Bool
is_failed_install failed_install = true
is_failed_install _ = false

-- How often each outcome stands in a list.
abbrev pub counts : List ModuleOutcome → ModuleOutcomeTally
counts os = record {
  installs = count_if is_installed os;
  disables = count_if is_disabled os;
  skips = count_if is_skipped os;
  query_failures = count_if is_failed_query os;
  install_failures = count_if is_failed_install os;
}

abbrev plus : ModuleOutcomeTally → ModuleOutcomeTally → ModuleOutcomeTally
plus t u = record {
  installs = t.installs + u.installs;
  disables = t.disables + u.disables;
  skips = t.skips + u.skips;
  query_failures = t.query_failures + u.query_failures;
  install_failures = t.install_failures + u.install_failures;
}

-- No slot of `t` overflows when `n` more outcomes are counted.
record HasRoom (t : ModuleOutcomeTally) (n : ℕ) : Type 0 where
  installs : t.installs + n < u64_mod
  disables : t.disables + n < u64_mod
  skips : t.skips + n < u64_mod
  query_failures : t.query_failures + n < u64_mod
  install_failures : t.install_failures + n < u64_mod

tally_from-counts :
    (t : ModuleOutcomeTally) (os : List ModuleOutcome)
    → HasRoom t (length os)
    → tally_from t os ≡ plus t (counts os)
unfolding tally_from
tally_from-counts t [] h = ground arith
tally_from-counts t (pending ∷ os) h = tally_from-counts t os (omega arith) ∙ ground arith
tally_from-counts t (installed ∷ os) h =
    tally_from-counts (tally_one t installed) os (omega arith) ∙ ground arith
tally_from-counts t (disabled ∷ os) h =
    tally_from-counts (tally_one t disabled) os (omega arith) ∙ ground arith
tally_from-counts t (skipped ∷ os) h =
    tally_from-counts (tally_one t skipped) os (omega arith) ∙ ground arith
tally_from-counts t (failed_query ∷ os) h =
    tally_from-counts (tally_one t failed_query) os (omega arith) ∙ ground arith
tally_from-counts t (failed_install ∷ os) h =
    tally_from-counts (tally_one t failed_install) os (omega arith) ∙ ground arith

pub tally-counts :
    (os : List ModuleOutcome) → length os < u64_mod → tally_module_outcomes os ≡ counts os
unfolding tally_module_outcomes
tally-counts os h = tally_from-counts zero_tally os (omega arith) ∙ ground arith

abbrev one_if : Bool → ℕ
one_if b = if b then 1 else 0

count_if-set :
    (p : ModuleOutcome → Bool) (os : List ModuleOutcome) (i : ℕ) (old new : ModuleOutcome)
    → get_elem? os i ≡ some old
    → count_if p (set os i new) + one_if (p old) ≡ count_if p os + one_if (p new)
count_if-set p [] i old new h = cc
count_if-set p (o ∷ os) zero old new h = ground arith
count_if-set p (o ∷ os) (suc i) old new h = omega (arith, count_if-set p os i old new h)

counted_below :
    (p : ModuleOutcome → Bool) (os : List ModuleOutcome) (i : ℕ) (old new : ModuleOutcome)
    → length os < u64_mod
    → get_elem? os i ≡ some old
    → (one_if (p old) ≤ count_if p os)
      × (count_if p os - one_if (p old) + one_if (p new) < u64_mod)
      × (count_if p (set os i new) ≡ count_if p os - one_if (p old) + one_if (p new))
counted_below p os i old new room h =
    let e = count_if-set p os i old new h in
    let below = count_if-le-length p (set os i new) in
    ground (arith, e, below, length-set os i new, one_if_le os i old h)
  where
    one_if_le :
        (os : List ModuleOutcome) (i : ℕ) (old : ModuleOutcome)
        → get_elem? os i ≡ some old
        → one_if (p old) ≤ count_if p os
    one_if_le [] i old h = cc
    one_if_le (o ∷ os) zero old h = ground arith
    one_if_le (o ∷ os) (suc i) old h = omega (arith, one_if_le os i old h)

counts-set :
    (os : List ModuleOutcome) (i : ℕ) (old new : ModuleOutcome)
    → length os < u64_mod
    → get_elem? os i ≡ some old
    → (record_module_outcome old (counts os) new).1 ≡ counts (set os i new)
unfolding record_module_outcome
counts-set os i old new room h =
    let a = counted_below is_installed os i old new room h in
    let b = counted_below is_disabled os i old new room h in
    let c = counted_below is_skipped os i old new room h in
    let d = counted_below is_failed_query os i old new room h in
    let e = counted_below is_failed_install os i old new room h in ground arith

-- Where a list of fewer than 2 ^ 64 outcomes has an outcome replaced at a position, adjusting the
-- tally of the list by that replacement gives the tally of the new list.
pub record_module_outcome-recount :
    (os : List ModuleOutcome) (i : ℕ) (old new : ModuleOutcome)
    → length os < u64_mod
    → get_elem? os i ≡ some old
    → (record_module_outcome old (tally_module_outcomes os) new).1
      ≡ tally_module_outcomes (set os i new)
record_module_outcome-recount os i old new room h =
    let small : length (set os i new) < u64_mod = omega (arith, length-set os i new) in
    rw (tally-counts os room, tally-counts (set os i new) small) (counts-set os i old new room h)
