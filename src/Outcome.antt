-- ===== src/Outcome.antt =====
-- Addictol/Include/Core/AdModuleOutcome.h: what became of a module, and the tally of outcomes.
pub mod Recount
use addictol.Base.{ℕ, ◌-◌, Bool, true, false, List, [], ◌∷◌, ltb, add64, if◌then◌else◌}

pub data ModuleOutcome : Type 0 where
  pending installed disabled skipped failed_query failed_install : ModuleOutcome

-- `std::array<uint64_t, 5>`, its slots in order.
pub record ModuleOutcomeTally : Type 0 where
  pub installs : ℕ
  pub disables : ℕ
  pub skips : ℕ
  pub query_failures : ℕ
  pub install_failures : ℕ

abbrev pub zero_tally : ModuleOutcomeTally
zero_tally = record {
  installs = 0;
  disables = 0;
  skips = 0;
  query_failures = 0;
  install_failures = 0;
}

-- `++*count`, or `--*count` where it is above 0.
abbrev pub step_count : Bool → ℕ → ℕ
step_count true n = add64 n 1
step_count false n = if ltb 0 n then n - 1 else n

-- The lambda `update`: a pending outcome has no slot.
unfoldable pub update : ModuleOutcomeTally → ModuleOutcome → Bool → ModuleOutcomeTally
update t installed up = record t { installs = step_count up t.installs }
update t disabled up = record t { disables = step_count up t.disables }
update t skipped up = record t { skips = step_count up t.skips }
update t failed_query up = record t { query_failures = step_count up t.query_failures }
update t failed_install up = record t { install_failures = step_count up t.install_failures }
update t pending up = t

-- The new outcome, and the new tally.
unfoldable pub record_module_outcome :
    ModuleOutcome → ModuleOutcomeTally → ModuleOutcome → ModuleOutcome × ModuleOutcomeTally
unfolding update
record_module_outcome current tally next = (next, update (update tally current false) next true)

-- The switch of the recount.
unfoldable pub tally_one : ModuleOutcomeTally → ModuleOutcome → ModuleOutcomeTally
tally_one t installed = record t { installs = add64 t.installs 1 }
tally_one t disabled = record t { disables = add64 t.disables 1 }
tally_one t skipped = record t { skips = add64 t.skips 1 }
tally_one t failed_query = record t { query_failures = add64 t.query_failures 1 }
tally_one t failed_install = record t { install_failures = add64 t.install_failures 1 }
tally_one t pending = t

unfoldable pub tally_from : ModuleOutcomeTally → List ModuleOutcome → ModuleOutcomeTally
unfolding tally_one
tally_from tally [] = tally
tally_from tally (o ∷ os) = tally_from (tally_one tally o) os

unfoldable pub tally_module_outcomes : List ModuleOutcome → ModuleOutcomeTally
unfolding tally_from
tally_module_outcomes os = tally_from zero_tally os
