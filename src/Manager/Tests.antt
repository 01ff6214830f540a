-- ===== src/Manager/Tests.antt =====
-- A manager on a small host, and the theorems at it.
use addictol.Base.{
  ◌≢◌, ℕ, ◌≡◌, ◌<◌, refl, true, false, none, some, List, [], ◌∷◌, arith, length, u64_mod,
}
use addictol.Base.Text.{Text, bytes, text_lt}
use addictol.Base.OrderedMap.{find, try_emplace, erase, text_order, nat_order}
use addictol.Outcome.{pending, installed, disabled, record_module_outcome, tally_module_outcomes}
use addictol.Outcome.Recount.{record_module_outcome-recount}
use addictol.Manager.{
  Module, Sections, Host, Manager, register_module, unregister, push_registration, k_load,
  last_index, record_outcome, record_at, clear_skip,
}
use addictol.Manager.Snapshots.{
  release_defender, initialize_defender, take_defender, restore_defender,
}
use addictol.Manager.Runs.{
  query_load_all, install_one, install_load_all, query_all_by_message, query_loop, query_one,
  run_query, safe_query_mod, erase_all, install_preload_all, unregister_preload_all, install_loop,
  safe_install_mod,
}
use addictol.Manager.Calls.{
  Call, register_call, query_load_call, install_preload_call, empty_manager, run, step,
}
use addictol.Manager.Tallies.{outcomes, run-tally}
use addictol.Manager.Roundtrip.{unregister-register_module, register_module_accepts}
use addictol.Manager.Survivors.{
  survivors, unless_empty, query_load_all-survivors, query_all_by_message-survivors,
}
use addictol.Manager.Restore.{install_one_restores, install_load_all_copies}

abbrev plain : ℕ → Text → Module
plain id name = record {
  id = id;
  name = name;
  option = none;
  listener_messages = [];
  papyrus_listener = false;
  process_defender = false;
}

abbrev threads : Module
threads = plain 1 (bytes "Threads")

-- Its setting, number 7, is off.
abbrev facegen : Module
facegen = record (plain 2 (bytes "Facegen")) { option = some 7 }

-- Its installation throws after it has written to the image.
abbrev allocator : Module
allocator = record (plain 3 (bytes "Allocator")) { process_defender = true }

abbrev image : Sections
image = record { code = 1 ∷ 2 ∷ []; rdata = 3 ∷ []; rwdata = [] }

-- The world is the image.
abbrev host : Host Sections
host = record {
  setting_value = λ w o. false;
  find_setting = λ o. none;
  register_metrics = λ m w. w;
  do_query = λ m w. (record { skip = none; returned = some true }, w);
  do_install = λ m msg w. (record { skip = none; returned = none }, record w { code = 9 ∷ 9 ∷ [] });
  do_listener = λ m msg w. (some true, w);
  do_papyrus = λ m w. (some true, w);
  sections = λ w. w;
  write_sections = λ s w. s;
  buffers_allocated = λ w. true;
}

abbrev calls : List Call
calls =
    register_call (some threads) 0
    ∷ register_call (some facegen) 0
    ∷ query_load_call
    ∷ install_preload_call
    ∷ []

abbrev two_modules : Manager Sections
two_modules = record (empty_manager image) {
  modules = (bytes "Facegen", facegen) ∷ (bytes "Threads", threads) ∷ [];
}

abbrev by_load : Manager Sections
by_load = record (empty_manager image) { rl_modules = (3, two_modules.modules) ∷ [] }

abbrev armed : Manager Sections
armed = record (empty_manager image) {
  defender = record {
    code = some (0 ∷ 0 ∷ []);
    rdata = some (0 ∷ []);
    rwdata = some [];
    take = false;
    faulted = false;
  };
}

record_module_outcome-recount_example :
    (record_module_outcome pending (tally_module_outcomes (installed ∷ pending ∷ [])) disabled).1
    ≡ tally_module_outcomes (installed ∷ disabled ∷ [])
record_module_outcome-recount_example =
    record_module_outcome-recount (installed ∷ pending ∷ []) 1 pending disabled (omega arith) refl

run-tally_example :
    (run host (empty_manager image) calls).tally
    ≡ tally_module_outcomes (outcomes (run host (empty_manager image) calls).registrations)
unfolding run step register_module push_registration query_load_all query_loop query_one run_query
    safe_query_mod erase_all erase install_preload_all unregister_preload_all install_load_all
    install_loop install_one safe_install_mod release_defender initialize_defender take_defender
    restore_defender record_outcome record_at last_index clear_skip find try_emplace text_lt
run-tally_example = run-tally host image calls few
  where
    few : length (run host (empty_manager image) calls).registrations < u64_mod
    few = omega arith

register_module_accepts_example : (register_module host two_modules (some threads) 0).1 ≡ false
unfolding find text_lt
register_module_accepts_example = (register_module_accepts host two_modules threads 0).0

unregister-register_module_example :
    (unregister (register_module host two_modules (some allocator) 4).0 (some allocator) 4).1 ≡ true
unfolding register_module find text_lt
unregister-register_module_example =
    (unregister-register_module host two_modules allocator 4 (λ _. λ e. cc) refl).0

query_load_all-survivors_example :
    (query_load_all host two_modules).modules
    ≡ survivors host two_modules two_modules.modules k_load
unfolding text_lt
query_load_all-survivors_example =
    query_load_all-survivors host two_modules ((refl, tt), (tt, tt)) (refl, (refl, tt))

query_all_by_message-survivors_example :
    (find 3
        (query_all_by_message host by_load
          (some (record { type = 3; holds_data = true }))).rl_modules
      ≡ unless_empty (survivors host by_load two_modules.modules 4))
    × ((other : ℕ)
        → other ≢ 3
        → find other
            (query_all_by_message host by_load
              (some (record { type = 3; holds_data = true }))).rl_modules
          ≡ find other by_load.rl_modules)
unfolding find text_lt
query_all_by_message-survivors_example =
    query_all_by_message-survivors host by_load (record { type = 3; holds_data = true })
      two_modules.modules refl (tt, tt) ((refl, tt), (tt, tt)) (refl, (refl, tt))

install_one_restores_example : host.sections (install_one host armed allocator none 0).world ≡ image
install_one_restores_example =
    install_one_restores host armed allocator none 0 (λ s w. refl) refl refl refl

install_load_all_copies_example : (install_load_all host two_modules).defender.faulted ≡ false
install_load_all_copies_example = (install_load_all_copies host two_modules refl refl).0

-- The disabled module is recorded and removed; the map is emptied after the installation.
disabled_is_removed : (query_load_all host two_modules).modules ≡ (bytes "Threads", threads) ∷ []
unfolding query_load_all query_loop query_one run_query safe_query_mod record_outcome record_at
    last_index erase_all erase text_lt
disabled_is_removed = refl
