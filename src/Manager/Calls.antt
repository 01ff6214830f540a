-- ===== src/Manager/Calls.antt =====
-- The manager's public methods as calls, and histories of calls.
use addictol.Base.{ℕ, Bool, Option, List, [], ◌∷◌, false}
use addictol.Base.Text.{Text}
use addictol.Outcome.{zero_tally, pending}
use addictol.Manager.{
  Module, Message, Host, Manager, register_module, unregister, unregister_by_name,
}
use addictol.Manager.Snapshots.{empty_defender}
use addictol.Manager.Runs.{
  query_load_all, install_load_all, query_all_by_message, install_all_by_message,
  listener_load_all_by_message, listener_all_papyrus, install_preload_all,
}

pub data Call : Type 0 where
  register_call unregister_call : Option Module → ℕ → Call
  unregister_name_call : Option Text → ℕ → Call
  query_load_call install_load_call install_preload_call : Call
  query_message_call install_message_call listener_call : Option Message → Call
  papyrus_call : Bool → Call

abbrev pub empty_manager : {World : Type 0} → World → Manager World
empty_manager w = record {
  modules = [];
  rl_modules = [];
  registrations = [];
  defender = empty_defender;
  tally = zero_tally;
  cells = λ _. record { skipped = false; skip_reason = []; outcome = pending };
  world = w;
}

module _ {World : Type 0} (host : Host World) where
  unfoldable pub step : Manager World → Call → Manager World
  step s (register_call m stage) = (register_module host s m stage).0
  step s (unregister_call m stage) = (unregister s m stage).0
  step s (unregister_name_call name stage) = (unregister_by_name s name stage).0
  step s query_load_call = query_load_all host s
  step s install_load_call = install_load_all host s
  step s install_preload_call = install_preload_all host s
  step s (query_message_call msg) = query_all_by_message host s msg
  step s (install_message_call msg) = install_all_by_message host s msg
  step s (listener_call msg) = listener_load_all_by_message host s msg
  step s (papyrus_call vm) = listener_all_papyrus host s vm

  unfoldable pub run : Manager World → List Call → Manager World
  run s [] = s
  run s (c ∷ cs) = run (step s c) cs
