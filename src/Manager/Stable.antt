-- ===== src/Manager/Stable.antt =====
-- One induction over the manager's calls for every property of its registrations and counters.
use addictol.Base.{
  if_both, ℕ, ◌+◌, ◌-◌, ◌%◌, Bool, true, false, inl, inr, Option, none, some, List, [], ◌∷◌,
  Option-cases, if◌then◌else◌, is_some, ◌==◌, ◌&&◌, not,
}
use addictol.Base.Text.{Text, is_empty}
use addictol.Base.OrderedMap.{find, erase, text_order, nat_order}
use addictol.Outcome.{ModuleOutcome, installed, disabled, failed_install}
use addictol.Manager.{
  Module, ModuleCell, Message, Host, Manager, ModuleMap, Defender, k_load, clear_skip,
  record_outcome, push_registration, register_module, by_message, remove_name, unregister,
  unregister_by_name, put_or_erase,
}
use addictol.Manager.Snapshots.{
  initialize_defender, take_defender, release_defender, restore_from_snapshot,
}
use addictol.Manager.Runs.{
  query_one, run_query, query_loop, query_load_all, query_all_by_message, install_one, install_loop,
  install_load_all, install_all_by_message, listener_one, listener_loop,
  listener_load_all_by_message, papyrus_loop, papyrus_one, listener_all_papyrus,
  unregister_preload_all, install_preload_all, safe_query_mod, safe_install_mod, refusal,
  if_defended, has_listener, k_post_load_game, k_game_data_ready,
}
use addictol.Manager.Calls.{
  Call, register_call, unregister_call, unregister_name_call, query_load_call, install_load_call,
  install_preload_call, query_message_call, install_message_call, listener_call, papyrus_call, step,
  run,
}

-- A property that sees the registrations and the counters only, and survives each change of them.
pub record IsStable {World : Type 0} (host : Host World) (P : Manager World → Type 0) : Type 0 where
  pub frame :
      (s : Manager World) (modules : ModuleMap) (rl : List (ℕ × ModuleMap)) (d : Defender)
      (cells : ℕ → ModuleCell) (w : World)
      → P s
      → P (record s { modules = modules; rl_modules = rl; defender = d; cells = cells; world = w })
  pub outcome :
      (s : Manager World) (m : Module) (stage : ℕ) (o : ModuleOutcome)
      → P s
      → P (record_outcome s m stage o)
  pub push :
      (s : Manager World) (m : Module) (stage : ℕ) → P s → P (push_registration host s m stage)

module _ {World : Type 0} (host : Host World) (P : Manager World → Type 0)
    (stable : IsStable host P) where
  abbrev P0 : Manager World × Bool → Type 0
  P0 r = P r.0

  run_query-stable :
      (s : Manager World) (m : Module) (stage : ℕ) → P s → P (run_query host s m stage).0
  unfolding run_query
  run_query-stable s m stage p =
      let (accepted, t) = safe_query_mod host (clear_skip s m) m in
      let q : P t = stable.frame s s.modules s.rl_modules s.defender _ _ p in
      if_both P0 accepted _ _ q (stable.outcome t m stage _ q)

  query_one-stable :
      (s : Manager World) (m : Module) (stage : ℕ) → P s → P (query_one host s m stage).0
  unfolding query_one
  query_one-stable s m stage p = elim (Option-cases m.option) [
    | inl e ↦ rw (e, query_one) (run_query-stable s m stage p)
    | inr (o, e) ↦
        rw (e, query_one)
          (if_both P0 (host.setting_value s.world o) _ _ (run_query-stable s m stage p)
            (stable.outcome s m stage disabled p))
  ]

  query_loop-stable :
      (s : Manager World) (modules : ModuleMap) (stage : ℕ)
      → P s
      → P (query_loop host s modules stage).0
  unfolding query_loop
  query_loop-stable s [] stage p = p
  query_loop-stable s ((name, m) ∷ rest) stage p =
      query_loop-stable (query_one host s m stage).0 rest stage (query_one-stable s m stage p)

  install_one-stable :
      (s : Manager World) (m : Module) (msg : Option Message) (stage : ℕ)
      → P s
      → P (install_one host s m msg stage)
  unfolding install_one restore_from_snapshot
  install_one-stable s m msg stage p =
      let taken : P (if_defended host m (take_defender host) s) =
        if_both P m.process_defender _ _ (stable.frame s _ _ _ _ _ p) p in
      let (done, t) =
        safe_install_mod host (clear_skip (if_defended host m (take_defender host) s) m) m msg in
      let q : P t = stable.frame (if_defended host m (take_defender host) s) _ _ _ _ _ taken in
      let r : P (record_outcome t m stage (refusal t m failed_install)) =
        stable.outcome t m stage _ q in
      if_both P done _ _ (stable.outcome t m stage installed q)
        (if_both P m.process_defender _ _ (stable.frame _ _ _ _ _ _ r) r)

  install_loop-stable :
      (s : Manager World) (modules : ModuleMap) (msg : Option Message) (stage : ℕ)
      → P s
      → P (install_loop host s modules msg stage)
  unfolding install_loop
  install_loop-stable s [] msg stage p = p
  install_loop-stable s ((name, m) ∷ rest) msg stage p =
      install_loop-stable (install_one host s m msg stage) rest msg stage
        (install_one-stable s m msg stage p)

  installs-stable :
      (s : Manager World) (modules : ModuleMap) (msg : Option Message) (stage : ℕ)
      → P s
      → P (release_defender (install_loop host (initialize_defender host s) modules msg stage))
  unfolding release_defender initialize_defender
  installs-stable s modules msg stage p =
      stable.frame _ _ _ _ _ _
        (install_loop-stable _ modules msg stage (stable.frame s _ _ _ _ _ p))

  listener_loop-stable :
      (s : Manager World) (modules : ModuleMap) (msg : Message)
      → P s
      → P (listener_loop host s modules msg)
  unfolding listener_loop listener_one
  listener_loop-stable s [] msg p = p
  listener_loop-stable s ((name, m) ∷ rest) msg p =
      listener_loop-stable (listener_one host s m msg) rest msg (
        if_both P (has_listener m.listener_messages msg.type) _ _
          (if_both P (msg.type == k_post_load_game && not msg.holds_data) _ _ p
            (stable.frame s _ _ _ _ _ p))
          p)

  papyrus_loop-stable :
      (s : Manager World) (modules : ModuleMap) → P s → P (papyrus_loop host s modules)
  unfolding papyrus_loop
  papyrus_loop-stable s [] p = p
  papyrus_loop-stable s ((name, m) ∷ rest) p =
      papyrus_loop-stable (papyrus_one host s m) rest
        (if_both P m.papyrus_listener _ _ (stable.frame s _ _ _ _ _ p) p)

  remove_name-stable :
      (s : Manager World) (name : Text) (stage : ℕ) → P s → P (remove_name s name stage).0
  unfolding remove_name
  remove_name-stable s name stage p =
      if_both P0 (stage == k_load) _ _
        (if_both P0 (is_some (find name s.modules)) _ _ (stable.frame s _ _ _ _ _ p) p)
        (by_cases (find (stage - 1) s.rl_modules))
    where
      by_cases :
          (found : Option ModuleMap)
          → P0 (elim found [
            | none ↦ (s, false)
            | some modules ↦
                (if is_some (find name modules)
                  then (
                    record s {
                      rl_modules = put_or_erase (stage - 1) (erase name modules) s.rl_modules;
                    },
                    true,
                  )
                  else (s, false))
          ])
      by_cases none = p
      by_cases (some modules) =
          if_both P0 (is_some (find name modules)) _ _ (stable.frame s _ _ _ _ _ p) p

  register_module-stable :
      (s : Manager World) (ptr : Option Module) (stage : ℕ)
      → P s
      → P (register_module host s ptr stage).0
  unfolding register_module
  register_module-stable s none stage p = p
  register_module-stable s (some m) stage p = if_both P0 (is_empty m.name) _ _ p (
      if_both P0 (stage == k_load) _ _
        (if_both P0 (is_some (find m.name s.modules)) _ _ p
          (stable.push _ m stage (stable.frame s _ _ _ _ _ p)))
        (if_both P0 (is_some (find m.name (by_message s (stage - 1)))) _ _ p
          (stable.push _ m stage (stable.frame s _ _ _ _ _ p))))

  unregister-stable :
      (s : Manager World) (ptr : Option Module) (stage : ℕ) → P s → P (unregister s ptr stage).0
  unfolding unregister
  unregister-stable s none stage p = p
  unregister-stable s (some m) stage p =
      if_both P0 (is_empty m.name) _ _ p (remove_name-stable s m.name stage p)

  unregister_by_name-stable :
      (s : Manager World) (name : Option Text) (stage : ℕ)
      → P s
      → P (unregister_by_name s name stage).0
  unfolding unregister_by_name
  unregister_by_name-stable s none stage p = p
  unregister_by_name-stable s (some name) stage p =
      if_both P0 (is_empty name) _ _ p (remove_name-stable s name stage p)

  query_all_by_message-stable :
      (s : Manager World) (msg : Option Message) → P s → P (query_all_by_message host s msg)
  unfolding query_all_by_message
  query_all_by_message-stable s none p = p
  query_all_by_message-stable s (some msg) p =
      elim (Option-cases (find (msg.type % 256) s.rl_modules)) [
        | inl e ↦ rw (e, query_all_by_message) p
        | inr (modules, e) ↦
            rw (e, query_all_by_message)
              (stable.frame _ _ _ _ _ _ (query_loop-stable s modules ((msg.type + 1) % 256) p))
      ]

  install_all_by_message-stable :
      (s : Manager World) (msg : Option Message) → P s → P (install_all_by_message host s msg)
  unfolding install_all_by_message
  install_all_by_message-stable s none p = p
  install_all_by_message-stable s (some msg) p =
      elim (Option-cases (find (msg.type % 256) s.rl_modules)) [
        | inl e ↦ rw (e, install_all_by_message) p
        | inr (modules, e) ↦
            rw (e, install_all_by_message)
              (if_both P (msg.type == k_game_data_ready && not msg.holds_data) _ _ p
                (installs-stable s modules (some msg) ((msg.type + 1) % 256) p))
      ]

  listener-stable :
      (s : Manager World) (msg : Option Message) → P s → P (listener_load_all_by_message host s msg)
  unfolding listener_load_all_by_message
  listener-stable s none p = p
  listener-stable s (some msg) p = listener_loop-stable s s.modules msg p

  -- Every call keeps a stable property.
  pub step-stable : (s : Manager World) (c : Call) → P s → P (step host s c)
  unfolding step query_load_all install_load_all install_preload_all unregister_preload_all
      listener_all_papyrus
  step-stable s (register_call m stage) p = register_module-stable s m stage p
  step-stable s (unregister_call m stage) p = unregister-stable s m stage p
  step-stable s (unregister_name_call name stage) p = unregister_by_name-stable s name stage p
  step-stable s query_load_call p =
      stable.frame _ _ _ _ _ _ (query_loop-stable s s.modules k_load p)
  step-stable s install_load_call p = installs-stable s s.modules none k_load p
  step-stable s install_preload_call p =
      stable.frame _ _ _ _ _ _ (installs-stable s s.modules none k_load p)
  step-stable s (query_message_call msg) p = query_all_by_message-stable s msg p
  step-stable s (install_message_call msg) p = install_all_by_message-stable s msg p
  step-stable s (listener_call msg) p = listener-stable s msg p
  step-stable s (papyrus_call vm) p = if_both P vm _ _ (papyrus_loop-stable s s.modules p) p

  pub run-stable : (s : Manager World) (cs : List Call) → P s → P (run host s cs)
  unfolding run
  run-stable s [] p = p
  run-stable s (c ∷ cs) p = run-stable (step host s c) cs (step-stable s c p)
