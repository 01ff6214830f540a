-- ===== src/Manager/Runs.antt =====
-- Addictol/Source/Core/AdModuleManager.cpp: the passes that query, install and notify the modules.
-- Locks are not modelled: every method holds the one mutex for all of its body.
use addictol.Base.{
  ℕ, ◌+◌, ◌%◌, Bool, true, false, not, Option, none, some, List, [], ◌∷◌, ◌==◌, ◌&&◌, ◌||◌,
  if◌then◌else◌,
}
use addictol.Base.Text.{Text}
use addictol.Base.OrderedMap.{find, erase, text_order, nat_order}
use addictol.Outcome.{ModuleOutcome, installed, disabled, skipped, failed_query, failed_install}
use addictol.Manager.{
  Module, ModuleCell, Message, Reply, Host, ModuleMap, Manager, k_load, update_cell, clear_skip,
  record_outcome, put_or_erase,
}
use addictol.Manager.Snapshots.{
  initialize_defender, take_defender, restore_defender, release_defender,
}

-- `F4SE::MessagingInterface::kPostLoadGame` and `kGameDataReady`, as `g_msgName` numbers them.
abbrev pub k_post_load_game : ℕ
k_post_load_game = 3

abbrev pub k_game_data_ready : ℕ
k_game_data_ready = 10

-- `listener_messages[a_msgType]`.
unfoldable pub has_listener : List ℕ → ℕ → Bool
has_listener [] type = false
has_listener (b ∷ bits) type = b == type || has_listener bits type

-- `Module::Skip` is called by the module itself, before it returns.
abbrev pub after_skip : Option Text → ModuleCell → ModuleCell
after_skip none c = c
after_skip (some reason) c = record c { skipped = true; skip_reason = reason }

abbrev pub cleared : ModuleCell → ModuleCell
cleared c = record c { skipped = false; skip_reason = [] }

-- An exception clears the skip and counts as a refusal.
abbrev pub cell_after : Reply → ModuleCell → ModuleCell
cell_after reply c = elim reply.returned [
  | none ↦ cleared (after_skip reply.skip c)
  | some b ↦ after_skip reply.skip c
]

abbrev pub succeeded : Option Bool → Bool
succeeded none = false
succeeded (some b) = b

module _ {World : Type 0} where
  abbrev pub with_reply : Manager World → Module → Reply × World → Bool × Manager World
  with_reply s m (reply, w) = (
    succeeded reply.returned,
    record s { cells = update_cell s.cells m.id (cell_after reply (s.cells m.id)); world = w },
  )

  -- The outcome of a refusal: `a_failed`, unless the module called `Skip`.
  abbrev pub refusal : Manager World → Module → ModuleOutcome → ModuleOutcome
  refusal s m failed = if (s.cells m.id).skipped then skipped else failed

unfoldable pub erase_all : List Module → ModuleMap → ModuleMap
erase_all [] modules = modules
erase_all (m ∷ removed) modules = erase_all removed (erase m.name modules)

module _ {World : Type 0} (host : Host World) where
  unfoldable pub safe_query_mod : Manager World → Module → Bool × Manager World
  safe_query_mod s m = with_reply s m (host.do_query m s.world)

  unfoldable pub safe_install_mod : Manager World → Module → Option Message → Bool × Manager World
  safe_install_mod s m msg = with_reply s m (host.do_install m msg s.world)

  -- Query one module, which is then kept or removed.
  unfoldable pub run_query : Manager World → Module → ℕ → Manager World × Bool
  unfolding safe_query_mod clear_skip
  run_query s m stage =
      let (accepted, t) = safe_query_mod (clear_skip s m) m in
      if accepted then (t, false) else (record_outcome t m stage (refusal t m failed_query), true)

  -- One round of the loops of QueryLoadAll and QueryAllByMessage.
  unfoldable pub query_one : Manager World → Module → ℕ → Manager World × Bool
  unfolding run_query
  query_one s m stage = elim m.option [
    | none ↦ run_query s m stage
    | some o ↦
        if host.setting_value s.world o
        then run_query s m stage
        else (record_outcome s m stage disabled, true)
  ]

  -- The loop, with the modules to remove.
  unfoldable pub query_loop : Manager World → ModuleMap → ℕ → Manager World × List Module
  query_loop s [] stage = (s, [])
  query_loop s ((name, m) ∷ rest) stage =
      let (t, removed) = query_one s m stage in
      let (u, others) = query_loop t rest stage in (u, if removed then m ∷ others else others)

  unfoldable pub query_load_all : Manager World → Manager World
  query_load_all s =
      let (t, removed) = query_loop s s.modules k_load in
      record t { modules = erase_all removed t.modules }

  -- `none` is a null `a_msg`. `(uint8_t)` and the cast to `Type` keep eight bits.
  unfoldable pub query_all_by_message : Manager World → Option Message → Manager World
  query_all_by_message s none = s
  query_all_by_message s (some msg) =
      let id = msg.type % 256 in
      elim (find id s.rl_modules) [
        | none ↦ s
        | some modules ↦
            let (t, removed) = query_loop s modules ((msg.type + 1) % 256) in
            record t { rl_modules = put_or_erase id (erase_all removed modules) t.rl_modules }
      ]

  abbrev pub if_defended : Module → (Manager World → Manager World) → Manager World → Manager World
  if_defended m f s = if m.process_defender then f s else s

  -- One round of the loops of InstallLoadAll and InstallAllByMessage.
  unfoldable pub install_one : Manager World → Module → Option Message → ℕ → Manager World
  unfolding safe_install_mod clear_skip take_defender restore_defender
  install_one s m msg stage =
      let (done, t) =
        safe_install_mod (clear_skip (if_defended m (take_defender host) s) m) m msg in
      if done
      then record_outcome t m stage installed
      else if_defended m (restore_defender host)
          (record_outcome t m stage (refusal t m failed_install))

  unfoldable pub install_loop : Manager World → ModuleMap → Option Message → ℕ → Manager World
  install_loop s [] msg stage = s
  install_loop s ((name, m) ∷ rest) msg stage =
      install_loop (install_one s m msg stage) rest msg stage

  unfoldable pub install_load_all : Manager World → Manager World
  install_load_all s =
      release_defender (install_loop (initialize_defender host s) s.modules none k_load)

  unfoldable pub install_all_by_message : Manager World → Option Message → Manager World
  install_all_by_message s none = s
  install_all_by_message s (some msg) = elim (find (msg.type % 256) s.rl_modules) [
    | none ↦ s
    | some modules ↦
        if msg.type == k_game_data_ready && not msg.holds_data
        then s
        else release_defender
            (install_loop (initialize_defender host s) modules (some msg) ((msg.type + 1) % 256))
  ]

  unfoldable pub listener_one : Manager World → Module → Message → Manager World
  unfolding has_listener
  listener_one s m msg =
      if has_listener m.listener_messages msg.type
      then (if msg.type == k_post_load_game && not msg.holds_data
          then s
          else record s { world = (host.do_listener m msg s.world).1 })
      else s

  unfoldable pub listener_loop : Manager World → ModuleMap → Message → Manager World
  listener_loop s [] msg = s
  listener_loop s ((name, m) ∷ rest) msg = listener_loop (listener_one s m msg) rest msg

  unfoldable pub listener_load_all_by_message : Manager World → Option Message → Manager World
  listener_load_all_by_message s none = s
  listener_load_all_by_message s (some msg) = listener_loop s s.modules msg

  unfoldable pub papyrus_one : Manager World → Module → Manager World
  papyrus_one s m =
      if m.papyrus_listener then record s { world = (host.do_papyrus m s.world).1 } else s

  unfoldable pub papyrus_loop : Manager World → ModuleMap → Manager World
  unfolding papyrus_one
  papyrus_loop s [] = s
  papyrus_loop s ((name, m) ∷ rest) = papyrus_loop (papyrus_one s m) rest

  -- The argument is whether `a_vm` is there.
  unfoldable pub listener_all_papyrus : Manager World → Bool → Manager World
  listener_all_papyrus s vm = if vm then papyrus_loop s s.modules else s

unfoldable pub unregister_preload_all : {World : Type 0} → Manager World → Manager World
unregister_preload_all s = record s { modules = [] }

unfoldable pub install_preload_all : {World : Type 0} → Host World → Manager World → Manager World
install_preload_all host s = unregister_preload_all (install_load_all host s)
