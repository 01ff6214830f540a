-- ===== src/Manager.antt =====
-- Addictol/Include/Core/AdModuleManager.h, AdModule.h, AdModuleDefender.h and the registration half of
-- Addictol/Source/Core/AdModuleManager.cpp: the manager's state, the outcomes it records, and
-- Register, Unregister and UnregisterByName.
pub mod Snapshots
pub mod Runs
pub mod Calls
pub mod Stable
pub mod Tallies
pub mod Roundtrip
pub mod Survivors
pub mod Restore
pub mod Tests
use addictol.Base.{
  ℕ, ◌-◌, ◌≡◌, Bool, true, false, Option, none, some, List, [], ◌∷◌, ◌++◌, ◌==◌, ◌&&◌, get_elem?,
  set, is_some, suc, if◌then◌else◌,
}
use addictol.Base.Text.{Text, is_empty}
use addictol.Base.OrderedMap.{find, try_emplace, insert_or_assign, erase, text_order, nat_order}
use addictol.Outcome.{
  ModuleOutcome, pending, skipped, ModuleOutcomeTally, record_module_outcome, zero_tally,
}

-- What never changes in a `Module`; `id` is the object that a `ModulePtr` points at.
pub record Module : Type 0 where
  pub id : ℕ
  pub name : Text
  pub option : Option ℕ
  pub listener_messages : List ℕ
  pub papyrus_listener : Bool
  pub process_defender : Bool

-- The mutable fields of a `Module`.
pub record ModuleCell : Type 0 where
  pub skipped : Bool
  pub skip_reason : Text
  pub outcome : ModuleOutcome

-- `F4SE::MessagingInterface::Message`; `holds_data` is its `data`, which these handlers only test.
pub record Message : Type 0 where
  pub type : ℕ
  pub holds_data : Bool

-- A virtual call of a module: the last reason given to `Skip`, if any, and the result, `none` where
-- an exception left the call.
pub record Reply : Type 0 where
  pub skip : Option Text
  pub returned : Option Bool

-- The bytes of `.text`, `.rdata` and `.data` of the game's image.
pub record Sections : Type 0 where
  pub code : List ℕ
  pub rdata : List ℕ
  pub rwdata : List ℕ

-- What the manager uses and does not implement: the modules' virtual functions, the settings, the
-- telemetry hub and the process image.
pub record Host (World : Type 0) : Type 0 where
  pub setting_value : World → ℕ → Bool
  pub find_setting : ℕ → Option (Text × Text)
  pub register_metrics : Module → World → World
  pub do_query : Module → World → Reply × World
  pub do_install : Module → Option Message → World → Reply × World
  pub do_listener : Module → Message → World → Option Bool × World
  pub do_papyrus : Module → World → Option Bool × World
  pub sections : World → Sections
  pub write_sections : Sections → World → World
  pub buffers_allocated : World → Bool

-- `ModuleDefender`: its three buffers, and `m_take`. `faulted` notes a `memcpy` from a null buffer.
pub record Defender : Type 0 where
  pub code : Option (List ℕ)
  pub rdata : Option (List ℕ)
  pub rwdata : Option (List ℕ)
  pub take : Bool
  pub faulted : Bool

-- `ModuleRegistrationStatus`. The stage is `ModuleManager::Type`: 0 for kLoad, one more than the
-- message otherwise.
pub record Registration : Type 0 where
  pub module_ : Module
  pub stage : ℕ
  pub outcome : ModuleOutcome
  pub skip_reason : Text
  pub setting_section : Text
  pub setting_key : Text

abbrev pub ModuleMap : Type 0
ModuleMap = List (Text × Module)

pub record Manager (World : Type 0) : Type 0 where
  pub modules : ModuleMap
  pub rl_modules : List (ℕ × ModuleMap)
  pub registrations : List Registration
  pub defender : Defender
  pub tally : ModuleOutcomeTally
  pub cells : ℕ → ModuleCell
  pub world : World

abbrev pub k_load : ℕ
k_load = 0

-- The position found by `find_if` from `rbegin`.
unfoldable pub last_index {ℓ} : {A : Type ℓ} → (A → Bool) → List A → Option ℕ
last_index p [] = none
last_index p (x ∷ xs) = elim (last_index p xs) [
  | some i ↦ some (suc i)
  | none ↦ if p x then some 0 else none
]

abbrev pub is_registration : Module → ℕ → Registration → Bool
is_registration m stage r = r.module_.id == m.id && r.stage == stage

abbrev pub update_cell : (ℕ → ModuleCell) → ℕ → ModuleCell → ℕ → ModuleCell
update_cell cells id cell j = if j == id then cell else cells j

abbrev pub is_skip : ModuleOutcome → Bool
is_skip skipped = true
is_skip _ = false

module _ {World : Type 0} where
  -- `Module::ClearSkip`.
  unfoldable pub clear_skip : Manager World → Module → Manager World
  clear_skip s m = record s {
    cells = update_cell s.cells m.id (record (s.cells m.id) { skipped = false; skip_reason = [] });
  }

  -- The part of RecordOutcome below the search.
  unfoldable pub record_at :
      Manager World → Module → ModuleOutcome → ℕ → Registration → Manager World
  record_at s m outcome i r =
      let (current, tally) = record_module_outcome r.outcome s.tally outcome in
      record s {
        cells = update_cell s.cells m.id (record (s.cells m.id) { outcome = outcome });
        registrations = set s.registrations i (record r {
          outcome = current;
          skip_reason = if is_skip outcome then (s.cells m.id).skip_reason else [];
        });
        tally = tally;
      }

  unfoldable pub record_outcome : Manager World → Module → ℕ → ModuleOutcome → Manager World
  record_outcome s m stage outcome = elim (last_index (is_registration m stage) s.registrations) [
    | none ↦ s
    | some i ↦ elim (get_elem? s.registrations i) [ none ↦ s | some r ↦ record_at s m outcome i r ]
  ]

-- The modules of a message; `Register` makes a missing map on the way.
abbrev pub by_message : {World : Type 0} → Manager World → ℕ → ModuleMap
by_message s msg_id = elim (find msg_id s.rl_modules) [ none ↦ [] | some modules ↦ modules ]

module _ {World : Type 0} (host : Host World) where
  abbrev setting_names : Option ℕ → Text × Text
  setting_names none = ([], [])
  setting_names (some o) = elim (host.find_setting o) [ none ↦ ([], []) | some names ↦ names ]

  -- The end of Register, after the module is in its map.
  unfoldable pub push_registration : Manager World → Module → ℕ → Manager World
  push_registration s m stage =
      let (section, key) = setting_names m.option in
      record s {
        registrations =
            s.registrations
            ++ record {
              module_ = m;
              stage = stage;
              outcome = pending;
              skip_reason = [];
              setting_section = section;
              setting_key = key;
            }
              ∷ [];
        world = host.register_metrics m s.world;
      }

  unfoldable pub register_module : Manager World → Option Module → ℕ → Manager World × Bool
  register_module s none stage = (s, false)
  register_module s (some m) stage =
      if is_empty m.name
      then (s, false)
      else if stage == k_load
      then (if is_some (find m.name s.modules) then (s, false) else (
        push_registration (record s { modules = try_emplace m.name m s.modules }) m stage,
        true,
      ))
      else if is_some (find m.name (by_message s (stage - 1)))
      then (s, false)
      else (
        push_registration
            (record s {
              rl_modules =
                  insert_or_assign (stage - 1) (try_emplace m.name m (by_message s (stage - 1)))
                    s.rl_modules;
            })
            m stage,
        true,
      )

-- The map of a message goes when its last module does.
unfoldable pub put_or_erase : ℕ → ModuleMap → List (ℕ × ModuleMap) → List (ℕ × ModuleMap)
put_or_erase msg_id [] rl = erase msg_id rl
put_or_erase msg_id (e ∷ modules) rl = insert_or_assign msg_id (e ∷ modules) rl

module _ {World : Type 0} where
  -- The common tail of Unregister and UnregisterByName, below their checks.
  unfoldable pub remove_name : Manager World → Text → ℕ → Manager World × Bool
  remove_name s name stage =
      if stage == k_load
      then (if is_some (find name s.modules)
          then (record s { modules = erase name s.modules }, true)
          else (s, false))
      else elim (find (stage - 1) s.rl_modules) [
        | none ↦ (s, false)
        | some modules ↦
            (if is_some (find name modules)
              then (
                record s {
                  rl_modules = put_or_erase (stage - 1) (erase name modules) s.rl_modules;
                },
                true,
              )
              else (s, false))
      ]

  unfoldable pub unregister : Manager World → Option Module → ℕ → Manager World × Bool
  unregister s none stage = (s, false)
  unregister s (some m) stage = if is_empty m.name then (s, false) else remove_name s m.name stage

  -- `none` is a null `a_name`.
  unfoldable pub unregister_by_name : Manager World → Option Text → ℕ → Manager World × Bool
  unregister_by_name s none stage = (s, false)
  unregister_by_name s (some name) stage =
      if is_empty name then (s, false) else remove_name s name stage
