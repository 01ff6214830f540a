-- ===== src/Manager/Roundtrip.antt =====
-- Register against Unregister.
use addictol.Base.{
  ℕ, zero, suc, ◌-◌, ◌≡◌, ◌≢◌, refl, true, false, inl, inr, some, [], arith, Bool-cases,
  if◌then◌else◌, is_some, ◌==◌, not, ◌&&◌,
}
use addictol.Base.Text.{is_empty}
use addictol.Base.OrderedMap.{
  find, try_emplace, text_order, nat_order, erase-try_emplace, find-try_emplace_self,
  erase-insert_or_assign, find-insert_or_assign_self, insert_or_assign_back,
}
use addictol.Manager.{
  Module, Host, Manager, ModuleMap, k_load, by_message, push_registration, register_module,
  remove_name, unregister, put_or_erase,
}

-- The map that Register looks its module up in.
abbrev pub modules_of : {World : Type 0} → Manager World → ℕ → ModuleMap
modules_of s stage = if stage == k_load then s.modules else by_message s (stage - 1)

module _ {World : Type 0} (host : Host World) where
  -- Register accepts a module exactly if its name is not empty and not taken at its stage; if it
  -- refuses the module, the manager is as before.
  pub register_module_accepts :
      (s : Manager World) (m : Module) (stage : ℕ)
      → ((register_module host s (some m) stage).1
          ≡ (not (is_empty m.name) && not (is_some (find m.name (modules_of s stage)))))
        × ((register_module host s (some m) stage).1 ≡ false
            → (register_module host s (some m) stage).0 ≡ s)
  unfolding register_module
  register_module_accepts s m stage = elim (Bool-cases (is_empty m.name)) [
    | inl e ↦ rw (e, register_module) (refl, λ _. refl)
    | inr e ↦ elim (Bool-cases (stage == k_load)) [
      | inl f ↦ elim (Bool-cases (is_some (find m.name s.modules))) [
        | inl g ↦ rw (e, register_module) (rw f (rw g (refl, λ _. refl)))
        | inr g ↦ rw (e, register_module) (rw f (rw g (refl, λ (h : true ≡ false). cc)))
      ]
      | inr f ↦ elim (Bool-cases (is_some (find m.name (by_message s (stage - 1))))) [
        | inl g ↦ rw (e, register_module) (rw f (rw g (refl, λ _. refl)))
        | inr g ↦ rw (e, register_module) (rw f (rw g (refl, λ (h : true ≡ false). cc)))
      ]
    ]
  ]

  roundtrip_load :
      (s : Manager World) (m : Module)
      → (register_module host s (some m) k_load).1 ≡ true
      → let t = unregister (register_module host s (some m) k_load).0 (some m) k_load in
        (t.1 ≡ true) × (t.0.modules ≡ s.modules) × (t.0.rl_modules ≡ s.rl_modules)
  unfolding register_module unregister remove_name push_registration
  roundtrip_load s m h =
      ground (arith, erase-try_emplace m.name m s.modules, find-try_emplace_self m.name m s.modules)

  roundtrip_message :
      (s : Manager World) (m : Module) (stage : ℕ)
      → stage ≢ k_load
      → find (stage - 1) s.rl_modules ≢ some []
      → (register_module host s (some m) stage).1 ≡ true
      → let t = unregister (register_module host s (some m) stage).0 (some m) stage in
        (t.1 ≡ true) × (t.0.modules ≡ s.modules) × (t.0.rl_modules ≡ s.rl_modules)
  unfolding register_module unregister remove_name push_registration put_or_erase
  roundtrip_message s m stage late full h =
      let ms = by_message s (stage - 1) in
      let new = try_emplace m.name m ms in
      ground (
        arith,
        erase-try_emplace m.name m ms,
        find-try_emplace_self m.name m ms,
        find-insert_or_assign_self (stage - 1) new s.rl_modules,
        erase-insert_or_assign (stage - 1) new s.rl_modules,
        insert_or_assign_back (stage - 1) new ms s.rl_modules,
      )

  -- A module that Register accepts and Unregister then takes out at the same stage leaves both maps
  -- as they were, if its message had no empty map of modules.
  pub unregister-register_module :
      (s : Manager World) (m : Module) (stage : ℕ)
      → (stage ≢ k_load → find (stage - 1) s.rl_modules ≢ some [])
      → (register_module host s (some m) stage).1 ≡ true
      → let t = unregister (register_module host s (some m) stage).0 (some m) stage in
        (t.1 ≡ true) × (t.0.modules ≡ s.modules) × (t.0.rl_modules ≡ s.rl_modules)
  unregister-register_module s m zero full h = roundtrip_load s m h
  unregister-register_module s m (suc n) full h =
      let late : suc n ≢ k_load = λ e. omega arith in
      roundtrip_message s m (suc n) late (full late) h
