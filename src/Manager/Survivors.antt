-- ===== src/Manager/Survivors.antt =====
-- The query passes collect the modules to remove and erase them afterwards, by name.
use addictol.Base.{
  if_both, ℕ, ◌+◌, ◌%◌, ◌≡◌, ◌≢◌, Option, none, refl, sym, ap, ◌∙◌, subst, Bool, true, false, inl,
  inr, some, List, [], ◌∷◌, arith, Bool-cases, Option-cases, if◌then◌else◌,
}
use addictol.Base.Text.{Text, text_lt, text_lt_irrefl}
use addictol.Base.OrderedMap.{
  find, erase, text_order, nat_order, Above, IsSorted, find-erase_self, find-erase_other,
  find-insert_or_assign_self, find-insert_or_assign_other,
}
use addictol.Outcome.{ModuleOutcome, disabled, failed_query}
use addictol.Manager.{
  Module, Message, Host, Manager, ModuleMap, k_load, record_outcome, record_at, clear_skip,
  put_or_erase,
}
use addictol.Manager.Runs.{
  query_one, run_query, query_loop, query_load_all, query_all_by_message, erase_all, safe_query_mod,
  refusal,
}

-- Every module stands under its own name.
abbrev pub IsKeyed : ModuleMap → Type 0
IsKeyed [] = Unit
IsKeyed ((name, m) ∷ rest) = (name ≡ m.name) × IsKeyed rest

module _ {World : Type 0} (host : Host World) where
  -- The entries whose query did not ask for removal, in one walk.
  unfoldable pub survivors : Manager World → ModuleMap → ℕ → ModuleMap
  survivors s [] stage = []
  survivors s ((name, m) ∷ rest) stage =
      let (t, removed) = query_one host s m stage in
      let others = survivors t rest stage in if removed then others else (name, m) ∷ others

-- All names of a list of modules are above `k`.
abbrev NamesAbove : Text → List Module → Type 0
NamesAbove k [] = Unit
NamesAbove k (m ∷ ms) = (text_lt k m.name ≡ true) × NamesAbove k ms

erase_all-NamesAbove :
    (name : Text) (m : Module) (removed : List Module) (rest : ModuleMap)
    → NamesAbove name removed
    → erase_all removed ((name, m) ∷ rest) ≡ (name, m) ∷ erase_all removed rest
unfolding erase_all erase
erase_all-NamesAbove name m [] rest a = refl
erase_all-NamesAbove name m (r ∷ removed) rest a =
    rw a.0 (erase_all-NamesAbove name m removed (erase r.name rest) a.1)

erase-head : (m : Module) (rest : ModuleMap) → erase m.name ((m.name, m) ∷ rest) ≡ rest
unfolding erase
erase-head m rest = rw (text_lt_irrefl m.name)

module _ {World : Type 0} (host : Host World) where
  removed-NamesAbove :
      (s : Manager World) (name : Text) (modules : ModuleMap) (stage : ℕ)
      → Above name modules
      → IsKeyed modules
      → NamesAbove name (query_loop host s modules stage).1
  unfolding query_loop
  removed-NamesAbove s name [] stage a k = tt
  removed-NamesAbove s name ((n, m) ∷ rest) stage a k =
      let (t, removed) = query_one host s m stage in
      let later = removed-NamesAbove t name rest stage a.1 k.1 in
      let here : text_lt name m.name ≡ true = subst (λ x. text_lt name x ≡ true) k.0 a.0 in
      elim removed
        as (λ b.
          NamesAbove name (
            if b then m ∷ (query_loop host t rest stage).1 else (query_loop host t rest stage).1)) [
              | true ↦ (here, later)
              | false ↦ later
            ]

  erase_all-survivors :
      (s : Manager World) (modules : ModuleMap) (stage : ℕ)
      → IsSorted modules
      → IsKeyed modules
      → erase_all (query_loop host s modules stage).1 modules ≡ survivors host s modules stage
  unfolding query_loop survivors erase_all
  erase_all-survivors s [] stage o k = refl
  erase_all-survivors s ((n, m) ∷ rest) stage o k =
      let (t, removed) = query_one host s m stage in
      let others = (query_loop host t rest stage).1 in
      let ih = erase_all-survivors t rest stage o.1 k.1 in
      elim removed
        as (λ b.
          erase_all (if b then m ∷ others else others) ((n, m) ∷ rest)
          ≡ (if b then survivors host t rest stage else (n, m) ∷ survivors host t rest stage)) [
            | true ↦
                ap (erase_all others)
                  (subst (λ x. erase m.name ((x, m) ∷ rest) ≡ rest) (sym k.0) (erase-head m rest))
                ∙ ih
            | false ↦
                erase_all-NamesAbove n m others rest (removed-NamesAbove t n rest stage o.0 k.1)
                ∙ ap (◌∷◌ (n, m)) ih
          ]

-- No entry stands for an empty map.
abbrev pub unless_empty : ModuleMap → Option ModuleMap
unless_empty [] = none
unless_empty (e ∷ modules) = some (e ∷ modules)

find-put_or_erase :
    (id : ℕ) (modules : ModuleMap) (rl : List (ℕ × ModuleMap))
    → IsSorted rl
    → find id (put_or_erase id modules rl) ≡ unless_empty modules
unfolding put_or_erase
find-put_or_erase id [] rl sorted = find-erase_self id rl sorted
find-put_or_erase id (e ∷ modules) rl sorted = find-insert_or_assign_self id (e ∷ modules) rl

find-put_or_erase_other :
    (other id : ℕ) (modules : ModuleMap) (rl : List (ℕ × ModuleMap))
    → IsSorted rl
    → other ≢ id
    → find other (put_or_erase id modules rl) ≡ find other rl
unfolding put_or_erase
find-put_or_erase_other other id [] rl sorted ne = find-erase_other other id rl sorted ne
find-put_or_erase_other other id (e ∷ modules) rl sorted ne =
    find-insert_or_assign_other other id (e ∷ modules) rl ne

module _ {World : Type 0} where
  -- The two maps of modules.
  abbrev pub maps : Manager World → ModuleMap × List (ℕ × ModuleMap)
  maps s = (s.modules, s.rl_modules)

  maps-record_outcome :
      (s : Manager World) (m : Module) (stage : ℕ) (o : ModuleOutcome)
      → maps (record_outcome s m stage o) ≡ maps s
  unfolding record_outcome record_at
  maps-record_outcome s m stage o = ground arith

module _ {World : Type 0} (host : Host World) where
  maps-run_query :
      (s : Manager World) (m : Module) (stage : ℕ) → maps (run_query host s m stage).0 ≡ maps s
  unfolding run_query
  maps-run_query s m stage =
      let (accepted, t) = safe_query_mod host (clear_skip s m) m in
      if_both (λ (r : Manager World × Bool). maps r.0 ≡ maps s) accepted _ _ refl
        (maps-record_outcome t m stage (refusal t m failed_query))

  maps-query_one :
      (s : Manager World) (m : Module) (stage : ℕ) → maps (query_one host s m stage).0 ≡ maps s
  unfolding query_one
  maps-query_one s m stage = elim (Option-cases m.option) [
    | inl e ↦ rw (e, query_one) (maps-run_query s m stage)
    | inr (o, e) ↦ elim (Bool-cases (host.setting_value s.world o)) [
      | inl f ↦ rw (e, query_one) (rw f (maps-run_query s m stage))
      | inr f ↦ rw (e, query_one) (rw f (maps-record_outcome s m stage disabled))
    ]
  ]

  maps-query_loop :
      (s : Manager World) (modules : ModuleMap) (stage : ℕ)
      → maps (query_loop host s modules stage).0 ≡ maps s
  unfolding query_loop
  maps-query_loop s [] stage = refl
  maps-query_loop s ((n, m) ∷ rest) stage =
      maps-query_loop (query_one host s m stage).0 rest stage ∙ maps-query_one s m stage

  -- QueryLoadAll leaves exactly the modules whose round of the query loop does not ask for removal,
  -- in their order, if the map is sorted and every module stands under its own name.
  pub query_load_all-survivors :
      (s : Manager World)
      → IsSorted s.modules
      → IsKeyed s.modules
      → (query_load_all host s).modules ≡ survivors host s s.modules k_load
  unfolding query_load_all
  query_load_all-survivors s o k =
      ap (erase_all (query_loop host s s.modules k_load).1)
        (ap (λ (p : ModuleMap × List (ℕ × ModuleMap)). p.0) (maps-query_loop s s.modules k_load))
      ∙ erase_all-survivors host s s.modules k_load o k

  rl_modules-query :
      (s : Manager World) (msg : Message) (modules : ModuleMap)
      → find (msg.type % 256) s.rl_modules ≡ some modules
      → IsSorted modules
      → IsKeyed modules
      → (query_all_by_message host s (some msg)).rl_modules
        ≡ put_or_erase
            (msg.type % 256)
            (survivors host s modules ((msg.type + 1) % 256))
            s.rl_modules
  unfolding query_all_by_message
  rl_modules-query s msg modules found o k =
      rw (found, query_all_by_message)
        (rw (erase_all-survivors host s modules ((msg.type + 1) % 256) o k) (
          ap (put_or_erase (msg.type % 256) (survivors host s modules ((msg.type + 1) % 256))) (
            ap (λ (p : ModuleMap × List (ℕ × ModuleMap)). p.1)
              (maps-query_loop s modules ((msg.type + 1) % 256)))))

  -- If the messages and the modules of its message are sorted and every module stands under its own
  -- name, QueryAllByMessage leaves under its message exactly the modules whose round of the query
  -- loop does not ask for removal, in their order, and no entry if none is left; every other
  -- message has the modules that it had.
  pub query_all_by_message-survivors :
      (s : Manager World) (msg : Message) (modules : ModuleMap)
      → find (msg.type % 256) s.rl_modules ≡ some modules
      → IsSorted s.rl_modules
      → IsSorted modules
      → IsKeyed modules
      → (find (msg.type % 256) (query_all_by_message host s (some msg)).rl_modules
          ≡ unless_empty (survivors host s modules ((msg.type + 1) % 256)))
        × ((other : ℕ)
            → other ≢ msg.type % 256
            → find other (query_all_by_message host s (some msg)).rl_modules
              ≡ find other s.rl_modules)
  query_all_by_message-survivors s msg modules found sorted o k =
      let left = survivors host s modules ((msg.type + 1) % 256) in
      subst
        (λ rl.
          (find (msg.type % 256) rl ≡ unless_empty left)
          × ((other : ℕ) → other ≢ msg.type % 256 → find other rl ≡ find other s.rl_modules))
        (sym (rl_modules-query s msg modules found o k))
        (
          find-put_or_erase (msg.type % 256) left s.rl_modules sorted,
          λ other. find-put_or_erase_other other (msg.type % 256) left s.rl_modules sorted,
        )
