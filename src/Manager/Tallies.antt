-- ===== src/Manager/Tallies.antt =====
-- The five counters against the outcomes of the registrations.
use addictol.Base.{
  ℕ, zero, suc, ◌<◌, ◌≡◌, refl, sym, ap, ◌∙◌, inl, inr, some, List, [], ◌∷◌, ◌++◌, map, arith,
  length, length-append, length-map, length-set, get_elem?, set, u64_mod, Option-cases,
}
use addictol.Base.OrderedMap.{text_order, nat_order}
use addictol.Outcome.{
  ModuleOutcome, ModuleOutcomeTally, pending, record_module_outcome, tally_from,
  tally_module_outcomes, zero_tally, tally_one,
}
use addictol.Outcome.Recount.{record_module_outcome-recount}
use addictol.Manager.{
  Module, Registration, Host, Manager, last_index, is_registration, record_at, record_outcome,
  push_registration,
}
use addictol.Manager.Stable.{IsStable, run-stable}
use addictol.Manager.Calls.{Call, empty_manager, run}

abbrev pub outcomes : List Registration → List ModuleOutcome
outcomes = map (λ r. r.outcome)

-- As long as the registrations can be counted in 64 bits, the counters are their tally.
abbrev pub IsTallied : {World : Type 0} → Manager World → Type 0
IsTallied s =
    length s.registrations < u64_mod → s.tally ≡ tally_module_outcomes (outcomes s.registrations)

outcomes-set :
    (rs : List Registration) (i : ℕ) (r : Registration)
    → outcomes (set rs i r) ≡ set (outcomes rs) i r.outcome
outcomes-set [] i r = refl
outcomes-set (x ∷ rs) zero r = refl
outcomes-set (x ∷ rs) (suc i) r = ap (◌∷◌ x.outcome) (outcomes-set rs i r)

outcomes-get :
    (rs : List Registration) (i : ℕ) (r : Registration)
    → get_elem? rs i ≡ some r
    → get_elem? (outcomes rs) i ≡ some r.outcome
outcomes-get [] i r h = cc
outcomes-get (x ∷ rs) zero r h = ground arith
outcomes-get (x ∷ rs) (suc i) r h = outcomes-get rs i r h

tally_from-pending :
    (t : ModuleOutcomeTally) (rs : List Registration) (r : Registration)
    → r.outcome ≡ pending
    → tally_from t (outcomes (rs ++ r ∷ [])) ≡ tally_from t (outcomes rs)
unfolding tally_from
tally_from-pending t [] r h = rw h
tally_from-pending t (x ∷ rs) r h = tally_from-pending (tally_one t x.outcome) rs r h

-- One registration gets a new outcome.
replace-tally :
    (t : ModuleOutcomeTally) (rs : List Registration) (i : ℕ) (r r' : Registration)
    → get_elem? rs i ≡ some r
    → length (set rs i r') < u64_mod
    → (length rs < u64_mod → t ≡ tally_module_outcomes (outcomes rs))
    → (record_module_outcome r.outcome t r'.outcome).1
      ≡ tally_module_outcomes (outcomes (set rs i r'))
replace-tally t rs i r r' at room inv =
    let short : length rs < u64_mod = omega (arith, length-set rs i r') in
    let few : length (outcomes rs) < u64_mod =
      omega (arith, length-map (λ (r : Registration). r.outcome) rs) in
    rw (inv short, outcomes-set rs i r')
      (record_module_outcome-recount (outcomes rs) i r.outcome r'.outcome few
        (outcomes-get rs i r at))

module _ {World : Type 0} where
  record_at-IsTallied :
      (s : Manager World) (m : Module) (o : ModuleOutcome) (i : ℕ) (r : Registration)
      → get_elem? s.registrations i ≡ some r
      → IsTallied s
      → IsTallied (record_at s m o i r)
  unfolding record_at record_module_outcome
  record_at-IsTallied s m o i r at inv room =
      replace-tally s.tally s.registrations i r _ at room inv

  record_outcome-IsTallied :
      (s : Manager World) (m : Module) (stage : ℕ) (o : ModuleOutcome)
      → IsTallied s
      → IsTallied (record_outcome s m stage o)
  unfolding record_outcome
  record_outcome-IsTallied s m stage o inv =
      elim (Option-cases (last_index (is_registration m stage) s.registrations)) [
        | inl e ↦ rw (e, record_outcome) inv
        | inr (i, e) ↦ elim (Option-cases (get_elem? s.registrations i)) [
          | inl f ↦ rw (e, record_outcome) (rw f inv)
          | inr (r, f) ↦ rw (e, record_outcome) (rw f (record_at-IsTallied s m o i r f inv))
        ]
      ]

module _ {World : Type 0} (host : Host World) where
  push_registration-IsTallied :
      (s : Manager World) (m : Module) (stage : ℕ)
      → IsTallied s
      → IsTallied (push_registration host s m stage)
  unfolding push_registration tally_module_outcomes
  push_registration-IsTallied s m stage inv room =
      inv (omega (arith, length-append {0} s.registrations))
      ∙ sym (tally_from-pending zero_tally s.registrations _ refl)

  IsTallied-stable : IsStable host IsTallied
  IsTallied-stable = record {
    frame = λ s modules rl d cells w inv. inv;
    outcome = record_outcome-IsTallied;
    push = push_registration-IsTallied;
  }

  -- From an empty manager, after any history of calls, whatever the modules' own functions answer,
  -- the five counters are the tally of the outcomes of all registrations, if these are fewer than 2
  -- ^ 64.
  pub run-tally :
      (w : World) (cs : List Call)
      → length (run host (empty_manager w) cs).registrations < u64_mod
      → (run host (empty_manager w) cs).tally
        ≡ tally_module_outcomes (outcomes (run host (empty_manager w) cs).registrations)
  run-tally w cs =
      run-stable host IsTallied IsTallied-stable (empty_manager w) cs
        (λ _. unfold tally_module_outcomes tally_from in refl)
