-- ===== src/Telemetry/Profile/Threads.antt =====
-- The lanes of the threads that sample operations: SamplingState of
-- Addictol/Source/Telemetry/AdOperationProfile.cpp.
use addictol.Base.{
  ℕ, zero, suc, ◌+◌, ◌≤◌, ◌<◌, ◌≡◌, ◌⊎◌, inl, inr, refl, sym, subst, ◌∙◌, ==_iff, Bool, true, false,
  List, [], ◌∷◌, Option, none, some, ◌==◌, leb, count_if, get_elem?, remove_at, count_if-remove_at,
  if_cases, Bool-cases, arith, if◌then◌else◌,
}
use addictol.Telemetry.Profile.{counter_lane_count}
use addictol.Telemetry.Profile.Sampling.{
  SamplingState, Lanes, Thread, own, first_free, start_sampling, thread_sampling_state,
  end_sampling,
}

-- The threads that have a sampling state and have not ended.
pub record Pool : Type 0 where
  pub lanes : Lanes
  pub threads : List Thread

-- A thread at a depth of suppression samples for the first time, or the thread at a position ends.
pub data Event : Type 0 where
  first_sample thread_end : ℕ → Event

abbrev pub lane_of : Thread → ℕ
lane_of t = elim t.sampling [ none ↦ counter_lane_count | some s ↦ s.counter_lane ]

-- The end of the thread that stands at a position.
unfoldable pub end_thread : Option Thread → ℕ → Pool → Pool
unfolding end_sampling
end_thread none i p = p
end_thread (some t) i p = record {
  lanes = (end_sampling t p.lanes).1;
  threads = remove_at p.threads i;
}

unfoldable pub happen : Pool → Event → Pool
unfolding end_thread thread_sampling_state
happen p (first_sample depth) =
    let t : Thread = record { suppression_depth = depth; sampling = none } in
    let (s, l) = thread_sampling_state t p.lanes in
    record { lanes = l; threads = record t { sampling = some s } ∷ p.threads }
happen p (thread_end i) = end_thread (get_elem? p.threads i) i p

unfoldable pub happen_all : Pool → List Event → Pool
unfolding happen
happen_all p [] = p
happen_all p (e ∷ es) = happen_all (happen p e) es

abbrev pub no_threads : Pool
no_threads = record { lanes = record { next_thread_salt = 1; owners = λ i. false }; threads = [] }

-- The threads that count on a lane.
abbrev pub on_lane : ℕ → List Thread → ℕ
on_lane lane ts = count_if (λ (t : Thread). lane_of t == lane) ts

-- A lane has one thread if it has an owner, and none else.
abbrev pub IsOwned : Pool → Type 0
IsOwned p =
    (lane : ℕ)
    → lane < counter_lane_count
    → on_lane lane p.threads ≡ (if p.lanes.owners lane then 1 else 0)

first_free-cases :
    (owners : ℕ → Bool) (index n : ℕ)
    → index + n ≤ counter_lane_count
    → (first_free owners index n ≡ counter_lane_count)
      ⊎ ((owners (first_free owners index n) ≡ false)
          × (first_free owners index n < counter_lane_count))
unfolding first_free
first_free-cases owners index zero fit = inl refl
first_free-cases owners index (suc n) fit =
    if_cases (λ x. (x ≡ counter_lane_count) ⊎ ((owners x ≡ false) × (x < counter_lane_count)))
      (owners index) _ _ (λ e. first_free-cases owners (index + 1) n (omega (arith, fit)))
      (λ e. inr (e, omega (arith, fit)))

own-owned :
    (owners : ℕ → Bool) (n lane count : ℕ)
    → (n ≡ counter_lane_count) ⊎ ((owners n ≡ false) × (n < counter_lane_count))
    → lane < counter_lane_count
    → count ≡ (if owners lane then 1 else 0)
    → (if n == lane then 1 else 0) + count
      ≡ (if (if leb counter_lane_count n then owners else own n true owners) lane then 1 else 0)
own-owned owners n lane count (inl e) small h =
    if_cases (λ (f : ℕ → Bool). (if n == lane then 1 else 0) + count ≡ (if f lane then 1 else 0))
      (leb counter_lane_count n) _ _ (λ k. ground arith) (λ k. ground arith)
own-owned owners n lane count (inr (free, fit)) small h =
    if_cases (λ (f : ℕ → Bool). (if n == lane then 1 else 0) + count ≡ (if f lane then 1 else 0))
      (leb counter_lane_count n) _ _ (λ k. ground arith)
      (λ k. elim (Bool-cases (n == lane)) [
        | inl q ↦
            let same : owners lane ≡ false =
              subst (λ x. owners x ≡ false) ((==_iff n lane).0 q) free in
            ground arith
        | inr q ↦ ground arith
      ])

disown-owned :
    (l : Lanes) (n lane count : ℕ)
    → lane < counter_lane_count
    → (if n == lane then 1 else 0) + count ≡ (if l.owners lane then 1 else 0)
    → (let l' =
          if leb counter_lane_count n then l else record l { owners = own n false l.owners } in
        count ≡ (if l'.owners lane then 1 else 0))
disown-owned l n lane count small h =
    if_cases (λ (l' : Lanes). count ≡ (if l'.owners lane then 1 else 0)) (leb counter_lane_count n)
      _ _ (λ k. ground arith)
      (λ k. elim (Bool-cases (n == lane)) [ inl q ↦ ground arith | inr q ↦ ground arith ])

end_sampling-IsOwned :
    (p : Pool) (depth : ℕ) (sampling : Option SamplingState) (i : ℕ)
    → get_elem? p.threads i ≡ some (record { suppression_depth = depth; sampling = sampling })
    → IsOwned p
    → IsOwned (end_thread (some (record { suppression_depth = depth; sampling = sampling })) i p)
unfolding end_thread end_sampling
end_sampling-IsOwned p depth none i e h lane small =
    let count = count_if-remove_at (λ (t : Thread). lane_of t == lane) p.threads i _ e in
    ground (arith, count, h lane small)
end_sampling-IsOwned p depth (some s) i e h lane small =
    disown-owned p.lanes s.counter_lane lane (on_lane lane (remove_at p.threads i)) small
      (sym (count_if-remove_at (λ (t : Thread). lane_of t == lane) p.threads i _ e) ∙ h lane small)

end_thread-IsOwned :
    (p : Pool) (o : Option Thread) (i : ℕ)
    → get_elem? p.threads i ≡ o
    → IsOwned p
    → IsOwned (end_thread o i p)
unfolding end_thread
end_thread-IsOwned p none i e h = h
end_thread-IsOwned p (some t) i e h = end_sampling-IsOwned p t.suppression_depth t.sampling i e h

happen-IsOwned : (p : Pool) (e : Event) → IsOwned p → IsOwned (happen p e)
unfolding happen thread_sampling_state start_sampling
happen-IsOwned p (first_sample depth) h = λ lane small.
    own-owned p.lanes.owners (first_free p.lanes.owners 0 counter_lane_count) lane
      (on_lane lane p.threads) (first_free-cases p.lanes.owners 0 counter_lane_count (omega arith))
      small (h lane small)
happen-IsOwned p (thread_end i) h = end_thread-IsOwned p (get_elem? p.threads i) i refl h

happen_all-IsOwned' : (p : Pool) (es : List Event) → IsOwned p → IsOwned (happen_all p es)
unfolding happen_all
happen_all-IsOwned' p [] h = h
happen_all-IsOwned' p (e ∷ es) h = happen_all-IsOwned' (happen p e) es (happen-IsOwned p e h)

-- After any sequence of threads that sample for the first time and threads that end, each of the
-- 256 lanes has exactly one thread that counts on it if it has an owner, and none else.
pub happen_all-IsOwned : (es : List Event) → IsOwned (happen_all no_threads es)
happen_all-IsOwned es = happen_all-IsOwned' no_threads es (λ lane small. refl)
