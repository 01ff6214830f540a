-- ===== src/Telemetry/Profile/Shards.antt =====
-- The shards that the constructor of OperationProfileSource lays out.
use addictol.Base.{
  ℕ, zero, suc, ◌+◌, ◌-◌, ◌*◌, ◌/◌, ◌%◌, ◌≤◌, ◌<◌, ◌≡◌, refl, subst, min, true, not, List, [], ◌∷◌,
  ◌==◌, ltb, ◌||◌, length, if_cases, arith, if◌then◌else◌,
}
use addictol.Telemetry.Profile.{Configuration, Source, Shard}
use addictol.Telemetry.Profile.Valid.{valid_configuration}
use addictol.Telemetry.Profile.Create.{create, lay_shards, shards_of}

-- Empty shards that lie one after the other from `offset` to `end`, each with `base` records or one
-- more.
abbrev pub IsLayout : ℕ → ℕ → List Shard → ℕ → Type 0
IsLayout base offset [] end = offset ≡ end
IsLayout base offset (h ∷ hs) end =
    (h.offset ≡ offset)
    × (h.count ≡ 0)
    × (base ≤ h.capacity)
    × (h.capacity ≤ base + 1)
    × IsLayout base (offset + h.capacity) hs end

lay_shards-IsLayout :
    (base remainder index offset n : ℕ)
    → IsLayout base offset
        (lay_shards base remainder index offset n)
        (offset + n * base + min n (remainder - index))
unfolding lay_shards
lay_shards-IsLayout base remainder index offset zero = omega arith
lay_shards-IsLayout base remainder index offset (suc n) =
    let capacity = base + (if ltb index remainder then 1 else 0) in
    let end : offset + capacity + n * base + min n (remainder - (index + 1))
        ≡ offset + suc n * base + min (suc n) (remainder - index) =
      ground arith in
    (
      refl,
      refl,
      ground arith,
      ground arith,
      subst
          (IsLayout base (offset + capacity)
            (lay_shards base remainder (index + 1) (offset + capacity) n))
          end (lay_shards-IsLayout base remainder (index + 1) (offset + capacity) n),
    )

length-lay_shards :
    (base remainder index offset n : ℕ) → length (lay_shards base remainder index offset n) ≡ n
unfolding lay_shards
length-lay_shards base remainder index offset zero = refl
length-lay_shards base remainder index offset (suc n) = omega (
  arith,
  length-lay_shards base remainder (index + 1)
      (offset + (base + (if ltb index remainder then 1 else 0))) n,
)

valid_configuration-shards :
    (a : Configuration)
    → valid_configuration a ≡ true
    → (0 < a.publication_shard_count)
      × (a.publication_shard_count ≤ 16)
      × (a.publication_shard_count ≤ a.record_capacity)
unfolding valid_configuration
valid_configuration-shards a h = ground arith

-- With a valid configuration and a frequency, the shards of a new source are empty, lie one after
-- the other and make up the record capacity; they are as many as configured and at most 16, and
-- their capacities, none of them 0, differ by at most one.
pub create-shards :
    (a : Configuration) (frequency : ℕ)
    → valid_configuration a ≡ true
    → 0 < frequency
    → (let shards = (create a frequency).shards in
        (length shards ≡ a.publication_shard_count)
        × (length shards ≤ 16)
        × (0 < a.record_capacity / a.publication_shard_count)
        × IsLayout (a.record_capacity / a.publication_shard_count) 0 shards a.record_capacity)
unfolding create shards_of
create-shards a frequency valid positive =
    let (some_shards, few, fit) = valid_configuration-shards a valid in
    let count = a.publication_shard_count in
    let base = a.record_capacity / count in
    let size = length-lay_shards base (a.record_capacity % count) 0 0 count in
    let rest : a.record_capacity % count < count = omega arith in
    let end : 0 + count * base + min count (a.record_capacity % count - 0) ≡ a.record_capacity =
      grind arith in
    if_cases
      (λ (s : Source).
        (length s.shards ≡ count)
        × (length s.shards ≤ 16)
        × (0 < base)
        × IsLayout base 0 s.shards a.record_capacity)
      (not (valid_configuration a) || frequency == 0) _ _ (λ e. ground (arith, valid, positive))
      (λ e. (
        size,
        omega (arith, size, few),
        grind arith,
        subst (IsLayout base 0 (shards_of a.record_capacity count)) end
            (lay_shards-IsLayout base (a.record_capacity % count) 0 0 count),
      ))
