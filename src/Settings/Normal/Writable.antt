-- ===== src/Settings/Normal/Writable.antt =====
-- Normalised values are such that their setting takes them.
use addictol.Base.{
  ℕ, ◌-◌, ◌≡◌, refl, true, false, Option, none, some, ltb, arith, is_some, u32_mod, Bool-cases, inl,
  inr,
}
use addictol.Base.Int.{ℤ, ltb_ℤ}
use addictol.Settings.{
  Doubles, SettingEntry, SettingValue, SettingNumericRange, SettingValueType, boolean, float32,
  int32, uint32, string, bool_value, double_value, int_value, uint_value, string_value, int32_min,
  int32_max, write,
}
use addictol.Settings.Normal.{
  clamp, min_of, raise, lower, apply_range, normal_int, normal_uint, normal_double, normalize_as,
  normalize_setting_draft_value,
}

module _ {F : Type 0} (o : Doubles F) where
  -- Not a NaN, and from `low` to `high`.
  abbrev pub Between : F → F → F → Type 0
  Between low high x = (o.eq x x ≡ true) × (o.lt x low ≡ false) × (o.lt high x ≡ false)

  -- Casts from integers keep their order, and give numbers; casts back stay between the bounds
  -- of a 32-bit integer where the number does.
  pub record IsDouble : Type 0 where
    pub int_number : (i : ℤ) → o.eq (o.of_int i) (o.of_int i) ≡ true
    pub uint_number : (n : ℕ) → o.eq (o.of_uint n) (o.of_uint n) ≡ true
    pub int_order : (i j : ℤ) → ltb_ℤ i j ≡ false → o.lt (o.of_int i) (o.of_int j) ≡ false
    pub uint_order : (m n : ℕ) → ltb m n ≡ false → o.lt (o.of_uint m) (o.of_uint n) ≡ false
    pub int_bounds :
        (x : F)
        → Between (o.of_int int32_min) (o.of_int int32_max) x
        → (ltb_ℤ (o.to_int x) int32_min ≡ false) × (ltb_ℤ int32_max (o.to_int x) ≡ false)
    pub uint_bounds :
        (x : F)
        → Between (o.of_uint 0) (o.of_uint (u32_mod - 1)) x
        → ltb (u32_mod - 1) (o.to_uint x) ≡ false

  abbrev pub BoundBetween : F → F → Option F → Type 0
  BoundBetween low high none = Unit
  BoundBetween low high (some x) = Between low high x

  abbrev pub RangeBetween : F → F → Option (SettingNumericRange F) → Type 0
  RangeBetween low high none = Unit
  RangeBetween low high (some r) = BoundBetween low high r.minimum × BoundBetween low high r.maximum

  abbrev pub FitsType : SettingValueType → Option (SettingNumericRange F) → Type 0
  FitsType int32 range = RangeBetween (o.of_int int32_min) (o.of_int int32_max) range
  FitsType uint32 range = RangeBetween (o.of_uint 0) (o.of_uint (u32_mod - 1)) range
  FitsType boolean range = Unit
  FitsType float32 range = Unit
  FitsType string range = Unit

  -- The default can be written, and the range of an integer setting is one of 32-bit integers.
  abbrev pub IsSound : SettingEntry F → Type 0
  IsSound e = (is_some (write o e.type e.default_value) ≡ true) × FitsType e.type e.numeric_range

  apply_range-Between :
      (low high : F) (range : Option (SettingNumericRange F)) (x : F)
      → Between low high x
      → RangeBetween low high range
      → Between low high (apply_range o range x)
  apply_range-Between low high none x h r = h
  apply_range-Between low high (some range) x h r =
      lowered range.maximum (raise o range.minimum x) (raised range.minimum r.0) r.1
    where
      raised : (bound : Option F) → BoundBetween low high bound → Between low high (raise o bound x)
      raised none b = h
      raised (some y) b = ground (arith, h, b)

      lowered :
          (bound : Option F) (y : F)
          → Between low high y
          → BoundBetween low high bound
          → Between low high (lower o bound y)
      lowered none y k b = k
      lowered (some z) y k b = ground (arith, k, b)

  clamp-Between :
      (l : IsDouble) (i : ℤ)
      → Between
          (o.of_int int32_min)
          (o.of_int int32_max)
          (clamp o (o.of_int i) (o.of_int int32_min) (o.of_int int32_max))
  clamp-Between l i = ground (
    arith,
    l.int_number i,
    l.int_number int32_min,
    l.int_number int32_max,
    l.int_order int32_min int32_min refl,
    l.int_order int32_max int32_min refl,
    l.int_order int32_max int32_max refl,
  )

  min_of-Between :
      (l : IsDouble) (n : ℕ)
      → Between
          (o.of_uint 0)
          (o.of_uint (u32_mod - 1))
          (min_of o (o.of_uint n) (o.of_uint (u32_mod - 1)))
  min_of-Between l n = ground (
    arith,
    l.uint_number n,
    l.uint_number (u32_mod - 1),
    l.uint_order n 0 (ground arith),
    l.uint_order (u32_mod - 1) 0 refl,
    l.uint_order (u32_mod - 1) (u32_mod - 1) refl,
  )

  int_written :
      (i : ℤ)
      → (ltb_ℤ i int32_min ≡ false) × (ltb_ℤ int32_max i ≡ false)
      → is_some (write o int32 (int_value i)) ≡ true
  unfolding write
  int_written i h = simp (h.0, h.1)

  uint_written :
      (n : ℕ) → ltb (u32_mod - 1) n ≡ false → is_some (write o uint32 (uint_value n)) ≡ true
  unfolding write
  uint_written n h = simp h

  float_written :
      (range : Option (SettingNumericRange F)) (d : SettingValue F) (x : F)
      → is_some (write o float32 d) ≡ true
      → (v : SettingValue F) × (normalize_as o float32 range d (double_value x) ≡ some v)
        × (is_some (write o float32 v) ≡ true)
  unfolding normalize_as write
  float_written range (double_value y) x h = elim (Bool-cases (o.is_finite x)) [
    | inl e ↦ (double_value (normal_double o range x), simp e, refl)
    | inr e ↦ (double_value (normal_double o range y), simp e, refl)
  ]
  float_written range (bool_value b) x h = cc
  float_written range (int_value i) x h = cc
  float_written range (uint_value n) x h = cc
  float_written range (string_value s) x h = cc

  normalized :
      (l : IsDouble) (type : SettingValueType) (range : Option (SettingNumericRange F))
      (d v : SettingValue F)
      → is_some (write o type d) ≡ true
      → FitsType type range
      → (v' : SettingValue F) × (normalize_as o type range d v ≡ some v')
        × (is_some (write o type v') ≡ true)
  unfolding normalize_as write
  normalized l boolean range d (double_value x) h r = (d, refl, h)
  normalized l boolean range d (int_value i) h r = (d, refl, h)
  normalized l boolean range d (uint_value n) h r = (d, refl, h)
  normalized l boolean range d (string_value s) h r = (d, refl, h)
  normalized l boolean range d (bool_value b) h r = (bool_value b, refl, refl)
  normalized l float32 range d (bool_value b) h r = (d, refl, h)
  normalized l float32 range d (int_value i) h r = (d, refl, h)
  normalized l float32 range d (uint_value n) h r = (d, refl, h)
  normalized l float32 range d (string_value s) h r = (d, refl, h)
  normalized l float32 range d (double_value x) h r = float_written range d x h
  normalized l int32 range d (bool_value b) h r = (d, refl, h)
  normalized l int32 range d (double_value x) h r = (d, refl, h)
  normalized l int32 range d (uint_value n) h r = (d, refl, h)
  normalized l int32 range d (string_value s) h r = (d, refl, h)
  normalized l int32 range d (int_value i) h r = (
    int_value (normal_int o range i),
    refl,
    int_written (normal_int o range i) (
        l.int_bounds _ (
          apply_range-Between (o.of_int int32_min) (o.of_int int32_max) range _ (clamp-Between l i)
            r)),
  )
  normalized l uint32 range d (bool_value b) h r = (d, refl, h)
  normalized l uint32 range d (double_value x) h r = (d, refl, h)
  normalized l uint32 range d (int_value i) h r = (d, refl, h)
  normalized l uint32 range d (string_value s) h r = (d, refl, h)
  normalized l uint32 range d (uint_value n) h r = (
    uint_value (normal_uint o range n),
    refl,
    uint_written (normal_uint o range n) (
        l.uint_bounds _ (
          apply_range-Between (o.of_uint 0) (o.of_uint (u32_mod - 1)) range _ (min_of-Between l n)
            r)),
  )
  normalized l string range d (bool_value b) h r = (d, refl, h)
  normalized l string range d (double_value x) h r = (d, refl, h)
  normalized l string range d (int_value i) h r = (d, refl, h)
  normalized l string range d (uint_value n) h r = (d, refl, h)
  normalized l string range d (string_value s) h r = (string_value s, refl, refl)

  -- NormalizeSettingDraftValue throws no exception and gives a value that the setting takes,
  -- whatever value it is given, if the default can be written, the range of an integer setting is
  -- one of 32-bit integers of its sign, and casts between integers and doubles keep order and
  -- bounds.
  pub normalize-write :
      (l : IsDouble) (e : SettingEntry F) (v : SettingValue F)
      → IsSound e
      → (v' : SettingValue F) × (normalize_setting_draft_value o e v ≡ some v')
        × (is_some (write o e.type v') ≡ true)
  unfolding normalize_setting_draft_value
  normalize-write l e v sound =
      normalized l e.type e.numeric_range e.default_value v sound.0 sound.1
