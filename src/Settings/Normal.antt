-- ===== src/Settings/Normal.antt =====
-- NormalizeSettingDraftValue of Addictol/Source/Core/Settings/AdSettingsModel.cpp.
pub mod Writable
use addictol.Base.{
  ℕ, ◌-◌, ◌≡◌, refl, true, false, not, Option, none, some, ltb, arith, is_some, if◌then◌else◌,
  u32_mod, Bool-cases, inl, inr,
}
use addictol.Base.Int.{ℤ, ltb_ℤ}
use addictol.Settings.{
  Doubles, SettingEntry, SettingValue, SettingNumericRange, SettingValueType, boolean, float32,
  int32, uint32, string, bool_value, double_value, int_value, uint_value, string_value, int32_min,
  int32_max, holds_type, write,
}

module _ {F : Type 0} (o : Doubles F) where
  -- `std::clamp`, `std::max` and `std::min`.
  abbrev pub clamp : F → F → F → F
  clamp x low high = if o.lt x low then low else if o.lt high x then high else x

  abbrev pub max_of : F → F → F
  max_of a b = if o.lt a b then b else a

  abbrev pub min_of : F → F → F
  min_of a b = if o.lt b a then b else a

  abbrev pub raise : Option F → F → F
  raise none x = x
  raise (some low) x = max_of x low

  abbrev pub lower : Option F → F → F
  lower none x = x
  lower (some high) x = min_of x high

  abbrev pub apply_range : Option (SettingNumericRange F) → F → F
  apply_range none x = x
  apply_range (some r) x = lower r.maximum (raise r.minimum x)

  -- The number that stands for a value that is not finite: `none` where `std::get` throws.
  abbrev pub finite_or_default : F → SettingValue F → Option F
  finite_or_default x default =
      if o.is_finite x then some x else elim default [ double_value d ↦ some d | _ ↦ none ]

  abbrev pub normal_double : Option (SettingNumericRange F) → F → F
  normal_double range x = apply_range range (clamp x (o.negate o.float_max) o.float_max)

  abbrev pub normal_int : Option (SettingNumericRange F) → ℤ → ℤ
  normal_int range i =
      o.to_int (apply_range range (clamp (o.of_int i) (o.of_int int32_min) (o.of_int int32_max)))

  abbrev pub normal_uint : Option (SettingNumericRange F) → ℕ → ℕ
  normal_uint range n =
      o.to_uint (apply_range range (min_of (o.of_uint n) (o.of_uint (u32_mod - 1))))

  -- `none` is `std::bad_variant_access`.
  unfoldable pub normalize_as :
      SettingValueType
      → Option (SettingNumericRange F)
      → SettingValue F
      → SettingValue F
      → Option (SettingValue F)
  normalize_as type range default v = if not (holds_type type v) then some default else elim v [
    | double_value x ↦ elim (finite_or_default x default) [
      | none ↦ none
      | some y ↦ some (double_value (normal_double range y))
    ]
    | int_value i ↦ some (int_value (normal_int range i))
    | uint_value n ↦ some (uint_value (normal_uint range n))
    | bool_value b ↦ some (bool_value b)
    | string_value s ↦ some (string_value s)
  ]

  unfoldable pub normalize_setting_draft_value :
      SettingEntry F → SettingValue F → Option (SettingValue F)
  unfolding normalize_as
  normalize_setting_draft_value e v = normalize_as e.type e.numeric_range e.default_value v
