-- ===== src/Settings.antt =====
-- Addictol/Include/Core/Settings/AdSetting.h and the controls of Addictol/Source/Core/Settings/
-- AdSettingsModel.cpp: the values of settings, what a setting accepts, and the control that shows it.
pub mod Registry
pub mod Names
pub mod Drafts
pub mod Normal
pub mod Document
pub mod Tests
use addictol.Base.{
  ℕ, ◌^◌, ◌-◌, Bool, true, false, not, Option, none, some, List, [], ◌∷◌, ◌==◌, ltb, leb, ◌&&◌,
  ◌||◌, is_some, if◌then◌else◌, u32_mod, ◌≡◌,
}
use addictol.Base.Text.{Text, text_eq, bytes, is_empty}
use addictol.Base.Int.{ℤ, pos, negsuc, ltb_ℤ, leb_ℤ}
use addictol.Zlib.{eq_ℤ}

-- `double`: its comparisons, and the casts that settings use. `narrow` is the cast to `float`, which
-- is stored and read back as a `double`.
pub record Doubles (F : Type 0) : Type 0 where
  pub eq : F → F → Bool
  pub lt : F → F → Bool
  pub is_finite : F → Bool
  pub of_int : ℤ → F
  pub of_uint : ℕ → F
  pub to_int : F → ℤ
  pub to_uint : F → ℕ
  pub float_max : F
  pub negate : F → F
  pub narrow : F → F

pub data SettingValueType : Type 0 where
  boolean float32 int32 uint32 string : SettingValueType

pub data SettingApplyTiming : Type 0 where
  immediate next_launch : SettingApplyTiming

pub data SettingDisplayCategory : Type 0 where
  stability performance visuals audio gameplay interface diagnostics count : SettingDisplayCategory

pub record SettingNumericRange (F : Type 0) : Type 0 where
  pub minimum : Option F
  pub maximum : Option F

pub data SettingValue (F : Type 0) : Type 0 where
  bool_value : Bool → SettingValue F
  double_value : F → SettingValue F
  int_value : ℤ → SettingValue F
  uint_value : ℕ → SettingValue F
  string_value : Text → SettingValue F

-- The TOML setting behind an entry, by its address `setting`, keeps the default and the current
-- value.
pub record SettingEntry (F : Type 0) : Type 0 where
  pub section : Text
  pub key : Text
  pub display_name : Text
  pub display_category : SettingDisplayCategory
  pub type : SettingValueType
  pub apply_timing : SettingApplyTiming
  pub numeric_range : Option (SettingNumericRange F)
  pub setting : ℕ
  pub default_value : SettingValue F

abbrev bool_eq : Bool → Bool → Bool
bool_eq true b = b
bool_eq false b = not b

abbrev pub int32_min : ℤ
int32_min = negsuc (2 ^ 31 - 1)

abbrev pub int32_max : ℤ
int32_max = pos (2 ^ 31 - 1)

-- The values that a setting of the given type holds.
abbrev pub holds_type : {F : Type 0} → SettingValueType → SettingValue F → Bool
holds_type boolean (bool_value b) = true
holds_type float32 (double_value x) = true
holds_type int32 (int_value i) = true
holds_type uint32 (uint_value n) = true
holds_type string (string_value s) = true
holds_type _ _ = false

module _ {F : Type 0} (o : Doubles F) where
  -- `operator==` of the variant: a NaN is not equal to itself.
  unfoldable pub value_eq : SettingValue F → SettingValue F → Bool
  value_eq (bool_value a) (bool_value b) = bool_eq a b
  value_eq (double_value a) (double_value b) = o.eq a b
  value_eq (int_value a) (int_value b) = eq_ℤ a b
  value_eq (uint_value a) (uint_value b) = a == b
  value_eq (string_value a) (string_value b) = text_eq a b
  value_eq _ _ = false

  -- TomlSetting::Write: the value that is stored, as it is read back, or `none` for false.
  unfoldable pub write : SettingValueType → SettingValue F → Option (SettingValue F)
  write boolean (bool_value b) = some (bool_value b)
  write float32 (double_value x) = some (double_value (o.narrow x))
  write int32 (int_value i) =
      if ltb_ℤ i int32_min || ltb_ℤ int32_max i then none else some (int_value i)
  write uint32 (uint_value n) = if ltb (u32_mod - 1) n then none else some (uint_value n)
  write string (string_value s) = some (string_value s)
  write _ _ = none

  -- The current values of all settings, and SettingEntry's functions on them.
  abbrev pub Store : Type 0
  Store = ℕ → SettingValue F

  abbrev pub value : Store → SettingEntry F → SettingValue F
  value store e = store e.setting

  unfoldable pub set_value : Store → SettingEntry F → SettingValue F → Bool × Store
  set_value store e v = elim (write e.type v) [
    | none ↦ (false, store)
    | some stored ↦ (true, λ a. if a == e.setting then stored else store a)
  ]

  unfoldable pub is_setting_modified : SettingEntry F → SettingValue F → Bool
  unfolding value_eq
  is_setting_modified e v = not (value_eq v e.default_value)

pub data SettingControlKind : Type 0 where
  checkbox slider drag numeric_input text_input combo : SettingControlKind

-- The names of the heaps and of the zlib backends.
abbrev pub allocator_options : List Text
allocator_options = bytes "stock" ∷ bytes "voltek" ∷ bytes "mimalloc" ∷ bytes "rpmalloc" ∷ []

abbrev pub zlib_options : List Text
zlib_options =
    bytes "stock"
    ∷ bytes "zlib"
    ∷ bytes "zlib-ng"
    ∷ bytes "isa-l"
    ∷ bytes "hybrid-zlib-ng"
    ∷ bytes "hybrid-isa-l"
    ∷ []

abbrev pub log_level_options : List Text
log_level_options =
    bytes "trace"
    ∷ bytes "debug"
    ∷ bytes "info"
    ∷ bytes "warn"
    ∷ bytes "error"
    ∷ bytes "critical"
    ∷ bytes "off"
    ∷ []

module _ {F : Type 0} where
  unfoldable pub is_setting_key : SettingEntry F → Text → Bool
  is_setting_key e key = text_eq e.section (bytes "Additional") && text_eq e.key key

  unfoldable pub setting_string_options : SettingEntry F → List Text
  setting_string_options e =
      if is_setting_key e (bytes "sAllocator")
      then allocator_options
      else if is_setting_key e (bytes "sZlibBackend")
      then zlib_options
      else if is_setting_key e (bytes "sLogLevel") || is_setting_key e (bytes "sLogFlushLevel")
      then log_level_options
      else []

  abbrev pub numeric_control : Option (SettingNumericRange F) → SettingControlKind
  numeric_control none = numeric_input
  numeric_control (some r) = if is_some r.minimum && is_some r.maximum then slider else drag

  unfoldable pub select_setting_control : SettingEntry F → SettingControlKind
  select_setting_control e = elim e.type [
    | boolean ↦ checkbox
    | string ↦ if is_empty (setting_string_options e) then text_input else combo
    | _ ↦ numeric_control e.numeric_range
  ]
