-- ===== src/Settings/Registry.antt =====
-- SettingRegistry of Addictol/Source/Core/Settings/AdSetting.cpp: the entries in the order of section and
-- key. `std::ranges::lower_bound` gives the first entry that is not below.
pub mod Lookup
use addictol.Base.{
  ℕ, ◌≡◌, refl, ◌⊎◌, inl, inr, Bool, true, false, not, Option, none, some, List, [], ◌∷◌, ◌++◌,
  ◌==◌, ◌&&◌, ◌||◌, arith, is_some, if◌then◌else◌,
}
use addictol.Base.Text.{Text, text_eq, text_lt, text_lt_irrefl, text_lt_trans, text_lt_total}
use addictol.Base.OrderedMap.{Order}
use addictol.Settings.{SettingEntry, SettingDisplayCategory, count}

-- `std::tuple{ section, key }` and its order.
abbrev pub SettingKey : Type 0
SettingKey = Text × Text

abbrev pub key_lt : SettingKey → SettingKey → Bool
key_lt (s, k) (t, l) = text_lt s t || (not (text_lt t s) && text_lt k l)

pub key_lt_irrefl : (i : SettingKey) → key_lt i i ≡ false
key_lt_irrefl (s, k) = ground (arith, text_lt_irrefl s, text_lt_irrefl k)

pub key_lt_trans : (i j k : SettingKey) → key_lt i j ≡ true → key_lt j k ≡ true → key_lt i k ≡ true
key_lt_trans (s, a) (t, b) (u, c) p q = ground (
  arith,
  text_lt_trans s t u,
  text_lt_trans a b c,
  text_lt_trans u s t,
  text_lt_trans t u s,
  text_lt_total s t,
  text_lt_total t u,
)

pub key_lt_total : (i j : SettingKey) → key_lt i j ≡ false → key_lt j i ≡ false → i ≡ j
key_lt_total (s, a) (t, b) p q = ground (arith, text_lt_total s t, text_lt_total a b)

instance abbrev pub key_order : Order SettingKey
key_order = record {
  lt = key_lt;
  lt_irrefl = key_lt_irrefl;
  lt_trans = key_lt_trans;
  lt_total = key_lt_total;
}

-- `settings` holds the entries that `storage` owns, in order.
pub record Registry (F : Type 0) : Type 0 where
  pub storage : List (SettingEntry F)
  pub settings : List (SettingEntry F)
  pub enumerated : Bool

-- The `std::logic_error`s of Register.
pub data RegisterError : Type 0 where
  after_enumeration no_display_category duplicate_setting : RegisterError

abbrev pub is_category : SettingDisplayCategory → Bool
is_category count = false
is_category _ = true

module _ {F : Type 0} where
  abbrev pub key_of : SettingEntry F → SettingKey
  key_of e = (e.section, e.key)

  unfoldable pub lower_bound : SettingKey → List (SettingEntry F) → Option (SettingEntry F)
  lower_bound k [] = none
  lower_bound k (e ∷ es) = if key_lt (key_of e) k then lower_bound k es else some e

  -- The entry that was found, if it is the one looked for.
  abbrev pub checked : SettingKey → Option (SettingEntry F) → Option (SettingEntry F)
  checked k none = none
  checked k (some e) =
      if not (text_eq e.section k.0) || not (text_eq e.key k.1) then none else some e

  unfoldable pub find_key : Text → Text → Registry F → Option (SettingEntry F)
  find_key section key r = checked (section, key) (lower_bound (section, key) r.settings)

  unfoldable pub first_setting : ℕ → List (SettingEntry F) → Option (SettingEntry F)
  first_setting p [] = none
  first_setting p (e ∷ es) = if e.setting == p then some e else first_setting p es

  unfoldable pub find_setting : ℕ → Registry F → Option (SettingEntry F)
  unfolding first_setting
  find_setting p r = if p == 0 then none else first_setting p r.settings

  unfoldable pub section_bound : Text → List (SettingEntry F) → Bool
  section_bound s [] = false
  section_bound s (e ∷ es) = if text_lt e.section s then section_bound s es else text_eq e.section s

  unfoldable pub contains_section : Text → Registry F → Bool
  contains_section s r = section_bound s r.settings

  -- `insert` at the lower bound.
  unfoldable pub insert : SettingEntry F → List (SettingEntry F) → List (SettingEntry F)
  insert e [] = e ∷ []
  insert e (x ∷ xs) = if key_lt (key_of x) (key_of e) then x ∷ insert e xs else e ∷ x ∷ xs

  unfoldable pub register : SettingEntry F → Registry F → RegisterError ⊎ Registry F
  register e r =
      if r.enumerated
      then inl after_enumeration
      else if not (is_category e.display_category)
      then inl no_display_category
      else if is_some (find_key e.section e.key r)
      then inl duplicate_setting
      else inr (record r { settings = insert e r.settings; storage = r.storage ++ e ∷ [] })

  unfoldable pub settings_of : Registry F → List (SettingEntry F) × Registry F
  settings_of r = (r.settings, record r { enumerated = true })
