-- ===== src/Settings/Document.antt =====
-- The settings document of Addictol/Source/Core/Settings/AdSettingPersistence.cpp: the update of the sections
-- that settings own. A TOML value other than a section is a parameter `V`; a table is an association list in
-- its order, with one entry of a key at most.
pub mod Lines
pub mod Kept
pub mod Update
pub mod Tests
use addictol.Base.{
  Bool, true, false, Option, none, some, List, [], ◌∷◌, ◌⊎◌, inl, inr, ◌&&◌, if◌then◌else◌,
}
use addictol.Base.Text.{Text, text_eq}
use addictol.Settings.{Doubles, SettingEntry, SettingValue, value_eq}
use addictol.Settings.Drafts.{SettingValueSnapshot}

module _ {ℓ} {V : Type ℓ} where
  -- `find`, `erase`, and `emplace` at the end of the table where the key is missing.
  unfoldable pub find_entry : Text → List (Text × V) → Option V
  find_entry k [] = none
  find_entry k ((j, v) ∷ m) = let later = find_entry k m in if text_eq j k then some v else later

  unfoldable pub erase_entry : Text → List (Text × V) → List (Text × V)
  erase_entry k [] = []
  erase_entry k ((j, v) ∷ m) =
      let later = erase_entry k m in if text_eq j k then later else (j, v) ∷ later

  unfoldable pub put_entry : Text → V → List (Text × V) → List (Text × V)
  put_entry k v [] = (k, v) ∷ []
  put_entry k v ((j, w) ∷ m) =
      let later = put_entry k v m in if text_eq j k then (j, v) ∷ m else (j, w) ∷ later

pub data Node (V : Type 0) : Type 0 where
  table_node : List (Text × V) → Node V
  value_node : V → Node V

abbrev pub Document : Type 0 → Type 0
Document V = List (Text × Node V)

abbrev pub is_default : {F : Type 0} → Doubles F → SettingValueSnapshot F → Bool
is_default o item = value_eq o item.value item.setting.default_value

module _ {F V : Type 0} (o : Doubles F) (to_toml_value : SettingValue F → V) where
  -- The section with the entry of one setting, which is erased for a default.
  abbrev pub update_table : SettingValueSnapshot F → List (Text × V) → List (Text × V)
  update_table item table =
      if is_default o item
      then erase_entry item.setting.key table
      else put_entry item.setting.key (to_toml_value item.value) table

  -- One round of the loop: the section that is not a table, or the document.
  unfoldable pub update_setting : SettingValueSnapshot F → Document V → Text ⊎ Document V
  update_setting item root = elim (find_entry item.setting.section root) [
    | none ↦
        if is_default o item
        then inr root
        else inr (put_entry item.setting.section (table_node (update_table item [])) root)
    | some (value_node v) ↦ inl item.setting.section
    | some (table_node table) ↦
        inr (put_entry item.setting.section (table_node (update_table item table)) root)
  ]

  unfoldable pub update_owned_settings :
      List (SettingValueSnapshot F) → Document V → Text ⊎ Document V
  update_owned_settings [] root = inr root
  update_owned_settings (item ∷ items) root = elim (update_setting item root) [
    | inl section ↦ inl section
    | inr next ↦ update_owned_settings items next
  ]
