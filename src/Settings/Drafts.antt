-- ===== src/Settings/Drafts.antt =====
-- The drafts of Addictol/Source/Core/Settings/AdSettingsModel.cpp, and what the settings page of
-- Addictol/Source/Menu/AdMenuSettings.cpp does with them.
pub mod Commit
pub mod Session
use addictol.Base.{
  ℕ, zero, suc, ◌+◌, Bool, true, false, not, Option, none, some, List, [], ◌∷◌, map, count_if, ◌&&◌,
  ◌==◌, if◌then◌else◌,
}
use addictol.Base.Text.{Text, text_eq}
use addictol.Settings.{
  Doubles, SettingEntry, SettingValue, bool_value, double_value, int_value, uint_value,
  string_value, value_eq,
}
use addictol.Settings.Normal.{normalize_setting_draft_value}

pub record SettingIdentity : Type 0 where
  pub section : Text
  pub key : Text

pub record SettingValueSnapshot (F : Type 0) : Type 0 where
  pub setting : SettingEntry F
  pub value : SettingValue F

pub record SettingDraftEntry (F : Type 0) : Type 0 where
  pub setting : SettingEntry F
  pub committed : SettingValue F
  pub draft : SettingValue F

pub record SettingsDraftState (F : Type 0) : Type 0 where
  pub entries : List (SettingDraftEntry F)
  pub active : Bool

pub record SettingsDraftCommit (F : Type 0) : Type 0 where
  pub values : List (SettingValueSnapshot F)
  pub changed_indices : List ℕ

-- `holds_alternative` of the other's alternative.
abbrev pub same_alternative : {F : Type 0} → SettingValue F → SettingValue F → Bool
same_alternative (bool_value a) (bool_value b) = true
same_alternative (double_value a) (double_value b) = true
same_alternative (int_value a) (int_value b) = true
same_alternative (uint_value a) (uint_value b) = true
same_alternative (string_value a) (string_value b) = true
same_alternative _ _ = false

module _ {F : Type 0} where
  abbrev pub make_setting_identity : SettingEntry F → SettingIdentity
  make_setting_identity e = record { section = e.section; key = e.key }

  abbrev pub is_identity : SettingIdentity → SettingDraftEntry F → Bool
  is_identity i e = text_eq e.setting.section i.section && text_eq e.setting.key i.key

  unfoldable pub first_entry :
      SettingIdentity → List (SettingDraftEntry F) → Option (SettingDraftEntry F)
  first_entry i [] = none
  first_entry i (e ∷ es) = if is_identity i e then some e else first_entry i es

  unfoldable pub resolve_setting_draft_entry :
      SettingsDraftState F → SettingIdentity → Option (SettingDraftEntry F)
  resolve_setting_draft_entry s i = if s.active then first_entry i s.entries else none

  abbrev begin_entry : SettingValueSnapshot F → SettingDraftEntry F
  begin_entry item = record { setting = item.setting; committed = item.value; draft = item.value }

  unfoldable pub begin_settings_draft : List (SettingValueSnapshot F) → SettingsDraftState F
  begin_settings_draft committed = record { entries = map begin_entry committed; active = true }

  -- An index past the end changes nothing.
  unfoldable pub commit_at : ℕ → List (SettingDraftEntry F) → List (SettingDraftEntry F)
  commit_at i [] = []
  commit_at zero (e ∷ es) = record e { committed = e.draft } ∷ es
  commit_at (suc i) (e ∷ es) = e ∷ commit_at i es

  unfoldable pub commit_all : List ℕ → List (SettingDraftEntry F) → List (SettingDraftEntry F)
  commit_all [] es = es
  commit_all (i ∷ is) es = commit_all is (commit_at i es)

  unfoldable pub complete_settings_draft_apply :
      SettingsDraftState F → SettingsDraftCommit F → SettingsDraftState F
  complete_settings_draft_apply s commit =
      if s.active then record s { entries = commit_all commit.changed_indices s.entries } else s

  abbrev pub revert_entry : SettingDraftEntry F → SettingDraftEntry F
  revert_entry e = record e { draft = e.committed }

  unfoldable pub revert_settings_draft : SettingsDraftState F → SettingsDraftState F
  revert_settings_draft s =
      if s.active then record s { entries = map revert_entry s.entries } else s

  abbrev pub default_entry : SettingDraftEntry F → SettingDraftEntry F
  default_entry e = record e { draft = e.setting.default_value }

  unfoldable pub reset_settings_draft_to_defaults : SettingsDraftState F → SettingsDraftState F
  reset_settings_draft_to_defaults s =
      if s.active then record s { entries = map default_entry s.entries } else s

  unfoldable pub leave_settings_draft : SettingsDraftState F → SettingsDraftState F
  unfolding revert_settings_draft
  leave_settings_draft s = record (revert_settings_draft s) { active = false }

module _ {F : Type 0} (o : Doubles F) where
  abbrev pub differs : SettingDraftEntry F → Bool
  differs e = not (value_eq o e.draft e.committed)

  unfoldable pub settings_draft_pending_count : SettingsDraftState F → ℕ
  settings_draft_pending_count s = if s.active then count_if differs s.entries else 0

  unfoldable pub settings_draft_differs : SettingsDraftState F → Bool
  settings_draft_differs s = not (settings_draft_pending_count s == 0)

  -- The indices, from `i` on, of the entries that differ.
  unfoldable pub changed_from : ℕ → List (SettingDraftEntry F) → List ℕ
  changed_from i [] = []
  changed_from i (e ∷ es) =
      let rest = changed_from (suc i) es in if differs e then i ∷ rest else rest

  abbrev pub draft_of : SettingDraftEntry F → SettingValueSnapshot F
  draft_of e = record { setting = e.setting; value = e.draft }

  unfoldable pub prepare_settings_draft_apply : SettingsDraftState F → SettingsDraftCommit F
  prepare_settings_draft_apply s =
      if s.active
      then record { values = map draft_of s.entries; changed_indices = changed_from 0 s.entries }
      else record { values = []; changed_indices = [] }

  -- The setter of BindDraftSetting: an exception leaves the draft as it is.
  unfoldable pub edit_entry : SettingValue F → SettingDraftEntry F → SettingDraftEntry F
  edit_entry v e =
      if same_alternative v e.draft
      then elim (normalize_setting_draft_value o e.setting v) [
        | none ↦ e
        | some w ↦ record e { draft = w }
      ]
      else e

  unfoldable pub edit_first :
      SettingIdentity → SettingValue F → List (SettingDraftEntry F) → List (SettingDraftEntry F)
  unfolding edit_entry
  edit_first i v [] = []
  edit_first i v (e ∷ es) =
      let rest = edit_first i v es in if is_identity i e then edit_entry v e ∷ es else e ∷ rest

  unfoldable pub edit :
      SettingsDraftState F → SettingIdentity → SettingValue F → SettingsDraftState F
  unfolding edit_first
  edit s i v = if s.active then record s { entries = edit_first i v s.entries } else s

  -- ApplyDraft, where the repository says that it has saved the values.
  unfoldable pub apply_draft : Bool → SettingsDraftState F → SettingsDraftState F
  unfolding complete_settings_draft_apply prepare_settings_draft_apply
  apply_draft success s =
      if success then complete_settings_draft_apply s (prepare_settings_draft_apply s) else s
