-- ===== src/Settings/Document/Tests.antt =====
-- A document of two sections, and the theorems at it.
use addictol.Base.{◌≡◌, refl, Bool, false, List, [], ◌∷◌, inr, All, arith, keep}
use addictol.Base.Text.{Text, bytes, text_eq}
use addictol.Base.Int.{ℤ, pos}
use addictol.Settings.{SettingValue, int_value, string_value, value_eq}
use addictol.Settings.Drafts.{SettingValueSnapshot}
use addictol.Settings.Document.{
  Document, table_node, find_entry, erase_entry, put_entry, update_setting, update_owned_settings,
}
use addictol.Settings.Document.Update.{
  AllDistinct, mentions, entry_of, expected, update_owned_settings-entry,
}
use addictol.Settings.Document.Lines.{
  split_lines, join_lines, strip_loop, trim, trim_front, trim_back, starts_with,
}
use addictol.Settings.Document.Kept.{is_data, all_lines, split_lines-join_lines, strip_loop-keeps}
use addictol.Settings.Tests.{whole_numbers, max_threads, allocator}

-- TOML values are the settings' values.
abbrev same_value : SettingValue ℤ → SettingValue ℤ
same_value v = v

abbrev document : Document (SettingValue ℤ)
document =
    (bytes "Other", table_node ((bytes "x", int_value (pos 1)) ∷ []))
    ∷ (bytes "Additional", table_node ((bytes "sAllocator", string_value (bytes "mimalloc")) ∷ []))
    ∷ []

abbrev updated : Document (SettingValue ℤ)
updated =
    (bytes "Other", table_node ((bytes "x", int_value (pos 1)) ∷ []))
    ∷ (bytes "Additional", table_node ((bytes "nMaxThreads", int_value (pos 16)) ∷ []))
    ∷ []

-- The allocator goes back to its default.
abbrev snapshots : List (SettingValueSnapshot ℤ)
snapshots =
    record { setting = allocator; value = string_value (bytes "voltek") }
    ∷ record { setting = max_threads; value = int_value (pos 16) }
    ∷ []

updates : update_owned_settings whole_numbers same_value snapshots document ≡ inr updated
unfolding update_owned_settings update_setting find_entry erase_entry put_entry value_eq text_eq
updates = refl

distinct : AllDistinct whole_numbers same_value snapshots
unfolding text_eq
distinct = (refl, (refl, tt))

update_owned_settings-entry_example :
    All
      (λ item.
        entry_of item.setting.section item.setting.key updated
        ≡ expected whole_numbers same_value item)
      snapshots
    × ((section key : Text)
        → mentions whole_numbers same_value section key snapshots ≡ false
        → entry_of section key updated ≡ entry_of section key document)
update_owned_settings-entry_example =
    update_owned_settings-entry whole_numbers same_value snapshots document updated updates distinct

split_lines-join_lines_example :
    split_lines (join_lines (bytes "[Additional]" ∷ [] ∷ bytes "n = 1" ∷ []))
    ≡ bytes "[Additional]" ∷ [] ∷ bytes "n = 1" ∷ []
split_lines-join_lines_example =
    split_lines-join_lines (bytes "[Additional]" ∷ [] ∷ bytes "n = 1" ∷ [])
      (ground arith, (tt, (ground arith, tt)))

-- Help around a line that a user wrote.
abbrev managed : List (Text × Bool)
managed =
    (bytes "# >>> Addictol managed help: n", false)
    ∷ (bytes "# how many", false)
    ∷ (bytes "n = 1", false)
    ∷ (bytes "# <<< Addictol managed help", false)
    ∷ []

stripped : strip_loop false managed ≡ bytes "n = 1" ∷ []
unfolding strip_loop trim trim_front trim_back text_eq starts_with
stripped = refl

strip_loop-keeps_example :
    keep is_data (strip_loop false managed) ≡ keep is_data (all_lines managed)
strip_loop-keeps_example = strip_loop-keeps false managed
