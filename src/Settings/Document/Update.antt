-- ===== src/Settings/Document/Update.antt =====
-- What an updated document says of each setting.
use addictol.Base.{
  ◌≡◌, refl, sym, ap, ◌∙◌, Bool, true, false, Option, none, some, List, [], ◌∷◌, ◌⊎◌, inl, inr,
  ◌&&◌, ◌||◌, All, arith, Bool-cases, Option-cases, if◌then◌else◌,
}
use addictol.Base.Text.{Text, text_eq, text_eq_iff, text_eq_refl}
use addictol.Settings.{Doubles, SettingValue}
use addictol.Settings.Drafts.{SettingValueSnapshot}
use addictol.Settings.Document.{
  find_entry, erase_entry, put_entry, Node, table_node, value_node, Document, is_default,
  update_table, update_setting, update_owned_settings,
}

module _ {ℓ} {V : Type ℓ} where
  find_entry-put_entry :
      (i k : Text) (v : V) (m : List (Text × V))
      → find_entry i (put_entry k v m) ≡ (if text_eq k i then some v else find_entry i m)
  unfolding find_entry put_entry
  find_entry-put_entry i k v [] = refl
  find_entry-put_entry i k v ((j, w) ∷ m) =
      ground
        (arith, find_entry-put_entry i k v m, text_eq_iff j k, text_eq_iff j i, text_eq_iff k i)

  find_entry-erase_entry :
      (i k : Text) (m : List (Text × V))
      → find_entry i (erase_entry k m) ≡ (if text_eq k i then none else find_entry i m)
  unfolding find_entry erase_entry
  find_entry-erase_entry i k [] = ground arith
  find_entry-erase_entry i k ((j, w) ∷ m) =
      ground
        (arith, find_entry-erase_entry i k m, text_eq_iff j k, text_eq_iff j i, text_eq_iff k i)

inr-injective {ℓ κ} : {A : Type ℓ} {B : Type κ} {x y : B} → ◌≡◌ {A = A ⊎ B} (inr x) (inr y) → x ≡ y
inr-injective h = cc

Sum-cases {ℓ κ} :
    {A : Type ℓ} {B : Type κ} (s : A ⊎ B) → ((a : A) × (s ≡ inl a)) ⊎ ((b : B) × (s ≡ inr b))
Sum-cases (inl a) = inl (a, refl)
Sum-cases (inr b) = inr (b, refl)

module _ {V : Type 0} where
  abbrev pub in_node : Text → Option (Node V) → Option V
  in_node key none = none
  in_node key (some (value_node v)) = none
  in_node key (some (table_node table)) = find_entry key table

  -- The entry of a key in a section.
  abbrev pub entry_of : Text → Text → Document V → Option V
  entry_of section key root = in_node key (find_entry section root)

module _ {F V : Type 0} (o : Doubles F) (to_toml_value : SettingValue F → V) where
  -- A default has no entry.
  abbrev pub expected : SettingValueSnapshot F → Option V
  expected item = if is_default o item then none else some (to_toml_value item.value)

  abbrev pub is_of : Text → Text → SettingValueSnapshot F → Bool
  is_of section key item = text_eq item.setting.section section && text_eq item.setting.key key

  abbrev pub mentions : Text → Text → List (SettingValueSnapshot F) → Bool
  mentions section key [] = false
  mentions section key (item ∷ items) = is_of section key item || mentions section key items

  -- No two snapshots are of one setting.
  abbrev pub AllDistinct : List (SettingValueSnapshot F) → Type 0
  AllDistinct [] = Unit
  AllDistinct (item ∷ items) =
      (mentions item.setting.section item.setting.key items ≡ false) × AllDistinct items

  update_table-find :
      (item : SettingValueSnapshot F) (key : Text) (table : List (Text × V))
      → find_entry key (update_table o to_toml_value item table)
        ≡ (if text_eq item.setting.key key then expected item else find_entry key table)
  update_table-find item key table = elim (Bool-cases (is_default o item)) [
    | inl d ↦ simp d (find_entry-erase_entry key item.setting.key table)
    | inr d ↦ simp d (find_entry-put_entry key item.setting.key (to_toml_value item.value) table)
  ]

  put_section-entry :
      (item : SettingValueSnapshot F) (section key : Text) (root : Document V)
      (table : List (Text × V))
      → in_node key (find_entry item.setting.section root) ≡ find_entry key table
      → entry_of section key (
          put_entry item.setting.section
            (table_node (update_table o to_toml_value item table))
            root)
        ≡ (if is_of section key item then expected item else entry_of section key root)
  put_section-entry item section key root table same =
      let updated = table_node (update_table o to_toml_value item table) in
      ap (in_node key) (find_entry-put_entry section item.setting.section updated root)
      ∙ elim (Bool-cases (text_eq item.setting.section section)) [
        | inr other ↦ simp other
        | inl here ↦
            let name = (text_eq_iff item.setting.section section).0 here in
            let before : find_entry key table ≡ entry_of section key root =
              sym same ∙ ap (λ (s : Text). in_node key (find_entry s root)) name in
            simp here (
              update_table-find item key table
              ∙ ap (λ (x : Option V). if text_eq item.setting.key key then expected item else x)
                  before)
      ]

  absent :
      (item : SettingValueSnapshot F) (section key : Text) (root : Document V)
      → find_entry item.setting.section root ≡ none
      → is_default o item ≡ true
      → entry_of section key root
        ≡ (if is_of section key item then expected item else entry_of section key root)
  absent item section key root missing d = elim (Bool-cases (is_of section key item)) [
    | inr e ↦ simp e
    | inl e ↦
        let name = (text_eq_iff item.setting.section section).0 (ground (arith, e)) in
        simp (e, d)
          (ap (λ (s : Text). in_node key (find_entry s root)) (sym name) ∙ ap (in_node key) missing)
  ]

  missing_section :
      (item : SettingValueSnapshot F) (key : Text) (root : Document V)
      → find_entry item.setting.section root ≡ none
      → in_node key (find_entry item.setting.section root) ≡ find_entry key []
  unfolding find_entry
  missing_section item key root missing = ap (in_node key) missing

  update_setting-entry :
      (item : SettingValueSnapshot F) (section key : Text) (root next : Document V)
      → update_setting o to_toml_value item root ≡ inr next
      → entry_of section key next
        ≡ (if is_of section key item then expected item else entry_of section key root)
  unfolding update_setting
  update_setting-entry item section key root next h =
      elim (Option-cases (find_entry item.setting.section root)) [
        | inl missing ↦ elim (Bool-cases (is_default o item)) [
          | inl d ↦
              let same : root ≡ next = inr-injective (simp (missing, d, update_setting) at h) in
              ap (entry_of section key) (sym same) ∙ absent item section key root missing d
          | inr d ↦
              let same = inr-injective (simp (missing, d, update_setting) at h) in
              ap (entry_of section key) (sym same)
              ∙ simp d (
                  simp d at (
                    put_section-entry item section key root []
                      (missing_section item key root missing)))
        ]
        | inr (value_node v, found) ↦
            let refused : inl item.setting.section ≡ inr next = simp (found, update_setting) at h in
            cc
        | inr (table_node table, found) ↦
            let same = inr-injective (simp (found, update_setting) at h) in
            ap (entry_of section key) (sym same)
            ∙ put_section-entry item section key root table (ap (in_node key) found)
      ]

  update-refused :
      (item : SettingValueSnapshot F) (items : List (SettingValueSnapshot F)) (root : Document V)
      (section : Text)
      → update_setting o to_toml_value item root ≡ inl section
      → update_owned_settings o to_toml_value (item ∷ items) root ≡ inl section
  unfolding update_owned_settings
  update-refused item items root section e = rw (e, update_owned_settings) refl

  update-next :
      (item : SettingValueSnapshot F) (items : List (SettingValueSnapshot F))
      (root mid : Document V)
      → update_setting o to_toml_value item root ≡ inr mid
      → update_owned_settings o to_toml_value (item ∷ items) root
        ≡ update_owned_settings o to_toml_value items mid
  unfolding update_owned_settings
  update-next item items root mid e = rw (e, update_owned_settings) refl

  others_kept :
      (items : List (SettingValueSnapshot F)) (section key : Text) (root next : Document V)
      → update_owned_settings o to_toml_value items root ≡ inr next
      → mentions section key items ≡ false
      → entry_of section key next ≡ entry_of section key root
  unfolding update_owned_settings
  others_kept [] section key root next h m = ap (entry_of section key) (sym (inr-injective h))
  others_kept (item ∷ items) section key root next h m =
      elim (Sum-cases (update_setting o to_toml_value item root)) [
        | inl (refused, e) ↦ let stopped = update-refused item items root refused e in cc
        | inr (mid, e) ↦
            let other : is_of section key item ≡ false = ground (arith, m) in
            others_kept items section key mid next (sym (update-next item items root mid e) ∙ h)
              (ground (arith, m))
            ∙ update_setting-entry item section key root mid e
            ∙ simp other
      ]

  is_of_self :
      (item : SettingValueSnapshot F) → is_of item.setting.section item.setting.key item ≡ true
  is_of_self item = simp (text_eq_refl item.setting.section, text_eq_refl item.setting.key)

  settings_set :
      (items : List (SettingValueSnapshot F)) (root next : Document V)
      → update_owned_settings o to_toml_value items root ≡ inr next
      → AllDistinct items
      → All (λ item. entry_of item.setting.section item.setting.key next ≡ expected item) items
  unfolding update_owned_settings
  settings_set [] root next h distinct = tt
  settings_set (item ∷ items) root next h distinct =
      elim (Sum-cases (update_setting o to_toml_value item root)) [
        | inl (refused, e) ↦ let stopped = update-refused item items root refused e in cc
        | inr (mid, e) ↦
            let rest = sym (update-next item items root mid e) ∙ h in
            (
              others_kept items item.setting.section item.setting.key mid next rest distinct.0
                  ∙ update_setting-entry item item.setting.section item.setting.key root mid e
                  ∙ simp (is_of_self item),
              settings_set items mid next rest distinct.1,
            )
      ]

  -- If UpdateOwnedSettings succeeds on snapshots of different settings, each setting has the entry
  -- of its value in the new document, or none if the value is the default, and every entry of
  -- another key or section is as before.
  pub update_owned_settings-entry :
      (items : List (SettingValueSnapshot F)) (root next : Document V)
      → update_owned_settings o to_toml_value items root ≡ inr next
      → AllDistinct items
      → All (λ item. entry_of item.setting.section item.setting.key next ≡ expected item) items
        × ((section key : Text)
            → mentions section key items ≡ false
            → entry_of section key next ≡ entry_of section key root)
  update_owned_settings-entry items root next h distinct = (
    settings_set items root next h distinct,
    λ section key. others_kept items section key root next h,
  )
