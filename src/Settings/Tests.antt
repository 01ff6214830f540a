-- ===== src/Settings/Tests.antt =====
-- Settings over whole numbers for `double`, and the theorems at them.
use addictol.Base.{
  ℕ, zero, suc, ◌&&◌, ◌^◌, ◌-◌, ◌≡◌, refl, inl, inr, true, false, none, some, List, [], ◌∷◌, ltb,
  arith, is_some, map, All, u32_mod,
}
use addictol.Base.Text.{Text, bytes, text_eq, text_lt}
use addictol.Base.Int.{ℤ, pos, negsuc, ltb_ℤ, pos_part}
use addictol.Zlib.{eq_ℤ}
use addictol.Settings.{
  Doubles, SettingEntry, SettingValue, string_value, int_value, int32, string, next_launch,
  stability, write, value_eq, combo, slider, select_setting_control, setting_string_options,
  is_setting_key,
}
use addictol.Settings.Registry.{
  duplicate_setting, Registry, register, find_key, contains_section, insert, lower_bound,
}
use addictol.Settings.Registry.Lookup.{Ordered, has_section, register-find, contains_section_lem}
use addictol.Settings.Names.{
  build_display_name, build_display_name_lem, IsTyped, IsSpaced, strip_type, without_spaces, spaced,
  spaced_after, is_boundary,
}
use addictol.Settings.Normal.{normalize_setting_draft_value, normalize_as}
use addictol.Settings.Normal.Writable.{IsDouble, IsSound, Between, normalize-write}
use addictol.Settings.Drafts.{
  SettingsDraftState, SettingDraftEntry, settings_draft_pending_count, apply_draft, draft_of,
}
use addictol.Settings.Drafts.Commit.{apply_draft-settles, IsEqualToItself}
use addictol.Settings.Drafts.Session.{
  Action, edit_action, reset_action, leave_action, run, TakesBoth, run-IsWritable, committed_values,
  run-committed,
}

abbrev pub opposite : ℤ → ℤ
opposite (pos zero) = pos 0
opposite (pos (suc n)) = negsuc n
opposite (negsuc n) = pos (suc n)

abbrev pub whole_numbers : Doubles ℤ
whole_numbers = record {
  eq = eq_ℤ;
  lt = ltb_ℤ;
  is_finite = λ x. true;
  of_int = λ x. x;
  of_uint = pos;
  to_int = λ x. x;
  to_uint = pos_part;
  float_max = pos (2 ^ 127);
  negate = opposite;
  narrow = λ x. x;
}

eq_ℤ_refl : (i : ℤ) → eq_ℤ i i ≡ true
eq_ℤ_refl (pos n) = ground arith
eq_ℤ_refl (negsuc n) = ground arith

uint_below :
    (x : ℤ)
    → Between whole_numbers (pos 0) (pos (u32_mod - 1)) x
    → ltb (u32_mod - 1) (pos_part x) ≡ false
uint_below (pos n) h = ground (arith, h)
uint_below (negsuc n) h = ground arith

whole_numbers-IsDouble : IsDouble whole_numbers
whole_numbers-IsDouble = record {
  int_number = eq_ℤ_refl;
  uint_number = λ n. eq_ℤ_refl (pos n);
  int_order = λ i j h. h;
  uint_order = λ m n h. ground (arith, h);
  int_bounds = λ x h. (h.1, h.2);
  uint_bounds = uint_below;
}

abbrev pub max_threads : SettingEntry ℤ
max_threads = record {
  section = bytes "Additional";
  key = bytes "nMaxThreads";
  display_name = bytes "Max Threads";
  display_category = stability;
  type = int32;
  apply_timing = next_launch;
  numeric_range = some (record { minimum = some (pos 1); maximum = some (pos 64) });
  setting = 10;
  default_value = int_value (pos 8);
}

abbrev pub allocator : SettingEntry ℤ
allocator = record max_threads {
  key = bytes "sAllocator";
  type = string;
  numeric_range = none;
  setting = 11;
  default_value = string_value (bytes "voltek");
}

max_threads-IsSound : IsSound whole_numbers max_threads
unfolding write
max_threads-IsSound = (refl, ((refl, refl, refl), (refl, refl, refl)))

shown : (select_setting_control max_threads ≡ slider) × (select_setting_control allocator ≡ combo)
unfolding select_setting_control setting_string_options is_setting_key text_eq
shown = (refl, refl)

-- 100 threads are too many.
clamped :
    normalize_setting_draft_value whole_numbers max_threads (int_value (pos 100))
    ≡ some (int_value (pos 64))
unfolding normalize_setting_draft_value normalize_as
clamped = refl

normalize-write_example :
    (v : SettingValue ℤ) × (normalize_setting_draft_value whole_numbers max_threads
        (int_value (pos 100))
      ≡ some v)
    × (is_some (write whole_numbers int32 v) ≡ true)
normalize-write_example =
    normalize-write whole_numbers whole_numbers-IsDouble max_threads (int_value (pos 100))
      max_threads-IsSound

abbrev one_setting : Registry ℤ
one_setting = record { storage = max_threads ∷ []; settings = max_threads ∷ []; enumerated = false }

abbrev two_settings : Registry ℤ
two_settings = record one_setting {
  storage = max_threads ∷ allocator ∷ [];
  settings = max_threads ∷ allocator ∷ [];
}

registered : register allocator one_setting ≡ inr two_settings
unfolding register find_key lower_bound insert text_lt text_eq
registered = refl

refused_twice : register allocator two_settings ≡ inl duplicate_setting
unfolding register find_key lower_bound insert text_lt text_eq
refused_twice = refl

register-find_example :
    Ordered two_settings
    × (find_key (bytes "Additional") (bytes "sAllocator") two_settings ≡ some allocator)
    × ((section key : Text)
        → text_eq section (bytes "Additional") && text_eq key (bytes "sAllocator") ≡ false
        → find_key section key two_settings ≡ find_key section key one_setting)
register-find_example = register-find allocator one_setting two_settings (tt, tt) registered

contains_section_example :
    contains_section (bytes "Additional") one_setting
    ≡ has_section (bytes "Additional") (max_threads ∷ [])
contains_section_example = contains_section_lem (bytes "Additional") one_setting (tt, tt)

named : build_display_name (bytes "bUseXMLFix2") ≡ bytes "Use XML Fix 2"
unfolding build_display_name strip_type spaced spaced_after is_boundary
named = refl

abbrev thread_limit : Text
thread_limit = bytes "nMaxThreads"

build_display_name_example :
    (IsTyped thread_limit
      → (c : ℕ) × (thread_limit ≡ c ∷ without_spaces (build_display_name thread_limit)))
    × (¬ IsTyped thread_limit → thread_limit ≡ without_spaces (build_display_name thread_limit))
    × IsSpaced (build_display_name thread_limit)
build_display_name_example =
    build_display_name_lem thread_limit
      (refl, (refl, (refl, (refl, (refl, (refl, (refl, (refl, (refl, (refl, (refl, tt)))))))))))

abbrev opened : SettingsDraftState ℤ
opened = record {
  entries =
      record { setting = max_threads; committed = int_value (pos 8); draft = int_value (pos 16) }
      ∷ [];
  active = true;
}

self_equal :
    (IsEqualToItself whole_numbers (int_value (pos 8)))
    × IsEqualToItself whole_numbers (int_value (pos 16))
unfolding value_eq
self_equal = (refl, refl)

apply_draft-settles_example :
    (settings_draft_pending_count whole_numbers (apply_draft whole_numbers true opened) ≡ 0)
    × (map (draft_of whole_numbers) (apply_draft whole_numbers true opened).entries
        ≡ map (draft_of whole_numbers) opened.entries)
    × ((apply_draft whole_numbers true opened).active ≡ true)
apply_draft-settles_example = apply_draft-settles whole_numbers opened (self_equal.1, tt)

abbrev actions : List (Action ℤ)
actions =
    edit_action (record { section = bytes "Additional"; key = bytes "nMaxThreads" })
      (int_value (pos 100))
    ∷ reset_action
    ∷ leave_action
    ∷ []

opened-IsSound : All (λ (e : SettingDraftEntry ℤ). IsSound whole_numbers e.setting) opened.entries
unfolding write
opened-IsSound = ((refl, ((refl, refl, refl), (refl, refl, refl))), tt)

opened-TakesBoth : All (TakesBoth whole_numbers) opened.entries
unfolding write
opened-TakesBoth = ((refl, refl), tt)

run-IsWritable_example : All (TakesBoth whole_numbers) (run whole_numbers opened actions).entries
run-IsWritable_example =
    run-IsWritable whole_numbers whole_numbers-IsDouble opened actions opened-IsSound
      opened-TakesBoth

run-committed_example :
    committed_values whole_numbers (run whole_numbers opened actions)
    ≡ committed_values whole_numbers opened
run-committed_example = run-committed whole_numbers opened actions (refl, (refl, (refl, tt)))
