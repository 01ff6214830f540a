-- ===== src/Settings/Drafts/Session.antt =====
-- The settings page at work: what the user does to the draft, one action after the other.
use addictol.Base.{
  ℕ, zero, suc, ◌≡◌, refl, ◌∙◌, Bool, true, false, Option, none, some, List, [], ◌∷◌, map, All,
  All-map_imp, if_both, is_some,
}
use addictol.Settings.{Doubles, SettingValue, write}
use addictol.Settings.Normal.{normalize_setting_draft_value}
use addictol.Settings.Normal.Writable.{IsDouble, IsSound, normalize-write}
use addictol.Settings.Drafts.{
  SettingIdentity, SettingDraftEntry, SettingsDraftState, SettingValueSnapshot, commit_at,
  commit_all, revert_entry, revert_settings_draft, default_entry, reset_settings_draft_to_defaults,
  leave_settings_draft, edit, edit_first, edit_entry, same_alternative, is_identity, apply_draft,
}

pub data Action (F : Type 0) : Type 0 where
  edit_action : SettingIdentity → SettingValue F → Action F
  revert_action reset_action leave_action : Action F
  apply_action : Bool → Action F

abbrev pub applies : {F : Type 0} → Action F → Bool
applies (apply_action success) = success
applies _ = false

module _ {F : Type 0} (o : Doubles F) where
  unfoldable pub step : SettingsDraftState F → Action F → SettingsDraftState F
  step s (edit_action i v) = edit o s i v
  step s revert_action = revert_settings_draft s
  step s reset_action = reset_settings_draft_to_defaults s
  step s leave_action = leave_settings_draft s
  step s (apply_action success) = apply_draft o success s

  unfoldable pub run : SettingsDraftState F → List (Action F) → SettingsDraftState F
  unfolding step
  run s [] = s
  run s (a ∷ actions) = run (step s a) actions

  abbrev pub committed_of : SettingDraftEntry F → SettingValueSnapshot F
  committed_of e = record { setting = e.setting; value = e.committed }

  -- The setting of the entry takes its draft and its committed value.
  abbrev pub TakesBoth : SettingDraftEntry F → Type 0
  TakesBoth e =
      (is_some (write o e.setting.type e.draft) ≡ true)
      × (is_some (write o e.setting.type e.committed) ≡ true)

  -- The same, with a setting whose default it takes and whose range fits it.
  record IsWritable (e : SettingDraftEntry F) : Type 0 where
    sound : IsSound o e.setting
    draft : is_some (write o e.setting.type e.draft) ≡ true
    committed : is_some (write o e.setting.type e.committed) ≡ true

  abbrev AllWritable : SettingsDraftState F → Type 0
  AllWritable s = All IsWritable s.entries

  all-IsWritable :
      (es : List (SettingDraftEntry F))
      → All (λ (e : SettingDraftEntry F). IsSound o e.setting) es
      → All TakesBoth es
      → All IsWritable es
  all-IsWritable [] s t = tt
  all-IsWritable (e ∷ es) s t =
      (record { sound = s.0; draft = t.0.0; committed = t.0.1 }, all-IsWritable es s.1 t.1)

  map-IsWritable :
      (f : SettingDraftEntry F → SettingDraftEntry F)
      → ((e : SettingDraftEntry F) → IsWritable e → IsWritable (f e))
      → (es : List (SettingDraftEntry F)) → All IsWritable es
      → All IsWritable (map f es)
  map-IsWritable f h [] a = tt
  map-IsWritable f h (e ∷ es) a = (h e a.0, map-IsWritable f h es a.1)

  commit_at-IsWritable :
      (i : ℕ) (es : List (SettingDraftEntry F))
      → All IsWritable es
      → All IsWritable (commit_at i es)
  unfolding commit_at
  commit_at-IsWritable i [] a = a
  commit_at-IsWritable zero (e ∷ es) a =
      (record { sound = a.0.sound; draft = a.0.draft; committed = a.0.draft }, a.1)
  commit_at-IsWritable (suc i) (e ∷ es) a = (a.0, commit_at-IsWritable i es a.1)

  commit_all-IsWritable :
      (is : List ℕ) (es : List (SettingDraftEntry F))
      → All IsWritable es
      → All IsWritable (commit_all is es)
  unfolding commit_all
  commit_all-IsWritable [] es a = a
  commit_all-IsWritable (i ∷ is) es a =
      commit_all-IsWritable is (commit_at i es) (commit_at-IsWritable i es a)

  revert_entry-IsWritable : (e : SettingDraftEntry F) → IsWritable e → IsWritable (revert_entry e)
  revert_entry-IsWritable e h = record {
    sound = h.sound;
    draft = h.committed;
    committed = h.committed;
  }

  default_entry-IsWritable : (e : SettingDraftEntry F) → IsWritable e → IsWritable (default_entry e)
  default_entry-IsWritable e h = record {
    sound = h.sound;
    draft = h.sound.0;
    committed = h.committed;
  }

  module _ (l : IsDouble o) where
    edit_entry-IsWritable :
        (v : SettingValue F) (e : SettingDraftEntry F)
        → IsWritable e
        → IsWritable (edit_entry o v e)
    unfolding edit_entry
    edit_entry-IsWritable v e h =
        let (w, normal, written) = normalize-write o l e.setting v h.sound in
        if_both IsWritable (same_alternative v e.draft) _ _
          (rw normal (record { sound = h.sound; draft = written; committed = h.committed })) h

    edit_first-IsWritable :
        (i : SettingIdentity) (v : SettingValue F) (es : List (SettingDraftEntry F))
        → All IsWritable es
        → All IsWritable (edit_first o i v es)
    unfolding edit_first
    edit_first-IsWritable i v [] a = a
    edit_first-IsWritable i v (e ∷ es) a =
        if_both (All IsWritable) (is_identity i e) _ _ (edit_entry-IsWritable v e a.0, a.1)
          (a.0, edit_first-IsWritable i v es a.1)

    step-IsWritable :
        (s : SettingsDraftState F) (a : Action F) → AllWritable s → AllWritable (step s a)
    unfolding step edit revert_settings_draft reset_settings_draft_to_defaults leave_settings_draft
        apply_draft
    step-IsWritable s (edit_action i v) h =
        if_both AllWritable s.active _ _ (edit_first-IsWritable i v s.entries h) h
    step-IsWritable s revert_action h =
        if_both AllWritable s.active _ _
          (map-IsWritable revert_entry revert_entry-IsWritable s.entries h) h
    step-IsWritable s reset_action h =
        if_both AllWritable s.active _ _
          (map-IsWritable default_entry default_entry-IsWritable s.entries h) h
    step-IsWritable s leave_action h =
        if_both AllWritable s.active _ _
          (map-IsWritable revert_entry revert_entry-IsWritable s.entries h) h
    step-IsWritable s (apply_action success) h =
        if_both AllWritable success _ _
          (if_both AllWritable s.active _ _ (commit_all-IsWritable _ s.entries h) h) h

    run-keeps :
        (s : SettingsDraftState F) (actions : List (Action F))
        → All IsWritable s.entries
        → All IsWritable (run s actions).entries
    unfolding run
    run-keeps s [] h = h
    run-keeps s (a ∷ actions) h = run-keeps (step s a) actions (step-IsWritable s a h)

    -- If every entry of a draft has a setting with a default that it takes and, for an integer, a
    -- range of 32-bit integers of its sign, and two values that its setting takes, then every entry
    -- has two values that its setting takes after any sequence of edits, reverts, resets to the
    -- defaults, applications and leaves, provided that casts between integers and doubles keep
    -- order and bounds.
    pub run-IsWritable :
        (s : SettingsDraftState F) (actions : List (Action F))
        → All (λ (e : SettingDraftEntry F). IsSound o e.setting) s.entries
        → All TakesBoth s.entries
        → All TakesBoth (run s actions).entries
    run-IsWritable s actions sound takes =
        All-map_imp IsWritable TakesBoth (run s actions).entries (λ e h. (h.draft, h.committed))
          (run-keeps s actions (all-IsWritable s.entries sound takes))

  abbrev pub committed_values : SettingsDraftState F → List (SettingValueSnapshot F)
  committed_values s = map committed_of s.entries

  map-committed :
      (f : SettingDraftEntry F → SettingDraftEntry F)
      → ((e : SettingDraftEntry F) → committed_of (f e) ≡ committed_of e)
      → (es : List (SettingDraftEntry F)) → map committed_of (map f es) ≡ map committed_of es
  map-committed f h [] = refl
  map-committed f h (e ∷ es) = simp (h e, map-committed f h es)

  edit_entry-committed :
      (v : SettingValue F) (e : SettingDraftEntry F)
      → committed_of (edit_entry o v e) ≡ committed_of e
  unfolding edit_entry
  edit_entry-committed v e =
      if_both (λ (x : SettingDraftEntry F). committed_of x ≡ committed_of e)
        (same_alternative v e.draft) _ _ (stored (normalize_setting_draft_value o e.setting v)) refl
    where
      stored :
          (w : Option (SettingValue F))
          → committed_of (elim w [ none ↦ e | some x ↦ record e { draft = x } ]) ≡ committed_of e
      stored none = refl
      stored (some x) = refl

  edit_first-committed :
      (i : SettingIdentity) (v : SettingValue F) (es : List (SettingDraftEntry F))
      → map committed_of (edit_first o i v es) ≡ map committed_of es
  unfolding edit_first
  edit_first-committed i v [] = refl
  edit_first-committed i v (e ∷ es) =
      if_both (λ (xs : List (SettingDraftEntry F)). map committed_of xs ≡ map committed_of (e ∷ es))
        (is_identity i e) _ _ (simp (edit_entry-committed v e)) (simp (edit_first-committed i v es))

  step-committed :
      (s : SettingsDraftState F) (a : Action F)
      → applies a ≡ false
      → committed_values (step s a) ≡ committed_values s
  unfolding step edit revert_settings_draft reset_settings_draft_to_defaults leave_settings_draft
      apply_draft
  step-committed s (edit_action i v) h =
      if_both (λ (x : SettingsDraftState F). committed_values x ≡ committed_values s) s.active _ _
        (edit_first-committed i v s.entries) refl
  step-committed s revert_action h =
      if_both (λ (x : SettingsDraftState F). committed_values x ≡ committed_values s) s.active _ _
        (map-committed revert_entry (λ e. refl) s.entries) refl
  step-committed s reset_action h =
      if_both (λ (x : SettingsDraftState F). committed_values x ≡ committed_values s) s.active _ _
        (map-committed default_entry (λ e. refl) s.entries) refl
  step-committed s leave_action h =
      if_both (λ (x : SettingsDraftState F). committed_values x ≡ committed_values s) s.active _ _
        (map-committed revert_entry (λ e. refl) s.entries) refl
  step-committed s (apply_action true) h = cc
  step-committed s (apply_action false) h = refl

  -- Edits, reverts, resets to the defaults, leaves and applications that failed, in any sequence,
  -- change no committed value.
  pub run-committed :
      (s : SettingsDraftState F) (actions : List (Action F))
      → All (λ a. applies a ≡ false) actions
      → committed_values (run s actions) ≡ committed_values s
  unfolding run
  run-committed s [] h = refl
  run-committed s (a ∷ actions) h = run-committed (step s a) actions h.1 ∙ step-committed s a h.0
