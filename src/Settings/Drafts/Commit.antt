-- ===== src/Settings/Drafts/Commit.antt =====
-- Applying and reverting a draft.
use addictol.Base.{
  ℕ, suc, ◌≡◌, refl, ap, ◌∙◌, Bool, true, false, inl, inr, List, [], ◌∷◌, map, length, count_if,
  All, Bool-cases, if_both, arith, if◌then◌else◌,
}
use addictol.Settings.{Doubles, SettingValue, value_eq}
use addictol.Settings.Drafts.{
  SettingDraftEntry, SettingsDraftState, commit_at, commit_all, revert_entry, revert_settings_draft,
  differs, settings_draft_pending_count, changed_from, draft_of, prepare_settings_draft_apply,
  apply_draft,
}

module _ {F : Type 0} (o : Doubles F) where
  -- Not a NaN.
  abbrev pub IsEqualToItself : SettingValue F → Type 0
  IsEqualToItself v = value_eq o v v ≡ true

  abbrev settle : SettingDraftEntry F → SettingDraftEntry F
  settle e = if differs o e then record e { committed = e.draft } else e

  changed_from-suc :
      (i : ℕ) (es : List (SettingDraftEntry F))
      → changed_from o (suc i) es ≡ map suc (changed_from o i es)
  unfolding changed_from
  changed_from-suc i [] = refl
  changed_from-suc i (e ∷ es) = elim (Bool-cases (differs o e)) [
    | inl h ↦ simp (h, changed_from-suc (suc i) es)
    | inr h ↦ simp (h, changed_from-suc (suc i) es)
  ]

  commit_all-later :
      (is : List ℕ) (e : SettingDraftEntry F) (es : List (SettingDraftEntry F))
      → commit_all (map suc is) (e ∷ es) ≡ e ∷ commit_all is es
  unfolding commit_all commit_at
  commit_all-later [] e es = refl
  commit_all-later (i ∷ is) e es = commit_all-later is e (commit_at i es)

  commit_all-changed_later :
      (es : List (SettingDraftEntry F))
      → commit_all (changed_from o 0 es) es ≡ map settle es
      → (x : SettingDraftEntry F) → commit_all (changed_from o 1 es) (x ∷ es) ≡ x ∷ map settle es
  commit_all-changed_later es ih x =
      ap (λ (is : List ℕ). commit_all is (x ∷ es)) (changed_from-suc 0 es)
      ∙ commit_all-later (changed_from o 0 es) x es
      ∙ ap (λ (xs : List (SettingDraftEntry F)). x ∷ xs) ih

  commit_all-branch :
      (b : Bool) (e : SettingDraftEntry F) (es : List (SettingDraftEntry F))
      → (commit_all (changed_from o 1 es) (record e { committed = e.draft } ∷ es)
          ≡ record e { committed = e.draft } ∷ map settle es)
      → (commit_all (changed_from o 1 es) (e ∷ es) ≡ e ∷ map settle es)
      → commit_all (if b then 0 ∷ changed_from o 1 es else changed_from o 1 es) (e ∷ es)
        ≡ (if b then record e { committed = e.draft } else e) ∷ map settle es
  unfolding commit_all commit_at
  commit_all-branch true e es p q = p
  commit_all-branch false e es p q = q

  commit_all-changed :
      (es : List (SettingDraftEntry F)) → commit_all (changed_from o 0 es) es ≡ map settle es
  unfolding commit_all commit_at changed_from
  commit_all-changed [] = refl
  commit_all-changed (e ∷ es) =
      let rest = commit_all-changed_later es (commit_all-changed es) in
      commit_all-branch (differs o e) e es (rest (record e { committed = e.draft })) (rest e)

  length-changed_from :
      (i : ℕ) (es : List (SettingDraftEntry F))
      → length (changed_from o i es) ≡ count_if (differs o) es
  unfolding changed_from
  length-changed_from i [] = refl
  length-changed_from i (e ∷ es) = ground (arith, length-changed_from (suc i) es)

  -- PrepareSettingsDraftApply lists as many changed indices as SettingsDraftPendingCount counts.
  pub prepare-pending_count :
      (s : SettingsDraftState F)
      → length (prepare_settings_draft_apply o s).changed_indices ≡ settings_draft_pending_count o s
  unfolding prepare_settings_draft_apply settings_draft_pending_count
  prepare-pending_count s = ground (arith, length-changed_from 0 s.entries)

  settled : (e : SettingDraftEntry F) → IsEqualToItself e.draft → differs o (settle e) ≡ false
  settled e h = elim (Bool-cases (differs o e)) [ inl d ↦ simp (d, h) | inr d ↦ simp d ]

  count_if-none :
      (f : SettingDraftEntry F → SettingDraftEntry F) (es : List (SettingDraftEntry F))
      → All (λ e. differs o (f e) ≡ false) es
      → count_if (differs o) (map f es) ≡ 0
  count_if-none f [] h = refl
  count_if-none f (e ∷ es) h = ground (arith, h.0, count_if-none f es h.1)

  settle-drafts :
      (es : List (SettingDraftEntry F)) → map (draft_of o) (map settle es) ≡ map (draft_of o) es
  settle-drafts [] = refl
  settle-drafts (e ∷ es) =
      let same =
        if_both (λ (x : SettingDraftEntry F). draft_of o x ≡ draft_of o e) (differs o e)
          (record e { committed = e.draft }) e refl refl in
      simp (same, settle-drafts es)

  -- After an application that the repository has saved, no change of the draft is pending, and its
  -- settings, drafts and activity are as before, if every draft is equal to itself.
  pub apply_draft-settles :
      (s : SettingsDraftState F)
      → All (λ e. IsEqualToItself e.draft) s.entries
      → (settings_draft_pending_count o (apply_draft o true s) ≡ 0)
        × (map (draft_of o) (apply_draft o true s).entries ≡ map (draft_of o) s.entries)
        × ((apply_draft o true s).active ≡ s.active)
  unfolding apply_draft settings_draft_pending_count
  apply_draft-settles s h = elim (Bool-cases s.active) [
    | inr idle ↦ simp idle (refl, refl, refl)
    | inl active ↦
        let e = commit_all-changed s.entries in
        simp
          (
            active,
            e,
            count_if-none settle s.entries (all_settled s.entries h),
            settle-drafts s.entries,
          )
          (refl, refl, refl)
  ]
    where
      all_settled :
          (es : List (SettingDraftEntry F))
          → All (λ e. IsEqualToItself e.draft) es
          → All (λ e. differs o (settle e) ≡ false) es
      all_settled [] a = tt
      all_settled (e ∷ es) a = (settled e a.0, all_settled es a.1)

  reverted :
      (es : List (SettingDraftEntry F))
      → All (λ e. IsEqualToItself e.committed) es
      → All (λ e. differs o (revert_entry e) ≡ false) es
  reverted [] a = tt
  reverted (e ∷ es) a = (simp a.0, reverted es a.1)

  -- After RevertSettingsDraft no change is pending, if every committed value is equal to itself.
  pub revert-pending_count :
      (s : SettingsDraftState F)
      → All (λ e. IsEqualToItself e.committed) s.entries
      → settings_draft_pending_count o (revert_settings_draft s) ≡ 0
  unfolding settings_draft_pending_count revert_settings_draft
  revert-pending_count s h = elim (Bool-cases s.active) [
    | inr idle ↦ simp idle
    | inl active ↦ simp (active, count_if-none revert_entry s.entries (reverted s.entries h))
  ]
