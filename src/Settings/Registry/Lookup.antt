-- ===== src/Settings/Registry/Lookup.antt =====
-- The registry is a map from section and key to the entry.
use addictol.Base.{
  ◌≡◌, refl, sym, ap, ◌∙◌, ◌⊎◌, inl, inr, Bool, true, false, none, some, List, [], ◌∷◌, ◌&&◌, ◌||◌,
  arith, Bool-cases, subst,
}
use addictol.Base.Text.{
  Text, text_eq, text_lt, text_eq_iff, text_lt_irrefl, text_lt_trans, text_lt_total,
}
use addictol.Base.OrderedMap.{
  find, try_emplace, IsSorted, Above, find-try_emplace_self, try_emplace-IsSorted,
}
use addictol.Settings.{SettingEntry}
use addictol.Settings.Registry.{
  SettingKey, key_lt, key_order, Registry, key_of, lower_bound, checked, find_key, section_bound,
  contains_section, insert, register,
}

module _ {F : Type 0} where
  abbrev pub keyed : List (SettingEntry F) → List (SettingKey × SettingEntry F)
  keyed [] = []
  keyed (e ∷ es) = (key_of e, e) ∷ keyed es

  -- Some entry is of the section.
  abbrev pub has_section : Text → List (SettingEntry F) → Bool
  has_section s [] = false
  has_section s (e ∷ es) = text_eq e.section s || has_section s es

  -- Entries in strict order, hence no two of the same section and key.
  abbrev pub Ordered : Registry F → Type 0
  Ordered r = IsSorted (keyed r.settings)

  checked-find :
      (k : SettingKey) (es : List (SettingEntry F))
      → checked k (lower_bound k es) ≡ find k (keyed es)
  unfolding lower_bound find
  checked-find k [] = refl
  checked-find k (e ∷ es) = ground (
    arith,
    checked-find k es,
    key_order.lt_total (key_of e) k,
    key_order.lt_irrefl k,
    text_eq_iff e.section k.0,
    text_eq_iff e.key k.1,
  )

  insert-keyed :
      (e : SettingEntry F) (es : List (SettingEntry F))
      → find (key_of e) (keyed es) ≡ none
      → keyed (insert e es) ≡ try_emplace (key_of e) e (keyed es)
  unfolding insert find try_emplace
  insert-keyed e [] h = refl
  insert-keyed e (x ∷ xs) h = ground (arith, insert-keyed e xs)

  find_key-map :
      (section key : Text) (r : Registry F)
      → find_key section key r ≡ find (section, key) (keyed r.settings)
  unfolding find_key
  find_key-map section key r = checked-find (section, key) r.settings

  find-try_emplace_other :
      (i k : SettingKey) (e : SettingEntry F) (m : List (SettingKey × SettingEntry F))
      → (key_lt i k ≡ true) ⊎ (key_lt k i ≡ true)
      → find k (try_emplace i e m) ≡ find k m
  unfolding find try_emplace
  find-try_emplace_other i k e [] h =
      ground (arith, key_order.lt_trans i k i, key_order.lt_irrefl i)
  find-try_emplace_other i k e ((j, w) ∷ m) h = ground (
    arith,
    find-try_emplace_other i k e m,
    key_order.lt_trans i k i,
    key_order.lt_irrefl i,
    key_order.lt_trans k i j,
    key_order.lt_trans k j k,
    key_order.lt_trans j k j,
    key_order.lt_irrefl k,
    key_order.lt_irrefl j,
  )

  inserted :
      (e : SettingEntry F) (r r' : Registry F)
      → register e r ≡ inr r'
      → (find_key e.section e.key r ≡ none) × (r'.settings ≡ insert e r.settings)
  unfolding register
  inserted e r r' h = ground arith

  -- If Register accepts an entry into an ordered registry, the registry stays ordered, the entry is
  -- found under its section and key, and every other section and key finds what it found before.
  pub register-find :
      (e : SettingEntry F) (r r' : Registry F)
      → Ordered r
      → register e r ≡ inr r'
      → Ordered r'
        × (find_key e.section e.key r' ≡ some e)
        × ((section key : Text)
            → text_eq section e.section && text_eq key e.key ≡ false
            → find_key section key r' ≡ find_key section key r)
  register-find e r r' ordered accepted =
      let (missing, settings) = inserted e r r' accepted in
      let absent : find (key_of e) (keyed r.settings) ≡ none =
        sym (find_key-map e.section e.key r) ∙ missing in
      let after : keyed r'.settings ≡ try_emplace (key_of e) e (keyed r.settings) =
        ap keyed settings ∙ insert-keyed e r.settings absent in
      (
        subst IsSorted (sym after) (try_emplace-IsSorted (key_of e) e (keyed r.settings) ordered),
        find_key-map e.section e.key r'
            ∙ ap (find (key_of e)) after
            ∙ find-try_emplace_self (key_of e) e (keyed r.settings) absent,
        λ section key other.
            find_key-map section key r'
            ∙ ap (find (section, key)) after
            ∙ find-try_emplace_other (key_of e) (section, key) e (keyed r.settings)
                (apart section key other)
            ∙ sym (find_key-map section key r),
      )
    where
      apart :
          (section key : Text)
          → text_eq section e.section && text_eq key e.key ≡ false
          → (key_lt (key_of e) (section, key) ≡ true) ⊎ (key_lt (section, key) (key_of e) ≡ true)
      apart section key other = elim (Bool-cases (key_lt (key_of e) (section, key))) [
        | inl h ↦ inl h
        | inr h ↦ elim (Bool-cases (key_lt (section, key) (key_of e))) [
          | inl k ↦ inr k
          | inr k ↦
              let same : (section, key) ≡ key_of e =
                key_order.lt_total (section, key) (key_of e) k h in
              let a = (text_eq_iff section e.section).1 (ap (λ (x : SettingKey). x.0) same) in
              let b = (text_eq_iff key e.key).1 (ap (λ (x : SettingKey). x.1) same) in
              ground (arith, a, b, other)
        ]
      ]

  has_section-Above :
      (s : Text) (k : SettingKey) (es : List (SettingEntry F))
      → text_lt s k.0 ≡ true
      → Above k (keyed es)
      → has_section s es ≡ false
  has_section-Above s k [] h a = refl
  has_section-Above s k (e ∷ es) h a = ground (
    arith,
    has_section-Above s k es h a.1,
    a.0,
    text_eq_iff e.section s,
    text_lt_trans s k.0 s,
    text_lt_irrefl s,
  )

  section_bound_lem :
      (s : Text) (es : List (SettingEntry F))
      → IsSorted (keyed es)
      → section_bound s es ≡ has_section s es
  unfolding section_bound
  section_bound_lem s [] sorted = refl
  section_bound_lem s (e ∷ es) sorted = ground (
    arith,
    section_bound_lem s es sorted.1,
    text_eq_iff e.section s,
    text_lt_irrefl s,
    text_lt_total e.section s,
    λ (h : text_lt s e.section ≡ true). has_section-Above s (key_of e) es h sorted.0,
  )

  -- In an ordered registry, ContainsSection holds exactly if some entry is of the section.
  pub contains_section_lem :
      (s : Text) (r : Registry F) → Ordered r → contains_section s r ≡ has_section s r.settings
  unfolding contains_section
  contains_section_lem s r ordered = section_bound_lem s r.settings ordered
