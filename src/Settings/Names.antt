-- ===== src/Settings/Names.antt =====
-- BuildDisplayName of Addictol/Source/Core/Settings/AdSetting.cpp: the words of a key, without the letter
-- for its type. The character classes are those of the C locale.
use addictol.Base.{
  if_cases, ap, sym, ◌∙◌, true, false, All, ◌⊎◌, ℕ, ◌≡◌, refl, Bool, not, [], ◌∷◌, ◌==◌, leb, ◌&&◌,
  ◌||◌, arith, if◌then◌else◌,
}
use addictol.Base.Text.{Text}

abbrev pub is_upper : ℕ → Bool
is_upper c = leb b'A' c && leb c b'Z'

abbrev pub is_lower : ℕ → Bool
is_lower c = leb b'a' c && leb c b'z'

abbrev pub is_digit : ℕ → Bool
is_digit c = leb b'0' c && leb c b'9'

abbrev is_type_letter : ℕ → Bool
is_type_letter c = c == b'b' || (c == b'f' || (c == b'n' || (c == b's' || c == b'u')))

unfoldable pub strip_type : Text → Text
strip_type [] = []
strip_type (c ∷ []) = c ∷ []
strip_type (c ∷ d ∷ rest) = if is_type_letter c && is_upper d then d ∷ rest else c ∷ d ∷ rest

-- Whether a word begins at `current`. `next` is 0 at the end of the key.
unfoldable pub is_boundary : ℕ → ℕ → ℕ → Bool
is_boundary previous current next =
    is_upper current
      && (is_lower previous || (is_digit previous || is_upper previous && is_lower next))
    || (is_digit current && not (is_digit previous) || not (is_digit current) && is_digit previous)

abbrev pub head_or_zero : Text → ℕ
head_or_zero [] = 0
head_or_zero (c ∷ rest) = c

-- The loop after the first character.
unfoldable pub spaced_after : ℕ → Text → Text
spaced_after previous [] = []
spaced_after previous (c ∷ rest) =
    let after = spaced_after c rest in
    if is_boundary previous c (head_or_zero rest) then b' ' ∷ c ∷ after else c ∷ after

unfoldable pub spaced : Text → Text
unfolding spaced_after
spaced [] = []
spaced (c ∷ rest) = c ∷ spaced_after c rest

unfoldable pub build_display_name : Text → Text
unfolding spaced strip_type
build_display_name key = spaced (strip_type key)

abbrev pub without_spaces : Text → Text
without_spaces [] = []
without_spaces (c ∷ rest) =
    let after = without_spaces rest in if c == b' ' then after else c ∷ after

-- The prefix of a Boolean, a float, a signed number, a string or an unsigned number.
abbrev pub IsTypeLetter : ℕ → Type 0
IsTypeLetter c = (c ≡ b'b') ⊎ ((c ≡ b'f') ⊎ ((c ≡ b'n') ⊎ ((c ≡ b's') ⊎ (c ≡ b'u'))))

-- A type letter, and a word after it.
abbrev pub IsTyped : Text → Type 0
IsTyped [] = ⊥
IsTyped (c ∷ []) = ⊥
IsTyped (c ∷ d ∷ rest) = IsTypeLetter c × (is_upper d ≡ true)

pub data Kind : Type 0 where
  upper lower digit other : Kind

abbrev pub kind : ℕ → Kind
kind c =
    if is_upper c then upper else if is_lower c then lower else if is_digit c then digit else other

-- Whether a word begins at the second of three characters.
abbrev pub begins_word : Kind → Kind → Kind → Bool
begins_word digit digit _ = false
begins_word digit _ _ = true
begins_word _ digit _ = true
begins_word lower upper _ = true
begins_word upper upper lower = true
begins_word _ _ _ = false

-- After the character `previous`, with a space since then or not: each character has a space before
-- it exactly if a word begins there, and no other spaces stand there.
abbrev pub SpacedFrom : Bool → ℕ → Text → Type 0
SpacedFrom space previous [] = space ≡ false
SpacedFrom space previous (c ∷ rest) =
    if c == b' '
    then (space ≡ false) × SpacedFrom true previous rest
    else (begins_word (kind previous) (kind c) (kind (head_or_zero (without_spaces rest))) ≡ space)
      × SpacedFrom false c rest

abbrev pub IsSpaced : Text → Type 0
IsSpaced [] = Unit
IsSpaced (c ∷ rest) = ((c == b' ') ≡ false) × SpacedFrom false c rest

abbrev pub HasNoSpace : Text → Type 0
HasNoSpace s = All (λ (c : ℕ). (c == b' ') ≡ false) s

is_boundary-begins_word : (p c n : ℕ) → is_boundary p c n ≡ begins_word (kind p) (kind c) (kind n)
unfolding is_boundary
is_boundary-begins_word p c n = ground arith

spaced_after-without_spaces :
    (previous : ℕ) (s : Text) → HasNoSpace s → without_spaces (spaced_after previous s) ≡ s
unfolding spaced_after
spaced_after-without_spaces previous [] h = refl
spaced_after-without_spaces previous (c ∷ rest) h =
    ground (arith, h.0, spaced_after-without_spaces c rest h.1)

spaced_after-SpacedFrom :
    (previous : ℕ) (s : Text) → HasNoSpace s → SpacedFrom false previous (spaced_after previous s)
unfolding spaced_after
spaced_after-SpacedFrom previous [] h = refl
spaced_after-SpacedFrom previous (c ∷ rest) h =
    let after = spaced_after c rest in
    let same = spaced_after-without_spaces c rest h.1 in
    let later = spaced_after-SpacedFrom c rest h.1 in
    let next : kind (head_or_zero (without_spaces after)) ≡ kind (head_or_zero rest) =
      ap (λ t. kind (head_or_zero t)) same in
    let word : begins_word (kind previous) (kind c) (kind (head_or_zero (without_spaces after)))
        ≡ is_boundary previous c (head_or_zero rest) =
      ap (begins_word (kind previous) (kind c)) next
      ∙ sym (is_boundary-begins_word previous c (head_or_zero rest)) in
    if_cases (SpacedFrom false previous) (is_boundary previous c (head_or_zero rest)) _ _
      (λ e. (refl, rw h.0 (word ∙ e, later))) (λ e. rw h.0 (word ∙ e, later))

spaced-IsSpaced : (s : Text) → HasNoSpace s → IsSpaced (spaced s)
unfolding spaced
spaced-IsSpaced [] h = tt
spaced-IsSpaced (c ∷ rest) h = (h.0, spaced_after-SpacedFrom c rest h.1)

spaced-without_spaces : (s : Text) → HasNoSpace s → without_spaces (spaced s) ≡ s
unfolding spaced
spaced-without_spaces [] h = refl
spaced-without_spaces (c ∷ rest) h = ground (arith, h.0, spaced_after-without_spaces c rest h.1)

is_type_letter-IsTypeLetter : (c : ℕ) → is_type_letter c ≡ true → IsTypeLetter c
is_type_letter-IsTypeLetter c h = ground arith

IsTypeLetter-is_type_letter : (c : ℕ) → IsTypeLetter c → is_type_letter c ≡ true
IsTypeLetter-is_type_letter c h = ground arith

both_true : (a b : Bool) → (a && b) ≡ true → (a ≡ true) × (b ≡ true)
both_true true b h = (refl, h)
both_true false b h = cc

named_from : (s : Text) → HasNoSpace s → (without_spaces (spaced s) ≡ s) × IsSpaced (spaced s)
named_from s h = (spaced-without_spaces s h, spaced-IsSpaced s h)

-- The display name of a key without spaces has the characters of the key in their order, without
-- the first exactly if that is a type letter before an upper-case letter, and has a space before a
-- character exactly where a word begins: between a digit and another character, between a
-- lower-case and an upper-case letter, and before an upper-case letter that stands between an
-- upper-case and a lower-case letter.
pub build_display_name_lem :
    (key : Text)
    → HasNoSpace key
    → (IsTyped key → (c : ℕ) × (key ≡ c ∷ without_spaces (build_display_name key)))
      × (¬ IsTyped key → key ≡ without_spaces (build_display_name key))
      × IsSpaced (build_display_name key)
unfolding build_display_name strip_type
build_display_name_lem [] h = (λ t. elim t [ ], λ t. refl, tt)
build_display_name_lem (c ∷ []) h =
    let (same, good) = named_from (c ∷ []) h in (λ t. elim t [ ], λ t. sym same, good)
build_display_name_lem (c ∷ d ∷ rest) h =
    let (same, good) = named_from (c ∷ d ∷ rest) h in
    let (same', good') = named_from (d ∷ rest) h.1 in
    if_cases
      (λ (t : Text).
        (IsTyped (c ∷ d ∷ rest) → (x : ℕ) × (c ∷ d ∷ rest ≡ x ∷ without_spaces (spaced t)))
        × (¬ IsTyped (c ∷ d ∷ rest) → c ∷ d ∷ rest ≡ without_spaces (spaced t))
        × IsSpaced (spaced t))
      (is_type_letter c && is_upper d) _ _
      (λ e. (
        λ t. (c, ap (◌∷◌ c) (sym same')),
        λ t.
            let (letter, up) = both_true (is_type_letter c) (is_upper d) e in
            elim (t (is_type_letter-IsTypeLetter c letter, up)) [ ],
        good',
      ))
      (λ e. (
        λ t.
            let typed : (is_type_letter c && is_upper d) ≡ true =
              rw (IsTypeLetter-is_type_letter c t.0, t.1) refl in
            cc,
        λ t. sym same,
        good,
      ))
