-- ===== src/Settings/Document/Kept.antt =====
-- What splitting, joining and stripping keep.
use addictol.Base.{
  append_nil, append_assoc, ◌≡◌, refl, sym, ap, ◌∙◌, Bool, true, false, not, List, [], ◌∷◌, ◌++◌,
  All, keep, arith, Bool-cases, inl, inr, if◌then◌else◌,
}
use addictol.Base.Text.{Text, text_eq, text_eq_iff}
use addictol.Settings.Document.Lines.{
  IsLine, drop_return, split_loop, split_lines, join_lines, trim, starts_with, begins_help,
  is_comment_or_empty, managed_help_end, strip_loop,
}

drop_return-IsLine : (s : Text) → IsLine s → drop_return s ≡ s
unfolding drop_return
drop_return-IsLine [] h = refl
drop_return-IsLine (c ∷ []) h = simp h.1
drop_return-IsLine (c ∷ d ∷ s) h = ap (λ (t : Text). c ∷ t) (drop_return-IsLine (d ∷ s) h.1)

-- Read up to the end of a line.
split_loop-line :
    (acc line text : Text)
    → IsLine line
    → split_loop acc (line ++ 10 ∷ text) ≡ drop_return (acc ++ line) ∷ split_loop [] text
unfolding split_loop
split_loop-line acc [] text h =
    ap (λ (s : Text). drop_return s ∷ split_loop [] text) (sym (append_nil acc))
split_loop-line acc (c ∷ []) text h = simp h.0 (
    split_loop-line (acc ++ c ∷ []) [] text tt
    ∙ ap (λ (s : Text). drop_return s ∷ split_loop [] text) (append_assoc acc (c ∷ []) []))
split_loop-line acc (c ∷ d ∷ s) text h = simp h.0 (
    split_loop-line (acc ++ c ∷ []) (d ∷ s) text h.1
    ∙ ap (λ (t : Text). drop_return t ∷ split_loop [] text) (append_assoc acc (c ∷ []) (d ∷ s)))

-- SplitLines gives back the lines that JoinLines joined, if none has a line feed and none ends with
-- a carriage return.
pub split_lines-join_lines :
    (lines : List Text) → All IsLine lines → split_lines (join_lines lines) ≡ lines
unfolding split_lines join_lines
split_lines-join_lines [] h = refl
split_lines-join_lines (line ∷ lines) h =
    split_loop-line [] line (join_lines lines) h.0
    ∙ ap (λ (t : Text). t ∷ split_loop [] (join_lines lines)) (drop_return-IsLine line h.0)
    ∙ ap (λ (ls : List Text). line ∷ ls) (split_lines-join_lines lines h.1)

-- A line that is not blank and no comment.
abbrev pub is_data : Text → Bool
is_data line = not (is_comment_or_empty (trim line))

comment_of_mark : (s : Text) → begins_help s ≡ true → is_comment_or_empty s ≡ true
unfolding starts_with
comment_of_mark [] h = refl
comment_of_mark (c ∷ []) h = ground (arith, h)
comment_of_mark (c ∷ d ∷ s) h = ground (arith, h)

comment_of_end : (s : Text) → text_eq s managed_help_end ≡ true → is_comment_or_empty s ≡ true
unfolding starts_with
comment_of_end s h = ap is_comment_or_empty ((text_eq_iff s managed_help_end).0 h)

abbrev pub all_lines : List (Text × Bool) → List Text
all_lines [] = []
all_lines ((line, multiline) ∷ lines) = line ∷ all_lines lines

keep_both :
    (line : Text) (xs ys : List Text)
    → keep is_data xs ≡ keep is_data ys
    → keep is_data (line ∷ xs) ≡ keep is_data (line ∷ ys)
keep_both line xs ys e = ap (λ (ls : List Text). if is_data line then line ∷ ls else ls) e

-- StripManagedHelp keeps every line that is neither blank nor a comment, in their order, whatever
-- marks the document has and whichever lines lie in multi-line strings.
pub strip_loop-keeps :
    (in_help : Bool) (lines : List (Text × Bool))
    → keep is_data (strip_loop in_help lines) ≡ keep is_data (all_lines lines)
unfolding strip_loop
strip_loop-keeps in_help [] = refl
strip_loop-keeps true ((line, true) ∷ lines) = keep_both line _ _ (strip_loop-keeps true lines)
strip_loop-keeps false ((line, true) ∷ lines) = keep_both line _ _ (strip_loop-keeps false lines)
strip_loop-keeps true ((line, false) ∷ lines) =
    let inside = strip_loop-keeps true lines in
    let outside = strip_loop-keeps false lines in
    elim (Bool-cases (text_eq (trim line) managed_help_end)) [
      | inl e ↦ simp (e, comment_of_end (trim line) e) outside
      | inr e ↦ elim (Bool-cases (is_comment_or_empty (trim line))) [
        | inl f ↦ simp (e, f) inside
        | inr f ↦ simp (e, f) (ap (λ (ls : List Text). line ∷ ls) inside)
      ]
    ]
strip_loop-keeps false ((line, false) ∷ lines) = elim (Bool-cases (begins_help (trim line))) [
  | inl e ↦ simp (e, comment_of_mark (trim line) e) (strip_loop-keeps true lines)
  | inr e ↦ simp e (keep_both line _ _ (strip_loop-keeps false lines))
]
