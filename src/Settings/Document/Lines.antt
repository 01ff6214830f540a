-- ===== src/Settings/Document/Lines.antt =====
-- The lines of the settings document, and the help that earlier versions wrote between two marks. Which lines
-- lie in a multi-line string is what toml11 says: a parameter.
use addictol.Base.{ℕ, ◌≡◌, Bool, true, false, List, [], ◌∷◌, ◌++◌, ◌==◌, ◌&&◌, ◌||◌, if◌then◌else◌}
use addictol.Base.Text.{Text, text_eq, bytes, is_empty}

abbrev pub is_blank : ℕ → Bool
is_blank c = c == b' ' || (c == 9 || c == 13)

unfoldable pub trim_front : Text → Text
trim_front [] = []
trim_front (c ∷ s) = let rest = trim_front s in if is_blank c then rest else c ∷ s

-- A blank is kept where something follows it.
unfoldable pub trim_back : Text → Text
trim_back [] = []
trim_back (c ∷ s) = let rest = trim_back s in if is_blank c && is_empty rest then [] else c ∷ rest

unfoldable pub trim : Text → Text
unfolding trim_front trim_back
trim line = trim_back (trim_front line)

-- `line.pop_back()` for a carriage return at the end.
unfoldable pub drop_return : Text → Text
drop_return [] = []
drop_return (c ∷ []) = if c == 13 then [] else c ∷ []
drop_return (c ∷ d ∷ s) = c ∷ drop_return (d ∷ s)

-- The loop, with the part of the current line that was read.
unfoldable pub split_loop : Text → Text → List Text
unfolding drop_return
split_loop line [] = if is_empty line then [] else drop_return line ∷ []
split_loop line (c ∷ text) =
    let next = split_loop [] text in
    let more = split_loop (line ++ c ∷ []) text in if c == 10 then drop_return line ∷ next else more

unfoldable pub split_lines : Text → List Text
unfolding split_loop
split_lines text = split_loop [] text

unfoldable pub join_lines : List Text → Text
join_lines [] = []
join_lines (line ∷ lines) = line ++ 10 ∷ join_lines lines

abbrev pub managed_help_begin : Text
managed_help_begin = bytes "# >>> Addictol managed help:"

abbrev pub managed_help_end : Text
managed_help_end = bytes "# <<< Addictol managed help"

unfoldable pub starts_with : Text → Text → Bool
starts_with prefix [] = is_empty prefix
starts_with [] (d ∷ s) = true
starts_with (c ∷ prefix) (d ∷ s) = c == d && starts_with prefix s

abbrev pub begins_help : Text → Bool
begins_help trimmed = starts_with managed_help_begin trimmed

abbrev pub is_comment_or_empty : Text → Bool
is_comment_or_empty trimmed = is_empty trimmed || starts_with (bytes "#") trimmed

-- The loop over the lines, each with whether it lies in a multi-line string.
unfoldable pub strip_loop : Bool → List (Text × Bool) → List Text
strip_loop in_help [] = []
strip_loop in_help ((line, multiline) ∷ lines) =
    let outside = strip_loop false lines in
    let inside = strip_loop true lines in
    if multiline
    then line ∷ (if in_help then inside else outside)
    else if in_help
    then (if text_eq (trim line) managed_help_end
        then outside
        else if is_comment_or_empty (trim line)
        then inside
        else line ∷ inside)
    else if begins_help (trim line)
    then inside
    else line ∷ outside

-- No line feed, and no carriage return at the end.
abbrev pub IsLine : Text → Type 0
IsLine [] = Unit
IsLine (c ∷ []) = ((c == 10) ≡ false) × ((c == 13) ≡ false)
IsLine (c ∷ d ∷ s) = ((c == 10) ≡ false) × IsLine (d ∷ s)
