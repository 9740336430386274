-- ===== src/Cmake.antt =====
-- `CMakeFileEditor` of gr_modtool.py: edits of the text of a CMakeLists.txt by patterns. An editor
-- is its buffer `cfile`; the entry names that the callers pass are plain texts.
pub mod Comments
pub mod Commented
pub mod Squeezed
pub mod Newlines
pub mod Breaks
pub mod Appended
pub mod Removed
pub mod Bodies
pub mod Entry
pub mod Inserted
pub mod Values
pub mod Words
pub mod TakenOut
mod Tests
use hachoir.Prelude.{
  ℕ, zero, suc, ◌+◌, Bool, true, false, not, ◌&&◌, ◌||◌, Option, none, some, List, [], ◌∷◌, ◌++◌,
  Text, codes, ◌==◌, if◌then◌else◌, leb, strip, lstrip, replace, is_some, cons_first, is_space,
  text_eq,
}
use hachoir.Re.{
  Regex, nothing, seq, alt, star, lazy, group, bol, boundary, set, char, text, none_of, space,
  optional, plus, as_pattern, is_word, dot, ◌⊳◌, Match, group_of, search_text, match_at, start, sub,
  sub_once, subn, eol,
}

abbrev pub or_empty : Option Text → Text
or_empty none = []
or_empty (some t) = t

-- `\1` and `\2` in a replacement
abbrev pub back : ℕ → Match → Text
back n m = or_empty (group_of n m)

abbrev pub outside : Regex
outside = none_of (codes "()")

abbrev value_text : Option Match → Option Text
value_text none = none
value_text (some m) = some (strip (back 1 m))

-- '%s\(%s([^()]+)\)' % (entry, to_ignore)
unfoldable pub get_entry_value : Text → Regex → Text → Option Text
get_entry_value entry to_ignore cfile =
    value_text
      (search_text (text entry ⊳ char b'(' ⊳ to_ignore ⊳ group 1 (plus outside) ⊳ char b')') cfile)

-- '(%s\([^()]*?)\s*?(\s?%s)\)' % (entry, to_ignore), with the separator before the value
unfoldable pub append_value : Text → Text → Text → Regex → Text → Text
append_value separator entry value to_ignore cfile =
    sub_once
      (group 1 (text entry ⊳ char b'(' ⊳ lazy outside)
        ⊳ lazy space
        ⊳ group 2 (optional space ⊳ to_ignore)
        ⊳ char b')')
      (λ m. back 1 m ++ (separator ++ (value ++ (back 2 m ++ codes ")")))) cfile

-- '^\s*(%s\(\s*%s[^()]*?\s*)%s\s*([^()]*\))' % (entry, to_ignore, value)
unfoldable pub remove_value : Text → Regex → Regex → Text → Text
remove_value entry value to_ignore cfile =
    sub_once
      (bol
        ⊳ star space
        ⊳ group 1 (text entry ⊳ char b'(' ⊳ star space ⊳ to_ignore ⊳ lazy outside ⊳ star space)
        ⊳ value
        ⊳ star space
        ⊳ group 2 (star outside ⊳ char b')'))
      (λ m. back 1 m ++ back 2 m) cfile

-- '%s\s*\([^()]*%s[^()]*\)[^\n]*\n' % (entry, value_pattern)
unfoldable pub delete_entry : Text → Regex → Text → Text
delete_entry entry value_pattern cfile =
    sub_once
      (text entry
        ⊳ star space
        ⊳ char b'('
        ⊳ star outside
        ⊳ value_pattern
        ⊳ star outside
        ⊳ char b')'
        ⊳ star dot
        ⊳ char b'\n')
      (λ m. []) cfile

-- '\n\n\n+'
unfoldable pub remove_double_newlines : Text → Text
remove_double_newlines = sub (char b'\n' ⊳ char b'\n' ⊳ plus (char b'\n')) (λ m. codes "\n\n")

-- `t.splitlines()` of a text whose line ends are `\n`
abbrev pub splitlines : Text → List Text
splitlines [] = []
splitlines (c ∷ cs) =
    let rest = splitlines cs in if c == b'\n' then [] ∷ rest else cons_first c rest

-- `len(line.strip()) == 0 or line.strip()[0] == '#'`
abbrev skip_text : Text → Bool
skip_text [] = true
skip_text (c ∷ cs) = c == b'#'

abbrev pub is_skipped : Text → Bool
is_skipped line = skip_text (strip line)

-- `re.split('[ /)(\t\n\r\f\v]', line)`
abbrev pub is_separator : ℕ → Bool
is_separator c = is_space c || c == b'/' || c == b')' || c == b'('

abbrev pub words : Text → List Text
words [] = [] ∷ []
words (c ∷ cs) = let rest = words cs in if is_separator c then [] ∷ rest else cons_first c rest

abbrev letter : Regex
letter = set (λ c. leb b'a' c && leb c b'z' || leb b'A' c && leb c b'Z')

abbrev word : Regex
word = set is_word

-- '[a-zA-Z]\w+\.\w{1,5}$'
abbrev fname_regex : Regex
fname_regex =
    letter
    ⊳ plus word
    ⊳ char b'.'
    ⊳ word
    ⊳ optional (word ⊳ optional (word ⊳ optional (word ⊳ optional word)))
    ⊳ eol

unfoldable pub is_filename : Text → Bool
unfolding match_at
is_filename w = is_some (match_at fname_regex (start w))

unfoldable pub matching_words : Regex → List Text → List Text
matching_words regex [] = []
matching_words regex (w ∷ ws) =
    let rest = matching_words regex ws in
    if is_filename w && is_some (search_text regex w) then w ∷ rest else rest

unfoldable pub filenames_of_lines : Regex → List Text → List Text
unfolding matching_words
filenames_of_lines regex [] = []
filenames_of_lines regex (line ∷ lines) =
    let rest = filenames_of_lines regex lines in
    if is_skipped line then rest else matching_words regex (words line) ++ rest

unfoldable pub find_filenames_match : Regex → Text → List Text
unfolding filenames_of_lines
find_filenames_match regex cfile = filenames_of_lines regex (splitlines cfile)

-- The first line that names the file decides whether it starts there.
starts_line : Text → List Text → Bool
starts_line fname [] = false
starts_line fname (line ∷ lines) =
    let rest = starts_line fname lines in
    if is_skipped line
    then rest
    else if is_some (search_text (boundary ⊳ as_pattern fname ⊳ boundary) line)
    then is_some (match_at (as_pattern fname) (start (lstrip line)))
    else rest

-- the new buffer, and the number of replacements that the warning is about
unfoldable pub disable_file : Text → Text → Text → Text × ℕ
unfolding starts_line
disable_file indent fname cfile =
    let out = λ (m : Match). b'#' ∷ (back 1 m ++ b'\n' ∷ indent) in
    let at_start = starts_line fname (splitlines cfile) in
    subn (group 1 (boundary ⊳ as_pattern fname ⊳ boundary) ⊳ star space)
      (λ m. if at_start then out m else b'\n' ∷ (indent ++ out m)) cfile

-- `for line in self.cfile.splitlines()`: the lines are those of the buffer before the loop, and
-- every occurrence of the line's text in the buffer is replaced
unfoldable pub comment_lines : Regex → Text → List Text → Text → Text
comment_lines pattern comment_str [] cfile = cfile
comment_lines pattern comment_str (line ∷ lines) cfile =
    comment_lines pattern comment_str lines (
      if is_some (search_text pattern line)
      then replace line (comment_str ++ line) cfile
      else cfile)

unfoldable pub comment_out_lines : Regex → Text → Text → Text
unfolding comment_lines
comment_out_lines pattern comment_str cfile =
    comment_lines pattern comment_str (splitlines cfile) cfile

-- one character, whatever its case
abbrev any_case : ℕ → Regex
any_case c = set (λ x. x == c || (leb b'A' c && leb c b'Z' && x == c + 32))

abbrev any_case_text : Text → Regex
any_case_text [] = nothing
any_case_text (c ∷ cs) = seq (any_case c) (any_case_text cs)

-- the glob in the pattern: its `*` is escaped, its `.` is any character, a small letter has two cases
abbrev glob_char : ℕ → Regex
glob_char c =
    if c == b'.' then dot else set (λ x. x == c || (leb b'a' c && leb c b'z' && x + 32 == c))

abbrev glob_pattern : Text → Regex
glob_pattern [] = nothing
glob_pattern (c ∷ cs) = seq (glob_char c) (glob_pattern cs)

-- r'GLOB\s[a-z_]+\s"%s"' with IGNORECASE
unfoldable pub check_for_glob : Text → Text → Bool
check_for_glob globstr cfile = is_some (
    search_text
      (any_case_text (codes "GLOB")
        ⊳ space
        ⊳ plus (alt letter (char b'_'))
        ⊳ space
        ⊳ char b'"'
        ⊳ glob_pattern globstr
        ⊳ char b'"')
      cfile)
