-- ===== src/Modtool/Util.antt =====
-- The functions at the top of gr_modtool.py: edits of whole files and of argument lists, the
-- command among the arguments, and questions.
use hachoir.Prelude.{
  Bool, true, false, not, Option, none, some, List, [], ◌∷◌, ◌++◌, Text, codes, text_eq, text_in,
  if◌then◌else◌, ◌==◌, map, lower, replace, strip, split, join,
}
use hachoir.Re.{Regex, char, star, none_of, ◌⊳◌, find_all, sub}
use hachoir.Cmake.{splitlines}
use hachoir.Modtool.World.{index_error, W, ◌>>=◌, ret, raise, read, write, lookup, raw_input}

-- `open(path, 'a').write(t)`
abbrev or_none : Option Text → Text
or_none none = []
or_none (some t) = t

unfoldable pub append : Text → Text → W (Unit {0})
unfolding write
append path t w = write path (or_none (lookup path w.files) ++ t) w

-- The lines that match; the last of them decides. The patterns of the callers have no group, or
-- one around the whole.
abbrev pub last_of : Text → List Text → Text
last_of t [] = t
last_of t (l ∷ ls) = last_of l ls

abbrev pub pasted : Text → Text → Text → Text
pasted line newline oldfile = replace line (line ++ newline ++ codes "\n") oldfile

unfoldable pub paste : Text → Text → Text → List Text → W (Unit {0})
unfolding append write
paste filename newline oldfile [] = append filename newline
paste filename newline oldfile (l ∷ ls) = write filename (pasted (last_of l ls) newline oldfile)

-- `append_re_line_sequence(filename, linepattern, newline)`
unfoldable pub append_re_line_sequence : Text → Regex → Text → W (Unit {0})
unfolding paste read
append_re_line_sequence filename linepattern newline = do
  oldfile ← read filename
  paste filename newline oldfile (find_all linepattern oldfile)

-- `str_to_fancyc_comment(text)`; `none` is the `IndexError` of an empty text
abbrev starred : List Text → Text
starred [] = codes " */\n"
starred (l ∷ ls) = codes " * " ++ l ++ codes "\n" ++ starred ls

abbrev fancy : List Text → Option Text
fancy [] = none
fancy (l ∷ ls) = some (codes "/* " ++ l ++ codes "\n" ++ starred ls)

unfoldable pub str_to_fancyc_comment : Text → Option Text
str_to_fancyc_comment text = fancy (splitlines text)

-- `re.compile('^', re.MULTILINE).sub('# ', text)`: at the start, and behind each newline
abbrev pub marked : Text → Text
marked [] = []
marked (c ∷ cs) = if c == b'\n' then b'\n' ∷ (codes "# " ++ marked cs) else c ∷ marked cs

unfoldable pub str_to_python_comment : Text → Text
str_to_python_comment text = codes "# " ++ marked text

-- ' *=[^,)]*'
abbrev pub default_regex : Regex
default_regex = star (char b' ') ⊳ char b'=' ⊳ star (none_of (codes ",)"))

unfoldable pub strip_default_values : Text → Text
strip_default_values t = sub default_regex (λ m. []) t

-- `part.strip().split(' ')[-1]`
abbrev pub last_word : Text → Text
last_word part = last_of [] (split b' ' (strip part))

unfoldable pub strip_arg_types : Text → Text
unfolding strip_default_values
strip_arg_types t = join (codes ", ") (map last_word (split b',' (strip_default_values t)))

-- `get_command_from_argv(possible_cmds)`; `arg[0]` of an empty argument raises
unfoldable pub get_command_from_argv : List Text → List Text → W (Option Text)
get_command_from_argv cmds [] = ret none
get_command_from_argv cmds ([] ∷ args) = raise index_error
get_command_from_argv cmds ((c ∷ cs) ∷ args) =
    let later = get_command_from_argv cmds args in
    if c == b'-' then later else if text_in (c ∷ cs) cmds then ret (some (c ∷ cs)) else later

-- `ask_yes_no(question, default)`
abbrev pub other_answer : Bool → Text
other_answer true = codes "n"
other_answer false = codes "y"

unfoldable pub ask_yes_no : Bool → W Bool
unfolding raw_input
ask_yes_no default = do
  ans ← raw_input
  ret (if text_eq (map lower ans) (other_answer default) then not default else default)
