-- ===== src/Modtool/ModuleName.antt =====
-- `get_modname` of gr_modtool.py.
use hachoir.Prelude.{
  Bool, ◌&&◌, ◌||◌, Option, none, some, Text, codes, text_eq, if◌then◌else◌, leb, ◌==◌, strip,
  path_join, ℕ,
}
use hachoir.Re.{
  Regex, Match, group, eol, char, text, set, star, plus, space, optional, alt, ◌⊳◌, search_text,
  group_of,
}
use hachoir.Modtool.World.{attribute_error, W, ◌>>=◌, ret, raise, read, lookup}

abbrev name_char : ℕ → ℕ → Bool
name_char least c =
    leb b'a' c && leb c b'z'
    || leb b'A' c && leb c b'Z'
    || leb least c && leb c b'9'
    || c == b'-'
    || c == b'_'

-- r'projectname\s*=\s*([a-zA-Z0-9-_]+)$'
abbrev project_regex : Regex
project_regex =
    text (codes "projectname")
    ⊳ star space
    ⊳ char b'='
    ⊳ star space
    ⊳ group 1 (plus (set (name_char b'0')))
    ⊳ eol

-- r'(project\s*\(\s*|GR_REGISTER_COMPONENT\(")gr-(?P<modname>[a-zA-Z1-9-_]+)(\s*(CXX)?|" ENABLE)'
abbrev modname_regex : Regex
modname_regex =
    alt (text (codes "project") ⊳ star space ⊳ char b'(' ⊳ star space)
      (text (codes "GR_REGISTER_COMPONENT(\""))
    ⊳ text (codes "gr-")
    ⊳ group 1 (plus (set (name_char b'1')))
    ⊳ alt (star space ⊳ optional (text (codes "CXX"))) (text (codes "\" ENABLE"))

abbrev translated : Text → Text
translated m = if text_eq m (codes "howto-write-a-block") then codes "howto" else m

abbrev name_of : Option Text → Option Text
name_of none = none
name_of (some t) = some (strip t)

abbrev group_one : Option Match → Option Text
group_one none = none
group_one (some m) = name_of (group_of 1 m)

abbrev guessed : Option Text → Option Text
guessed none = none
guessed (some m) = some (translated m)

-- `gnuradio.project` without a name raises: its handler takes `IOError` alone
abbrev project_name : Option Text → W (Option Text)
project_name none = raise attribute_error
project_name (some m) = ret (some m)

from_project : Text → Option Text → W (Option Text)
unfolding read
from_project base (some prfile) = project_name (group_one (search_text project_regex prfile))
from_project base none = do
  cmfile ← read (path_join base (codes "CMakeLists.txt"))
  ret (guessed (group_one (search_text modname_regex cmfile)))

-- with the working directory
unfoldable pub get_modname : Text → W (Option Text)
unfolding from_project
get_modname base w =
    from_project base (lookup (path_join base (codes "gnuradio.project")) w.files) w
