-- ===== src/Modtool/Base.antt =====
-- `ModTool` of gr_modtool.py, the base of the commands: whether a directory holds a module, the
-- module's name, and the settings that each command starts with.
use hachoir.Prelude.{
  Bool, true, false, not, ◌||◌, Option, none, some, List, [], ◌∷◌, ◌++◌, Text, codes, text_eq,
  text_in, if◌then◌else◌, is_some, path_join,
}
use hachoir.Re.{Regex, text, search_text}
use hachoir.Modtool.ModuleName.{get_modname}
use hachoir.Modtool.World.{exit, W, ◌>>=◌, ret, raise, read}

-- What the operating system answers, with the base directory as working directory: its entries
-- (`none` where it cannot be listed or entered), and the tests of a path.
pub data Entry : Type 0 where
  file dir : Text → Entry

pub record Place : Type 0 where
  pub entries : Option (List Entry)
  pub is_file : Text → Bool
  pub is_dir : Text → Bool

-- `_subdirs`
abbrev pub subdirs : List Text
subdirs = codes "lib" ∷ codes "include" ∷ codes "python" ∷ codes "swig" ∷ codes "grc" ∷ []

-- what `_check_directory` finds out: the subdirectories that are there, and whether there is a
-- makefile, of a module or of a component
pub record Found : Type 0 where
  pub has_makefile : Bool
  pub is_component : Bool
  pub has_subdirs : List Text

abbrev pub core_regex : Regex
core_regex = text (codes "find_package(GnuradioCore)")

abbrev pub component_regex : Regex
component_regex = text (codes "GR_REGISTER_COMPONENT")

abbrev pub matches_text : Regex → Text → Bool
matches_text r t = is_some (search_text r t)

abbrev pub looked_at : Text → Found → Found
looked_at t found =
    if matches_text core_regex t
    then record found { has_makefile = true }
    else if matches_text component_regex t
    then record found { has_makefile = true; is_component = true }
    else found

-- The directory in which the entries stand is put before their names; it is empty for the working
-- directory.
unfoldable pub check_entries : Text → Found → List Entry → W Found
unfolding read
check_entries base found [] = ret found
check_entries base found (file f ∷ es) =
    if text_eq f (codes "CMakeLists.txt")
    then (read (path_join base f) >>= λ t. check_entries base (looked_at t found) es)
    else check_entries base found es
check_entries base found (dir f ∷ es) =
    check_entries base
      (if text_in f subdirs then record found { has_subdirs = f ∷ found.has_subdirs } else found) es

abbrev pub nothing_found : Found
nothing_found = record { has_makefile = false; is_component = false; has_subdirs = [] }

-- `_check_directory`, with what it found; the list of the values of `_has_subdirs` is never empty,
-- so that the makefile decides
unfoldable pub checked : Text → Option (List Entry) → W (Bool × Found)
unfolding check_entries
checked base none = ret (false, nothing_found)
checked base (some es) = do
  found ← check_entries base nothing_found es
  ret (found.has_makefile, found)

unfoldable pub check_directory : Place → W (Bool × Found)
unfolding checked
check_directory place = checked [] place.entries

-- the options that are common to the commands
pub record Options : Type 0 where
  pub directory : Text
  pub module_name : Option Text
  pub block_name : Option Text
  pub skip_lib : Bool
  pub skip_python : Bool
  pub skip_swig : Bool
  pub skip_grc : Bool

-- `_info`, `_skip_subdirs` and `_file` behind `setup`
pub record Settings : Type 0 where
  pub modname : Text
  pub version : Text
  pub blockname : Option Text
  pub skip_lib : Bool
  pub skip_python : Bool
  pub skip_swig : Bool
  pub skip_grc : Bool
  pub includedir : Text
  -- without the main file of SWIG there is no entry
  pub swig : Option Text
  pub qalib : Text
  pub pyinit : Text

-- `_get_mainswigfile`: the base directory stands in the path, although it is the working directory
unfoldable pub get_mainswigfile : Place → Text → Text → Option Text
get_mainswigfile place directory modname =
    let at = λ (f : Text). path_join directory (path_join (codes "swig") f) in
    if place.is_file (at (modname ++ codes ".i"))
    then some (modname ++ codes ".i")
    else if place.is_file (at (modname ++ codes "_swig.i"))
    then some (modname ++ codes "_swig.i")
    else none

abbrev swig_path : Bool → Option Text → Option Text
swig_path true f = none
swig_path false none = none
swig_path false (some f) = some (path_join (codes "swig") f)

abbrev version_of : Place → Text → Text
version_of place modname =
    if place.is_dir (path_join (codes "include") modname) then codes "37" else codes "36"

abbrev includedir_of : Text → Text → Text
includedir_of version modname =
    if text_in version (codes "37" ∷ codes "component" ∷ [])
    then path_join (codes "include") modname
    else codes "include"

unfoldable pub settings : Place → Options → Found → Text → Settings
unfolding get_mainswigfile
settings place options found modname =
    let version = version_of place modname in
    let main = get_mainswigfile place options.directory modname in
    let skip_swig =
      options.skip_swig || not (is_some main) || not (text_in (codes "swig") found.has_subdirs) in
    record {
      modname = modname;
      version = version;
      blockname = options.block_name;
      skip_lib = options.skip_lib || not (text_in (codes "lib") found.has_subdirs);
      skip_python = options.skip_python || not (text_in (codes "python") found.has_subdirs);
      skip_swig = skip_swig;
      skip_grc = options.skip_grc || not (text_in (codes "grc") found.has_subdirs);
      includedir = includedir_of version modname;
      swig = swig_path skip_swig main;
      qalib = path_join (codes "lib") (codes "qa_" ++ modname ++ codes ".cc");
      pyinit = codes "python/__init__.py";
    }

abbrev chosen_name : Option Text → W (Option Text)
chosen_name (some m) = ret (some m)
chosen_name none = get_modname []

abbrev finished : Place → Options → Found → Option Text → W Settings
finished place options found none = raise (exit 1)
finished place options found (some m) = ret (settings place options found m)

-- `ModTool.setup`
unfoldable pub setup : Place → Options → W Settings
unfolding check_directory get_modname settings
setup place options = do
  r ← check_directory place
  if r.0
      then (chosen_name options.module_name >>= λ m. finished place options r.1 m)
      else raise (exit 1)
