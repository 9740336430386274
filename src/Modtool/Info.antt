-- ===== src/Modtool/Info.antt =====
-- `ModToolInfo` of gr_modtool.py: what can be found out about the module around a directory.
use hachoir.Prelude.{
  Bool, true, false, ◌&&◌, Option, none, some, List, [], ◌∷◌, ◌++◌, Text, codes, text_eq, text_in,
  if◌then◌else◌, path_join, dirname, basename, contains, replace, strip, split, keep, map,
}
use hachoir.Cmake.{splitlines}
use hachoir.Modtool.World.{World, exit, ok, stop, W, ◌>>=◌, ret, raise, lookup}
use hachoir.Modtool.Base.{Entry, Found, checked}
use hachoir.Modtool.ModuleName.{get_modname}

-- What the operating system answers for absolute paths; `walk` lists the directories below one, each
-- with the names of its files, in the order of `os.walk`.
pub record Tree : Type 0 where
  pub entries : Text → Option (List Entry)
  pub is_file : Text → Bool
  pub is_dir : Text → Bool
  pub walk : Text → List (Text × List Text)
  pub abspath : Text → Text
  pub normpath : Text → Text

abbrev or_else : Bool × Found → Text → W (Option (Text × Found)) → W (Option (Text × Found))
or_else (true, found) d m = ret (some (d, found))
or_else (false, found) d m = m

-- the directory above, and the one above that where it is called `include`
abbrev pub up_dir : Text → Text
up_dir d =
    if text_eq (basename (dirname d)) (codes "include") then dirname (dirname d) else dirname d

-- `_get_base_dir`
unfoldable pub get_base_dir : Tree → Text → W (Option (Text × Found))
get_base_dir tree start = do
  let base = tree.abspath start
  r ← checked base (tree.entries base)
  or_else r base (
      checked (up_dir base) (tree.entries (up_dir base)) >>= λ q.
      or_else q (up_dir base) (ret none))

abbrev cache : Text
cache = codes "CMakeCache.txt"

unfoldable pub find_cache : List (Text × List Text) → Option Text
find_cache [] = none
find_cache ((dirpath, filenames) ∷ dirs) =
    let later = find_cache dirs in if text_in cache filenames then some dirpath else later

abbrev pub or_build : Bool → Text → Option Text → Option Text
or_build has_build build (some d) = some d
or_build true build none = some build
or_build false build none = none

abbrev pub build_base : Bool → Text → Text
build_base is_component base = if is_component then dirname base else base

-- `_get_build_dir`
unfoldable pub get_build_dir : Tree → Text → Bool → Option Text
unfolding find_cache
get_build_dir tree base is_component =
    let top = build_base is_component base in
    let build = path_join top (codes "build") in
    if tree.is_dir build && tree.is_file (path_join top cache)
    then some build
    else or_build (tree.is_dir build) build (find_cache (tree.walk top))

-- the directories that one line of the cache gives for a variable
abbrev line_dirs : Text → Text → List Text
line_dirs key line =
    if contains key line then split b';' (strip (replace (key ++ codes "=") [] line)) else []

unfoldable pub cache_dirs : Text → List Text → List Text
cache_dirs kind [] = []
cache_dirs kind (line ∷ lines) =
    line_dirs (codes "GNURADIO_CORE_INCLUDE_DIRS:" ++ kind) line
    ++ (line_dirs (codes "GRUEL_INCLUDE_DIRS:" ++ kind) line ++ cache_dirs kind lines)

abbrev from_cache : Text → Option Text → List Text
from_cache kind none = []
from_cache kind (some t) = cache_dirs kind (splitlines t)

abbrev suggested : Tree → Option Text → List Text
suggested tree none = []
suggested tree (some dirs) = map tree.normpath (keep tree.is_dir (split b':' dirs))

abbrev or_suggested : Tree → Option Text → List Text → List Text
or_suggested tree dirs [] = suggested tree dirs
or_suggested tree dirs (d ∷ ds) = d ∷ ds

-- `_get_include_dirs`; an `IOError` gives no directories
unfoldable pub get_include_dirs : Tree → Option Text → Bool → Text → World → List Text
unfolding cache_dirs
get_include_dirs tree dirs is_component build w = or_suggested tree dirs (
    from_cache (if is_component then codes "INTERNAL" else codes "PATH")
      (lookup (path_join build cache) w.files))

-- `mod_info`
pub record ModInfo : Type 0 where
  pub base_dir : Text
  pub modname : Text
  pub version : Text
  pub is_component : Bool
  pub incdirs : List Text
  pub build_dir : Option Text

abbrev pub include_dir : Tree → Text → Text → Text
include_dir tree base modname =
    let dir = path_join base (codes "include") in
    if tree.is_dir (path_join dir modname) then path_join dir modname else dir

abbrev more_dirs : Tree → Option Text → Bool → Option Text → World → List Text
more_dirs tree dirs is_component none w = []
more_dirs tree dirs is_component (some build) w = get_include_dirs tree dirs is_component build w

unfoldable pub gathered : Tree → Option Text → Text → Found → Text → World → ModInfo
unfolding get_build_dir
gathered tree dirs base found modname w =
    let build = get_build_dir tree base found.is_component in
    record {
      base_dir = base;
      modname = modname;
      version =
          if tree.is_dir (path_join (path_join base (codes "include")) modname)
          then codes "37"
          else codes "36";
      is_component = found.is_component;
      incdirs = include_dir tree base modname ∷ more_dirs tree dirs found.is_component build w;
      build_dir = build;
    }

named : Tree → Option Text → Text → Found → Option Text → W ModInfo
unfolding gathered
named tree dirs base found none w = (stop (exit 1), w)
named tree dirs base found (some m) w = (ok (gathered tree dirs base found m w), w)

based : Tree → Option Text → Option (Text × Found) → W ModInfo
unfolding named
based tree dirs none = raise (exit 1)
based tree dirs (some (base, found)) = get_modname base >>= λ m. named tree dirs base found m

-- `ModToolInfo.run`, up to the output
unfoldable pub run_info : Tree → Text → Option Text → W ModInfo
unfolding get_base_dir based
run_info tree directory dirs = get_base_dir tree directory >>= λ b. based tree dirs b
