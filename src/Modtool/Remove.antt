-- ===== src/Modtool/Remove.antt =====
-- `ModToolRemove` of gr_modtool.py: files that match are deleted, with their entries elsewhere.
use hachoir.Prelude.{
  Bool, true, false, not, Option, none, some, List, [], ◌∷◌, ◌++◌, Text, codes, text_eq, reverse,
  if◌then◌else◌, basename, splitext_root, splitext_ext, replace, is_some, keep,
}
use hachoir.Re.{
  Regex, nothing, bol, eol, char, text, dot, star, plus, space, optional, alt, as_pattern, ◌⊳◌,
  search_text,
}
use hachoir.Cmake.{remove_value, delete_entry, remove_double_newlines}
use hachoir.Modtool.World.{
  World, unbound_local, W, ◌>>=◌, ◌>>◌, ret, raise, read, write, unlink, glob,
  remove_pattern_from_file,
}
use hachoir.Modtool.Choice.{Info, ask, on_verdict, swig_file}

-- An edit of the CMakeLists.txt for a file: it takes the buffer of the editor and gives the new one.
abbrev pub Edit : Type 0
Edit = Text → Text → W Text

abbrev pub no_edit : Edit
no_edit b cfile = ret cfile

-- `ed.remove_value(var, b)` for each variable
abbrev pub remove_values : List Text → Text → Text → Text
remove_values [] b cfile = cfile
remove_values (var ∷ vars) b cfile =
    remove_values vars b (remove_value var (as_pattern b) nothing cfile)

-- the loop over the files: the flag `yes`, the editor's buffer, and the names that are deleted
unfoldable pub delete_files : List Text → Edit → Bool → Text → List Text → W (Text × List Text)
unfolding ask unlink
delete_files vars edit always cfile [] = ret (cfile, [])
delete_files vars edit always cfile (f ∷ fs) = do
  v ← ask always
  on_verdict v (delete_files vars edit always cfile fs) (λ later. do
    unlink f
    cfile' ← edit (basename f) (remove_values vars (basename f) cfile)
    r ← delete_files vars edit later cfile' fs
    ret (r.0, basename f ∷ r.1))

abbrev pub candidates : Regex → List Text → List Text
candidates pattern files = keep (λ f. is_some (search_text pattern (basename f))) files

abbrev pub globs_of : Text → List Text → World → List Text
globs_of path [] w = []
globs_of path (g ∷ gs) w = glob path g w.files ++ globs_of path gs w

abbrev pub cmakelists : Text → Text
cmakelists path = path ++ codes "/CMakeLists.txt"

-- step 2 of `_run_subdir`
unfoldable pub run_filtered : Bool → Text → List Text → Edit → List Text → W (List Text)
unfolding delete_files read write
run_filtered always path vars edit [] = ret []
run_filtered always path vars edit (f ∷ fs) = do
  cfile ← read (cmakelists path)
  r ← delete_files vars edit always cfile (f ∷ fs)
  write (cmakelists path) r.0
  ret r.1

-- `self._run_subdir(path, globs, makefile_vars, cmakeedit_func)`
unfoldable pub run_subdir : Info → Text → List Text → List Text → Edit → W (List Text)
unfolding run_filtered
run_subdir info path globs vars edit w =
    run_filtered info.yes path vars edit (candidates info.pattern (globs_of path globs w)) w

-- `filename[:2] == 'qa'`
abbrev pub is_qa : Text → Bool
is_qa (a ∷ (b ∷ cs)) = text_eq (a ∷ b ∷ []) (codes "qa")
is_qa _ = false

-- r'^#include "%s"\s*$'
abbrev pub include_line : Text → Regex
include_line filename =
    bol ⊳ text (codes "#include \"") ⊳ as_pattern filename ⊳ char b'"' ⊳ star space ⊳ eol

-- r'^\s*s->addTest\(gr::%s::%s::suite\(\)\);\s*$'
abbrev pub suite_line : Text → Text → Regex
suite_line modname base =
    bol
    ⊳ star space
    ⊳ text (codes "s->addTest(gr::")
    ⊳ as_pattern modname
    ⊳ text (codes "::")
    ⊳ as_pattern base
    ⊳ text (codes "::suite());")
    ⊳ star space
    ⊳ eol

unfoldable pub remove_test_37 : Info → Text → Text → W Text
remove_test_37 info filename cfile =
    if text_eq (splitext_ext filename) (codes ".h")
    then (remove_pattern_from_file info.qalib (include_line filename)
        >> (remove_pattern_from_file info.qalib (suite_line info.modname (splitext_root filename))
            >> ret cfile))
    else if text_eq (splitext_ext filename) (codes ".cc")
    then ret (
        remove_value (codes "list")
          (text (codes "${CMAKE_CURRENT_SOURCE_DIR}/") ⊳ as_pattern filename)
          (text (codes "APPEND test_") ⊳ as_pattern info.modname ⊳ text (codes "_sources")) cfile)
    else ret cfile

unfoldable pub remove_cc_test_case : Info → Edit
unfolding remove_test_37
remove_cc_test_case info filename cfile =
    let base = as_pattern (splitext_root filename) in
    if not (is_qa filename)
    then ret cfile
    else if text_eq info.version (codes "37")
    then remove_test_37 info filename cfile
    else ret (
        remove_double_newlines (
          delete_entry (codes "GR_ADD_TEST") base (
            delete_entry (codes "target_link_libraries") base
              (delete_entry (codes "add_executable") base cfile))))

unfoldable pub remove_py_test_case : Edit
remove_py_test_case filename cfile =
    if is_qa filename
    then ret (
        remove_double_newlines
          (delete_entry (codes "GR_ADD_TEST") (as_pattern (splitext_root filename)) cfile))
    else ret cfile

-- r'(^\s*GR_SWIG_BLOCK_MAGIC2?\(%s,\s*%s\);|^\s*.include\s*"(%s/)?%s"\s*)'
abbrev pub make_swig_regex : Text → Text → Regex
make_swig_regex modname filename =
    alt
      (bol
        ⊳ star space
        ⊳ text (codes "GR_SWIG_BLOCK_MAGIC")
        ⊳ optional (char b'2')
        ⊳ char b'('
        ⊳ as_pattern modname
        ⊳ char b','
        ⊳ star space
        ⊳ as_pattern (replace (modname ++ codes "_") [] (splitext_root filename))
        ⊳ text (codes ");"))
      (bol
        ⊳ star space
        ⊳ dot
        ⊳ text (codes "include")
        ⊳ star space
        ⊳ char b'"'
        ⊳ optional (as_pattern modname ⊳ char b'/')
        ⊳ as_pattern filename
        ⊳ char b'"'
        ⊳ star space)

unfoldable pub remove_from_swig : Info → List Text → W (Unit {0})
remove_from_swig info [] = ret tt
remove_from_swig info (f ∷ fs) = do
  swig ← swig_file info.swig
  remove_pattern_from_file swig (make_swig_regex info.modname f)
  remove_from_swig info fs

-- `f[:-3]`
abbrev drop3 : Text → Text
drop3 (a ∷ (b ∷ (c ∷ cs))) = cs
drop3 _ = []

abbrev without_py : Text → Text
without_py f = reverse (drop3 (reverse f))

-- '.*import\s+%s.*' and '.*from\s+%s\s+import.*\n'
unfoldable pub remove_from_init : Info → List Text → W (Unit {0})
remove_from_init info [] = ret tt
remove_from_init info (f ∷ fs) = do
  remove_pattern_from_file info.pyinit
      (star dot ⊳ text (codes "import") ⊳ plus space ⊳ as_pattern (without_py f) ⊳ star dot)
  remove_pattern_from_file info.pyinit (
      star dot
      ⊳ text (codes "from")
      ⊳ plus space
      ⊳ as_pattern (without_py f)
      ⊳ plus space
      ⊳ text (codes "import")
      ⊳ star dot
      ⊳ char b'\n')
  remove_from_init info fs

abbrev pub unless : Bool → W (Unit {0}) → W (Unit {0})
unless true m = ret tt
unless false m = m

-- the local variable `incl_files_deleted`, which is not set where the directory is skipped
abbrev pub Local : Type 0
Local = Option (List Text)

abbrev pub assigned : Local → W (List Text)
assigned none = raise unbound_local
assigned (some fs) = ret fs

unfoldable pub run_include : Info → Bool → W Local
unfolding run_subdir
run_include info true = ret none
run_include info false = do
  deleted ← run_subdir info info.includedir (codes ".h" ∷ []) (codes "install" ∷ []) no_edit
  ret (some deleted)

-- the part of `run` for each of the other directories
unfoldable pub run_lib : Info → W (Unit {0})
unfolding run_subdir remove_cc_test_case
run_lib info = do
  _ ←
      run_subdir info (codes "lib") (codes ".cc" ∷ codes ".h" ∷ []) (codes "add_library" ∷ [])
        (remove_cc_test_case info)
  ret tt

unfoldable pub run_swig : Info → Local → W (Unit {0})
unfolding run_subdir remove_from_swig
run_swig info incl_files_deleted = do
  swig_files_deleted ←
      run_subdir info (codes "swig") (codes ".i" ∷ []) (codes "install" ∷ []) no_edit
  incl ← assigned incl_files_deleted
  remove_from_swig info (incl ++ swig_files_deleted)

unfoldable pub run_python : Info → W (Unit {0})
unfolding run_subdir remove_from_init remove_py_test_case
run_python info = do
  py_files_deleted ←
      run_subdir info (codes "python") (codes ".py" ∷ []) (codes "GR_PYTHON_INSTALL" ∷ [])
        remove_py_test_case
  remove_from_init info py_files_deleted

unfoldable pub run_grc : Info → W (Unit {0})
unfolding run_subdir
run_grc info = do
  _ ← run_subdir info (codes "grc") (codes ".xml" ∷ []) (codes "install" ∷ []) no_edit
  ret tt

unfoldable pub run : Info → W (Unit {0})
unfolding run_lib run_include run_swig run_python run_grc
run info = do
  unless info.skip_lib (run_lib info)
  incl_files_deleted ← run_include info info.skip_include
  unless info.skip_swig (run_swig info incl_files_deleted)
  unless info.skip_python (run_python info)
  unless info.skip_grc (run_grc info)
