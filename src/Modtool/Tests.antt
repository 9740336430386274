-- ===== src/Modtool/Tests.antt =====
-- A small module directory, and the theorems at it.
use hachoir.Prelude.{true, false, none, some, List, [], ◌∷◌, Text, codes, ◌≡◌, refl, text_eq}
use hachoir.Modtool.World.{World, Files, lookup, store, glob, exit, ok, stop}
use hachoir.Re.{dot, text, search_text}
use hachoir.Re.First.{ends_line}
use hachoir.Modtool.Base.{file, dir, Place, Found, check_directory}
use hachoir.Modtool.Directory.{check_directory_lem}
use hachoir.Modtool.Choice.{Info}
use hachoir.Modtool.Disable.{run}
use hachoir.Modtool.Untouched.{run-keeps}
use hachoir.Modtool.Remove
use hachoir.Modtool.Remove.{no_edit, run_filtered}
use hachoir.Modtool.Kept.{discard_all, run_filtered_quit}
use hachoir.Modtool.Unmatched.{run-keeps_unmatched}
use hachoir.Modtool.Emptied.{Lists, Emptied, run_subdir_always}

abbrev cmake_text : Text
cmake_text = codes "install(FILES a.h b.h)"

abbrev files : Files
files =
    (codes "include/a.h", codes "A")
    ∷ (codes "include/b.h", codes "B")
    ∷ (codes "include/CMakeLists.txt", cmake_text)
    ∷ []

abbrev headers : List Text
headers = codes "include/a.h" ∷ codes "include/b.h" ∷ []

abbrev vars : List Text
vars = codes "install" ∷ []

run_filtered_quit_example :
    (run_filtered false
        (codes "include")
        vars
        no_edit
        headers
        (record { files = files; answers = codes "y" ∷ codes "q" ∷ [] })
      ≡ (
        stop (exit 0),
        record { files = discard_all (codes "include/a.h" ∷ []) files; answers = [] },
      ))
    × (lookup (codes "include/CMakeLists.txt") (discard_all (codes "include/a.h" ∷ []) files)
        ≡ some cmake_text)
unfolding lookup text_eq
run_filtered_quit_example =
    run_filtered_quit (codes "include") vars (codes "include/a.h" ∷ []) (codes "include/b.h") [] []
      files cmake_text refl (codes "A", refl, tt) refl

abbrev world : World
world = record {
  files = (codes "CMakeLists.txt", codes "find_package(GnuradioCore)") ∷ [];
  answers = [];
}

abbrev place : Place
place = record {
  entries = some (dir (codes "docs") ∷ file (codes "CMakeLists.txt") ∷ []);
  is_file = λ path. false;
  is_dir = λ path. false;
}

-- a module without any of the subdirectories
check_directory_lem_example : (r : Found) × (check_directory place world ≡ (ok (true, r), world))
unfolding lookup text_eq search_text
check_directory_lem_example =
    check_directory_lem place (dir (codes "docs") ∷ file (codes "CMakeLists.txt") ∷ []) world
      (codes "find_package(GnuradioCore)") refl refl

abbrev info : Info
info = record {
  modname = codes "howto";
  version = codes "36";
  includedir = codes "include";
  pattern = dot;
  yes = false;
  skip_lib = false;
  skip_include = false;
  skip_swig = true;
  skip_python = false;
  skip_grc = false;
  qalib = codes "lib/qa_howto.cc";
  swig = none;
  pyinit = codes "python/__init__.py";
}

abbrev disabling : World
disabling = record {
  files = (codes "lib/CMakeLists.txt", codes "add_library(a.cc)") ∷ (codes "lib/a.cc", []) ∷ [];
  answers = codes "y" ∷ [];
}

run-keeps_example :
    lookup (codes "lib/a.cc") (run info disabling).1.files
    ≡ lookup (codes "lib/a.cc") disabling.files
unfolding text_eq
run-keeps_example =
    run-keeps info (codes "lib/a.cc") (refl, refl, λ f e. cc)
      (refl, (refl, (refl, (refl, (refl, tt))))) disabling

-- `rm foo --yes`, and a directory with one file of that name
abbrev removal : Info
removal = record info { pattern = text (codes "foo"); yes = true; skip_lib = true; skip_grc = true }

abbrev python_cmake : Text
python_cmake = codes "GR_PYTHON_INSTALL(FILES foo.py bar.py)"

abbrev to_remove : World
to_remove = record {
  files =
      (codes "python/CMakeLists.txt", python_cmake)
      ∷ (codes "python/foo.py", codes "F")
      ∷ (codes "python/bar.py", codes "B")
      ∷ (codes "python/__init__.py", codes "from foo import x\n")
      ∷ [];
  answers = [];
}

run-keeps_unmatched_example :
    lookup (codes "python/bar.py") (Remove.run removal to_remove).1.files
    ≡ lookup (codes "python/bar.py") to_remove.files
unfolding text_eq search_text
run-keeps_unmatched_example =
    run-keeps_unmatched removal (codes "python/bar.py") (refl, refl, λ f e. cc) refl
      (refl, (refl, (refl, (refl, (refl, tt))))) to_remove

run_subdir_always_example :
    (cfile' : Text) × Emptied (codes "GR_PYTHON_INSTALL") (codes "foo.py" ∷ []) python_cmake cfile'
    × (Remove.run_subdir removal
          (codes "python")
          (codes ".py" ∷ [])
          (codes "GR_PYTHON_INSTALL" ∷ [])
          Remove.remove_py_test_case
          to_remove
        ≡ (
          ok (codes "foo.py" ∷ []),
          record {
            files =
                store
                  (codes "python/CMakeLists.txt")
                  cfile'
                  (discard_all (codes "python/foo.py" ∷ []) to_remove.files);
            answers = [];
          },
        ))
unfolding text_eq search_text lookup glob Remove.remove_py_test_case
run_subdir_always_example =
    run_subdir_always removal (codes "python") (codes "GR_PYTHON_INSTALL") (codes ".py" ∷ [])
      Remove.remove_py_test_case to_remove (codes "python/foo.py") [] python_cmake refl refl refl
      (codes "F", refl, tt) ((λ cfile w. refl), tt)

-- The entry does list the file.
python_cmake-Lists : Lists (codes "GR_PYTHON_INSTALL") (codes "foo.py") python_cmake
unfolding ends_line
python_cmake-Lists = record {
  before = [];
  white = [];
  front = codes "FILES ";
  rest = codes " bar.py";
  behind = [];
  at_line = refl;
  is_white = refl;
  plain_front = refl;
  inline = refl;
  plain_rest = refl;
  text = refl;
}
