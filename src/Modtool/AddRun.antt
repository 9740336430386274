-- ===== src/Modtool/AddRun.antt =====
-- `ModToolAdd.run` of gr_modtool.py: one function for each of the other directories, and all of them.
use hachoir.Prelude.{
  Bool, not, ◌&&◌, ◌||◌, Option, none, some, ◌++◌, Text, codes, text_eq, if◌then◌else◌, is_some,
}
use hachoir.Re.{Regex, bol, text, dot, star, alt, ◌⊳◌, search_text, sub_once}
use hachoir.Cmake.{append_value, check_for_glob}
use hachoir.Modtool.World.{W, ◌>>=◌, ◌>>◌, ret, read, write}
use hachoir.Modtool.Base.{Place, get_mainswigfile}
use hachoir.Modtool.Choice.{swig_file}
use hachoir.Modtool.Util.{append, append_re_line_sequence}
use hachoir.Modtool.Add.{AddInfo, Templates}
use hachoir.Modtool.AddLib.{
  get_template, write_tpl, edit_file, install_value, destination, separator, unless, when, any_line,
  run_lib,
}

abbrev include_str : AddInfo → Text
include_str info =
    codes "#include \""
    ++ info.settings.modname
    ++ (if text_eq info.settings.version (codes "36") then codes "_" else codes "/")
    ++ info.blockname
    ++ codes ".h\""

-- '^%\{\n'
abbrev opening : Regex
opening = bol ⊳ text (codes "%{\n")

-- the include line goes behind the others, or behind the first `%{`
unfoldable pub add_include : AddInfo → Text → Text → W (Unit {0})
add_include info swig t =
    if is_some (search_text (text (codes "#include")) t)
    then append_re_line_sequence swig (bol ⊳ text (codes "#include") ⊳ any_line) (include_str info)
    else write swig (sub_once opening (λ m. codes "%{\n" ++ include_str info ++ codes "\n") t)

unfoldable pub edit_swig : Templates → AddInfo → Option Text → W (Unit {0})
unfolding add_include
edit_swig t info none = ret tt
edit_swig t info (some f) = do
  swig ← swig_file info.settings.swig
  magic ← get_template t (codes "swig_block_magic") info
  append swig magic
  text' ← read swig
  add_include info swig text'

-- `_run_swig`
unfoldable pub run_swig : Place → Templates → AddInfo → W (Unit {0})
unfolding edit_swig
run_swig place t info =
    edit_swig t info (get_mainswigfile place info.directory info.settings.modname)

abbrev pub cmpython : Text
cmpython = codes "python/CMakeLists.txt"

-- `_run_python_qa`; the mode of the new file is left out
unfoldable pub run_python_qa : Templates → AddInfo → W (Unit {0})
run_python_qa t info = do
  write_tpl t info (codes "qa_python") (codes "python")
      (codes "qa_" ++ info.blockname ++ codes ".py")
  unless info.skip_cmakefiles (do
    cfile ← read cmpython
    unless (check_for_glob (codes "qa_*.py") cfile) (
        append cmpython (
          codes "GR_ADD_TEST(qa_"
          ++ info.blockname
          ++ codes " ${PYTHON_EXECUTABLE} ${CMAKE_CURRENT_SOURCE_DIR}/qa_"
          ++ info.blockname
          ++ codes ".py)\n")))

-- `_run_python`
unfoldable pub run_python : Templates → AddInfo → W (Unit {0})
unfolding edit_file
run_python t info = do
  write_tpl t info (codes "block_python") (codes "python") (info.blockname ++ codes ".py")
  append_re_line_sequence info.settings.pyinit
      (alt (bol ⊳ text (codes "from") ⊳ star dot ⊳ text (codes "import") ⊳ any_line)
        (text (codes "# import any pure") ⊳ any_line))
      (codes "from " ++ info.blockname ++ codes " import " ++ info.blockname)
  unless info.skip_cmakefiles (
      edit_file cmpython (
        append_value separator (codes "GR_PYTHON_INSTALL") (info.blockname ++ codes ".py")
          destination))

abbrev pub cmgrc : Text
cmgrc = codes "grc/CMakeLists.txt"

-- `_run_grc`
unfoldable pub run_grc : Templates → AddInfo → W (Unit {0})
run_grc t info = do
  write_tpl t info (codes "grc_xml") (codes "grc") (info.fullblockname ++ codes ".xml")
  cfile ← read cmgrc
  unless (info.skip_cmakefiles || check_for_glob (codes "*.xml") cfile)
      (write cmgrc (install_value (info.fullblockname ++ codes ".xml") cfile))

abbrev pub has_swig : AddInfo → Bool
has_swig info = text_eq info.lang (codes "cpp") && not info.settings.skip_swig

abbrev pub has_grc : AddInfo → Bool
has_grc info =
    if text_eq info.lang (codes "cpp")
    then has_swig info
    else not (text_eq info.blocktype (codes "noblock"))

-- `ModToolAdd.run`
unfoldable pub run_add : Place → Templates → AddInfo → W (Unit {0})
unfolding run_lib run_swig run_python run_python_qa run_grc
run_add place t info = do
  if text_eq info.lang (codes "cpp") then run_lib t info else run_python t info
  when (has_swig info) (run_swig place t info)
  when info.add_py_qa (run_python_qa t info)
  when (has_grc info && not info.settings.skip_grc) (run_grc t info)
