-- ===== src/Modtool/AddLib.antt =====
-- `ModToolAdd.run` of gr_modtool.py in the directories `lib` and `include`, and how templates are written.
use hachoir.Prelude.{
  Bool, true, false, Option, none, some, [], ◌∷◌, ◌++◌, Text, codes, text_eq, text_in,
  if◌then◌else◌, path_join, splitext_root,
}
use hachoir.Re.{Regex, nothing, char, text, dot, star, plus, none_of, alt, ◌⊳◌, as_pattern}
use hachoir.Cmake.{append_value, remove_double_newlines}
use hachoir.Modtool.World.{
  io_error, key_error, Reply, ok, stop, W, ◌>>=◌, ◌>>◌, ret, raise, read, write,
}
use hachoir.Modtool.Util.{append, append_re_line_sequence}
use hachoir.Modtool.Add.{AddInfo, Templates}

-- `grtypelist[blocktype]`
unfoldable pub grtype_of : Text → Option Text
grtype_of t =
    if text_in t (codes "sync" ∷ codes "sink" ∷ codes "source" ∷ [])
    then some (codes "gr_sync_block")
    else if text_eq t (codes "decimator")
    then some (codes "gr_sync_decimator")
    else if text_eq t (codes "interpolator")
    then some (codes "gr_sync_interpolator")
    else if text_eq t (codes "general")
    then some (codes "gr_block")
    else if text_eq t (codes "hier")
    then some (codes "gr_hier_block2")
    else if text_eq t (codes "noblock")
    then some []
    else none

abbrev pub filled : Templates → Text → AddInfo → Option Text → W Text
filled t tpl info none = raise key_error
filled t tpl info (some g) = ret (t.fill tpl g info)

-- `get_template(tpl, **self._info)`
unfoldable pub get_template : Templates → Text → AddInfo → W Text
unfolding grtype_of
get_template t tpl info = filled t tpl info (grtype_of info.blocktype)

-- `_write_tpl(tpl, path, fname)`; the file is opened, and emptied, before the template is filled
unfoldable pub write_tpl : Templates → AddInfo → Text → Text → Text → W (Unit {0})
unfolding get_template
write_tpl t info tpl path fname = do
  write (path_join path fname) []
  s ← get_template t tpl info
  write (path_join path fname) s

-- `CMakeFileEditor(path)`, an edit, and `write`
unfoldable pub edit_file : Text → (Text → Text) → W (Unit {0})
edit_file path edit = do cfile ← read path; write path (edit cfile)

-- 'DESTINATION[^()]+'
abbrev pub destination : Regex
destination = text (codes "DESTINATION") ⊳ plus (none_of (codes "()"))

abbrev pub separator : Text
separator = codes "\n    "

abbrev pub install_value : Text → Text → Text
install_value fname = append_value separator (codes "install") fname destination

abbrev pub cmlib : Text
cmlib = codes "lib/CMakeLists.txt"

-- the handler of `IOError`
abbrev pub caught : Reply (Unit {0}) → W (Unit {0})
caught (stop io_error) = ret tt
caught (ok u) = ret u
caught (stop s) = raise s

abbrev pub try_io : W (Unit {0}) → W (Unit {0})
try_io m w = caught (m w).0 (m w).1

abbrev pub any_line : Regex
any_line = star dot ⊳ char b'\n'

-- the three lines for a test of version 3.7
unfoldable pub add_qa_lines : AddInfo → W (Unit {0})
add_qa_lines info = do
  append_re_line_sequence cmlib
      (text (codes "${CMAKE_CURRENT_SOURCE_DIR}/qa_")
        ⊳ as_pattern info.settings.modname
        ⊳ dot
        ⊳ text (codes "cc")
        ⊳ any_line)
      (codes "  ${CMAKE_CURRENT_SOURCE_DIR}/qa_" ++ info.blockname ++ codes ".cc")
  append_re_line_sequence info.settings.qalib (text (codes "#include") ⊳ any_line)
      (codes "#include \"qa_" ++ info.blockname ++ codes ".h\"")
  append_re_line_sequence info.settings.qalib
      (alt (text (codes "addTest") ⊳ star dot ⊳ text (codes "suite") ⊳ any_line)
        (text (codes "new CppUnit") ⊳ star dot ⊳ text (codes "TestSuite") ⊳ any_line))
      (codes "  s->addTest(gr::"
        ++ info.settings.modname
        ++ codes "::qa_"
        ++ info.blockname
        ++ codes "::suite());")

abbrev pub unless : Bool → W (Unit {0}) → W (Unit {0})
unless true m = ret tt
unless false m = m

abbrev pub when : Bool → W (Unit {0}) → W (Unit {0})
when true m = m
when false m = ret tt

unfoldable pub add_qa : Templates → AddInfo → W (Unit {0})
unfolding add_qa_lines
add_qa t info = do
  write_tpl t info (codes "qa_cpp") (codes "lib") (codes "qa_" ++ info.blockname ++ codes ".cc")
  write_tpl t info (codes "qa_h") (codes "lib") (codes "qa_" ++ info.blockname ++ codes ".h")
  unless info.skip_cmakefiles (try_io (add_qa_lines info))

unfoldable pub add_qa36 : Templates → AddInfo → W (Unit {0})
unfolding edit_file
add_qa36 t info = do
  write_tpl t info (codes "qa_cpp36") (codes "lib")
      (codes "qa_" ++ info.fullblockname ++ codes ".cc")
  unless info.skip_cmakefiles (do
    append cmlib (
        t.qa_cmakeentry36 (splitext_root (codes "qa_" ++ info.fullblockname ++ codes ".cc"))
          (codes "qa_" ++ info.fullblockname ++ codes ".cc") info.settings.modname)
    edit_file cmlib remove_double_newlines)

abbrev pub is_block : Text → Bool
is_block t = text_in t (
    codes "source"
    ∷ codes "sink"
    ∷ codes "sync"
    ∷ codes "decimator"
    ∷ codes "interpolator"
    ∷ codes "general"
    ∷ codes "hier"
    ∷ [])

abbrev pub is_37 : AddInfo → Bool
is_37 info = text_eq info.settings.version (codes "37")

-- the names of the header and of the source file
abbrev pub fname_h : AddInfo → Text
fname_h info = (if is_37 info then info.blockname else info.fullblockname) ++ codes ".h"

abbrev pub fname_cc : AddInfo → Text
fname_cc info =
    if is_37 info
    then info.blockname ++ (if is_block info.blocktype then codes "_impl.cc" else codes ".cc")
    else info.fullblockname ++ codes ".cc"

unfoldable pub write_sources : Bool → Templates → AddInfo → W (Unit {0})
write_sources true t info = do
  when (is_block info.blocktype)
      (write_tpl t info (codes "block_impl_h") (codes "lib") (info.blockname ++ codes "_impl.h"))
  write_tpl t info (codes "block_impl_cpp") (codes "lib") (fname_cc info)
  write_tpl t info (codes "block_def_h") info.settings.includedir (fname_h info)
write_sources false t info = do
  write_tpl t info (codes "block_h36") info.settings.includedir (fname_h info)
  write_tpl t info (codes "block_cpp36") (codes "lib") (fname_cc info)

abbrev pub cminclude : AddInfo → Text
cminclude info = path_join info.settings.includedir (codes "CMakeLists.txt")

unfoldable pub add_entries : AddInfo → W (Unit {0})
unfolding edit_file
add_entries info = do
  edit_file cmlib (append_value separator (codes "add_library") (fname_cc info) nothing)
  edit_file (cminclude info) (install_value (fname_h info))

-- `_run_lib`
unfoldable pub run_lib : Templates → AddInfo → W (Unit {0})
unfolding write_sources add_entries add_qa add_qa36
run_lib t info = do
  write_sources (is_37 info) t info
  unless info.skip_cmakefiles (add_entries info)
  when info.add_cc_qa (
      if is_37 info
      then add_qa t info
      else when (text_eq info.settings.version (codes "36")) (add_qa36 t info))
