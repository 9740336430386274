-- ===== src/Modtool/Disable.antt =====
-- `ModToolDisable` of gr_modtool.py: entries of files in the build files are turned into comments.
use hachoir.Prelude.{
  ℕ, zero, suc, ◌+◌, Bool, true, false, ◌&&◌, Option, none, some, List, [], ◌∷◌, ◌++◌, Text, codes,
  text_eq, if◌then◌else◌, splitext_root, is_some, path_join, length, ltb,
}
use hachoir.Re.{
  Regex, Match, nothing, group, eol, not_ahead, boundary, char, text, dot, star, plus, space,
  optional, alt, as_pattern, ◌⊳◌, match_at, start, sub, subn,
}
use hachoir.Cmake.{back, comment_out_lines, find_filenames_match, disable_file}
use hachoir.Modtool.World.{ok, W, ◌>>=◌, ◌>>◌, ret, read, write, lookup}
use hachoir.Modtool.Choice.{Info, swig_file, ask, on_verdict}

-- A special rule: whether the file is disabled by it, and the new buffer of the editor.
abbrev pub Rule : Type 0
Rule = Info → Text → Text → W (Bool × Text)

abbrev hash : Text
hash = codes "#"

-- `r'//\1'`
abbrev slashes : Match → Text
slashes m = codes "//" ++ back 1 m

unfoldable pub handle_py_qa : Rule
handle_py_qa info fname cfile =
    ret (
      true,
      comment_out_lines (text (codes "GR_ADD_TEST") ⊳ star dot ⊳ as_pattern fname) hash cfile,
    )

-- r'((from|import)\s+\b'+pymodname+r'\b)'
abbrev import_regex : Text → Regex
import_regex pymodname = group 1 (
    alt (text (codes "from")) (text (codes "import"))
    ⊳ plus space
    ⊳ boundary
    ⊳ as_pattern pymodname
    ⊳ boundary)

-- an `IOError` of the first `open` is reported
unfoldable pub edit_init : Info → Text → Text → Option Text → W (Bool × Text)
edit_init info fname cfile none = ret (false, cfile)
edit_init info fname cfile (some initfile) = do
  write info.pyinit (sub (import_regex (splitext_root fname)) (λ m. hash ++ back 1 m) initfile)
  ret (false, cfile)

unfoldable pub handle_py_mod : Rule
unfolding edit_init
handle_py_mod info fname cfile w = edit_init info fname cfile (lookup info.pyinit w.files) w

unfoldable pub handle_cc_qa : Rule
handle_cc_qa info fname cfile =
    let base = as_pattern (splitext_root fname) in
    if text_eq info.version (codes "37")
    then (read info.qalib >>= λ qa.
        (write info.qalib (
            comment_out_lines (base ⊳ text (codes "::suite()")) (codes "//") (
              comment_out_lines
                (text (codes "#include")
                  ⊳ plus space
                  ⊳ char b'"'
                  ⊳ base
                  ⊳ dot
                  ⊳ char b'h'
                  ⊳ char b'"')
                (codes "//") qa))
          >> ret (
            true,
            comment_out_lines (text (codes "${CMAKE_CURRENT_SOURCE_DIR}/") ⊳ as_pattern fname) hash
                cfile,
          )))
    else if text_eq info.version (codes "36")
    then ret (
      true,
      comment_out_lines (text (codes "GR_ADD_TEST") ⊳ star dot ⊳ base) hash (
          comment_out_lines (text (codes "target_link_libraries") ⊳ star dot ⊳ base) hash (
            comment_out_lines (text (codes "add_executable") ⊳ star dot ⊳ as_pattern fname) hash
              cfile)),
    )
    else ret (true, cfile)

abbrev drop : ℕ → Text → Text
drop zero t = t
drop (suc n) [] = []
drop (suc n) (c ∷ cs) = drop n cs

-- the block of a file: without the module's prefix before version 3.7
abbrev pub block_of : Info → Text → Text
block_of info fname =
    if text_eq info.version (codes "37")
    then splitext_root fname
    else splitext_root (drop (length info.modname + 1) fname)

-- '(GR_SWIG_BLOCK_MAGIC2?.+%s.+;)'
abbrev magic_regex : Text → Regex
magic_regex blockname = group 1 (
    text (codes "GR_SWIG_BLOCK_MAGIC")
    ⊳ optional (char b'2')
    ⊳ plus dot
    ⊳ as_pattern blockname
    ⊳ plus dot
    ⊳ char b';')

-- '(.include\s+"(%s/)?%s")'
abbrev header_regex : Text → Text → Regex
header_regex modname fname = group 1 (
    dot
    ⊳ text (codes "include")
    ⊳ plus space
    ⊳ char b'"'
    ⊳ optional (as_pattern modname ⊳ char b'/')
    ⊳ as_pattern fname
    ⊳ char b'"')

-- the block's macro is looked for where more than one line was changed
abbrev pub without_header : Info → Text → Text × ℕ → Text
without_header info fname (swigfile, nsubs) =
    if ltb 1 nsubs then sub (magic_regex (block_of info fname)) slashes swigfile else swigfile

unfoldable pub handle_h_swig : Rule
handle_h_swig info fname cfile = do
  swig ← swig_file info.swig
  swigfile ← read swig
  write swig (without_header info fname (subn (header_regex info.modname fname) slashes swigfile))
  ret (false, cfile)

unfoldable pub handle_i_swig : Rule
handle_i_swig info fname cfile = do
  swig ← swig_file info.swig
  swigfile ← read swig
  write swig (
      sub (magic_regex (block_of info fname)) slashes (
        sub
          (group 1
            (text (codes "%include") ⊳ plus space ⊳ char b'"' ⊳ as_pattern fname ⊳ char b'"'))
          slashes swigfile))
  ret (false, cfile)

-- what `re.match` looks for in the name of a file, up to its end
abbrev ending : Regex → Text → Regex
ending first suffix = first ⊳ plus dot ⊳ text suffix ⊳ eol

abbrev pub special_treatments : Info → List (Text × (Regex × Rule))
special_treatments info =
    (codes "python", (ending (text (codes "qa")) (codes "py"), handle_py_qa))
    ∷ (codes "python", (ending (not_ahead (text (codes "qa"))) (codes "py"), handle_py_mod))
    ∷ (codes "lib", (ending (text (codes "qa")) (codes ".cc"), handle_cc_qa))
    ∷ (codes "include/" ++ info.modname, (ending nothing (codes ".h"), handle_h_swig))
    ∷ (codes "include", (ending nothing (codes ".h"), handle_h_swig))
    ∷ (codes "swig", (ending nothing (codes ".i"), handle_i_swig))
    ∷ []

-- the loop over the rules; the last rule that applies decides whether the file is disabled
unfoldable pub treat :
    List (Text × (Regex × Rule)) → Info → Text → Text → Bool → Text → W (Bool × Text)
treat [] info subdir fname disabled cfile = ret (disabled, cfile)
treat ((d, (regex, rule)) ∷ rules) info subdir fname disabled cfile =
    if text_eq d subdir && is_some (match_at regex (start fname))
    then (rule info fname cfile >>= λ r. treat rules info subdir fname r.0 r.1)
    else treat rules info subdir fname disabled cfile

abbrev pub indent : Text
indent = codes "    "

-- the loop over the names in one CMakeLists.txt: the new buffer
unfoldable pub disable_files : Info → Text → Bool → Text → List Text → W Text
unfolding ask treat
disable_files info subdir always cfile [] = ret cfile
disable_files info subdir always cfile (fname ∷ fs) = do
  v ← ask always
  on_verdict v (disable_files info subdir always cfile fs) (λ later. do
    r ← treat (special_treatments info) info subdir fname false cfile
    disable_files info subdir later (if r.0 then r.1 else (disable_file indent fname r.1).0) fs)

abbrev pub directory_of : Info → Text → Text
directory_of info subdir =
    if text_eq info.version (codes "37") && text_eq subdir (codes "include")
    then codes "include/" ++ info.modname
    else subdir

-- a directory without a CMakeLists.txt is passed over
unfoldable pub disable_in : Info → Text → Option Text → W (Unit {0})
unfolding disable_files
disable_in info subdir none = ret tt
disable_in info subdir (some cfile) = do
  cfile' ← disable_files info subdir info.yes cfile (find_filenames_match info.pattern cfile)
  write (path_join subdir (codes "CMakeLists.txt")) cfile'

unfoldable pub disable_subdir : Info → Bool → Text → W (Unit {0})
unfolding disable_in
disable_subdir info true subdir w = (ok tt, w)
disable_subdir info false subdir w =
    disable_in info (directory_of info subdir)
      (lookup (path_join (directory_of info subdir) (codes "CMakeLists.txt")) w.files) w

unfoldable pub run : Info → W (Unit {0})
unfolding disable_subdir
run info = do
  disable_subdir info info.skip_lib (codes "lib")
  disable_subdir info info.skip_include (codes "include")
  disable_subdir info info.skip_python (codes "python")
  disable_subdir info info.skip_swig (codes "swig")
  disable_subdir info info.skip_grc (codes "grc")
