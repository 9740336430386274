-- ===== src/Modtool/Add.antt =====
-- `ModToolAdd` of gr_modtool.py: the files of a new block, and its entries in the build files.
use hachoir.Prelude.{
  Bool, true, false, not, ◌&&◌, ◌||◌, Option, none, some, List, [], ◌∷◌, ◌++◌, Text, codes, text_eq,
  text_in, if◌then◌else◌, contains,
}
use hachoir.Re.{is_word}
use hachoir.Modtool.World.{exit, eof_error, ok, stop, W, ◌>>=◌, ◌>>◌, ret, raise, read, raw_input}
use hachoir.Modtool.Base.{Place, Options, Settings, setup}
use hachoir.Modtool.Util.{ask_yes_no}

-- `_block_types`
abbrev pub block_types : List Text
block_types =
    codes "sink"
    ∷ codes "source"
    ∷ codes "sync"
    ∷ codes "decimator"
    ∷ codes "interpolator"
    ∷ codes "general"
    ∷ codes "hier"
    ∷ codes "noblock"
    ∷ []

pub record AddOptions : Type 0 where
  pub common : Options
  pub block_type : Option Text
  pub license_file : Option Text
  pub argument_list : Option Text
  pub add_python_qa : Option Bool
  pub add_cpp_qa : Option Bool
  pub skip_cmakefiles : Bool
  pub lang : Text

-- what the templates are filled from, and the flags of the command
pub record AddInfo : Type 0 where
  pub settings : Settings
  pub directory : Text
  pub blocktype : Text
  pub lang : Text
  pub blockname : Text
  pub fullblockname : Text
  pub license : Text
  pub arglist : Text
  pub add_py_qa : Bool
  pub add_cc_qa : Bool
  pub skip_cmakefiles : Bool

-- Cheetah on a template of the program, and on the entry for a test before version 3.7. The second
-- argument of the first is `grblocktype`.
pub record Templates : Type 0 where
  pub defaultlicense : Text
  pub fill : Text → Text → AddInfo → Text
  pub qa_cmakeentry36 : Text → Text → Text → Text

-- `while blocktype not in _block_types`, over the answers that are left
unfoldable pub ask_type : List Text → W Text
ask_type [] w = (stop eof_error, record w { answers = [] })
ask_type (a ∷ later) w =
    let again = ask_type later w in
    if text_in a block_types then (ok a, record w { answers = later }) else again

unfoldable pub blocktype_of : Option Text → W Text
unfolding ask_type
blocktype_of none w = ask_type w.answers w
blocktype_of (some t) w = (ok t, w)

abbrev pub lang_of : Text → Text
lang_of l = if text_eq l (codes "c++") then codes "cpp" else l

abbrev is_cpp : Text → Bool
is_cpp l = text_eq l (codes "cpp")

-- neither skipped nor missing
abbrev has_subdir : Settings → Text → W (Unit {0})
has_subdir s l =
    if s.skip_lib && is_cpp l || s.skip_python && text_eq l (codes "python")
    then raise (exit 1)
    else ret tt

unfoldable pub blockname_of : Option Text → List Text → W Text
unfolding raw_input
blockname_of (some b) args = ret b
blockname_of none (a ∷ (b ∷ args)) = ret b
blockname_of none _ = raw_input

-- `re.match('[a-zA-Z0-9_]+', name)`: the pattern has no end, so that one character is enough
unfoldable pub is_name : Text → Bool
is_name [] = false
is_name (c ∷ cs) = is_word c

unfoldable pub check_name : Text → W (Unit {0})
unfolding is_name
check_name name = if is_name name then ret tt else raise (exit 2)

-- the file of the module, under either name, and the default license
abbrev module_license : Place → Templates → W Text
module_license place t =
    if place.is_file (codes "LICENSE")
    then read (codes "LICENSE")
    else if place.is_file (codes "LICENCE")
    then read (codes "LICENCE")
    else ret t.defaultlicense

unfoldable pub choose_license : Place → Templates → Option Text → W Text
choose_license place t (some f) = if place.is_file f then read f else module_license place t
choose_license place t none = module_license place t

given_or_asked : Option Text → W Text
unfolding raw_input
given_or_asked none = raw_input
given_or_asked (some t) = ret t

flag_or_asked : Option Bool → Bool → W Bool
unfolding ask_yes_no
flag_or_asked none default = ask_yes_no default
flag_or_asked (some b) default = ret b

py_qa_of : Bool → Option Bool → W Bool
unfolding flag_or_asked
py_qa_of true given = ret false
py_qa_of false given = flag_or_asked given true

cc_qa_of : Bool → Option Bool → Bool → W Bool
unfolding flag_or_asked
cc_qa_of true given default = flag_or_asked given default
cc_qa_of false given default = ret false

-- `ModToolAdd.setup`
unfoldable pub setup_add : Place → Templates → AddOptions → List Text → W AddInfo
unfolding setup blocktype_of blockname_of check_name choose_license given_or_asked py_qa_of cc_qa_of
setup_add place t options args = do
  s ← setup place options.common
  blocktype ← blocktype_of options.block_type
  has_subdir s (lang_of options.lang)
  blockname ← blockname_of s.blockname args
  check_name blockname
  license ← choose_license place t options.license_file
  arglist ← given_or_asked options.argument_list
  py_qa ← py_qa_of (contains blocktype (codes "noblock") || s.skip_python) options.add_python_qa
  cc_qa ← cc_qa_of (is_cpp (lang_of options.lang)) options.add_cpp_qa (not py_qa)
  ret (record {
    settings = s;
    directory = options.common.directory;
    blocktype = blocktype;
    lang = lang_of options.lang;
    blockname = blockname;
    fullblockname = s.modname ++ b'_' ∷ blockname;
    license = license;
    arglist = arglist;
    add_py_qa = py_qa;
    add_cc_qa = cc_qa;
    skip_cmakefiles = options.skip_cmakefiles || text_eq s.version (codes "autofoo");
  })
