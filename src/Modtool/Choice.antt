-- ===== src/Modtool/Choice.antt =====
-- What `ModToolRemove` and `ModToolDisable` of gr_modtool.py share: their settings, and the question
-- that is asked for each file.
use hachoir.Prelude.{
  Bool, true, false, Option, none, some, List, [], ◌∷◌, Text, codes, text_eq, if◌then◌else◌, strip,
  map, lower,
}
use hachoir.Re.{Regex}
use hachoir.Modtool.World.{exit, key_error, W, ◌>>=◌, ret, raise, raw_input}
use hachoir.Modtool.Base.{Place, Options, setup}

-- what `rm` and `disable` work with: the pattern and the flag of `_info` besides the settings
pub record Info : Type 0 where
  pub modname : Text
  pub version : Text
  pub includedir : Text
  pub pattern : Regex
  pub yes : Bool
  pub skip_lib : Bool
  pub skip_include : Bool
  pub skip_swig : Bool
  pub skip_python : Bool
  pub skip_grc : Bool
  pub qalib : Text
  pub swig : Option Text
  pub pyinit : Text

-- the text of the pattern: the option, the name of the block, the second argument, or an answer
pattern_text : Option Text → Option Text → List Text → W Text
unfolding raw_input
pattern_text (some p) block args = ret p
pattern_text none (some b) args = ret b
pattern_text none none (a ∷ (b ∷ args)) = ret b
pattern_text none none _ = raw_input

abbrev or_any : Text → Text
or_any [] = codes "."
or_any (c ∷ cs) = c ∷ cs

-- `setup` of `rm` and `disable`, for `re.compile`
unfoldable pub setup_pattern :
    (Text → Regex) → Place → Options → Option Text → Bool → List Text → W Info
unfolding setup pattern_text
setup_pattern compile place options pattern always args = do
  s ← setup place options
  p ← pattern_text pattern options.block_name args
  ret (record {
    modname = s.modname;
    version = s.version;
    includedir = s.includedir;
    pattern = compile (or_any p);
    yes = always;
    skip_lib = s.skip_lib;
    skip_include = false;
    skip_swig = s.skip_swig;
    skip_python = s.skip_python;
    skip_grc = s.skip_grc;
    qalib = s.qalib;
    swig = s.swig;
    pyinit = s.pyinit;
  })

-- `self._file['swig']`
abbrev pub swig_file : Option Text → W Text
swig_file none = raise key_error
swig_file (some f) = ret f

-- what the answer to the question about a file decides
pub data Verdict : Type 0 where
  -- go on with the file, with the flag `yes` from then on
  proceed : Bool → Verdict
  skip : Verdict

abbrev pub judged : Text → W Verdict
judged ans =
    if text_eq ans (codes "q")
    then raise (exit 0)
    else if text_eq ans (codes "n")
    then ret skip
    else ret (proceed (text_eq ans (codes "a")))

-- the question that is asked before a file is deleted or disabled
unfoldable pub ask : Bool → W Verdict
unfolding raw_input
ask true = ret (proceed true)
ask false = do ans ← raw_input; judged (strip (map lower ans))

abbrev pub on_verdict : {A : Type 0} → Verdict → W A → (Bool → W A) → W A
on_verdict skip m f = m
on_verdict (proceed always) m f = f always
