-- ===== src/Modtool/MakeXml.antt =====
-- `ModToolMakeXML` of gr_modtool.py: from the C++ files of blocks to their descriptions for GRC.
use hachoir.Prelude.{
  Bool, true, false, not, ◌&&◌, Option, none, some, List, [], ◌∷◌, ◌++◌, Text, codes, text_eq,
  if◌then◌else◌, basename, splitext_root, replace, drop_prefix, is_some, path_join,
}
use hachoir.Re.{Regex, none_of, text, plus, as_pattern, ◌⊳◌, search_text}
use hachoir.CcParser.Params
use hachoir.CcParser.Params.{
  Outcome, Crash, exit_zero, index_crash, attribute_crash, type_crash, value_crash, key_crash,
  diverges, GrcParam, type_translate, read_params,
}
use hachoir.CcParser.IoSignature.{Ports, IoSig, read_io_signature}
use hachoir.Grc.{Element, make_xml}
use hachoir.Cmake.{append_value, check_for_glob}
use hachoir.Modtool.World.{
  World, Stop, exit, key_error, attribute_error, index_error, type_error, value_error, stuck, ok, W,
  ◌>>=◌, ◌>>◌, ret, raise, read, write, lookup, glob,
}
use hachoir.Modtool.Choice.{Info}
use hachoir.Modtool.Remove.{candidates}

abbrev stop_of : Crash → Stop
stop_of (exit_zero e) = exit 0
stop_of index_crash = index_error
stop_of attribute_crash = attribute_error
stop_of type_crash = type_error
stop_of value_crash = value_error
stop_of key_crash = key_error

abbrev pub lift : {A : Type 0} → Outcome A → W A
lift (Params.ret a) = ret a
lift (Params.crash c) = raise (stop_of c)
lift diverges = raise stuck

-- `t.replace(old, '', 1)`
abbrev pub without_first : Text → Text → Text
without_first old [] = []
without_first old (c ∷ cs) =
    let rest = without_first old cs in
    elim (drop_prefix old (c ∷ cs)) [ some behind ↦ behind | none ↦ c ∷ rest ]

abbrev without_impl : Text → Text
without_impl = replace (codes "_impl.") (codes ".")

-- `_get_blockdata`: the name of the block, and of its header
unfoldable pub get_blockdata : Text → Text → Text × Text
get_blockdata modname fname_cc =
    let root = splitext_root (basename (without_impl fname_cc)) in
    (without_first (modname ++ codes "_") root, without_impl (root ++ codes ".h"))

abbrev pub BlockData : Type 0
BlockData = List GrcParam × (IoSig × Text)

-- the parser on the two files; `sys.exit(1)` where one of them cannot be opened
unfoldable pub parsed : Info → Text → Option Text → Option Text → W BlockData
parsed info blockname (some code_cc) (some code_h) = do
  params ← lift (read_params type_translate info.version code_h)
  iosig ← lift (read_io_signature type_translate code_cc)
  ret (params, (iosig, blockname))
parsed info blockname _ _ = raise (exit 1)

unfoldable pub parse_cc_h : Info → Text → W BlockData
unfolding parsed get_blockdata
parse_cc_h info fname_cc w =
    let (blockname, fname_h) = get_blockdata info.modname fname_cc in
    parsed info blockname (lookup fname_cc w.files)
      (lookup (path_join info.includedir fname_h) w.files) w

-- an unlimited number of ports becomes a parameter of the block
abbrev pub number_of : Text → GrcParam
number_of inout = record {
  type = codes "int";
  key = codes "num_" ++ inout ++ codes "puts";
  default = codes "2";
  in_constructor = false;
}

abbrev pub unlimited : Ports → Bool
unlimited p = text_eq p.max_ports (codes "-1")

abbrev pub adapted_ports : Text → Ports → Ports
adapted_ports inout p =
    if unlimited p then record p { max_ports = codes "$num_" ++ inout ++ codes "puts" } else p

abbrev pub adapted_params : Text → Ports → List GrcParam → List GrcParam
adapted_params inout p params = if unlimited p then params ++ number_of inout ∷ [] else params

-- the loop over 'in' and 'out'; a signature that could not be read has no entry
unfoldable pub adapt : List GrcParam → Option Ports → Option Ports → W (List GrcParam × IoSig)
adapt params (some i) (some o) = ret (
  adapted_params (codes "out") o (adapted_params (codes "in") i params),
  record {
    ports_in = some (adapted_ports (codes "in") i);
    ports_out = some (adapted_ports (codes "out") o);
  },
)
adapt params _ _ = raise key_error

abbrev pub fname_xml : Text → Text → Text
fname_xml modname blockname = modname ++ b'_' ∷ blockname ++ codes ".xml"

-- 'DESTINATION[^()]+'
abbrev destination : Regex
destination = text (codes "DESTINATION") ⊳ plus (none_of (codes "()"))

-- the file is not named, and no glob takes it in
abbrev pub is_missing : Text → Text → Bool
is_missing fname cfile =
    not (is_some (search_text (as_pattern fname) cfile))
    && not (check_for_glob (codes "*.xml") cfile)

-- the entry in the CMakeLists.txt
unfoldable pub add_entry : Bool → Text → W (Unit {0})
add_entry true fname = ret tt
add_entry false fname = do
  cfile ← read (codes "grc/CMakeLists.txt")
  if is_missing fname cfile
      then write (codes "grc/CMakeLists.txt")
          (append_value (codes "\n    ") (codes "install") fname destination cfile)
      else ret tt

-- `_make_grc_xml_from_block_data`, for the serialiser of the element tree
unfoldable pub make_grc_xml : (Element → Text) → Info → BlockData → W (Unit {0})
unfolding adapt add_entry
make_grc_xml prettyprint info (params, (iosig, blockname)) = do
  a ← adapt params iosig.ports_in iosig.ports_out
  root ← lift (
      make_xml (record {
        modname = info.modname;
        blockname = blockname;
        doc = none;
        params = a.0;
        iosig = a.1;
      }))
  write (path_join (codes "grc") (fname_xml info.modname blockname)) (prettyprint root)
  add_entry info.skip_grc (fname_xml info.modname blockname)

-- `os.path.basename(f)[0:2] == 'qa'`
abbrev pub is_test : Text → Bool
is_test (a ∷ (b ∷ cs)) = text_eq (a ∷ b ∷ []) (codes "qa")
is_test _ = false

unfoldable pub make_all : (Element → Text) → Info → List Text → W (Unit {0})
unfolding parse_cc_h make_grc_xml
make_all prettyprint info [] = ret tt
make_all prettyprint info (f ∷ fs) =
    if is_test (basename f)
    then make_all prettyprint info fs
    else (parse_cc_h info f >>= λ d.
        make_grc_xml prettyprint info d >> make_all prettyprint info fs)

abbrev pub suffix_of : Text → Text
suffix_of version = if text_eq version (codes "37") then codes "_impl.cc" else codes ".cc"

abbrev pub search_files : Info → Text → Text → World → List Text
search_files info path suffix w = candidates info.pattern (glob path suffix w.files)

unfoldable pub run_lib : Bool → (Element → Text) → Info → W (Unit {0})
unfolding make_all
run_lib true prettyprint info w = (ok tt, w)
run_lib false prettyprint info w =
    make_all prettyprint info (search_files info (codes "lib") (suffix_of info.version) w) w

unfoldable pub run : (Element → Text) → Info → W (Unit {0})
unfolding run_lib
run prettyprint info = run_lib info.skip_lib prettyprint info
