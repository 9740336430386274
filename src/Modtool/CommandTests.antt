-- ===== src/Modtool/CommandTests.antt =====
-- Examples for `newmod`, the dictionary of commands, and `main`.
use hachoir.Prelude.{Text, List, true, false, some, none, [], ◌∷◌, ◌++◌, codes, ◌≡◌, refl, text_eq}
use hachoir.Re.{text}
use hachoir.Modtool.World.{World, ok, stop, lookup, exit}
use hachoir.Modtool.Base.{Place}
use hachoir.Modtool.Add.{Templates, blockname_of, check_name}
use hachoir.Modtool.Util.{get_command_from_argv}
use hachoir.Modtool.Info.{Tree}
use hachoir.Modtool.NewModule.{setup_new, renamed, convert_files}
use hachoir.Modtool.Main.{Tool, get_class_dict, find, Setting, execute, main}
use hachoir.Modtool.Dispatch.{all_tools, owner, among, find-get_class_dict}
use hachoir.Modtool.Arguments.{main_command}
use hachoir.Modtool.Converted.{Holds, new_path, convert_files_lem}

abbrev place : Place
place = record { entries = none; is_file = λ path. false; is_dir = λ path. false }

abbrev templates : Templates
templates = record {
  defaultlicense = codes "(c)";
  fill = λ tpl g info. tpl ++ info.blockname;
  qa_cmakeentry36 = λ basename filename modname. filename;
}

abbrev bare : World
bare = record { files = []; answers = [] }

-- two files of the archive, and another
abbrev archive_files : List (Text × Text)
archive_files = (codes "qa_howto.cc", codes "HOWTO_howto") ∷ (codes "a.cc", codes "x") ∷ []

abbrev unpacked : World
unpacked = record {
  files =
      (codes "./lib/qa_howto.cc", codes "HOWTO_howto")
      ∷ (codes "./README", codes "howto")
      ∷ (codes "./lib/a.cc", codes "x")
      ∷ [];
  answers = [];
}

convert_files_lem_example :
    ((convert_files
        (codes "sq")
        (codes "./lib")
        (codes "qa_howto.cc" ∷ codes "a.cc" ∷ [])
        unpacked).0
      ≡ ok tt)
    × Holds
        (codes "sq")
        (codes "./lib")
        (convert_files
          (codes "sq")
          (codes "./lib")
          (codes "qa_howto.cc" ∷ codes "a.cc" ∷ [])
          unpacked).1
        (new_path (codes "sq") (codes "./lib"))
        (renamed (codes "sq"))
        archive_files
    × (lookup
          (codes "./README")
          (convert_files
            (codes "sq")
            (codes "./lib")
            (codes "qa_howto.cc" ∷ codes "a.cc" ∷ [])
            unpacked).1.files
        ≡ some (codes "howto"))
unfolding text_eq lookup
convert_files_lem_example =
    convert_files_lem (codes "sq") (codes "./lib") archive_files (codes "./README") unpacked
      (refl, (refl, tt)) (((refl, refl), tt), ((refl, refl), tt), (tt, tt, tt))
      ((refl, refl), ((refl, refl), tt))

find-get_class_dict_example :
    find (codes "nm") (get_class_dict all_tools []) ≡ among all_tools (owner (codes "nm"))
find-get_class_dict_example = find-get_class_dict (codes "nm") all_tools

abbrev tree : Tree
tree = record {
  entries = λ d. none;
  is_file = λ d. false;
  is_dir = λ d. false;
  walk = λ d. [];
  abspath = λ d. d;
  normpath = λ d. d;
}

abbrev setting : Setting
setting = record {
  place = place;
  tree = tree;
  archive = record { exists = λ d. true; can_make = λ d. false; files = []; walk = [] };
  templates = templates;
  compile = λ t. text t;
  prettyprint = λ e. [];
  options = record {
    common = record {
      directory = codes ".";
      module_name = some (codes "sq");
      block_name = none;
      skip_lib = false;
      skip_python = false;
      skip_swig = false;
      skip_grc = false;
    };
    block_type = none;
    license_file = none;
    argument_list = none;
    add_python_qa = none;
    add_cpp_qa = none;
    skip_cmakefiles = false;
    lang = codes "cpp";
  };
  pattern = none;
  all_yes = false;
  suggested_dirs = none;
  args = [];
}

main_command_example :
    main all_tools (codes "gr_modtool.py" ∷ codes "-y" ∷ codes "nm" ∷ codes "sq" ∷ []) setting bare
    ≡ execute setting
        (get_class_dict all_tools [])
        (codes "gr_modtool.py" ∷ codes "-y" ∷ codes "nm" ∷ codes "sq" ∷ [])
        Tool.newmod
        bare
unfolding owner text_eq
main_command_example =
    main_command all_tools (codes "gr_modtool.py" ∷ codes "-y" ∷ codes "nm" ∷ codes "sq" ∷ [])
      setting bare refl

-- the directory of the new module exists
main_test :
    main all_tools (codes "gr_modtool.py" ∷ codes "nm" ∷ []) setting bare ≡ (stop (exit 2), bare)
unfolding main text_eq get_command_from_argv setup_new blockname_of check_name
main_test = refl
