-- ===== src/Modtool/AddTests.antt =====
-- Examples for `add` and the functions at the top of gr_modtool.py.
use hachoir.Prelude.{
  true, false, some, none, [], ◌∷◌, ◌++◌, Text, codes, ◌≡◌, refl, text_eq, map, split,
}
use hachoir.Re.{Regex, text, dot, star, char, ◌⊳◌, bol, find_all, sub, sub_once, search_text}
use hachoir.Cmake.{check_for_glob, append_value}
use hachoir.Modtool.World.{World, ok, stop, eof_error, lookup, store, write}
use hachoir.Modtool.Base.{Place, Settings}
use hachoir.Modtool.Add.{Templates, AddInfo, blocktype_of}
use hachoir.Modtool.AddLib.{write_tpl}
use hachoir.Modtool.AddRun.{run_add}
use hachoir.Modtool.Util.{
  str_to_python_comment, append_re_line_sequence, strip_arg_types, str_to_fancyc_comment,
}
use hachoir.Modtool.Answers.{blocktype_of_answers}
use hachoir.Modtool.Comments.{split-str_to_python_comment}
use hachoir.Re.First.{absent}
use hachoir.Modtool.Listed
use hachoir.Modtool.Listed.{HasEntry, Gains, add_entries_lists}
use hachoir.Modtool.AddLib.{add_entries, cminclude, cmlib, fname_cc, fname_h}
use hachoir.Modtool.Pasted.{doubled, append_re_line_twice, append_re_line_once}
use hachoir.Modtool.Written.{run_add-keeps}

abbrev place : Place
place = record { entries = none; is_file = λ path. false; is_dir = λ path. false }

abbrev templates : Templates
templates = record {
  defaultlicense = codes "(c)";
  fill = λ tpl g info. tpl ++ info.blockname;
  qa_cmakeentry36 = λ basename filename modname. filename;
}

abbrev settings : Settings
settings = record {
  modname = codes "howto";
  version = codes "37";
  blockname = none;
  skip_lib = false;
  skip_python = false;
  skip_swig = true;
  skip_grc = false;
  includedir = codes "include/howto";
  swig = none;
  qalib = codes "lib/qa_howto.cc";
  pyinit = codes "python/__init__.py";
}

abbrev info : AddInfo
info = record {
  settings = settings;
  directory = codes ".";
  blocktype = codes "sync";
  lang = codes "python";
  blockname = codes "sq";
  fullblockname = codes "howto_sq";
  license = codes "(c)";
  arglist = [];
  add_py_qa = false;
  add_cc_qa = false;
  skip_cmakefiles = false;
}

abbrev world : World
world = record {
  files =
      (codes "README", codes "howto")
      ∷ (codes "python/__init__.py", codes "from a import a\n")
      ∷ (codes "python/CMakeLists.txt", codes "GR_PYTHON_INSTALL(a.py DESTINATION p)")
      ∷ (codes "grc/CMakeLists.txt", codes "install(a.xml DESTINATION g)")
      ∷ [];
  answers = [];
}

run_add-keeps_example :
    lookup (codes "README") (run_add place templates info world).1.files
    ≡ lookup (codes "README") world.files
unfolding text_eq
run_add-keeps_example =
    run_add-keeps place templates info (codes "README") world
      (refl, (refl, (refl, (refl, (refl, tt))))) (refl, (refl, (refl, (refl, (refl, tt)))))
      (refl, (refl, (refl, (refl, tt)))) (refl, (refl, tt)) tt

-- the entries that it gets
run_add_test :
    let files = (run_add place templates info world).1.files in
    (lookup (codes "python/__init__.py") files
      ≡ some (codes "from a import a\nfrom sq import sq\n"))
    × (lookup (codes "grc/howto_sq.xml") files ≡ some (codes "grc_xmlsq"))
    × (lookup (codes "grc/CMakeLists.txt") files
        ≡ some (codes "install(a.xml\n    howto_sq.xml DESTINATION g)"))
unfolding run_add text_eq lookup find_all sub_once write_tpl write append_re_line_sequence store
    check_for_glob search_text append_value
run_add_test = (refl, refl, refl)

abbrev bare : World
bare = record { files = []; answers = [] }

blocktype_of_answers_example :
    (blocktype_of none
        (record bare { answers = codes "synk" ∷ codes "" ∷ codes "sync" ∷ codes "y" ∷ [] })
      ≡ (ok (codes "sync"), record bare { answers = codes "y" ∷ [] }))
    × (blocktype_of none (record bare { answers = codes "synk" ∷ codes "" ∷ [] })
        ≡ (stop eof_error, record bare { answers = [] }))
unfolding text_eq
blocktype_of_answers_example =
    blocktype_of_answers (codes "synk" ∷ codes "" ∷ []) (codes "sync") (codes "y" ∷ []) bare refl
      refl

split-str_to_python_comment_test :
    split b'\n' (str_to_python_comment (codes "a\n\nb"))
    ≡ map (λ line. codes "# " ++ line) (split b'\n' (codes "a\n\nb"))
split-str_to_python_comment_test = split-str_to_python_comment (codes "a\n\nb")

abbrev include_regex : Regex
include_regex = bol ⊳ text (codes "#include") ⊳ star dot ⊳ char b'\n'

abbrev swig_text : Text
swig_text = doubled (codes "#include \"a.h\"\n") (codes "%{\n") (codes "%}\n") (codes "x")

append_re_line_twice_test :
    append_re_line_sequence
      (codes "a.i")
      include_regex
      (codes "#include \"b.h\"")
      (record bare { files = (codes "a.i", swig_text) ∷ [] })
    ≡ (
      ok tt,
      record bare {
        files =
            store
              (codes "a.i")
              (doubled
                (codes "#include \"a.h\"\n" ++ codes "#include \"b.h\"" ++ codes "\n")
                (codes "%{\n")
                (codes "%}\n")
                (codes "x"))
              ((codes "a.i", swig_text) ∷ []);
      },
    )
unfolding lookup text_eq find_all
append_re_line_twice_test =
    append_re_line_twice (codes "a.i") include_regex (codes "#include \"b.h\"") b'#'
      (codes "include \"a.h\"\n") (codes "%{\n") (codes "%}\n") (codes "x")
      (codes "#include \"a.h\"\n") (codes "#include \"a.h\"\n" ∷ [])
      (record bare { files = (codes "a.i", swig_text) ∷ [] }) refl refl refl refl refl

abbrev once_text : Text
once_text = codes "%{\n#include \"a.h\"\n" ++ (codes "#include \"b.h\"\n" ++ codes "%}\n")

append_re_line_once_example :
    append_re_line_sequence
      (codes "a.i")
      include_regex
      (codes "#include \"c.h\"")
      (record bare { files = (codes "a.i", once_text) ∷ [] })
    ≡ (
      ok tt,
      record bare {
        files =
            store
              (codes "a.i")
              (codes "%{\n#include \"a.h\"\n"
                ++ ((codes "#include \"b.h\"\n" ++ codes "#include \"c.h\"" ++ codes "\n")
                    ++ codes "%}\n"))
              ((codes "a.i", once_text) ∷ []);
      },
    )
unfolding lookup text_eq find_all absent
append_re_line_once_example =
    append_re_line_once (codes "a.i") include_regex (codes "#include \"c.h\"") b'#'
      (codes "include \"b.h\"\n") (codes "%{\n#include \"a.h\"\n") (codes "%}\n")
      (codes "#include \"a.h\"\n") (codes "#include \"b.h\"\n" ∷ [])
      (record bare { files = (codes "a.i", once_text) ∷ [] }) refl refl refl refl refl

strip_arg_types_test : strip_arg_types (codes "int a, float b = 2.0") ≡ codes "a, b"
unfolding strip_arg_types sub
strip_arg_types_test = refl

str_to_fancyc_comment_test : str_to_fancyc_comment (codes "a\nb") ≡ some (codes "/* a\n * b\n */\n")
unfolding str_to_fancyc_comment
str_to_fancyc_comment_test = refl

abbrev library_text : Text
library_text = codes "include(x)\nadd_library(howto a.cc)\n"

abbrev headers_text : Text
headers_text = codes "install(FILES\n    a.h\n    DESTINATION include/howto\n)\n"

abbrev listed_world : World
listed_world = record bare {
  files =
      (codes "lib/CMakeLists.txt", library_text)
      ∷ (codes "include/howto/CMakeLists.txt", headers_text)
      ∷ [];
}

library_entry : HasEntry (codes "add_library") [] library_text
unfolding absent
library_entry = record {
  pre = codes "include(x)\n";
  body = codes "howto a.cc";
  white = [];
  post = codes "\n";
  is = refl;
  first = refl;
  plain = refl;
  closed = refl;
  blank = refl;
}

headers_entry :
    HasEntry (codes "install") (Listed.place b' ' (codes "include/howto\n")) headers_text
unfolding absent
headers_entry = record {
  pre = [];
  body = codes "FILES\n    a.h";
  white = codes "\n    ";
  post = codes "\n";
  is = refl;
  first = refl;
  plain = refl;
  closed = refl;
  blank = refl;
}

add_entries_lists_example :
    (t' : Text) × (u' : Text) × (add_entries info listed_world ≡ (
      ok tt,
      record listed_world { files = store (cminclude info) u' (store cmlib t' listed_world.files) },
    ))
    × Gains (codes "add_library") [] (fname_cc info) library_text t' library_entry
    × Gains
        (codes "install")
        (Listed.place b' ' (codes "include/howto\n"))
        (fname_h info)
        headers_text
        u'
        headers_entry
unfolding lookup text_eq absent library_entry headers_entry
add_entries_lists_example =
    add_entries_lists info listed_world library_text headers_text b' ' (codes "include/howto\n")
      refl refl refl library_entry headers_entry (record { before = refl; behind = refl }) refl
