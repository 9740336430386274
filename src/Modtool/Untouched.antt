-- ===== src/Modtool/Untouched.antt =====
-- What `ModToolDisable` leaves alone.
use hachoir.Prelude.{
  Bool, true, false, ◌&&◌, Option, none, some, List, [], ◌∷◌, Text, codes, ◌≡◌, refl, text_eq,
  Bool-cases, inl, inr, path_join, is_some,
}
use hachoir.Re.{Regex, match_at, start}
use hachoir.Cmake.{find_filenames_match}
use hachoir.Modtool.World.{World, lookup, W, ◌>>=◌, ◌>>◌, ret, read, write}
use hachoir.Modtool.Choice.{Info, swig_file, ask}
use hachoir.Modtool.Keeps.{Keeps, Keeps-bind, Keeps-ask, Keeps-on_verdict, Keeps-read, Keeps-write}
use hachoir.Modtool.Disable.{
  Rule, handle_py_qa, edit_init, handle_py_mod, handle_cc_qa, handle_h_swig, handle_i_swig,
  special_treatments, treat, disable_files, directory_of, disable_in, disable_subdir, run,
}

-- the three files that the special rules edit
abbrev pub IsOther : Info → Text → Type 0
IsOther info k =
    (text_eq info.pyinit k ≡ false)
    × (text_eq info.qalib k ≡ false)
    × ((f : Text) → info.swig ≡ some f → text_eq f k ≡ false)

abbrev pub makefile : Info → Text → Text
makefile info subdir = path_join (directory_of info subdir) (codes "CMakeLists.txt")

abbrev Good : Info → Text → Rule → Type 0
Good info k rule = (fname cfile : Text) → Keeps k (rule info fname cfile)

Good-py_mod : (info : Info) (k : Text) → IsOther info k → Good info k handle_py_mod
unfolding handle_py_mod edit_init
Good-py_mod info k o fname cfile w = edit_init-Keeps (lookup info.pyinit w.files)
  where
    edit_init-Keeps :
        (t : Option Text) → lookup k (edit_init info fname cfile t w).1.files ≡ lookup k w.files
    edit_init-Keeps none = refl
    edit_init-Keeps (some t) =
        Keeps-bind k (write info.pyinit _) (λ u. ret (false, cfile))
          (Keeps-write k info.pyinit _ o.0) (λ u w. refl) w

Good-py_qa : (info : Info) (k : Text) → Good info k handle_py_qa
unfolding handle_py_qa
Good-py_qa info k fname cfile w = refl

Good-cc_qa : (info : Info) (k : Text) → IsOther info k → Good info k handle_cc_qa
unfolding handle_cc_qa
Good-cc_qa info k o fname cfile = elim (Bool-cases (text_eq info.version (codes "37"))) [
  | inl e ↦ rw e (
      Keeps-bind k (read info.qalib) _ (Keeps-read k info.qalib) (λ qa.
        Keeps-bind k (write info.qalib _) (λ u. ret _) (Keeps-write k info.qalib _ o.1)
          (λ u w. refl)))
  | inr e ↦ elim (Bool-cases (text_eq info.version (codes "36"))) [
    | inl e' ↦ rw (e, e') (λ w. refl)
    | inr e' ↦ rw (e, e') (λ w. refl)
  ]
]

-- reading the SWIG file and writing it again
abbrev edited_swig : Option Text → Text → (Text → Text) → W (Bool × Text)
edited_swig swig cfile edit = do
  f ← swig_file swig
  t ← read f
  write f (edit t)
  ret (false, cfile)

edit_swig :
    (info : Info) (k : Text) (cfile : Text) (edit : Text → Text)
    → IsOther info k
    → Keeps k (edited_swig info.swig cfile edit)
edit_swig info k cfile edit o = by_swig info.swig o.2
  where
    by_swig :
        (s : Option Text)
        → ((f : Text) → s ≡ some f → text_eq f k ≡ false)
        → Keeps k (edited_swig s cfile edit)
    by_swig none h = λ w. refl
    by_swig (some f) h = Keeps-bind k (read f) _ (Keeps-read k f) (λ t.
        Keeps-bind k (write f (edit t)) (λ u. ret (false, cfile))
          (Keeps-write k f (edit t) (h f refl)) (λ u w. refl))

Good-h_swig : (info : Info) (k : Text) → IsOther info k → Good info k handle_h_swig
unfolding handle_h_swig
Good-h_swig info k o fname cfile = edit_swig info k cfile _ o

Good-i_swig : (info : Info) (k : Text) → IsOther info k → Good info k handle_i_swig
unfolding handle_i_swig
Good-i_swig info k o fname cfile = edit_swig info k cfile _ o

abbrev AllGood : Info → Text → List (Text × (Regex × Rule)) → Type 0
AllGood info k [] = Unit
AllGood info k ((d, (regex, rule)) ∷ rules) = Good info k rule × AllGood info k rules

treat-Keeps :
    (info : Info) (k : Text) (rules : List (Text × (Regex × Rule)))
    → AllGood info k rules
    → (subdir fname : Text) (disabled : Bool) (cfile : Text)
    → Keeps k (treat rules info subdir fname disabled cfile)
unfolding treat
treat-Keeps info k [] g subdir fname disabled cfile = λ w. refl
treat-Keeps info k ((d, (regex, rule)) ∷ rules) g subdir fname disabled cfile =
    elim (Bool-cases (text_eq d subdir && is_some (match_at regex (start fname)))) [
      | inl e ↦ rw e (
          Keeps-bind k (rule info fname cfile) _ (g.0 fname cfile)
            (λ r. treat-Keeps info k rules g.1 subdir fname r.0 r.1))
      | inr e ↦ rw e (treat-Keeps info k rules g.1 subdir fname disabled cfile)
    ]

AllGood-special_treatments :
    (info : Info) (k : Text) → IsOther info k → AllGood info k (special_treatments info)
AllGood-special_treatments info k o = (
  Good-py_qa info k,
  (
    Good-py_mod info k o,
    (
      Good-cc_qa info k o,
      (Good-h_swig info k o, (Good-h_swig info k o, (Good-i_swig info k o, tt))),
    ),
  ),
)

disable_files-Keeps :
    (info : Info) (k : Text)
    → IsOther info k
    → (subdir : Text) (always : Bool) (cfile : Text) (fs : List Text)
    → Keeps k (disable_files info subdir always cfile fs)
unfolding disable_files
disable_files-Keeps info k o subdir always cfile [] = λ w. refl
disable_files-Keeps info k o subdir always cfile (fname ∷ fs) =
    Keeps-bind k (ask always) _ (Keeps-ask k always) (λ v.
      Keeps-on_verdict k v (disable_files info subdir always cfile fs) _
        (disable_files-Keeps info k o subdir always cfile fs)
        (λ later.
          Keeps-bind k (treat (special_treatments info) info subdir fname false cfile) _
            (treat-Keeps info k (special_treatments info) (AllGood-special_treatments info k o)
              subdir fname false cfile)
            (λ r. disable_files-Keeps info k o subdir later _ fs)))

disable_subdir-Keeps :
    (info : Info) (k : Text)
    → IsOther info k
    → (skipped : Bool) (subdir : Text) → text_eq (makefile info subdir) k ≡ false
    → Keeps k (disable_subdir info skipped subdir)
unfolding disable_subdir disable_in
disable_subdir-Keeps info k o true subdir h = λ w. refl
disable_subdir-Keeps info k o false subdir h =
    λ w. disable_in-Keeps (lookup (makefile info subdir) w.files) w
  where
    disable_in-Keeps : (t : Option Text) → Keeps k (disable_in info (directory_of info subdir) t)
    disable_in-Keeps none = λ w. refl
    disable_in-Keeps (some cfile) =
        Keeps-bind k
          (disable_files info (directory_of info subdir) info.yes cfile
            (find_filenames_match info.pattern cfile))
          (λ t. write (makefile info subdir) t)
          (disable_files-Keeps info k o (directory_of info subdir) info.yes cfile _)
          (λ t. Keeps-write k (makefile info subdir) t h)

-- the CMakeLists.txt of every directory that the command visits
abbrev pub visited : List Text
visited = codes "lib" ∷ codes "include" ∷ codes "python" ∷ codes "swig" ∷ codes "grc" ∷ []

-- the file is the CMakeLists.txt of none of the directories
abbrev pub IsSpared : Info → Text → List Text → Type 0
IsSpared info k [] = Unit
IsSpared info k (d ∷ ds) = (text_eq (makefile info d) k ≡ false) × IsSpared info k ds

-- Whatever the user answers, and however the run ends, `disable` changes no file but the
-- CMakeLists.txt of the five directories, the SWIG file, `__init__.py` and the file with the test
-- cases of the library.
pub run-keeps :
    (info : Info) (k : Text)
    → IsOther info k
    → IsSpared info k visited
    → (w : World) → lookup k (run info w).1.files ≡ lookup k w.files
unfolding run
run-keeps info k o h =
    Keeps-bind k (disable_subdir info info.skip_lib (codes "lib")) _
      (one info.skip_lib (codes "lib") h.0)
      (λ u.
        Keeps-bind k (disable_subdir info info.skip_include (codes "include")) _
          (one info.skip_include (codes "include") h.1.0)
          (λ u.
            Keeps-bind k (disable_subdir info info.skip_python (codes "python")) _
              (one info.skip_python (codes "python") h.1.1.0)
              (λ u.
                Keeps-bind k (disable_subdir info info.skip_swig (codes "swig")) _
                  (one info.skip_swig (codes "swig") h.1.1.1.0)
                  (λ u. one info.skip_grc (codes "grc") h.1.1.1.1.0))))
  where
    one :
        (b : Bool) (subdir : Text)
        → text_eq (makefile info subdir) k ≡ false
        → Keeps k (disable_subdir info b subdir)
    one b subdir = disable_subdir-Keeps info k o b subdir
