-- ===== src/Modtool/Unmatched.antt =====
-- `ModToolRemove.run` of gr_modtool.py as a whole: the files that it leaves alone.
use hachoir.Prelude.{
  Bool, true, false, not, Option, none, some, List, [], ◌∷◌, ◌++◌, Text, codes, ◌≡◌, refl, arith,
  text_eq, text_eq_iff, ap, Each, Bool-cases, inl, inr, basename, is_some, all, splitext_root,
  splitext_ext,
}
use hachoir.Re.{Regex, search_text}
use hachoir.Modtool.World.{World, lookup, W, ◌>>=◌, ret, read, remove_pattern_from_file}
use hachoir.Modtool.Choice.{Info, swig_file}
use hachoir.Modtool.Keeps.{Keeps, Keeps-bind, Keeps-read, Keeps-write}
use hachoir.Modtool.Kept.{run_filtered-keeps}
use hachoir.Modtool.Untouched.{IsOther}
use hachoir.Modtool.Remove.{
  Edit, no_edit, candidates, cmakelists, run_subdir, is_qa, include_line, suite_line,
  remove_test_37, remove_cc_test_case, remove_py_test_case, make_swig_regex, remove_from_swig,
  remove_from_init, unless, Local, assigned, run_lib, run_include, run_swig, run_python, run_grc,
  run,
}

module _ (info : Info) (k : Text) (other : IsOther info k) where
  Keeps-remove_pattern :
      (f : Text) (pattern : Regex)
      → text_eq f k ≡ false
      → Keeps k (remove_pattern_from_file f pattern)
  unfolding remove_pattern_from_file
  Keeps-remove_pattern f pattern h =
      Keeps-bind k (read f) _ (Keeps-read k f) (λ t. Keeps-write k f _ h)

  Keeps-remove_test_37 : (filename cfile : Text) → Keeps k (remove_test_37 info filename cfile)
  unfolding remove_test_37
  Keeps-remove_test_37 filename cfile =
      elim (Bool-cases (text_eq (splitext_ext filename) (codes ".h"))) [
        | inl e ↦ rw e (
            Keeps-bind k (remove_pattern_from_file info.qalib (include_line filename)) _
              (Keeps-remove_pattern info.qalib _ other.1)
              (λ u.
                Keeps-bind k
                  (remove_pattern_from_file info.qalib
                    (suite_line info.modname (splitext_root filename)))
                  (λ v. ret cfile) (Keeps-remove_pattern info.qalib _ other.1) (λ v w. refl)))
        | inr e ↦ elim (Bool-cases (text_eq (splitext_ext filename) (codes ".cc"))) [
          | inl e' ↦ rw (e, e') (λ w. refl)
          | inr e' ↦ rw (e, e') (λ w. refl)
        ]
      ]

  Keeps-remove_cc_test_case :
      (filename cfile : Text) → Keeps k (remove_cc_test_case info filename cfile)
  unfolding remove_cc_test_case
  Keeps-remove_cc_test_case filename cfile = elim (Bool-cases (is_qa filename)) [
    | inl e ↦ elim (Bool-cases (text_eq info.version (codes "37"))) [
      | inl e' ↦ rw (e, e') (Keeps-remove_test_37 filename cfile)
      | inr e' ↦ rw (e, e') (λ w. refl)
    ]
    | inr e ↦ rw e (λ w. refl)
  ]

  Keeps-remove_from_swig : (fs : List Text) → Keeps k (remove_from_swig info fs)
  unfolding remove_from_swig
  Keeps-remove_from_swig [] = λ w. refl
  Keeps-remove_from_swig (f ∷ fs) = by_swig info.swig other.2 (Keeps-remove_from_swig fs)
    where
      by_swig :
          (s : Option Text)
          → ((g : Text) → s ≡ some g → text_eq g k ≡ false)
          → Keeps k (remove_from_swig info fs)
          → Keeps k (
              swig_file s >>= λ swig.
              remove_pattern_from_file swig (make_swig_regex info.modname f) >>= λ u.
              remove_from_swig info fs)
      by_swig none h r = λ w. refl
      by_swig (some g) h r =
          Keeps-bind k (remove_pattern_from_file g (make_swig_regex info.modname f)) _
            (Keeps-remove_pattern g _ (h g refl)) (λ u. r)

  Keeps-remove_from_init : (fs : List Text) → Keeps k (remove_from_init info fs)
  unfolding remove_from_init
  Keeps-remove_from_init [] = λ w. refl
  Keeps-remove_from_init (f ∷ fs) =
      Keeps-bind k (remove_pattern_from_file info.pyinit _) _
        (Keeps-remove_pattern info.pyinit _ other.0)
        (λ u.
          Keeps-bind k (remove_pattern_from_file info.pyinit _) _
            (Keeps-remove_pattern info.pyinit _ other.0) (λ v. Keeps-remove_from_init fs))

Keeps-remove_py_test_case : (k filename cfile : Text) → Keeps k (remove_py_test_case filename cfile)
unfolding remove_py_test_case
Keeps-remove_py_test_case k filename cfile = elim (Bool-cases (is_qa filename)) [
  | inl e ↦ rw e (λ w. refl)
  | inr e ↦ rw e (λ w. refl)
]

-- the pattern matches nowhere in the name of the file
abbrev pub is_unmatched : Regex → Text → Bool
is_unmatched pattern k = not (is_some (search_text pattern (basename k)))

-- A file with such a name is no candidate.
candidates-ne :
    (pattern : Regex) (k : Text) (fs : List Text)
    → is_unmatched pattern k ≡ true
    → all (λ f. not (text_eq f k)) (candidates pattern fs) ≡ true
candidates-ne pattern k [] h = refl
candidates-ne pattern k (f ∷ fs) h =
    elim (Bool-cases (is_some (search_text pattern (basename f)))) [
      | inl e ↦ rw e (ground (arith, distinct e, candidates-ne pattern k fs h))
      | inr e ↦ rw e (candidates-ne pattern k fs h)
    ]
  where
    distinct : is_some (search_text pattern (basename f)) ≡ true → text_eq f k ≡ false
    distinct e = elim (Bool-cases (text_eq f k)) [
      | inl q ↦
          absurd (cc (h, e, ap (λ (x : Text). is_unmatched pattern x) ((text_eq_iff f k).0 q)))
      | inr q ↦ q
    ]

Keeps-run_subdir :
    (info : Info) (k path : Text) (globs vars : List Text) (edit : Edit)
    → is_unmatched info.pattern k ≡ true
    → text_eq (cmakelists path) k ≡ false
    → ((b c : Text) → Keeps k (edit b c))
    → Keeps k (run_subdir info path globs vars edit)
unfolding run_subdir
Keeps-run_subdir info k path globs vars edit h c kept w =
    run_filtered-keeps k path vars edit kept (candidates info.pattern _)
      (candidates-ne info.pattern k _ h) c info.yes w

Keeps-unless : (k : Text) (b : Bool) (m : W (Unit {0})) → Keeps k m → Keeps k (unless b m)
Keeps-unless k true m h = λ w. refl
Keeps-unless k false m h = h

Keeps-assigned : (k : Text) (l : Local) → Keeps k (assigned l)
Keeps-assigned k none = λ w. refl
Keeps-assigned k (some fs) = λ w. refl

-- the directories that `rm` visits
abbrev pub directories : Info → List Text
directories info = codes "lib" ∷ info.includedir ∷ codes "swig" ∷ codes "python" ∷ codes "grc" ∷ []

module _ (info : Info) (k : Text) (other : IsOther info k) (h : is_unmatched info.pattern k ≡ true)
    (spared : Each (λ d. text_eq (cmakelists d) k ≡ false) (directories info)) where
  Keeps-run_lib : Keeps k (run_lib info)
  unfolding run_lib
  Keeps-run_lib =
      Keeps-bind k
        (run_subdir info (codes "lib") (codes ".cc" ∷ codes ".h" ∷ []) (codes "add_library" ∷ [])
          (remove_cc_test_case info))
        (λ u. ret tt)
        (Keeps-run_subdir info k (codes "lib") (codes ".cc" ∷ codes ".h" ∷ [])
          (codes "add_library" ∷ []) (remove_cc_test_case info) h spared.0
          (Keeps-remove_cc_test_case info k other))
        (λ u w. refl)

  Keeps-run_include : (b : Bool) → Keeps k (run_include info b)
  unfolding run_include
  Keeps-run_include true = λ w. refl
  Keeps-run_include false =
      Keeps-bind k
        (run_subdir info info.includedir (codes ".h" ∷ []) (codes "install" ∷ []) no_edit)
        (λ d. ret (some d))
        (Keeps-run_subdir info k info.includedir (codes ".h" ∷ []) (codes "install" ∷ []) no_edit h
          spared.1.0 (λ b c w. refl))
        (λ d w. refl)

  Keeps-run_swig : (deleted : Local) → Keeps k (run_swig info deleted)
  unfolding run_swig
  Keeps-run_swig deleted =
      Keeps-bind k (run_subdir info (codes "swig") (codes ".i" ∷ []) (codes "install" ∷ []) no_edit)
        (λ swig_files. assigned deleted >>= λ incl. remove_from_swig info (incl ++ swig_files))
        (Keeps-run_subdir info k (codes "swig") (codes ".i" ∷ []) (codes "install" ∷ []) no_edit h
          spared.1.1.0 (λ b c w. refl))
        (λ is.
          Keeps-bind k (assigned deleted) (λ incl. remove_from_swig info (incl ++ is))
            (Keeps-assigned k deleted) (λ hs. Keeps-remove_from_swig info k other (hs ++ is)))

  Keeps-run_python : Keeps k (run_python info)
  unfolding run_python
  Keeps-run_python =
      Keeps-bind k
        (run_subdir info (codes "python") (codes ".py" ∷ []) (codes "GR_PYTHON_INSTALL" ∷ [])
          remove_py_test_case)
        (remove_from_init info)
        (Keeps-run_subdir info k (codes "python") (codes ".py" ∷ [])
          (codes "GR_PYTHON_INSTALL" ∷ []) remove_py_test_case h spared.1.1.1.0
          (Keeps-remove_py_test_case k))
        (Keeps-remove_from_init info k other)

  Keeps-run_grc : Keeps k (run_grc info)
  unfolding run_grc
  Keeps-run_grc =
      Keeps-bind k
        (run_subdir info (codes "grc") (codes ".xml" ∷ []) (codes "install" ∷ []) no_edit)
        (λ u. ret tt)
        (Keeps-run_subdir info k (codes "grc") (codes ".xml" ∷ []) (codes "install" ∷ []) no_edit h
          spared.1.1.1.1.0 (λ b c w. refl))
        (λ u w. refl)

  -- Whatever the user answers, and however the run ends, `rm` changes no file whose name the
  -- pattern does not match, but the CMakeLists.txt of the five directories, the SWIG file,
  -- `__init__.py` and the file with the test cases of the library.
  pub run-keeps_unmatched : (w : World) → lookup k (run info w).1.files ≡ lookup k w.files
  unfolding run
  run-keeps_unmatched =
      Keeps-bind k (unless info.skip_lib (run_lib info)) _
        (Keeps-unless k info.skip_lib (run_lib info) Keeps-run_lib)
        (λ u.
          Keeps-bind k (run_include info info.skip_include) _ (Keeps-run_include info.skip_include)
            (λ deleted.
              Keeps-bind k (unless info.skip_swig (run_swig info deleted)) _
                (Keeps-unless k info.skip_swig (run_swig info deleted) (Keeps-run_swig deleted))
                (λ u.
                  Keeps-bind k (unless info.skip_python (run_python info)) _
                    (Keeps-unless k info.skip_python (run_python info) Keeps-run_python)
                    (λ u. Keeps-unless k info.skip_grc (run_grc info) Keeps-run_grc))))
