-- ===== src/Modtool/Written.antt =====
-- Which files `ModToolAdd.run` may write.
pub mod Edits
use hachoir.Prelude.{
  Bool, true, false, ◌&&◌, Option, none, some, List, [], ◌∷◌, ◌++◌, Text, codes, ◌≡◌, refl, arith,
  text_eq, text_eq_iff, text_in, Each, if◌then◌else◌, path_join, Bool-cases, inl, inr,
}
use hachoir.Modtool.World.{World, lookup, W, read, ◌>>=◌, ◌>>◌, ret}
use hachoir.Modtool.Base.{Place}
use hachoir.Modtool.Choice.{swig_file}
use hachoir.Modtool.Util.{append}
use hachoir.Modtool.Add.{AddInfo, Templates}
use hachoir.Modtool.Written.Edits.{
  Spares, Spares, Spares-bind, Spares-read, Spares-write, Spares-ret, Spares-when, Spares-unless,
  Spares-if, Spares-then, Spares-try_io, Spares-append, Spares-append_re_line_sequence,
  Spares-edit_file, Spares-get_template, Spares-write_tpl,
}
use hachoir.Modtool.AddLib.{
  write_sources, add_entries, add_qa, add_qa36, write_tpl, fname_h, fname_cc, cmlib, cminclude,
  add_qa_lines, run_lib, get_template,
}
use hachoir.Modtool.AddRun.{
  edit_swig, add_include, cmpython, cmgrc, run_swig, run_python, run_python_qa, run_grc, run_add,
}

abbrev lib : Text → Text
lib name = path_join (codes "lib") name

abbrev pub sources : AddInfo → List Text
sources info =
    lib (info.blockname ++ codes "_impl.h")
    ∷ lib (fname_cc info)
    ∷ path_join info.settings.includedir (fname_h info)
    ∷ cmlib
    ∷ cminclude info
    ∷ []

abbrev pub tests : AddInfo → List Text
tests info =
    lib (codes "qa_" ++ info.blockname ++ codes ".cc")
    ∷ lib (codes "qa_" ++ info.blockname ++ codes ".h")
    ∷ lib (codes "qa_" ++ info.fullblockname ++ codes ".cc")
    ∷ info.settings.qalib
    ∷ cmlib
    ∷ []

abbrev pub python_files : AddInfo → List Text
python_files info =
    path_join (codes "python") (info.blockname ++ codes ".py")
    ∷ path_join (codes "python") (codes "qa_" ++ info.blockname ++ codes ".py")
    ∷ info.settings.pyinit
    ∷ cmpython
    ∷ []

abbrev pub grc_files : AddInfo → List Text
grc_files info = path_join (codes "grc") (info.fullblockname ++ codes ".xml") ∷ cmgrc ∷ []

abbrev pub swig_files : Option Text → List Text
swig_files none = []
swig_files (some f) = f ∷ []

abbrev pub Off : Text → List Text → Type 0
Off k fs = Each (λ f. text_eq f k ≡ false) fs

module _ (k : Text) (t : Templates) (info : AddInfo) where
  Spares-write_sources :
      (is_new : Bool) → Off k (sources info) → Spares k (write_sources is_new t info)
  unfolding write_sources
  Spares-write_sources true (impl, (cc, (h, o))) =
      Spares-then k _ _
        (Spares-when k _ (write_tpl t info (codes "block_impl_h") (codes "lib") _)
          (Spares-write_tpl k t info _ (codes "lib") _ impl))
        (Spares-then k (write_tpl t info (codes "block_impl_cpp") (codes "lib") (fname_cc info)) _
          (Spares-write_tpl k t info _ (codes "lib") _ cc)
          (Spares-write_tpl k t info _ info.settings.includedir _ h))
  Spares-write_sources false (impl, (cc, (h, o))) =
      Spares-then k (write_tpl t info (codes "block_h36") info.settings.includedir (fname_h info)) _
        (Spares-write_tpl k t info _ info.settings.includedir _ h)
        (Spares-write_tpl k t info _ (codes "lib") _ cc)

  Spares-add_entries : Off k (sources info) → Spares k (add_entries info)
  unfolding add_entries
  Spares-add_entries (impl, (cc, (h, (cm, (inc, o))))) =
      Spares-then k _ _ (Spares-edit_file k cmlib _ cm) (Spares-edit_file k (cminclude info) _ inc)

  Spares-add_qa_lines : Off k (tests info) → Spares k (add_qa_lines info)
  unfolding add_qa_lines
  Spares-add_qa_lines (cc, (h, (full, (qalib, (cm, o))))) =
      Spares-then k _ _ (Spares-append_re_line_sequence k cmlib _ _ cm) (
        Spares-then k _ _ (Spares-append_re_line_sequence k info.settings.qalib _ _ qalib)
          (Spares-append_re_line_sequence k info.settings.qalib _ _ qalib))

  Spares-add_qa : Off k (tests info) → Spares k (add_qa t info)
  unfolding add_qa
  Spares-add_qa (cc, (h, o)) = Spares-then k _ _ (Spares-write_tpl k t info _ (codes "lib") _ cc) (
      Spares-then k _ _ (Spares-write_tpl k t info _ (codes "lib") _ h)
        (Spares-unless k _ _ (Spares-try_io k _ (Spares-add_qa_lines (cc, (h, o))))))

  Spares-add_qa36 : Off k (tests info) → Spares k (add_qa36 t info)
  unfolding add_qa36
  Spares-add_qa36 (cc, (h, (full, (qalib, (cm, o))))) =
      Spares-then k _ _ (Spares-write_tpl k t info _ (codes "lib") _ full) (
        Spares-unless k _ _
          (Spares-then k _ _ (Spares-append k cmlib _ cm) (Spares-edit_file k cmlib _ cm)))

  Spares-run_lib : Off k (sources info) → Off k (tests info) → Spares k (run_lib t info)
  unfolding run_lib
  Spares-run_lib s q = Spares-then k _ _ (Spares-write_sources _ s) (
      Spares-then k _ _ (Spares-unless k _ _ (Spares-add_entries s)) (
        Spares-when k _ _
          (Spares-if k _ _ _ (Spares-add_qa q) (Spares-when k _ _ (Spares-add_qa36 q)))))

  Spares-run_python : Off k (python_files info) → Spares k (run_python t info)
  unfolding run_python
  Spares-run_python (py, (qa, (init, (cm, o)))) =
      Spares-then k _ _ (Spares-write_tpl k t info _ (codes "python") _ py) (
        Spares-then k _ _ (Spares-append_re_line_sequence k info.settings.pyinit _ _ init)
          (Spares-unless k _ _ (Spares-edit_file k cmpython _ cm)))

  Spares-run_python_qa : Off k (python_files info) → Spares k (run_python_qa t info)
  unfolding run_python_qa
  Spares-run_python_qa (py, (qa, (init, (cm, o)))) =
      Spares-then k _ _ (Spares-write_tpl k t info _ (codes "python") _ qa) (
        Spares-unless k _ _ (
          Spares-bind k (read cmpython) _ (Spares-read k cmpython)
            (λ cfile. Spares-unless k _ _ (Spares-append k cmpython _ cm))))

  Spares-run_grc : Off k (grc_files info) → Spares k (run_grc t info)
  unfolding run_grc
  Spares-run_grc (xml, (cm, o)) =
      Spares-then k _ _ (Spares-write_tpl k t info _ (codes "grc") _ xml) (
        Spares-bind k (read cmgrc) _ (Spares-read k cmgrc)
          (λ cfile. Spares-unless k _ _ (Spares-write k cmgrc _ cm)))

  Spares-swig_file :
      {A : Type 0} (s : Option Text) (f : Text → W A)
      → Off k (swig_files s)
      → ((n : Text) → text_eq n k ≡ false → Spares k (f n))
      → Spares k (swig_file s >>= f)
  unfolding Spares
  Spares-swig_file none f o h = λ w. refl
  Spares-swig_file (some n) f (e, o) h = h n e

  Spares-add_include :
      (swig text' : Text) → text_eq swig k ≡ false → Spares k (add_include info swig text')
  unfolding add_include
  Spares-add_include swig text' e =
      Spares-if k _ _ _ (Spares-append_re_line_sequence k swig _ _ e) (Spares-write k swig _ e)

  Spares-edit_swig :
      (main : Option Text)
      → Off k (swig_files info.settings.swig)
      → Spares k (edit_swig t info main)
  unfolding edit_swig
  Spares-edit_swig none o = Spares-ret k tt
  Spares-edit_swig (some f) o = Spares-swig_file info.settings.swig _ o (λ swig e.
      Spares-bind k (get_template t (codes "swig_block_magic") info) _
        (Spares-get_template k t _ info)
        (λ magic. Spares-then k (append swig magic) _ (Spares-append k swig magic e) (
          Spares-bind k (read swig) _ (Spares-read k swig)
            (λ text'. Spares-add_include swig text' e))))

  Spares-run_swig :
      (place : Place) → Off k (swig_files info.settings.swig) → Spares k (run_swig place t info)
  unfolding run_swig
  Spares-run_swig place o = Spares-edit_swig _ o

  Spares-run_add :
      (place : Place)
      → Off k (sources info)
      → Off k (tests info)
      → Off k (python_files info)
      → Off k (grc_files info)
      → Off k (swig_files info.settings.swig)
      → Spares k (run_add place t info)
  unfolding run_add
  Spares-run_add place s q p g i =
      Spares-then k _ _
        (Spares-if k (text_eq info.lang (codes "cpp")) _ _ (Spares-run_lib s q)
          (Spares-run_python p))
        (Spares-then k _ _ (Spares-when k _ _ (Spares-run_swig place i)) (
          Spares-then k _ _ (Spares-when k _ _ (Spares-run_python_qa p))
            (Spares-when k _ _ (Spares-run_grc g))))

-- `add` writes no file but the sources and headers of the block, its tests, its Python module, its
-- description for GRC, the CMakeLists.txt files of `lib`, the include directory, `python` and `grc`,
-- the test file of the library, `__init__.py`, and the SWIG file, however the run ends.
pub run_add-keeps :
    (place : Place) (t : Templates) (info : AddInfo) (k : Text) (w : World)
    → Off k (sources info)
    → Off k (tests info)
    → Off k (python_files info)
    → Off k (grc_files info)
    → Off k (swig_files info.settings.swig)
    → lookup k (run_add place t info w).1.files ≡ lookup k w.files
unfolding Spares
run_add-keeps place t info k w s q p g i = run_add-Spares w
  where
    run_add-Spares : Spares k (run_add place t info)
    run_add-Spares = Spares-run_add k t info place s q p g i
