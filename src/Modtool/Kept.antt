-- ===== src/Modtool/Kept.antt =====
-- What the loop of `ModToolRemove` leaves alone, and what it does when the user quits.
use hachoir.Prelude.{
  Bool, true, false, not, some, List, [], ◌∷◌, ◌++◌, Text, codes, ◌≡◌, refl, ◌∙◌, arith, text_eq,
  basename, all, &&-true,
}
use hachoir.Modtool.World.{
  World, Files, lookup, discard, lookup-store, lookup-discard, exit, stop, ret, read, write, unlink,
  raw_input,
}
use hachoir.Modtool.Choice.{ask}
use hachoir.Modtool.Keeps.{Keeps, Keeps-bind, Keeps-ask, Keeps-on_verdict, Keeps-unlink, Keeps-read}
use hachoir.Modtool.Remove.{Edit, no_edit, remove_values, delete_files, cmakelists, run_filtered}

Keeps-delete_files :
    (k : Text) (vars : List Text) (edit : Edit)
    → ((b c : Text) → Keeps k (edit b c))
    → (fs : List Text) → all (λ f. not (text_eq f k)) fs ≡ true
    → (always : Bool) (cfile : Text) → Keeps k (delete_files vars edit always cfile fs)
unfolding delete_files
Keeps-delete_files k vars edit kept [] h always cfile = λ w. refl
Keeps-delete_files k vars edit kept (f ∷ fs) h always cfile =
    let other : text_eq f k ≡ false = ground (arith, &&-true (not (text_eq f k)) _ h) in
    let rest = (&&-true (not (text_eq f k)) _ h).1 in
    Keeps-bind k (ask always) _ (Keeps-ask k always) (λ v.
      Keeps-on_verdict k v (delete_files vars edit always cfile fs) _
        (Keeps-delete_files k vars edit kept fs rest always cfile)
        (λ later. Keeps-bind k (unlink f) _ (Keeps-unlink k f other) (λ u.
          Keeps-bind k (edit (basename f) (remove_values vars (basename f) cfile)) _
            (kept (basename f) _)
            (λ cfile'.
              Keeps-bind k (delete_files vars edit later cfile' fs)
                (λ r. ret (r.0, basename f ∷ r.1))
                (Keeps-delete_files k vars edit kept fs rest later cfile') (λ r w. refl)))))

-- A file that is neither among those that are asked about nor the CMakeLists.txt of the directory
-- stays as it was, where the special edit leaves it alone.
pub run_filtered-keeps :
    (k path : Text) (vars : List Text) (edit : Edit)
    → ((b c : Text) (w : World) → lookup k (edit b c w).1.files ≡ lookup k w.files)
    → (fs : List Text) → all (λ f. not (text_eq f k)) fs ≡ true
    → text_eq (cmakelists path) k ≡ false
    → (always : Bool) (w : World)
    → lookup k (run_filtered always path vars edit fs w).1.files ≡ lookup k w.files
unfolding run_filtered write
run_filtered-keeps k path vars edit kept [] h c always = λ w. refl
run_filtered-keeps k path vars edit kept (f ∷ fs) h c always =
    Keeps-bind k (read (cmakelists path)) _ (Keeps-read k (cmakelists path)) (λ cfile.
      Keeps-bind k (delete_files vars edit always cfile (f ∷ fs)) _
        (Keeps-delete_files k vars edit kept (f ∷ fs) h always cfile)
        (λ r.
          Keeps-bind k (write (cmakelists path) r.0) (λ u. ret r.1)
            (λ w. lookup-store k (cmakelists path) r.0 w.files c) (λ u w. refl)))

-- files that the user agrees to delete
abbrev pub discard_all : List Text → Files → Files
discard_all [] fs = fs
discard_all (p ∷ ps) fs = discard_all ps (discard p fs)

-- each of them is there when its turn comes
abbrev pub Present : List Text → Files → Type 0
Present [] fs = Unit
Present (p ∷ ps) fs = (t : Text) × (lookup p fs ≡ some t) × Present ps (discard p fs)

abbrev pub yes_to : List Text → List Text
yes_to [] = []
yes_to (p ∷ ps) = codes "y" ∷ yes_to ps

quit_loop :
    (vars : List Text) (ps : List Text) (p : Text) (later answers : List Text) (files : Files)
    (cfile : Text)
    → Present ps files
    → delete_files vars no_edit false cfile
        (ps ++ p ∷ later)
        (record { files = files; answers = yes_to ps ++ codes "q" ∷ answers })
      ≡ (stop (exit 0), record { files = discard_all ps files; answers = answers })
unfolding delete_files ask raw_input unlink text_eq
quit_loop vars [] p later answers files cfile h = refl
quit_loop vars (q ∷ ps) p later answers files cfile (t, e, h) =
    rw e (rw (quit_loop vars ps p later answers (discard q files) _ h) refl)

lookup-discard_all :
    (k : Text) (ps : List Text) (fs : Files)
    → all (λ p. not (text_eq p k)) ps ≡ true
    → lookup k (discard_all ps fs) ≡ lookup k fs
lookup-discard_all k [] fs h = refl
lookup-discard_all k (p ∷ ps) fs h =
    let other : text_eq p k ≡ false = ground (arith, &&-true (not (text_eq p k)) _ h) in
    lookup-discard_all k ps (discard p fs) (&&-true (not (text_eq p k)) _ h).1
    ∙ lookup-discard k p fs other

-- In a directory without a special edit, where the user agrees to some files, which are there, and
-- then quits, the command exits with these files deleted. The CMakeLists.txt, which is none of them,
-- is as it was.
pub run_filtered_quit :
    (path : Text) (vars : List Text) (ps : List Text) (p : Text) (later answers : List Text)
    (files : Files) (cfile : Text)
    → lookup (cmakelists path) files ≡ some cfile
    → Present ps files
    → all (λ q. not (text_eq q (cmakelists path))) ps ≡ true
    → (run_filtered false path vars no_edit
          (ps ++ p ∷ later)
          (record { files = files; answers = yes_to ps ++ codes "q" ∷ answers })
        ≡ (stop (exit 0), record { files = discard_all ps files; answers = answers }))
      × (lookup (cmakelists path) (discard_all ps files) ≡ some cfile)
unfolding run_filtered read
run_filtered_quit path vars [] p later answers files cfile c h k =
    (rw c (rw (quit_loop vars [] p later answers files cfile h) refl), c)
run_filtered_quit path vars (q ∷ ps) p later answers files cfile c h k = (
  rw c (rw (quit_loop vars (q ∷ ps) p later answers files cfile h) refl),
  lookup-discard_all (cmakelists path) (q ∷ ps) files k ∙ c,
)
