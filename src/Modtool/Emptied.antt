-- ===== src/Modtool/Emptied.antt =====
-- What `rm --yes` does in a directory: the files that it deletes, and what it takes out of the
-- CMakeLists.txt.
use hachoir.Prelude.{
  true, some, List, [], ◌∷◌, ◌++◌, Text, ◌≡◌, ◌⊎◌, refl, basename, all, map, is_space, Each,
}
use hachoir.Re.{nothing, as_pattern}
use hachoir.Re.First.{ends_line}
use hachoir.Re.Taken.{no_group}
use hachoir.Cmake.{remove_value}
use hachoir.Cmake.Appended.{is_plain}
use hachoir.Cmake.Removed.{Removes, remove_value-Removes}
use hachoir.Cmake.TakenOut.{entry_with, is_inline, no_group-as_pattern, remove_value_takes_out}
use hachoir.Modtool.World.{World, Files, lookup, store, ok}
use hachoir.Modtool.Choice.{Info}
use hachoir.Modtool.Kept.{discard_all, Present}
use hachoir.Modtool.Remove.{
  Edit, remove_values, delete_files, cmakelists, run_filtered, candidates, globs_of, run_subdir,
}

-- A line of the text starts with an entry, behind white space, that has the name in its body.
pub record Lists (entry name t : Text) : Type 0 where
  pub before : Text
  pub white : Text
  pub front : Text
  pub rest : Text
  pub behind : Text
  pub at_line : ends_line true before ≡ true
  pub is_white : all is_space white ≡ true
  pub plain_front : all is_plain front ≡ true
  pub inline : is_inline name ≡ true
  pub plain_rest : all is_plain rest ≡ true
  pub text : t ≡ before ++ entry_with white entry front name rest behind

-- The names are taken out one after the other. Each step leaves the text or takes out of one entry
-- a text that the name matches; where an entry lists the name, it does take one out.
pub data Emptied (entry : Text) : List Text → Text → Text → Type 0 where
  done : {t : Text} → Emptied entry [] t t
  step :
      {name : Text} {names : List Text} {t u v : Text}
      → (u ≡ t) ⊎ Removes entry (as_pattern name) t u
      → (Lists entry name t → Removes entry (as_pattern name) t u)
      → Emptied entry names u v
      → Emptied entry (name ∷ names) t v

remove_value-Lists :
    (entry name t : Text)
    → Lists entry name t
    → Removes entry (as_pattern name) t (remove_value entry (as_pattern name) nothing t)
remove_value-Lists entry name t l = rw l.text (
    remove_value_takes_out entry name l.before l.white l.front l.rest l.behind l.at_line l.is_white
      l.plain_front l.inline l.plain_rest)

-- the edits for all files, in order
abbrev edited : Text → List Text → Text → Text
edited entry [] cfile = cfile
edited entry (p ∷ ps) cfile = edited entry ps (remove_values (entry ∷ []) (basename p) cfile)

edited-Emptied :
    (entry : Text) (ps : List Text) (cfile : Text)
    → Emptied entry (map basename ps) cfile (edited entry ps cfile)
unfolding no_group
edited-Emptied entry [] cfile = Emptied.done
edited-Emptied entry (p ∷ ps) cfile =
    Emptied.step
      (remove_value-Removes entry (as_pattern (basename p)) nothing cfile
        (no_group-as_pattern (basename p)) refl)
      (remove_value-Lists entry (basename p) cfile)
      (edited-Emptied entry ps (remove_values (entry ∷ []) (basename p) cfile))

-- the special edit does nothing for the file, as those for test cases do where it is none
abbrev pub Quiet : Edit → Text → Type 0
Quiet edit p = (cfile : Text) (w : World) → edit (basename p) cfile w ≡ (ok cfile, w)

always_loop :
    (entry : Text) (edit : Edit) (ps : List Text) (files : Files) (answers : List Text)
    (cfile : Text)
    → Each (Quiet edit) ps
    → Present ps files
    → delete_files (entry ∷ []) edit true cfile ps (record { files = files; answers = answers }) ≡ (
      ok (edited entry ps cfile, map basename ps),
      record { files = discard_all ps files; answers = answers },
    )
unfolding delete_files
always_loop entry edit [] files answers cfile q h = refl
always_loop entry edit (p ∷ ps) files answers cfile (q, qs) (t, e, h) =
    rw (e, q)
      (rw (always_loop entry edit ps _ answers (remove_values (entry ∷ []) (basename p) cfile) qs h)
        refl)

-- With `--yes` nothing is asked, where a file of the directory matches. Every file of the globs whose
-- name the pattern matches is deleted, and their names are returned in order. The CMakeLists.txt,
-- which was there, is written with each name in turn taken out of an entry, where an entry that
-- starts a line lists the name; where none does, its text stays, or one entry loses a text that the
-- name matches as a pattern. No other file and no answer has changed. The matching files are there
-- when their turn comes, and the special edit does nothing for them.
pub run_subdir_always :
    (info : Info) (path entry : Text) (globs : List Text) (edit : Edit) (w : World) (p : Text)
    (ps : List Text) (cfile : Text)
    → info.yes ≡ true
    → candidates info.pattern (globs_of path globs w) ≡ p ∷ ps
    → lookup (cmakelists path) w.files ≡ some cfile
    → Present (p ∷ ps) w.files
    → Each (Quiet edit) (p ∷ ps)
    → (cfile' : Text) × Emptied entry (map basename (p ∷ ps)) cfile cfile'
      × (run_subdir info path globs (entry ∷ []) edit w ≡ (
        ok (map basename (p ∷ ps)),
        record {
          files = store (cmakelists path) cfile' (discard_all (p ∷ ps) w.files);
          answers = w.answers;
        },
      ))
unfolding run_subdir run_filtered
run_subdir_always info path entry globs edit w p ps cfile y m c h q = (
  edited entry (p ∷ ps) cfile,
  edited-Emptied entry (p ∷ ps) cfile,
  rw (y, m, c, always_loop entry edit (p ∷ ps) w.files w.answers cfile q h) refl,
)
