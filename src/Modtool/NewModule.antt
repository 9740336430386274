-- ===== src/Modtool/NewModule.antt =====
-- `ModToolNewModule` of gr_modtool.py: a copy of the module in the archive, under another name.
use hachoir.Prelude.{
  Bool, false, ◌||◌, Option, none, some, List, [], ◌∷◌, ◌++◌, Text, codes, text_eq, if◌then◌else◌,
  path_join, dirname, basename, contains, replace, drop_prefix, starts_with, map, upper,
}
use hachoir.Modtool.World.{
  Files, exit, os_error, ok, stop, W, ◌>>=◌, ◌>>◌, ret, raise, read, write, discard, store,
}
use hachoir.Modtool.Add.{blockname_of, check_name}

-- What the operating system and `tarfile` answer: whether the directory is there and can be made,
-- the files of the unpacked archive, and `os.walk` on them.
pub record Archive : Type 0 where
  pub exists : Text → Bool
  pub can_make : Text → Bool
  pub files : Files
  pub walk : List (Text × List Text)

abbrev pub directory_of : Text → Text → Text
directory_of modname d = if text_eq d (codes ".") then codes "./gr-" ++ modname else d

-- `ModToolNewModule.setup`: the name and the directory
unfoldable pub setup_new : Archive → Option Text → Text → List Text → W (Text × Text)
setup_new a module_name directory args = do
  modname ← blockname_of module_name args
  check_name modname
  if a.exists (directory_of modname directory)
      then raise (exit 2)
      else ret (modname, directory_of modname directory)

-- both spellings in a text
unfoldable pub renamed : Text → Text → Text
renamed modname t = replace (codes "HOWTO") (map upper modname) (replace (codes "howto") modname t)

-- `os.rename(from, to)` of a file
unfoldable pub move : Text → Text → W (Unit {0})
move from to = do
  t ← read from
  λ w. (ok tt, record w { files = store to t (discard from w.files) })

-- one file: its text, then its name
unfoldable pub convert_file : Text → Text → Text → W (Unit {0})
unfolding move renamed
convert_file modname root filename = do
  s ← read (path_join root filename)
  write (path_join root filename) (renamed modname s)
  if contains (codes "howto") filename
      then move (path_join root filename)
          (path_join root (replace (codes "howto") modname filename))
      else ret tt

unfoldable pub convert_files : Text → Text → List Text → W (Unit {0})
unfolding convert_file
convert_files modname root [] = ret tt
convert_files modname root (f ∷ fs) = do convert_file modname root f; convert_files modname root fs

-- `os.rename(root, to)` of a directory: the paths of all files below it
abbrev moved_path : Option Text → Text → Text → Text
moved_path none to p = p
moved_path (some behind) to p = to ++ b'/' ∷ behind

unfoldable pub move_dir : Text → Text → Files → Files
move_dir from to [] = []
move_dir from to ((p, t) ∷ fs) =
    (moved_path (drop_prefix (from ++ b'/' ∷ []) p) to p, t) ∷ move_dir from to fs

abbrev is_howto : Text → Bool
is_howto root = text_eq (basename root) (codes "howto")

-- the directories that are renamed already; what lies below one of them is no longer found
abbrev gone : List Text → Text → Bool
gone [] root = false
gone (d ∷ ds) root = starts_with (d ++ b'/' ∷ []) root || gone ds root

-- some file has the path, or lies below it
abbrev taken : Text → Files → Bool
taken to [] = false
taken to ((p, t) ∷ fs) = text_eq p to || starts_with (to ++ b'/' ∷ []) p || taken to fs

-- `os.rename(root, to)` of a directory, over no other
unfoldable pub rename_dir : Text → Text → W (Unit {0})
unfolding move_dir
rename_dir from to w =
    if text_eq from to
    then (ok tt, w)
    else if taken to w.files
    then (stop os_error, w)
    else (ok tt, record w { files = move_dir from to w.files })

-- the loop over `os.walk('.')`
unfoldable pub convert_tree : Text → List Text → List (Text × List Text) → W (Unit {0})
unfolding convert_files rename_dir
convert_tree modname renamed_dirs [] = ret tt
convert_tree modname renamed_dirs ((root, fs) ∷ dirs) =
    let onward = convert_tree modname renamed_dirs dirs in
    let to = path_join (dirname root) modname in
    let behind =
      convert_tree modname (if text_eq root to then renamed_dirs else root ∷ renamed_dirs) dirs in
    if gone renamed_dirs root
    then onward
    else if is_howto root
    then (convert_files modname root fs >> rename_dir root to >> behind)
    else (convert_files modname root fs >> onward)

-- `ModToolNewModule.run`, in the new directory
unfoldable pub run_new : Archive → Text → Text → W (Unit {0})
unfolding convert_tree
run_new a modname directory w =
    if a.can_make directory
    then convert_tree modname [] a.walk (record w { files = a.files })
    else (stop (exit 2), w)
