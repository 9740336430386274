-- ===== src/Modtool/Converted.antt =====
-- What `gr_modtool.py newmod` makes of all files of a directory of the archive.
use hachoir.Prelude.{
  false, some, List, [], ◌∷◌, Text, ◌≡◌, refl, sym, ◌∙◌, text_eq, text_eq_refl, path_join, Each,
  map,
}
use mathlib.Core.Path.{subst}
use hachoir.Modtool.World.{World, Reply, ok, lookup}
use hachoir.Modtool.NewModule.{renamed, convert_file, convert_files}
use hachoir.Modtool.Renamed.{target, convert_file_lem}

module _ (modname root : Text) where
  -- the paths of a file before and behind the conversion
  abbrev pub old_path : Text → Text
  old_path f = path_join root f

  abbrev pub new_path : Text → Text
  new_path f = path_join root (target modname f)

  -- the conversion of a file has nothing to do with a path
  abbrev pub Spares : Text → Text → Type 0
  Spares f k = (text_eq (new_path f) k ≡ false) × (text_eq (old_path f) k ≡ false)

  -- the old and the new path of a file are none of the others'
  abbrev pub Separate : List (Text × Text) → Type 0
  Separate [] = Unit
  Separate (f ∷ fs) =
      Each (λ g. Spares f.0 (old_path g.0)) fs
      × Each (λ g. Spares g.0 (new_path f.0)) fs
      × Separate fs

  -- the files have these texts
  abbrev pub Holds : World → (Text → Text) → (Text → Text) → List (Text × Text) → Type 0
  Holds w path change fs = Each (λ f. lookup (path f.0) w.files ≡ some (change f.1)) fs

  abbrev as_is : Text → Text
  as_is t = t

  -- behind the conversion of one file
  abbrev next : Text → World → World
  next f w = (convert_file modname root f w).1

  next-Spares :
      (f t k : Text) (w : World)
      → lookup (old_path f) w.files ≡ some t
      → Spares f k
      → lookup k (next f w).files ≡ lookup k w.files
  next-Spares f t k w h (new, old) =
      (convert_file_lem modname root f t k w h).1 ∙ rw (new, old) refl

  next-new :
      (f t : Text) (w : World)
      → lookup (old_path f) w.files ≡ some t
      → lookup (new_path f) (next f w).files ≡ some (renamed modname t)
  next-new f t w h =
      (convert_file_lem modname root f t (new_path f) w h).1 ∙ rw (text_eq_refl (new_path f)) refl

  convert_files-next :
      (f t : Text) (fs : List Text) (w : World)
      → lookup (old_path f) w.files ≡ some t
      → convert_files modname root (f ∷ fs) w ≡ convert_files modname root fs (next f w)
  unfolding convert_files
  convert_files-next f t fs w h = rw ((convert_file_lem modname root f t [] w h).0) refl

  Holds-next :
      (f t : Text) (fs : List (Text × Text)) (w : World)
      → lookup (old_path f) w.files ≡ some t
      → Each (λ g. Spares f (old_path g.0)) fs
      → Holds w old_path as_is fs
      → Holds (next f w) old_path as_is fs
  Holds-next f t [] w h s g = tt
  Holds-next f t (e ∷ fs) w h (s, ss) (g, gs) =
      (next-Spares f t (old_path e.0) w h s ∙ g, Holds-next f t fs w h ss gs)

  convert_files-Spares :
      (fs : List (Text × Text)) (k : Text) (w : World)
      → Holds w old_path as_is fs
      → Separate fs
      → Each (λ f. Spares f.0 k) fs
      → lookup k (convert_files modname root (map (λ f. f.0) fs) w).1.files ≡ lookup k w.files
  unfolding convert_files
  convert_files-Spares [] k w h s g = refl
  convert_files-Spares ((f, t) ∷ fs) k w (h, hs) (o, n, s) (g, gs) =
      rw (convert_files-next f t (map (λ f. f.0) fs) w h) (
        convert_files-Spares fs k (next f w) (Holds-next f t fs w h o hs) s gs
        ∙ next-Spares f t k w h g)

  convert_files-reply :
      (fs : List (Text × Text)) (w : World)
      → Holds w old_path as_is fs
      → Separate fs
      → (convert_files modname root (map (λ f. f.0) fs) w).0 ≡ ok tt
  unfolding convert_files
  convert_files-reply [] w h s = refl
  convert_files-reply ((f, t) ∷ fs) w (h, hs) (o, n, s) =
      rw (convert_files-next f t (map (λ f. f.0) fs) w h)
        (convert_files-reply fs (next f w) (Holds-next f t fs w h o hs) s)

  convert_files-new :
      (fs : List (Text × Text)) (w : World)
      → Holds w old_path as_is fs
      → Separate fs
      → Holds (convert_files modname root (map (λ f. f.0) fs) w).1 new_path (renamed modname) fs
  unfolding convert_files
  convert_files-new [] w h s = tt
  convert_files-new ((f, t) ∷ fs) w (h, hs) (o, n, s) =
      subst (λ (r : Reply (Unit {0}) × World). Holds r.1 new_path (renamed modname) ((f, t) ∷ fs))
        (sym (convert_files-next f t (map (λ f. f.0) fs) w h))
        (
          convert_files-Spares fs (new_path f) (next f w) (Holds-next f t fs w h o hs) s n
              ∙ next-new f t w h,
          convert_files-new fs (next f w) (Holds-next f t fs w h o hs) s,
        )

-- The files of a directory that are there, with names of which no two meet before or behind the
-- conversion, are converted without an error: each has its text with both spellings replaced,
-- under the name with the module's in the place of `howto`, and no file elsewhere has changed.
pub convert_files_lem :
    (modname root : Text) (fs : List (Text × Text)) (k : Text) (w : World)
    → Holds modname root w (old_path modname root) (λ t. t) fs
    → Separate modname root fs
    → Each (λ f. Spares modname root f.0 k) fs
    → ((convert_files modname root (map (λ f. f.0) fs) w).0 ≡ ok tt)
      × Holds modname root
          (convert_files modname root (map (λ f. f.0) fs) w).1
          (new_path modname root)
          (renamed modname)
          fs
      × (lookup k (convert_files modname root (map (λ f. f.0) fs) w).1.files ≡ lookup k w.files)
convert_files_lem modname root fs k w h s g = (
  convert_files-reply modname root fs w h s,
  convert_files-new modname root fs w h s,
  convert_files-Spares modname root fs k w h s g,
)
