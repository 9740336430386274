-- ===== src/Modtool/Renamed.antt =====
-- What `gr_modtool.py newmod` makes of one file of the archive.
use hachoir.Prelude.{
  Bool, true, false, Option, none, some, [], ◌∷◌, Text, codes, ◌≡◌, refl, sym, ◌∙◌, arith, text_eq,
  text_eq_iff, text_eq_refl, if◌then◌else◌, path_join, contains, replace, Bool-cases, inl, inr,
}
use hachoir.Modtool.World.{
  World, Files, ok, lookup, store, discard, lookup-store, lookup-discard, lookup-discarded, read,
  write,
}
use hachoir.Modtool.NewModule.{renamed, move, convert_file}

lookup-stored : (k t : Text) (fs : Files) → lookup k (store k t fs) ≡ some t
unfolding lookup store
lookup-stored k t [] = rw (text_eq_refl k) refl
lookup-stored k t ((i, u) ∷ fs) =
    ground (arith, text_eq_iff i k, text_eq_refl k, lookup-stored k t fs)

-- the files with one more
lookup-store_if :
    (k p t : Text) (fs : Files)
    → lookup k (store p t fs) ≡ (if text_eq p k then some t else lookup k fs)
lookup-store_if k p t fs = elim (Bool-cases (text_eq p k)) [
  | inl e ↦ rw (e, sym ((text_eq_iff p k).0 e)) (lookup-stored p t fs)
  | inr e ↦ rw e (lookup-store k p t fs e)
]

-- the files with one less
lookup-discard_if :
    (k p : Text) (fs : Files)
    → lookup k (discard p fs) ≡ (if text_eq p k then none else lookup k fs)
lookup-discard_if k p fs = elim (Bool-cases (text_eq p k)) [
  | inl e ↦ rw (e, sym ((text_eq_iff p k).0 e)) (lookup-discarded p fs)
  | inr e ↦ rw e (lookup-discard k p fs e)
]

-- the name that the file gets
abbrev pub target : Text → Text → Text
target modname filename =
    if contains (codes "howto") filename then replace (codes "howto") modname filename else filename

-- the files behind the conversion, one after the other
abbrev converted : Text → Text → Text → Text → Files → Files
converted modname root filename t fs =
    let old = path_join root filename in
    let changed = store old (renamed modname t) fs in
    if contains (codes "howto") filename
    then store (path_join root (target modname filename)) (renamed modname t) (discard old changed)
    else changed

convert_file-files :
    (modname root filename t : Text) (w : World)
    → lookup (path_join root filename) w.files ≡ some t
    → convert_file modname root filename w
      ≡ (ok tt, record w { files = converted modname root filename t w.files })
unfolding convert_file move read write
convert_file-files modname root filename t w h =
    elim (Bool-cases (contains (codes "howto") filename)) [
      | inl e ↦ rw (h, e, lookup-stored (path_join root filename) (renamed modname t) w.files) refl
      | inr e ↦ rw (h, e) refl
    ]

lookup-converted :
    (modname root filename t k : Text) (fs : Files)
    → lookup k (converted modname root filename t fs) ≡ (
        if text_eq (path_join root (target modname filename)) k
        then some (renamed modname t)
        else if text_eq (path_join root filename) k
        then none
        else lookup k fs)
lookup-converted modname root filename t k fs =
    elim (Bool-cases (contains (codes "howto") filename)) [
      | inl e ↦ rw e (
          lookup-store_if k (path_join root (replace (codes "howto") modname filename))
            (renamed modname t) _
          ∙ rw (lookup-discard_if k old (store old (renamed modname t) fs)) (
              rw (lookup-store_if k old (renamed modname t) fs) (
                behind_move (text_eq (path_join root (replace (codes "howto") modname filename)) k)
                  (text_eq old k) _ _ _)))
      | inr e ↦ rw e (lookup-store_if k old (renamed modname t) fs ∙ in_place (text_eq old k) _ _)
    ]
  where
    old : Text
    old = path_join root filename

    behind_move :
        (a b : Bool) (x y z : Option Text)
        → (if a then x else if b then none else if b then y else z)
          ≡ (if a then x else if b then none else z)
    behind_move true b x y z = refl
    behind_move false true x y z = refl
    behind_move false false x y z = refl

    in_place :
        (b : Bool) (x z : Option Text)
        → (if b then x else z) ≡ (if b then x else if b then none else z)
    in_place true x z = refl
    in_place false x z = refl

-- A file of the archive that is there is converted without an error: behind it, the name with the
-- module's in the place of `howto` has the text with both spellings replaced, the old name is gone
-- if it is another, and no other file has changed.
pub convert_file_lem :
    (modname root filename t k : Text) (w : World)
    → lookup (path_join root filename) w.files ≡ some t
    → ((convert_file modname root filename w).0 ≡ ok tt)
      × (lookup k (convert_file modname root filename w).1.files ≡ (
          if text_eq (path_join root (target modname filename)) k
          then some (renamed modname t)
          else if text_eq (path_join root filename) k
          then none
          else lookup k w.files))
convert_file_lem modname root filename t k w h = (
  rw (convert_file-files modname root filename t w h) refl,
  rw (convert_file-files modname root filename t w h)
      (lookup-converted modname root filename t k w.files),
)
