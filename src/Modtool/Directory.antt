-- ===== src/Modtool/Directory.antt =====
-- What makes a directory a module for `_check_directory`.
use hachoir.Prelude.{
  path_join, Bool, true, false, ◌&&◌, ◌||◌, some, List, [], ◌∷◌, Text, codes, text_eq, text_eq_iff,
  ◌≡◌, refl, arith, Bool-cases, inl, inr, if◌then◌else◌, text_in, ap, ◌∙◌,
}
use hachoir.Modtool.World.{World, ok, lookup, read}
use hachoir.Modtool.Base.{
  Entry, file, dir, Place, Found, core_regex, component_regex, matches_text, looked_at,
  nothing_found, check_entries, checked, check_directory, subdirs,
}

-- there is a makefile among the entries
abbrev pub listed : List Entry → Bool
listed [] = false
listed (file f ∷ es) = text_eq f (codes "CMakeLists.txt") || listed es
listed (dir f ∷ es) = listed es

-- the makefile is that of a module or of a component
abbrev pub is_project : Text → Bool
is_project t = matches_text core_regex t || matches_text component_regex t

looked_at_lem :
    (t : Text) (found : Found)
    → (looked_at t found).has_makefile ≡ (found.has_makefile || is_project t)
looked_at_lem t found = ground arith

or_again : (a b c : Bool) → ((a || b) || (c && b)) ≡ (a || (true && b))
or_again a b c = ground arith

entries_lem :
    (base : Text) (found : Found) (es : List Entry) (w : World) (t : Text)
    → lookup (path_join base (codes "CMakeLists.txt")) w.files ≡ some t
    → (r : Found) × (check_entries base found es w ≡ (ok r, w))
      × (r.has_makefile ≡ (found.has_makefile || (listed es && is_project t)))
unfolding check_entries read
entries_lem base found [] w t h = (found, refl, ground arith)
entries_lem base found (file f ∷ es) w t h =
    elim (Bool-cases (text_eq f (codes "CMakeLists.txt"))) [
      | inl e ↦
          let (r, k, m) = entries_lem base (looked_at t found) es w t h in
          (
            r,
            rw (e, (text_eq_iff f (codes "CMakeLists.txt")).0 e, h) k,
            rw e (
                m
                ∙ ap (λ (b : Bool). b || (listed es && is_project t)) (looked_at_lem t found)
                ∙ or_again found.has_makefile (is_project t) (listed es)),
          )
      | inr e ↦ let (r, k, m) = entries_lem base found es w t h in (r, rw e k, rw e m)
    ]
entries_lem base found (dir f ∷ es) w t h =
    let found' =
      if text_in f subdirs then record found { has_subdirs = f ∷ found.has_subdirs } else found in
    let (r, k, m) = entries_lem base found' es w t h in
    (r, k, m ∙ ap (λ (b : Bool). b || (listed es && is_project t)) (same (text_in f subdirs)))
  where
    same :
        (b : Bool)
        → (if b then record found { has_subdirs = f ∷ found.has_subdirs } else found).has_makefile
          ≡ found.has_makefile
    same true = refl
    same false = refl

-- A directory that can be entered counts as a module exactly if its CMakeLists.txt is that of a
-- module or a component. Its subdirectories do not matter: it may have none of them.
pub check_directory_lem :
    (place : Place) (es : List Entry) (w : World) (t : Text)
    → place.entries ≡ some es
    → lookup (codes "CMakeLists.txt") w.files ≡ some t
    → (r : Found) × (check_directory place w ≡ (ok (listed es && is_project t, r), w))
unfolding check_directory checked
check_directory_lem place es w t p h =
    let (r, k, m) = entries_lem [] nothing_found es w t h in (r, rw (p, k, m) refl)
