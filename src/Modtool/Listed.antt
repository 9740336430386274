-- ===== src/Modtool/Listed.antt =====
-- What `add` writes into the CMakeLists.txt files of the library and of the headers.
use hachoir.Prelude.{
  ℕ, true, false, some, [], ◌∷◌, ◌++◌, Text, codes, ◌≡◌, refl, ◌∙◌, all, is_space, text_eq,
}
use hachoir.Re.{nothing}
use hachoir.Re.First.{absent}
use hachoir.Cmake.{append_value}
use hachoir.Cmake.Appended.{is_plain}
use hachoir.Cmake.Bodies.{is_closed}
use hachoir.Cmake.Entry.{entry_text, with_value}
use hachoir.Cmake.Values.{append_value_inserts}
use hachoir.Cmake.Words.{Once, append_value_before_word}
use hachoir.Modtool.World.{World, lookup, lookup-store, store, ok, read, write}
use hachoir.Modtool.Add.{AddInfo}
use hachoir.Modtool.AddLib.{
  fname_cc, fname_h, edit_file, add_entries, cmlib, cminclude, install_value, separator,
}

-- the text has the entry, which is the first of its name
pub record HasEntry (entry ignored t : Text) : Type 0 where
  pub pre : Text
  pub body : Text
  pub white : Text
  pub post : Text
  pub is : t ≡ pre ++ entry_text entry body white ignored post
  pub first : absent (entry ++ codes "(") pre (entry_text entry body white ignored post) ≡ true
  pub plain : all is_plain body ≡ true
  pub closed : is_closed body ≡ true
  pub blank : all is_space white ≡ true

-- the value stands behind the body of the entry, and all else is as it was but for white space there
abbrev pub Gains : (entry ignored value : Text) (t u : Text) → HasEntry entry ignored t → Type 0
Gains entry ignored value t u e =
    (kept : Text) × (out : Text) × (blank : Text) × (e.white ≡ kept ++ (out ++ blank))
    × (u ≡ e.pre ++ with_value separator value entry e.body kept (blank ++ ignored) e.post)

edit_file_lem :
    (path t : Text) (edit : Text → Text) (w : World)
    → lookup path w.files ≡ some t
    → edit_file path edit w ≡ (ok tt, record w { files = store path (edit t) w.files })
unfolding edit_file read write
edit_file_lem path t edit w h = rw h refl

Gains-library :
    (value t : Text) (e : HasEntry (codes "add_library") [] t)
    → Gains
        (codes "add_library")
        []
        value
        t
        (append_value separator (codes "add_library") value nothing t)
        e
Gains-library value t e = rw e.is (
    append_value_inserts separator (codes "add_library") value e.pre e.body e.white e.post e.first
      e.plain e.closed e.blank)

-- DESTINATION and what follows it
abbrev pub place : ℕ → Text → Text
place d rest = b'D' ∷ (codes "ESTINATION" ++ d ∷ rest)

Gains-install :
    (value t : Text) (d : ℕ) (rest : Text) (e : HasEntry (codes "install") (place d rest) t)
    → Once b'D' (codes "ESTINATION") (e.body ++ e.white) (d ∷ rest)
    → all is_plain (d ∷ rest) ≡ true
    → Gains (codes "install") (place d rest) value t (install_value value t) e
Gains-install value t d rest e once hr = rw e.is (
    append_value_before_word separator (codes "install") value e.pre e.body e.white b'D'
      (codes "ESTINATION") d rest e.post e.first once refl hr e.plain e.closed e.blank)

abbrev after_library : AddInfo → Text → World → World
after_library info t w = record w {
  files =
      store cmlib (append_value separator (codes "add_library") (fname_cc info) nothing t) w.files;
}

-- Where the CMakeLists.txt of the library has an `add_library`, and that of the headers, another
-- file, an `install` with one DESTINATION behind the names, the first of their kind, without
-- parentheses inside, and with white space only behind the names, `add` puts the source behind the
-- names of the library and the header behind those of the headers, in the place of a part of the
-- white space there. Nothing else in the two files changes, and no other file does.
pub add_entries_lists :
    (info : AddInfo) (w : World) (t u : Text) (d : ℕ) (rest : Text)
    → lookup cmlib w.files ≡ some t
    → lookup (cminclude info) w.files ≡ some u
    → text_eq cmlib (cminclude info) ≡ false
    → (e : HasEntry (codes "add_library") [] t) → (f : HasEntry (codes "install") (place d rest) u)
    → Once b'D' (codes "ESTINATION") (f.body ++ f.white) (d ∷ rest)
    → all is_plain (d ∷ rest) ≡ true
    → (t' : Text) × (u' : Text) × (add_entries info w
        ≡ (ok tt, record w { files = store (cminclude info) u' (store cmlib t' w.files) }))
      × Gains (codes "add_library") [] (fname_cc info) t t' e
      × Gains (codes "install") (place d rest) (fname_h info) u u' f
unfolding add_entries
add_entries_lists info w t u d rest ht hu other e f once hr = (
  append_value separator (codes "add_library") (fname_cc info) nothing t,
  install_value (fname_h info) u,
  rw
      (
        edit_file_lem cmlib t (append_value separator (codes "add_library") (fname_cc info) nothing)
            w ht,
        edit_file_lem (cminclude info) u (install_value (fname_h info)) (after_library info t w)
            (lookup-store (cminclude info) cmlib _ w.files other ∙ hu),
      )
      refl,
  Gains-library (fname_cc info) t e,
  Gains-install (fname_h info) u d rest f once hr,
)
