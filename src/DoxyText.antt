-- ===== src/DoxyText.antt =====
-- gr-gtsrc/docs/doxygen/doxyxml/text.py: the text of a description, as doxygen's XML nests it.
pub mod Flat
mod Tests
use hachoir.Prelude.{
  Bool, true, false, Option, none, some, List, [], ◌∷◌, ◌++◌, Text, codes, text_eq, if◌then◌else◌,
  strip,
}

-- What the generated classes hold: an object with `content`, with `content_` or with `value`, and
-- perhaps with a name; a string; or an object with none of these.
mutual
  pub data Item : Type 0 where
    content content_ : Option Text → Items → Item
    value : Option Text → Item → Item
    string : Text → Item
    bare : Item

  pub data Items : Type 0 where
    nil : Items
    cons : Item → Items → Items

-- `StandardError` is the one exception
pub data Result {ℓ} (A : Type ℓ) : Type ℓ where
  ok : A → Result A
  standard_error : Result A

infixl 5 ◌>>=◌
abbrev pub ◌>>=◌ {ℓ κ} : {A : Type ℓ} {B : Type κ} → Result A → (A → Result B) → Result B
ok a >>= f = f a
standard_error >>= f = standard_error

-- two line breaks behind a paragraph
abbrev pub para : Option Text → Text → Text
para none t = t
para (some name) t = if text_eq name (codes "para") then t ++ codes "\n\n" else t

unfoldable mutual
  unfolding text_eq

  pub description_bit : Item → Result Text
  description_bit (content name items) = do
    contents ← description_bits items
    ok (para name contents)
  description_bit (content_ name items) = do
    contents ← description_bits items
    ok (para name contents)
  description_bit (value name item) = do result ← description_bit item; ok (para name result)
  description_bit (string t) = ok t
  description_bit bare = standard_error

  -- the texts of a list, joined
  pub description_bits : Items → Result Text
  description_bits nil = ok []
  description_bits (cons item items) = do
    t ← description_bit item
    rest ← description_bits items
    ok (t ++ rest)

unfoldable pub description : Option Item → Result (Option Text)
unfolding description_bit
description none = ok none
description (some item) = do t ← description_bit item; ok (some (strip t))
