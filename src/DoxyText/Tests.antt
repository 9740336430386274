-- ===== src/DoxyText/Tests.antt =====
-- A description with two paragraphs, and the theorem at it.
use hachoir.Prelude.{none, some, codes, ◌≡◌, refl, text_eq}
use hachoir.DoxyText.{
  Item, content, content_, value, string, bare, nil, cons, ok, standard_error, description_bit,
  description,
}
use hachoir.DoxyText.Flat.{pieces, readable, description_bit-pieces}

abbrev two_paragraphs : Item
two_paragraphs = content none (
    cons (content (some (codes "para")) (cons (value none (string (codes "One."))) nil))
      (cons (content_ (some (codes "para")) (cons (string (codes "Two.")) nil)) nil))

description_bit-pieces_example : description_bit two_paragraphs ≡ ok (codes "One.\n\nTwo.\n\n")
unfolding text_eq pieces readable
description_bit-pieces_example = description_bit-pieces two_paragraphs

description_test : description (some two_paragraphs) ≡ ok (some (codes "One.\n\nTwo."))
unfolding description text_eq
description_test = refl

bare_test : description (some (content none (cons bare nil))) ≡ standard_error
unfolding description text_eq
bare_test = refl
