-- ===== src/Grc/Tests.antt =====
-- The tree of a small block, and the theorems at it.
use hachoir.Prelude.{true, false, none, some, List, [], ◌∷◌, codes, ◌≡◌, refl, text_eq}
use hachoir.CcParser.Params.{Outcome, ret}
use hachoir.Grc.{
  Element, element, nil, cons, leaf, xml_indent, is_number, int_of, Generator, block_tags,
}
use hachoir.Grc.Indent.{content, content-xml_indent, xml_indent_twice}
use hachoir.Grc.Counts.{count, block_tags_counts}

abbrev tree : Element
tree = element (codes "block") none none (cons (leaf (codes "name") (codes "x")) nil)

content-xml_indent_example : content (xml_indent tree 0) ≡ content tree
content-xml_indent_example = content-xml_indent tree 0

xml_indent_twice_example : xml_indent (xml_indent tree 1) 1 ≡ xml_indent tree 1
xml_indent_twice_example = xml_indent_twice tree 1

indent_test :
    xml_indent tree 0
    ≡ element
        (codes "block")
        (some (codes "\n    "))
        (some (codes "\n"))
        (cons (element (codes "name") (some (codes "x")) (some (codes "\n")) nil) nil)
unfolding xml_indent text_eq
indent_test = refl

number_test :
    (is_number (codes " 3.5e2 ") ≡ true)
    × (is_number (codes "-1") ≡ true)
    × (is_number (codes "vlen") ≡ false)
unfolding is_number
number_test = (refl, refl, refl)

abbrev generator : Generator
generator = record {
  modname = codes "howto";
  blockname = codes "square_ff";
  doc = none;
  params =
      record { type = codes "int"; key = codes "vlen"; default = codes "1"; in_constructor = true }
      ∷ [];
  iosig = record {
    ports_in = some (record {
      type = codes "float" ∷ [];
      vlen = some (codes "vlen") ∷ [];
      min_ports = codes "1";
      max_ports = codes "-1";
    });
    ports_out = some (record {
      type = codes "float" ∷ codes "int" ∷ [];
      vlen = some (codes "1") ∷ some (codes "1") ∷ [];
      min_ports = codes "2";
      max_ports = codes "4";
    });
  };
}

abbrev returned : Outcome (List Element) → List Element
returned (ret es) = es
returned _ = []

abbrev generated : List Element
generated = returned (block_tags generator)

block_tags_counts_example :
    (count (codes "param") generated ≡ 1)
    × (count (codes "sink") generated ≡ 1)
    × (count (codes "source") generated ≡ 2)
unfolding block_tags is_number int_of text_eq
block_tags_counts_example = block_tags_counts generator refl
