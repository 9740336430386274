-- ===== src/SwigDoc/Tests.antt =====
-- Names and entries of a small class, and the theorems on literals at concrete texts.
use hachoir.Prelude.{
  Option, ℕ, join, true, String, if◌then◌else◌, ◌==◌, none, [], Text, arith, some, ◌∷◌, ◌++◌, codes,
  ◌≡◌, refl,
}
use hachoir.DoxyText.{string}
use hachoir.Doxy.Heap.{
  Class, index, function, klass, file, of_class, block, Object, fresh, Raw, parsed, Files, M, Reply,
  start, Heap, ok,
}
use hachoir.Doxy.Parse.{name_of}
use hachoir.Doxy.Lookup.{in_category}
use hachoir.SwigDoc.Gives.{Gives}
use hachoir.SwigDoc.Written.{HasName, make_swig_interface-texts}
use hachoir.Doxy.Valid.Writes.{start-IsValid}
use hachoir.Doxy.Valid.Rules.{Reached}
use hachoir.Doxy.Valid.Making.{Any}
use hachoir.SwigDoc.Whole.{make_swig_interface-IsValid}
use hachoir.SwigDoc.{
  combine_descriptions, factory_name, make_block_entry, make_func_entry, make_class_entry, notice,
  blank_line, make_swig_interface, py_name, make_name, utoascii,
}
use hachoir.SwigDoc.Escape.{read_literal, read_literal-utoascii, read_literal_backslash}

read_literal-utoascii_example :
    read_literal (utoascii (codes "say \"hi\"") ++ b'"' ∷ codes ";")
    ≡ some (codes "say \"hi\"", codes ";")
read_literal-utoascii_example = read_literal-utoascii (codes "say \"hi\"") (codes ";") refl

read_literal_backslash_test :
    read_literal (utoascii (b'\\' ∷ b'"' ∷ codes "x") ++ codes "\"")
    ≡ some (codes "\\", codes "x\"")
unfolding utoascii
read_literal_backslash_test = read_literal_backslash (codes "x") (codes "\"")

make_name_test : make_name (codes "howto_square_ff") ≡ codes "howto_make_square_ff"
unfolding make_name
make_name_test = refl

py_name_test : py_name (codes "howto_square_ff") ≡ codes "square_ff"
unfolding py_name
py_name_test = refl

abbrev raw : Text → Text → Raw
raw kind name = record {
  kind = kind;
  name = name;
  refid = none;
  brief = some (string (codes "Text."));
  detailed = some (string []);
  params = [];
}

-- a block: its class has a method and the factory as a friend, and the factory is a function
abbrev files : Files
files = record {
  compounds =
      record (raw (codes "class") (codes "box_ff")) { refid = some (codes "c") }
      ∷ raw (codes "function") (codes "box_make_ff")
      ∷ [];
  parse = λ refid. parsed (record {
    brief = some (string (codes "Text."));
    detailed = some (string []);
    title = none;
    sections =
        (raw (codes "function") (codes "box_ff") ∷ raw (codes "friend") (codes "box_make_ff") ∷ [])
        ∷ [];
    inner_groups = [];
    inner_classes = [];
  });
}

make_swig_interface-IsValid_test :
    Reached start Any
      (make_swig_interface files 0 [] start).0
      (make_swig_interface files 0 [] start).1
make_swig_interface-IsValid_test =
    make_swig_interface-IsValid files start 0 [] start-IsValid (omega arith)

-- objects that are parsed, with what they keep: a block and its factory, a function, and a class
abbrev described : Class → Text → Object
described cls name = record (fresh cls (some (raw [] name))) {
  is_parsed = true;
  brief_description = some (codes "T");
  detailed_description = some [];
}

abbrev settled : Heap
settled = record {
  objects =
      record (fresh index none) {
        is_parsed = true;
        members = some 1 ∷ some 2 ∷ some 3 ∷ some 4 ∷ [];
        in_category =
            (block, some 1 ∷ [])
            ∷ (of_class function, some 2 ∷ some 3 ∷ [])
            ∷ (of_class klass, some 1 ∷ some 4 ∷ [])
            ∷ (of_class file, [])
            ∷ [];
        dict_members =
            (of_class function, (codes "b_make_f", some 2) ∷ (codes "g", some 3) ∷ [])
            ∷ (of_class file, [])
            ∷ [];
      }
      ∷ record (described klass (codes "b_f")) {
        members = some 5 ∷ [];
        in_category = (of_class function, some 5 ∷ []) ∷ [];
        dict_members = (of_class function, (codes "b_f", some 5) ∷ []) ∷ [];
      }
      ∷ described function (codes "b_make_f")
      ∷ described function (codes "g")
      ∷ record (described klass (codes "k")) { in_category = (of_class function, []) ∷ [] }
      ∷ described function (codes "b_f")
      ∷ [];
  refs = [];
}

-- the text of an entry
abbrev doc : String → String → Text
doc name t = codes "%feature(\"docstring\") " ++ codes name ++ codes " \"" ++ codes t ++ codes "\""

abbrev block_text : Text
block_text =
    doc "b_f" "T\n\nT"
    ++ codes "\n\n"
    ++ doc "b_f::b_f" "T\n\nParams: (NONE)"
    ++ codes "\n\n"
    ++ doc "b_make_f" "T\n\nT\n\nParams: (NONE)"

block_at : make_block_entry files 0 1 settled ≡ (ok block_text, settled)
unfolding hachoir.Doxy.Lookup.in_category hachoir.Doxy.Parse.confirm_no_error name_of
    make_block_entry make_name hachoir.Prelude.text_eq hachoir.Doxy.Lookup.get_member
    combine_descriptions
block_at = refl

factory_at : factory_name files 0 1 settled ≡ (ok (codes "b_make_f"), settled)
unfolding hachoir.Doxy.Parse.confirm_no_error name_of factory_name make_name hachoir.Prelude.text_eq
    hachoir.Doxy.Lookup.get_member
factory_at = refl

func_at :
    make_func_entry files 3 none none none settled ≡ (ok (doc "g" "T\n\nParams: (NONE)"), settled)
unfolding hachoir.Doxy.Parse.confirm_no_error name_of make_func_entry combine_descriptions
func_at = refl

klass_at : make_class_entry files 4 none settled ≡ (ok (doc "k" "T"), settled)
unfolding hachoir.Doxy.Lookup.in_category hachoir.Doxy.Parse.confirm_no_error name_of
    make_class_entry combine_descriptions
klass_at = refl

abbrev name_at : ℕ → Text
name_at i =
    if i == 1
    then codes "b_f"
    else if i == 2
    then codes "b_make_f"
    else if i == 3
    then codes "g"
    else codes "k"

abbrev IsSettled : Heap → Type 0
IsSettled h = h ≡ settled

settled-Gives :
    {A : Type 0} (m : M A) {r : Reply A} → m settled ≡ (r, settled) → Gives IsSettled m r
settled-Gives m e h g = (settled, rw g e, refl)

named :
    (i : ℕ)
    → name_of files i settled ≡ (ok (name_at i), settled)
    → HasName files 0 IsSettled name_at i
named i e = settled-Gives (name_of files i) e

-- The factory and the block have no entry of their own beside that of the block.
make_swig_interface-texts_example :
    (make_swig_interface files 0 (codes "custom") settled).0
    ≡ ok (
        join blank_line
          (notice ∷ codes "custom" ∷ block_text ∷ doc "g" "T\n\nParams: (NONE)" ∷ doc "k" "T" ∷ []))
unfolding hachoir.Doxy.Lookup.in_category_by hachoir.Doxy.Lookup.in_category
    hachoir.Doxy.Parse.confirm_no_error name_of hachoir.Prelude.text_eq
make_swig_interface-texts_example =
    make_swig_interface-texts files 0 IsSettled name_at (λ i. some (codes "b_make_f"))
      (λ i. some block_text) (λ i. some (doc "g" "T\n\nParams: (NONE)")) (λ i. some (doc "k" "T"))
      (1 ∷ []) (2 ∷ 3 ∷ []) (1 ∷ 4 ∷ []) (codes "custom") settled {h1 = settled} refl refl
      (settled-Gives (in_category files 0 (of_class function)) refl)
      (settled-Gives (in_category files 0 (of_class klass)) refl)
      (
        (
          named 1 refl,
          settled-Gives (factory_name files 0 1) factory_at,
          settled-Gives (make_block_entry files 0 1) block_at,
        ),
        tt,
      )
      (named 2 refl, (named 3 refl, tt)) (named 1 refl, (named 4 refl, tt))
      ((named 3 refl, settled-Gives (make_func_entry files 3 none none none) func_at), tt)
      ((named 4 refl, settled-Gives (make_class_entry files 4 none) klass_at), tt)
