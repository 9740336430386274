-- ===== src/SwigDoc.antt =====
-- gr-gtsrc/docs/doxygen/swig_doc.py: docstrings for SWIG from the objects of doxyxml.
pub mod Escape
pub mod Safe
pub mod Interface
pub mod Whole
pub mod Gives
pub mod Written
mod Tests
use hachoir.Prelude.{
  ℕ, Bool, true, false, not, Option, none, some, List, [], ◌∷◌, ◌++◌, Text, codes, text_eq, text_in,
  if◌then◌else◌, split, join, replace, strip, contains, map,
}
use hachoir.Doxy.Heap.{
  Class, function, klass, file, friend, RawParam, Cat, of_class, block, Files, Object, Heap, Error,
  no_such_member, parsing_error, attribute_error, Reply, ok, err, M, continue, ◌>>=◌, ◌>>◌, ret,
  raise, get,
}
use hachoir.Doxy.Parse.{error_of, name_of, confirm_no_error}
use hachoir.Doxy.Lookup.{instance_of, in_category, in_category_by, get_member, has_member}

abbrev underscore : Text
underscore = codes "_"

abbrev tail_of : List Text → List Text
tail_of [] = []
tail_of (b ∷ bs) = bs

unfoldable pub py_name : Text → Text
py_name name = join underscore (tail_of (split b'_' name))

abbrev first_of : List Text → Text
first_of [] = []
first_of (b ∷ bs) = b

unfoldable pub make_name : Text → Text
make_name name =
    let bits = split b'_' name in first_of bits ++ codes "_make_" ++ join underscore (tail_of bits)

-- behind the test of the class: no error, and a friend with the name of the factory function
abbrev pub has_factory : Files → ℕ → Bool → M Bool
has_factory files i true = ret false
has_factory files i false = do
  name ← name_of files i
  has_member files (make_name name) (of_class friend) i

abbrev pub sound_class : Files → Option ℕ → Bool → M Bool
sound_class files none b = ret false
sound_class files (some i) false = ret false
sound_class files (some i) true = do e ← error_of files i; has_factory files i e

-- `Block.includes(item)`
unfoldable pub block_includes : Files → Option ℕ → M Bool
block_includes files item = do b ← instance_of klass item; sound_class files item b

-- `utoascii(text)` of ASCII text
unfoldable pub utoascii : Text → Text
utoascii text = replace (codes "\"") (codes "\\\"") text

abbrev pub stripped : Option Text → M Text
stripped none = raise attribute_error
stripped (some t) = ret (strip t)

abbrev pub unless_empty : Text → List Text
unless_empty [] = []
unless_empty (c ∷ cs) = (c ∷ cs) ∷ []

abbrev pub blank_line : Text
blank_line = codes "\n\n"

unfoldable pub combine_descriptions : Files → ℕ → M Text
unfolding utoascii
combine_descriptions files i = do
  confirm_no_error files i
  o ← get i
  bd ← stripped o.brief_description
  dd ← stripped o.detailed_description
  ret (strip (utoascii (join blank_line (unless_empty bd ++ unless_empty dd))))

-- '%feature("docstring") {name} "{docstring}"'
abbrev pub entry : Text → Text → Text
entry name [] = []
entry name (c ∷ docstring) =
    codes "%feature(\"docstring\") " ++ name ++ codes " \"" ++ (c ∷ docstring) ++ codes "\""

unfoldable pub described_as : Files → ℕ → Option Text → M Text
unfolding combine_descriptions
described_as files i none = combine_descriptions files i
described_as files i (some t) = ret t

-- `make_entry` with its name; what the template has behind the description is passed
unfoldable pub make_named_entry : Files → ℕ → Text → Text → Option Text → M Text
unfolding described_as
make_named_entry files i name behind description =
    if contains (codes "operator ") name
    then ret []
    else (described_as files i description >>= λ t. ret (entry name (t ++ behind)))

unfoldable pub named_as : Files → ℕ → Option Text → M Text
named_as files i none = name_of files i
named_as files i (some n) = ret n

unfoldable pub make_entry : Files → ℕ → Option Text → Text → Option Text → M Text
unfolding make_named_entry named_as
make_entry files i name behind description = do
  n ← named_as files i name
  make_named_entry files i n behind description

abbrev pub signature : List Text → Text
signature [] = codes "Params: (NONE)"
signature (p ∷ ps) = codes "Params: (" ++ join (codes ", ") (p ∷ ps) ++ codes ")"

-- `func.params`
abbrev pub params_of : Files → ℕ → M (List RawParam)
params_of files i = do confirm_no_error files i; o ← get i; ret o.params

unfoldable pub params_or : Files → ℕ → Option (List RawParam) → M (List RawParam)
params_or files i none = params_of files i
params_or files i (some ps) = ret ps

unfoldable pub make_func_entry :
    Files → ℕ → Option Text → Option Text → Option (List RawParam) → M Text
unfolding make_entry params_or
make_func_entry files i name description params = do
  ps ← params_or files i params
  make_entry files i name (utoascii (blank_line ++ signature (map (λ p. p.declname) ps)))
      description

-- the entries of the methods; `None` has no name
unfoldable pub method_entries : Files → ℕ → List (Option ℕ) → M (List Text)
unfolding make_func_entry
method_entries files i [] = ret []
method_entries files i (none ∷ ms) = raise attribute_error
method_entries files i (some f ∷ ms) = do
  k ← name_of files i
  n ← name_of files f
  e ← make_func_entry files f (some (k ++ codes "::" ++ n)) none none
  rest ← method_entries files i ms
  ret (e ∷ rest)

unfoldable pub make_class_entry : Files → ℕ → Option Text → M Text
unfolding method_entries make_entry
make_class_entry files i description = do
  e ← make_entry files i none [] description
  funcs ← in_category files i (of_class function)
  rest ← method_entries files i funcs
  ret (join blank_line (e ∷ rest))

-- the handler around the file's description takes `NoSuchMember` alone
abbrev pub unless_missing : Reply Text → M (List Text)
unless_missing (ok t) = ret (unless_empty t)
unless_missing (err no_such_member) = ret []
unless_missing (err e) = raise e

unfoldable pub file_description : Files → ℕ → Text → M Text
file_description files di name = do
  f ← get_member files (name ++ codes ".h") (of_class file) di
  combine_descriptions files f

unfoldable pub file_descriptions : Files → ℕ → Text → M (List Text)
unfolding file_description
file_descriptions files di name h =
    unless_missing (file_description files di name h).0 (file_description files di name h).1

unfoldable pub make_block_entry : Files → ℕ → ℕ → M Text
unfolding file_descriptions make_class_entry
make_block_entry files di i = do
  class_desc ← combine_descriptions files i
  name ← name_of files i
  make_func ← get_member files (make_name name) (of_class function) di
  make_desc ← combine_descriptions files make_func
  file_descs ← file_descriptions files di name
  e ←
      make_class_entry files i
        (some (join blank_line (unless_empty class_desc ++ unless_empty make_desc ++ file_descs)))
  creator ← get_member files name (of_class function) i
  ps ← params_of files creator
  f ←
      make_func_entry files make_func none
        (some (join blank_line (unless_empty class_desc ++ unless_empty make_desc ++ file_descs)))
        (some ps)
  ret (join blank_line (e ∷ f ∷ []))

-- `try: m` with a handler of `ParsingError`, and what follows where there was none
abbrev pub handled : {A B : Type 0} → Reply A → (A → M B) → M B → M B
handled (ok a) f g = f a
handled (err parsing_error) f g = g
handled (err e) f g = raise e

abbrev pub try_parsing : {A B : Type 0} → M A → (A → M B) → M B → M B
try_parsing m f g h = handled (m h).0 f g (m h).1

-- the message of the handlers
abbrev pub reported : {A : Type 0} → Files → ℕ → A → M A
reported files i a = do _ ← name_of files i; ret a

-- the factory functions that are dealt with, and the entries
abbrev pub Progress : Type 0
Progress = List Text × List Text

unfoldable pub factory_name : Files → ℕ → ℕ → M Text
factory_name files di i = do
  name ← name_of files i
  make_func ← get_member files (make_name name) (of_class function) di
  name_of files make_func

unfoldable pub block_round : Files → ℕ → ℕ → Progress → M Progress
unfolding make_block_entry factory_name
block_round files di i (names, out) =
    try_parsing (factory_name files di i)
      (λ n.
        try_parsing (make_block_entry files di i) (λ t. ret (n ∷ names, out ++ t ∷ []))
          (reported files i (n ∷ names, out)))
      (reported files i (names, out))

unfoldable pub block_rounds : Files → ℕ → List (Option ℕ) → Progress → M Progress
unfolding block_round
block_rounds files di [] p = ret p
block_rounds files di (none ∷ bs) p = raise attribute_error
block_rounds files di (some i ∷ bs) p = do q ← block_round files di i p; block_rounds files di bs q

-- the members whose name is not among those that are given
unfoldable pub unnamed : Files → List Text → List (Option ℕ) → M (List ℕ)
unnamed files names [] = ret []
unnamed files names (none ∷ ms) = raise attribute_error
unnamed files names (some i ∷ ms) = do
  n ← name_of files i
  rest ← unnamed files names ms
  ret (if text_in n names then rest else i ∷ rest)

unfoldable pub entries_of : Files → (ℕ → M Text) → List ℕ → M (List Text)
entries_of files make [] = ret []
entries_of files make (i ∷ is) = do
  e ← try_parsing (make i) (λ t. ret (t ∷ [])) (reported files i [])
  rest ← entries_of files make is
  ret (e ++ rest)

unfoldable pub names_of : Files → List (Option ℕ) → M (List Text)
names_of files [] = ret []
names_of files (none ∷ ms) = raise attribute_error
names_of files (some i ∷ ms) = do n ← name_of files i; rest ← names_of files ms; ret (n ∷ rest)

abbrev pub notice : Text
notice =
    codes
      "\n/*\n * This file was automatically generated using swig_doc.py.\n *\n * Any changes to it will be lost next time it is regenerated.\n */\n"

-- the text of the file that `make_swig_interface_file` writes; the command line passes an empty
-- text as `custom_output`
unfoldable pub make_swig_interface : Files → ℕ → Text → M Text
unfolding block_rounds unnamed entries_of names_of block_includes
make_swig_interface files di custom_output = do
  blocks ← in_category_by (block_includes files) files di block
  p ← block_rounds files di blocks ([], [])
  functions ← in_category files di (of_class function)
  funcs ← unnamed files p.0 functions
  func_entries ← entries_of files (λ f. make_func_entry files f none none none) funcs
  block_names ← names_of files blocks
  classes ← in_category files di (of_class klass)
  klasses ← unnamed files block_names classes
  class_entries ← entries_of files (λ k. make_class_entry files k none) klasses
  ret (join blank_line (notice ∷ custom_output ∷ [] ++ p.1 ++ func_entries ++ class_entries))
