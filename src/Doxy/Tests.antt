-- ===== src/Doxy/Tests.antt =====
-- A heap with two functions of a name, a class and a file, and the theorems at it.
use hachoir.Prelude.{
  all as all_of, not, ◌==◌, inl, inr, map, ◌++◌, ℕ, arith, true, false, none, some, List, [], ◌∷◌,
  Text, codes, ◌≡◌, ◌≢◌, refl, text_eq,
}
use hachoir.Doxy.Heap.{
  function, klass, file, index, Raw, Compound, expat_error, parsed, Files, all, of_class, Object,
  Heap, attribute_error, parsing_error, ok, err, fresh, start,
}
use hachoir.Doxy.Parse.{check_parsed, members_of, name_of}
use hachoir.Doxy.Lookup.{lookup_name, get_member, has_member, in_category}
use hachoir.Doxy.Dict.{Named, dict_of, lookup-dict, answer, matching}
use hachoir.Doxy.Asked.{IsReady, get_member-answer, has_member-answer}
use hachoir.Doxy.Valid.Writes.{start-IsValid, IsValid-fresh}
use hachoir.Doxy.Base.{flatten, process_memberdefs}
use hachoir.Doxy.Valid.Attempted.{check_parsed_twice}
use hachoir.Doxy.Once.{Gained, distinct, process_memberdefs-Gained}
use hachoir.Doxy.Valid.Rules.{Reached}
use hachoir.Doxy.Valid.Making.{Address}
use hachoir.Doxy.Valid.Naming.{get_member-IsValid}
use hachoir.Doxy.Cached.{AllThere, in_category_twice}
use hachoir.Doxy.Broken.{
  made, behind, members_of_broken_class, members_of_broken_file, name_of_reference,
}

abbrev raw : Text → Text → Raw
raw kind name = record {
  kind = kind;
  name = name;
  refid = none;
  brief = none;
  detailed = none;
  params = [];
}

abbrev method : Text → Object
method name = fresh function (some (raw (codes "function") name))

abbrev owner : Object
owner = record (fresh klass none) {
  is_parsed = true;
  members = some 0 ∷ some 1 ∷ some 2 ∷ [];
  in_category = (of_class function, some 0 ∷ some 1 ∷ some 2 ∷ []) ∷ [];
}

abbrev heap : Heap
heap = record {
  objects =
      method (codes "get")
      ∷ method (codes "set")
      ∷ method (codes "set")
      ∷ owner
      ∷ made klass none (codes "c")
      ∷ made file none (codes "f")
      ∷ [];
  refs = [];
}

-- every file is broken
abbrev files : Files
files = record { compounds = []; parse = λ refid. expat_error }

abbrev names : List (Text × ℕ)
names = (codes "get", 0) ∷ (codes "set", 1) ∷ (codes "set", 2) ∷ []

named : Named heap (some 0 ∷ some 1 ∷ some 2 ∷ []) names
named = Named.cons 0 (method (codes "get")) (raw (codes "function") (codes "get")) refl refl (
    Named.cons 1 (method (codes "set")) (raw (codes "function") (codes "set")) refl refl (
      Named.cons 2 (method (codes "set")) (raw (codes "function") (codes "set")) refl refl
        Named.nil))

-- the owner of the two functions has been asked for its members, and not by name
ready : IsReady heap 3 function names
ready = record {
  object = owner;
  ms = some 0 ∷ some 1 ∷ some 2 ∷ [];
  settled = record {
    there = refl;
    is_parsed = refl;
    no_error = refl;
    all_there = AllThere.there 0 (method (codes "get")) refl (
        AllThere.there 1 (method (codes "set")) refl
          (AllThere.there 2 (method (codes "set")) refl AllThere.nil));
    selected = refl;
    named = named;
  };
  kept = inr refl;
  dict = inl refl;
}

has_member-answer_test : (has_member files (codes "reset") (of_class function) 3 heap).0 ≡ ok false
unfolding text_eq hachoir.Doxy.Parse.confirm_no_error
has_member-answer_test = has_member-answer files 3 function (codes "reset") heap refl refl ready

lookup-dict_test : lookup_name (codes "get") (dict_of [] names) ≡ some (some 0)
unfolding text_eq
lookup-dict_test = lookup-dict (codes "get") names

abbrev asked : Object
asked = record (fresh klass none) { is_parsed = true; members = some 0 ∷ none ∷ some 1 ∷ [] }

abbrev small_heap : Heap
small_heap = record {
  objects = method (codes "get") ∷ made klass none (codes "c") ∷ asked ∷ [];
  refs = [];
}

there_all : AllThere small_heap asked.members
there_all =
    AllThere.there 0 (method (codes "get")) refl
      (AllThere.failed (AllThere.there 1 (made klass none (codes "c")) refl AllThere.nil))

in_category_twice_example :
    (h' : Heap) × (in_category files 2 (of_class function) small_heap ≡ (ok (some 0 ∷ []), h'))
    × (in_category files 2 (of_class function) h' ≡ (ok (some 0 ∷ []), h'))
in_category_twice_example =
    in_category_twice files small_heap 2 function refl refl refl refl there_all

members_of_broken_class_test :
    (members_of files 4 heap ≡ (err parsing_error, behind files heap 4 none (codes "c") klass))
    × ((members_of files 4 (behind files heap 4 none (codes "c") klass)).0 ≡ err parsing_error)
members_of_broken_class_test = members_of_broken_class files heap 4 none (codes "c") refl refl

members_of_broken_file_example :
    (members_of files 5 heap ≡ (err attribute_error, behind files heap 5 none (codes "f") file))
    × ((members_of files 5 (behind files heap 5 none (codes "f") file)).0 ≡ err parsing_error)
members_of_broken_file_example = members_of_broken_file files heap 5 none (codes "f") refl refl

name_of_reference_test : (name_of files 4 heap).0 ≢ ok (codes "c")
name_of_reference_test = name_of_reference files heap 4 (codes "c") refl refl

-- an index with a file that declares a class with a method
abbrev indexed : Files
indexed = record {
  compounds = record (raw (codes "class") (codes "box")) { refid = some (codes "c") } ∷ [];
  parse = λ refid. parsed (record {
    brief = none;
    detailed = none;
    title = none;
    sections = (raw (codes "function") (codes "get") ∷ []) ∷ [];
    inner_groups = [];
    inner_classes = [];
  });
}

get_member-IsValid_example :
    Reached start Address
      (get_member indexed (codes "box::get") all 0 start).0
      (get_member indexed (codes "box::get") all 0 start).1
get_member-IsValid_example =
    get_member-IsValid indexed start (codes "box::get") all 0 start-IsValid (omega arith)

-- a new index, before and after it is parsed
abbrev box : Raw
box = record (raw (codes "class") (codes "box")) { refid = some (codes "c") }

abbrev opened : Heap
opened = record {
  objects =
      record (fresh index none) { is_parsed = true; members = some 1 ∷ [] }
      ∷ record (fresh klass (some box)) { refid = some (codes "c") }
      ∷ [];
  refs = (codes "c", 1) ∷ (codes "c", 1) ∷ [];
}

index-IsReady : IsReady opened 0 klass ((codes "box", 1) ∷ [])
index-IsReady = record {
  object = record (fresh index none) { is_parsed = true; members = some 1 ∷ [] };
  ms = some 1 ∷ [];
  settled = record {
    there = refl;
    is_parsed = refl;
    no_error = refl;
    all_there = AllThere.there 1 _ refl AllThere.nil;
    selected = refl;
    named = Named.cons 1 _ box refl refl Named.nil;
  };
  kept = inl refl;
  dict = inl refl;
}

get_member-answer_example :
    (h' : Heap) × (get_member indexed (codes "box") (of_class klass) 0 start ≡ (ok 1, h'))
    × ((later : Text)
        → all_of (λ x. not (x == b':')) later ≡ true
        → (get_member indexed later (of_class klass) 0 h').0
          ≡ answer (matching later ((codes "box", 1) ∷ [])))
unfolding text_eq hachoir.Doxy.Parse.confirm_no_error hachoir.Doxy.Base.convert_mem
get_member-answer_example =
    get_member-answer indexed 0 klass (codes "box") start {h1 = opened} refl refl index-IsReady

get_member_test : (get_member indexed (codes "box::get") all 0 start).0 ≡ ok 2
unfolding get_member text_eq hachoir.Doxy.Parse.confirm_no_error hachoir.Doxy.Base.convert_mem
    name_of hachoir.Doxy.Base.retrieve_data hachoir.Doxy.Base.set_descriptions
    hachoir.DoxyText.description hachoir.Doxy.Base.process_memberdefs
get_member_test = refl

-- a name that is in two sections, and a kind without a class
abbrev sections : Compound
sections = record {
  brief = none;
  detailed = none;
  title = none;
  sections =
      (raw (codes "function") (codes "get") ∷ raw (codes "signal") (codes "changed") ∷ [])
      ∷ (raw (codes "function") (codes "get") ∷ [])
      ∷ [];
  inner_groups = [];
  inner_classes = [];
}

abbrev with_class : Heap
with_class = record start { objects = start.objects ++ fresh klass none ∷ [] }

process_memberdefs-Gained_example :
    Gained 1
      (fresh klass none)
      with_class
      (distinct [] (flatten sections.sections))
      (process_memberdefs 1 sections with_class)
process_memberdefs-Gained_example =
    process_memberdefs-Gained with_class 1 (fresh klass none) sections
      (IsValid-fresh start klass none start-IsValid) refl

distinct_test :
    map (λ r. r.name) (distinct [] (flatten sections.sections)) ≡ codes "get" ∷ codes "changed" ∷ []
unfolding distinct text_eq
distinct_test = refl

-- an object without a reference, whose attempt raises
check_parsed_twice_example :
    check_parsed files 1 (check_parsed files 1 with_class).1
    ≡ (ok tt, (check_parsed files 1 with_class).1)
check_parsed_twice_example =
    check_parsed_twice files with_class 1 (IsValid-fresh start klass none start-IsValid)
      (omega arith)
