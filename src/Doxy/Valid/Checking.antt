-- ===== src/Doxy/Valid/Checking.antt =====
-- The methods that parse an object first, those of the index too, keep the heap valid.
use hachoir.Prelude.{
  ℕ, ◌≤◌, ◌<◌, Bool, true, false, Option, none, some, List, [], ◌∷◌, codes, arith, ends_with,
}
use hachoir.Doxy.Heap.{
  Class, function, klass, file, namespace, group, friend, other, index, Raw, Files, Object,
  standard_error, attribute_error, parsing_error, M, ◌>>=◌, ◌>>◌, ret, get,
}
use hachoir.Doxy.Base.{get_cls, convert_mem}
use hachoir.Doxy.Parse.{
  mark, parse_unless, check_leaf, no_error, leaf_members, append_members, add_file, add_compound,
  add_compounds, index_unless, by_class, check_parsed, confirm_no_error, members_of, name_from,
  name_of,
}
use hachoir.Doxy.Valid.{Within, Closed, Within-le}
use hachoir.Doxy.Valid.Rules.{
  Ensures, Done, Ensures-ret, Ensures-raise, Ensures-bind, Ensures-then, Ensures-if, Ensures-get,
}
use hachoir.Doxy.Valid.Making.{Listed, Any, convert_mem-Ensures, Ensures-members}
use hachoir.Doxy.Valid.Parsing.{mark-Ensures, nothing-Ensures, parse_as-Ensures}

parse_unless-Ensures :
    (done : Bool) (cls : Class) (files : Files) (n i : ℕ) (raw : Option Raw)
    → i < n
    → Ensures n (parse_unless done cls files i raw) Done
unfolding parse_unless
parse_unless-Ensures true cls files n i raw b = nothing-Ensures n
parse_unless-Ensures false cls files n i raw b = parse_as-Ensures cls files n i raw b

check_leaf-Ensures : (files : Files) (n i : ℕ) → i < n → Ensures n (check_leaf files i) Done
unfolding check_leaf
check_leaf-Ensures files n i b =
    Ensures-bind n (get i) _ Closed Done (Ensures-get n i b)
      λ k o l c. parse_unless-Ensures o.is_parsed o.cls files k i o.parse_data (omega arith)

no_error-Ensures : (n : ℕ) (o : Object) → Ensures n (no_error o) Done
no_error-Ensures n o =
    Ensures-if n o.error _ _ Done (Ensures-raise n parsing_error Done tt) (nothing-Ensures n)

-- the members of an object that was looked at are returned
answer_members-Ensures :
    (n i : ℕ) (looked : Object → M (Unit {0}))
    → i < n
    → ((k : ℕ) (o : Object) → n ≤ k → Ensures k (looked o) Done)
    → Ensures n (do o ← get i; looked o; ret o.members) Within
answer_members-Ensures n i looked b e =
    Ensures-bind n (get i) _ Closed Within (Ensures-get n i b) λ k o l c.
      Ensures-then k (looked o) _ Done Within (e k o l) λ m g.
        Ensures-ret m o.members Within (λ j q. Within-le k j o.members (omega arith) c.members)

leaf_members-Ensures : (files : Files) (n i : ℕ) → i < n → Ensures n (leaf_members files i) Within
unfolding leaf_members
leaf_members-Ensures files n i b =
    Ensures-then n (check_leaf files i) _ Done Within (check_leaf-Ensures files n i b)
      λ k l. answer_members-Ensures k i no_error (omega arith) (λ m o g. no_error-Ensures m o)

add_file-Ensures :
    (files : Files) (n i : ℕ) (header : Bool) (converted : Option ℕ)
    → i < n
    → Within n (converted ∷ [])
    → Ensures n (add_file files i header converted) Done
unfolding add_file
add_file-Ensures files n i false converted b w = nothing-Ensures n
add_file-Ensures files n i true none b w = Ensures-raise n attribute_error Done tt
add_file-Ensures files n i true (some f) b (a, _) =
    Ensures-bind n (leaf_members files f) _ Within Done (leaf_members-Ensures files n f a)
      λ k ms l w.
        Ensures-then k (append_members i ms) _ Done Done (Ensures-members k i ms (omega arith) w)
          λ m g. Ensures-members m i (some f ∷ []) (omega arith) (omega arith, tt)

add_compound-Ensures :
    (files : Files) (n i : ℕ) (mem : Raw) (converted : Option ℕ) (c : Option Class)
    → i < n
    → Within n (converted ∷ [])
    → Ensures n (add_compound files i mem converted c) Done
unfolding add_compound
add_compound-Ensures files n i mem converted none b w = Ensures-raise n standard_error Done tt
add_compound-Ensures files n i mem converted (some file) b w =
    add_file-Ensures files n i (ends_with (codes ".h") mem.name) converted b w
add_compound-Ensures files n i mem converted (some function) b w =
    Ensures-members n i (converted ∷ []) b w
add_compound-Ensures files n i mem converted (some klass) b w =
    Ensures-members n i (converted ∷ []) b w
add_compound-Ensures files n i mem converted (some namespace) b w =
    Ensures-members n i (converted ∷ []) b w
add_compound-Ensures files n i mem converted (some group) b w =
    Ensures-members n i (converted ∷ []) b w
add_compound-Ensures files n i mem converted (some friend) b w =
    Ensures-members n i (converted ∷ []) b w
add_compound-Ensures files n i mem converted (some other) b w =
    Ensures-members n i (converted ∷ []) b w
add_compound-Ensures files n i mem converted (some index) b w =
    Ensures-members n i (converted ∷ []) b w

pub add_compounds-Ensures :
    (files : Files) (n i : ℕ) (mems : List Raw)
    → i < n
    → Ensures n (add_compounds files i mems) Done
unfolding add_compounds
add_compounds-Ensures files n i [] b = nothing-Ensures n
add_compounds-Ensures files n i (mem ∷ mems) b =
    Ensures-bind n (convert_mem mem) _ Listed Done (convert_mem-Ensures n mem) λ k converted l w.
      Ensures-then k (add_compound files i mem converted (get_cls mem)) _ Done Done
        (add_compound-Ensures files k i mem converted (get_cls mem) (omega arith) w)
        λ m g. add_compounds-Ensures files m i mems (omega arith)

index_unless-Ensures :
    (files : Files) (n i : ℕ) (done : Bool) → i < n → Ensures n (index_unless done files i) Done
unfolding index_unless
index_unless-Ensures files n i true b = nothing-Ensures n
index_unless-Ensures files n i false b =
    Ensures-then n (mark i) _ Done Done (mark-Ensures n i b)
      λ k l. add_compounds-Ensures files k i files.compounds (omega arith)

by_class-Ensures :
    (files : Files) (n i : ℕ) (o : Object) (cls : Class)
    → i < n
    → Ensures n (by_class cls files i o) Done
unfolding by_class
by_class-Ensures files n i o index b = index_unless-Ensures files n i o.is_parsed b
by_class-Ensures files n i o function b =
    parse_unless-Ensures o.is_parsed function files n i o.parse_data b
by_class-Ensures files n i o klass b =
    parse_unless-Ensures o.is_parsed klass files n i o.parse_data b
by_class-Ensures files n i o file b = parse_unless-Ensures o.is_parsed file files n i o.parse_data b
by_class-Ensures files n i o namespace b =
    parse_unless-Ensures o.is_parsed namespace files n i o.parse_data b
by_class-Ensures files n i o group b =
    parse_unless-Ensures o.is_parsed group files n i o.parse_data b
by_class-Ensures files n i o friend b =
    parse_unless-Ensures o.is_parsed friend files n i o.parse_data b
by_class-Ensures files n i o other b =
    parse_unless-Ensures o.is_parsed other files n i o.parse_data b

pub check_parsed-Ensures : (files : Files) (n i : ℕ) → i < n → Ensures n (check_parsed files i) Done
unfolding check_parsed
check_parsed-Ensures files n i b =
    Ensures-bind n (get i) _ Closed Done (Ensures-get n i b)
      λ k o l c. by_class-Ensures files k i o o.cls (omega arith)

pub confirm_no_error-Ensures :
    (files : Files) (n i : ℕ) → i < n → Ensures n (confirm_no_error files i) Done
unfolding confirm_no_error
confirm_no_error-Ensures files n i b =
    Ensures-then n (check_parsed files i) _ Done Done (check_parsed-Ensures files n i b) λ k l.
      Ensures-bind k (get i) _ Closed Done (Ensures-get k i (omega arith))
        λ m o g c. no_error-Ensures m o

pub members_of-Ensures : (files : Files) (n i : ℕ) → i < n → Ensures n (members_of files i) Within
unfolding members_of
members_of-Ensures files n i b =
    Ensures-then n (confirm_no_error files i) _ Done Within (confirm_no_error-Ensures files n i b)
      λ k l.
        Ensures-bind k (get i) _ Closed Within (Ensures-get k i (omega arith))
          λ m o g c. Ensures-ret m o.members Within (λ j q. Within-le m j o.members q c.members)

name_from-Ensures :
    (files : Files) (n i : ℕ) (raw : Option Raw) → i < n → Ensures n (name_from files i raw) Any
unfolding name_from
name_from-Ensures files n i (some raw) b = Ensures-ret n raw.name Any (λ k l. tt)
name_from-Ensures files n i none b =
    Ensures-then n (check_parsed files i) _ Done Any (check_parsed-Ensures files n i b)
      λ k l. Ensures-raise k attribute_error Any tt

pub name_of-Ensures : (files : Files) (n i : ℕ) → i < n → Ensures n (name_of files i) Any
unfolding name_of
name_of-Ensures files n i b =
    Ensures-bind n (get i) _ Closed Any (Ensures-get n i b)
      λ k o l c. name_from-Ensures files k i o.parse_data (omega arith)
