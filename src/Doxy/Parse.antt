-- ===== src/Doxy/Parse.antt =====
-- doxyindex.py: what each class does when it is parsed, and the methods of base.py that parse an
-- object first.
use hachoir.Prelude.{
  ℕ, Bool, true, false, Option, none, some, List, [], ◌∷◌, ◌++◌, Text, codes, ends_with,
  if◌then◌else◌,
}
use hachoir.Doxy.Heap.{
  Class, function, klass, file, namespace, group, friend, other, index, Raw, Compound, Files,
  Object, standard_error, attribute_error, parsing_error, M, ◌>>=◌, ◌>>◌, ret, raise, get, update,
}
use hachoir.Doxy.Base.{
  from_refid, get_cls, convert_mem, set_descriptions, described, process_memberdefs, retrieve_data,
}

-- `Base._parse`
abbrev pub mark : ℕ → M (Unit {0})
mark i = update i (λ o. record o { is_parsed = true })

unfoldable pub parse_function : ℕ → Option Raw → M (Unit {0})
parse_function i none = do set_descriptions i none none; raise attribute_error
parse_function i (some d) = do
  set_descriptions i d.brief d.detailed
  update i (λ o. record o { params = d.params })

-- `self._retrieved_data.compounddef`; on `None` it raises `AttributeError`
abbrev pub compounddef : Option Compound → M Compound
compounddef none = raise attribute_error
compounddef (some c) = ret c

unfoldable pub class_body : ℕ → Bool → Option Compound → M (Unit {0})
class_body i true c = ret tt
class_body i false c = do
  cdef ← compounddef c
  set_descriptions i cdef.brief cdef.detailed
  process_memberdefs i cdef

unfoldable pub parse_class : Files → ℕ → M (Unit {0})
unfolding class_body
parse_class files i = do retrieve_data files i; o ← get i; class_body i o.error o.retrieved

-- the descriptions are read before the error is looked at
unfoldable pub file_body : ℕ → Bool → Option Compound → M (Unit {0})
file_body i bad c = do
  cdef ← compounddef c
  set_descriptions i cdef.brief cdef.detailed
  if bad then ret tt else process_memberdefs i cdef

unfoldable pub parse_file : Files → ℕ → M (Unit {0})
unfolding file_body
parse_file files i = do retrieve_data files i; o ← get i; file_body i o.error o.retrieved

unfoldable pub add_by_refid : Class → ℕ → List Text → M (Unit {0})
add_by_refid cls i [] = ret tt
add_by_refid cls i (refid ∷ rest) = do
  converted ← from_refid cls refid
  update i (λ o. record o { members = o.members ++ some converted ∷ [] })
  add_by_refid cls i rest

unfoldable pub group_body : ℕ → Bool → Option Compound → M (Unit {0})
unfolding add_by_refid
group_body i true c = ret tt
group_body i false c = do
  cdef ← compounddef c
  t ← described cdef.title
  update i (λ o. record o { title = t })
  add_by_refid group i cdef.inner_groups
  add_by_refid klass i cdef.inner_classes
  process_memberdefs i cdef

unfoldable pub parse_group : Files → ℕ → M (Unit {0})
unfolding group_body
parse_group files i = do retrieve_data files i; o ← get i; group_body i o.error o.retrieved

-- `_parse` of every class but `DoxyIndex`, behind its first line
unfoldable pub parse_as : Class → Files → ℕ → Option Raw → M (Unit {0})
unfolding parse_function parse_class parse_file parse_group
parse_as function files i raw = do mark i; parse_function i raw
parse_as klass files i raw = do mark i; parse_class files i
parse_as file files i raw = do mark i; parse_file files i
parse_as group files i raw = do mark i; parse_group files i
parse_as namespace files i raw = mark i
parse_as friend files i raw = mark i
parse_as other files i raw = mark i
parse_as index files i raw = mark i

unfoldable pub parse_unless : Bool → Class → Files → ℕ → Option Raw → M (Unit {0})
unfolding parse_as
parse_unless true cls files i raw = ret tt
parse_unless false cls files i raw = parse_as cls files i raw

-- `self.check_parsed()` of an object that is not the index
unfoldable pub check_leaf : Files → ℕ → M (Unit {0})
unfolding parse_unless
check_leaf files i = do o ← get i; parse_unless o.is_parsed o.cls files i o.parse_data

abbrev pub no_error : Object → M (Unit {0})
no_error o = if o.error then raise parsing_error else ret tt

-- `self.members()` of an object that is not the index
unfoldable pub leaf_members : Files → ℕ → M (List (Option ℕ))
unfolding check_leaf
leaf_members files i = do check_leaf files i; o ← get i; no_error o; ret o.members

abbrev pub append_members : ℕ → List (Option ℕ) → M (Unit {0})
append_members i ms = update i (λ o. record o { members = o.members ++ ms })

-- The members of a header file are members of the index too; other files are left out. `None`
-- has no method `members`.
unfoldable pub add_file : Files → ℕ → Bool → Option ℕ → M (Unit {0})
unfolding leaf_members
add_file files i false converted = ret tt
add_file files i true none = raise attribute_error
add_file files i true (some f) = do
  ms ← leaf_members files f
  append_members i ms
  append_members i (some f ∷ [])

-- `self.get_cls(mem)` is called once more, outside the handler
unfoldable pub add_compound : Files → ℕ → Raw → Option ℕ → Option Class → M (Unit {0})
unfolding add_file
add_compound files i mem converted none = raise standard_error
add_compound files i mem converted (some file) =
    add_file files i (ends_with (codes ".h") mem.name) converted
add_compound files i mem converted (some cls) = append_members i (converted ∷ [])

unfoldable pub add_compounds : Files → ℕ → List Raw → M (Unit {0})
unfolding add_compound
add_compounds files i [] = ret tt
add_compounds files i (mem ∷ mems) = do
  converted ← convert_mem mem
  add_compound files i mem converted (get_cls mem)
  add_compounds files i mems

unfoldable pub index_unless : Bool → Files → ℕ → M (Unit {0})
unfolding add_compounds
index_unless true files i = ret tt
index_unless false files i = do mark i; add_compounds files i files.compounds

unfoldable pub by_class : Class → Files → ℕ → Object → M (Unit {0})
unfolding parse_unless index_unless
by_class index files i o = index_unless o.is_parsed files i
by_class cls files i o = parse_unless o.is_parsed cls files i o.parse_data

-- `self.check_parsed()`
unfoldable pub check_parsed : Files → ℕ → M (Unit {0})
unfolding by_class
check_parsed files i = do o ← get i; by_class o.cls files i o

-- `self.confirm_no_error()`
unfoldable pub confirm_no_error : Files → ℕ → M (Unit {0})
unfolding check_parsed
confirm_no_error files i = do check_parsed files i; o ← get i; no_error o

-- `self.error()`
unfoldable pub error_of : Files → ℕ → M Bool
unfolding check_parsed
error_of files i = do check_parsed files i; o ← get i; ret o.error

-- `self.members()`
unfoldable pub members_of : Files → ℕ → M (List (Option ℕ))
unfolding confirm_no_error
members_of files i = do confirm_no_error files i; o ← get i; ret o.members

-- Without a parsed object the name is asked of the `compounddef`, which has no such attribute (it
-- has `compoundname`); an object that retrieves nothing has not even that.
unfoldable pub name_from : Files → ℕ → Option Raw → M Text
unfolding check_parsed
name_from files i (some raw) = ret raw.name
name_from files i none = do check_parsed files i; raise attribute_error

-- `self.name()`
unfoldable pub name_of : Files → ℕ → M Text
unfolding name_from
name_of files i = do o ← get i; name_from files i o.parse_data
