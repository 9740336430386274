-- ===== src/Doxy/Base.antt =====
-- base.py: making objects from references and from parsed objects, and filling in members.
use hachoir.Prelude.{
  ℕ, true, Option, none, some, List, [], ◌∷◌, ◌++◌, Text, codes, text_eq, text_in, if◌then◌else◌,
}
use hachoir.DoxyText
use hachoir.DoxyText.{Item, description}
use hachoir.Doxy.Heap.{
  Class, function, klass, file, namespace, group, friend, other, Raw, Compound, Parsed, parsed,
  expat_error, io_error, Files, standard_error, attribute_error, io_failure, M, ◌>>=◌, ◌>>◌, ret,
  raise, get, update, fresh, alloc, lookup_ref, put_ref,
}

abbrev pub new_ref : Class → Option Raw → Text → M ℕ
new_ref cls raw refid = do
  i ← alloc (record (fresh cls raw) { refid = some refid })
  put_ref refid i
  ret i

abbrev pub known_or_new : Option ℕ → Class → Option Raw → Text → M ℕ
known_or_new (some i) cls raw refid = ret i
known_or_new none cls raw refid = new_ref cls raw refid

-- `cls.from_refid(refid, top)`
unfoldable pub from_refid : Class → Text → M ℕ
from_refid cls refid h = known_or_new (lookup_ref refid h.refs) cls none refid h

unfoldable pub by_refid : Option Text → Class → Raw → M ℕ
by_refid none cls raw h = alloc (fresh cls (some raw)) h
by_refid (some refid) cls raw h = known_or_new (lookup_ref refid h.refs) cls (some raw) refid h

-- `cls.from_parse_data(parse_data, top)`
unfoldable pub from_parse_data : Class → Raw → M ℕ
unfolding by_refid
from_parse_data cls raw = by_refid raw.refid cls raw

-- `self.add_ref(obj)`
unfoldable pub add_ref_of : Option Text → ℕ → M (Unit {0})
add_ref_of none i = ret tt
add_ref_of (some refid) i = put_ref refid i

unfoldable pub add_ref : ℕ → M (Unit {0})
unfolding add_ref_of
add_ref i = do o ← get i; add_ref_of o.refid i

abbrev other_kinds : List Text
other_kinds =
    codes "variable"
    ∷ codes "struct"
    ∷ codes "union"
    ∷ codes "define"
    ∷ codes "typedef"
    ∷ codes "enum"
    ∷ codes "dir"
    ∷ codes "page"
    ∷ []

-- `cls.can_parse(mem)` over `mem_classes`, in the order in which the classes were appended
unfoldable pub get_cls : Raw → Option Class
unfolding text_eq
get_cls mem =
    if text_eq mem.kind (codes "function")
    then some function
    else if text_eq mem.kind (codes "class")
    then some klass
    else if text_eq mem.kind (codes "file")
    then some file
    else if text_eq mem.kind (codes "namespace")
    then some namespace
    else if text_eq mem.kind (codes "group")
    then some group
    else if text_eq mem.kind (codes "friend")
    then some friend
    else if text_in mem.kind other_kinds
    then some other
    else none

unfoldable pub convert_as : Option Class → Raw → M (Option ℕ)
unfolding from_parse_data add_ref
convert_as none mem = ret none
convert_as (some cls) mem = do
  converted ← from_parse_data cls mem
  add_ref converted
  ret (some converted)

-- A kind without a class is reported and gives `None`: the handler swallows the `StandardError`.
unfoldable pub convert_mem : Raw → M (Option ℕ)
unfolding convert_as get_cls
convert_mem mem = convert_as (get_cls mem) mem

-- `description(getattr(parse_data, …, None))`
abbrev pub text_or_error : DoxyText.Result (Option Text) → M (Option Text)
text_or_error (DoxyText.ok t) = ret t
text_or_error DoxyText.standard_error = raise standard_error

unfoldable pub described : Option Item → M (Option Text)
described item = text_or_error (description item)

unfoldable pub set_descriptions : ℕ → Option Item → Option Item → M (Unit {0})
unfolding described
set_descriptions i brief detailed = do
  bd ← described brief
  dd ← described detailed
  update i (λ o. record o { brief_description = bd; detailed_description = dd })

abbrev pub flatten : List (List Raw) → List Raw
flatten [] = []
flatten (s ∷ ss) = s ++ flatten ss

-- The loop of `process_memberdefs`. The class in the pair is that of the member definition, the
-- same for all, so the set holds names.
unfoldable pub add_memberdefs : ℕ → List Text → List Raw → M (Unit {0})
unfolding convert_mem
add_memberdefs i uniques [] = ret tt
add_memberdefs i uniques (mem ∷ mems) = do
  converted ← convert_mem mem
  if text_in mem.name uniques
      then ret tt
      else update i (λ o. record o { members = o.members ++ converted ∷ [] })
  add_memberdefs i (if text_in mem.name uniques then uniques else mem.name ∷ uniques) mems

unfoldable pub process_memberdefs : ℕ → Compound → M (Unit {0})
unfolding add_memberdefs
process_memberdefs i c = add_memberdefs i [] (flatten c.sections)

unfoldable pub retrieved_as : ℕ → Parsed → M (Unit {0})
retrieved_as i (parsed c) = update i (λ o. record o { retrieved = some c })
retrieved_as i expat_error = update i (λ o. record o { error = true; retrieved = none })
retrieved_as i io_error = raise io_failure

unfoldable pub retrieve_refid : Files → ℕ → Option Text → M (Unit {0})
unfolding retrieved_as
retrieve_refid files i none = raise attribute_error
retrieve_refid files i (some refid) = retrieved_as i (files.parse refid)

-- `self.retrieve_data()`
unfoldable pub retrieve_data : Files → ℕ → M (Unit {0})
unfolding retrieve_refid
retrieve_data files i = do o ← get i; retrieve_refid files i o.refid
