-- ===== src/Doxy/Heap.antt =====
-- The objects, the heap that holds them, and the monad of methods that may raise: what was written
-- before an exception stays written.
use hachoir.Prelude.{
  ℕ, Bool, false, Option, none, some, List, [], ◌∷◌, ◌++◌, Text, length, get_elem?, set,
  if◌then◌else◌, text_eq,
}
use hachoir.DoxyText.{Item}

-- the classes, by the kind of the parsed object that each of them takes
pub data Class : Type 0 where
  function klass file namespace group friend other index : Class

-- A parsed object of the generated classes: a compound of the index, or a member definition, with
-- the attributes that are read. A missing attribute is `none`.
pub record RawParam : Type 0 where
  pub declname : Text
  pub brief : Option Item
  pub detailed : Option Item

pub record Raw : Type 0 where
  pub kind : Text
  pub name : Text
  pub refid : Option Text
  pub brief : Option Item
  pub detailed : Option Item
  pub params : List RawParam

-- the `compounddef` of a file: its descriptions, title, sections of members, and the references
-- to inner groups and inner classes
pub record Compound : Type 0 where
  pub brief : Option Item
  pub detailed : Option Item
  pub title : Option Item
  pub sections : List (List Raw)
  pub inner_groups : List Text
  pub inner_classes : List Text

-- What `compound.parse` makes of a file: the object, expat's error, or the error of `open`.
pub data Parsed : Type 0 where
  parsed : Compound → Parsed
  expat_error io_error : Parsed

-- The directory of XML files: the compounds of index.xml, and each file by the reference it is
-- named for.
pub record Files : Type 0 where
  pub compounds : List Raw
  pub parse : Text → Parsed

-- The categories that members are asked for: all, those of a class, or the blocks of swig_doc.py.
pub data Cat : Type 0 where
  all : Cat
  of_class : Class → Cat
  block : Cat

-- A dictionary from names to members; `none` stands for `Duplicate`.
abbrev pub MemberDict : Type 0
MemberDict = List (Text × Option ℕ)

-- One instance of `Base`. Members are addresses; `none` is the `None` of a failed conversion.
pub record Object : Type 0 where
  pub cls : Class
  pub parse_data : Option Raw
  pub refid : Option Text
  pub is_parsed : Bool
  pub error : Bool
  pub members : List (Option ℕ)
  pub in_category : List (Cat × List (Option ℕ))
  pub dict_members : List (Cat × MemberDict)
  pub brief_description : Option Text
  pub detailed_description : Option Text
  pub title : Option Text
  pub params : List RawParam
  pub retrieved : Option Compound

pub record Heap : Type 0 where
  pub objects : List Object
  pub refs : List (Text × ℕ)

-- `fault` is an address that holds no object; Python has none.
pub data Error : Type 0 where
  no_such_member duplicate parsing_error attribute_error standard_error io_failure fault : Error

pub data Reply {ℓ} (A : Type ℓ) : Type ℓ where
  ok : A → Reply A
  err : Error → Reply A

abbrev pub M : Type 0 → Type 0
M A = Heap → Reply A × Heap

abbrev pub continue : {A B : Type 0} → Reply A → (A → M B) → M B
continue (ok a) f h = f a h
continue (err e) f h = (err e, h)

infixl 5 ◌>>=◌ ◌>>◌
abbrev pub ◌>>=◌ : {A B : Type 0} → M A → (A → M B) → M B
◌>>=◌ m f h = continue (m h).0 f (m h).1

abbrev pub ◌>>◌ : {A B : Type 0} → M A → M B → M B
m >> n = m >>= λ _. n

abbrev pub ret : {A : Type 0} → A → M A
ret a h = (ok a, h)

abbrev pub raise : {A : Type 0} → Error → M A
raise e h = (err e, h)

abbrev found : Option Object → M Object
found none = raise fault
found (some o) = ret o

-- `self`
abbrev pub get : ℕ → M Object
get i h = found (get_elem? h.objects i) h

abbrev written : Option Object → (Object → Object) → ℕ → M (Unit {0})
written none f i h = (err fault, h)
written (some o) f i h = (ok tt, record h { objects = set h.objects i (f o) })

-- an assignment to fields of `self`
abbrev pub update : ℕ → (Object → Object) → M (Unit {0})
update i f h = written (get_elem? h.objects i) f i h

-- a new instance, as `Base.__init__` leaves it
abbrev pub fresh : Class → Option Raw → Object
fresh cls parse_data = record {
  cls = cls;
  parse_data = parse_data;
  refid = none;
  is_parsed = false;
  error = false;
  members = [];
  in_category = [];
  dict_members = [];
  brief_description = none;
  detailed_description = none;
  title = none;
  params = [];
  retrieved = none;
}

-- `DoxyIndex(xml_path)`, which holds the references of all objects below it; the path is left out
abbrev pub start : Heap
start = record { objects = fresh index none ∷ []; refs = [] }

abbrev pub alloc : Object → M ℕ
alloc o h = (ok (length h.objects), record h { objects = h.objects ++ o ∷ [] })

abbrev pub lookup_ref : Text → List (Text × ℕ) → Option ℕ
lookup_ref k [] = none
lookup_ref k ((j, i) ∷ refs) = if text_eq j k then some i else lookup_ref k refs

-- `self.top._refs[refid] = obj`; the latest entry for a reference is found first
abbrev pub put_ref : Text → ℕ → M (Unit {0})
put_ref k i h = (ok tt, record h { refs = (k, i) ∷ h.refs })
