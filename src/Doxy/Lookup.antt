-- ===== src/Doxy/Lookup.antt =====
-- base.py: members by category and by name, with the dictionaries that an object keeps.
use hachoir.Prelude.{
  ℕ, suc, Bool, true, false, ◌&&◌, Option, none, some, List, [], ◌∷◌, Text, codes, text_eq, ◌==◌,
  if◌then◌else◌, cons_first, join,
}
use hachoir.Doxy.Heap.{
  Class, function, klass, file, namespace, group, friend, other, index, Cat, all, of_class, block,
  MemberDict, Files, Object, no_such_member, duplicate, attribute_error, Reply, ok, err, M, ◌>>=◌,
  ◌>>◌, ret, raise, get, update,
}
use hachoir.Doxy.Parse.{confirm_no_error, name_of}

abbrev class_number : Class → ℕ
class_number function = 0
class_number klass = 1
class_number file = 2
class_number namespace = 3
class_number group = 4
class_number friend = 5
class_number other = 6
class_number index = 7

abbrev pub class_eq : Class → Class → Bool
class_eq a b = class_number a == class_number b

abbrev cat_number : Cat → ℕ
cat_number all = 0
cat_number block = 1
cat_number (of_class c) = suc (suc (class_number c))

abbrev pub cat_eq : Cat → Cat → Bool
cat_eq a b = cat_number a == cat_number b

abbrev pub lookup_cat {ℓ} : {V : Type ℓ} → Cat → List (Cat × V) → Option V
lookup_cat c [] = none
lookup_cat c ((d, v) ∷ rest) = if cat_eq d c then some v else lookup_cat c rest

-- `isinstance(inst, cls)`
abbrev pub instance_of : Class → Option ℕ → M Bool
instance_of cls none = ret false
instance_of cls (some i) = do o ← get i; ret (class_eq o.cls cls)

-- `[mem for mem in members if cat.includes(mem)]`
unfoldable pub select : (Option ℕ → M Bool) → List (Option ℕ) → M (List (Option ℕ))
select includes [] = ret []
select includes (m ∷ ms) = do
  b ← includes m
  rest ← select includes ms
  ret (if b then m ∷ rest else rest)

abbrev pub remember : ℕ → Cat → List (Option ℕ) → M (List (Option ℕ))
remember i cat ms = do update i (λ o. record o { in_category = (cat, ms) ∷ o.in_category }); ret ms

unfoldable pub select_unless :
    Option (List (Option ℕ)) → (Option ℕ → M Bool) → ℕ → Cat → Object → M (List (Option ℕ))
unfolding select
select_unless (some ms) includes i cat o = ret ms
select_unless none includes i cat o = do ms ← select includes o.members; remember i cat ms

-- `self.in_category(cat)`, for a test of the category that is passed in
unfoldable pub in_category_by : (Option ℕ → M Bool) → Files → ℕ → Cat → M (List (Option ℕ))
unfolding select_unless
in_category_by includes files i cat = do
  confirm_no_error files i
  o ← get i
  select_unless (lookup_cat cat o.in_category) includes i cat o

-- `self.in_category(cat)` for no category and for a class
unfoldable pub in_category : Files → ℕ → Cat → M (List (Option ℕ))
unfolding in_category_by
in_category files i all = do confirm_no_error files i; o ← get i; ret o.members
in_category files i (of_class cls) = in_category_by (instance_of cls) files i (of_class cls)
in_category files i block = raise attribute_error

-- one round of the loop over the members: a name that is there becomes `Duplicate`
unfoldable pub add_name : Text → ℕ → MemberDict → MemberDict
add_name n i [] = (n, some i) ∷ []
add_name n i ((k, v) ∷ d) = if text_eq k n then (k, none) ∷ d else (k, v) ∷ add_name n i d

unfoldable pub build_dict : Files → MemberDict → List (Option ℕ) → M MemberDict
unfolding add_name
build_dict files d [] = ret d
build_dict files d (none ∷ ms) = raise attribute_error
build_dict files d (some i ∷ ms) = do n ← name_of files i; build_dict files (add_name n i d) ms

unfoldable pub dict_unless : Option MemberDict → Files → ℕ → Cat → M MemberDict
unfolding build_dict in_category
dict_unless (some d) files i cat = ret d
dict_unless none files i cat = do
  ms ← in_category files i cat
  d ← build_dict files [] ms
  update i (λ o. record o { dict_members = (cat, d) ∷ o.dict_members })
  ret d

-- `self._get_dict_members(cat)`
unfoldable pub get_dict_members : Files → ℕ → Cat → M MemberDict
unfolding dict_unless
get_dict_members files i cat = do
  confirm_no_error files i
  o ← get i
  dict_unless (lookup_cat cat o.dict_members) files i cat

-- `name.split('::')`
unfoldable pub split_colons : Text → List Text
split_colons [] = [] ∷ []
split_colons (c ∷ []) = (c ∷ []) ∷ []
split_colons (c ∷ (d ∷ cs)) =
    let behind = split_colons cs in
    let within = split_colons (d ∷ cs) in
    if c == b':' && d == b':' then [] ∷ behind else cons_first c within

unfoldable pub lookup_name : Text → MemberDict → Option (Option ℕ)
lookup_name n [] = none
lookup_name n ((k, v) ∷ d) = if text_eq k n then some v else lookup_name n d

-- `NoSuchMember` and `Duplicate` are raised
unfoldable pub chosen : Option (Option ℕ) → M ℕ
chosen none = raise no_such_member
chosen (some none) = raise duplicate
chosen (some (some i)) = ret i

-- `self.get_member(name, cat)`, over the parts of the name. The rest is `'::'.join(bits[1:])`;
-- where it is empty the member is found.
unfoldable pub get_member_bits : Files → List Text → Cat → ℕ → M ℕ
unfolding get_dict_members lookup_name chosen
get_member_bits files [] cat i = raise no_such_member
get_member_bits files (first ∷ more) cat i = do
  confirm_no_error files i
  d ← get_dict_members files i cat
  member ← chosen (lookup_name first d)
  elim (text_eq (join (codes "::") more) []) [
    | true ↦ ret member
    | false ↦ get_member_bits files more cat member
  ]

unfoldable pub get_member : Files → Text → Cat → ℕ → M ℕ
unfolding get_member_bits split_colons
get_member files name cat i = get_member_bits files (split_colons name) cat i

-- the handler of `has_member` takes `NoSuchMember` alone
abbrev pub is_member : Reply ℕ → Reply Bool
is_member (ok i) = ok true
is_member (err no_such_member) = ok false
is_member (err e) = err e

unfoldable pub has_member : Files → Text → Cat → ℕ → M Bool
unfolding get_member
has_member files name cat i h = let (r, h') = get_member files name cat i h in (is_member r, h')
