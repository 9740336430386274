-- ===== src/Doxy/Valid/Naming.antt =====
-- base.py: a member by its name, over the dictionaries that an object keeps.
use hachoir.Prelude.{
  ℕ, ◌<◌, Bool, true, false, Option, none, some, List, [], ◌∷◌, Text, codes, refl, arith, text_eq,
  Bool-cases, inl, inr, join,
}
use hachoir.Doxy.Heap.{
  Cat, MemberDict, Files, no_such_member, duplicate, attribute_error, Reply, ok, err, Heap, ret,
  get,
}
use hachoir.Doxy.Parse.{confirm_no_error, name_of}
use hachoir.Doxy.Lookup.{
  lookup_cat, in_category, add_name, build_dict, dict_unless, get_dict_members, split_colons,
  lookup_name, chosen, get_member_bits, get_member, is_member, has_member,
}
use hachoir.Doxy.Valid.{Within, NamesWithin, Closed, size, IsValid, Within-le, NamesWithin-le}
use hachoir.Doxy.Valid.Rules.{
  Reached, Ensures, Done, Ensures-run, Ensures-ret, Ensures-raise, Ensures-bind, Ensures-then,
  Ensures-get, Ensures-update,
}
use hachoir.Doxy.Valid.Making.{Address, Any}
use hachoir.Doxy.Valid.Checking.{confirm_no_error-Ensures, name_of-Ensures}
use hachoir.Doxy.Valid.Asking.{Found, lookup_cat-Found, in_category-Ensures}

add_name-NamesWithin :
    (k i : ℕ) (n : Text) (d : MemberDict) → i < k → NamesWithin k d → NamesWithin k (add_name n i d)
unfolding add_name
add_name-NamesWithin k i n [] b w = (b, tt)
add_name-NamesWithin k i n ((m, none) ∷ d) b w = elim (Bool-cases (text_eq m n)) [
  | inl e ↦ rw e w
  | inr e ↦ rw e (add_name-NamesWithin k i n d b w)
]
add_name-NamesWithin k i n ((m, some j) ∷ d) b (p, w) = elim (Bool-cases (text_eq m n)) [
  | inl e ↦ rw e w
  | inr e ↦ rw e (p, add_name-NamesWithin k i n d b w)
]

build_dict-Ensures :
    (files : Files) (n : ℕ) (d : MemberDict) (ms : List (Option ℕ))
    → NamesWithin n d
    → Within n ms
    → Ensures n (build_dict files d ms) NamesWithin
unfolding build_dict
build_dict-Ensures files n d [] w v = Ensures-ret n d NamesWithin (λ k l. NamesWithin-le n k d l w)
build_dict-Ensures files n d (none ∷ ms) w v = Ensures-raise n attribute_error NamesWithin tt
build_dict-Ensures files n d (some i ∷ ms) w (b, v) =
    Ensures-bind n (name_of files i) _ Any NamesWithin (name_of-Ensures files n i b) λ k name l _.
      build_dict-Ensures files k (add_name name i d) ms
        (add_name-NamesWithin k i name d (omega arith) (NamesWithin-le n k d l w))
        (Within-le n k ms l v)

dict_unless-Ensures :
    (files : Files) (n i : ℕ) (kept : Option MemberDict) (cat : Cat)
    → i < n
    → Found (NamesWithin n) kept
    → Ensures n (dict_unless kept files i cat) NamesWithin
unfolding dict_unless
dict_unless-Ensures files n i (some d) cat b f =
    Ensures-ret n d NamesWithin (λ k l. NamesWithin-le n k d l f)
dict_unless-Ensures files n i none cat b f =
    Ensures-bind n (in_category files i cat) _ Within NamesWithin
      (in_category-Ensures files n i cat b)
      λ k ms l w.
        Ensures-bind k (build_dict files [] ms) _ NamesWithin NamesWithin
          (build_dict-Ensures files k [] ms tt w)
          λ m d g v.
            Ensures-then m _ _ Done NamesWithin
              (Ensures-update m i _ (omega arith) (λ o. (refl, refl, refl, λ p. p))
                λ j o q c. record {
                  members = c.members;
                  lists = c.lists;
                  dicts = (NamesWithin-le m j d q v, c.dicts);
                })
              λ j q. Ensures-ret j d NamesWithin (λ p r. NamesWithin-le m p d (omega arith) v)

get_dict_members-Ensures :
    (files : Files) (n i : ℕ) (cat : Cat)
    → i < n
    → Ensures n (get_dict_members files i cat) NamesWithin
unfolding get_dict_members
get_dict_members-Ensures files n i cat b =
    Ensures-then n (confirm_no_error files i) _ Done NamesWithin
      (confirm_no_error-Ensures files n i b)
      λ k l. Ensures-bind k (get i) _ Closed NamesWithin (Ensures-get k i (omega arith)) λ m o g c.
        dict_unless-Ensures files m i (lookup_cat cat o.dict_members) cat (omega arith)
          (lookup_cat-Found (NamesWithin m) cat o.dict_members c.dicts)

chosen-Ensures :
    (n : ℕ) (name : Text) (d : MemberDict)
    → NamesWithin n d
    → Ensures n (chosen (lookup_name name d)) Address
unfolding chosen lookup_name
chosen-Ensures n name [] w = Ensures-raise n no_such_member Address tt
chosen-Ensures n name ((k, none) ∷ d) w = elim (Bool-cases (text_eq k name)) [
  | inl e ↦ rw e (Ensures-raise n duplicate Address tt)
  | inr e ↦ rw e (chosen-Ensures n name d w)
]
chosen-Ensures n name ((k, some i) ∷ d) (p, w) = elim (Bool-cases (text_eq k name)) [
  | inl e ↦ rw e (Ensures-ret n i Address (λ m l. omega arith))
  | inr e ↦ rw e (chosen-Ensures n name d w)
]

get_member_bits-Ensures :
    (files : Files) (n : ℕ) (bits : List Text) (cat : Cat) (i : ℕ)
    → i < n
    → Ensures n (get_member_bits files bits cat i) Address
unfolding get_member_bits
get_member_bits-Ensures files n [] cat i b = Ensures-raise n no_such_member Address tt
get_member_bits-Ensures files n (first ∷ more) cat i b =
    Ensures-then n (confirm_no_error files i) _ Done Address (confirm_no_error-Ensures files n i b)
      λ k l.
        Ensures-bind k (get_dict_members files i cat) _ NamesWithin Address
          (get_dict_members-Ensures files k i cat (omega arith))
          λ m d g w.
            Ensures-bind m (chosen (lookup_name first d)) _ Address Address
              (chosen-Ensures m first d w)
              λ j member q a.
                elim (text_eq (join (codes "::") more) [])
                  as (λ (t : Bool).
                    Ensures j
                      (elim t [ true ↦ ret member | false ↦ get_member_bits files more cat member ])
                      Address) [
                        | true ↦ Ensures-ret j member Address (λ p r. omega arith)
                        | false ↦ get_member_bits-Ensures files j more cat member a
                      ]

pub get_member-Ensures :
    (files : Files) (n : ℕ) (name : Text) (cat : Cat) (i : ℕ)
    → i < n
    → Ensures n (get_member files name cat i) Address
unfolding get_member
get_member-Ensures files n name cat i b =
    get_member_bits-Ensures files n (split_colons name) cat i b

pub has_member-Ensures :
    (files : Files) (n : ℕ) (name : Text) (cat : Cat) (i : ℕ)
    → i < n
    → Ensures n (has_member files name cat i) Any
unfolding Ensures has_member
has_member-Ensures files n name cat i b h v l =
    go (get_member files name cat i h).0 (get_member files name cat i h).1 (
      Ensures-run n (get_member files name cat i) Address h
        (get_member-Ensures files n name cat i b) v l)
  where
    go : (r : Reply ℕ) (g : Heap) → Reached h Address r g → Reached h Any (is_member r) g
    go (ok j) g (w, s, t, a) = (w, s, t, tt)
    go (err no_such_member) g (w, s, t, a) = (w, s, t, tt)
    go (err e) g (w, s, t, a) = (w, s, t, a)

-- From a valid heap and an address on it, `get_member` keeps the heap valid, whatever the XML files
-- hold and however it ends: members, lists and dictionaries hold addresses of objects, and each
-- reference has exactly the object that carries it. Every object keeps its class, its reference and
-- its parsed data, and stays parsed. What is returned is an address on the heap, and no address
-- that is followed is off the heap.
pub get_member-IsValid :
    (files : Files) (h : Heap) (name : Text) (cat : Cat) (i : ℕ)
    → IsValid h
    → i < size h
    → Reached h Address (get_member files name cat i h).0 (get_member files name cat i h).1
get_member-IsValid files h name cat i v b =
    Ensures-run (size h) (get_member files name cat i) Address h
      (get_member-Ensures files (size h) name cat i b) v (omega arith)
