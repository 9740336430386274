-- ===== src/SwigDoc/Whole.antt =====
-- swig_doc.py: `make_swig_interface_file` as a whole.
use hachoir.Prelude.{
  ℕ, ◌≤◌, ◌<◌, Bool, true, false, none, some, Option, List, [], ◌∷◌, Text, text_in, arith,
  if◌then◌else◌,
}
use hachoir.Doxy.Heap.{function, klass, of_class, block, Files, Heap, attribute_error, M, ret}
use hachoir.Doxy.Parse.{name_of}
use hachoir.Doxy.Lookup.{in_category, in_category_by, get_member}
use hachoir.Doxy.Valid.{Within, size, IsValid, Within-le}
use hachoir.Doxy.Valid.Rules.{
  Reached, Ensures, Ensures-run, Ensures-ret, Ensures-raise, Ensures-bind,
}
use hachoir.Doxy.Valid.Making.{Address, Any}
use hachoir.Doxy.Valid.Checking.{name_of-Ensures}
use hachoir.Doxy.Valid.Asking.{in_category-Ensures, in_category_by-Ensures}
use hachoir.Doxy.Valid.Naming.{get_member-Ensures}
use hachoir.SwigDoc.{
  make_name, block_includes, make_func_entry, make_class_entry, make_block_entry, try_parsing,
  reported, Progress, factory_name, block_round, block_rounds, unnamed, entries_of, names_of,
  make_swig_interface,
}
use hachoir.SwigDoc.Safe.{
  Any-Ensures, block_includes-Ensures, make_func_entry-Ensures, make_class_entry-Ensures,
}
use hachoir.SwigDoc.Interface.{try_parsing-Ensures, reported-Ensures, make_block_entry-Ensures}

factory_name-Ensures :
    (files : Files) (n di i : ℕ) → di < n → i < n → Ensures n (factory_name files di i) Any
unfolding factory_name
factory_name-Ensures files n di i bd b =
    Ensures-bind n (name_of files i) _ Any Any (name_of-Ensures files n i b) λ k name l _.
      Ensures-bind k (get_member files (make_name name) (of_class function) di) _ Address Any
        (get_member-Ensures files k (make_name name) (of_class function) di (omega arith))
        λ m f g a. name_of-Ensures files m f a

block_round-Ensures :
    (files : Files) (n di i : ℕ) (p : Progress)
    → di < n
    → i < n
    → Ensures n (block_round files di i p) Any
unfolding block_round
block_round-Ensures files n di i (names, out) bd b =
    try_parsing-Ensures n (factory_name files di i) _ _ Any Any
      (factory_name-Ensures files n di i bd b)
      (λ k name l _.
        try_parsing-Ensures k (make_block_entry files di i) _ _ Any Any
          (make_block_entry-Ensures files k di i (omega arith) (omega arith))
          (λ m t g _. Any-Ensures m _) (λ m g. reported-Ensures files m i _ (omega arith)))
      (λ k l. reported-Ensures files k i _ (omega arith))

block_rounds-Ensures :
    (files : Files) (n di : ℕ) (bs : List (Option ℕ)) (p : Progress)
    → di < n
    → Within n bs
    → Ensures n (block_rounds files di bs p) Any
unfolding block_rounds
block_rounds-Ensures files n di [] p bd w = Any-Ensures n p
block_rounds-Ensures files n di (none ∷ bs) p bd w = Ensures-raise n attribute_error Any tt
block_rounds-Ensures files n di (some i ∷ bs) p bd (b, w) =
    Ensures-bind n (block_round files di i p) _ Any Any (block_round-Ensures files n di i p bd b)
      λ k q l _. block_rounds-Ensures files k di bs q (omega arith) (Within-le n k bs l w)

abbrev Addresses : ℕ → List ℕ → Type 0
Addresses n [] = Unit {0}
Addresses n (i ∷ is) = (i < n) × Addresses n is

Addresses-le : (n k : ℕ) (is : List ℕ) → n ≤ k → Addresses n is → Addresses k is
Addresses-le n k [] l a = tt
Addresses-le n k (i ∷ is) l (b, a) = (omega arith, Addresses-le n k is l a)

Addresses-if :
    (n : ℕ) (c : Bool) (i : ℕ) (is : List ℕ)
    → i < n
    → Addresses n is
    → Addresses n (if c then is else i ∷ is)
Addresses-if n true i is b a = a
Addresses-if n false i is b a = (b, a)

unnamed-Ensures :
    (files : Files) (n : ℕ) (names : List Text) (ms : List (Option ℕ))
    → Within n ms
    → Ensures n (unnamed files names ms) Addresses
unfolding unnamed
unnamed-Ensures files n names [] w = Ensures-ret n [] Addresses (λ k l. tt)
unnamed-Ensures files n names (none ∷ ms) w = Ensures-raise n attribute_error Addresses tt
unnamed-Ensures files n names (some i ∷ ms) (b, w) =
    Ensures-bind n (name_of files i) _ Any Addresses (name_of-Ensures files n i b) λ k name l _.
      Ensures-bind k (unnamed files names ms) _ Addresses Addresses
        (unnamed-Ensures files k names ms (Within-le n k ms l w))
        λ m rest g a. Ensures-ret m _ Addresses (λ j q.
          Addresses-if j (text_in name names) i rest (omega arith) (Addresses-le m j rest q a))

entries_of-Ensures :
    (files : Files) (n : ℕ) (make : ℕ → M Text) (is : List ℕ)
    → ((k i : ℕ) → i < k → Ensures k (make i) Any)
    → Addresses n is
    → Ensures n (entries_of files make is) Any
unfolding entries_of
entries_of-Ensures files n make [] e a = Any-Ensures n []
entries_of-Ensures files n make (i ∷ is) e (b, a) =
    Ensures-bind n (try_parsing (make i) (λ t. ret (t ∷ [])) (reported files i [])) _ Any Any
      (try_parsing-Ensures n (make i) _ _ Any Any (e n i b) (λ k t l _. Any-Ensures k _)
        (λ k l. reported-Ensures files k i [] (omega arith)))
      λ k entry l _.
        Ensures-bind k (entries_of files make is) _ Any Any
          (entries_of-Ensures files k make is e (Addresses-le n k is l a))
          λ m rest g _. Any-Ensures m _

names_of-Ensures :
    (files : Files) (n : ℕ) (ms : List (Option ℕ)) → Within n ms → Ensures n (names_of files ms) Any
unfolding names_of
names_of-Ensures files n [] w = Any-Ensures n []
names_of-Ensures files n (none ∷ ms) w = Ensures-raise n attribute_error Any tt
names_of-Ensures files n (some i ∷ ms) (b, w) =
    Ensures-bind n (name_of files i) _ Any Any (name_of-Ensures files n i b) λ k name l _.
      Ensures-bind k (names_of files ms) _ Any Any
        (names_of-Ensures files k ms (Within-le n k ms l w)) λ m rest g _. Any-Ensures m _

make_swig_interface-Ensures :
    (files : Files) (n di : ℕ) (custom_output : Text)
    → di < n
    → Ensures n (make_swig_interface files di custom_output) Any
unfolding make_swig_interface
make_swig_interface-Ensures files n di custom_output b =
    Ensures-bind n (in_category_by (block_includes files) files di block) _ Within Any
      (in_category_by-Ensures files n di (block_includes files) block b
        (block_includes-Ensures files n))
      λ k blocks l w.
        Ensures-bind k (block_rounds files di blocks ([], [])) _ Any Any
          (block_rounds-Ensures files k di blocks ([], []) (omega arith) w)
          λ m p g _.
            Ensures-bind m (in_category files di (of_class function)) _ Within Any
              (in_category-Ensures files m di (of_class function) (omega arith))
              λ j functions q v.
                Ensures-bind j (unnamed files p.0 functions) _ Addresses Any
                  (unnamed-Ensures files j p.0 functions v)
                  λ r funcs s a.
                    Ensures-bind r
                      (entries_of files (λ f. make_func_entry files f none none none) funcs) _ Any
                      Any
                      (entries_of-Ensures files r (λ f. make_func_entry files f none none none)
                        funcs (λ i f d. make_func_entry-Ensures files i f none none none d) a)
                      λ t func_entries u _.
                        Ensures-bind t (names_of files blocks) _ Any Any
                          (names_of-Ensures files t blocks (Within-le k t blocks (omega arith) w))
                          λ x names y _.
                            Ensures-bind x (in_category files di (of_class klass)) _ Within Any
                              (in_category-Ensures files x di (of_class klass) (omega arith))
                              λ z classes e c.
                                Ensures-bind z (unnamed files names classes) _ Addresses Any
                                  (unnamed-Ensures files z names classes c)
                                  λ i klasses o d.
                                    Ensures-bind i
                                      (entries_of files (λ k. make_class_entry files k none)
                                        klasses)
                                      _ Any Any
                                      (entries_of-Ensures files i
                                        (λ k. make_class_entry files k none) klasses
                                        (λ k f h. make_class_entry-Ensures files k f none h) d)
                                      λ h class_entries u' _. Any-Ensures h _

-- From a valid heap and an index on it, making the text of the SWIG interface keeps the heap valid,
-- whatever the XML files hold and however it ends; every object keeps its class, its reference and
-- its parsed data, and stays parsed; no address that is followed is off the heap.
pub make_swig_interface-IsValid :
    (files : Files) (h : Heap) (di : ℕ) (custom_output : Text)
    → IsValid h
    → di < size h
    → Reached h Any
        (make_swig_interface files di custom_output h).0
        (make_swig_interface files di custom_output h).1
make_swig_interface-IsValid files h di custom_output v b =
    Ensures-run (size h) (make_swig_interface files di custom_output) Any h
      (make_swig_interface-Ensures files (size h) di custom_output b) v (omega arith)
