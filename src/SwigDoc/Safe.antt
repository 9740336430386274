-- ===== src/SwigDoc/Safe.antt =====
-- swig_doc.py: what is asked of the objects keeps the heap valid, and no address is off the heap.
use hachoir.Prelude.{
  ℕ, ◌<◌, Bool, true, false, Option, none, some, List, [], ◌∷◌, ◌++◌, Text, codes, arith, contains,
}
use hachoir.Doxy.Heap.{
  function, klass, friend, RawParam, of_class, Files, attribute_error, ret, get,
}
use hachoir.Doxy.Parse.{error_of, name_of, confirm_no_error, check_parsed}
use hachoir.Doxy.Lookup.{instance_of, in_category}
use hachoir.Doxy.Valid.{Within, Closed, Within-le}
use hachoir.Doxy.Valid.Rules.{
  Ensures, Done, Ensures-ret, Ensures-raise, Ensures-bind, Ensures-then, Ensures-if, Ensures-get,
}
use hachoir.Doxy.Valid.Making.{Any}
use hachoir.Doxy.Valid.Checking.{check_parsed-Ensures, confirm_no_error-Ensures, name_of-Ensures}
use hachoir.Doxy.Valid.Asking.{Tests, instance_of-Ensures, in_category-Ensures}
use hachoir.Doxy.Valid.Naming.{has_member-Ensures}
use hachoir.SwigDoc.{
  make_name, has_factory, sound_class, block_includes, stripped, combine_descriptions, described_as,
  make_named_entry, named_as, make_entry, params_of, params_or, make_func_entry, method_entries,
  make_class_entry,
}

pub Any-Ensures : {A : Type 0} (n : ℕ) (a : A) → Ensures n (ret a) Any
Any-Ensures n a = Ensures-ret n a Any (λ k l. tt)

has_factory-Ensures :
    (files : Files) (n i : ℕ) (bad : Bool) → i < n → Ensures n (has_factory files i bad) Any
has_factory-Ensures files n i true b = Any-Ensures n false
has_factory-Ensures files n i false b =
    Ensures-bind n (name_of files i) _ Any Any (name_of-Ensures files n i b)
      λ k name l _. has_member-Ensures files k (make_name name) (of_class friend) i (omega arith)

error_of-Ensures : (files : Files) (n i : ℕ) → i < n → Ensures n (error_of files i) Any
unfolding error_of
error_of-Ensures files n i b =
    Ensures-then n (check_parsed files i) _ Done Any (check_parsed-Ensures files n i b) λ k l.
      Ensures-bind k (get i) _ Closed Any (Ensures-get k i (omega arith))
        λ m o g c. Any-Ensures m o.error

sound_class-Ensures :
    (files : Files) (n : ℕ) (item : Option ℕ) (b : Bool)
    → Within n (item ∷ [])
    → Ensures n (sound_class files item b) Any
sound_class-Ensures files n none b w = Any-Ensures n false
sound_class-Ensures files n (some i) false w = Any-Ensures n false
sound_class-Ensures files n (some i) true (b, _) =
    Ensures-bind n (error_of files i) _ Any Any (error_of-Ensures files n i b)
      λ k e l _. has_factory-Ensures files k i e (omega arith)

pub block_includes-Ensures : (files : Files) (n : ℕ) → Tests n (block_includes files)
unfolding block_includes
block_includes-Ensures files n k none l w =
    Ensures-bind k (instance_of klass none) _ Any Any (instance_of-Ensures klass k none w)
      λ m b g _. sound_class-Ensures files m none b tt
block_includes-Ensures files n k (some i) l (a, _) =
    Ensures-bind k (instance_of klass (some i)) _ Any Any
      (instance_of-Ensures klass k (some i) (a, tt))
      λ m b g _. sound_class-Ensures files m (some i) b (omega arith, tt)

stripped-Ensures : (n : ℕ) (t : Option Text) → Ensures n (stripped t) Any
stripped-Ensures n none = Ensures-raise n attribute_error Any tt
stripped-Ensures n (some t) = Any-Ensures n _

pub combine_descriptions-Ensures :
    (files : Files) (n i : ℕ) → i < n → Ensures n (combine_descriptions files i) Any
unfolding combine_descriptions
combine_descriptions-Ensures files n i b =
    Ensures-then n (confirm_no_error files i) _ Done Any (confirm_no_error-Ensures files n i b)
      λ k l. Ensures-bind k (get i) _ Closed Any (Ensures-get k i (omega arith)) λ m o g c.
        Ensures-bind m (stripped o.brief_description) _ Any Any
          (stripped-Ensures m o.brief_description)
          λ j bd q _.
            Ensures-bind j (stripped o.detailed_description) _ Any Any
              (stripped-Ensures j o.detailed_description) λ p dd r _. Any-Ensures p _

described_as-Ensures :
    (files : Files) (n i : ℕ) (d : Option Text) → i < n → Ensures n (described_as files i d) Any
unfolding described_as
described_as-Ensures files n i none b = combine_descriptions-Ensures files n i b
described_as-Ensures files n i (some t) b = Any-Ensures n t

make_named_entry-Ensures :
    (files : Files) (n i : ℕ) (name behind : Text) (d : Option Text)
    → i < n
    → Ensures n (make_named_entry files i name behind d) Any
unfolding make_named_entry
make_named_entry-Ensures files n i name behind d b =
    Ensures-if n (contains (codes "operator ") name) _ _ Any (Any-Ensures n []) (
      Ensures-bind n (described_as files i d) _ Any Any (described_as-Ensures files n i d b)
        λ k t l _. Any-Ensures k _)

named_as-Ensures :
    (files : Files) (n i : ℕ) (name : Option Text) → i < n → Ensures n (named_as files i name) Any
unfolding named_as
named_as-Ensures files n i none b = name_of-Ensures files n i b
named_as-Ensures files n i (some t) b = Any-Ensures n t

make_entry-Ensures :
    (files : Files) (n i : ℕ) (name : Option Text) (behind : Text) (d : Option Text)
    → i < n
    → Ensures n (make_entry files i name behind d) Any
unfolding make_entry
make_entry-Ensures files n i name behind d b =
    Ensures-bind n (named_as files i name) _ Any Any (named_as-Ensures files n i name b)
      λ k t l _. make_named_entry-Ensures files k i t behind d (omega arith)

pub params_of-Ensures : (files : Files) (n i : ℕ) → i < n → Ensures n (params_of files i) Any
params_of-Ensures files n i b =
    Ensures-then n (confirm_no_error files i) _ Done Any (confirm_no_error-Ensures files n i b)
      λ k l.
        Ensures-bind k (get i) _ Closed Any (Ensures-get k i (omega arith))
          λ m o g c. Any-Ensures m o.params

params_or-Ensures :
    (files : Files) (n i : ℕ) (ps : Option (List RawParam))
    → i < n
    → Ensures n (params_or files i ps) Any
unfolding params_or
params_or-Ensures files n i none b = params_of-Ensures files n i b
params_or-Ensures files n i (some ps) b = Any-Ensures n ps

pub make_func_entry-Ensures :
    (files : Files) (n i : ℕ) (name d : Option Text) (ps : Option (List RawParam))
    → i < n
    → Ensures n (make_func_entry files i name d ps) Any
unfolding make_func_entry
make_func_entry-Ensures files n i name d ps b =
    Ensures-bind n (params_or files i ps) _ Any Any (params_or-Ensures files n i ps b)
      λ k qs l _. make_entry-Ensures files k i name _ d (omega arith)

method_entries-Ensures :
    (files : Files) (n i : ℕ) (ms : List (Option ℕ))
    → i < n
    → Within n ms
    → Ensures n (method_entries files i ms) Any
unfolding method_entries
method_entries-Ensures files n i [] b w = Any-Ensures n []
method_entries-Ensures files n i (none ∷ ms) b w = Ensures-raise n attribute_error Any tt
method_entries-Ensures files n i (some f ∷ ms) b (a, w) =
    Ensures-bind n (name_of files i) _ Any Any (name_of-Ensures files n i b) λ k kn l _.
      Ensures-bind k (name_of files f) _ Any Any (name_of-Ensures files k f (omega arith))
        λ m fn g _.
          Ensures-bind m (make_func_entry files f (some (kn ++ codes "::" ++ fn)) none none) _ Any
            Any
            (make_func_entry-Ensures files m f (some (kn ++ codes "::" ++ fn)) none none
              (omega arith))
            λ j e q _.
              Ensures-bind j (method_entries files i ms) _ Any Any
                (method_entries-Ensures files j i ms (omega arith)
                  (Within-le n j ms (omega arith) w))
                λ p rest r _. Any-Ensures p _

pub make_class_entry-Ensures :
    (files : Files) (n i : ℕ) (d : Option Text) → i < n → Ensures n (make_class_entry files i d) Any
unfolding make_class_entry
make_class_entry-Ensures files n i d b =
    Ensures-bind n (make_entry files i none [] d) _ Any Any
      (make_entry-Ensures files n i none [] d b)
      λ k e l _.
        Ensures-bind k (in_category files i (of_class function)) _ Within Any
          (in_category-Ensures files k i (of_class function) (omega arith))
          λ m funcs g w.
            Ensures-bind m (method_entries files i funcs) _ Any Any
              (method_entries-Ensures files m i funcs (omega arith) w) λ j rest q _. Any-Ensures j _
