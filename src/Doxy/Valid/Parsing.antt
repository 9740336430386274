-- ===== src/Doxy/Valid/Parsing.antt =====
-- doxyindex.py: parsing an object, and the methods that parse first, keep the heap valid.
use hachoir.Prelude.{
  ℕ, ◌<◌, Bool, true, false, Option, none, some, List, [], ◌∷◌, Text, refl, arith,
}
use hachoir.Doxy.Heap.{
  Class, function, klass, file, namespace, group, friend, other, index, Raw, Compound, Files,
  attribute_error, M, ◌>>=◌, ◌>>◌, ret, get,
}
use hachoir.Doxy.Base.{from_refid, set_descriptions, described, retrieve_data}
use hachoir.Doxy.Parse.{
  mark, parse_function, compounddef, class_body, parse_class, file_body, parse_file, add_by_refid,
  group_body, parse_group, parse_as,
}
use hachoir.Doxy.Valid.{Closed}
use hachoir.Doxy.Valid.Rules.{
  Ensures, Done, Ensures-ret, Ensures-raise, Ensures-bind, Ensures-then, Ensures-if, Ensures-get,
}
use hachoir.Doxy.Valid.Making.{
  Address, Any, from_refid-Ensures, described-Ensures, Ensures-assign, Ensures-members,
  set_descriptions-Ensures, process_memberdefs-Ensures, retrieve_data-Ensures,
}

pub mark-Ensures : (n i : ℕ) → i < n → Ensures n (mark i) Done
mark-Ensures n i b =
    Ensures-assign n i _ b (λ o. (refl, refl, refl, λ p. refl)) (λ o. refl) (λ o. refl) (λ o. refl)

pub nothing-Ensures : (n : ℕ) → Ensures n (ret tt) Done
nothing-Ensures n = Ensures-ret n tt Done (λ k l. tt)

pub parse_function-Ensures :
    (n i : ℕ) (raw : Option Raw) → i < n → Ensures n (parse_function i raw) Done
unfolding parse_function
parse_function-Ensures n i none b =
    Ensures-then n (set_descriptions i none none) _ Done Done
      (set_descriptions-Ensures n i none none b) λ k l. Ensures-raise k attribute_error Done tt
parse_function-Ensures n i (some d) b =
    Ensures-then n (set_descriptions i d.brief d.detailed) _ Done Done
      (set_descriptions-Ensures n i d.brief d.detailed b)
      λ k l.
        Ensures-assign k i _ (omega arith) (λ o. (refl, refl, refl, λ p. p)) (λ o. refl) (λ o. refl)
          (λ o. refl)

compounddef-Ensures : (n : ℕ) (c : Option Compound) → Ensures n (compounddef c) Any
compounddef-Ensures n none = Ensures-raise n attribute_error Any tt
compounddef-Ensures n (some c) = Ensures-ret n c Any (λ k l. tt)

pub class_body-Ensures :
    (n i : ℕ) (bad : Bool) (c : Option Compound) → i < n → Ensures n (class_body i bad c) Done
unfolding class_body
class_body-Ensures n i true c b = nothing-Ensures n
class_body-Ensures n i false c b =
    Ensures-bind n (compounddef c) _ Any Done (compounddef-Ensures n c) λ k cdef l _.
      Ensures-then k (set_descriptions i cdef.brief cdef.detailed) _ Done Done
        (set_descriptions-Ensures k i cdef.brief cdef.detailed (omega arith))
        λ m g. process_memberdefs-Ensures m i cdef (omega arith)

pub file_body-Ensures :
    (n i : ℕ) (bad : Bool) (c : Option Compound) → i < n → Ensures n (file_body i bad c) Done
unfolding file_body
file_body-Ensures n i bad c b =
    Ensures-bind n (compounddef c) _ Any Done (compounddef-Ensures n c) λ k cdef l _.
      Ensures-then k (set_descriptions i cdef.brief cdef.detailed) _ Done Done
        (set_descriptions-Ensures k i cdef.brief cdef.detailed (omega arith))
        λ m g.
          Ensures-if m bad _ _ Done (nothing-Ensures m)
            (process_memberdefs-Ensures m i cdef (omega arith))

add_by_refid-Ensures :
    (n : ℕ) (cls : Class) (i : ℕ) (refids : List Text)
    → i < n
    → Ensures n (add_by_refid cls i refids) Done
unfolding add_by_refid
add_by_refid-Ensures n cls i [] b = nothing-Ensures n
add_by_refid-Ensures n cls i (refid ∷ rest) b =
    Ensures-bind n (from_refid cls refid) _ Address Done (from_refid-Ensures n cls refid)
      λ k converted l a.
        Ensures-then k _ _ Done Done
          (Ensures-members k i (some converted ∷ []) (omega arith) (a, tt))
          λ m g. add_by_refid-Ensures m cls i rest (omega arith)

pub group_body-Ensures :
    (n i : ℕ) (bad : Bool) (c : Option Compound) → i < n → Ensures n (group_body i bad c) Done
unfolding group_body
group_body-Ensures n i true c b = nothing-Ensures n
group_body-Ensures n i false c b =
    Ensures-bind n (compounddef c) _ Any Done (compounddef-Ensures n c) λ k cdef l _.
      Ensures-bind k (described cdef.title) _ Any Done (described-Ensures k cdef.title) λ m t g _.
        Ensures-then m _ _ Done Done
          (Ensures-assign m i _ (omega arith) (λ o. (refl, refl, refl, λ p. p)) (λ o. refl)
            (λ o. refl) (λ o. refl))
          λ j q.
            Ensures-then j (add_by_refid group i cdef.inner_groups) _ Done Done
              (add_by_refid-Ensures j group i cdef.inner_groups (omega arith))
              λ p r.
                Ensures-then p (add_by_refid klass i cdef.inner_classes) _ Done Done
                  (add_by_refid-Ensures p klass i cdef.inner_classes (omega arith))
                  λ s t. process_memberdefs-Ensures s i cdef (omega arith)

-- a compound is retrieved, then its body is read
pub retrieved-Ensures :
    (files : Files) (n i : ℕ) (body : Bool → Option Compound → M (Unit {0}))
    → i < n
    → ((k : ℕ) (bad : Bool) (c : Option Compound) → i < k → Ensures k (body bad c) Done)
    → Ensures n (do retrieve_data files i; o ← get i; body o.error o.retrieved) Done
retrieved-Ensures files n i body b e =
    Ensures-then n (retrieve_data files i) _ Done Done (retrieve_data-Ensures files n i b) λ k l.
      Ensures-bind k (get i) _ Closed Done (Ensures-get k i (omega arith))
        λ m o g c. e m o.error o.retrieved (omega arith)

pub parse_as-Ensures :
    (cls : Class) (files : Files) (n i : ℕ) (raw : Option Raw)
    → i < n
    → Ensures n (parse_as cls files i raw) Done
unfolding parse_as parse_class parse_file parse_group
parse_as-Ensures function files n i raw b =
    Ensures-then n (mark i) _ Done Done (mark-Ensures n i b)
      λ k l. parse_function-Ensures k i raw (omega arith)
parse_as-Ensures klass files n i raw b =
    Ensures-then n (mark i) _ Done Done (mark-Ensures n i b) λ k l.
      retrieved-Ensures files k i (class_body i) (omega arith)
        (λ m bad c. class_body-Ensures m i bad c)
parse_as-Ensures file files n i raw b =
    Ensures-then n (mark i) _ Done Done (mark-Ensures n i b) λ k l.
      retrieved-Ensures files k i (file_body i) (omega arith)
        (λ m bad c. file_body-Ensures m i bad c)
parse_as-Ensures group files n i raw b =
    Ensures-then n (mark i) _ Done Done (mark-Ensures n i b) λ k l.
      retrieved-Ensures files k i (group_body i) (omega arith)
        (λ m bad c. group_body-Ensures m i bad c)
parse_as-Ensures namespace files n i raw b = mark-Ensures n i b
parse_as-Ensures friend files n i raw b = mark-Ensures n i b
parse_as-Ensures other files n i raw b = mark-Ensures n i b
parse_as-Ensures index files n i raw b = mark-Ensures n i b
