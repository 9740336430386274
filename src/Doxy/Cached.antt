-- ===== src/Doxy/Cached.antt =====
-- `in_category`: the members of a class, and the list that is kept for the next time.
use hachoir.Prelude.{
  ℕ, Bool, true, false, Option, none, some, List, [], ◌∷◌, ◌≡◌, refl, get_elem?, set,
  get_elem?-set_self, keep,
}
use hachoir.Doxy.Heap.{Class, function, of_class, Files, Object, Heap, ok}
use hachoir.Doxy.Lookup.{class_eq, cat_eq, lookup_cat, instance_of, select, in_category}
use hachoir.Doxy.Dict.{confirm-done}

abbrev pub of_that_class : Class → Option Object → Bool
of_that_class c none = false
of_that_class c (some o) = class_eq o.cls c

-- the member is an object of the class
abbrev pub has_class : Heap → Class → Option ℕ → Bool
has_class h c none = false
has_class h c (some i) = of_that_class c (get_elem? h.objects i)

-- every member that is an address holds an object
pub data AllThere (h : Heap) : List (Option ℕ) → Type 0 where
  nil : AllThere h []
  failed : {ms : List (Option ℕ)} → AllThere h ms → AllThere h (none ∷ ms)
  there :
      {ms : List (Option ℕ)} (i : ℕ) (o : Object)
      → get_elem? h.objects i ≡ some o
      → AllThere h ms
      → AllThere h (some i ∷ ms)

pub select-keep :
    (h : Heap) (c : Class) {ms : List (Option ℕ)}
    → AllThere h ms
    → select (instance_of c) ms h ≡ (ok (keep (has_class h c) ms), h)
unfolding select
select-keep h c nil = refl
select-keep h c (failed rest) = rw (select-keep h c rest) refl
select-keep h c (there i o e rest) = rw (e, select-keep h c rest) refl

pub cat_eq_refl : (c : Class) → cat_eq (of_class c) (of_class c) ≡ true
cat_eq_refl function = refl
cat_eq_refl _ = refl

-- the object with the list that it keeps
abbrev keeping : Object → Class → List (Option ℕ) → Object
keeping o c ms = record o { in_category = (of_class c, ms) ∷ o.in_category }

module _ (files : Files) (h : Heap) (i : ℕ) (c : Class) {o : Object} where
  -- Of an object that is parsed without an error, the members of a class are those members that
  -- are instances of it, in order. Asked again, the object answers the same and changes nothing.
  pub in_category_twice :
      get_elem? h.objects i ≡ some o
      → o.is_parsed ≡ true
      → o.error ≡ false
      → lookup_cat (of_class c) o.in_category ≡ none
      → AllThere h o.members
      → (h' : Heap) × (in_category files i (of_class c) h
          ≡ (ok (keep (has_class h c) o.members), h'))
        × (in_category files i (of_class c) h' ≡ (ok (keep (has_class h c) o.members), h'))
  unfolding in_category
  in_category_twice e p n unasked all =
      let sel = keep (has_class h c) o.members in
      let h' = record h { objects = set h.objects i (keeping o c sel) } in
      let e' = get_elem?-set_self h.objects i (keeping o c sel) e in
      (
        h',
        rw (confirm-done files h i e p n, e, unasked, select-keep h c all, e) refl,
        rw (confirm-done files h' i e' p n, e', cat_eq_refl c) refl,
      )
