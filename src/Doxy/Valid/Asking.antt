-- ===== src/Doxy/Valid/Asking.antt =====
-- base.py: the members by category and by name, with the lists and the dictionaries that are kept.
use hachoir.Prelude.{
  ℕ, ◌≤◌, ◌<◌, Bool, true, false, Option, none, some, List, [], ◌∷◌, refl, arith, Bool-cases, inl,
  inr, if◌then◌else◌,
}
use hachoir.Doxy.Heap.{Class, Cat, all, of_class, block, Files, Object, attribute_error, M, get}
use hachoir.Doxy.Parse.{confirm_no_error}
use hachoir.Doxy.Lookup.{
  lookup_cat, cat_eq, class_eq, instance_of, select, remember, select_unless, in_category_by,
  in_category,
}
use hachoir.Doxy.Valid.{Within, Kept, Closed, Within-le}
use hachoir.Doxy.Valid.Rules.{
  Ensures, Done, Ensures-ret, Ensures-raise, Ensures-bind, Ensures-then, Ensures-get,
  Ensures-update,
}
use hachoir.Doxy.Valid.Making.{Any}
use hachoir.Doxy.Valid.Checking.{confirm_no_error-Ensures}

-- what is kept for a category, where something is
abbrev pub Found {ℓ} : {V : Type ℓ} → (V → Type 0) → Option V → Type 0
Found P none = Unit {0}
Found P (some v) = P v

pub lookup_cat-Found {ℓ} :
    {V : Type ℓ} (P : V → Type 0) (cat : Cat) (l : List (Cat × V))
    → Kept P l
    → Found P (lookup_cat cat l)
lookup_cat-Found P cat [] k = tt
lookup_cat-Found P cat ((d, v) ∷ l) (p, k) = elim (Bool-cases (cat_eq d cat)) [
  | inl b ↦ rw b p
  | inr b ↦ rw b (lookup_cat-Found P cat l k)
]

pub instance_of-Ensures :
    (cls : Class) (n : ℕ) (m : Option ℕ) → Within n (m ∷ []) → Ensures n (instance_of cls m) Any
instance_of-Ensures cls n none w = Ensures-ret n false Any (λ k l. tt)
instance_of-Ensures cls n (some i) (b, _) =
    Ensures-bind n (get i) _ Closed Any (Ensures-get n i b)
      λ k o l c. Ensures-ret k (class_eq o.cls cls) Any (λ j q. tt)

Within-if :
    (n : ℕ) (b : Bool) (m : Option ℕ) (ms : List (Option ℕ))
    → Within n (m ∷ [])
    → Within n ms
    → Within n (if b then m ∷ ms else ms)
Within-if n true none ms w v = v
Within-if n true (some i) ms (p, _) v = (p, v)
Within-if n false m ms w v = v

Within-head :
    (n : ℕ) (m : Option ℕ) (ms : List (Option ℕ))
    → Within n (m ∷ ms)
    → Within n (m ∷ []) × Within n ms
Within-head n none ms w = (tt, w)
Within-head n (some i) ms (p, w) = ((p, tt), w)

-- a test of a category, for the members of a list on any heap that has grown
abbrev pub Tests : ℕ → (Option ℕ → M Bool) → Type 0
Tests n includes = (k : ℕ) (m : Option ℕ) → n ≤ k → Within k (m ∷ []) → Ensures k (includes m) Any

select-Ensures :
    (n : ℕ) (includes : Option ℕ → M Bool) (ms : List (Option ℕ))
    → Tests n includes
    → Within n ms
    → Ensures n (select includes ms) Within
unfolding select
select-Ensures n includes [] t w = Ensures-ret n [] Within (λ k l. tt)
select-Ensures n includes (m ∷ ms) t w =
    let (wm, ws) = Within-head n m ms w in
    Ensures-bind n (includes m) _ Any Within (t n m (omega arith) wm) λ k b l _.
      Ensures-bind k (select includes ms) _ Within Within
        (select-Ensures k includes ms (λ j m q v. t j m (omega arith) v) (Within-le n k ms l ws))
        λ j rest q r. Ensures-ret j _ Within λ p s.
          Within-if p b m rest (Within-le n p (m ∷ []) (omega arith) wm) (Within-le j p rest s r)

remember-Ensures :
    (n i : ℕ) (cat : Cat) (ms : List (Option ℕ))
    → i < n
    → Within n ms
    → Ensures n (remember i cat ms) Within
remember-Ensures n i cat ms b w =
    Ensures-then n _ _ Done Within
      (Ensures-update n i _ b (λ o. (refl, refl, refl, λ p. p))
        λ k o l c. record {
          members = c.members;
          lists = (Within-le n k ms l w, c.lists);
          dicts = c.dicts;
        })
      λ k l. Ensures-ret k ms Within (λ j q. Within-le n j ms (omega arith) w)

select_unless-Ensures :
    (n i : ℕ) (kept : Option (List (Option ℕ))) (includes : Option ℕ → M Bool) (cat : Cat)
    (o : Object)
    → i < n
    → Tests n includes
    → Found (Within n) kept
    → Closed n o
    → Ensures n (select_unless kept includes i cat o) Within
unfolding select_unless
select_unless-Ensures n i (some ms) includes cat o b t f c =
    Ensures-ret n ms Within (λ k l. Within-le n k ms l f)
select_unless-Ensures n i none includes cat o b t f c =
    Ensures-bind n (select includes o.members) _ Within Within
      (select-Ensures n includes o.members t c.members)
      λ k ms l w. remember-Ensures k i cat ms (omega arith) w

pub in_category_by-Ensures :
    (files : Files) (n i : ℕ) (includes : Option ℕ → M Bool) (cat : Cat)
    → i < n
    → Tests n includes
    → Ensures n (in_category_by includes files i cat) Within
unfolding in_category_by
in_category_by-Ensures files n i includes cat b t =
    Ensures-then n (confirm_no_error files i) _ Done Within (confirm_no_error-Ensures files n i b)
      λ k l. Ensures-bind k (get i) _ Closed Within (Ensures-get k i (omega arith)) λ m o g c.
        select_unless-Ensures m i (lookup_cat cat o.in_category) includes cat o (omega arith)
          (λ j x q v. t j x (omega arith) v) (lookup_cat-Found (Within m) cat o.in_category c.lists)
          c

pub in_category-Ensures :
    (files : Files) (n i : ℕ) (cat : Cat) → i < n → Ensures n (in_category files i cat) Within
unfolding in_category
in_category-Ensures files n i all b =
    Ensures-then n (confirm_no_error files i) _ Done Within (confirm_no_error-Ensures files n i b)
      λ k l.
        Ensures-bind k (get i) _ Closed Within (Ensures-get k i (omega arith))
          λ m o g c. Ensures-ret m o.members Within (λ j q. Within-le m j o.members q c.members)
in_category-Ensures files n i (of_class cls) b =
    in_category_by-Ensures files n i (instance_of cls) (of_class cls) b
      (λ k m l w. instance_of-Ensures cls k m w)
in_category-Ensures files n i block b = Ensures-raise n attribute_error Within tt
