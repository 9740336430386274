-- ===== src/Modtool/Dispatch.antt =====
-- How gr_modtool.py finds the class of a command, by the names that the classes give themselves.
use hachoir.Prelude.{
  ℕ, Bool, true, false, Option, none, some, List, [], ◌∷◌, Text, ◌≡◌, refl, sym, ◌∙◌, ap, arith,
  any, get_elem?, Each, text_eq, text_eq_iff, text_in, if◌then◌else◌, is_some, Bool-cases, inl, inr,
  ◌==◌,
}
use mathlib.Core.Path.{subst}
use hachoir.Modtool.Main.{Tool, names_of, Commands, insert, insert_all, get_class_dict, find, keys}

-- the first of the classes that has the name
unfoldable first_with : Text → List Tool → Option Tool
first_with n [] = none
first_with n (t ∷ ts) =
    let rest = first_with n ts in if text_in n (names_of t) then some t else rest

abbrev pub all_tools : List Tool
all_tools =
    Tool.add ∷ Tool.remove ∷ Tool.disable ∷ Tool.info ∷ Tool.newmod ∷ Tool.makexml ∷ Tool.help ∷ []

-- which command a name stands for
unfoldable pub owner : Text → Option Tool
unfolding first_with
owner n = first_with n all_tools

text_in→each :
    (P : Text → Type 0) (n : Text) (ns : List Text) → Each P ns → text_in n ns ≡ true → P n
text_in→each P n [] e h = cc
text_in→each P n (m ∷ ns) e h = elim (Bool-cases (text_eq n m)) [
  | inl q ↦ subst P (sym ((text_eq_iff n m).0 q)) e.0
  | inr q ↦ text_in→each P n ns e.1 (ground (arith, q, h))
]

-- no name belongs to two classes
owner_lem : (t : Tool) (n : Text) → text_in n (names_of t) ≡ true → owner n ≡ some t
unfolding owner first_with text_eq
owner_lem t n h = text_in→each (λ m. owner m ≡ some t) n (names_of t) (each t) h
  where
    each : (t : Tool) → Each (λ m. owner m ≡ some t) (names_of t)
    each Tool.add = (refl, (refl, tt))
    each Tool.remove = (refl, (refl, (refl, tt)))
    each Tool.disable = (refl, (refl, tt))
    each Tool.info = (refl, (refl, (refl, tt)))
    each Tool.newmod = (refl, (refl, (refl, tt)))
    each Tool.makexml = (refl, (refl, tt))
    each Tool.help = (refl, (refl, (refl, tt)))

find-insert :
    (n m : Text) (t : Tool) (d : Commands)
    → find n (insert m t d) ≡ (if text_eq n m then some t else find n d)
unfolding find insert
find-insert n m t [] = ground (arith, text_eq_iff m n, text_eq_iff n m)
find-insert n m t ((k, u) ∷ d) =
    ground (
      arith,
      text_eq_iff k m,
      text_eq_iff k n,
      text_eq_iff m n,
      text_eq_iff n m,
      find-insert n m t d,
    )

find-insert_all :
    (n : Text) (ns : List Text) (t : Tool) (d : Commands)
    → find n (insert_all ns t d) ≡ (if text_in n ns then some t else find n d)
unfolding insert_all
find-insert_all n [] t d = refl
find-insert_all n (m ∷ ns) t d =
    ground (arith, find-insert_all n ns t (insert m t d), find-insert n m t d)

pub keys-find : (n : Text) (d : Commands) → text_in n (keys d) ≡ is_some (find n d)
unfolding find
keys-find n [] = refl
keys-find n ((k, t) ∷ d) = ground (arith, text_eq_iff k n, text_eq_iff n k, keys-find n d)

abbrev number : Tool → ℕ
number Tool.add = 0
number Tool.remove = 1
number Tool.disable = 2
number Tool.info = 3
number Tool.newmod = 4
number Tool.makexml = 5
number Tool.help = 6

abbrev pub same : Tool → Tool → Bool
same t u = number t == number u

same_refl : (t : Tool) → same t t ≡ true
same_refl t = ground arith

numbered : (t : Tool) → get_elem? all_tools (number t) ≡ some t
numbered Tool.add = refl
numbered Tool.remove = refl
numbered Tool.disable = refl
numbered Tool.info = refl
numbered Tool.newmod = refl
numbered Tool.makexml = refl
numbered Tool.help = refl

same→eq : (t u : Tool) → same t u ≡ true → t ≡ u
same→eq t u h =
    injective
      (sym (numbered t) ∙ ap (get_elem? all_tools) (equal (number t) (number u) h) ∙ numbered u)
  where
    equal : (a b : ℕ) → (a == b) ≡ true → a ≡ b
    equal a b e = ground arith

    injective : some t ≡ some u → t ≡ u
    injective p = cc

-- a command that has one of the given classes
abbrev pub among : List Tool → Option Tool → Option Tool
among ts none = none
among ts (some t) = if any (same t) ts then some t else none

abbrev pub or_else : Option Tool → Option Tool → Option Tool
or_else (some t) o = some t
or_else none o = o

first_with-owned :
    (t : Tool) (n : Text) (ts : List Tool)
    → first_with n ts ≡ some t
    → text_in n (names_of t) ≡ true
unfolding first_with
first_with-owned t n [] h = cc
first_with-owned t n (u ∷ ts) h = elim (Bool-cases (text_in n (names_of u))) [
  | inl e ↦ named e (first (first_with n ts) e h)
  | inr e ↦ first_with-owned t n ts (rest (first_with n ts) e h)
]
  where
    first :
        (o : Option Tool)
        → text_in n (names_of u) ≡ true
        → (if text_in n (names_of u) then some u else o) ≡ some t
        → some u ≡ some t
    first o e h = ground arith

    rest :
        (o : Option Tool)
        → text_in n (names_of u) ≡ false
        → (if text_in n (names_of u) then some u else o) ≡ some t
        → o ≡ some t
    rest o e h = ground arith

    named : text_in n (names_of u) ≡ true → some u ≡ some t → text_in n (names_of t) ≡ true
    named e p = cc

owned : (t : Tool) (n : Text) → owner n ≡ some t → text_in n (names_of t) ≡ true
unfolding owner
owned t n h = first_with-owned t n all_tools h

find-get_class_dict_from :
    (n : Text) (ts : List Tool) (d : Commands)
    → find n (get_class_dict ts d) ≡ or_else (among ts (owner n)) (find n d)
unfolding get_class_dict
find-get_class_dict_from n [] d = go (owner n)
  where
    go : (o : Option Tool) → find n d ≡ or_else (among [] o) (find n d)
    go none = refl
    go (some t) = refl
find-get_class_dict_from n (t ∷ ts) d =
    find-get_class_dict_from n ts (insert_all (names_of t) t d)
    ∙ rw (find-insert_all n (names_of t) t d) (elim (Bool-cases (text_in n (names_of t))) [
      | inl e ↦ rw (e, owner_lem t n e, same_refl t) (taken (any (same t) ts))
      | inr e ↦ rw e (passed (owner n) refl e)
    ])
  where
    taken : (b : Bool) → or_else (if b then some t else none) (some t) ≡ some t
    taken true = refl
    taken false = refl

    distinct :
        {u : Tool} → text_in n (names_of u) ≡ true → u ≡ t → text_in n (names_of t) ≡ false → ⊥
    distinct p q e = cc

    passed :
        (o : Option Tool)
        → owner n ≡ o
        → text_in n (names_of t) ≡ false
        → or_else (among ts o) (find n d) ≡ or_else (among (t ∷ ts) o) (find n d)
    passed none q e = refl
    passed (some u) q e = elim (Bool-cases (same u t)) [
      | inl f ↦ absurd (distinct (owned u n q) (same→eq u t f) e)
      | inr f ↦ rw f refl
    ]

-- The dictionary of commands maps each name to the class that it belongs to, if that is one of the
-- classes there are, in whatever order `globals()` gives them.
pub find-get_class_dict :
    (n : Text) (tools : List Tool) → find n (get_class_dict tools []) ≡ among tools (owner n)
unfolding find
find-get_class_dict n tools = find-get_class_dict_from n tools [] ∙ or_else-none _
  where
    or_else-none : (o : Option Tool) → or_else o none ≡ o
    or_else-none none = refl
    or_else-none (some t) = refl
