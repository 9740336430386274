-- ===== src/Doxy/Valid.antt =====
-- What holds of the objects on the heap at any time: members are objects, and each reference stands
-- for one object.
pub mod Writes
pub mod Rules
pub mod Making
pub mod Parsing
pub mod Checking
pub mod Asking
pub mod Naming
pub mod Attempted
use hachoir.Prelude.{
  ℕ, ◌≤◌, ◌<◌, Option, none, some, List, [], ◌∷◌, ◌++◌, Text, ◌≡◌, arith, length, get_elem?, true,
  refl, ◌∙◌, set, zero, suc,
}
use mathlib.Core.Path.{subst}
use hachoir.Doxy.Heap.{Cat, MemberDict, Object, Heap, lookup_ref}

-- the members are addresses below the bound
abbrev pub Within : ℕ → List (Option ℕ) → Type 0
Within n [] = Unit {0}
Within n (none ∷ ms) = Within n ms
Within n (some i ∷ ms) = (i < n) × Within n ms

abbrev pub NamesWithin : ℕ → MemberDict → Type 0
NamesWithin n [] = Unit {0}
NamesWithin n ((k, none) ∷ d) = NamesWithin n d
NamesWithin n ((k, some i) ∷ d) = (i < n) × NamesWithin n d

-- every list and every dictionary that is kept for a category
abbrev pub Kept {ℓ} : {V : Type ℓ} → (V → Type 0) → List (Cat × V) → Type 0
Kept P [] = Unit {0}
Kept P ((c, v) ∷ l) = P v × Kept P l

-- what an object holds are objects
pub record Closed (n : ℕ) (o : Object) : Type 0 where
  pub members : Within n o.members
  pub lists : Kept (Within n) o.in_category
  pub dicts : Kept (NamesWithin n) o.dict_members

abbrev pub AllClosed : ℕ → List Object → Type 0
AllClosed n [] = Unit {0}
AllClosed n (o ∷ os) = Closed n o × AllClosed n os

abbrev pub size : Heap → ℕ
size h = length h.objects

-- The members of all objects are on the heap; an object with a reference is the one that is found
-- under it, and what is found under a reference is an object with it.
pub record IsValid (h : Heap) : Type 0 where
  pub closed : AllClosed (size h) h.objects
  pub registered :
      (i : ℕ) (o : Object) (k : Text)
      → get_elem? h.objects i ≡ some o
      → o.refid ≡ some k
      → lookup_ref k h.refs ≡ some i
  pub known :
      (k : Text) (i : ℕ)
      → lookup_ref k h.refs ≡ some i
      → (o : Object) × (get_elem? h.objects i ≡ some o) × (o.refid ≡ some k)

-- an object is still the one it was: of its class, with its reference and its parsed data, and
-- parsed where it had been
abbrev pub Same : Object → Object → Type 0
Same o o' =
    (o'.cls ≡ o.cls)
    × (o'.refid ≡ o.refid)
    × (o'.parse_data ≡ o.parse_data)
    × (o.is_parsed ≡ true → o'.is_parsed ≡ true)

-- the objects of a heap are still there on another
abbrev pub Stays : Heap → Heap → Type 0
Stays h g =
    (i : ℕ) (o : Object)
    → get_elem? h.objects i ≡ some o
    → (o' : Object) × (get_elem? g.objects i ≡ some o') × Same o o'

pub Stays-refl : (h : Heap) → Stays h h
Stays-refl h i o e = (o, e, (refl, refl, refl, λ p. p))

pub Stays-trans : (h g k : Heap) → Stays h g → Stays g k → Stays h k
Stays-trans h g k s t i o e =
    let (o', e', (c, r, d, p)) = s i o e in
    let (o2, e2, (c', r', d', p')) = t i o' e' in (o2, e2, (c' ∙ c, r' ∙ r, d' ∙ d, λ q. p' (p q)))

pub Within-le : (n m : ℕ) (ms : List (Option ℕ)) → n ≤ m → Within n ms → Within m ms
Within-le n m [] h w = tt
Within-le n m (none ∷ ms) h w = Within-le n m ms h w
Within-le n m (some i ∷ ms) h (p, w) = (omega arith, Within-le n m ms h w)

pub NamesWithin-le : (n m : ℕ) (d : MemberDict) → n ≤ m → NamesWithin n d → NamesWithin m d
NamesWithin-le n m [] h w = tt
NamesWithin-le n m ((k, none) ∷ d) h w = NamesWithin-le n m d h w
NamesWithin-le n m ((k, some i) ∷ d) h (p, w) = (omega arith, NamesWithin-le n m d h w)

pub Kept-map {ℓ} :
    {V : Type ℓ} (P Q : V → Type 0) (l : List (Cat × V))
    → ((v : V) → P v → Q v)
    → Kept P l
    → Kept Q l
Kept-map P Q [] f k = tt
Kept-map P Q ((c, v) ∷ l) f (p, k) = (f v p, Kept-map P Q l f k)

pub Closed-le : (n m : ℕ) (o : Object) → n ≤ m → Closed n o → Closed m o
Closed-le n m o h c = record {
  members = Within-le n m o.members h c.members;
  lists = Kept-map (Within n) (Within m) o.in_category (λ ms. Within-le n m ms h) c.lists;
  dicts =
      Kept-map (NamesWithin n) (NamesWithin m) o.dict_members (λ d. NamesWithin-le n m d h) c.dicts;
}

pub AllClosed-le : (n m : ℕ) (os : List Object) → n ≤ m → AllClosed n os → AllClosed m os
AllClosed-le n m [] h w = tt
AllClosed-le n m (o ∷ os) h (c, w) = (Closed-le n m o h c, AllClosed-le n m os h w)

pub AllClosed-append :
    (n : ℕ) (os : List Object) (o : Object)
    → AllClosed n os
    → Closed n o
    → AllClosed n (os ++ o ∷ [])
AllClosed-append n [] o w c = (c, tt)
AllClosed-append n (p ∷ os) o (d, w) c = (d, AllClosed-append n os o w c)

pub AllClosed-set :
    (n : ℕ) (os : List Object) (i : ℕ) (o : Object)
    → AllClosed n os
    → Closed n o
    → AllClosed n (set os i o)
AllClosed-set n [] i o w c = tt
AllClosed-set n (p ∷ os) zero o (d, w) c = (c, w)
AllClosed-set n (p ∷ os) (suc i) o (d, w) c = (d, AllClosed-set n os i o w c)

pub Closed-get :
    (n : ℕ) (os : List Object) (i : ℕ) {o : Object}
    → AllClosed n os
    → get_elem? os i ≡ some o
    → Closed n o
Closed-get n [] i w e = cc
Closed-get n (p ∷ os) zero {o} (d, w) e = subst (Closed n) (injective e) d
  where
    injective : some p ≡ some o → p ≡ o
    injective e = cc
Closed-get n (p ∷ os) (suc i) (d, w) e = Closed-get n os i w e

pub Within-append :
    (n : ℕ) (ms ls : List (Option ℕ)) → Within n ms → Within n ls → Within n (ms ++ ls)
Within-append n [] ls w v = v
Within-append n (none ∷ ms) ls w v = Within-append n ms ls w v
Within-append n (some i ∷ ms) ls (p, w) v = (p, Within-append n ms ls w v)

-- an object whose members, lists and dictionaries are those of another
pub Closed-as :
    (n : ℕ) (o o' : Object)
    → o'.members ≡ o.members
    → o'.in_category ≡ o.in_category
    → o'.dict_members ≡ o.dict_members
    → Closed n o
    → Closed n o'
Closed-as n o o' m l d c = record {
  members = rw m c.members;
  lists = rw l c.lists;
  dicts = rw d c.dicts;
}
