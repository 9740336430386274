-- ===== src/CcParser/Vlen.antt =====
-- The vector length that `_typestr_to_vlen` reads from a product with one `sizeof`.
use hachoir.Prelude.{
  ℕ, zero, suc, ◌+◌, ◌≤◌, ◌<◌, Bool, true, false, not, Option, none, some, List, [], ◌∷◌, ◌++◌,
  Text, codes, ◌≡◌, ◌≢◌, refl, arith, ◌==◌, length, contains, split, cons_first, drop_prefix,
  is_some, strip, text_eq, text_eq_refl, text_eq_iff, Bool-cases, inl, inr, all, if◌then◌else◌,
}
use hachoir.CcParser.IoSignature.{get_elem?, remove, drop_sizeof, vlen_of_parts, typestr_to_vlen}

abbrev other : ℕ → Text → Bool
other c = all (λ d. not (d == c))

-- `split` at a character
pub split_none : (c : ℕ) (t : Text) → other c t ≡ true → split c t ≡ t ∷ []
split_none c [] h = refl
split_none c (d ∷ t) h = ground (arith, split_none c t)

pub split_one :
    (c : ℕ) (a b : Text) → other c a ≡ true → other c b ≡ true → split c (a ++ c ∷ b) ≡ a ∷ b ∷ []
split_one c [] b h k = ground (arith, split_none c b k)
split_one c (d ∷ a) b h k = ground (arith, split_one c a b)

-- a text within a longer one
drop_prefix-append :
    (p t u : Text) → is_some (drop_prefix p t) ≡ true → is_some (drop_prefix p (t ++ u)) ≡ true
drop_prefix-append [] t u h = refl
drop_prefix-append (x ∷ p) [] u h = cc
drop_prefix-append (x ∷ p) (c ∷ t) u h = ground (arith, drop_prefix-append p t u)

pub contains-append_left : (p t u : Text) → contains p t ≡ true → contains p (t ++ u) ≡ true
contains-append_left [] [] [] h = refl
contains-append_left [] [] (c ∷ u) h = refl
contains-append_left (x ∷ p) [] u h = cc
contains-append_left p (c ∷ t) u h =
    ground (arith, contains-append_left p t u, drop_prefix-append p (c ∷ t) u)

pub contains-append_right : (p t u : Text) → contains p u ≡ true → contains p (t ++ u) ≡ true
contains-append_right p [] u h = h
contains-append_right p (c ∷ t) u h = ground (arith, contains-append_right p t u)

contains-head : (c : ℕ) (u : Text) → contains (c ∷ []) (c ∷ u) ≡ true
contains-head c u = ground arith

-- `l.remove(x)` at the first and at the second of two
remove_first : (a : Text) (l : List Text) → remove a (a ∷ l) ≡ l
remove_first a l = rw text_eq_refl

drop_first :
    (t v : Text) → contains (codes "sizeof") t ≡ true → drop_sizeof 2 0 (t ∷ v ∷ []) ≡ v ∷ []
unfolding drop_sizeof
drop_first t v h = ground (arith, text_eq_refl t)

drop_second :
    (t v : Text)
    → contains (codes "sizeof") t ≡ true
    → contains (codes "sizeof") v ≡ false
    → drop_sizeof 2 0 (v ∷ t ∷ []) ≡ v ∷ []
unfolding drop_sizeof
drop_second t v h k = elim (Bool-cases (text_eq v t)) [
  | inl e ↦ cc ((text_eq_iff v t).0 e)
  | inr e ↦ ground (arith, text_eq_refl t)
]

-- One factor with `sizeof` and one without, on either side of the product: the vector length is
-- the other factor, without the white space around it.
pub typestr_to_vlen_product :
    (t v : Text)
    → contains (codes "sizeof") t ≡ true
    → contains (codes "sizeof") v ≡ false
    → other b'*' t ≡ true
    → other b'*' v ≡ true
    → (typestr_to_vlen (t ++ b'*' ∷ v) ≡ some (strip v))
      × (typestr_to_vlen (v ++ b'*' ∷ t) ≡ some (strip v))
unfolding typestr_to_vlen vlen_of_parts
typestr_to_vlen_product t v ht hv st sv = (
  ground (
    arith,
    contains-append_left (codes "sizeof") t (b'*' ∷ v) ht,
    contains-append_right (codes "*") t (b'*' ∷ v) (contains-head b'*' v),
    split_one b'*' t v st sv,
    drop_first t v ht,
  ),
  ground (
    arith,
    contains-append_right (codes "sizeof") v (b'*' ∷ t)
        (contains-append_right (codes "sizeof") (b'*' ∷ []) t ht),
    contains-append_right (codes "*") v (b'*' ∷ t) (contains-head b'*' t),
    split_one b'*' v t sv st,
    drop_second t v ht hv,
  ),
)

get_elem?-lt : (i : ℕ) (l : List Text) {f : Text} → get_elem? l i ≡ some f → i < length l
get_elem?-lt i [] h = cc
get_elem?-lt zero (x ∷ l) h = omega arith
get_elem?-lt (suc i) (x ∷ l) h = omega (arith, get_elem?-lt i l h)

length-remove : (f : Text) (l : List Text) → length l ≤ length (remove f l) + 1
length-remove f [] = omega arith
length-remove f (x ∷ l) = ground (arith, length-remove f l)

-- the parts behind one round, for the element at the index
abbrev after_round : Text → List Text → List Text
after_round fac parts = if contains (codes "sizeof") fac then remove fac parts else parts

length-after_round : (f : Text) (l : List Text) → length l ≤ length (after_round f l) + 1
length-after_round f l = ground (arith, length-remove f l)

-- The loop that drops factors leaves one at least, of one or more behind the first index, and of
-- two or more at the first.
drop-pos :
    (n i : ℕ) (l : List Text) → 0 < length l → 2 ≤ i + length l → 0 < length (drop_sizeof n i l)
unfolding drop_sizeof
drop-pos zero i l h k = h
drop-pos (suc n) i l h k =
    go (get_elem? l i) (λ f e. get_elem?-lt i l e) (λ f. drop-pos n (suc i) (after_round f l))
  where
    go :
        (o : Option Text)
        → ((f : Text) → o ≡ some f → i < length l)
        → ((f : Text)
            → 0 < length (after_round f l)
            → 2 ≤ suc i + length (after_round f l)
            → 0 < length (drop_sizeof n (suc i) (after_round f l)))
        → 0 < length (elim o [ none ↦ l | some f ↦ drop_sizeof n (suc i) (after_round f l) ])
    go none lt ih = h
    go (some f) lt ih =
        ih f (omega (arith, lt f refl, length-after_round f l))
          (omega (arith, lt f refl, length-after_round f l))

length-cons_first : (c : ℕ) (ps : List Text) → ps ≢ [] → length (cons_first c ps) ≡ length ps
length-cons_first c [] h = absurd (h refl)
length-cons_first c (p ∷ ps) h = refl

split-ne-nil : (c : ℕ) (t : Text) → 1 ≤ length (split c t)
split-ne-nil c [] = omega arith
split-ne-nil c (d ∷ t) = go (d == c) (split c t)
  where
    go : (b : Bool) (ps : List Text) → 1 ≤ length (if b then [] ∷ ps else cons_first d ps)
    go true ps = omega arith
    go false [] = omega arith
    go false (p ∷ ps) = omega arith

-- a text that holds the separator has two parts at least
split-two : (c : ℕ) (t : Text) → contains (c ∷ []) t ≡ true → 2 ≤ length (split c t)
split-two c [] h = cc
split-two c (d ∷ t) h = elim (Bool-cases (d == c)) [
  | inl e ↦ rw e (omega (arith, split-ne-nil c t))
  | inr e ↦ rw e (go (split c t) (split-two c t (ground arith)))
]
  where
    go : (ps : List Text) → 2 ≤ length ps → 2 ≤ length (cons_first d ps)
    go [] k = absurd (omega arith)
    go (p ∷ ps) k = omega arith

vlen_of_parts-ne-none : (l : List Text) → 0 < length l → vlen_of_parts l ≢ none
unfolding vlen_of_parts
vlen_of_parts-ne-none [] h = absurd (omega arith)
vlen_of_parts-ne-none (p ∷ []) h = λ e. cc
vlen_of_parts-ne-none (p ∷ (q ∷ l)) h = λ e. cc

-- A vector length is always found: the function never falls off its end, which would be `None`.
pub typestr_to_vlen-ne-none : (t : Text) → typestr_to_vlen t ≢ none
unfolding typestr_to_vlen
typestr_to_vlen-ne-none t = elim (Bool-cases (contains (codes "sizeof") t)) [
  | inr e ↦ rw e (λ h. cc)
  | inl e ↦ elim (Bool-cases (contains (codes "*") t)) [
    | inr k ↦ rw (e, k) (λ h. cc)
    | inl k ↦
        rw (e, k)
          (vlen_of_parts-ne-none _ (
            drop-pos (length (split b'*' t)) 0 (split b'*' t) (omega (arith, split-two b'*' t k))
              (omega (arith, split-two b'*' t k))))
  ]
]
