-- ===== src/DoxyText/Flat.antt =====
-- `description_bit` against a flat list of pieces.
use hachoir.Prelude.{
  Bool, true, false, ◌&&◌, Option, none, some, List, [], ◌∷◌, ◌++◌, Text, codes, ◌≡◌, refl, sym, ap,
  append-nil, append_assoc, Bool-cases, inl, inr, text_eq, if◌then◌else◌,
}
use hachoir.DoxyText.{
  Item, content, content_, value, string, bare, Items, nil, cons, Result, ok, standard_error, ◌>>=◌,
  para, description_bit, description_bits,
}

-- the line breaks of one object
abbrev breaks : Option Text → List Text
breaks none = []
breaks (some name) = if text_eq name (codes "para") then codes "\n\n" ∷ [] else []

-- the strings from left to right, each paragraph with its line breaks behind it
unfoldable mutual
  pub pieces : Item → List Text
  pieces (content name items) = pieces_all items ++ breaks name
  pieces (content_ name items) = pieces_all items ++ breaks name
  pieces (value name item) = pieces item ++ breaks name
  pieces (string t) = t ∷ []
  pieces bare = []

  pub pieces_all : Items → List Text
  pieces_all nil = []
  pieces_all (cons item items) = pieces item ++ pieces_all items

-- no object without text
unfoldable mutual
  pub readable : Item → Bool
  readable (content name items) = readable_all items
  readable (content_ name items) = readable_all items
  readable (value name item) = readable item
  readable (string t) = true
  readable bare = false

  pub readable_all : Items → Bool
  readable_all nil = true
  readable_all (cons item items) = readable item && readable_all items

abbrev pub concat : List Text → Text
concat [] = []
concat (t ∷ ts) = t ++ concat ts

concat-append : (xs ys : List Text) → concat (xs ++ ys) ≡ concat xs ++ concat ys
concat-append [] ys = refl
concat-append (x ∷ xs) ys = simp (concat-append xs ys, append_assoc)

para-breaks :
    (name : Option Text) (xs : List Text) → para name (concat xs) ≡ concat (xs ++ breaks name)
para-breaks none xs = rw append-nil
para-breaks (some name) xs = elim (Bool-cases (text_eq name (codes "para"))) [
  | inl e ↦ rw (e, concat-append) refl
  | inr e ↦ rw (e, append-nil) refl
]

abbrev pub expected : Bool → Text → Result Text
expected true t = ok t
expected false t = standard_error

expected-para :
    (r : Result Text) (b : Bool) (name : Option Text) (xs : List Text)
    → r ≡ expected b (concat xs)
    → (r >>= λ t. ok (para name t)) ≡ expected b (concat (xs ++ breaks name))
expected-para r true name xs h = rw h (ap ok (para-breaks name xs))
expected-para r false name xs h = rw h refl

expected-pair :
    (r s : Result Text) (b c : Bool) (xs ys : List Text)
    → r ≡ expected b (concat xs)
    → s ≡ expected c (concat ys)
    → (r >>= λ t. s >>= λ rest. ok (t ++ rest)) ≡ expected (b && c) (concat (xs ++ ys))
expected-pair r s true true xs ys h k = rw (h, k) (ap ok (sym (concat-append xs ys)))
expected-pair r s true false xs ys h k = rw (h, k) refl
expected-pair r s false c xs ys h k = rw h refl

mutual
  unfolding description_bit pieces readable

  bit_lem : (item : Item) → description_bit item ≡ expected (readable item) (concat (pieces item))
  bit_lem (content name items) =
      expected-para (description_bits items) (readable_all items) name (pieces_all items)
        (bits_lem items)
  bit_lem (content_ name items) =
      expected-para (description_bits items) (readable_all items) name (pieces_all items)
        (bits_lem items)
  bit_lem (value name item) =
      expected-para (description_bit item) (readable item) name (pieces item) (bit_lem item)
  bit_lem (string t) = ap ok (sym (append-nil t))
  bit_lem bare = refl

  bits_lem :
      (items : Items)
      → description_bits items ≡ expected (readable_all items) (concat (pieces_all items))
  bits_lem nil = refl
  bits_lem (cons item items) =
      expected-pair (description_bit item) (description_bits items) (readable item)
        (readable_all items) (pieces item) (pieces_all items) (bit_lem item) (bits_lem items)

-- The text of an object is its strings from left to right, with two line breaks behind each
-- paragraph; the function raises exactly where some object inside has no text.
pub description_bit-pieces :
    (item : Item) → description_bit item ≡ expected (readable item) (concat (pieces item))
description_bit-pieces item = bit_lem item
