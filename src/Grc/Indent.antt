-- ===== src/Grc/Indent.antt =====
-- `xml_indent` and the texts that are not blank, and `xml_indent` run twice.
use hachoir.Prelude.{
  ℕ, zero, suc, Bool, true, false, Option, none, some, [], ◌++◌, Text, codes, ◌≡◌, refl, sym, ap,
  ◌∙◌, text_eq, lstrip, if◌then◌else◌, Bool-cases, inl, inr,
}
use hachoir.Grc.{
  Element, element, Children, nil, cons, is_blank, or_blank, margin, line_of, is_leaf, with_tail,
  own_text, own_tail, xml_indent, indent_all,
}

-- a text that is blank counts as none
abbrev visible : Option Text → Option Text
visible t = if is_blank t then none else t

mutual
  pub content : Element → Element
  content (element tag t tl es) = element tag (visible t) (visible tl) (content_all es)

  pub content_all : Children → Children
  content_all nil = nil
  content_all (cons e es) = cons (content e) (content_all es)

lstrip-margin : (n : ℕ) → lstrip (margin n) ≡ []
lstrip-margin zero = refl
lstrip-margin (suc n) = lstrip-margin n

-- the margin is white space
line-blank : (n : ℕ) → is_blank (some (line_of n)) ≡ true
unfolding text_eq
line-blank n = rw lstrip-margin refl

inner-blank : (n : ℕ) → is_blank (some (line_of n ++ codes "    ")) ≡ true
unfolding text_eq
inner-blank n = rw (lstrip-inner n) refl
  where
    lstrip-inner : (n : ℕ) → lstrip (margin n ++ codes "    ") ≡ []
    lstrip-inner zero = refl
    lstrip-inner (suc n) = lstrip-inner n

visible-or_blank :
    (t : Option Text) (i : Text) → is_blank (some i) ≡ true → visible (or_blank t i) ≡ visible t
visible-or_blank t i h = elim (Bool-cases (is_blank t)) [
  | inl e ↦ rw (e, h) refl
  | inr e ↦ rw (e, e) refl
]

visible-own_text : (l : ℕ) (b : Bool) (t : Option Text) → visible (own_text l b t) ≡ visible t
visible-own_text l true t = refl
visible-own_text l false t = visible-or_blank t _ (inner-blank l)

visible-own_tail : (l : ℕ) (b : Bool) (t : Option Text) → visible (own_tail l b t) ≡ visible t
visible-own_tail zero true t = refl
visible-own_tail (suc l) true t = visible-or_blank t _ (line-blank (suc l))
visible-own_tail l false t = visible-or_blank t _ (line-blank l)

content-with_tail :
    (b : Bool) (l : ℕ) (e : Element) → content (with_tail b (line_of l) e) ≡ content e
unfolding content
content-with_tail false l (element tag t tl es) = refl
content-with_tail true l (element tag t tl es) =
    ap (λ x. element tag (visible t) x (content_all es)) (visible-or_blank tl _ (line-blank l))

mutual
  unfolding xml_indent content

  content-indent : (e : Element) (l : ℕ) → content (xml_indent e l) ≡ content e
  content-indent (element tag t tl es) l =
      rw (visible-own_text, visible-own_tail, content-indent_all es l) refl

  content-indent_all : (es : Children) (l : ℕ) → content_all (indent_all es l) ≡ content_all es
  content-indent_all nil l = refl
  content-indent_all (cons e es) l =
      rw (content-with_tail (is_leaf es) l, content-indent e (suc l), content-indent_all es l) refl

-- Indenting keeps the tree: its tags, its texts and its tails, but for those that are blank.
pub content-xml_indent : (e : Element) (level : ℕ) → content (xml_indent e level) ≡ content e
content-xml_indent e level = content-indent e level

-- A blank is put in the place of a blank; the later one stays.
or_blank_later :
    (t : Option Text) (i j : Text)
    → is_blank (some i) ≡ true
    → or_blank (or_blank t i) j ≡ or_blank t j
or_blank_later t i j h = elim (Bool-cases (is_blank t)) [
  | inl e ↦ rw (e, h) refl
  | inr e ↦ rw (e, e) refl
]

own_text_twice :
    (l : ℕ) (b : Bool) (t : Option Text) → own_text l b (own_text l b t) ≡ own_text l b t
own_text_twice l true t = refl
own_text_twice l false t = or_blank_later t _ _ (inner-blank l)

own_tail_twice :
    (l : ℕ) (b : Bool) (t : Option Text) → own_tail l b (own_tail l b t) ≡ own_tail l b t
own_tail_twice zero true t = refl
own_tail_twice (suc l) true t = or_blank_later t _ _ (line-blank (suc l))
own_tail_twice l false t = or_blank_later t _ _ (line-blank l)

-- below the root every tail is filled
own_tail_inner :
    (l : ℕ) (b : Bool) (t : Option Text) → own_tail (suc l) b t ≡ or_blank t (line_of (suc l))
own_tail_inner l true t = refl
own_tail_inner l false t = refl

tail_again :
    (l : ℕ) (b : Bool) (t : Option Text)
    → or_blank (own_tail (suc l) b (or_blank t (line_of l))) (line_of l)
      ≡ or_blank (own_tail (suc l) b t) (line_of l)
tail_again l b t =
    rw (own_tail_inner l b, own_tail_inner l b)
      (or_blank_later (or_blank t (line_of l)) _ _ (line-blank (suc l))
        ∙ or_blank_later t _ _ (line-blank l)
        ∙ sym (or_blank_later t _ _ (line-blank (suc l))))

with_tail_again :
    (b : Bool) (l : ℕ) (e : Element)
    → with_tail b (line_of l) (xml_indent (with_tail b (line_of l) e) (suc l))
      ≡ with_tail b (line_of l) (xml_indent e (suc l))
unfolding xml_indent
with_tail_again false l (element tag t tl es) = refl
with_tail_again true l (element tag t tl es) =
    ap (λ x. element tag (own_text (suc l) (is_leaf es) t) x (indent_all es (suc l)))
      (tail_again l (is_leaf es) tl)

is_leaf-indent_all : (es : Children) (l : ℕ) → is_leaf (indent_all es l) ≡ is_leaf es
unfolding xml_indent
is_leaf-indent_all nil l = refl
is_leaf-indent_all (cons e es) l = refl

mutual
  unfolding xml_indent

  indent_twice : (e : Element) (l : ℕ) → xml_indent (xml_indent e l) l ≡ xml_indent e l
  indent_twice (element tag t tl es) l =
      rw
        (
          is_leaf-indent_all es l,
          own_text_twice l (is_leaf es) t,
          own_tail_twice l (is_leaf es) tl,
          indent_all_twice es l,
        )
        refl

  indent_all_twice : (es : Children) (l : ℕ) → indent_all (indent_all es l) l ≡ indent_all es l
  indent_all_twice nil l = refl
  indent_all_twice (cons e es) l =
      rw
        (
          is_leaf-indent_all es l,
          with_tail_again (is_leaf es) l (xml_indent e (suc l)),
          indent_twice e (suc l),
          indent_all_twice es l,
        )
        refl

-- Indenting a tree that is indented changes nothing.
pub xml_indent_twice :
    (e : Element) (level : ℕ) → xml_indent (xml_indent e level) level ≡ xml_indent e level
xml_indent_twice e level = indent_twice e level
