-- ===== src/Grc/Counts.antt =====
-- How many tags of each kind the tree of a block has.
use hachoir.Prelude.{
  ℕ, suc, ◌+◌, Option, none, some, List, [], ◌∷◌, ◌++◌, Text, codes, ◌≡◌, refl, sym, ap, ◌⊎◌, ◌∙◌,
  arith, text_eq, if◌then◌else◌, Bool-cases, inl, inr, length, map,
}
use mathlib.Core.Path.{subst}
use hachoir.CcParser.Params.{Outcome, ret, crash, diverges, ◌>>=◌, >>=-eq-ret, GrcParam}
use hachoir.CcParser.IoSignature.{Ports}
use hachoir.Grc.{
  Element, element, Generator, header, header_tags, param_tag, vlen_tag, nports_tag, is_last,
  port_tags, signature_tags, doc_tag, block_tags,
}

abbrev tag_of : Element → Text
tag_of (element tag t tl es) = tag

abbrev pub count : Text → List Element → ℕ
count tag [] = 0
count tag (e ∷ es) = if text_eq (tag_of e) tag then suc (count tag es) else count tag es

count-append :
    (tag : Text) (xs ys : List Element) → count tag (xs ++ ys) ≡ count tag xs + count tag ys
count-append tag [] ys = omega arith
count-append tag (e ∷ xs) ys = ground (arith, count-append tag xs ys)

-- every element has the tag
abbrev AllTag : Text → List Element → Type 0
AllTag tag [] = Unit
AllTag tag (e ∷ es) = (tag_of e ≡ tag) × AllTag tag es

count-AllTag :
    (tag t : Text) (es : List Element)
    → AllTag tag es
    → count t es ≡ (if text_eq tag t then length es else 0)
count-AllTag tag t [] h = ground arith
count-AllTag tag t (e ∷ es) h = rw h.0 (ground (arith, count-AllTag tag t es h.1))

count_params : (t : Text) (ps : List GrcParam) → AllTag (codes "param") (map param_tag ps)
unfolding param_tag
count_params t [] = tt
count_params t (p ∷ ps) = (refl, count_params t ps)

length_params : (ps : List GrcParam) → length (map param_tag ps) ≡ length ps
length_params [] = refl
length_params (p ∷ ps) = ap suc (length_params ps)

-- What is returned, if anything is, has that many elements, all with the tag.
abbrev Tags : Text → ℕ → Outcome (List Element) → Type 0
Tags tag n (ret es) = AllTag tag es × (length es ≡ n)
Tags tag n _ = Unit

Tags-bind :
    (tag : Text) (n : ℕ) (m : Outcome (List Element)) (f : List Element → Outcome (List Element))
    → ((a : List Element) → Tags tag n (f a))
    → Tags tag n (m >>= f)
Tags-bind tag n (ret a) f h = h a
Tags-bind tag n (crash c) f h = tt
Tags-bind tag n diverges f h = tt

Tags-cons :
    (tag : Text) (n : ℕ) (m : Outcome (List Element)) (e : Element)
    → tag_of e ≡ tag
    → Tags tag n m
    → Tags tag (suc n) (m >>= λ rest. ret (e ∷ rest))
Tags-cons tag n (ret es) e h k = ((h, k.0), ap suc k.1)
Tags-cons tag n (crash c) e h k = tt
Tags-cons tag n diverges e h k = tt

-- one tag for each type
port_tags-Tags :
    (tag inout : Text) (n : ℕ) (max : Text) (ts : List Text) (vs : List (Option Text))
    → Tags tag (length ts) (port_tags tag inout n max ts vs)
unfolding port_tags
port_tags-Tags tag inout n max [] vs = (tt, refl)
port_tags-Tags tag inout n max (t ∷ ts) [] = tt
port_tags-Tags tag inout n max (t ∷ ts) (v ∷ vs) = Tags-bind tag _ (vlen_tag v) _ (λ a.
    Tags-bind tag _ (nports_tag (is_last ts) n max) _ (λ b.
      Tags-cons tag _ (port_tags tag inout n max ts vs) _ refl
        (port_tags-Tags tag inout n max ts vs)))

-- the ports of one direction: none if the key is missing or the maximum is `0`
abbrev pub port_count : Option Ports → ℕ
port_count none = 0
port_count (some p) = if text_eq p.max_ports (codes "0") then 0 else length p.type

signature_tags-Tags :
    (tag inout : Text) (p : Option Ports) → Tags tag (port_count p) (signature_tags tag inout p)
unfolding signature_tags
signature_tags-Tags tag inout none = (tt, refl)
signature_tags-Tags tag inout (some p) = elim (Bool-cases (text_eq p.max_ports (codes "0"))) [
  | inl e ↦ rw e (tt, refl)
  | inr e ↦ rw e (port_tags-Tags tag inout _ p.max_ports p.type p.vlen)
]

abbrev doc_count : Option Text → ℕ
doc_count none = 0
doc_count (some d) = 1

-- how many tags of a kind stand in a list that is put together from the five parts
count_parts :
    (t : Text) (g : Generator) (sinks sources : List Element)
    → count t (
        header_tags (header g) ++ (map param_tag g.params ++ (sinks ++ (sources ++ doc_tag g.doc))))
      ≡ count t (header_tags (header g))
        + (count t (map param_tag g.params)
            + (count t sinks + (count t sources + count t (doc_tag g.doc))))
count_parts t g sinks sources = omega (
  arith,
  count-append t (header_tags (header g))
      (map param_tag g.params ++ (sinks ++ (sources ++ doc_tag g.doc))),
  count-append t (map param_tag g.params) (sinks ++ (sources ++ doc_tag g.doc)),
  count-append t sinks (sources ++ doc_tag g.doc),
  count-append t sources (doc_tag g.doc),
)

abbrev returned : Outcome (List Element) → List Element
returned (ret es) = es
returned _ = []

count_of :
    (tag t : Text) (n : ℕ) (m : Outcome (List Element)) {es : List Element}
    → Tags tag n m
    → m ≡ ret es
    → count t es ≡ (if text_eq tag t then n else 0)
count_of tag t n (ret xs) {es} h e =
    subst (λ ys. count t ys ≡ (if text_eq tag t then n else 0)) (ap returned e)
      (count-AllTag tag t xs h.0 ∙ ap (λ (k : ℕ). if text_eq tag t then k else 0) h.1)
count_of tag t n (crash c) h e = cc
count_of tag t n diverges h e = cc

-- no tag of the header and no `doc` is counted
abbrev IsCounted : Text → Type 0
IsCounted t = (t ≡ codes "param") ⊎ (t ≡ codes "sink") ⊎ (t ≡ codes "source")

count_others :
    (t : Text) (g : Generator)
    → IsCounted t
    → count t (header_tags (header g)) + count t (doc_tag g.doc) ≡ 0
unfolding header text_eq
count_others t g (inl e) = rw e (count_doc g.doc)
  where
    count_doc : (d : Option Text) → 0 + count (codes "param") (doc_tag d) ≡ 0
    count_doc none = refl
    count_doc (some d) = refl
count_others t g (inr (inl e)) = rw e (count_doc g.doc)
  where
    count_doc : (d : Option Text) → 0 + count (codes "sink") (doc_tag d) ≡ 0
    count_doc none = refl
    count_doc (some d) = refl
count_others t g (inr (inr e)) = rw e (count_doc g.doc)
  where
    count_doc : (d : Option Text) → 0 + count (codes "source") (doc_tag d) ≡ 0
    count_doc none = refl
    count_doc (some d) = refl

-- the number of tags of a kind that each of the three middle parts has
abbrev pub expected : Text → Generator → ℕ
expected t g =
    (if text_eq (codes "param") t then length g.params else 0)
    + (if text_eq (codes "sink") t then port_count g.iosig.ports_in else 0)
    + (if text_eq (codes "source") t then port_count g.iosig.ports_out else 0)

count_block :
    (t : Text) (g : Generator) {tags : List Element}
    → IsCounted t
    → block_tags g ≡ ret tags
    → count t tags ≡ expected t g
unfolding block_tags
count_block t g {tags} c h =
    let (sinks, hs, h1) =
      >>=-eq-ret (signature_tags (codes "sink") (codes "in") g.iosig.ports_in) _ h in
    let (sources, ho, h2) =
      >>=-eq-ret (signature_tags (codes "source") (codes "out") g.iosig.ports_out) _ h1 in
    let in_count =
      count_of (codes "sink") t (port_count g.iosig.ports_in) _
        (signature_tags-Tags (codes "sink") (codes "in") g.iosig.ports_in) hs in
    let out_count =
      count_of (codes "source") t (port_count g.iosig.ports_out) _
        (signature_tags-Tags (codes "source") (codes "out") g.iosig.ports_out) ho in
    let param_count =
      count-AllTag (codes "param") t (map param_tag g.params) (count_params t g.params)
      ∙ ap (λ (k : ℕ). if text_eq (codes "param") t then k else 0) (length_params g.params) in
    ap (count t) (sym (ap returned h2))
    ∙ omega
        (arith, count_parts t g sinks sources, count_others t g c, in_count, out_count, param_count)

-- The tree of a block has one `param` for each parameter, and one `sink` and one `source` for each
-- type of its input and of its output signature, and none where the maximum of ports is `0`.
pub block_tags_counts :
    (g : Generator) {tags : List Element}
    → block_tags g ≡ ret tags
    → (count (codes "param") tags ≡ length g.params)
      × (count (codes "sink") tags ≡ port_count g.iosig.ports_in)
      × (count (codes "source") tags ≡ port_count g.iosig.ports_out)
unfolding text_eq
block_tags_counts g h = (
  omega (arith, count_block (codes "param") g (inl refl) h),
  omega (arith, count_block (codes "sink") g (inr (inl refl)) h),
  omega (arith, count_block (codes "source") g (inr (inr refl)) h),
)
