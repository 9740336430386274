-- ===== src/Grc.antt =====
-- `GRCXMLGenerator` of gr_modtool.py, with `xml_indent` and `is_number`: the element tree that
-- describes a block, and the blanks that make it readable.
pub mod Indent
pub mod Counts
mod Tests
use hachoir.Prelude.{
  ℕ, zero, suc, ◌+◌, ◌-◌, Bool, true, false, not, ◌&&◌, ◌||◌, Option, none, some, List, [], ◌∷◌,
  ◌++◌, Text, codes, ◌==◌, if◌then◌else◌, length, text_eq, strip, join, replace, capitalize, upper,
  map, keep, all, ltb, decimal, value_of, is_digit, is_some,
}
use hachoir.Re.{Regex, Cursor, run, start, nothing, alt, set, char, star, plus, optional, text, ◌⊳◌}
use hachoir.CcParser.Params.{
  Outcome, ret, crash, Crash, index_crash, type_crash, value_crash, ◌>>=◌, GrcParam,
}
use hachoir.CcParser.IoSignature.{Ports, IoSig}

-- an element of `xml.etree`, and its children
mutual
  pub data Element : Type 0 where
    element : Text → Option Text → Option Text → Children → Element

  pub data Children : Type 0 where
    nil : Children
    cons : Element → Children → Children

abbrev pub children_of : List Element → Children
children_of [] = nil
children_of (e ∷ es) = cons e (children_of es)

-- `not t or not t.strip()`
abbrev pub is_blank : Option Text → Bool
is_blank none = true
is_blank (some t) = text_eq (strip t) []

abbrev pub or_blank : Option Text → Text → Option Text
or_blank t i = if is_blank t then some i else t

-- `level*"    "`
abbrev pub margin : ℕ → Text
margin zero = []
margin (suc n) = 32 ∷ 32 ∷ 32 ∷ 32 ∷ margin n

abbrev pub line_of : ℕ → Text
line_of level = b'\n' ∷ margin level

abbrev pub is_leaf : Children → Bool
is_leaf nil = true
is_leaf (cons e es) = false

-- the tail of the last child is set once more, behind the loop
abbrev pub with_tail : Bool → Text → Element → Element
with_tail last i (element tag t tl es) = element tag t (if last then or_blank tl i else tl) es

-- the text and the tail that one element gets, before its children are visited
abbrev own_text : ℕ → Bool → Option Text → Option Text
own_text level true t = t
own_text level false t = or_blank t (line_of level ++ codes "    ")

abbrev own_tail : ℕ → Bool → Option Text → Option Text
own_tail zero true tl = tl
own_tail (suc n) true tl = or_blank tl (line_of (suc n))
own_tail level false tl = or_blank tl (line_of level)

unfoldable mutual
  unfolding text_eq

  pub xml_indent : Element → ℕ → Element
  xml_indent (element tag t tl es) level =
      element tag (own_text level (is_leaf es) t) (own_tail level (is_leaf es) tl)
        (indent_all es level)

  pub indent_all : Children → ℕ → Children
  indent_all nil level = nil
  indent_all (cons e es) level =
      cons (with_tail (is_leaf es) (line_of level) (xml_indent e (suc level))) (indent_all es level)

-- `float(s)` succeeds: white space around, a sign, digits with a point and an exponent, or one of
-- the names of the values that are not finite.
abbrev digit : Regex
digit = set is_digit

abbrev sign : Regex
sign = optional (alt (char b'+') (char b'-'))

abbrev letter : ℕ → ℕ → Regex
letter a b = set (λ c. c == a || c == b)

abbrev mantissa : Regex
mantissa = alt (plus digit ⊳ optional (char b'.' ⊳ star digit)) (char b'.' ⊳ plus digit)

abbrev infinite : Regex
infinite = alt (letter b'n' b'N' ⊳ letter b'a' b'A' ⊳ letter b'n' b'N') (
    letter b'i' b'I'
    ⊳ letter b'n' b'N'
    ⊳ letter b'f' b'F'
    ⊳ optional (
        letter b'i' b'I'
        ⊳ letter b'n' b'N'
        ⊳ letter b'i' b'I'
        ⊳ letter b't' b'T'
        ⊳ letter b'y' b'Y'))

abbrev number_regex : Regex
number_regex = sign ⊳ alt (mantissa ⊳ optional (letter b'e' b'E' ⊳ sign ⊳ plus digit)) infinite

abbrev at_end : Cursor → Option Cursor
at_end s = elim s.after [ [] ↦ some s | c ∷ cs ↦ none ]

unfoldable pub is_number : Text → Bool
unfolding run
is_number s = is_some (run number_regex (start (strip s)) at_end)

-- `int(s)`: `none` is its `ValueError`. What is below zero is only compared with a length and
-- counts as 0 here, which gives the same answer.
abbrev digits_of : Text → Option ℕ
digits_of [] = none
digits_of (c ∷ cs) = if all is_digit (c ∷ cs) then some (value_of 0 (c ∷ cs)) else none

abbrev negative : Option ℕ → Option ℕ
negative none = none
negative (some n) = some 0

abbrev signed : Text → Option ℕ
signed [] = none
signed (c ∷ cs) =
    if c == b'-'
    then negative (digits_of cs)
    else if c == b'+'
    then digits_of cs
    else digits_of (c ∷ cs)

unfoldable pub int_of : Text → Option ℕ
int_of s = signed (strip s)

-- what the constructor keeps
pub record Generator : Type 0 where
  pub modname : Text
  pub blockname : Text
  pub doc : Option Text
  pub params : List GrcParam
  pub iosig : IoSig

abbrev pub constructor_params : List GrcParam → List Text
constructor_params ps = map (λ p. b'$' ∷ p.key) (keep (λ p. p.in_constructor) ps)

-- `self._header`
unfoldable pub header : Generator → List (Text × Text)
header g =
    (codes "name", capitalize (replace (codes "_") (codes " ") g.blockname))
    ∷ (codes "key", g.modname ++ b'_' ∷ g.blockname)
    ∷ (codes "category", map upper g.modname)
    ∷ (codes "import", codes "import " ++ g.modname)
    ∷ (
      codes "make",
      g.modname
          ++ b'.'
            ∷ (g.blockname
                ++ b'(' ∷ (join (codes ", ") (constructor_params g.params) ++ codes ")")),
    )
    ∷ []

-- `ET.SubElement(root, tag).text = t`
abbrev pub leaf : Text → Text → Element
leaf tag t = element tag (some t) none nil

abbrev pub header_tags : List (Text × Text) → List Element
header_tags [] = []
header_tags ((tag, t) ∷ hs) = leaf tag t ∷ header_tags hs

abbrev default_tag : Text → List Element
default_tag [] = []
default_tag (c ∷ cs) = leaf (codes "value") (c ∷ cs) ∷ []

unfoldable pub param_tag : GrcParam → Element
param_tag p = element (codes "param") none none (
    children_of (
      leaf (codes "name") (capitalize p.key)
      ∷ (leaf (codes "key") p.key ∷ (default_tag p.default ++ leaf (codes "type") p.type ∷ []))))

-- the tag for a vector length other than 1; `float(None)` raises `TypeError`
unfoldable pub vlen_tag : Option Text → Outcome (List Element)
vlen_tag none = crash type_crash
vlen_tag (some v) =
    if text_eq v (codes "1")
    then ret []
    else ret (leaf (codes "vlen") (if is_number v then v else b'$' ∷ v) ∷ [])

-- the tag for the number of ports, at the last type of the signature
unfoldable pub nports_of : ℕ → Option ℕ → Outcome (List Element)
nports_of n none = crash value_crash
nports_of n (some k) =
    if ltb n k then ret (leaf (codes "nports") (decimal (k - n + 1)) ∷ []) else ret []

unfoldable pub nports_tag : Bool → ℕ → Text → Outcome (List Element)
unfolding nports_of
nports_tag false n max = ret []
nports_tag true n max =
    if not (is_number max) then ret (leaf (codes "nports") max ∷ []) else nports_of n (int_of max)

abbrev pub is_last : List Text → Bool
is_last [] = true
is_last (t ∷ ts) = false

-- `for i in range(len(type))`, over what is left of the two lists
unfoldable pub port_tags :
    Text → Text → ℕ → Text → List Text → List (Option Text) → Outcome (List Element)
unfolding vlen_tag nports_tag
port_tags tag inout n max [] vlens = ret []
port_tags tag inout n max (t ∷ ts) [] = crash index_crash
port_tags tag inout n max (t ∷ ts) (v ∷ vs) = do
  vlen ← vlen_tag v
  nports ← nports_tag (is_last ts) n max
  rest ← port_tags tag inout n max ts vs
  ret (
      element tag none none
        (children_of (leaf (codes "name") inout ∷ (leaf (codes "type") t ∷ (vlen ++ nports))))
      ∷ rest)

-- one key of the dictionary of signatures; a key that is missing is not visited
unfoldable pub signature_tags : Text → Text → Option Ports → Outcome (List Element)
unfolding port_tags
signature_tags tag inout none = ret []
signature_tags tag inout (some p) =
    if text_eq p.max_ports (codes "0")
    then ret []
    else port_tags tag inout (length p.type) p.max_ports p.type p.vlen

abbrev pub doc_tag : Option Text → List Element
doc_tag none = []
doc_tag (some d) = leaf (codes "doc") d ∷ []

-- the children of the root, in order
unfoldable pub block_tags : Generator → Outcome (List Element)
unfolding header param_tag signature_tags
block_tags g = do
  sinks ← signature_tags (codes "sink") (codes "in") g.iosig.ports_in
  sources ← signature_tags (codes "source") (codes "out") g.iosig.ports_out
  ret (header_tags (header g) ++ (map param_tag g.params ++ (sinks ++ (sources ++ doc_tag g.doc))))

unfoldable pub make_xml : Generator → Outcome Element
unfolding block_tags
make_xml g = do tags ← block_tags g; ret (element (codes "block") none none (children_of tags))

-- the tree that `_manual_prettyprint` hands to the serialiser
unfoldable pub manual_prettyprint : Generator → Outcome Element
unfolding make_xml xml_indent
manual_prettyprint g = do root ← make_xml g; ret (xml_indent root 0)
