-- ===== src/CcParser/IoSignature.antt =====
-- `read_io_signature` of `ParserCCBlock`: the input and the output signature of a block, from the
-- call of its constructor.
use hachoir.Prelude.{
  ℕ, zero, suc, ◌+◌, not, ◌||◌, Option, none, some, List, [], ◌∷◌, Text, codes, ◌==◌, if◌then◌else◌,
  text_eq, contains, split, join, strip, length,
}
use hachoir.Re.{
  Regex, alt, star, group, set, none_of, space, plus, optional, text, char, ◌⊳◌, search_text, Match,
  group_of,
}
use hachoir.CcParser.Params.{attribute_crash, Outcome, ret, crash, ◌>>=◌, Translator}

-- the dictionary of keys 'type', 'vlen', 'min_ports', 'max_ports'
pub record Ports : Type 0 where
  pub type : List Text
  pub vlen : List (Option Text)
  pub min_ports : Text
  pub max_ports : Text

-- 'sizeof\s*\(([^)]*)\)'
abbrev sizeof_regex : Regex
sizeof_regex =
    text (codes "sizeof")
    ⊳ star space
    ⊳ char b'('
    ⊳ group 1 (star (none_of (codes ")")))
    ⊳ char b')'

abbrev pub or_empty : Option Text → Text
or_empty none = []
or_empty (some t) = t

iotype_of : Translator → Option Match → Outcome Text
iotype_of type_trans none = type_trans (codes "char") none
iotype_of type_trans (some m) = type_trans (or_empty (group_of 1 m)) none

-- `type_trans` is called without a default value here
unfoldable pub typestr_to_iotype : Translator → Text → Outcome Text
unfolding iotype_of
typestr_to_iotype type_trans typestr = iotype_of type_trans (search_text sizeof_regex typestr)

-- `l[i]`, and `l.remove(x)`, which takes away the first element that is equal
abbrev pub get_elem? : List Text → ℕ → Option Text
get_elem? [] i = none
get_elem? (x ∷ xs) zero = some x
get_elem? (x ∷ xs) (suc i) = get_elem? xs i

abbrev pub remove : Text → List Text → List Text
remove t [] = []
remove t (x ∷ xs) = let rest = x ∷ remove t xs in if text_eq x t then xs else rest

-- `for fac in vlen_parts: if …: vlen_parts.remove(fac)`: the loop goes by an index into the list
-- that its body shortens, so the element behind a removed one is passed over. The first number
-- bounds the rounds.
unfoldable pub drop_sizeof : ℕ → ℕ → List Text → List Text
drop_sizeof zero i parts = parts
drop_sizeof (suc n) i parts = elim (get_elem? parts i) [
  | none ↦ parts
  | some fac ↦
      drop_sizeof n (suc i) (if contains (codes "sizeof") fac then remove fac parts else parts)
]

unfoldable pub vlen_of_parts : List Text → Option Text
vlen_of_parts [] = none
vlen_of_parts (p ∷ []) = some (strip p)
vlen_of_parts (p ∷ (q ∷ ps)) = some (strip (join (codes "*") (p ∷ (q ∷ ps))))

unfoldable pub typestr_to_vlen : Text → Option Text
unfolding drop_sizeof vlen_of_parts
typestr_to_vlen typestr =
    if not (contains (codes "sizeof") typestr)
    then some typestr
    else if not (contains (codes "*") typestr)
    then some (codes "1")
    else (let parts = split b'*' typestr in vlen_of_parts (drop_sizeof (length parts) 0 parts))

abbrev pub map_all {ℓ} : {A : Type ℓ} → (A → Outcome Text) → List A → Outcome (List Text)
map_all f [] = ret []
map_all f (x ∷ xs) = do y ← f x; ys ← map_all f xs; ret (y ∷ ys)

abbrev map_vlen : List Text → List (Option Text)
map_vlen [] = []
map_vlen (x ∷ xs) = typestr_to_vlen x ∷ map_vlen xs

-- What one half of the signature gives: a dictionary, or `ValueError`, whose handler prints a
-- message and leaves the key out.
unfoldable pub figure_out_iotype_and_vlen :
    Translator → Text → Text → Text → Text → Outcome (Option Ports)
figure_out_iotype_and_vlen type_trans iosigcall typestr min_ports max_ports =
    if contains (codes "gr_make_iosignaturev") iosigcall then ret none else (do
      types ← map_all (typestr_to_iotype type_trans) (split b',' typestr)
      ret (
          some (record {
            type = types;
            vlen = map_vlen (split b',' typestr);
            min_ports = min_ports;
            max_ports = max_ports;
          })))

-- 'gr_make_io_signature[23v]?'
abbrev call_regex : Regex
call_regex =
    text (codes "gr_make_io_signature") ⊳ optional (set (λ c. c == b'2' || c == b'3' || c == b'v'))

-- '(\([^\)]*\)|[^)])+'
abbrev type_regex : Regex
type_regex = plus (alt (char b'(' ⊳ star (none_of (codes ")")) ⊳ char b')') (none_of (codes ")")))

-- one call, its four groups from the number on: '(call)\s*\(\s*(min),\s*(max),\s*(type)\)'
abbrev half_regex : ℕ → Regex
half_regex n =
    group n call_regex
    ⊳ star space
    ⊳ char b'('
    ⊳ star space
    ⊳ group (n + 1) (plus (none_of (codes ",")))
    ⊳ char b','
    ⊳ star space
    ⊳ group (n + 2) (plus (none_of (codes ",")))
    ⊳ char b','
    ⊳ star space
    ⊳ group (n + 3) type_regex
    ⊳ char b')'

abbrev pub iosig_regex : Regex
iosig_regex = half_regex 1 ⊳ char b',' ⊳ star space ⊳ half_regex 5

abbrev pub half : Translator → ℕ → Match → Outcome (Option Ports)
half type_trans n m =
    figure_out_iotype_and_vlen type_trans (or_empty (group_of n m)) (or_empty (group_of (n + 3) m))
      (or_empty (group_of (n + 1) m)) (or_empty (group_of (n + 2) m))

-- the dictionary of keys 'in' and 'out'
pub record IoSig : Type 0 where
  pub ports_in : Option Ports
  pub ports_out : Option Ports

signature_of : Translator → Option Match → Outcome IoSig
signature_of type_trans none = crash attribute_crash
signature_of type_trans (some m) = do
  i ← half type_trans 1 m
  o ← half type_trans 5 m
  ret (record { ports_in = i; ports_out = o })

unfoldable pub read_io_signature : Translator → Text → Outcome IoSig
unfolding signature_of
read_io_signature type_trans code_cc = signature_of type_trans (search_text iosig_regex code_cc)
