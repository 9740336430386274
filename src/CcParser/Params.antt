-- ===== src/CcParser/Params.antt =====
-- `read_params` of `ParserCCBlock`, `dummy_translator`, and the translation `_type_translate` that
-- `ModToolMakeXML._parse_cc_h` hands to the parser. An exception that nothing catches is `crash`.
use hachoir.Prelude.{
  Bool, true, Option, none, some, List, [], ◌∷◌, Text, codes, if◌then◌else◌, text_eq, lower, map,
  ◌≡◌, refl,
}
use hachoir.Re.{Regex, star, behind, set, is_word, space, plus, text, ◌⊳◌, search_text, Match}
use hachoir.CcParser.{Param, ScanError, index_error, Result, ok, err, stuck, scan_param_list}

-- What ends the program: `sys.exit(0)` behind a message, or an exception.
pub data Crash : Type 0 where
  exit_zero : ScanError → Crash
  index_crash attribute_crash type_crash value_crash key_crash : Crash

pub data Outcome {ℓ} (A : Type ℓ) : Type ℓ where
  ret : A → Outcome A
  crash : Crash → Outcome A
  diverges : Outcome A

infixl 5 ◌>>=◌
abbrev pub ◌>>=◌ {ℓ κ} : {A : Type ℓ} {B : Type κ} → Outcome A → (A → Outcome B) → Outcome B
ret a >>= f = f a
crash c >>= f = crash c
diverges >>= f = diverges

-- Inversion of a bind that returns.
pub >>=-eq-ret {ℓ κ} :
    {A : Type ℓ} {B : Type κ} (m : Outcome A) (f : A → Outcome B) {b : B}
    → (m >>= f) ≡ ret b
    → (a : A) × (m ≡ ret a) × (f a ≡ ret b)
>>=-eq-ret (ret a) f h = (a, refl, h)
>>=-eq-ret (crash c) f h = cc
>>=-eq-ret diverges f h = cc

-- a parameter of a GRC block: the dictionary of keys 'type', 'key', 'default', 'in_constructor'
pub record GrcParam : Type 0 where
  pub type : Text
  pub key : Text
  pub default : Text
  pub in_constructor : Bool

-- `type_trans`: the type, and the default value, or `None` where it is not passed
abbrev pub Translator : Type 0
Translator = Text → Option Text → Outcome Text

unfoldable pub dummy_translator : Translator
dummy_translator the_type default_v = ret the_type

abbrev pub take2 : Text → Text
take2 (a ∷ b ∷ cs) = a ∷ b ∷ []
take2 cs = cs

-- `default_v[:2].lower() == '0x'`
abbrev pub is_hex : Text → Bool
is_hex d = text_eq (map lower (take2 d)) (codes "0x")

abbrev translate_dict : List (Text × Text)
translate_dict =
    (codes "float", codes "float")
    ∷ (codes "double", codes "real")
    ∷ (codes "int", codes "int")
    ∷ (codes "gr_complex", codes "complex")
    ∷ (codes "char", codes "byte")
    ∷ (codes "unsigned char", codes "byte")
    ∷ (codes "std::string", codes "string")
    ∷ (codes "std::vector<int>", codes "int_vector")
    ∷ (codes "std::vector<float>", codes "real_vector")
    ∷ (codes "std::vector<gr_complex>", codes "complex_vector")
    ∷ []

-- a lookup that falls back to `'raw'`, as the handler of `KeyError` does
lookup_raw : List (Text × Text) → Text → Text
lookup_raw [] t = codes "raw"
lookup_raw ((k, v) ∷ rest) t = if text_eq k t then v else lookup_raw rest t

abbrev from_dict : Text → Outcome Text
from_dict t = ret (lookup_raw translate_dict t)

-- the slice `None[:2]` raises `TypeError`
int_type : Option Text → Outcome Text
int_type none = crash type_crash
int_type (some d) = if is_hex d then ret (codes "hex") else from_dict (codes "int")

unfoldable pub type_translate : Translator
unfolding int_type lookup_raw text_eq
type_translate p_type default_v =
    if text_eq p_type (codes "int") then int_type default_v else from_dict p_type

-- 'static\s+sptr\s+make\s*'
abbrev make37 : Regex
make37 =
    text (codes "static")
    ⊳ plus space
    ⊳ text (codes "sptr")
    ⊳ plus space
    ⊳ text (codes "make")
    ⊳ star space

abbrev word : Regex
word = set is_word

-- '(?<=_API)\s+\w+_sptr\s+\w+_make_\w+\s*'
abbrev make36 : Regex
make36 =
    behind (codes "IPA_")
    ⊳ plus space
    ⊳ plus word
    ⊳ text (codes "_sptr")
    ⊳ plus space
    ⊳ plus word
    ⊳ text (codes "_make_")
    ⊳ plus word
    ⊳ star space

abbrev pub make_regex : Text → Regex
make_regex version = if text_eq version (codes "37") then make37 else make36

unfoldable pub translate_all : Translator → List Param → Outcome (List GrcParam)
translate_all type_trans [] = ret []
translate_all type_trans (p ∷ ps) = do
  t ← type_trans p.type (some p.defv)
  rest ← translate_all type_trans ps
  ret (record { type = t; key = p.name; default = p.defv; in_constructor = true } ∷ rest)

-- the handler of `ValueError` prints the message and exits; an `IndexError` is not caught
unfoldable pub scan_outcome : Result (List Param) → Outcome (List Param)
scan_outcome (ok ps) = ret ps
scan_outcome (err index_error) = crash index_crash
scan_outcome (err e) = crash (exit_zero e)
scan_outcome stuck = diverges

-- `make_match.end(0)` on `None` raises `AttributeError`
scan_behind : Option Match → Outcome (List Param)
unfolding scan_outcome
scan_behind none = crash attribute_crash
scan_behind (some m) = scan_outcome (scan_param_list m.to.after)

unfoldable pub read_params : Translator → Text → Text → Outcome (List GrcParam)
unfolding translate_all scan_behind
read_params type_trans version code_h = do
  params_list ← scan_behind (search_text (make_regex version) code_h)
  translate_all type_trans params_list
