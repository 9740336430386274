-- ===== src/CcParser/RoundTrip.antt =====
-- The scanner on an argument list in the plain form: each argument is perhaps `const`, a type, one
-- blank, perhaps `&`, a name and perhaps `=` with a default value; a comma and a blank stand between.
use hachoir.Prelude.{
  ℕ, Bool, true, false, List, [], ◌∷◌, ◌++◌, Text, codes, ◌≡◌, refl, is_space, text_eq,
  append_assoc, arith, pos, all, Bool-cases, inl, inr, if◌then◌else◌, map,
}
use hachoir.CcParser.{Result, Scan, Param, ok, initial, enough, scan_param_list}
use hachoir.CcParser.Runs.{Yields, here, next, Yields-loop}
use hachoir.CcParser.Pieces.{
  typing, naming, defaulting, type_chars, whole_type, name_char, defv_char, param, run_type,
  run_name, run_defv, blank-step, indent-step, const-step, ref-step, equals-step, comma-step,
  next_param-step, close_name-step, close_defv-step,
}

-- a declared argument, as a C++ header writes it
pub record Decl : Type 0 where
  pub is_const : Bool
  pub by_ref : Bool
  pub param : Param

abbrev pub IsPlain : Decl → Type 0
IsPlain d =
    (type_chars (pos 0) d.param.type ≡ true)
    × (whole_type d.param.type ≡ true)
    × (all name_char d.param.name ≡ true)
    × (all defv_char d.param.defv ≡ true)

abbrev pub ArePlain : List Decl → Type 0
ArePlain [] = Unit
ArePlain (d ∷ ds) = IsPlain d × ArePlain ds

abbrev pub print_default : Text → Text → Text
print_default [] tail = tail
print_default (c ∷ cs) tail = b'=' ∷ (c ∷ cs) ++ tail

abbrev print_name : Decl → Text → Text
print_name d tail =
    let rest = d.param.name ++ print_default d.param.defv tail in
    if d.by_ref then b'&' ∷ rest else rest

abbrev print_type : Decl → Text → Text
print_type d tail = d.param.type ++ b' ' ∷ print_name d tail

abbrev print_decl : Decl → Text → Text
print_decl d tail =
    if d.is_const then codes "const" ++ b' ' ∷ print_type d tail else print_type d tail

-- a list of at least one argument, its closing parenthesis, and what stands behind that
abbrev pub print_all : Decl → List Decl → Text → Text
print_all d [] rest = print_decl d (b')' ∷ rest)
print_all d (e ∷ es) rest = print_decl d (b',' ∷ b' ' ∷ print_all e es rest)

-- the state at the end of an argument
abbrev pub ending : Text → List Param → Text → Text → ℕ → Text → Scan
ending [] ps ty nm prev rest = naming ps ty nm prev rest
ending (c ∷ cs) ps ty nm prev rest = defaulting ps ty nm (c ∷ cs) prev rest

-- The text is not empty, and does not begin with white space.
abbrev pub StartsBlack : Text → Type 0
StartsBlack [] = ⊥
StartsBlack (c ∷ cs) = is_space c ≡ false

pub name-StartsBlack : (n t : Text) → all name_char n ≡ true → StartsBlack t → StartsBlack (n ++ t)
name-StartsBlack [] t h k = k
name-StartsBlack (c ∷ n) t h k = ground arith

pub default-StartsBlack : (d t : Text) → StartsBlack t → StartsBlack (print_default d t)
default-StartsBlack [] t k = k
default-StartsBlack (c ∷ d) t k = refl

type-StartsBlack :
    (y t : Text) → type_chars (pos 0) y ≡ true → whole_type y ≡ true → StartsBlack (y ++ t)
unfolding text_eq
type-StartsBlack [] t h k = cc
type-StartsBlack (c ∷ y) t h k = ground arith

module _ {r : Result (List Param)} (ps : List Param) where
  pub run_default :
      (d t ty nm : Text) (prev : ℕ)
      → all defv_char d ≡ true
      → ((prev' : ℕ) → Yields r (ending d ps ty nm prev' t))
      → Yields r (naming ps ty nm prev (print_default d t))
  run_default [] t ty nm prev h y = y prev
  run_default (c ∷ d) t ty nm prev h y =
      next _ (equals-step ps ((c ∷ d) ++ t) ty nm prev)
        (run_defv ps (c ∷ d) t ty nm [] b'=' h (y _))

  pub run_named :
      (p : Param) (t : Text) (prev : ℕ)
      → all name_char p.name ≡ true
      → all defv_char p.defv ≡ true
      → ((prev' : ℕ) → Yields r (ending p.defv ps p.type p.name prev' t))
      → Yields r (naming ps p.type [] prev (p.name ++ print_default p.defv t))
  run_named p t prev h k y =
      run_name ps p.name _ p.type [] prev h (run_default p.defv t p.type p.name _ k y)

  pub blank :
      (t ty : Text) (prev : ℕ)
      → StartsBlack t
      → whole_type ty ≡ true
      → ((prev' : ℕ) → Yields r (naming ps ty [] prev' t))
      → Yields r (typing ps (pos 0) ty prev (b' ' ∷ t))
  blank [] ty prev h k y = absurd h
  blank (c ∷ t) ty prev h k y = next _ (blank-step ps c t ty prev h k) (y b' ')

  indent :
      (t : Text) (prev : ℕ)
      → StartsBlack t
      → ((prev' : ℕ) → Yields r (typing ps (pos 0) [] prev' t))
      → Yields r (typing ps (pos 0) [] prev (b' ' ∷ t))
  indent [] prev h y = absurd h
  indent (c ∷ t) prev h y = next _ (indent-step ps c t prev h) (y b' ')

  skip_const :
      (t : Text) (prev : ℕ)
      → StartsBlack t
      → ((prev' : ℕ) → Yields r (typing ps (pos 0) [] prev' t))
      → Yields r (typing ps (pos 0) [] prev (codes "const" ++ b' ' ∷ t))
  skip_const [] prev h y = absurd h
  skip_const (c ∷ t) prev h y =
      run_type ps (codes "const") (b' ' ∷ c ∷ t) (pos 0) [] prev refl
        (next _ (const-step ps c t _ h) (y b' '))

  run_amp :
      (amp : Bool) (p : Param) (t : Text) (prev : ℕ)
      → all name_char p.name ≡ true
      → all defv_char p.defv ≡ true
      → ((prev' : ℕ) → Yields r (ending p.defv ps p.type p.name prev' t))
      → Yields r (
          naming ps p.type [] prev
            (print_name (record { is_const = false; by_ref = amp; param = p }) t))
  run_amp true p t prev h k y = next _ (ref-step ps _ p.type [] prev) (run_named p t b'&' h k y)
  run_amp false p t prev h k y = run_named p t prev h k y

print_name-StartsBlack :
    (d : Decl) (t : Text) → IsPlain d → StartsBlack t → StartsBlack (print_name d t)
print_name-StartsBlack d t h k = elim (Bool-cases d.by_ref) [
  | inl e ↦ rw e refl
  | inr e ↦ rw e (name-StartsBlack d.param.name _ h.2 (default-StartsBlack d.param.defv t k))
]

module _ {r : Result (List Param)} (ps : List Param) where
  run_typed :
      (d : Decl) (t : Text) (prev : ℕ)
      → IsPlain d
      → StartsBlack t
      → ((prev' : ℕ) → Yields r (ending d.param.defv ps d.param.type d.param.name prev' t))
      → Yields r (typing ps (pos 0) [] prev (print_type d t))
  run_typed d t prev h k y = run_type ps d.param.type _ (pos 0) [] prev h.0 (
      blank ps (print_name d t) d.param.type _ (print_name-StartsBlack d t h k) h.1
        (λ prev'. run_amp ps d.by_ref d.param t prev' h.2 h.3 y))

  run_decl :
      (d : Decl) (t : Text) (prev : ℕ)
      → IsPlain d
      → StartsBlack t
      → ((prev' : ℕ) → Yields r (ending d.param.defv ps d.param.type d.param.name prev' t))
      → Yields r (typing ps (pos 0) [] prev (print_decl d t))
  run_decl d t prev h k y = elim (Bool-cases d.is_const) [
    | inl e ↦ rw e (
        skip_const ps (print_type d t) prev (type-StartsBlack d.param.type _ h.0 h.1)
          (λ prev'. run_typed d t prev' h k y))
    | inr e ↦ rw e (run_typed d t prev h k y)
  ]

print_decl-StartsBlack : (d : Decl) (t : Text) → IsPlain d → StartsBlack (print_decl d t)
print_decl-StartsBlack d t h = elim (Bool-cases d.is_const) [
  | inl e ↦ rw e refl
  | inr e ↦ rw e (type-StartsBlack d.param.type _ h.0 h.1)
]

print_all-StartsBlack :
    (d : Decl) (ds : List Decl) (rest : Text) → IsPlain d → StartsBlack (print_all d ds rest)
print_all-StartsBlack d [] rest h = print_decl-StartsBlack d _ h
print_all-StartsBlack d (e ∷ ds) rest h = print_decl-StartsBlack d _ h

-- a closing parenthesis, or a comma and the next argument, behind an argument
end_close :
    (d : Text) (ps : List Param) (ty nm rest : Text) (prev : ℕ)
    → Yields (ok (ps ++ param ty nm d ∷ [])) (ending d ps ty nm prev (b')' ∷ rest))
end_close [] ps ty nm rest prev = here _ (close_name-step ps rest ty nm prev) refl
end_close (c ∷ d) ps ty nm rest prev = here _ (close_defv-step ps rest ty nm (c ∷ d) prev) refl

end_comma :
    {r : Result (List Param)} (d : Text) (ps : List Param) (ty nm t : Text) (prev : ℕ)
    → Yields r (typing (ps ++ param ty nm d ∷ []) (pos 0) [] b',' t)
    → Yields r (ending d ps ty nm prev (b',' ∷ t))
end_comma [] ps ty nm t prev y =
    next _ (comma-step ps t ty nm prev) (next _ (next_param-step ps t ty nm [] prev) y)
end_comma (c ∷ d) ps ty nm t prev y = next _ (next_param-step ps t ty nm (c ∷ d) prev) y

run_all :
    (ds : List Decl) (d : Decl) (ps : List Param) (rest : Text) (prev : ℕ)
    → IsPlain d
    → ArePlain ds
    → Yields
        (ok (ps ++ map (λ e. e.param) (d ∷ ds)))
        (typing ps (pos 0) [] prev (print_all d ds rest))
run_all [] d ps rest prev h hs =
    run_decl ps d (b')' ∷ rest) prev h refl (λ prev'. end_close d.param.defv ps _ _ rest prev')
run_all (e ∷ es) d ps rest prev h hs =
    run_decl ps d (b',' ∷ b' ' ∷ print_all e es rest) prev h refl (λ prev'.
      end_comma d.param.defv ps _ _ _ prev' (
        indent (ps ++ d.param ∷ []) (print_all e es rest) b','
          (print_all-StartsBlack e es rest hs.0)
          (λ p. rw append_assoc at (run_all es e (ps ++ d.param ∷ []) rest p hs.0 hs.1))))

-- A plain argument list is read back, whatever follows its closing parenthesis: the scanner
-- returns the types, names and default values in order, without `const` and `&`.
pub scan_param_list-print_all :
    (d : Decl) (ds : List Decl) (rest : Text)
    → IsPlain d
    → ArePlain ds
    → scan_param_list (b'(' ∷ print_all d ds rest) ≡ ok (map (λ e. e.param) (d ∷ ds))
unfolding scan_param_list
scan_param_list-print_all d ds rest h hs =
    Yields-loop (enough (print_all d ds rest)) (initial (print_all d ds rest)) (omega arith)
      (run_all ds d [] rest b'(' h hs)
