-- ===== src/CcParser/Pieces.antt =====
-- The scanner over one piece of an argument, with any text behind it.
use hachoir.Prelude.{
  ℕ, Bool, true, false, not, ◌&&◌, ◌||◌, List, [], ◌∷◌, ◌++◌, Text, codes, ◌≡◌, refl, ◌==◌,
  is_space, text_eq, append-nil, append_assoc, arith, ℤ, pos, negsuc, is_zero, all, &&-true,
}
use hachoir.CcParser.{
  Result, Scan, name, defv, again, done, Param, count_brackets, skip_white, initial, step,
}
use hachoir.CcParser.Runs.{Yields, next}

-- reading a type, a name and a default value, outside all parentheses
abbrev pub typing : List Param → ℤ → Text → ℕ → Text → Scan
typing ps b ty prev rest = record (initial rest) {
  prev = prev;
  param_list = ps;
  brackets_count = b;
  this_type = ty;
}

abbrev pub naming : List Param → Text → Text → ℕ → Text → Scan
naming ps ty nm prev rest = record (typing ps (pos 0) ty prev rest) {
  read_state = name;
  this_name = nm;
}

abbrev pub defaulting : List Param → Text → Text → Text → ℕ → Text → Scan
defaulting ps ty nm df prev rest = record (naming ps ty nm prev rest) {
  read_state = defv;
  this_defv = df;
}

abbrev pub last_from : ℕ → Text → ℕ
last_from prev [] = prev
last_from prev (c ∷ cs) = last_from c cs

-- The characters of a type: no parentheses, no `&`, blanks between `<` and `>` only, and these
-- balanced.
abbrev type_char : ℕ → ℤ → Bool
type_char c b' =
    not (c == b'&') && not (c == b'(') && not (c == b')') && not (is_space c && is_zero b')

abbrev pub type_chars : ℤ → Text → Bool
type_chars b [] = is_zero b
type_chars b (c ∷ cs) = type_char c (count_brackets c b) && type_chars (count_brackets c b) cs

-- A type that a blank ends: not empty, and no word that another follows.
abbrev pub whole_type : Text → Bool
whole_type t = not (text_eq t (codes "const") || text_eq t []) && not (text_eq t (codes "unsigned"))

abbrev pub param : Text → Text → Text → Param
param ty nm df = record { type = ty; name = nm; defv = df }

abbrev pub name_char : ℕ → Bool
name_char c =
    not (c == b'&')
    && not (c == b'(')
    && not (c == b')')
    && not (c == b'=')
    && not (c == b',')
    && not (is_space c)

abbrev pub defv_char : ℕ → Bool
defv_char c = not (c == b',') && not (c == b'(') && not (c == b')')

zero_is : (b : ℤ) → is_zero b ≡ true → b ≡ pos 0
zero_is (pos n) h = ground arith
zero_is (negsuc n) h = cc

module _ (ps : List Param) where
  pub type-step :
      (c : ℕ) (cs : Text) (b : ℤ) (ty : Text) (prev : ℕ)
      → type_char c (count_brackets c b) ≡ true
      → step (typing ps b ty prev (c ∷ cs))
        ≡ again (typing ps (count_brackets c b) (ty ++ c ∷ []) c cs)
  unfolding step
  type-step c cs b ty prev h = ground arith

  pub name-step :
      (c : ℕ) (cs ty nm : Text) (prev : ℕ)
      → name_char c ≡ true
      → step (naming ps ty nm prev (c ∷ cs)) ≡ again (naming ps ty (nm ++ c ∷ []) c cs)
  unfolding step
  name-step c cs ty nm prev h = ground arith

  pub defv-step :
      (c : ℕ) (cs ty nm df : Text) (prev : ℕ)
      → defv_char c ≡ true
      → step (defaulting ps ty nm df prev (c ∷ cs))
        ≡ again (defaulting ps ty nm (df ++ c ∷ []) c cs)
  unfolding step
  defv-step c cs ty nm df prev h = ground arith

  -- the blank behind a type
  pub blank-step :
      (c : ℕ) (cs ty : Text) (prev : ℕ)
      → is_space c ≡ false
      → whole_type ty ≡ true
      → step (typing ps (pos 0) ty prev (b' ' ∷ c ∷ cs)) ≡ again (naming ps ty [] b' ' (c ∷ cs))
  unfolding step skip_white
  blank-step c cs ty prev h k = ground arith

  -- the blank before a type
  pub indent-step :
      (c : ℕ) (cs : Text) (prev : ℕ)
      → is_space c ≡ false
      → step (typing ps (pos 0) [] prev (b' ' ∷ c ∷ cs))
        ≡ again (typing ps (pos 0) [] b' ' (c ∷ cs))
  unfolding step skip_white text_eq
  indent-step c cs prev h = ground arith

  -- `const` and the blank behind it
  pub const-step :
      (c : ℕ) (cs : Text) (prev : ℕ)
      → is_space c ≡ false
      → step (typing ps (pos 0) (codes "const") prev (b' ' ∷ c ∷ cs))
        ≡ again (typing ps (pos 0) [] b' ' (c ∷ cs))
  unfolding step skip_white text_eq
  const-step c cs prev h = ground arith

  pub ref-step :
      (cs ty nm : Text) (prev : ℕ)
      → step (naming ps ty nm prev (b'&' ∷ cs)) ≡ again (naming ps ty nm b'&' cs)
  unfolding step
  ref-step cs ty nm prev = refl

  pub equals-step :
      (cs ty nm : Text) (prev : ℕ)
      → step (naming ps ty nm prev (b'=' ∷ cs)) ≡ again (defaulting ps ty nm [] b'=' cs)
  unfolding step
  equals-step cs ty nm prev = refl

  pub comma-step :
      (cs ty nm : Text) (prev : ℕ)
      → step (naming ps ty nm prev (b',' ∷ cs)) ≡ again (defaulting ps ty nm [] prev (b',' ∷ cs))
  unfolding step
  comma-step cs ty nm prev = refl

  pub next_param-step :
      (cs ty nm df : Text) (prev : ℕ)
      → step (defaulting ps ty nm df prev (b',' ∷ cs))
        ≡ again (typing (ps ++ param ty nm df ∷ []) (pos 0) [] b',' cs)
  unfolding step
  next_param-step cs ty nm df prev = refl

  pub close_name-step :
      (cs ty nm : Text) (prev : ℕ)
      → step (naming ps ty nm prev (b')' ∷ cs)) ≡ done (ps ++ param ty nm [] ∷ [])
  unfolding step
  close_name-step cs ty nm prev = refl

  pub close_defv-step :
      (cs ty nm df : Text) (prev : ℕ)
      → step (defaulting ps ty nm df prev (b')' ∷ cs)) ≡ done (ps ++ param ty nm df ∷ [])
  unfolding step
  close_defv-step cs ty nm df prev = refl

module _ {r : Result (List Param)} (ps : List Param) where
  pub run_type :
      (t rest : Text) (b : ℤ) (ty : Text) (prev : ℕ)
      → type_chars b t ≡ true
      → Yields r (typing ps (pos 0) (ty ++ t) (last_from prev t) rest)
      → Yields r (typing ps b ty prev (t ++ rest))
  run_type [] rest b ty prev h y = rw (zero_is b h) (rw append-nil at y)
  run_type (c ∷ cs) rest b ty prev h y =
      let (ok_char, ok_rest) = &&-true _ _ h in
      next (typing ps (count_brackets c b) (ty ++ c ∷ []) c (cs ++ rest))
        (type-step ps c (cs ++ rest) b ty prev ok_char)
        (run_type cs rest (count_brackets c b) (ty ++ c ∷ []) c ok_rest (rw append_assoc y))

  pub run_name :
      (t rest ty nm : Text) (prev : ℕ)
      → all name_char t ≡ true
      → Yields r (naming ps ty (nm ++ t) (last_from prev t) rest)
      → Yields r (naming ps ty nm prev (t ++ rest))
  run_name [] rest ty nm prev h y = rw append-nil at y
  run_name (c ∷ cs) rest ty nm prev h y =
      let (ok_char, ok_rest) = &&-true _ _ h in
      next (naming ps ty (nm ++ c ∷ []) c (cs ++ rest))
        (name-step ps c (cs ++ rest) ty nm prev ok_char)
        (run_name cs rest ty (nm ++ c ∷ []) c ok_rest (rw append_assoc y))

  pub run_defv :
      (t rest ty nm df : Text) (prev : ℕ)
      → all defv_char t ≡ true
      → Yields r (defaulting ps ty nm (df ++ t) (last_from prev t) rest)
      → Yields r (defaulting ps ty nm df prev (t ++ rest))
  run_defv [] rest ty nm df prev h y = rw append-nil at y
  run_defv (c ∷ cs) rest ty nm df prev h y =
      let (ok_char, ok_rest) = &&-true _ _ h in
      next (defaulting ps ty nm (df ++ c ∷ []) c (cs ++ rest))
        (defv-step ps c (cs ++ rest) ty nm df prev ok_char)
        (run_defv cs rest ty nm (df ++ c ∷ []) c ok_rest (rw append_assoc y))
