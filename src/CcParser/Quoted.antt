-- ===== src/CcParser/Quoted.antt =====
-- The scanner on a comma inside a quoted default value, or between the parentheses of a call in a
-- default value.
use hachoir.Prelude.{
  ℕ, true, List, [], ◌∷◌, ◌++◌, Text, codes, ◌≡◌, refl, append-nil, append_assoc, arith, pos, all,
  &&-true,
}
use hachoir.CcParser.{
  Scan, again, raise, Result, err, Param, open_default, step, initial, scan_param_list,
}
use hachoir.CcParser.Runs.{Yields, fails, next, Yields-loop}
use hachoir.CcParser.Pieces.{
  defaulting, type_chars, last_from, whole_type, name_char, defv_char, run_type, run_name, run_defv,
  equals-step,
}
use hachoir.CcParser.RoundTrip.{blank, name-StartsBlack}

-- a default value between parentheses, one deep
abbrev inside : Text → Text → Text → ℕ → Text → Scan
inside ty nm df prev rest = record (defaulting [] ty nm df prev rest) { parens_count = 1 }

open-step :
    (ty nm df cs : Text) (prev : ℕ)
    → step (defaulting [] ty nm df prev (b'(' ∷ cs))
      ≡ again (inside ty nm (df ++ b'(' ∷ []) b'(' cs)
unfolding step
open-step ty nm df cs prev = refl

inside-step :
    (c : ℕ) (ty nm df cs : Text) (prev : ℕ)
    → defv_char c ≡ true
    → step (inside ty nm df prev (c ∷ cs)) ≡ again (inside ty nm (df ++ c ∷ []) c cs)
unfolding step
inside-step c ty nm df cs prev h = ground arith

comma_inside-step :
    (ty nm df cs : Text) (prev : ℕ)
    → step (inside ty nm df prev (b',' ∷ cs)) ≡ raise (open_default 1 (ty ++ codes " " ++ nm))
unfolding step
comma_inside-step ty nm df cs prev = refl

run_inside :
    {r : Result (List Param)} (ty nm t rest df : Text) (prev : ℕ)
    → all defv_char t ≡ true
    → ((prev' : ℕ) → Yields r (inside ty nm (df ++ t) prev' rest))
    → Yields r (inside ty nm df prev (t ++ rest))
run_inside ty nm [] rest df prev h y = rw append-nil at (y prev)
run_inside ty nm (c ∷ cs) rest df prev h y =
    let (ok_char, ok_rest) = &&-true _ _ h in
    next (inside ty nm (df ++ c ∷ []) c (cs ++ rest))
      (inside-step c ty nm df (cs ++ rest) prev ok_char)
      (run_inside ty nm cs rest (df ++ c ∷ []) c ok_rest (λ p. rw append_assoc (y p)))

module _ (ty nm : Text) where
  -- an argument with a default value, as the first of the list
  abbrev first : Text → Text
  first d = b'(' ∷ (ty ++ b' ' ∷ (nm ++ b'=' ∷ d))

  to_default :
      {r : Result (List Param)} (d : Text)
      → type_chars (pos 0) ty ≡ true
      → whole_type ty ≡ true
      → all name_char nm ≡ true
      → ((prev : ℕ) → Yields r (defaulting [] ty nm [] prev d))
      → Yields r (initial (ty ++ b' ' ∷ (nm ++ b'=' ∷ d)))
  to_default d h k m y = run_type [] ty _ (pos 0) [] b'(' h (
      blank [] (nm ++ b'=' ∷ d) ty _ (name-StartsBlack nm _ m refl) k
        (λ p. run_name [] nm _ ty [] p m (next _ (equals-step [] d ty nm _) (y _))))

  -- A comma inside a call in a default value raises too: `make(T name=f(a,b))`.
  pub scan_call_comma :
      (f a rest : Text)
      → type_chars (pos 0) ty ≡ true
      → whole_type ty ≡ true
      → all name_char nm ≡ true
      → all defv_char f ≡ true
      → all defv_char a ≡ true
      → scan_param_list (first (f ++ b'(' ∷ (a ++ b',' ∷ rest)))
        ≡ err (open_default 1 (ty ++ codes " " ++ nm))
  unfolding scan_param_list
  scan_call_comma f a rest h k m n o = Yields-loop _ _ (omega arith) (
      to_default _ h k m (λ p. run_defv [] f _ ty nm [] p n (
        next _ (open-step ty nm f (a ++ b',' ∷ rest) (last_from p f)) (
          run_inside ty nm a (b',' ∷ rest) (f ++ b'(' ∷ []) b'(' o
            (λ q. fails _ (comma_inside-step ty nm ((f ++ b'(' ∷ []) ++ a) rest q) refl)))))
