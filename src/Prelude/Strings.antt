-- ===== src/Prelude/Strings.antt =====
-- Python's `str` as the list of its code points, with the methods of `str` that the sources call.
use Prim.Native.Nat.{ℕ, zero, suc, ◌+◌, ◌-◌}
use Prim.Native.Char.{code}
use Prim.Native.String.{String}
use mathlib.Core.Path.{◌≡◌, refl}
use mathlib.Core.Logic.{◌↔◌}
use mathlib.Core.Bool.{Bool, true, false, ◌&&◌, ◌||◌}
use mathlib.Core.Option.{Option, none, some}
use mathlib.Core.List.{List, [], ◌∷◌, ◌++◌, reverse, map}
use native.Mathlib.Omega.{arith}
use hachoir.Prelude.Lists.{length}
use hachoir.Prelude.Tests.{leb, ◌==◌, if◌then◌else◌}

abbrev pub Text : Type 0
Text = List ℕ

-- the code points of a literal
abbrev pub codes : String → Text
codes String.[] = []
codes (String.◌∷◌ c s) = code c ∷ codes s

-- `a == b` on texts
unfoldable pub text_eq : Text → Text → Bool
text_eq [] [] = true
text_eq (x ∷ xs) (y ∷ ys) = x == y && text_eq xs ys
text_eq _ _ = false

pub text_eq_iff : (a b : Text) → (text_eq a b ≡ true) ↔ (a ≡ b)
unfolding text_eq
text_eq_iff (x ∷ a) (y ∷ b) = ground (arith, text_eq_iff a b)
text_eq_iff _ _ = ground arith

pub text_eq_refl : (a : Text) → text_eq a a ≡ true
text_eq_refl a = (text_eq_iff a a).1 refl

-- `t in (a, b, …)` for texts
abbrev pub text_in : Text → List Text → Bool
text_in t [] = false
text_in t (u ∷ us) = if text_eq t u then true else text_in t us

-- the six characters of `string.whitespace`, which `strip` and `\s` go by
abbrev pub is_space : ℕ → Bool
is_space c = c == 32 || leb 9 c && leb c 13

-- what is left of the text behind the prefix
abbrev pub drop_prefix : Text → Text → Option Text
drop_prefix [] t = some t
drop_prefix (p ∷ ps) [] = none
drop_prefix (p ∷ ps) (c ∷ cs) = if p == c then drop_prefix ps cs else none

abbrev pub is_some {ℓ} : {A : Type ℓ} → Option A → Bool
is_some none = false
is_some (some a) = true

-- `t.find(p) != -1`, `p in t`
abbrev pub contains : Text → Text → Bool
contains p [] = is_some (drop_prefix p [])
contains p (c ∷ cs) = if is_some (drop_prefix p (c ∷ cs)) then true else contains p cs

-- `t.startswith(p)`, `t.endswith(p)`
abbrev pub starts_with : Text → Text → Bool
starts_with p t = is_some (drop_prefix p t)

abbrev pub ends_with : Text → Text → Bool
ends_with p t = starts_with (reverse p) (reverse t)

-- `t.lstrip()`, `t.strip()`
abbrev pub lstrip : Text → Text
lstrip [] = []
lstrip (c ∷ cs) = let rest = lstrip cs in if is_space c then rest else c ∷ cs

abbrev pub strip : Text → Text
strip t = reverse (lstrip (reverse (lstrip t)))

-- `sep.join(parts)`
abbrev pub join : Text → List Text → Text
join sep [] = []
join sep (p ∷ []) = p
join sep (p ∷ (q ∷ ps)) = p ++ sep ++ join sep (q ∷ ps)

-- `t.split(c)` for one character
abbrev pub cons_first : ℕ → List Text → List Text
cons_first c [] = (c ∷ []) ∷ []
cons_first c (p ∷ ps) = (c ∷ p) ∷ ps

abbrev pub split : ℕ → Text → List Text
split sep [] = [] ∷ []
split sep (c ∷ cs) = let rest = split sep cs in if c == sep then [] ∷ rest else cons_first c rest

-- `t.replace(old, new)` for a nonempty `old`; `skip` counts the characters of an occurrence that
-- are still to be passed over.
abbrev pub replace_from : ℕ → Text → Text → Text → Text
replace_from skip old new [] = []
replace_from (suc skip) old new (c ∷ cs) = replace_from skip old new cs
replace_from zero old new (c ∷ cs) =
    let seen = is_some (drop_prefix old (c ∷ cs)) in
    (if seen then new else c ∷ []) ++ replace_from (if seen then length old - 1 else 0) old new cs

abbrev pub replace : Text → Text → Text → Text
replace = replace_from zero

-- ASCII `lower` and `upper` of one character
abbrev pub lower : ℕ → ℕ
lower c = if leb 65 c && leb c 90 then c + 32 else c

abbrev pub upper : ℕ → ℕ
upper c = if leb 97 c && leb c 122 then c - 32 else c

-- `t.capitalize()`
abbrev pub capitalize : Text → Text
capitalize [] = []
capitalize (c ∷ cs) = upper c ∷ map lower cs

join_test : join (codes ", ") (codes "ab" ∷ codes "c" ∷ []) ≡ codes "ab, c"
join_test = refl

replace_test : replace (codes "aa") (codes "b") (codes "aaaxa") ≡ codes "baxa"
replace_test = refl

split_test : split b'_' (codes "gr_x_") ≡ codes "gr" ∷ codes "x" ∷ [] ∷ []
split_test = refl

strip_test : strip (codes " a b\n") ≡ codes "a b"
strip_test = refl
