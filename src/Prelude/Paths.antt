-- ===== src/Prelude/Paths.antt =====
-- `os.path` on texts with `/`, and decimal numerals.
use Prim.Native.Nat.{ℕ, zero, suc, ◌+◌, ◌-◌, ◌*◌, ◌/◌, ◌%◌}
use mathlib.Core.Bool.{Bool, false, ◌&&◌}
use mathlib.Core.List.{[], ◌∷◌, ◌++◌, reverse}
use hachoir.Prelude.Tests.{leb, ◌==◌, if◌then◌else◌}
use hachoir.Prelude.Lists.{all}
use hachoir.Prelude.Strings.{Text}

-- what stands before the first occurrence of a character, and what stands from there on
abbrev span_to : ℕ → Text → Text × Text
span_to c [] = ([], [])
span_to c (d ∷ ds) =
    let rest = span_to c ds in if d == c then ([], d ∷ ds) else (d ∷ rest.0, rest.1)

-- `os.path.basename(p)`
abbrev pub basename : Text → Text
basename p = reverse (span_to b'/' (reverse p)).0

-- `os.path.splitext(p)[0]` of a name without `/`; leading dots start no extension
abbrev split_root : Text → Text → Text
split_root name [] = name
split_root name (dot ∷ before) = if all (λ c. c == b'.') before then name else reverse before

abbrev pub splitext_root : Text → Text
splitext_root name = split_root name (span_to b'.' (reverse name)).1

-- `os.path.splitext(p)[1]`
abbrev split_ext : Text → Text → Text
split_ext after [] = []
split_ext after (dot ∷ before) = if all (λ c. c == b'.') before then [] else b'.' ∷ reverse after

abbrev pub splitext_ext : Text → Text
splitext_ext name = split_ext (span_to b'.' (reverse name)).0 (span_to b'.' (reverse name)).1

-- `os.path.join(a, b)` for a relative `b`
abbrev ends_slash : Text → Bool
ends_slash [] = false
ends_slash (c ∷ []) = c == b'/'
ends_slash (c ∷ (d ∷ cs)) = ends_slash (d ∷ cs)

abbrev pub path_join : Text → Text → Text
path_join [] b = b
path_join (c ∷ a) b = if ends_slash (c ∷ a) then (c ∷ a) ++ b else (c ∷ a) ++ b'/' ∷ b

-- `os.path.split(p)[0]`: without the slashes at its end, unless there is nothing else
abbrev strip_slashes : Text → Text
strip_slashes [] = []
strip_slashes (c ∷ cs) = let rest = strip_slashes cs in if c == b'/' then rest else c ∷ cs

abbrev head_of : Text → Text
head_of p = if all (λ c. c == b'/') p then p else reverse (strip_slashes p)

abbrev pub dirname : Text → Text
dirname p = head_of (span_to b'/' (reverse p)).1

-- `str(n)`
digits : ℕ → ℕ → Text → Text
digits zero n out = out
digits (suc fuel) n out =
    let more = digits fuel (n / 10) ((n % 10 + 48) ∷ out) in
    if leb n 9 then (n + 48) ∷ out else more

unfoldable pub decimal : ℕ → Text
unfolding digits
decimal n = digits (n + 1) n []

-- the number that a text of digits stands for
abbrev pub value_of : ℕ → Text → ℕ
value_of acc [] = acc
value_of acc (c ∷ cs) = value_of (acc * 10 + (c - 48)) cs

abbrev pub is_digit : ℕ → Bool
is_digit c = leb 48 c && leb c 57
