-- ===== src/SwigDoc/Escape.antt =====
-- The escaped text as a string literal of SWIG.
use hachoir.Prelude.{
  ℕ, Bool, true, false, not, Option, none, some, [], ◌∷◌, ◌++◌, Text, ◌≡◌, refl, ap, ◌∙◌, arith,
  ◌==◌, if◌then◌else◌, all, &&-true, Bool-cases, inl, inr,
}
use hachoir.SwigDoc.{utoascii}

abbrev cons_text : ℕ → Option (Text × Text) → Option (Text × Text)
cons_text c none = none
cons_text c (some (t, rest)) = some (c ∷ t, rest)

-- The literal that ends at the first quote without a backslash: what it stands for, and the rest.
unfoldable pub read_literal : Text → Option (Text × Text)
read_literal [] = none
read_literal (c ∷ []) = if c == b'"' then some ([], []) else none
read_literal (c ∷ (d ∷ cs)) =
    let escaped = read_literal cs in
    let plain = read_literal (d ∷ cs) in
    if c == b'\\'
    then cons_text d escaped
    else if c == b'"'
    then some ([], d ∷ cs)
    else cons_text c plain

abbrev pub no_backslash : ℕ → Bool
no_backslash c = not (c == b'\\')

read_quote : (rest : Text) → read_literal (b'"' ∷ rest) ≡ some ([], rest)
unfolding read_literal
read_quote [] = refl
read_quote (c ∷ rest) = refl

read_plain :
    (c : ℕ) (t : Text) {u rest : Text}
    → (c == b'\\') ≡ false
    → (c == b'"') ≡ false
    → read_literal t ≡ some (u, rest)
    → read_literal (c ∷ t) ≡ some (c ∷ u, rest)
unfolding read_literal
read_plain c [] h k e = cc
read_plain c (d ∷ t) h k e = rw (h, k, e) refl

utoascii_other : (c : ℕ) (t : Text) → (b'"' == c) ≡ false → utoascii (c ∷ t) ≡ c ∷ utoascii t
unfolding utoascii
utoascii_other c t h = rw h refl

read_escaped :
    (t : Text) {u rest : Text}
    → read_literal t ≡ some (u, rest)
    → read_literal (b'\\' ∷ b'"' ∷ t) ≡ some (b'"' ∷ u, rest)
unfolding read_literal
read_escaped t e = rw e refl

-- A text without backslashes is what the literal with its escaped form stands for: the quotes
-- inside do not end it.
pub read_literal-utoascii :
    (t rest : Text)
    → all no_backslash t ≡ true
    → read_literal (utoascii t ++ b'"' ∷ rest) ≡ some (t, rest)
unfolding utoascii
read_literal-utoascii [] rest h = read_quote rest
read_literal-utoascii (c ∷ t) rest h =
    let k : (c == b'\\') ≡ false = ground (arith, &&-true (no_backslash c) _ h) in
    let later = read_literal-utoascii t rest (&&-true (no_backslash c) _ h).1 in
    elim (Bool-cases (b'"' == c)) [
      | inl e ↦
          let quote : c ≡ b'"' = ground arith in
          rw quote (read_escaped (utoascii t ++ b'"' ∷ rest) later)
      | inr e ↦
          let other : (c == b'"') ≡ false = ground arith in
          ap (λ (u : Text). read_literal (u ++ b'"' ∷ rest)) (utoascii_other c t e)
          ∙ read_plain c (utoascii t ++ b'"' ∷ rest) k other later
    ]

-- A quote right behind a backslash ends the literal: the backslash takes the escape.
pub read_literal_backslash :
    (t rest : Text)
    → read_literal (utoascii (b'\\' ∷ b'"' ∷ t) ++ rest) ≡ some (b'\\' ∷ [], utoascii t ++ rest)
unfolding utoascii read_literal
read_literal_backslash t rest = ap (cons_text b'\\') (read_quote _)
