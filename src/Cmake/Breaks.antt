-- ===== src/Cmake/Breaks.antt =====
-- How many line breaks `remove_double_newlines` leaves in a row.
use hachoir.Prelude.{
  ℕ, Bool, true, false, not, ◌&&◌, [], ◌∷◌, Text, ◌≡◌, refl, arith, ◌==◌, Bool-cases, inl, inr,
}
use hachoir.Cmake.{remove_double_newlines}
use hachoir.Cmake.Squeezed.{is_third, squeezed}
use hachoir.Cmake.Newlines.{remove_double_newlines_lem}

-- nowhere are there three line breaks in a row
abbrev pub is_loose : Text → Bool
is_loose [] = true
is_loose (c ∷ cs) = not (is_third (c ∷ cs)) && is_loose cs

abbrev starts_broken : Text → Bool
starts_broken [] = false
starts_broken (c ∷ cs) = c == b'\n'

third-first : (c : ℕ) (t : Text) → (c == b'\n') ≡ false → is_third (c ∷ t) ≡ false
third-first c [] e = refl
third-first c (d ∷ []) e = refl
third-first c (d ∷ (f ∷ t)) e = rw e refl

third-second : (c : ℕ) (t : Text) → starts_broken t ≡ false → is_third (c ∷ t) ≡ false
third-second c [] e = refl
third-second c (d ∷ []) e = refl
third-second c (d ∷ (f ∷ t)) e = ground arith

third-other : (c d : ℕ) (t : Text) → starts_broken t ≡ false → is_third (c ∷ (d ∷ t)) ≡ false
third-other c d [] e = refl
third-other c d (f ∷ t) e = ground arith

squeezed-cons :
    (c : ℕ) (cs : Text)
    → is_third (c ∷ cs) ≡ false
    → squeezed false (c ∷ cs) ≡ c ∷ squeezed false cs
squeezed-cons c cs e = rw e refl

-- the first character is kept
starts-squeezed : (t : Text) → starts_broken t ≡ false → starts_broken (squeezed false t) ≡ false
starts-squeezed [] e = refl
starts-squeezed (c ∷ cs) e = rw (squeezed-cons c cs (third-first c cs e)) e

starts-passed : (t : Text) → starts_broken (squeezed true t) ≡ false
starts-passed [] = refl
starts-passed (c ∷ cs) = elim (Bool-cases (c == b'\n')) [
  | inl e ↦ rw e (starts-passed cs)
  | inr e ↦ rw e e
]

-- keeping the first character makes no three
third-squeezed :
    (c : ℕ) (cs : Text) → is_third (c ∷ cs) ≡ false → is_third (c ∷ squeezed false cs) ≡ false
third-squeezed c [] h = refl
third-squeezed c (d ∷ cs) h = elim (Bool-cases (d == b'\n')) [
  | inr e ↦ third-second c (squeezed false (d ∷ cs)) (starts-squeezed (d ∷ cs) e)
  | inl e ↦ elim (Bool-cases (c == b'\n')) [
    | inr f ↦ third-first c (squeezed false (d ∷ cs)) f
    | inl f ↦
        (let later = starts_later c d cs f e h in
          rw (squeezed-cons d cs (third-second d cs later))
            (third-other c d (squeezed false cs) (starts-squeezed cs later)))
  ]
]
  where
    starts_later :
        (c d : ℕ) (cs : Text)
        → (c == b'\n') ≡ true
        → (d == b'\n') ≡ true
        → is_third (c ∷ (d ∷ cs)) ≡ false
        → starts_broken cs ≡ false
    starts_later c d [] f e h = refl
    starts_later c d (x ∷ cs) f e h = ground arith

is_loose-squeezed : (passing : Bool) (t : Text) → is_loose (squeezed passing t) ≡ true
is_loose-squeezed true [] = refl
is_loose-squeezed false [] = refl
is_loose-squeezed true (c ∷ cs) = elim (Bool-cases (c == b'\n')) [
  | inl e ↦ rw e (is_loose-squeezed true cs)
  | inr e ↦ rw (e, third-first c (squeezed false cs) e) (is_loose-squeezed false cs)
]
is_loose-squeezed false (c ∷ cs) = elim (Bool-cases (is_third (c ∷ cs))) [
  | inl e ↦
      rw
        (
          e,
          third-other b'\n' b'\n' (squeezed true cs) (starts-passed cs),
          third-second b'\n' (squeezed true cs) (starts-passed cs),
        )
        (is_loose-squeezed true cs)
  | inr e ↦ rw (e, third-squeezed c cs e) (is_loose-squeezed false cs)
]

-- Behind `remove_double_newlines`, a text is as it was but for the line breaks in a row behind two
-- others, which are gone, so that nowhere are there more than two in a row.
pub remove_double_newlines-bound :
    (t : Text)
    → (remove_double_newlines t ≡ squeezed false t) × (is_loose (remove_double_newlines t) ≡ true)
remove_double_newlines-bound t =
    (remove_double_newlines_lem t, rw (remove_double_newlines_lem t) (is_loose-squeezed false t))
