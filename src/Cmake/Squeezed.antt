-- ===== src/Cmake/Squeezed.antt =====
-- Line breaks in a row, and where the pattern of `remove_double_newlines` matches.
use hachoir.Prelude.{
  ℕ, zero, suc, ◌+◌, ◌≤◌, Bool, true, false, none, some, List, [], ◌∷◌, Text, ◌≡◌, refl, ◌∙◌, arith,
  ◌==◌, if◌then◌else◌, length, Bool-cases, inl, inr, ltb,
}
use hachoir.Re.{Regex, Cursor, run, greedy, match_at, char, plus, ◌⊳◌}

-- three line breaks at the front
abbrev pub is_third : Text → Bool
is_third (c ∷ (d ∷ (e ∷ cs))) =
    if c == b'\n' then (if d == b'\n' then e == b'\n' else false) else false
is_third _ = false

-- Three or more line breaks in a row become two; the flag is set while the others are passed over.
abbrev pub squeezed : Bool → Text → Text
squeezed passing [] = []
squeezed true (c ∷ cs) =
    let later = squeezed false cs in
    let passed = squeezed true cs in if c == b'\n' then passed else c ∷ later
squeezed false (c ∷ cs) =
    let later = squeezed false cs in
    let passed = squeezed true cs in
    if is_third (c ∷ cs) then b'\n' ∷ (b'\n' ∷ passed) else c ∷ later

abbrev pub cursor : ℕ → Text → Text → List (ℕ × Text) → Cursor
cursor p b t g = record { pos = p; before = b; after = t; groups = g }

-- the place behind the line breaks
abbrev pub eaten : ℕ → Text → Text → List (ℕ × Text) → Cursor
eaten p b [] g = cursor p b [] g
eaten p b (c ∷ cs) g =
    let rest = eaten (p + 1) (c ∷ b) cs g in if c == b'\n' then rest else cursor p b (c ∷ cs) g

ltb-suc : (p : ℕ) → ltb p (p + 1) ≡ true
ltb-suc p = ground arith

greedy-cons :
    (n p c : ℕ) (b cs : Text) (g : List (ℕ × Text))
    → greedy (run (char b'\n')) (suc n) (cursor p b (c ∷ cs) g) some
      ≡ elim (if c == b'\n'
          then (if ltb p (p + 1)
              then greedy (run (char b'\n')) n (cursor (p + 1) (c ∷ b) cs g) some
              else none)
          else none) [ some r ↦ some r | none ↦ some (cursor p b (c ∷ cs) g) ]
unfolding greedy run
greedy-cons n p c b cs g = refl

greedy-breaks :
    (n p : ℕ) (b t : Text) (g : List (ℕ × Text))
    → length t ≤ n
    → greedy (run (char b'\n')) n (cursor p b t g) some ≡ some (eaten p b t g)
unfolding greedy run
greedy-breaks zero p b [] g h = refl
greedy-breaks zero p b (c ∷ cs) g h = absurd (omega arith)
greedy-breaks (suc n) p b [] g h = refl
greedy-breaks (suc n) p b (c ∷ cs) g h = elim (Bool-cases (c == b'\n')) [
  | inl e ↦
      greedy-cons n p c b cs g
      ∙ rw (e, ltb-suc p, greedy-breaks n (p + 1) (c ∷ b) cs g (omega arith)) refl
  | inr e ↦ greedy-cons n p c b cs g ∙ rw e refl
]

abbrev pub breaks : Regex
breaks = char b'\n' ⊳ char b'\n' ⊳ plus (char b'\n')

pub match_at-third :
    (p c d e : ℕ) (b cs : Text) (g : List (ℕ × Text))
    → is_third (c ∷ (d ∷ (e ∷ cs))) ≡ true
    → match_at breaks (cursor p b (c ∷ (d ∷ (e ∷ cs))) g)
      ≡ some (eaten (p + 1 + 1 + 1) (e ∷ (d ∷ (c ∷ b))) cs g)
unfolding match_at run
match_at-third p c d e b cs g h =
    let hc : (c == b'\n') ≡ true = ground arith in
    let hd : (d == b'\n') ≡ true = ground arith in
    let he : (e == b'\n') ≡ true = ground arith in
    rw (hc, hd, he)
      (greedy-breaks (length cs) (p + 1 + 1 + 1) (e ∷ (d ∷ (c ∷ b))) cs g (omega arith))

pub match_at-none :
    (p : ℕ) (b t : Text) (g : List (ℕ × Text))
    → is_third t ≡ false
    → match_at breaks (cursor p b t g) ≡ none
unfolding match_at run
match_at-none p b [] g h = refl
match_at-none p b (c ∷ []) g h = ground arith
match_at-none p b (c ∷ (d ∷ [])) g h = ground arith
match_at-none p b (c ∷ (d ∷ (e ∷ cs))) g h = elim (Bool-cases (c == b'\n')) [
  | inr ec ↦ rw ec refl
  | inl ec ↦ elim (Bool-cases (d == b'\n')) [
    | inr ed ↦ rw (ec, ed) refl
    | inl ed ↦ (let ee : (e == b'\n') ≡ false = ground arith in rw (ec, ed, ee) refl)
  ]
]

pub pos-eaten : (p : ℕ) (b t : Text) (g : List (ℕ × Text)) → p ≤ (eaten p b t g).pos
pos-eaten p b [] g = omega arith
pos-eaten p b (c ∷ cs) g = elim (Bool-cases (c == b'\n')) [
  | inl e ↦ rw e (omega (arith, pos-eaten (p + 1) (c ∷ b) cs g))
  | inr e ↦ rw e (omega arith)
]

pub length-eaten :
    (p : ℕ) (b t : Text) (g : List (ℕ × Text)) → length (eaten p b t g).after ≤ length t
length-eaten p b [] g = omega arith
length-eaten p b (c ∷ cs) g = elim (Bool-cases (c == b'\n')) [
  | inl e ↦ rw e (omega (arith, length-eaten (p + 1) (c ∷ b) cs g))
  | inr e ↦ rw e (omega arith)
]

pub squeezed-eaten :
    (p : ℕ) (b t : Text) (g : List (ℕ × Text))
    → squeezed true t ≡ squeezed false (eaten p b t g).after
squeezed-eaten p b [] g = refl
squeezed-eaten p b (c ∷ cs) g = elim (Bool-cases (c == b'\n')) [
  | inl e ↦ rw (e, squeezed-eaten (p + 1) (c ∷ b) cs g) refl
  | inr e ↦ rw e (no_third c cs e)
]
  where
    no_third :
        (c : ℕ) (cs : Text) → (c == b'\n') ≡ false → c ∷ squeezed false cs ≡ squeezed false (c ∷ cs)
    no_third c [] e = refl
    no_third c (d ∷ []) e = refl
    no_third c (d ∷ (e ∷ cs)) h = rw h refl
