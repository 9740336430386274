-- ===== src/Cmake/Bodies.antt =====
-- The texts between the parentheses of an entry.
use hachoir.Prelude.{
  ℕ, suc, ◌+◌, length, length-append, Bool, true, false, not, [], ◌∷◌, ◌++◌, Text, ◌≡◌, refl, sym,
  ◌∙◌, ap, arith, all, &&-true, is_space, ◌==◌, starts_with,
}
use hachoir.Cmake.Appended.{is_plain}

-- the last character is no white space
abbrev pub is_closed : Text → Bool
is_closed [] = true
is_closed (c ∷ []) = not (is_space c)
is_closed (c ∷ (d ∷ cs)) = is_closed (d ∷ cs)

abbrev pub KeptBehind : Text → Text → Text → Text → Type 0
KeptBehind body body' white sp = (kept : Text) × (body' ≡ body ++ kept) × (white ≡ kept ++ sp)

pub head_equal : {c d : ℕ} {cs ds : Text} → c ∷ cs ≡ d ∷ ds → c ≡ d
head_equal e = cc

pub tail_equal : {c d : ℕ} {cs ds : Text} → c ∷ cs ≡ d ∷ ds → cs ≡ ds
tail_equal e = cc

-- a text up to the first character outside a class
pub plain_unique :
    (p : ℕ → Bool) (stop : ℕ) (t u x y : Text)
    → p stop ≡ false
    → all p t ≡ true
    → all p u ≡ true
    → t ++ stop ∷ x ≡ u ++ stop ∷ y
    → (t ≡ u) × (x ≡ y)
plain_unique p stop [] [] x y h ht hu e = (refl, tail_equal e)
plain_unique p stop [] (d ∷ u) x y h ht hu e =
    absurd (clash (sym h ∙ ap p (head_equal e) ∙ (&&-true (p d) _ hu).0))
  where
    clash : false ≡ true → ⊥
    clash q = cc
plain_unique p stop (c ∷ t) [] x y h ht hu e =
    absurd (clash (sym h ∙ ap p (sym (head_equal e)) ∙ (&&-true (p c) _ ht).0))
  where
    clash : false ≡ true → ⊥
    clash q = cc
plain_unique p stop (c ∷ t) (d ∷ u) x y h ht hu e =
    let (same, rest) =
      plain_unique p stop t u x y h (&&-true (p c) _ ht).1 (&&-true (p d) _ hu).1 (tail_equal e) in
    (rw (head_equal e, same) refl, rest)

-- white space alone is not closed
open_white : (c : ℕ) (b : Text) → is_closed (c ∷ b) ≡ true → all is_space (c ∷ b) ≡ true → ⊥
open_white c [] h s = clash (is_space c) h (&&-true (is_space c) _ s).0
  where
    clash : (x : Bool) → not x ≡ true → x ≡ true → ⊥
    clash true p q = cc
    clash false p q = cc
open_white c (d ∷ b) h s = open_white d b h (&&-true (is_space c) _ s).1

all_front : (p : ℕ → Bool) (t u : Text) → all p (t ++ u) ≡ true → all p t ≡ true
all_front p [] u h = refl
all_front p (c ∷ t) u h = let (a, b) = &&-true (p c) _ h in rw (a, all_front p t u b) refl

pub all_join : (p : ℕ → Bool) (t u : Text) → all p t ≡ true → all p u ≡ true → all p (t ++ u) ≡ true
all_join p [] u h g = g
all_join p (c ∷ t) u h g = let (a, b) = &&-true (p c) _ h in rw (a, all_join p t u b g) refl

is_closed_rest : (c : ℕ) (b : Text) → is_closed (c ∷ b) ≡ true → is_closed b ≡ true
is_closed_rest c [] h = refl
is_closed_rest c (d ∷ b) h = h

-- A body with white space behind it, divided in another way: what is cut off is of that white space.
pub divided :
    (body white body' sp : Text)
    → is_closed body ≡ true
    → all is_space sp ≡ true
    → body' ++ sp ≡ body ++ white
    → KeptBehind body body' white sp
divided [] white body' sp h hs e = (body', refl, sym e)
divided (c ∷ body) white [] sp h hs e =
    absurd
      (open_white c body h (all_front is_space (c ∷ body) white (ap (all is_space) (sym e) ∙ hs)))
divided (c ∷ body) white (d ∷ body') sp h hs e =
    let (kept, a, b) = divided body white body' sp (is_closed_rest c body h) hs (tail_equal e) in
    (kept, rw (head_equal e, a) refl, b)

pub white_plain : (t : Text) → all is_space t ≡ true → all is_plain t ≡ true
white_plain [] h = refl
white_plain (c ∷ t) h =
    let (a, b) = &&-true (is_space c) _ h in rw (plain c a, white_plain t b) refl
  where
    plain : (c : ℕ) → is_space c ≡ true → is_plain c ≡ true
    plain c h = ground arith

pub append_cancel : (w x y : Text) → w ++ x ≡ w ++ y → x ≡ y
append_cancel [] x y e = e
append_cancel (c ∷ w) x y e = append_cancel w x y (tail_equal e)

pub starts_with_self : (w x : Text) → starts_with w (w ++ x) ≡ true
starts_with_self [] x = refl
starts_with_self (c ∷ w) x = rw (same c) (starts_with_self w x)
  where
    same : (c : ℕ) → (c == c) ≡ true
    same c = ground arith

too_long : (n m : ℕ) → n ≡ suc (m + n) → ⊥
too_long n m e = omega arith

pub append_cancel_right : (x y w : Text) → x ++ w ≡ y ++ w → x ≡ y
append_cancel_right [] [] w e = refl
append_cancel_right [] (d ∷ y) w e =
    absurd (too_long (length w) (length y) (ap length e ∙ ap suc (length-append y w)))
append_cancel_right (c ∷ x) [] w e =
    absurd (too_long (length w) (length x) (sym (ap length e) ∙ ap suc (length-append x w)))
append_cancel_right (c ∷ x) (d ∷ y) w e =
    rw (head_equal e, append_cancel_right x y w (tail_equal e)) refl
