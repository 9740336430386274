-- ===== src/Modtool/Comments.antt =====
-- The license as a comment: `str_to_python_comment` of gr_modtool.py, line by line.
use hachoir.Prelude.{
  ℕ, List, [], ◌∷◌, ◌++◌, Text, codes, ◌≡◌, refl, ap, ◌==◌, split, cons_first, map, Bool-cases, inl,
  inr,
}
use hachoir.Modtool.Util.{str_to_python_comment, marked}

abbrev commented : Text → Text
commented line = codes "# " ++ line

-- the first line stays, and the others get the mark
abbrev mark_later : List Text → List Text
mark_later [] = []
mark_later (l ∷ ls) = l ∷ map commented ls

mark_later-cons_first :
    (c : ℕ) (ls : List Text) → cons_first c (mark_later ls) ≡ mark_later (cons_first c ls)
mark_later-cons_first c [] = refl
mark_later-cons_first c (l ∷ ls) = refl

-- a text has a first line
abbrev HasFirst : List Text → Type 0
HasFirst [] = ⊥
HasFirst (l ∷ ls) = Unit

HasFirst-split : (t : Text) → HasFirst (split b'\n' t)
HasFirst-split [] = tt
HasFirst-split (c ∷ cs) = elim (Bool-cases (c == b'\n')) [
  | inl e ↦ rw e tt
  | inr e ↦ rw e (first (split b'\n' cs))
]
  where
    first : (ls : List Text) → HasFirst (cons_first c ls)
    first [] = tt
    first (l ∷ ls) = tt

commented_first :
    (ls : List Text)
    → HasFirst ls
    → cons_first b'#' (cons_first b' ' (mark_later ls)) ≡ map commented ls
commented_first [] h = absurd h
commented_first (l ∷ ls) h = refl

split-marked : (t : Text) → split b'\n' (marked t) ≡ mark_later (split b'\n' t)
split-marked [] = refl
split-marked (c ∷ cs) = elim (Bool-cases (c == b'\n')) [
  | inl e ↦ rw (e, split-marked cs) (ap (λ ls. [] ∷ ls) (commented_first _ (HasFirst-split cs)))
  | inr e ↦ rw (e, e, split-marked cs) (mark_later-cons_first c (split b'\n' cs))
]

-- The lines of the comment are the lines of the text, each with `# ` in front, for every text.
pub split-str_to_python_comment :
    (t : Text)
    → split b'\n' (str_to_python_comment t) ≡ map (λ line. codes "# " ++ line) (split b'\n' t)
unfolding str_to_python_comment
split-str_to_python_comment t = rw (split-marked t) (commented_first _ (HasFirst-split t))
