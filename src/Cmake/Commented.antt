-- ===== src/Cmake/Commented.antt =====
-- `comment_out_lines` where the lines that match stand nowhere else.
use hachoir.Prelude.{
  ℕ, Bool, true, false, not, ◌&&◌, ◌||◌, List, [], ◌∷◌, ◌++◌, Text, codes, ◌≡◌, refl, sym, ap, ◌∙◌,
  ◌==◌, inl, inr, Bool-cases, all, map, replace, starts_with, is_some, append-nil, append_assoc,
  &&-true, if◌then◌else◌,
}
use hachoir.Re.{Regex, search_text}
use hachoir.Re.First.{absent}
use hachoir.Cmake.{splitlines, comment_lines, comment_out_lines}
use hachoir.Cmake.Comments.{replace_here, splitlines_first}

-- a text of lines, each with its end
abbrev pub unlines : List Text → Text
unlines [] = []
unlines (l ∷ ls) = l ++ b'\n' ∷ unlines ls

false_of : (b : Bool) → not b ≡ true → b ≡ false
false_of true e = cc
false_of false e = refl

-- a place where the text does not start is passed over
replace_pass :
    (old new : Text) (x : ℕ) (t : Text)
    → starts_with old (x ∷ t) ≡ false
    → replace old new (x ∷ t) ≡ x ∷ replace old new t
replace_pass old new x t h = rw h refl

replace_none : (old new t : Text) → absent old t [] ≡ true → replace old new t ≡ t
unfolding absent
replace_none old new [] h = refl
replace_none old new (x ∷ t) h =
    let (here, later) = &&-true (not (starts_with old (x ∷ (t ++ [])))) _ h in
    replace_pass old new x t (
      ap (λ (u : Text). starts_with old (x ∷ u)) (sym (append-nil t))
      ∙ false_of (starts_with old (x ∷ (t ++ []))) here)
    ∙ ap (λ (u : Text). x ∷ u) (replace_none old new t later)

-- the one place where the text stands is replaced
pub replace_once :
    (c : ℕ) (cs new before behind : Text)
    → absent (c ∷ cs) before ((c ∷ cs) ++ behind) ≡ true
    → absent (c ∷ cs) behind [] ≡ true
    → replace (c ∷ cs) new (before ++ ((c ∷ cs) ++ behind)) ≡ before ++ (new ++ behind)
unfolding absent
replace_once c cs new [] behind h g =
    replace_here c cs new behind ∙ ap (λ (u : Text). new ++ u) (replace_none (c ∷ cs) new behind g)
replace_once c cs new (x ∷ before) behind h g =
    let (here, later) =
      &&-true (not (starts_with (c ∷ cs) (x ∷ (before ++ ((c ∷ cs) ++ behind))))) _ h in
    replace_pass (c ∷ cs) new x (before ++ ((c ∷ cs) ++ behind))
      (false_of (starts_with (c ∷ cs) (x ∷ (before ++ ((c ∷ cs) ++ behind)))) here)
    ∙ ap (λ (u : Text). x ∷ u) (replace_once c cs new before behind later g)

abbrev pub is_line : Text → Bool
is_line = all (λ c. not (c == b'\n'))

splitlines-unlines : (ls : List Text) → all is_line ls ≡ true → splitlines (unlines ls) ≡ ls
splitlines-unlines [] h = refl
splitlines-unlines (l ∷ ls) h =
    let (here, later) = &&-true (is_line l) _ h in
    splitlines_first l (unlines ls) here
    ∙ ap (λ (m : List Text). l ∷ m) (splitlines-unlines ls later)

line_end :
    (before x rest : Text) → before ++ (x ++ b'\n' ∷ rest) ≡ (before ++ (x ++ codes "\n")) ++ rest
line_end before x rest = sym (
    append_assoc before (x ++ codes "\n") rest
    ∙ ap (λ (t : Text). before ++ t) (append_assoc x (codes "\n") rest))

second : (m s : Bool) → m ≡ true → (not m || s) ≡ true → s ≡ true
second true s e h = h
second false s e h = cc

module _ (pattern : Regex) (mark : Text) where
  abbrev pub is_match : Text → Bool
  is_match l = is_some (search_text pattern l)

  -- a line, with the mark where it matches
  abbrev pub marked : Text → Text
  marked l = if is_match l then mark ++ l else l

  -- a line that is not empty stands nowhere in the text before it and behind it
  unfoldable pub stands_once : Text → Text → Text → Bool
  stands_once before [] behind = false
  stands_once before (c ∷ cs) behind =
      absent (c ∷ cs) before ((c ∷ cs) ++ behind) && absent (c ∷ cs) behind []

  -- the lines that match stand once, those before them marked
  unfoldable pub are_alone : Text → List Text → Bool
  are_alone before [] = true
  are_alone before (l ∷ ls) =
      (not (is_match l) || stands_once before l (b'\n' ∷ unlines ls))
      && are_alone (before ++ (marked l ++ codes "\n")) ls

  replaced :
      (before l behind : Text)
      → stands_once before l behind ≡ true
      → replace l (mark ++ l) (before ++ (l ++ behind)) ≡ before ++ ((mark ++ l) ++ behind)
  unfolding stands_once
  replaced before [] behind h = cc
  replaced before (c ∷ cs) behind h =
      let (here, later) = &&-true (absent (c ∷ cs) before ((c ∷ cs) ++ behind)) _ h in
      replace_once c cs (mark ++ c ∷ cs) before behind here later

  marked_round :
      (before l : Text) (ls : List Text)
      → (not (is_match l) || stands_once before l (b'\n' ∷ unlines ls)) ≡ true
      → (if is_match l
          then replace l (mark ++ l) (before ++ unlines (l ∷ ls))
          else before ++ unlines (l ∷ ls))
        ≡ (before ++ (marked l ++ codes "\n")) ++ unlines ls
  marked_round before l ls h = elim (Bool-cases (is_match l)) [
    | inl b ↦ rw b (
        replaced before l (b'\n' ∷ unlines ls)
          (second (is_match l) (stands_once before l (b'\n' ∷ unlines ls)) b h)
        ∙ line_end before (mark ++ l) (unlines ls))
    | inr b ↦ rw b (line_end before l (unlines ls))
  ]

  comment_lines-are_alone :
      (before : Text) (ls : List Text)
      → are_alone before ls ≡ true
      → comment_lines pattern mark ls (before ++ unlines ls) ≡ before ++ unlines (map marked ls)
  unfolding comment_lines are_alone
  comment_lines-are_alone before [] h = refl
  comment_lines-are_alone before (l ∷ ls) h =
      let (here, later) =
        &&-true (not (is_match l) || stands_once before l (b'\n' ∷ unlines ls)) _ h in
      ap (comment_lines pattern mark ls) (marked_round before l ls here)
      ∙ comment_lines-are_alone (before ++ (marked l ++ codes "\n")) ls later
      ∙ sym (line_end before (marked l) (unlines (map marked ls)))

  -- On a text of lines with their ends, where each line that matches is not empty and its text
  -- stands nowhere else in the file, the lines before it already marked, `comment_out_lines` puts the
  -- mark before each of these lines, and leaves the others as they are.
  pub comment_out_lines_marks :
      (ls : List Text)
      → all is_line ls ≡ true
      → are_alone [] ls ≡ true
      → comment_out_lines pattern mark (unlines ls) ≡ unlines (map marked ls)
  unfolding comment_out_lines
  comment_out_lines_marks ls plain h =
      ap (λ (m : List Text). comment_lines pattern mark m (unlines ls))
        (splitlines-unlines ls plain)
      ∙ comment_lines-are_alone [] ls h
