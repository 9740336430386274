-- ===== src/Cmake/Comments.antt =====
-- `comment_out_lines` where a line stands twice.
use hachoir.Prelude.{
  ℕ, true, false, not, some, List, [], ◌∷◌, ◌++◌, Text, codes, ◌≡◌, refl, sym, ap, ◌∙◌, arith, ◌==◌,
  length, all, replace, replace_from, drop_prefix, is_some, append-nil, &&-true,
}
use hachoir.Re.{Regex, search_text}
use hachoir.Cmake.{splitlines, comment_lines, comment_out_lines}

drop_prefix-append : (p t : Text) → drop_prefix p (p ++ t) ≡ some t
drop_prefix-append [] t = refl
drop_prefix-append (c ∷ p) t = ground (arith, drop_prefix-append p t)

replace_from-skip :
    (old new xs t : Text) → replace_from (length xs) old new (xs ++ t) ≡ replace_from 0 old new t
replace_from-skip old new [] t = refl
replace_from-skip old new (x ∷ xs) t = replace_from-skip old new xs t

-- an occurrence at the front is replaced, and the scan goes on behind it
pub replace_here :
    (c : ℕ) (cs new t : Text) → replace (c ∷ cs) new ((c ∷ cs) ++ t) ≡ new ++ replace (c ∷ cs) new t
replace_here c cs new t = rw (drop_prefix-append (c ∷ cs) t) (
    ap (λ (n : ℕ). new ++ replace_from n (c ∷ cs) new (cs ++ t)) (omega arith)
    ∙ ap (λ (u : Text). new ++ u) (replace_from-skip (c ∷ cs) new cs t))

pub replace_skip :
    (c x : ℕ) (cs new t : Text)
    → (c == x) ≡ false
    → replace (c ∷ cs) new (x ∷ t) ≡ x ∷ replace (c ∷ cs) new t
replace_skip c x cs new t h = rw h refl

splitlines_last :
    (t : Text)
    → all (λ c. not (c == b'\n')) t ≡ true
    → (x : ℕ) → (x == b'\n') ≡ false
    → splitlines (x ∷ t) ≡ (x ∷ t) ∷ []
splitlines_last [] h x k = rw k refl
splitlines_last (c ∷ t) h x k =
    let hc : not (c == b'\n') ≡ true = (&&-true _ _ h).0 in
    let ht : all (λ d. not (d == b'\n')) t ≡ true = (&&-true (not (c == b'\n')) _ h).1 in
    let kc : (c == b'\n') ≡ false = ground arith in rw (k, splitlines_last t ht c kc) refl

pub splitlines_first :
    (t u : Text)
    → all (λ c. not (c == b'\n')) t ≡ true
    → splitlines (t ++ b'\n' ∷ u) ≡ t ∷ splitlines u
splitlines_first [] u h = refl
splitlines_first (c ∷ t) u h = ground (arith, splitlines_first t u)

-- a line that stands twice, with marks before it
abbrev twice : Text → Text → Text
twice mark line = mark ++ (line ++ b'\n' ∷ (mark ++ line))

module _ (c : ℕ) (cs : Text) (newline : (c == b'\n') ≡ false) (black : (c == b'#') ≡ false) where
  replace_last : (new : Text) → replace (c ∷ cs) new (c ∷ cs) ≡ new
  replace_last new =
      ap (replace (c ∷ cs) new) (sym (append-nil (c ∷ cs)))
      ∙ replace_here c cs new []
      ∙ append-nil new

  first_round : replace (c ∷ cs) (b'#' ∷ c ∷ cs) (twice [] (c ∷ cs)) ≡ twice (codes "#") (c ∷ cs)
  first_round =
      replace_here c cs (b'#' ∷ c ∷ cs) (b'\n' ∷ c ∷ cs)
      ∙ ap (λ (u : Text). (b'#' ∷ c ∷ cs) ++ u)
          (replace_skip c b'\n' cs (b'#' ∷ c ∷ cs) (c ∷ cs) newline
            ∙ ap (λ (u : Text). b'\n' ∷ u) (replace_last (b'#' ∷ c ∷ cs)))

  second_round :
      replace (c ∷ cs) (b'#' ∷ c ∷ cs) (twice (codes "#") (c ∷ cs)) ≡ twice (codes "##") (c ∷ cs)
  second_round =
      replace_skip c b'#' cs (b'#' ∷ c ∷ cs) ((c ∷ cs) ++ b'\n' ∷ b'#' ∷ c ∷ cs) black
      ∙ ap (λ (u : Text). b'#' ∷ u)
          (replace_here c cs (b'#' ∷ c ∷ cs) (b'\n' ∷ b'#' ∷ c ∷ cs)
            ∙ ap (λ (u : Text). (b'#' ∷ c ∷ cs) ++ u)
                (replace_skip c b'\n' cs (b'#' ∷ c ∷ cs) (b'#' ∷ c ∷ cs) newline
                  ∙ ap (λ (u : Text). b'\n' ∷ u)
                      (replace_skip c b'#' cs (b'#' ∷ c ∷ cs) (c ∷ cs) black
                        ∙ ap (λ (u : Text). b'#' ∷ u) (replace_last (b'#' ∷ c ∷ cs)))))

-- A line that matches and stands twice in the file gets two comment marks at each place: the
-- loop meets it twice, and each time replaces both occurrences.
pub comment_out_twice :
    (pattern : Regex) (c : ℕ) (cs : Text)
    → is_some (search_text pattern (c ∷ cs)) ≡ true
    → all (λ x. not (x == b'\n')) (c ∷ cs) ≡ true
    → (c == b'#') ≡ false
    → comment_out_lines pattern (codes "#") (twice [] (c ∷ cs)) ≡ twice (codes "##") (c ∷ cs)
unfolding comment_out_lines
comment_out_twice pattern c cs found plain black =
    let newline : (c == b'\n') ≡ false = ground arith in
    let rest : all (λ x. not (x == b'\n')) cs ≡ true = (&&-true (not (c == b'\n')) _ plain).1 in
    let lines : splitlines (twice [] (c ∷ cs)) ≡ (c ∷ cs) ∷ (c ∷ cs) ∷ [] =
      splitlines_first (c ∷ cs) (c ∷ cs) plain
      ∙ ap (λ (l : List Text). (c ∷ cs) ∷ l) (splitlines_last cs rest c newline) in
    ap (λ (l : List Text). comment_lines pattern (codes "#") l (twice [] (c ∷ cs))) lines
    ∙ rw found (
        ap (replace (c ∷ cs) (b'#' ∷ c ∷ cs)) (first_round c cs newline black)
        ∙ second_round c cs newline black)
