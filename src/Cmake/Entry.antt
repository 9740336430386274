-- ===== src/Cmake/Entry.antt =====
-- The text of an entry before and after `append_value`, and what the pattern asks of it.
use hachoir.Prelude.{
  ℕ, ◌+◌, ◌<◌, true, Option, some, ◌∷◌, ◌++◌, Text, codes, ◌≡◌, refl, ◌∙◌, ap, arith, ltb, all,
  is_space, length, length-append, append_assoc,
}
use hachoir.Re.{Regex, lazy, Cursor, Match, text, char, ◌⊳◌, beyond, start, find_group}
use hachoir.Re.Spans.{Takes, between-Spans}
use hachoir.Re.Complete.{Simple}
use hachoir.Re.Taken.{no_group}
use hachoir.Re.First.{Reaches, Reaches-char, Reaches-seq, Reaches-text, Reaches-lazy}
use hachoir.Re.Replaced.{outcome}
use hachoir.Cmake.{back, outside}
use hachoir.Cmake.Appended.{is_plain, opened, Ignored, regroup}

-- an entry: its body, white space, the part to ignore, and the rest of the text
abbrev pub entry_text : Text → Text → Text → Text → Text → Text
entry_text entry body white ignored post =
    entry ++ b'(' ∷ (body ++ (white ++ (ignored ++ b')' ∷ post)))

-- the entry with the value in it
abbrev pub with_value : Text → Text → Text → Text → Text → Text → Text → Text
with_value separator value entry body kept tail post =
    entry ++ b'(' ∷ (body ++ (kept ++ (separator ++ (value ++ (tail ++ b')' ∷ post)))))

abbrev pub put_back : Text → Text → Match → Text
put_back separator value m = back 1 m ++ (separator ++ (value ++ (back 2 m ++ codes ")")))

pub Reaches-opened :
    (entry body rest : Text) (s : Cursor)
    → all is_plain body ≡ true
    → s.after ≡ entry ++ b'(' ∷ (body ++ rest)
    → Reaches (opened entry) s rest
Reaches-opened entry body rest s h a =
    Reaches-seq (text entry) (char b'(' ⊳ lazy outside) s (b'(' ∷ (body ++ rest)) rest
      (Reaches-text entry s (b'(' ∷ (body ++ rest)) a)
      λ m e.
        Reaches-seq (char b'(') (lazy outside) m (body ++ rest) rest
          (Reaches-char b'(' m (body ++ rest) e) λ l q. Reaches-lazy is_plain body l rest h q

-- an entry is longer than what follows it
pub longer :
    (entry body white ignored post : Text) (n : ℕ)
    → length (entry_text entry body white ignored post) ≡ n + length post
    → ltb 0 n ≡ true
longer entry body white ignored post n e = positive n (
    omega (
      arith,
      e,
      length-append entry (b'(' ∷ (body ++ (white ++ (ignored ++ b')' ∷ post)))),
      length-append body (white ++ (ignored ++ b')' ∷ post)),
      length-append white (ignored ++ b')' ∷ post),
      length-append ignored (b')' ∷ post),
    ))
  where
    positive : (n : ℕ) → 0 < n → ltb 0 n ≡ true
    positive n h = ground arith

pub outcome_found :
    (f : Match → Text) (t pre : Text) (m : Match) (o : Option Match)
    → o ≡ some m
    → beyond m.to (start t) ≡ true
    → Takes pre (start t) m.from
    → outcome f (start t) o ≡ pre ++ f m ++ m.to.after
outcome_found f t pre m o e b (a, p) = rw (e, b, between-Spans (start t) m.from (pre, a, p)) refl

pub put_back_lem :
    (separator value x tail : Text) (m : Match)
    → find_group 1 m.to.groups ≡ some x
    → find_group 2 m.to.groups ≡ some tail
    → put_back separator value m ≡ x ++ (separator ++ (value ++ (tail ++ codes ")")))
put_back_lem separator value x tail m g1 g2 = rw (g1, g2) refl

pub put_together :
    (separator value entry body kept tail pre rest body' post : Text)
    → body' ≡ body ++ kept
    → rest ≡ post
    → pre ++ ((entry ++ b'(' ∷ body') ++ (separator ++ (value ++ (tail ++ codes ")")))) ++ rest
      ≡ pre ++ with_value separator value entry body kept tail post
put_together separator value entry body kept tail pre rest body' post e q =
    regroup pre (entry ++ b'(' ∷ body') separator value tail rest
    ∙ ap (λ (t : Text). pre ++ t)
        (append_assoc entry (b'(' ∷ body') _
          ∙ ap (λ (t : Text). entry ++ b'(' ∷ t)
              (rw (e, q) (append_assoc body kept (separator ++ (value ++ (tail ++ b')' ∷ post))))))

-- What is taken for the part to ignore is without a parenthesis, and it ends with the ignored text
-- wherever it stands behind the same text.
pub record Ignores (to_ignore : Regex) (front ignored : Text) : Type 0 where
  pub free : no_group to_ignore ≡ true
  pub simple : Simple to_ignore
  pub plain : all is_plain ignored ≡ true
  pub leads :
      (s : Cursor) (rest : Text)
      → s.after ≡ ignored ++ b')' ∷ rest
      → Reaches to_ignore s (b')' ∷ rest)
  pub plain_tail : (tail : Text) → Ignored to_ignore tail → all is_plain tail ≡ true
  pub unique :
      (x tail : Text)
      → Ignored to_ignore tail
      → x ++ tail ≡ front ++ ignored
      → (white : Text) × (all is_space white ≡ true) × (tail ≡ white ++ ignored)
