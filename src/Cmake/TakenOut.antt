-- ===== src/Cmake/TakenOut.antt =====
-- `remove_value` where an entry has the name of the file.
use hachoir.Prelude.{
  suc, ℕ, ◌+◌, Bool, true, false, not, [], ◌∷◌, ◌++◌, Text, ◌≡◌, refl, ◌∙◌, ap, arith, ltb, ◌==◌,
  all, &&-true, is_space, length, length-append, append_assoc, if◌then◌else◌,
}
use hachoir.Re.{
  nothing, bol, star, lazy, group, Cursor, text, char, dot, as_pattern, match_at, space, ◌⊳◌, start,
  at_bol,
}
use hachoir.Re.Steps.{Step}
use hachoir.Re.Taken.{no_group}
use hachoir.Re.Complete.{
  Simple, of_seq, of_group, of_star, of_lazy, of_set, of_nothing, of_bol, Simple-text, Succeeds,
}
use hachoir.Re.First.{
  Reaches, Reaches-set, Reaches-char, Reaches-seq, Reaches-text, Reaches-group, Reaches-lazy,
  Reaches-star, match_at-Reaches, ends_line, search_on-finds,
}
use hachoir.Re.Replaced.{Replaces-found}
use hachoir.Cmake.{remove_value, back, outside}
use hachoir.Cmake.Appended.{is_plain}
use hachoir.Cmake.Removed.{Removes, Removes-Replaces, removal, opening, closing, parted}

-- the name of a file in the place of a pattern

name_char : (b : Bool) (c : ℕ) → Simple (if b then dot else char c)
name_char true c = of_set _
name_char false c = of_set _

Simple-as_pattern : (v : Text) → Simple (as_pattern v)
Simple-as_pattern [] = of_nothing
Simple-as_pattern (c ∷ v) = of_seq _ _ (name_char (c == b'.') c) (Simple-as_pattern v)

no_group-char : (b : Bool) (c : ℕ) → no_group (if b then dot else char c) ≡ true
unfolding no_group
no_group-char true c = refl
no_group-char false c = refl

pub no_group-as_pattern : (v : Text) → no_group (as_pattern v) ≡ true
unfolding no_group
no_group-as_pattern [] = refl
no_group-as_pattern (c ∷ v) = rw (no_group-char (c == b'.') c, no_group-as_pattern v) refl

-- no line break
abbrev pub is_inline : Text → Bool
is_inline = all (λ c. not (c == b'\n'))

Reaches-name_char :
    (b : Bool) (c : ℕ) (s : Cursor) (rest : Text)
    → not (c == b'\n') ≡ true
    → s.after ≡ c ∷ rest
    → Reaches (if b then dot else char c) s rest
Reaches-name_char true c s rest h a = Reaches-set (λ x. not (x == b'\n')) c s rest h a
Reaches-name_char false c s rest h a = Reaches-char c s rest a

-- it matches itself
Reaches-as_pattern :
    (v : Text) (s : Cursor) (rest : Text)
    → is_inline v ≡ true
    → s.after ≡ v ++ rest
    → Reaches (as_pattern v) s rest
Reaches-as_pattern [] s rest h a = (s, refl, a)
Reaches-as_pattern (c ∷ v) s rest h a =
    let (hc, hv) = &&-true (not (c == b'\n')) (is_inline v) h in
    Reaches-seq (if c == b'.' then dot else char c) (as_pattern v) s (v ++ rest) rest
      (Reaches-name_char (c == b'.') c s (v ++ rest) hc a) λ m e. Reaches-as_pattern v m rest hv e

-- white space, an entry with the name in its body, and the rest of the text
abbrev pub entry_with : Text → Text → Text → Text → Text → Text → Text
entry_with white entry front v rest behind =
    white ++ (entry ++ b'(' ∷ (front ++ (v ++ (rest ++ b')' ∷ behind))))

Simple-removal : (entry v : Text) → Simple (removal entry (as_pattern v) nothing)
Simple-removal entry v = of_seq _ _ of_bol (
    of_seq _ _ (of_star _) (
      of_seq _ _
        (of_group 1 _ (
          of_seq _ _ (Simple-text entry) (
            of_seq _ _ (of_set _) (
              of_seq _ _ (of_star _)
                (of_seq _ _ of_nothing (of_seq _ _ (of_lazy _) (of_star _)))))))
        (of_seq _ _ (Simple-as_pattern v)
          (of_seq _ _ (of_star _) (of_group 2 _ (of_seq _ _ (of_star _) (of_set _)))))))

Reaches-opening :
    (entry front rest : Text) (s : Cursor)
    → all is_plain front ≡ true
    → s.after ≡ entry ++ b'(' ∷ (front ++ rest)
    → Reaches (opening entry nothing) s rest
Reaches-opening entry front rest s h a =
    Reaches-seq (text entry) (char b'(' ⊳ star space ⊳ nothing ⊳ lazy outside ⊳ star space) s
      (b'(' ∷ (front ++ rest)) rest (Reaches-text entry s (b'(' ∷ (front ++ rest)) a)
      λ m e.
        Reaches-seq (char b'(') (star space ⊳ nothing ⊳ lazy outside ⊳ star space) m (front ++ rest)
          rest (Reaches-char b'(' m (front ++ rest) e)
          λ l q.
            Reaches-seq (star space) (nothing ⊳ lazy outside ⊳ star space) l (front ++ rest) rest
              (Reaches-star is_space [] l (front ++ rest) refl q)
              λ k p.
                Reaches-seq nothing (lazy outside ⊳ star space) k (front ++ rest) rest (k, refl, p)
                  λ j w.
                    Reaches-seq (lazy outside) (star space) j rest rest
                      (Reaches-lazy is_plain front j rest h w)
                      λ i z. Reaches-star is_space [] i rest refl z

Reaches-closing :
    (rest behind : Text) (s : Cursor)
    → all is_plain rest ≡ true
    → s.after ≡ rest ++ b')' ∷ behind
    → Reaches closing s behind
Reaches-closing rest behind s h a =
    Reaches-seq (star outside) (char b')') s (b')' ∷ behind) behind
      (Reaches-star is_plain rest s (b')' ∷ behind) h a) λ m e. Reaches-char b')' m behind e

-- the pattern matches at a line that starts with the entry
removal_accepts :
    (entry v white front rest behind : Text) (s : Cursor)
    → all is_space white ≡ true
    → all is_plain front ≡ true
    → is_inline v ≡ true
    → all is_plain rest ≡ true
    → s.after ≡ entry_with white entry front v rest behind
    → at_bol s ≡ true
    → Succeeds (match_at (removal entry (as_pattern v) nothing) s)
removal_accepts entry v white front rest behind s hw hf hv hr a b =
    let tail = rest ++ b')' ∷ behind in
    let body = entry ++ b'(' ∷ (front ++ (v ++ tail)) in
    let value = as_pattern v in
    match_at-Reaches (removal entry value nothing) s behind (Simple-removal entry v) (
      Reaches-seq bol
        (star space ⊳ group 1 (opening entry nothing) ⊳ value ⊳ star space ⊳ group 2 closing) s
        (white ++ body) behind (s, (refl, b), a)
        λ m e.
          Reaches-seq (star space)
            (group 1 (opening entry nothing) ⊳ value ⊳ star space ⊳ group 2 closing) m body behind
            (Reaches-star is_space white m body hw e)
            λ l q.
              Reaches-seq (group 1 (opening entry nothing)) (value ⊳ star space ⊳ group 2 closing) l
                (v ++ tail) behind
                (Reaches-group 1 (opening entry nothing) l _
                  (Reaches-opening entry front (v ++ tail) l hf q))
                λ k p.
                  Reaches-seq value (star space ⊳ group 2 closing) k tail behind
                    (Reaches-as_pattern v k tail hv p)
                    λ j w.
                      Reaches-seq (star space) (group 2 closing) j tail behind
                        (Reaches-star is_space [] j tail refl w)
                        λ i z.
                          Reaches-group 2 closing i behind (Reaches-closing rest behind i hr z))

-- a match takes the parenthesis at least
removal_advances :
    (entry v : Text) (s s' : Cursor)
    → Step (removal entry (as_pattern v) nothing) s s'
    → ltb s.pos s'.pos ≡ true
unfolding no_group
removal_advances entry v s s' st =
    let (white, front, w, gap, rest, hw, hg, hr, found, (a, p), g1, g2) =
      parted entry (as_pattern v) nothing s s' (no_group-as_pattern v) refl st in
    later s.pos s'.pos (length white) (length entry) _ (
      p
      ∙ ap (λ (n : ℕ). s.pos + n)
          (length-append white _
            ∙ ap (λ (n : ℕ). length white + n)
                (ap length (append_assoc entry (b'(' ∷ front) _) ∙ length-append entry _)))
  where
    later : (x y a b c : ℕ) → y ≡ x + (a + (b + suc c)) → ltb x y ≡ true
    later x y a b c e = ground arith

-- Where a line of the text starts with an entry, behind white space, that has the name of the file
-- in its body, `remove_value` takes a text that the name matches as a pattern out of one entry, with
-- white space behind it and white space right before that entry, and nothing else of the text is
-- lost. The name has no line break, and the rest of the body no parenthesis.
pub remove_value_takes_out :
    (entry v before white front rest behind : Text)
    → ends_line true before ≡ true
    → all is_space white ≡ true
    → all is_plain front ≡ true
    → is_inline v ≡ true
    → all is_plain rest ≡ true
    → Removes entry (as_pattern v) (before ++ entry_with white entry front v rest behind) (
        remove_value entry
          (as_pattern v)
          nothing
          (before ++ entry_with white entry front v rest behind))
unfolding remove_value no_group
remove_value_takes_out entry v before white front rest behind hb hw hf hv hr =
    let t = before ++ entry_with white entry front v rest behind in
    let r = removal entry (as_pattern v) nothing in
    let (m, found) =
      search_on-finds r (entry_with white entry front v rest behind)
        (λ s a b. removal_accepts entry v white front rest behind s hw hf hv hr a b) before
        (start t) refl hb in
    Removes-Replaces entry (as_pattern v) nothing t _ (no_group-as_pattern v) refl
      (Replaces-found r (λ m. back 1 m ++ back 2 m) t m found (removal_advances entry v))
