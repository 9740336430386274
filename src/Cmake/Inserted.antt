-- ===== src/Cmake/Inserted.antt =====
-- `append_value` on the text of an entry.
use hachoir.Prelude.{
  ℕ, ◌+◌, true, false, Option, none, some, ◌∷◌, ◌++◌, Text, codes, ◌≡◌, refl, sym, ◌∙◌, ap, arith,
  inr, ltb, all, starts_with, is_space, length, length-append, append_assoc,
}
use hachoir.Re.{
  Regex, lazy, group, Cursor, Match, char, match_at, search_on, space, optional, ◌⊳◌, beyond, start,
  find_group,
}
use hachoir.Re.Spans.{Spans-Step}
use hachoir.Re.Complete.{
  Simple, of_seq, of_group, of_alt, of_lazy, of_set, of_nothing, Simple-text, Succeeds,
}
use hachoir.Re.First.{
  Reaches-char, Reaches-seq, Reaches-group, Reaches-lazy, match_at-Reaches, absent, FindsAt,
  search_on-first,
}
use hachoir.Re.Replaced.{sub_once-outcome, match_at-Step}
use hachoir.Cmake.{append_value}
use hachoir.Cmake.Appended.{is_plain, opened, pattern_of, parts, Ignored}
use hachoir.Cmake.Bodies.{
  is_closed, plain_unique, divided, all_join, white_plain, tail_equal, append_cancel,
  append_cancel_right, starts_with_self,
}
use hachoir.Cmake.Entry.{
  entry_text, with_value, put_back, Reaches-opened, longer, outcome_found, put_back_lem,
  put_together, Ignores,
}

module _ (entry : Text) (to_ignore : Regex) (body white ignored post : Text)
    (ignores : Ignores to_ignore (body ++ white) ignored) (hb : all is_plain body ≡ true)
    (hw : all is_space white ≡ true) where
  Simple-pattern : Simple (pattern_of entry to_ignore)
  Simple-pattern =
      of_seq _ _ (of_group 1 _ (of_seq _ _ (Simple-text entry) (of_seq _ _ (of_set _) (of_lazy _))))
        (of_seq _ _ (of_lazy _) (
          of_seq _ _ (of_group 2 _ (of_seq _ _ (of_alt _ _ (of_set _) of_nothing) ignores.simple))
            (of_set _)))

  -- the pattern matches at the entry
  pattern_accepts :
      (s : Cursor)
      → s.after ≡ entry_text entry body white ignored post
      → Succeeds (match_at (pattern_of entry to_ignore) s)
  pattern_accepts s a = match_at-Reaches (pattern_of entry to_ignore) s post Simple-pattern (
      Reaches-seq (group 1 (opened entry))
        (lazy space ⊳ group 2 (optional space ⊳ to_ignore) ⊳ char b')') s
        (white ++ (ignored ++ b')' ∷ post)) post
        (Reaches-group 1 (opened entry) s _
          (Reaches-opened entry body (white ++ (ignored ++ b')' ∷ post)) s hb a))
        λ m e.
          Reaches-seq (lazy space) (group 2 (optional space ⊳ to_ignore) ⊳ char b')') m
            (ignored ++ b')' ∷ post) post
            (Reaches-lazy is_space white m (ignored ++ b')' ∷ post) hw e)
            λ l q.
              Reaches-seq (group 2 (optional space ⊳ to_ignore)) (char b')') l (b')' ∷ post) post
                (Reaches-group 2 (optional space ⊳ to_ignore) l _
                  (let (d, st, w) = ignores.leads l post q in (d, (l, inr refl, st), w)))
                λ n p. Reaches-char b')' n post p)

  -- it matches only where the name stands with its parenthesis
  pattern_refuses :
      (s : Cursor)
      → starts_with (entry ++ codes "(") s.after ≡ false
      → match_at (pattern_of entry to_ignore) s ≡ none
  pattern_refuses s h = by_match (match_at (pattern_of entry to_ignore) s) refl
    where
      clash : false ≡ true → ⊥
      clash p = cc

      named :
          (body x : Text) → starts_with (entry ++ codes "(") ((entry ++ b'(' ∷ body) ++ x) ≡ true
      named body x =
          ap (starts_with (entry ++ codes "("))
            (append_assoc entry (b'(' ∷ body) x ∙ sym (append_assoc entry (codes "(") (body ++ x)))
          ∙ starts_with_self (entry ++ codes "(") (body ++ x)

      by_match : (o : Option Cursor) → match_at (pattern_of entry to_ignore) s ≡ o → o ≡ none
      by_match none q = refl
      by_match (some e) q =
          let (body, white, tail, hb, hw, a, g1, g2, ig) =
            parts entry to_ignore s e ignores.free
              (match_at-Step (pattern_of entry to_ignore) s e q) in
          absurd (clash (sym h ∙ rw a (named body (white ++ (tail ++ b')' ∷ e.after)))))

  -- what is between the parentheses, taken apart in two ways
  same_inside :
      (body' white' tail rest : Text)
      → all is_plain body' ≡ true
      → all is_space white' ≡ true
      → Ignored to_ignore tail
      → entry_text entry body white ignored post
        ≡ (entry ++ b'(' ∷ body') ++ (white' ++ (tail ++ b')' ∷ rest))
      → ((body' ++ white') ++ tail ≡ (body ++ white) ++ ignored) × (rest ≡ post)
  same_inside body' white' tail rest hb' hw' ig e =
      plain_unique is_plain b')' ((body' ++ white') ++ tail) ((body ++ white) ++ ignored) rest post
        refl
        (all_join is_plain (body' ++ white') tail
          (all_join is_plain body' white' hb' (white_plain white' hw'))
          (ignores.plain_tail tail ig))
        (all_join is_plain (body ++ white) ignored
          (all_join is_plain body white hb (white_plain white hw)) ignores.plain)
        (regrouped body' white' tail rest
          ∙ tail_equal (append_cancel entry _ _ (sym (append_assoc entry (b'(' ∷ body') _) ∙ sym e))
          ∙ sym (regrouped body white ignored post))
    where
      regrouped : (a b c d : Text) → ((a ++ b) ++ c) ++ b')' ∷ d ≡ a ++ (b ++ (c ++ b')' ∷ d))
      regrouped a b c d = append_assoc (a ++ b) c (b')' ∷ d) ∙ append_assoc a b (c ++ b')' ∷ d)

  beyond-FindsAt :
      (pre : Text) (m : Match)
      → FindsAt
          (pattern_of entry to_ignore)
          pre
          (entry_text entry body white ignored post)
          (start (pre ++ entry_text entry body white ignored post))
          m
      → m.to.after ≡ post
      → beyond m.to (start (pre ++ entry_text entry body white ignored post)) ≡ true
  beyond-FindsAt pre m ((t, p), a, gs, at) e =
      let (seg, q, w) =
        Spans-Step (pattern_of entry to_ignore) m.from m.to
          (match_at-Step (pattern_of entry to_ignore) m.from m.to at) in
      rw (w, p)
        (further (length pre) (length seg) (
          longer entry body white ignored post (length seg) (
            ap length (sym a ∙ q)
            ∙ length-append seg m.to.after
            ∙ ap (λ (t : Text). length seg + length t) e)))
    where
      further : (n k : ℕ) → ltb 0 k ≡ true → ltb 0 (0 + n + k) ≡ true
      further n k h = ground arith

  abbrev pub Inserted : Text → Text → Text → Type 0
  Inserted separator value pre =
      (kept : Text) × (out : Text) × (blank : Text) × (white ≡ kept ++ (out ++ blank))
      × (append_value separator entry value to_ignore
            (pre ++ entry_text entry body white ignored post)
          ≡ pre ++ with_value separator value entry body kept (blank ++ ignored) post)

  -- white space and the part to ignore, taken apart in two ways
  same_white :
      (body' white' tail blank : Text)
      → tail ≡ blank ++ ignored
      → (body' ++ white') ++ tail ≡ (body ++ white) ++ ignored
      → body' ++ (white' ++ blank) ≡ body ++ white
  same_white body' white' tail blank own same =
      append_cancel_right (body' ++ (white' ++ blank)) (body ++ white) ignored (
        append_assoc body' (white' ++ blank) ignored
        ∙ ap (λ (t : Text). body' ++ t) (append_assoc white' blank ignored)
        ∙ sym (append_assoc body' white' (blank ++ ignored))
        ∙ ap (λ (t : Text). (body' ++ white') ++ t) (sym own)
        ∙ same)

  module _ (separator value pre : Text) (hc : is_closed body ≡ true) (m : Match)
      (found : search_on
          (pattern_of entry to_ignore)
          (pre ++ entry_text entry body white ignored post)
          (start (pre ++ entry_text entry body white ignored post))
        ≡ some m)
      (at : FindsAt
        (pattern_of entry to_ignore)
        pre
        (entry_text entry body white ignored post)
        (start (pre ++ entry_text entry body white ignored post))
        m) where
    inserted_text :
        (body' kept blank tail : Text)
        → tail ≡ blank ++ ignored
        → body' ≡ body ++ kept
        → m.to.after ≡ post
        → find_group 1 m.to.groups ≡ some (entry ++ b'(' ∷ body')
        → find_group 2 m.to.groups ≡ some tail
        → append_value separator entry value to_ignore
            (pre ++ entry_text entry body white ignored post)
          ≡ pre ++ with_value separator value entry body kept (blank ++ ignored) post
    unfolding append_value
    inserted_text body' kept blank tail own grown rest g1 g2 =
        sub_once-outcome (pattern_of entry to_ignore) (put_back separator value)
          (pre ++ entry_text entry body white ignored post)
        ∙ outcome_found (put_back separator value) (pre ++ entry_text entry body white ignored post)
            pre m _ found (beyond-FindsAt pre m at rest) at.0
        ∙ ap (λ (t : Text). pre ++ t ++ m.to.after)
            (put_back_lem separator value (entry ++ b'(' ∷ body') (blank ++ ignored) m g1
              (g2 ∙ ap some own))
        ∙ put_together separator value entry body kept (blank ++ ignored) pre m.to.after body' post
            grown rest

    Inserted-parts :
        (body' white' tail : Text)
        → all is_space white' ≡ true
        → Ignored to_ignore tail
        → (body' ++ white') ++ tail ≡ (body ++ white) ++ ignored
        → m.to.after ≡ post
        → find_group 1 m.to.groups ≡ some (entry ++ b'(' ∷ body')
        → find_group 2 m.to.groups ≡ some tail
        → Inserted separator value pre
    Inserted-parts body' white' tail hw' ig same rest g1 g2 =
        let (blank, hs, own) = ignores.unique (body' ++ white') tail ig same in
        let (kept, grown, split) =
          divided body white body' (white' ++ blank) hc (all_join is_space white' blank hw' hs)
            (same_white body' white' tail blank own same) in
        (kept, white', blank, split, inserted_text body' kept blank tail own grown rest g1 g2)

  pub append_value_into :
      (separator value pre : Text)
      → absent (entry ++ codes "(") pre (entry_text entry body white ignored post) ≡ true
      → is_closed body ≡ true
      → Inserted separator value pre
  append_value_into separator value pre first hc =
      let (m, found, at) =
        search_on-first (pattern_of entry to_ignore) (entry ++ codes "(")
          (entry_text entry body white ignored post) pattern_refuses pattern_accepts pre
          (start (pre ++ entry_text entry body white ignored post)) refl refl first in
      let (body', white', tail, hb', hw', inside, g1, g2, ig) =
        parts entry to_ignore m.from m.to ignores.free
          (match_at-Step (pattern_of entry to_ignore) m.from m.to at.3) in
      let (same, rest) = same_inside body' white' tail m.to.after hb' hw' ig (sym at.1 ∙ inside) in
      Inserted-parts separator value pre hc m found at body' white' tail hw' ig same rest g1 g2
