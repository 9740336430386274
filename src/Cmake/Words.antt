-- ===== src/Cmake/Words.antt =====
-- `append_value` before a word of the entry, as before the DESTINATION of `install`.
use hachoir.Prelude.{
  ℕ, suc, ◌+◌, Bool, true, false, not, [], ◌∷◌, ◌++◌, Text, codes, ◌≡◌, refl, sym, ◌∙◌, ap, arith,
  &&-true, all, starts_with, is_space, length, length-append, append_assoc, append-nil,
}
use hachoir.Re.{Regex, star, Cursor, text, plus, ◌⊳◌}
use hachoir.Re.Spans.{Takes-Reads, Takes-trans}
use hachoir.Re.Taken.{no_group, no_group-text, Takes-text, Takes-Rounds}
use hachoir.Re.Complete.{of_seq, of_set, of_star, Simple-text}
use hachoir.Re.First.{Reaches, Reaches-seq, Reaches-text, Reaches-set, Reaches-star, absent}
use hachoir.Cmake.{append_value, outside}
use hachoir.Cmake.Appended.{is_plain, Ignored}
use hachoir.Cmake.Bodies.{
  is_closed, all_join, white_plain, append_cancel, starts_with_self, head_equal, tail_equal,
}
use hachoir.Cmake.Entry.{entry_text, with_value, Ignores}
use hachoir.Cmake.Inserted.{append_value_into}
use hachoir.Cmake.Values.{Takes-unique, optional_white}

-- a word and at least one character behind it
abbrev pub from_word : Text → Regex
from_word w = text w ⊳ plus outside

Ignored-word :
    (w tail : Text)
    → Ignored (from_word w) tail
    → (white : Text) × (rest : Text) × (all is_space white ≡ true)
      × (all is_plain rest ≡ true)
      × (tail ≡ white ++ (w ++ rest))
Ignored-word w tail (c, d, (m, st, (l, named, (k, one, (n, rs)))), t) =
    let (white, h, u) = optional_white c m st in
    let (x, hx, v) = Takes-Reads is_plain l k one in
    let (seg, y, hs) = Takes-Rounds is_plain n k d rs in
    (
      white,
      x ∷ seg,
      h,
      rw (hx, hs) refl,
      Takes-unique tail (white ++ (w ++ x ∷ seg)) c d t (
          Takes-trans white (w ++ x ∷ seg) c m d u (
            Takes-trans w (x ∷ seg) m l d (Takes-text w m l named)
              (Takes-trans (x ∷ []) seg l k d v y))),
    )

-- a word that stands nowhere before is found no earlier
not_before :
    (w pre u x rest : Text)
    → absent w pre u ≡ true
    → x ++ (w ++ rest) ≡ pre ++ u
    → (y : Text) × (x ≡ pre ++ y)
unfolding absent
not_before w [] u x rest h e = (x, refl)
not_before w (c ∷ pre) u [] rest h e = absurd (
    clash (starts_with w (c ∷ (pre ++ u))) (&&-true (not (starts_with w (c ∷ (pre ++ u)))) _ h).0
      (ap (starts_with w) (sym e) ∙ starts_with_self w rest))
  where
    clash : (b : Bool) → not b ≡ true → b ≡ true → ⊥
    clash true p q = cc
    clash false p q = cc
not_before w (c ∷ pre) u (d ∷ x) rest h e =
    let (y, q) =
      not_before w pre u x rest (&&-true (not (starts_with w (c ∷ (pre ++ u)))) _ h).1
        (tail_equal e) in
    (y, rw (head_equal e, q) refl)

-- the word stands once
pub record Once (c : ℕ) (v front rest : Text) : Type 0 where
  pub before : absent (c ∷ v) front (c ∷ (v ++ rest)) ≡ true
  pub behind : absent (c ∷ v) (v ++ rest) [] ≡ true

module _ (c : ℕ) (v front rest : Text) (once : Once c v front rest) where
  too_late : (y r : Text) → y ++ (c ∷ (v ++ r)) ≡ v ++ rest → ⊥
  too_late y r e =
      let (z, q) =
        not_before (c ∷ v) (v ++ rest) [] y r once.behind (e ∙ sym (append-nil (v ++ rest))) in
      absurd (
        longer (length (v ++ rest)) (length z) (length (v ++ r)) (
          sym (ap length e)
          ∙ length-append y (c ∷ (v ++ r))
          ∙ ap (λ (n : ℕ). n + suc (length (v ++ r))) (ap length q ∙ length-append (v ++ rest) z)))
    where
      longer : (a b n : ℕ) → a ≡ a + b + suc n → ⊥
      longer a b n e = omega arith

  at_front : (y r : Text) → y ++ (c ∷ (v ++ r)) ≡ c ∷ (v ++ rest) → v ++ r ≡ v ++ rest
  at_front [] r e = tail_equal e
  at_front (d ∷ y) r e = absurd (too_late y r (tail_equal e))

  -- the same text with the word in it, taken apart behind other texts
  same_word : (x r : Text) → x ++ (c ∷ (v ++ r)) ≡ front ++ (c ∷ (v ++ rest)) → v ++ r ≡ v ++ rest
  same_word x r e =
      let (y, q) = not_before (c ∷ v) front (c ∷ (v ++ rest)) x r once.before e in
      at_front y r (
        append_cancel front _ _ (
          sym (append_assoc front y (c ∷ (v ++ r)))
          ∙ ap (λ (t : Text). t ++ (c ∷ (v ++ r))) (sym q)
          ∙ e))

  Ignores-word :
      (d : ℕ) (r : Text)
      → rest ≡ d ∷ r
      → all is_plain (c ∷ v) ≡ true
      → all is_plain rest ≡ true
      → Ignores (from_word (c ∷ v)) front (c ∷ (v ++ rest))
  unfolding no_group
  Ignores-word d r e hw hr = record {
    free = rw (no_group-text (c ∷ v)) refl;
    simple = of_seq _ _ (Simple-text (c ∷ v)) (of_seq _ _ (of_set _) (of_star _));
    plain = all_join is_plain (c ∷ v) rest hw hr;
    leads = leads_word;
    plain_tail = plain_word;
    unique = unique_word;
  }
    where
      leads_word :
          (s : Cursor) (post : Text)
          → s.after ≡ (c ∷ (v ++ rest)) ++ b')' ∷ post
          → Reaches (from_word (c ∷ v)) s (b')' ∷ post)
      leads_word s post a =
          Reaches-seq (text (c ∷ v)) (plus outside) s (d ∷ (r ++ b')' ∷ post)) (b')' ∷ post)
            (Reaches-text (c ∷ v) s _ (
              a
              ∙ append_assoc (c ∷ v) rest (b')' ∷ post)
              ∙ ap (λ (t : Text). (c ∷ v) ++ (t ++ b')' ∷ post)) e))
            λ m q.
              Reaches-seq outside (star outside) m (r ++ b')' ∷ post) (b')' ∷ post)
                (Reaches-set is_plain d m _ rest_plain.0 q)
                λ n p. Reaches-star is_plain r n (b')' ∷ post) rest_plain.1 p
        where
          rest_plain : (is_plain d ≡ true) × (all is_plain r ≡ true)
          rest_plain = &&-true (is_plain d) (all is_plain r) (sym (ap (all is_plain) e) ∙ hr)

      plain_word : (tail : Text) → Ignored (from_word (c ∷ v)) tail → all is_plain tail ≡ true
      plain_word tail ig =
          let (white, q, h, g, own) = Ignored-word (c ∷ v) tail ig in
          rw own (
            all_join is_plain white (c ∷ (v ++ q)) (white_plain white h)
              (all_join is_plain (c ∷ v) q hw g))

      unique_word :
          (x tail : Text)
          → Ignored (from_word (c ∷ v)) tail
          → x ++ tail ≡ front ++ (c ∷ (v ++ rest))
          → (white : Text) × (all is_space white ≡ true) × (tail ≡ white ++ (c ∷ (v ++ rest)))
      unique_word x tail ig e =
          let (white, q, h, g, own) = Ignored-word (c ∷ v) tail ig in
          (
            white,
            h,
            own
                ∙ ap (λ (t : Text). white ++ c ∷ t)
                    (same_word (x ++ white) q (
                      append_assoc x white (c ∷ (v ++ q))
                      ∙ ap (λ (t : Text). x ++ t) (sym own)
                      ∙ e)),
          )

-- `append_value`, where a word and all behind it are to be ignored, on a text with the entry: its
-- name with the parenthesis stands nowhere before, and between its parentheses, where there are no
-- others, stand a body that does not end with white space, white space, the word, which stands
-- nowhere else in the entry, and some text. The separator and the value are put behind the body of
-- this first entry and before the word, in the place of a part of the white space, and all else
-- stays as it was.
pub append_value_before_word :
    (separator entry value pre body white : Text) (c : ℕ) (v : Text) (d : ℕ) (rest post : Text)
    → absent (entry ++ codes "(") pre (entry_text entry body white (c ∷ (v ++ d ∷ rest)) post)
      ≡ true
    → Once c v (body ++ white) (d ∷ rest)
    → all is_plain (c ∷ v) ≡ true
    → all is_plain (d ∷ rest) ≡ true
    → all is_plain body ≡ true
    → is_closed body ≡ true
    → all is_space white ≡ true
    → (kept : Text) × (out : Text) × (blank : Text) × (white ≡ kept ++ (out ++ blank))
      × (append_value separator entry value
            (from_word (c ∷ v))
            (pre ++ entry_text entry body white (c ∷ (v ++ d ∷ rest)) post)
          ≡ pre ++ with_value separator value entry body kept (blank ++ (c ∷ (v ++ d ∷ rest))) post)
append_value_before_word separator entry value pre body white c v d rest post first once hv hr hb hc
      hw =
    append_value_into entry (from_word (c ∷ v)) body white (c ∷ (v ++ d ∷ rest)) post
      (Ignores-word c v (body ++ white) (d ∷ rest) once d rest refl hv hr) hb hw separator value pre
      first hc
