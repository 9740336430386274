-- ===== src/Cmake/Values.antt =====
-- `append_value` where nothing is to be ignored, as for the sources of a library.
use hachoir.Prelude.{
  true, [], ◌∷◌, ◌++◌, Text, codes, ◌≡◌, refl, sym, ◌∙◌, ap, inl, inr, all, is_space, append-nil,
}
use mathlib.Core.Path.{subst}
use hachoir.Re.{nothing, Cursor, space, optional}
use hachoir.Re.Steps.{Step}
use hachoir.Re.Spans.{Takes, Takes-Reads, Takes-refl, between-Spans}
use hachoir.Re.Taken.{no_group}
use hachoir.Re.Complete.{of_nothing}
use hachoir.Re.First.{absent}
use hachoir.Cmake.{append_value}
use hachoir.Cmake.Appended.{is_plain, Ignored}
use hachoir.Cmake.Bodies.{is_closed, white_plain}
use hachoir.Cmake.Entry.{entry_text, with_value, Ignores}
use hachoir.Cmake.Inserted.{append_value_into}

pub Takes-unique : (t u : Text) (s s' : Cursor) → Takes t s s' → Takes u s s' → t ≡ u
Takes-unique t u s s' (a, p) (b, q) =
    sym (between-Spans s s' (t, a, p)) ∙ between-Spans s s' (u, b, q)

-- one white space at most
pub optional_white :
    (s s' : Cursor)
    → Step (optional space) s s'
    → (white : Text) × (all is_space white ≡ true) × Takes white s s'
optional_white s s' (inl st) =
    let (x, b, u) = Takes-Reads is_space s s' st in (x ∷ [], rw b refl, u)
optional_white s s' (inr q) = ([], refl, Takes-refl s s' q)

Ignored-nothing : (tail : Text) → Ignored nothing tail → all is_space tail ≡ true
Ignored-nothing tail (c, d, (m, st, e), t) =
    let (white, h, u) = optional_white c m st in
    ap (all is_space) (Takes-unique tail white c d t (subst (λ (y : Cursor). Takes white c y) e u))
    ∙ h

Ignores-nothing : (front : Text) → Ignores nothing front []
unfolding no_group
Ignores-nothing front = record {
  free = refl;
  simple = of_nothing;
  plain = refl;
  leads = λ s rest e. (s, refl, e);
  plain_tail = λ tail ig. white_plain tail (Ignored-nothing tail ig);
  unique = λ x tail ig e. (tail, Ignored-nothing tail ig, sym (append-nil tail));
}

-- `append_value`, where nothing is to be ignored, on a text with the entry: its name with the
-- parenthesis stands nowhere before, its body has no parenthesis and does not end with white space,
-- and white space may stand behind the body. The separator and the value are put behind the body of
-- this first entry, in the place of a part of that white space, and all else stays as it was.
pub append_value_inserts :
    (separator entry value pre body white post : Text)
    → absent (entry ++ codes "(") pre (entry_text entry body white [] post) ≡ true
    → all is_plain body ≡ true
    → is_closed body ≡ true
    → all is_space white ≡ true
    → (kept : Text) × (out : Text) × (blank : Text) × (white ≡ kept ++ (out ++ blank))
      × (append_value separator entry value nothing (pre ++ entry_text entry body white [] post)
          ≡ pre ++ with_value separator value entry body kept (blank ++ []) post)
append_value_inserts separator entry value pre body white post first hb hc hw =
    append_value_into entry nothing body white [] post (Ignores-nothing (body ++ white)) hb hw
      separator value pre first hc
