-- ===== src/Cmake/Appended.antt =====
-- What `append_value` changes.
use hachoir.Prelude.{
  ℕ, Bool, true, not, some, [], ◌∷◌, ◌++◌, Text, codes, ◌≡◌, refl, sym, ◌∙◌, ap, all, inl, inr, ◌⊎◌,
  is_space, append_assoc,
}
use hachoir.Re.{Regex, lazy, group, char, text, space, optional, ◌⊳◌, Cursor, find_group, member}
use hachoir.Re.Steps.{Step}
use hachoir.Re.Spans.{Takes, Takes-trans, Spans-Step, between-Spans}
use hachoir.Re.Taken.{Takes-text, Takes-char, Takes-Rounds, no_group, groups-Step}
use hachoir.Re.Replaced.{Replaces-sub_once}
use hachoir.Cmake.{append_value, back, outside}

-- no parenthesis
abbrev pub is_plain : ℕ → Bool
is_plain c = not (member c (codes "()"))

-- The text has an entry with an open body, white space, and a tail before its closing parenthesis;
-- the white space is replaced by the separator and the value.
abbrev pub Appends : Text → Text → Text → Text → Text → Type 0
Appends separator entry value t u =
    (before : Text) × (body : Text) × (white : Text) × (tail : Text) × (behind : Text) × (all
        is_plain body
      ≡ true)
    × (all is_space white ≡ true)
    × (t ≡ before ++ ((entry ++ b'(' ∷ body) ++ (white ++ (tail ++ b')' ∷ behind))))
    × (u ≡ before ++ ((entry ++ b'(' ∷ body) ++ (separator ++ (value ++ (tail ++ b')' ∷ behind)))))

abbrev pub opened : Text → Regex
opened entry = text entry ⊳ char b'(' ⊳ lazy outside

abbrev pub pattern_of : Text → Regex → Regex
pattern_of entry to_ignore =
    group 1 (opened entry) ⊳ lazy space ⊳ group 2 (optional space ⊳ to_ignore) ⊳ char b')'

-- the part before the value is the name, a parenthesis and the body
Takes-opened :
    (entry : Text) (s s' : Cursor)
    → Step (opened entry) s s'
    → (body : Text) × (all is_plain body ≡ true) × Takes (entry ++ b'(' ∷ body) s s'
Takes-opened entry s s' (m, st, (m', st', (n, rs))) =
    let (body, t, h) = Takes-Rounds is_plain n m' s' rs in
    (
      body,
      h,
      Takes-trans entry (b'(' ∷ body) s m s' (Takes-text entry s m st)
          (Takes-trans (b'(' ∷ []) body m m' s' (Takes-char b'(' m m' st') t),
    )

-- what the second group took
abbrev pub Ignored : Regex → Text → Type 0
Ignored to_ignore tail =
    (c : Cursor) × (d : Cursor) × Step (optional space ⊳ to_ignore) c d × Takes tail c d

-- what the groups of a match are, where the ignored part sets none
pub parts :
    (entry : Text) (to_ignore : Regex) (s s' : Cursor)
    → no_group to_ignore ≡ true
    → Step (pattern_of entry to_ignore) s s'
    → (body : Text) × (white : Text) × (tail : Text) × (all is_plain body ≡ true)
      × (all is_space white ≡ true)
      × (s.after ≡ (entry ++ b'(' ∷ body) ++ (white ++ (tail ++ b')' ∷ s'.after)))
      × (find_group 1 s'.groups ≡ some (entry ++ b'(' ∷ body))
      × (find_group 2 s'.groups ≡ some tail)
      × Ignored to_ignore tail
unfolding no_group
parts entry to_ignore s s' free (c1, (a, st, e1), (c2, (n, rs), (c3, (d, st', e3), st3))) =
    let (body, hb, ta) = Takes-opened entry s a st in
    let (white, tw, hw) = Takes-Rounds is_space n c1 c2 rs in
    let (tail, q, w) = Spans-Step (optional space ⊳ to_ignore) c2 d st' in
    let close = Takes-char b')' c3 s' st3 in
    let groups : s'.groups ≡ (2, tail) ∷ ((1, entry ++ b'(' ∷ body) ∷ a.groups) =
      groups-Step (char b')') c3 s' refl st3
      ∙ ap (λ (c : Cursor). c.groups) e3
      ∙ rw
          (
            between-Spans c2 d (tail, q, w),
            groups-Step (optional space ⊳ to_ignore) c2 d free st',
            groups-Step (lazy space) c1 c2 refl (n, rs),
          )
          (ap (λ (c : Cursor). (2, tail) ∷ c.groups) e1
            ∙ rw (between-Spans s a (entry ++ b'(' ∷ body, ta.0, ta.1)) refl) in
    let after_white : c2.after ≡ tail ++ b')' ∷ s'.after =
      q ∙ ap (λ (t : Text). tail ++ t) (sym (ap (λ (c : Cursor). c.after) e3) ∙ close.0) in
    let after_open : a.after ≡ white ++ (tail ++ b')' ∷ s'.after) =
      sym (ap (λ (c : Cursor). c.after) e1) ∙ tw.0 ∙ ap (λ (t : Text). white ++ t) after_white in
    (
      body,
      white,
      tail,
      hb,
      hw,
      ta.0 ∙ ap (λ (t : Text). (entry ++ b'(' ∷ body) ++ t) after_open,
      rw groups refl,
      rw groups refl,
      (c2, d, st', (q, w)),
    )

pub regroup :
    (before entry separator value tail behind : Text)
    → (before ++ (entry ++ (separator ++ (value ++ (tail ++ codes ")"))))) ++ behind
      ≡ before ++ (entry ++ (separator ++ (value ++ (tail ++ b')' ∷ behind))))
regroup before entry separator value tail behind =
    append_assoc before _ behind
    ∙ ap (λ (t : Text). before ++ t)
        (append_assoc entry _ behind
          ∙ ap (λ (t : Text). entry ++ t)
              (append_assoc separator _ behind
                ∙ ap (λ (t : Text). separator ++ t)
                    (append_assoc value _ behind
                      ∙ ap (λ (t : Text). value ++ t) (append_assoc tail (codes ")") behind))))

-- `append_value` leaves the text as it is, or changes one entry alone: the separator and the value
-- stand behind its body, in the place of white space, and nothing else is lost; where the part to
-- ignore has no group.
pub append_value-Appends :
    (separator entry value : Text) (to_ignore : Regex) (cfile : Text)
    → no_group to_ignore ≡ true
    → (append_value separator entry value to_ignore cfile ≡ cfile)
      ⊎ Appends separator entry value cfile (append_value separator entry value to_ignore cfile)
unfolding append_value
append_value-Appends separator entry value to_ignore cfile free =
    elim (Replaces-sub_once (pattern_of entry to_ignore)
      (λ m. back 1 m ++ (separator ++ (value ++ (back 2 m ++ codes ")")))) cfile) [
        | inl e ↦ inl e
        | inr (m, before, e, st, g, u) ↦
            (let (body, white, tail, hb, hw, a, g1, g2, ignored) =
                parts entry to_ignore m.from m.to free st in
              inr (
                before,
                body,
                white,
                tail,
                m.to.after,
                hb,
                hw,
                e ∙ ap (λ (t : Text). before ++ t) a,
                u
                    ∙ rw (g1, g2)
                        (regroup before (entry ++ b'(' ∷ body) separator value tail m.to.after),
              ))
      ]
