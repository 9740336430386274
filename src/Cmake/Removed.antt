-- ===== src/Cmake/Removed.antt =====
-- What `remove_value` changes.
use hachoir.Prelude.{
  ℕ, true, some, List, [], ◌∷◌, ◌++◌, Text, codes, ◌≡◌, refl, sym, ◌∙◌, ap, all, inl, inr, ◌⊎◌,
  is_space, append_assoc,
}
use hachoir.Re.{Regex, star, lazy, bol, group, char, text, space, ◌⊳◌, Cursor, find_group}
use hachoir.Re.Steps.{Step}
use hachoir.Re.Spans.{Takes, Takes-refl, Takes-trans, Spans-Step, between-Spans}
use hachoir.Re.Taken.{Takes-text, Takes-char, Takes-Rounds, no_group, no_group-text, groups-Step}
use hachoir.Re.Replaced.{Replaces, Replaces-sub_once}
use hachoir.Cmake.{remove_value, back, outside}
use hachoir.Cmake.Appended.{is_plain}

-- the pattern leads over this text from some place
abbrev pub Matches : Regex → Text → Type 0
Matches r v = (c : Cursor) × (d : Cursor) × Step r c d × Takes v c d

-- The text has white space and an entry with a value in its body; the value, white space behind it,
-- and the white space before the entry are taken out.
abbrev pub Removes : Text → Regex → Text → Text → Type 0
Removes entry value t u =
    (before : Text) × (white : Text) × (front : Text) × (v : Text) × (gap : Text) × (rest : Text)
    × (behind : Text) × (all is_space white ≡ true)
    × (all is_space gap ≡ true)
    × (all is_plain rest ≡ true)
    × Matches value v
    × (t
        ≡ before ++ (white ++ ((entry ++ b'(' ∷ front) ++ (v ++ (gap ++ (rest ++ b')' ∷ behind))))))
    × (u ≡ before ++ ((entry ++ b'(' ∷ front) ++ (rest ++ b')' ∷ behind)))

abbrev pub opening : Text → Regex → Regex
opening entry to_ignore =
    text entry ⊳ char b'(' ⊳ star space ⊳ to_ignore ⊳ lazy outside ⊳ star space

abbrev pub closing : Regex
closing = star outside ⊳ char b')'

abbrev pub removal : Text → Regex → Regex → Regex
removal entry value to_ignore =
    bol ⊳ star space ⊳ group 1 (opening entry to_ignore) ⊳ value ⊳ star space ⊳ group 2 closing

-- a group takes what its pattern takes
grouped :
    (n : ℕ) (r : Regex) (s s' : Cursor)
    → Step (group n r) s s'
    → no_group r ≡ true
    → (m : Cursor) × Step r s m
      × (m.after ≡ s'.after)
      × ((t : Text) → Takes t s m → Takes t s s' × (s'.groups ≡ (n, t) ∷ s.groups))
grouped n r s s' (m, st, e) free = (
  m,
  st,
  sym (ap (λ (c : Cursor). c.after) e),
  λ t k. (
    (
      k.0 ∙ ap (λ (x : Text). t ++ x) (sym (ap (λ (c : Cursor). c.after) e)),
      ap (λ (c : Cursor). c.pos) e ∙ k.1,
    ),
    ap (λ (c : Cursor). c.groups) e
        ∙ rw (between-Spans s m (t, k.0, k.1), groups-Step r s m free st) refl,
  ),
)

Takes-opening :
    (entry : Text) (to_ignore : Regex) (s s' : Cursor)
    → Step (opening entry to_ignore) s s'
    → (front : Text) × Takes (entry ++ b'(' ∷ front) s s'
Takes-opening entry to_ignore s s' (m, st, (l, st', inner)) =
    let (front, a, p) =
      Spans-Step (star space ⊳ to_ignore ⊳ lazy outside ⊳ star space) l s' inner in
    (
      front,
      Takes-trans entry (b'(' ∷ front) s m s' (Takes-text entry s m st)
          (Takes-trans (b'(' ∷ []) front m l s' (Takes-char b'(' m l st') (a, p)),
    )

Takes-closing :
    (s s' : Cursor)
    → Step closing s s'
    → (rest : Text) × (all is_plain rest ≡ true) × Takes (rest ++ codes ")") s s'
Takes-closing s s' (m, (n, rs), st) =
    let (rest, t, h) = Takes-Rounds is_plain n s m rs in
    (rest, h, Takes-trans rest (codes ")") s m s' t (Takes-char b')' m s' st))

-- what the groups of a match are
pub parted :
    (entry : Text) (value to_ignore : Regex) (s s' : Cursor)
    → no_group value ≡ true
    → no_group to_ignore ≡ true
    → Step (removal entry value to_ignore) s s'
    → (white : Text) × (front : Text) × (v : Text) × (gap : Text) × (rest : Text) × (all is_space
          white
        ≡ true)
      × (all is_space gap ≡ true)
      × (all is_plain rest ≡ true)
      × Matches value v
      × Takes (white ++ ((entry ++ b'(' ∷ front) ++ (v ++ (gap ++ (rest ++ codes ")"))))) s s'
      × (find_group 1 s'.groups ≡ some (entry ++ b'(' ∷ front))
      × (find_group 2 s'.groups ≡ some (rest ++ codes ")"))
unfolding no_group
parted entry value to_ignore s s' fv fi
      (s0, start_, (a, (n, rs), (b, g1, (c, st, (d, (k, qs), g2))))) =
    let (white, tw, hw) = Takes-Rounds is_space n s0 a rs in
    let (gap, tg, hg) = Takes-Rounds is_space k c d qs in
    let (v, va, vp) = Spans-Step value b c st in
    let (m1, o, e1, w1) =
      grouped 1 (opening entry to_ignore) a b g1 (rw (no_group-text entry, fi) refl) in
    let (front, to) = Takes-opening entry to_ignore a m1 o in
    let (m2, cl, e2, w2) = grouped 2 closing d s' g2 refl in
    let (rest, hr, tc) = Takes-closing d m2 cl in
    let (t1, groups1) = w1 (entry ++ b'(' ∷ front) to in
    let (t2, groups2) = w2 (rest ++ codes ")") tc in
    let groups =
      groups2
      ∙ ap (λ (g : List (ℕ × Text)). (2, rest ++ codes ")") ∷ g)
          (groups-Step (star space) c d refl (k, qs) ∙ groups-Step value b c fv st ∙ groups1) in
    (
      white,
      front,
      v,
      gap,
      rest,
      hw,
      hg,
      hr,
      (b, c, st, (va, vp)),
      Takes-trans [] _ s s0 s' (Takes-refl s s0 start_.0) (
          Takes-trans white _ s0 a s' tw (
            Takes-trans (entry ++ b'(' ∷ front) _ a b s' t1
              (Takes-trans v _ b c s' (va, vp) (Takes-trans gap _ c d s' tg t2)))),
      ap (find_group 1) groups,
      ap (find_group 2) groups,
    )

removed_text :
    (before opened rest behind : Text)
    → (before ++ (opened ++ (rest ++ codes ")"))) ++ behind
      ≡ before ++ (opened ++ (rest ++ b')' ∷ behind))
removed_text before opened rest behind =
    append_assoc before _ behind
    ∙ ap (λ (t : Text). before ++ t)
        (append_assoc opened _ behind
          ∙ ap (λ (t : Text). opened ++ t) (append_assoc rest (codes ")") behind))

taken_text :
    (white opened v gap rest behind : Text)
    → (white ++ (opened ++ (v ++ (gap ++ (rest ++ codes ")"))))) ++ behind
      ≡ white ++ (opened ++ (v ++ (gap ++ (rest ++ b')' ∷ behind))))
taken_text white opened v gap rest behind =
    append_assoc white _ behind
    ∙ ap (λ (t : Text). white ++ t)
        (append_assoc opened _ behind
          ∙ ap (λ (t : Text). opened ++ t)
              (append_assoc v _ behind
                ∙ ap (λ (t : Text). v ++ t)
                    (append_assoc gap _ behind
                      ∙ ap (λ (t : Text). gap ++ t) (append_assoc rest (codes ")") behind))))

-- what a replacement by both groups takes out
pub Removes-Replaces :
    (entry : Text) (value to_ignore : Regex) (t u : Text)
    → no_group value ≡ true
    → no_group to_ignore ≡ true
    → Replaces (removal entry value to_ignore) (λ m. back 1 m ++ back 2 m) t u
    → Removes entry value t u
Removes-Replaces entry value to_ignore t u fv fi (m, before, e, st, g, q) =
    let (white, front, v, gap, rest, hw, hg, hr, found, k, g1, g2) =
      parted entry value to_ignore m.from m.to fv fi st in
    (
      before,
      white,
      front,
      v,
      gap,
      rest,
      m.to.after,
      hw,
      hg,
      hr,
      found,
      e
          ∙ ap (λ (x : Text). before ++ x)
              (k.0 ∙ taken_text white (entry ++ b'(' ∷ front) v gap rest m.to.after),
      q ∙ rw (g1, g2) (removed_text before (entry ++ b'(' ∷ front) rest m.to.after),
    )

-- `remove_value` leaves the text as it is, or changes one entry alone: what the pattern of the value
-- leads over is taken out of its body, with white space behind it, and so is white space right
-- before the entry; nothing else is lost. The patterns of the value and of the part to ignore have
-- no group.
pub remove_value-Removes :
    (entry : Text) (value to_ignore : Regex) (cfile : Text)
    → no_group value ≡ true
    → no_group to_ignore ≡ true
    → (remove_value entry value to_ignore cfile ≡ cfile)
      ⊎ Removes entry value cfile (remove_value entry value to_ignore cfile)
unfolding remove_value
remove_value-Removes entry value to_ignore cfile fv fi =
    elim (Replaces-sub_once (removal entry value to_ignore) (λ m. back 1 m ++ back 2 m) cfile) [
      | inl e ↦ inl e
      | inr r ↦ inr (Removes-Replaces entry value to_ignore cfile _ fv fi r)
    ]
