-- ===== src/Re/First.antt =====
-- Where a pattern leads on a text that is put together, and the first match of a search.
use hachoir.Prelude.{
  Option, inl, inr, ◌⊎◌, ℕ, zero, suc, ◌+◌, Bool, true, false, not, ◌&&◌, none, some, [], ◌∷◌, ◌++◌,
  Text, ◌≡◌, refl, arith, all, ◌==◌, &&-true, starts_with,
}
use hachoir.Re.{
  at_bol, Regex, set, seq, star, lazy, group, Cursor, Match, between, text, char, match_at,
  search_on, advance,
}
use hachoir.Re.Steps.{Rounds, Reads, Step}
use hachoir.Re.Spans.{Takes, Takes-refl, Takes-trans}
use hachoir.Re.Complete.{Simple, Succeeds, Succeeds-run}

-- the pattern leads from the place to one with this text behind it
abbrev pub Reaches : Regex → Cursor → Text → Type 0
Reaches r s rest = (s' : Cursor) × Step r s s' × (s'.after ≡ rest)

read : ℕ → Cursor → Text → Cursor
read c s rest = record { pos = s.pos + 1; before = c ∷ s.before; after = rest; groups = s.groups }

pub Reaches-set :
    (p : ℕ → Bool) (c : ℕ) (s : Cursor) (rest : Text)
    → p c ≡ true
    → s.after ≡ c ∷ rest
    → Reaches (set p) s rest
unfolding read
Reaches-set p c s rest h a = (read c s rest, (c, rest, a, h, refl), refl)

pub Reaches-char : (c : ℕ) (s : Cursor) (rest : Text) → s.after ≡ c ∷ rest → Reaches (char c) s rest
Reaches-char c s rest a = Reaches-set (λ x. x == c) c s rest (same c) a
  where
    same : (c : ℕ) → (c == c) ≡ true
    same c = ground arith

pub Reaches-seq :
    (a b : Regex) (s : Cursor) (mid rest : Text)
    → Reaches a s mid
    → ((m : Cursor) → m.after ≡ mid → Reaches b m rest)
    → Reaches (seq a b) s rest
Reaches-seq a b s mid rest (m, st, e) h = let (s', st', e') = h m e in (s', (m, st, st'), e')

pub Reaches-text :
    (w : Text) (s : Cursor) (rest : Text) → s.after ≡ w ++ rest → Reaches (text w) s rest
Reaches-text [] s rest a = (s, refl, a)
Reaches-text (c ∷ []) s rest a = Reaches-char c s rest a
Reaches-text (c ∷ (d ∷ w)) s rest a =
    Reaches-seq (char c) (text (d ∷ w)) s (d ∷ w ++ rest) rest (Reaches-char c s (d ∷ w ++ rest) a)
      (λ m e. Reaches-text (d ∷ w) m rest e)

pub Reaches-group :
    (n : ℕ) (r : Regex) (s : Cursor) (rest : Text) → Reaches r s rest → Reaches (group n r) s rest
Reaches-group n r s rest (m, st, e) =
    (record m { groups = (n, between s m) ∷ m.groups }, (m, st, refl), e)

Reaches-Rounds :
    (p : ℕ → Bool) (seg : Text) (s : Cursor) (rest : Text)
    → all p seg ≡ true
    → s.after ≡ seg ++ rest
    → (s' : Cursor) × ((n : ℕ) × Rounds (Reads p) n s s') × (s'.after ≡ rest)
Reaches-Rounds p [] s rest h a = (s, (zero, refl), a)
Reaches-Rounds p (c ∷ seg) s rest h a =
    let (hc, hs) = &&-true (p c) (all p seg) h in
    let (m, st, e) = Reaches-set p c s (seg ++ rest) hc a in
    let (s', (n, rs), e') = Reaches-Rounds p seg m rest hs e in (s', (suc n, (m, st, rs)), e')

pub Reaches-lazy :
    (p : ℕ → Bool) (seg : Text) (s : Cursor) (rest : Text)
    → all p seg ≡ true
    → s.after ≡ seg ++ rest
    → Reaches (lazy (set p)) s rest
Reaches-lazy p seg s rest h a = Reaches-Rounds p seg s rest h a

pub Reaches-star :
    (p : ℕ → Bool) (seg : Text) (s : Cursor) (rest : Text)
    → all p seg ≡ true
    → s.after ≡ seg ++ rest
    → Reaches (star (set p)) s rest
Reaches-star p seg s rest h a = Reaches-Rounds p seg s rest h a

pub match_at-Reaches :
    (r : Regex) (s : Cursor) (rest : Text) → Simple r → Reaches r s rest → Succeeds (match_at r s)
unfolding match_at
match_at-Reaches r s rest q (s', st, e) = Succeeds-run r s s' some q st (s', refl)

-- no place of the first text starts with the word, the second text behind it
unfoldable pub absent : Text → Text → Text → Bool
absent w [] u = true
absent w (c ∷ pre) u = not (starts_with w (c ∷ (pre ++ u))) && absent w pre u

-- what a search finds first
abbrev pub FindsAt : Regex → Text → Text → Cursor → Match → Type 0
FindsAt r pre u s m =
    Takes pre s m.from × (m.from.after ≡ u) × (m.from.groups ≡ []) × (match_at r m.from ≡ some m.to)

pub found_here :
    (r : Regex) (t : Text) (s e : Cursor)
    → match_at r s ≡ some e
    → search_on r t s ≡ some (record { from = s; to = e })
unfolding search_on
found_here r [] s e h = rw (search_on, h) refl
found_here r (c ∷ t) s e h = rw (search_on, h) refl

-- behind the text a line starts, if one starts before it or not
unfoldable pub ends_line : Bool → Text → Bool
ends_line b [] = b
ends_line b (c ∷ cs) = ends_line (c == b'\n') cs

option_cases : (o : Option Cursor) → (o ≡ none) ⊎ Succeeds o
option_cases none = inl refl
option_cases (some e) = inr (e, refl)

-- where a pattern matches at the start of a line, the search finds a match
pub search_on-finds :
    (r : Regex) (u : Text)
    → ((s : Cursor) → s.after ≡ u → at_bol s ≡ true → Succeeds (match_at r s))
    → (pre : Text) (s : Cursor) → s.after ≡ pre ++ u
    → ends_line (at_bol s) pre ≡ true
    → (m : Match) × (search_on r (pre ++ u) s ≡ some m)
unfolding search_on ends_line
search_on-finds r u accepts [] s a h =
    let (e, q) = accepts s a h in (record { from = s; to = e }, found_here r u s e q)
search_on-finds r u accepts (c ∷ pre) s a h = elim (option_cases (match_at r s)) [
  | inr (e, q) ↦ (record { from = s; to = e }, found_here r (c ∷ (pre ++ u)) s e q)
  | inl q ↦
      (let (m, found) = search_on-finds r u accepts pre (advance c s (pre ++ u)) refl h in
        (m, rw (search_on, q) found))
]

-- The pattern starts with a word that stands nowhere before, and leads on from behind that.
module _ (r : Regex) (w u : Text)
    (refuses : (s : Cursor) → starts_with w s.after ≡ false → match_at r s ≡ none)
    (accepts : (s : Cursor) → s.after ≡ u → Succeeds (match_at r s)) where
  pub search_on-first :
      (pre : Text) (s : Cursor)
      → s.after ≡ pre ++ u
      → s.groups ≡ []
      → absent w pre u ≡ true
      → (m : Match) × (search_on r (pre ++ u) s ≡ some m) × FindsAt r pre u s m
  unfolding search_on absent
  search_on-first [] s a g h =
      let (e, q) = accepts s a in
      (record { from = s; to = e }, found_here r u s e q, (Takes-refl s s refl, a, g, q))
  search_on-first (c ∷ pre) s a g h =
      let (here, later) = &&-true (not (starts_with w (c ∷ (pre ++ u)))) _ h in
      let (m, q, (t, b, gs, at)) = search_on-first pre (advance c s (pre ++ u)) refl refl later in
      (
        m,
        rw (search_on, refuses s (rw a (not_true _ here))) q,
        (Takes-trans (c ∷ []) pre s (advance c s (pre ++ u)) m.from (a, omega arith) t, b, gs, at),
      )
    where
      not_true : (x : Bool) → not x ≡ true → x ≡ false
      not_true true e = cc
      not_true false e = refl
