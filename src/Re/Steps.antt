-- ===== src/Re/Steps.antt =====
-- Which places a pattern leads to, as a relation, and that the matcher stays within it.
use hachoir.Prelude.{
  ℕ, zero, suc, ◌+◌, Bool, true, false, Option, none, some, [], ◌∷◌, Text, ◌≡◌, refl, if◌then◌else◌,
  inl, inr, ◌⊎◌, length,
}
use hachoir.Re.{
  Regex, nothing, set, seq, alt, star, lazy, group, bol, eol, boundary, behind, not_ahead, Cursor,
  Matcher, greedy, reluctant, run, between, beyond, char_in, at_bol, at_eol, at_boundary,
}

-- a number of rounds
abbrev pub Rounds : (Cursor → Cursor → Type 0) → ℕ → Cursor → Cursor → Type 0
Rounds step zero s s' = s ≡ s'
Rounds step (suc n) s s' = (m : Cursor) × step s m × Rounds step n m s'

abbrev pub Reads : (ℕ → Bool) → Cursor → Cursor → Type 0
Reads p s s' =
    (c : ℕ) × (cs : Text) × (s.after ≡ c ∷ cs)
    × (p c ≡ true)
    × (s' ≡ record { pos = s.pos + 1; before = c ∷ s.before; after = cs; groups = s.groups })

-- the pattern leads from one place to the other; what the look-arounds ask for is left out
abbrev pub Step : Regex → Cursor → Cursor → Type 0
Step nothing s s' = s ≡ s'
Step (set p) s s' = Reads p s s'
Step (seq a b) s s' = (m : Cursor) × Step a s m × Step b m s'
Step (alt a b) s s' = Step a s s' ⊎ Step b s s'
Step (star r) s s' = (n : ℕ) × Rounds (Step r) n s s'
Step (lazy r) s s' = (n : ℕ) × Rounds (Step r) n s s'
Step (group n r) s s' =
    (m : Cursor) × Step r s m × (s' ≡ record m { groups = (n, between s m) ∷ m.groups })
Step bol s s' = (s ≡ s') × (at_bol s ≡ true)
Step eol s s' = (s ≡ s') × (at_eol s ≡ true)
Step boundary s s' = (s ≡ s') × (at_boundary s ≡ true)
Step (behind t) s s' = s ≡ s'
Step (not_ahead r) s s' = s ≡ s'

-- a matcher hands on only places that the relation leads to
abbrev pub Sound : (Cursor → Cursor → Type 0) → Matcher → Type 0
Sound step m =
    (s : Cursor) (k : Cursor → Option Cursor) (e : Cursor)
    → m s k ≡ some e
    → (s' : Cursor) × step s s' × (k s' ≡ some e)

if_some :
    (b : Bool) (o : Option Cursor) (e : Cursor) → (if b then o else none) ≡ some e → o ≡ some e
if_some true o e h = h
if_some false o e h = cc

if_true : (b : Bool) (o : Option Cursor) (e : Cursor) → (if b then o else none) ≡ some e → b ≡ true
if_true true o e h = refl
if_true false o e h = cc

-- the second where the first is none
abbrev first_or : Option Cursor → Option Cursor → Option Cursor
first_or o d = elim o [ some r ↦ some r | none ↦ d ]

first_or_lem :
    (o d : Option Cursor) (e : Cursor) → first_or o d ≡ some e → (o ≡ some e) ⊎ (d ≡ some e)
first_or_lem none d e h = inr h
first_or_lem (some r) d e h = inl h

Sound-set : (p : ℕ → Bool) → Sound (Reads p) (run (set p))
unfolding run
Sound-set p s k e h = by_after s.after refl h
  where
    by_after :
        (t : Text)
        → s.after ≡ t
        → char_in p s t k ≡ some e
        → (s' : Cursor) × Reads p s s' × (k s' ≡ some e)
    by_after [] q h = cc
    by_after (c ∷ cs) q h = (_, (c, cs, q, if_true (p c) _ e h, refl), if_some (p c) _ e h)

module _ (step : Cursor → Cursor → Type 0) (round : Matcher) (sound : Sound step round) where
  Many : Cursor → Cursor → Type 0
  Many s s' = (n : ℕ) × Rounds step n s s'

  more : (s m s' : Cursor) → step s m → Many m s' → Many s s'
  unfolding Many
  more s m s' h (n, hs) = (suc n, (m, h, hs))

  Sound-greedy : (n : ℕ) → Sound Many (greedy round n)
  unfolding Many greedy
  Sound-greedy zero s k e h = (s, (zero, refl), h)
  Sound-greedy (suc n) s k e h =
      elim (first_or_lem (round s (λ s'. if beyond s' s then greedy round n s' k else none)) (k s) e
        h) [
          | inr d ↦ (s, (zero, refl), d)
          | inl d ↦
              (let (m, st, f) =
                  sound s (λ s'. if beyond s' s then greedy round n s' k else none) e d in
                let (s', many, g) =
                  Sound-greedy n m k e (if_some (beyond m s) (greedy round n m k) e f) in
                (s', more s m s' st many, g))
        ]

  Sound-reluctant : (n : ℕ) → Sound Many (reluctant round n)
  unfolding Many reluctant
  Sound-reluctant zero s k e h = (s, (zero, refl), h)
  Sound-reluctant (suc n) s k e h =
      elim (first_or_lem (k s)
        (round s (λ s'. if beyond s' s then reluctant round n s' k else none)) e h) [
          | inl d ↦ (s, (zero, refl), d)
          | inr d ↦
              (let (m, st, f) =
                  sound s (λ s'. if beyond s' s then reluctant round n s' k else none) e d in
                let (s', many, g) =
                  Sound-reluctant n m k e (if_some (beyond m s) (reluctant round n m k) e f) in
                (s', more s m s' st many, g))
        ]

blocked :
    (o d : Option Cursor) (e : Cursor) → elim o [ some r ↦ none | none ↦ d ] ≡ some e → d ≡ some e
blocked none d e h = h
blocked (some r) d e h = cc

-- every match of the matcher is a path of the relation
pub Sound-run : (r : Regex) → Sound (Step r) (run r)
unfolding run Many
Sound-run nothing s k e h = (s, refl, h)
Sound-run (set p) s k e h = Sound-set p s k e h
Sound-run (seq a b) s k e h =
    let (m, st, f) = Sound-run a s (λ m. run b m k) e h in
    let (s', st', g) = Sound-run b m k e f in (s', (m, st, st'), g)
Sound-run (alt a b) s k e h = elim (first_or_lem (run a s k) (run b s k) e h) [
  | inl d ↦ (let (s', st, g) = Sound-run a s k e d in (s', inl st, g))
  | inr d ↦ (let (s', st, g) = Sound-run b s k e d in (s', inr st, g))
]
Sound-run (star r) s k e h = Sound-greedy (Step r) (run r) (Sound-run r) (length s.after) s k e h
Sound-run (lazy r) s k e h = Sound-reluctant (Step r) (run r) (Sound-run r) (length s.after) s k e h
Sound-run (group n r) s k e h =
    let (m, st, f) =
      Sound-run r s (λ m. k (record m { groups = (n, between s m) ∷ m.groups })) e h in
    (record m { groups = (n, between s m) ∷ m.groups }, (m, st, refl), f)
Sound-run bol s k e h = (s, (refl, if_true _ (k s) e h), if_some _ (k s) e h)
Sound-run eol s k e h = (s, (refl, if_true _ (k s) e h), if_some _ (k s) e h)
Sound-run boundary s k e h = (s, (refl, if_true _ (k s) e h), if_some _ (k s) e h)
Sound-run (behind t) s k e h = (s, refl, if_some _ (k s) e h)
Sound-run (not_ahead r) s k e h = (s, refl, blocked (run r s some) (k s) e h)
