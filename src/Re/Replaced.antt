-- ===== src/Re/Replaced.antt =====
-- What `sub` with a limit of one makes of a text.
use hachoir.Prelude.{
  ◌∙◌, ltb, true, ℕ, suc, Option, none, some, [], ◌∷◌, ◌++◌, Text, ◌≡◌, refl, arith, if◌then◌else◌,
  Bool-cases, inl, inr, ◌⊎◌,
}
use mathlib.Core.Path.{subst}
use hachoir.Re.{
  Regex, Cursor, Match, match_at, between, beyond, search_on, search_from, substitute, sub_once,
  start, advance,
}
use hachoir.Re.Steps.{Step, Sound-run}
use hachoir.Re.Spans.{Spans, Spans-trans, between-Spans}

-- a place where the pattern matches, some way behind another
abbrev Finds : Regex → Cursor → Match → Type 0
Finds r s m = Spans s m.from × Step r m.from m.to × (m.from.groups ≡ [])

pub match_at-Step : (r : Regex) (s e : Cursor) → match_at r s ≡ some e → Step r s e
unfolding match_at
match_at-Step r s e h =
    let (s', st, f) = Sound-run r s some e h in
    subst (λ (x : Cursor). Step r s x) (injective s' f) st
  where
    injective : (s' : Cursor) → some s' ≡ some e → s' ≡ e
    injective s' f = cc

-- a match at the place, or what is found behind it
here_or :
    (s : Cursor) (o : Option Cursor) (d : Option Match) (m : Match)
    → elim o [ some s' ↦ some (record { from = s; to = s' }) | none ↦ d ] ≡ some m
    → ((s' : Cursor) × (o ≡ some s') × (record { from = s; to = s' } ≡ m)) ⊎ (d ≡ some m)
here_or s none d m h = inr h
here_or s (some s') d m h = inl (s', refl, injective h)
  where
    injective : {x : Match} → some x ≡ some m → x ≡ m
    injective q = cc

Finds-here :
    (r : Regex) (s s' : Cursor) (m : Match)
    → s.groups ≡ []
    → match_at r s ≡ some s'
    → record { from = s; to = s' } ≡ m
    → Finds r s m
Finds-here r s s' m g e q = subst (Finds r s) q (([], refl, omega arith), match_at-Step r s s' e, g)

search-Finds :
    (r : Regex) (t : Text) (s : Cursor) (m : Match)
    → s.after ≡ t
    → s.groups ≡ []
    → search_on r t s ≡ some m
    → Finds r s m
unfolding search_on
search-Finds r [] s m a g h = elim (here_or s (match_at r s) none m h) [
  | inl d ↦ (let (s', e, q) = d in Finds-here r s s' m g e q)
  | inr d ↦ absurd (nothing_found d)
]
  where
    nothing_found : none ≡ some m → ⊥
    nothing_found d = cc
search-Finds r (c ∷ cs) s m a g h =
    elim (here_or s (match_at r s) (search_on r cs (advance c s cs)) m h) [
      | inl d ↦ (let (s', e, q) = d in Finds-here r s s' m g e q)
      | inr d ↦
          (let (sp, st, gs) = search-Finds r cs (advance c s cs) m refl refl d in
            (Spans-trans s (advance c s cs) m.from (c ∷ [], a, omega arith) sp, st, gs))
    ]

-- The text is as it was, or it is put together of what stands before a match, what the function
-- makes of the match, and what stands behind it.
abbrev pub Replaces : Regex → (Match → Text) → Text → Text → Type 0
Replaces r f t u =
    (m : Match) × (pre : Text) × (t ≡ pre ++ m.from.after)
    × Step r m.from m.to
    × (m.from.groups ≡ [])
    × (u ≡ pre ++ f m ++ m.to.after)

search_cases : (o : Option Match) → (o ≡ none) ⊎ ((m : Match) × (o ≡ some m))
search_cases none = inl refl
search_cases (some m) = inr (m, refl)

-- what is made of the outcome of the search
abbrev pub outcome : (Match → Text) → Cursor → Option Match → Text
outcome f s o = elim o [
  | none ↦ s.after
  | some m ↦ if beyond m.to s then between s m.from ++ f m ++ m.to.after else s.after
]

pub sub_once-outcome :
    (r : Regex) (f : Match → Text) (t : Text)
    → sub_once r f t ≡ outcome f (start t) (search_on r t (start t))
unfolding sub_once substitute search_from
sub_once-outcome r f t = by_outcome (search_on r t (start t))
  where
    by_outcome :
        (o : Option Match)
        → (elim o as (λ x. Text × ℕ) [
          | none ↦ (t, 0)
          | some m ↦
              if beyond m.to (start t)
              then (let (out, n) = substitute 0 r f (record m.to { groups = [] }) in
                  (between (start t) m.from ++ f m ++ out, suc n))
              else (t, 0)
        ]).0
          ≡ outcome f (start t) o
    by_outcome none = refl
    by_outcome (some m) = elim (Bool-cases (beyond m.to (start t))) [
      | inl e ↦ rw e refl
      | inr e ↦ rw e refl
    ]

Replaces-outcome :
    (r : Regex) (f : Match → Text) (t : Text) (m : Match)
    → Finds r (start t) m
    → (outcome f (start t) (some m) ≡ t) ⊎ Replaces r f t (outcome f (start t) (some m))
Replaces-outcome r f t m (sp, st, g) = elim (Bool-cases (beyond m.to (start t))) [
  | inr e ↦ inl (rw e refl)
  | inl e ↦ inr (m, sp.0, sp.1, st, g, rw (e, between-Spans (start t) m.from sp) refl)
]

-- A replacement with a limit of one changes one match, and nothing around it.
pub Replaces-sub_once :
    (r : Regex) (f : Match → Text) (t : Text)
    → (sub_once r f t ≡ t) ⊎ Replaces r f t (sub_once r f t)
Replaces-sub_once r f t =
    rw (sub_once-outcome r f t) (elim (search_cases (search_on r t (start t))) [
      | inl e ↦ inl (rw e refl)
      | inr (m, e) ↦ rw e (Replaces-outcome r f t m (search-Finds r t (start t) m refl refl e))
    ])

-- where something that is not empty is found, it is replaced
pub Replaces-found :
    (r : Regex) (f : Match → Text) (t : Text) (m : Match)
    → search_on r t (start t) ≡ some m
    → ((s s' : Cursor) → Step r s s' → ltb s.pos s'.pos ≡ true)
    → Replaces r f t (sub_once r f t)
Replaces-found r f t m e advances =
    let (sp, st, g) = search-Finds r t (start t) m refl refl e in
    (
      m,
      sp.0,
      sp.1,
      st,
      g,
      sub_once-outcome r f t
          ∙ rw
              (
                e,
                moved m.from.pos m.to.pos (advances m.from m.to st),
                between-Spans (start t) m.from sp,
              )
              refl,
    )
  where
    moved : (a b : ℕ) → ltb a b ≡ true → ltb 0 b ≡ true
    moved a b h = ground arith
