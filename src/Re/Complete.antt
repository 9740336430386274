-- ===== src/Re/Complete.antt =====
-- The matcher finds a match wherever there is one, for patterns whose repetitions are of one
-- character and that do not look around.
use hachoir.Prelude.{
  ℕ, zero, suc, ◌+◌, ◌≤◌, Bool, true, Option, none, some, [], ◌∷◌, Text, ◌≡◌, refl, sym, ap, arith,
  inl, inr, length, ltb,
}
use hachoir.Re.{
  Regex, nothing, set, seq, alt, star, lazy, group, bol, eol, boundary, Cursor, greedy, reluctant,
  run, between, beyond, text,
}
use hachoir.Re.Steps.{Rounds, Reads, Step}

pub data Simple : Regex → Type 0 where
  of_nothing : Simple nothing
  of_set : (p : ℕ → Bool) → Simple (set p)
  of_seq : (a b : Regex) → Simple a → Simple b → Simple (seq a b)
  of_alt : (a b : Regex) → Simple a → Simple b → Simple (alt a b)
  of_star : (p : ℕ → Bool) → Simple (star (set p))
  of_lazy : (p : ℕ → Bool) → Simple (lazy (set p))
  of_bol : Simple bol
  of_eol : Simple eol
  of_boundary : Simple boundary
  of_group : (n : ℕ) (r : Regex) → Simple r → Simple (group n r)

pub Simple-text : (w : Text) → Simple (text w)
Simple-text [] = of_nothing
Simple-text (c ∷ []) = of_set _
Simple-text (c ∷ (d ∷ w)) = of_seq _ _ (of_set _) (Simple-text (d ∷ w))

abbrev pub Succeeds : Option Cursor → Type 0
Succeeds o = (e : Cursor) × (o ≡ some e)

Succeeds-first :
    (o d : Option Cursor) → Succeeds o → Succeeds (elim o [ some r ↦ some r | none ↦ d ])
Succeeds-first none d (e, h) = cc
Succeeds-first (some r) d (e, h) = (r, refl)

Succeeds-second :
    (o d : Option Cursor) → Succeeds d → Succeeds (elim o [ some r ↦ some r | none ↦ d ])
Succeeds-second none d h = h
Succeeds-second (some r) d h = (r, refl)

Succeeds-set :
    (p : ℕ → Bool) (s s' : Cursor) (k : Cursor → Option Cursor)
    → Reads p s s'
    → Succeeds (k s')
    → Succeeds (run (set p) s k)
unfolding run
Succeeds-set p s s' k (c, cs, a, b, e) h = rw (a, b, sym e) h

beyond-Reads : (p : ℕ → Bool) (s s' : Cursor) → Reads p s s' → beyond s' s ≡ true
beyond-Reads p s s' (c, cs, a, b, e) = rw e (next s.pos)
  where
    next : (n : ℕ) → ltb n (n + 1) ≡ true
    next n = ground arith

-- one round takes one character
Rounds-bound : (p : ℕ → Bool) (j : ℕ) (s s' : Cursor) → Rounds (Reads p) j s s' → j ≤ length s.after
Rounds-bound p zero s s' e = omega arith
Rounds-bound p (suc j) s s' (m, (c, cs, a, b, e), rs) =
    let rest = Rounds-bound p j m s' rs in
    let left = ap (λ (x : Cursor). length x.after) e in rw a (omega (arith, rest, left))

module _ (p : ℕ → Bool) where
  Succeeds-greedy :
      (n j : ℕ) (s s' : Cursor) (k : Cursor → Option Cursor)
      → j ≤ n
      → Rounds (Reads p) j s s'
      → Succeeds (k s')
      → Succeeds (greedy (run (set p)) n s k)
  unfolding greedy
  Succeeds-greedy zero zero s s' k l e h = rw e h
  Succeeds-greedy zero (suc j) s s' k l e h = absurd (omega arith)
  Succeeds-greedy (suc n) zero s s' k l e h = Succeeds-second _ (k s) (rw e h)
  Succeeds-greedy (suc n) (suc j) s s' k l (m, st, rs) h = Succeeds-first _ (k s) (
      Succeeds-set p s m _ st
        (rw (beyond-Reads p s m st) (Succeeds-greedy n j m s' k (omega arith) rs h)))

  Succeeds-reluctant :
      (n j : ℕ) (s s' : Cursor) (k : Cursor → Option Cursor)
      → j ≤ n
      → Rounds (Reads p) j s s'
      → Succeeds (k s')
      → Succeeds (reluctant (run (set p)) n s k)
  unfolding reluctant
  Succeeds-reluctant zero zero s s' k l e h = rw e h
  Succeeds-reluctant zero (suc j) s s' k l e h = absurd (omega arith)
  Succeeds-reluctant (suc n) zero s s' k l e h = Succeeds-first (k s) _ (rw e h)
  Succeeds-reluctant (suc n) (suc j) s s' k l (m, st, rs) h = Succeeds-second (k s) _ (
      Succeeds-set p s m _ st
        (rw (beyond-Reads p s m st) (Succeeds-reluctant n j m s' k (omega arith) rs h)))

-- a path of the relation that the rest of the pattern can go on from is found
pub Succeeds-run :
    (r : Regex) (s s' : Cursor) (k : Cursor → Option Cursor)
    → Simple r
    → Step r s s'
    → Succeeds (k s')
    → Succeeds (run r s k)
unfolding run
Succeeds-run r s s' k of_nothing e h = rw e h
Succeeds-run r s s' k (of_set p) st h = Succeeds-set p s s' k st h
Succeeds-run r s s' k (of_seq a b qa qb) (m, st, st') h =
    Succeeds-run a s m (λ x. run b x k) qa st (Succeeds-run b m s' k qb st' h)
Succeeds-run r s s' k (of_alt a b qa qb) (inl st) h =
    Succeeds-first (run a s k) (run b s k) (Succeeds-run a s s' k qa st h)
Succeeds-run r s s' k (of_alt a b qa qb) (inr st) h =
    Succeeds-second (run a s k) (run b s k) (Succeeds-run b s s' k qb st h)
Succeeds-run r s s' k (of_star p) (n, rs) h =
    Succeeds-greedy p (length s.after) n s s' k (Rounds-bound p n s s' rs) rs h
Succeeds-run r s s' k (of_lazy p) (n, rs) h =
    Succeeds-reluctant p (length s.after) n s s' k (Rounds-bound p n s s' rs) rs h
Succeeds-run r s s' k of_bol (e, b) h = rw (b, e) h
Succeeds-run r s s' k of_eol (e, b) h = rw (b, e) h
Succeeds-run r s s' k of_boundary (e, b) h = rw (b, e) h
Succeeds-run r s s' k (of_group n q qr) (m, st, e) h =
    Succeeds-run q s m (λ x. k (record x { groups = (n, between s x) ∷ x.groups })) qr st
      (rw (sym e) h)
