-- ===== src/Re/Taken.antt =====
-- The text that literals and repeated classes take, and the groups that a match sets.
use hachoir.Prelude.{
  ℕ, zero, suc, Bool, true, false, ◌&&◌, [], ◌∷◌, Text, ◌≡◌, refl, sym, ◌∙◌, ap, arith, ◌==◌, all,
  inl, inr, &&-true,
}
use mathlib.Core.Path.{subst}
use hachoir.Re.{
  Regex, nothing, set, seq, alt, star, lazy, group, bol, eol, boundary, behind, not_ahead, Cursor,
  text, char,
}
use hachoir.Re.Steps.{Rounds, Step}
use hachoir.Re.Spans.{Takes, Takes-refl, Takes-trans, Takes-Reads}

-- a literal takes itself
pub Takes-char : (c : ℕ) (s s' : Cursor) → Step (char c) s s' → Takes (c ∷ []) s s'
Takes-char c s s' h =
    let (d, b, t) = Takes-Reads (λ x. x == c) s s' h in
    subst (λ (x : ℕ). Takes (x ∷ []) s s') (equal d b) t
  where
    equal : (d : ℕ) → (d == c) ≡ true → d ≡ c
    equal d b = ground arith

pub Takes-text : (w : Text) (s s' : Cursor) → Step (text w) s s' → Takes w s s'
Takes-text [] s s' e = Takes-refl s s' e
Takes-text (c ∷ []) s s' e = Takes-char c s s' e
Takes-text (c ∷ (d ∷ w)) s s' (m, st, st') =
    Takes-trans (c ∷ []) (d ∷ w) s m s' (Takes-char c s m st) (Takes-text (d ∷ w) m s' st')

-- a repeated class takes characters of the class
pub Takes-Rounds :
    (p : ℕ → Bool) (n : ℕ) (s s' : Cursor)
    → Rounds (Step (set p)) n s s'
    → (seg : Text) × Takes seg s s' × (all p seg ≡ true)
Takes-Rounds p zero s s' e = ([], Takes-refl s s' e, refl)
Takes-Rounds p (suc n) s s' (m, st, rs) =
    let (c, b, t) = Takes-Reads p s m st in
    let (seg, u, h) = Takes-Rounds p n m s' rs in
    (c ∷ seg, Takes-trans (c ∷ []) seg s m s' t u, rw (b, h) refl)

-- a pattern without groups
unfoldable pub no_group : Regex → Bool
no_group (seq a b) = no_group a && no_group b
no_group (alt a b) = no_group a && no_group b
no_group (star r) = no_group r
no_group (lazy r) = no_group r
no_group (group n r) = false
no_group _ = true

pub no_group-text : (w : Text) → no_group (text w) ≡ true
unfolding no_group
no_group-text [] = refl
no_group-text (c ∷ []) = refl
no_group-text (c ∷ (d ∷ w)) = no_group-text (d ∷ w)

Kept : Cursor → Cursor → Type 0
Kept s s' = s'.groups ≡ s.groups

groups-Rounds :
    (r : Regex)
    → ((s s' : Cursor) → Step r s s' → Kept s s')
    → (n : ℕ) (s s' : Cursor) → Rounds (Step r) n s s'
    → Kept s s'
unfolding Kept
groups-Rounds r h zero s s' e = sym (ap (λ (x : Cursor). x.groups) e)
groups-Rounds r h (suc n) s s' (m, st, rs) = groups-Rounds r h n m s' rs ∙ h s m st

-- it leaves the groups as they were
pub groups-Step :
    (r : Regex) (s s' : Cursor) → no_group r ≡ true → Step r s s' → s'.groups ≡ s.groups
unfolding no_group Kept
groups-Step nothing s s' h e = sym (ap (λ (x : Cursor). x.groups) e)
groups-Step (set p) s s' h (c, cs, a, b, e) = ap (λ (x : Cursor). x.groups) e
groups-Step (seq a b) s s' h (m, st, st') =
    let (ha, hb) = &&-true (no_group a) _ h in groups-Step b m s' hb st' ∙ groups-Step a s m ha st
groups-Step (alt a b) s s' h (inl st) = groups-Step a s s' (&&-true (no_group a) _ h).0 st
groups-Step (alt a b) s s' h (inr st) = groups-Step b s s' (&&-true (no_group a) _ h).1 st
groups-Step (star r) s s' h (n, rs) = groups-Rounds r (λ u v. groups-Step r u v h) n s s' rs
groups-Step (lazy r) s s' h (n, rs) = groups-Rounds r (λ u v. groups-Step r u v h) n s s' rs
groups-Step (group n r) s s' h st = cc
groups-Step bol s s' h (e, _) = sym (ap (λ (x : Cursor). x.groups) e)
groups-Step eol s s' h (e, _) = sym (ap (λ (x : Cursor). x.groups) e)
groups-Step boundary s s' h (e, _) = sym (ap (λ (x : Cursor). x.groups) e)
groups-Step (behind t) s s' h e = sym (ap (λ (x : Cursor). x.groups) e)
groups-Step (not_ahead r) s s' h e = sym (ap (λ (x : Cursor). x.groups) e)
