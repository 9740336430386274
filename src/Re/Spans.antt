-- ===== src/Re/Spans.antt =====
-- What a match and a replacement leave of the text around it.
use hachoir.Prelude.{
  ℕ, zero, suc, ◌+◌, ◌-◌, Bool, true, [], ◌∷◌, ◌++◌, Text, ◌≡◌, refl, sym, ◌∙◌, ap, arith, inl, inr,
  length, length-append, append_assoc,
}
use hachoir.Re.{
  Regex, nothing, set, seq, alt, star, lazy, group, bol, eol, boundary, behind, not_ahead, Cursor,
  between, take,
}
use hachoir.Re.Steps.{Rounds, Reads, Step}

-- one place lies behind the other, with this text between them
abbrev pub Takes : Text → Cursor → Cursor → Type 0
Takes seg s s' = (s.after ≡ seg ++ s'.after) × (s'.pos ≡ s.pos + length seg)

pub Takes-refl : (s s' : Cursor) → s ≡ s' → Takes [] s s'
Takes-refl s s' e =
    (ap (λ (c : Cursor). c.after) e, sym (ap (λ (c : Cursor). c.pos) e) ∙ omega arith)

pub Takes-trans : (u v : Text) (s m s' : Cursor) → Takes u s m → Takes v m s' → Takes (u ++ v) s s'
Takes-trans u v s m s' (a, p) (b, q) = (
  a ∙ ap (λ (t : Text). u ++ t) b ∙ sym (append_assoc u v s'.after),
  omega (arith, p, q, length-append u v),
)

pub Takes-Reads :
    (p : ℕ → Bool) (s s' : Cursor) → Reads p s s' → (c : ℕ) × (p c ≡ true) × Takes (c ∷ []) s s'
Takes-Reads p s s' (c, cs, a, b, e) = (
  c,
  b,
  (
    a ∙ ap (λ (t : Text). c ∷ t) (sym (ap (λ (x : Cursor). x.after) e)),
    ap (λ (x : Cursor). x.pos) e ∙ omega arith,
  ),
)

-- with some text between them
abbrev pub Spans : Cursor → Cursor → Type 0
Spans s s' = (seg : Text) × (s.after ≡ seg ++ s'.after) × (s'.pos ≡ s.pos + length seg)

abbrev pub spanned : (seg : Text) (s s' : Cursor) → Takes seg s s' → Spans s s'
spanned seg s s' t = (seg, t.0, t.1)

Spans-refl : (s s' : Cursor) → s ≡ s' → Spans s s'
Spans-refl s s' e = spanned [] s s' (Takes-refl s s' e)

pub Spans-trans : (s m s' : Cursor) → Spans s m → Spans m s' → Spans s s'
Spans-trans s m s' (u, a, p) (v, b, q) =
    spanned (u ++ v) s s' (Takes-trans u v s m s' (a, p) (b, q))

Spans-Reads : (p : ℕ → Bool) (s s' : Cursor) → Reads p s s' → Spans s s'
Spans-Reads p s s' h = let (c, b, t) = Takes-Reads p s s' h in spanned (c ∷ []) s s' t

Spans-Rounds :
    (step : Cursor → Cursor → Type 0)
    → ((s s' : Cursor) → step s s' → Spans s s')
    → (n : ℕ) (s s' : Cursor) → Rounds step n s s'
    → Spans s s'
Spans-Rounds step h zero s s' e = Spans-refl s s' e
Spans-Rounds step h (suc n) s s' (m, st, rs) =
    Spans-trans s m s' (h s m st) (Spans-Rounds step h n m s' rs)

-- a match takes a part of the text, from the place on
pub Spans-Step : (r : Regex) (s s' : Cursor) → Step r s s' → Spans s s'
Spans-Step nothing s s' e = Spans-refl s s' e
Spans-Step (set p) s s' e = Spans-Reads p s s' e
Spans-Step (seq a b) s s' (m, st, st') =
    Spans-trans s m s' (Spans-Step a s m st) (Spans-Step b m s' st')
Spans-Step (alt a b) s s' (inl st) = Spans-Step a s s' st
Spans-Step (alt a b) s s' (inr st) = Spans-Step b s s' st
Spans-Step (star r) s s' (n, rs) = Spans-Rounds (Step r) (Spans-Step r) n s s' rs
Spans-Step (lazy r) s s' (n, rs) = Spans-Rounds (Step r) (Spans-Step r) n s s' rs
Spans-Step (group n r) s s' (m, st, e) =
    let (seg, a, p) = Spans-Step r s m st in
    (
      seg,
      a ∙ ap (λ (t : Text). seg ++ t) (sym (ap (λ (x : Cursor). x.after) e)),
      ap (λ (x : Cursor). x.pos) e ∙ p,
    )
Spans-Step bol s s' (e, _) = Spans-refl s s' e
Spans-Step eol s s' (e, _) = Spans-refl s s' e
Spans-Step boundary s s' (e, _) = Spans-refl s s' e
Spans-Step (behind t) s s' e = Spans-refl s s' e
Spans-Step (not_ahead r) s s' e = Spans-refl s s' e

take-length : (pre t : Text) → take (length pre) (pre ++ t) ≡ pre
take-length [] t = refl
take-length (c ∷ pre) t = ap (λ (u : Text). c ∷ u) (take-length pre t)

-- the text between is what was taken
pub between-Spans : (s s' : Cursor) (h : Spans s s') → between s s' ≡ h.0
between-Spans s s' (seg, a, p) =
    let width : s'.pos - s.pos ≡ length seg = omega (arith, p) in
    rw (a, width) (take-length seg s'.after)
