-- ===== src/Cmake/Newlines.antt =====
-- `remove_double_newlines` without regular expressions.
use hachoir.Prelude.{
  ℕ, zero, suc, ◌+◌, ◌-◌, ◌≤◌, ◌<◌, true, false, Option, none, some, List, [], ◌∷◌, ◌++◌, Text,
  codes, ◌≡◌, refl, ◌∙◌, ap, arith, ◌==◌, if◌then◌else◌, length, Bool-cases, inl, inr, append_assoc,
  ltb, length-append,
}
use mathlib.Core.Path.{subst}
use hachoir.Re.{
  Cursor, Match, search_on, search_from, substitute, subn, sub, beyond, between, start, take,
}
use hachoir.Cmake.Squeezed.{
  is_third, squeezed, cursor, eaten, breaks, match_at-third, match_at-none, pos-eaten, length-eaten,
  squeezed-eaten,
}
use hachoir.Cmake.{remove_double_newlines}

take-length : (pre t : Text) → take (length pre) (pre ++ t) ≡ pre
take-length [] t = refl
take-length (c ∷ pre) t = ap (λ (u : Text). c ∷ u) (take-length pre t)

-- what is made of the outcome of a search
resumed : ℕ → Cursor → Option Match → Text × ℕ
unfolding substitute
resumed limit s o = elim o [
  | none ↦ (s.after, 0)
  | some m ↦
      if beyond m.to s
      then (let (out, n) =
            substitute limit breaks (λ m. codes "\n\n") (record m.to { groups = [] }) in
          (between s m.from ++ codes "\n\n" ++ out, suc n))
      else (s.after, 0)
]

substitute-resumed :
    (limit : ℕ) (s : Cursor)
    → substitute (suc limit) breaks (λ m. codes "\n\n") s
      ≡ resumed limit s (search_on breaks s.after s)
unfolding substitute search_from resumed
substitute-resumed limit s = refl

abbrev Squeezes : ℕ → Type 0
Squeezes limit =
    (s : Cursor)
    → length s.after ≤ limit
    → (substitute limit breaks (λ m. codes "\n\n") s).0 ≡ squeezed false s.after

lt→ltb : (a b : ℕ) → a < b → ltb a b ≡ true
lt→ltb a b h = ground arith

squeezed-third :
    (c d e : ℕ) (cs : Text)
    → is_third (c ∷ (d ∷ (e ∷ cs))) ≡ true
    → squeezed false (c ∷ (d ∷ (e ∷ cs))) ≡ b'\n' ∷ (b'\n' ∷ squeezed true cs)
squeezed-third c d e cs h =
    let hc : (c == b'\n') ≡ true = ground arith in
    let hd : (d == b'\n') ≡ true = ground arith in
    let he : (e == b'\n') ≡ true = ground arith in rw (hc, hd, he) refl

-- a match at the place, behind a text without one
found :
    (limit p0 p c d e : ℕ) (b0 pre b cs : Text) (g0 g : List (ℕ × Text))
    → Squeezes limit
    → p ≡ p0 + length pre
    → length cs ≤ limit
    → is_third (c ∷ (d ∷ (e ∷ cs))) ≡ true
    → (resumed limit (cursor p0 b0 (pre ++ c ∷ (d ∷ (e ∷ cs))) g0) (
        some (record {
          from = cursor p b (c ∷ (d ∷ (e ∷ cs))) g;
          to = eaten (p + 1 + 1 + 1) (e ∷ (d ∷ (c ∷ b))) cs g;
        }))).0
      ≡ pre ++ squeezed false (c ∷ (d ∷ (e ∷ cs)))
unfolding resumed
found limit p0 p c d e b0 pre b cs g0 g ih q h t =
    let at : ℕ = p + 1 + 1 + 1 in
    let back : Text = e ∷ (d ∷ (c ∷ b)) in
    let moved : ltb p0 (eaten at back cs g).pos ≡ true =
      lt→ltb p0 (eaten at back cs g).pos (omega (arith, pos-eaten at back cs g)) in
    let width : p - p0 ≡ length pre = omega arith in
    rw
      (
        moved,
        squeezed-third c d e cs t,
        width,
        take-length pre (c ∷ (d ∷ (e ∷ cs))),
        ih (record (eaten at back cs g) { groups = [] }) (omega (arith, length-eaten at back cs g)),
        squeezed-eaten at back cs g,
      )
      (append_assoc pre (codes "\n\n") _)

search-nil : (p : ℕ) (b : Text) (g : List (ℕ × Text)) → search_on breaks [] (cursor p b [] g) ≡ none
unfolding search_on
search-nil p b g = rw (search_on, match_at-none p b [] g refl) refl

search-next :
    (p c : ℕ) (b cs : Text) (g : List (ℕ × Text))
    → is_third (c ∷ cs) ≡ false
    → search_on breaks (c ∷ cs) (cursor p b (c ∷ cs) g)
      ≡ search_on breaks cs (cursor (p + 1) (c ∷ b) cs [])
unfolding search_on
search-next p c b cs g e = rw (search_on, match_at-none p b (c ∷ cs) g e) refl

search-third :
    (p c d e : ℕ) (b cs : Text) (g : List (ℕ × Text))
    → is_third (c ∷ (d ∷ (e ∷ cs))) ≡ true
    → search_on breaks (c ∷ (d ∷ (e ∷ cs))) (cursor p b (c ∷ (d ∷ (e ∷ cs))) g)
      ≡ some (record {
        from = cursor p b (c ∷ (d ∷ (e ∷ cs))) g;
        to = eaten (p + 1 + 1 + 1) (e ∷ (d ∷ (c ∷ b))) cs g;
      })
unfolding search_on
search-third p c d e b cs g t = rw (search_on, match_at-third p c d e b cs g t) refl

found-here :
    (limit : ℕ) (ih : Squeezes limit) (p0 : ℕ) (b0 : Text) (g0 : List (ℕ × Text)) (p : ℕ)
    (b pre : Text) (c : ℕ) (cs : Text) (g : List (ℕ × Text))
    → p ≡ p0 + length pre
    → length (c ∷ cs) ≤ suc limit
    → is_third (c ∷ cs) ≡ true
    → (resumed limit
        (cursor p0 b0 (pre ++ c ∷ cs) g0)
        (search_on breaks (c ∷ cs) (cursor p b (c ∷ cs) g))).0
      ≡ pre ++ squeezed false (c ∷ cs)
found-here limit ih p0 b0 g0 p b pre c [] g q h t = cc
found-here limit ih p0 b0 g0 p b pre c (d ∷ []) g q h t = cc
found-here limit ih p0 b0 g0 p b pre c (d ∷ (e ∷ cs)) g q h t =
    rw (search-third p c d e b cs g t)
      (found limit p0 p c d e b0 pre b cs g0 g ih q (omega arith) t)

unchanged :
    (limit p : ℕ) (b t : Text) (g : List (ℕ × Text)) → (resumed limit (cursor p b t g) none).0 ≡ t
unfolding resumed
unchanged limit p b t g = refl

-- the search from a place on, and what is made of its outcome
resumed-search :
    (limit : ℕ) (ih : Squeezes limit) (p0 : ℕ) (b0 : Text) (g0 : List (ℕ × Text)) (p : ℕ)
    (b pre t : Text) (g : List (ℕ × Text))
    → p ≡ p0 + length pre
    → length t ≤ suc limit
    → (resumed limit (cursor p0 b0 (pre ++ t) g0) (search_on breaks t (cursor p b t g))).0
      ≡ pre ++ squeezed false t
resumed-search limit ih p0 b0 g0 p b pre [] g q h =
    rw (search-nil p b g) (unchanged limit p0 b0 (pre ++ []) g0)
resumed-search limit ih p0 b0 g0 p b pre (c ∷ cs) g q h = elim (Bool-cases (is_third (c ∷ cs))) [
  | inr e ↦ rw (search-next p c b cs g e) (
      subst
        (λ (u : Text).
          (resumed limit (cursor p0 b0 u g0) (search_on breaks cs (cursor (p + 1) (c ∷ b) cs []))).0
          ≡ pre ++ squeezed false (c ∷ cs))
        (append_assoc pre (c ∷ []) cs)
        (resumed-search limit ih p0 b0 g0 (p + 1) (c ∷ b) (pre ++ c ∷ []) cs []
            (omega (arith, length-append pre (c ∷ []))) (omega arith)
          ∙ append_assoc pre (c ∷ []) (squeezed false cs)
          ∙ ap (λ (u : Text). pre ++ u) (first c cs e)))
  | inl e ↦ found-here limit ih p0 b0 g0 p b pre c cs g q h e
]
  where
    first :
        (c : ℕ) (cs : Text)
        → is_third (c ∷ cs) ≡ false
        → c ∷ squeezed false cs ≡ squeezed false (c ∷ cs)
    first c cs e = rw e refl

Squeezes-all : (limit : ℕ) → Squeezes limit
unfolding substitute
Squeezes-all zero s h = none_left s.after h
  where
    none_left : (t : Text) → length t ≤ 0 → t ≡ squeezed false t
    none_left [] h = refl
    none_left (c ∷ cs) h = absurd (omega arith)
Squeezes-all (suc limit) s h =
    ap (λ (r : Text × ℕ). r.0) (substitute-resumed limit s)
    ∙ resumed-search limit (Squeezes-all limit) s.pos s.before s.groups s.pos s.before [] s.after
        s.groups (omega arith) h

-- Line breaks in a row are left where there are one or two of them, and become two where there are
-- more; nothing else in the text changes.
pub remove_double_newlines_lem : (t : Text) → remove_double_newlines t ≡ squeezed false t
unfolding remove_double_newlines sub subn
remove_double_newlines_lem t = Squeezes-all (length t) (start t) (omega arith)
