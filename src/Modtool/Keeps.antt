-- ===== src/Modtool/Keeps.antt =====
-- Which of the operations leave a file alone.
use hachoir.Prelude.{
  Bool, true, false, Option, none, some, List, [], ◌∷◌, Text, codes, ◌≡◌, refl, ◌∙◌, text_eq,
  Bool-cases, inl, inr,
}
use hachoir.Modtool.World.{
  World, lookup, lookup-store, lookup-discard, Reply, ok, stop, W, continue, ◌>>=◌, read, write,
  unlink, raw_input, opened, unlinked, next_answer,
}
use hachoir.Modtool.Choice.{Verdict, proceed, skip, judged, ask, on_verdict}

-- the run leaves the file at the path as it was
abbrev pub Keeps : {A : Type 0} → Text → W A → Type 0
Keeps k m = (w : World) → lookup k (m w).1.files ≡ lookup k w.files

pub Keeps-bind :
    {A B : Type 0} (k : Text) (m : W A) (f : A → W B)
    → Keeps k m
    → ((a : A) → Keeps k (f a))
    → Keeps k (m >>= f)
Keeps-bind {A} {B} k m f h g w = go (m w) (h w)
  where
    go :
        (r : Reply A × World)
        → lookup k r.1.files ≡ lookup k w.files
        → lookup k (continue {B = B} r.0 f r.1).1.files ≡ lookup k w.files
    go (ok a, w') e = g a w' ∙ e
    go (stop s, w') e = e

pub Keeps-raw_input : (k : Text) → Keeps k raw_input
unfolding raw_input
Keeps-raw_input k w = next_answer-Keeps w.answers
  where
    next_answer-Keeps : (l : List Text) → lookup k (next_answer l w).1.files ≡ lookup k w.files
    next_answer-Keeps [] = refl
    next_answer-Keeps (a ∷ l) = refl

pub Keeps-judged : (k ans : Text) → Keeps k (judged ans)
Keeps-judged k ans w = elim (Bool-cases (text_eq ans (codes "q"))) [
  | inl e ↦ rw e refl
  | inr e ↦ elim (Bool-cases (text_eq ans (codes "n"))) [
    | inl n ↦ rw (e, n) refl
    | inr n ↦ rw (e, n) refl
  ]
]

pub Keeps-ask : (k : Text) (always : Bool) → Keeps k (ask always)
unfolding ask
Keeps-ask k true = λ w. refl
Keeps-ask k false = Keeps-bind k raw_input _ (Keeps-raw_input k) (λ ans. Keeps-judged k _)

pub Keeps-on_verdict :
    {A : Type 0} (k : Text) (v : Verdict) (m : W A) (f : Bool → W A)
    → Keeps k m
    → ((b : Bool) → Keeps k (f b))
    → Keeps k (on_verdict v m f)
Keeps-on_verdict k skip m f h g = h
Keeps-on_verdict k (proceed b) m f h g = g b

pub Keeps-unlink : (k f : Text) → text_eq f k ≡ false → Keeps k (unlink f)
unfolding unlink
Keeps-unlink k f h w = unlinked-Keeps (lookup f w.files)
  where
    unlinked-Keeps : (o : Option Text) → lookup k (unlinked o f w).1.files ≡ lookup k w.files
    unlinked-Keeps none = refl
    unlinked-Keeps (some t) = lookup-discard k f w.files h

pub Keeps-read : (k f : Text) → Keeps k (read f)
unfolding read
Keeps-read k f w = opened-Keeps (lookup f w.files)
  where
    opened-Keeps : (o : Option Text) → lookup k (opened o w).1.files ≡ lookup k w.files
    opened-Keeps none = refl
    opened-Keeps (some t) = refl

pub Keeps-write : (k f t : Text) → text_eq f k ≡ false → Keeps k (write f t)
unfolding write
Keeps-write k f t h w = lookup-store k f t w.files h
