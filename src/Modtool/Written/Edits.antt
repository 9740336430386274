-- ===== src/Modtool/Written/Edits.antt =====
-- The edits of gr_modtool.py that `add` is made of: each writes one file.
use hachoir.Prelude.{
  Bool, true, false, Option, none, some, List, [], ◌∷◌, Text, ◌≡◌, refl, text_eq, path_join,
  if◌then◌else◌,
}
use hachoir.Re.{Regex, find_all}
use hachoir.Modtool.World.{
  World, lookup, Reply, ok, stop, Stop, io_error, W, ◌>>=◌, ret, read, write,
}
use hachoir.Modtool.Keeps.{Keeps, Keeps-bind, Keeps-read, Keeps-write}
use hachoir.Modtool.Util.{append, paste, append_re_line_sequence}
use hachoir.Modtool.Add.{AddInfo, Templates}
use hachoir.Modtool.AddLib.{
  grtype_of, filled, get_template, write_tpl, edit_file, caught, try_io, when, unless,
}

-- `Keeps`, as a predicate that stays folded
unfoldable pub Spares : {A : Type 0} → Text → W A → Type 0
Spares k m = Keeps k m

pub Spares-read : (k f : Text) → Spares k (read f)
unfolding Spares
Spares-read k f = Keeps-read k f

pub Spares-write : (k f t : Text) → text_eq f k ≡ false → Spares k (write f t)
unfolding Spares
Spares-write k f t h = Keeps-write k f t h

pub Spares-bind :
    {A B : Type 0} (k : Text) (m : W A) (f : A → W B)
    → Spares k m
    → ((a : A) → Spares k (f a))
    → Spares k (m >>= f)
unfolding Spares
Spares-bind k m f h g = Keeps-bind k m f h g

pub Spares-ret : {A : Type 0} (k : Text) (a : A) → Spares k (ret a)
unfolding Spares
Spares-ret k a w = refl

pub Spares-when : (k : Text) (b : Bool) (m : W (Unit {0})) → Spares k m → Spares k (when b m)
unfolding Spares
Spares-when k true m h = h
Spares-when k false m h = λ w. refl

pub Spares-unless : (k : Text) (b : Bool) (m : W (Unit {0})) → Spares k m → Spares k (unless b m)
unfolding Spares
Spares-unless k true m h = λ w. refl
Spares-unless k false m h = h

pub Spares-if :
    {A : Type 0} (k : Text) (b : Bool) (m n : W A)
    → Spares k m
    → Spares k n
    → Spares k (if b then m else n)
Spares-if k true m n h g = h
Spares-if k false m n h g = g

pub Spares-then :
    {A B : Type 0} (k : Text) (m : W A) (n : W B)
    → Spares k m
    → Spares k n
    → Spares k (m >>= λ _. n)
Spares-then k m n h g = Spares-bind k m (λ _. n) h (λ _. g)

pub Spares-try_io : (k : Text) (m : W (Unit {0})) → Spares k m → Spares k (try_io m)
unfolding Spares
Spares-try_io k m h w = go (m w) (h w)
  where
    go :
        (r : Reply Unit × World)
        → lookup k r.1.files ≡ lookup k w.files
        → lookup k (caught r.0 r.1).1.files ≡ lookup k w.files
    go (ok u, v) e = e
    go (stop s, v) e = caught-Spares s e
      where
        caught-Spares :
            (s : Stop)
            → lookup k v.files ≡ lookup k w.files
            → lookup k (caught (stop s) v).1.files ≡ lookup k w.files
        caught-Spares io_error e = e
        caught-Spares _ e = e

pub Spares-append : (k f t : Text) → text_eq f k ≡ false → Spares k (append f t)
unfolding Spares append
Spares-append k f t h w = Spares-write k f _ h w

Spares-paste :
    (k f newline oldfile : Text) (ls : List Text)
    → text_eq f k ≡ false
    → Spares k (paste f newline oldfile ls)
unfolding paste
Spares-paste k f newline oldfile [] h = Spares-append k f newline h
Spares-paste k f newline oldfile (l ∷ ls) h = Spares-write k f _ h

pub Spares-append_re_line_sequence :
    (k f : Text) (r : Regex) (newline : Text)
    → text_eq f k ≡ false
    → Spares k (append_re_line_sequence f r newline)
unfolding append_re_line_sequence
Spares-append_re_line_sequence k f r newline h =
    Spares-bind k (read f) _ (Spares-read k f)
      (λ old. Spares-paste k f newline old (find_all r old) h)

pub Spares-edit_file :
    (k f : Text) (edit : Text → Text) → text_eq f k ≡ false → Spares k (edit_file f edit)
unfolding edit_file
Spares-edit_file k f edit h =
    Spares-bind k (read f) _ (Spares-read k f) (λ old. Spares-write k f (edit old) h)

pub Spares-get_template :
    (k : Text) (t : Templates) (tpl : Text) (info : AddInfo) → Spares k (get_template t tpl info)
unfolding Spares get_template
Spares-get_template k t tpl info = filled-Spares (grtype_of info.blocktype)
  where
    filled-Spares : (o : Option Text) → Spares k (filled t tpl info o)
    filled-Spares none = λ w. refl
    filled-Spares (some g) = λ w. refl

pub Spares-write_tpl :
    (k : Text) (t : Templates) (info : AddInfo) (tpl dir name : Text)
    → text_eq (path_join dir name) k ≡ false
    → Spares k (write_tpl t info tpl dir name)
unfolding write_tpl
Spares-write_tpl k t info tpl dir name h =
    Spares-then k (write (path_join dir name) []) _ (Spares-write k (path_join dir name) [] h) (
      Spares-bind k (get_template t tpl info) _ (Spares-get_template k t tpl info)
        (λ s. Spares-write k (path_join dir name) s h))
