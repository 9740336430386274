-- ===== src/Modtool/World.antt =====
-- The directory that gr_modtool.py works in, the answers on its input, and the monad of code that
-- may end early: what was written before stays written.
use hachoir.Prelude.{
  ℕ, Bool, false, not, ◌&&◌, Option, none, some, List, [], ◌∷◌, ◌++◌, Text, ◌≡◌, refl, arith,
  text_eq, text_eq_iff, ◌==◌, if◌then◌else◌, drop_prefix, ends_with, all,
}
use hachoir.Re.{Regex, sub}

-- regular files by path, in the order in which the directories list them
abbrev pub Files : Type 0
Files = List (Text × Text)

unfoldable pub lookup : Text → Files → Option Text
lookup k [] = none
lookup k ((j, t) ∷ fs) = if text_eq j k then some t else lookup k fs

unfoldable pub store : Text → Text → Files → Files
store k t [] = (k, t) ∷ []
store k t ((j, u) ∷ fs) = if text_eq j k then (k, t) ∷ fs else (j, u) ∷ store k t fs

unfoldable pub discard : Text → Files → Files
discard k [] = []
discard k ((j, u) ∷ fs) = let rest = discard k fs in if text_eq j k then rest else (j, u) ∷ rest

pub lookup-store :
    (k j t : Text) (fs : Files) → text_eq j k ≡ false → lookup k (store j t fs) ≡ lookup k fs
unfolding lookup store
lookup-store k j t [] h = ground arith
lookup-store k j t ((i, u) ∷ fs) h =
    ground (arith, text_eq_iff i j, text_eq_iff i k, text_eq_iff j k, lookup-store k j t fs)

pub lookup-discard :
    (k j : Text) (fs : Files) → text_eq j k ≡ false → lookup k (discard j fs) ≡ lookup k fs
unfolding lookup discard
lookup-discard k j [] h = refl
lookup-discard k j ((i, u) ∷ fs) h =
    ground (arith, text_eq_iff i j, text_eq_iff i k, text_eq_iff j k, lookup-discard k j fs)

pub lookup-discarded : (k : Text) (fs : Files) → lookup k (discard k fs) ≡ none
unfolding lookup discard
lookup-discarded k [] = refl
lookup-discarded k ((i, u) ∷ fs) = ground (arith, lookup-discarded k fs)

pub record World : Type 0 where
  pub files : Files
  pub answers : List Text

-- `sys.exit` with its status, or an exception that no handler takes
pub data Stop : Type 0 where
  exit : ℕ → Stop
  io_error os_error eof_error attribute_error unbound_local key_error index_error type_error
        value_error :
      Stop
  -- fuel ran out
  stuck : Stop

pub data Reply {ℓ} (A : Type ℓ) : Type ℓ where
  ok : A → Reply A
  stop : Stop → Reply A

abbrev pub W : Type 0 → Type 0
W A = World → Reply A × World

abbrev pub continue : {A B : Type 0} → Reply A → (A → W B) → W B
continue (ok a) f w = f a w
continue (stop s) f w = (stop s, w)

infixl 5 ◌>>=◌ ◌>>◌
abbrev pub ◌>>=◌ : {A B : Type 0} → W A → (A → W B) → W B
◌>>=◌ m f w = continue (m w).0 f (m w).1

abbrev pub ◌>>◌ : {A B : Type 0} → W A → W B → W B
m >> n = m >>= λ _. n

abbrev pub ret : {A : Type 0} → A → W A
ret a w = (ok a, w)

abbrev pub raise : {A : Type 0} → Stop → W A
raise s w = (stop s, w)

abbrev pub opened : Option Text → W Text
opened none = raise io_error
opened (some t) = ret t

-- `open(path).read()`
unfoldable pub read : Text → W Text
read path w = opened (lookup path w.files) w

-- `open(path, 'w').write(t)`
unfoldable pub write : Text → Text → W (Unit {0})
write path t w = (ok tt, record w { files = store path t w.files })

abbrev pub unlinked : Option Text → Text → W (Unit {0})
unlinked none path w = (stop os_error, w)
unlinked (some t) path w = (ok tt, record w { files = discard path w.files })

-- `os.unlink(path)`
unfoldable pub unlink : Text → W (Unit {0})
unlink path w = unlinked (lookup path w.files) path w

abbrev pub next_answer : List Text → W Text
next_answer [] w = (stop eof_error, w)
next_answer (a ∷ later) w = (ok a, record w { answers = later })

-- `raw_input(...)`
unfoldable pub raw_input : W Text
raw_input w = next_answer w.answers w

-- the name of a file right in the directory; `*` matches no leading dot
abbrev plain_name : Text → Bool
plain_name [] = false
plain_name (c ∷ cs) = not (c == b'.') && all (λ d. not (d == b'/')) (c ∷ cs)

abbrev named : Option Text → Text → Bool
named none suffix = false
named (some name) suffix = plain_name name && ends_with suffix name

-- `glob.glob("%s/*%s" % (path, suffix))`
unfoldable pub glob : Text → Text → Files → List Text
glob path suffix [] = []
glob path suffix ((p, t) ∷ fs) =
    let rest = glob path suffix fs in
    if named (drop_prefix (path ++ b'/' ∷ []) p) suffix then p ∷ rest else rest

-- `remove_pattern_from_file(filename, pattern)`
unfoldable pub remove_pattern_from_file : Text → Regex → W (Unit {0})
unfolding read write
remove_pattern_from_file filename pattern = do
  oldfile ← read filename
  write filename (sub pattern (λ m. []) oldfile)
