-- ===== src/Re.antt =====
-- Python's `re`, as far as the sources use it: a backtracking matcher over code points, with
-- greedy and lazy repetition, numbered groups, the anchors of MULTILINE, word boundaries and the
-- two look-around forms that occur. Alternatives and repetitions are tried in Python's order.
-- The body of a repetition is never empty in the patterns of the sources; a round that consumes
-- nothing is refused here.
pub mod Steps
pub mod Spans
pub mod Replaced
pub mod Taken
pub mod Complete
pub mod First
use hachoir.Prelude.{
  ℕ, zero, suc, Bool, true, false, not, ◌&&◌, ◌||◌, Option, none, some, List, [], ◌∷◌, ◌++◌, Text,
  leb, ltb, ◌==◌, if◌then◌else◌, length, is_space, drop_prefix, is_some, map, ◌+◌, ◌-◌,
}

pub data Regex : Type 0 where
  -- the empty pattern
  nothing : Regex
  -- one character of a class
  set : (ℕ → Bool) → Regex
  seq alt : Regex → Regex → Regex
  -- `r*` and `r*?`
  star lazy : Regex → Regex
  -- `(r)`, the group of that number
  group : ℕ → Regex → Regex
  -- `^`, `$` and `\b`
  bol eol boundary : Regex
  -- `(?<=text)`, the text backwards, and `(?!r)`
  behind : Text → Regex
  not_ahead : Regex → Regex

-- A place in the text: its index, what stands before it, backwards, what stands after it, and the groups
-- that are set, the latest first.
pub record Cursor : Type 0 where
  pub pos : ℕ
  pub before : Text
  pub after : Text
  pub groups : List (ℕ × Text)

abbrev pub start : Text → Cursor
start t = record { pos = 0; before = []; after = t; groups = [] }

-- `\w`, for ASCII
abbrev pub is_word : ℕ → Bool
is_word c =
    leb b'a' c && leb c b'z' || leb b'A' c && leb c b'Z' || leb b'0' c && leb c b'9' || c == b'_'

abbrev pub member : ℕ → Text → Bool
member c [] = false
member c (d ∷ ds) = c == d || member c ds

abbrev pub head_is : (ℕ → Bool) → Text → Bool
head_is p [] = false
head_is p (c ∷ cs) = p c

abbrev pub is_nil : Text → Bool
is_nil [] = true
is_nil (c ∷ cs) = false

abbrev pub at_bol : Cursor → Bool
at_bol s = is_nil s.before || head_is (λ c. c == b'\n') s.before

abbrev pub at_eol : Cursor → Bool
at_eol s = is_nil s.after || head_is (λ c. c == b'\n') s.after

abbrev pub at_boundary : Cursor → Bool
at_boundary s =
    if head_is is_word s.before then not (head_is is_word s.after) else head_is is_word s.after

abbrev orelse : Option Cursor → Option Cursor → Option Cursor
orelse none d = d
orelse (some s) d = some s

abbrev pub take : ℕ → Text → Text
take zero t = []
take (suc n) [] = []
take (suc n) (c ∷ cs) = c ∷ take n cs

-- the text between a place and a later one
abbrev pub between : Cursor → Cursor → Text
between s s' = take (s'.pos - s.pos) s.after

-- A matcher hands the place behind its match to the rest of the pattern, and tries its next
-- choice where that fails.
abbrev pub Matcher : Type 0
Matcher = Cursor → (Cursor → Option Cursor) → Option Cursor

abbrev pub char_in : (ℕ → Bool) → Cursor → Text → (Cursor → Option Cursor) → Option Cursor
char_in p s [] k = none
char_in p s (c ∷ cs) k =
    if p c
    then k (record { pos = s.pos + 1; before = c ∷ s.before; after = cs; groups = s.groups })
    else none

abbrev pub beyond : Cursor → Cursor → Bool
beyond s' s = ltb s.pos s'.pos

-- As many rounds as there are characters left are enough, since each round takes one at least.
unfoldable pub greedy : Matcher → ℕ → Matcher
greedy round zero s k = k s
greedy round (suc n) s k =
    elim (round s (λ s'. if beyond s' s then greedy round n s' k else none)) [
      | some r ↦ some r
      | none ↦ k s
    ]

unfoldable pub reluctant : Matcher → ℕ → Matcher
reluctant round zero s k = k s
reluctant round (suc n) s k = elim (k s) [
  | some r ↦ some r
  | none ↦ round s (λ s'. if beyond s' s then reluctant round n s' k else none)
]

unfoldable pub run : Regex → Matcher
unfolding greedy reluctant
run nothing s k = k s
run (set p) s k = char_in p s s.after k
run (seq a b) s k = run a s (λ s'. run b s' k)
run (alt a b) s k = elim (run a s k) [ some r ↦ some r | none ↦ run b s k ]
run (star r) s k = greedy (run r) (length s.after) s k
run (lazy r) s k = reluctant (run r) (length s.after) s k
run (group n r) s k = run r s (λ s'. k (record s' { groups = (n, between s s') ∷ s'.groups }))
run bol s k = if at_bol s then k s else none
run eol s k = if at_eol s then k s else none
run boundary s k = if at_boundary s then k s else none
run (behind t) s k = if is_some (drop_prefix t s.before) then k s else none
run (not_ahead r) s k = elim (run r s some) [ some r' ↦ none | none ↦ k s ]

-- `re.match` at a place
unfoldable pub match_at : Regex → Cursor → Option Cursor
unfolding run
match_at r s = run r s some

-- One match: what stands before it, backwards from its start, and the place behind it.
pub record Match : Type 0 where
  pub from : Cursor
  pub to : Cursor

abbrev pub matched : Match → Text
matched m = between m.from m.to

-- `m.group(n)`
abbrev pub find_group : ℕ → List (ℕ × Text) → Option Text
find_group n [] = none
find_group n ((k, t) ∷ gs) = if k == n then some t else find_group n gs

abbrev pub group_of : ℕ → Match → Option Text
group_of n m = find_group n m.to.groups

abbrev pub advance : ℕ → Cursor → Text → Cursor
advance c s cs = record { pos = s.pos + 1; before = c ∷ s.before; after = cs; groups = [] }

-- `re.search`, from a place on; the text is what stands behind the place
unfoldable pub search_on : Regex → Text → Cursor → Option Match
search_on r [] s = elim (match_at r s) [
  | some s' ↦ some (record { from = s; to = s' })
  | none ↦ none
]
search_on r (c ∷ cs) s = elim (match_at r s) [
  | some s' ↦ some (record { from = s; to = s' })
  | none ↦ search_on r cs (advance c s cs)
]

unfoldable pub search_from : Regex → Cursor → Option Match
unfolding search_on match_at
search_from r s = search_on r s.after s

unfoldable pub search_text : Regex → Text → Option Match
unfolding search_from
search_text r t = search_from r (start t)

-- The matches that do not overlap, from left to right; at most `limit`. No pattern that is
-- passed here matches the empty text, so each match moves the place forward.
matches_on : ℕ → Regex → Cursor → List Match
matches_on zero r s = []
matches_on (suc limit) r s = elim (search_from r s) [
  | none ↦ []
  | some m ↦ if beyond m.to s then m ∷ matches_on limit r (record m.to { groups = [] }) else []
]

unfoldable pub matches : Regex → Text → List Match
unfolding matches_on search_from
matches r t = matches_on (length t) r (start t)

-- `re.findall` of a pattern with no group of its own
unfoldable pub find_all : Regex → Text → List Text
unfolding matches
find_all r t = map matched (matches r t)

-- `r.sub(f, t, count=limit)`; also the number of replacements, as `re.subn`
unfoldable pub substitute : ℕ → Regex → (Match → Text) → Cursor → Text × ℕ
substitute zero r f s = (s.after, 0)
substitute (suc limit) r f s = elim (search_from r s) [
  | none ↦ (s.after, 0)
  | some m ↦
      if beyond m.to s
      then (let (out, n) = substitute limit r f (record m.to { groups = [] }) in
          (between s m.from ++ f m ++ out, suc n))
      else (s.after, 0)
]

unfoldable pub subn : Regex → (Match → Text) → Text → Text × ℕ
unfolding substitute search_from
subn r f t = substitute (length t) r f (start t)

unfoldable pub sub : Regex → (Match → Text) → Text → Text
unfolding subn
sub r f t = (subn r f t).0

-- `r.sub(f, t, count=1)`
unfoldable pub sub_once : Regex → (Match → Text) → Text → Text
unfolding substitute search_from
sub_once r f t = (substitute 1 r f (start t)).0

-- Patterns.
abbrev pub char : ℕ → Regex
char c = set (λ x. x == c)

-- a literal text
abbrev pub text : Text → Regex
text [] = nothing
text (c ∷ []) = char c
text (c ∷ (d ∷ cs)) = seq (char c) (text (d ∷ cs))

-- `.`: any character but a newline
abbrev pub dot : Regex
dot = set (λ x. not (x == b'\n'))

abbrev pub none_of : Text → Regex
none_of cs = set (λ x. not (member x cs))

abbrev pub space : Regex
space = set is_space

abbrev pub plus : Regex → Regex
plus r = seq r (star r)

abbrev pub optional : Regex → Regex
optional r = alt r nothing

-- a text in the place of a pattern, as `'%s' % filename` puts it there: the dot is any character
abbrev pub as_pattern : Text → Regex
as_pattern [] = nothing
as_pattern (c ∷ cs) = seq (if c == b'.' then dot else char c) (as_pattern cs)

infixr 60 ◌⊳◌
abbrev pub ◌⊳◌ : Regex → Regex → Regex
◌⊳◌ = seq
