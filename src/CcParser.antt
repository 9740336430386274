-- ===== src/CcParser.antt =====
-- `ParserCCBlock` of gr_modtool.py. This file: `_scan_param_list`, the scanner over the characters
-- of a constructor's argument list, as a machine with one step for each round of its loop.
-- The index into the header is the text that is left, with the character before it.
pub mod Termination
pub mod Runs
pub mod Pieces
pub mod RoundTrip
pub mod Reject
pub mod Quoted
pub mod Params
pub mod IoSignature
pub mod ReadParams
pub mod Vlen
pub mod Signature
mod Tests
use hachoir.Prelude.{
  ℕ, zero, suc, ◌+◌, ◌*◌, Bool, true, false, not, ◌&&◌, ◌||◌, List, [], ◌∷◌, ◌++◌, Text, codes,
  ◌==◌, if◌then◌else◌, length, is_space, text_eq, ℤ, pos, incr, decr, is_zero,
}

-- the tuple (type, name, default_value)
pub record Param : Type 0 where
  pub type : Text
  pub name : Text
  pub defv : Text

pub data ReadState : Type 0 where
  type name defv : ReadState

-- The exceptions: the three `ValueError`s with what their messages say, and the `IndexError` of
-- a read behind the end of the header.
pub data ScanError : Type 0 where
  no_list : ScanError
  early_close : List Param → ScanError
  open_name open_default : ℕ → Text → ScanError
  index_error : ScanError

pub data Result {ℓ} (A : Type ℓ) : Type ℓ where
  ok : A → Result A
  err : ScanError → Result A
  -- the fuel ran out
  stuck : Result A

pub record Scan : Type 0 where
  pub rest : Text
  pub prev : ℕ
  pub param_list : List Param
  pub read_state : ReadState
  pub in_string : Bool
  pub parens_count : ℕ
  pub brackets_count : ℤ
  pub this_type : Text
  pub this_name : Text
  pub this_defv : Text

-- One round: the loop goes on, ends with the list, or raises.
pub data Round : Type 0 where
  again : Scan → Round
  done : List Param → Round
  raise : ScanError → Round

abbrev pub this_param : Scan → Param
this_param s = record { type = s.this_type; name = s.this_name; defv = s.this_defv }

-- `i += 1`
abbrev pub advance : ℕ → Text → Scan → Scan
advance c cs s = record s { rest = cs; prev = c }

-- `while c[i] in WHITESPACE: i += 1`, then what follows it
abbrev pub end_of_type : Scan → Scan
end_of_type s =
    if text_eq s.this_type (codes "const") || text_eq s.this_type []
    then record s { this_type = [] }
    else if text_eq s.this_type (codes "unsigned")
    then record s { this_type = s.this_type ++ codes " " }
    else record s { read_state = name }

skip_white : ℕ → Text → Scan → Round
skip_white prev [] s = raise index_error
skip_white prev (c ∷ cs) s =
    let more = skip_white c cs s in
    if is_space c then more else again (end_of_type (record s { rest = c ∷ cs; prev = prev }))

abbrev count_brackets : ℕ → ℤ → ℤ
count_brackets c b = if c == b'<' then incr b else if c == b'>' then decr b else b

in_type : ℕ → Text → Scan → Round
unfolding skip_white
in_type c cs s =
    let b = count_brackets c s.brackets_count in
    let s' = record s { brackets_count = b } in
    if c == b'&'
    then again (advance c cs s')
    else if is_space c && is_zero b
    then skip_white c cs s'
    else again (record (advance c cs s') { this_type = s.this_type ++ c ∷ [] })

-- the number and the text of the argument in a message
abbrev message : (ℕ → Text → ScanError) → Scan → Round
message e s = raise (e (length s.param_list + 1) (s.this_type ++ codes " " ++ s.this_name))

in_name : ℕ → Text → Scan → Round
in_name c cs s =
    if c == b'&' || is_space c
    then again (advance c cs s)
    else if c == b'='
    then (if s.parens_count == 0
        then again (record (advance c cs s) { read_state = defv })
        else message open_name s)
    else if c == b','
    then (if s.parens_count == 0
        then again (record s { read_state = defv })
        else message open_name s)
    else again (record (advance c cs s) { this_name = s.this_name ++ c ∷ [] })

abbrev keep_default : ℕ → Text → Scan → Round
keep_default c cs s = again (record (advance c cs s) { this_defv = s.this_defv ++ c ∷ [] })

in_defv : ℕ → Text → Scan → Round
in_defv c cs s =
    if s.in_string
    then (if c == b'"' && not (s.prev == b'\\')
        then again (record (advance c cs s) { in_string = false })
        else keep_default c cs s)
    else if c == b','
    then (if s.parens_count == 0
        then again (record (advance c cs s) {
          read_state = type;
          param_list = s.param_list ++ this_param s ∷ [];
          this_type = [];
          this_name = [];
          this_defv = [];
        })
        else message open_default s)
    else keep_default c cs s

dispatch : ReadState → ℕ → Text → Scan → Round
unfolding in_type in_name in_defv
dispatch type c cs s = in_type c cs s
dispatch name c cs s = in_name c cs s
dispatch defv c cs s = in_defv c cs s

last_close : ReadState → Scan → Round
last_close type s = raise (early_close s.param_list)
last_close name s = done (s.param_list ++ this_param s ∷ [])
last_close defv s = done (s.param_list ++ this_param s ∷ [])

-- at `)` outside a string; the number is `parens_count`
close : ℕ → ℕ → Text → Scan → Round
unfolding dispatch last_close
close zero c cs s = last_close s.read_state s
close (suc n) c cs s = dispatch s.read_state c cs (record s { parens_count = n })

step_at : Text → Scan → Round
unfolding dispatch close
step_at [] s = raise index_error
step_at (c ∷ cs) s =
    if s.in_string
    then dispatch s.read_state c cs s
    else if c == b')'
    then close s.parens_count c cs s
    else if c == b'('
    then dispatch s.read_state c cs (record s { parens_count = s.parens_count + 1 })
    else dispatch s.read_state c cs s

-- one round of `while not end_of_list`
unfoldable pub step : Scan → Round
unfolding step_at
step s = step_at s.rest s

unfoldable pub loop : ℕ → Scan → Result (List Param)
unfolding step
loop zero s = stuck
loop (suc fuel) s = elim (step s) [ again s' ↦ loop fuel s' | done ps ↦ ok ps | raise e ↦ err e ]

abbrev pub initial : Text → Scan
initial rest = record {
  rest = rest;
  prev = b'(';
  param_list = [];
  read_state = type;
  in_string = false;
  parens_count = 0;
  brackets_count = pos 0;
  this_type = [];
  this_name = [];
  this_defv = [];
}

-- Each round takes a character but that at the comma behind a name: two rounds for each suffice.
abbrev pub enough : Text → ℕ
enough t = 2 * length t + 2

unfoldable pub scan_param_list : Text → Result (List Param)
unfolding loop
scan_param_list [] = err index_error
scan_param_list (c ∷ cs) = if c == b'(' then loop (enough cs) (initial cs) else err no_list
