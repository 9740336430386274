-- ===== src/CcParser/Reject.antt =====
-- No list that the scanner returns is empty, and no round of its loop is inside quoted text.
use hachoir.Prelude.{
  ℕ, zero, suc, ◌+◌, false, List, [], ◌∷◌, Text, ◌≡◌, ◌≢◌, ◌==◌, arith, Bool-cases, inl, inr,
}
use mathlib.Core.List.{concat-ne-nil}
use hachoir.CcParser.{
  Scan, ReadState, type, name, defv, Round, again, done, raise, ok, err, Param, this_param,
  count_brackets, skip_white, in_type, in_name, in_defv, dispatch, last_close, close, step_at, step,
  loop, initial, enough, scan_param_list,
}

-- no round turns `in_string` on
abbrev StaysOut : Round → Type 0
StaysOut (again s) = s.in_string ≡ false
StaysOut _ = Unit

skip_white-StaysOut :
    (prev : ℕ) (cs : Text) (s : Scan) → s.in_string ≡ false → StaysOut (skip_white prev cs s)
unfolding skip_white
skip_white-StaysOut prev [] s h = tt
skip_white-StaysOut prev (c ∷ cs) s h = ground (arith, skip_white-StaysOut c cs s h)

dispatch-StaysOut :
    (r : ReadState) (c : ℕ) (cs : Text) (s : Scan)
    → s.in_string ≡ false
    → StaysOut (dispatch r c cs s)
unfolding dispatch in_type in_name in_defv
dispatch-StaysOut type c cs s h = ground (
  arith,
  skip_white-StaysOut c cs (record s { brackets_count = count_brackets c s.brackets_count }) h,
)
dispatch-StaysOut name c cs s h = ground arith
dispatch-StaysOut defv c cs s h = ground arith

close-StaysOut : (n c : ℕ) (cs : Text) (s : Scan) → s.in_string ≡ false → StaysOut (close n c cs s)
unfolding close last_close
close-StaysOut zero c cs s h = ground arith
close-StaysOut (suc n) c cs s h =
    dispatch-StaysOut s.read_state c cs (record s { parens_count = n }) h

-- A list that is returned has an argument, since `done` appends one.
abbrev NotEmpty : Round → Type 0
NotEmpty (done ps) = ps ≢ []
NotEmpty _ = Unit

skip_white-NotEmpty : (prev : ℕ) (cs : Text) (s : Scan) → NotEmpty (skip_white prev cs s)
unfolding skip_white
skip_white-NotEmpty prev [] s = tt
skip_white-NotEmpty prev (c ∷ cs) s = ground (arith, skip_white-NotEmpty c cs s)

dispatch-NotEmpty : (r : ReadState) (c : ℕ) (cs : Text) (s : Scan) → NotEmpty (dispatch r c cs s)
unfolding dispatch in_type in_name in_defv
dispatch-NotEmpty type c cs s = ground (
  arith,
  skip_white-NotEmpty c cs (record s { brackets_count = count_brackets c s.brackets_count }),
)
dispatch-NotEmpty name c cs s = ground arith
dispatch-NotEmpty defv c cs s = ground arith

close-NotEmpty : (n c : ℕ) (cs : Text) (s : Scan) → NotEmpty (close n c cs s)
unfolding close last_close
close-NotEmpty zero c cs s = ground (arith, concat-ne-nil (this_param s) s.param_list)
close-NotEmpty (suc n) c cs s = dispatch-NotEmpty s.read_state c cs _

step_at-NotEmpty : (t : Text) (s : Scan) → NotEmpty (step_at t s)
unfolding step_at
step_at-NotEmpty [] s = tt
step_at-NotEmpty (c ∷ cs) s = ground (
  arith,
  dispatch-NotEmpty s.read_state c cs s,
  close-NotEmpty s.parens_count c cs s,
  dispatch-NotEmpty s.read_state c cs (record s { parens_count = s.parens_count + 1 }),
)

step-NotEmpty : (s : Scan) → NotEmpty (step s)
unfolding step
step-NotEmpty s = step_at-NotEmpty s.rest s

loop-ne-nil : (fuel : ℕ) (s : Scan) {ps : List Param} → loop fuel s ≡ ok ps → ps ≢ []
unfolding loop
loop-ne-nil zero s h = cc
loop-ne-nil (suc fuel) s {ps} h = go (step s) (step-NotEmpty s) (λ s' k. loop-ne-nil fuel s' k) h
  where
    go :
        (r : Round)
        → NotEmpty r
        → ((s' : Scan) → loop fuel s' ≡ ok ps → ps ≢ [])
        → elim r [ again s' ↦ loop fuel s' | done qs ↦ ok qs | raise e ↦ err e ] ≡ ok ps
        → ps ≢ []
    go (again s') nd ih e = ih s' e
    go (done qs) nd ih e = λ z. nd (cc)
    go (raise x) nd ih e = cc

-- An argument list that is read has at least one argument: of a constructor without arguments no
-- list is ever returned.
pub scan_param_list-ne-nil : (t : Text) {ps : List Param} → scan_param_list t ≡ ok ps → ps ≢ []
unfolding scan_param_list
scan_param_list-ne-nil [] h = cc
scan_param_list-ne-nil (c ∷ cs) h = elim (Bool-cases (c == b'(')) [
  | inl e ↦ loop-ne-nil (enough cs) (initial cs) (rw e at h)
  | inr e ↦ cc (rw e at h)
]

step_at-StaysOut : (t : Text) (s : Scan) → s.in_string ≡ false → StaysOut (step_at t s)
unfolding step_at
step_at-StaysOut [] s h = tt
step_at-StaysOut (c ∷ cs) s h = ground (
  arith,
  dispatch-StaysOut s.read_state c cs s h,
  close-StaysOut s.parens_count c cs s h,
  dispatch-StaysOut s.read_state c cs (record s { parens_count = s.parens_count + 1 }) h,
)

-- No round of the loop turns `in_string` on: the branches for quoted text are never taken.
pub step-StaysOut : (s s' : Scan) → s.in_string ≡ false → step s ≡ again s' → s'.in_string ≡ false
unfolding step
step-StaysOut s s' h e = rw e at (step_at-StaysOut s.rest s h)
