-- ===== src/CcParser/Termination.antt =====
-- A measure for the rounds of the scanner's loop.
use hachoir.Prelude.{ℕ, zero, suc, ◌+◌, ◌*◌, ◌<◌, Text, [], ◌∷◌, ◌≡◌, refl, ◌≢◌, arith, length}
use hachoir.CcParser.{
  Scan, ReadState, type, name, defv, Round, again, done, raise, ok, err, stuck, skip_white, in_type,
  in_name, in_defv, dispatch, last_close, close, step_at, step, loop, initial, enough,
  scan_param_list,
}

abbrev weight : ReadState → ℕ
weight name = 1
weight _ = 0

-- twice the characters that are left, and one more while a name is read
abbrev pub measure : Scan → ℕ
measure s = 2 * length s.rest + weight s.read_state

abbrev pub Shrinks : ℕ → Round → Type 0
Shrinks n (again s) = measure s < n
Shrinks n _ = Unit

skip_white-Shrinks :
    (prev : ℕ) (cs : Text) (s : Scan)
    → s.read_state ≡ type
    → Shrinks (2 * length cs + 2) (skip_white prev cs s)
unfolding skip_white
skip_white-Shrinks prev [] s h = ground arith
skip_white-Shrinks prev (c ∷ cs) s h = ground (arith, skip_white-Shrinks c cs s h)

dispatch-Shrinks :
    (c : ℕ) (cs : Text) (s : Scan) (r : ReadState)
    → s.read_state ≡ r
    → s.rest ≡ c ∷ cs
    → Shrinks (2 * length cs + 2 + weight r) (dispatch r c cs s)
unfolding in_type in_name in_defv dispatch
dispatch-Shrinks c cs s type h e = ground (arith, skip_white-Shrinks c cs s h)
dispatch-Shrinks c cs s name h e = ground arith
dispatch-Shrinks c cs s defv h e = ground arith

close-Shrinks :
    (n c : ℕ) (cs : Text) (s : Scan)
    → s.rest ≡ c ∷ cs
    → Shrinks (2 * length cs + 2 + weight s.read_state) (close n c cs s)
unfolding close last_close
close-Shrinks zero c cs s e = ground arith
close-Shrinks (suc n) c cs s e =
    dispatch-Shrinks c cs (record s { parens_count = n }) s.read_state refl e

step_at-Shrinks :
    (t : Text) (s : Scan) → s.rest ≡ t → Shrinks (2 * length t + weight s.read_state) (step_at t s)
unfolding step_at
step_at-Shrinks [] s e = tt
step_at-Shrinks (c ∷ cs) s e = ground (
  arith,
  dispatch-Shrinks c cs s s.read_state refl e,
  close-Shrinks s.parens_count c cs s e,
  dispatch-Shrinks c cs (record s { parens_count = s.parens_count + 1 }) s.read_state refl e,
)

-- A round that goes on lowers the measure.
pub step-Shrinks : (s : Scan) → Shrinks (measure s) (step s)
unfolding step
step-Shrinks s = step_at-Shrinks s.rest s refl

pub loop-ne-stuck : (fuel : ℕ) (s : Scan) → measure s < fuel → loop fuel s ≢ stuck
unfolding loop
loop-ne-stuck zero s h = absurd (omega arith)
loop-ne-stuck (suc fuel) s h =
    go (step s) (step-Shrinks s) (λ s' k. loop-ne-stuck fuel s' (omega arith))
  where
    go :
        (r : Round)
        → Shrinks (measure s) r
        → ((s' : Scan) → measure s' < measure s → loop fuel s' ≢ stuck)
        → elim r [ again s' ↦ loop fuel s' | done ps ↦ ok ps | raise e ↦ err e ] ≢ stuck
    go (again s') k ih = ih s' k
    go (done ps) k ih = λ e. cc
    go (raise x) k ih = λ e. cc

-- On every text, the scanner ends with a list or with an exception: the fuel suffices.
pub scan_param_list-ne-stuck : (t : Text) → scan_param_list t ≢ stuck
unfolding scan_param_list
scan_param_list-ne-stuck [] = λ e. cc
scan_param_list-ne-stuck (c ∷ cs) =
    ground (arith, loop-ne-stuck (enough cs) (initial cs) (omega arith))
