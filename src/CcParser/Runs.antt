-- ===== src/CcParser/Runs.antt =====
-- Runs of the scanner, as a relation between a state and the result it ends with.
use hachoir.Prelude.{ℕ, zero, suc, ◌<◌, List, ◌≡◌, sym, arith}
use hachoir.CcParser.{Scan, again, done, raise, ScanError, Result, ok, err, Param, step, loop}
use hachoir.CcParser.Termination.{measure, step-Shrinks}

pub data Yields (r : Result (List Param)) : Scan → Type 0 where
  here : {s : Scan} (ps : List Param) → step s ≡ done ps → r ≡ ok ps → Yields r s
  fails : {s : Scan} (e : ScanError) → step s ≡ raise e → r ≡ err e → Yields r s
  next : {s : Scan} (s' : Scan) → step s ≡ again s' → Yields r s' → Yields r s

shrinks : (s s' : Scan) → step s ≡ again s' → measure s' < measure s
shrinks s s' e = rw e at (step-Shrinks s)

-- A run is what the loop does, whatever the fuel, if that is enough.
pub Yields-loop :
    {r : Result (List Param)} (fuel : ℕ) (s : Scan)
    → measure s < fuel
    → Yields r s
    → loop fuel s ≡ r
unfolding loop
Yields-loop zero s h y = absurd (omega arith)
Yields-loop (suc fuel) s h (here ps e k) = rw (e, loop) (sym k)
Yields-loop (suc fuel) s h (fails x e k) = rw (e, loop) (sym k)
Yields-loop (suc fuel) s h (next s' e y) =
    rw (e, loop) (Yields-loop fuel s' (omega (arith, shrinks s s' e)) y)
