-- ===== src/Modtool/Pasted.antt =====
-- Where `append_re_line_sequence` of gr_modtool.py pastes the new line.
use hachoir.Prelude.{
  ℕ, Bool, true, false, not, some, List, [], ◌∷◌, ◌++◌, Text, codes, ◌≡◌, refl, ◌∙◌, ap, arith,
  ◌==◌, all, &&-true, replace,
}
use hachoir.Cmake.Comments.{replace_here, replace_skip}
use hachoir.Cmake.Commented.{replace_once}
use hachoir.Re.First.{absent}
use hachoir.Re.{Regex, find_all}
use hachoir.Modtool.World.{World, ok, lookup, store, read, write}
use hachoir.Modtool.Util.{last_of, pasted, paste, append_re_line_sequence}

abbrev pub is_other : ℕ → ℕ → Bool
is_other c x = not (c == x)

-- a text without the first character of a line stays as it is
replace-others :
    (c : ℕ) (cs new others rest : Text)
    → all (is_other c) others ≡ true
    → replace (c ∷ cs) new (others ++ rest) ≡ others ++ replace (c ∷ cs) new rest
replace-others c cs new [] rest h = refl
replace-others c cs new (x ∷ others) rest h =
    let (here, later) = &&-true (is_other c x) _ h in
    replace_skip c x cs new (others ++ rest) (unequal (c == x) here)
    ∙ ap (λ (t : Text). x ∷ t) (replace-others c cs new others rest later)
  where
    unequal : (b : Bool) → not b ≡ true → b ≡ false
    unequal b e = ground arith

replace-both :
    (c : ℕ) (cs new before between behind : Text)
    → all (is_other c) before ≡ true
    → all (is_other c) between ≡ true
    → replace (c ∷ cs) new (before ++ ((c ∷ cs) ++ (between ++ ((c ∷ cs) ++ behind))))
      ≡ before ++ (new ++ (between ++ (new ++ replace (c ∷ cs) new behind)))
replace-both c cs new before between behind h g =
    replace-others c cs new before _ h
    ∙ ap (λ (t : Text). before ++ t)
        (replace_here c cs new _
          ∙ ap (λ (t : Text). new ++ t)
              (replace-others c cs new between _ g
                ∙ ap (λ (t : Text). between ++ t) (replace_here c cs new behind)))

-- a text with a line twice
abbrev pub doubled : Text → Text → Text → Text → Text
doubled line before between behind = before ++ (line ++ (between ++ (line ++ behind)))

-- Where the text of the last match stands twice in the file, and its first character nowhere before
-- and between, the new line is pasted behind both, not behind the last alone.
pub append_re_line_twice :
    (filename : Text) (pattern : Regex) (newline : Text) (c : ℕ) (cs before between behind l : Text)
    (ls : List Text) (w : World)
    → lookup filename w.files ≡ some (doubled (c ∷ cs) before between behind)
    → find_all pattern (doubled (c ∷ cs) before between behind) ≡ l ∷ ls
    → last_of l ls ≡ c ∷ cs
    → all (is_other c) before ≡ true
    → all (is_other c) between ≡ true
    → append_re_line_sequence filename pattern newline w ≡ (
      ok tt,
      record w {
        files =
            store filename
              (doubled
                ((c ∷ cs) ++ newline ++ codes "\n")
                before
                between
                (pasted (c ∷ cs) newline behind))
              w.files;
      },
    )
unfolding append_re_line_sequence paste read write
append_re_line_twice filename pattern newline c cs before between behind l ls w h m e a b =
    rw (h, m, e)
      (ap (λ (t : Text). (ok tt, record w { files = store filename t w.files }))
        (replace-both c cs ((c ∷ cs) ++ newline ++ codes "\n") before between behind a b))

-- Where the text of the last match stands once in the file, the new line and a line break are pasted
-- right behind it, and all else stays as it was; the other files are untouched.
pub append_re_line_once :
    (filename : Text) (pattern : Regex) (newline : Text) (c : ℕ) (cs before behind l : Text)
    (ls : List Text) (w : World)
    → lookup filename w.files ≡ some (before ++ ((c ∷ cs) ++ behind))
    → find_all pattern (before ++ ((c ∷ cs) ++ behind)) ≡ l ∷ ls
    → last_of l ls ≡ c ∷ cs
    → absent (c ∷ cs) before ((c ∷ cs) ++ behind) ≡ true
    → absent (c ∷ cs) behind [] ≡ true
    → append_re_line_sequence filename pattern newline w ≡ (
      ok tt,
      record w {
        files = store filename (before ++ (((c ∷ cs) ++ newline ++ codes "\n") ++ behind)) w.files;
      },
    )
unfolding append_re_line_sequence paste read write
append_re_line_once filename pattern newline c cs before behind l ls w h m e a b =
    rw (h, m, e)
      (ap (λ (t : Text). (ok tt, record w { files = store filename t w.files }))
        (replace_once c cs ((c ∷ cs) ++ newline ++ codes "\n") before behind a b))
