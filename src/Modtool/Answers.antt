-- ===== src/Modtool/Answers.antt =====
-- The question for the type of a new block, which `ModToolAdd.setup` repeats until it is answered.
use hachoir.Prelude.{
  Bool, true, not, List, [], ◌∷◌, ◌++◌, Text, ◌≡◌, refl, ◌∙◌, text_in, all, Bool-cases, inl, inr,
  &&-true, none,
}
use hachoir.Modtool.World.{World, ok, stop, eof_error}
use hachoir.Modtool.Add.{block_types, ask_type, blocktype_of}

abbrev pub is_wrong : Text → Bool
is_wrong a = not (text_in a block_types)

ask_type-wrong :
    (a : Text) (later : List Text) (w : World)
    → is_wrong a ≡ true
    → ask_type (a ∷ later) w ≡ ask_type later w
unfolding ask_type
ask_type-wrong a later w h = elim (Bool-cases (text_in a block_types)) [
  | inl e ↦ absurd (contrary (text_in a block_types) h e)
  | inr e ↦ rw e refl
]
  where
    contrary : (b : Bool) → not b ≡ true → b ≡ true → ⊥
    contrary b h e = cc

ask_type-wrong_all :
    (wrong later : List Text) (w : World)
    → all is_wrong wrong ≡ true
    → ask_type (wrong ++ later) w ≡ ask_type later w
ask_type-wrong_all [] later w h = refl
ask_type-wrong_all (a ∷ wrong) later w h =
    let (here, others) = &&-true (is_wrong a) _ h in
    ask_type-wrong a (wrong ++ later) w here ∙ ask_type-wrong_all wrong later w others

ask_type-right :
    (right : Text) (later : List Text) (w : World)
    → text_in right block_types ≡ true
    → ask_type (right ∷ later) w ≡ (ok right, record w { answers = later })
unfolding ask_type
ask_type-right right later w e = rw e refl

ask_type-none :
    (wrong : List Text) (w : World)
    → all is_wrong wrong ≡ true
    → ask_type wrong w ≡ (stop eof_error, record w { answers = [] })
unfolding ask_type
ask_type-none [] w h = refl
ask_type-none (a ∷ wrong) w h =
    let (here, others) = &&-true (is_wrong a) _ h in
    ask_type-wrong a wrong w here ∙ ask_type-none wrong w others

-- Without an option for the type, the loop ends at the first answer that is one of the types,
-- whatever stands before it, returns it, and leaves the answers behind it; where no answer is a type,
-- it ends with `EOFError`.
pub blocktype_of_answers :
    (wrong : List Text) (right : Text) (later : List Text) (w : World)
    → all is_wrong wrong ≡ true
    → text_in right block_types ≡ true
    → (blocktype_of none (record w { answers = wrong ++ right ∷ later })
        ≡ (ok right, record w { answers = later }))
      × (blocktype_of none (record w { answers = wrong })
          ≡ (stop eof_error, record w { answers = [] }))
unfolding blocktype_of
blocktype_of_answers wrong right later w h e = (
  ask_type-wrong_all wrong (right ∷ later) _ h ∙ ask_type-right right later _ e,
  ask_type-none wrong _ h,
)
