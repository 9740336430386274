-- ===== src/Modtool/Arguments.antt =====
-- From the arguments of gr_modtool.py to the class that runs.
use hachoir.Prelude.{
  Bool, true, false, Option, none, some, List, [], ◌∷◌, Text, ◌≡◌, refl, ◌∙◌, ap, text_in,
  if◌then◌else◌, is_some, Bool-cases, inl, inr, ◌⊎◌, all, ◌==◌,
}
use hachoir.Modtool.World.{World, W, stop, exit, ◌>>=◌}
use hachoir.Modtool.Util.{get_command_from_argv}
use hachoir.Modtool.Main.{Tool, Commands, get_class_dict, keys, Setting, dispatched, execute, main}
use hachoir.Modtool.Dispatch.{owner, among, or_else, find-get_class_dict, keys-find}

abbrev pub is_full : Text → Bool
is_full [] = false
is_full (c ∷ cs) = true

abbrev pub is_option : Text → Bool
is_option [] = false
is_option (c ∷ cs) = c == b'-'

-- the class of the first argument that is no option and a name of one of the classes
abbrev pub first_command : List Tool → List Text → Option Tool
first_command tools [] = none
first_command tools (a ∷ args) =
    let later = first_command tools args in
    if is_option a then later else or_else (among tools (owner a)) later

-- what `main` does with it
abbrev pub outcome : Setting → Commands → List Text → Option Tool → W (Unit {0})
outcome s d argv none w = (stop (exit 2), w)
outcome s d argv (some t) w = execute s d argv t w

text_in-keys :
    (tools : List Tool) (n : Text)
    → text_in n (keys (get_class_dict tools [])) ≡ is_some (among tools (owner n))
text_in-keys tools n = keys-find n _ ∙ ap is_some (find-get_class_dict n tools)

option_cases : (o : Option Tool) → (o ≡ none) ⊎ ((t : Tool) × (o ≡ some t))
option_cases none = inl refl
option_cases (some t) = inr (t, refl)

module _ (tools : List Tool) (s : Setting) (argv : List Text) (w : World) where
  abbrev dict : Commands
  dict = get_class_dict tools []

  dispatched-found :
      (args : List Text)
      → all is_full args ≡ true
      → (get_command_from_argv (keys dict) args >>= λ c. dispatched s dict argv c) w
        ≡ outcome s dict argv (first_command tools args) w
  unfolding get_command_from_argv
  dispatched-found [] h = refl
  dispatched-found ([] ∷ args) h = cc
  dispatched-found ((c ∷ cs) ∷ args) h = elim (Bool-cases (c == b'-')) [
    | inl e ↦ rw e (dispatched-found args h)
    | inr e ↦ elim (option_cases (among tools (owner (c ∷ cs)))) [
      | inl q ↦ rw (e, text_in-keys tools (c ∷ cs), q) (dispatched-found args h)
      | inr (t, q) ↦
          rw (e, text_in-keys tools (c ∷ cs), q, find-get_class_dict (c ∷ cs) tools, q) refl
    ]
  ]

-- The first argument that is no option and a name or an alias of one of the classes decides which
-- command runs, in whatever order `globals()` gives the classes; without one, `main` ends with
-- status 2 and no change. No argument is empty.
pub main_command :
    (tools : List Tool) (argv : List Text) (s : Setting) (w : World)
    → all is_full argv ≡ true
    → main tools argv s w ≡ outcome s (get_class_dict tools []) argv (first_command tools argv) w
unfolding main
main_command tools argv s w h = dispatched-found tools s argv w argv h
