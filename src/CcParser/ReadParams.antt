-- ===== src/CcParser/ReadParams.antt =====
-- What `read_params` makes of a plain argument list, and of a default value in hexadecimal.
use hachoir.Prelude.{
  true, false, some, List, [], ◌∷◌, ◌++◌, Text, codes, ◌≡◌, refl, ◌∙◌, all, map, text_eq, Each,
}
use hachoir.Re.{Match, search_text}
use hachoir.CcParser.{Param}
use hachoir.CcParser.Pieces.{param, name_char, defv_char}
use hachoir.CcParser.RoundTrip.{Decl, IsPlain, ArePlain, print_all, scan_param_list-print_all}
use hachoir.CcParser.Params.{
  ret, crash, Crash, GrcParam, Translator, type_translate, make_regex, translate_all, read_params,
}

-- the dictionary that stands for an argument whose type has this translation
abbrev pub as_param : (Param → Text) → Param → GrcParam
as_param t p = record { type = t p; key = p.name; default = p.defv; in_constructor = true }

-- the translator returns this for each argument, given its type and its default value
abbrev pub Returns : Translator → (Param → Text) → List Param → Type 0
Returns type_trans t = Each (λ p. type_trans p.type (some p.defv) ≡ ret (t p))

translate_all-map :
    (type_trans : Translator) (t : Param → Text) (ps : List Param)
    → Returns type_trans t ps
    → translate_all type_trans ps ≡ ret (map (as_param t) ps)
unfolding translate_all
translate_all-map type_trans t [] h = refl
translate_all-map type_trans t (p ∷ ps) h = rw (h.0, translate_all-map type_trans t ps h.1) refl

translate_all_crash :
    (type_trans : Translator) (t : Param → Text) (ps : List Param) (p : Param) (qs : List Param)
    {c : Crash}
    → Returns type_trans t ps
    → type_trans p.type (some p.defv) ≡ crash c
    → translate_all type_trans (ps ++ p ∷ qs) ≡ crash c
unfolding translate_all
translate_all_crash type_trans t [] p qs h e = rw e refl
translate_all_crash type_trans t (q ∷ ps) p qs h e =
    rw (h.0, translate_all_crash type_trans t ps p qs h.1 e) refl

abbrev pub params_of : List Decl → List Param
params_of = map (λ e. e.param)

module _ (version code_h : Text) {m : Match} where
  scanned :
      (type_trans : Translator) (d : Decl) (ds : List Decl) (rest : Text)
      → search_text (make_regex version) code_h ≡ some m
      → m.to.after ≡ b'(' ∷ print_all d ds rest
      → IsPlain d
      → ArePlain ds
      → read_params type_trans version code_h ≡ translate_all type_trans (params_of (d ∷ ds))
  unfolding read_params
  scanned type_trans d ds rest found behind h hs =
      rw (found, behind, scan_param_list-print_all d ds rest h hs) refl

  -- Where the first place that the pattern of the factory function matches is followed by a plain
  -- argument list, and the translator returns for each argument, `read_params` returns one
  -- parameter per argument, in order: its key is the name, its default the default value, its type
  -- what the translator makes of the type and that default value, and it goes to the constructor.
  pub read_params-print_all :
      (type_trans : Translator) (t : Param → Text) (d : Decl) (ds : List Decl) (rest : Text)
      → search_text (make_regex version) code_h ≡ some m
      → m.to.after ≡ b'(' ∷ print_all d ds rest
      → IsPlain d
      → ArePlain ds
      → Returns type_trans t (params_of (d ∷ ds))
      → read_params type_trans version code_h ≡ ret (map (as_param t) (params_of (d ∷ ds)))
  read_params-print_all type_trans t d ds rest found behind h hs k =
      scanned type_trans d ds rest found behind h hs ∙ translate_all-map type_trans t _ k

  -- The first argument whose translation crashes ends `read_params` with that crash.
  pub read_params_crash :
      (type_trans : Translator) (t : Param → Text) (d : Decl) (ds : List Decl) (rest : Text)
      (ps : List Param) (p : Param) (qs : List Param) {c : Crash}
      → search_text (make_regex version) code_h ≡ some m
      → m.to.after ≡ b'(' ∷ print_all d ds rest
      → IsPlain d
      → ArePlain ds
      → params_of (d ∷ ds) ≡ ps ++ p ∷ qs
      → Returns type_trans t ps
      → type_trans p.type (some p.defv) ≡ crash c
      → read_params type_trans version code_h ≡ crash c
  read_params_crash type_trans t d ds rest ps p qs found behind h hs parted k e =
      scanned type_trans d ds rest found behind h hs
      ∙ rw parted (translate_all_crash type_trans t ps p qs k e)

abbrev pub int_arg : Text → Text → Decl
int_arg nm d = record { is_const = false; by_ref = false; param = param (codes "int") nm d }

abbrev pub as_read : Text → Text → Text → GrcParam
as_read ty nm d = record { type = ty; key = nm; default = d; in_constructor = true }

module _ (version code_h nm d rest : Text) {m : Match} where
  -- An `int` argument with a default value in hexadecimal gets the type `hex` where the value
  -- stands right behind the `=`, and `int` where a blank stands between them.
  pub read_params_hex :
      search_text (make_regex version) code_h ≡ some m
      → all name_char nm ≡ true
      → all defv_char d ≡ true
      → (m.to.after ≡ b'(' ∷ print_all (int_arg nm (codes "0x" ++ d)) [] rest
          → read_params type_translate version code_h
            ≡ ret (as_read (codes "hex") nm (codes "0x" ++ d) ∷ []))
        × (m.to.after ≡ b'(' ∷ print_all (int_arg nm (codes " 0x" ++ d)) [] rest
            → read_params type_translate version code_h
              ≡ ret (as_read (codes "int") nm (codes " 0x" ++ d) ∷ []))
  unfolding translate_all type_translate text_eq
  read_params_hex found h k = (
    λ e.
        scanned version code_h type_translate (int_arg nm (codes "0x" ++ d)) [] rest found e
          (refl, refl, h, k) tt,
    λ e.
        scanned version code_h type_translate (int_arg nm (codes " 0x" ++ d)) [] rest found e
          (refl, refl, h, k) tt,
  )
