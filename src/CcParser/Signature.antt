-- ===== src/CcParser/Signature.antt =====
-- What `read_io_signature` does with the calls that its guards are written for.
use hachoir.Prelude.{
  false, none, some, List, [], ◌∷◌, ◌++◌, Text, codes, ◌≡◌, ◌≢◌, ◌⊎◌, inl, inr, refl, contains,
  split, cons_first, text_eq,
}
use hachoir.Re.{Match, search_text, group_of}
use hachoir.CcParser.Params.{
  Outcome, ret, crash, diverges, type_crash, ◌>>=◌, Translator, type_translate,
}
use hachoir.CcParser.IoSignature.{
  or_empty, Ports, typestr_to_iotype, figure_out_iotype_and_vlen, iosig_regex, read_io_signature,
}

-- the names that `gr_make_io_signature[23v]?` matches
abbrev pub IsCall : Text → Type 0
IsCall c =
    (c ≡ codes "gr_make_io_signature")
    ⊎ (c ≡ codes "gr_make_io_signature2")
    ⊎ (c ≡ codes "gr_make_io_signature3")
    ⊎ (c ≡ codes "gr_make_io_signaturev")

no_vector_call : (c : Text) → IsCall c → contains (codes "gr_make_iosignaturev") c ≡ false
no_vector_call c (inl e) = rw e refl
no_vector_call c (inr (inl e)) = rw e refl
no_vector_call c (inr (inr (inl e))) = rw e refl
no_vector_call c (inr (inr (inr e))) = rw e refl

-- `sizeof(int)`, alone or with more behind it, has no translation: the default value that the
-- translator slices is `None`.
pub typestr_to_iotype_int :
    (v : Text) → typestr_to_iotype type_translate (codes "sizeof(int)" ++ v) ≡ crash type_crash
unfolding typestr_to_iotype search_text type_translate text_eq
typestr_to_iotype_int v = refl

-- the first part of a list of types that begins with `sizeof(int)`
first_part :
    (v : Text)
    → (p : Text) × (ps : List Text) × (split b',' (codes "sizeof(int)" ++ v)
        ≡ (codes "sizeof(int)" ++ p) ∷ ps)
first_part v = go (split b',' v)
  where
    prefixed : Text → List Text → List Text
    prefixed [] l = l
    prefixed (c ∷ cs) l = cons_first c (prefixed cs l)

    go :
        (l : List Text)
        → (p : Text) × (ps : List Text) × (prefixed (codes "sizeof(int)") l
            ≡ (codes "sizeof(int)" ++ p) ∷ ps)
    go [] = ([], [], refl)
    go (p ∷ ps) = (p, ps, refl)

figure_out_int :
    (c v min max : Text)
    → IsCall c
    → figure_out_iotype_and_vlen type_translate c (codes "sizeof(int)" ++ v) min max
      ≡ crash type_crash
unfolding figure_out_iotype_and_vlen
figure_out_int c v min max h =
    let (p, ps, e) = first_part v in rw (no_vector_call c h, e, typestr_to_iotype_int p) refl

module _ (code_cc c : Text) {m : Match} where
  -- A block whose first input is `sizeof(int)` cannot be read with the translator that
  -- `makexml` hands over: the `TypeError` is no `ValueError`, so no handler takes it.
  pub read_io_signature_int :
      (v : Text)
      → search_text iosig_regex code_cc ≡ some m
      → group_of 1 m ≡ some c
      → IsCall c
      → group_of 4 m ≡ some (codes "sizeof(int)" ++ v)
      → read_io_signature type_translate code_cc ≡ crash type_crash
  unfolding read_io_signature
  read_io_signature_int v found g1 h g4 =
      rw (found, g1, g4, figure_out_int c v (or_empty (group_of 2 m)) (or_empty (group_of 3 m)) h)
        refl

bind-ne-none :
    (o : Outcome (List Text)) (f : List Text → Ports) → (o >>= λ ts. ret (some (f ts))) ≢ ret none
bind-ne-none (ret ts) f = λ e. cc
bind-ne-none (crash x) f = λ e. cc
bind-ne-none diverges f = λ e. cc

-- The guard for `gr_make_io_signaturev` is never taken, for any call that the pattern matches:
-- the name it looks for is spelled otherwise, and such a signature is read like the others.
pub figure_out-ne-none :
    (type_trans : Translator) (c t min max : Text)
    → IsCall c
    → figure_out_iotype_and_vlen type_trans c t min max ≢ ret none
unfolding figure_out_iotype_and_vlen
figure_out-ne-none type_trans c t min max h = rw (no_vector_call c h) (bind-ne-none _ _)
