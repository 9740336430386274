-- ===== src/Modtool/Adapted.antt =====
-- What `ModToolMakeXML` writes, and how it treats signatures without a limit.
use hachoir.Prelude.{
  Bool, true, false, Option, none, some, List, [], ◌∷◌, ◌++◌, Text, codes, ◌≡◌, refl, ◌∙◌, arith,
  text_eq, text_eq_iff, Bool-cases, inl, inr, starts_with, path_join, basename,
}
use hachoir.CcParser.Params
use hachoir.CcParser.Params.{Outcome, crash, diverges, GrcParam, read_params, type_translate}
use hachoir.CcParser.IoSignature.{Ports, read_io_signature}
use hachoir.Grc.{Element, make_xml, constructor_params}
use hachoir.Modtool.World.{World, lookup, ok, ret, read, write}
use hachoir.Modtool.Choice.{Info}
use hachoir.Modtool.Keeps.{Keeps, Keeps-bind, Keeps-read, Keeps-write}
use hachoir.Modtool.MakeXml.{
  BlockData, lift, parsed, parse_cc_h, get_blockdata, number_of, unlimited, adapted_ports,
  adapted_params, adapt, fname_xml, is_missing, add_entry, make_grc_xml, make_all, is_test,
  search_files, suffix_of, run_lib, run,
}

starts_with-append : (p t : Text) → starts_with p (p ++ t) ≡ true
starts_with-append [] t = refl
starts_with-append (c ∷ p) t = ground (arith, starts_with-append p t)

-- a file outside a directory is none of those in it
outside : (p t k : Text) → starts_with p k ≡ false → text_eq (p ++ t) k ≡ false
outside p t k h = elim (Bool-cases (text_eq (p ++ t) k)) [
  | inr e ↦ e
  | inl e ↦ cc (starts_with-append p t, (text_eq_iff (p ++ t) k).0 e)
]

Keeps-lift : {A : Type 0} (k : Text) (m : Outcome A) → Keeps k (lift m)
Keeps-lift k (Params.ret a) w = refl
Keeps-lift k (crash c) w = refl
Keeps-lift k diverges w = refl

Keeps-parsed :
    (k : Text) (info : Info) (b : Text) (cc_file h_file : Option Text)
    → Keeps k (parsed info b cc_file h_file)
unfolding parsed
Keeps-parsed k info b (some cc_text) (some h_text) =
    Keeps-bind k (lift (read_params type_translate info.version h_text)) _ (Keeps-lift k _)
      (λ params.
        Keeps-bind k (lift (read_io_signature type_translate cc_text))
          (λ iosig. ret (params, (iosig, b))) (Keeps-lift k _) (λ iosig w. refl))
Keeps-parsed k info b none h_file = λ w. refl
Keeps-parsed k info b (some cc_text) none = λ w. refl

module _ (k : Text) (other : starts_with (codes "grc/") k ≡ false) where
  Keeps-add_entry : (skipped : Bool) (fname : Text) → Keeps k (add_entry skipped fname)
  unfolding add_entry
  Keeps-add_entry true fname = λ w. refl
  Keeps-add_entry false fname =
      Keeps-bind k (read (codes "grc/CMakeLists.txt")) _ (Keeps-read k (codes "grc/CMakeLists.txt"))
        (λ cfile. elim (Bool-cases (is_missing fname cfile)) [
          | inl e ↦ rw e (
              Keeps-write k (codes "grc/CMakeLists.txt") _
                (outside (codes "grc/") (codes "CMakeLists.txt") k other))
          | inr e ↦ rw e (λ w. refl)
        ])

  Keeps-adapt : (params : List GrcParam) (i o : Option Ports) → Keeps k (adapt params i o)
  unfolding adapt
  Keeps-adapt params (some i) (some o) = λ w. refl
  Keeps-adapt params none o = λ w. refl
  Keeps-adapt params (some i) none = λ w. refl

  Keeps-make_grc_xml :
      (prettyprint : Element → Text) (info : Info) (d : BlockData)
      → Keeps k (make_grc_xml prettyprint info d)
  unfolding make_grc_xml
  Keeps-make_grc_xml prettyprint info (params, (iosig, b)) =
      Keeps-bind k (adapt params iosig.ports_in iosig.ports_out) _
        (Keeps-adapt params iosig.ports_in iosig.ports_out)
        (λ a. Keeps-bind k (lift (make_xml _)) _ (Keeps-lift k (make_xml _)) (λ root.
          Keeps-bind k
            (write (path_join (codes "grc") (fname_xml info.modname b)) (prettyprint root)) _
            (Keeps-write k (path_join (codes "grc") (fname_xml info.modname b)) (prettyprint root)
              (outside (codes "grc/") (fname_xml info.modname b) k other))
            (λ u. Keeps-add_entry info.skip_grc (fname_xml info.modname b))))

  Keeps-make_all :
      (prettyprint : Element → Text) (info : Info) (fs : List Text)
      → Keeps k (make_all prettyprint info fs)
  unfolding make_all parse_cc_h
  Keeps-make_all prettyprint info [] = λ w. refl
  Keeps-make_all prettyprint info (f ∷ fs) = elim (Bool-cases (is_test (basename f))) [
    | inl e ↦ rw e (Keeps-make_all prettyprint info fs)
    | inr e ↦ rw e (
        Keeps-bind k (parse_cc_h info f) _
          (λ w.
            Keeps-parsed k info (get_blockdata info.modname f).0 (lookup f w.files)
              (lookup (path_join info.includedir (get_blockdata info.modname f).1) w.files) w)
          (λ d.
            Keeps-bind k (make_grc_xml prettyprint info d) (λ u. make_all prettyprint info fs)
              (Keeps-make_grc_xml prettyprint info d) (λ u. Keeps-make_all prettyprint info fs)))
  ]

  Keeps-run_lib :
      (prettyprint : Element → Text) (info : Info) (skipped : Bool)
      → Keeps k (run_lib skipped prettyprint info)
  unfolding run_lib
  Keeps-run_lib prettyprint info true = λ w. refl
  Keeps-run_lib prettyprint info false = λ w.
      Keeps-make_all prettyprint info (search_files info (codes "lib") (suffix_of info.version) w) w

  -- However the run ends, `makexml` changes no file outside `grc/`.
  pub run-keeps_outside :
      (prettyprint : Element → Text) (info : Info) (w : World)
      → lookup k (run prettyprint info w).1.files ≡ lookup k w.files
  unfolding run
  run-keeps_outside prettyprint info = Keeps-run_lib prettyprint info info.skip_lib

constructor-append :
    (ps : List GrcParam) (inout : Text)
    → constructor_params (ps ++ number_of inout ∷ []) ≡ constructor_params ps
constructor-append [] inout = refl
constructor-append (p ∷ ps) inout = elim (Bool-cases p.in_constructor) [
  | inl e ↦ rw (e, constructor-append ps inout) refl
  | inr e ↦ rw (e, constructor-append ps inout) refl
]

constructor-adapted :
    (inout : Text) (p : Ports) (ps : List GrcParam)
    → constructor_params (adapted_params inout p ps) ≡ constructor_params ps
constructor-adapted inout p ps = elim (Bool-cases (unlimited p)) [
  | inl e ↦ rw e (constructor-append ps inout)
  | inr e ↦ rw e refl
]

limited : (inout : Text) (p : Ports) → unlimited (adapted_ports inout p) ≡ false
unfolding text_eq
limited inout p = elim (Bool-cases (unlimited p)) [ inl e ↦ rw e refl | inr e ↦ rw (e, e) refl ]

-- Where both signatures were read, neither is without a limit afterwards, and the parameters that
-- stand for the numbers of ports are not passed to the block's constructor.
pub adapt_lem :
    (params : List GrcParam) (i o : Ports) (w : World)
    → (ps : List GrcParam) × (i' : Ports) × (o' : Ports) × (adapt params (some i) (some o) w
        ≡ (ok (ps, record { ports_in = some i'; ports_out = some o' }), w))
      × (unlimited i' ≡ false)
      × (unlimited o' ≡ false)
      × (constructor_params ps ≡ constructor_params params)
unfolding adapt
adapt_lem params i o w = (
  adapted_params (codes "out") o (adapted_params (codes "in") i params),
  adapted_ports (codes "in") i,
  adapted_ports (codes "out") o,
  refl,
  limited (codes "in") i,
  limited (codes "out") o,
  constructor-adapted (codes "out") o _ ∙ constructor-adapted (codes "in") i params,
)
