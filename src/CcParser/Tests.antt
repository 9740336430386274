-- ===== src/CcParser/Tests.antt =====
-- Runs of the parser on concrete headers, and the theorems at them.
use hachoir.Prelude.{
  true, false, Option, none, some, [], ◌∷◌, ◌++◌, Text, codes, ◌≡◌, ◌≢◌, inl, inr, refl, text_eq,
  if◌then◌else◌,
}
use hachoir.Re.{Match, start, search_text}
use hachoir.CcParser.{
  Param, Scan, ok, err, stuck, early_close, open_default, defv, step, initial, scan_param_list,
}
use hachoir.CcParser.Termination.{scan_param_list-ne-stuck}
use hachoir.CcParser.Pieces.{param}
use hachoir.CcParser.RoundTrip.{Decl, print_all, scan_param_list-print_all}
use hachoir.CcParser.Reject.{scan_param_list-ne-nil, step-StaysOut}
use hachoir.CcParser.Quoted.{scan_call_comma}
use hachoir.CcParser.Params.{
  ret, crash, type_crash, type_translate, dummy_translator, make_regex, read_params,
}
use hachoir.CcParser.ReadParams.{read_params-print_all, as_param, as_read, int_arg, read_params_hex}
use hachoir.CcParser.IoSignature.{
  typestr_to_vlen, typestr_to_iotype, figure_out_iotype_and_vlen, iosig_regex, read_io_signature,
}
use hachoir.CcParser.Vlen.{typestr_to_vlen_product, typestr_to_vlen-ne-none}
use hachoir.CcParser.Signature.{read_io_signature_int, figure_out-ne-none}

abbrev taps : Decl
taps = record {
  is_const = true;
  by_ref = true;
  param = param (codes "std::vector<std::pair<int, float> >") (codes "taps") [];
}

abbrev order : Decl
order = record {
  is_const = false;
  by_ref = false;
  param = param (codes "int") (codes "n") (codes "0x1F");
}

printed :
    print_all taps (order ∷ []) []
    ≡ codes "const std::vector<std::pair<int, float> > &taps, int n=0x1F)"
printed = refl

scan_param_list-print_all_example :
    scan_param_list (b'(' ∷ print_all taps (order ∷ []) (codes ";"))
    ≡ ok (taps.param ∷ order.param ∷ [])
unfolding text_eq
scan_param_list-print_all_example =
    scan_param_list-print_all taps (order ∷ []) (codes ";") (refl, refl, refl, refl)
      ((refl, refl, refl, refl), tt)

-- an `unsigned` that stands alone takes the name and the comma into the type
unsigned_alone :
    scan_param_list (codes "(unsigned n, int m)")
    ≡ ok (param (codes "unsigned n,") (codes "intm") [] ∷ [])
unfolding scan_param_list text_eq
unsigned_alone = refl

unsigned_int :
    scan_param_list (codes "(unsigned int n, char c)")
    ≡ ok (param (codes "unsigned int") (codes "n") [] ∷ param (codes "char") (codes "c") [] ∷ [])
unfolding scan_param_list text_eq
unsigned_int = refl

no_arguments : scan_param_list (codes "();") ≡ err (early_close [])
unfolding scan_param_list text_eq
no_arguments = refl

scan_param_list-ne-stuck_example : scan_param_list (codes "(int a") ≢ stuck
scan_param_list-ne-stuck_example = scan_param_list-ne-stuck (codes "(int a")

scan_param_list-ne-nil_example : (param (codes "int") (codes "a") [] ∷ []) ≢ []
unfolding scan_param_list text_eq
scan_param_list-ne-nil_example = scan_param_list-ne-nil (codes "(int a)") refl

abbrev at_quote : Scan
at_quote = record (initial (codes "\"a")) { read_state = defv }

step-StaysOut_test :
    (record at_quote { rest = codes "a"; prev = b'"'; this_defv = codes "\"" }).in_string ≡ false
unfolding step
step-StaysOut_test = step-StaysOut at_quote _ refl refl

abbrev half : Param
half = param (codes "std::string") (codes "name") (codes "\"a")

scan_call_comma_test :
    scan_param_list (codes "(gr_complex x=gr_complex(0,1))")
    ≡ err (open_default 1 (codes "gr_complex x"))
unfolding text_eq
scan_call_comma_test =
    scan_call_comma (codes "gr_complex") (codes "x") (codes "gr_complex") (codes "0") (codes "1))")
      refl refl refl refl refl

abbrev or_start : Option Match → Match
or_start none = record { from = start []; to = start [] }
or_start (some m) = m

abbrev header : Text → Text
header args = codes "typedef boost::shared_ptr<foo> sptr;\n static sptr make(" ++ args

abbrev found : Text → Match
found args = or_start (search_text (make_regex (codes "37")) (header args))

abbrev args : Text
args = print_all taps (order ∷ []) (codes ";")

abbrev in_grc : Param → Text
in_grc p = if text_eq p.type (codes "int") then codes "hex" else codes "raw"

read_params-print_all_example :
    read_params type_translate (codes "37") (header args)
    ≡ ret (as_param in_grc taps.param ∷ as_param in_grc order.param ∷ [])
unfolding text_eq search_text type_translate
read_params-print_all_example =
    read_params-print_all (codes "37") (header args) {m = found args} type_translate in_grc taps
      (order ∷ []) (codes ";") refl refl (refl, refl, refl, refl) ((refl, refl, refl, refl), tt)
      (refl, (refl, tt))

abbrev hex_args : Text
hex_args = print_all (int_arg (codes "n") (codes " 0x1F")) [] []

read_params_hex_test :
    read_params type_translate (codes "37") (header hex_args)
    ≡ ret (as_read (codes "int") (codes "n") (codes " 0x1F") ∷ [])
unfolding text_eq search_text
read_params_hex_test =
    (read_params_hex (codes "37") (header hex_args) (codes "n") (codes "1F") [] {m = found hex_args}
        refl refl refl).1
      refl

typestr_to_vlen_product_example :
    (typestr_to_vlen (codes "sizeof(float) * vlen") ≡ some (codes "vlen"))
    × (typestr_to_vlen (codes " vlen*sizeof(float) ") ≡ some (codes "vlen"))
typestr_to_vlen_product_example =
    typestr_to_vlen_product (codes "sizeof(float) ") (codes " vlen") refl refl refl refl

typestr_to_vlen-ne-none_test : typestr_to_vlen (codes "sizeof(a)*sizeof(b)") ≢ none
typestr_to_vlen-ne-none_test = typestr_to_vlen-ne-none (codes "sizeof(a)*sizeof(b)")

abbrev block : Text
block =
    codes
      ": gr_sync_block (\"x\", gr_make_io_signature(1, 1, sizeof(int)), gr_make_io_signature (0, -1, 4)) {}"

read_io_signature_int_example : read_io_signature type_translate block ≡ crash type_crash
unfolding search_text
read_io_signature_int_example =
    read_io_signature_int block (codes "gr_make_io_signature")
      {m = or_start (search_text iosig_regex block)} [] refl refl (inl refl) refl

-- without a translation the same constructor is read
read_io_signature_test :
    read_io_signature dummy_translator block
    ≡ ret (record {
      ports_in = some (record {
        type = codes "int" ∷ [];
        vlen = some (codes "1") ∷ [];
        min_ports = codes "1";
        max_ports = codes "1";
      });
      ports_out = some (record {
        type = codes "char" ∷ [];
        vlen = some (codes "4") ∷ [];
        min_ports = codes "0";
        max_ports = codes "-1";
      });
    })
unfolding read_io_signature typestr_to_iotype typestr_to_vlen figure_out_iotype_and_vlen search_text
    dummy_translator
read_io_signature_test = refl

figure_out-ne-none_test :
    figure_out_iotype_and_vlen dummy_translator
      (codes "gr_make_io_signaturev")
      (codes "sizes")
      (codes "1")
      (codes "1")
    ≢ ret none
figure_out-ne-none_test =
    figure_out-ne-none dummy_translator (codes "gr_make_io_signaturev") (codes "sizes") (codes "1")
      (codes "1") (inr (inr (inr refl)))
