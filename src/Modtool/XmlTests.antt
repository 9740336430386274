-- ===== src/Modtool/XmlTests.antt =====
-- `makexml` on a module with one block, and the theorems at it.
use hachoir.Prelude.{true, false, none, some, List, [], ◌∷◌, codes, ◌≡◌, refl}
use hachoir.Re.{dot}
use hachoir.CcParser.Params.{GrcParam}
use hachoir.CcParser.IoSignature.{Ports}
use hachoir.Grc.{constructor_params}
use hachoir.Modtool.World.{World, lookup, ok}
use hachoir.Modtool.Choice.{Info}
use hachoir.Modtool.MakeXml.{get_blockdata, unlimited, adapt, run}
use hachoir.Modtool.Adapted.{run-keeps_outside, adapt_lem}

abbrev info : Info
info = record {
  modname = codes "howto";
  version = codes "36";
  includedir = codes "include";
  pattern = dot;
  yes = false;
  skip_lib = false;
  skip_include = false;
  skip_swig = true;
  skip_python = true;
  skip_grc = true;
  qalib = codes "lib/qa_howto.cc";
  swig = none;
  pyinit = codes "python/__init__.py";
}

abbrev world : World
world = record {
  files =
      (
        codes "lib/howto_square_ff.cc",
        codes
            "gr_make_io_signature(1, 1, sizeof(float)), gr_make_io_signature(1, 1, sizeof(float))",
      )
      ∷ (
        codes "include/howto_square_ff.h",
        codes "HOWTO_API howto_square_ff_sptr howto_make_square_ff (float k);",
      )
      ∷ [];
  answers = [];
}

run-keeps_outside_example :
    lookup (codes "lib/howto_square_ff.cc") (run (λ e. codes "<block/>") info world).1.files
    ≡ lookup (codes "lib/howto_square_ff.cc") world.files
run-keeps_outside_example =
    run-keeps_outside (codes "lib/howto_square_ff.cc") refl (λ e. codes "<block/>") info world

blockdata_test :
    get_blockdata (codes "howto") (codes "lib/howto_square_ff_impl.cc")
    ≡ (codes "square_ff", codes "howto_square_ff.h")
unfolding get_blockdata
blockdata_test = refl

abbrev any_number : Ports
any_number = record {
  type = codes "float" ∷ [];
  vlen = some (codes "1") ∷ [];
  min_ports = codes "1";
  max_ports = codes "-1";
}

abbrev one_param : List GrcParam
one_param =
    record { type = codes "float"; key = codes "k"; default = []; in_constructor = true } ∷ []

adapt_lem_example :
    (ps : List GrcParam) × (i : Ports) × (o : Ports) × (adapt one_param
        (some any_number)
        (some any_number)
        world
      ≡ (ok (ps, record { ports_in = some i; ports_out = some o }), world))
    × (unlimited i ≡ false)
    × (unlimited o ≡ false)
    × (constructor_params ps ≡ codes "$k" ∷ [])
adapt_lem_example = adapt_lem one_param any_number any_number world
