-- ===== src/Modtool/Main.antt =====
-- The commands of gr_modtool.py by name, and `main`.
use hachoir.Prelude.{
  Bool, Option, none, some, List, [], ◌∷◌, Text, codes, text_eq, text_in, if◌then◌else◌, map, keep,
  not,
}
use hachoir.Re.{Regex}
use hachoir.Grc.{Element}
use hachoir.Modtool.World.{exit, key_error, W, ◌>>=◌, ret, raise}
use hachoir.Modtool.Base.{Place}
use hachoir.Modtool.Choice.{setup_pattern}
use hachoir.Modtool.Util.{get_command_from_argv}
use hachoir.Modtool.Add.{AddOptions, Templates, setup_add}
use hachoir.Modtool.AddRun.{run_add}
use hachoir.Modtool.Info.{Tree, run_info}
use hachoir.Modtool.NewModule.{Archive, setup_new, run_new}
use hachoir.Modtool.Remove
use hachoir.Modtool.Disable
use hachoir.Modtool.MakeXml

-- the classes below `ModTool`; `ModTool` itself has no name and is passed over
pub data Tool : Type 0 where
  add remove disable info newmod makexml help : Tool

-- `name` and `aliases` of each class
abbrev add_names : List Text
add_names = codes "add" ∷ codes "insert" ∷ []

abbrev remove_names : List Text
remove_names = codes "remove" ∷ codes "rm" ∷ codes "del" ∷ []

abbrev disable_names : List Text
disable_names = codes "disable" ∷ codes "dis" ∷ []

abbrev info_names : List Text
info_names = codes "info" ∷ codes "getinfo" ∷ codes "inf" ∷ []

abbrev newmod_names : List Text
newmod_names = codes "newmod" ∷ codes "nm" ∷ codes "create" ∷ []

abbrev makexml_names : List Text
makexml_names = codes "makexml" ∷ codes "mx" ∷ []

abbrev help_names : List Text
help_names = codes "help" ∷ codes "h" ∷ codes "?" ∷ []

abbrev pub names_of : Tool → List Text
names_of add = add_names
names_of remove = remove_names
names_of disable = disable_names
names_of info = info_names
names_of newmod = newmod_names
names_of makexml = makexml_names
names_of help = help_names

abbrev pub Commands : Type 0
Commands = List (Text × Tool)

-- `classdict[n] = tool`
unfoldable pub insert : Text → Tool → Commands → Commands
insert n tool [] = (n, tool) ∷ []
insert n tool ((k, t) ∷ d) = if text_eq k n then (n, tool) ∷ d else (k, t) ∷ insert n tool d

unfoldable pub insert_all : List Text → Tool → Commands → Commands
unfolding insert
insert_all [] tool d = d
insert_all (n ∷ ns) tool d = insert_all ns tool (insert n tool d)

-- `get_class_dict()`, for the order in which `globals()` gives the classes
unfoldable pub get_class_dict : List Tool → Commands → Commands
unfolding insert_all
get_class_dict [] d = d
get_class_dict (t ∷ ts) d = get_class_dict ts (insert_all (names_of t) t d)

unfoldable pub find : Text → Commands → Option Tool
find n [] = none
find n ((k, t) ∷ d) = if text_eq k n then some t else find n d

-- the options of all commands, and what surrounds the program
pub record Setting : Type 0 where
  pub place : Place
  pub tree : Tree
  pub archive : Archive
  pub templates : Templates
  pub compile : Text → Regex
  pub prettyprint : Element → Text
  pub options : AddOptions
  pub pattern : Option Text
  pub all_yes : Bool
  pub suggested_dirs : Option Text
  pub args : List Text

abbrev pub keys : Commands → List Text
keys d = map (λ c. c.0) d

-- `ModToolHelp.run` up to its output: the names of all commands but its own, among the arguments
unfoldable pub run_help : Commands → List Text → W (Unit {0})
run_help d argv =
    get_command_from_argv (keep (λ k. not (text_in k (names_of help))) (keys d)) argv >>= λ c.
    ret tt

-- `setup` and `run`
unfoldable pub execute : Setting → Commands → List Text → Tool → W (Unit {0})
unfolding run_help
execute s d argv add =
    setup_add s.place s.templates s.options s.args >>= λ i. run_add s.place s.templates i
execute s d argv remove =
    setup_pattern s.compile s.place s.options.common s.pattern s.all_yes s.args >>= λ i.
    Remove.run i
execute s d argv disable =
    setup_pattern s.compile s.place s.options.common s.pattern s.all_yes s.args >>= λ i.
    Disable.run i
execute s d argv info = do _ ← run_info s.tree s.options.common.directory s.suggested_dirs; ret tt
execute s d argv newmod = do
  r ← setup_new s.archive s.options.common.module_name s.options.common.directory s.args
  run_new s.archive r.0 r.1
execute s d argv makexml =
    setup_pattern s.compile s.place s.options.common s.pattern s.all_yes s.args >>= λ i.
    MakeXml.run s.prettyprint i
execute s d argv help = run_help d argv

abbrev pub executed : Setting → Commands → List Text → Option Tool → W (Unit {0})
executed s d argv none = raise key_error
executed s d argv (some t) = execute s d argv t

abbrev pub dispatched : Setting → Commands → List Text → Option Text → W (Unit {0})
dispatched s d argv none = raise (exit 2)
dispatched s d argv (some command) = executed s d argv (find command d)

-- `main()`
unfoldable pub main : List Tool → List Text → Setting → W (Unit {0})
unfolding get_class_dict find execute
main tools argv s = get_command_from_argv (keys (get_class_dict tools [])) argv >>= λ c.
    dispatched s (get_class_dict tools []) argv c
