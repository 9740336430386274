-- ===== src/Generated/Tests.antt =====
-- Examples for the searches and the paragraphs of doxyxml/generated.
use hachoir.Prelude.{some, List, [], ◌∷◌, Text, codes, ◌≡◌, refl, text_eq}
use hachoir.Generated.{
  Details, MemberDef, CompoundDef, memberdef, find_definition, IndexCompound, IndexMember,
  find_compounds_and_members,
}
use hachoir.Generated.Find.{definitions_in, first_of_id, find_definition_lem}
use hachoir.Generated.Para.{
  text_node, element_node, other_node, Builders, mixed_text, reference, empty_para, build,
}

abbrev details : Details
details = record {
  match_compound = λ c. text_eq c.kind (codes "class");
  match_member = λ m. text_eq m.name (codes "work");
  refid = codes "b2";
}

abbrev def : Text → MemberDef
def id = record { id = id; name = codes "work" }

abbrev compound : CompoundDef
compound = record {
  id = codes "a";
  sectiondef =
      record { memberdef = def (codes "b1") ∷ [] }
      ∷ record { memberdef = def (codes "b2") ∷ [] }
      ∷ [];
}

find_definition_lem_test :
    find_definition details compound ≡ first_of_id (codes "b2") (definitions_in compound)
find_definition_lem_test = find_definition_lem details compound

found_test : find_definition details compound ≡ some (memberdef (def (codes "b2")))
unfolding find_definition text_eq
found_test = refl

abbrev member : Text → IndexMember
member name = record { kind = codes "function"; refid = codes "r"; name = name }

abbrev entry : Text → List IndexMember → IndexCompound
entry kind ms = record { kind = kind; refid = codes "c"; name = codes "n"; member = ms }

-- a class alone, a file for its member, and a file without one
hits_test :
    find_compounds_and_members details (
      entry (codes "class") []
      ∷ entry (codes "file") (member (codes "work") ∷ member (codes "x") ∷ [])
      ∷ entry (codes "file") []
      ∷ [])
    ≡ (entry (codes "class") [], [])
      ∷ (
        entry (codes "file") (member (codes "work") ∷ member (codes "x") ∷ []),
        member (codes "work") ∷ [],
      )
      ∷ []
unfolding find_compounds_and_members text_eq
hits_test = refl

abbrev builders : Builders Text Text Text Text
builders = record { reference = λ n. n; param_list = λ n. n; simple_sect = λ n. n }

para_test :
    build builders
      (text_node (codes "see ")
        ∷ element_node (codes "parameterlist") (codes "p")
        ∷ element_node (codes "ref") (codes "r")
        ∷ other_node
        ∷ [])
      empty_para
    ≡ record {
      parameterlist = codes "p" ∷ [];
      simplesects = [];
      content = mixed_text (codes "see ") ∷ reference (codes "r") ∷ [];
    }
unfolding build text_eq
para_test = refl
