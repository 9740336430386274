-- ===== src/Generated.antt =====
-- The methods that gr-gtsrc/docs/doxygen/doxyxml/generated/index.py and compound.py add by hand to the
-- classes that generateDS makes: how entries of the index and definitions of a file are found, and
-- how a paragraph is built.
pub mod Para
pub mod Find
mod Tests
use hachoir.Prelude.{
  Bool, true, false, Option, none, some, List, [], ◌∷◌, ◌++◌, Text, text_eq, if◌then◌else◌, keep,
}

-- the entries of index.xml
pub record IndexMember : Type 0 where
  pub kind : Text
  pub refid : Text
  pub name : Text

pub record IndexCompound : Type 0 where
  pub kind : Text
  pub refid : Text
  pub name : Text
  pub member : List IndexMember

-- What the callers pass as `details`: its `match` on either kind of entry, and its `refid`.
pub record Details : Type 0 where
  pub match_compound : IndexCompound → Bool
  pub match_member : IndexMember → Bool
  pub refid : Text

-- `CompoundTypeSub.find_members(details)`
unfoldable pub find_members : Details → List IndexMember → List IndexMember
find_members d [] = []
find_members d (member ∷ rest) =
    let results = find_members d rest in if d.match_member member then member ∷ results else results

abbrev pub Hits : Type 0
Hits = List (IndexCompound × List IndexMember)

-- the entries for one compound: with the members found, or alone where it matches itself
unfoldable pub entry_of : Bool → IndexCompound → List IndexMember → Hits → Hits
entry_of matches compound (m ∷ ms) results = (compound, m ∷ ms) ∷ results
entry_of true compound [] results = (compound, []) ∷ results
entry_of false compound [] results = results

-- `DoxygenTypeSub.find_compounds_and_members(details)` of index.py
unfoldable pub find_compounds_and_members : Details → List IndexCompound → Hits
unfolding find_members entry_of
find_compounds_and_members d [] = []
find_compounds_and_members d (compound ∷ rest) =
    entry_of (d.match_compound compound) compound (find_members d compound.member)
      (find_compounds_and_members d rest)

-- the definitions in the XML of one file
pub record MemberDef : Type 0 where
  pub id : Text
  pub name : Text

pub record SectionDef : Type 0 where
  pub memberdef : List MemberDef

pub record CompoundDef : Type 0 where
  pub id : Text
  pub sectiondef : List SectionDef

pub data Definition : Type 0 where
  compounddef : CompoundDef → Definition
  memberdef : MemberDef → Definition

-- `sectiondefTypeSub.find(details)`
unfoldable pub find_in_section : Text → List MemberDef → Option Definition
find_in_section refid [] = none
find_in_section refid (m ∷ ms) =
    let later = find_in_section refid ms in if text_eq m.id refid then some (memberdef m) else later

abbrev pub or_later : Option Definition → Option Definition → Option Definition
or_later (some d) later = some d
or_later none later = later

unfoldable pub find_in_sections : Text → List SectionDef → Option Definition
unfolding find_in_section
find_in_sections refid [] = none
find_in_sections refid (s ∷ ss) =
    or_later (find_in_section refid s.memberdef) (find_in_sections refid ss)

-- `compounddefTypeSub.find(details)`, which `DoxygenTypeSub.find` of compound.py calls
unfoldable pub find_definition : Details → CompoundDef → Option Definition
unfolding find_in_sections
find_definition d c =
    if text_eq c.id d.refid then some (compounddef c) else find_in_sections d.refid c.sectiondef
