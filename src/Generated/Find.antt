-- ===== src/Generated/Find.antt =====
-- What the two searches of doxyxml/generated find.
use hachoir.Prelude.{
  Bool, true, false, Option, none, some, List, [], ◌∷◌, ◌++◌, Text, ◌≡◌, refl, sym, ◌∙◌, text_eq,
  if◌then◌else◌, keep, any, map, ◌||◌, Bool-cases, inl, inr,
}
use hachoir.Generated.{
  IndexMember, IndexCompound, Details, find_members, entry_of, Hits, find_compounds_and_members,
  MemberDef, SectionDef, CompoundDef, Definition, compounddef, memberdef, find_in_section, or_later,
  find_in_sections, find_definition,
}

-- all definitions of a file: the compound, then the members, section by section
abbrev pub members_in : List MemberDef → List Definition
members_in [] = []
members_in (m ∷ ms) = memberdef m ∷ members_in ms

abbrev pub sections_in : List SectionDef → List Definition
sections_in [] = []
sections_in (s ∷ ss) = members_in s.memberdef ++ sections_in ss

abbrev pub definitions_in : CompoundDef → List Definition
definitions_in c = compounddef c ∷ sections_in c.sectiondef

abbrev pub id_of : Definition → Text
id_of (compounddef c) = c.id
id_of (memberdef m) = m.id

abbrev pub first_of_id : Text → List Definition → Option Definition
first_of_id refid [] = none
first_of_id refid (d ∷ ds) = if text_eq (id_of d) refid then some d else first_of_id refid ds

-- the definitions behind a section are looked through where the section has none
find_in_section-append :
    (refid : Text) (ms : List MemberDef) (ds : List Definition) (o : Option Definition)
    → first_of_id refid ds ≡ o
    → first_of_id refid (members_in ms ++ ds) ≡ or_later (find_in_section refid ms) o
unfolding find_in_section
find_in_section-append refid [] ds o h = h
find_in_section-append refid (m ∷ ms) ds o h = elim (Bool-cases (text_eq m.id refid)) [
  | inl e ↦ rw e refl
  | inr e ↦ rw e (find_in_section-append refid ms ds o h)
]

find_in_sections_lem :
    (refid : Text) (ss : List SectionDef)
    → first_of_id refid (sections_in ss) ≡ find_in_sections refid ss
unfolding find_in_sections
find_in_sections_lem refid [] = refl
find_in_sections_lem refid (s ∷ ss) =
    find_in_section-append refid s.memberdef (sections_in ss) _ (find_in_sections_lem refid ss)

-- `find` returns the first definition with the id, of the compound and its members in the order of
-- the file, and nothing where none has it.
pub find_definition_lem :
    (d : Details) (c : CompoundDef) → find_definition d c ≡ first_of_id d.refid (definitions_in c)
unfolding find_definition
find_definition_lem d c = rw (find_in_sections_lem d.refid c.sectiondef) refl

-- the members of a compound that match
abbrev pub is_hit : Details → IndexCompound → Bool
is_hit d c = any d.match_member c.member || d.match_compound c

find_members-keep :
    (d : Details) (ms : List IndexMember) → find_members d ms ≡ keep d.match_member ms
unfolding find_members
find_members-keep d [] = refl
find_members-keep d (m ∷ ms) = rw (find_members-keep d ms) refl

abbrev pub hit_of : Details → IndexCompound → IndexCompound × List IndexMember
hit_of d c = (c, keep d.match_member c.member)

abbrev is_full : List IndexMember → Bool
is_full [] = false
is_full (m ∷ ms) = true

any-keep : (p : IndexMember → Bool) (ms : List IndexMember) → any p ms ≡ is_full (keep p ms)
any-keep p [] = refl
any-keep p (m ∷ ms) = elim (Bool-cases (p m)) [ inl e ↦ rw e refl | inr e ↦ rw e (any-keep p ms) ]

entry_of_lem :
    (b : Bool) (c : IndexCompound) (ms : List IndexMember) (results : Hits)
    → entry_of b c ms results ≡ (if is_full ms || b then (c, ms) ∷ results else results)
unfolding entry_of
entry_of_lem b c (m ∷ ms) results = refl
entry_of_lem true c [] results = refl
entry_of_lem false c [] results = refl

map-if :
    {A B : Type 0} (f : A → B) (b : Bool) (x : A) (xs : List A)
    → (if b then f x ∷ map f xs else map f xs) ≡ map f (if b then x ∷ xs else xs)
map-if f true x xs = refl
map-if f false x xs = refl

-- The search of the index returns, in order, each compound that matches itself or has a member that
-- matches, once, with all of its members that match.
pub find_compounds_and_members_lem :
    (d : Details) (cs : List IndexCompound)
    → find_compounds_and_members d cs ≡ map (hit_of d) (keep (is_hit d) cs)
unfolding find_compounds_and_members
find_compounds_and_members_lem d [] = refl
find_compounds_and_members_lem d (c ∷ cs) =
    rw (find_compounds_and_members_lem d cs, find_members-keep d c.member)
      (entry_of_lem (d.match_compound c) c (keep d.match_member c.member) _
        ∙ rw (sym (any-keep d.match_member c.member)) (map-if (hit_of d) (is_hit d c) c _))
