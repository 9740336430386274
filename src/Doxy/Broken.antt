-- ===== src/Doxy/Broken.antt =====
-- Objects whose XML file cannot be parsed, and objects that a group only refers to.
use hachoir.Prelude.{
  ℕ, true, Option, none, some, Text, ◌≡◌, ◌≢◌, refl, get_elem?, set, get_elem?-set_self,
}
use hachoir.Doxy.Heap.{
  Class, klass, file, Raw, Files, expat_error, Object, Heap, attribute_error, parsing_error, Reply,
  ok, err, M, continue, raise, fresh, ◌>>◌,
}
use hachoir.Doxy.Base.{retrieve_data}
use hachoir.Doxy.Dict.{check_parsed-done}
use hachoir.Doxy.Parse.{check_parsed, members_of, name_of}

-- an object with a reference, as it is made, and the stages of an attempt to parse its file
abbrev pub made : Class → Option Raw → Text → Object
made cls raw refid = record (fresh cls raw) { refid = some refid }

abbrev marked : Class → Option Raw → Text → Object
marked cls raw refid = record (made cls raw refid) { is_parsed = true }

abbrev attempted : Class → Option Raw → Text → Object
attempted cls raw refid = record (marked cls raw refid) { error = true }

module _ (files : Files) (h : Heap) (i : ℕ) (raw : Option Raw) (refid : Text) where
  abbrev pub behind : Class → Heap
  behind cls = record h {
    objects = set (set h.objects i (marked cls raw refid)) i (attempted cls raw refid);
  }

  abbrev once : Class → Heap
  once cls = record h { objects = set h.objects i (marked cls raw refid) }

  marked_there :
      (cls : Class)
      → get_elem? h.objects i ≡ some (made cls raw refid)
      → get_elem? (set h.objects i (marked cls raw refid)) i ≡ some (marked cls raw refid)
  marked_there cls e = get_elem?-set_self h.objects i (marked cls raw refid) e

  attempted_there :
      (cls : Class)
      → get_elem? h.objects i ≡ some (made cls raw refid)
      → get_elem? (set (set h.objects i (marked cls raw refid)) i (attempted cls raw refid)) i
        ≡ some (attempted cls raw refid)
  attempted_there cls e =
      get_elem?-set_self (set h.objects i (marked cls raw refid)) i (attempted cls raw refid)
        (marked_there cls e)

  retrieve_broken :
      (cls : Class) (h' : Heap)
      → get_elem? h'.objects i ≡ some (marked cls raw refid)
      → files.parse refid ≡ expat_error
      → retrieve_data files i h'
        ≡ (ok tt, record h' { objects = set h'.objects i (attempted cls raw refid) })
  unfolding retrieve_data
  retrieve_broken cls h' e bad = rw (e, bad, e) refl

  check_broken_class :
      get_elem? h.objects i ≡ some (made klass raw refid)
      → files.parse refid ≡ expat_error
      → check_parsed files i h ≡ (ok tt, behind klass)
  unfolding check_parsed
  check_broken_class e bad =
      rw
        (
          e,
          e,
          retrieve_broken klass (once klass) (marked_there klass e) bad,
          attempted_there klass e,
        )
        refl

  check_broken_file :
      get_elem? h.objects i ≡ some (made file raw refid)
      → files.parse refid ≡ expat_error
      → check_parsed files i h ≡ (err attribute_error, behind file)
  unfolding check_parsed
  check_broken_file e bad =
      rw (e, e, retrieve_broken file (once file) (marked_there file e) bad, attempted_there file e)
        refl

  -- A class whose file expat turns down raises `ParsingError`, the first time its members are
  -- asked for and the next time.
  pub members_of_broken_class :
      get_elem? h.objects i ≡ some (made klass raw refid)
      → files.parse refid ≡ expat_error
      → (members_of files i h ≡ (err parsing_error, behind klass))
        × ((members_of files i (behind klass)).0 ≡ err parsing_error)
  unfolding members_of
  members_of_broken_class e bad = (
    rw (check_broken_class e bad, attempted_there klass e) refl,
    rw
        (
          check_parsed-done files (behind klass) i (attempted_there klass e) refl,
          attempted_there klass e,
        )
        refl,
  )

  -- A file object made from a reference, whose XML expat turns down, raises `AttributeError` the
  -- first time its members are asked for, since its descriptions are read before the error is
  -- looked at, and `ParsingError` the next time.
  pub members_of_broken_file :
      get_elem? h.objects i ≡ some (made file raw refid)
      → files.parse refid ≡ expat_error
      → (members_of files i h ≡ (err attribute_error, behind file))
        × ((members_of files i (behind file)).0 ≡ err parsing_error)
  unfolding members_of
  members_of_broken_file e bad = (
    rw (check_broken_file e bad) refl,
    rw
        (
          check_parsed-done files (behind file) i (attempted_there file e) refl,
          attempted_there file e,
        )
        refl,
  )

bind_attribute_error :
    (m : M (Unit {0})) (h : Heap) (t : Text) → ((m >> raise {A = Text} attribute_error) h).0 ≢ ok t
bind_attribute_error m h t = go (m h).0 (m h).1
  where
    go :
        (r : Reply (Unit {0})) (h' : Heap)
        → (continue {B = Text} r (λ _. raise attribute_error) h').0 ≢ ok t
    go (ok u) h' = λ e. cc
    go (err x) h' = λ e. cc

-- An object that was made from a reference alone, as the members of a group are, never has a name:
-- `name()` raises, whatever its file holds.
pub name_of_reference :
    (files : Files) (h : Heap) (i : ℕ) {o : Object} (t : Text)
    → get_elem? h.objects i ≡ some o
    → o.parse_data ≡ none
    → (name_of files i h).0 ≢ ok t
unfolding name_of
name_of_reference files h i t e p = rw (e, p) (bind_attribute_error (check_parsed files i) h t)
