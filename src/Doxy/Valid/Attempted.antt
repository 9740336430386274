-- ===== src/Doxy/Valid/Attempted.antt =====
-- base.py: an object is parsed at most once, whether or not it can be.
use hachoir.Prelude.{
  ℕ, ◌<◌, true, false, Option, some, ◌≡◌, refl, sym, arith, get_elem?, set, get_elem?-some,
  get_elem?-lt, get_elem?-set_self, inl, inr, Bool-cases,
}
use mathlib.Core.Path.{subst}
use hachoir.Doxy.Heap.{
  Class, function, klass, file, namespace, group, friend, other, index, Raw, Files, Object, Heap,
  Reply, ok, M, ◌>>◌,
}
use hachoir.Doxy.Parse.{
  mark, class_body, parse_class, file_body, parse_file, group_body, parse_group, parse_as,
  parse_unless, index_unless, by_class, check_parsed,
}
use hachoir.Doxy.Dict.{check_parsed-done}
use hachoir.Doxy.Valid.{size, IsValid}
use hachoir.Doxy.Valid.Rules.{Done, Reached, Ensures, Ensures-run}
use hachoir.Doxy.Valid.Parsing.{
  mark-Ensures, parse_function-Ensures, class_body-Ensures, file_body-Ensures, group_body-Ensures,
  retrieved-Ensures,
}
use hachoir.Doxy.Valid.Checking.{add_compounds-Ensures}

-- behind the run, the object is there and counts as parsed
abbrev Marked : ℕ → Reply (Unit {0}) × Heap → Type 0
Marked i r = (o : Object) × (get_elem? r.1.objects i ≡ some o) × (o.is_parsed ≡ true)

module _ (h : Heap) (v : IsValid h) (i : ℕ) (o : Object)
    (there : get_elem? h.objects i ≡ some o) where
  abbrev on_mark : Heap
  on_mark = record h { objects = set h.objects i (record o { is_parsed = true }) }

  mark_run : mark i h ≡ (ok tt, on_mark)
  mark_run = rw there refl

  marked_there : get_elem? on_mark.objects i ≡ some (record o { is_parsed = true })
  marked_there = get_elem?-set_self h.objects i (record o { is_parsed = true }) there

  on_mark-Reached : Reached h Done (ok tt) on_mark
  on_mark-Reached =
      subst (λ (r : Reply (Unit {0}) × Heap). Reached h Done r.0 r.1) mark_run
        (Ensures-run (size h) (mark i) Done h
          (mark-Ensures (size h) i (get_elem?-lt h.objects i there)) v (omega arith))

  Marked-mark : Marked i (mark i h)
  Marked-mark = subst (Marked i) (sym mark_run) (record o { is_parsed = true }, marked_there, refl)

  -- what follows the mark does not take it away, an error neither
  Marked-then : (rest : M (Unit {0})) → Ensures (size h) rest Done → Marked i ((mark i >> rest) h)
  Marked-then rest e =
      let (w, l, s, d) = on_mark-Reached in
      let (w', l', s', d') = Ensures-run (size h) rest Done on_mark e w l in
      let (o', e', (c, r, p, q)) = s' i (record o { is_parsed = true }) marked_there in
      rw there (o', e', q refl)

  i_there : i < size h
  i_there = get_elem?-lt h.objects i there

  Marked-parse_as :
      (cls : Class) (files : Files) (raw : Option Raw) → Marked i (parse_as cls files i raw h)
  unfolding parse_as parse_class parse_file parse_group
  Marked-parse_as function files raw = Marked-then _ (parse_function-Ensures (size h) i raw i_there)
  Marked-parse_as klass files raw = Marked-then _ (
      retrieved-Ensures files (size h) i (class_body i) i_there
        (λ m bad c. class_body-Ensures m i bad c))
  Marked-parse_as file files raw = Marked-then _ (
      retrieved-Ensures files (size h) i (file_body i) i_there
        (λ m bad c. file_body-Ensures m i bad c))
  Marked-parse_as group files raw = Marked-then _ (
      retrieved-Ensures files (size h) i (group_body i) i_there
        (λ m bad c. group_body-Ensures m i bad c))
  Marked-parse_as namespace files raw = Marked-mark
  Marked-parse_as friend files raw = Marked-mark
  Marked-parse_as other files raw = Marked-mark
  Marked-parse_as index files raw = Marked-mark

  Marked-by_class :
      (cls : Class) (files : Files) → o.is_parsed ≡ false → Marked i (by_class cls files i o h)
  unfolding by_class parse_unless index_unless
  Marked-by_class index files p =
      rw p (Marked-then _ (add_compounds-Ensures files (size h) i files.compounds i_there))
  Marked-by_class function files p = rw p (Marked-parse_as function files o.parse_data)
  Marked-by_class klass files p = rw p (Marked-parse_as klass files o.parse_data)
  Marked-by_class file files p = rw p (Marked-parse_as file files o.parse_data)
  Marked-by_class group files p = rw p (Marked-parse_as group files o.parse_data)
  Marked-by_class namespace files p = rw p (Marked-parse_as namespace files o.parse_data)
  Marked-by_class friend files p = rw p (Marked-parse_as friend files o.parse_data)
  Marked-by_class other files p = rw p (Marked-parse_as other files o.parse_data)

  Marked-check_parsed : (files : Files) → Marked i (check_parsed files i h)
  unfolding check_parsed
  Marked-check_parsed files = elim (Bool-cases o.is_parsed) [
    | inl p ↦ subst (Marked i) (sym (check_parsed-done files h i there p)) (o, there, p)
    | inr p ↦ rw there (Marked-by_class o.cls files p)
  ]

-- On a valid heap, an object is parsed at most once: asked again, right behind the first time,
-- `check_parsed` does nothing, also where the first time raised an error.
pub check_parsed_twice :
    (files : Files) (h : Heap) (i : ℕ)
    → IsValid h
    → i < size h
    → check_parsed files i (check_parsed files i h).1 ≡ (ok tt, (check_parsed files i h).1)
check_parsed_twice files h i v b =
    let (o, there) = get_elem?-some h.objects i b in
    let (o', there', p) = Marked-check_parsed h v i o there files in
    check_parsed-done files (check_parsed files i h).1 i there' p
