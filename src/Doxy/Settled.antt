-- ===== src/Doxy/Settled.antt =====
-- An object that is parsed, and its members of a class, on a heap where it keeps more results.
use hachoir.Prelude.{
  ℕ, true, false, Option, some, List, Text, ◌≡◌, refl, ap, ◌∙◌, inl, inr, Bool-cases, get_elem?,
  set, get_elem?-set_self, get_elem?-set_ne, keep, ◌==◌, arith,
}
use hachoir.Doxy.Heap.{Class, Cat, MemberDict, Object, Heap}
use hachoir.Doxy.Dict.{Named}
use hachoir.Doxy.Cached.{AllThere, has_class}

-- The object is there, parsed without an error; these are its members of the class, in order, and
-- each of them was made from a parsed object, with this name.
pub record Settled (h : Heap) (i : ℕ) (c : Class) (ms : List (Option ℕ)) (l : List (Text × ℕ))
    (o : Object) : Type 0 where
  pub there : get_elem? h.objects i ≡ some o
  pub is_parsed : o.is_parsed ≡ true
  pub no_error : o.error ≡ false
  pub all_there : AllThere h o.members
  pub selected : keep (has_class h c) o.members ≡ ms
  pub named : Named h ms l

module _ (h : Heap) (i : ℕ) {o : Object} (there : get_elem? h.objects i ≡ some o)
    (x : List (Cat × List (Option ℕ))) (y : List (Cat × MemberDict)) where
  -- the object with other kept results
  abbrev pub with_caches : Object
  with_caches = record o { in_category = x; dict_members = y }

  abbrev pub cached : Heap
  cached = record h { objects = set h.objects i with_caches }

  placed :
      (j : ℕ) {p : Object}
      → get_elem? h.objects j ≡ some p
      → (q : Object) × (get_elem? cached.objects j ≡ some q)
        × (q.parse_data ≡ p.parse_data)
        × (q.cls ≡ p.cls)
  placed j {p} e = elim (Bool-cases (i == j)) [
    | inl s ↦
        let same : i ≡ j = ground arith in
        let e' : get_elem? h.objects i ≡ some p = rw same e in
        let q : o ≡ p = cc in
        (
          with_caches,
          rw (← same) (get_elem?-set_self h.objects i with_caches there),
          ap (λ (r : Object). r.parse_data) q,
          ap (λ (r : Object). r.cls) q,
        )
    | inr n ↦ (p, get_elem?-set_ne h.objects i j with_caches n ∙ e, refl, refl)
  ]

  AllThere-cached : {ms : List (Option ℕ)} → AllThere h ms → AllThere cached ms
  AllThere-cached AllThere.nil = AllThere.nil
  AllThere-cached (AllThere.failed rest) = AllThere.failed (AllThere-cached rest)
  AllThere-cached (AllThere.there j p e rest) =
      let (q, e', _, _) = placed j e in AllThere.there j q e' (AllThere-cached rest)

  Named-cached : {ms : List (Option ℕ)} {l : List (Text × ℕ)} → Named h ms l → Named cached ms l
  Named-cached Named.nil = Named.nil
  Named-cached (Named.cons j p raw e made rest) =
      let (q, e', r, _) = placed j e in Named.cons j q raw e' (r ∙ made) (Named-cached rest)

  keep-cached :
      (c : Class) {ms : List (Option ℕ)}
      → AllThere h ms
      → keep (has_class cached c) ms ≡ keep (has_class h c) ms
  keep-cached c AllThere.nil = refl
  keep-cached c (AllThere.failed rest) = keep-cached c rest
  keep-cached c (AllThere.there j p e rest) =
      let (q, e', _, k) = placed j e in rw (e, e', k, keep-cached c rest) refl

  pub Settled-cached :
      {c : Class} {ms : List (Option ℕ)} {l : List (Text × ℕ)}
      → Settled h i c ms l o
      → Settled cached i c ms l with_caches
  Settled-cached {c} s = record {
    there = get_elem?-set_self h.objects i with_caches there;
    is_parsed = s.is_parsed;
    no_error = s.no_error;
    all_there = AllThere-cached s.all_there;
    selected = keep-cached c s.all_there ∙ s.selected;
    named = Named-cached s.named;
  }
