-- ===== src/Doxy/Asked.antt =====
-- `get_member` for a name without `::`: the first lookup among the members of a class, which builds
-- the dictionary, and the later ones, which find it.
use hachoir.Prelude.{
  ℕ, true, not, Option, none, some, List, [], ◌∷◌, Text, ◌≡◌, refl, ap, ◌⊎◌, inl, inr, all, ◌==◌,
}
use hachoir.Doxy.Heap.{Class, of_class, Files, Object, Heap, Reply, ok}
use hachoir.Doxy.Parse.{confirm_no_error}
use hachoir.Doxy.Lookup.{
  lookup_cat, in_category, get_dict_members, get_member, has_member, is_member,
}
use hachoir.Doxy.Dict.{
  matching, dict_of, lookup-dict, build_dict-Named, confirm-done, answer, chosen-answer,
  split_plain,
}
use hachoir.Doxy.Settled.{Settled, with_caches, cached, Settled-cached}
use hachoir.Doxy.Cached.{select-keep, cat_eq_refl}

-- what an object keeps has not been computed, or is this
abbrev pub Unless {ℓ} : {A : Type ℓ} → Option A → A → Type ℓ
Unless v a = (v ≡ none) ⊎ (v ≡ some a)

-- Besides, what the object keeps of earlier lookups is right.
pub record IsReady (h : Heap) (i : ℕ) (c : Class) (l : List (Text × ℕ)) : Type 0 where
  pub object : Object
  pub ms : List (Option ℕ)
  pub settled : Settled h i c ms l object
  pub kept : Unless (lookup_cat (of_class c) object.in_category) ms
  pub dict : Unless (lookup_cat (of_class c) object.dict_members) (dict_of [] l)

module _ (files : Files) (i : ℕ) (c : Class) {ms : List (Option ℕ)} {l : List (Text × ℕ)}
    {o : Object} where
  confirmed : (h : Heap) → Settled h i c ms l o → confirm_no_error files i h ≡ (ok tt, h)
  confirmed h s = confirm-done files h i s.there s.is_parsed s.no_error

  in_category_kept :
      (h : Heap)
      → Settled h i c ms l o
      → lookup_cat (of_class c) o.in_category ≡ some ms
      → in_category files i (of_class c) h ≡ (ok ms, h)
  unfolding in_category
  in_category_kept h s k = rw (confirmed h s, s.there, k) refl

  in_category_first :
      (h : Heap) (s : Settled h i c ms l o)
      → lookup_cat (of_class c) o.in_category ≡ none
      → in_category files i (of_class c) h
        ≡ (ok ms, cached h i s.there ((of_class c, ms) ∷ o.in_category) o.dict_members)
  unfolding in_category
  in_category_first h s k =
      rw (confirmed h s, s.there, k, select-keep h c s.all_there, s.selected, s.there) refl

  -- the dictionary is built from the members of the class, and kept
  get_dict_first :
      (h : Heap)
      → Settled h i c ms l o
      → lookup_cat (of_class c) o.dict_members ≡ none
      → Unless (lookup_cat (of_class c) o.in_category) ms
      → (h' : Heap) × (get_dict_members files i (of_class c) h ≡ (ok (dict_of [] l), h'))
        × IsReady h' i c l
  unfolding get_dict_members
  get_dict_first h s d (inr k) =
      let y = (of_class c, dict_of [] l) ∷ o.dict_members in
      (
        cached h i s.there o.in_category y,
        rw
            (
              confirmed h s,
              s.there,
              d,
              in_category_kept h s k,
              build_dict-Named files h [] s.named,
              s.there,
            )
            refl,
        record {
          object = with_caches h i s.there o.in_category y;
          ms = ms;
          settled = Settled-cached h i s.there o.in_category y s;
          kept = inr k;
          dict = inr (rw (cat_eq_refl c) refl);
        },
      )
  get_dict_first h s d (inl k) =
      let x = (of_class c, ms) ∷ o.in_category in
      let y = (of_class c, dict_of [] l) ∷ o.dict_members in
      let h1 = cached h i s.there x o.dict_members in
      let s1 = Settled-cached h i s.there x o.dict_members s in
      (
        cached h1 i s1.there x y,
        rw
            (
              confirmed h s,
              s.there,
              d,
              in_category_first h s k,
              build_dict-Named files h1 [] s1.named,
              s1.there,
            )
            refl,
        record {
          object = with_caches h1 i s1.there x y;
          ms = ms;
          settled = Settled-cached h1 i s1.there x y s1;
          kept = inr (rw (cat_eq_refl c) refl);
          dict = inr (rw (cat_eq_refl c) refl);
        },
      )

module _ (files : Files) (i : ℕ) (c : Class) {l : List (Text × ℕ)} where
  get_dict-IsReady :
      (h : Heap)
      → IsReady h i c l
      → (h' : Heap) × (get_dict_members files i (of_class c) h ≡ (ok (dict_of [] l), h'))
        × IsReady h' i c l
  unfolding get_dict_members
  get_dict-IsReady h r = by_dict r.dict
    where
      by_dict :
          Unless (lookup_cat (of_class c) r.object.dict_members) (dict_of [] l)
          → (h' : Heap) × (get_dict_members files i (of_class c) h ≡ (ok (dict_of [] l), h'))
            × IsReady h' i c l
      by_dict (inl d) = get_dict_first files i c h r.settled d r.kept
      by_dict (inr d) = (h, rw (confirmed files i c h r.settled, r.settled.there, d) refl, r)

  get_member-IsReady :
      (name : Text) (h : Heap) {h1 : Heap}
      → all (λ x. not (x == b':')) name ≡ true
      → confirm_no_error files i h ≡ (ok tt, h1)
      → IsReady h1 i c l
      → (h' : Heap) × (get_member files name (of_class c) i h ≡ (answer (matching name l), h'))
        × IsReady h' i c l
  unfolding get_member
  get_member-IsReady name h {h1} plain parsed r =
      let (h', e, r') = get_dict-IsReady h1 r in
      (
        h',
        rw (split_plain name plain, parsed, e, lookup-dict name l)
            (chosen-answer (matching name l) h'),
        r',
      )

  -- Of an object that parses without an error, whose members of the class were all made from parsed
  -- objects, a lookup of a name without `::` among these members returns the one that has the name;
  -- it raises `NoSuchMember` if there is none, and `Duplicate` if there are several. So does every
  -- later lookup, which finds the dictionary that the first has built. What the object kept of
  -- lookups before is right, or there were none.
  pub get_member-answer :
      (name : Text) (h : Heap) {h1 : Heap}
      → all (λ x. not (x == b':')) name ≡ true
      → confirm_no_error files i h ≡ (ok tt, h1)
      → IsReady h1 i c l
      → (h' : Heap) × (get_member files name (of_class c) i h ≡ (answer (matching name l), h'))
        × ((later : Text)
            → all (λ x. not (x == b':')) later ≡ true
            → (get_member files later (of_class c) i h').0 ≡ answer (matching later l))
  get_member-answer name h plain parsed r =
      let (h', e, r') = get_member-IsReady name h plain parsed r in
      (
        h',
        e,
        λ later k.
            let (_, e', _) = get_member-IsReady later h' k (confirmed files i c h' r'.settled) r' in
            ap (λ (p : Reply ℕ × Heap). p.0) e',
      )

  -- `has_member` tells whether there is a member of the name, and lets `Duplicate` through.
  pub has_member-answer :
      (name : Text) (h : Heap) {h1 : Heap}
      → all (λ x. not (x == b':')) name ≡ true
      → confirm_no_error files i h ≡ (ok tt, h1)
      → IsReady h1 i c l
      → (has_member files name (of_class c) i h).0 ≡ is_member (answer (matching name l))
  unfolding has_member
  has_member-answer name h plain parsed r =
      let (_, e, _) = get_member-IsReady name h plain parsed r in
      ap (λ (p : Reply ℕ × Heap). is_member p.0) e
