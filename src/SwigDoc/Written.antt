-- ===== src/SwigDoc/Written.antt =====
-- swig_doc.py: the text of the interface file.
use hachoir.Prelude.{
  ℕ, Bool, true, false, not, Option, none, some, List, [], ◌∷◌, ◌++◌, Text, text_in, ◌≡◌, refl,
  ◌||◌, arith, Each, keep, map, join, append-nil, append_assoc, if◌then◌else◌, Bool-cases, inl, inr,
}
use hachoir.Doxy.Heap.{
  function, klass, of_class, block, Files, Heap, parsing_error, Reply, ok, err, M, ret,
}
use hachoir.Doxy.Parse.{name_of}
use hachoir.Doxy.Lookup.{in_category, in_category_by}
use hachoir.SwigDoc.Gives.{Gives, Gives-ret, Gives-eq, Gives-bind, Gives-try_some, Gives-try_none}
use hachoir.SwigDoc.{
  block_includes, make_func_entry, make_class_entry, make_block_entry, try_parsing, reported,
  Progress, factory_name, block_round, block_rounds, unnamed, entries_of, names_of, notice,
  blank_line, make_swig_interface,
}

-- the text that a run gives, or `none` where it raises `ParsingError`
abbrev pub reply : Option Text → Reply Text
reply (some t) = ok t
reply none = err parsing_error

-- the texts that there are, in order
abbrev pub texts : (ℕ → Option Text) → List ℕ → List Text
texts e [] = []
texts e (i ∷ is) = elim (e i) [ some t ↦ t ∷ texts e is | none ↦ texts e is ]

-- a block has an entry where its factory function was found, too
abbrev pub both : Option Text → Option Text → Option Text
both (some n) e = e
both none e = none

module _ (files : Files) (di : ℕ) (Good : Heap → Type 0) (name : ℕ → Text) where
  -- The object has this name.
  abbrev pub HasName : ℕ → Type 0
  HasName i = Gives Good (name_of files i) (ok (name i))

  -- Besides its name, this is what an entry of the object is.
  abbrev pub HasEntry : (ℕ → M Text) → (ℕ → Option Text) → ℕ → Type 0
  HasEntry make e i = HasName i × Gives Good (make i) (reply (e i))

  abbrev pub IsBlock : (ℕ → Option Text) → (ℕ → Option Text) → ℕ → Type 0
  IsBlock factory e i =
      HasName i
      × Gives Good (factory_name files di i) (reply (factory i))
      × Gives Good (make_block_entry files di i) (reply (e i))

  -- what a round adds
  abbrev after : Option Text → Option Text → Progress → Progress
  after (some n) (some t) (names, out) = (n ∷ names, out ++ t ∷ [])
  after (some n) none (names, out) = (n ∷ names, out)
  after none e p = p

  reported-Gives : {A : Type 0} (i : ℕ) (a : A) → HasName i → Gives Good (reported files i a) (ok a)
  reported-Gives i a k = Gives-bind Good (name_of files i) (λ n. ret a) k (Gives-ret Good a)

  block_round-after :
      (i : ℕ) (p : Progress) (f e : Option Text)
      → HasName i
      → Gives Good (factory_name files di i) (reply f)
      → Gives Good (make_block_entry files di i) (reply e)
      → Gives Good (block_round files di i p) (ok (after f e p))
  unfolding block_round
  block_round-after i (names, out) (some n) (some t) k a b =
      Gives-try_some Good (factory_name files di i) _ _ a (
        Gives-try_some Good (make_block_entry files di i) (λ t. ret (n ∷ names, out ++ t ∷ [])) _ b
          (Gives-ret Good _))
  block_round-after i (names, out) (some n) none k a b =
      Gives-try_some Good (factory_name files di i) _ _ a (
        Gives-try_none Good (make_block_entry files di i) (λ t. ret (n ∷ names, out ++ t ∷ [])) _ b
          (reported-Gives i (n ∷ names, out) k))
  block_round-after i (names, out) none e k a b =
      Gives-try_none Good (factory_name files di i) _ _ a (reported-Gives i (names, out) k)

  -- the factory functions that are dealt with, the last first
  abbrev dealt : (ℕ → Option Text) → List ℕ → List Text → List Text
  dealt f [] ns = ns
  dealt f (i ∷ is) ns = dealt f is (elim (f i) [ some n ↦ n ∷ ns | none ↦ ns ])

  block_rounds-texts :
      (f e : ℕ → Option Text) (bs : List ℕ) (ns out : List Text)
      → Each (IsBlock f e) bs
      → Gives Good
          (block_rounds files di (map some bs) (ns, out))
          (ok (dealt f bs ns, out ++ texts (λ i. both (f i) (e i)) bs))
  unfolding block_rounds
  block_rounds-texts f e [] ns out k = rw append-nil (Gives-ret Good (ns, out))
  block_rounds-texts f e (i ∷ is) ns out (k, ks) =
      Gives-bind Good (block_round files di i (ns, out)) (block_rounds files di (map some is))
        (block_round-after i (ns, out) (f i) (e i) k.0 k.1 k.2)
        (by_replies (λ ns' out'. block_rounds-texts f e is ns' out' ks) (f i) (e i))
    where
      by_replies :
          ((ns' out' : List Text)
            → Gives Good
                (block_rounds files di (map some is) (ns', out'))
                (ok (dealt f is ns', out' ++ texts (λ i. both (f i) (e i)) is)))
          → (a b : Option Text)
          → Gives Good (block_rounds files di (map some is) (after a b (ns, out))) (
              ok (
                dealt f is (elim a [ some n ↦ n ∷ ns | none ↦ ns ]),
                out ++ elim (both a b) [
                  | some t ↦ t ∷ texts (λ i. both (f i) (e i)) is
                  | none ↦ texts (λ i. both (f i) (e i)) is
                ],
              ))
      by_replies rest (some n) (some t) =
          Gives-eq Good _ (rw append_assoc refl) (rest (n ∷ ns) (out ++ t ∷ []))
      by_replies rest (some n) none = rest (n ∷ ns) out
      by_replies rest none b = rest ns out

  unnamed-keep :
      (names : List Text) (ms : List ℕ)
      → Each HasName ms
      → Gives Good
          (unnamed files names (map some ms))
          (ok (keep (λ i. not (text_in (name i) names)) ms))
  unfolding unnamed
  unnamed-keep names [] k = Gives-ret Good []
  unnamed-keep names (i ∷ is) (k, ks) = Gives-bind Good (name_of files i) _ k (
      Gives-bind Good (unnamed files names (map some is)) _ (unnamed-keep names is ks)
        (Gives-eq Good _ (by_test _ (text_in (name i) names)) (Gives-ret Good _)))
    where
      by_test :
          (xs : List ℕ) (b : Bool) → (if b then xs else i ∷ xs) ≡ (if not b then i ∷ xs else xs)
      by_test xs true = refl
      by_test xs false = refl

  entries_of-texts :
      (make : ℕ → M Text) (e : ℕ → Option Text) (is : List ℕ)
      → Each (HasEntry make e) is
      → Gives Good (entries_of files make is) (ok (texts e is))
  unfolding entries_of
  entries_of-texts make e [] k = Gives-ret Good []
  entries_of-texts make e (i ∷ is) (k, ks) = by_reply (entries_of-texts make e is ks) (e i) k.1
    where
      by_reply :
          Gives Good (entries_of files make is) (ok (texts e is))
          → (a : Option Text) → Gives Good (make i) (reply a)
          → Gives Good
              (entries_of files make (i ∷ is))
              (ok (elim a [ some t ↦ t ∷ texts e is | none ↦ texts e is ]))
      by_reply rest (some t) m =
          Gives-bind Good (try_parsing (make i) (λ t. ret (t ∷ [])) (reported files i [])) _
            (Gives-try_some Good (make i) (λ t. ret (t ∷ [])) _ m (Gives-ret Good (t ∷ [])))
            (Gives-bind Good (entries_of files make is) (λ ts. ret ((t ∷ []) ++ ts)) rest
              (Gives-ret Good _))
      by_reply rest none m =
          Gives-bind Good (try_parsing (make i) (λ t. ret (t ∷ [])) (reported files i [])) _
            (Gives-try_none Good (make i) (λ t. ret (t ∷ [])) _ m (reported-Gives i [] k.0))
            (Gives-bind Good (entries_of files make is) (λ ts. ret ([] ++ ts)) rest
              (Gives-ret Good _))

  blocks_named : (f e : ℕ → Option Text) (bs : List ℕ) → Each (IsBlock f e) bs → Each HasName bs
  blocks_named f e [] k = tt
  blocks_named f e (i ∷ is) (k, ks) = (k.0, blocks_named f e is ks)

  names_of-map :
      (ms : List ℕ) → Each HasName ms → Gives Good (names_of files (map some ms)) (ok (map name ms))
  unfolding names_of
  names_of-map [] k = Gives-ret Good []
  names_of-map (i ∷ is) (k, ks) = Gives-bind Good (name_of files i) _ k (
      Gives-bind Good (names_of files (map some is)) (λ rest. ret (name i ∷ rest))
        (names_of-map is ks) (Gives-ret Good _))

  text_in-dealt :
      (x : Text) (f : ℕ → Option Text) (bs : List ℕ) (ns : List Text)
      → text_in x (dealt f bs ns) ≡ (text_in x ns || text_in x (texts f bs))
  text_in-dealt x f [] ns = by_in (text_in x ns)
    where
      by_in : (b : Bool) → b ≡ (b || false)
      by_in true = refl
      by_in false = refl
  text_in-dealt x f (i ∷ is) ns = by_name (f i) (text_in-dealt x f is)
    where
      by_name :
          (a : Option Text)
          → ((ns' : List Text)
              → text_in x (dealt f is ns') ≡ (text_in x ns' || text_in x (texts f is)))
          → text_in x (dealt f is (elim a [ some n ↦ n ∷ ns | none ↦ ns ]))
            ≡ (text_in x ns || text_in x (elim a [ some n ↦ n ∷ texts f is | none ↦ texts f is ]))
      by_name none rest = rest ns
      by_name (some n) rest = ground (arith, rest (n ∷ ns))

  -- the objects whose name is not among these
  abbrev pub others : List Text → List ℕ → List ℕ
  others names = keep (λ i. not (text_in (name i) names))

  others-dealt :
      (f : ℕ → Option Text) (bs ms : List ℕ) → others (dealt f bs []) ms ≡ others (texts f bs) ms
  others-dealt f bs [] = refl
  others-dealt f bs (i ∷ is) = elim (Bool-cases (text_in (name i) (texts f bs))) [
    | inl e ↦ rw (text_in-dealt (name i) f bs [], e, others-dealt f bs is) refl
    | inr e ↦ rw (text_in-dealt (name i) f bs [], e, others-dealt f bs is) refl
  ]

  -- From a heap on which the search for blocks ends within a set of heaps, and where names, further
  -- searches and entries come out the same on all heaps of the set and do not leave it, the text of
  -- the interface file is the notice, the custom output, and these entries, parted by blank lines:
  -- those of the blocks whose factory function is found; those of the functions that have not the
  -- name of such a factory function; and those of the classes that have not the name of a block.
  -- Each group is in the order of the members. An entry that raises `ParsingError` is left out, and
  -- no other is lost.
  pub make_swig_interface-texts :
      (factory of_block of_func of_klass : ℕ → Option Text) (bs fs ks : List ℕ)
      (custom_output : Text) (h : Heap) {h1 : Heap}
      → in_category_by (block_includes files) files di block h ≡ (ok (map some bs), h1)
      → Good h1
      → Gives Good (in_category files di (of_class function)) (ok (map some fs))
      → Gives Good (in_category files di (of_class klass)) (ok (map some ks))
      → Each (IsBlock factory of_block) bs
      → Each HasName fs
      → Each HasName ks
      → Each
          (HasEntry (λ f. make_func_entry files f none none none) of_func)
          (others (texts factory bs) fs)
      → Each (HasEntry (λ k. make_class_entry files k none) of_klass) (others (map name bs) ks)
      → (make_swig_interface files di custom_output h).0
        ≡ ok (
            join blank_line (
              notice ∷ custom_output ∷ []
              ++ texts (λ i. both (factory i) (of_block i)) bs
              ++ texts of_func (others (texts factory bs) fs)
              ++ texts of_klass (others (map name bs) ks)))
  unfolding make_swig_interface
  make_swig_interface-texts factory of_block of_func of_klass bs fs ks custom h {h1} eb g1 ef ek kb
        kf kk lf lk =
      let (h2, e2, g2) = block_rounds-texts factory of_block bs [] [] kb h1 g1 in
      let (h3, e3, g3) = ef h2 g2 in
      let (h4, e4, g4) = unnamed-keep (dealt factory bs []) fs kf h3 g3 in
      let (h5, e5, g5) =
        entries_of-texts (λ f. make_func_entry files f none none none) of_func
          (others (texts factory bs) fs) lf h4 g4 in
      let (h6, e6, g6) = names_of-map bs (blocks_named factory of_block bs kb) h5 g5 in
      let (h7, e7, g7) = ek h6 g6 in
      let (h8, e8, g8) = unnamed-keep (map name bs) ks kk h7 g7 in
      let (h9, e9, g9) =
        entries_of-texts (λ k. make_class_entry files k none) of_klass (others (map name bs) ks) lk
          h8 g8 in
      rw (eb, e2, e3, e4, others-dealt factory bs fs, e5, e6, e7, e8, e9) refl
