-- ===== src/Doxy/Valid/Writes.antt =====
-- The writes to the heap keep it valid.
use hachoir.Prelude.{
  List, ℕ, zero, suc, true, Option, none, some, [], ◌∷◌, ◌++◌, Text, ◌≡◌, refl, sym, ◌∙◌, ap, arith,
  inl, inr, length, get_elem?, set, length-append, length-set, get_elem?-set_self, get_elem?-set_ne,
  get_elem?-append, get_elem?-append_inv, get_elem?-length, text_eq, text_eq_iff, Bool-cases, ◌==◌,
}
use mathlib.Core.Path.{subst}
use hachoir.Doxy.Heap.{Class, Raw, Object, Heap, fresh, lookup_ref, start}
use hachoir.Doxy.Valid.{
  Closed, AllClosed, size, IsValid, Same, Stays, AllClosed-le, AllClosed-append, AllClosed-set,
}

some_injective {ℓ} : {A : Type ℓ} {a b : A} → some a ≡ some b → a ≡ b
some_injective e = cc

equal : (i j : ℕ) → (i == j) ≡ true → i ≡ j
equal i j h = ground arith

-- the index alone
pub start-IsValid : IsValid start
start-IsValid = record {
  closed = (record { members = tt; lists = tt; dicts = tt }, tt);
  registered = unnamed;
  known = λ k i e. absurd (none_some e);
}
  where
    none_some : {i : ℕ} → none ≡ some i → ⊥
    none_some e = cc

    unnamed :
        (i : ℕ) (o : Object) (k : Text)
        → get_elem? start.objects i ≡ some o
        → o.refid ≡ some k
        → none ≡ some i
    unnamed zero o k e s = cc
    unnamed (suc i) o k e s = cc

-- an object is written over another with the same reference
module _ (h : Heap) (v : IsValid h) (i : ℕ) (o o' : Object) where
  abbrev rewritten : Heap
  rewritten = record h { objects = set h.objects i o' }

  there : get_elem? h.objects i ≡ some o → (j : ℕ) → i ≡ j → get_elem? rewritten.objects j ≡ some o'
  there e j q = ap (get_elem? rewritten.objects) (sym q) ∙ get_elem?-set_self h.objects i o' e

  registered_set :
      get_elem? h.objects i ≡ some o
      → o'.refid ≡ o.refid
      → (j : ℕ) (p : Object) (k : Text) → get_elem? rewritten.objects j ≡ some p
      → p.refid ≡ some k
      → lookup_ref k h.refs ≡ some j
  registered_set e r j p k q s = elim (Bool-cases (i == j)) [
    | inl b ↦
        (let same : o' ≡ p = some_injective (sym (there e j (equal i j b)) ∙ q) in
          v.registered i o k e (sym r ∙ ap (λ (x : Object). x.refid) same ∙ s)
          ∙ ap some (equal i j b))
    | inr b ↦ v.registered j p k (sym (get_elem?-set_ne h.objects i j o' b) ∙ q) s
  ]

  known_set :
      get_elem? h.objects i ≡ some o
      → o'.refid ≡ o.refid
      → (k : Text) (j : ℕ) → lookup_ref k h.refs ≡ some j
      → (p : Object) × (get_elem? rewritten.objects j ≡ some p) × (p.refid ≡ some k)
  known_set e r k j q =
      let (p, e', s) = v.known k j q in
      elim (Bool-cases (i == j)) [
        | inl b ↦
            (let same : p ≡ o =
                some_injective (sym e' ∙ ap (get_elem? h.objects) (sym (equal i j b)) ∙ e) in
              (o', there e j (equal i j b), r ∙ sym (ap (λ (x : Object). x.refid) same) ∙ s))
        | inr b ↦ (p, get_elem?-set_ne h.objects i j o' b ∙ e', s)
      ]

  pub Stays-set : get_elem? h.objects i ≡ some o → Same o o' → Stays h rewritten
  Stays-set e same j p q = elim (Bool-cases (i == j)) [
    | inl b ↦
        (let own : o ≡ p = some_injective (sym e ∙ ap (get_elem? h.objects) (equal i j b) ∙ q) in
          (o', there e j (equal i j b), subst (λ (x : Object). Same x o') own same))
    | inr b ↦ (p, get_elem?-set_ne h.objects i j o' b ∙ q, (refl, refl, refl, λ t. t))
  ]

  pub IsValid-set :
      get_elem? h.objects i ≡ some o → o'.refid ≡ o.refid → Closed (size h) o' → IsValid rewritten
  IsValid-set e r c = record {
    closed =
        AllClosed-le (size h) (length (set h.objects i o')) (set h.objects i o')
          (omega (arith, length-set h.objects i o'))
          (AllClosed-set (size h) h.objects i o' v.closed c);
    registered = registered_set e r;
    known = known_set e r;
  }

Closed-fresh :
    (n : ℕ) (cls : Class) (raw : Option Raw) (r : Option Text)
    → Closed n (record (fresh cls raw) { refid = r })
Closed-fresh n cls raw r = record { members = tt; lists = tt; dicts = tt }

AllClosed-new :
    (h : Heap) (o : Object)
    → IsValid h
    → ((n : ℕ) → Closed n o)
    → AllClosed (length (h.objects ++ o ∷ [])) (h.objects ++ o ∷ [])
AllClosed-new h o v c =
    AllClosed-append (length (h.objects ++ o ∷ [])) h.objects o
      (AllClosed-le (size h) (length (h.objects ++ o ∷ [])) h.objects
        (omega (arith, length-append h.objects (o ∷ []))) v.closed)
      (c (length (h.objects ++ o ∷ [])))

pub Stays-append :
    (h : Heap) (o : Object) (refs : List (Text × ℕ))
    → Stays h (record { objects = h.objects ++ o ∷ []; refs = refs })
Stays-append h o refs i p e =
    (p, get_elem?-append h.objects (o ∷ []) i e, (refl, refl, refl, λ t. t))

-- a new object without a reference
pub IsValid-fresh :
    (h : Heap) (cls : Class) (raw : Option Raw)
    → IsValid h
    → IsValid (record h { objects = h.objects ++ fresh cls raw ∷ [] })
IsValid-fresh h cls raw v = record {
  closed = AllClosed-new h (fresh cls raw) v (λ n. Closed-fresh n cls raw none);
  registered = λ i o k e s. elim (get_elem?-append_inv h.objects (fresh cls raw) i e) [
    | inl e' ↦ v.registered i o k e' s
    | inr (q, same) ↦ absurd (unnamed o k same s)
  ];
  known = λ k i e.
      (let (o, e', s) = v.known k i e in
        (o, get_elem?-append h.objects (fresh cls raw ∷ []) i e', s));
}
  where
    unnamed : (o : Object) (k : Text) → fresh cls raw ≡ o → o.refid ≡ some k → ⊥
    unnamed o k same s = none_some (ap (λ (x : Object). x.refid) same ∙ s)
      where
        none_some : none ≡ some k → ⊥
        none_some e = cc

-- a new object with a reference that is not known yet
module _ (h : Heap) (v : IsValid h) (cls : Class) (raw : Option Raw) (refid : Text) where
  abbrev named : Object
  named = record (fresh cls raw) { refid = some refid }

  abbrev with_named : Heap
  with_named = record { objects = h.objects ++ named ∷ []; refs = (refid, size h) ∷ h.refs }

  registered_named :
      lookup_ref refid h.refs ≡ none
      → (i : ℕ) (o : Object) (k : Text) → get_elem? with_named.objects i ≡ some o
      → o.refid ≡ some k
      → lookup_ref k with_named.refs ≡ some i
  registered_named new i o k e s = elim (get_elem?-append_inv h.objects named i e) [
    | inl e' ↦ elim (Bool-cases (text_eq refid k)) [
      | inl b ↦ absurd (
          clash (
            sym new
            ∙ ap (λ (t : Text). lookup_ref t h.refs) ((text_eq_iff refid k).0 b)
            ∙ v.registered i o k e' s))
      | inr b ↦ rw b (v.registered i o k e' s)
    ]
    | inr (q, same) ↦
        (let own : refid ≡ k = some_injective (ap (λ (x : Object). x.refid) same ∙ s) in
          rw ((text_eq_iff refid k).1 own) (ap some (sym q)))
  ]
    where
      clash : none ≡ some i → ⊥
      clash e = cc

  known_named :
      (k : Text) (i : ℕ)
      → lookup_ref k with_named.refs ≡ some i
      → (o : Object) × (get_elem? with_named.objects i ≡ some o) × (o.refid ≡ some k)
  known_named k i e = elim (Bool-cases (text_eq refid k)) [
    | inl b ↦
        (let at : size h ≡ i = some_injective (rw b at e) in
          (
            named,
            ap (get_elem? with_named.objects) (sym at) ∙ get_elem?-length h.objects named,
            ap some ((text_eq_iff refid k).0 b),
          ))
    | inr b ↦
        (let (o, e', s) = v.known k i (rw b at e) in
          (o, get_elem?-append h.objects (named ∷ []) i e', s))
  ]

  pub IsValid-named : lookup_ref refid h.refs ≡ none → IsValid with_named
  IsValid-named new = record {
    closed = AllClosed-new h named v (λ n. Closed-fresh n cls raw (some refid));
    registered = registered_named new;
    known = known_named;
  }

-- an object that is known is registered once more
module _ (h : Heap) (v : IsValid h) (refid : Text) (i : ℕ) where
  abbrev again : Heap
  again = record h { refs = (refid, i) ∷ h.refs }

  lookup_ref_again :
      lookup_ref refid h.refs ≡ some i → (k : Text) → lookup_ref k again.refs ≡ lookup_ref k h.refs
  lookup_ref_again e k = elim (Bool-cases (text_eq refid k)) [
    | inl b ↦ rw b (sym e ∙ ap (λ (t : Text). lookup_ref t h.refs) ((text_eq_iff refid k).0 b))
    | inr b ↦ rw b refl
  ]

  pub IsValid-again : lookup_ref refid h.refs ≡ some i → IsValid again
  IsValid-again e = record {
    closed = v.closed;
    registered = λ j o k q s. lookup_ref_again e k ∙ v.registered j o k q s;
    known = λ k j q. v.known k j (sym (lookup_ref_again e k) ∙ q);
  }
