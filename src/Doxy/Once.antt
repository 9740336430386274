-- ===== src/Doxy/Once.antt =====
-- base.py: `process_memberdefs` makes one member for each name.
use hachoir.Prelude.{
  ℕ, Option, none, some, List, [], ◌∷◌, ◌++◌, Text, ◌≡◌, refl, sym, ◌∙◌, ap, arith, inl, inr,
  Bool-cases, get_elem?, set, get_elem?-set_self, get_elem?-length, get_elem?-append, get_elem?-lt,
  append-nil, append_assoc, text_in, if◌then◌else◌,
}
use hachoir.Doxy.Heap.{Class, Raw, Compound, Object, Heap, ok, Reply, lookup_ref, fresh, update}
use hachoir.Doxy.Base.{
  known_or_new, by_refid, from_parse_data, add_ref_of, add_ref, get_cls, convert_as, convert_mem,
  add_memberdefs, flatten, process_memberdefs,
}
use hachoir.Doxy.Valid.{size, IsValid, Stays, Stays-refl, Stays-trans}
use hachoir.Doxy.Valid.Rules.{Done, Reached, Ensures-run}
use hachoir.Doxy.Valid.Making.{Listed, convert_mem-Ensures, Ensures-members}
use mathlib.Core.Path.{subst}

-- the objects of the one heap stand first on the other
abbrev Extends : Heap → Heap → Type 0
Extends h g = (extra : List Object) × (g.objects ≡ h.objects ++ extra)

-- a run that ends with the answer, on a heap that extends the first
abbrev Ends {ℓ} : {A : Type ℓ} → Heap → (Reply A × Heap) → (A → Heap → Type 0) → Type ℓ
Ends {A = A} h r Q = (a : A) × (g : Heap) × (r ≡ (ok a, g)) × Extends h g × Q a g

-- an object with the reference, or with none
abbrev Carries : Option Text → ℕ → Heap → Type 0
Carries r j g = (o : Object) × (get_elem? g.objects j ≡ some o) × (o.refid ≡ r)

known_or_new_ends :
    (h : Heap) (cls : Class) (raw : Option Raw) (refid : Text) (o : Option ℕ)
    → IsValid h
    → lookup_ref refid h.refs ≡ o
    → Ends h (known_or_new o cls raw refid h) (Carries (some refid))
known_or_new_ends h cls raw refid none v e = (
  size h,
  _,
  refl,
  (_, refl),
  (_, get_elem?-length h.objects (record (fresh cls raw) { refid = some refid }), refl),
)
known_or_new_ends h cls raw refid (some i) v e =
    (i, h, refl, ([], sym (append-nil h.objects)), v.known refid i e)

by_refid_ends :
    (h : Heap) (r : Option Text) (cls : Class) (raw : Raw)
    → IsValid h
    → Ends h (by_refid r cls raw h) (Carries r)
unfolding by_refid
by_refid_ends h none cls raw v =
    (size h, _, refl, (_, refl), (_, get_elem?-length h.objects (fresh cls (some raw)), refl))
by_refid_ends h (some refid) cls raw v = known_or_new_ends h cls (some raw) refid _ v refl

add_ref_ends :
    (h : Heap) (r : Option Text) (j : ℕ) → Carries r j h → Ends h (add_ref j h) (λ u. Carries r j)
unfolding add_ref add_ref_of
add_ref_ends h none j (o, e, s) =
    (tt, h, rw (e, s) refl, ([], sym (append-nil h.objects)), (o, e, s))
add_ref_ends h (some k) j (o, e, s) = (
  tt,
  record h { refs = (k, j) ∷ h.refs },
  rw (e, s) refl,
  ([], sym (append-nil h.objects)),
  (o, e, s),
)

-- A member stands for a parsed object: `None` where its kind has no class, and an object with its
-- reference otherwise.
abbrev pub Stands : Heap → Raw → Option ℕ → Type 0
Stands g mem none = get_cls mem ≡ none
Stands g mem (some j) = Carries mem.refid j g

convert_as_ends :
    (h : Heap) (c : Option Class) (mem : Raw)
    → get_cls mem ≡ c
    → IsValid h
    → Ends h (convert_as c mem h) (λ m g. Stands g mem m)
unfolding convert_as from_parse_data
convert_as_ends h none mem q v = (none, h, refl, ([], sym (append-nil h.objects)), q)
convert_as_ends h (some cls) mem q v =
    let (j, g, e, (x, p), c) = by_refid_ends h mem.refid cls mem v in
    let (u, k, e', (y, p'), c') = add_ref_ends g mem.refid j c in
    (
      some j,
      k,
      rw (e, e') refl,
      (x ++ y, p' ∙ ap (λ (os : List Object). os ++ y) p ∙ append_assoc h.objects x y),
      c',
    )

-- the same, with what holds of the heap behind it
convert_mem_ends :
    (h : Heap) (mem : Raw)
    → IsValid h
    → (m : Option ℕ) × (g : Heap) × (convert_mem mem h ≡ (ok m, g))
      × Extends h g
      × Stands g mem m
      × Reached h Listed (ok m) g
unfolding convert_mem
convert_mem_ends h mem v =
    let (m, g, e, x, st) = convert_as_ends h (get_cls mem) mem refl v in
    (
      m,
      g,
      e,
      x,
      st,
      subst (λ (r : Reply (Option ℕ) × Heap). Reached h Listed r.0 r.1) e
          (Ensures-run 0 (convert_mem mem) Listed h (convert_mem-Ensures 0 mem) v (omega arith)),
    )

-- the parsed objects whose name is not among those given, the first of each name
unfoldable pub distinct : List Text → List Raw → List Raw
distinct uniques [] = []
distinct uniques (mem ∷ mems) =
    let known = distinct uniques mems in
    let new = distinct (mem.name ∷ uniques) mems in
    if text_in mem.name uniques then known else mem ∷ new

-- a member for each parsed object, in order
abbrev pub AllStand : Heap → List Raw → List (Option ℕ) → Type 0
AllStand g [] [] = Unit {0}
AllStand g [] (m ∷ ms) = ⊥
AllStand g (mem ∷ mems) [] = ⊥
AllStand g (mem ∷ mems) (m ∷ ms) = Stands g mem m × AllStand g mems ms

Stands-Stays : (g k : Heap) (mem : Raw) (m : Option ℕ) → Stays g k → Stands g mem m → Stands k mem m
Stands-Stays g k mem none s q = q
Stands-Stays g k mem (some j) s (o, e, r) =
    let (o', e', (c, r', d, p)) = s j o e in (o', e', r' ∙ r)

-- the object has these members more, and everything else about it is as before
abbrev pub Gained : ℕ → Object → Heap → List Raw → (Reply (Unit {0}) × Heap) → Type 0
Gained i o h mems r =
    (ms : List (Option ℕ)) × (g : Heap) × (o' : Object) × (r ≡ (ok tt, g))
    × IsValid g
    × Stays h g
    × (get_elem? g.objects i ≡ some o')
    × (o'.members ≡ o.members ++ ms)
    × AllStand g mems ms

abbrev with_member : Object → Option ℕ → Object
with_member o m = record o { members = o.members ++ m ∷ [] }

update_ends :
    (g : Heap) (i : ℕ) (o : Object) (m : Option ℕ)
    → IsValid g
    → Listed (size g) m
    → get_elem? g.objects i ≡ some o
    → Reached g Done (ok tt) (record g { objects = set g.objects i (with_member o m) })
update_ends g i o m v l e =
    subst (λ (r : Reply (Unit {0}) × Heap). Reached g Done r.0 r.1) (updated e)
      (Ensures-run (size g) (update i (λ x. with_member x m)) Done g
        (Ensures-members (size g) i (m ∷ []) (get_elem?-lt g.objects i e) l) v (omega arith))
  where
    updated :
        get_elem? g.objects i ≡ some o
        → update i (λ x. with_member x m) g
          ≡ (ok tt, record g { objects = set g.objects i (with_member o m) })
    updated e = rw e refl

add_memberdefs-Gained :
    (h : Heap) (i : ℕ) (o : Object) (uniques : List Text) (mems : List Raw)
    → IsValid h
    → get_elem? h.objects i ≡ some o
    → Gained i o h (distinct uniques mems) (add_memberdefs i uniques mems h)
unfolding add_memberdefs distinct
add_memberdefs-Gained h i o uniques [] v e =
    ([], h, o, refl, v, Stays-refl h, e, sym (append-nil o.members), tt)
add_memberdefs-Gained h i o uniques (mem ∷ mems) v e =
    let (m, g, run, (x, p), st, (w, l, s, a)) = convert_mem_ends h mem v in
    let there = ap (λ (os : List Object). get_elem? os i) p ∙ get_elem?-append h.objects x i e in
    elim (Bool-cases (text_in mem.name uniques)) [
      | inl b ↦
          (let (ms, k, o', q, w', t, e', n, all) =
              add_memberdefs-Gained g i o uniques mems w there in
            rw (run, b) (ms, k, o', q, w', Stays-trans h g k s t, e', n, all))
      | inr b ↦
          (let (kv, kl, ks, done) = update_ends g i o m w a there in
            let (ms, k, o', q, w', t, e', n, all) =
              add_memberdefs-Gained (record g { objects = set g.objects i (with_member o m) }) i
                (with_member o m) (mem.name ∷ uniques) mems kv
                (get_elem?-set_self g.objects i (with_member o m) there) in
            rw (run, b, there)
              (
                m ∷ ms,
                k,
                o',
                q,
                w',
                Stays-trans h g k s (
                    Stays-trans g (record g { objects = set g.objects i (with_member o m) }) k ks
                      t),
                e',
                n ∙ append_assoc o.members (m ∷ []) ms,
                (
                  Stands-Stays g k mem m
                      (Stays-trans g (record g { objects = set g.objects i (with_member o m) }) k ks
                        t)
                      st,
                  all,
                ),
              ))
    ]

-- On a valid heap, `process_memberdefs` of an object on it ends without an error, keeps the heap
-- valid, and adds one member for each name of a member definition, in the order in which the names
-- come first: an object with the same reference, if any, as the first definition of that name, or
-- `None` where the kind of this one has no class. The members that there were stay before them, and
-- every object keeps its class, its reference and its parsed data, and stays parsed.
pub process_memberdefs-Gained :
    (h : Heap) (i : ℕ) (o : Object) (c : Compound)
    → IsValid h
    → get_elem? h.objects i ≡ some o
    → Gained i o h (distinct [] (flatten c.sections)) (process_memberdefs i c h)
unfolding process_memberdefs
process_memberdefs-Gained h i o c v e = add_memberdefs-Gained h i o [] (flatten c.sections) v e
