-- ===== src/Doxy/Dict.antt =====
-- The dictionary of members by name, and `get_member` against it.
use hachoir.Prelude.{
  ℕ, true, false, not, Option, none, some, List, [], ◌∷◌, Text, ◌≡◌, refl, ◌∙◌, arith, text_eq,
  text_eq_iff, if◌then◌else◌, Bool-cases, inl, inr, get_elem?, all, ◌==◌,
}
use hachoir.Doxy.Heap.{
  Raw, MemberDict, Files, Object, Heap, Class, index, no_such_member, duplicate, Reply, ok, err,
  ◌>>=◌, ret, raise,
}
use hachoir.Doxy.Parse.{by_class, check_parsed, confirm_no_error, name_of}
use hachoir.Doxy.Lookup.{add_name, build_dict, lookup_name, split_colons, chosen}

-- the addresses that stand for a name
abbrev pub matching : Text → List (Text × ℕ) → List ℕ
matching n [] = []
matching n ((k, i) ∷ l) = if text_eq k n then i ∷ matching n l else matching n l

-- what the dictionary holds for a name of which it has seen these
abbrev pub seen : Option (Option ℕ) → List ℕ → Option (Option ℕ)
seen o [] = o
seen none (i ∷ is) = seen (some (some i)) is
seen (some v) (i ∷ is) = seen (some none) is

abbrev once_more : Option (Option ℕ) → ℕ → Option (Option ℕ)
once_more none i = some (some i)
once_more (some v) i = some none

lookup-add_name :
    (n k : Text) (i : ℕ) (d : MemberDict)
    → lookup_name n (add_name k i d)
      ≡ (if text_eq k n then once_more (lookup_name n d) i else lookup_name n d)
unfolding lookup_name add_name
lookup-add_name n k i [] = refl
lookup-add_name n k i ((j, v) ∷ d) =
    ground (arith, text_eq_iff j k, text_eq_iff j n, text_eq_iff k n, lookup-add_name n k i d)

-- the loop, over names and addresses
abbrev pub dict_of : MemberDict → List (Text × ℕ) → MemberDict
dict_of d [] = d
dict_of d ((k, i) ∷ l) = dict_of (add_name k i d) l

seen-step :
    (o : Option (Option ℕ)) (i : ℕ) (is : List ℕ) → seen (once_more o i) is ≡ seen o (i ∷ is)
seen-step none i is = refl
seen-step (some v) i is = refl

lookup-dict_of :
    (n : Text) (l : List (Text × ℕ)) (d : MemberDict)
    → lookup_name n (dict_of d l) ≡ seen (lookup_name n d) (matching n l)
lookup-dict_of n [] d = refl
lookup-dict_of n ((k, i) ∷ l) d = elim (Bool-cases (text_eq k n)) [
  | inl e ↦
      lookup-dict_of n l (add_name k i d)
      ∙ rw (lookup-add_name, e) (seen-step (lookup_name n d) i (matching n l))
  | inr e ↦ lookup-dict_of n l (add_name k i d) ∙ rw (lookup-add_name, e) refl
]

-- one member, none, or several of a name
abbrev pub summary : List ℕ → Option (Option ℕ)
summary [] = none
summary (i ∷ []) = some (some i)
summary (i ∷ (j ∷ is)) = some none

seen_many : (v : Option ℕ) (is : List ℕ) → seen (some none) is ≡ some none
seen_many v [] = refl
seen_many v (i ∷ is) = seen_many v is

seen-summary : (is : List ℕ) → seen none is ≡ summary is
seen-summary [] = refl
seen-summary (i ∷ []) = refl
seen-summary (i ∷ (j ∷ is)) = seen_many none is

-- A name maps to the one member that has it, and to `Duplicate` if several have it; a name that no
-- member has is not there.
pub lookup-dict :
    (n : Text) (l : List (Text × ℕ)) → lookup_name n (dict_of [] l) ≡ summary (matching n l)
unfolding lookup_name
lookup-dict n l = lookup-dict_of n l [] ∙ seen-summary (matching n l)

-- the members have these names, by the parsed objects that they were made from
pub data Named (h : Heap) : List (Option ℕ) → List (Text × ℕ) → Type 0 where
  nil : Named h [] []
  cons :
      {ms : List (Option ℕ)} {l : List (Text × ℕ)} (i : ℕ) (o : Object) (raw : Raw)
      → get_elem? h.objects i ≡ some o
      → o.parse_data ≡ some raw
      → Named h ms l
      → Named h (some i ∷ ms) ((raw.name, i) ∷ l)

pub build_dict-Named :
    (files : Files) (h : Heap) (d : MemberDict) {ms : List (Option ℕ)} {l : List (Text × ℕ)}
    → Named h ms l
    → build_dict files d ms h ≡ (ok (dict_of d l), h)
unfolding build_dict name_of
build_dict-Named files h d nil = refl
build_dict-Named files h d (cons i o raw at made rest) =
    rw (at, made) (build_dict-Named files h (add_name raw.name i d) rest)

module _ (files : Files) (h : Heap) (i : ℕ) {o : Object}
    (there : get_elem? h.objects i ≡ some o) where
  pub check_parsed-done : o.is_parsed ≡ true → check_parsed files i h ≡ (ok tt, h)
  unfolding check_parsed
  check_parsed-done p = rw there (by_class-done o.cls)
    where
      by_class-done : (c : Class) → by_class c files i o h ≡ (ok tt, h)
      by_class-done index = rw p refl
      by_class-done _ = rw p refl

  pub confirm-done : o.is_parsed ≡ true → o.error ≡ false → confirm_no_error files i h ≡ (ok tt, h)
  unfolding confirm_no_error
  confirm-done p e = rw (check_parsed-done p, there, e) refl

-- What a lookup answers, by the members of that name.
abbrev pub answer : List ℕ → Reply ℕ
answer [] = err no_such_member
answer (j ∷ []) = ok j
answer (j ∷ (k ∷ js)) = err duplicate

pub chosen-answer :
    (is : List ℕ) (h : Heap)
    → (chosen (summary is) >>= λ j. elim (text_eq [] []) [
      | true ↦ ret j
      | false ↦ raise no_such_member
    ])
        h
      ≡ (answer is, h)
unfolding chosen text_eq
chosen-answer [] h = refl
chosen-answer (j ∷ []) h = refl
chosen-answer (j ∷ (k ∷ js)) h = refl

pub split_plain : (t : Text) → all (λ c. not (c == b':')) t ≡ true → split_colons t ≡ t ∷ []
unfolding split_colons
split_plain [] h = refl
split_plain (c ∷ []) h = refl
split_plain (c ∷ (d ∷ t)) h = ground (arith, split_plain (d ∷ t))
