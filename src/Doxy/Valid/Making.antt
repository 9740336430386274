-- ===== src/Doxy/Valid/Making.antt =====
-- The operations of base.py that make objects and fill them in keep the heap valid.
use hachoir.Prelude.{
  ℕ, ◌<◌, Option, none, some, List, [], ◌∷◌, ◌++◌, Text, ◌≡◌, refl, arith, get_elem?,
  get_elem?-some, get_elem?-lt, length-append, text_in,
}
use hachoir.DoxyText
use hachoir.DoxyText.{Item, description}
use hachoir.Doxy.Heap.{
  Class, Raw, Compound, Parsed, parsed, expat_error, io_error, Files, Object, Heap, get, update,
  lookup_ref, fresh, standard_error, attribute_error, io_failure,
}
use hachoir.Doxy.Base.{
  known_or_new, from_refid, by_refid, from_parse_data, add_ref_of, add_ref, get_cls, convert_as,
  convert_mem, text_or_error, described, set_descriptions, add_memberdefs, flatten,
  process_memberdefs, retrieved_as, retrieve_refid, retrieve_data,
}
use hachoir.Doxy.Valid.{
  Same, Stays-refl, Within, Closed, size, IsValid, Within-le, Within-append, Closed-as,
}
use hachoir.Doxy.Valid.Writes.{Stays-append, IsValid-fresh, IsValid-named, IsValid-again}
use hachoir.Doxy.Valid.Rules.{
  Reached, Ensures, Done, Ensures-ret, Ensures-raise, Ensures-bind, Ensures-then, Ensures-if,
  Ensures-get, Ensures-update,
}

abbrev pub Address : ℕ → ℕ → Type 0
Address k i = i < k

abbrev pub Listed : ℕ → Option ℕ → Type 0
Listed k m = Within k (m ∷ [])

abbrev pub Any : {A : Type 0} → ℕ → A → Type 0
Any k a = Unit {0}

-- an object is made only where the reference is new
known_or_new-Reached :
    (h : Heap) (cls : Class) (raw : Option Raw) (refid : Text) (o : Option ℕ)
    → IsValid h
    → lookup_ref refid h.refs ≡ o
    → Reached h Address (known_or_new o cls raw refid h).0 (known_or_new o cls raw refid h).1
known_or_new-Reached h cls raw refid none v e =
    let grown = length-append h.objects (record (fresh cls raw) { refid = some refid } ∷ []) in
    (
      IsValid-named h v cls raw refid e,
      omega (arith, grown),
      Stays-append h (record (fresh cls raw) { refid = some refid }) ((refid, size h) ∷ h.refs),
      omega (arith, grown),
    )
known_or_new-Reached h cls raw refid (some i) v e =
    let (o, there, own) = v.known refid i e in
    (v, omega arith, Stays-refl h, get_elem?-lt h.objects i there)

pub from_refid-Ensures :
    (n : ℕ) (cls : Class) (refid : Text) → Ensures n (from_refid cls refid) Address
unfolding Ensures from_refid
from_refid-Ensures n cls refid h v l = known_or_new-Reached h cls none refid _ v refl

by_refid-Ensures :
    (n : ℕ) (r : Option Text) (cls : Class) (raw : Raw) → Ensures n (by_refid r cls raw) Address
unfolding Ensures by_refid
by_refid-Ensures n none cls raw h v l =
    let grown = length-append h.objects (fresh cls (some raw) ∷ []) in
    (
      IsValid-fresh h cls (some raw) v,
      omega (arith, grown),
      Stays-append h (fresh cls (some raw)) h.refs,
      omega (arith, grown),
    )
by_refid-Ensures n (some refid) cls raw h v l = known_or_new-Reached h cls (some raw) refid _ v refl

pub from_parse_data-Ensures :
    (n : ℕ) (cls : Class) (raw : Raw) → Ensures n (from_parse_data cls raw) Address
unfolding from_parse_data
from_parse_data-Ensures n cls raw = by_refid-Ensures n raw.refid cls raw

pub add_ref-Ensures : (n i : ℕ) → i < n → Ensures n (add_ref i) Done
unfolding Ensures add_ref add_ref_of
add_ref-Ensures n i b h v l =
    let (o, e) = get_elem?-some h.objects i (omega arith) in rw e (go o o.refid e refl)
  where
    go :
        (o : Object) (r : Option Text)
        → get_elem? h.objects i ≡ some o
        → o.refid ≡ r
        → Reached h Done (add_ref_of r i h).0 (add_ref_of r i h).1
    go o none e s = (v, omega arith, Stays-refl h, tt)
    go o (some k) e s =
        (IsValid-again h v k i (v.registered i o k e s), omega arith, Stays-refl h, tt)

convert_as-Ensures : (n : ℕ) (c : Option Class) (mem : Raw) → Ensures n (convert_as c mem) Listed
unfolding convert_as
convert_as-Ensures n none mem = Ensures-ret n none Listed (λ k l. tt)
convert_as-Ensures n (some cls) mem =
    Ensures-bind n (from_parse_data cls mem) _ Address Listed (from_parse_data-Ensures n cls mem)
      λ k i l b.
        Ensures-then k (add_ref i) _ Done Listed (add_ref-Ensures k i b)
          λ m g. Ensures-ret m (some i) Listed (λ j q. (omega arith, tt))

pub convert_mem-Ensures : (n : ℕ) (mem : Raw) → Ensures n (convert_mem mem) Listed
unfolding convert_mem
convert_mem-Ensures n mem = convert_as-Ensures n (get_cls mem) mem

pub described-Ensures : (n : ℕ) (item : Option Item) → Ensures n (described item) Any
unfolding described
described-Ensures n item = go (description item)
  where
    go : (r : DoxyText.Result (Option Text)) → Ensures n (text_or_error r) Any
    go (DoxyText.ok t) = Ensures-ret n t Any (λ k l. tt)
    go DoxyText.standard_error = Ensures-raise n standard_error Any tt

-- an assignment to fields that hold no address
pub Ensures-assign :
    (n i : ℕ) (f : Object → Object)
    → i < n
    → ((o : Object) → Same o (f o))
    → ((o : Object) → (f o).members ≡ o.members)
    → ((o : Object) → (f o).in_category ≡ o.in_category)
    → ((o : Object) → (f o).dict_members ≡ o.dict_members)
    → Ensures n (update i f) Done
Ensures-assign n i f b r m l d =
    Ensures-update n i f b r (λ k o _ c. Closed-as k o (f o) (m o) (l o) (d o) c)

-- members that are added behind the others
pub Ensures-members :
    (n i : ℕ) (ms : List (Option ℕ))
    → i < n
    → Within n ms
    → Ensures n (update i (λ o. record o { members = o.members ++ ms })) Done
Ensures-members n i ms b w =
    Ensures-update n i _ b (λ o. (refl, refl, refl, λ p. p))
      λ k o l c. record {
        members = Within-append k o.members ms c.members (Within-le n k ms l w);
        lists = c.lists;
        dicts = c.dicts;
      }

pub set_descriptions-Ensures :
    (n i : ℕ) (brief detailed : Option Item)
    → i < n
    → Ensures n (set_descriptions i brief detailed) Done
unfolding set_descriptions
set_descriptions-Ensures n i brief detailed b =
    Ensures-bind n (described brief) _ Any Done (described-Ensures n brief) λ k bd l _.
      Ensures-bind k (described detailed) _ Any Done (described-Ensures k detailed) λ m dd g _.
        Ensures-assign m i _ (omega arith) (λ o. (refl, refl, refl, λ p. p)) (λ o. refl) (λ o. refl)
          (λ o. refl)

add_memberdefs-Ensures :
    (n i : ℕ) (uniques : List Text) (mems : List Raw)
    → i < n
    → Ensures n (add_memberdefs i uniques mems) Done
unfolding add_memberdefs
add_memberdefs-Ensures n i uniques [] b = Ensures-ret n tt Done (λ k l. tt)
add_memberdefs-Ensures n i uniques (mem ∷ mems) b =
    Ensures-bind n (convert_mem mem) _ Listed Done (convert_mem-Ensures n mem) λ k converted l w.
      Ensures-then k _ _ Done Done
        (Ensures-if k (text_in mem.name uniques) _ _ Done (Ensures-ret k tt Done (λ k l. tt))
          (Ensures-members k i (converted ∷ []) (omega arith) w))
        λ m g. add_memberdefs-Ensures m i _ mems (omega arith)

pub process_memberdefs-Ensures :
    (n i : ℕ) (c : Compound) → i < n → Ensures n (process_memberdefs i c) Done
unfolding process_memberdefs
process_memberdefs-Ensures n i c b = add_memberdefs-Ensures n i [] (flatten c.sections) b

retrieved_as-Ensures : (n i : ℕ) (p : Parsed) → i < n → Ensures n (retrieved_as i p) Done
unfolding retrieved_as
retrieved_as-Ensures n i (parsed c) b =
    Ensures-assign n i _ b (λ o. (refl, refl, refl, λ p. p)) (λ o. refl) (λ o. refl) (λ o. refl)
retrieved_as-Ensures n i expat_error b =
    Ensures-assign n i _ b (λ o. (refl, refl, refl, λ p. p)) (λ o. refl) (λ o. refl) (λ o. refl)
retrieved_as-Ensures n i io_error b = Ensures-raise n io_failure Done tt

retrieve_refid-Ensures :
    (files : Files) (n i : ℕ) (r : Option Text) → i < n → Ensures n (retrieve_refid files i r) Done
unfolding retrieve_refid
retrieve_refid-Ensures files n i none b = Ensures-raise n attribute_error Done tt
retrieve_refid-Ensures files n i (some refid) b = retrieved_as-Ensures n i (files.parse refid) b

pub retrieve_data-Ensures :
    (files : Files) (n i : ℕ) → i < n → Ensures n (retrieve_data files i) Done
unfolding retrieve_data
retrieve_data-Ensures files n i b =
    Ensures-bind n (get i) _ Closed Done (Ensures-get n i b)
      λ k o l c. retrieve_refid-Ensures files k i o.refid (omega arith)
