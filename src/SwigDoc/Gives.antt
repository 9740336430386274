-- ===== src/SwigDoc/Gives.antt =====
-- Runs on the objects of doxyxml that give the same reply on each heap of a set, and rules for ways to
-- put them together, with the handler of `ParsingError` among them.
use hachoir.Prelude.{◌≡◌, refl}
use hachoir.Doxy.Heap.{Heap, parsing_error, Reply, ok, err, M, ◌>>=◌, ret}
use hachoir.SwigDoc.{try_parsing}

-- A set of heaps on which a run gives this reply, and which it does not leave.
module _ (Good : Heap → Type 0) where
  abbrev pub Gives : {A : Type 0} → M A → Reply A → Type 0
  Gives m r = (h : Heap) → Good h → (h' : Heap) × (m h ≡ (r, h')) × Good h'

  module _ {A : Type 0} where
    pub Gives-ret : (a : A) → Gives (ret a) (ok a)
    Gives-ret a h g = (h, refl, g)

    pub Gives-eq : (m : M A) {a b : A} → a ≡ b → Gives m (ok a) → Gives m (ok b)
    Gives-eq m e k = rw (← e) k

    module _ {B : Type 0} {r : Reply B} (m : M A) where
      pub Gives-bind : (f : A → M B) {a : A} → Gives m (ok a) → Gives (f a) r → Gives (m >>= f) r
      Gives-bind f k l h g =
          let (h', e, g') = k h g in let (h'', e', g'') = l h' g' in (h'', rw e e', g'')

      pub Gives-try_some :
          (f : A → M B) (c : M B) {a : A}
          → Gives m (ok a)
          → Gives (f a) r
          → Gives (try_parsing m f c) r
      Gives-try_some f c k l h g =
          let (h', e, g') = k h g in let (h'', e', g'') = l h' g' in (h'', rw e e', g'')

      pub Gives-try_none :
          (f : A → M B) (c : M B)
          → Gives m (err parsing_error)
          → Gives c r
          → Gives (try_parsing m f c) r
      Gives-try_none f c k l h g =
          let (h', e, g') = k h g in let (h'', e', g'') = l h' g' in (h'', rw e e', g'')
