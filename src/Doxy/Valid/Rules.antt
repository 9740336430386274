-- ===== src/Doxy/Valid/Rules.antt =====
-- What a run on the heap keeps and what it answers, with a rule for each way to put runs together.
use hachoir.Prelude.{
  ℕ, ◌≤◌, ◌<◌, Bool, true, false, arith, get_elem?-some, length-set, if◌then◌else◌,
}
use hachoir.Doxy.Heap.{
  Object, Heap, Error, no_such_member, duplicate, parsing_error, attribute_error, standard_error,
  io_failure, fault, Reply, ok, err, M, continue, ◌>>=◌, ret, raise, get, update,
}
use hachoir.Doxy.Valid.{Same, Stays, Stays-refl, Stays-trans, Closed, size, IsValid, Closed-get}
use hachoir.Doxy.Valid.Writes.{IsValid-set, Stays-set}

-- the answer has the property, or the run raised one of the errors of Python
abbrev pub Answers : {A : Type 0} → (A → Type 0) → Reply A → Type 0
Answers P (ok a) = P a
Answers P (err fault) = ⊥
Answers P (err no_such_member) = Unit {0}
Answers P (err duplicate) = Unit {0}
Answers P (err parsing_error) = Unit {0}
Answers P (err attribute_error) = Unit {0}
Answers P (err standard_error) = Unit {0}
Answers P (err io_failure) = Unit {0}

-- a valid heap on which the objects of another stay what they were, with an answer
abbrev pub Reached : {A : Type 0} → Heap → (ℕ → A → Type 0) → Reply A → Heap → Type 0
Reached g Q r h = IsValid h × (size g ≤ size h) × Stays g h × Answers (Q (size h)) r

-- from any valid heap of at least the size
unfoldable pub Ensures : {A : Type 0} → ℕ → M A → (ℕ → A → Type 0) → Type 0
Ensures n m Q = (h : Heap) → IsValid h → n ≤ size h → Reached h Q (m h).0 (m h).1

abbrev pub Done : ℕ → Unit {0} → Type 0
Done k u = Unit {0}

abbrev pub Python : Error → Type 0
Python e = Answers (λ (u : Unit {0}). Unit {0}) (err e)

Answers-err :
    {A B : Type 0} (P : A → Type 0) (Q : B → Type 0) (e : Error)
    → Answers P (err e)
    → Answers Q (err e)
Answers-err P Q fault a = absurd a
Answers-err P Q no_such_member a = tt
Answers-err P Q duplicate a = tt
Answers-err P Q parsing_error a = tt
Answers-err P Q attribute_error a = tt
Answers-err P Q standard_error a = tt
Answers-err P Q io_failure a = tt

pub Ensures-run :
    {A : Type 0} (n : ℕ) (m : M A) (Q : ℕ → A → Type 0) (h : Heap)
    → Ensures n m Q
    → IsValid h
    → n ≤ size h
    → Reached h Q (m h).0 (m h).1
unfolding Ensures
Ensures-run n m Q h e v l = e h v l

pub Ensures-le :
    {A : Type 0} (n k : ℕ) (m : M A) (Q : ℕ → A → Type 0) → n ≤ k → Ensures n m Q → Ensures k m Q
unfolding Ensures
Ensures-le n k m Q l e h v g = e h v (omega arith)

pub Ensures-ret :
    {A : Type 0} (n : ℕ) (a : A) (Q : ℕ → A → Type 0)
    → ((k : ℕ) → n ≤ k → Q k a)
    → Ensures n (ret a) Q
unfolding Ensures
Ensures-ret n a Q q h v l = (v, omega arith, Stays-refl h, q (size h) l)

pub Ensures-raise :
    {A : Type 0} (n : ℕ) (e : Error) (Q : ℕ → A → Type 0) → Python e → Ensures n (raise {A = A} e) Q
unfolding Ensures
Ensures-raise n e Q p h v l =
    (v, omega arith, Stays-refl h, Answers-err (λ (u : Unit {0}). Unit {0}) (Q (size h)) e p)

pub Ensures-bind :
    {A B : Type 0} (n : ℕ) (m : M A) (f : A → M B) (Q : ℕ → A → Type 0) (R : ℕ → B → Type 0)
    → Ensures n m Q
    → ((k : ℕ) (a : A) → n ≤ k → Q k a → Ensures k (f a) R)
    → Ensures n (m >>= f) R
unfolding Ensures
Ensures-bind {A} {B} n m f Q R em ef h v l = go (m h).0 (m h).1 (em h v l)
  where
    go :
        (r : Reply A) (g : Heap)
        → Reached h Q r g
        → Reached h R (continue r f g).0 (continue r f g).1
    go (ok a) g (w, s, t, q) =
        let (w', s', t', q') = ef (size g) a (omega arith) q g w (omega arith) in
        (w', omega arith, Stays-trans h g (f a g).1 t t', q')
    go (err e) g (w, s, t, q) = (w, s, t, Answers-err (Q (size g)) (R (size g)) e q)

-- the first run's answer is not used
pub Ensures-then :
    {A B : Type 0} (n : ℕ) (m : M A) (l : M B) (Q : ℕ → A → Type 0) (R : ℕ → B → Type 0)
    → Ensures n m Q
    → ((k : ℕ) → n ≤ k → Ensures k l R)
    → Ensures n (m >>= λ _. l) R
Ensures-then n m l Q R em el = Ensures-bind n m (λ _. l) Q R em (λ k a g _. el k g)

pub Ensures-if :
    {A : Type 0} (n : ℕ) (b : Bool) (m l : M A) (Q : ℕ → A → Type 0)
    → Ensures n m Q
    → Ensures n l Q
    → Ensures n (if b then m else l) Q
Ensures-if n true m l Q p q = p
Ensures-if n false m l Q p q = q

pub Ensures-get : (n i : ℕ) → i < n → Ensures n (get i) Closed
unfolding Ensures
Ensures-get n i l h v g =
    let (o, e) = get_elem?-some h.objects i (omega arith) in
    rw e (v, omega arith, Stays-refl h, Closed-get (size h) h.objects i v.closed e)

pub Ensures-update :
    (n i : ℕ) (f : Object → Object)
    → i < n
    → ((o : Object) → Same o (f o))
    → ((k : ℕ) (o : Object) → n ≤ k → Closed k o → Closed k (f o))
    → Ensures n (update i f) Done
unfolding Ensures
Ensures-update n i f l r c h v g =
    let (o, e) = get_elem?-some h.objects i (omega arith) in
    rw e (
      IsValid-set h v i o (f o) e (r o).1
          (c (size h) o g (Closed-get (size h) h.objects i v.closed e)),
      omega (arith, length-set h.objects i (f o)),
      Stays-set h v i o (f o) e (r o),
      tt,
    )
