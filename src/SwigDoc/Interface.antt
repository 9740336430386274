-- ===== src/SwigDoc/Interface.antt =====
-- swig_doc.py: the entries of a block, and the handlers of `ParsingError`.
use hachoir.Prelude.{ℕ, ◌≤◌, ◌<◌, none, some, List, [], ◌∷◌, ◌++◌, Text, codes, arith, join}
use hachoir.Doxy.Heap.{
  function, file, of_class, Files, no_such_member, duplicate, parsing_error, attribute_error,
  standard_error, io_failure, fault, Reply, ok, err, M, ◌>>=◌, ret,
}
use hachoir.Doxy.Parse.{name_of}
use hachoir.Doxy.Lookup.{get_member}
use hachoir.Doxy.Valid.{Stays-trans, size}
use hachoir.Doxy.Valid.Rules.{Answers, Ensures, Ensures-raise, Ensures-bind}
use hachoir.Doxy.Valid.Making.{Address, Any}
use hachoir.Doxy.Valid.Checking.{name_of-Ensures}
use hachoir.Doxy.Valid.Naming.{get_member-Ensures}
use hachoir.SwigDoc.{
  make_name, combine_descriptions, unless_empty, blank_line, params_of, make_func_entry,
  make_class_entry, unless_missing, file_description, file_descriptions, make_block_entry, handled,
  try_parsing, reported,
}
use hachoir.SwigDoc.Safe.{
  Any-Ensures, combine_descriptions-Ensures, params_of-Ensures, make_func_entry-Ensures,
  make_class_entry-Ensures,
}

file_description-Ensures :
    (files : Files) (n di : ℕ) (name : Text)
    → di < n
    → Ensures n (file_description files di name) Any
unfolding file_description
file_description-Ensures files n di name b =
    Ensures-bind n (get_member files (name ++ codes ".h") (of_class file) di) _ Address Any
      (get_member-Ensures files n (name ++ codes ".h") (of_class file) di b)
      λ k f l a. combine_descriptions-Ensures files k f a

unless_missing-Ensures :
    (n : ℕ) (r : Reply Text) → Answers (Any n) r → Ensures n (unless_missing r) Any
unless_missing-Ensures n (ok t) a = Any-Ensures n (unless_empty t)
unless_missing-Ensures n (err no_such_member) a = Any-Ensures n []
unless_missing-Ensures n (err duplicate) a = Ensures-raise n duplicate Any tt
unless_missing-Ensures n (err parsing_error) a = Ensures-raise n parsing_error Any tt
unless_missing-Ensures n (err attribute_error) a = Ensures-raise n attribute_error Any tt
unless_missing-Ensures n (err standard_error) a = Ensures-raise n standard_error Any tt
unless_missing-Ensures n (err io_failure) a = Ensures-raise n io_failure Any tt
unless_missing-Ensures n (err fault) a = absurd a

-- what follows depends on the reply of a run, an error of it too
Ensures-reply :
    {A B : Type 0} (n : ℕ) (m : M A) (f : Reply A → M B) (Q : ℕ → A → Type 0) (R : ℕ → B → Type 0)
    → Ensures n m Q
    → ((k : ℕ) (r : Reply A) → n ≤ k → Answers (Q k) r → Ensures k (f r) R)
    → Ensures n (λ h. f (m h).0 (m h).1) R
unfolding Ensures
Ensures-reply n m f Q R em ef h v l =
    let (w, s, t, q) = em h v l in
    let (w', s', t', q') = ef (size (m h).1) (m h).0 (omega arith) q (m h).1 w (omega arith) in
    (w', omega arith, Stays-trans h (m h).1 (f (m h).0 (m h).1).1 t t', q')

file_descriptions-Ensures :
    (files : Files) (n di : ℕ) (name : Text)
    → di < n
    → Ensures n (file_descriptions files di name) Any
unfolding file_descriptions
file_descriptions-Ensures files n di name b =
    Ensures-reply n (file_description files di name) unless_missing Any Any
      (file_description-Ensures files n di name b) λ k r l a. unless_missing-Ensures k r a

handled-Ensures :
    {A B : Type 0} (n : ℕ) (r : Reply A) (f : A → M B) (g : M B) (Q : A → Type 0)
    (R : ℕ → B → Type 0)
    → Answers Q r
    → ((a : A) → Q a → Ensures n (f a) R)
    → Ensures n g R
    → Ensures n (handled r f g) R
handled-Ensures n (ok a) f g Q R q ef eg = ef a q
handled-Ensures n (err parsing_error) f g Q R q ef eg = eg
handled-Ensures n (err no_such_member) f g Q R q ef eg = Ensures-raise n no_such_member R tt
handled-Ensures n (err duplicate) f g Q R q ef eg = Ensures-raise n duplicate R tt
handled-Ensures n (err attribute_error) f g Q R q ef eg = Ensures-raise n attribute_error R tt
handled-Ensures n (err standard_error) f g Q R q ef eg = Ensures-raise n standard_error R tt
handled-Ensures n (err io_failure) f g Q R q ef eg = Ensures-raise n io_failure R tt
handled-Ensures n (err fault) f g Q R q ef eg = absurd q

pub try_parsing-Ensures :
    {A B : Type 0} (n : ℕ) (m : M A) (f : A → M B) (g : M B) (Q : ℕ → A → Type 0)
    (R : ℕ → B → Type 0)
    → Ensures n m Q
    → ((k : ℕ) (a : A) → n ≤ k → Q k a → Ensures k (f a) R)
    → ((k : ℕ) → n ≤ k → Ensures k g R)
    → Ensures n (try_parsing m f g) R
try_parsing-Ensures n m f g Q R em ef eg =
    Ensures-reply n m (λ r. handled r f g) Q R em
      λ k r l q. handled-Ensures k r f g (Q k) R q (λ a. ef k a l) (eg k l)

pub reported-Ensures :
    {A : Type 0} (files : Files) (n i : ℕ) (a : A) → i < n → Ensures n (reported files i a) Any
reported-Ensures files n i a b =
    Ensures-bind n (name_of files i) _ Any Any (name_of-Ensures files n i b)
      λ k t l _. Any-Ensures k a

pub make_block_entry-Ensures :
    (files : Files) (n di i : ℕ) → di < n → i < n → Ensures n (make_block_entry files di i) Any
unfolding make_block_entry
make_block_entry-Ensures files n di i bd b =
    Ensures-bind n (combine_descriptions files i) _ Any Any
      (combine_descriptions-Ensures files n i b)
      λ k class_desc l _.
        Ensures-bind k (name_of files i) _ Any Any (name_of-Ensures files k i (omega arith))
          λ m name g _.
            Ensures-bind m (get_member files (make_name name) (of_class function) di) _ Address Any
              (get_member-Ensures files m (make_name name) (of_class function) di (omega arith))
              λ j make_func q a.
                Ensures-bind j (combine_descriptions files make_func) _ Any Any
                  (combine_descriptions-Ensures files j make_func a)
                  λ p make_desc r _.
                    Ensures-bind p (file_descriptions files di name) _ Any Any
                      (file_descriptions-Ensures files p di name (omega arith))
                      λ s file_descs t _.
                        behind s name make_func class_desc make_desc file_descs (omega arith)
                          (omega arith)
  where
    behind :
        (s : ℕ) (name : Text) (make_func : ℕ) (class_desc make_desc : Text) (file_descs : List Text)
        → i < s
        → make_func < s
        → Ensures s
            (do
              e ← make_class_entry files i (
                  some (
                    join blank_line
                      (unless_empty class_desc ++ unless_empty make_desc ++ file_descs)))
              creator ← get_member files name (of_class function) i
              ps ← params_of files creator
              f ←
                  make_func_entry files make_func none
                    (some (
                      join blank_line
                        (unless_empty class_desc ++ unless_empty make_desc ++ file_descs)))
                    (some ps)
              ret (join blank_line (e ∷ f ∷ [])))
            Any
    behind s name make_func class_desc make_desc file_descs b a =
        let docs =
          some
            (join blank_line (unless_empty class_desc ++ unless_empty make_desc ++ file_descs)) in
        Ensures-bind s (make_class_entry files i docs) _ Any Any
          (make_class_entry-Ensures files s i docs b)
          λ k e l _.
            Ensures-bind k (get_member files name (of_class function) i) _ Address Any
              (get_member-Ensures files k name (of_class function) i (omega arith))
              λ m creator g c.
                Ensures-bind m (params_of files creator) _ Any Any
                  (params_of-Ensures files m creator c)
                  λ j ps q _.
                    Ensures-bind j (make_func_entry files make_func none docs (some ps)) _ Any Any
                      (make_func_entry-Ensures files j make_func none docs (some ps) (omega arith))
                      λ p f r _. Any-Ensures p _
