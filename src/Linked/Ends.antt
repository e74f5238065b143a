-- ===== src/Linked/Ends.antt =====
-- src/lib/list.c: a list as a sequence of nodes, worked on at its two ends.
use yuios.Common.{
  ℕ, ◌<◌, ◌≡◌, refl, sym, ◌≢◌, false, List, [], ◌∷◌, ◌++◌, arith, ==_false, length, ok, ◌>>=◌,
}
use mathlib.Core.List.{append-nil}
use mathlib.Core.Path.{subst}
use yuios.Linked.{Ptr, null, Store, Handle, init, empty, push, pushback, pop, popback}
use yuios.Linked.Chain.{NotIn, nodes, IsList, cut, All-front}
use yuios.Linked.Walk.{
  elem-NotIn, not_tail, search_lem, insert_after_head, insert_before_lem, remove_lem,
}

-- `list_init` makes an empty list of two nodes that differ and are not `NULL`.
pub init-IsList :
    (s : Store) (l : Handle)
    → l.head ≢ null
    → l.tail ≢ null
    → l.head ≢ l.tail
    → (t : Store) × (init s l ≡ ok t) × IsList t l []
unfolding init
init-IsList s l h t ne =
    rw (==_false l.head null h, ==_false l.tail null t)
      (
        _,
        refl,
        record {
          chain = (ground arith, ground arith);
          distinct = (((λ e. ne (sym e)), tt), (tt, tt));
          real = (h, (t, tt));
        },
      )

-- `list_push` of a new node, with more fuel than there are nodes, does not halt and puts it first.
pub push_lem :
    (fuel : ℕ) (s : Store) (l : Handle) (xs : List Ptr) (n : Ptr)
    → IsList s l xs
    → NotIn n (nodes l xs)
    → n ≢ null
    → length xs < fuel
    → (t : Store) × (push fuel s l n ≡ ok t) × IsList t l (n ∷ xs)
unfolding push
push_lem fuel s l xs n is new real h =
    rw
      (
        search_lem s l xs is fuel n h,
        elem-NotIn n xs (All-front (λ x. x ≢ n) xs (l.tail ∷ []) new.1),
      )
      (insert_after_head s l xs is n new real)

-- `list_pushback` puts it last.
pub pushback_lem :
    (fuel : ℕ) (s : Store) (l : Handle) (xs : List Ptr) (n : Ptr)
    → IsList s l xs
    → NotIn n (nodes l xs)
    → n ≢ null
    → length xs < fuel
    → (t : Store) × (pushback fuel s l n ≡ ok t) × IsList t l (xs ++ (n ∷ []))
unfolding pushback
pushback_lem fuel s l xs n is new real h =
    rw
      (
        search_lem s l xs is fuel n h,
        elem-NotIn n xs (All-front (λ x. x ≢ n) xs (l.tail ∷ []) new.1),
      )
      (insert_before_lem s l xs [] n (rw (append-nil xs) is) (rw (append-nil xs) new) real)

not_empty :
    (s : Store) (l : Handle) (x : Ptr) (xs : List Ptr) → IsList s l (x ∷ xs) → empty s l ≡ false
unfolding empty
not_empty s l x xs is = rw is.chain.0 (==_false x l.tail (not_tail s l (x ∷ xs) is).0)

-- `list_pop` takes the first node of a list that is not empty, and clears its links.
pub pop_lem :
    (s : Store) (l : Handle) (x : Ptr) (xs : List Ptr)
    → IsList s l (x ∷ xs)
    → (t : Store) × (pop s l ≡ ok (x, t)) × IsList t l xs × (t.prev x ≡ null) × (t.next x ≡ null)
unfolding pop
pop_lem s l x xs is =
    let (t, run, rest, p, n) = remove_lem s l [] xs x is in
    let taken : s.next l.head ≡ x = is.chain.0 in
    (t, rw (not_empty s l x xs is, taken, run), rest, p, n)

-- `list_popback` takes the last.
pub popback_lem :
    (s : Store) (l : Handle) (xs : List Ptr) (x : Ptr)
    → IsList s l (xs ++ (x ∷ []))
    → (t : Store) × (popback s l ≡ ok (x, t))
      × IsList t l xs
      × (t.prev x ≡ null)
      × (t.next x ≡ null)
unfolding popback
popback_lem s l xs x is =
    let (t, run, rest, p, n) = remove_lem s l xs [] x is in
    let taken : s.prev l.tail ≡ x = (cut s l.head xs x [] l.tail is.chain).1.1 in
    (t, rw (filled xs is, taken, run), subst (IsList t l) (append-nil xs) rest, p, n)
  where
    filled : (ys : List Ptr) → IsList s l (ys ++ (x ∷ [])) → empty s l ≡ false
    filled [] i = not_empty s l x [] i
    filled (y ∷ ys) i = not_empty s l y (ys ++ (x ∷ [])) i

-- What is pushed at the front comes back from the rear in the order it went in: the queue of waiting
-- tasks is one of first in, first out.
pub popback-push :
    (fuel : ℕ) (s : Store) (l : Handle) (xs : List Ptr) (x n : Ptr)
    → IsList s l (xs ++ (x ∷ []))
    → NotIn n (nodes l (xs ++ (x ∷ [])))
    → n ≢ null
    → length (xs ++ (x ∷ [])) < fuel
    → (t : Store) × ((push fuel s l n >>= λ s'. popback s' l) ≡ ok (x, t)) × IsList t l (n ∷ xs)
popback-push fuel s l xs x n is new real h =
    let (s', run, is') = push_lem fuel s l (xs ++ (x ∷ [])) n is new real h in
    let (t, run', rest, p, q) = popback_lem s' l (n ∷ xs) x is' in (t, rw (run, ◌>>=◌) run', rest)
