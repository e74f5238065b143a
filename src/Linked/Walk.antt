-- ===== src/Linked/Walk.antt =====
-- src/lib/list.c: the operations on a whole list.
use yuios.Common.{
  ℕ, zero, suc, ◌+◌, ◌^◌, ◌<◌, ◌≡◌, refl, sym, ap, ◌∙◌, ◌≢◌, Bool, false, ◌||◌, List, [], ◌∷◌, ◌++◌,
  arith, ◌==◌, ==_false, ==_refl, length, All, ok, add32,
}
use mathlib.Core.Path.{subst}
use yuios.Linked.{
  Ptr, null, Store, Handle, insert_before, insert_after, remove, search_from, search, size_from,
  size,
}
use yuios.Linked.Chain.{
  NotIn, Distinct, Chain, nodes, IsList, cut, All-prev, All-front, All-back, Distinct-remove,
}
use yuios.Linked.Splice.{Spliced}
use yuios.Linked.Ops.{
  first, gap, front-Chain, regroup, insert_before-Spliced, insert_after-Spliced, remove-Unspliced,
  splice_lem, unsplice_lem,
}

pub first-All {ℓ} :
    (P : Ptr → Type ℓ) (xs : List Ptr) (q : Ptr) → All P (xs ++ (q ∷ [])) → P (first xs q)
first-All P [] q h = h.0
first-All P (x ∷ xs) q h = h.0

pub first_links :
    (s : Store) (p : Ptr) (xs : List Ptr) (q : Ptr)
    → Chain s p xs q
    → (s.next p ≡ first xs q) × (s.prev (first xs q) ≡ p)
first_links s p [] q c = c
first_links s p (x ∷ xs) q c = (c.0, c.1)

-- whether a node is on the list
abbrev pub elem : Ptr → List Ptr → Bool
elem a [] = false
elem a (x ∷ xs) = x == a || elem a xs

pub elem-NotIn : (a : Ptr) (xs : List Ptr) → NotIn a xs → elem a xs ≡ false
elem-NotIn a [] h = refl
elem-NotIn a (x ∷ xs) h = rw (==_false x a h.0) (elem-NotIn a xs h.1)

search_from_lem :
    (fuel : ℕ) (s : Store) (l : Handle) (p node : Ptr) (xs : List Ptr)
    → Chain s p xs l.tail
    → NotIn l.tail xs
    → NotIn null xs
    → length xs < fuel
    → search_from fuel s l (first xs l.tail) node ≡ ok (elem node xs)
unfolding search_from
search_from_lem zero s l p node xs c ht hz h = absurd (omega arith)
search_from_lem (suc fuel) s l p node [] c ht hz h = rw (==_refl l.tail)
search_from_lem (suc fuel) s l p node (x ∷ xs) c ht hz h =
    rw
      (
        ==_false x l.tail ht.0,
        ==_false x null hz.0,
        (first_links s x xs l.tail c.2).0,
        search_from_lem fuel s l x node xs c.2 ht.1 hz.1 (omega arith),
      )
      (ground arith)

size_from_lem :
    (fuel : ℕ) (s : Store) (l : Handle) (p : Ptr) (n : ℕ) (xs : List Ptr)
    → Chain s p xs l.tail
    → NotIn l.tail xs
    → NotIn null xs
    → length xs < fuel
    → n + length xs < 2 ^ 32
    → size_from fuel s l (first xs l.tail) n ≡ ok (n + length xs)
unfolding size_from
size_from_lem zero s l p n xs c ht hz h small = absurd (omega arith)
size_from_lem (suc fuel) s l p n [] c ht hz h small = rw (==_refl l.tail) (ap ok (omega arith))
size_from_lem (suc fuel) s l p n (x ∷ xs) c ht hz h small =
    let step : add32 n 1 ≡ n + 1 = omega arith in
    rw
      (
        ==_false x l.tail ht.0,
        ==_false x null hz.0,
        (first_links s x xs l.tail c.2).0,
        step,
        size_from_lem fuel s l x (n + 1) xs c.2 ht.1 hz.1 (omega arith) (omega arith),
      )
      (ap ok (omega arith))

pub not_tail : (s : Store) (l : Handle) (xs : List Ptr) → IsList s l xs → NotIn l.tail xs
not_tail s l xs is =
    All-front (λ x. x ≢ l.tail) xs [] (Distinct-remove l.tail (l.head ∷ xs) [] is.distinct).1.1

module _ (s : Store) (l : Handle) (xs : List Ptr) (is : IsList s l xs) where
  pub xs_real : NotIn null xs
  xs_real = All-front (λ x. x ≢ null) xs (l.tail ∷ []) is.real.1

  -- With more fuel than there are nodes, `list_search` ends and tells whether a node is on the list.
  pub search_lem :
      (fuel : ℕ) (node : Ptr) → length xs < fuel → search fuel s l node ≡ ok (elem node xs)
  unfolding search
  search_lem fuel node h =
      rw (first_links s l.head xs l.tail is.chain).0
        (search_from_lem fuel s l l.head node xs is.chain (not_tail s l xs is) xs_real h)

  pub size_lem : (fuel : ℕ) → length xs < fuel → length xs < 2 ^ 32 → size fuel s l ≡ ok (length xs)
  unfolding size
  size_lem fuel h small = rw (first_links s l.head xs l.tail is.chain).0 (
      size_from_lem fuel s l l.head 0 xs is.chain (not_tail s l xs is) xs_real h (omega arith)
      ∙ ap ok (omega arith))

  -- `list_insert_after` of the head puts a new node first.
  pub insert_after_head :
      (n : Ptr)
      → NotIn n (nodes l xs)
      → n ≢ null
      → (t : Store) × (insert_after s l.head n ≡ ok t) × IsList t l (n ∷ xs)
  insert_after_head n new real =
      let links = first_links s l.head xs l.tail is.chain in
      let at_end = first-All (λ x. x ≢ n) xs l.tail new.1 in
      let (t, run, d) =
        insert_after-Spliced s l.head n is.real.0 real
          (subst (λ a. a ≢ null) (sym links.0) (first-All (λ x. x ≢ null) xs l.tail is.real.1))
          (λ e. new.0 (sym e)) (λ e. at_end (sym (e ∙ links.0)))
          (λ e. first-All (λ x. x ≢ l.head) xs l.tail is.distinct.0 (sym (e ∙ links.0))) in
      let d₁ : Spliced s t l.head n (first xs l.tail) =
        subst (λ a. Spliced s t l.head n a) links.0 d in
      let d₂ : Spliced s t (s.prev (first xs l.tail)) n (first xs l.tail) =
        subst (λ b. Spliced s t b n (first xs l.tail)) (sym links.1) d₁ in
      (t, run, splice_lem s t l [] xs n is new real d₂)

-- `list_insert_before` of the first node behind `us`, or of the tail, puts a new node there.
pub insert_before_lem :
    (s : Store) (l : Handle) (us vs : List Ptr) (n : Ptr)
    → IsList s l (us ++ vs)
    → NotIn n (nodes l (us ++ vs))
    → n ≢ null
    → (t : Store) × (insert_before s (first vs l.tail) n ≡ ok t) × IsList t l (us ++ (n ∷ vs))
insert_before_lem s l us vs n is new real =
    let g = gap l us vs n is.distinct new in
    let front = front-Chain s l us vs is.chain in
    let ends = subst (NotIn null) (regroup l us vs) is.real in
    let (t, run, d) =
      insert_before-Spliced s (first vs l.tail) n
        (first-All (λ x. x ≢ null) vs l.tail
          (All-back (λ x. x ≢ null) (l.head ∷ us) (vs ++ (l.tail ∷ [])) ends))
        real
        (All-prev (λ x. x ≢ null) s l.head us (first vs l.tail) front
          (All-front (λ x. x ≢ null) (l.head ∷ us) (vs ++ (l.tail ∷ [])) ends))
        (λ e. first-All (λ x. x ≢ n) vs l.tail g.new_back (sym e))
        (λ e. All-prev (λ x. x ≢ n) s l.head us (first vs l.tail) front g.new_front (sym e))
        (λ e.
          All-prev (λ x. x ≢ first vs l.tail) s l.head us (first vs l.tail) front g.end_front
            (sym e)) in
    (t, run, splice_lem s t l us vs n is new real d)

-- For a list that a node is on, `list_remove` of the node does not halt, leaves the other nodes in
-- order, and clears both links of the node.
pub remove_lem :
    (s : Store) (l : Handle) (us vs : List Ptr) (n : Ptr)
    → IsList s l (us ++ (n ∷ vs))
    → (t : Store) × (remove s n ≡ ok t)
      × IsList t l (us ++ vs)
      × (t.prev n ≡ null)
      × (t.next n ≡ null)
remove_lem s l us vs n is =
    let (before, after) = cut s l.head us n vs l.tail is.chain in
    let ends = subst (NotIn null) (regroup l us (n ∷ vs)) is.real in
    let back = All-back (λ x. x ≢ null) (l.head ∷ us) (n ∷ (vs ++ (l.tail ∷ []))) ends in
    let new =
      (Distinct-remove n (l.head ∷ us) (vs ++ (l.tail ∷ []))
        (subst Distinct (regroup l us (n ∷ vs)) is.distinct)).1 in
    let links = first_links s n vs l.tail after in
    let (t, run, d) =
      remove-Unspliced s n back.0
        (All-prev (λ x. x ≢ null) s l.head us n before
          (All-front (λ x. x ≢ null) (l.head ∷ us) (n ∷ (vs ++ (l.tail ∷ []))) ends))
        (λ e. first-All (λ x. x ≢ null) vs l.tail back.1 (sym links.0 ∙ e))
        (λ e.
          All-prev (λ x. x ≢ n) s l.head us n before
            (All-front (λ x. x ≢ n) (l.head ∷ us) (vs ++ (l.tail ∷ [])) new) (sym e))
        (λ e.
          first-All (λ x. x ≢ n) vs l.tail
            (All-back (λ x. x ≢ n) (l.head ∷ us) (vs ++ (l.tail ∷ [])) new) (sym (e ∙ links.0))) in
    (t, run, unsplice_lem s t l us vs n is d, d.here.0, d.here.1)
