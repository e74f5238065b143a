-- ===== src/Linked/Sorted.antt =====
-- src/lib/list.c: `list_insert_sort` keeps a list in the order of its keys.
use yuios.Common.{
  ℕ, zero, suc, ◌≤◌, ◌<◌, ◌≡◌, refl, sym, ap, ◌≢◌, inl, inr, List, [], ◌∷◌, ◌++◌, arith, ltb,
  if◌then◌else◌, ==_false, ==_refl, Bool-cases, length, All, ok,
}
use mathlib.Core.Path.{subst}
use yuios.Linked.{Ptr, null, Store, Handle, as_int, anchor_from, insert_sort}
use yuios.Linked.Chain.{NotIn, Chain, nodes, IsList}
use yuios.Linked.Ops.{first}
use yuios.Linked.Walk.{first_links, not_tail, xs_real, insert_before_lem}

-- the place of a key: behind all keys up to the first that is greater
abbrev pub insert_key : (Ptr → ℕ) → Ptr → List Ptr → List Ptr
insert_key key n [] = n ∷ []
insert_key key n (x ∷ xs) = if ltb (key n) (key x) then n ∷ (x ∷ xs) else x ∷ insert_key key n xs

abbrev pub Sorted : (Ptr → ℕ) → List Ptr → Type 0
Sorted key [] = Unit
Sorted key (x ∷ xs) = All (λ y. key x ≤ key y) xs × Sorted key xs

-- where the loop stops: the nodes before, and those from the anchor on
record Place (key : Ptr → ℕ) (n : Ptr) (xs us vs : List Ptr) : Type 0 where
  split : us ++ vs ≡ xs
  placed : us ++ (n ∷ vs) ≡ insert_key key n xs

anchor_from-Place :
    (fuel : ℕ) (s : Store) (l : Handle) (key : Ptr → ℕ) (n p : Ptr) (xs : List Ptr)
    → Chain s p xs l.tail
    → NotIn l.tail xs
    → NotIn null xs
    → length xs < fuel
    → (us : List Ptr) × (vs : List Ptr) × (anchor_from fuel s l key (first xs l.tail) (key n)
        ≡ ok (first vs l.tail))
      × Place key n xs us vs
unfolding anchor_from
anchor_from-Place zero s l key n p xs c ht hz h = absurd (omega arith)
anchor_from-Place (suc fuel) s l key n p [] c ht hz h =
    rw (==_refl l.tail) ([], [], refl, record { split = refl; placed = refl })
anchor_from-Place (suc fuel) s l key n p (x ∷ xs) c ht hz h =
    rw (==_false x l.tail ht.0, ==_false x null hz.0, (first_links s x xs l.tail c.2).0)
      (elim (Bool-cases (ltb (key n) (key x))) [
        | inl e ↦ rw e ([], x ∷ xs, refl, record { split = refl; placed = rw e })
        | inr e ↦
            let (us, vs, run, place) =
              anchor_from-Place fuel s l key n x xs c.2 ht.1 hz.1 (omega arith) in
            rw e (
              x ∷ us,
              vs,
              run,
              record {
                split = ap (λ ys. x ∷ ys) place.split;
                placed = rw e (ap (λ ys. x ∷ ys) place.placed);
              },
            )
      ])

below_insert :
    (key : Ptr → ℕ) (k : ℕ) (n : Ptr) (xs : List Ptr)
    → k ≤ key n
    → All (λ y. k ≤ key y) xs
    → All (λ y. k ≤ key y) (insert_key key n xs)
below_insert key k n [] h a = (h, tt)
below_insert key k n (x ∷ xs) h a = elim (Bool-cases (ltb (key n) (key x))) [
  | inl e ↦ rw e (h, a)
  | inr e ↦ rw e (a.0, below_insert key k n xs h a.1)
]

raise :
    (key : Ptr → ℕ) (j k : ℕ) (xs : List Ptr)
    → j ≤ k
    → All (λ y. k ≤ key y) xs
    → All (λ y. j ≤ key y) xs
raise key j k [] h a = tt
raise key j k (x ∷ xs) h a = (omega (arith, a.0), raise key j k xs h a.1)

insert_key-Sorted :
    (key : Ptr → ℕ) (n : Ptr) (xs : List Ptr) → Sorted key xs → Sorted key (insert_key key n xs)
insert_key-Sorted key n [] h = (tt, tt)
insert_key-Sorted key n (x ∷ xs) h = elim (Bool-cases (ltb (key n) (key x))) [
  | inl e ↦ rw e ((ground arith, raise key (key n) (key x) xs (ground arith) h.0), h)
  | inr e ↦ rw e (below_insert key (key x) n xs (ground arith) h.0, insert_key-Sorted key n xs h.1)
]

-- For a list in the signed order of its keys and a new node whose links are clear, `list_insert_sort`, with
-- more fuel than there are nodes, does not halt: the node stands behind every key up to its own and
-- before every greater one, the other nodes keep their order, and the list is in order again.
pub insert_sort_lem :
    (fuel : ℕ) (s : Store) (l : Handle) (key : Ptr → ℕ) (xs : List Ptr) (n : Ptr)
    → IsList s l xs
    → Sorted (as_int key) xs
    → NotIn n (nodes l xs)
    → n ≢ null
    → s.next n ≡ null
    → s.prev n ≡ null
    → length xs < fuel
    → (t : Store) × (insert_sort fuel s l key n ≡ ok t)
      × IsList t l (insert_key (as_int key) n xs)
      × Sorted (as_int key) (insert_key (as_int key) n xs)
unfolding insert_sort
insert_sort_lem fuel s l key xs n is sorted new real cn cp h =
    let (us, vs, run, place) =
      anchor_from-Place fuel s l (as_int key) n l.head xs is.chain (not_tail s l xs is)
        (xs_real s l xs is) h in
    let (t, run', is') =
      insert_before_lem s l us vs n (subst (IsList s l) (sym place.split) is)
        (subst (λ ys. NotIn n (nodes l ys)) (sym place.split) new) real in
    (
      t,
      rw ((first_links s l.head xs l.tail is.chain).0, run, cn, cp) run',
      subst (IsList t l) place.placed is',
      insert_key-Sorted (as_int key) n xs sorted,
    )
