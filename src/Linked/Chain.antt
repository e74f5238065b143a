-- ===== src/Linked/Chain.antt =====
-- The nodes that a doubly linked stretch passes through.
use yuios.Common.{◌≡◌, sym, ◌∙◌, ◌≢◌, List, [], ◌∷◌, ◌++◌, All}
use yuios.Linked.{Ptr, null, Store, Handle}

-- no member of the list is `a`
abbrev pub NotIn : Ptr → List Ptr → Type 0
NotIn a xs = All (λ x. x ≢ a) xs

abbrev pub Distinct : List Ptr → Type 0
Distinct [] = Unit
Distinct (x ∷ xs) = NotIn x xs × Distinct xs

-- from `p` the links lead through `xs` to `q`, in both directions
abbrev pub Chain : Store → Ptr → List Ptr → Ptr → Type 0
Chain s p [] q = (s.next p ≡ q) × (s.prev q ≡ p)
Chain s p (x ∷ xs) q = (s.next p ≡ x) × (s.prev x ≡ p) × Chain s x xs q

-- the nodes of a list, from its head to its tail
abbrev pub nodes : Handle → List Ptr → List Ptr
nodes l xs = l.head ∷ (xs ++ (l.tail ∷ []))

-- A list's nodes are linked in order, none is met twice, and none is `NULL`.
pub record IsList (s : Store) (l : Handle) (xs : List Ptr) : Type 0 where
  pub chain : Chain s l.head xs l.tail
  pub distinct : Distinct (nodes l xs)
  pub real : NotIn null (nodes l xs)

module _ {ℓ} (P : Ptr → Type ℓ) where
  pub All-append : (xs ys : List Ptr) → All P xs → All P ys → All P (xs ++ ys)
  All-append [] ys h k = k
  All-append (x ∷ xs) ys h k = (h.0, All-append xs ys h.1 k)

  pub All-front : (xs ys : List Ptr) → All P (xs ++ ys) → All P xs
  All-front [] ys h = tt
  All-front (x ∷ xs) ys h = (h.0, All-front xs ys h.1)

  pub All-back : (xs ys : List Ptr) → All P (xs ++ ys) → All P ys
  All-back [] ys h = h
  All-back (x ∷ xs) ys h = All-back xs ys h.1

-- A stretch survives a change that spares the links along it.
pub frame :
    (s t : Store) (p : Ptr) (xs : List Ptr) (q : Ptr)
    → Chain s p xs q
    → All (λ a. t.next a ≡ s.next a) (p ∷ xs)
    → All (λ a. t.prev a ≡ s.prev a) (xs ++ (q ∷ []))
    → Chain t p xs q
frame s t p [] q c n r = (n.0 ∙ c.0, r.0 ∙ c.1)
frame s t p (x ∷ xs) q c n r = (n.0 ∙ c.0, r.0 ∙ c.1, frame s t x xs q c.2 n.1 r.1)

-- Stretches that meet make up one, and a stretch is cut at any of its nodes.
pub join :
    (s : Store) (p : Ptr) (xs : List Ptr) (x : Ptr) (ys : List Ptr) (q : Ptr)
    → Chain s p xs x
    → Chain s x ys q
    → Chain s p (xs ++ (x ∷ ys)) q
join s p [] x ys q c d = (c.0, c.1, d)
join s p (z ∷ xs) x ys q c d = (c.0, c.1, join s z xs x ys q c.2 d)

pub cut :
    (s : Store) (p : Ptr) (xs : List Ptr) (x : Ptr) (ys : List Ptr) (q : Ptr)
    → Chain s p (xs ++ (x ∷ ys)) q
    → Chain s p xs x × Chain s x ys q
cut s p [] x ys q c = ((c.0, c.1), c.2)
cut s p (z ∷ xs) x ys q c = let (d, e) = cut s z xs x ys q c.2 in ((c.0, c.1, d), e)

-- The last node before the end of a stretch is its start or one of its nodes.
pub All-prev {ℓ} :
    (P : Ptr → Type ℓ) (s : Store) (p : Ptr) (xs : List Ptr) (q : Ptr)
    → Chain s p xs q
    → All P (p ∷ xs)
    → P (s.prev q)
All-prev P s p [] q c h = rw c.1 h.0
All-prev P s p (x ∷ xs) q c h = All-prev P s x xs q c.2 h.1

pub Distinct-insert :
    (n : Ptr) (xs ys : List Ptr)
    → Distinct (xs ++ ys)
    → NotIn n (xs ++ ys)
    → Distinct (xs ++ (n ∷ ys))
Distinct-insert n [] ys d h = (h, d)
Distinct-insert n (x ∷ xs) ys d h = (
  All-append (λ y. y ≢ x) xs (n ∷ ys) (All-front (λ y. y ≢ x) xs ys d.0)
      ((λ e. h.0 (sym e)), All-back (λ y. y ≢ x) xs ys d.0),
  Distinct-insert n xs ys d.1 h.1,
)

pub Distinct-remove :
    (n : Ptr) (xs ys : List Ptr)
    → Distinct (xs ++ (n ∷ ys))
    → Distinct (xs ++ ys) × NotIn n (xs ++ ys)
Distinct-remove n [] ys d = (d.1, d.0)
Distinct-remove n (x ∷ xs) ys d =
    let ih = Distinct-remove n xs ys d.1 in
    let back = All-back (λ y. y ≢ x) xs (n ∷ ys) d.0 in
    (
      (All-append (λ y. y ≢ x) xs ys (All-front (λ y. y ≢ x) xs (n ∷ ys) d.0) back.1, ih.0),
      ((λ e. back.0 (sym e)), ih.1),
    )

-- Two parts of a list of distinct nodes are distinct and apart.
pub Distinct-append :
    (xs ys : List Ptr) → Distinct (xs ++ ys) → Distinct xs × Distinct ys × All (λ x. NotIn x ys) xs
Distinct-append [] ys d = (tt, d, tt)
Distinct-append (x ∷ xs) ys d =
    let ih = Distinct-append xs ys d.1 in
    ((All-front (λ y. y ≢ x) xs ys d.0, ih.0), ih.1, (All-back (λ y. y ≢ x) xs ys d.0, ih.2))
