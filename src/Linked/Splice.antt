-- ===== src/Linked/Splice.antt =====
-- What linking a node in and taking one out do to a stretch.
use yuios.Common.{◌≡◌, sym, ap, ◌∙◌, ◌≢◌, List, [], ◌∷◌, ◌++◌, All}
use yuios.Linked.{Ptr, null, Store}
use yuios.Linked.Chain.{NotIn, Distinct, Chain, frame, All-prev}

-- `t` is `s` with `n` linked in between `b` and `a`.
pub record Spliced (s t : Store) (b n a : Ptr) : Type 0 where
  pub after : t.next b ≡ n
  pub here : (t.prev n ≡ b) × (t.next n ≡ a)
  pub before : t.prev a ≡ n
  pub next_kept : (x : Ptr) → x ≢ b → x ≢ n → t.next x ≡ s.next x
  pub prev_kept : (x : Ptr) → x ≢ n → x ≢ a → t.prev x ≡ s.prev x

-- `t` is `s` with `n` taken out from between `b` and `a`.
pub record Unspliced (s t : Store) (b n a : Ptr) : Type 0 where
  pub after : t.next b ≡ a
  pub here : (t.prev n ≡ null) × (t.next n ≡ null)
  pub before : t.prev a ≡ b
  pub next_kept : (x : Ptr) → x ≢ b → x ≢ n → t.next x ≡ s.next x
  pub prev_kept : (x : Ptr) → x ≢ n → x ≢ a → t.prev x ≡ s.prev x

pub All-both {ℓ κ μ} :
    {P : Ptr → Type ℓ} {Q : Ptr → Type κ} (R : Ptr → Type μ) (xs : List Ptr)
    → ((x : Ptr) → P x → Q x → R x)
    → All P xs
    → All Q xs
    → All R xs
All-both R [] f h k = tt
All-both R (x ∷ xs) f h k = (f x h.0 k.0, All-both R xs f h.1 k.1)

-- The links behind the place where a node is linked in stay.
pub rest_kept :
    (s t : Store) (a : Ptr) (xs : List Ptr) (q b n : Ptr)
    → Chain s a xs q
    → ((x : Ptr) → x ≢ b → x ≢ n → t.next x ≡ s.next x)
    → ((x : Ptr) → x ≢ n → x ≢ a → t.prev x ≡ s.prev x)
    → NotIn b (a ∷ xs)
    → NotIn n (a ∷ xs)
    → NotIn n (xs ++ (q ∷ []))
    → NotIn a (xs ++ (q ∷ []))
    → Chain t a xs q
rest_kept s t a xs q b n c keep_next keep_prev hb hn hn' ha =
    frame s t a xs q c (All-both _ (a ∷ xs) keep_next hb hn)
      (All-both _ (xs ++ (q ∷ [])) keep_prev hn' ha)

-- Linking a node in before the end of a stretch extends it by that node.
pub Spliced-extend :
    (s t : Store) (p : Ptr) (xs : List Ptr) (q n : Ptr)
    → Chain s p xs q
    → Spliced s t (s.prev q) n q
    → Distinct (p ∷ xs)
    → NotIn n (p ∷ xs)
    → NotIn q (p ∷ xs)
    → Chain t p (xs ++ (n ∷ [])) q
Spliced-extend s t p [] q n c d dist hn hq =
    (ap t.next (sym c.1) ∙ d.after, d.here.0 ∙ c.1, (d.here.1, d.before))
Spliced-extend s t p (x ∷ xs) q n c d dist hn hq =
    let not_last : s.prev q ≢ p = All-prev (λ y. y ≢ p) s x xs q c.2 dist.0 in
    (
      d.next_kept p (λ e. not_last (sym e)) hn.0 ∙ c.0,
      d.prev_kept x hn.1.0 hq.1.0 ∙ c.1,
      Spliced-extend s t x xs q n c.2 d dist.1 hn.1 hq.1,
    )

-- Taking a node out from the end of a stretch leads it to the node behind.
pub Unspliced-close :
    (s t : Store) (p : Ptr) (xs : List Ptr) (n a : Ptr)
    → Chain s p xs n
    → Unspliced s t (s.prev n) n a
    → Distinct (p ∷ xs)
    → NotIn n (p ∷ xs)
    → NotIn a (p ∷ xs)
    → Chain t p xs a
Unspliced-close s t p [] n a c d dist hn ha = (ap t.next (sym c.1) ∙ d.after, d.before ∙ c.1)
Unspliced-close s t p (x ∷ xs) n a c d dist hn ha =
    let not_last : s.prev n ≢ p = All-prev (λ y. y ≢ p) s x xs n c.2 dist.0 in
    (
      d.next_kept p (λ e. not_last (sym e)) hn.0 ∙ c.0,
      d.prev_kept x hn.1.0 ha.1.0 ∙ c.1,
      Unspliced-close s t x xs n a c.2 d dist.1 hn.1 ha.1,
    )
