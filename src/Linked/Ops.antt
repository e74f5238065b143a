-- ===== src/Linked/Ops.antt =====
-- src/lib/list.c: linking and unlinking at any place of a list.
use yuios.Common.{◌≡◌, refl, sym, ap, ◌≢◌, List, [], ◌∷◌, ◌++◌, arith, ==_false, All, ok}
use mathlib.Core.List.{append_assoc, append-nil}
use mathlib.Core.Path.{subst}
use yuios.Linked.{Ptr, null, Store, Handle, insert_before, insert_after, remove}
use yuios.Linked.Chain.{
  NotIn, Distinct, Chain, nodes, IsList, join, cut, All-prev, All-append, All-front, All-back,
  Distinct-insert, Distinct-remove, Distinct-append,
}
use yuios.Linked.Splice.{Spliced, Unspliced, rest_kept, Spliced-extend, Unspliced-close}

-- the node behind which a list ends, or its first node
abbrev pub first : List Ptr → Ptr → Ptr
first [] tail = tail
first (x ∷ xs) tail = x

flip-All : (a : Ptr) (ys : List Ptr) (xs : List Ptr) → All (λ x. NotIn x (a ∷ ys)) xs → NotIn a xs
flip-All a ys [] h = tt
flip-All a ys (x ∷ xs) h = ((λ e. h.0.0 (sym e)), flip-All a ys xs h.1)

pub regroup :
    (l : Handle) (us vs : List Ptr) → nodes l (us ++ vs) ≡ (l.head ∷ us) ++ (vs ++ (l.tail ∷ []))
regroup l us vs = ap (λ ys. l.head ∷ ys) (append_assoc us vs (l.tail ∷ []))

pub insert_before-Spliced :
    (s : Store) (a n : Ptr)
    → a ≢ null
    → n ≢ null
    → s.prev a ≢ null
    → n ≢ a
    → n ≢ s.prev a
    → a ≢ s.prev a
    → (t : Store) × (insert_before s a n ≡ ok t) × Spliced s t (s.prev a) n a
unfolding insert_before
insert_before-Spliced s a n ha hn hb na nb ab =
    rw (==_false a null ha, ==_false n null hn, ==_false n a na, ==_false (s.prev a) null hb)
      (
        _,
        refl,
        record {
          after = ground arith;
          here = ground arith;
          before = ground arith;
          next_kept = λ x p q. ground arith;
          prev_kept = λ x p q. ground arith;
        },
      )

pub insert_after-Spliced :
    (s : Store) (b n : Ptr)
    → b ≢ null
    → n ≢ null
    → s.next b ≢ null
    → n ≢ b
    → n ≢ s.next b
    → b ≢ s.next b
    → (t : Store) × (insert_after s b n ≡ ok t) × Spliced s t b n (s.next b)
unfolding insert_after
insert_after-Spliced s b n hb hn ha nb na ab =
    rw (==_false b null hb, ==_false n null hn, ==_false n b nb, ==_false (s.next b) null ha)
      (
        _,
        refl,
        record {
          after = ground arith;
          here = ground arith;
          before = ground arith;
          next_kept = λ x p q. ground arith;
          prev_kept = λ x p q. ground arith;
        },
      )

pub remove-Unspliced :
    (s : Store) (n : Ptr)
    → n ≢ null
    → s.prev n ≢ null
    → s.next n ≢ null
    → n ≢ s.prev n
    → n ≢ s.next n
    → (t : Store) × (remove s n ≡ ok t) × Unspliced s t (s.prev n) n (s.next n)
unfolding remove
remove-Unspliced s n hn hb ha nb na =
    rw
      (
        ==_false n null hn,
        ==_false (s.prev n) null hb,
        ==_false (s.next n) null ha,
        ==_false (s.prev n) n (λ e. nb (sym e)),
        ==_false (s.next n) null ha,
      )
      (
        _,
        refl,
        record {
          after = ground arith;
          here = ground arith;
          before = ground arith;
          next_kept = λ x p q. ground arith;
          prev_kept = λ x p q. ground arith;
        },
      )

-- What the distinctness of a list says of the two sides of the gap behind `us`.
pub record Gap (l : Handle) (us vs : List Ptr) (n : Ptr) : Type 0 where
  pub dist : Distinct (l.head ∷ us)
  pub back : Distinct (vs ++ (l.tail ∷ []))
  pub apart : All (λ x. NotIn x (vs ++ (l.tail ∷ []))) (l.head ∷ us)
  pub new_front : NotIn n (l.head ∷ us)
  pub new_back : NotIn n (vs ++ (l.tail ∷ []))
  pub end_front : NotIn (first vs l.tail) (l.head ∷ us)

pub front-Chain :
    (s : Store) (l : Handle) (us vs : List Ptr)
    → Chain s l.head (us ++ vs) l.tail
    → Chain s l.head us (first vs l.tail)
front-Chain s l us [] c = subst (λ ys. Chain s l.head ys l.tail) (append-nil us) c
front-Chain s l us (v ∷ vs) c = (cut s l.head us v vs l.tail c).0

end_apart :
    (l : Handle) (us vs : List Ptr)
    → All (λ x. NotIn x (vs ++ (l.tail ∷ []))) us
    → NotIn (first vs l.tail) us
end_apart l us [] h = flip-All l.tail [] us h
end_apart l us (v ∷ vs) h = flip-All v (vs ++ (l.tail ∷ [])) us h

pub gap :
    (l : Handle) (us vs : List Ptr) (n : Ptr)
    → Distinct (nodes l (us ++ vs))
    → NotIn n (nodes l (us ++ vs))
    → Gap l us vs n
gap l us vs n dist new =
    let parts =
      Distinct-append (l.head ∷ us) (vs ++ (l.tail ∷ [])) (subst Distinct (regroup l us vs) dist) in
    let new' : NotIn n ((l.head ∷ us) ++ (vs ++ (l.tail ∷ []))) =
      subst (NotIn n) (regroup l us vs) new in
    record {
      dist = parts.0;
      back = parts.1;
      apart = parts.2;
      new_front = All-front (λ x. x ≢ n) (l.head ∷ us) (vs ++ (l.tail ∷ [])) new';
      new_back = All-back (λ x. x ≢ n) (l.head ∷ us) (vs ++ (l.tail ∷ [])) new';
      end_front = end_apart l (l.head ∷ us) vs parts.2;
    }

-- The links behind the gap stay.
back-Chain :
    (s t : Store) (l : Handle) (us : List Ptr) (v : Ptr) (vs : List Ptr) (n b : Ptr)
    → Chain s v vs l.tail
    → Gap l us (v ∷ vs) n
    → NotIn b (v ∷ (vs ++ (l.tail ∷ [])))
    → ((x : Ptr) → x ≢ b → x ≢ n → t.next x ≡ s.next x)
    → ((x : Ptr) → x ≢ n → x ≢ v → t.prev x ≡ s.prev x)
    → Chain t v vs l.tail
back-Chain s t l us v vs n b c g hb keep_next keep_prev =
    rest_kept s t v vs l.tail b n c keep_next keep_prev
      (hb.0, All-front (λ x. x ≢ b) vs (l.tail ∷ []) hb.1)
      (g.new_back.0, All-front (λ x. x ≢ n) vs (l.tail ∷ []) g.new_back.1) g.new_back.1 g.back.0

-- Linking a new node in before the rest `vs` of a list, or at its end, puts it there.
splice-Chain :
    (s t : Store) (l : Handle) (us vs : List Ptr) (n : Ptr)
    → Chain s l.head (us ++ vs) l.tail
    → Gap l us vs n
    → Spliced s t (s.prev (first vs l.tail)) n (first vs l.tail)
    → Chain t l.head (us ++ (n ∷ vs)) l.tail
splice-Chain s t l us [] n c g d =
    Spliced-extend s t l.head us l.tail n (front-Chain s l us [] c) d g.dist g.new_front g.end_front
splice-Chain s t l us (v ∷ vs) n c g d =
    let (front, back) = cut s l.head us v vs l.tail c in
    let last = All-prev (λ x. NotIn x (v ∷ (vs ++ (l.tail ∷ [])))) s l.head us v front g.apart in
    let whole =
      join t l.head (us ++ (n ∷ [])) v vs l.tail
        (Spliced-extend s t l.head us v n front d g.dist g.new_front g.end_front)
        (back-Chain s t l us v vs n (s.prev v) back g last d.next_kept d.prev_kept) in
    subst (λ ys. Chain t l.head ys l.tail) (append_assoc us (n ∷ []) (v ∷ vs)) whole

-- Taking a node of a list out leaves the others, in order.
unsplice-Chain :
    (s t : Store) (l : Handle) (us vs : List Ptr) (n : Ptr)
    → Chain s l.head us n
    → Chain s n vs l.tail
    → Gap l us vs n
    → Unspliced s t (s.prev n) n (s.next n)
    → Chain t l.head (us ++ vs) l.tail
unsplice-Chain s t l us [] n before after g d =
    let d' : Unspliced s t (s.prev n) n l.tail =
      subst (λ a. Unspliced s t (s.prev n) n a) after.0 d in
    subst (λ ys. Chain t l.head ys l.tail) (sym (append-nil us))
      (Unspliced-close s t l.head us n l.tail before d' g.dist g.new_front g.end_front)
unsplice-Chain s t l us (v ∷ vs) n before after g d =
    let d' : Unspliced s t (s.prev n) n v = subst (λ a. Unspliced s t (s.prev n) n a) after.0 d in
    let last = All-prev (λ x. NotIn x (v ∷ (vs ++ (l.tail ∷ [])))) s l.head us n before g.apart in
    join t l.head us v vs l.tail
      (Unspliced-close s t l.head us n v before d' g.dist g.new_front g.end_front)
      (back-Chain s t l us v vs n (s.prev n) after.2 g last d'.next_kept d'.prev_kept)

pub splice_lem :
    (s t : Store) (l : Handle) (us vs : List Ptr) (n : Ptr)
    → IsList s l (us ++ vs)
    → NotIn n (nodes l (us ++ vs))
    → n ≢ null
    → Spliced s t (s.prev (first vs l.tail)) n (first vs l.tail)
    → IsList t l (us ++ (n ∷ vs))
splice_lem s t l us vs n is new real d = record {
  chain = splice-Chain s t l us vs n is.chain (gap l us vs n is.distinct new) d;
  distinct = subst Distinct (sym (regroup l us (n ∷ vs))) (
      Distinct-insert n (l.head ∷ us) (vs ++ (l.tail ∷ []))
        (subst Distinct (regroup l us vs) is.distinct) (subst (NotIn n) (regroup l us vs) new));
  real = subst (NotIn null) (sym (regroup l us (n ∷ vs))) (
      let r : NotIn null ((l.head ∷ us) ++ (vs ++ (l.tail ∷ []))) =
        subst (NotIn null) (regroup l us vs) is.real in
      All-append (λ x. x ≢ null) (l.head ∷ us) (n ∷ (vs ++ (l.tail ∷ [])))
        (All-front (λ x. x ≢ null) (l.head ∷ us) (vs ++ (l.tail ∷ [])) r)
        (real, All-back (λ x. x ≢ null) (l.head ∷ us) (vs ++ (l.tail ∷ [])) r));
}

pub unsplice_lem :
    (s t : Store) (l : Handle) (us vs : List Ptr) (n : Ptr)
    → IsList s l (us ++ (n ∷ vs))
    → Unspliced s t (s.prev n) n (s.next n)
    → IsList t l (us ++ vs)
unsplice_lem s t l us vs n is d =
    let whole = subst Distinct (regroup l us (n ∷ vs)) is.distinct in
    let real = subst (NotIn null) (regroup l us (n ∷ vs)) is.real in
    let (rest, new) = Distinct-remove n (l.head ∷ us) (vs ++ (l.tail ∷ [])) whole in
    let distinct : Distinct (nodes l (us ++ vs)) = subst Distinct (sym (regroup l us vs)) rest in
    let new' : NotIn n (nodes l (us ++ vs)) = subst (NotIn n) (sym (regroup l us vs)) new in
    let (before, after) = cut s l.head us n vs l.tail is.chain in
    record {
      chain = unsplice-Chain s t l us vs n before after (gap l us vs n distinct new') d;
      distinct = distinct;
      real = subst (NotIn null) (sym (regroup l us vs)) (
          All-append (λ x. x ≢ null) (l.head ∷ us) (vs ++ (l.tail ∷ []))
            (All-front (λ x. x ≢ null) (l.head ∷ us) (n ∷ (vs ++ (l.tail ∷ []))) real)
            (All-back (λ x. x ≢ null) (l.head ∷ us) (n ∷ (vs ++ (l.tail ∷ []))) real).1);
    }
