-- ===== src/Buffers/Claim.antt =====
-- src/kernel/buffer.c: `get_free_buffer` gives a buffer that no list holds, and the end of `getblk` puts it
-- under its new block.
use yuios.Common.{
  update, ℕ, ◌<◌, ◌≡◌, refl, ap, ◌∙◌, ◌≢◌, ◌⊎◌, inl, inr, true, false, not, ◌&&◌, some, List, [],
  ◌∷◌, arith, ltb, ◌==◌, ==_refl, Bool-cases, List-cases, ok, ◌>>=◌, member, remove, last,
  member-remove, member-last,
}
use yuios.Buffers.{
  Cache, hash, hash_of, hash_locate, hash_remove, has_room, get_new_buffer, reuse, get_free_buffer,
  claim,
}
use yuios.Buffers.Valid.{IsValid}

-- The buffer `i` is in no list, and the others are as in a valid cache.
pub record IsLoose (c : Cache) (i : ℕ) : Type 0 where
  pub hashed :
      (h j : ℕ)
      → member j (c.hash_table h) ≡ (ltb j c.made && (not (i == j) && (hash_of (c.buffers j) == h)))
  pub freed :
      (j : ℕ) → member j c.free ≡ (ltb j c.made && (not (i == j) && ((c.buffers j).count == 0)))
  pub in_use : i < c.made
  pub empty :
      ((c.buffers i).count ≡ 0) × ((c.buffers i).dirty ≡ false) × ((c.buffers i).valid ≡ false)

-- what becomes of the other buffers, and what the buffer was before
pub record Loosened (c c' : Cache) (i : ℕ) : Type 0 where
  pub kept : (j : ℕ) → i ≢ j → (c'.buffers j ≡ c.buffers j) × (ltb j c'.made ≡ ltb j c.made)
  pub disk_same : c'.disk ≡ c.disk
  pub was : i < c.made → (c.buffers i).count ≡ 0
  pub waiting_same : c'.waiting ≡ c.waiting

new_lem :
    (c : Cache)
    → IsValid c
    → IsLoose (get_new_buffer c) c.made × Loosened c (get_new_buffer c) c.made
new_lem c v = (
  record {
    hashed = λ h j. let e = v.hashed h j in ground (arith, e);
    freed = λ j. let e = v.freed j in ground (arith, e);
    in_use = omega arith;
    empty = ground arith;
  },
  record {
    kept = λ j ne. ground arith;
    disk_same = refl;
    was = λ h. absurd (omega arith);
    waiting_same = refl;
  },
)

-- the buffer that `reuse` takes
abbrev taken : Cache → ℕ → Cache
taken c i = record c {
  free = remove i c.free;
  hash_table =
      update c.hash_table (hash_of (c.buffers i)) (remove i (c.hash_table (hash_of (c.buffers i))));
  buffers = update c.buffers i (record (c.buffers i) { valid = false });
}

taken_lem :
    (c : Cache) (i : ℕ)
    → IsValid c
    → member i c.free ≡ true
    → IsLoose (taken c i) i × Loosened c (taken c i) i
taken_lem c i v h =
    let f = v.freed i in
    (
      record {
        hashed = λ h j.
            let e = v.hashed h j in
            let r = member-remove i j (c.hash_table (hash_of (c.buffers i))) in
            ground (arith, e, r);
        freed = λ j. let e = v.freed j in let r = member-remove i j c.free in ground (arith, e, r);
        in_use = ground arith;
        empty =
            let z : (c.buffers i).count ≡ 0 = ground arith in
            let d = v.clean i (ground arith) z in ground arith;
      },
      record {
        kept = λ j ne. ground arith;
        disk_same = refl;
        was = λ u. ground arith;
        waiting_same = refl;
      },
    )

reuse_lem :
    (c : Cache) (task x : ℕ) (xs : List ℕ)
    → IsValid c
    → c.free ≡ x ∷ xs
    → let i = last x xs in
      (reuse c task (x ∷ xs) ≡ ok (taken c i, some i)) × (member i c.free ≡ true)
unfolding reuse hash_remove
reuse_lem c task x xs v at =
    let i = last x xs in
    let inside : member i c.free ≡ true = rw at (member-last x xs) in
    let f = v.freed i in
    let listed : member i (c.hash_table (hash_of (c.buffers i))) ≡ true =
      let e = v.hashed (hash_of (c.buffers i)) i in ground arith in
    (rw listed refl, inside)

-- When there is room for a buffer or an unused one, `get_free_buffer` takes one out of all lists.
pub get_free_buffer_lem :
    (c : Cache) (task : ℕ)
    → IsValid c
    → ((c' : Cache) × (i : ℕ) × ((get_free_buffer c task ≡ ok (c', some i))
          × IsLoose c' i
          × Loosened c c' i))
      ⊎ ((get_free_buffer c task ≡ reuse c task []) × (has_room c.made ≡ false) × (c.free ≡ []))
unfolding get_free_buffer
get_free_buffer_lem c task v = elim (Bool-cases (has_room c.made)) [
  | inl e ↦
      let (loose, rest) = new_lem c v in inl (get_new_buffer c, c.made, (rw e refl, loose, rest))
  | inr e ↦ elim (List-cases c.free) [
    | inl none_free ↦ inr (rw (e, none_free) refl, e, none_free)
    | inr (x, xs, at) ↦
        let (run, inside) = reuse_lem c task x xs v at in
        let (loose, rest) = taken_lem c (last x xs) v inside in
        inl (taken c (last x xs), last x xs, (rw e (ap (reuse c task) at ∙ run), loose, rest))
  ]
]

-- what `claim` makes of the cache
abbrev pub claimed : Cache → (i dev block : ℕ) → Cache
claimed c i dev block =
    let h = hash dev block in
    record c {
      buffers = update c.buffers i (record (c.buffers i) { count = 1; dev = dev; block = block });
      hash_table = update c.hash_table h (i ∷ c.hash_table h);
    }

pub claim_run :
    (c : Cache) (i dev block : ℕ)
    → IsLoose c i
    → claim c (some i) dev block ≡ ok (claimed c i dev block, some i)
unfolding claim hash_locate
claim_run c i dev block l =
    let one : ((c.buffers i).count == 0) ≡ true = let e = l.empty.0 in ground arith in
    let out : member i (c.hash_table (hash dev block)) ≡ false =
      let e = l.hashed (hash dev block) i in ground arith in
    rw (one, l.empty.1, ==_refl i, out, ◌>>=◌) refl
