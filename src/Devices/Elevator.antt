-- ===== src/Devices/Elevator.antt =====
-- src/kernel/device.c: no request is left behind.
use yuios.Common.{
  ℕ, zero, suc, ◌<◌, ◌≤◌, ◌≡◌, refl, sym, ◌∙◌, ◌⊎◌, inl, inr, true, false, none, some, List, [],
  ◌∷◌, arith, ◌==◌, Bool-cases, Option-cases, ==_refl, length, member, remove, member-remove,
}
use yuios.Devices.{next_of, prev_of, Direct, up, down, request_nextreq, serve}

-- no request is in the list twice
abbrev pub NoDup : List ℕ → Type 0
NoDup [] = Unit
NoDup (x ∷ xs) = (member x xs ≡ false) × NoDup xs

some_same : {a b : ℕ} → some a ≡ some b → a ≡ b
some_same h = cc

next_in :
    (r n : ℕ) (xs : List ℕ)
    → NoDup xs
    → next_of r xs ≡ some n
    → (member n xs ≡ true) × ((r == n) ≡ false)
unfolding next_of
next_in r n [] d h = absurd cc
next_in r n (x ∷ []) d h = absurd cc
next_in r n (x ∷ (y ∷ ys)) d h = elim (Bool-cases (x == r)) [
  | inl e ↦
      let at : y ≡ n = some_same (sym (rw e refl) ∙ h) in
      (rw (← at, ==_refl y) (ground arith), let out = d.0 in ground arith)
  | inr e ↦ let (inside, ne) = next_in r n (y ∷ ys) d.1 (sym (rw e refl) ∙ h) in (ground arith, ne)
]

prev_in :
    (r n : ℕ) (xs : List ℕ)
    → NoDup xs
    → prev_of r xs ≡ some n
    → (member n xs ≡ true) × ((r == n) ≡ false)
unfolding prev_of
prev_in r n [] d h = absurd cc
prev_in r n (x ∷ []) d h = absurd cc
prev_in r n (x ∷ (y ∷ ys)) d h = elim (Bool-cases (y == r)) [
  | inl e ↦
      let at : x ≡ n = some_same (sym (rw e refl) ∙ h) in
      (rw (← at, ==_refl x) refl, let out = d.0 in ground arith)
  | inr e ↦ let (inside, ne) = prev_in r n (y ∷ ys) d.1 (sym (rw e refl) ∙ h) in (ground arith, ne)
]

-- a request without neighbours is alone
alone :
    (r : ℕ) (xs : List ℕ)
    → next_of r xs ≡ none
    → prev_of r xs ≡ none
    → member r xs ≡ true
    → (y : ℕ) → member y xs ≡ true
    → y ≡ r
unfolding next_of prev_of
alone r [] h k inside y at = absurd cc
alone r (x ∷ []) h k inside y at = ground arith
alone r (x ∷ (z ∷ zs)) h k inside y at = elim (Bool-cases (x == r)) [
  | inl e ↦ absurd (let bad : some z ≡ none = sym (rw e refl) ∙ h in cc)
  | inr e ↦ elim (Bool-cases (z == r)) [
    | inl e' ↦ absurd (let bad : some x ≡ none = sym (rw e' refl) ∙ k in cc)
    | inr e' ↦
        let all = alone r (z ∷ zs) (sym (rw e refl) ∙ h) (sym (rw e' refl) ∙ k) (ground arith) in
        let here = all z (rw (==_refl z) refl) in absurd (ground arith)
  ]
]

-- the request that is served next is another one, unless there is none
choose :
    (d : Direct) (r : ℕ) (xs : List ℕ)
    → NoDup xs
    → member r xs ≡ true
    → (((request_nextreq d r xs).1 ≡ none) × ((y : ℕ) → member y xs ≡ true → y ≡ r))
      ⊎ ((n : ℕ) × ((((request_nextreq d r xs).1) ≡ some n)
            × (member n xs ≡ true)
            × ((r == n) ≡ false)))
unfolding request_nextreq
choose up r xs nodup inside = elim (Option-cases (next_of r xs)) [
  | inr (n, e) ↦ let (a, b) = next_in r n xs nodup e in inr (n, (rw (e, e) refl, a, b))
  | inl e ↦ elim (Option-cases (prev_of r xs)) [
    | inr (n, k) ↦ let (a, b) = prev_in r n xs nodup k in inr (n, (rw (e, k) refl, a, b))
    | inl k ↦ inl (rw (e, k) refl, alone r xs e k inside)
  ]
]
choose down r xs nodup inside = elim (Option-cases (prev_of r xs)) [
  | inr (n, k) ↦ let (a, b) = prev_in r n xs nodup k in inr (n, (rw (k, k) refl, a, b))
  | inl k ↦ elim (Option-cases (next_of r xs)) [
    | inr (n, e) ↦ let (a, b) = next_in r n xs nodup e in inr (n, (rw (k, e) refl, a, b))
    | inl e ↦ inl (rw (k, e) refl, alone r xs e k inside)
  ]
]

remove-NoDup : (r : ℕ) (xs : List ℕ) → NoDup xs → NoDup (remove r xs)
remove-NoDup r [] d = tt
remove-NoDup r (x ∷ xs) d = elim (Bool-cases (x == r)) [
  | inl e ↦ rw e (remove-NoDup r xs d.1)
  | inr e ↦
      rw e (let m = member-remove r x xs in let out = d.0 in ground arith, remove-NoDup r xs d.1)
]

length-remove : (r : ℕ) (xs : List ℕ) → length (remove r xs) ≤ length xs
length-remove r [] = omega arith
length-remove r (x ∷ xs) = let ih = length-remove r xs in ground arith

length-remove_less : (r : ℕ) (xs : List ℕ) → member r xs ≡ true → length (remove r xs) < length xs
length-remove_less r [] h = absurd (ground arith)
length-remove_less r (x ∷ xs) h = elim (Bool-cases (x == r)) [
  | inl e ↦ let l = length-remove r xs in rw e (omega arith)
  | inr e ↦ let ih = length-remove_less r xs (ground arith) in rw e (omega arith)
]

-- While no new request comes, the requests of the list are served each once, and none is left behind: from any
-- request and in either direction, as many rounds as the list has requests serve them all.
pub serve_all :
    (fuel : ℕ) (d : Direct) (r : ℕ) (xs : List ℕ)
    → NoDup xs
    → member r xs ≡ true
    → length xs ≤ fuel
    → ((y : ℕ) → member y (serve fuel d r xs) ≡ member y xs) × NoDup (serve fuel d r xs)
unfolding serve
serve_all zero d r [] nodup inside enough = absurd cc
serve_all zero d r (x ∷ xs) nodup inside enough = absurd (omega arith)
serve_all (suc fuel) d r xs nodup inside enough = elim (choose d r xs nodup inside) [
  | inl (e, only) ↦ rw e (
    λ y. elim (Bool-cases (r == y)) [
      | inl at ↦ let same : r ≡ y = ground arith in rw (at, ← same) (sym inside)
      | inr at ↦ rw at (elim (Bool-cases (member y xs)) [
        | inl bad ↦ absurd (let same = only y bad in ground arith)
        | inr out ↦ sym out
      ])
    ],
    (refl, tt),
  )
  | inr (n, (e, inside_n, ne)) ↦
      let d' = (request_nextreq d r xs).0 in
      let left = remove r xs in
      let (all, once) =
        serve_all fuel d' n left (remove-NoDup r xs nodup)
          (let m = member-remove r n xs in ground arith)
          (let l = length-remove_less r xs inside in omega arith) in
      rw e (
        λ y.
            let a = all y in
            let m = member-remove r y xs in
            elim (Bool-cases (r == y)) [
              | inl at ↦ let same : r ≡ y = ground arith in rw (at, ← same) (sym inside)
              | inr at ↦ rw at (a ∙ m ∙ rw at refl)
            ],
        (all r ∙ member-remove r r xs ∙ rw (==_refl r) refl, once),
      )
]
