-- ===== src/Common/Members.antt =====
-- Lists of nodes that are told apart by their numbers: the search for a node, taking it out, and the last
-- node. A node is in a list at most once, since it has one pair of links: all its occurrences are taken out.
use Prim.Native.Nat.{ℕ}
use mathlib.Core.Path.{◌≡◌, refl}
use mathlib.Core.Logic.{◌⊎◌, inl, inr}
use mathlib.Core.Bool.{Bool, true, false}
use mathlib.Core.List.{List, [], ◌∷◌}
use native.Mathlib.Omega.{arith}
use yuios.Common.Tests.{◌==◌, ==_refl, if◌then◌else◌, Bool-cases}

abbrev pub member : ℕ → List ℕ → Bool
member x [] = false
member x (y ∷ ys) = if y == x then true else member x ys

abbrev pub remove : ℕ → List ℕ → List ℕ
remove x [] = []
remove x (y ∷ ys) = if y == x then remove x ys else y ∷ remove x ys

-- the last node of a list that begins with `x`
abbrev pub last : ℕ → List ℕ → ℕ
last x [] = x
last x (y ∷ ys) = last y ys

pub List-cases {ℓ} :
    {A : Type ℓ} (xs : List A) → (xs ≡ []) ⊎ ((x : A) × (r : List A) × (xs ≡ x ∷ r))
List-cases [] = inl refl
List-cases (x ∷ r) = inr (x, r, refl)

pub member-remove :
    (x y : ℕ) (xs : List ℕ) → member y (remove x xs) ≡ (if x == y then false else member y xs)
member-remove x y [] = ground arith
member-remove x y (z ∷ zs) = let ih = member-remove x y zs in ground (arith, ih)

pub member-last : (x : ℕ) (xs : List ℕ) → member (last x xs) (x ∷ xs) ≡ true
member-last x [] = rw (==_refl x) refl
member-last x (y ∷ ys) = elim (Bool-cases (x == last y ys)) [
  | inl e ↦ rw e refl
  | inr e ↦ rw e (member-last y ys)
]
