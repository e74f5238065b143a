-- ===== src/Buffers/Examples.antt =====
-- A disk whose blocks hold their own numbers, the cache of it at the start, and a cache with one buffer.
use yuios.Common.{
  ℕ, ◌≡◌, refl, ◌⊎◌, inr, true, false, some, List, [], ◌∷◌, arith, ◌==◌, if◌then◌else◌, ok, halt,
  assertion,
}
use yuios.Buffers.{Buffer, Cache, buffer_init, bread, brelse}
use yuios.Buffers.Valid.{IsValid, Holds, buffer_init-IsValid}
use yuios.Buffers.Getblk.{Got, Waits}
use yuios.Buffers.Bread.{bread-Holds}
use yuios.Buffers.Brelse.{Released, brelse-Released, brelse_waiting}

abbrev numbers : ℕ → ℕ → List ℕ
numbers d b = b ∷ []

abbrev unused_memory : ℕ → Buffer
unused_memory i = record {
  dev = 0;
  block = 0;
  count = 0;
  dirty = false;
  valid = false;
  content = [];
}

abbrev at_start : Cache
at_start = buffer_init unused_memory numbers

bread-Holds_example :
    ((c' : Cache) × (i : ℕ) × ((bread at_start 3 1 5 ≡ ok (c', some i))
        × Got at_start c' 1 5 i
        × Holds at_start 1 5 ((c'.buffers i).content)))
    ⊎ Waits at_start 3 (bread at_start 3 1 5)
bread-Holds_example =
    bread-Holds at_start 3 1 5 (buffer_init-IsValid unused_memory numbers) (λ i. omega arith) refl

-- block 5 of device 1, with a byte that the disk does not have yet, while the tasks of the list wait
abbrev one_buffer : List ℕ → Cache
one_buffer waiting = record {
  buffers =
      λ i. record { dev = 1; block = 5; count = 1; dirty = true; valid = true; content = 9 ∷ [] };
  made = 1;
  hash_table = λ h. if 4 == h then 0 ∷ [] else [];
  free = [];
  waiting = waiting;
  disk = numbers;
}

one_buffer-IsValid : (waiting : List ℕ) → IsValid (one_buffer waiting)
one_buffer-IsValid waiting = record {
  hashed = λ h i. ground arith;
  freed = λ i. ground arith;
  unique = λ i j hi hj d b. omega arith;
  clean = λ i hi z. absurd (omega arith);
  coherent = λ i hi ok₁ z. absurd (ground (arith, z));
}

brelse-Released_example :
    (c' : Cache) × ((brelse (one_buffer []) 0 ≡ ok c') × Released (one_buffer []) c' 0)
brelse-Released_example =
    brelse-Released (one_buffer []) 0 (one_buffer-IsValid []) (omega arith) (λ d. refl)
      (omega arith) (inr refl)

brelse_waiting_example : brelse (one_buffer (7 ∷ [])) 0 ≡ halt assertion
brelse_waiting_example =
    brelse_waiting (one_buffer (7 ∷ [])) 0 7 [] (one_buffer-IsValid (7 ∷ [])) (omega arith)
      (λ d. refl) refl refl
