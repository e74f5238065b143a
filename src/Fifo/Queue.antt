-- ===== src/Fifo/Queue.antt =====
-- The queue that src/lib/fifo.c promises: bytes in order, fewer than `cap` of them, where a `put`
-- into a full queue loses the oldest byte and a `get` of an empty one stops the kernel.
use yuios.Common.{
  ℕ, ◌+◌, List, [], ◌∷◌, ◌++◌, Outcome, ok, halt, assertion, ◌==◌, if◌then◌else◌, length, ◌>>=◌,
}

pub data Op : Type 0 where
  take : Op
  give : ℕ → Op

unfoldable pub dequeue : List ℕ → Outcome (ℕ × List ℕ)
dequeue [] = halt assertion
dequeue (x ∷ q) = ok (x, q)

abbrev pub rest : List ℕ → List ℕ
rest [] = []
rest (x ∷ q) = q

unfoldable pub enqueue : ℕ → List ℕ → ℕ → List ℕ
enqueue cap q x = (if length q + 1 == cap then rest q else q) ++ (x ∷ [])

-- the bytes that a sequence of calls returns, and the queue that it leaves
unfoldable pub run_queue : ℕ → List Op → List ℕ → Outcome (List ℕ × List ℕ)
run_queue cap [] q = ok ([], q)
run_queue cap (give x ∷ ops) q = run_queue cap ops (enqueue cap q x)
run_queue cap (take ∷ ops) q =
    dequeue q >>= λ (x, q'). run_queue cap ops q' >>= λ (out, q''). ok (x ∷ out, q'')
