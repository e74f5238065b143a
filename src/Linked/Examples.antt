-- ===== src/Linked/Examples.antt =====
-- A list whose head is at 1 and whose tail is at 2, with the nodes 10 and 20.
use yuios.Common.{ℕ, ◌≡◌, refl, [], ◌∷◌, arith, ok}
use yuios.Linked.{Ptr, Store, Handle, as_int, insert_sort, update}
use yuios.Linked.Chain.{NotIn, nodes, IsList}
use yuios.Linked.Sorted.{Sorted, insert_key, insert_sort_lem}

abbrev handle : Handle
handle = record { head = 1; tail = 2 }

abbrev store : Store
store = record {
  prev = update (update (update (λ p. 0) 10 1) 20 10) 2 20;
  next = update (update (update (λ p. 0) 1 10) 10 20) 20 2;
}

store-IsList : IsList store handle (10 ∷ 20 ∷ [])
store-IsList = record {
  chain = (refl, refl, (refl, refl, (refl, refl)));
  distinct = (
    (omega arith, (omega arith, (omega arith, tt))),
    ((omega arith, (omega arith, tt)), ((omega arith, tt), (tt, tt))),
  );
  real = (omega arith, (omega arith, (omega arith, (omega arith, tt))));
}

new : NotIn 30 (nodes handle (10 ∷ 20 ∷ []))
new = (omega arith, (omega arith, (omega arith, (omega arith, tt))))

-- the negative key comes first
abbrev keys : Ptr → ℕ
keys = update (update (update (λ p. 0) 10 0xffffffff) 20 7) 30 5

insert_sort_lem_example :
    (t : Store) × (insert_sort 3 store handle keys 30 ≡ ok t)
    × IsList t handle (insert_key (as_int keys) 30 (10 ∷ 20 ∷ []))
    × Sorted (as_int keys) (insert_key (as_int keys) 30 (10 ∷ 20 ∷ []))
insert_sort_lem_example =
    insert_sort_lem 3 store handle keys (10 ∷ 20 ∷ []) 30 store-IsList ((omega arith, tt), (tt, tt))
      new (omega arith) refl refl (omega arith)
