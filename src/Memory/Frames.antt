-- ===== src/Memory/Frames.antt =====
-- src/kernel/memory.c: `get_page` and `put_page` keep the count of free pages.
use yuios.Common.{
  ℕ, zero, suc, ◌+◌, ◌-◌, ◌*◌, ◌^◌, ◌≤◌, ◌<◌, ◌≡◌, refl, sym, ap, ◌∙◌, ◌≢◌, inl, inr, Option, none,
  some, List, arith, ◌==◌, if◌then◌else◌, lt→ltb, Bool-cases, length, get_or, set, length-set,
  get_or-set_self, get_or-set_ne, set-set, set-get_or, Halt, assertion, panic, ok, halt, ◌>>=◌,
  sub32,
}
use yuios.Memory.{Memory, idx, page, free_frame, get_page, put_page}

-- how many of `left` pages from `i` on have no reference
abbrev pub count_free : List ℕ → (left i : ℕ) → ℕ
count_free frames zero i = 0
count_free frames (suc left) i =
    (if get_or frames i 0 == 0 then 1 else 0) + count_free frames left (i + 1)

-- The pages lie in the array and in 32 bits of addresses, the first ones are not given out, and the
-- counter is the number of pages with no reference.
pub record IsValid (m : Memory) : Type 0 where
  pub inside : m.total_pages ≤ length m.memory_map
  pub small : m.total_pages * 4096 ≤ 2 ^ 32
  pub reserved : (0 < m.start_page) × (m.start_page ≤ m.total_pages)
  pub counted : m.free_pages ≡ count_free m.memory_map (m.total_pages - m.start_page) m.start_page

count_free-le : (frames : List ℕ) (left i : ℕ) → count_free frames left i ≤ left
count_free-le frames zero i = omega arith
count_free-le frames (suc left) i = ground (arith, count_free-le frames left (i + 1))

-- A write outside the pages that are counted.
count_free-set_out :
    (frames : List ℕ) (left i k v : ℕ)
    → k < i
    → count_free (set frames k v) left i ≡ count_free frames left i
count_free-set_out frames zero i k v h = refl
count_free-set_out frames (suc left) i k v h = rw (
  get_or-set_ne frames k i v 0 (omega arith),
  count_free-set_out frames left (i + 1) k v (omega arith),
)

-- A write to one of them, without a difference.
count_free-set :
    (frames : List ℕ) (left i k v : ℕ)
    → i ≤ k
    → k < i + left
    → k < length frames
    → count_free (set frames k v) left i + (if get_or frames k 0 == 0 then 1 else 0)
      ≡ count_free frames left i + (if v == 0 then 1 else 0)
count_free-set frames zero i k v lo hi room = absurd (omega arith)
count_free-set frames (suc left) i k v lo hi room = elim (Bool-cases (k == i)) [
  | inl e ↦
      let e' : k ≡ i = ground arith in
      rw
        (
          ← e',
          get_or-set_self frames k v 0 room,
          count_free-set_out frames left (k + 1) k v (omega arith),
        )
        (omega arith)
  | inr e ↦
      rw (get_or-set_ne frames k i v 0 (ground arith))
        (omega (arith, count_free-set frames left (i + 1) k v (ground arith) (omega arith) room))
]

-- How the search of `get_page` ends.
data Search (frames : List ℕ) (left i : ℕ) : Option ℕ → Type 0 where
  hit :
      {k : ℕ}
      → i ≤ k
      → k < i + left
      → get_or frames k 0 ≡ 0
      → ((j : ℕ) → i ≤ j → j < k → get_or frames j 0 ≢ 0)
      → Search frames left i (some k)
  miss : count_free frames left i ≡ 0 → Search frames left i none

widen :
    {frames : List ℕ} {left i : ℕ} {r : Option ℕ}
    → get_or frames i 0 ≢ 0
    → Search frames left (i + 1) r
    → Search frames (suc left) i r
widen {i} ne (hit {k} lo hi free least) = hit (omega arith) (omega arith) free λ j jl jh.
    elim (Bool-cases (j == i)) [
      | inl e ↦ let e' : j ≡ i = ground arith in rw e' ne
      | inr e ↦ least j (ground arith) jh
    ]
widen {frames} {i} ne (miss all_taken) = miss (ground arith)

free_frame-Search : (frames : List ℕ) (left i : ℕ) → Search frames left i (free_frame frames left i)
unfolding free_frame
free_frame-Search frames zero i = miss refl
free_frame-Search frames (suc left) i = elim (Bool-cases (get_or frames i 0 == 0)) [
  | inl e ↦ rw e (hit (omega arith) (omega arith) (ground arith) λ j lo hi. absurd (omega arith))
  | inr e ↦ rw e (widen (ground arith) (free_frame-Search frames left (i + 1)))
]

-- the lowest page with no reference
pub record IsFirstFree (m : Memory) (k : ℕ) : Type 0 where
  pub range : (m.start_page ≤ k) × (k < m.total_pages)
  pub free : get_or m.memory_map k 0 ≡ 0
  pub least : (j : ℕ) → m.start_page ≤ j → j < k → get_or m.memory_map j 0 ≢ 0

abbrev pub taken : Memory → ℕ → Memory
taken m k = record m { memory_map = set m.memory_map k 1; free_pages = m.free_pages - 1 }

taken-IsValid : (m : Memory) (k : ℕ) → IsValid m → IsFirstFree m k → IsValid (taken m k)
taken-IsValid m k v f = record {
  inside = omega (arith, v.inside, length-set m.memory_map k 1);
  small = v.small;
  reserved = v.reserved;
  counted = ground (
    arith,
    v.counted,
    f.free,
    v.inside,
    f.range,
    count_free-set m.memory_map (m.total_pages - m.start_page) m.start_page k 1,
  );
}

get_page_found :
    (m : Memory) (r : Option ℕ)
    → IsValid m
    → 1 < m.free_pages
    → free_frame m.memory_map (m.total_pages - m.start_page) m.start_page ≡ r
    → Search m.memory_map (m.total_pages - m.start_page) m.start_page r
    → (k : ℕ) × IsFirstFree m k × (get_page m ≡ ok (taken m k, page k)) × IsValid (taken m k)
unfolding get_page
get_page_found m r v more e (hit {k} lo hi free least) =
    let first : IsFirstFree m k = record {
      range = (lo, omega (arith, v.reserved));
      free = free;
      least = least;
    } in
    let bound : m.free_pages ≤ 2 ^ 20 = omega (
      arith,
      v.counted,
      v.small,
      count_free-le m.memory_map (m.total_pages - m.start_page) m.start_page,
    ) in
    let less : sub32 m.free_pages 1 ≡ m.free_pages - 1 = omega arith in
    (
      k,
      first,
      rw (e, get_page, less, lt→ltb 0 (m.free_pages - 1) (omega arith)),
      taken-IsValid m k v first,
    )
get_page_found m r v more e (miss all_taken) = absurd (omega (arith, v.counted))

-- In a valid state with two free pages or more, `get_page` does not halt: it gives out the lowest page
-- with no reference, which has one then, and the state stays valid.
pub get_page_lem :
    (m : Memory)
    → IsValid m
    → 1 < m.free_pages
    → (k : ℕ) × IsFirstFree m k × (get_page m ≡ ok (taken m k, page k)) × IsValid (taken m k)
get_page_lem m v more =
    get_page_found m _ v more refl
      (free_frame-Search m.memory_map (m.total_pages - m.start_page) m.start_page)

get_page_last_found :
    (m : Memory) (r : Option ℕ)
    → IsValid m
    → m.free_pages ≤ 1
    → free_frame m.memory_map (m.total_pages - m.start_page) m.start_page ≡ r
    → Search m.memory_map (m.total_pages - m.start_page) m.start_page r
    → (h : Halt) × (get_page m ≡ halt h)
unfolding get_page
get_page_last_found m r v few e (hit {k} lo hi free least) =
    let one : m.free_pages ≡ 1 = ground (
      arith,
      v.counted,
      free,
      v.inside,
      v.reserved,
      count_free-set m.memory_map (m.total_pages - m.start_page) m.start_page k 1,
    ) in
    (assertion, rw (e, get_page, one))
get_page_last_found m r v few e (miss all_taken) = (panic, rw (e, get_page))

-- In a valid state with one free page or none, `get_page` stops the kernel: the last free page is never
-- given out.
pub get_page_last : (m : Memory) → IsValid m → m.free_pages ≤ 1 → (h : Halt) × (get_page m ≡ halt h)
get_page_last m v few =
    get_page_last_found m _ v few refl
      (free_frame-Search m.memory_map (m.total_pages - m.start_page) m.start_page)

-- the state after a reference to page `k` is dropped
abbrev pub dropped : Memory → ℕ → Memory
dropped m k = record m {
  memory_map = set m.memory_map k (get_or m.memory_map k 0 - 1);
  free_pages = (if get_or m.memory_map k 0 == 1 then m.free_pages + 1 else m.free_pages);
}

-- In a valid state with a free page, dropping a reference to a page that has one does not halt, the
-- page is free again when it was the last, and the state stays valid.
pub put_page_lem :
    (m : Memory) (k : ℕ)
    → IsValid m
    → 0 < m.free_pages
    → m.start_page ≤ k
    → k < m.total_pages
    → 1 ≤ get_or m.memory_map k 0
    → (put_page m (page k) ≡ ok (dropped m k)) × IsValid (dropped m k)
unfolding put_page
put_page_lem m k v spare lo hi ref = (run, valid)
  where
    at : page k ≡ k * 4096
    at = omega (arith, v.small)

    index : idx (k * 4096) ≡ k
    index = omega arith

    valid : IsValid (dropped m k)
    valid = record {
      inside = omega (arith, v.inside, length-set m.memory_map k (get_or m.memory_map k 0 - 1));
      small = v.small;
      reserved = v.reserved;
      counted = ground (
        arith,
        v.counted,
        v.inside,
        v.reserved,
        count_free-set m.memory_map (m.total_pages - m.start_page) m.start_page k
            (get_or m.memory_map k 0 - 1),
      );
    }

    run : put_page m (page k) ≡ ok (dropped m k)
    run = ground (
      arith,
      at,
      index,
      valid.counted,
      v.small,
      v.reserved,
      count_free-le (dropped m k).memory_map (m.total_pages - m.start_page) m.start_page,
    )

put-taken :
    (m : Memory) (k : ℕ)
    → IsValid m
    → 1 < m.free_pages
    → IsFirstFree m k
    → put_page (taken m k) (page k) ≡ ok m
put-taken m k v more f =
    let held : get_or (set m.memory_map k 1) k 0 ≡ 1 =
      get_or-set_self m.memory_map k 1 0 (omega (arith, f.range, v.inside)) in
    let restored : set (set m.memory_map k 1) k 0 ≡ m.memory_map =
      set-set m.memory_map k 1 0
      ∙ ap (set m.memory_map k) (sym f.free)
      ∙ set-get_or m.memory_map k 0 in
    (put_page_lem (taken m k) k (taken-IsValid m k v f) (omega arith) f.range.0 f.range.1
      (omega arith)).0
    ∙ ground (arith, held, restored)

-- In a valid state with two free pages or more, giving back at once the page that `get_page` gave out
-- restores the state.
pub put_page-get_page :
    (m : Memory)
    → IsValid m
    → 1 < m.free_pages
    → (get_page m >>= λ (m', addr). put_page m' addr) ≡ ok m
put_page-get_page m v more =
    let (k, first, run, valid) = get_page_lem m v more in rw run (put-taken m k v more first)
