-- ===== src/Devices.antt =====
-- src/kernel/device.c: the table of devices, and the order in which the requests to a block device are served. A
-- request is a number, and `request_list` the numbers in the order of the list, which is that of their sectors (the
-- insertion is `insert_sort` of Linked). The first request to an idle device is served at once; a later one
-- waits until the request before it hands the device on. The wake-up of the task of the next request, with the
-- assertion on its magic number, is left out.
mod Examples
pub mod Elevator
use yuios.Common.{
  ℕ, zero, suc, ◌+◌, Bool, true, false, not, Option, none, some, List, [], ◌∷◌, ltb, ◌==◌,
  if◌then◌else◌, panic, fault, Outcome, ok, halt, ◌>>=◌, ◌>>◌, assert, update, remove,
}

-- the fields of `device_t` by which a device is found; `DEV_NULL` is 0
pub record Device : Type 0 where
  pub kind : ℕ
  pub subtype : ℕ
  pub parent : ℕ

-- `DEVICE_NR`
abbrev pub device_nr : ℕ
device_nr = 64

-- `get_null_device`, with `left` devices to come
unfoldable pub get_null_device : (ℕ → Device) → (left i : ℕ) → Outcome ℕ
get_null_device devices zero i = halt panic
get_null_device devices (suc left) i =
    let rest = get_null_device devices left (i + 1) in if (devices i).kind == 0 then ok i else rest

-- `device_install`
unfoldable pub device_install : (ℕ → Device) → Device → Outcome ((ℕ → Device) × ℕ)
device_install devices d = get_null_device devices 63 1 >>= λ i. ok (update devices i d, i)

-- `device_get`
unfoldable pub device_get : (ℕ → Device) → ℕ → Outcome Device
device_get devices dev = do
  assert (ltb dev device_nr)
  assert (not ((devices dev).kind == 0))
  ok (devices dev)

-- The loop of `device_find`; behind it there is no return, so that its result is undefined.
unfoldable pub device_find : (ℕ → Device) → (subtype idx nr left i : ℕ) → Outcome ℕ
device_find devices subtype idx nr zero i = halt fault
device_find devices subtype idx nr (suc left) i =
    let skipped = device_find devices subtype idx nr left (i + 1) in
    let counted = device_find devices subtype idx (nr + 1) left (i + 1) in
    if not ((devices i).subtype == subtype) then skipped else if nr == idx then ok i else counted

-- `req->node.next` and `req->node.prev`, unless they are the list's own nodes
unfoldable pub next_of : ℕ → List ℕ → Option ℕ
next_of r [] = none
next_of r (x ∷ []) = none
next_of r (x ∷ (y ∷ ys)) = let rest = next_of r (y ∷ ys) in if x == r then some y else rest

unfoldable pub prev_of : ℕ → List ℕ → Option ℕ
prev_of r [] = none
prev_of r (x ∷ []) = none
prev_of r (x ∷ (y ∷ ys)) = let rest = prev_of r (y ∷ ys) in if y == r then some x else rest

abbrev pub is_none : Option ℕ → Bool
is_none none = true
is_none (some x) = false

-- `device->direct`, `DIRECT_UP` and `DIRECT_DOWN`
pub data Direct : Type 0 where
  up down : Direct

-- the turn at either end of the list
abbrev pub turned : Direct → (r : ℕ) → List ℕ → Direct
turned up r list = if is_none (next_of r list) then down else up
turned down r list = if is_none (prev_of r list) then up else down

abbrev pub neighbour : Direct → (r : ℕ) → List ℕ → Option ℕ
neighbour up r list = next_of r list
neighbour down r list = prev_of r list

-- `request_nextreq`
unfoldable pub request_nextreq : Direct → (r : ℕ) → List ℕ → Direct × Option ℕ
request_nextreq direct r list = (turned direct r list, neighbour (turned direct r list) r list)

-- The end of `device_request` again and again: a request is served, the next one is chosen, and the request is taken
-- out of the list. The requests in the order in which they are served, for `fuel` of them at most.
unfoldable pub serve : (fuel : ℕ) → Direct → (r : ℕ) → List ℕ → List ℕ
serve zero direct r list = []
serve (suc fuel) direct r list =
    let (direct', next) = request_nextreq direct r list in
    r ∷ elim next [ none ↦ [] | some n ↦ serve fuel direct' n (remove r list) ]
