-- ===== src/Buffers.antt =====
-- src/kernel/buffer.c: the cache of disk blocks. A `buffer_t` is known by its number in the order of
-- `get_new_buffer`; the lists are the numbers of their buffers, first node first (their links are those of
-- Linked). A call runs without being interrupted, so that the lock of `bread` is free; a task that finds
-- no buffer waits, and its call ends there with `none`. `device_request` reads and writes the blocks of `disk`.
-- `count`, an `int`, is a natural number here: it starts at 0, and the assertion of `brelse` stops it there.
pub mod Valid
pub mod Claim
pub mod Claimed
pub mod Reading
pub mod Getblk
pub mod Bread
pub mod Release
mod Examples
pub mod Brelse
use yuios.Common.{
  ℕ, ◌+◌, ◌-◌, ◌*◌, ◌%◌, Bool, true, false, not, ◌&&◌, Option, none, some, List, [], ◌∷◌, bit_xor,
  ltb, ◌==◌, if◌then◌else◌, Outcome, ok, ◌>>=◌, ◌>>◌, assert, add32, eof, member, remove, last,
  update,
}

-- `buffer_t` without its links and its lock
pub record Buffer : Type 0 where
  pub dev : ℕ
  pub block : ℕ
  pub count : ℕ
  pub dirty : Bool
  pub valid : Bool
  pub content : List ℕ

-- `buffer_count`, `hash_table`, `free_list` and `wait_list`, with the blocks of the devices
pub record Cache : Type 0 where
  pub buffers : ℕ → Buffer
  pub made : ℕ
  pub hash_table : ℕ → List ℕ
  pub free : List ℕ
  pub waiting : List ℕ
  pub disk : ℕ → ℕ → List ℕ

-- `hash`
abbrev pub hash : (dev block : ℕ) → ℕ
hash dev block = bit_xor dev block % 31

abbrev pub hash_of : Buffer → ℕ
hash_of b = hash b.dev b.block

-- the buffer is that of the block
abbrev pub same : Buffer → (dev block : ℕ) → Bool
same b dev block = (b.dev == dev) && (b.block == block)

-- the loop of `get_from_hash_table`
unfoldable pub find : (ℕ → Buffer) → (dev block : ℕ) → List ℕ → Option ℕ
find buffers dev block [] = none
find buffers dev block (i ∷ is) =
    if same (buffers i) dev block then some i else find buffers dev block is

-- what `get_from_hash_table` does with a buffer that it found
abbrev pub unfree : Cache → ℕ → Cache
unfree c i = if member i c.free then record c { free = remove i c.free } else c

-- `buffer_init`: no buffer is made yet, and the memory of the buffers is what it is
abbrev pub buffer_init : (ℕ → Buffer) → (ℕ → ℕ → List ℕ) → Cache
buffer_init memory disk = record {
  buffers = memory;
  made = 0;
  hash_table = λ h. [];
  free = [];
  waiting = [];
  disk = disk;
}

-- `hash_locate`
unfoldable pub hash_locate : Cache → ℕ → Outcome Cache
hash_locate c i = do
  let h = hash_of (c.buffers i)
  assert (not (member i (c.hash_table h)))
  ok (record c { hash_table = update c.hash_table h (i ∷ c.hash_table h) })

-- `hash_remove`
unfoldable pub hash_remove : Cache → ℕ → Outcome Cache
hash_remove c i = do
  let h = hash_of (c.buffers i)
  assert (member i (c.hash_table h))
  ok (record c { hash_table = update c.hash_table h (remove i (c.hash_table h)) })

-- `KERNEL_BUFFER_MEM`, `KERNEL_BUFFER_SIZE`, `sizeof(buffer_t)`, and the test of `get_new_buffer`
abbrev pub has_room : ℕ → Bool
has_room made = ltb (0x800000 + 64 * made + 64) (0x800000 + 0x400000 - 1024 - 1024 * made)

-- the fields that `get_new_buffer` sets
abbrev pub renewed : Buffer → Buffer
renewed b = record b { dev = eof; block = 0; count = 0; dirty = false; valid = false }

abbrev pub get_new_buffer : Cache → Cache
get_new_buffer c = record c {
  buffers = update c.buffers c.made (renewed (c.buffers c.made));
  made = c.made + 1;
}

-- `get_free_buffer` when `get_new_buffer` gives none, with `free_list`
unfoldable pub reuse : Cache → (task : ℕ) → List ℕ → Outcome (Cache × Option ℕ)
reuse c task [] = do
  assert (not (member task c.waiting))
  ok (record c { waiting = task ∷ c.waiting }, none)
reuse c task (x ∷ xs) = do
  let i = last x xs
  c ← hash_remove (record c { free = remove i c.free }) i
  ok (record c { buffers = update c.buffers i (record (c.buffers i) { valid = false }) }, some i)

-- `get_free_buffer`
unfoldable pub get_free_buffer : Cache → (task : ℕ) → Outcome (Cache × Option ℕ)
get_free_buffer c task =
    if has_room c.made then ok (get_new_buffer c, some c.made) else reuse c task c.free

-- the end of `getblk`, with the buffer that `get_free_buffer` gives
unfoldable pub claim : Cache → Option ℕ → (dev block : ℕ) → Outcome (Cache × Option ℕ)
claim c none dev block = ok (c, none)
claim c (some i) dev block = do
  let b = c.buffers i
  assert (b.count == 0)
  assert (not b.dirty)
  c ←
      hash_locate
        (record c {
          buffers = update c.buffers i (record b { count = 1; dev = dev; block = block });
        })
        i
  ok (c, some i)

-- `getblk`, with what the hash table holds
unfoldable pub getblk_with : Cache → Option ℕ → (task dev block : ℕ) → Outcome (Cache × Option ℕ)
getblk_with c none task dev block = get_free_buffer c task >>= λ (c, o). claim c o dev block
getblk_with c (some i) task dev block =
    let c = unfree c i in
    let b = c.buffers i in
    ok (record c { buffers = update c.buffers i (record b { count = add32 b.count 1 }) }, some i)

unfoldable pub getblk : Cache → (task dev block : ℕ) → Outcome (Cache × Option ℕ)
getblk c task dev block =
    getblk_with c (find c.buffers dev block (c.hash_table (hash dev block))) task dev block

-- the end of `bread`
unfoldable pub fill : Cache → Option ℕ → Cache
fill c none = c
fill c (some i) =
    let b = c.buffers i in
    if b.valid then c else record c {
      buffers =
          update c.buffers i
            (record b { content = c.disk b.dev b.block; dirty = false; valid = true });
    }

-- `bread`
unfoldable pub bread : Cache → (task dev block : ℕ) → Outcome (Cache × Option ℕ)
bread c task dev block = getblk c task dev block >>= λ (c, o). ok (fill c o, o)

-- `bwrite`
unfoldable pub bwrite : Cache → ℕ → Cache
bwrite c i =
    let b = c.buffers i in
    if not b.dirty then c else record c {
      disk = update c.disk b.dev (update (c.disk b.dev) b.block b.content);
      buffers = update c.buffers i (record b { dirty = false; valid = true });
    }

-- What `brelse` does with the waiting tasks: `list_popback` takes the node out of `wait_list`, and then
-- `task_unblock` calls `list_remove` of it.
unfoldable pub wake : Cache → List ℕ → Outcome Cache
wake c [] = ok c
wake c (t ∷ ts) = do
  let task = last t ts
  let c = record c { waiting = remove task c.waiting }
  assert (member task c.waiting)
  ok (record c { waiting = remove task c.waiting })

-- `brelse` of a buffer, behind its `bwrite`
unfoldable pub release : Cache → ℕ → Outcome Cache
release c i = do
  let b = c.buffers i
  assert (ltb 0 b.count)
  let c = record c { buffers = update c.buffers i (record b { count = b.count - 1 }) }
  if not (b.count - 1 == 0)
      then ok c
      else (assert (not (member i c.free)) >>= λ _. wake (record c { free = i ∷ c.free }) c.waiting)

-- `brelse`
unfoldable pub brelse : Cache → ℕ → Outcome Cache
brelse c i = release (bwrite c i) i
