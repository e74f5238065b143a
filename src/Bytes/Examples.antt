-- ===== src/Bytes/Examples.antt =====
-- The strings "ab" at 100 and "az" at 200.
use yuios.Common.{ℕ, ◌+◌, ◌-◌, ◌<◌, ◌≡◌, refl, inl, arith, if◌then◌else◌, ok}
use yuios.Bytes.{Mem, poke, memcpy, strcmp}
use yuios.Bytes.Blocks.{within, memcpy_lem}
use yuios.Bytes.Strings.{IsString, strcmp-lex, lex, text}

abbrev memory : Mem
memory = poke (poke (poke (poke (λ a. 0) 100 b'a') 101 b'b') 200 b'a') 201 b'z'

memory_bytes : (a : ℕ) → memory a < 256
memory_bytes a = ground arith

ab : IsString memory 100 2
ab = (omega arith, (omega arith, refl))

az : IsString memory 200 2
az = (omega arith, (omega arith, refl))

-- the target overlaps the source
memcpy_lem_example :
    memcpy memory 99 100 2 100 ≡ (if within 99 2 100 then memory (100 + (100 - 99)) else memory 100)
memcpy_lem_example = memcpy_lem memory 99 100 2 100 (inl (omega arith))

strcmp-lex_example : strcmp 3 memory 100 200 ≡ ok (lex (text memory 100 2) (text memory 200 2))
strcmp-lex_example = strcmp-lex 3 memory 100 200 2 2 memory_bytes ab az (omega arith)
