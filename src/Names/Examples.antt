-- ===== src/Names/Examples.antt =====
-- The path `ab/c` and an entry of the name `ab`.
use yuios.Common.{◌+◌, ◌≡◌, refl, ◌&&◌, none, some, arith, if◌then◌else◌, ok, [], ◌∷◌, get_or}
use yuios.Bytes.{Mem, is_separator}
use yuios.Names.{match_name}
use yuios.Names.Match.{agrees, is_end, match_name_lem}

-- from 1 on the path, and from 10 on the name
abbrev bytes : Mem
bytes a = get_or (0 ∷ 97 ∷ 98 ∷ 47 ∷ 99 ∷ 0 ∷ 0 ∷ 0 ∷ 0 ∷ 0 ∷ 97 ∷ 98 ∷ 0 ∷ []) a 0

match_name_lem_example :
    match_name 3 bytes 1 10
    ≡ ok (
        if agrees bytes 1 10 2 && is_end (bytes (1 + 2))
        then some (if is_separator (bytes (1 + 2)) then 1 + 2 + 1 else 1 + 2)
        else none)
match_name_lem_example =
    match_name_lem 3 bytes 1 10 2 ((λ e. absurd (omega arith)), ((λ e. absurd (omega arith)), refl))
      (omega arith)
