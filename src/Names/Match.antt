-- ===== src/Names/Match.antt =====
-- src/fs/namei.c: when a path begins with the name of a directory entry.
use yuios.Common.{
  ℕ, zero, suc, ◌+◌, ◌<◌, ◌≡◌, refl, ap, inl, inr, Bool, true, false, not, ◌&&◌, ◌||◌, none, some,
  arith, ◌==◌, if◌then◌else◌, Bool-cases, ==_false, ok, ◌>>=◌,
}
use yuios.Bytes.{Mem, is_separator}
use yuios.Bytes.Strings.{IsString}
use yuios.Names.{match_from, matched, match_name}

-- the `n` bytes at `a` are those at `b`
abbrev pub agrees : Mem → (a b n : ℕ) → Bool
agrees m a b zero = true
agrees m a b (suc n) = (m a == m b) && agrees m (a + 1) (b + 1) n

-- a component of a path ends before this byte
abbrev pub is_end : ℕ → Bool
is_end c = (c == 0) || is_separator c

matched_end :
    (left lhs : ℕ)
    → matched left 0 lhs
      ≡ (if is_end left then some (if is_separator left then lhs + 1 else lhs) else none)
matched_end left lhs = ground arith

-- A path matches the name of a directory entry when its bytes begin with the name and a separator or the end of
-- the path follows; `*next` is then behind the separator. The loop needs no more rounds than the name has bytes.
pub match_name_lem :
    (fuel : ℕ) (m : Mem) (name entry_name n : ℕ)
    → IsString m entry_name n
    → n < fuel
    → match_name fuel m name entry_name
      ≡ ok (
          if agrees m name entry_name n && is_end (m (name + n))
          then some (if is_separator (m (name + n)) then name + n + 1 else name + n)
          else none)
unfolding match_name match_from
match_name_lem zero m name entry_name n is h = absurd (omega arith)
match_name_lem (suc fuel) m name entry_name zero is h =
    let e : name + 0 ≡ name = omega arith in
    let stop : ((m name == m entry_name) && (not (m name == 0) && not (m entry_name == 0)))
        ≡ false =
      ground arith in
    rw (stop, ◌>>=◌, is, e) (ap ok (matched_end (m name) name))
match_name_lem (suc fuel) m name entry_name (suc n) is h =
    let real : (m entry_name == 0) ≡ false = ==_false (m entry_name) 0 is.0 in
    elim (Bool-cases (m name == m entry_name)) [
      | inl e ↦
          let go : (m name == 0) ≡ false = ground arith in
          let at : name + suc n ≡ name + 1 + n = omega arith in
          rw (e, go, real, at)
            (match_name_lem fuel m (name + 1) (entry_name + 1) n is.1 (omega arith))
      | inr e ↦ rw (e, ◌>>=◌, real) refl
    ]
