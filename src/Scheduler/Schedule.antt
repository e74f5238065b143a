-- ===== src/Scheduler/Schedule.antt =====
-- src/kernel/task.c: after every switch exactly one task is running.
use yuios.Common.{
  ℕ, zero, suc, ◌<◌, ◌≡◌, refl, sym, ap, ◌∙◌, ◌≢◌, inl, inr, Option, none, some, List, [], ◌∷◌,
  arith, ◌==◌, if◌then◌else◌, Bool-cases, length, ◌>>◌, ◌>>=◌, get_or-set_self, get_or-set_ne, ok,
}
use yuios.Scheduler.{
  ready, running, Task, Kernel, search, schedule, switch_to, leave, yui_magic, task_at, write,
}
use yuios.Scheduler.Search.{Found, hit, idle_only, miss, search-Found}

-- The running and the idle task have a control block, no task but the running one is in the state
-- `running`, and the magic number of every control block is intact.
pub record IsValid (k : Kernel) : Type 0 where
  pub cur : (t : Task) × (task_at k.table k.current ≡ some t)
  pub idle : (t : Task) × (task_at k.table k.idle ≡ some t)
  pub only : (i : ℕ) (t : Task) → task_at k.table i ≡ some t → t.state ≡ running → i ≡ k.current
  pub intact : (i : ℕ) (t : Task) → task_at k.table i ≡ some t → t.magic ≡ yui_magic

in_table :
    (table : List (Option Task)) (i : ℕ) (t : Task) → task_at table i ≡ some t → i < length table
in_table [] i t h = cc
in_table (x ∷ xs) zero t h = omega arith
in_table (x ∷ xs) (suc i) t h = omega (arith, in_table xs i t h)

pub write-at :
    (table : List (Option Task)) (i j : ℕ) (t : Task)
    → i < length table
    → task_at (write table i t) j ≡ (if i == j then some t else task_at table j)
write-at table i j t h = elim (Bool-cases (i == j)) [
  | inl e ↦ let e' : i ≡ j = ground arith in rw (e, ← e') (get_or-set_self table i (some t) none h)
  | inr e ↦ rw e (get_or-set_ne table i j (some t) none (ground arith))
]

leave_magic : (t : Task) → (leave t).magic ≡ t.magic
unfolding leave
leave_magic t = refl

leave_not_running : (t : Task) → (leave t).state ≢ running
unfolding leave
leave_not_running t h = ground (arith, h)

-- The switch to slot `next`.
pub record Switched (k : Kernel) (next : ℕ) (k' : Kernel) : Type 0 where
  pub valid : IsValid k'
  pub current : k'.current ≡ next
  pub runs : (t : Task) × (task_at k'.table next ≡ some t) × (t.state ≡ running)
  pub others : (j : ℕ) → j ≢ next → j ≢ k.current → task_at k'.table j ≡ task_at k.table j

-- The slot that is chosen still holds a task after the running one is left.
after_leave :
    (k : Kernel) (next : ℕ) (t c : Task)
    → task_at k.table k.current ≡ some c
    → task_at k.table next ≡ some t
    → (u : Task) × (task_at (write k.table k.current (leave c)) next ≡ some u)
after_leave k next t c at held =
    let e = write-at k.table k.current next (leave c) (in_table k.table k.current c at) in
    elim (Bool-cases (k.current == next)) [
      | inl same ↦ (leave c, e ∙ ap (λ b. if b then some (leave c) else task_at k.table next) same)
      | inr other ↦
          (t, e ∙ ap (λ b. if b then some (leave c) else task_at k.table next) other ∙ held)
    ]

-- No task but the chosen one runs once the running one is left.
none_runs :
    (k : Kernel) (c : Task)
    → IsValid k
    → k.current < length k.table
    → (j : ℕ) (t : Task) → task_at (write k.table k.current (leave c)) j ≡ some t
    → t.state ≢ running
none_runs k c valid room j t held runs =
    let e = write-at k.table k.current j (leave c) room in
    elim (Bool-cases (k.current == j)) [
      | inl same ↦
          let f : some (leave c) ≡ some t =
            sym (e ∙ ap (λ b. if b then some (leave c) else task_at k.table j) same) ∙ held in
          let g : leave c ≡ t = cc in leave_not_running c (ap (λ (x : Task). x.state) g ∙ runs)
      | inr other ↦
          let f : task_at k.table j ≡ some t =
            sym (e ∙ ap (λ b. if b then some (leave c) else task_at k.table j) other) ∙ held in
          ground (arith, valid.only j t f runs)
    ]

-- A write to a slot that holds a task leaves a task wherever there was one.
held_after :
    (table : List (Option Task)) (i j : ℕ) (t u : Task)
    → i < length table
    → task_at table j ≡ some u
    → (v : Task) × (task_at (write table i t) j ≡ some v)
held_after table i j t u room held =
    let e = write-at table i j t room in
    elim (Bool-cases (i == j)) [
      | inl same ↦ (t, e ∙ ap (λ b. if b then some t else task_at table j) same)
      | inr other ↦ (u, e ∙ ap (λ b. if b then some t else task_at table j) other ∙ held)
    ]

only_next :
    (table : List (Option Task)) (next : ℕ) (u : Task)
    → next < length table
    → ((j : ℕ) (t : Task) → task_at table j ≡ some t → t.state ≢ running)
    → (j : ℕ) (t : Task) → task_at (write table next u) j ≡ some t
    → t.state ≡ running
    → j ≡ next
only_next table next u room quiet j t held runs =
    let e = write-at table next j u room in
    elim (Bool-cases (next == j)) [
      | inl same ↦ ground arith
      | inr other ↦
          absurd (
            quiet j t (sym (e ∙ ap (λ b. if b then some u else task_at table j) other) ∙ held) runs)
    ]

other_slot :
    (table : List (Option Task)) (i j : ℕ) (t : Task)
    → i < length table
    → j ≢ i
    → task_at (write table i t) j ≡ task_at table j
other_slot table i j t room apart = get_or-set_ne table i j (some t) none (λ e. apart (sym e))

-- A write of an intact task leaves all of them intact.
intact_write :
    (table : List (Option Task)) (i : ℕ) (u : Task)
    → i < length table
    → u.magic ≡ yui_magic
    → ((j : ℕ) (t : Task) → task_at table j ≡ some t → t.magic ≡ yui_magic)
    → (j : ℕ) (t : Task) → task_at (write table i u) j ≡ some t
    → t.magic ≡ yui_magic
intact_write table i u room is all j t held =
    let e = write-at table i j u room in
    elim (Bool-cases (i == j)) [
      | inl same ↦
          let f : some u ≡ some t =
            sym (e ∙ ap (λ b. if b then some u else task_at table j) same) ∙ held in
          let g : u ≡ t = cc in ap (λ (x : Task). x.magic) (sym g) ∙ is
      | inr other ↦ all j t (sym (e ∙ ap (λ b. if b then some u else task_at table j) other) ∙ held)
    ]

-- A switch to a slot that holds a task succeeds.
schedule_to :
    (k : Kernel) (next : ℕ) (t : Task)
    → IsValid k
    → search k ready ≡ some next
    → task_at k.table next ≡ some t
    → (k' : Kernel) × (schedule k ≡ ok k') × Switched k next k'
unfolding schedule switch_to
schedule_to k next t valid found held =
    let (c, at) = valid.cur in
    let room = in_table k.table k.current c at in
    let table₁ = write k.table k.current (leave c) in
    let (u, there) : (u : Task) × (task_at table₁ next ≡ some u) = after_leave k next t c at held in
    let v : Task = record u { state = running } in
    let table₂ = write table₁ next v in
    let k' : Kernel = record k { table = table₂; current = next } in
    let room₁ : next < length table₁ = in_table table₁ next u there in
    let switched : switch_to k next ≡ ok k' = rw (switch_to, at, there) refl in
    let done : schedule k ≡ ok k' =
      rw (schedule, found, held, ◌>>◌, ◌>>=◌, valid.intact next t held) switched in
    let here : task_at table₂ next ≡ some v = get_or-set_self table₁ next (some v) none room₁ in
    let intact_u =
      intact_write k.table k.current (leave c) room (leave_magic c ∙ valid.intact k.current c at)
        valid.intact in
    let (w, idle) = valid.idle in
    let (w₁, idle₁) = held_after k.table k.current k.idle (leave c) w room idle in
    let good : IsValid k' = record {
      cur = (v, here);
      idle = held_after table₁ next k.idle v w₁ room₁ idle₁;
      only = only_next table₁ next v room₁ (none_runs k c valid room);
      intact = intact_write table₁ next v room₁ (intact_u next u there) intact_u;
    } in
    (
      k',
      done,
      record {
        valid = good;
        current = refl;
        runs = (v, here, refl);
        others = λ j a b.
            other_slot table₁ next j v room₁ a ∙ other_slot k.table k.current j (leave c) room b;
      },
    )

-- `schedule` from a state in which the running and the idle task have control blocks, no other task than the
-- running one is in the state `running`, and every magic number is intact: it meets no assertion, and the task it switches to is
-- a ready one, or the idle task when no other task is ready; that task, and no other, is then in the
-- state `running`, and the slots but for the two tasks of the switch are as before, and the magic numbers are intact.
pub schedule_lem :
    (k : Kernel)
    → IsValid k
    → (next : ℕ) × (k' : Kernel) × ((schedule k ≡ ok k')
        × Found k ready (some next)
        × Switched k next k')
schedule_lem k valid = from (search k ready) refl (search-Found k ready)
  where
    from :
        (r : Option ℕ)
        → search k ready ≡ r
        → Found k ready r
        → (next : ℕ) × (k' : Kernel) × ((schedule k ≡ ok k')
            × Found k ready (some next)
            × Switched k next k')
    from _ e (hit i t fit) =
        let (k', done, sw) = schedule_to k i t valid e fit.held in (i, k', (done, hit i t fit, sw))
    from _ e (idle_only none_fits w) =
        let (u, held) = valid.idle in
        let (k', done, sw) = schedule_to k k.idle u valid e held in
        (k.idle, k', (done, idle_only none_fits w, sw))
    from _ e (miss none_fits w) = absurd (w refl)
