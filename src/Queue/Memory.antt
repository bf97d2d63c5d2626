-- ===== src/Queue/Memory.antt =====
-- The allocations of the queued tasks and their commands: each is freed once, and none is lost.
use chan_svistok.Base.{
  ℕ, zero, suc, ◌+◌, ◌≡◌, refl, ap, ◌∙◌, inl, inr, List, [], ◌∷◌, length, take, get_elem?, ltb, leb,
  ◌==◌, if◌then◌else◌, Bool-cases, Option-cases, arith, add_uint, ◌||◌, none, some,
}
use chan_svistok.Queue.{
  Cmd, Task, Pvt, Outcome, is_static, at_queue_free_data, free_all, at_queue_free, remove_from,
  at_queue_remove, at_write, unexpected, remove_cmd_from, at_queue_remove_cmd, at_queue_head_cmd,
  mark_nth, mark_written, run_cmd, at_queue_run, at_queue_flush, flush_loop,
}
use chan_svistok.Queue.Inv.{
  IsCounted, AllLive, at_queue_remove-IsCounted, at_write-IsCounted, flush_loop-empty,
}

-- How often the allocation `a` was freed.
abbrev pub count : ℕ → List ℕ → ℕ
count a [] = 0
count a (p ∷ ps) = (if p == a then 1 else 0) + count a ps

-- How often commands own the allocation `a`; static data is not owned.
unfoldable pub owned : ℕ → Cmd → ℕ
unfolding is_static
owned a c = elim c.text [
  | none ↦ 0
  | some p ↦ if is_static c.flags then 0 else (if p == a then 1 else 0)
]

abbrev pub owned_cmds : ℕ → List Cmd → ℕ
owned_cmds a [] = 0
owned_cmds a (c ∷ cs) = owned a c + owned_cmds a cs

-- Of a task, the memory that it lies in, and what its commands own.
abbrev pub owned_tasks : ℕ → List Task → ℕ
owned_tasks a [] = 0
owned_tasks a (t ∷ ts) =
    (if t.address == a then 1 else 0) + (owned_cmds a t.cmds + owned_tasks a ts)

-- Owned or freed.
abbrev pub balance : ℕ → Pvt → ℕ
balance a pvt = owned_tasks a pvt.at_queue + count a pvt.freed

free_data-owned :
    (a : ℕ) (c : Cmd) (freed : List ℕ)
    → let (c', freed') = at_queue_free_data c freed in
      (owned a c' ≡ 0) × (count a freed' ≡ owned a c + count a freed)
unfolding at_queue_free_data owned
free_data-owned a c freed = (ground arith, ground arith)

pub count-free_all :
    (a : ℕ) (cs : List Cmd) (freed : List ℕ)
    → count a (free_all cs freed) ≡ owned_cmds a cs + count a freed
unfolding free_all
count-free_all a [] freed = omega arith
count-free_all a (c ∷ cs) freed =
    omega (arith, count-free_all a cs (at_queue_free_data c freed).1, (free_data-owned a c freed).1)

pub take-all : (n : ℕ) (cs : List Cmd) → length cs ≡ n → take n cs ≡ cs
take-all zero [] h = refl
take-all zero (c ∷ cs) h = absurd (omega arith)
take-all (suc n) [] h = refl
take-all (suc n) (c ∷ cs) h = ap (◌∷◌ c) (take-all n cs (omega arith))

count-free :
    (a : ℕ) (t : Task) (freed : List ℕ)
    → length t.cmds ≡ t.cmdsno
    → count a (at_queue_free t freed)
      ≡ (if t.address == a then 1 else 0) + (owned_cmds a t.cmds + count a freed)
unfolding at_queue_free
count-free a t freed h =
    ap (λ n. (if t.address == a then 1 else 0) + n)
      (rw (take-all t.cmdsno t.cmds h) (count-free_all a t.cmds freed))

remove_from-balance :
    (a : ℕ) (pvt : Pvt) (ts : List Task)
    → pvt.at_queue ≡ ts
    → AllLive ts
    → balance a (remove_from pvt ts) ≡ balance a pvt
unfolding remove_from
remove_from-balance a pvt [] e l = refl
remove_from-balance a pvt (t ∷ ts) e l =
    omega (arith, count-free a t pvt.freed l.0.1, ap (owned_tasks a) e)

remove_cmd_from-balance :
    (a : ℕ) (pvt : Pvt) (ts : List Task) (res : ℕ)
    → pvt.at_queue ≡ ts
    → AllLive ts
    → balance a (remove_cmd_from pvt ts res) ≡ balance a pvt
unfolding remove_cmd_from remove_from
remove_cmd_from-balance a pvt [] res e l = refl
remove_cmd_from-balance a pvt (t ∷ ts) res e l =
    elim (Bool-cases
      (leb t.cmdsno (add_uint t.cindex 1) || unexpected (get_elem? t.cmds t.cindex) res)) [
        | inl d ↦ rw d (
            omega (
              arith,
              count-free a (record t { cindex = add_uint t.cindex 1 }) pvt.freed l.0.1,
              ap (owned_tasks a) e,
            ))
        | inr d ↦ rw d (omega (arith, ap (owned_tasks a) e))
      ]

-- While the counters of the queue are right, answering a command loses no allocation and frees
-- none twice, also where it takes the task off: each, of the tasks and of the data of their commands, is owned
-- and freed as often as before, taken together.
pub at_queue_remove_cmd-balance :
    (a : ℕ) {pvt : Pvt} (res : ℕ)
    → IsCounted pvt
    → balance a (at_queue_remove_cmd pvt res) ≡ balance a pvt
unfolding at_queue_remove_cmd
at_queue_remove_cmd-balance a {pvt} res v =
    remove_cmd_from-balance a pvt pvt.at_queue res refl v.live

owned-timeout : (a : ℕ) (c : Cmd) (time : ℕ) → owned a (record c { timeout = time }) ≡ owned a c
unfolding owned
owned-timeout a c time = refl

mark_nth-balance :
    (a : ℕ) (cs : List Cmd) (i now : ℕ) (freed : List ℕ)
    → let (cs', freed') = mark_nth cs i now freed in
      owned_cmds a cs' + count a freed' ≡ owned_cmds a cs + count a freed
unfolding mark_nth
mark_nth-balance a [] i now freed = refl
mark_nth-balance a (c ∷ cs) zero now freed =
    let (z, f) = free_data-owned a (record c { timeout = now + c.timeout }) freed in
    omega (arith, z, f, owned-timeout a c (now + c.timeout))
mark_nth-balance a (c ∷ cs) (suc i) now freed = omega (arith, mark_nth-balance a cs i now freed)

mark_written-balance :
    (a : ℕ) (pvt : Pvt) (ts : List Task) (now : ℕ)
    → pvt.at_queue ≡ ts
    → balance a (mark_written pvt ts now) ≡ balance a pvt
unfolding mark_written
mark_written-balance a pvt [] now e = refl
mark_written-balance a pvt (t ∷ ts) now e =
    omega (arith, mark_nth-balance a t.cmds t.cindex now pvt.freed, ap (owned_tasks a) e)

run_cmd-balance :
    (a : ℕ) {pvt : Pvt} (os : List Outcome) (now : ℕ) (c : Cmd)
    → IsCounted pvt
    → balance a (run_cmd pvt os now c).1 ≡ balance a pvt
unfolding run_cmd at_write
run_cmd-balance a {pvt} os now c v = elim (Bool-cases (ltb 0 c.len)) [
  | inr e ↦ rw e
  | inl e ↦ elim (Bool-cases (at_write pvt os c.len).0) [
    | inl f ↦ rw (e, f) (at_queue_remove_cmd-balance a (c.res + 1) (at_write-IsCounted os c.len v))
    | inr f ↦ rw (e, f) (mark_written-balance a (at_write pvt os c.len).1 pvt.at_queue now refl)
  ]
]

-- While the counters of the queue are right, writing a command to the device loses no allocation, of a task or
-- of the data of a command, and frees none twice: each is owned and freed as often as before, taken together,
-- on success, where the data is freed, and on failure, where the task may be.
pub at_queue_run-balance :
    (a : ℕ) {pvt : Pvt} (os : List Outcome) (now : ℕ)
    → IsCounted pvt
    → balance a (at_queue_run pvt os now).1 ≡ balance a pvt
unfolding at_queue_run
at_queue_run-balance a {pvt} os now v = elim (Option-cases (at_queue_head_cmd pvt)) [
  | inl e ↦ rw (e, at_queue_run)
  | inr (c, e) ↦ rw (e, at_queue_run) (run_cmd-balance a os now c v)
]

flush_loop-balance :
    (a : ℕ) (ts : List Task) (pvt : Pvt)
    → IsCounted pvt
    → balance a (flush_loop ts pvt) ≡ balance a pvt
unfolding flush_loop
flush_loop-balance a [] pvt v = refl
flush_loop-balance a (t ∷ ts) pvt v =
    flush_loop-balance a ts (at_queue_remove pvt) (at_queue_remove-IsCounted v)
    ∙ remove_from-balance a pvt pvt.at_queue refl v.live

-- While the counters of the queue are right, `at_queue_flush` frees what the queue owns: each
-- allocation is freed after it as often as it was owned or freed before.
pub count-at_queue_flush :
    (a : ℕ) {pvt : Pvt} → IsCounted pvt → count a (at_queue_flush pvt).freed ≡ balance a pvt
unfolding at_queue_flush
count-at_queue_flush a {pvt} v = omega (
  arith,
  flush_loop-balance a pvt.at_queue pvt v,
  ap (owned_tasks a) (flush_loop-empty pvt.at_queue pvt refl v).1,
)
