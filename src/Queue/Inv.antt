-- ===== src/Queue/Inv.antt =====
-- The counters of the queue against the queue, under every operation.
use chan_svistok.Base.{
  ℕ, zero, suc, ◌+◌, ◌-◌, ◌^◌, ◌≤◌, ◌<◌, ◌≡◌, refl, ap, ◌∙◌, inl, inr, List, [], ◌∷◌, ◌++◌, length,
  length-append, take, get_elem?, ltb, leb, ltb→lt, Bool-cases, Option-cases, arith, add_uint,
  sub_uint, Bool, true, false, ◌||◌, Option, none, some,
}
use chan_svistok.Queue.{
  Cmd, Task, Pvt, Outcome, remove_from, at_queue_remove, insert_task, at_queue_add, at_write,
  unexpected, remove_cmd_from, at_queue_remove_cmd, at_queue_head_cmd, mark_nth, mark_written,
  run_cmd, at_queue_run, at_queue_flush, flush_loop,
}

-- A queued task has all its commands, and at least one that has not been answered.
abbrev pub IsLive : Task → Type 0
IsLive t = (t.cindex < t.cmdsno) × (length t.cmds ≡ t.cmdsno) × (t.cmdsno < 2 ^ 32)

abbrev pub AllLive : List Task → Type 0
AllLive [] = Unit {0}
AllLive (t ∷ ts) = IsLive t × AllLive ts

-- The commands that are still to be answered.
abbrev pub pending : List Task → ℕ
pending [] = 0
pending (t ∷ ts) = (t.cmdsno - t.cindex) + pending ts

-- `at_tasks` counts the tasks and `at_cmds` the commands that are still to be answered.
pub record IsCounted (pvt : Pvt) : Type 0 where
  pub live : AllLive pvt.at_queue
  pub tasks : pvt.at_tasks ≡ length pvt.at_queue
  pub cmds : pvt.at_cmds ≡ pending pvt.at_queue
  pub tasks_small : length pvt.at_queue < 2 ^ 32
  pub cmds_small : pending pvt.at_queue < 2 ^ 32

remove_from-IsCounted :
    (pvt : Pvt) (ts : List Task)
    → pvt.at_queue ≡ ts
    → IsCounted pvt
    → IsCounted (remove_from pvt ts)
unfolding remove_from sub_uint
remove_from-IsCounted pvt [] e v = v
remove_from-IsCounted pvt (t ∷ ts) e v = ground arith

-- `at_queue_remove` keeps the counters right.
pub at_queue_remove-IsCounted : {pvt : Pvt} → IsCounted pvt → IsCounted (at_queue_remove pvt)
unfolding at_queue_remove
at_queue_remove-IsCounted {pvt} v = remove_from-IsCounted pvt pvt.at_queue refl v

remove_cmd_from-IsCounted :
    (pvt : Pvt) (ts : List Task) (res : ℕ)
    → pvt.at_queue ≡ ts
    → IsCounted pvt
    → IsCounted (remove_cmd_from pvt ts res)
unfolding remove_cmd_from remove_from sub_uint add_uint
remove_cmd_from-IsCounted pvt [] res e v = v
remove_cmd_from-IsCounted pvt (t ∷ ts) res e v =
    elim (Bool-cases
      (leb t.cmdsno (add_uint t.cindex 1) || unexpected (get_elem? t.cmds t.cindex) res)) [
        | inl d ↦ rw d (ground arith)
        | inr d ↦ rw d (ground arith)
      ]

-- `at_queue_remove_cmd`, and so `at_queue_handle_result`, keeps the counters right, whether the task
-- goes on, is finished, or is dropped.
pub at_queue_remove_cmd-IsCounted :
    {pvt : Pvt} (res : ℕ) → IsCounted pvt → IsCounted (at_queue_remove_cmd pvt res)
unfolding at_queue_remove_cmd
at_queue_remove_cmd-IsCounted {pvt} res v = remove_cmd_from-IsCounted pvt pvt.at_queue res refl v

length-take : (n : ℕ) (cs : List Cmd) → n ≤ length cs → length (take n cs) ≡ n
length-take zero cs h = refl
length-take (suc n) [] h = absurd (omega arith)
length-take (suc n) (c ∷ cs) h = ap suc (length-take n cs (omega arith))

AllLive-append : (ts : List Task) (e : Task) → AllLive ts → IsLive e → AllLive (ts ++ (e ∷ []))
AllLive-append [] e a l = (l, tt)
AllLive-append (t ∷ ts) e a l = (a.0, AllLive-append ts e a.1 l)

pending-append :
    (ts : List Task) (e : Task) → pending (ts ++ (e ∷ [])) ≡ pending ts + (e.cmdsno - e.cindex)
pending-append [] e = omega arith
pending-append (t ∷ ts) e = omega (arith, pending-append ts e)

-- Inserting a live task, at either place.
insert_task-lem :
    (prio : Bool) (e : Task) (ts : List Task)
    → IsLive e
    → AllLive ts
    → AllLive (insert_task prio e ts)
      × (length (insert_task prio e ts) ≡ length ts + 1)
      × (pending (insert_task prio e ts) ≡ pending ts + (e.cmdsno - e.cindex))
unfolding insert_task
insert_task-lem prio e [] l a = ((l, tt), omega arith, omega arith)
insert_task-lem true e (t ∷ ts) l a = ((a.0, (l, a.1)), omega arith, omega arith)
insert_task-lem false e (t ∷ ts) l a = (
  AllLive-append (t ∷ ts) e a l,
  omega (arith, length-append (t ∷ ts) (e ∷ [])),
  pending-append (t ∷ ts) e,
)

-- `at_queue_add` keeps the counters right if they do not overflow and the array holds the number of
-- commands that is given.
pub at_queue_add-IsCounted :
    {pvt : Pvt} (cpvt : ℕ) (cmds : List Cmd) (cmdsno : ℕ) (prio : Bool) (room : Option ℕ)
    → cmdsno ≤ length cmds
    → length pvt.at_queue + 1 < 2 ^ 32
    → pending pvt.at_queue + cmdsno < 2 ^ 32
    → IsCounted pvt
    → IsCounted (at_queue_add pvt cpvt cmds cmdsno prio room).0
unfolding at_queue_add add_uint
at_queue_add-IsCounted cpvt cmds cmdsno prio none h l p v = v
at_queue_add-IsCounted {pvt} cpvt cmds cmdsno prio (some a) h l p v =
    elim (Bool-cases (ltb 0 cmdsno)) [
      | inr e ↦ rw e v
      | inl e ↦
          let (live, tasks, cmds_no) =
            insert_task-lem prio new pvt.at_queue
              (ltb→lt 0 cmdsno e, length-take cmdsno cmds h, omega arith) v.live in
          rw e (record {
            live = live;
            tasks = omega arith;
            cmds = omega arith;
            tasks_small = omega arith;
            cmds_small = omega arith;
          })
    ]
  where
    new : Task
    new = record { address = a; cmdsno = cmdsno; cindex = 0; cpvt = cpvt; cmds = take cmdsno cmds }

length-mark_nth :
    (cs : List Cmd) (i now : ℕ) (freed : List ℕ) → length (mark_nth cs i now freed).0 ≡ length cs
unfolding mark_nth
length-mark_nth [] i now freed = refl
length-mark_nth (c ∷ cs) zero now freed = refl
length-mark_nth (c ∷ cs) (suc i) now freed = ap suc (length-mark_nth cs i now freed)

mark_written-IsCounted :
    (pvt : Pvt) (ts : List Task) (now : ℕ)
    → pvt.at_queue ≡ ts
    → IsCounted pvt
    → IsCounted (mark_written pvt ts now)
unfolding mark_written
mark_written-IsCounted pvt [] now e v = v
mark_written-IsCounted pvt (t ∷ ts) now e v =
    ground (arith, length-mark_nth t.cmds t.cindex now pvt.freed)

pub at_write-IsCounted :
    {pvt : Pvt} (os : List Outcome) (n : ℕ) → IsCounted pvt → IsCounted (at_write pvt os n).1
unfolding at_write
at_write-IsCounted os n v = record {
  live = v.live;
  tasks = v.tasks;
  cmds = v.cmds;
  tasks_small = v.tasks_small;
  cmds_small = v.cmds_small;
}

run_cmd-IsCounted :
    {pvt : Pvt} (os : List Outcome) (now : ℕ) (c : Cmd)
    → IsCounted pvt
    → IsCounted (run_cmd pvt os now c).1
unfolding run_cmd
run_cmd-IsCounted {pvt} os now c v = elim (Bool-cases (ltb 0 c.len)) [
  | inr e ↦ rw e v
  | inl e ↦ elim (Bool-cases (at_write pvt os c.len).0) [
    | inl f ↦ rw (e, f) (at_queue_remove_cmd-IsCounted (c.res + 1) written)
    | inr f ↦ rw (e, f) (mark_written-IsCounted (at_write pvt os c.len).1 _ now refl written)
  ]
]
  where
    written : IsCounted (at_write pvt os c.len).1
    written = at_write-IsCounted os c.len v

-- `at_queue_run` keeps the counters right, whether the write succeeds or not.
pub at_queue_run-IsCounted :
    {pvt : Pvt} (os : List Outcome) (now : ℕ)
    → IsCounted pvt
    → IsCounted (at_queue_run pvt os now).1
unfolding at_queue_run
at_queue_run-IsCounted {pvt} os now v = elim (Option-cases (at_queue_head_cmd pvt)) [
  | inl e ↦ rw (e, at_queue_run) v
  | inr (c, e) ↦ rw (e, at_queue_run) (run_cmd-IsCounted os now c v)
]

pub flush_loop-empty :
    (ts : List Task) (pvt : Pvt)
    → pvt.at_queue ≡ ts
    → IsCounted pvt
    → IsCounted (flush_loop ts pvt) × ((flush_loop ts pvt).at_queue ≡ [])
unfolding flush_loop
flush_loop-empty [] pvt e v = (v, e)
flush_loop-empty (t ∷ ts) pvt e v =
    flush_loop-empty ts (at_queue_remove pvt) (removed pvt.at_queue e) (at_queue_remove-IsCounted v)
  where
    removed : (us : List Task) → us ≡ t ∷ ts → (remove_from pvt us).at_queue ≡ ts
    removed us f = rw (f, remove_from)

-- While the counters of the queue are right, `at_queue_flush` leaves the queue empty and both
-- counters at 0.
pub at_queue_flush-empty :
    {pvt : Pvt}
    → IsCounted pvt
    → let pvt' = at_queue_flush pvt in
      (pvt'.at_queue ≡ []) × (pvt'.at_tasks ≡ 0) × (pvt'.at_cmds ≡ 0)
unfolding at_queue_flush
at_queue_flush-empty {pvt} v =
    let (v', e) = flush_loop-empty pvt.at_queue pvt refl v in
    (e, v'.tasks ∙ ap length e, v'.cmds ∙ ap pending e)
