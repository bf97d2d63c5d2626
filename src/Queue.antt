-- ===== src/Queue.antt =====
-- at_queue.c and at_queue.h: the queue of tasks, each a list of AT commands, that are written to a
-- device one at a time. `pvt` is cut down to what this file reads and writes.
pub mod Inv
pub mod Memory
pub mod Policy
mod Tests
use chan_svistok.Base.{
  ℕ, zero, suc, ◌+◌, ◌-◌, ◌*◌, ◌/◌, ◌%◌, List, [], ◌∷◌, ◌++◌, Bool, true, false, not, ◌&&◌, ◌||◌,
  Option, none, some, ltb, leb, ◌==◌, if◌then◌else◌, length, take, get_elem?, add_uint, sub_uint,
  add_size, sub_size, ℤ, pos, negsuc,
}

-- `at_queue_cmd_t`. `text` is the allocation that `data` points to, none for NULL; the timeout is in
-- microseconds.
pub record Cmd : Type 0 where
  pub cmd : ℕ
  pub res : ℕ
  pub flags : ℕ
  pub timeout : ℕ
  pub text : Option ℕ
  pub len : ℕ

-- `at_queue_task_t`, with its address.
pub record Task : Type 0 where
  pub address : ℕ
  pub cmdsno : ℕ
  pub cindex : ℕ
  pub cpvt : ℕ
  pub cmds : List Cmd

-- The queue, its two counters, the statistics, and the allocations that `ast_free` was given.
pub record Pvt : Type 0 where
  pub at_queue : List Task
  pub at_tasks : ℕ
  pub at_cmds : ℕ
  pub stat_at_tasks : ℕ
  pub stat_at_cmds : ℕ
  pub d_write_bytes : ℕ
  pub freed : List ℕ

-- `flags & ATQ_CMD_FLAG_STATIC` and `flags & ATQ_CMD_FLAG_IGNORE`.
unfoldable pub is_static : ℕ → Bool
is_static flags = flags % 2 == 1

unfoldable pub is_ignore : ℕ → Bool
is_ignore flags = flags / 2 % 2 == 1

-- `at_queue_free_data`: the command and the list of what is freed.
unfoldable pub at_queue_free_data : Cmd → List ℕ → Cmd × List ℕ
at_queue_free_data c freed = elim c.text [
  | none ↦ (record c { len = 0 }, freed)
  | some p ↦
      if is_static c.flags
      then (record c { len = 0 }, freed)
      else (record c { text = none; len = 0 }, p ∷ freed)
]

unfoldable pub free_all : List Cmd → List ℕ → List ℕ
free_all [] freed = freed
free_all (c ∷ cs) freed = free_all cs (at_queue_free_data c freed).1

-- `at_queue_free`: the data of its commands, then the task itself.
unfoldable pub at_queue_free : Task → List ℕ → List ℕ
unfolding free_all
at_queue_free t freed = t.address ∷ free_all (take t.cmdsno t.cmds) freed

-- `at_queue_remove` on a queue that is taken apart.
unfoldable pub remove_from : Pvt → List Task → Pvt
remove_from pvt [] = pvt
remove_from pvt (t ∷ ts) = record pvt {
  at_queue = ts;
  at_tasks = sub_uint pvt.at_tasks 1;
  at_cmds = sub_uint pvt.at_cmds (sub_uint t.cmdsno t.cindex);
  freed = at_queue_free t pvt.freed;
}

unfoldable pub at_queue_remove : Pvt → Pvt
unfolding remove_from
at_queue_remove pvt = remove_from pvt pvt.at_queue

-- `AST_LIST_INSERT_AFTER` the head, or `AST_LIST_INSERT_TAIL`.
unfoldable pub insert_task : Bool → Task → List Task → List Task
insert_task prio e [] = e ∷ []
insert_task prio e (first ∷ rest) = if prio then first ∷ (e ∷ rest) else (first ∷ rest) ++ (e ∷ [])

-- `at_queue_add`. `room` is the address that `ast_malloc` returns, none if it fails.
unfoldable pub at_queue_add : Pvt → ℕ → List Cmd → ℕ → Bool → Option ℕ → Pvt × Option ℕ
unfolding insert_task
at_queue_add pvt cpvt cmds cmdsno prio none = (pvt, none)
at_queue_add pvt cpvt cmds cmdsno prio (some a) =
    if ltb 0 cmdsno
    then (
      record pvt {
        at_queue = insert_task prio e pvt.at_queue;
        at_tasks = add_uint pvt.at_tasks 1;
        at_cmds = add_uint pvt.at_cmds cmdsno;
        stat_at_tasks = add_uint pvt.stat_at_tasks 1;
        stat_at_cmds = add_uint pvt.stat_at_cmds cmdsno;
      },
      some a,
    )
    else (pvt, none)
  where
    e : Task
    e = record { address = a; cmdsno = cmdsno; cindex = 0; cpvt = cpvt; cmds = take cmdsno cmds }

-- What one `write` (2) of the device answers: `wrote n` is n + 1 bytes; an error is EINTR or EAGAIN, or
-- another.
pub data Outcome : Type 0 where
  wrote : ℕ → Outcome
  again : Outcome
  failed : Outcome

-- `write_all`, over the answers of the device; `errs` errors in a row are left. At the end of the
-- list the device has not answered.
unfoldable pub write_loop : List Outcome → ℕ → ℕ → ℕ → ℕ
write_loop [] errs count total = total
write_loop (wrote n ∷ os) errs count total =
    let rest = write_loop os 10 (sub_size count (suc n)) (add_size total (suc n)) in
    if count == 0 then total else rest
write_loop (again ∷ os) errs count total =
    let rest = write_loop os (sub_uint errs 1) count total in
    if count == 0 then total else (if sub_uint errs 1 == 0 then total else rest)
write_loop (failed ∷ os) errs count total = total

unfoldable pub write_all : List Outcome → ℕ → ℕ
unfolding write_loop
write_all os count = write_loop os 10 count 0

-- `at_write`, without its log: whether it failed, and the statistics.
unfoldable pub at_write : Pvt → List Outcome → ℕ → Bool × Pvt
at_write pvt os count =
    let n = write_all os count in
    (not (n == count), record pvt { d_write_bytes = add_uint pvt.d_write_bytes n })

-- The response is not the expected one, and the command does not ignore that.
unfoldable pub unexpected : Option Cmd → ℕ → Bool
unfolding is_ignore
unexpected none res = false
unexpected (some c) res = not (c.res == res) && not (is_ignore c.flags)

unfoldable pub remove_cmd_from : Pvt → List Task → ℕ → Pvt
unfolding remove_from
remove_cmd_from pvt [] res = pvt
remove_cmd_from pvt (t ∷ ts) res =
    if leb t.cmdsno (add_uint t.cindex 1) || unexpected (get_elem? t.cmds t.cindex) res
    then remove_from pvt' (t' ∷ ts)
    else pvt'
  where
    t' : Task
    t' = record t { cindex = add_uint t.cindex 1 }

    pvt' : Pvt
    pvt' = record pvt { at_queue = t' ∷ ts; at_cmds = sub_uint pvt.at_cmds 1 }

unfoldable pub at_queue_remove_cmd : Pvt → ℕ → Pvt
unfolding remove_cmd_from
at_queue_remove_cmd pvt res = remove_cmd_from pvt pvt.at_queue res

unfoldable pub at_queue_handle_result : Pvt → ℕ → Pvt
unfolding at_queue_remove_cmd
at_queue_handle_result pvt res = at_queue_remove_cmd pvt res

-- `at_queue_head_task` and `at_queue_head_cmd`.
unfoldable pub at_queue_head_task : Pvt → Option Task
at_queue_head_task pvt = elim pvt.at_queue [ [] ↦ none | t ∷ ts ↦ some t ]

unfoldable pub at_queue_head_cmd : Pvt → Option Cmd
at_queue_head_cmd pvt = elim pvt.at_queue [ [] ↦ none | t ∷ ts ↦ get_elem? t.cmds t.cindex ]

-- The command that was written gets its expiry time, and its data is freed.
unfoldable pub mark_nth : List Cmd → ℕ → ℕ → List ℕ → List Cmd × List ℕ
unfolding at_queue_free_data
mark_nth [] i now freed = ([], freed)
mark_nth (c ∷ cs) zero now freed =
    let (c', freed') = at_queue_free_data (record c { timeout = now + c.timeout }) freed in
    (c' ∷ cs, freed')
mark_nth (c ∷ cs) (suc i) now freed =
    let (cs', freed') = mark_nth cs i now freed in (c ∷ cs', freed')

unfoldable pub mark_written : Pvt → List Task → ℕ → Pvt
mark_written pvt [] now = pvt
mark_written pvt (t ∷ ts) now =
    let (cmds, freed) = mark_nth t.cmds t.cindex now pvt.freed in
    record pvt { at_queue = record t { cmds = cmds } ∷ ts; freed = freed }

-- `at_queue_run` at its first command.
unfoldable pub run_cmd : Pvt → List Outcome → ℕ → Cmd → Bool × Pvt
run_cmd pvt os now c =
    if ltb 0 c.len
    then (let (fail, pvt') = at_write pvt os c.len in
        if fail
        then (true, at_queue_remove_cmd pvt' (c.res + 1))
        else (false, mark_written pvt' pvt'.at_queue now))
    else (false, pvt)

-- `at_queue_run`: whether it failed, and the state.
unfoldable pub at_queue_run : Pvt → List Outcome → ℕ → Bool × Pvt
unfolding at_queue_head_cmd run_cmd
at_queue_run pvt os now = elim (at_queue_head_cmd pvt) [
  | none ↦ (false, pvt)
  | some c ↦ run_cmd pvt os now c
]

-- `at_queue_insert_const`: true on error.
unfoldable pub at_queue_insert_const :
    Pvt → ℕ → List Cmd → ℕ → Bool → Option ℕ → List Outcome → ℕ → Bool × Pvt
at_queue_insert_const pvt cpvt cmds cmdsno athead room os now =
    let (pvt', added) = at_queue_add pvt cpvt cmds cmdsno athead room in
    elim added [ none ↦ (true, pvt') | some a ↦ at_queue_run pvt' os now ]

-- `at_queue_insert_task`: the task is NULL on error.
unfoldable pub at_queue_insert_task :
    Pvt → ℕ → List Cmd → ℕ → Bool → Option ℕ → List Outcome → ℕ → Option ℕ × Pvt
at_queue_insert_task pvt cpvt cmds cmdsno athead room os now =
    let (pvt', added) = at_queue_add pvt cpvt cmds cmdsno athead room in
    let pvt'' = elim added as (λ _. Pvt) [
      | none ↦ record pvt' { freed = free_all (take cmdsno cmds) pvt'.freed }
      | some a ↦ pvt'
    ] in
    let (fail, pvt₃) = at_queue_run pvt'' os now in (if fail then none else added, pvt₃)

-- `at_queue_insert`: true on error.
unfoldable pub at_queue_insert :
    Pvt → ℕ → List Cmd → ℕ → Bool → Option ℕ → List Outcome → ℕ → Bool × Pvt
at_queue_insert pvt cpvt cmds cmdsno athead room os now =
    let (task, pvt') = at_queue_insert_task pvt cpvt cmds cmdsno athead room os now in
    (elim task [ none ↦ true | some a ↦ false ], pvt')

-- `at_queue_timeout`, given `ast_tvdiff_ms` of Asterisk and the time: -1 with nothing to wait for.
unfoldable pub at_queue_timeout : (ℕ → ℕ → ℤ) → Pvt → ℕ → ℤ
unfolding at_queue_head_cmd
at_queue_timeout tvdiff_ms pvt now = elim (at_queue_head_cmd pvt) [
  | none ↦ negsuc 0
  | some c ↦ if c.len == 0 then tvdiff_ms c.timeout now else negsuc 0
]

-- `at_queue_flush`, over the tasks that are left.
unfoldable pub flush_loop : List Task → Pvt → Pvt
unfolding at_queue_remove
flush_loop [] pvt = pvt
flush_loop (t ∷ ts) pvt = flush_loop ts (at_queue_remove pvt)

unfoldable pub at_queue_flush : Pvt → Pvt
unfolding flush_loop
at_queue_flush pvt = flush_loop pvt.at_queue pvt
