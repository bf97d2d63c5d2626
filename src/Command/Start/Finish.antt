-- ===== src/Command/Start/Finish.antt =====
-- A device that answers is set up.
use chan_svistok.Base.{
  ap, ◌∙◌, ◌<◌, ◌++◌, take, drop, ℕ, ◌≡◌, refl, List, [], ◌∷◌, some, arith, add_size, sub_size,
}
use chan_svistok.Queue.{
  Task, Pvt, Outcome, wrote, again, failed, is_static, at_queue_add, at_queue_run, run_cmd,
  at_queue_head_cmd, at_queue_head_task, mark_written, mark_nth, at_queue_insert,
  at_queue_insert_task, insert_task, at_queue_free_data, at_write, write_all, write_loop,
  unexpected, is_ignore,
}
use chan_svistok.Queue.Policy.{
  Fit, answer_all, answer_all-finishes, answer_all-goes_on, numbers, awaited,
}
use chan_svistok.Response.{res_ok}
use chan_svistok.Command.{Env}
use chan_svistok.Command.Start.{modem_cmds, at_enque_initialization, at_enque_initialization_modem}

abbrev pub eight_ok : List ℕ
eight_ok = res_ok ∷ res_ok ∷ res_ok ∷ res_ok ∷ res_ok ∷ res_ok ∷ res_ok ∷ res_ok ∷ []

-- All is written.
write_loop_done : (os : List Outcome) (errs total : ℕ) → write_loop os errs 0 total ≡ total
unfolding write_loop
write_loop_done [] errs total = refl
write_loop_done (wrote n ∷ os) errs total = refl
write_loop_done (again ∷ os) errs total = refl
write_loop_done (failed ∷ os) errs total = refl

started :
    (env : Env) (pvt : Pvt) (cpvt room : ℕ) (os : List Outcome)
    → env.room ≡ some room
    → env.device ≡ wrote 2 ∷ os
    → pvt.at_queue ≡ []
    → (t : Task) × ((at_enque_initialization env pvt cpvt).at_queue ≡ t ∷ [])
      × (t.cindex ≡ 0)
      × (t.cmdsno ≡ 8)
      × Fit eight_ok t
      × (numbers t.cmds ≡ numbers (modem_cmds env))
unfolding at_enque_initialization at_enque_initialization_modem at_queue_insert at_queue_insert_task
    at_queue_add at_queue_run run_cmd at_queue_head_cmd at_queue_head_task mark_written mark_nth
    insert_task at_queue_free_data at_write write_all unexpected is_ignore is_static add_size
    sub_size
started env pvt cpvt room os r d q =
    rw (r, d, q)
      (rw
        (
          at_enque_initialization,
          at_enque_initialization_modem,
          at_queue_insert,
          at_queue_insert_task,
          at_queue_run,
          run_cmd,
          at_write,
          write_all,
          write_loop,
          write_loop_done os 10 3,
        )
        (
          _,
          refl,
          refl,
          refl,
          (
            omega arith,
            refl,
            (
              omega arith,
              refl,
              (
                omega arith,
                refl,
                (
                  omega arith,
                  refl,
                  (
                    omega arith,
                    refl,
                    (omega arith, refl, (omega arith, refl, (omega arith, refl, refl))),
                  ),
                ),
              ),
            ),
          ),
          refl,
        ))

append_nil : (ns : List ℕ) → ns ++ [] ≡ ns
append_nil [] = refl
append_nil (n ∷ ns) = ap (◌∷◌ n) (append_nil ns)

-- On a device with an empty queue, where the task can be allocated and the first command, of three bytes, is
-- written at once, `at_enque_initialization` puts the eight commands of the list into the queue, and OK as the
-- response takes them off one at a time: after `n` times OK, fewer than eight, the commands still waited for
-- are those of the list but the first `n`, in its order, and after eight times the queue is empty.
pub at_enque_initialization-finishes :
    (env : Env) (pvt : Pvt) (cpvt room : ℕ) (os : List Outcome) (n : ℕ)
    → env.room ≡ some room
    → env.device ≡ wrote 2 ∷ os
    → pvt.at_queue ≡ []
    → n < 8
    → (awaited (answer_all (take n eight_ok) (at_enque_initialization env pvt cpvt)).at_queue
        ≡ drop n (numbers (modem_cmds env)))
      × ((answer_all eight_ok (at_enque_initialization env pvt cpvt)).at_queue ≡ [])
at_enque_initialization-finishes env pvt cpvt room os n r d q l =
    let (t, queue, index, number, fit, same) = started env pvt cpvt room os r d q in
    let start = at_enque_initialization env pvt cpvt in
    (
      ap awaited (
            answer_all-goes_on n eight_ok start t [] queue (omega arith) (omega (arith, number))
              fit)
          ∙ append_nil _
          ∙ ap (λ i. drop i (numbers t.cmds)) (omega (arith, index))
          ∙ ap (λ cs. drop n cs) same,
      answer_all-finishes eight_ok start t [] queue (omega (arith, index, number))
          (omega (arith, number)) fit,
    )
