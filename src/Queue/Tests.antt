-- ===== src/Queue/Tests.antt =====
-- The queue with a task of two commands, the first of which is written, and one behind it.
use chan_svistok.Base.{◌≡◌, refl, [], ◌∷◌, none, some, arith}
use chan_svistok.Queue.{Cmd, Task, Pvt, failed, unexpected, at_queue_remove_cmd, at_queue_run}
use chan_svistok.Queue.Inv.{IsCounted}
use chan_svistok.Queue.Memory.{balance, owned, at_queue_remove_cmd-balance, at_queue_run-balance}
use chan_svistok.Queue.Policy.{answer_all, answer_all-finishes}

-- Written: its data is freed.
abbrev sent : Cmd
sent = record { cmd = 1; res = 0; flags = 0; timeout = 2000000; text = none; len = 0 }

abbrev waiting : Cmd
waiting = record { cmd = 2; res = 5; flags = 0; timeout = 2000000; text = some 77; len = 4 }

abbrev head : Task
head = record { address = 100; cmdsno = 2; cindex = 0; cpvt = 9; cmds = sent ∷ waiting ∷ [] }

abbrev behind : Task
behind = record { address = 200; cmdsno = 1; cindex = 0; cpvt = 9; cmds = waiting ∷ [] }

abbrev queued : Pvt
queued = record {
  at_queue = head ∷ behind ∷ [];
  at_tasks = 2;
  at_cmds = 3;
  stat_at_tasks = 2;
  stat_at_cmds = 3;
  d_write_bytes = 0;
  freed = [];
}

-- Only the task behind, whose command is still to be written.
abbrev ready : Pvt
ready = record queued { at_queue = behind ∷ []; at_tasks = 1; at_cmds = 1 }

queued-IsCounted : IsCounted queued
queued-IsCounted = omega arith

ready-IsCounted : IsCounted ready
ready-IsCounted = omega arith

at_queue_remove_cmd-balance_example : balance 77 (at_queue_remove_cmd queued 3) ≡ 2
unfolding owned
at_queue_remove_cmd-balance_example = at_queue_remove_cmd-balance 77 3 queued-IsCounted

at_queue_run-balance_example : balance 200 (at_queue_run ready (failed ∷ []) 50).1 ≡ 1
unfolding owned
at_queue_run-balance_example = at_queue_run-balance 200 (failed ∷ []) 50 ready-IsCounted

answer_all-finishes_example : (answer_all (0 ∷ 5 ∷ []) queued).at_queue ≡ behind ∷ []
unfolding unexpected
answer_all-finishes_example =
    answer_all-finishes (0 ∷ 5 ∷ []) queued head (behind ∷ []) refl (omega arith) (omega arith)
      (omega arith, refl, (omega arith, refl, refl))
