-- ===== src/Command/Memory.antt =====
-- Every allocation that a task or a command is made of ends in the queue, or is freed.
use chan_svistok.Base.{
  ℕ, ◌+◌, ◌≤◌, ◌<◌, ◌^◌, ◌≡◌, refl, ap, ◌∙◌, List, [], ◌∷◌, ◌++◌, Bool, true, false, Bool-cases,
  Option, none, some, ◌==◌, if◌then◌else◌, lt→ltb, subst, add_uint, length, take, arith, inl, inr,
  ◌&&◌, ◌%◌,
}
use chan_svistok.Queue.{
  Cmd, Task, Pvt, Outcome, free_all, insert_task, at_queue_add, at_queue_run, at_queue_insert_task,
  at_queue_insert,
}
use chan_svistok.Queue.Inv.{IsCounted, pending, at_queue_add-IsCounted}
use chan_svistok.Queue.Memory.{
  owned, owned_cmds, owned_tasks, balance, take-all, count-free_all, at_queue_run-balance,
}
use chan_svistok.Pdu.{pdu_parse_sca}
use chan_svistok.Command.{
  Env, Enqued, sca_ok, put_text, pdu_head, retrive_text, delete_text, insert, at_enque_generic,
  task_of, at_enque_pdu, pdu_tasks, at_enque_retrive_sms,
}
use chan_svistok.Command.Dial.{dial_text, clir_text, at_enque_dial, dial_with, dial_clir, hold_cmds}

-- How often an address was given to a text.
abbrev pub made_count : ℕ → List (ℕ × List ℕ) → ℕ
made_count a [] = 0
made_count a (m ∷ ms) = (if m.0 == a then 1 else 0) + made_count a ms

made_count-append :
    (a : ℕ) (ms ns : List (ℕ × List ℕ))
    → made_count a (ms ++ ns) ≡ made_count a ms + made_count a ns
made_count-append a [] ns = omega arith
made_count-append a (m ∷ ms) ns = omega (arith, made_count-append a ms ns)

-- A queue that has room for one more task of `n` commands.
pub record HasRoom (pvt : Pvt) (n : ℕ) : Type 0 where
  pub counted : IsCounted pvt
  pub tasks_left : length pvt.at_queue + 1 < 2 ^ 32
  pub cmds_left : pending pvt.at_queue + n < 2 ^ 32

-- Each allocation that was made is owned by the queue, as a task or the data of a command, or was freed, once,
-- and nothing else is.
abbrev pub Accounts : Pvt → Enqued → Type 0
Accounts pvt e = (a : ℕ) → balance a e.pvt ≡ balance a pvt + made_count a e.made

owned_tasks-append :
    (a : ℕ) (ts us : List Task) → owned_tasks a (ts ++ us) ≡ owned_tasks a ts + owned_tasks a us
owned_tasks-append a [] us = omega arith
owned_tasks-append a (t ∷ ts) us = omega (arith, owned_tasks-append a ts us)

owned-insert_task :
    (a : ℕ) (prio : Bool) (e : Task) (ts : List Task)
    → owned_tasks a (insert_task prio e ts)
      ≡ (if e.address == a then 1 else 0) + (owned_cmds a e.cmds + owned_tasks a ts)
unfolding insert_task
owned-insert_task a prio e [] = omega arith
owned-insert_task a true e (t ∷ ts) = omega arith
owned-insert_task a false e (t ∷ ts) = omega (arith, owned_tasks-append a (t ∷ ts) (e ∷ []))

module _ (pvt : Pvt) (cpvt : ℕ) (cmds : List Cmd) (prio : Bool) where
  -- The device with the new task, which lies at `room`.
  with_task : ℕ → Pvt
  with_task room = record pvt {
    at_queue =
        insert_task prio
          (record { address = room; cmdsno = length cmds; cindex = 0; cpvt = cpvt; cmds = cmds })
          pvt.at_queue;
    at_tasks = add_uint pvt.at_tasks 1;
    at_cmds = add_uint pvt.at_cmds (length cmds);
    stat_at_tasks = add_uint pvt.stat_at_tasks 1;
    stat_at_cmds = add_uint pvt.stat_at_cmds (length cmds);
  }

  add-with_task :
      (room : ℕ)
      → 0 < length cmds
      → at_queue_add pvt cpvt cmds (length cmds) prio (some room) ≡ (with_task room, some room)
  unfolding at_queue_add with_task
  add-with_task room p = rw (lt→ltb 0 (length cmds) p) (
      ap
        (λ cs. (
          record pvt {
            at_queue =
                insert_task prio
                  (record {
                    address = room;
                    cmdsno = length cmds;
                    cindex = 0;
                    cpvt = cpvt;
                    cmds = cs;
                  })
                  pvt.at_queue;
            at_tasks = add_uint pvt.at_tasks 1;
            at_cmds = add_uint pvt.at_cmds (length cmds);
            stat_at_tasks = add_uint pvt.stat_at_tasks 1;
            stat_at_cmds = add_uint pvt.stat_at_cmds (length cmds);
          },
          some room,
        ))
        (take-all (length cmds) cmds refl))

  with_task-IsCounted :
      (room : ℕ) → 0 < length cmds → HasRoom pvt (length cmds) → IsCounted (with_task room)
  with_task-IsCounted room p h =
      subst (λ r. IsCounted r.0) (add-with_task room p)
        (at_queue_add-IsCounted cpvt cmds (length cmds) prio (some room) (omega arith) h.tasks_left
          h.cmds_left h.counted)

  with_task-balance :
      (a room : ℕ)
      → balance a (with_task room)
        ≡ balance a pvt + (owned_cmds a cmds + made_count a (task_of (some room)))
  unfolding with_task
  with_task-balance a room = omega (
    arith,
    owned-insert_task a prio
        (record { address = room; cmdsno = length cmds; cindex = 0; cpvt = cpvt; cmds = cmds })
        pvt.at_queue,
  )

  insert_added :
      (room : ℕ) (os : List Outcome) (now : ℕ)
      → 0 < length cmds
      → (at_queue_insert pvt cpvt cmds (length cmds) prio (some room) os now).1
        ≡ (at_queue_run (with_task room) os now).1
  unfolding at_queue_insert at_queue_insert_task
  insert_added room os now p =
      ap
        (λ (r : Pvt × Option ℕ).
          (at_queue_run
            (elim r.1 as (λ o. Pvt) [
              | none ↦ record r.0 { freed = free_all (take (length cmds) cmds) r.0.freed }
              | some b ↦ r.0
            ])
            os now).1)
        (add-with_task room p)

  insert-balance :
      (a : ℕ) (room : Option ℕ) (os : List Outcome) (now : ℕ)
      → 0 < length cmds
      → HasRoom pvt (length cmds)
      → balance a (at_queue_insert pvt cpvt cmds (length cmds) prio room os now).1
        ≡ balance a pvt + (owned_cmds a cmds + made_count a (task_of room))
  unfolding at_queue_insert at_queue_insert_task at_queue_add
  insert-balance a none os now p h =
      at_queue_run-balance a os now (record {
        live = h.counted.live;
        tasks = h.counted.tasks;
        cmds = h.counted.cmds;
        tasks_small = h.counted.tasks_small;
        cmds_small = h.counted.cmds_small;
      })
      ∙ omega (
        arith,
        count-free_all a (take (length cmds) cmds) pvt.freed,
        ap (owned_cmds a) (take-all (length cmds) cmds refl),
      )
  insert-balance a (some room) os now p h =
      ap (balance a) (insert_added room os now p)
      ∙ at_queue_run-balance a os now (with_task-IsCounted room p h)
      ∙ with_task-balance a room

-- What `insert` does with the commands, if the texts made are those that they own; the task is made with them.
pub insert-Accounts :
    (env : Env) (pvt : Pvt) (cpvt : ℕ) (cmds : List Cmd) (prio : Bool) (made : List (ℕ × List ℕ))
    → 0 < length cmds
    → HasRoom pvt (length cmds)
    → ((a : ℕ) → owned_cmds a cmds ≡ made_count a made)
    → Accounts pvt (insert env pvt cpvt cmds prio made)
insert-Accounts env pvt cpvt cmds prio made p h o a =
    insert-balance pvt cpvt cmds prio a env.room env.device env.now p h
    ∙ omega (arith, o a, made_count-append a made (task_of env.room))

pub fewer : {pvt : Pvt} {m n : ℕ} → m ≤ n → HasRoom pvt n → HasRoom pvt m
fewer l h = record {
  counted = h.counted;
  tasks_left = h.tasks_left;
  cmds_left = omega (arith, h.cmds_left, l);
}

-- `at_enque_generic`, whether its allocation, that of the task, and the write to the device succeed or not:
-- the text that it allocates ends in the queue or is freed, once.
pub at_enque_generic-Accounts :
    (env : Env) (pvt : Pvt) (cpvt cmd : ℕ) (prio : Bool) (text : List ℕ) (mem : Option ℕ)
    → HasRoom pvt 1
    → Accounts pvt (at_enque_generic env pvt cpvt cmd prio text mem)
unfolding at_enque_generic owned
at_enque_generic-Accounts env pvt cpvt cmd prio text none h = λ a. omega arith
at_enque_generic-Accounts env pvt cpvt cmd prio text (some p) h =
    insert-Accounts env pvt cpvt _ prio (put_text p text ∷ []) (omega arith) h (λ a. omega arith)

pdu_tasks-Accounts :
    (env : Env) (pvt : Pvt) (cpvt : ℕ) (pdu tpdu : List ℕ) (body_mem head_mem : Option ℕ)
    → HasRoom pvt 2
    → Accounts pvt (pdu_tasks env pvt cpvt pdu tpdu body_mem head_mem)
unfolding owned
pdu_tasks-Accounts env pvt cpvt pdu tpdu none head_mem h = λ a. omega arith
pdu_tasks-Accounts env pvt cpvt pdu tpdu (some b) none h = λ a. omega arith
pdu_tasks-Accounts env pvt cpvt pdu tpdu (some b) (some p) h =
    insert-Accounts env pvt cpvt _ false ((b, pdu ++ (26 ∷ [])) ∷ ((p, pdu_head tpdu) ∷ []))
      (omega arith) h (λ a. omega arith)

-- On any PDU `at_enque_pdu` accounts for both of its allocations, whichever of them, of the task, or of
-- the write fails.
pub at_enque_pdu-Accounts :
    (env : Env) (pvt : Pvt) (cpvt : ℕ) (pdu : List ℕ) (body_mem head_mem : Option ℕ)
    → HasRoom pvt 2
    → Accounts pvt (at_enque_pdu env pvt cpvt pdu body_mem head_mem)
unfolding at_enque_pdu
at_enque_pdu-Accounts env pvt cpvt pdu body_mem head_mem h =
    elim (Bool-cases (sca_ok (pdu_parse_sca pdu).0 && length pdu % 2 == 0)) [
      | inl e ↦
          rw (at_enque_pdu, e)
            (pdu_tasks-Accounts env pvt cpvt pdu (pdu_parse_sca pdu).1 body_mem head_mem h)
      | inr e ↦ rw (at_enque_pdu, e) (λ a. omega arith)
    ]

-- `at_enque_retrive_sms`, with and without the deletion, accounts for its allocations, whichever fails.
pub at_enque_retrive_sms-Accounts :
    (env : Env) (pvt : Pvt) (cpvt index : ℕ) (delete : Bool) (mem mem' : Option ℕ)
    → HasRoom pvt 2
    → Accounts pvt (at_enque_retrive_sms env pvt cpvt index delete mem mem')
unfolding at_enque_retrive_sms owned
at_enque_retrive_sms-Accounts env pvt cpvt index delete none mem' h = λ a. omega arith
at_enque_retrive_sms-Accounts env pvt cpvt index false (some p) mem' h =
    insert-Accounts env pvt cpvt _ false (put_text p (retrive_text index) ∷ []) (omega arith)
      (fewer (omega arith) h) (λ a. omega arith)
at_enque_retrive_sms-Accounts env pvt cpvt index true (some p) none h = λ a. omega arith
at_enque_retrive_sms-Accounts env pvt cpvt index true (some p) (some q) h =
    insert-Accounts env pvt cpvt _ false
      (put_text p (retrive_text index) ∷ (put_text q (delete_text index) ∷ [])) (omega arith) h
      (λ a. omega arith)

dial_with-Accounts :
    (env : Env) (pvt : Pvt) (cpvt : ℕ) (hold : Bool) (number : List ℕ) (mem : Option ℕ)
    → HasRoom pvt 5
    → Accounts pvt (dial_with env pvt cpvt (hold_cmds env hold) [] number mem)
unfolding owned
dial_with-Accounts env pvt cpvt hold number none h = λ a. omega arith
dial_with-Accounts env pvt cpvt true number (some p) h =
    insert-Accounts env pvt cpvt _ true (put_text p (dial_text number) ∷ []) (omega arith)
      (fewer (omega arith) h) (λ a. omega arith)
dial_with-Accounts env pvt cpvt false number (some p) h =
    insert-Accounts env pvt cpvt _ true (put_text p (dial_text number) ∷ []) (omega arith)
      (fewer (omega arith) h) (λ a. omega arith)

dial_clir-Accounts :
    (env : Env) (pvt : Pvt) (cpvt : ℕ) (hold : Bool) (number : List ℕ) (clir : ℕ)
    (mem mem' : Option ℕ)
    → HasRoom pvt 5
    → Accounts pvt (dial_clir env pvt cpvt (hold_cmds env hold) number clir mem mem')
unfolding owned
dial_clir-Accounts env pvt cpvt hold number clir none mem' h = λ a. omega arith
dial_clir-Accounts env pvt cpvt hold number clir (some p) none h = λ a. omega arith
dial_clir-Accounts env pvt cpvt true number clir (some p) (some q) h =
    insert-Accounts env pvt cpvt _ true
      (put_text q (dial_text number) ∷ (put_text p (clir_text clir) ∷ [])) (omega arith) h
      (λ a. omega arith)
dial_clir-Accounts env pvt cpvt false number clir (some p) (some q) h =
    insert-Accounts env pvt cpvt _ true
      (put_text q (dial_text number) ∷ (put_text p (clir_text clir) ∷ [])) (omega arith)
      (fewer (omega arith) h) (λ a. omega arith)

-- While the counters of the queue are right, and the tasks and the commands of the queue, with one more task
-- and five more commands, stay below 2^32, `at_enque_dial`, with or without CLIR and a call to be held,
-- accounts for its allocations, those of the texts and that of the task, whichever of them or of the write
-- fails: each ends once in the queue or is freed once, and no other is lost or freed twice.
pub at_enque_dial-Accounts :
    (env : Env) (pvt : Pvt) (cpvt : ℕ) (hold_others : Bool) (number : List ℕ)
    (clir clir_mem dial_mem : Option ℕ)
    → HasRoom pvt 5
    → Accounts pvt (at_enque_dial env pvt cpvt hold_others number clir clir_mem dial_mem)
unfolding at_enque_dial
at_enque_dial-Accounts env pvt cpvt hold number none clir_mem dial_mem h =
    dial_with-Accounts env pvt cpvt hold number dial_mem h
at_enque_dial-Accounts env pvt cpvt hold number (some clir) clir_mem dial_mem h =
    dial_clir-Accounts env pvt cpvt hold number clir clir_mem dial_mem h
