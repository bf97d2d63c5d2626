-- ===== src/Queue/Policy.antt =====
-- Which command a response or a failure takes off the queue, where a new task goes, and how much is
-- written.
use chan_svistok.Base.{
  ℕ, ◌+◌, ◌^◌, ◌<◌, ◌≡◌, refl, ap, ◌∙◌, zero, suc, length, drop, List, [], ◌∷◌, ◌++◌, take,
  get_elem?, leb, le→leb, lt→leb, if◌then◌else◌, arith, add_uint, Bool, true, false, some,
}
use chan_svistok.Queue.{
  Cmd, Task, Pvt, insert_task, at_queue_add, unexpected, remove_cmd_from, at_queue_remove_cmd,
  at_queue_handle_result,
}

-- A task that nothing is written of yet.
abbrev pub new_task : ℕ → ℕ → List Cmd → ℕ → Task
new_task a cpvt cmds cmdsno = record {
  address = a;
  cmdsno = cmdsno;
  cindex = 0;
  cpvt = cpvt;
  cmds = take cmdsno cmds;
}

-- A task of at least one command that is added to a queue that is not empty does not displace the
-- head, whose command may be on its way: with priority it goes right behind the head, else to the
-- end.
pub at_queue_add-head :
    (pvt : Pvt) (t : Task) (ts : List Task) (cpvt : ℕ) (cmds : List Cmd) (cmdsno : ℕ) (prio : Bool)
    (a : ℕ)
    → pvt.at_queue ≡ t ∷ ts
    → 0 < cmdsno
    → (at_queue_add pvt cpvt cmds cmdsno prio (some a)).0.at_queue ≡ (
        if prio
        then t ∷ (new_task a cpvt cmds cmdsno ∷ ts)
        else t ∷ (ts ++ (new_task a cpvt cmds cmdsno ∷ [])))
unfolding at_queue_add insert_task
at_queue_add-head pvt t ts cpvt cmds cmdsno prio a h p = ground arith

-- The command that the head of the queue waits for takes `res` as its answer.
abbrev pub Accepts : Task → ℕ → Type 0
Accepts t res = unexpected (get_elem? t.cmds t.cindex) res ≡ false

-- `at_queue_handle_result` for one response after another.
abbrev pub answer_all : List ℕ → Pvt → Pvt
answer_all [] pvt = pvt
answer_all (r ∷ rs) pvt = answer_all rs (at_queue_handle_result pvt r)

-- The answers fit the commands of the task from its index on, one for each.
abbrev pub Fit : List ℕ → Task → Type 0
Fit [] t = t.cindex ≡ t.cmdsno
Fit (r ∷ rs) t = (t.cindex < t.cmdsno) × Accepts t r × Fit rs (record t { cindex = t.cindex + 1 })

answer_last :
    (pvt : Pvt) (t : Task) (ts : List Task) (r : ℕ)
    → pvt.at_queue ≡ t ∷ ts
    → t.cindex + 1 ≡ t.cmdsno
    → t.cmdsno < 2 ^ 32
    → (at_queue_handle_result pvt r).at_queue ≡ ts
unfolding at_queue_handle_result at_queue_remove_cmd add_uint
answer_last pvt t ts r e h l =
    let over : leb t.cmdsno (add_uint t.cindex 1) ≡ true =
      le→leb t.cmdsno (add_uint t.cindex 1) (omega arith) in
    rw (e, remove_cmd_from) (rw over refl)

answer_next :
    (pvt : Pvt) (t : Task) (ts : List Task) (r : ℕ)
    → pvt.at_queue ≡ t ∷ ts
    → t.cindex + 1 < t.cmdsno
    → t.cmdsno < 2 ^ 32
    → Accepts t r
    → (at_queue_handle_result pvt r).at_queue ≡ record t { cindex = t.cindex + 1 } ∷ ts
unfolding at_queue_handle_result at_queue_remove_cmd add_uint
answer_next pvt t ts r e h l ok =
    let more : leb t.cmdsno (add_uint t.cindex 1) ≡ false =
      lt→leb (add_uint t.cindex 1) t.cmdsno (omega arith) in
    let next : add_uint t.cindex 1 ≡ t.cindex + 1 = omega arith in
    rw (e, remove_cmd_from) (rw (more, ok) (ap (λ i. record t { cindex = i } ∷ ts) next))

-- Answers that fit the commands left of the head, one for each in order, take exactly that task
-- off the queue and leave the tasks behind it as they are. At least one command is left, and there
-- are fewer than 2^32.
pub answer_all-finishes :
    (rs : List ℕ) (pvt : Pvt) (t : Task) (ts : List Task)
    → pvt.at_queue ≡ t ∷ ts
    → t.cindex < t.cmdsno
    → t.cmdsno < 2 ^ 32
    → Fit rs t
    → (answer_all rs pvt).at_queue ≡ ts
answer_all-finishes [] pvt t ts e h l fit = absurd (omega arith)
answer_all-finishes (r ∷ []) pvt t ts e h l fit = answer_last pvt t ts r e fit.2 l
answer_all-finishes (r ∷ (r' ∷ rs)) pvt t ts e h l fit =
    answer_all-finishes (r' ∷ rs) (at_queue_handle_result pvt r)
      (record t { cindex = t.cindex + 1 }) ts (answer_next pvt t ts r e fit.2.0 l fit.1) fit.2.0 l
      fit.2

-- Fewer answers, which fit, take as many commands off, and the head stays.
pub answer_all-goes_on :
    (n : ℕ) (rs : List ℕ) (pvt : Pvt) (t : Task) (ts : List Task)
    → pvt.at_queue ≡ t ∷ ts
    → n < length rs
    → t.cmdsno < 2 ^ 32
    → Fit rs t
    → (answer_all (take n rs) pvt).at_queue ≡ record t { cindex = t.cindex + n } ∷ ts
answer_all-goes_on zero rs pvt t ts e h l fit =
    e ∙ ap (λ i. record t { cindex = i } ∷ ts) (omega arith)
answer_all-goes_on (suc n) [] pvt t ts e h l fit = absurd (omega arith)
answer_all-goes_on (suc n) (r ∷ []) pvt t ts e h l fit = absurd (omega arith)
answer_all-goes_on (suc n) (r ∷ (r' ∷ rs)) pvt t ts e h l fit =
    answer_all-goes_on n (r' ∷ rs) (at_queue_handle_result pvt r)
      (record t { cindex = t.cindex + 1 }) ts (answer_next pvt t ts r e fit.2.0 l fit.1)
      (omega arith) l fit.2
    ∙ ap (λ i. record t { cindex = i } ∷ ts) (omega arith)

-- The commands that are not answered yet, by their numbers, in the order in which they are written.
abbrev pub numbers : List Cmd → List ℕ
numbers [] = []
numbers (c ∷ cs) = c.cmd ∷ numbers cs

abbrev pub awaited : List Task → List ℕ
awaited [] = []
awaited (t ∷ ts) = drop t.cindex (numbers t.cmds) ++ awaited ts
