-- ===== src/Calls.antt =====
-- cpvt.c and cpvt.h: the calls of a device, the counters of them, and what of a device refers to a
-- call. `Device` is cut down to what this file reads and writes.
pub mod Inv
pub mod State
mod Tests
use chan_svistok.Base.{
  ltb, ℕ, zero, suc, ◌+◌, ◌%◌, List, [], ◌∷◌, ◌++◌, Bool, true, false, not, ◌||◌, Option, none,
  some, ◌==◌, if◌then◌else◌, add_uint, sub_uint, ℤ, pos, negsuc,
}
use chan_svistok.Queue.{Task}

-- `struct cpvt`, with its address. `call_idx` is a `short`, kept as the `int` of 32 bits that it is read as.
pub record Call : Type 0 where
  pub address : ℕ
  pub call_idx : ℕ
  pub state : ℕ
  pub dir : ℕ

-- The functions of chan_dongle.c that are called.
pub data Hook : Type 0 where
  on_create_1st_channel on_remove_last_channel try_restate : Hook

-- The list of calls, its counters, the queue, the call dialed last, and the calls of `Hook` in order.
pub record Device : Type 0 where
  pub chans : List Call
  pub chansno : ℕ
  pub chan_count : ℕ → ℕ
  pub at_queue : List Task
  pub sys_chan : ℕ
  pub last_dialed_cpvt : Option ℕ
  pub hooks : List Hook

-- The answers of `fcntl` for one descriptor: F_GETFL, F_GETFD, F_SETFL and F_SETFD.
pub record Answers : Type 0 where
  pub getfl : ℤ
  pub getfd : ℤ
  pub setfl : ℤ
  pub setfd : ℤ

unfoldable pub is_fail : ℤ → Bool
is_fail (pos n) = false
is_fail (negsuc n) = n == 0

-- What `rv` is where the loop of `init_pipe` goes to `bad` for this descriptor.
unfoldable pub bad : Answers → Option ℤ
unfolding is_fail
bad a =
    if is_fail a.getfl || is_fail a.getfd
    then some a.getfl
    else (if is_fail a.setfl
        then some a.setfl
        else (if is_fail a.setfd then some a.setfd else none))

-- `init_pipe`: its result, and whether the two descriptors are open after it. `rv` is what `pipe`
-- answers.
unfoldable pub init_pipe : ℤ → Answers → Answers → ℤ × Bool
unfolding bad
init_pipe (negsuc n) a b = (negsuc n, false)
init_pipe (pos (suc n)) a b = (pos (suc n), false)
init_pipe (pos zero) a b = elim (bad a) [
  | some rv ↦ (rv, false)
  | none ↦ (elim (bad b) [ some rv ↦ (rv, false) | none ↦ (pos 0, true) ])
]

-- One of the counters by state, which have 8 bits.
unfoldable pub count_up : (ℕ → ℕ) → ℕ → ℕ → ℕ
count_up f s k = if k == s then (f k + 1) % 256 else f k

unfoldable pub count_down : (ℕ → ℕ) → ℕ → ℕ → ℕ
count_down f s k = if k == s then (f k + 255) % 256 else f k

-- What an `int` is as a `short`, which an index is stored in, read as an `int` again, of 32 bits.
abbrev pub to_short : ℕ → ℕ
to_short i = let n = i % 65536 in if ltb n 32768 then n else n + 4294901760

-- `cpvt_alloc`, given the result of `init_pipe` and the address that `ast_calloc` returns.
unfoldable pub insert_call : Device → ℕ → ℕ → ℕ → ℤ → Option ℕ → Device × Option ℕ
unfolding count_up
insert_call pvt call_idx dir state (negsuc n) room = (pvt, none)
insert_call pvt call_idx dir state (pos (suc n)) room = (pvt, none)
insert_call pvt call_idx dir state (pos zero) none = (pvt, none)
insert_call pvt call_idx dir state (pos zero) (some a) = (
  record pvt {
    chans =
        pvt.chans
        ++ (record { address = a; call_idx = to_short call_idx; state = state; dir = dir % 2 }
            ∷ []);
    chansno = add_uint pvt.chansno 1;
    chan_count = count_up pvt.chan_count state;
    hooks = if pvt.chansno == 0 then pvt.hooks ++ (on_create_1st_channel ∷ []) else pvt.hooks;
  },
  some a,
)

-- `cpvt_alloc`, given what `pipe`, `fcntl` and `ast_calloc` answer: the device and the call.
unfoldable pub cpvt_alloc :
    Device → ℕ → ℕ → ℕ → ℤ → Answers → Answers → Option ℕ → Device × Option ℕ
unfolding insert_call
cpvt_alloc pvt call_idx dir state rv a b room =
    insert_call pvt call_idx dir state (init_pipe rv a b).0 room

-- `AST_LIST_REMOVE_CURRENT` at the call with this address, and the call.
unfoldable pub find_chan : ℕ → List Call → Option Call
find_chan a [] = none
find_chan a (c ∷ cs) = if c.address == a then some c else find_chan a cs

unfoldable pub remove_chan : ℕ → List Call → List Call
remove_chan a [] = []
remove_chan a (c ∷ cs) = if c.address == a then cs else c ∷ remove_chan a cs

unfoldable pub unlink_found : Device → ℕ → Option Call → Device
unfolding remove_chan count_down
unlink_found pvt a none = pvt
unlink_found pvt a (some c) = record pvt {
  chans = remove_chan a pvt.chans;
  chan_count = count_down pvt.chan_count c.state;
  chansno = sub_uint pvt.chansno 1;
}

unfoldable pub unlink : Device → ℕ → Device
unfolding find_chan unlink_found
unlink pvt a = unlink_found pvt a (find_chan a pvt.chans)

-- Relink the tasks of the call to `sys_chan`.
unfoldable pub relink : ℕ → ℕ → List Task → List Task
relink a sys [] = []
relink a sys (t ∷ ts) = (if t.cpvt == a then record t { cpvt = sys } else t) ∷ relink a sys ts

unfoldable pub forget : ℕ → Option ℕ → Option ℕ
forget a none = none
forget a (some b) = if b == a then none else some b

-- `cpvt_free` of the call with this address.
unfoldable pub cpvt_free : Device → ℕ → Device
unfolding unlink relink forget
cpvt_free pvt a =
    let pvt' = unlink pvt a in
    record pvt' {
      at_queue = relink a pvt.sys_chan pvt.at_queue;
      last_dialed_cpvt = forget a pvt.last_dialed_cpvt;
      hooks =
          if pvt'.chansno == 0
          then pvt.hooks ++ (on_remove_last_channel ∷ try_restate ∷ [])
          else pvt.hooks;
    }

-- `pvt_find_cpvt`.
unfoldable pub find_idx : ℕ → List Call → Option ℕ
find_idx i [] = none
find_idx i (c ∷ cs) = if i == c.call_idx then some c.address else find_idx i cs

unfoldable pub pvt_find_cpvt : Device → ℕ → Option ℕ
unfolding find_idx
pvt_find_cpvt pvt call_idx = find_idx call_idx pvt.chans

-- `pvt_call_dir`: the index into its table, the bit 1 for an outgoing call and 2 for another.
unfoldable pub has_dir : Bool → List Call → Bool
has_dir outgoing [] = false
has_dir outgoing (c ∷ cs) = (if c.dir == 0 then outgoing else not outgoing) || has_dir outgoing cs

unfoldable pub pvt_call_dir : Device → ℕ
unfolding has_dir
pvt_call_dir pvt =
    (if has_dir true pvt.chans then 1 else 0) + (if has_dir false pvt.chans then 2 else 0)
