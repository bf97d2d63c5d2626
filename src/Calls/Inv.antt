-- ===== src/Calls/Inv.antt =====
-- The counters of the calls, and that nothing refers to a call that was freed.
use chan_svistok.Base.{
  ℕ, zero, suc, ◌+◌, ◌^◌, ◌%◌, ◌<◌, ◌≡◌, ◌≢◌, refl, List, [], ◌∷◌, ◌++◌, Bool, true, false, Option,
  none, some, length, length-append, ◌==◌, if◌then◌else◌, arith, add_uint, sub_uint, ℤ, pos, negsuc,
}
use chan_svistok.Queue.{Task}
use chan_svistok.Calls.{
  Call, Device, Answers, init_pipe, insert_call, to_short, cpvt_alloc, count_up, count_down,
  find_chan, remove_chan, unlink_found, unlink, relink, forget, cpvt_free,
}

-- How many calls are in a state.
abbrev pub in_state : ℕ → List Call → ℕ
in_state s [] = 0
in_state s (c ∷ cs) = (if c.state == s then 1 else 0) + in_state s cs

-- The counters are what they count; the counter of a state has 8 bits.
pub record IsTallied (pvt : Device) : Type 0 where
  pub total : pvt.chansno ≡ length pvt.chans
  pub few : length pvt.chans < 2 ^ 32
  pub each : (s : ℕ) → pvt.chan_count s ≡ in_state s pvt.chans % 256

in_state-append :
    (s : ℕ) (cs ds : List Call) → in_state s (cs ++ ds) ≡ in_state s cs + in_state s ds
in_state-append s [] ds = omega arith
in_state-append s (c ∷ cs) ds = omega (arith, in_state-append s cs ds)

length-remove_chan :
    (a : ℕ) (cs : List Call) (c : Call)
    → find_chan a cs ≡ some c
    → length (remove_chan a cs) + 1 ≡ length cs
unfolding find_chan remove_chan
length-remove_chan a [] c h = ground arith
length-remove_chan a (d ∷ ds) c h = ground (arith, length-remove_chan a ds c)

in_state-remove_chan :
    (s a : ℕ) (cs : List Call) (c : Call)
    → find_chan a cs ≡ some c
    → in_state s (remove_chan a cs) + (if c.state == s then 1 else 0) ≡ in_state s cs
unfolding find_chan remove_chan
in_state-remove_chan s a [] c h = ground arith
in_state-remove_chan s a (d ∷ ds) c h = ground (arith, in_state-remove_chan s a ds c)

insert_call-IsTallied :
    {pvt : Device} (call_idx dir state : ℕ) (pipe : ℤ) (room : Option ℕ)
    → length pvt.chans + 1 < 2 ^ 32
    → IsTallied pvt
    → IsTallied (insert_call pvt call_idx dir state pipe room).0
unfolding insert_call count_up add_uint
insert_call-IsTallied {pvt} call_idx dir state (negsuc n) room l v = v
insert_call-IsTallied {pvt} call_idx dir state (pos (suc n)) room l v = v
insert_call-IsTallied {pvt} call_idx dir state (pos zero) none l v = v
insert_call-IsTallied {pvt} call_idx dir state (pos zero) (some a) l v =
    let e : Call = record {
      address = a;
      call_idx = to_short call_idx;
      state = state;
      dir = dir % 2;
    } in
    record {
      total = omega (arith, v.total, length-append pvt.chans (e ∷ []));
      few = omega (arith, length-append pvt.chans (e ∷ []));
      each = λ s. ground (arith, v.each s, in_state-append s pvt.chans (e ∷ []));
    }

-- `cpvt_alloc` keeps the counters right, also where the pipe or the memory is not got, if there are
-- fewer than 2^32 - 1 calls.
pub cpvt_alloc-IsTallied :
    {pvt : Device} (call_idx dir state : ℕ) (rv : ℤ) (a b : Answers) (room : Option ℕ)
    → length pvt.chans + 1 < 2 ^ 32
    → IsTallied pvt
    → IsTallied (cpvt_alloc pvt call_idx dir state rv a b room).0
unfolding cpvt_alloc
cpvt_alloc-IsTallied call_idx dir state rv a b room l v =
    insert_call-IsTallied call_idx dir state (init_pipe rv a b).0 room l v

unlink_found-IsTallied :
    {pvt : Device} (a : ℕ) (o : Option Call)
    → find_chan a pvt.chans ≡ o
    → IsTallied pvt
    → IsTallied (unlink_found pvt a o)
unfolding unlink_found count_down sub_uint
unlink_found-IsTallied a none e v = v
unlink_found-IsTallied {pvt} a (some c) e v = record {
  total = omega (arith, v.total, v.few, length-remove_chan a pvt.chans c e);
  few = omega (arith, v.few, length-remove_chan a pvt.chans c e);
  each = λ s. ground (arith, v.each s, in_state-remove_chan s a pvt.chans c e);
}

unlink-IsTallied : {pvt : Device} (a : ℕ) → IsTallied pvt → IsTallied (unlink pvt a)
unfolding unlink
unlink-IsTallied {pvt} a v = unlink_found-IsTallied a (find_chan a pvt.chans) refl v

-- `cpvt_free` keeps the counters right, whether or not the call is on the list.
pub cpvt_free-IsTallied : {pvt : Device} (a : ℕ) → IsTallied pvt → IsTallied (cpvt_free pvt a)
unfolding cpvt_free
cpvt_free-IsTallied a v =
    let w = unlink-IsTallied a v in record { total = w.total; few = w.few; each = w.each }

-- A task of the call is queued.
abbrev pub refers : ℕ → List Task → Bool
refers a [] = false
refers a (t ∷ ts) = if t.cpvt == a then true else refers a ts

abbrev pub OneEach : List Call → Type 0
OneEach [] = Unit {0}
OneEach (c ∷ cs) = (find_chan c.address cs ≡ none) × OneEach cs

find_chan-remove_chan :
    (a : ℕ) (cs : List Call) → OneEach cs → find_chan a (remove_chan a cs) ≡ none
unfolding find_chan remove_chan
find_chan-remove_chan a [] d = refl
find_chan-remove_chan a (c ∷ cs) d = ground (arith, find_chan-remove_chan a cs d.1, d.0)

refers-relink : (a sys : ℕ) (ts : List Task) → a ≢ sys → refers a (relink a sys ts) ≡ false
unfolding relink
refers-relink a sys [] ne = refl
refers-relink a sys (t ∷ ts) ne = ground (arith, refers-relink a sys ts ne)

forget-other : (a : ℕ) (o : Option ℕ) → forget a o ≢ some a
unfolding forget
forget-other a none e = ground arith
forget-other a (some b) e = ground arith

find_chan-unlink_found :
    (pvt : Device) (a : ℕ) (o : Option Call)
    → find_chan a pvt.chans ≡ o
    → OneEach pvt.chans
    → find_chan a (unlink_found pvt a o).chans ≡ none
unfolding unlink_found
find_chan-unlink_found pvt a none e d = e
find_chan-unlink_found pvt a (some c) e d = find_chan-remove_chan a pvt.chans d

-- After `cpvt_free` nothing of the device refers to the freed call: it is not on the list, no queued
-- task is its task, and it is not the call dialed last. The calls on the list have addresses of
-- their own, other than that of `sys_chan`.
pub cpvt_free-forgets :
    (pvt : Device) (a : ℕ)
    → OneEach pvt.chans
    → a ≢ pvt.sys_chan
    → let pvt' = cpvt_free pvt a in
      (find_chan a pvt'.chans ≡ none)
      × (refers a pvt'.at_queue ≡ false)
      × (pvt'.last_dialed_cpvt ≢ some a)
unfolding cpvt_free unlink
cpvt_free-forgets pvt a d ne = (
  find_chan-unlink_found pvt a (find_chan a pvt.chans) refl d,
  refers-relink a pvt.sys_chan pvt.at_queue ne,
  forget-other a pvt.last_dialed_cpvt,
)
