-- ===== src/Command/Tests.antt =====
-- A device with an empty queue.
use chan_svistok.Base.{ℕ, List, false, ◌<◌, ◌^◌, ◌≡◌, refl, [], ◌∷◌, true, none, some, arith, ascii}
use chan_svistok.CharConv.{Iconv, text}
use chan_svistok.Queue.{Pvt, wrote}
use chan_svistok.Queue.Policy.{answer_all, awaited}
use chan_svistok.Response.{res_ok}
use chan_svistok.Command.Text.{Settings, at_enque_sms, at_enque_sms-Accounts}
use chan_svistok.Command.Start.{at_enque_initialization}
use chan_svistok.Command.Start.Finish.{eight_ok, at_enque_initialization-finishes}
use chan_svistok.Queue.Inv.{IsCounted}
use chan_svistok.Command.{Env, decimal}
use chan_svistok.Command.Dial.{at_enque_dial}
use chan_svistok.Command.Memory.{HasRoom, Accounts, at_enque_dial-Accounts}

abbrev idle : Pvt
idle = record {
  at_queue = [];
  at_tasks = 0;
  at_cmds = 0;
  stat_at_tasks = 0;
  stat_at_cmds = 0;
  d_write_bytes = 0;
  freed = [];
}

abbrev ready : Env
ready = record { literal_at = λ text. 100; room = some 200; device = wrote 50 ∷ []; now = 7 }

idle-IsCounted : IsCounted idle
idle-IsCounted = record {
  live = tt;
  tasks = refl;
  cmds = refl;
  tasks_small = omega arith;
  cmds_small = omega arith;
}

idle-HasRoom : (n : ℕ) → n < 2 ^ 32 → HasRoom idle n
idle-HasRoom n l = record {
  counted = idle-IsCounted;
  tasks_left = omega arith;
  cmds_left = omega arith;
}

decimal_test : (decimal 1974 ≡ ascii "1974") × (decimal 4294967295 ≡ ascii "-1")
unfolding decimal
decimal_test = (refl, refl)

at_enque_dial-Accounts_example :
    Accounts idle (at_enque_dial ready idle 1 true (ascii "112") (some 1) (some 300) (some 301))
at_enque_dial-Accounts_example =
    at_enque_dial-Accounts ready idle 1 true (ascii "112") (some 1) (some 300) (some 301)
      (idle-HasRoom 5 (omega arith))

-- An iconv that puts a zero in front of each byte.
abbrev spread : List ℕ → List ℕ
spread [] = []
spread (c ∷ cs) = 0 ∷ (c ∷ spread cs)

abbrev spreading : Iconv
spreading = record { ucs2_to_utf8 = λ t n. text t; utf8_to_ucs2 = λ t n. text (spread t) }

abbrev text_mode : Settings
text_mode = record { use_pdu = false; use_ucs2_encoding = false; cusd_use_7bit_encoding = false }

at_enque_sms-Accounts_example :
    Accounts idle
      (at_enque_sms spreading text_mode ready idle 1 (ascii "+112") (ascii "Hello") (some 300) none)
at_enque_sms-Accounts_example =
    at_enque_sms-Accounts spreading text_mode ready idle 1 (ascii "+112") (ascii "Hello") (some 300)
      none (omega arith) (idle-HasRoom 2 (omega arith))

at_enque_initialization-finishes_example :
    let start = at_enque_initialization (record ready { device = wrote 2 ∷ [] }) idle 1 in
    (awaited (answer_all (res_ok ∷ res_ok ∷ []) start).at_queue ≡ 7 ∷ 8 ∷ 9 ∷ 41 ∷ 10 ∷ 5 ∷ [])
    × ((answer_all eight_ok start).at_queue ≡ [])
at_enque_initialization-finishes_example =
    at_enque_initialization-finishes (record ready { device = wrote 2 ∷ [] }) idle 1 200 [] 2 refl
      refl refl (omega arith)
