-- ===== src/Ring/Tests.antt =====
-- The ring buffer on a ring of four bytes whose three bytes go round the end.
use chan_svistok.Base.{
  ◌<◌, ◌↔◌, negsuc, ℕ, ◌+◌, ◌≡◌, refl, none, some, List, [], ◌∷◌, get_or, pos, arith, add_size,
  sub_size, zero, suc,
}
use chan_svistok.Memory.{Bytes, memmem, memcmp_zero, Agree}
use chan_svistok.Memory.Find.{FirstOf, OccursAt}
use chan_svistok.Ring.{RingBuffer, IoVecs, wrap, contents, rb_memcmp, rb_read_upd, rb_write}
use chan_svistok.Ring.Inv.{IsValid}
use chan_svistok.Ring.Read.{rb_read_upd_lem}
use chan_svistok.Ring.Write.{rb_write_lem}
use chan_svistok.Ring.Order.{put, fetch, replay, promises, replay-promises}
use chan_svistok.Ring.Search.Compare.{rb_memcmp_lem}
use chan_svistok.Ring.Search.{
  straddle_loop, read_until_straddle, rb_read_until_char_iov, rb_read_until_mem_iov,
}
use chan_svistok.Ring.Search.Char.{view, total, rb_read_until_char_iov_lem}
use chan_svistok.Ring.Search.Mem.{rb_read_until_mem_iov_misses}
use chan_svistok.Ring.Search.Crlf.{rb_read_until_mem_iov_two}

abbrev from_list : List ℕ → Bytes
from_list l = λ i. get_or l i 0

-- The bytes a, b, c.
abbrev wrapped : RingBuffer
wrapped = record {
  buffer = from_list (99 ∷ 120 ∷ 97 ∷ 98 ∷ []);
  size = 4;
  used = 3;
  read = 2;
  write = 1;
}

abbrev no_iov : IoVecs
no_iov = record { base0 = 0; len0 = 0; base1 = 0; len1 = 0 }

wrapped-IsValid : IsValid wrapped
wrapped-IsValid = omega arith

contents-wrapped : contents wrapped ≡ 97 ∷ 98 ∷ 99 ∷ []
unfolding wrap
contents-wrapped = refl

rb_read_upd_example : contents (rb_read_upd wrapped 2).1 ≡ 99 ∷ []
unfolding wrap
rb_read_upd_example = (rb_read_upd_lem 2 wrapped-IsValid).1

rb_write_example : contents (rb_write wrapped (from_list (7 ∷ 8 ∷ [])) 2).1 ≡ 97 ∷ 98 ∷ 99 ∷ 7 ∷ []
unfolding wrap
rb_write_example = (rb_write_lem (from_list (7 ∷ 8 ∷ [])) 2 wrapped-IsValid).1

rb_memcmp_starts : rb_memcmp wrapped (from_list (97 ∷ 98 ∷ 99 ∷ [])) 3 ≡ pos 0
unfolding rb_memcmp add_size sub_size memcmp_zero
rb_memcmp_starts = refl

rb_memcmp_example :
    (rb_memcmp wrapped (from_list (97 ∷ 98 ∷ 99 ∷ 100 ∷ [])) 4 ≡ negsuc 0) ↔ (wrapped.used < 4)
rb_memcmp_example =
    (rb_memcmp_lem wrapped (from_list (97 ∷ 98 ∷ 99 ∷ 100 ∷ [])) 4 wrapped-IsValid (omega arith)).1

rb_read_until_char_iov_example :
    FirstOf (λ k. view wrapped k ≡ 99) 3 (total (rb_read_until_char_iov wrapped no_iov 99))
rb_read_until_char_iov_example = rb_read_until_char_iov_lem wrapped no_iov 99 wrapped-IsValid

abbrev bc : Bytes
bc = from_list (98 ∷ 99 ∷ [])

rb_read_until_mem_iov_straddles : total (rb_read_until_mem_iov wrapped no_iov bc 2) ≡ some 1
unfolding rb_read_until_mem_iov read_until_straddle straddle_loop memmem memcmp_zero add_size
    sub_size
rb_read_until_mem_iov_straddles = refl

rb_read_until_mem_iov_two_example :
    FirstOf (OccursAt (view wrapped) bc 2) 2 (total (rb_read_until_mem_iov wrapped no_iov bc 2))
rb_read_until_mem_iov_two_example =
    rb_read_until_mem_iov_two wrapped no_iov bc wrapped-IsValid (omega arith)

-- The ring holds exactly a, b, c, and is asked for it.
abbrev abc : Bytes
abc = from_list (97 ∷ 98 ∷ 99 ∷ [])

abc-view : Agree (view wrapped) abc 3
unfolding wrap
abc-view zero l = refl
abc-view (suc zero) l = refl
abc-view (suc (suc zero)) l = refl
abc-view (suc (suc (suc k))) l = absurd (omega arith)

abc-differs : ¬ Agree (λ i. abc (2 + i)) (λ i. abc (1 + i)) 1
abc-differs h = absurd (omega (arith, h 0 (omega arith)))

rb_read_until_mem_iov_misses_example : total (rb_read_until_mem_iov wrapped no_iov abc 3) ≡ none
rb_read_until_mem_iov_misses_example =
    rb_read_until_mem_iov_misses wrapped no_iov abc 3 wrapped-IsValid (omega arith) refl
      (omega arith) abc-view abc-differs

-- Two bytes are read, two are written where the first were and after, and three are read.
replay-promises_example :
    (replay no_iov wrapped (fetch 2 ∷ put (from_list (7 ∷ 8 ∷ [])) 2 ∷ fetch 3 ∷ [])).0
    ≡ 97 ∷ 98 ∷ 99 ∷ 7 ∷ 8 ∷ []
unfolding promises wrap
replay-promises_example =
    (replay-promises no_iov (fetch 2 ∷ put (from_list (7 ∷ 8 ∷ [])) 2 ∷ fetch 3 ∷ [])
      wrapped-IsValid).0
