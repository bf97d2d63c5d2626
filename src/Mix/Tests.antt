-- ===== src/Mix/Tests.antt =====
-- The mix buffer with two streams, one ahead of the other.
use chan_svistok.Base.{ℕ, ◌+◌, ◌%◌, refl, List, [], ◌∷◌, get_or, if◌then◌else◌, ◌==◌, arith}
use chan_svistok.Memory.{Bytes}
use chan_svistok.Mix.{MixBuffer, SaturatedAdd, mixb_write, local}
use chan_svistok.Mix.Inv.{IsMix}
use chan_svistok.Mix.Write.{mixb_write-IsMix}

-- An addition that keeps the low byte.
abbrev low_add : SaturatedAdd
low_add = record { first = λ a b c d. (a + c) % 256; second = λ a b c d. (b + d) % 256 }

abbrev from_list : List ℕ → Bytes
from_list l = λ i. get_or l i 0

-- Stream 1 holds two bytes, all that the ring holds; stream 2 holds none yet.
abbrev two_streams : MixBuffer
two_streams = record {
  streams = 1 ∷ 2 ∷ [];
  store = λ s. if s == 1 then record { used = 2; write = 0 } else record { used = 0; write = 2 };
  rb = record { buffer = from_list (0 ∷ 0 ∷ 5 ∷ 6 ∷ []); size = 4; used = 2; read = 2; write = 0 };
  attached = 2;
}

two_streams-IsMix : IsMix two_streams
unfolding local
two_streams-IsMix = record {
  ring = omega arith;
  parts = (omega arith, (omega arith, tt));
  distinct = (refl, (refl, tt));
  counted = refl;
}

-- Stream 2 writes three bytes: two are mixed and one is appended.
mixb_write-IsMix_example : IsMix (mixb_write low_add two_streams 2 (from_list (1 ∷ 2 ∷ 3 ∷ [])) 3).1
mixb_write-IsMix_example =
    mixb_write-IsMix low_add two_streams 2 (from_list (1 ∷ 2 ∷ 3 ∷ [])) 3 refl two_streams-IsMix
