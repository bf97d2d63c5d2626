-- ===== src/Memory/Tests.antt =====
-- memmem.c on a short text.
use chan_svistok.Base.{◌≡◌, refl, some, [], ◌∷◌, get_or, arith}
use chan_svistok.Memory.Find.{FirstOf, OccursAt, memmem_lem}
use chan_svistok.Memory.{Bytes, memcmp_zero, memmem}

abbrev hay : Bytes
hay i = get_or (97 ∷ 98 ∷ 97 ∷ 99 ∷ 97 ∷ 99 ∷ []) i 0

abbrev needle : Bytes
needle i = get_or (97 ∷ 99 ∷ []) i 0

memmem_finds : memmem hay 6 needle 2 ≡ some 2
unfolding memmem memcmp_zero
memmem_finds = refl

memmem_lem_example : FirstOf (OccursAt hay needle 2) 5 (memmem hay 6 needle 2)
memmem_lem_example = memmem_lem hay 6 needle 2 (omega arith) (omega arith)
