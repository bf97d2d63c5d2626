-- ===== src/Ring/Order.antt =====
-- Whole runs of the ring: what its readers get, against a bounded queue of bytes.
use chan_svistok.Base.{
  ℕ, ◌-◌, ◌≡◌, refl, ap, ap₂, ◌∙◌, List, [], ◌∷◌, ◌++◌, ltb, if◌then◌else◌, length, take, drop,
  tabulate, length-tabulate, min,
}
use chan_svistok.Memory.{Bytes, memmove}
use chan_svistok.Ring.{RingBuffer, IoVecs, contents, rb_read_n_iov, rb_read_upd, rb_write}
use chan_svistok.Ring.Inv.{IsValid, rb_read_upd-IsValid, rb_write_core-IsValid}
use chan_svistok.Ring.Window.{iov_bytes}
use chan_svistok.Ring.Read.{rb_read_n_iov_lem, rb_read_upd_lem}
use chan_svistok.Ring.Write.{rb_write_lem}

-- `put` writes bytes; `fetch` asks for the vectors of a number of bytes, reads what they show, and
-- releases that number.
pub data Step : Type 0 where
  put : Bytes → ℕ → Step
  fetch : ℕ → Step

-- What a step delivers, and the ring after it; `iov` is the array that the caller passes.
unfoldable pub serve : IoVecs → RingBuffer → Step → List ℕ × RingBuffer
serve iov rb (put buf len) = ([], (rb_write rb buf len).1)
serve iov rb (fetch len) = (iov_bytes rb.buffer (rb_read_n_iov rb iov len), (rb_read_upd rb len).1)

unfoldable pub replay : IoVecs → RingBuffer → List Step → List ℕ × RingBuffer
unfolding serve
replay iov rb [] = ([], rb)
replay iov rb (s ∷ ss) =
    let (out, rb') = serve iov rb s in let (more, end) = replay iov rb' ss in (out ++ more, end)

-- The same steps on a queue of at most `size` bytes.
unfoldable pub promise : ℕ → List ℕ → Step → List ℕ × List ℕ
promise size q (put buf len) = ([], q ++ tabulate (min len (size - length q)) buf)
promise size q (fetch len) =
    ((if ltb (length q) len then [] else take len q), drop (min len (length q)) q)

unfoldable pub promises : ℕ → List ℕ → List Step → List ℕ × List ℕ
unfolding promise
promises size q [] = ([], q)
promises size q (s ∷ ss) =
    let (out, q') = promise size q s in let (more, end) = promises size q' ss in (out ++ more, end)

length-contents : (rb : RingBuffer) → length (contents rb) ≡ rb.used
length-contents rb = length-tabulate rb.used _

serve-size :
    (iov : IoVecs) {rb : RingBuffer} (s : Step) → IsValid rb → (serve iov rb s).1.size ≡ rb.size
unfolding serve
serve-size iov (put buf len) v = (rb_write_lem buf len v).2
serve-size iov (fetch len) v = (rb_read_upd_lem len v).3

serve-IsValid :
    (iov : IoVecs) {rb : RingBuffer} (s : Step) → IsValid rb → IsValid (serve iov rb s).1
unfolding serve rb_write
serve-IsValid iov (put buf len) v = rb_write_core-IsValid buf len memmove v
serve-IsValid iov (fetch len) v = rb_read_upd-IsValid len v

serve-promise :
    (iov : IoVecs) {rb : RingBuffer} (s : Step)
    → IsValid rb
    → ((serve iov rb s).0, contents (serve iov rb s).1) ≡ promise rb.size (contents rb) s
unfolding serve promise
serve-promise iov {rb} (put buf len) v =
    rw (length-contents rb) (ap (λ q. ([], q)) (rb_write_lem buf len v).1)
serve-promise iov {rb} (fetch len) v = rw (length-contents rb) (
    ap (λ o. (o, contents (rb_read_upd rb len).1)) (rb_read_n_iov_lem iov len v).0
    ∙ ap (λ q. ((if ltb rb.used len then [] else take len (contents rb)), q))
        (rb_read_upd_lem len v).1)

-- A valid ring is a bounded queue: any sequence of writes and reads delivers the bytes that the queue
-- of the bytes held delivers, in order, and ends with the bytes that the queue ends with.
pub replay-promises :
    (iov : IoVecs) {rb : RingBuffer} (ss : List Step)
    → IsValid rb
    → ((replay iov rb ss).0 ≡ (promises rb.size (contents rb) ss).0)
      × (contents (replay iov rb ss).1 ≡ (promises rb.size (contents rb) ss).1)
unfolding replay promises
replay-promises iov {rb} [] v = (refl, refl)
replay-promises iov {rb} (s ∷ ss) v =
    let next = replay-promises iov {rb = (serve iov rb s).1} ss (serve-IsValid iov s v) in
    let out = ap (λ r. r.0) (serve-promise iov s v) in
    let left = ap (λ r. r.1) (serve-promise iov s v) in
    let same : promises (serve iov rb s).1.size (contents (serve iov rb s).1) ss
        ≡ promises rb.size (promise rb.size (contents rb) s).1 ss =
      ap₂ (λ n q. promises n q ss) (serve-size iov s v) left in
    (ap₂ ◌++◌ out (next.0 ∙ ap (λ r. r.0) same), next.1 ∙ ap (λ r. r.1) same)
